-- ===== src/Flow/Build/Linked.antt =====
-- Edges and links of a block that `control_flow_conversion` of
-- src/frontend/IRLoader/control_flow.cpp adds to its graph.
use spoq.Base.{
  ℕ, Option, none, some, List, [], ◌∷◌, ◌++◌, ◌≡◌, ◌≢◌, refl, ap, sym, ◌∙◌, subst, String,
  map_option,
}
use spoq.Dict.{get}
use spoq.Dict.Valid.{insert-IsValid}
use spoq.Dict.Laws.{get-insert, get-insert_other}
use spoq.Flow.{Node, Graph}
use spoq.Flow.Rules.Cases.{bind_some}
use spoq.Ir.{IrInst, IrInsts, append}
use spoq.Flow.Links.{Memᴰ, IsLinked}
use spoq.Flow.Links.Fusion.{some_eq}
use spoq.Flow.Links.Fresh.{IsFresh}
use spoq.Flow.Build.{
  each, Way, ways_of, split_last, kept_insts, push_way, push_at, link_at, link_edge, set_node,
  link_all, add_ways,
}
use spoq.Flow.Build.Pending.{IsPending, none_pending, all_linked}
use spoq.Flow.Build.Push.{pushed-IsPending}
use spoq.Flow.Build.Link.{linked-IsPending}

-- The edges of the other nodes are as before.
abbrev SameElsewhere : String → Graph → Graph → Type 0
SameElsewhere n g g' = (m : String) → m ≢ n → get m g'.edges ≡ get m g.edges

pub map_some {ℓ κ} :
    {A : Type ℓ} {B : Type κ} (f : A → B) (o : Option A) (b : B)
    → map_option f o ≡ some b
    → (a : A) × (o ≡ some a) × (f a ≡ b)
map_some f none b h = cc
map_some f (some a) b h = (a, refl, some_eq h)

each_push :
    (n : String) (ways : List Way) (ps : List ℕ) (g g' : Graph)
    → IsPending n ps g
    → get n g.edges ≡ some ps
    → each (push_way n) ways g ≡ some g'
    → (qs : List ℕ) × IsPending n qs g' × (get n g'.edges ≡ some qs) × SameElsewhere n g g'
unfolding each push_way
each_push n [] ps g g' p h e =
    let q = some_eq e in
    (
      ps,
      subst (IsPending n ps) q p,
      subst (λ k. get n k.edges ≡ some ps) q h,
      λ m j. ap (λ k. get m k.edges) (sym q),
    )
each_push n (way ∷ ways) ps g g' p h e =
    let (k, a, b) = bind_some (push_way n way g) (each (push_way n) ways) g' e in
    let (es, c, d) = map_some (push_at n way g) (get n g.edges) k a in
    let q = ap (push_at n way g) (some_eq (sym h ∙ c)) ∙ d in
    let r =
      each_push n ways (ps ++ g.new_edge ∷ []) (push_at n way g ps) g'
        (pushed-IsPending n ps g p way ps h)
        (get-insert n (ps ++ g.new_edge ∷ []) g.edges p.edges_valid)
        (ap (each (push_way n) ways) q ∙ b) in
    (
      r.0,
      r.1,
      r.2,
      λ m j. r.3 m j ∙ get-insert_other n m (ps ++ g.new_edge ∷ []) g.edges p.edges_valid j,
    )

each_link :
    (n : String) (ps : List ℕ) (g g' : Graph)
    → IsPending n ps g
    → each (link_edge n) ps g ≡ some g'
    → IsPending n [] g' × (g'.edges ≡ g.edges)
unfolding each link_edge
each_link n [] g g' p e =
    let q = some_eq e in (subst (IsPending n []) q p, ap (λ k. k.edges) (sym q))
each_link n (x ∷ ps) g g' p e =
    let (k, a, b) = bind_some (link_edge n x g) (each (link_edge n) ps) g' e in
    let (bs, c, d) = map_some (link_at n x g) (get (g.edge_at x).next g.backwards) k a in
    let r =
      each_link n ps (link_at n x g bs) g' (linked-IsPending n x ps g p bs c)
        (ap (each (link_edge n) ps) d ∙ b) in
    (r.0, r.1)

-- What the loop over the blocks keeps: the blocks `ns` have no edges yet.
pub record IsBuilt (ns : List String) (g : Graph) : Type 0 where
  pub is_linked : IsLinked g
  pub is_fresh : IsFresh g
  pub no_edges : (m : String) → Memᴰ m ns → get m g.edges ≡ some []

set_node-IsLinked :
    (n : String) (is : IrInsts) (last : IrInst) (node : Node) (g : Graph)
    → IsLinked g
    → IsLinked (set_node n is last node g)
unfolding set_node
set_node-IsLinked n is last node g w = record {
  nodes_valid =
      insert-IsValid n
        (record node { insts = append node.insts is; scc = none; last_inst = some last }) g.nodes
        w.nodes_valid;
  edges_valid = w.edges_valid;
  backwards_valid = w.backwards_valid;
  no_empty_name = w.no_empty_name;
  own_link = w.own_link;
  arrives = λ m es x h i k.
      let a = w.arrives m es x h i k in
      record {
        link = a.link;
        links = a.links;
        has_link = a.has_link;
        at_next = a.at_next;
        listed = a.listed;
      };
  departs = λ t bs b h i.
      let d = w.departs t bs b h i in
      record {
        leads = d.leads;
        linked = d.linked;
        outgoing = d.outgoing;
        at_from = d.at_from;
        listed = d.listed;
      };
}

set_node-edges :
    (n : String) (is : IrInsts) (last : IrInst) (node : Node) (g : Graph)
    → (set_node n is last node g).edges ≡ g.edges
unfolding set_node
set_node-edges n is last node g = refl

set_node-IsFresh :
    (n : String) (is : IrInsts) (last : IrInst) (node : Node) (g : Graph)
    → IsFresh g
    → IsFresh (set_node n is last node g)
unfolding set_node
set_node-IsFresh n is last node g f = record {
  edges_below = f.edges_below;
  links_below = f.links_below;
  backs_below = f.backs_below;
}

pub add_ways-IsBuilt :
    (n : String) (ns : List String) (is : IrInsts) (g g' : Graph)
    → IsBuilt (n ∷ ns) g
    → ((y : String) → Memᴰ y ns → n ≢ y)
    → add_ways n is g ≡ some g'
    → IsBuilt ns g'
unfolding add_ways link_all
add_ways-IsBuilt n ns is g g' v names e =
    let (p, a0, e1) = bind_some (split_last is) _ g' e in
    let (ways, a1, e2) = bind_some (ways_of p.1) _ g' e1 in
    let (node, a2, e3) = bind_some (get n g.nodes) _ g' e2 in
    let g1 = set_node n (kept_insts p.1 is p.0) p.1 node g in
    let (g2, a3, e4) = bind_some (each (push_way n) ways g1) (link_all n) g' e3 in
    let h1 = set_node-edges n (kept_insts p.1 is p.0) p.1 node g in
    let h = ap (get n) h1 ∙ v.no_edges n (Memᴰ.head refl) in
    let w =
      all_linked n [] g1 (set_node-IsLinked n (kept_insts p.1 is p.0) p.1 node g v.is_linked)
        (set_node-IsFresh n (kept_insts p.1 is p.0) p.1 node g v.is_fresh) h in
    let r = each_push n ways [] g1 g2 w h a3 in
    let (es, a4, e5) = bind_some (get n g2.edges) _ g' e4 in
    let q = some_eq (sym a4 ∙ r.2) in
    let l = each_link n r.0 g2 g' r.1 (ap (λ z. each (link_edge n) z g2) (sym q) ∙ e5) in
    record {
      is_linked = none_pending l.0;
      is_fresh = l.0.is_fresh;
      no_edges = λ m i.
          ap (get m) l.1
          ∙ r.3 m (λ k. names m i (sym k))
          ∙ ap (get m) h1
          ∙ v.no_edges m (Memᴰ.tail i);
    }
