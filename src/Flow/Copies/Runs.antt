-- ===== src/Flow/Copies/Runs.antt =====
-- Runs after `rule_duplicate_node` of src/frontend/IRLoader/control_flow.cpp.
use spoq.Base.{
  ℕ, ◌<◌, true, Option, none, some, List, [], ◌∷◌, ◌≡◌, ◌≢◌, refl, ap, ap₂, sym, ◌∙◌, subst, ◌↔◌,
  String, ◌==◌, ◌>>=◌, Bool-cases, inl, inr, eq_iff,
}
use spoq.Dict.{get, erase}
use spoq.Dict.Laws.{false→not_eq}
use spoq.Ir.{IrInsts, no_insts, append}
use spoq.Flow.{Node, Edge, Graph, drop_node}
use spoq.Flow.Rules.Cases.{bind_some}
use spoq.Flow.Links.{Memᴰ, IsLinked}
use spoq.Flow.Links.Fusion.{some_eq, has_name, incoming}
use spoq.Flow.Links.Fresh.{IsFresh}
use spoq.Flow.Build.{each}
use spoq.Flow.Build.Linked.{map_some}
use spoq.Flow.Build.Pending.{AllApart}
use spoq.Flow.Copies.{way_insts, copy_link, unlink_node, duplicate_node}
use spoq.Flow.Copies.Loop.{EdgesApart, IsCopy}
use spoq.Flow.Meaning.{
  Machine, running, finished, Ends, continue, arrive, exec, exec-append, next, traverse,
}
use spoq.Flow.Meaning.Runs.{Runs, Fuses, Runs-Fuses}
use spoq.Flow.Meaning.Edges.{enter, next-enter, next-erase, CarriesOn}
use spoq.Flow.Meaning.Fusion.{leave_none, leave_one, traverse_on, traverse_past}
use spoq.Flow.Meaning.Absorb.{no_return}
use spoq.Flow.Copies.Edges.{
  each_copied, CopyCase, copy_case, listed_way, target_of, unlink_node_same,
}

-- Links in one list have different edges.
edges_apart :
    (g : Graph)
    → IsLinked g
    → (n : String) (all bs : List ℕ) → get n g.backwards ≡ some all
    → ((b : ℕ) → Memᴰ b bs → Memᴰ b all)
    → AllApart bs
    → EdgesApart g.back_at bs
edges_apart g w n all [] h i a = tt
edges_apart g w n all (b ∷ bs) h i a = (
  λ c j p.
      let d = w.departs n all b h (i b (Memᴰ.head refl)) in
      let e = w.departs n all c h (i c (Memᴰ.tail j)) in
      a.0 c j (some_eq (sym d.linked ∙ ap (λ x. (g.edge_at x).backward) p ∙ e.linked)),
  edges_apart g w n all bs h (λ c j. i c (Memᴰ.tail j)) a.1,
)

module _ (M : Machine) (g : Graph) (w : IsLinked g) (f : IsFresh g) (n : String) where
  open M use {State, Result}

  exec-nothing : (o : Ends M) → continue M (exec M no_insts) o ≡ o
  unfolding exec
  exec-nothing (running s) = refl
  exec-nothing (finished r) = refl

  -- The node does what is added to the edges.
  next-node :
      (node : Node) (way : Option ℕ)
      → get n g.nodes ≡ some node
      → get n g.edges ≡ some (listed_way way)
      → (t : State)
      → next M g n t
        ≡ some (arrive M (target_of g way) (exec M (append node.insts (way_insts g way)) t))
  next-node node none p q t =
      next-enter M g n t
      ∙ ap₂ (enter M g.edge_at t) p q
      ∙ ap some (leave_none M g.edge_at (exec M node.insts t))
      ∙ ap (λ o. some (arrive M "" o))
          (sym (exec-append M node.insts no_insts t ∙ exec-nothing (exec M node.insts t)))
  next-node node (some y) p q t =
      next-enter M g n t
      ∙ ap₂ (enter M g.edge_at t) p q
      ∙ ap some (leave_one M g.edge_at y (exec M node.insts t))
      ∙ ap (λ o. some (arrive M (g.edge_at y).next o))
          (sym (exec-append M node.insts (g.edge_at y).insts t))

  module _ (g' : Graph) (c : CopyCase n g g') (apart_links : AllApart c.links) where
    abbrev s : String
    s = target_of g c.way

    abbrev tail : IrInsts
    tail = append c.node.insts (way_insts g c.way)

    named : n ≢ ""
    named = has_name g w n c.links c.has_links

    -- The store after the loop, seen from the graph before it.
    carries :
        (h : ℕ → Edge)
        → ((b : ℕ)
            → Memᴰ b c.links
            → IsCopy s tail (g.edge_at (g.back_at b).edge) (h (g.back_at b).edge))
        → ((y : ℕ) → ((b : ℕ) → Memᴰ b c.links → (g.back_at b).edge ≢ y) → h y ≡ g.edge_at y)
        → CarriesOn M g n h
    carries h copied elsewhere m es x t k e i = elim (Bool-cases ((g.edge_at x).next == n)) [
      | inl q ↦
          let p = (eq_iff (g.edge_at x).next n).0 q in
          let (b, j, u, v, z) = incoming g w n c.links m es x c.has_links e i p in
          let d = subst (λ y. IsCopy s tail (g.edge_at y) (h y)) v (copied b j) in
          traverse_on M g n (g.edge_at x) (h x) tail named p d.1
            (λ t.
              next-node c.node c.way c.has_node c.has_edges t
              ∙ ap (λ y. some (arrive M y (exec M tail t))) (sym d.0))
            t
      | inr q ↦
          let p = false→not_eq (g.edge_at x).next n q in
          let o = elsewhere x (λ b j y.
            let d = w.departs n c.links b c.has_links j in
            p (ap (λ z. (g.edge_at z).next) (sym y) ∙ d.leads)) in
          ap (λ d. some (traverse M d t)) o ∙ traverse_past M g n (g.edge_at x) t p
    ]

    copies-Fuses : Fuses M g g' n
    unfolding drop_node
    copies-Fuses =
        let (k, e, q) =
          map_some (λ z. (drop_node n z, true))
            (unlink_node n s g >>= each (copy_link s c.way c.node) c.links) (g', true) c.result in
        let (g1, a, b) =
          bind_some (unlink_node n s g) (each (copy_link s c.way c.node) c.links) k e in
        let u = unlink_node_same n s g g1 a in
        let r =
          each_copied s c.way c.node g.back_at c.links g1 k
            (edges_apart g w n c.links c.links c.has_links (λ b j. j) apart_links)
            (λ b j. ap (λ z. z b) u.same_back_at)
            (λ b j.
              subst (λ z. b < z) (sym u.same_new_back) (f.backs_below n c.links b c.has_links j))
            b in
        let at = λ (y : ℕ). ap (λ z. z y) u.same_edge_at in
        subst (λ z. Fuses M g z n) (ap (λ z. z.0) q)
          (record {
            next-resolve =
                next-erase M g (drop_node n k) n w.nodes_valid w.edges_valid
                  (ap (erase n) (r.same_nodes ∙ u.same_nodes))
                  (ap (erase n) (r.same_edges ∙ u.same_edges))
                  (λ y. r.conds y ∙ ap (λ d. d.cond) (at y))
                  (carries k.edge_at
                    (λ b j.
                      let d = r.copied b j in
                      (
                        d.0,
                        d.1
                            ∙ ap₂ append (ap (λ z. z.insts) (at (g.back_at b).edge))
                                (same_way g1 c.way (λ y. at y)),
                      ))
                    (λ y i. r.elsewhere y i ∙ at y));
            no_return =
                no_return M g n s tail (next-node c.node c.way c.has_node c.has_edges)
                  (λ p. named (c.leads_on p));
          })
      where
        same_way :
            (g1 : Graph)
            → (o : Option ℕ) → ((y : ℕ) → g1.edge_at y ≡ g.edge_at y)
            → append c.node.insts (way_insts g1 o) ≡ append c.node.insts (way_insts g o)
        same_way g1 none h = refl
        same_way g1 (some y) h = ap (λ d. append c.node.insts d.insts) (h y)

  -- `rule_duplicate_node` keeps what a graph does: where it changes a graph whose edges and links
  -- belong together and whose new addresses are not in use, the graphs come to the same ends from
  -- every node but the one that is copied. No link is twice in the list of this node.
  pub Runs-duplicate_node :
      (g' : Graph) (bs : List ℕ)
      → get n g.backwards ≡ some bs
      → AllApart bs
      → duplicate_node n g ≡ some (g', true)
      → (m : String) (s : State) (o : Ends M) → m ≢ n
      → Runs M g m s o ↔ Runs M g' m s o
  Runs-duplicate_node g' bs h a e m s o k =
      let c = copy_case n g g' e in
      Runs-Fuses M (copies-Fuses g' c (subst AllApart (some_eq (sym h ∙ c.has_links)) a)) m s o k
