-- ===== src/Flow/Meaning/Endings.antt =====
-- Runs that end where a graph of src/frontend/IRLoader/control_flow.cpp ends.
use spoq.Base.{
  ℕ, some, List, [], ◌∷◌, ◌≡◌, ◌≢◌, refl, ap, sym, ◌∙◌, subst, ◌⊎◌, inl, inr, String, nat_eq,
  nat_eq→eq, Bool-cases,
}
use spoq.Dict.{get}
use spoq.Dict.Laws.{erase_left, get-insert_other}
use spoq.Ir.{IrInsts, append}
use spoq.Flow.{Node, Edge, Graph, write, drop_node}
use spoq.Flow.Rules.{absorb_leaf, absorb_bridge}
use spoq.Flow.Rules.Cases.{LeafCase, BridgeCase}
use spoq.Flow.Branches.{ordered, add_insts, plain_edge, leave_at, join_at}
use spoq.Flow.Branches.Cases.{MergeCase}
use spoq.Flow.Links.{Memᴰ, IsLinked}
use spoq.Flow.Links.Fusion.{only_member, write_here, write_other}
use spoq.Flow.Links.Kept
use spoq.Flow.Links.Bridge
use spoq.Flow.Links.Members.{insert_left}
use spoq.Flow.Links.Fresh.{IsFresh}
use spoq.Flow.Links.Joined
use spoq.Flow.Meaning.{Machine, running, finished, Ends, continue, exec, exec-append}
use spoq.Flow.Meaning.Edges.{ordered-Memᴰ, pick-Memᴰ}
use spoq.Flow.Meaning.Merge.{IfLaw, common_next-Memᴰ, exec-nested}

module _ (M : Machine) where
  open M use {State, Result}

  abbrev pub Finishes : IrInsts → Type 0
  Finishes is = (s : State) → (r : Result) × (exec M is s ≡ finished r)

  -- A run ends on every edge that leaves the graph and in every node without edges.
  pub record EndsAll (g : Graph) : Type 0 where
    pub edges_end :
        (m : String) (es : List ℕ) (x : ℕ)
        → get m g.edges ≡ some es
        → Memᴰ x es
        → (g.edge_at x).next ≡ ""
        → Finishes (g.edge_at x).insts
    pub nodes_end :
        (m : String) (node : Node)
        → get m g.nodes ≡ some node
        → get m g.edges ≡ some []
        → Finishes node.insts

  append-Finishes : (is js : IrInsts) → Finishes js → Finishes (append is js)
  append-Finishes is js h s = let (r, e) = go (exec M is s) in (r, exec-append M is js s ∙ e)
    where
      go : (o : Ends M) → (r : Result) × (continue M (exec M js) o ≡ finished r)
      go (running t) = h t
      go (finished r) = (r, refl)

  module _ (g : Graph) (w : IsLinked g) (v : EndsAll g) (n : String) (g' : Graph) where
    -- An edge that is written, or one that was there.
    written_end :
        (i x : ℕ) (e : Edge) (m : String) (es : List ℕ)
        → (e.next ≡ "" → Finishes e.insts)
        → get m g.edges ≡ some es
        → Memᴰ x es
        → (write i e g.edge_at x).next ≡ ""
        → Finishes (write i e g.edge_at x).insts
    written_end i x e m es new h k p = elim (Bool-cases (nat_eq i x)) [
      | inl q ↦
          let r = write_here i x e g.edge_at (nat_eq→eq i x q) in
          subst (λ d. Finishes d.insts) (sym r) (new (sym (ap (λ d. d.next) r) ∙ p))
      | inr q ↦
          let r = write_other i x e g.edge_at q in
          subst (λ d. Finishes d.insts) (sym r)
            (v.edges_end m es x h k (sym (ap (λ d. d.next) r) ∙ p))
    ]

    pub leaf-EndsAll :
        (c : LeafCase n g g') → EndsAll (absorb_leaf n g (g.back_at c.link).edge c.node)
    unfolding absorb_leaf drop_node
    leaf-EndsAll c = record {
      edges_end = λ m es x h k p.
          written_end (g.back_at c.link).edge x (Kept.new g w n g' c) m es
            (λ q.
              append-Finishes (Kept.old g w n g' c).insts c.node.insts
                (v.nodes_end n c.node c.has_node c.has_edges))
            (erase_left n m g.edges es w.edges_valid h).1 k p;
      nodes_end = λ m node h k.
          v.nodes_end m node (erase_left n m g.nodes node w.nodes_valid h).1
            (erase_left n m g.edges [] w.edges_valid k).1;
    }

    pub bridge-EndsAll :
        (c : BridgeCase n g g')
        → EndsAll (absorb_bridge n g (g.back_at c.link).from (g.back_at c.link).edge c.way c.node)
    unfolding absorb_bridge drop_node
    bridge-EndsAll c = record {
      edges_end = λ m es x h k p.
          written_end (g.back_at c.link).edge x (Bridge.new g w n g' c) m es
            (λ q.
              append-Finishes (append (g.edge_at (g.back_at c.link).edge).insts c.node.insts)
                (g.edge_at c.way).insts
                (v.edges_end n (c.way ∷ []) c.way c.has_edges (Memᴰ.head refl) q))
            (erase_left n m g.edges es w.edges_valid h).1 k p;
      nodes_end = λ m node h k.
          v.nodes_end m node (erase_left n m g.nodes node w.nodes_valid h).1
            (erase_left n m g.edges [] w.edges_valid k).1;
    }

    module _ (law : IfLaw M) (f : IsFresh g) (c : MergeCase n g g') where
      abbrev merged : Node
      merged = add_insts c.nest c.node

      nest_end : c.common ≡ "" → Finishes c.nest
      nest_end p s =
          let (x, u, e) =
            exec-nested M law g.edge_at (ordered g.edge_at c.ways) c.nest s c.has_nest in
          let m =
            ordered-Memᴰ g.edge_at c.ways x
              (pick-Memᴰ M g.edge_at (ordered g.edge_at c.ways) s x u) in
          let q = out (common_next-Memᴰ g.edge_at "" c.ways c.common x c.has_common m) p in
          let (r, k) = v.edges_end n c.ways x c.has_edges m q s in (r, e ∙ k)
        where
          out : {s t : String} → (s ≡ "") ⊎ (s ≡ t) → t ≡ "" → s ≡ ""
          out (inl e) p = e
          out (inr e) p = e ∙ p

      pub left-EndsAll : c.common ≡ "" → EndsAll (leave_at n g merged)
      unfolding leave_at
      left-EndsAll p = record {
        edges_end = λ m es x h k q. elim (insert_left n m [] es g.edges w.edges_valid h) [
          | inl (i, r) ↦ elim (subst (Memᴰ x) r k) [ ]
          | inr (i, r) ↦ v.edges_end m es x r k q
        ];
        nodes_end = λ m node h k. elim (insert_left n m merged node g.nodes w.nodes_valid h) [
          | inl (i, r) ↦
              subst (λ d. Finishes d.insts) (sym r)
                (append-Finishes c.node.insts c.nest (nest_end p))
          | inr (i, r) ↦
              v.nodes_end m node r (sym (get-insert_other n m [] g.edges w.edges_valid i) ∙ k)
        ];
      }

      pub joined-EndsAll :
          (bs : List ℕ)
          → c.common ≢ ""
          → get c.common g.backwards ≡ some bs
          → EndsAll (join_at n c.common g merged bs)
      unfolding join_at
      joined-EndsAll bs named has = record {
        edges_end = λ m es x h k q.
            elim (insert_left n m (g.new_edge ∷ []) es g.edges w.edges_valid h) [
              | inl (i, r) ↦
                  let e = only_member x g.new_edge (subst (Memᴰ x) r k) in
                  let d =
                    ap (write g.new_edge (plain_edge c.common g.new_back) g.edge_at) e
                    ∙ Joined.edge_new g w f n g' c merged bs named has in
                  absurd (named (sym (ap (λ z. z.next) d) ∙ q))
              | inr (i, r) ↦
                  let d = Joined.edge_old g w f n g' c merged bs named has m es x r k in
                  subst (λ z. Finishes z.insts) (sym d)
                    (v.edges_end m es x r k (sym (ap (λ z. z.next) d) ∙ q))
            ];
        nodes_end = λ m node h k.
            elim (insert_left n m (g.new_edge ∷ []) [] g.edges w.edges_valid k) [
              | inl (i, r) ↦ cc
              | inr (i, r) ↦
                  v.nodes_end m node (sym (get-insert_other n m merged g.nodes w.nodes_valid i) ∙ h)
                    r
            ];
      }
