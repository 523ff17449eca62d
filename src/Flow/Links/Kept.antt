-- ===== src/Flow/Links/Kept.antt =====
-- Edges and links after `rule_eliminate_leaf` and `rule_eliminate_bridge` of
-- src/frontend/IRLoader/control_flow.cpp.
use spoq.Base.{
  ℕ, some, [], ◌∷◌, ◌≡◌, ◌≢◌, refl, ap, sym, ◌∙◌, subst, String, nat_eq, nat_eq→eq, inl, inr,
  Bool-cases,
}
use spoq.Dict.{get, erase}
use spoq.Dict.Valid.{erase-IsValid}
use spoq.Dict.Laws.{get-erase_other, erase_left}
use spoq.Ir.{append}
use spoq.Flow.{Edge, Graph, write, drop_node}
use spoq.Flow.Rules.{absorb_leaf}
use spoq.Flow.Rules.Cases.{LeafCase}
use spoq.Flow.Links.{Memᴰ, Arrives, Departs, IsLinked}
use spoq.Flow.Links.Fusion.{some_eq, has_name, only_edge, write_here, write_other, differ, apart}

module _ (g : Graph) (w : IsLinked g) (n : String) where
  -- An edge from elsewhere that is kept as it is still arrives.
  pub Arrives-kept :
      (g' : Graph) (x : ℕ)
      → g'.backwards ≡ erase n g.backwards
      → g'.edge_at x ≡ g.edge_at x
      → (g.edge_at x).next ≢ n
      → Arrives g x
      → Arrives g' x
  Arrives-kept g' x p q h a = record {
    link = a.link;
    links = a.links;
    has_link = ap (λ e. e.backward) q ∙ a.has_link;
    at_next =
        ap (λ e. get e.next g'.backwards) q
        ∙ ap (get (g.edge_at x).next) p
        ∙ get-erase_other n (g.edge_at x).next g.backwards w.backwards_valid h
        ∙ a.at_next;
    listed = a.listed;
  }

  -- So does a link depart that is kept with its edge.
  pub Departs-kept :
      (g' : Graph) (t : String) (b : ℕ)
      → g'.edges ≡ erase n g.edges
      → g'.back_at b ≡ g.back_at b
      → g'.edge_at (g.back_at b).edge ≡ g.edge_at (g.back_at b).edge
      → (g.back_at b).from ≢ n
      → Departs g t b
      → Departs g' t b
  Departs-kept g' t b p q e h d = record {
    leads = ap (λ l. (g'.edge_at l.edge).next) q ∙ ap (λ f. f.next) e ∙ d.leads;
    linked = ap (λ l. (g'.edge_at l.edge).backward) q ∙ ap (λ f. f.backward) e ∙ d.linked;
    outgoing = d.outgoing;
    at_from =
        ap (λ l. get l.from g'.edges) q
        ∙ ap (get (g.back_at b).from) p
        ∙ get-erase_other n (g.back_at b).from g.edges w.edges_valid h
        ∙ d.at_from;
    listed = subst (λ l. Memᴰ l.edge d.outgoing) (sym q) d.listed;
  }

  -- The edge of the one link of the node leads to it.
  pub into_leads :
      (b : ℕ) → get n g.backwards ≡ some (b ∷ []) → (g.edge_at (g.back_at b).edge).next ≡ n
  into_leads b h = let d = w.departs n (b ∷ []) b h (Memᴰ.head refl) in d.leads

  module _ (g' : Graph) (c : LeafCase n g g') where
    abbrev into : ℕ
    into = (g.back_at c.link).edge

    abbrev pub old : Edge
    old = g.edge_at into

    abbrev pub new : Edge
    new = record old { insts = append old.insts c.node.insts; next = "" }

    pub same_backward : (x : ℕ) → (write into new g.edge_at x).backward ≡ (g.edge_at x).backward
    same_backward x = elim (Bool-cases (nat_eq into x)) [
      | inl q ↦
          let r = nat_eq→eq into x q in
          ap (λ f. f.backward) (write_here into x new g.edge_at r)
          ∙ ap (λ z. (g.edge_at z).backward) r
      | inr q ↦ ap (λ f. f.backward) (write_other into x new g.edge_at q)
    ]

    no_way : (b : ℕ) (t : String) → Departs g t b → (g.back_at b).from ≢ n
    no_way b t d p =
        let q = some_eq (sym d.at_from ∙ ap (λ m. get m g.edges) p ∙ c.has_edges) in
        elim (subst (Memᴰ (g.back_at b).edge) q d.listed) [ ]

    pub leaf-IsLinked : IsLinked (absorb_leaf n g into c.node)
    unfolding absorb_leaf drop_node
    leaf-IsLinked = record {
      nodes_valid = erase-IsValid n g.nodes w.nodes_valid;
      edges_valid = erase-IsValid n g.edges w.edges_valid;
      backwards_valid = erase-IsValid n g.backwards w.backwards_valid;
      no_empty_name =
          get-erase_other n "" g.backwards w.backwards_valid
            (λ p. has_name g w n (c.link ∷ []) c.has_links (sym p))
          ∙ w.no_empty_name;
      own_link = λ m es x b h i k.
          w.own_link m es x b (erase_left n m g.edges es w.edges_valid h).1 i
            (sym (same_backward x) ∙ k);
      arrives = λ m es x h i k.
          let l = erase_left n m g.edges es w.edges_valid h in
          elim (Bool-cases (nat_eq into x)) [
            | inl q ↦
                absurd (k (ap (λ e. e.next) (write_here into x new g.edge_at (nat_eq→eq into x q))))
            | inr q ↦
                let e = write_other into x new g.edge_at q in
                Arrives-kept (absorb_leaf n g into c.node) x refl e
                  (λ p. differ into x q (only_edge g w n c.link m es x c.has_links l.1 i p).0)
                  (w.arrives m es x l.1 i (λ p. k (ap (λ e. e.next) e ∙ p)))
          ];
      departs = λ t bs b h i.
          let l = erase_left n t g.backwards bs w.backwards_valid h in
          let d = w.departs t bs b l.1 i in
          Departs-kept (absorb_leaf n g into c.node) t b refl refl
            (write_other into (g.back_at b).edge new g.edge_at (
              apart into (g.back_at b).edge (λ p. l.0 (
                sym d.leads
                ∙ ap (λ z. (g.edge_at z).next) (sym p)
                ∙ into_leads c.link c.has_links))))
            (no_way b t d) d;
    }
