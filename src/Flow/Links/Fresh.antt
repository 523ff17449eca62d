-- ===== src/Flow/Links/Fresh.antt =====
-- Addresses that are not in use yet in a graph of src/frontend/IRLoader/control_flow.cpp.
use spoq.Base.{
  ℕ, ◌<◌, some, List, [], ◌∷◌, ◌≡◌, refl, ap, sym, ◌∙◌, inl, inr, String, nat_eq, nat_eq→eq,
  Bool-cases,
}
use spoq.Dict.{get}
use spoq.Dict.Laws.{erase_left}
use spoq.Flow.{Graph, write, drop_node}
use spoq.Flow.Rules.{absorb_leaf, absorb_bridge}
use spoq.Flow.Rules.Cases.{LeafCase, BridgeCase}
use spoq.Flow.Links.{Memᴰ, IsLinked}
use spoq.Flow.Links.Fusion.{write_here, write_other}
use spoq.Flow.Links.Kept.{same_backward}
use spoq.Flow.Links.Bridge

pub record IsFresh (g : Graph) : Type 0 where
  pub edges_below :
      (m : String) (es : List ℕ) (x : ℕ) → get m g.edges ≡ some es → Memᴰ x es → x < g.new_edge
  pub links_below :
      (m : String) (es : List ℕ) (x b : ℕ)
      → get m g.edges ≡ some es
      → Memᴰ x es
      → (g.edge_at x).backward ≡ some b
      → b < g.new_back
  pub backs_below :
      (t : String) (bs : List ℕ) (b : ℕ) → get t g.backwards ≡ some bs → Memᴰ b bs → b < g.new_back

module _ (g : Graph) (w : IsLinked g) (f : IsFresh g) (n : String) (g' : Graph) where
  pub leaf-IsFresh :
      (c : LeafCase n g g') → IsFresh (absorb_leaf n g (g.back_at c.link).edge c.node)
  unfolding absorb_leaf drop_node
  leaf-IsFresh c = record {
    edges_below =
        λ m es x h i. f.edges_below m es x (erase_left n m g.edges es w.edges_valid h).1 i;
    links_below = λ m es x b h i k.
        f.links_below m es x b (erase_left n m g.edges es w.edges_valid h).1 i
          (sym (same_backward g w n g' c x) ∙ k);
    backs_below =
        λ t bs b h i. f.backs_below t bs b (erase_left n t g.backwards bs w.backwards_valid h).1 i;
  }

  -- The edge takes over the link of the edge of the node, and the others keep theirs.
  bridge_links_below :
      (c : BridgeCase n g g') (m : String) (es : List ℕ) (x b : ℕ)
      → get m g.edges ≡ some es
      → Memᴰ x es
      → (write (g.back_at c.link).edge (Bridge.new g w n g' c) g.edge_at x).backward ≡ some b
      → b < g.new_back
  bridge_links_below c m es x b h i k = elim (Bool-cases (nat_eq (g.back_at c.link).edge x)) [
    | inl q ↦
        let e =
          write_here (g.back_at c.link).edge x (Bridge.new g w n g' c) g.edge_at
            (nat_eq→eq (g.back_at c.link).edge x q) in
        f.links_below n (c.way ∷ []) c.way b c.has_edges (Memᴰ.head refl)
          (sym (ap (λ d. d.backward) e) ∙ k)
    | inr q ↦
        let e = write_other (g.back_at c.link).edge x (Bridge.new g w n g' c) g.edge_at q in
        f.links_below m es x b h i (sym (ap (λ d. d.backward) e) ∙ k)
  ]

  pub bridge-IsFresh :
      (c : BridgeCase n g g')
      → IsFresh (absorb_bridge n g (g.back_at c.link).from (g.back_at c.link).edge c.way c.node)
  unfolding absorb_bridge drop_node
  bridge-IsFresh c = record {
    edges_below =
        λ m es x h i. f.edges_below m es x (erase_left n m g.edges es w.edges_valid h).1 i;
    links_below = λ m es x b h i k.
        bridge_links_below c m es x b (erase_left n m g.edges es w.edges_valid h).1 i k;
    backs_below =
        λ t bs b h i. f.backs_below t bs b (erase_left n t g.backwards bs w.backwards_valid h).1 i;
  }
