-- ===== src/Flow/Rules/Cases.antt =====
-- When `rule_eliminate_leaf` and `rule_eliminate_bridge` of
-- src/frontend/IRLoader/control_flow.cpp do something.
use spoq.Base.{
  ℕ, Bool, true, false, Option, none, some, List, [], ◌∷◌, ◌≡◌, refl, ap, sym, ◌∙◌, String, nat_eq,
  map_option, ◌>>=◌, Bool-cases, inl, inr,
}
use spoq.Dict.{get}
use spoq.Flow.{Node, Graph, is_empty}
use spoq.Flow.Rules.{
  Step, absorb_leaf, leaf_node, leaf_backwards, leaf_edges, eliminate_leaf, absorb_bridge,
  bridge_node, bridge_backwards, bridge_edges, eliminate_bridge,
}

pub record LeafCase (n : String) (g g' : Graph) : Type 0 where
  pub node : Node
  pub link : ℕ
  pub has_node : get n g.nodes ≡ some node
  pub has_edges : get n g.edges ≡ some []
  pub has_links : get n g.backwards ≡ some (link ∷ [])
  pub result : g' ≡ absorb_leaf n g (g.back_at link).edge node

pub record BridgeCase (n : String) (g g' : Graph) : Type 0 where
  pub node : Node
  pub link : ℕ
  pub way : ℕ
  pub has_node : get n g.nodes ≡ some node
  pub has_edges : get n g.edges ≡ some (way ∷ [])
  pub has_links : get n g.backwards ≡ some (link ∷ [])
  pub other : nat_eq (g.back_at link).edge way ≡ false
  pub result : g' ≡ absorb_bridge n g (g.back_at link).from (g.back_at link).edge way node

abbrev pub Gives : Option Step → Graph → Type 0
Gives o g' = o ≡ some (g', true)

pub bind_some {ℓ κ} :
    {A : Type ℓ} {B : Type κ} (o : Option A) (f : A → Option B) (b : B)
    → (o >>= f) ≡ some b
    → (a : A) × (o ≡ some a) × (f a ≡ some b)
bind_some none f b h = cc
bind_some (some a) f b h = (a, refl, h)

abbrev done : Option Step → Bool
done none = true
done (some p) = p.1

pub not_done : (g g' : Graph) → ¬ Gives (some (g, false)) g'
not_done g g' h = let q : false ≡ true = ap done h in cc

abbrev graph_of : Graph → Option Step → Graph
graph_of d none = d
graph_of d (some p) = p.0

pub result_of : (g h : Graph) → Gives (some (g, true)) h → h ≡ g
result_of g h q = sym (ap (graph_of g) q)

module _ (n : String) (g g' : Graph) where
  leaf_edges_case :
      (es : List ℕ)
      → Gives (leaf_edges n g es) g'
      → (es ≡ []) × Gives (get n g.backwards >>= leaf_backwards n g) g'
  leaf_edges_case [] h = (refl, h)
  leaf_edges_case (x ∷ xs) h = absurd (not_done g g' h)

  leaf_backwards_case :
      (bs : List ℕ)
      → Gives (leaf_backwards n g bs) g'
      → (b : ℕ) × (bs ≡ b ∷ []) × Gives (get n g.nodes >>= λ v. some (leaf_node n g b v)) g'
  leaf_backwards_case [] h = absurd (not_done g g' h)
  leaf_backwards_case (b ∷ []) h = (b, refl, go (get n g.nodes) h)
    where
      go :
          (o : Option Node)
          → Gives (map_option (leaf_node n g b) o) g'
          → Gives (o >>= λ v. some (leaf_node n g b v)) g'
      go none h = h
      go (some v) h = h
  leaf_backwards_case (b ∷ c ∷ bs) h = absurd (not_done g g' h)

  leaf_node_case :
      (b : ℕ) (v : Node)
      → Gives (some (leaf_node n g b v)) g'
      → g' ≡ absorb_leaf n g (g.back_at b).edge v
  leaf_node_case b v h = elim (Bool-cases (is_empty v.loop_use)) [
    | inl e ↦
        let k : Gives (some (absorb_leaf n g (g.back_at b).edge v, true)) g' = rw e at h in
        result_of (absorb_leaf n g (g.back_at b).edge v) g' k
    | inr e ↦ let k : Gives (some (g, false)) g' = rw e at h in absurd (not_done g g' k)
  ]

  pub leaf_case : eliminate_leaf n g ≡ some (g', true) → LeafCase n g g'
  unfolding eliminate_leaf
  leaf_case h =
      let a = bind_some (get n g.edges) (leaf_edges n g) (g', true) h in
      let b = leaf_edges_case a.0 a.2 in
      let c = bind_some (get n g.backwards) (leaf_backwards n g) (g', true) b.1 in
      let d = leaf_backwards_case c.0 c.2 in
      let f = bind_some (get n g.nodes) (λ v. some (leaf_node n g d.0 v)) (g', true) d.2 in
      record {
        node = f.0;
        link = d.0;
        has_node = f.1;
        has_edges = a.1 ∙ ap some b.0;
        has_links = c.1 ∙ ap some d.1;
        result = leaf_node_case d.0 f.0 f.2;
      }

  bridge_edges_case :
      (es : List ℕ)
      → Gives (bridge_edges n g es) g'
      → (y : ℕ) × (es ≡ y ∷ []) × Gives (get n g.backwards >>= bridge_backwards n g y) g'
  bridge_edges_case [] h = absurd (not_done g g' h)
  bridge_edges_case (y ∷ []) h = (y, refl, h)
  bridge_edges_case (y ∷ z ∷ zs) h = absurd (not_done g g' h)

  bridge_backwards_case :
      (y : ℕ) (bs : List ℕ)
      → Gives (bridge_backwards n g y bs) g'
      → (b : ℕ) × (bs ≡ b ∷ []) × Gives (get n g.nodes >>= bridge_node n g y b) g'
  bridge_backwards_case y [] h = absurd (not_done g g' h)
  bridge_backwards_case y (b ∷ []) h = (b, refl, h)
  bridge_backwards_case y (b ∷ c ∷ bs) h = absurd (not_done g g' h)

  bridge_node_case :
      (y b : ℕ) (v : Node)
      → Gives (bridge_node n g y b v) g'
      → (nat_eq (g.back_at b).edge y ≡ false)
        × (g' ≡ absorb_bridge n g (g.back_at b).from (g.back_at b).edge y v)
  bridge_node_case y b v h = elim (Bool-cases (is_empty v.loop_use)) [
    | inl e ↦ elim (Bool-cases (nat_eq (g.back_at b).edge y)) [
      | inl i ↦ let k : Gives none g' = rw (e, i) at h in cc
      | inr i ↦
          let r = absorb_bridge n g (g.back_at b).from (g.back_at b).edge y v in
          let k : Gives (some (r, true)) g' = rw (e, i) at h in (i, result_of r g' k)
    ]
    | inr e ↦ let k : Gives (some (g, false)) g' = rw e at h in absurd (not_done g g' k)
  ]

  pub bridge_case : eliminate_bridge n g ≡ some (g', true) → BridgeCase n g g'
  unfolding eliminate_bridge
  bridge_case h =
      let a = bind_some (get n g.edges) (bridge_edges n g) (g', true) h in
      let b = bridge_edges_case a.0 a.2 in
      let c = bind_some (get n g.backwards) (bridge_backwards n g b.0) (g', true) b.2 in
      let d = bridge_backwards_case b.0 c.0 c.2 in
      let f = bind_some (get n g.nodes) (bridge_node n g b.0 d.0) (g', true) d.2 in
      let k = bridge_node_case b.0 d.0 f.0 f.2 in
      record {
        node = f.0;
        link = d.0;
        way = b.0;
        has_node = f.1;
        has_edges = a.1 ∙ ap some b.1;
        has_links = c.1 ∙ ap some d.1;
        other = k.0;
        result = k.1;
      }
