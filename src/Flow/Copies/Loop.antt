-- ===== src/Flow/Copies/Loop.antt =====
-- The loop of `rule_duplicate_node` of src/frontend/IRLoader/control_flow.cpp over the links of a
-- node.
use spoq.Base.{
  ℕ, suc, ◌<◌, false, Option, none, some, List, [], ◌∷◌, ◌≡◌, ◌≢◌, refl, ap, sym, ◌∙◌, subst,
  String, ◌==◌, nat_eq, nat_eq→eq, map_option, Bool-cases, inl, inr, arith, eq_iff,
}
use spoq.Dict.{get}
use spoq.Ir.{IrInsts, append}
use spoq.Flow.{Node, Edge, Backward, Graph, write}
use spoq.Flow.Links.{Memᴰ}
use spoq.Flow.Links.Fusion.{some_eq, write_here, write_other, apart}
use spoq.Flow.Links.Members.{write_new}
use spoq.Flow.Build.Linked.{map_some}
use spoq.Flow.Copies.{way_insts, is_way, copied_edge, copy_out, copy_to, copy_link}

abbrev pub EdgesApart : (ℕ → Backward) → List ℕ → Type 0
EdgesApart bk [] = Unit
EdgesApart bk (b ∷ bs) = ((c : ℕ) → Memᴰ c bs → (bk b).edge ≢ (bk c).edge) × EdgesApart bk bs

abbrev pub IsCopy : String → IrInsts → Edge → Edge → Type 0
IsCopy s is e d = (d.next ≡ s) × (d.insts ≡ append e.insts is)

module _ (s : String) (way : Option ℕ) (node : Node) where
  abbrev pub tail_of : Graph → IrInsts
  tail_of g = append node.insts (way_insts g way)

  -- One link: the edge is written, and what is known stays.
  pub record Copied (g g' : Graph) (x : ℕ) : Type 0 where
    pub same_nodes : g'.nodes ≡ g.nodes
    pub same_edges : g'.edges ≡ g.edges
    pub old_links : (b : ℕ) → b < g.new_back → g'.back_at b ≡ g.back_at b
    pub more : (b : ℕ) → b < g.new_back → b < g'.new_back
    pub elsewhere : (y : ℕ) → x ≢ y → g'.edge_at y ≡ g.edge_at y
    pub here : IsCopy s (tail_of g) (g.edge_at x) (g'.edge_at x)
    pub conds : (y : ℕ) → (g'.edge_at y).cond ≡ (g.edge_at y).cond
    pub not_way : is_way way x ≡ false

  copied_cond :
      (x : ℕ) (is : IrInsts) (b : Option ℕ) (g : Graph) (y : ℕ)
      → (write x (copied_edge s is b (g.edge_at x)) g.edge_at y).cond ≡ (g.edge_at y).cond
  copied_cond x is b g y = elim (Bool-cases (nat_eq x y)) [
    | inl q ↦
        let e = nat_eq→eq x y q in
        ap (λ d. d.cond) (write_here x y (copied_edge s is b (g.edge_at x)) g.edge_at e)
        ∙ ap (λ z. (g.edge_at z).cond) e
    | inr q ↦ ap (λ d. d.cond) (write_other x y (copied_edge s is b (g.edge_at x)) g.edge_at q)
  ]

  below_next : (i k : ℕ) → i < k → i < suc k
  below_next i k h = omega arith

  copy_out-Copied :
      (g : Graph) (x : ℕ) → s ≡ "" → is_way way x ≡ false → Copied g (copy_out x (tail_of g) g) x
  copy_out-Copied g x p k =
      let d = copied_edge "" (tail_of g) none (g.edge_at x) in
      let w = write_here x x d g.edge_at refl in
      record {
        same_nodes = refl;
        same_edges = refl;
        old_links = λ b h. refl;
        more = λ b h. h;
        elsewhere = λ y h. write_other x y d g.edge_at (apart x y h);
        here = (ap (λ z. z.next) w ∙ sym p, ap (λ z. z.insts) w);
        conds = λ y. elim (Bool-cases (nat_eq x y)) [
          | inl q ↦
              let e = nat_eq→eq x y q in
              ap (λ z. z.cond) (write_here x y d g.edge_at e) ∙ ap (λ z. (g.edge_at z).cond) e
          | inr q ↦ ap (λ z. z.cond) (write_other x y d g.edge_at q)
        ];
        not_way = k;
      }

  copy_to-Copied :
      (g : Graph) (from : String) (x : ℕ) (bs : List ℕ)
      → is_way way x ≡ false
      → Copied g (copy_to s from x (tail_of g) g bs) x
  copy_to-Copied g from x bs k =
      let d = copied_edge s (tail_of g) (some g.new_back) (g.edge_at x) in
      let w = write_here x x d g.edge_at refl in
      record {
        same_nodes = refl;
        same_edges = refl;
        old_links = λ b h. write_new g.new_back b (record { from = from; edge = x }) g.back_at h;
        more = λ b h. below_next b g.new_back h;
        elsewhere = λ y h. write_other x y d g.edge_at (apart x y h);
        here = (ap (λ z. z.next) w, ap (λ z. z.insts) w);
        conds = copied_cond x (tail_of g) (some g.new_back) g;
        not_way = k;
      }

  pub copy_link-Copied :
      (b : ℕ) (g g' : Graph) → copy_link s way node b g ≡ some g' → Copied g g' (g.back_at b).edge
  unfolding copy_link
  copy_link-Copied b g g' e = elim (Bool-cases (is_way way (g.back_at b).edge)) [
    | inl k ↦ let q : none ≡ some g' = rw k at e in cc
    | inr k ↦ elim (Bool-cases (s == "")) [
      | inl p ↦
          let q : some (copy_out (g.back_at b).edge (tail_of g) g) ≡ some g' = rw (k, p) at e in
          subst (λ h. Copied g h (g.back_at b).edge) (some_eq q)
            (copy_out-Copied g (g.back_at b).edge ((eq_iff s "").0 p) k)
      | inr p ↦
          let q : map_option (copy_to s (g.back_at b).from (g.back_at b).edge (tail_of g) g)
                (get s g.backwards)
              ≡ some g' =
            rw (k, p) at e in
          let (bs, u, v) =
            map_some (copy_to s (g.back_at b).from (g.back_at b).edge (tail_of g) g)
              (get s g.backwards) g' q in
          subst (λ h. Copied g h (g.back_at b).edge) v
            (copy_to-Copied g (g.back_at b).from (g.back_at b).edge bs k)
    ]
  ]
