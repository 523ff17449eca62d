-- ===== src/Flow/Build/Push.antt =====
-- An edge that `control_flow_conversion` of src/frontend/IRLoader/control_flow.cpp adds to a block.
use spoq.Base.{
  ℕ, suc, ◌<◌, none, some, List, [], ◌∷◌, ◌++◌, ◌≡◌, refl, ap, sym, ◌∙◌, subst, ◌⊎◌, inl, inr,
  String, ◌==◌, Bool-cases, eq_iff, arith,
}
use spoq.Dict.{get, insert}
use spoq.Dict.Valid.{insert-IsValid}
use spoq.Dict.Laws.{get-insert, get-insert_other, false→not_eq}
use spoq.Flow.{Edge, Graph, write}
use spoq.Flow.Links.{Memᴰ, Arrives, Departs}
use spoq.Flow.Links.Fusion.{some_eq, write_here}
use spoq.Flow.Links.Fresh.{IsFresh}
use spoq.Flow.Links.Members.{
  insert_left, write_new, Memᴰ-append, Memᴰ-append_left, Memᴰ-append_last,
}
use spoq.Ir.{no_insts}
use spoq.Flow.Build.{Way}
use spoq.Flow.Build.Pending.{AllApart-append, IsPending}

module _ (n : String) (ps : List ℕ) (g : Graph) (p : IsPending n ps g) (way : Way) (es : List ℕ)
    (has : get n g.edges ≡ some es) where
  abbrev pushed_edge : Edge
  pushed_edge = record { next = way.0; cond = way.1; insts = no_insts; backward = none }

  abbrev longer : List ℕ
  longer = es ++ g.new_edge ∷ []

  abbrev pub pushed : Graph
  pushed = record g {
    edges = insert n longer g.edges;
    edge_at = write g.new_edge pushed_edge g.edge_at;
    new_edge = suc g.new_edge;
  }

  f : IsFresh g
  f = p.is_fresh

  edge_old :
      (m : String) (qs : List ℕ) (x : ℕ)
      → get m g.edges ≡ some qs
      → Memᴰ x qs
      → write g.new_edge pushed_edge g.edge_at x ≡ g.edge_at x
  edge_old m qs x h i = write_new g.new_edge x pushed_edge g.edge_at (f.edges_below m qs x h i)

  edge_new : (x : ℕ) → x ≡ g.new_edge → write g.new_edge pushed_edge g.edge_at x ≡ pushed_edge
  edge_new x e =
      ap (write g.new_edge pushed_edge g.edge_at) e
      ∙ write_here g.new_edge g.new_edge pushed_edge g.edge_at refl

  -- An edge of the longer list, or of another node, is the new one or was there.
  old_or_new :
      (m : String) (qs : List ℕ) (x : ℕ)
      → get m (insert n longer g.edges) ≡ some qs
      → Memᴰ x qs
      → ((m ≡ n) × (x ≡ g.new_edge)) ⊎ ((rs : List ℕ) × (get m g.edges ≡ some rs) × Memᴰ x rs)
  old_or_new m qs x h i = elim (insert_left n m longer qs g.edges p.edges_valid h) [
    | inl (e, r) ↦ elim (Memᴰ-append x g.new_edge es (subst (Memᴰ x) r i)) [
      | inl j ↦ inr (es, ap (λ k. get k g.edges) e ∙ has, j)
      | inr k ↦ inl (e, k)
    ]
    | inr (e, r) ↦ inr (qs, r, i)
  ]

  kept_edges :
      (m : String) (qs : List ℕ) (x : ℕ)
      → get m g.edges ≡ some qs
      → Memᴰ x qs
      → (rs : List ℕ) × (get m (insert n longer g.edges) ≡ some rs) × Memᴰ x rs
  kept_edges m qs x h i = elim (Bool-cases (m == n)) [
    | inl e ↦
        let k = (eq_iff m n).0 e in
        let r = some_eq (sym h ∙ ap (λ z. get z g.edges) k ∙ has) in
        (
          longer,
          ap (λ z. get z (insert n longer g.edges)) k ∙ get-insert n longer g.edges p.edges_valid,
          Memᴰ-append_left x g.new_edge es (subst (Memᴰ x) r i),
        )
    | inr e ↦ (qs, get-insert_other n m longer g.edges p.edges_valid (false→not_eq m n e) ∙ h, i)
  ]

  pushed-Departs : (t : String) (b : ℕ) → Departs g t b → Departs pushed t b
  pushed-Departs t b d =
      let e = edge_old (g.back_at b).from d.outgoing (g.back_at b).edge d.at_from d.listed in
      let (rs, q, i) =
        kept_edges (g.back_at b).from d.outgoing (g.back_at b).edge d.at_from d.listed in
      record {
        leads = ap (λ z. z.next) e ∙ d.leads;
        linked = ap (λ z. z.backward) e ∙ d.linked;
        outgoing = rs;
        at_from = q;
        listed = i;
      }

  pushed-Arrives :
      (x : ℕ)
      → write g.new_edge pushed_edge g.edge_at x ≡ g.edge_at x
      → Arrives g x
      → Arrives pushed x
  pushed-Arrives x e a = record {
    link = a.link;
    links = a.links;
    has_link = ap (λ z. z.backward) e ∙ a.has_link;
    at_next = ap (λ z. get z.next g.backwards) e ∙ a.at_next;
    listed = a.listed;
  }

  below_next : (i k : ℕ) → i < k → i < suc k
  below_next i k h = omega arith

  below_new : (i k : ℕ) → i ≡ k → i < suc k
  below_new i k h = omega arith

  pushed-IsFresh : IsFresh pushed
  pushed-IsFresh = record {
    edges_below = λ m qs x h i. elim (old_or_new m qs x h i) [
      | inl (e, k) ↦ below_new x g.new_edge k
      | inr (rs, q, j) ↦ below_next x g.new_edge (f.edges_below m rs x q j)
    ];
    links_below = λ m qs x b h i k. elim (old_or_new m qs x h i) [
      | inl (e, j) ↦ let u : none ≡ some b = sym (ap (λ z. z.backward) (edge_new x j)) ∙ k in cc
      | inr (rs, q, j) ↦
          f.links_below m rs x b q j (sym (ap (λ z. z.backward) (edge_old m rs x q j)) ∙ k)
    ];
    backs_below = f.backs_below;
  }

  pending_old : (x : ℕ) → Memᴰ x ps → Memᴰ x es
  pending_old x i =
      let (qs, h, k) = p.pending_edges in subst (Memᴰ x) (some_eq (sym h ∙ has)) (k x i)

  pub pushed-IsPending : IsPending n (ps ++ g.new_edge ∷ []) pushed
  pushed-IsPending = record {
    nodes_valid = p.nodes_valid;
    edges_valid = insert-IsValid n longer g.edges p.edges_valid;
    backwards_valid = p.backwards_valid;
    no_empty_name = p.no_empty_name;
    own_link = λ m qs x b h i k. elim (old_or_new m qs x h i) [
      | inl (e, j) ↦ let u : none ≡ some b = sym (ap (λ z. z.backward) (edge_new x j)) ∙ k in cc
      | inr (rs, q, j) ↦
          p.own_link m rs x b q j (sym (ap (λ z. z.backward) (edge_old m rs x q j)) ∙ k)
    ];
    arrives = λ m qs x h i k u. elim (old_or_new m qs x h i) [
      | inl (e, j) ↦
          absurd (
            k (
              subst (λ z. Memᴰ z (ps ++ g.new_edge ∷ [])) (sym j) (Memᴰ-append_last g.new_edge ps)))
      | inr (rs, q, j) ↦
          let e = edge_old m rs x q j in
          pushed-Arrives x e (
            p.arrives m rs x q j (λ z. k (Memᴰ-append_left x g.new_edge ps z))
              (λ z. u (ap (λ y. y.next) e ∙ z)))
    ];
    departs = λ t bs b h i. pushed-Departs t b (p.departs t bs b h i);
    is_fresh = pushed-IsFresh;
    unlinked = λ x i. elim (Memᴰ-append x g.new_edge ps i) [
      | inl j ↦ ap (λ z. z.backward) (edge_old n es x has (pending_old x j)) ∙ p.unlinked x j
      | inr e ↦ ap (λ z. z.backward) (edge_new x e)
    ];
    at_home = λ m qs x h i j. elim (old_or_new m qs x h i) [
      | inl (e, k) ↦ e
      | inr (rs, q, k) ↦ elim (Memᴰ-append x g.new_edge ps j) [
        | inl l ↦ p.at_home m rs x q k l
        | inr e ↦ let b = f.edges_below m rs x q k in absurd (omega arith)
      ]
    ];
    all_apart =
        AllApart-append ps g.new_edge p.all_apart
          (λ y i. f.edges_below n es y has (pending_old y i));
    pending_edges = (
      longer,
      get-insert n longer g.edges p.edges_valid,
      λ x i. elim (Memᴰ-append x g.new_edge ps i) [
        | inl j ↦ Memᴰ-append_left x g.new_edge es (pending_old x j)
        | inr e ↦ subst (λ z. Memᴰ z longer) (sym e) (Memᴰ-append_last g.new_edge es)
      ],
    );
  }
