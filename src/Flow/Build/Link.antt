-- ===== src/Flow/Build/Link.antt =====
-- The link that `control_flow_conversion` of src/frontend/IRLoader/control_flow.cpp gives an edge.
use spoq.Base.{
  ℕ, suc, ◌<◌, false, none, some, List, [], ◌∷◌, ◌++◌, ◌≡◌, refl, ap, sym, ◌∙◌, subst, inl, inr,
  String, ◌==◌, nat_eq, nat_eq→eq, Bool-cases, eq_iff, arith,
}
use spoq.Dict.{get, insert}
use spoq.Dict.Valid.{insert-IsValid}
use spoq.Dict.Laws.{get-insert, get-insert_other, false→not_eq}
use spoq.Flow.{Edge, Backward, Graph, write}
use spoq.Flow.Links.{Memᴰ, Arrives, Departs}
use spoq.Flow.Links.Fusion.{some_eq, write_here, write_other, apart, differ}
use spoq.Flow.Links.Fresh.{IsFresh}
use spoq.Flow.Links.Members.{
  insert_left, write_new, Memᴰ-append, Memᴰ-append_left, Memᴰ-append_last,
}
use spoq.Flow.Build.Pending.{IsPending}

module _ (n : String) (x : ℕ) (ps : List ℕ) (g : Graph) (p : IsPending n (x ∷ ps) g) (bs : List ℕ)
    (has : get (g.edge_at x).next g.backwards ≡ some bs) where
  abbrev target : String
  target = (g.edge_at x).next

  abbrev old : Edge
  old = g.edge_at x

  abbrev new : Edge
  new = record old { backward = some g.new_back }

  abbrev new_link : Backward
  new_link = record { from = n; edge = x }

  abbrev longer : List ℕ
  longer = bs ++ g.new_back ∷ []

  abbrev pub linked_graph : Graph
  linked_graph = record g {
    backwards = insert target longer g.backwards;
    edge_at = write x new g.edge_at;
    back_at = write g.new_back new_link g.back_at;
    new_back = suc g.new_back;
  }

  f : IsFresh g
  f = p.is_fresh

  same_next : (y : ℕ) → (write x new g.edge_at y).next ≡ (g.edge_at y).next
  same_next y = elim (Bool-cases (nat_eq x y)) [
    | inl q ↦
        let e = nat_eq→eq x y q in
        ap (λ z. z.next) (write_here x y new g.edge_at e) ∙ ap (λ z. (g.edge_at z).next) e
    | inr q ↦ ap (λ z. z.next) (write_other x y new g.edge_at q)
  ]

  -- An edge with a link is not the one that gets one.
  linked_old : (y b : ℕ) → (g.edge_at y).backward ≡ some b → write x new g.edge_at y ≡ g.edge_at y
  linked_old y b h = write_other x y new g.edge_at (
      apart x y (λ e.
        let q : none ≡ some b =
          sym (p.unlinked x (Memᴰ.head refl)) ∙ ap (λ z. (g.edge_at z).backward) e ∙ h in
        cc))

  link_old : (b : ℕ) → b < g.new_back → write g.new_back new_link g.back_at b ≡ g.back_at b
  link_old b h = write_new g.new_back b new_link g.back_at h

  link_new : (b : ℕ) → b ≡ g.new_back → write g.new_back new_link g.back_at b ≡ new_link
  link_new b e =
      ap (write g.new_back new_link g.back_at) e
      ∙ write_here g.new_back g.new_back new_link g.back_at refl

  at_target : get target (insert target longer g.backwards) ≡ some longer
  at_target = get-insert target longer g.backwards p.backwards_valid

  old-Departs : (t : String) (b : ℕ) → b < g.new_back → Departs g t b → Departs linked_graph t b
  old-Departs t b k d =
      let l = link_old b k in
      let e = linked_old (g.back_at b).edge b d.linked in
      record {
        leads = ap (λ z. (write x new g.edge_at z.edge).next) l ∙ ap (λ z. z.next) e ∙ d.leads;
        linked =
            ap (λ z. (write x new g.edge_at z.edge).backward) l ∙ ap (λ z. z.backward) e ∙ d.linked;
        outgoing = d.outgoing;
        at_from = ap (λ z. get z.from g.edges) l ∙ d.at_from;
        listed = subst (λ z. Memᴰ z.edge d.outgoing) (sym l) d.listed;
      }

  new-Departs : (b : ℕ) → b ≡ g.new_back → Departs linked_graph target b
  new-Departs b e =
      let l = link_new b e in
      let w = write_here x x new g.edge_at refl in
      let (es, h, k) = p.pending_edges in
      record {
        leads = ap (λ z. (write x new g.edge_at z.edge).next) l ∙ ap (λ z. z.next) w;
        linked =
            ap (λ z. (write x new g.edge_at z.edge).backward) l
            ∙ ap (λ z. z.backward) w
            ∙ ap some (sym e);
        outgoing = es;
        at_from = ap (λ z. get z.from g.edges) l ∙ h;
        listed = subst (λ z. Memᴰ z.edge es) (sym l) (k x (Memᴰ.head refl));
      }

  new-Arrives : (y : ℕ) → x ≡ y → Arrives linked_graph y
  new-Arrives y e =
      let w = write_here x y new g.edge_at e in
      record {
        link = g.new_back;
        links = longer;
        has_link = ap (λ z. z.backward) w;
        at_next = ap (λ z. get z.next (insert target longer g.backwards)) w ∙ at_target;
        listed = Memᴰ-append_last g.new_back bs;
      }

  old-Arrives : (y : ℕ) → nat_eq x y ≡ false → Arrives g y → Arrives linked_graph y
  old-Arrives y q a =
      let w = write_other x y new g.edge_at q in
      elim (Bool-cases ((g.edge_at y).next == target)) [
        | inl r ↦
            let e = (eq_iff (g.edge_at y).next target).0 r in
            let s = some_eq (sym a.at_next ∙ ap (λ t. get t g.backwards) e ∙ has) in
            record {
              link = a.link;
              links = longer;
              has_link = ap (λ z. z.backward) w ∙ a.has_link;
              at_next =
                  ap (λ z. get z.next (insert target longer g.backwards)) w
                  ∙ ap (λ t. get t (insert target longer g.backwards)) e
                  ∙ at_target;
              listed = Memᴰ-append_left a.link g.new_back bs (subst (Memᴰ a.link) s a.listed);
            }
        | inr r ↦ record {
          link = a.link;
          links = a.links;
          has_link = ap (λ z. z.backward) w ∙ a.has_link;
          at_next =
              ap (λ z. get z.next (insert target longer g.backwards)) w
              ∙ get-insert_other target (g.edge_at y).next longer g.backwards p.backwards_valid
                  (false→not_eq (g.edge_at y).next target r)
              ∙ a.at_next;
          listed = a.listed;
        }
      ]

  linked_own_link :
      (m : String) (qs : List ℕ) (y b : ℕ)
      → get m g.edges ≡ some qs
      → Memᴰ y qs
      → (write x new g.edge_at y).backward ≡ some b
      → ((write g.new_back new_link g.back_at b).edge ≡ y)
        × ((write g.new_back new_link g.back_at b).from ≡ m)
  linked_own_link m qs y b h i k = elim (Bool-cases (nat_eq x y)) [
    | inl q ↦
        let e = nat_eq→eq x y q in
        let r = some_eq (sym (ap (λ z. z.backward) (write_here x y new g.edge_at e)) ∙ k) in
        let l = link_new b (sym r) in
        (
          ap (λ z. z.edge) l ∙ e,
          ap (λ z. z.from) l ∙ sym (p.at_home m qs y h i (Memᴰ.head (sym e))),
        )
    | inr q ↦
        let u = sym (ap (λ z. z.backward) (write_other x y new g.edge_at q)) ∙ k in
        let o = p.own_link m qs y b h i u in
        let l = link_old b (f.links_below m qs y b h i u) in
        (ap (λ z. z.edge) l ∙ o.0, ap (λ z. z.from) l ∙ o.1)
  ]

  below_next : (i k : ℕ) → i < k → i < suc k
  below_next i k h = omega arith

  below_new : (i k : ℕ) → i ≡ k → i < suc k
  below_new i k h = omega arith

  not_pending : (y : ℕ) → nat_eq x y ≡ false → ¬ Memᴰ y ps → ¬ Memᴰ y (x ∷ ps)
  not_pending y q k (Memᴰ.head e) = differ x y q (sym e)
  not_pending y q k (Memᴰ.tail i) = k i

  linked-IsFresh : IsFresh linked_graph
  linked-IsFresh = record {
    edges_below = f.edges_below;
    links_below = λ m qs y b h i k. elim (Bool-cases (nat_eq x y)) [
      | inl q ↦
          let e = write_here x y new g.edge_at (nat_eq→eq x y q) in
          below_new b g.new_back (sym (some_eq (sym (ap (λ z. z.backward) e) ∙ k)))
      | inr q ↦ below_next b g.new_back (
          f.links_below m qs y b h i
            (sym (ap (λ z. z.backward) (write_other x y new g.edge_at q)) ∙ k))
    ];
    backs_below = λ t ls b h i.
        elim (insert_left target t longer ls g.backwards p.backwards_valid h) [
          | inl (e, r) ↦ elim (Memᴰ-append b g.new_back bs (subst (Memᴰ b) r i)) [
            | inl j ↦ below_next b g.new_back (f.backs_below target bs b has j)
            | inr k ↦ below_new b g.new_back k
          ]
          | inr (e, r) ↦ below_next b g.new_back (f.backs_below t ls b r i)
        ];
  }

  linked-Departs :
      (t : String) (ls : List ℕ) (b : ℕ)
      → get t (insert target longer g.backwards) ≡ some ls
      → Memᴰ b ls
      → Departs linked_graph t b
  linked-Departs t ls b h i =
      elim (insert_left target t longer ls g.backwards p.backwards_valid h) [
        | inl (e, r) ↦
            subst (λ z. Departs linked_graph z b) (sym e)
              (elim (Memᴰ-append b g.new_back bs (subst (Memᴰ b) r i)) [
                | inl j ↦
                    old-Departs target b (f.backs_below target bs b has j)
                      (p.departs target bs b has j)
                | inr k ↦ new-Departs b k
              ])
        | inr (e, r) ↦ old-Departs t b (f.backs_below t ls b r i) (p.departs t ls b r i)
      ]

  pub linked-IsPending : IsPending n ps linked_graph
  linked-IsPending = record {
    nodes_valid = p.nodes_valid;
    edges_valid = p.edges_valid;
    backwards_valid = insert-IsValid target longer g.backwards p.backwards_valid;
    no_empty_name =
        get-insert_other target "" longer g.backwards p.backwards_valid (λ e.
          let q : none ≡ some bs = sym p.no_empty_name ∙ ap (λ t. get t g.backwards) e ∙ has in cc)
        ∙ p.no_empty_name;
    own_link = linked_own_link;
    arrives = λ m qs y h i k u. elim (Bool-cases (nat_eq x y)) [
      | inl q ↦ new-Arrives y (nat_eq→eq x y q)
      | inr q ↦
          old-Arrives y q (p.arrives m qs y h i (not_pending y q k) (λ e. u (same_next y ∙ e)))
    ];
    departs = linked-Departs;
    is_fresh = linked-IsFresh;
    unlinked = λ y i.
        ap (λ z. z.backward) (write_other x y new g.edge_at (apart x y (p.all_apart.0 y i)))
        ∙ p.unlinked y (Memᴰ.tail i);
    at_home = λ m qs y h i j. p.at_home m qs y h i (Memᴰ.tail j);
    all_apart = p.all_apart.1;
    pending_edges =
        (p.pending_edges.0, p.pending_edges.1, λ y i. p.pending_edges.2 y (Memᴰ.tail i));
  }
