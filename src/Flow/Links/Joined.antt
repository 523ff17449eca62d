-- ===== src/Flow/Links/Joined.antt =====
-- Edges and links where `rule_merge_branches` of src/frontend/IRLoader/control_flow.cpp makes a new
-- edge.
use spoq.Base.{
  ℕ, suc, ◌<◌, Bool, some, List, [], ◌∷◌, ◌++◌, ◌≡◌, ◌≢◌, refl, ap, sym, ◌∙◌, subst, inl, inr,
  String, ◌==◌, Bool-cases, eq_iff, arith,
}
use spoq.Dict.{get, insert}
use spoq.Dict.Valid.{insert-IsValid}
use spoq.Dict.Laws.{get-insert, get-insert_other, not_eq→false, false→not_eq}
use spoq.Flow.{Node, Edge, Backward, Graph, write, remove_if}
use spoq.Flow.Branches.{plain_edge, join_at}
use spoq.Flow.Branches.Cases.{MergeCase}
use spoq.Flow.Links.{Memᴰ, Arrives, Departs, IsLinked}
use spoq.Flow.Links.Fusion.{some_eq, only_member, write_here}
use spoq.Flow.Links.Members.{
  insert_left, write_new, Memᴰ-append, Memᴰ-append_left, Memᴰ-append_last, Memᴰ-remove_if,
  Memᴰ-remove_if_kept,
}
use spoq.Flow.Links.Fresh.{IsFresh}
use spoq.Flow.Links.Merge.{from_node}

module _ (g : Graph) (w : IsLinked g) (f : IsFresh g) (n : String) (g' : Graph)
    (c : MergeCase n g g') (node : Node) (bs : List ℕ) (named : c.common ≢ "")
    (has : get c.common g.backwards ≡ some bs) where
  abbrev joined : Graph
  joined = join_at n c.common g node bs

  abbrev from_n : ℕ → Bool
  from_n b = (g.back_at b).from == n

  abbrev new_links : List ℕ
  new_links = remove_if from_n bs ++ g.new_back ∷ []

  abbrev pub new_way : Edge
  new_way = plain_edge c.common g.new_back

  abbrev new_link : Backward
  new_link = record { from = n; edge = g.new_edge }

  pub edge_new : write g.new_edge new_way g.edge_at g.new_edge ≡ new_way
  edge_new = write_here g.new_edge g.new_edge new_way g.edge_at refl

  link_new : write g.new_back new_link g.back_at g.new_back ≡ new_link
  link_new = write_here g.new_back g.new_back new_link g.back_at refl

  pub edge_old :
      (m : String) (es : List ℕ) (x : ℕ)
      → get m g.edges ≡ some es
      → Memᴰ x es
      → write g.new_edge new_way g.edge_at x ≡ g.edge_at x
  edge_old m es x h i = write_new g.new_edge x new_way g.edge_at (f.edges_below m es x h i)

  link_old : (b : ℕ) → b < g.new_back → write g.new_back new_link g.back_at b ≡ g.back_at b
  link_old b h = write_new g.new_back b new_link g.back_at h

  new-Arrives : (x : ℕ) → x ≡ g.new_edge → Arrives joined x
  unfolding join_at
  new-Arrives x p =
      let e = ap (write g.new_edge new_way g.edge_at) p ∙ edge_new in
      record {
        link = g.new_back;
        links = new_links;
        has_link = ap (λ d. d.backward) e;
        at_next =
            ap (λ d. get d.next (insert c.common new_links g.backwards)) e
            ∙ get-insert c.common new_links g.backwards w.backwards_valid;
        listed = Memᴰ-append_last g.new_back (remove_if from_n bs);
      }

  old-Arrives :
      (m : String) (es : List ℕ) (x : ℕ)
      → m ≢ n
      → get m g.edges ≡ some es
      → Memᴰ x es
      → (g.edge_at x).next ≢ ""
      → Arrives joined x
  unfolding join_at
  old-Arrives m es x k h i u =
      let a = w.arrives m es x h i u in
      let e = edge_old m es x h i in
      let o = w.own_link m es x a.link h i a.has_link in
      elim (Bool-cases ((g.edge_at x).next == c.common)) [
        | inl q ↦
            let p = (eq_iff (g.edge_at x).next c.common).0 q in
            let r = some_eq (sym a.at_next ∙ ap (λ t. get t g.backwards) p ∙ has) in
            record {
              link = a.link;
              links = new_links;
              has_link = ap (λ d. d.backward) e ∙ a.has_link;
              at_next =
                  ap (λ d. get d.next (insert c.common new_links g.backwards)) e
                  ∙ ap (λ t. get t (insert c.common new_links g.backwards)) p
                  ∙ get-insert c.common new_links g.backwards w.backwards_valid;
              listed = Memᴰ-append_left a.link g.new_back (remove_if from_n bs) (
                  Memᴰ-remove_if_kept from_n a.link bs (ap (λ t. t == n) o.1 ∙ not_eq→false m n k)
                    (subst (Memᴰ a.link) r a.listed));
            }
        | inr q ↦ record {
          link = a.link;
          links = a.links;
          has_link = ap (λ d. d.backward) e ∙ a.has_link;
          at_next =
              ap (λ d. get d.next (insert c.common new_links g.backwards)) e
              ∙ get-insert_other c.common (g.edge_at x).next new_links g.backwards w.backwards_valid
                  (false→not_eq (g.edge_at x).next c.common q)
              ∙ a.at_next;
          listed = a.listed;
        }
      ]

  new-Departs : (b : ℕ) → b ≡ g.new_back → Departs joined c.common b
  unfolding join_at
  new-Departs b p =
      let l = ap (write g.new_back new_link g.back_at) p ∙ link_new in
      record {
        leads =
            ap (λ k. (write g.new_edge new_way g.edge_at k.edge).next) l
            ∙ ap (λ d. d.next) edge_new;
        linked =
            ap (λ k. (write g.new_edge new_way g.edge_at k.edge).backward) l
            ∙ ap (λ d. d.backward) edge_new
            ∙ ap some (sym p);
        outgoing = g.new_edge ∷ [];
        at_from =
            ap (λ k. get k.from (insert n (g.new_edge ∷ []) g.edges)) l
            ∙ get-insert n (g.new_edge ∷ []) g.edges w.edges_valid;
        listed = Memᴰ.head (ap (λ k. k.edge) l);
      }

  old-Departs :
      (t : String) (ls : List ℕ) (b : ℕ)
      → get t g.backwards ≡ some ls
      → Memᴰ b ls
      → (g.back_at b).from ≢ n
      → Departs joined t b
  unfolding join_at
  old-Departs t ls b h i k =
      let d = w.departs t ls b h i in
      let l = link_old b (f.backs_below t ls b h i) in
      let e = edge_old (g.back_at b).from d.outgoing (g.back_at b).edge d.at_from d.listed in
      record {
        leads =
            ap (λ z. (write g.new_edge new_way g.edge_at z.edge).next) l
            ∙ ap (λ z. z.next) e
            ∙ d.leads;
        linked =
            ap (λ z. (write g.new_edge new_way g.edge_at z.edge).backward) l
            ∙ ap (λ z. z.backward) e
            ∙ d.linked;
        outgoing = d.outgoing;
        at_from =
            ap (λ z. get z.from (insert n (g.new_edge ∷ []) g.edges)) l
            ∙ get-insert_other n (g.back_at b).from (g.new_edge ∷ []) g.edges w.edges_valid k
            ∙ d.at_from;
        listed = subst (λ z. Memᴰ z.edge d.outgoing) (sym l) d.listed;
      }

  -- The list of the common target has the links from elsewhere and the new one.
  target-Departs : (b : ℕ) → Memᴰ b new_links → Departs joined c.common b
  target-Departs b i = elim (Memᴰ-append b g.new_back (remove_if from_n bs) i) [
    | inl m ↦
        let a = Memᴰ-remove_if from_n b bs m in
        old-Departs c.common bs b has a.0 (false→not_eq (g.back_at b).from n a.1)
    | inr e ↦ new-Departs b e
  ]

  joined_own_link :
      (m : String) (es : List ℕ) (x b : ℕ)
      → get m g.edges ≡ some es
      → Memᴰ x es
      → (write g.new_edge new_way g.edge_at x).backward ≡ some b
      → ((write g.new_back new_link g.back_at b).edge ≡ x)
        × ((write g.new_back new_link g.back_at b).from ≡ m)
  joined_own_link m es x b h i k =
      let u = sym (ap (λ d. d.backward) (edge_old m es x h i)) ∙ k in
      let o = w.own_link m es x b h i u in
      let l = link_old b (f.links_below m es x b h i u) in
      (ap (λ z. z.edge) l ∙ o.0, ap (λ z. z.from) l ∙ o.1)

  new_own_link :
      (m : String) (x b : ℕ)
      → m ≡ n
      → x ≡ g.new_edge
      → (write g.new_edge new_way g.edge_at x).backward ≡ some b
      → ((write g.new_back new_link g.back_at b).edge ≡ x)
        × ((write g.new_back new_link g.back_at b).from ≡ m)
  new_own_link m x b p q k =
      let e = ap (write g.new_edge new_way g.edge_at) q ∙ edge_new in
      let r = some_eq (sym (ap (λ d. d.backward) e) ∙ k) in
      let l = ap (write g.new_back new_link g.back_at) (sym r) ∙ link_new in
      (ap (λ z. z.edge) l ∙ sym q, ap (λ z. z.from) l ∙ sym p)

  pub joined-IsLinked : IsLinked joined
  unfolding join_at
  joined-IsLinked = record {
    nodes_valid = insert-IsValid n node g.nodes w.nodes_valid;
    edges_valid = insert-IsValid n (g.new_edge ∷ []) g.edges w.edges_valid;
    backwards_valid = insert-IsValid c.common new_links g.backwards w.backwards_valid;
    no_empty_name =
        get-insert_other c.common "" new_links g.backwards w.backwards_valid (λ p. named (sym p))
        ∙ w.no_empty_name;
    own_link = λ m es x b h i k.
        elim (insert_left n m (g.new_edge ∷ []) es g.edges w.edges_valid h) [
          | inl (q, r) ↦ new_own_link m x b q (only_member x g.new_edge (subst (Memᴰ x) r i)) k
          | inr (q, r) ↦ joined_own_link m es x b r i k
        ];
    arrives = λ m es x h i k. elim (insert_left n m (g.new_edge ∷ []) es g.edges w.edges_valid h) [
      | inl (q, r) ↦ new-Arrives x (only_member x g.new_edge (subst (Memᴰ x) r i))
      | inr (q, r) ↦ old-Arrives m es x q r i (λ p. k (ap (λ d. d.next) (edge_old m es x r i) ∙ p))
    ];
    departs = λ t ls b h i.
        elim (insert_left c.common t new_links ls g.backwards w.backwards_valid h) [
          | inl (q, r) ↦
              subst (λ z. Departs joined z b) (sym q) (target-Departs b (subst (Memᴰ b) r i))
          | inr (q, r) ↦ old-Departs t ls b r i (λ p. q (from_node g w f n g' c node t ls b r i p))
        ];
  }

  below_next : (i k : ℕ) → i < k → i < suc k
  below_next i k h = omega arith

  below_new : (i k : ℕ) → i ≡ k → i < suc k
  below_new i k h = omega arith

  pub joined-IsFresh : IsFresh joined
  unfolding join_at
  joined-IsFresh = record {
    edges_below = λ m es x h i.
        elim (insert_left n m (g.new_edge ∷ []) es g.edges w.edges_valid h) [
          | inl (q, r) ↦ below_new x g.new_edge (only_member x g.new_edge (subst (Memᴰ x) r i))
          | inr (q, r) ↦ below_next x g.new_edge (f.edges_below m es x r i)
        ];
    links_below = λ m es x b h i k.
        elim (insert_left n m (g.new_edge ∷ []) es g.edges w.edges_valid h) [
          | inl (q, r) ↦
              let e = only_member x g.new_edge (subst (Memᴰ x) r i) in
              let d = ap (write g.new_edge new_way g.edge_at) e ∙ edge_new in
              below_new b g.new_back (sym (some_eq (sym (ap (λ z. z.backward) d) ∙ k)))
          | inr (q, r) ↦
              below_next b g.new_back
                (f.links_below m es x b r i (sym (ap (λ z. z.backward) (edge_old m es x r i)) ∙ k))
        ];
    backs_below = λ t ls b h i.
        elim (insert_left c.common t new_links ls g.backwards w.backwards_valid h) [
          | inl (q, r) ↦
              elim (Memᴰ-append b g.new_back (remove_if from_n bs) (subst (Memᴰ b) r i)) [
                | inl m ↦
                    below_next b g.new_back
                      (f.backs_below c.common bs b has (Memᴰ-remove_if from_n b bs m).0)
                | inr e ↦ below_new b g.new_back e
              ]
          | inr (q, r) ↦ below_next b g.new_back (f.backs_below t ls b r i)
        ];
  }
