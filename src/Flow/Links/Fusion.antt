-- ===== src/Flow/Links/Fusion.antt =====
-- Links of a graph of src/frontend/IRLoader/control_flow.cpp around a node with one incoming edge.
use spoq.Base.{
  ℕ, none, some, List, [], ◌∷◌, ◌≡◌, ◌≢◌, ap, sym, ◌∙◌, subst, String, nat_eq, nat_eq→eq, false,
  true, Bool-cases, inl, inr, arith,
}
use spoq.Dict.{get}
use spoq.Flow.{Graph, write}
use spoq.Flow.Links.{Memᴰ, IsLinked}

pub only_member {ℓ} : {A : Type ℓ} (a b : A) → Memᴰ a (b ∷ []) → a ≡ b
only_member a b (Memᴰ.head e) = e
only_member a b (Memᴰ.tail m) = elim m [ ]

pub some_eq {ℓ} : {A : Type ℓ} {a b : A} → some a ≡ some b → a ≡ b
some_eq h = cc

pub write_here {ℓ} : {A : Type ℓ} (i j : ℕ) (a : A) (h : ℕ → A) → i ≡ j → write i a h j ≡ a
write_here i j a h p = let q : nat_eq i j ≡ true = ground arith in rw q

pub write_other {ℓ} :
    {A : Type ℓ} (i j : ℕ) (a : A) (h : ℕ → A) → nat_eq i j ≡ false → write i a h j ≡ h j
write_other i j a h q = rw q

pub differ : (i j : ℕ) → nat_eq i j ≡ false → i ≢ j
differ i j q p = let r : nat_eq i j ≡ true = ground arith in cc

pub apart : (i j : ℕ) → i ≢ j → nat_eq i j ≡ false
apart i j h = elim (Bool-cases (nat_eq i j)) [ inl q ↦ absurd (h (nat_eq→eq i j q)) | inr q ↦ q ]

module _ (g : Graph) (w : IsLinked g) (n : String) where
  -- A node that has a list of links has a name.
  pub has_name : (bs : List ℕ) → get n g.backwards ≡ some bs → n ≢ ""
  has_name bs h e =
      let q : none ≡ some bs = sym w.no_empty_name ∙ ap (λ x. get x g.backwards) (sym e) ∙ h in cc

  -- An edge that leads to the node has its link in the list of the node.
  pub incoming :
      (bs : List ℕ) (m : String) (es : List ℕ) (x : ℕ)
      → get n g.backwards ≡ some bs
      → get m g.edges ≡ some es
      → Memᴰ x es
      → (g.edge_at x).next ≡ n
      → (l : ℕ) × Memᴰ l bs
        × ((g.edge_at x).backward ≡ some l)
        × ((g.back_at l).edge ≡ x)
        × ((g.back_at l).from ≡ m)
  incoming bs m es x h k i e =
      let a = w.arrives m es x k i (λ p. has_name bs h (sym e ∙ p)) in
      let p = some_eq (sym a.at_next ∙ ap (λ t. get t g.backwards) e ∙ h) in
      let q = w.own_link m es x a.link k i a.has_link in
      (a.link, subst (Memᴰ a.link) p a.listed, a.has_link, q.0, q.1)

  -- The one link of a node is that of every edge that leads to it.
  pub only_edge :
      (b : ℕ) (m : String) (es : List ℕ) (x : ℕ)
      → get n g.backwards ≡ some (b ∷ [])
      → get m g.edges ≡ some es
      → Memᴰ x es
      → (g.edge_at x).next ≡ n
      → ((g.back_at b).edge ≡ x) × ((g.back_at b).from ≡ m)
  only_edge b m es x h k i e =
      let a = incoming (b ∷ []) m es x h k i e in
      let p = only_member a.0 b a.1 in
      (ap (λ l. (g.back_at l).edge) (sym p) ∙ a.3, ap (λ l. (g.back_at l).from) (sym p) ∙ a.4)
