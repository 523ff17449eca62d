-- ===== src/Flow/Links/Members.antt =====
-- Members of the lists of edges and links of a graph of
-- src/frontend/IRLoader/control_flow.cpp after a change.
use spoq.Base.{
  ℕ, suc, ◌<◌, Bool, false, some, List, [], ◌∷◌, ◌++◌, ◌≡◌, ◌≢◌, refl, ap, sym, ◌∙◌, ◌⊎◌, inl, inr,
  String, ◌==◌, nat_eq, Bool-cases, eq_iff, arith,
}
use spoq.Dict.{Dict, get, insert}
use spoq.Dict.Valid.{IsValid}
use spoq.Dict.Laws.{get-insert, get-insert_other, false→not_eq}
use spoq.Flow.{write, remove_if}
use spoq.Flow.Links.{Memᴰ}
use spoq.Flow.Links.Fusion.{some_eq, only_member, write_other}

-- What is in a dictionary after an insertion is new, or was there under another key.
pub insert_left {ℓ} :
    {V : Type ℓ} (k m : String) (v u : V) (d : Dict V)
    → IsValid d
    → get m (insert k v d) ≡ some u
    → ((m ≡ k) × (u ≡ v)) ⊎ ((m ≢ k) × (get m d ≡ some u))
insert_left k m v u d w h = elim (Bool-cases (m == k)) [
  | inl e ↦
      let p = (eq_iff m k).0 e in
      let q = sym h ∙ ap (λ x. get x (insert k v d)) p ∙ get-insert k v d w in inl (p, some_eq q)
  | inr e ↦ let p = false→not_eq m k e in inr (p, sym (get-insert_other k m v d w p) ∙ h)
]

below_other : (i n : ℕ) → i < n → nat_eq n i ≡ false
below_other i n h = ground arith

below_step : (i n : ℕ) → i < n → i < suc n
below_step i n h = omega arith

-- A write at a new address does not change what is at an address in use.
pub write_new {ℓ} : {A : Type ℓ} (n i : ℕ) (a : A) (h : ℕ → A) → i < n → write n a h i ≡ h i
write_new n i a h k = write_other n i a h (below_other i n k)

pub Memᴰ-append : (x y : ℕ) (xs : List ℕ) → Memᴰ x (xs ++ y ∷ []) → Memᴰ x xs ⊎ (x ≡ y)
Memᴰ-append x y [] m = inr (only_member x y m)
Memᴰ-append x y (z ∷ xs) (Memᴰ.head e) = inl (Memᴰ.head e)
Memᴰ-append x y (z ∷ xs) (Memᴰ.tail m) = elim (Memᴰ-append x y xs m) [
  | inl i ↦ inl (Memᴰ.tail i)
  | inr e ↦ inr e
]

pub Memᴰ-append_left : (x y : ℕ) (xs : List ℕ) → Memᴰ x xs → Memᴰ x (xs ++ y ∷ [])
Memᴰ-append_left x y [] m = elim m [ ]
Memᴰ-append_left x y (z ∷ xs) (Memᴰ.head e) = Memᴰ.head e
Memᴰ-append_left x y (z ∷ xs) (Memᴰ.tail m) = Memᴰ.tail (Memᴰ-append_left x y xs m)

pub Memᴰ-append_last : (y : ℕ) (xs : List ℕ) → Memᴰ y (xs ++ y ∷ [])
Memᴰ-append_last y [] = Memᴰ.head refl
Memᴰ-append_last y (z ∷ xs) = Memᴰ.tail (Memᴰ-append_last y xs)

-- What is left after a removal was there and does not pass the test, and conversely.
pub Memᴰ-remove_if :
    (p : ℕ → Bool) (x : ℕ) (xs : List ℕ) → Memᴰ x (remove_if p xs) → Memᴰ x xs × (p x ≡ false)
unfolding remove_if
Memᴰ-remove_if p x [] m = elim m [ ]
Memᴰ-remove_if p x (y ∷ ys) m = elim (Bool-cases (p y)) [
  | inl e ↦
      let q : Memᴰ x (remove_if p ys) = rw e at m in
      let a = Memᴰ-remove_if p x ys q in (Memᴰ.tail a.0, a.1)
  | inr e ↦
      let q : Memᴰ x (y ∷ remove_if p ys) = rw e at m in
      elim q [
        | Memᴰ.head i ↦ (Memᴰ.head i, ap p i ∙ e)
        | Memᴰ.tail i ↦ let a = Memᴰ-remove_if p x ys i in (Memᴰ.tail a.0, a.1)
      ]
]

pub Memᴰ-remove_if_kept :
    (p : ℕ → Bool) (x : ℕ) (xs : List ℕ) → p x ≡ false → Memᴰ x xs → Memᴰ x (remove_if p xs)
unfolding remove_if
Memᴰ-remove_if_kept p x [] h m = elim m [ ]
Memᴰ-remove_if_kept p x (y ∷ ys) h (Memᴰ.head i) = rw (ap p (sym i) ∙ h) (Memᴰ.head i)
Memᴰ-remove_if_kept p x (y ∷ ys) h (Memᴰ.tail i) = elim (Bool-cases (p y)) [
  | inl e ↦ rw e (Memᴰ-remove_if_kept p x ys h i)
  | inr e ↦ rw e (Memᴰ.tail (Memᴰ-remove_if_kept p x ys h i))
]
