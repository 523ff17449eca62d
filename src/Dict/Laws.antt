-- ===== src/Dict/Laws.antt =====
-- Lookups in a dictionary of src/frontend/IRLoader/control_flow.cpp after an insertion or an erasure.
use spoq.Base.{
  ℕ, true, false, none, some, List, [], ◌∷◌, ◌≡◌, ◌≢◌, refl, ap, sym, ◌∙◌, subst, String, ◌==◌,
  if◌then◌else◌, Bool-cases, Option-cases, inl, inr, eq_iff, eq_refl,
}
use spoq.Dict.{Dict, find, unlink, get, insert, erase, entries}
use spoq.Dict.Valid.{IsValid, NoKey, Distinct, insert-IsValid, erase-IsValid}
use spoq.Dict.Refines.{lookup, put, remove, get-entries, entries-insert, entries-erase}

pub not_eq→false : (s t : String) → s ≢ t → s == t ≡ false
not_eq→false s t h = elim (Bool-cases (s == t)) [
  | inl e ↦ absurd (h ((eq_iff s t).0 e))
  | inr e ↦ e
]

pub false→not_eq : (s t : String) → s == t ≡ false → s ≢ t
false→not_eq s t h p = let q = (eq_iff s t).1 p in cc

find-NoKey : (k : String) (ls : List (String × ℕ)) → NoKey k ls → find k ls ≡ none
unfolding find
find-NoKey k [] h = refl
find-NoKey k (l ∷ ls) h = rw h.0 (find-NoKey k ls h.1)

find-unlink : (k : String) (ls : List (String × ℕ)) → Distinct ls → find k (unlink k ls) ≡ none
unfolding find unlink
find-unlink k [] h = refl
find-unlink k (l ∷ ls) h = elim (Bool-cases (l.0 == k)) [
  | inl e ↦ rw e (subst (λ x. find x ls ≡ none) ((eq_iff l.0 k).0 e) (find-NoKey l.0 ls h.0))
  | inr e ↦ rw (e, unlink, find, e) (find-unlink k ls h.2)
]

-- A key that equals another one is not equal to a third one from which that one differs.
other_key : (a k m : String) → a == k ≡ true → m ≢ k → a == m ≡ false
other_key a k m e h = not_eq→false a m (λ p. h (sym p ∙ (eq_iff a k).0 e))

module _ {ℓ} {V : Type ℓ} where
  lookup-remove :
      (k m : String) (es : List (String × V)) → m ≢ k → lookup m (remove k es) ≡ lookup m es
  unfolding lookup remove
  lookup-remove k m [] h = refl
  lookup-remove k m (e ∷ es) h = elim (Bool-cases (e.0 == k)) [
    | inl q ↦ rw (q, other_key e.0 k m q h)
    | inr q ↦ rw q (ap (λ o. if e.0 == m then some e.1 else o) (lookup-remove k m es h))
  ]

  lookup-put_other :
      (k m : String) (v : V) (es : List (String × V)) → m ≢ k → lookup m (put k v es) ≡ lookup m es
  unfolding lookup put
  lookup-put_other k m v [] h = rw (not_eq→false k m (λ p. h (sym p)))
  lookup-put_other k m v (e ∷ es) h = elim (Bool-cases (e.0 == k)) [
    | inl q ↦ rw (q, other_key e.0 k m q h)
    | inr q ↦ rw q (ap (λ o. if e.0 == m then some e.1 else o) (lookup-put_other k m v es h))
  ]

  lookup-put : (k : String) (v : V) (es : List (String × V)) → lookup k (put k v es) ≡ some v
  unfolding lookup put
  lookup-put k v [] = rw (eq_refl k)
  lookup-put k v (e ∷ es) = elim (Bool-cases (e.0 == k)) [
    | inl q ↦ rw q (rw q)
    | inr q ↦ rw (q, lookup, q) (lookup-put k v es)
  ]

  pub get-erase_other :
      (k m : String) (d : Dict V) → IsValid d → m ≢ k → get m (erase k d) ≡ get m d
  get-erase_other k m d w h =
      get-entries m (erase k d) (erase-IsValid k d w)
      ∙ ap (lookup m) (entries-erase k d w)
      ∙ lookup-remove k m (entries d) h
      ∙ sym (get-entries m d w)

  pub get-erase : (k : String) (d : Dict V) → IsValid d → get k (erase k d) ≡ none
  unfolding get erase
  get-erase k d w = elim (Option-cases (find k d.index)) [
    | inl h ↦ rw (h, h)
    | inr (i, h) ↦ rw (h, find-unlink k d.index w.distinct)
  ]

  -- What is left after an erasure has another key and was there before.
  pub erase_left :
      (k m : String) (d : Dict V) (v : V)
      → IsValid d
      → get m (erase k d) ≡ some v
      → (m ≢ k) × (get m d ≡ some v)
  erase_left k m d v w h = elim (Bool-cases (m == k)) [
    | inl e ↦
        let q = ap (λ x. get x (erase k d)) ((eq_iff m k).0 e) ∙ get-erase k d w in
        let p : none ≡ some v = sym q ∙ h in cc
    | inr e ↦ let p = false→not_eq m k e in (p, sym (get-erase_other k m d w p) ∙ h)
  ]

  pub get-insert_other :
      (k m : String) (v : V) (d : Dict V) → IsValid d → m ≢ k → get m (insert k v d) ≡ get m d
  get-insert_other k m v d w h =
      get-entries m (insert k v d) (insert-IsValid k v d w)
      ∙ ap (lookup m) (entries-insert k v d w)
      ∙ lookup-put_other k m v (entries d) h
      ∙ sym (get-entries m d w)

  pub get-insert : (k : String) (v : V) (d : Dict V) → IsValid d → get k (insert k v d) ≡ some v
  get-insert k v d w =
      get-entries k (insert k v d) (insert-IsValid k v d w)
      ∙ ap (lookup k) (entries-insert k v d w)
      ∙ lookup-put k v (entries d)
