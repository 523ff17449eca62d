-- ===== src/Dict/Refines.antt =====
-- The dictionary of src/frontend/IRLoader/control_flow.cpp against a plain association list in the
-- order of insertion.
use spoq.Base.{
  ℕ, suc, Bool, true, false, Option, none, some, List, [], ◌∷◌, ◌++◌, ◌≡◌, refl, ap, map, String,
  ◌==◌, nat_eq, if◌then◌else◌, Bool-cases, Option-cases, inl, inr, ◌||◌, sym, ◌∙◌,
}
use spoq.Dict.{
  Slot, Dict, find, value_at, set_at, erase_at, insert, contains, get, erase, access, length, size,
  entry, entries, is_some,
}
use spoq.Dict.Valid.{IsValid, Distinct, link, found_other, same_address, link_found, link-Distinct}

-- The reference: a list of entries with one entry for each key.
module _ {ℓ} {V : Type ℓ} where
  unfoldable pub lookup : String → List (String × V) → Option V
  lookup k [] = none
  lookup k (e ∷ es) = if e.0 == k then some e.1 else lookup k es

  unfoldable pub put : String → V → List (String × V) → List (String × V)
  put k v [] = (k, v) ∷ []
  put k v (e ∷ es) = if e.0 == k then (e.0, v) ∷ es else e ∷ put k v es

  unfoldable pub has : String → List (String × V) → Bool
  has k [] = false
  has k (e ∷ es) = e.0 == k || has k es

  unfoldable pub remove : String → List (String × V) → List (String × V)
  remove k [] = []
  remove k (e ∷ es) = if e.0 == k then es else e ∷ remove k es

  -- Where the key is found, the element at its address is its first entry.
  value_at-find :
      (k : String) (i : ℕ) (ss : List (Slot V))
      → Distinct (map link ss)
      → find k (map link ss) ≡ some i
      → value_at i ss ≡ lookup k (map entry ss)
  unfolding find value_at lookup
  value_at-find k i [] d h = cc
  value_at-find k i (s ∷ ss) d h = elim (Bool-cases (s.key == k)) [
    | inl e ↦
        let q : some s.address ≡ some i = rw e at h in
        let p : nat_eq i s.address ≡ true = (same_address s.address i q) in rw (e, p)
    | inr e ↦
        let q : find k (map link ss) ≡ some i = rw e at h in
        rw (e, found_other k (map link ss) i s.address q d.1) (value_at-find k i ss d.2 q)
  ]

  set_at-find :
      (k : String) (v : V) (i : ℕ) (ss : List (Slot V))
      → Distinct (map link ss)
      → find k (map link ss) ≡ some i
      → map entry (set_at i v ss) ≡ put k v (map entry ss)
  unfolding find set_at put
  set_at-find k v i [] d h = cc
  set_at-find k v i (s ∷ ss) d h = elim (Bool-cases (s.key == k)) [
    | inl e ↦
        let q : some s.address ≡ some i = rw e at h in
        let p : nat_eq i s.address ≡ true = (same_address s.address i q) in rw (e, p)
    | inr e ↦
        let q : find k (map link ss) ≡ some i = rw e at h in
        rw (e, found_other k (map link ss) i s.address q d.1)
          (ap (λ es. entry s ∷ es) (set_at-find k v i ss d.2 q))
  ]

  erase_at-find :
      (k : String) (i : ℕ) (ss : List (Slot V))
      → Distinct (map link ss)
      → find k (map link ss) ≡ some i
      → map entry (erase_at i ss) ≡ remove k (map entry ss)
  unfolding find erase_at remove
  erase_at-find k i [] d h = cc
  erase_at-find k i (s ∷ ss) d h = elim (Bool-cases (s.key == k)) [
    | inl e ↦
        let q : some s.address ≡ some i = rw e at h in
        let p : nat_eq i s.address ≡ true = (same_address s.address i q) in rw (e, p)
    | inr e ↦
        let q : find k (map link ss) ≡ some i = rw e at h in
        rw (e, found_other k (map link ss) i s.address q d.1)
          (ap (λ es. entry s ∷ es) (erase_at-find k i ss d.2 q))
  ]

  -- Where it is not found, the reference has no entry.
  put-absent :
      (k : String) (v : V) (i : ℕ) (ss : List (Slot V))
      → find k (map link ss) ≡ none
      → map entry (ss ++ record { address = i; key = k; value = v } ∷ []) ≡ put k v (map entry ss)
  unfolding find put
  put-absent k v i [] h = refl
  put-absent k v i (s ∷ ss) h = elim (Bool-cases (s.key == k)) [
    | inl e ↦ let q : some s.address ≡ none = rw e at h in cc
    | inr e ↦
        let q : find k (map link ss) ≡ none = rw e at h in
        rw e (ap (λ es. entry s ∷ es) (put-absent k v i ss q))
  ]

  remove-absent :
      (k : String) (ss : List (Slot V))
      → find k (map link ss) ≡ none
      → map entry ss ≡ remove k (map entry ss)
  unfolding find remove
  remove-absent k [] h = refl
  remove-absent k (s ∷ ss) h = elim (Bool-cases (s.key == k)) [
    | inl e ↦ let q : some s.address ≡ none = rw e at h in cc
    | inr e ↦
        let q : find k (map link ss) ≡ none = rw e at h in
        rw e (ap (λ es. entry s ∷ es) (remove-absent k ss q))
  ]

  lookup-absent :
      (k : String) (ss : List (Slot V))
      → find k (map link ss) ≡ none
      → none ≡ lookup k (map entry ss)
  unfolding find lookup
  lookup-absent k [] h = refl
  lookup-absent k (s ∷ ss) h = elim (Bool-cases (s.key == k)) [
    | inl e ↦ let q : some s.address ≡ none = rw e at h in cc
    | inr e ↦ let q : find k (map link ss) ≡ none = rw e at h in rw e (lookup-absent k ss q)
  ]

  has-find :
      (k : String) (ss : List (Slot V)) → is_some (find k (map link ss)) ≡ has k (map entry ss)
  unfolding find has
  has-find k [] = refl
  has-find k (s ∷ ss) = elim (Bool-cases (s.key == k)) [
    | inl e ↦ rw e
    | inr e ↦ rw e (has-find k ss)
  ]

  length-link : (ss : List (Slot V)) → length (map link ss) ≡ length (map entry ss)
  unfolding length
  length-link [] = refl
  length-link (s ∷ ss) = ap suc (length-link ss)

  pub entries-insert :
      (k : String) (v : V) (d : Dict V) → IsValid d → entries (insert k v d) ≡ put k v (entries d)
  unfolding insert entries
  entries-insert k v d w = elim (Option-cases (find k d.index)) [
    | inl h ↦ rw h (put-absent k v d.fresh d.order (link_found k d none w h))
    | inr (i, h) ↦
        rw h (set_at-find k v i d.order (link-Distinct d w) (link_found k d (some i) w h))
  ]

  pub entries-erase :
      (k : String) (d : Dict V) → IsValid d → entries (erase k d) ≡ remove k (entries d)
  unfolding erase entries
  entries-erase k d w = elim (Option-cases (find k d.index)) [
    | inl h ↦ rw h (remove-absent k d.order (link_found k d none w h))
    | inr (i, h) ↦
        rw h (erase_at-find k i d.order (link-Distinct d w) (link_found k d (some i) w h))
  ]

  pub get-entries : (k : String) (d : Dict V) → IsValid d → get k d ≡ lookup k (entries d)
  unfolding get entries
  get-entries k d w = elim (Option-cases (find k d.index)) [
    | inl h ↦ rw h (lookup-absent k d.order (link_found k d none w h))
    | inr (i, h) ↦
        rw h (value_at-find k i d.order (link-Distinct d w) (link_found k d (some i) w h))
  ]

  -- `operator[]` puts the default value where the key is new, and changes nothing else.
  entries-access :
      (k : String) (v : V) (d : Dict V)
      → IsValid d
      → entries (access k v d) ≡ (if has k (entries d) then entries d else put k v (entries d))
  unfolding access entries
  entries-access k v d w = rw (sym (has-find k d.order)) (elim (Option-cases (find k d.index)) [
    | inl h ↦
        rw (h, link_found k d none w h) (put-absent k v d.fresh d.order (link_found k d none w h))
    | inr (i, h) ↦ rw (h, link_found k d (some i) w h)
  ])

  -- A dictionary whose index and list agree acts as an association list in the order of insertion:
  -- a lookup, a test for a key and the size give what they give on the list, an insertion writes in
  -- place or adds at the end, an erasure drops the entry, and `operator[]` adds a default value where
  -- the key is new.
  pub operations-entries :
      (k : String) (v : V) (d : Dict V)
      → IsValid d
      → (get k d ≡ lookup k (entries d))
        × (contains k d ≡ has k (entries d))
        × (size d ≡ length (entries d))
        × (entries (insert k v d) ≡ put k v (entries d))
        × (entries (erase k d) ≡ remove k (entries d))
        × (entries (access k v d) ≡ (if has k (entries d) then entries d else put k v (entries d)))
  unfolding contains size entries
  operations-entries k v d w = (
    get-entries k d w,
    ap (λ ls. is_some (find k ls)) w.linked ∙ has-find k d.order,
    ap length w.linked ∙ length-link d.order,
    entries-insert k v d w,
    entries-erase k d w,
    entries-access k v d w,
  )
