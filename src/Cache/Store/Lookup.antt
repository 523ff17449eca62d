-- ===== src/Cache/Store/Lookup.antt =====
-- The entries of `SMTHashMapCache` after `SMTHashMapCache::put`.
use spoq.Base.{
  ℕ, Bool, true, false, Option, none, some, List, [], ◌∷◌, ◌++◌, ◌≡◌, refl, ap, ap₂, nat_eq,
  nat_eq→eq, if◌then◌else◌, or_else, Bool-cases, inl, inr, and_left, and_right, arith,
}
use spoq.Cache.{Text, ℤ, LiteralCacheEntry, compare_equal, text_eq, parse}
use spoq.Cache.Store.{SmtHashMapCache, find_entry, compute_hash, put}

pub text_eq→eq : (s t : Text) → text_eq s t ≡ true → s ≡ t
text_eq→eq [] [] h = refl
text_eq→eq (a ∷ s) (b ∷ t) h =
    ap₂ (λ x y. x ∷ y) (nat_eq→eq a b (and_left (nat_eq a b) (text_eq s t) h))
      (text_eq→eq s t (and_right (nat_eq a b) (text_eq s t) h))
text_eq→eq [] (b ∷ t) h = cc
text_eq→eq (a ∷ s) [] h = cc

nat_eq_refl : (n : ℕ) → nat_eq n n ≡ true
nat_eq_refl n = ground arith

abbrev pub result_of : Option LiteralCacheEntry → Option ℤ
result_of none = none
result_of (some e) = some e.result

-- The last entry counts only where no earlier one fits.
find_entry-append :
    (s : Text) (es : List LiteralCacheEntry) (e : LiteralCacheEntry)
    → result_of (find_entry s (es ++ e ∷ [])) ≡ (
        if compare_equal e s
        then some (or_else (result_of (find_entry s es)) e.result)
        else result_of (find_entry s es))
unfolding find_entry
find_entry-append s [] e = elim (Bool-cases (compare_equal e s)) [ inl q ↦ rw q | inr q ↦ rw q ]
find_entry-append s (d ∷ es) e = elim (Bool-cases (compare_equal d s)) [
  | inl q ↦ rw q (go (compare_equal e s))
  | inr q ↦ rw q (find_entry-append s es e)
]
  where
    go : (b : Bool) → some d.result ≡ (if b then some d.result else some d.result)
    go true = refl
    go false = refl

bucket_lookup :
    (k l : ℕ) (p p' : Text) (es : List LiteralCacheEntry) (n : ℤ)
    → (text_eq p p' ≡ true → k ≡ l)
    → result_of
        (find_entry p' (if nat_eq k l then es ++ record { statement = p; result = n } ∷ [] else es))
      ≡ (if text_eq p p'
          then some (or_else (result_of (find_entry p' es)) n)
          else result_of (find_entry p' es))
bucket_lookup k l p p' es n h = elim (Bool-cases (text_eq p p')) [
  | inl e ↦
      let d : LiteralCacheEntry = record { statement = p; result = n } in
      rw (h e, nat_eq_refl l) (find_entry-append p' es d)
  | inr e ↦ elim (Bool-cases (nat_eq k l)) [
    | inl k' ↦
        let d : LiteralCacheEntry = record { statement = p; result = n } in
        rw k' (find_entry-append p' es d)
    | inr k' ↦ rw (k', e)
  ]
]

module _ (hasher : Text → ℕ) (to_string : ℤ → Text) (stoi : Text → Option ℤ) where
  -- The result that the cache holds for a statement.
  abbrev pub lookup_result : SmtHashMapCache → Text → Option ℤ
  lookup_result c s =
      let p = parse to_string s in
      result_of (find_entry p (c.cache_map (compute_hash hasher to_string stoi p)))

  -- A lookup after an insertion: a statement with the normal form of the inserted one has the result
  -- that the cache held for it before, or else the inserted one; every other statement is unaffected.
  pub lookup_result-put :
      (c : SmtHashMapCache) (s q : Text) (n : ℤ)
      → lookup_result (put hasher to_string stoi c s n).0 q ≡ (
          if text_eq (parse to_string s) (parse to_string q)
          then some (or_else (lookup_result c q) n)
          else lookup_result c q)
  unfolding put
  lookup_result-put c s q n =
      let p = parse to_string s in
      let p' = parse to_string q in
      bucket_lookup (compute_hash hasher to_string stoi p) (compute_hash hasher to_string stoi p') p
        p' (c.cache_map (compute_hash hasher to_string stoi p')) n
        (λ e. ap (compute_hash hasher to_string stoi) (text_eq→eq p p' e))
