-- ===== src/Cache/Store/Answers.antt =====
-- What `SMTHashMapCache::get` answers after a sequence of insertions with `SMTHashMapCache::put`.
use spoq.Base.{
  ℕ, ◌+◌, Bool, true, false, Option, none, some, List, [], ◌∷◌, ◌≡◌, refl, ap, ◌∙◌, if◌then◌else◌,
  or_else,
}
use spoq.Cache.{Text, ℤ, negsuc, LiteralCacheEntry, text_eq, parse}
use spoq.Cache.Store.{SmtHashMapCache, find_entry, compute_hash, get, put, hit}
use spoq.Cache.Store.Lookup.{result_of, lookup_result, lookup_result-put}
use spoq.Cache.Store.Reload.{fresh, put_all}

module _ (hasher : Text → ℕ) (to_string : ℤ → Text) (stoi : Text → Option ℤ) where
  -- The first result in a list of statements with results whose statement has the normal form of `q`.
  unfoldable pub first_result : List (Text × ℤ) → Text → Option ℤ
  first_result [] q = none
  first_result ((s, n) ∷ xs) q =
      if text_eq (parse to_string s) (parse to_string q) then some n else first_result xs q

  abbrev or_first : Option ℤ → Option ℤ → Option ℤ
  or_first none o = o
  or_first (some n) o = some n

  lookup_result-put_all :
      (xs : List (Text × ℤ)) (c : SmtHashMapCache) (q : Text)
      → lookup_result hasher to_string stoi (put_all hasher to_string stoi c xs) q
        ≡ or_first (lookup_result hasher to_string stoi c q) (first_result xs q)
  unfolding put_all first_result
  lookup_result-put_all [] c q = go (lookup_result hasher to_string stoi c q)
    where
      go : (o : Option ℤ) → o ≡ or_first o none
      go none = refl
      go (some n) = refl
  lookup_result-put_all ((s, n) ∷ xs) c q =
      lookup_result-put_all xs (put hasher to_string stoi c s n).0 q
      ∙ ap (λ o. or_first o (first_result xs q)) (lookup_result-put hasher to_string stoi c s q n)
      ∙ go (text_eq (parse to_string s) (parse to_string q))
          (lookup_result hasher to_string stoi c q)
    where
      go :
          (b : Bool) (o : Option ℤ)
          → or_first (if b then some (or_else o n) else o) (first_result xs q)
            ≡ or_first o (if b then some n else first_result xs q)
      go true none = refl
      go true (some m) = refl
      go false o = refl

  get_answer :
      (c : SmtHashMapCache) (q : Text)
      → (get hasher to_string stoi c q).1
        ≡ or_else (lookup_result hasher to_string stoi c q) (negsuc 0)
  unfolding get
  get_answer c q =
      let p = parse to_string q in
      go (find_entry p (c.cache_map (compute_hash hasher to_string stoi p)))
    where
      go :
          (o : Option LiteralCacheEntry)
          → (hit hasher to_string stoi
              (record c { count_query = c.count_query + 1 })
              (parse to_string q)
              o).1
            ≡ or_else (result_of o) (negsuc 0)
      go none = refl
      go (some e) = refl

  -- After any sequence of insertions into a cache with no entries, `get` answers with the result of
  -- the first insertion whose statement has the same normal form as the one that is asked for, and
  -- with -1 where there is none: whatever the hash function and the conversions of numbers.
  pub get-put_all :
      (file : Option Text) (xs : List (Text × ℤ)) (q : Text)
      → (get hasher to_string stoi
          (put_all hasher to_string stoi (fresh hasher to_string stoi file) xs)
          q).1
        ≡ or_else (first_result xs q) (negsuc 0)
  unfolding first_result find_entry
  get-put_all file xs q =
      get_answer (put_all hasher to_string stoi (fresh hasher to_string stoi file) xs) q
      ∙ ap (λ o. or_else o (negsuc 0))
          (lookup_result-put_all xs (fresh hasher to_string stoi file) q)
