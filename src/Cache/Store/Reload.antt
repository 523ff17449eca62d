-- ===== src/Cache/Store/Reload.antt =====
-- `SMTHashMapCache::put` and `SMTHashMapCache::loadFromFile` together.
use spoq.Base.{
  ℕ, zero, suc, ◌+◌, ◌*◌, ◌<◌, ◌≤◌, true, false, ◌&&◌, Option, none, some, List, [], ◌∷◌, ◌++◌, ◌≡◌,
  refl, ap, ◌∙◌, nat_eq, leb, or_else, Bool-cases, inl, inr, arith,
}
use mathlib.Core.List.{append_assoc, append-nil}
use spoq.Cache.{
  Text, ℤ, pos, IsInt, LiteralCacheEntry, parse, size, split_digits, renumber, erase_newlines,
  starts_variable, generate_literal_record, skip_to_open, parse_record,
}
use spoq.Cache.Record.{IsClosed, NumberLaws, parse_record-generate}
use spoq.Cache.Store.{
  CacheMap, SmtHashMapCache, loaded_map, load_loop, load_from_file, first_line, push_entry, put,
}

-- No newline.
abbrev pub IsLine : Text → Type 0
IsLine [] = Unit
IsLine (c ∷ s) = (nat_eq c 10 ≡ false) × IsLine s

IsLine-append : (s t : Text) → IsLine s → IsLine t → IsLine (s ++ t)
IsLine-append [] t h k = k
IsLine-append (c ∷ s) t h k = (h.0, IsLine-append s t h.1 k)

erase_newlines-IsLine : (s : Text) → IsLine (erase_newlines s)
unfolding erase_newlines
erase_newlines-IsLine [] = tt
erase_newlines-IsLine (c ∷ s) = elim (Bool-cases (nat_eq c 10)) [
  | inl e ↦ rw e (erase_newlines-IsLine s)
  | inr e ↦ rw e (e, erase_newlines-IsLine s)
]

split_digits-IsLine : (s : Text) → IsLine s → IsLine (split_digits s).1
unfolding split_digits
split_digits-IsLine [] h = tt
split_digits-IsLine (c ∷ s) h = elim (Bool-cases (leb b'0' c && leb c b'9')) [
  | inl e ↦ rw e (split_digits-IsLine s h.1)
  | inr e ↦ rw e h
]

first_line-IsLine : (s : Text) → IsLine s → first_line s ≡ s
unfolding first_line
first_line-IsLine [] h = refl
first_line-IsLine (c ∷ s) h = rw (h.0, first_line-IsLine s h.1)

module _ (to_string : ℤ → Text) (lines : (n : ℤ) → IsLine (to_string n)) where
  renumber-IsLine :
      (f : ℕ) (s : Text) (seen : List (Text × ℕ)) (counter : ℕ)
      → IsLine s
      → IsLine (renumber to_string f s seen counter)
  unfolding renumber
  renumber-IsLine zero s seen counter h = h
  renumber-IsLine (suc f) [] seen counter h = tt
  renumber-IsLine (suc f) (a ∷ []) seen counter h = h
  renumber-IsLine (suc f) (a ∷ b ∷ s) seen counter h = elim (Bool-cases (starts_variable a b)) [
    | inl e ↦ rw e (
      h.0,
      (
        h.1.0,
        IsLine-append (to_string _) _ (lines _)
            (renumber-IsLine f (split_digits s).1 _ _ (split_digits-IsLine s h.1.1)),
      ),
    )
    | inr e ↦ rw e (h.0, renumber-IsLine f (b ∷ s) seen counter h.1)
  ]

  parse-IsLine : (s : Text) → IsLine (parse to_string s)
  unfolding parse
  parse-IsLine s =
      renumber-IsLine (size (erase_newlines s)) (erase_newlines s) [] 1 (erase_newlines-IsLine s)

abbrev Entries : Type 0
Entries = List LiteralCacheEntry

abbrev records : (ℤ → Text) → Entries → Text
records to_string [] = []
records to_string (e ∷ es) = generate_literal_record to_string e ++ records to_string es

-- Statements without a closing brace or a code 0, and results that are `int`s.
abbrev AllReadable : Entries → Type 0
AllReadable [] = Unit
AllReadable (e ∷ es) = IsClosed e.statement × IsInt e.result × AllReadable es

abbrev count : Entries → ℕ
count [] = 0
count (e ∷ es) = suc (count es)

size-append : (s t : Text) → size (s ++ t) ≡ size s + size t
size-append [] t = omega arith
size-append (c ∷ s) t = omega (arith, size-append s t)

size-generate_pos :
    (to_string : ℤ → Text) (e : LiteralCacheEntry) → 1 ≤ size (generate_literal_record to_string e)
unfolding generate_literal_record
size-generate_pos to_string e = omega arith

count-le-size : (to_string : ℤ → Text) (es : Entries) → count es ≤ size (records to_string es)
count-le-size to_string [] = omega arith
count-le-size to_string (e ∷ es) = omega (
  arith,
  size-append (generate_literal_record to_string e) (records to_string es),
  size-generate_pos to_string e,
  count-le-size to_string es,
)

AllLines : Entries → Type 0
AllLines [] = Unit
AllLines (e ∷ es) = IsLine e.statement × AllLines es

records-IsLine :
    (to_string : ℤ → Text)
    → ((n : ℤ) → IsLine (to_string n))
    → (es : Entries) → AllLines es
    → IsLine (records to_string es)
unfolding generate_literal_record AllLines
records-IsLine to_string lines [] h = tt
records-IsLine to_string lines (e ∷ es) h =
    IsLine-append (generate_literal_record to_string e) (records to_string es)
      (
        refl,
        (
          refl,
          IsLine-append e.statement _ h.0 (
            refl,
            (refl, IsLine-append (to_string e.result) _ (lines e.result) (refl, (refl, tt))),
          ),
        ),
      )
      (records-IsLine to_string lines es h.1)

module _ (hasher : Text → ℕ) (to_string : ℤ → Text) (stoi : Text → Option ℤ) where
  abbrev push_all : CacheMap → Entries → CacheMap
  push_all m [] = m
  push_all m (e ∷ es) = push_all (push_entry hasher to_string stoi m e) es

  load_loop-records :
      NumberLaws to_string stoi
      → (f : ℕ) (es : Entries) (m : CacheMap) → count es < f
      → AllReadable es
      → load_loop hasher to_string stoi f (records to_string es) m ≡ loaded_map (push_all m es)
  unfolding load_loop
  load_loop-records laws zero es m h k = absurd (omega arith)
  load_loop-records laws (suc f) [] m h k = unfold parse_record skip_to_open in refl
  load_loop-records laws (suc f) (e ∷ es) m h k =
      rw
        (
          parse_record-generate to_string stoi laws (2 * size (records to_string (e ∷ es))) e
              (records to_string es) k.0 k.1,
          load_loop,
        )
        (load_loop-records laws f es (push_entry hasher to_string stoi m e) (omega arith) k.2)

  -- The entries that a list of statements with results comes to, and the insertions of the list.
  abbrev pub entries : List (Text × ℤ) → Entries
  entries [] = []
  entries ((s, n) ∷ xs) = record { statement = parse to_string s; result = n } ∷ entries xs

  unfoldable pub put_all : SmtHashMapCache → List (Text × ℤ) → SmtHashMapCache
  put_all c [] = c
  put_all c ((s, n) ∷ xs) = put_all (put hasher to_string stoi c s n).0 xs

  put_all-cache_map :
      (xs : List (Text × ℤ)) (c : SmtHashMapCache)
      → (put_all c xs).cache_map ≡ push_all c.cache_map (entries xs)
  unfolding put_all put
  put_all-cache_map [] c = refl
  put_all-cache_map ((s, n) ∷ xs) c = put_all-cache_map xs (put hasher to_string stoi c s n).0

  put_all-cache_file :
      (xs : List (Text × ℤ)) (c : SmtHashMapCache) (t : Text)
      → c.cache_file ≡ some t
      → (put_all c xs).cache_file ≡ some (t ++ records to_string (entries xs))
  unfolding put_all put
  put_all-cache_file [] c t h = rw (append-nil t) h
  put_all-cache_file ((s, n) ∷ xs) c t h =
      let e : LiteralCacheEntry = record { statement = parse to_string s; result = n } in
      put_all-cache_file xs (put hasher to_string stoi c s n).0
        (t ++ generate_literal_record to_string e)
        (ap (λ file. some (or_else file [] ++ generate_literal_record to_string e)) h)
      ∙ ap some (append_assoc t _ _)

  entries-AllLines :
      ((n : ℤ) → IsLine (to_string n)) → (xs : List (Text × ℤ)) → AllLines (entries xs)
  unfolding AllLines
  entries-AllLines lines [] = tt
  entries-AllLines lines ((s, n) ∷ xs) = (parse-IsLine to_string lines s, entries-AllLines lines xs)

  -- A cache with no entries, over a file.
  abbrev pub fresh : Option Text → SmtHashMapCache
  fresh file = record {
    cache_map = λ i. [];
    loaded = false;
    cache_file = file;
    last_hit = none;
    count_query = 0;
    count_hit = 0;
  }

  load-records :
      NumberLaws to_string stoi
      → (es : Entries) → AllReadable es
      → IsLine (records to_string es)
      → load_from_file hasher to_string stoi (fresh (some (records to_string es)))
        ≡ some (
          record (fresh (some (records to_string es))) {
            cache_map = push_all (λ i. []) es;
            loaded = true;
          },
          pos 1,
        )
  unfolding load_from_file
  load-records laws es closed line = rw (
    first_line-IsLine (records to_string es) line,
    load_loop-records laws (suc (size (records to_string es))) es (λ i. [])
        (omega (arith, count-le-size to_string es)) closed,
  )

  file_of :
      (s : Text) (n : ℤ) (xs : List (Text × ℤ))
      → (put_all (fresh none) ((s, n) ∷ xs)).cache_file
        ≡ some (records to_string (entries ((s, n) ∷ xs)))
  unfolding put_all put
  file_of s n xs =
      let e : LiteralCacheEntry = record { statement = parse to_string s; result = n } in
      put_all-cache_file xs (put hasher to_string stoi (fresh none) s n).0
        (generate_literal_record to_string e) refl

  -- After a sequence of insertions, at least one, into a cache with no entries and no file, a fresh
  -- cache over the file that they wrote loads: it has the entries of the first, in every bucket in
  -- the same order. It is assumed that every `int` is read as it is written, without a closing brace, a
  -- newline or a code 0, that the results are `int`s, and that no statement, once normalised, has a
  -- closing brace or a code 0.
  pub load_from_file-put_all :
      (s : Text) (n : ℤ) (xs : List (Text × ℤ))
      → NumberLaws to_string stoi
      → ((m : ℤ) → IsLine (to_string m))
      → AllReadable (entries ((s, n) ∷ xs))
      → let c = put_all (fresh none) ((s, n) ∷ xs) in
        load_from_file hasher to_string stoi (fresh c.cache_file)
        ≡ some (record (fresh c.cache_file) { cache_map = c.cache_map; loaded = true }, pos 1)
  load_from_file-put_all s n xs laws lines closed =
      let es = entries ((s, n) ∷ xs) in
      rw (file_of s n xs, put_all-cache_map ((s, n) ∷ xs) (fresh none))
        (load-records laws es closed
          (records-IsLine to_string lines es (entries-AllLines lines ((s, n) ∷ xs))))
