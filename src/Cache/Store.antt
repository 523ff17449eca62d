-- ===== src/Cache/Store.antt =====
-- The cache itself: `SMTHashMapCache` of src/optimizations/z3_pcache.hpp.
--
-- The file is its text, or `none` where it cannot be read. `hasher` is `std::hash<std::string>`.
pub mod Answers
pub mod Lookup
pub mod Reload
use spoq.Base.{
  ℕ, zero, suc, ◌+◌, ◌*◌, ◌%◌, Bool, true, false, Option, none, some, List, [], ◌∷◌, ◌++◌, nat_eq,
  if◌then◌else◌, or_else, map_option,
}
use spoq.Cache.{
  Text, ℤ, pos, negsuc, LiteralCacheEntry, compare_equal, Outcome, parsed, failed, throws,
  out_of_fuel, parse_record, generate_literal_record, parse, size,
}

abbrev pub CacheMap : Type 0
CacheMap = ℕ → List LiteralCacheEntry

pub record SmtHashMapCache : Type 0 where
  pub cache_map : CacheMap
  pub loaded : Bool
  pub cache_file : Option Text
  pub last_hit : Option LiteralCacheEntry
  pub count_query : ℕ
  pub count_hit : ℕ

-- `MAP_SIZE`
abbrev pub map_size : ℕ
map_size = 128

-- `cache_map[i].push_back(e)`
abbrev pub push_back : CacheMap → ℕ → LiteralCacheEntry → CacheMap
push_back m i e j = if nat_eq i j then m j ++ e ∷ [] else m j

-- The first entry of a bucket with the statement.
unfoldable pub find_entry : Text → List LiteralCacheEntry → Option LiteralCacheEntry
find_entry s [] = none
find_entry s (e ∷ es) = if compare_equal e s then some e else find_entry s es

-- `std::getline`
unfoldable pub first_line : Text → Text
first_line [] = []
first_line (c ∷ s) = if nat_eq c 10 then [] else c ∷ first_line s

-- `throws`: the exception of `std::stoi` leaves the loop. `out_of_fuel` has no counterpart.
pub data Loaded : Type 0 where
  loaded_map : CacheMap → Loaded
  load_throws load_out_of_fuel : Loaded

abbrev pub after : Text → Text
after [] = []
after (c ∷ s) = s

module _ (hasher : Text → ℕ) (to_string : ℤ → Text) (stoi : Text → Option ℤ) where
  -- `computeHashU32`
  abbrev pub compute_hash : Text → ℕ
  compute_hash s = hasher s % map_size

  abbrev pub push_entry : CacheMap → LiteralCacheEntry → CacheMap
  push_entry m e = push_back m (compute_hash e.statement) e

  -- The loop of `loadFromFile`: `k` is the rest of the loop.
  abbrev pub load_next : Outcome → CacheMap → (Text → CacheMap → Loaded) → Loaded
  load_next (parsed e t) m k = k (after t) (push_entry m e)
  load_next failed m k = loaded_map m
  load_next throws m k = load_throws
  load_next out_of_fuel m k = load_out_of_fuel

  -- A record is read in at most two rounds of its loop for each character and five more.
  abbrev pub record_fuel : Text → ℕ
  record_fuel s = suc (suc (suc (suc (suc (2 * size s)))))

  unfoldable pub load_loop : ℕ → Text → CacheMap → Loaded
  load_loop zero s m = load_out_of_fuel
  load_loop (suc f) s m =
      load_next (parse_record stoi (record_fuel s) s) m (λ t m'. load_loop f t m')

  abbrev pub finish_load : SmtHashMapCache → Loaded → Option (SmtHashMapCache × ℤ)
  finish_load c (loaded_map m) = some (record c { cache_map = m; loaded = true }, pos 1)
  finish_load c load_throws = none
  finish_load c load_out_of_fuel = none

  -- `loadFromFile`. Each record takes a character, so the length of the line is enough fuel.
  unfoldable pub load_from_file : SmtHashMapCache → Option (SmtHashMapCache × ℤ)
  load_from_file c = if c.loaded then some (c, negsuc 0) else elim c.cache_file [
    | none ↦ some (c, pos 0)
    | some text ↦
        let line = first_line text in finish_load c (load_loop (suc (size line)) line c.cache_map)
  ]

  abbrev pub count_one : SmtHashMapCache → SmtHashMapCache
  count_one c = record c { count_query = c.count_query + 1 }

  abbrev pub hit : SmtHashMapCache → Text → Option LiteralCacheEntry → SmtHashMapCache × ℤ × Text
  hit c s none = (c, negsuc 0, s)
  hit c s (some e) = (record c { last_hit = some e; count_hit = c.count_hit + 1 }, e.result, s)

  -- `get`: the result, or -1, with the normalised statement.
  unfoldable pub get : SmtHashMapCache → Text → SmtHashMapCache × ℤ × Text
  get c s =
      let p = parse to_string s in hit (count_one c) p (find_entry p (c.cache_map (compute_hash p)))

  -- `pushToFile` appends the record, and creates the file where there is none.
  abbrev pub push_to_file : Option Text → LiteralCacheEntry → Option Text
  push_to_file file e = some (or_else file [] ++ generate_literal_record to_string e)

  unfoldable pub put : SmtHashMapCache → Text → ℤ → SmtHashMapCache × ℤ × Text
  put c s n =
      let p = parse to_string s in
      let e : LiteralCacheEntry = record { statement = p; result = n } in
      (
        record c {
          cache_map = push_entry c.cache_map e;
          last_hit = some e;
          cache_file = push_to_file c.cache_file e;
        },
        pos 1,
        p,
      )
