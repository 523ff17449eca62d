-- ===== src/Cache.antt =====
-- The persistent cache of solver results: src/optimizations/z3_pcache.hpp.
--
-- A text is the list of its characters' codes; the parser reads it as a C string, which the code 0
-- ends. The numbers of the parser are `int`s, written with wrap-around. `std::to_string`, `std::stoi` and the hash function
-- are parameters. The messages on hits are left out, and so is the symbol table, which nothing fills.
pub mod Record
pub mod Store
pub use spoq.Base.{ℤ, pos, negsuc}
use spoq.Base.{
  ℕ, zero, suc, ◌+◌, ◌-◌, ◌%◌, ◌^◌, ◌<◌, Bool, true, false, ◌&&◌, ◌||◌, Option, none, some, List,
  [], ◌∷◌, ◌++◌, nat_eq, leb, if◌then◌else◌, map_option,
}

abbrev pub Text : Type 0
Text = List ℕ

abbrev pub open_brace : ℕ
open_brace = b'{'

abbrev pub close_brace : ℕ
close_brace = b'}'

-- The integers that are an `int`.
abbrev pub IsInt : ℤ → Type 0
IsInt (pos n) = n < 2 ^ 31
IsInt (negsuc n) = n < 2 ^ 31

-- `LiteralCacheEntry`: the result is an `int`. A parser of the numbers that keeps to `std::stoi`
-- gives nothing else.
pub record LiteralCacheEntry : Type 0 where
  pub statement : Text
  pub result : ℤ

abbrev pub text_eq : Text → Text → Bool
text_eq [] [] = true
text_eq (a ∷ s) (b ∷ t) = nat_eq a b && text_eq s t
text_eq _ _ = false

-- `LiteralCacheEntry::compareEqual`
abbrev pub compare_equal : LiteralCacheEntry → Text → Bool
compare_equal e s = text_eq e.statement s

-- The characters before the first closing brace, and the text from that brace on; `none` where the
-- text ends before.
unfoldable pub until_close : Text → Option (Text × Text)
until_close [] = none
until_close (c ∷ s) =
    if nat_eq c 0
    then none
    else if nat_eq c close_brace
    then some ([], c ∷ s)
    else map_option (λ (r, t). (c ∷ r, t)) (until_close s)

-- `SMTParser::parseNextString`: `none` is the status -1.
unfoldable pub parse_next_string : Text → Option (Text × Text)
parse_next_string [] = none
parse_next_string (c ∷ s) = if nat_eq c open_brace then until_close s else none

-- What a run of the record parser comes to. `throws` is the exception of `std::stoi`;
-- `out_of_fuel` has no counterpart in the program.
pub data Outcome : Type 0 where
  parsed : LiteralCacheEntry → Text → Outcome
  failed throws out_of_fuel : Outcome

-- `while (*ptr != '{' && *ptr != '\\0') ++ptr;`
unfoldable pub skip_to_open : Text → Text
skip_to_open [] = []
skip_to_open (c ∷ s) = if nat_eq c open_brace || nat_eq c 0 then c ∷ s else skip_to_open s

-- A new entry is `new LiteralCacheEntry()`, whose result is 0.
abbrev pub new_entry : LiteralCacheEntry
new_entry = record { statement = []; result = pos 0 }

module _ (stoi : Text → Option ℤ) where
  abbrev pub with_statement :
      Option (Text × Text) → LiteralCacheEntry → (Text → LiteralCacheEntry → Outcome) → Outcome
  with_statement none e k = failed
  with_statement (some (r, t)) e k = k t (record e { statement = r })

  abbrev pub with_number :
      Option ℤ → Text → LiteralCacheEntry → (Text → LiteralCacheEntry → Outcome) → Outcome
  with_number none t e k = throws
  with_number (some n) t e k = k t (record e { result = n })

  abbrev pub with_result :
      Option (Text × Text) → LiteralCacheEntry → (Text → LiteralCacheEntry → Outcome) → Outcome
  with_result none e k = failed
  with_result (some (r, t)) e k = with_number (stoi r) t e k

  -- A group at depth two: the first is the statement, the second the result. `k` is the rest of the
  -- loop; a third group leaves the text where it is.
  abbrev pub read_group :
      ℕ → ℕ → Text → LiteralCacheEntry → (Text → LiteralCacheEntry → Outcome) → Outcome
  read_group (suc (suc zero)) (suc zero) s e k = with_statement (parse_next_string s) e k
  read_group (suc (suc zero)) (suc (suc zero)) s e k = with_result (parse_next_string s) e k
  read_group degree groups s e k = k s e

  -- The loop of `parseFromTheFirstLiteralRecord`, on fuel: `degree` and `groups` (`d2_cnt`), as
  -- words of 32 bits; `degree - 1` is computed where `degree` is not 0.
  unfoldable pub parse_loop : ℕ → ℕ → ℕ → Text → LiteralCacheEntry → Outcome
  parse_loop zero degree groups s e = out_of_fuel
  parse_loop (suc f) degree groups [] e = if nat_eq degree 0 then parsed e [] else failed
  parse_loop (suc f) degree groups (c ∷ s) e =
      let after_close = parse_loop f (degree - 1) groups s e in
      let d = (degree + 1) % 2 ^ 32 in
      let g = if nat_eq d 2 then (groups + 1) % 2 ^ 32 else groups in
      let after_open = read_group d g (c ∷ s) e (λ t e'. parse_loop f d g t e') in
      let after_other = parse_loop f degree groups s e in
      if nat_eq degree 0
      then parsed e (c ∷ s)
      else if nat_eq c 0
      then failed
      else if nat_eq c close_brace
      then (if nat_eq degree 1 then parsed e (c ∷ s) else after_close)
      else (if nat_eq c open_brace then after_open else after_other)

  abbrev pub parse_from_open : ℕ → Text → Outcome
  parse_from_open fuel [] = failed
  parse_from_open fuel (c ∷ s) = if nat_eq c 0 then failed else parse_loop fuel 1 0 s new_entry

  -- `SMTParser::parseFromTheFirstLiteralRecord`
  unfoldable pub parse_record : ℕ → Text → Outcome
  parse_record fuel s = parse_from_open fuel (skip_to_open s)

-- `SMTParser::generateLiteralRecord`
unfoldable pub generate_literal_record : (ℤ → Text) → LiteralCacheEntry → Text
generate_literal_record to_string e =
    open_brace
    ∷ open_brace
    ∷ (e.statement
        ++ (close_brace ∷ open_brace ∷ (to_string e.result ++ (close_brace ∷ close_brace ∷ []))))

-- The digits at the front of a text, and the rest.
unfoldable pub split_digits : Text → Text × Text
split_digits [] = ([], [])
split_digits (c ∷ s) =
    let (d, t) = split_digits s in if leb b'0' c && leb c b'9' then (c ∷ d, t) else ([], c ∷ s)

-- `seen`, the map from the number of a variable to its new number.
abbrev pub find_seen : Text → List (Text × ℕ) → Option ℕ
find_seen x [] = none
find_seen x ((y, n) ∷ seen) = if text_eq x y then some n else find_seen x seen

-- The new number, the map and the counter after one match.
abbrev pub number_of : Text → List (Text × ℕ) → ℕ → ℕ × List (Text × ℕ) × ℕ
number_of x seen counter = elim (find_seen x seen) [
  | some n ↦ (n, seen, counter)
  | none ↦ (counter, (x, counter) ∷ seen, counter + 1)
]

abbrev pub starts_variable : ℕ → ℕ → Bool
starts_variable a b = (nat_eq a b'$' || nat_eq a b'?') && nat_eq b b'x'

-- `regex_replace` with `replace_with_counter`: the variables `$x12` and `?x12` are numbered from 1
-- in the order of their first occurrence. The text is its own fuel.
unfoldable pub renumber : (ℤ → Text) → ℕ → Text → List (Text × ℕ) → ℕ → Text
renumber to_string zero s seen counter = s
renumber to_string (suc f) [] seen counter = []
renumber to_string (suc f) (a ∷ []) seen counter = a ∷ []
renumber to_string (suc f) (a ∷ b ∷ s) seen counter =
    let (d, t) = split_digits s in
    let (n, seen', counter') = number_of d seen counter in
    let variable = a ∷ b ∷ (to_string (pos n) ++ renumber to_string f t seen' counter') in
    let other = a ∷ renumber to_string f (b ∷ s) seen counter in
    if starts_variable a b then variable else other

unfoldable pub erase_newlines : Text → Text
erase_newlines [] = []
erase_newlines (c ∷ s) = if nat_eq c 10 then erase_newlines s else c ∷ erase_newlines s

abbrev pub size : Text → ℕ
size [] = 0
size (c ∷ s) = suc (size s)

-- `SMTParser::parse`
unfoldable pub parse : (ℤ → Text) → Text → Text
parse to_string s = let t = erase_newlines s in renumber to_string (size t) t [] 1
