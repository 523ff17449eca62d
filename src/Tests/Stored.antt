-- ===== src/Tests/Stored.antt =====
-- The cache on concrete records, with integers written in unary.
use spoq.Base.{
  ℕ, zero, suc, true, Option, none, some, List, [], ◌∷◌, ◌++◌, ◌≡◌, refl, ap, nat_eq, if◌then◌else◌,
  or_else, arith,
}
use spoq.Cache.{
  Text, close_brace, ℤ, pos, negsuc, LiteralCacheEntry, parsed, failed, parse_loop, skip_to_open,
  parse_next_string, until_close, text_eq, size, parse, parse_record, generate_literal_record,
  erase_newlines, renumber, split_digits,
}
use spoq.Cache.Record.{IsClosed, NumberLaws, parse_record-generate}
use spoq.Cache.Store.{SmtHashMapCache, get, put, load_from_file}
use spoq.Cache.Store.Lookup.{lookup_result, lookup_result-put}
use spoq.Cache.Store.Answers.{first_result, get-put_all}
use spoq.Cache.Store.Reload.{IsLine, put_all, fresh, load_from_file-put_all}

unary : ℕ → Text
unary zero = []
unary (suc n) = b'1' ∷ unary n

abbrev to_string : ℤ → Text
to_string (pos n) = unary n
to_string (negsuc n) = b'-' ∷ unary n

abbrev stoi : Text → Option ℤ
stoi [] = some (pos 0)
stoi (c ∷ s) = if nat_eq c b'-' then some (negsuc (size s)) else some (pos (size (c ∷ s)))

abbrev hasher : Text → ℕ
hasher s = size s

unary-IsClosed : (n : ℕ) → IsClosed (unary n)
unfolding unary
unary-IsClosed zero = tt
unary-IsClosed (suc n) = (refl, refl, unary-IsClosed n)

to_string-IsClosed : (n : ℤ) → IsClosed (to_string n)
to_string-IsClosed (pos n) = unary-IsClosed n
to_string-IsClosed (negsuc n) = (refl, refl, unary-IsClosed n)

unary-IsLine : (n : ℕ) → IsLine (unary n)
unfolding unary
unary-IsLine zero = tt
unary-IsLine (suc n) = (refl, unary-IsLine n)

to_string-IsLine : (n : ℤ) → IsLine (to_string n)
to_string-IsLine (pos n) = unary-IsLine n
to_string-IsLine (negsuc n) = (refl, unary-IsLine n)

size-unary : (n : ℕ) → size (unary n) ≡ n
unfolding unary
size-unary zero = refl
size-unary (suc n) = ap suc (size-unary n)

stoi-to_string : (n : ℤ) → stoi (to_string n) ≡ some n
unfolding unary
stoi-to_string (pos zero) = refl
stoi-to_string (pos (suc n)) = ap (λ k. some (pos (suc k))) (size-unary n)
stoi-to_string (negsuc n) = ap (λ k. some (negsuc k)) (size-unary n)

laws : NumberLaws to_string stoi
laws = record { stoi-to_string = λ n h. stoi-to_string n; to_string-IsClosed = to_string-IsClosed }

-- `p$x7` and a newline, and its normal form.
abbrev statement : Text
statement = b'p' ∷ b'$' ∷ b'x' ∷ b'7' ∷ 10 ∷ []

abbrev normal : Text
normal = b'p' ∷ b'$' ∷ b'x' ∷ b'1' ∷ []

parse-statement : parse to_string statement ≡ normal
unfolding parse erase_newlines renumber split_digits unary
parse-statement = refl

normal-IsClosed : IsClosed normal
normal-IsClosed = (refl, refl, (refl, refl, (refl, refl, (refl, refl, tt))))

abbrev kept : LiteralCacheEntry
kept = record { statement = normal; result = negsuc 1 }

parse_record-generate_example :
    parse_record stoi 5 (generate_literal_record to_string kept ++ (b' ' ∷ []))
    ≡ parsed kept (close_brace ∷ b' ' ∷ [])
parse_record-generate_example =
    parse_record-generate to_string stoi laws 0 kept (b' ' ∷ []) normal-IsClosed (omega arith)

abbrev empty : SmtHashMapCache
empty = fresh hasher to_string stoi none

lookup_result-put_example :
    lookup_result hasher to_string stoi (put hasher to_string stoi empty statement (pos 3)).0 normal
    ≡ (if text_eq (parse to_string statement) (parse to_string normal)
        then some (or_else (lookup_result hasher to_string stoi empty normal) (pos 3))
        else lookup_result hasher to_string stoi empty normal)
lookup_result-put_example = lookup_result-put hasher to_string stoi empty statement normal (pos 3)

statement-IsClosed : IsClosed (parse to_string statement)
unfolding parse erase_newlines renumber split_digits unary
statement-IsClosed = normal-IsClosed

load_from_file-put_all_example :
    load_from_file hasher to_string stoi (
      fresh hasher to_string stoi
        (put_all hasher to_string stoi empty ((statement, pos 3) ∷ [])).cache_file)
    ≡ some (
      record (fresh hasher to_string stoi
          (put_all hasher to_string stoi empty ((statement, pos 3) ∷ [])).cache_file) {
            cache_map = (put_all hasher to_string stoi empty ((statement, pos 3) ∷ [])).cache_map;
            loaded = true;
          },
      pos 1,
    )
load_from_file-put_all_example =
    load_from_file-put_all hasher to_string stoi statement (pos 3) [] laws to_string-IsLine
      (statement-IsClosed, omega arith, tt)

-- A statement with the code 0 is not read back.
parse_record-ended :
    parse_record stoi 9
      (generate_literal_record to_string (record { statement = b'p' ∷ 0 ∷ []; result = pos 1 }))
    ≡ failed
unfolding parse_record parse_loop skip_to_open parse_next_string until_close generate_literal_record
    unary
parse_record-ended = refl

-- The second insertion has the normal form of the first.
abbrev inserted : List (Text × ℤ)
inserted = (statement, pos 3) ∷ (normal, pos 4) ∷ []

get-put_all_example :
    (get hasher to_string stoi
      (put_all hasher to_string stoi (fresh hasher to_string stoi none) inserted)
      normal).1
    ≡ or_else (first_result hasher to_string stoi inserted normal) (negsuc 0)
get-put_all_example = get-put_all hasher to_string stoi none inserted normal

first_result-inserted : first_result hasher to_string stoi inserted normal ≡ some (pos 3)
unfolding first_result parse erase_newlines renumber split_digits unary
first_result-inserted = refl
