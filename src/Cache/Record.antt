-- ===== src/Cache/Record.antt =====
-- `SMTParser::generateLiteralRecord` and `SMTParser::parseFromTheFirstLiteralRecord` together.
use spoq.Base.{ℕ, suc, false, Option, some, [], ◌∷◌, ◌++◌, ◌≡◌, refl, nat_eq}
use mathlib.Core.List.{append_assoc}
use spoq.Cache.{
  Text, open_brace, close_brace, ℤ, IsInt, LiteralCacheEntry, until_close, parse_next_string,
  parsed, skip_to_open, parse_loop, new_entry, parse_record, generate_literal_record,
}

-- No closing brace, and no code 0, which would end the text.
abbrev pub IsClosed : Text → Type 0
IsClosed [] = Unit
IsClosed (c ∷ s) = (nat_eq c 0 ≡ false) × (nat_eq c close_brace ≡ false) × IsClosed s

until_close-append :
    (s rest : Text)
    → IsClosed s
    → until_close (s ++ close_brace ∷ rest) ≡ some (s, close_brace ∷ rest)
unfolding until_close
until_close-append [] rest h = refl
until_close-append (c ∷ s) rest h = rw (h.0, h.1, until_close-append s rest h.2)

parse_next_string-append :
    (s rest : Text)
    → IsClosed s
    → parse_next_string (open_brace ∷ (s ++ close_brace ∷ rest)) ≡ some (s, close_brace ∷ rest)
unfolding parse_next_string
parse_next_string-append s rest h = until_close-append s rest h

-- An `int` is written without a closing brace or a code 0, and `stoi` reads what was written.
pub record NumberLaws (to_string : ℤ → Text) (stoi : Text → Option ℤ) : Type 0 where
  pub stoi-to_string : (n : ℤ) → IsInt n → stoi (to_string n) ≡ some n
  pub to_string-IsClosed : (n : ℤ) → IsClosed (to_string n)

module _ (to_string : ℤ → Text) (stoi : Text → Option ℤ) (laws : NumberLaws to_string stoi) where
  -- Five rounds of the loop read a record.
  parse_loop-record :
      (f : ℕ) (s rest : Text) (n : ℤ) (e : LiteralCacheEntry)
      → IsClosed s
      → IsInt n
      → parse_loop stoi
          (suc (suc (suc (suc (suc f)))))
          1
          0
          (open_brace
            ∷ (s ++ close_brace ∷ open_brace ∷ (to_string n ++ close_brace ∷ close_brace ∷ rest)))
          e
        ≡ parsed (record { statement = s; result = n }) (close_brace ∷ rest)
  unfolding parse_loop
  parse_loop-record f s rest n e h k =
      rw
        (
          parse_next_string-append s
              (open_brace ∷ (to_string n ++ close_brace ∷ close_brace ∷ rest)) h,
          parse_loop,
        )
        (rw
          (
            parse_next_string-append (to_string n) (close_brace ∷ rest) (laws.to_string-IsClosed n),
            parse_loop,
          )
          (rw (laws.stoi-to_string n k, parse_loop)))

  -- A record that was generated is read back from the front of any text, which is left at the last
  -- brace of the record: with any fuel from five, if the statement has no closing brace and
  -- no code 0, the result is an `int`, and every `int` is read as it is written.
  pub parse_record-generate :
      (f : ℕ) (e : LiteralCacheEntry) (rest : Text)
      → IsClosed e.statement
      → IsInt e.result
      → parse_record stoi
          (suc (suc (suc (suc (suc f)))))
          (generate_literal_record to_string e ++ rest)
        ≡ parsed e (close_brace ∷ rest)
  unfolding parse_record generate_literal_record skip_to_open
  parse_record-generate f e rest h k =
      simp append_assoc (parse_loop-record f e.statement rest e.result new_entry h k)
