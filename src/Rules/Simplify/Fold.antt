-- ===== src/Rules/Simplify/Fold.antt =====
-- `rule_simplify_expr` on two integer constants.
use spoq.Base.{
  ℕ, nat_eq, ◌+◌, ◌-◌, ◌%◌, ◌<◌, Bool, true, false, ltb, leb, some, ◌≡◌, not, Bool-cases, inl, inr,
  ap, ◌∙◌, if◌then◌else◌, arith,
}
use spoq.Ast.{SpecType, SpecNodes, int, Binops, SpecNode, int_const, expr, binop, nil, cons}
use spoq.Rules.Simplify.{simplify_expr, folded, word, fold_ints, difference_node}

abbrev pub half : ℕ
half = 9223372036854775808

abbrev pub negative : ℕ → SpecNode
negative n = expr (binop Binops.minus) (cons (int_const n false) nil) int

-- The difference and the sum of two words, as nodes: what the constants stand for where they are in
-- range, and the wrapped result where they are not.
abbrev pub difference_of : ℕ → ℕ → SpecNode
difference_of a b =
    if leb b a
    then (if ltb (a - b) half then int_const (a - b) false else negative (word - (a - b)))
    else (if leb (b - a) half then negative (b - a) else int_const (word - (b - a)) false)

sub_mod :
    (a b : ℕ)
    → a < word
    → b < word
    → ((a + word) - b) % word ≡ (if leb b a then a - b else word - (b - a))
sub_mod a b h k = ground arith

in_range : (d : ℕ) → d < word → ltb (word - d) half ≡ not (leb d half)
in_range d h = ground arith

twice_from : (d : ℕ) → d < word → word - (word - d) ≡ d
twice_from d h = omega arith

wrapped :
    (d : ℕ)
    → d < word
    → difference_node (word - d) ≡ (if leb d half then negative d else int_const (word - d) false)
wrapped d h = elim (Bool-cases (leb d half)) [
  | inl e ↦ rw (in_range d h, e, twice_from d h)
  | inr e ↦ rw (in_range d h, e)
]

difference_node-sub :
    (a b : ℕ)
    → a < word
    → b < word
    → difference_node (if leb b a then a - b else word - (b - a)) ≡ difference_of a b
difference_node-sub a b h k = elim (Bool-cases (leb b a)) [
  | inl e ↦ rw e
  | inr e ↦ rw e (wrapped (b - a) (omega arith))
]

abbrev pub sum_of : ℕ → ℕ → SpecNode
sum_of a b = int_const (if ltb (a + b) word then a + b else (a + b) - word) false

add_mod :
    (a b : ℕ)
    → a < word
    → b < word
    → (a + b) % word ≡ (if ltb (a + b) word then a + b else (a + b) - word)
add_mod a b h k = ground arith

fold_ints-minus :
    (undefined : Binops → ℕ → ℕ → ℕ) (a b : ℕ)
    → a < word
    → b < word
    → fold_ints undefined Binops.minus a b ≡ some (difference_of a b)
unfolding fold_ints
fold_ints-minus undefined a b h k =
    ap (λ d. some (difference_node d)) (sub_mod a b h k) ∙ ap some (difference_node-sub a b h k)

fold_ints-add :
    (undefined : Binops → ℕ → ℕ → ℕ) (a b : ℕ)
    → a < word
    → b < word
    → fold_ints undefined Binops.add a b ≡ some (sum_of a b)
unfolding fold_ints
fold_ints-add undefined a b h k = ap (λ d. some (int_const d false)) (add_mod a b h k)

abbrev pair : ℕ → Bool → ℕ → Bool → SpecNodes
pair a s b s' = cons (int_const a s) (cons (int_const b s') nil)

not_zero : (a : ℕ) → 0 < a → nat_eq a 0 ≡ false
not_zero a h = ground arith

-- The difference and the sum of two integer constants that are words and not zero. The difference is
-- the constant or the negated constant that it comes to from -2 ^ 63 to 2 ^ 63 - 1; above and below
-- it is off by 2 ^ 64. The sum is the constant that it comes to, less 2 ^ 64 where it is no word.
pub simplify_expr-arithmetic :
    (undefined : Binops → ℕ → ℕ → ℕ) (same_type : SpecType → SpecType → Bool) (a b : ℕ)
    (s s' : Bool) (t : SpecType)
    → a < word
    → b < word
    → 0 < a
    → 0 < b
    → (simplify_expr undefined same_type (expr (binop Binops.minus) (pair a s b s') t)
        ≡ (difference_of a b, true))
      × (simplify_expr undefined same_type (expr (binop Binops.add) (pair a s b s') t)
          ≡ (sum_of a b, true))
unfolding simplify_expr
simplify_expr-arithmetic undefined same_type a b s s' t h k p q = (
  rw (not_zero b q) (ap (folded _) (fold_ints-minus undefined a b h k)),
  rw (not_zero a p, not_zero b q) (ap (folded _) (fold_ints-add undefined a b h k)),
)
