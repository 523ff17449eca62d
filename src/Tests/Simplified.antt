-- ===== src/Tests/Simplified.antt =====
-- The simplification of expressions on concrete nodes.
use spoq.Base.{
  ℕ, zero, suc, ℤ, pos, negsuc, arith, none, Bool, true, false, not, nat_eq, List, [], ◌∷◌, ◌≡◌,
  refl,
}
use spoq.Ast.{
  SpecType, unknown, bool, int, prop, Literal, ulong, truth, Ops, Binops, SpecNode, symbol,
  int_const, bool_const, expr, branch, forall, exists, binop, name, SpecNodes, nil, cons, Args,
  no_args, arg,
}
use Prim.Native.Nat.{bit_or}
use spoq.Rules.Builtin.{bitor_of}
use spoq.Meaning.{Interpretation, Env, Operator, ops, binops, named, eval}
use spoq.Rules.Simplify.{simplify_expr}
use spoq.Rules.Simplify.Fold.{difference_of, sum_of, simplify_expr-arithmetic}
use spoq.Rules.Simplify.Negation.{decide, integer, ComparisonLaws, negated, holds-simplify_negated}
use spoq.Rules.Simplify.Copies.{eval-simplify_exists}
use spoq.Tests.World.{world, start}

abbrev undefined : Binops → ℕ → ℕ → ℕ
undefined o a b = 0

abbrev same_type : SpecType → SpecType → Bool
same_type bool bool = true
same_type t u = false

-- 2 ^ 63 + 1 and 1.
abbrev large : ℕ
large = 9223372036854775809

abbrev operands : SpecNodes
operands = cons (int_const large false) (cons (int_const 1 false) nil)

simplify_expr-arithmetic_example :
    (simplify_expr undefined same_type (expr (binop Binops.minus) operands int)
      ≡ (difference_of large 1, true))
    × (simplify_expr undefined same_type (expr (binop Binops.add) operands int)
        ≡ (sum_of large 1, true))
simplify_expr-arithmetic_example =
    simplify_expr-arithmetic undefined same_type large 1 false false int (omega arith) (omega arith)
      (omega arith) (omega arith)

-- An interpretation of which the values are integers and conditions, and comparisons compare
-- integers.
data Quantity : Type 0 where
  amount : ℤ → Quantity
  condition : Bool → Quantity

abbrev holds : Quantity → Bool
holds (condition b) = b
holds c = false

abbrev apply : Operator → List Quantity → Quantity
apply (binops o) (amount a ∷ amount b ∷ []) = condition (decide o a b)
apply (ops o) (c ∷ []) = condition (not (holds c))
apply f vs = condition false

abbrev value : Literal → Quantity
value (ulong n) = amount (pos n)
value (truth b) = condition b
value c = condition false

abbrev opposite : ℕ → Quantity
opposite zero = amount (pos 0)
opposite (suc k) = amount (negsuc k)

abbrev numbers : Interpretation
numbers = record {
  Value = Quantity;
  known = λ x. false;
  global = λ x. condition false;
  literal = value;
  negative = opposite;
  apply = apply;
  call = λ g vs. condition false;
  holds = holds;
  relies = λ p v. v;
  annotates = λ p v. v;
  stuck = condition false;
  is_global = λ x v. false;
  is_literal = λ c v. false;
  is_negative = λ k v. false;
  destruct = λ f v. none;
  for_all = λ t k. k (condition true);
  there_is = λ t k. k (condition true);
  implies = λ a b. b;
  and_also = λ a b. b;
}

compare :
    (o : Binops) (a b : ℤ)
    → holds (apply (binops o) (integer numbers a ∷ integer numbers b ∷ [])) ≡ decide o a b
compare o (pos a) (pos b) = refl
compare o (pos a) (negsuc b) = refl
compare o (negsuc a) (pos b) = refl
compare o (negsuc a) (negsuc b) = refl

numbers-ComparisonLaws : ComparisonLaws numbers
numbers-ComparisonLaws = record {
  holds_compare = λ o a b h. compare o a b;
  holds_not = λ q v h. refl;
}

abbrev x : SpecNode
x = symbol "x" int

abbrev five : Env numbers
five y = amount (pos 5)

abbrev less : SpecNode
less = negated numbers Ops.not_op Binops.blt x (int_const 18446744073709551613 true) bool bool

eval-x : eval numbers x five ≡ amount (pos 5)
unfolding eval
eval-x = refl

eval-minus_three : eval numbers (int_const 18446744073709551613 true) five ≡ amount (negsuc 2)
unfolding eval
eval-minus_three = refl

holds-simplify_negated_example :
    holds (eval numbers (simplify_expr undefined same_type less).0 five)
    ≡ holds (eval numbers less five)
holds-simplify_negated_example =
    holds-simplify_negated numbers numbers-ComparisonLaws undefined same_type Ops.not_op Binops.blt
      x (int_const 18446744073709551613 true) (pos 5) (negsuc 2) bool bool five refl refl eval-x
      eval-minus_three

abbrev y : SpecNode
y = symbol "y" bool

abbrev ys : Args
ys = arg "y" bool no_args

eval-condition : world.holds (eval world y start) ≡ true
unfolding eval
eval-condition = refl

eval-simplify_exists_example :
    eval world
      (simplify_expr undefined same_type (branch y (exists ys y prop) (bool_const false) prop)).0
      start
    ≡ eval world (forall ys y prop) start
eval-simplify_exists_example =
    eval-simplify_exists undefined same_type world y (bool_const false) y ys prop prop start refl tt
      tt (tt, tt) eval-condition

-- The two differ: `y` is true in one case of two.
eval-exists : eval world (exists ys y prop) start ≡ eval world (bool_const true) start
unfolding eval
eval-exists = refl

eval-forall : eval world (forall ys y prop) start ≡ eval world (bool_const false) start
unfolding eval
eval-forall = refl

-- An interpretation of which the values are numbers, and a conversion keeps the number.
abbrev number : Literal → ℕ
number (ulong n) = n
number c = 0

abbrev convert : Operator → List ℕ → ℕ
convert (binops Binops.bitor) (a ∷ b ∷ []) = bit_or a b
convert (named f) (a ∷ vs) = a
convert f vs = 0

abbrev masks : Interpretation
masks = record {
  Value = ℕ;
  known = λ x. false;
  global = λ x. 0;
  literal = number;
  negative = λ k. 0;
  apply = convert;
  call = λ g vs. 0;
  holds = λ v. false;
  relies = λ p v. v;
  annotates = λ p v. v;
  stuck = 0;
  is_global = λ x v. false;
  is_literal = λ c v. nat_eq (number c) v;
  is_negative = λ k v. false;
  destruct = λ f v. none;
  for_all = λ t k. k 0;
  there_is = λ t k. k 0;
  implies = λ a b. b;
  and_also = λ a b. b;
}

-- `(PA_to_Z (Z_to_PA x) |' 4) |' 3`
abbrev masked : SpecNode
masked =
    bitor_of
      (bitor_of (expr (name "PA_to_Z") (cons (expr (name "Z_to_PA") (cons x nil) unknown) nil) int)
        (int_const 4 false) int)
      (int_const 3 false) int
