-- ===== src/Rules/Simplify.antt =====
-- `rule_simplify_expr` of src/optimizations/rules.cpp: arithmetic on constants, comparisons, negated
-- comparisons, and the read of a record that was written.
--
-- An integer constant is an `unsigned long`, so its arithmetic is modulo 2 ^ 64. `undefined` stands
-- for what C++ leaves undefined: a division by zero and a shift by 64 or more. The negation of the
-- least `long long`, which is undefined too, is 2 ^ 63.
pub mod Fold
pub mod Negation
pub mod Copies
use Prim.Native.Nat.{bit_and, bit_or}
use spoq.Base.{
  ℕ, ◌+◌, ◌-◌, ◌*◌, ◌/◌, ◌%◌, ◌^◌, Bool, true, false, not, ◌&&◌, ◌||◌, Option, none, some, nat_eq,
  ltb, leb, if◌then◌else◌,
}
use spoq.Ast.{
  SpecType, int, Literal, ulong, Ops, Binops, SpecNode, symbol, int_const, bool_const, expr, branch,
  Op, op, binop, SpecNodes, nil, cons, as_const, get_type,
}
use spoq.Copy.{deep_copy}
use spoq.Equal.{node_eq, binops_eq}
use spoq.Rules.{Rewrite, when_rewrite}
use spoq.Rules.Maps.{is_const}

abbrev pub word : ℕ
word = 18446744073709551616

-- The set `vec`.
abbrev pub is_comparison : Binops → Bool
is_comparison Binops.equal = true
is_comparison Binops.not_equal = true
is_comparison Binops.lte = true
is_comparison Binops.gte = true
is_comparison Binops.gt = true
is_comparison Binops.lt = true
is_comparison Binops.beq = true
is_comparison Binops.bne = true
is_comparison Binops.blt = true
is_comparison Binops.bgt = true
is_comparison Binops.bge = true
is_comparison Binops.ble = true
is_comparison _ = false

-- The map `rev`. A key that it lacks has the first enumerator for a value, as `std::map` inserts it.
abbrev pub rev : Binops → Binops
rev Binops.beq = Binops.bne
rev Binops.equal = Binops.not_equal
rev Binops.lt = Binops.gte
rev Binops.gte = Binops.lt
rev Binops.gt = Binops.lte
rev Binops.lte = Binops.gt
rev Binops.bgt = Binops.ble
rev Binops.ble = Binops.bgt
rev Binops.blt = Binops.bge
rev Binops.bge = Binops.blt
rev _ = Binops.mult

-- `get_type() == Int::INT`: there is one object of the type.
abbrev pub is_int : SpecType → Bool
is_int int = true
is_int _ = false

abbrev pub as_ulong : Option Literal → Option ℕ
as_ulong (some (ulong n)) = some n
as_ulong _ = none

abbrev zero_value : Option ℕ → Bool
zero_value (some n) = nat_eq n 0
zero_value none = false

abbrev pub is_const_zero : SpecNode → Bool
is_const_zero n = zero_value (as_ulong (as_const n))

-- `std::get<unsigned long>` of all elements, if they are all integer constants.
abbrev pub all_ulong : SpecNodes → Bool
all_ulong nil = true
all_ulong (cons n ns) = elim (as_ulong (as_const n)) [ none ↦ false | some m ↦ all_ulong ns ]

-- The difference as a `long long`: a negative one is the negation of a constant.
abbrev pub difference_node : ℕ → SpecNode
difference_node d =
    if ltb d 9223372036854775808
    then int_const d false
    else expr (binop Binops.minus) (cons (int_const (word - d) false) nil) int

abbrev pub is_nil : SpecNodes → Bool
is_nil nil = true
is_nil _ = false

abbrev pub folded : SpecNode → Option SpecNode → SpecNode × Bool
folded n none = (deep_copy n, false)
folded n (some m) = (m, true)

module _ (undefined : Binops → ℕ → ℕ → ℕ) where
  -- An operator on two integer constants; `none` where the code computes nothing.
  unfoldable pub fold_ints : Binops → ℕ → ℕ → Option SpecNode
  fold_ints Binops.add a b = some (int_const ((a + b) % word) false)
  fold_ints Binops.minus a b = some (difference_node (((a + word) - b) % word))
  fold_ints Binops.mult a b = some (int_const ((a * b) % word) false)
  fold_ints Binops.div a b =
      some (int_const (if nat_eq b 0 then undefined Binops.div a b else a / b) false)
  fold_ints Binops.mod_op a b =
      some (int_const (if nat_eq b 0 then undefined Binops.mod_op a b else a % b) false)
  fold_ints Binops.bitand a b = some (int_const (bit_and a b) false)
  fold_ints Binops.bitor a b = some (int_const (bit_or a b) false)
  fold_ints Binops.lshift a b =
      some (int_const (if ltb b 64 then (a * 2 ^ b) % word else undefined Binops.lshift a b) false)
  fold_ints Binops.rshift a b =
      some (int_const (if ltb b 64 then a / (2 ^ b) else undefined Binops.rshift a b) false)
  fold_ints Binops.beq a b = some (bool_const (nat_eq a b))
  fold_ints Binops.bne a b = some (bool_const (not (nat_eq a b)))
  fold_ints Binops.bgt a b = some (bool_const (ltb b a))
  fold_ints Binops.blt a b = some (bool_const (ltb a b))
  fold_ints Binops.bge a b = some (bool_const (leb b a))
  fold_ints Binops.ble a b = some (bool_const (leb a b))
  fold_ints _ a b = none

  abbrev pub fold_ulongs : Binops → Option ℕ → Option ℕ → Bool → SpecNode → SpecNode × Bool
  fold_ulongs o (some a) (some b) true n = folded n (fold_ints o a b)
  fold_ulongs o _ _ _ n = (deep_copy n, false)

  abbrev pub is_one_of : Binops → Binops → Binops → Binops → Bool
  is_one_of a b c o = binops_eq a o || (binops_eq b o || binops_eq c o)

  -- The operands of a binary operator.
  abbrev pub simplify_binary :
      (SpecType → SpecType → Bool)
      → Binops
      → SpecNode
      → SpecNode
      → SpecNodes
      → SpecType
      → SpecNode × Bool
  simplify_binary same_type o a b rest t =
      let n = expr (binop o) (cons a (cons b rest)) t in
      when_rewrite
        (is_comparison o && (is_int (get_type a) && (is_int (get_type b) && not (is_const b))))
        (
          expr (binop o)
              (cons (expr (binop Binops.minus) (cons a (cons b nil)) int)
                (cons (int_const 0 false) nil))
              t,
          false,
        )
        (when_rewrite (binops_eq o Binops.add && is_const_zero a) (b, true)
          (when_rewrite (binops_eq o Binops.add && is_const_zero b) (a, true)
            (when_rewrite
              (is_one_of Binops.equal Binops.beq Binops.seq o && (is_const a && is_const b))
              (bool_const (node_eq same_type a b), true)
              (when_rewrite
                (is_one_of Binops.not_equal Binops.bne Binops.sne o && (is_const a && is_const b))
                (bool_const (not (node_eq same_type a b)), true)
                (when_rewrite (binops_eq o Binops.minus && (is_nil rest && is_const_zero b))
                  (a, true)
                  (fold_ulongs o (as_ulong (as_const a)) (as_ulong (as_const b))
                    (all_ulong rest && (is_nil rest || not (binops_eq o Binops.minus))) n))))))

  abbrev pub last_two : SpecNodes → Option (SpecNode × SpecNode)
  last_two (cons n (cons m nil)) = some (n, m)
  last_two (cons n ns) = last_two ns
  last_two nil = none

  -- The read of the field that a `RecordSet` wrote last; the two fields are symbols.
  abbrev pub read_written :
      (SpecType → SpecType → Bool)
      → Option (SpecNode × SpecNode)
      → SpecNode
      → SpecNode
      → SpecNode × Bool
  read_written same_type none field n = (deep_copy n, false)
  read_written same_type (some (set_field, value)) field n =
      when_rewrite (node_eq same_type set_field field) (value, true) (deep_copy n, false)

  -- The local function. Every node that no case changes is copied. A unary operator other than minus
  -- and an operator with no operand, for which the code throws, are copied here.
  unfoldable pub simplify_expr : (SpecType → SpecType → Bool) → Rewrite
  simplify_expr same_type (branch (bool_const true) a b t) = (a, false)
  simplify_expr same_type (branch (bool_const false) a b t) = (b, false)
  simplify_expr same_type (expr (binop o) (cons a (cons b rest)) t) =
      simplify_binary same_type o a b rest t
  simplify_expr same_type (expr (op Ops.not_op) (cons (expr (binop o) es u) rest) t) =
      when_rewrite (is_comparison o) (expr (binop (rev o)) es t, false)
        (deep_copy (expr (op Ops.not_op) (cons (expr (binop o) es u) rest) t), false)
  simplify_expr same_type (expr (op Ops.bnot) (cons (expr (binop o) es u) rest) t) =
      when_rewrite (is_comparison o) (expr (binop (rev o)) es t, false)
        (deep_copy (expr (op Ops.bnot) (cons (expr (binop o) es u) rest) t), false)
  simplify_expr same_type
        (expr (op Ops.record_get) (cons (expr (op Ops.record_set) es u) (cons field rest)) t) =
      read_written same_type (last_two es) field
        (expr (op Ops.record_get) (cons (expr (op Ops.record_set) es u) (cons field rest)) t)
  simplify_expr same_type n = (deep_copy n, false)
