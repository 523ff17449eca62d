-- ===== src/Tests/Nodes.antt =====
-- Copies, comparisons, substitutions and the application of rules on concrete nodes.
use spoq.Base.{ℕ, leb, ◌^◌, arith, Bool, true, false, ◌≡◌, ◌≢◌, refl, some}
use spoq.Ast.{
  SpecType, unknown, bool, ulong, truth, int_const, Ops, Binops, SpecNode, symbol, string_const,
  bool_const, expr, matching, branch, exists, op, binop, nil, cons, no_arms, arm, no_args, arg,
}
use spoq.Copy.{deep_copy}
use spoq.Copy.Meaning.{eval-deep_copy}
use spoq.Equal.{node_eq}
use spoq.Equal.Consistent.{Consistent}
use spoq.Equal.Signs.{node_eq-signs}
use spoq.Equal.Meaning.{eval-node_eq}
use spoq.Meaning.{plain, minus_of, printed, eval, update, match_pattern}
use spoq.Scope.{exists_in_pattern}
use spoq.Subst.{subst}
use spoq.Subst.Meaning.{eval-subst}
use spoq.Rules.{run_rule, rec_apply, rec_throws, rec_changed}
use spoq.Rules.Meaning.{eval-run_rule}
use spoq.Rules.Branch.{eliminate_if, known_condition, eval-eliminate_if}
use spoq.Tests.World.{lit, world, start, world-ConditionLaws}

abbrev x : SpecNode
x = symbol "x" bool

abbrev y : SpecNode
y = symbol "y" bool

abbrev conj : SpecNode → SpecNode → SpecNode
conj a b = expr (binop Binops.band) (cons a (cons b nil)) bool

-- `match Some x with | Some y => x && y end`
abbrev unwrap : SpecNode
unwrap =
    matching (expr (op Ops.some_op) (cons x nil) unknown)
      (arm (expr (op Ops.some_op) (cons y nil) unknown) (conj x y) no_arms) bool

abbrev same_type : SpecType → SpecType → Bool
same_type bool bool = true
same_type t u = false

same_type_eq : (t u : SpecType) → same_type t u ≡ true → t ≡ u
same_type_eq bool bool h = refl
same_type_eq _ _ h = cc

-- `exists y, if x then unwrap else "no"`
abbrev quantified : SpecNode
quantified = exists (arg "y" bool no_args) (branch x unwrap (string_const "no") bool) SpecType.prop

eval-quantified : eval world quantified start ≡ lit (truth true)
unfolding eval match_pattern
eval-quantified = refl

-- The string constant is copied as a plain constant.
deep_copy-quantified : node_eq same_type (deep_copy quantified) quantified ≡ false
unfolding deep_copy node_eq
deep_copy-quantified = refl

eval-deep_copy_example : eval world (deep_copy quantified) start ≡ eval world quantified start
eval-deep_copy_example =
    eval-deep_copy world quantified start
      (tt, ((tt, tt), (tt, ((tt, (tt, tt)), ((tt, (tt, (tt, tt))), tt))), (tt, tt)))

-- 2 ^ 64 - 1
abbrev largest : ℕ
largest = 18446744073709551615

-- `exists y, if x then unwrap else (-1)`, with a type for the variable `x`.
abbrev with_type : SpecType → SpecNode
with_type t =
    exists (arg "y" bool no_args) (branch (symbol "x" t) unwrap (int_const largest true) t)
      SpecType.prop

abbrev signed_when_large : ℕ → Bool
signed_when_large n = leb (2 ^ 63) n

with_type-Consistent : (t : SpecType) → Consistent signed_when_large (with_type t)
with_type-Consistent t =
    (tt, (tt, ((tt, (tt, tt)), ((tt, (tt, tt)), (tt, (tt, (tt, tt))), tt)), refl))

node_eq-types : node_eq same_type (with_type bool) (with_type unknown) ≡ true
unfolding node_eq
node_eq-types = refl

eval-node_eq_example : eval world (with_type bool) start ≡ eval world (with_type unknown) start
eval-node_eq_example =
    eval-node_eq world same_type same_type_eq signed_when_large (with_type bool) (with_type unknown)
      start (with_type-Consistent bool) (with_type-Consistent unknown) node_eq-types

-- The constants -1 and 2 ^ 64 - 1.
node_eq-signs_example :
    (node_eq same_type (int_const largest true) (int_const largest false) ≡ true)
    × (printed (int_const largest true) ≢ printed (int_const largest false))
node_eq-signs_example = node_eq-signs same_type largest (omega arith)

printed-signed : printed (int_const largest true) ≡ some (minus_of 1)
printed-signed = refl

printed-unsigned : printed (int_const largest false) ≡ some (plain (ulong largest))
printed-unsigned = refl

abbrev z : SpecNode
z = symbol "z" bool

eval-subst_example :
    eval world (subst "x" z unwrap) start
    ≡ eval world unwrap (update start "x" (eval world z start))
unfolding exists_in_pattern
eval-subst_example =
    eval-subst world "x" z unwrap start refl tt ((tt, (tt, tt)), ((refl, (tt, (tt, (tt, tt)))), tt))

-- `if true then x else y` below a conjunction.
abbrev decided : SpecNode
decided = conj (branch (bool_const true) x y bool) y

run_rule-decided : run_rule eliminate_if true decided ≡ some (conj x y, true)
unfolding run_rule rec_apply rec_throws rec_changed eliminate_if known_condition
run_rule-decided = refl

eval-run_rule_example : eval world (conj x y) start ≡ eval world decided start
eval-run_rule_example =
    eval-run_rule world eliminate_if true decided (conj x y) true start
      (λ n r. eval-eliminate_if world world-ConditionLaws n r) (tt, ((tt, tt, tt), (tt, tt)))
      run_rule-decided

eval-eliminate_if_example :
    eval world (eliminate_if (branch (bool_const true) x y bool)).0 start
    ≡ eval world (branch (bool_const true) x y bool) start
eval-eliminate_if_example =
    eval-eliminate_if world world-ConditionLaws (branch (bool_const true) x y bool) start
