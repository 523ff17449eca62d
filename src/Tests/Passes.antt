-- ===== src/Tests/Passes.antt =====
-- The rules, and the merging of branches, on concrete nodes.
use spoq.Base.{
  ℕ, List, String, Bool, true, false, ◌==◌, ◌≡◌, ◌↔◌, ◌++◌, refl, some, [], ◌∷◌, if◌then◌else◌,
}
use spoq.Ast.{
  SpecType, unknown, bool, int, ulong, Ops, SpecNode, symbol, int_const, string_const, bool_const,
  expr, matching, rely, branch, op, SpecNodes, nil, cons, Arms, no_arms, arm,
}
use spoq.Coi.{
  is_subfield_of_anyone, Field, contains_field, try_get_return_state, same_state, merge_branch,
}
use spoq.Coi.Fields.{contains_field_iff}
use spoq.Coi.Merge.{
  observe-merge_same, observe-merge_then, merge_else-takes_other, merge_else-swaps,
}
use spoq.Copy.{deep_copy}
use spoq.Meaning.{eval, eval_arms, match_pattern}
use spoq.Rules.Branch.{
  move_if_out_match, eval-move_if_out_match, move_if_out_expr, eval-move_if_out_expr,
}
use spoq.Rules.Let.{eliminate_let, eval-eliminate_let}
use spoq.Rules.Rely.{
  eliminate_rely, eval-eliminate_rely, move_rely_out_when, eval-move_rely_out_when,
}
use spoq.Rules.When.{eliminate_when, make_when, make_let, is_let, as_when}
use spoq.Rules.When.Meaning.{eval-eliminate_when}
use spoq.Tests.World.{
  world-OptionLaws, Datum, lit, absent, boxed, pair, world, start, world-RelyLaws,
  world-BooleanLaws,
}

abbrev x : SpecNode
x = symbol "x" bool

abbrev no : SpecNode
no = bool_const false

abbrev choice : SpecNode
choice = branch x (int_const 1 false) (int_const 2 false) int

-- One arm for 1, and one for any other value.
abbrev cases : Arms
cases = arm (int_const 1 false) (string_const "one") (arm (symbol "n" int) (symbol "n" int) no_arms)

eval-move_if_out_match_example :
    eval world (move_if_out_match (matching choice cases int)).0 start
    ≡ eval world (matching choice cases int) start
eval-move_if_out_match_example = eval-move_if_out_match world choice cases int start (tt, (tt, tt))

abbrev elems : SpecNodes
elems = cons x (cons choice nil)

eval-move_if_out_expr_example :
    eval world (move_if_out_expr (expr (op Ops.tuple_op) elems unknown)).0 start
    ≡ eval world (expr (op Ops.tuple_op) elems unknown) start
eval-move_if_out_expr_example =
    eval-move_if_out_expr world (op Ops.tuple_op) elems unknown start
      (tt, (tt, (((tt, tt), (tt, tt), (tt, tt)), tt)))

-- `let n := choice in (n, x)`
eval-eliminate_let_example :
    eval world
      (eliminate_let
        (λ s. s == "None")
        (matching choice
          (arm
            (symbol "n" int)
            (expr (op Ops.tuple_op) (cons (symbol "n" int) (cons x nil)) unknown)
            no_arms)
          int)).0
      start
    ≡ eval world
        (matching choice
          (arm
            (symbol "n" int)
            (expr (op Ops.tuple_op) (cons (symbol "n" int) (cons x nil)) unknown)
            no_arms)
          int)
        start
eval-eliminate_let_example =
    eval-eliminate_let world choice "n"
      (expr (op Ops.tuple_op) (cons (symbol "n" int) (cons x nil)) unknown) int int start
      ((tt, tt), (tt, tt), (tt, tt)) (tt, (tt, (tt, tt)))

eval-eliminate_rely_example :
    eval world (eliminate_rely (rely no x bool)).0 start ≡ eval world (rely no x bool) start
eval-eliminate_rely_example = eval-eliminate_rely world world-RelyLaws (rely no x bool) start

abbrev some_ : SpecNode → SpecNode
some_ n = expr (op Ops.some_op) (cons n nil) unknown

abbrev none_ : SpecNode
none_ = symbol "None" unknown

-- `match … with | Some n => Some n | None => None end`
abbrev strict : Arms
strict = arm (some_ (symbol "n" int)) (some_ (symbol "n" int)) (arm none_ none_ no_arms)

absent-strict : eval_arms world strict absent start ≡ absent
unfolding eval match_pattern
absent-strict = refl

eval-move_rely_out_when_example :
    eval world (move_rely_out_when (matching (rely no (some_ x) unknown) strict unknown)).0 start
    ≡ eval world (matching (rely no (some_ x) unknown) strict unknown) start
eval-move_rely_out_when_example =
    eval-move_rely_out_when world world-RelyLaws no (some_ x) strict unknown unknown start
      (λ e. absent-strict)

-- `match … with | n => Some n end`
abbrev lax : Arms
lax = arm (symbol "n" int) (some_ (symbol "n" int)) no_arms

eval-no : world.holds (eval world no start) ≡ false
unfolding eval
eval-no = refl

-- The rule changes the meaning here: the condition fails, and the arm makes a value of `None`.
moved-lax :
    eval world (move_rely_out_when (matching (rely no (some_ x) unknown) lax unknown)).0 start
    ≡ absent
unfolding eval match_pattern move_rely_out_when
moved-lax = refl

unmoved-lax : eval world (matching (rely no (some_ x) unknown) lax unknown) start ≡ boxed absent
unfolding eval match_pattern
unmoved-lax = refl

abbrev same_type : SpecType → SpecType → Bool
same_type bool bool = true
same_type t u = false

abbrev m : SpecNode
m = symbol "m" unknown

abbrev one : SpecNode
one = int_const 1 false

abbrev two : SpecNode
two = int_const 2 false

abbrev unsigned : ℕ → Bool
unsigned n = false

abbrev path : Field
path = "a" ∷ "b" ∷ "c" ∷ []

contains_field_iff_example :
    (contains_field path ("b" ∷ []) ≡ true)
    ↔ ((a : Field) × (b : Field) × (path ≡ a ++ (("b" ∷ []) ++ b)))
contains_field_iff_example = contains_field_iff path ("b" ∷ []) (λ e. cc)

-- A result with a state: the states are compared by name, and are what is observed.
abbrev result : SpecNode → SpecNode → SpecNode
result n st = some_ (expr (op Ops.tuple_op) (cons n (cons st nil)) unknown)

abbrev print : SpecNode → String
print (symbol s t) = s
print n = ""

abbrev final_state : Datum → Datum
final_state (boxed (pair v w)) = w
final_state d = d

abbrev st : SpecNode
st = symbol "st" unknown

abbrev st' : SpecNode
st' = symbol "st'" unknown

returns : (n s : SpecNode) → deep_copy s ≡ s → try_get_return_state (result n s) ≡ some s
unfolding try_get_return_state
returns n s e = rw e

st-copied : deep_copy st ≡ st
unfolding deep_copy
st-copied = refl

final : (n : SpecNode) → final_state (eval world (result n st) start) ≡ lit (ulong 7)
unfolding eval
final n = refl

observe-merge_same_example :
    final_state
      (eval world (merge_branch print (branch x (result one st) (result two st) unknown)).0 start)
    ≡ final_state (eval world (branch x (result one st) (result two st) unknown) start)
observe-merge_same_example =
    observe-merge_same world world-BooleanLaws print final_state x (result one st) (result two st)
      st st unknown start (returns one st st-copied) (returns two st st-copied)
      (tt, ((tt, (tt, (tt, tt))), tt)) (λ e. cc (final one, final two))

states_differ : (n : SpecNode) → same_state print st (try_get_return_state (result n st')) ≡ false
unfolding try_get_return_state deep_copy
states_differ n = refl

states_agree : (n : SpecNode) → same_state print st (try_get_return_state (result n st)) ≡ true
unfolding try_get_return_state deep_copy
states_agree n = refl

observe-merge_then_example :
    final_state (
      eval world
        (merge_branch print
          (branch x (branch no (result one st) (result one st') unknown) (result two st) unknown)).0
        start)
    ≡ final_state (
        eval world
          (branch x (branch no (result one st) (result one st') unknown) (result two st) unknown)
          start)
observe-merge_then_example =
    observe-merge_then world world-BooleanLaws print final_state x no (result one st)
      (result one st') (result two st) st unknown unknown start (returns two st st-copied)
      (λ e. cc (final one, final two)) (λ e. cc (e, states_differ one))

eval-x : world.holds (eval world x start) ≡ true
unfolding eval
eval-x = refl

merge_else-takes_other_example :
    (eval world
        (branch x (result one st) (branch no (result two st) (result two st') unknown) unknown)
        start
      ≡ eval world (result one st) start)
    × (eval world
          (merge_branch print (
            branch x
              (result one st)
              (branch no (result two st) (result two st') unknown)
              unknown)).0
          start
        ≡ eval world (result two st') start)
merge_else-takes_other_example =
    merge_else-takes_other world world-BooleanLaws print final_state x no (result one st)
      (result two st) (result two st') st unknown unknown start (returns one st st-copied)
      (states_agree two) eval-x eval-no

merge_else-swapped :
    (eval world
        (branch x (result one st) (branch no (result two st') (result two st) unknown) unknown)
        start
      ≡ (if world.holds (eval world x start)
          then eval world (result one st) start
          else eval world (result two st') start))
    × (eval world
          (merge_branch print (
            branch x
              (result one st)
              (branch no (result two st') (result two st) unknown)
              unknown)).0
          start
        ≡ (if world.holds (eval world x start)
            then eval world (result two st') start
            else eval world (result two st) start))
merge_else-swapped =
    merge_else-swaps world world-BooleanLaws print final_state x no (result one st) (result two st')
      (result two st) st unknown unknown start (returns one st st-copied) (states_differ two)
      (states_agree two) tt tt (cc (eval-x, eval-no))

-- `when n == (if x then (rely false; Some 1) else None); Some (n, x)`
abbrev guarded : SpecNode
guarded = branch x (rely no (some_ one) unknown) none_ unknown

abbrev counted : SpecNode
counted = some_ (expr (op Ops.tuple_op) (cons (symbol "n" int) (cons x nil)) unknown)

eval-eliminate_when_example :
    eval world (eliminate_when (make_when (symbol "n" int) guarded counted)).0 start
    ≡ eval world (make_when (symbol "n" int) guarded counted) start
eval-eliminate_when_example =
    eval-eliminate_when world world-OptionLaws world-RelyLaws (symbol "n" int) counted
      (tt, ((tt, (tt, (tt, tt))), tt)) guarded start (tt, (tt, tt), tt)

as_when-counted :
    as_when (make_when (symbol "n" int) guarded counted) ≡ some (symbol "n" int, counted)
unfolding as_when
as_when-counted = refl

is_let-counted : is_let (make_let "n" guarded counted int) ≡ true
unfolding is_let
is_let-counted = refl

abbrev over : List (String × String)
over = ("b", "a") ∷ []

is_subfield_of_anyone-path : is_subfield_of_anyone ("b" ∷ []) (path ∷ []) over ≡ some true
unfolding is_subfield_of_anyone
is_subfield_of_anyone-path = refl

-- Only the first names are compared.
is_subfield_of_anyone-first : is_subfield_of_anyone ("a" ∷ "x" ∷ []) (path ∷ []) [] ≡ some true
unfolding is_subfield_of_anyone
is_subfield_of_anyone-first = refl
