-- ===== src/Tests/Scopes.antt =====
-- The names of concrete nodes.
use spoq.Base.{String, true, false, ◌==◌, [], ◌∷◌, ◌≡◌, refl, member, or_left}
use spoq.Ast.{
  unknown, bool, truth, Ops, Binops, SpecNode, symbol, expr, matching, op, binop, nil, cons, arm,
  no_arms,
}
use spoq.Meaning.{Env, eval, update}
use spoq.Scope.{contains_vars, get_vars_from_pattern, free_vars}
use spoq.Scope.Meaning.{eval-contains_vars}
use spoq.Scope.Free.{member-free_vars}
use spoq.Tests.World.{lit, world, start}

abbrev x : SpecNode
x = symbol "x" bool

abbrev y : SpecNode
y = symbol "y" bool

abbrev conj : SpecNode
conj = expr (binop Binops.band) (cons x (cons y nil)) bool

abbrev some_ : SpecNode → SpecNode
some_ n = expr (op Ops.some_op) (cons n nil) unknown

-- `match Some x with | Some y => x && y end`
abbrev unwrap : SpecNode
unwrap = matching (some_ x) (arm (some_ y) conj no_arms) bool

contains_vars-unwrap : contains_vars world.known unwrap ("y" ∷ []) ≡ false
unfolding contains_vars get_vars_from_pattern
contains_vars-unwrap = refl

contains_vars-conj : contains_vars world.known conj ("y" ∷ []) ≡ true
unfolding contains_vars
contains_vars-conj = refl

abbrev changed : Env world
changed = update start "y" (lit (truth false))

start-changed : (z : String) → member z ("y" ∷ []) ≡ false → start z ≡ changed z
start-changed z h = rw (or_left (z == "y") false h)

eval-contains_vars_example : eval world unwrap start ≡ eval world unwrap changed
eval-contains_vars_example =
    eval-contains_vars world unwrap ("y" ∷ []) start changed
      ((tt, (tt, tt)), ((tt, (tt, (tt, tt))), tt)) contains_vars-unwrap start-changed

-- `(x, match Some y with | x => x end)`
member-free_vars_example :
    member "x" (
      free_vars
        (λ s. false)
        (expr
          (op Ops.tuple_op)
          (cons x (cons (matching (some_ y) (arm (symbol "x" unknown) x no_arms) bool) nil))
          unknown)
        [])
    ≡ false
member-free_vars_example =
    member-free_vars (λ s. false) "x" (op Ops.tuple_op) (some_ y) x bool unknown bool unknown []

-- The walk over the first element alone finds the variable.
free_vars-x : free_vars (λ s. false) x [] ≡ "x" ∷ []
unfolding free_vars
free_vars-x = refl
