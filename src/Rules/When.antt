-- ===== src/Rules/When.antt =====
-- `Match::is_let`, `Match::is_when`, `Match::when` and `Match::let` of include/nodes.h, and
-- `rule_eliminate_when` of src/optimizations/rules.cpp.
pub mod Meaning
use spoq.Base.{
  String, Bool, true, false, ◌&&◌, ◌||◌, ◌==◌, Option, none, some, if◌then◌else◌, map_option,
  and_then,
}
use spoq.Ast.{
  SpecType, option, Ops, SpecNode, symbol, expr, matching, rely, anno, branch, forall, exists, Op,
  op, SpecNodes, nil, cons, Arms, no_arms, arm, get_type, make_match,
}
use spoq.Copy.{deep_copy}
use spoq.Rules.{Rewrite, when_rewrite}

abbrev pub all_symbols : SpecNodes → Bool
all_symbols nil = true
all_symbols (cons (symbol x t) ns) = all_symbols ns
all_symbols (cons n ns) = false

-- An operator of `ops` other than a tuple is no pattern of a let; any other operator is.
abbrev pub let_pattern : SpecNode → Bool
let_pattern (symbol x t) = true
let_pattern (expr (op Ops.tuple_op) es t) = all_symbols es
let_pattern (expr (op o) es t) = false
let_pattern (expr o es t) = all_symbols es
let_pattern _ = false

unfoldable pub is_let : SpecNode → Bool
is_let (matching src (arm p b no_arms) t) = let_pattern p
is_let _ = false

abbrev pub is_none_pattern : SpecNode → Bool
is_none_pattern (expr (op Ops.none_op) es t) = true
is_none_pattern (symbol s t) = s == "_" || s == "None"
is_none_pattern _ = false

abbrev pub is_none_body : SpecNode → Bool
is_none_body (symbol s t) = s == "None"
is_none_body _ = false

abbrev pub at_most_two : SpecNodes → Bool
at_most_two (cons a (cons b (cons c ns))) = false
at_most_two _ = true

abbrev pub when_element : SpecNode → Bool
when_element (symbol x t) = true
when_element (expr (op Ops.tuple_op) es t) = at_most_two es && all_symbols es
when_element _ = false

-- The element of the first arm's pattern `Some e`, and that arm's body, where `is_when()` holds.
unfoldable pub as_when : SpecNode → Option (SpecNode × SpecNode)
as_when (matching src (arm (expr (op Ops.some_op) (cons e es) t) b (arm q c no_arms)) u) =
    if is_none_body c && (is_none_pattern q && when_element e) then some (e, b) else none
as_when _ = none

-- `Match::when(pattern, value, body)` and `Match::let(name, value, body, typ)`.
abbrev pub make_when : SpecNode → SpecNode → SpecNode → SpecNode
make_when pattern value body =
    let t = get_type body in
    make_match value (
      arm (expr (op Ops.some_op) (cons pattern nil) t) body
        (arm (expr (op Ops.none_op) nil t) (symbol "None" t) no_arms))

abbrev pub make_let : String → SpecNode → SpecNode → SpecType → SpecNode
make_let name value body typ = make_match value (arm (symbol name typ) body no_arms)

abbrev optional : (SpecNode → SpecNode → SpecType → SpecNode) → SpecNode → SpecNode → SpecNode
optional build p b = build (deep_copy p) b (option (get_type b))

-- The local function `subst_when`: `none` is the null pointer. The code moves a quantifier out of the
-- source: where a later branch then gives `none` the source has lost it, and it is kept here.
module _ (pattern body : SpecNode) where
  unfoldable mutual
    pub subst_when : SpecNode → Option SpecNode
    subst_when (symbol s t) = if s == "None" then some (symbol "None" (get_type body)) else none
    subst_when (expr (op Ops.some_op) (cons e es) t) =
        some (
          matching (deep_copy e) (arm (deep_copy pattern) (deep_copy body) no_arms) (get_type body))
    subst_when (matching src arms t) =
        map_option (λ arms'. matching (deep_copy src) arms' (get_type body)) (subst_when_arms arms)
    subst_when (rely p b t) = map_option (λ b'. optional rely p b') (subst_when b)
    subst_when (anno p b t) = map_option (λ b'. optional anno p b') (subst_when b)
    subst_when (branch c a b t) =
        and_then (subst_when a)
          λ a'. map_option (λ b'. branch (deep_copy c) a' b' (get_type a')) (subst_when b)
    subst_when (forall vs b t) = some (forall vs b t)
    subst_when (exists vs b t) = some (exists vs b t)
    subst_when _ = none

    pub subst_when_arms : Arms → Option Arms
    subst_when_arms no_arms = some no_arms
    subst_when_arms (arm p b rest) =
        and_then (subst_when b)
          λ b'. map_option (λ rest'. arm (deep_copy p) b' rest') (subst_when_arms rest)

abbrev pub replaced : SpecNode → Option SpecNode → SpecNode × Bool
replaced n none = (n, false)
replaced n (some m) = (m, true)

abbrev pub eliminate_with : SpecNode → SpecNode → Option (SpecNode × SpecNode) → SpecNode × Bool
eliminate_with n src none = (n, false)
eliminate_with n src (some (e, b)) = replaced n (subst_when e b src)

unfoldable pub eliminate_when : Rewrite
eliminate_when (matching src arms t) =
    eliminate_with (matching src arms t) src (as_when (matching src arms t))
eliminate_when n = (n, false)
