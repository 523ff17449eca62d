-- ===== src/Coi.antt =====
-- The cone of influence of src/optimizations/coi.cpp: the tests on field paths, `hide_write`, and
-- the merging of branches (`try_get_return_state`, `merge_branch`).
--
-- Two states are compared by their
-- printed text: `print` is the conversion of a node to a string.
pub mod Fields
pub mod Merge
use spoq.Base.{
  String, Bool, true, false, ◌&&◌, ◌||◌, ◌==◌, Option, none, some, List, [], ◌∷◌, if◌then◌else◌,
  map_option,
}
use spoq.Ast.{
  SpecType, bool, Ops, Binops, SpecNode, symbol, const, int_const, string_const, bool_const, expr,
  matching, rely, anno, branch, forall, exists, Op, node_op, op, binop, name, SpecNodes, nil, cons,
  make_if,
}
use spoq.Copy.{deep_copy}
use spoq.Rules.{Rewrite, when_rewrite}

-- `field_t`
abbrev pub Field : Type 0
Field = List String

abbrev pub is_prefix : Field → Field → Bool
is_prefix [] f = true
is_prefix (x ∷ xs) [] = false
is_prefix (x ∷ xs) (y ∷ ys) = x == y && is_prefix xs ys

-- `std::search(f_check, f_interested) != f_check.end()`
unfoldable pub contains_field : Field → Field → Bool
contains_field [] g = false
contains_field (x ∷ xs) g = is_prefix g (x ∷ xs) || contains_field xs g

unfoldable pub has_subfield : List Field → Field → Bool
has_subfield [] f = false
has_subfield (g ∷ gs) f = contains_field g f || has_subfield gs f

abbrev pub contains_pair : String → String → List (String × String) → Bool
contains_pair x y [] = false
contains_pair x y ((a, b) ∷ ps) = (a == x && b == y) || contains_pair x y ps

-- `f.front()`: `none` for an empty path, for which it is undefined.
abbrev pub front : Field → Option String
front [] = none
front (x ∷ xs) = some x

-- A round of the loop; `rest` is what follows.
abbrev pub covers_or :
    Option String → Option String → List (String × String) → Option Bool → Option Bool
covers_or (some x) (some y) anc rest = if x == y || contains_pair y x anc then some true else rest
covers_or _ _ anc rest = none

-- `none`: the `front()` of an empty path is taken.
unfoldable pub is_subfield_of_anyone : Field → List Field → List (String × String) → Option Bool
is_subfield_of_anyone update_field [] anc = some false
is_subfield_of_anyone update_field (c ∷ cs) anc =
    covers_or (front c) (front update_field) anc (is_subfield_of_anyone update_field cs anc)

-- The element before the last.
abbrev pub before_last : SpecNodes → Option SpecNode
before_last (cons n (cons m nil)) = some n
before_last (cons n ns) = before_last ns
before_last nil = none

abbrev pub symbol_field : Option SpecNode → Field
symbol_field (some (symbol x t)) = x ∷ []
symbol_field _ = []

-- The local function of `SpecRules::hide_write`: a write of a field outside the cone is dropped.
-- `none` where the test is undefined: the field is no symbol, or the cone has an empty path.
unfoldable pub hide_write :
    List Field → List (String × String) → SpecNode → Option (SpecNode × Bool)
hide_write coi_fields anc (expr (op Ops.record_set) (cons r es) t) =
    map_option
      (λ covered. when_rewrite covered (expr (op Ops.record_set) (cons r es) t, false) (r, true))
      (is_subfield_of_anyone (symbol_field (before_last (cons r es))) coi_fields anc)
hide_write coi_fields anc n = some (n, false)

-- `elems->back()`
abbrev pub last_node : SpecNodes → Option SpecNode
last_node nil = none
last_node (cons n nil) = some n
last_node (cons n ns) = last_node ns

abbrev pub copied : Option SpecNode → Option SpecNode
copied none = none
copied (some n) = some (deep_copy n)

-- The state that `Some (..., st)` or `Some st` returns; `None` returns itself.
unfoldable pub try_get_return_state : SpecNode → Option SpecNode
try_get_return_state (expr (op Ops.some_op) (cons (expr (op Ops.tuple_op) es t) rest) u) =
    copied (last_node es)
try_get_return_state (expr (op Ops.some_op) (cons (expr o es t) rest) u) =
    some (deep_copy (expr o es t))
try_get_return_state (expr (op Ops.some_op) (cons (symbol x t) rest) u) = some (symbol x t)
try_get_return_state (expr (op Ops.none_op) es t) = some (deep_copy (expr (op Ops.none_op) es t))
try_get_return_state n = none

abbrev pub band : SpecNode → SpecNode → SpecNode
band a b = expr (binop Binops.band) (cons a (cons b nil)) bool

abbrev pub bnot : SpecNode → SpecNode
bnot a = expr (op Ops.bnot) (cons a nil) bool

module _ (print : SpecNode → String) where
  abbrev pub same_state : SpecNode → Option SpecNode → Bool
  same_state s none = false
  same_state s (some s') = print s == print s'

  -- `then` returns `s`, and `else` returns no state.
  abbrev pub merge_else : SpecNode → SpecNode → SpecNode → SpecNode × Bool
  merge_else s (branch x a (branch y b c t) u) n =
      when_rewrite (same_state s (try_get_return_state b)) (make_if (band x y) b c, true)
        (when_rewrite (same_state s (try_get_return_state c))
          (make_if (band (deep_copy x) (bnot (deep_copy y))) b c, true) (n, false))
  merge_else s m n = (n, false)

  -- `else` returns `s`, and `then` returns no state.
  abbrev pub merge_then : SpecNode → SpecNode → SpecNode → SpecNode × Bool
  merge_then s (branch x (branch y b c t) d u) n =
      when_rewrite (same_state s (try_get_return_state b)) (make_if (band x (bnot y)) c b, true)
        (when_rewrite (same_state s (try_get_return_state c)) (make_if (band x y) b c, true)
          (n, false))
  merge_then s m n = (n, false)

  abbrev pub merge_cases : Option SpecNode → Option SpecNode → SpecNode → SpecNode → SpecNode × Bool
  merge_cases (some s) (some s') a n =
      when_rewrite (print s == print s') (deep_copy a, true) (n, false)
  merge_cases (some s) none a n = merge_else s n n
  merge_cases none (some s') a n = merge_then s' n n
  merge_cases none none a n = (n, false)

  -- The local function of `SpecRules::merge_branch`.
  unfoldable pub merge_branch : Rewrite
  merge_branch (branch x a b t) =
      merge_cases (try_get_return_state a) (try_get_return_state b) a (branch x a b t)
  merge_branch n = (n, false)
