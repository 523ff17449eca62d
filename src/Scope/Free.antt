-- ===== src/Scope/Free.antt =====
-- `free_vars` of src/optimizations/rules.cpp: one set serves the whole walk.
use spoq.Base.{
  String, Bool, false, ◌==◌, eq_iff, List, [], ◌∷◌, ◌≡◌, refl, Bool-cases, inl, inr, member,
  eq_refl,
}
use spoq.Ast.{SpecType, SpecNode, symbol, expr, matching, Op, nil, cons, arm, no_arms}
use spoq.Scope.{erase, free_vars, collect_symbols}

member-erase : (x : String) (xs : List String) → member x (erase x xs) ≡ false
member-erase x [] = refl
member-erase x (y ∷ ys) = elim (Bool-cases (y == x)) [
  | inl e ↦ rw e (member-erase x ys)
  | inr e ↦ rw (e, apart e, member-erase x ys)
]
  where
    apart : (y == x) ≡ false → (x == y) ≡ false
    apart e = elim (Bool-cases (x == y)) [ inl q ↦ cc ((eq_iff x y).0 q, eq_refl x, e) | inr q ↦ q ]

-- An expression of a variable and of a match that binds the same name: the variable is not among
-- the free ones, whatever the set that the walk starts with.
pub member-free_vars :
    (known : String → Bool) (x : String) (o : Op) (src body : SpecNode) (t u v w : SpecType)
    (free : List String)
    → member x (
        free_vars known
          (expr o (cons (symbol x t) (cons (matching src (arm (symbol x u) body no_arms) v) nil)) w)
          free)
      ≡ false
unfolding free_vars collect_symbols
member-free_vars known x o src body t u v w free = member-erase x _
