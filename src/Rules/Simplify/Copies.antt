-- ===== src/Rules/Simplify/Copies.antt =====
-- `rule_simplify_expr` on a conditional: the copy that it returns.
use spoq.Base.{ℕ, Bool, true, false, none, ◌≡◌, refl, ap, ◌∙◌}
use spoq.Ast.{SpecType, Binops, SpecNode, branch, bool_const, forall, exists, Args, as_const}
use spoq.Copy.{deep_copy, copy_into}
use spoq.Copy.Meaning.{NotExists, CopySafe, copy_into-deep_copy, eval-deep_copy}
use spoq.Meaning.{Interpretation, Env, eval}
use spoq.Rules.Simplify.{simplify_expr}

module _ (undefined : Binops → ℕ → ℕ → ℕ) (same_type : SpecType → SpecType → Bool) where
  simplify_expr-branch :
      (c a b : SpecNode) (t : SpecType)
      → as_const c ≡ none
      → (simplify_expr undefined same_type (branch c a b t)).0 ≡ deep_copy (branch c a b t)
  unfolding simplify_expr
  simplify_expr-branch (bool_const true) a b t h = cc
  simplify_expr-branch (bool_const false) a b t h = cc
  simplify_expr-branch _ a b t h = refl

  copy_into-exists :
      (vs : Args) (b : SpecNode) (t : SpecType)
      → copy_into (exists vs b t) ≡ deep_copy (forall vs b t)
  unfolding copy_into deep_copy
  copy_into-exists vs b t = refl

  -- A conditional whose condition is no constant and whose then-branch is an `Exists`: what the
  -- rule makes of it means, where the condition holds, the `Forall` with the same arguments and
  -- body, if the condition, the arguments and the body are safe to copy.
  pub eval-simplify_exists :
      (I : Interpretation) (c e b : SpecNode) (vs : Args) (t u : SpecType) (r : Env I)
      → as_const c ≡ none
      → NotExists c
      → CopySafe c
      → CopySafe (forall vs b t)
      → I.holds (eval I c r) ≡ true
      → eval I (simplify_expr undefined same_type (branch c (exists vs b t) e u)).0 r
        ≡ eval I (forall vs b t) r
  unfolding eval deep_copy
  eval-simplify_exists I c e b vs t u r k n safe safe' h =
      rw (simplify_expr-branch c (exists vs b t) e u k, deep_copy, eval)
        (rw (copy_into-deep_copy c n, eval-deep_copy I c r safe, h)
          (ap (λ m. eval I m r) (copy_into-exists vs b t)
            ∙ eval-deep_copy I (forall vs b t) r safe'))
