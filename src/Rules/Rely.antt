-- ===== src/Rules/Rely.antt =====
-- The rules on `Rely`: `rule_eliminate_rely` and `rule_move_rely_out_when` of
-- src/optimizations/rules.cpp.
use spoq.Base.{Bool, true, false, ◌≡◌, refl, sym, if◌then◌else◌}
use spoq.Ast.{
  truth, SpecType, SpecNode, matching, symbol, rely, bool_const, Arms, make_match, make_rely,
}
use spoq.Meaning.{Interpretation, Env, eval, eval_arms}
use spoq.Rules.{Rewrite}

-- The rule looks at the root alone, and only for a `BoolConst`.
unfoldable pub eliminate_rely : Rewrite
eliminate_rely (rely (bool_const true) b t) = (b, true)
eliminate_rely (rely (bool_const false) b t) = (symbol "None" t, true)
eliminate_rely n = (n, false)

unfoldable pub move_rely_out_when : Rewrite
move_rely_out_when (matching (rely p b t) arms u) = (make_rely p (make_match b arms), true)
move_rely_out_when n = (n, false)

module _ (I : Interpretation) where
  open I use {Value}

  -- `rely (P); e` is `e` where `P` holds, and the known symbol `None` where it does not.
  pub record RelyLaws : Type 0 where
    pub holds_truth : (b : Bool) → I.holds (I.literal (truth b)) ≡ b
    pub none_known : I.known "None" ≡ true
    pub relies_eq : (p v : Value) → I.relies p v ≡ (if I.holds p then v else I.global "None")

  module _ (laws : RelyLaws) where
    -- Dropping a `rely` on a constant keeps the meaning of every node, where a `rely` whose
    -- condition fails is `None`.
    pub eval-eliminate_rely :
        (n : SpecNode) (r : Env I) → eval I (eliminate_rely n).0 r ≡ eval I n r
    unfolding eliminate_rely eval
    eval-eliminate_rely (rely (bool_const true) b t) r =
        rw (laws.relies_eq (I.literal (truth true)) (eval I b r), laws.holds_truth true)
    eval-eliminate_rely (rely (bool_const false) b t) r = rw (
      laws.relies_eq (I.literal (truth false)) (eval I b r),
      laws.holds_truth false,
      laws.none_known,
    )
    eval-eliminate_rely _ r = refl

    -- Moving a `rely` out of the source of a match keeps the meaning, where a `rely` whose condition
    -- fails is `None`: if the condition holds, or if the arms take `None` to `None`.
    pub eval-move_rely_out_when :
        (p b : SpecNode) (arms : Arms) (t u : SpecType) (r : Env I)
        → (I.holds (eval I p r) ≡ false → eval_arms I arms (I.global "None") r ≡ I.global "None")
        → eval I (move_rely_out_when (matching (rely p b t) arms u)).0 r
          ≡ eval I (matching (rely p b t) arms u) r
    unfolding move_rely_out_when eval
    eval-move_rely_out_when p b arms t u r h =
        rw
          (
            laws.relies_eq (eval I p r) (eval I b r),
            laws.relies_eq (eval I p r) (eval_arms I arms (eval I b r) r),
          )
          (go (I.holds (eval I p r)) refl)
      where
        go :
            (q : Bool)
            → I.holds (eval I p r) ≡ q
            → (if q then eval_arms I arms (eval I b r) r else I.global "None")
              ≡ eval_arms I arms (if q then eval I b r else I.global "None") r
        go true e = refl
        go false e = sym (h e)
