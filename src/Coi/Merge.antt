-- ===== src/Coi/Merge.antt =====
-- The meaning of what `merge_branch` of src/optimizations/coi.cpp makes of a conditional.
use spoq.Base.{
  String, Bool, true, false, not, ◌&&◌, ◌==◌, some, [], ◌∷◌, ◌≡◌, refl, ap, ◌∙◌, if◌then◌else◌,
}
use spoq.Ast.{SpecType, Ops, Binops, SpecNode, branch, make_if}
use spoq.Copy.{deep_copy}
use spoq.Copy.Meaning.{CopySafe, eval-deep_copy}
use spoq.Meaning.{Interpretation, Env, eval, ops, binops}
use spoq.Rules.{when_rewrite}
use spoq.Coi.{band, bnot, try_get_return_state, merge_branch, same_state}

module _ (I : Interpretation) where
  open I use {Value}

  -- `&&` and `!` on conditions.
  pub record BooleanLaws : Type 0 where
    pub holds_band :
        (a b : Value)
        → I.holds (I.apply (binops Binops.band) (a ∷ b ∷ [])) ≡ (I.holds a && I.holds b)
    pub holds_bnot : (a : Value) → I.holds (I.apply (ops Ops.bnot) (a ∷ [])) ≡ not (I.holds a)

  module _ (laws : BooleanLaws) (print : SpecNode → String) {O : Type 0} (observe : Value → O) where
    same_or :
        (q : Bool) {v w : Value} → observe v ≡ observe w → observe v ≡ observe (if q then v else w)
    same_or true h = refl
    same_or false h = h

    then_not :
        (p q : Bool) (b c d : Value)
        → observe b ≡ observe d
        → observe (if p && not q then c else b) ≡ observe (if p then (if q then b else c) else d)
    then_not true true b c d h = refl
    then_not true false b c d h = refl
    then_not false true b c d h = h
    then_not false false b c d h = h

    then_and :
        (p q : Bool) (b c d : Value)
        → observe c ≡ observe d
        → observe (if p && q then b else c) ≡ observe (if p then (if q then b else c) else d)
    then_and true true b c d h = refl
    then_and true false b c d h = refl
    then_and false true b c d h = h
    then_and false false b c d h = h

    swap_original :
        (p q : Bool) (a b c : Value)
        → p ≡ not q
        → (if p then a else (if q then b else c)) ≡ (if p then a else b)
    swap_original true q a b c h = refl
    swap_original false true a b c h = refl
    swap_original false false a b c h = cc

    swap_merged :
        (p q : Bool) (b c : Value)
        → p ≡ not q
        → (if p && not q then b else c) ≡ (if p then b else c)
    swap_merged true false b c h = refl
    swap_merged true true b c h = cc
    swap_merged false q b c h = refl

    -- `if x then a else b`, where both return a state: if the printed states are equal only where
    -- the observations are, the merge keeps the observation.
    pub observe-merge_same :
        (x a b s s' : SpecNode) (t : SpecType) (r : Env I)
        → try_get_return_state a ≡ some s
        → try_get_return_state b ≡ some s'
        → CopySafe a
        → ((print s == print s') ≡ true → observe (eval I a r) ≡ observe (eval I b r))
        → observe (eval I (merge_branch print (branch x a b t)).0 r)
          ≡ observe (eval I (branch x a b t) r)
    unfolding merge_branch eval
    observe-merge_same x a b s s' t r p q safe same = rw (p, q) (go (print s == print s') refl)
      where
        go :
            (k : Bool)
            → (print s == print s') ≡ k
            → observe (eval I (when_rewrite k (deep_copy a, true) (branch x a b t, false)).0 r)
              ≡ observe (eval I (branch x a b t) r)
        go true e = ap observe (eval-deep_copy I a r safe) ∙ same_or (I.holds (eval I x r)) (same e)
        go false e = refl

    -- `if x then (if y then b else c) else d`, where `d` returns a state and the inner conditional
    -- none itself: if the printed states are equal only where the observations are, the merge keeps
    -- the observation.
    pub observe-merge_then :
        (x y b c d s : SpecNode) (t u : SpecType) (r : Env I)
        → try_get_return_state d ≡ some s
        → (same_state print s (try_get_return_state b) ≡ true
            → observe (eval I b r) ≡ observe (eval I d r))
        → (same_state print s (try_get_return_state c) ≡ true
            → observe (eval I c r) ≡ observe (eval I d r))
        → observe (eval I (merge_branch print (branch x (branch y b c t) d u)).0 r)
          ≡ observe (eval I (branch x (branch y b c t) d u) r)
    unfolding merge_branch try_get_return_state eval
    observe-merge_then x y b c d s t u r p sb sc = rw p (
        go (same_state print s (try_get_return_state b))
          (same_state print s (try_get_return_state c)) sb sc)
      where
        go :
            (k l : Bool)
            → (k ≡ true → observe (eval I b r) ≡ observe (eval I d r))
            → (l ≡ true → observe (eval I c r) ≡ observe (eval I d r))
            → observe (
                eval I
                  (when_rewrite k
                    (make_if (band x (bnot y)) c b, true)
                    (when_rewrite l
                      (make_if (band x y) b c, true)
                      (branch x (branch y b c t) d u, false))).0
                  r)
              ≡ observe (eval I (branch x (branch y b c t) d u) r)
        go true l hb hc =
            rw
              (
                laws.holds_band (eval I x r) (I.apply (ops Ops.bnot) (eval I y r ∷ [])),
                laws.holds_bnot (eval I y r),
              )
              (then_not (I.holds (eval I x r)) (I.holds (eval I y r)) (eval I b r) (eval I c r)
                (eval I d r) (hb refl))
        go false true hb hc = rw (laws.holds_band (eval I x r) (eval I y r)) (
            then_and (I.holds (eval I x r)) (I.holds (eval I y r)) (eval I b r) (eval I c r)
              (eval I d r) (hc refl))
        go false false hb hc = refl

    -- `if x then a else (if y then b else c)`, where `a` returns a state that prints as that of `b`:
    -- the condition of the merge is `x && y`. Where `x` holds and `y` does not, the conditional is
    -- `a` and the merge is `c`.
    pub merge_else-takes_other :
        (x y a b c s : SpecNode) (t u : SpecType) (r : Env I)
        → try_get_return_state a ≡ some s
        → same_state print s (try_get_return_state b) ≡ true
        → I.holds (eval I x r) ≡ true
        → I.holds (eval I y r) ≡ false
        → (eval I (branch x a (branch y b c t) u) r ≡ eval I a r)
          × (eval I (merge_branch print (branch x a (branch y b c t) u)).0 r ≡ eval I c r)
    unfolding merge_branch try_get_return_state eval
    merge_else-takes_other x y a b c s t u r p same hx hy =
        (rw hx, rw (p, same, laws.holds_band (eval I x r) (eval I y r), hx, hy))

    -- `if x then a else (if y then b else c)`, where `a` returns a state that prints as that of `c`
    -- and not as that of `b`, and the conditions are safe to copy: the merge is `b` where `x` holds
    -- and `y` does not, the conditional is `a` there; where `x` does not hold and `y` does, the merge
    -- is `c` and the conditional is `b`.
    pub merge_else-swaps :
        (x y a b c s : SpecNode) (t u : SpecType) (r : Env I)
        → try_get_return_state a ≡ some s
        → same_state print s (try_get_return_state b) ≡ false
        → same_state print s (try_get_return_state c) ≡ true
        → CopySafe x
        → CopySafe y
        → I.holds (eval I x r) ≡ not (I.holds (eval I y r))
        → (eval I (branch x a (branch y b c t) u) r
            ≡ (if I.holds (eval I x r) then eval I a r else eval I b r))
          × (eval I (merge_branch print (branch x a (branch y b c t) u)).0 r
              ≡ (if I.holds (eval I x r) then eval I b r else eval I c r))
    unfolding merge_branch try_get_return_state eval
    merge_else-swaps x y a b c s t u r p other same cx cy h = (
      swap_original (I.holds (eval I x r)) (I.holds (eval I y r)) (eval I a r) (eval I b r)
          (eval I c r) h,
      rw
          (
            p,
            other,
            same,
            laws.holds_band (eval I (deep_copy x) r)
                (I.apply (ops Ops.bnot) (eval I (deep_copy y) r ∷ [])),
            laws.holds_bnot (eval I (deep_copy y) r),
            eval-deep_copy I x r cx,
            eval-deep_copy I y r cy,
          )
          (swap_merged (I.holds (eval I x r)) (I.holds (eval I y r)) (eval I b r) (eval I c r) h),
    )
