-- ===== src/Rules/When/Meaning.antt =====
-- The meaning of what `rule_eliminate_when` makes of a `when`.
use spoq.Base.{
  String, ◌==◌, eq_iff, Option, none, some, [], ◌∷◌, ◌≡◌, refl, sym, ap, fun_ext, ◌∙◌,
  if◌then◌else◌, map_option, and_then, or_else, Bool-cases, inl, inr,
}
use spoq.Ast.{
  SpecType, Ops, SpecNode, symbol, expr, rely, anno, branch, op, nil, cons, Arms, no_arms, arm,
  get_type,
}
use spoq.Copy.{deep_copy}
use spoq.Copy.Meaning.{CopySafe, eval-deep_copy, match_pattern-deep_copy}
use spoq.Meaning.{Interpretation, Env, ops, match_pattern, eval, eval_arms}
use spoq.Rules.Rely.{RelyLaws}
use spoq.Rules.When.{
  make_when, subst_when, eliminate_when, replaced, as_when, when_element, optional,
}

-- Conditionals, relies and annotations over `Some e`, `None` and what the rule gives up on, with
-- parts that are safe to copy.
abbrev pub Straight : SpecNode → Type 0
Straight (symbol s t) = Unit
Straight (expr (op Ops.some_op) (cons e nil) t) = CopySafe e
Straight (rely p b t) = CopySafe p × Straight b
Straight (anno p b t) = CopySafe p × Straight b
Straight (branch c a b t) = CopySafe c × Straight a × Straight b
Straight _ = ⊥

module _ (I : Interpretation) where
  open I use {Value}

  -- `Some` and `None` are taken apart as they were built, and an annotation is its body.
  pub record OptionLaws : Type 0 where
    pub some_some :
        (v : Value)
        → I.destruct (ops Ops.some_op) (I.apply (ops Ops.some_op) (v ∷ [])) ≡ some (v ∷ [])
    pub none_some :
        (v : Value) → I.destruct (ops Ops.none_op) (I.apply (ops Ops.some_op) (v ∷ [])) ≡ none
    pub some_none : I.destruct (ops Ops.some_op) (I.global "None") ≡ none
    pub none_none : I.destruct (ops Ops.none_op) (I.global "None") ≡ some []
    pub annotates_eq : (p v : Value) → I.annotates p v ≡ v

  module _ (laws : OptionLaws) (relies : RelyLaws I) (p body : SpecNode)
      (safe : CopySafe body) where
    abbrev when_arms : Arms
    when_arms =
        arm (expr (op Ops.some_op) (cons p nil) (get_type body)) body
          (arm (expr (op Ops.none_op) nil (get_type body)) (symbol "None" (get_type body)) no_arms)

    abbrev into : Value → Env I → Value
    into v r = eval_arms I when_arms v r

    into-none : (r : Env I) → into (I.global "None") r ≡ I.global "None"
    unfolding eval match_pattern
    into-none r = rw (laws.some_none, laws.none_none, relies.none_known)

    into-some :
        (v : Value) (r : Env I)
        → into (I.apply (ops Ops.some_op) (v ∷ [])) r ≡ eval_arms I (arm p body no_arms) v r
    unfolding eval match_pattern
    into-some v r = rw (laws.some_some v, laws.none_some v) (go (match_pattern I p v r))
      where
        go :
            (o : Option (Env I))
            → or_else (map_option (λ s. eval I body s) (and_then o (λ s. some s))) I.stuck
              ≡ or_else (map_option (λ s. eval I body s) o) I.stuck
        go none = refl
        go (some s) = refl

    abbrev Pushed : Option SpecNode → Value → Env I → Type 0
    Pushed none v r = Unit
    Pushed (some m) v r = eval I m r ≡ into v r

    Pushed-rely :
        (o : Option SpecNode) (q : SpecNode) (v : Value) (r : Env I)
        → CopySafe q
        → Pushed o v r
        → Pushed (map_option (λ b'. optional rely q b') o) (I.relies (eval I q r) v) r
    unfolding eval
    Pushed-rely none q v r s h = tt
    Pushed-rely (some m) q v r s h =
        rw
          (
            relies.relies_eq (eval I (deep_copy q) r) (eval I m r),
            relies.relies_eq (eval I q r) v,
            eval-deep_copy I q r s,
          )
          (elim (Bool-cases (I.holds (eval I q r))) [
            | inl e ↦ rw e h
            | inr e ↦ rw e (sym (into-none r))
          ])

    Pushed-anno :
        (o : Option SpecNode) (q : SpecNode) (v : Value) (r : Env I)
        → CopySafe q
        → Pushed o v r
        → Pushed (map_option (λ b'. optional anno q b') o) (I.annotates (eval I q r) v) r
    unfolding eval
    Pushed-anno none q v r s h = tt
    Pushed-anno (some m) q v r s h =
        rw
          (
            laws.annotates_eq (eval I (deep_copy q) r) (eval I m r),
            laws.annotates_eq (eval I q r) v,
          )
          h

    Pushed-branch :
        (o o' : Option SpecNode) (c : SpecNode) (v w : Value) (r : Env I)
        → CopySafe c
        → Pushed o v r
        → Pushed o' w r
        → Pushed
            (and_then o (λ a'. map_option (λ b'. branch (deep_copy c) a' b' (get_type a')) o'))
            (if I.holds (eval I c r) then v else w)
            r
    unfolding eval
    Pushed-branch none o' c v w r s h k = tt
    Pushed-branch (some m) none c v w r s h k = tt
    Pushed-branch (some m) (some n) c v w r s h k =
        rw (eval-deep_copy I c r s)
          (elim (Bool-cases (I.holds (eval I c r))) [ inl e ↦ rw e h | inr e ↦ rw e k ])

    eval-none : (t : SpecType) (r : Env I) → eval I (symbol "None" t) r ≡ I.global "None"
    unfolding eval
    eval-none t r = rw relies.none_known

    eval-symbol :
        (s : String) (t u : SpecType) (r : Env I)
        → s ≡ "None"
        → eval I (symbol "None" u) r ≡ into (eval I (symbol s t) r) r
    eval-symbol s t u r e =
        eval-none u r
        ∙ sym (into-none r)
        ∙ ap (λ v. into v r) (sym (ap (λ z. eval I (symbol z t) r) e ∙ eval-none t r))

    copied :
        (e : SpecNode) (r : Env I)
        → CopySafe e
        → eval_arms I (arm (deep_copy p) (deep_copy body) no_arms) (eval I (deep_copy e) r) r
          ≡ eval_arms I (arm p body no_arms) (eval I e r) r
    unfolding eval
    copied e r h = rw (
      eval-deep_copy I e r h,
      match_pattern-deep_copy I p (eval I e r) r,
      fun_ext (λ s. eval-deep_copy I body s safe),
    )

    subst_when-Pushed :
        (src : SpecNode) (r : Env I)
        → Straight src
        → Pushed (subst_when p body src) (eval I src r) r
    unfolding subst_when eval
    subst_when-Pushed (symbol s t) r h = elim (Bool-cases (s == "None")) [
      | inl e ↦ rw e (eval-symbol s t (get_type body) r ((eq_iff s "None").0 e))
      | inr e ↦ rw e tt
    ]
    subst_when-Pushed (expr (op Ops.some_op) (cons e nil) t) r h =
        copied e r h ∙ sym (into-some (eval I e r) r)
    subst_when-Pushed (rely q b t) r h =
        Pushed-rely (subst_when p body b) q (eval I b r) r h.0 (subst_when-Pushed b r h.1)
    subst_when-Pushed (anno q b t) r h =
        Pushed-anno (subst_when p body b) q (eval I b r) r h.0 (subst_when-Pushed b r h.1)
    subst_when-Pushed (branch c a b t) r h =
        Pushed-branch (subst_when p body a) (subst_when p body b) c (eval I a r) (eval I b r) r h.0
          (subst_when-Pushed a r h.1) (subst_when-Pushed b r h.2)
    subst_when-Pushed _ r h = absurd h

    eval-replaced :
        (o : Option SpecNode) (n : SpecNode) (v : Value) (r : Env I)
        → eval I n r ≡ into v r
        → Pushed o v r
        → eval I (replaced n o).0 r ≡ eval I n r
    eval-replaced none n v r e h = refl
    eval-replaced (some m) n v r e h = h ∙ sym e

    -- Pushing a `when` into a source of conditionals, relies and annotations over `Some e` and
    -- `None` keeps the meaning, where the body and the parts of the source are safe to copy.
    pub eval-eliminate_when :
        (src : SpecNode) (r : Env I)
        → Straight src
        → eval I (eliminate_when (make_when p src body)).0 r ≡ eval I (make_when p src body) r
    unfolding eliminate_when as_when eval
    eval-eliminate_when src r h = elim (Bool-cases (when_element p)) [
      | inl e ↦ rw e (
          eval-replaced (subst_when p body src) (make_when p src body) (eval I src r) r refl
            (subst_when-Pushed src r h))
      | inr e ↦ rw e
    ]
