-- ===== src/Copy/Meaning.antt =====
-- The meaning of the copies of include/nodes.h.
use spoq.Base.{Bool, true, false, List, [], ◌∷◌, ◌≡◌, refl, ap, ap₂, fun_ext}
use spoq.Ast.{
  SpecNode, expr, matching, rely, anno, branch, forall, exists, Op, node_op, SpecNodes, nil, cons,
  Arms, no_arms, arm, Args, no_args, arg, hypothesis,
}
use spoq.Copy.{deep_copy, copy_into, deep_copy_op, deep_copy_nodes, deep_copy_arms, deep_copy_args}
use spoq.Meaning.{
  Interpretation, Env, match_pattern, match_patterns, eval, eval_op, eval_nodes, eval_arms,
  quantify, operator, update,
}

abbrev pub NotExists : SpecNode → Type 0
NotExists (exists vs b t) = ⊥
NotExists _ = Unit

-- No child of an `If` is an `Exists`, at any depth.
abbrev mutual
  pub CopySafe : SpecNode → Type 0
  CopySafe (expr o es t) = CopySafeOp o × CopySafeNodes es
  CopySafe (matching src arms t) = CopySafe src × CopySafeArms arms
  CopySafe (rely p b t) = CopySafe p × CopySafe b
  CopySafe (anno p b t) = CopySafe p × CopySafe b
  CopySafe (branch c a b t) =
      (NotExists c × CopySafe c) × (NotExists a × CopySafe a) × (NotExists b × CopySafe b)
  CopySafe (forall vs b t) = CopySafeArgs vs × CopySafe b
  CopySafe (exists vs b t) = CopySafeArgs vs × CopySafe b
  CopySafe _ = Unit

  pub CopySafeOp : Op → Type 0
  CopySafeOp (node_op n) = CopySafe n
  CopySafeOp _ = Unit

  pub CopySafeNodes : SpecNodes → Type 0
  CopySafeNodes nil = Unit
  CopySafeNodes (cons n ns) = CopySafe n × CopySafeNodes ns

  pub CopySafeArms : Arms → Type 0
  CopySafeArms no_arms = Unit
  CopySafeArms (arm p b rest) = CopySafe b × CopySafeArms rest

  pub CopySafeArgs : Args → Type 0
  CopySafeArgs no_args = Unit
  CopySafeArgs (arg x t vs) = CopySafeArgs vs
  CopySafeArgs (hypothesis x e vs) = CopySafe e × CopySafeArgs vs

pub copy_into-deep_copy : (n : SpecNode) → NotExists n → copy_into n ≡ deep_copy n
unfolding deep_copy copy_into
copy_into-deep_copy (exists vs b t) h = absurd h
copy_into-deep_copy _ h = refl

operator-deep_copy_op : (o : Op) → operator (deep_copy_op o) ≡ operator o
unfolding deep_copy_op
operator-deep_copy_op (node_op n) = refl
operator-deep_copy_op _ = refl

module _ (I : Interpretation) where
  open I use {Value}

  mutual
    unfolding deep_copy match_pattern

    pub match_pattern-deep_copy :
        (p : SpecNode) (v : Value) (r : Env I)
        → match_pattern I (deep_copy p) v r ≡ match_pattern I p v r
    match_pattern-deep_copy (expr o es t) v r =
        rw (operator-deep_copy_op o, fun_ext (λ vs. match_patterns-deep_copy_nodes es vs r))
    match_pattern-deep_copy _ v r = refl

    match_patterns-deep_copy_nodes :
        (ps : SpecNodes) (vs : List Value) (r : Env I)
        → match_patterns I (deep_copy_nodes ps) vs r ≡ match_patterns I ps vs r
    match_patterns-deep_copy_nodes nil vs r = refl
    match_patterns-deep_copy_nodes (cons n ns) [] r = refl
    match_patterns-deep_copy_nodes (cons n ns) (v ∷ vs) r =
        rw (match_pattern-deep_copy n v r, fun_ext (λ s. match_patterns-deep_copy_nodes ns vs s))

  mutual
    unfolding deep_copy match_pattern eval

    eval-copy : (n : SpecNode) → CopySafe n → (r : Env I) → eval I (deep_copy n) r ≡ eval I n r
    eval-copy (expr o es t) h r =
        rw (eval_nodes-deep_copy_nodes es h.1 r) (eval_op-deep_copy_op o h.0 (eval_nodes I es r) r)
    eval-copy (matching src arms t) h r =
        rw (eval-copy src h.0 r) (eval_arms-deep_copy_arms arms h.1 (eval I src r) r)
    eval-copy (rely p b t) h r = ap₂ I.relies (eval-copy p h.0 r) (eval-copy b h.1 r)
    eval-copy (anno p b t) h r = ap₂ I.annotates (eval-copy p h.0 r) (eval-copy b h.1 r)
    eval-copy (branch c a b t) h r = rw (
      copy_into-deep_copy c h.0.0,
      copy_into-deep_copy a h.1.0,
      copy_into-deep_copy b h.2.0,
      eval-copy c h.0.1 r,
      eval-copy a h.1.1 r,
      eval-copy b h.2.1 r,
    )
    eval-copy (forall vs b t) h r =
        rw (fun_ext (λ s. eval-copy b h.1 s))
          (quantify-deep_copy_args true vs h.0 r (λ s. eval I b s))
    eval-copy (exists vs b t) h r =
        rw (fun_ext (λ s. eval-copy b h.1 s))
          (quantify-deep_copy_args false vs h.0 r (λ s. eval I b s))
    eval-copy _ h r = refl

    pub eval_op-deep_copy_op :
        (o : Op)
        → CopySafeOp o
        → (vs : List Value) (r : Env I) → eval_op I (deep_copy_op o) vs r ≡ eval_op I o vs r
    eval_op-deep_copy_op (node_op n) h vs r = ap (λ f. I.call f vs) (eval-copy n h r)
    eval_op-deep_copy_op _ h vs r = refl

    pub eval_nodes-deep_copy_nodes :
        (ns : SpecNodes)
        → CopySafeNodes ns
        → (r : Env I) → eval_nodes I (deep_copy_nodes ns) r ≡ eval_nodes I ns r
    eval_nodes-deep_copy_nodes nil h r = refl
    eval_nodes-deep_copy_nodes (cons n ns) h r =
        ap₂ (λ a b. a ∷ b) (eval-copy n h.0 r) (eval_nodes-deep_copy_nodes ns h.1 r)

    pub eval_arms-deep_copy_arms :
        (arms : Arms)
        → CopySafeArms arms
        → (v : Value) (r : Env I) → eval_arms I (deep_copy_arms arms) v r ≡ eval_arms I arms v r
    eval_arms-deep_copy_arms no_arms h v r = refl
    eval_arms-deep_copy_arms (arm p b rest) h v r = rw (
      match_pattern-deep_copy p v r,
      fun_ext (λ s. eval-copy b h.0 s),
      eval_arms-deep_copy_arms rest h.1 v r,
    )

    quantify-deep_copy_args :
        (q : Bool) (vs : Args)
        → CopySafeArgs vs
        → (r : Env I) (k : Env I → Value)
        → quantify I q (deep_copy_args vs) r k ≡ quantify I q vs r k
    quantify-deep_copy_args q no_args h r k = refl
    quantify-deep_copy_args q (arg x t vs) h r k =
        rw (fun_ext (λ u. quantify-deep_copy_args q vs h (update r x u) k))
    quantify-deep_copy_args q (hypothesis x e vs) h r k =
        rw (eval-copy e h.0 r, quantify-deep_copy_args q vs h.1 r k)

  -- The copy of a specification in which no `If` has an `Exists` for a child means the same, in
  -- every interpretation and environment.
  pub eval-deep_copy : (n : SpecNode) (r : Env I) → CopySafe n → eval I (deep_copy n) r ≡ eval I n r
  eval-deep_copy n r h = eval-copy n h r
