-- ===== src/Meaning/Reads.antt =====
-- What a specification reads of its environment.
use spoq.Base.{String, Bool, true, false, List, ◌∷◌, ◌≡◌, refl, ap, ap₂, fun_ext, if◌then◌else◌}
use spoq.Ast.{
  SpecNode, symbol, expr, matching, rely, anno, branch, forall, exists, Op, node_op, SpecNodes, nil,
  cons, Arms, no_arms, arm, Args, no_args, arg, hypothesis,
}
use spoq.Meaning.{
  Interpretation, Env, match_pattern, eval, eval_op, eval_nodes, eval_arms, quantify, update,
}
use spoq.Meaning.Envs.{Agree, Related-or_else, match_pattern-keeps, Agree-update}

-- Every symbol outside the patterns is a name of `P`.
abbrev mutual
  pub Within : (String → Type 0) → SpecNode → Type 0
  Within P (symbol x t) = P x
  Within P (expr o es t) = WithinOp P o × WithinNodes P es
  Within P (matching src arms t) = Within P src × WithinArms P arms
  Within P (rely p b t) = Within P p × Within P b
  Within P (anno p b t) = Within P p × Within P b
  Within P (branch c a b t) = Within P c × Within P a × Within P b
  Within P (forall vs b t) = WithinArgs P vs × Within P b
  Within P (exists vs b t) = WithinArgs P vs × Within P b
  Within P _ = Unit

  pub WithinOp : (String → Type 0) → Op → Type 0
  WithinOp P (node_op n) = Within P n
  WithinOp P _ = Unit

  pub WithinNodes : (String → Type 0) → SpecNodes → Type 0
  WithinNodes P nil = Unit
  WithinNodes P (cons n ns) = Within P n × WithinNodes P ns

  pub WithinArms : (String → Type 0) → Arms → Type 0
  WithinArms P no_arms = Unit
  WithinArms P (arm p b rest) = Within P b × WithinArms P rest

  pub WithinArgs : (String → Type 0) → Args → Type 0
  WithinArgs P no_args = Unit
  WithinArgs P (arg x t vs) = WithinArgs P vs
  WithinArgs P (hypothesis x e vs) = Within P e × WithinArgs P vs

module _ (I : Interpretation) (P : String → Type 0) where
  open I use {Value}

  mutual
    unfolding eval

    pub eval-Agree :
        (n : SpecNode) → Within P n → (r r' : Env I) → Agree I P r r' → eval I n r ≡ eval I n r'
    eval-Agree (symbol x t) w r r' h = ap (λ u. if I.known x then I.global x else u) (h x w)
    eval-Agree (expr o es t) w r r' h =
        rw (eval_nodes-Agree es w.1 r r' h) (eval_op-Agree o w.0 (eval_nodes I es r') r r' h)
    eval-Agree (matching src arms t) w r r' h =
        rw (eval-Agree src w.0 r r' h) (eval_arms-Agree arms w.1 (eval I src r') r r' h)
    eval-Agree (rely p b t) w r r' h =
        ap₂ I.relies (eval-Agree p w.0 r r' h) (eval-Agree b w.1 r r' h)
    eval-Agree (anno p b t) w r r' h =
        ap₂ I.annotates (eval-Agree p w.0 r r' h) (eval-Agree b w.1 r r' h)
    eval-Agree (branch c a b t) w r r' h =
        rw (eval-Agree c w.0 r r' h, eval-Agree a w.1 r r' h, eval-Agree b w.2 r r' h)
    eval-Agree (forall vs b t) w r r' h =
        quantify-Agree true vs w.0 r r' h (λ s. eval I b s) (λ s. eval I b s)
          (λ s s' k. eval-Agree b w.1 s s' k)
    eval-Agree (exists vs b t) w r r' h =
        quantify-Agree false vs w.0 r r' h (λ s. eval I b s) (λ s. eval I b s)
          (λ s s' k. eval-Agree b w.1 s s' k)
    eval-Agree _ w r r' h = refl

    eval_op-Agree :
        (o : Op)
        → WithinOp P o
        → (vs : List Value) (r r' : Env I) → Agree I P r r'
        → eval_op I o vs r ≡ eval_op I o vs r'
    eval_op-Agree (node_op n) w vs r r' h = ap (λ f. I.call f vs) (eval-Agree n w r r' h)
    eval_op-Agree _ w vs r r' h = refl

    pub eval_nodes-Agree :
        (ns : SpecNodes)
        → WithinNodes P ns
        → (r r' : Env I) → Agree I P r r'
        → eval_nodes I ns r ≡ eval_nodes I ns r'
    eval_nodes-Agree nil w r r' h = refl
    eval_nodes-Agree (cons n ns) w r r' h =
        ap₂ (λ a b. a ∷ b) (eval-Agree n w.0 r r' h) (eval_nodes-Agree ns w.1 r r' h)

    eval_arms-Agree :
        (arms : Arms)
        → WithinArms P arms
        → (v : Value) (r r' : Env I) → Agree I P r r'
        → eval_arms I arms v r ≡ eval_arms I arms v r'
    eval_arms-Agree no_arms w v r r' h = refl
    eval_arms-Agree (arm p b rest) w v r r' h =
        Related-or_else I (match_pattern I p v r) (match_pattern I p v r') (λ s. eval I b s)
          (λ s. eval I b s) (eval_arms I rest v r) (eval_arms I rest v r')
          (match_pattern-keeps I P p v r r' h) (λ s s' k. eval-Agree b w.0 s s' k)
          (eval_arms-Agree rest w.1 v r r' h)

    quantify-Agree :
        (q : Bool) (vs : Args)
        → WithinArgs P vs
        → (r r' : Env I) → Agree I P r r'
        → (k k' : Env I → Value) → ((s s' : Env I) → Agree I P s s' → k s ≡ k' s')
        → quantify I q vs r k ≡ quantify I q vs r' k'
    quantify-Agree q no_args w r r' h k k' e = e r r' h
    quantify-Agree q (arg x t vs) w r r' h k k' e = ap ((if q then I.for_all else I.there_is) t) (
        fun_ext λ u.
          quantify-Agree q vs w (update r x u) (update r' x u) (Agree-update I P x u r r' h) k k' e)
    quantify-Agree q (hypothesis x d vs) w r r' h k k' e =
        ap₂ (if q then I.implies else I.and_also) (eval-Agree d w.0 r r' h)
          (quantify-Agree q vs w.1 r r' h k k' e)
