-- ===== src/Rules/Meaning.antt =====
-- The meaning of what `SpecRules::rec_apply` makes of a specification.
use spoq.Base.{
  Bool, true, false, Option, none, some, List, ◌∷◌, ◌≡◌, refl, ap, ap₂, fun_ext, if◌then◌else◌, ◌∙◌,
  Bool-cases, inl, inr, subst,
}
use mathlib.Core.Option.{some-injective}
use spoq.Ast.{
  SpecNode, symbol, const, int_const, string_const, bool_const, expr, matching, rely, anno, branch,
  forall, exists, Op, node_op, SpecNodes, nil, cons, Arms, no_arms, arm, Args, no_args, arg,
  hypothesis, make_match, make_rely, make_anno, make_if, make_forall, make_exists,
}
use spoq.Meaning.{Interpretation, Env, eval, eval_op, eval_nodes, eval_arms, quantify, update}
use spoq.Rules.{
  Rewrite, rec_apply, rec_apply_op, rec_apply_nodes, rec_apply_arms, rec_apply_args, rewritten,
  run_rule, rec_throws, rec_changed,
}

-- The rule leaves the pattern of every arm as it is.
module _ (f : SpecNode → SpecNode) where
  abbrev mutual
    pub PatternsFixed : SpecNode → Type 0
    PatternsFixed (expr o es t) = PatternsFixedOp o × PatternsFixedNodes es
    PatternsFixed (matching src arms t) = PatternsFixed src × PatternsFixedArms arms
    PatternsFixed (rely p b t) = PatternsFixed p × PatternsFixed b
    PatternsFixed (anno p b t) = PatternsFixed p × PatternsFixed b
    PatternsFixed (branch c a b t) = PatternsFixed c × PatternsFixed a × PatternsFixed b
    PatternsFixed (forall vs b t) = PatternsFixedArgs vs × PatternsFixed b
    PatternsFixed (exists vs b t) = PatternsFixed b
    PatternsFixed _ = Unit

    pub PatternsFixedOp : Op → Type 0
    PatternsFixedOp (node_op n) = PatternsFixed n
    PatternsFixedOp _ = Unit

    pub PatternsFixedNodes : SpecNodes → Type 0
    PatternsFixedNodes nil = Unit
    PatternsFixedNodes (cons n ns) = PatternsFixed n × PatternsFixedNodes ns

    pub PatternsFixedArms : Arms → Type 0
    PatternsFixedArms no_arms = Unit
    PatternsFixedArms (arm p b rest) =
        (rec_apply f p ≡ p) × PatternsFixed b × PatternsFixedArms rest

    pub PatternsFixedArgs : Args → Type 0
    PatternsFixedArgs no_args = Unit
    PatternsFixedArgs (arg x t vs) = PatternsFixedArgs vs
    PatternsFixedArgs (hypothesis x e vs) = PatternsFixed e × PatternsFixedArgs vs

module _ (I : Interpretation) (f : SpecNode → SpecNode) where
  open I use {Value}

  choose :
      {c c' a a' b b' : Value}
      → c ≡ c'
      → a ≡ a'
      → b ≡ b'
      → (if I.holds c then a else b) ≡ (if I.holds c' then a' else b')
  choose p q s = rw (p, q, s)

  abbrev pub Keeps : Type 0
  Keeps = (n : SpecNode) (r : Env I) → eval I (f n) r ≡ eval I n r

  module _ (keeps : Keeps) where
    mutual
      unfolding rec_apply eval

      eval-rec :
          (n : SpecNode) → PatternsFixed f n → (r : Env I) → eval I (rec_apply f n) r ≡ eval I n r
      eval-rec (expr o es t) h r =
          keeps (expr (rec_apply_op f o) (rec_apply_nodes f es) t) r
          ∙ ap (λ vs. eval_op I (rec_apply_op f o) vs r) (eval_nodes-rec es h.1 r)
          ∙ eval_op-rec o h.0 (eval_nodes I es r) r
      eval-rec (matching src arms t) h r =
          keeps (make_match (rec_apply f src) (rec_apply_arms f arms)) r
          ∙ ap (λ v. eval_arms I (rec_apply_arms f arms) v r) (eval-rec src h.0 r)
          ∙ eval_arms-rec arms h.1 (eval I src r) r
      eval-rec (rely p b t) h r =
          keeps (make_rely (rec_apply f p) (rec_apply f b)) r
          ∙ ap₂ I.relies (eval-rec p h.0 r) (eval-rec b h.1 r)
      eval-rec (anno p b t) h r =
          keeps (make_anno (rec_apply f p) (rec_apply f b)) r
          ∙ ap₂ I.annotates (eval-rec p h.0 r) (eval-rec b h.1 r)
      eval-rec (branch c a b t) h r =
          keeps (make_if (rec_apply f c) (rec_apply f a) (rec_apply f b)) r
          ∙ choose (eval-rec c h.0 r) (eval-rec a h.1 r) (eval-rec b h.2 r)
      eval-rec (forall vs b t) h r =
          keeps (make_forall (rec_apply_args f vs) (rec_apply f b)) r
          ∙ quantify-rec true vs h.0 r (λ s. eval I (rec_apply f b) s)
          ∙ ap (λ k. quantify I true vs r k) (fun_ext (λ s. eval-rec b h.1 s))
      eval-rec (exists vs b t) h r =
          keeps (make_exists vs (rec_apply f b)) r
          ∙ ap (λ k. quantify I false vs r k) (fun_ext (λ s. eval-rec b h s))
      eval-rec (symbol x t) h r = keeps (symbol x t) r
      eval-rec (const c t) h r = keeps (const c t) r
      eval-rec (int_const n s) h r = keeps (int_const n s) r
      eval-rec (string_const s) h r = keeps (string_const s) r
      eval-rec (bool_const b) h r = keeps (bool_const b) r

      eval_op-rec :
          (o : Op)
          → PatternsFixedOp f o
          → (vs : List Value) (r : Env I) → eval_op I (rec_apply_op f o) vs r ≡ eval_op I o vs r
      eval_op-rec (node_op n) h vs r = ap (λ g. I.call g vs) (eval-rec n h r)
      eval_op-rec _ h vs r = refl

      eval_nodes-rec :
          (ns : SpecNodes)
          → PatternsFixedNodes f ns
          → (r : Env I) → eval_nodes I (rec_apply_nodes f ns) r ≡ eval_nodes I ns r
      eval_nodes-rec nil h r = refl
      eval_nodes-rec (cons n ns) h r =
          ap₂ (λ a b. a ∷ b) (eval-rec n h.0 r) (eval_nodes-rec ns h.1 r)

      eval_arms-rec :
          (arms : Arms)
          → PatternsFixedArms f arms
          → (v : Value) (r : Env I) → eval_arms I (rec_apply_arms f arms) v r ≡ eval_arms I arms v r
      eval_arms-rec no_arms h v r = refl
      eval_arms-rec (arm p b rest) h v r =
          rw (h.0, fun_ext (λ s. eval-rec b h.1 s), eval_arms-rec rest h.2 v r)

      quantify-rec :
          (q : Bool) (vs : Args)
          → PatternsFixedArgs f vs
          → (r : Env I) (k : Env I → Value)
          → quantify I q (rec_apply_args f vs) r k ≡ quantify I q vs r k
      quantify-rec q no_args h r k = refl
      quantify-rec q (arg x t vs) h r k = rw (fun_ext (λ u. quantify-rec q vs h (update r x u) k))
      quantify-rec q (hypothesis x e vs) h r k = rw (eval-rec e h.0 r, quantify-rec q vs h.1 r k)

abbrev EndsIn : Option (SpecNode × Bool) → SpecNode × Bool → Type 0
EndsIn o p = o ≡ some p

-- Whether run over the whole specification or on its root, a rule whose local function keeps the
-- meaning of every node gives a specification that means the same, in every environment, if it does
-- not throw and leaves the patterns of the arms as they are.
pub eval-run_rule :
    (I : Interpretation) (f : Rewrite) (rec : Bool) (n n' : SpecNode) (changed : Bool) (r : Env I)
    → Keeps I (rewritten f)
    → PatternsFixed (rewritten f) n
    → run_rule f rec n ≡ some (n', changed)
    → eval I n' r ≡ eval I n r
unfolding run_rule
eval-run_rule I f true n n' changed r keeps h e = elim (Bool-cases (rec_throws (rewritten f) n)) [
  | inl t ↦ let q : EndsIn none (n', changed) = rw t at e in cc
  | inr t ↦
      let q : EndsIn (some (rec_apply (rewritten f) n, rec_changed f n)) (n', changed) =
        rw t at e in
      subst (λ m. eval I m r ≡ eval I n r) (cc) (eval-rec I (rewritten f) keeps n h r)
]
eval-run_rule I f false n n' changed r keeps h e =
    subst (λ m. eval I m r ≡ eval I n r) (ap (λ q. q.0) (some-injective (f n) (n', changed) e))
      (keeps n r)
