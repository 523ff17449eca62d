-- ===== src/Scope/Meaning.antt =====
-- `contains_vars` of src/optimizations/rules.cpp, and what a specification reads.
use spoq.Base.{
  String, Bool, true, false, not, ◌||◌, ◌==◌, List, [], ◌∷◌, ◌≡◌, refl, ap, ap₂, fun_ext,
  if◌then◌else◌, ◌⊎◌, inl, inr, Bool-cases, member, or_left, or_right, eq_iff,
}
use spoq.Ast.{
  text, truth, SpecNode, symbol, const, int_const, string_const, bool_const, expr, matching, rely,
  anno, branch, forall, exists, Op, node_op, op, binop, name, SpecNodes, nil, cons, Arms, no_arms,
  arm, Args, no_args, arg, hypothesis, is_unknown,
}
use spoq.Meaning.Hypotheses.{
  NoHypotheses, NoHypothesesOp, NoHypothesesNodes, NoHypothesesArms, NoHypothesesArgs,
}
use spoq.Meaning.{
  int_constant, is_constant, Interpretation, Env, Operator, match_pattern, match_patterns, eval,
  eval_op, eval_nodes, eval_arms, quantify, update,
}
use spoq.Meaning.Envs.{
  Agree, Related, Related-and_then, Related-and_then_same, Related-when_test, Related-or_else,
  Agree-update,
}
use spoq.Scope.{
  difference, get_vars_from_pattern, get_vars_from_patterns, contains_vars, contains_vars_op,
  contains_vars_nodes, contains_vars_arms,
}

-- Outside `vars`, or bound.
abbrev Known : List String → List String → String → Type 0
Known vars bound y = (member y vars ≡ false) ⊎ (member y bound ≡ true)

member-difference :
    (y : String) (vars bound : List String)
    → member y (difference vars bound) ≡ false
    → Known vars bound y
member-difference y [] bound h = inl refl
member-difference y (x ∷ vars) bound h = elim (Bool-cases (member x bound)) [
  | inl e ↦ widen (member-difference y vars bound (rw e at h)) e
  | inr e ↦
      let g : (y == x || member y (difference vars bound)) ≡ false = rw e at h in
      elim (member-difference y vars bound
        (or_right (y == x) (member y (difference vars bound)) g)) [
          | inl m ↦ inl (cc (or_left (y == x) (member y (difference vars bound)) g, m))
          | inr m ↦ inr m
        ]
]
  where
    widen : Known vars bound y → member x bound ≡ true → Known (x ∷ vars) bound y
    widen (inr m) e = inr m
    widen (inl m) e = elim (Bool-cases (y == x)) [
      | inl q ↦ inr (cc ((eq_iff y x).0 q, e))
      | inr q ↦ inl (cc (q, m))
    ]

module _ (I : Interpretation) (vars : List String) where
  open I use {Value}

  bind :
      (b : Bool) (x : String) (v : Value) (bound : List String) (r r' : Env I)
      → Agree I (Known vars bound) r r'
      → Agree I (Known vars (if b then x ∷ bound else bound)) (update r x v) (update r' x v)
  bind b x v bound r r' h y k = elim (Bool-cases (y == x)) [
    | inl e ↦ rw e
    | inr e ↦ rw e (h y (narrow b e k))
  ]
    where
      narrow :
          (b : Bool)
          → (y == x) ≡ false
          → Known vars (if b then x ∷ bound else bound) y
          → Known vars bound y
      narrow true e (inl m) = inl m
      narrow true e (inr m) = inr (cc (e, m))
      narrow false e m = m

  mutual
    unfolding match_pattern get_vars_from_pattern

    match_pattern-Known :
        (p : SpecNode) (v : Value) (bound : List String) (r r' : Env I)
        → Agree I (Known vars bound) r r'
        → Related I
            (Known vars (get_vars_from_pattern I.known p bound))
            (match_pattern I p v r)
            (match_pattern I p v r')
    match_pattern-Known (symbol x t) v bound r r' h = elim (Bool-cases (I.known x)) [
      | inl e ↦ rw e (Related-when_test I (Known vars bound) (I.is_global x v) r r' h)
      | inr e ↦ rw e (bind (not (is_unknown t)) x v bound r r' h)
    ]
    match_pattern-Known (const c t) v bound r r' h =
        Related-when_test I (Known vars bound) (I.is_literal c v) r r' h
    match_pattern-Known (int_const n s) v bound r r' h =
        Related-when_test I (Known vars bound) (is_constant I (int_constant n s) v) r r' h
    match_pattern-Known (string_const s) v bound r r' h =
        Related-when_test I (Known vars bound) (I.is_literal (text s) v) r r' h
    match_pattern-Known (bool_const b) v bound r r' h =
        Related-when_test I (Known vars bound) (I.is_literal (truth b) v) r r' h
    match_pattern-Known (expr (node_op n) es t) v bound r r' h = tt
    match_pattern-Known (expr (op o) es t) v bound r r' h =
        Related-and_then_same I _ (I.destruct (Operator.ops o) v) _ _
          λ vs. match_patterns-Known es vs bound r r' h
    match_pattern-Known (expr (binop o) es t) v bound r r' h =
        Related-and_then_same I _ (I.destruct (Operator.binops o) v) _ _
          λ vs. match_patterns-Known es vs bound r r' h
    match_pattern-Known (expr (name s) es t) v bound r r' h =
        Related-and_then_same I _ (I.destruct (Operator.named s) v) _ _
          λ vs. match_patterns-Known es vs bound r r' h
    match_pattern-Known (matching s ps t) v bound r r' h = tt
    match_pattern-Known (rely p b t) v bound r r' h = tt
    match_pattern-Known (anno p b t) v bound r r' h = tt
    match_pattern-Known (branch c a b t) v bound r r' h = tt
    match_pattern-Known (forall vs b t) v bound r r' h = tt
    match_pattern-Known (exists vs b t) v bound r r' h = tt

    match_patterns-Known :
        (ps : SpecNodes) (vs : List Value) (bound : List String) (r r' : Env I)
        → Agree I (Known vars bound) r r'
        → Related I
            (Known vars (get_vars_from_patterns I.known ps bound))
            (match_patterns I ps vs r)
            (match_patterns I ps vs r')
    match_patterns-Known nil [] bound r r' h = h
    match_patterns-Known nil (v ∷ vs) bound r r' h = tt
    match_patterns-Known (cons p ps) [] bound r r' h = tt
    match_patterns-Known (cons p ps) (v ∷ vs) bound r r' h =
        Related-and_then I (Known vars (get_vars_from_pattern I.known p bound)) _ _ _ _ _
          (match_pattern-Known p v bound r r' h)
          λ s s' k. match_patterns-Known ps vs (get_vars_from_pattern I.known p bound) s s' k

module _ (I : Interpretation) where
  open I use {Value}

  abbrev Apart : List String → Env I → Env I → Type 0
  Apart vars r r' = Agree I (λ y. member y vars ≡ false) r r'

  match_pattern-Apart :
      (p : SpecNode) (v : Value) (vars : List String) (r r' : Env I)
      → Apart vars r r'
      → Related I
          (Known vars (get_vars_from_pattern I.known p []))
          (match_pattern I p v r)
          (match_pattern I p v r')
  match_pattern-Apart p v vars r r' h = match_pattern-Known I vars p v [] r r' (λ y. go y)
    where
      go : (y : String) → Known vars [] y → r y ≡ r' y
      go y (inl m) = h y m
      go y (inr m) = cc

  mutual
    unfolding eval contains_vars

    eval-Apart :
        (n : SpecNode) (vars : List String)
        → NoHypotheses n
        → contains_vars I.known n vars ≡ false
        → (r r' : Env I) → Apart vars r r'
        → eval I n r ≡ eval I n r'
    eval-Apart (symbol x t) vars a c r r' h = ap (λ u. if I.known x then I.global x else u) (h x c)
    eval-Apart (expr o es t) vars a c r r' h =
        rw
          (eval_nodes-Apart es vars a.1 (or_right _ (contains_vars_nodes I.known es vars) c) r r' h)
          (eval_op-Apart o vars a.0 (or_left (contains_vars_op I.known o vars) _ c)
            (eval_nodes I es r') r r' h)
    eval-Apart (matching src arms t) vars a c r r' h =
        rw (eval-Apart src vars a.0 (or_left (contains_vars I.known src vars) _ c) r r' h) (
          eval_arms-Apart arms vars a.1 (or_right (contains_vars I.known src vars) _ c)
            (eval I src r') r r' h)
    eval-Apart (rely p b t) vars a c r r' h =
        ap₂ I.relies (eval-Apart p vars a.0 (or_left (contains_vars I.known p vars) _ c) r r' h)
          (eval-Apart b vars a.1 (or_right (contains_vars I.known p vars) _ c) r r' h)
    eval-Apart (anno p b t) vars a c r r' h =
        ap₂ I.annotates (eval-Apart p vars a.0 (or_left (contains_vars I.known p vars) _ c) r r' h)
          (eval-Apart b vars a.1 (or_right (contains_vars I.known p vars) _ c) r r' h)
    eval-Apart (branch q m n t) vars a c r r' h =
        let d = or_right (contains_vars I.known q vars) _ c in
        rw (
          eval-Apart q vars a.0 (or_left (contains_vars I.known q vars) _ c) r r' h,
          eval-Apart m vars a.1 (or_left (contains_vars I.known m vars) _ d) r r' h,
          eval-Apart n vars a.2 (or_right (contains_vars I.known m vars) _ d) r r' h,
        )
    eval-Apart (forall vs b t) vars a c r r' h =
        quantify-Apart true vs vars a.0 r r' h (λ s. eval I b s)
          (λ s s' k. eval-Apart b vars a.1 c s s' k)
    eval-Apart (exists vs b t) vars a c r r' h =
        quantify-Apart false vs vars a.0 r r' h (λ s. eval I b s)
          (λ s s' k. eval-Apart b vars a.1 c s s' k)
    eval-Apart (const d t) vars a c r r' h = refl
    eval-Apart (int_const n s) vars a c r r' h = refl
    eval-Apart (string_const s) vars a c r r' h = refl
    eval-Apart (bool_const b) vars a c r r' h = refl

    eval_op-Apart :
        (o : Op) (vars : List String)
        → NoHypothesesOp o
        → contains_vars_op I.known o vars ≡ false
        → (us : List Value) (r r' : Env I) → Apart vars r r'
        → eval_op I o us r ≡ eval_op I o us r'
    eval_op-Apart (node_op n) vars a c us r r' h =
        ap (λ f. I.call f us) (eval-Apart n vars a c r r' h)
    eval_op-Apart _ vars a c us r r' h = refl

    eval_nodes-Apart :
        (ns : SpecNodes) (vars : List String)
        → NoHypothesesNodes ns
        → contains_vars_nodes I.known ns vars ≡ false
        → (r r' : Env I) → Apart vars r r'
        → eval_nodes I ns r ≡ eval_nodes I ns r'
    eval_nodes-Apart nil vars a c r r' h = refl
    eval_nodes-Apart (cons n ns) vars a c r r' h =
        ap₂ (λ u us. u ∷ us)
          (eval-Apart n vars a.0 (or_left (contains_vars I.known n vars) _ c) r r' h)
          (eval_nodes-Apart ns vars a.1 (or_right (contains_vars I.known n vars) _ c) r r' h)

    eval_arms-Apart :
        (arms : Arms) (vars : List String)
        → NoHypothesesArms arms
        → contains_vars_arms I.known arms vars ≡ false
        → (v : Value) (r r' : Env I) → Apart vars r r'
        → eval_arms I arms v r ≡ eval_arms I arms v r'
    eval_arms-Apart no_arms vars a c v r r' h = refl
    eval_arms-Apart (arm p b rest) vars a c v r r' h =
        let bound = get_vars_from_pattern I.known p [] in
        let inside = difference vars bound in
        Related-or_else I (match_pattern I p v r) (match_pattern I p v r') (λ s. eval I b s)
          (λ s. eval I b s) (eval_arms I rest v r) (eval_arms I rest v r')
          (match_pattern-Apart p v vars r r' h)
          (λ s s' k.
            eval-Apart b inside a.0 (or_left (contains_vars I.known b inside) _ c) s s'
              (λ y m. k y (member-difference y vars bound m)))
          (eval_arms-Apart rest vars a.1 (or_right (contains_vars I.known b inside) _ c) v r r' h)

    quantify-Apart :
        (q : Bool) (vs : Args) (vars : List String)
        → NoHypothesesArgs vs
        → (r r' : Env I) → Apart vars r r'
        → (k : Env I → Value) → ((s s' : Env I) → Apart vars s s' → k s ≡ k s')
        → quantify I q vs r k ≡ quantify I q vs r' k
    quantify-Apart q no_args vars a r r' h k e = e r r' h
    quantify-Apart q (arg x t vs) vars a r r' h k e = ap ((if q then I.for_all else I.there_is) t) (
        fun_ext λ u.
          quantify-Apart q vs vars a (update r x u) (update r' x u)
            (Agree-update I (λ y. member y vars ≡ false) x u r r' h) k e)
    quantify-Apart q (hypothesis x d vs) vars a r r' h k e = absurd a

  -- A specification that does not contain the names of a set means the same in two environments that
  -- differ on those names only, where no quantifier has a hypothesis.
  pub eval-contains_vars :
      (n : SpecNode) (vars : List String) (r r' : Env I)
      → NoHypotheses n
      → contains_vars I.known n vars ≡ false
      → ((y : String) → member y vars ≡ false → r y ≡ r' y)
      → eval I n r ≡ eval I n r'
  eval-contains_vars n vars r r' a c h = eval-Apart n vars a c r r' h
