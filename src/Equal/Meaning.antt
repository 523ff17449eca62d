-- ===== src/Equal/Meaning.antt =====
-- The meaning of nodes that `operator==` of include/nodes.h takes for equal.
use spoq.Base.{
  ℕ, zero, suc, Bool, true, false, ◌&&◌, ◌==◌, nat_eq, List, [], ◌∷◌, ◌≡◌, refl, ap, ap₂, fun_ext,
  eq_iff, nat_eq→eq, bool_eq→eq, and_left, and_right, sym, ◌∙◌,
}
use spoq.Ast.{
  SpecType, Literal, ulong, text, truth, Ops, Binops, SpecNode, symbol, const, int_const,
  string_const, bool_const, expr, matching, rely, anno, branch, forall, exists, Op, node_op, op,
  binop, name, SpecNodes, nil, cons, Arms, no_arms, arm, Args, no_args, arg, hypothesis,
}
use spoq.Equal.Consistent.{
  Consistent, ConsistentOp, ConsistentNodes, ConsistentArms, ConsistentArgs,
}
use spoq.Equal.{
  ops_code, binops_code, ops_eq, binops_eq, literal_eq, node_eq, op_eq, nodes_eq, arms_eq, args_eq,
}
use spoq.Meaning.{
  Interpretation, Env, match_pattern, match_patterns, eval, eval_op, eval_nodes, eval_arms,
  quantify, operator, update, when_test, int_constant, constant, is_constant,
}

abbrev nth {ℓ} : {A : Type ℓ} → A → List A → ℕ → A
nth d [] n = d
nth d (a ∷ as') zero = a
nth d (a ∷ as') (suc n) = nth d as' n

abbrev all_ops : List Ops
all_ops =
    Ops.neg ∷ Ops.set ∷ Ops.get ∷ Ops.nth ∷ Ops.not_op ∷ Ops.bnot ∷ Ops.record_set ∷ Ops.record_get
    ∷ Ops.tuple_op ∷ Ops.some_op ∷ Ops.none_op ∷ []

abbrev all_binops : List Binops
all_binops =
    Binops.mult ∷ Binops.div ∷ Binops.mod_op ∷ Binops.add ∷ Binops.minus ∷ Binops.bitand
    ∷ Binops.bitor ∷ Binops.beq ∷ Binops.bne ∷ Binops.bgt ∷ Binops.bge ∷ Binops.blt ∷ Binops.ble
    ∷ Binops.band ∷ Binops.bor ∷ Binops.lshift ∷ Binops.rshift ∷ Binops.seq ∷ Binops.sne
    ∷ Binops.list_eq ∷ Binops.append ∷ Binops.concat ∷ Binops.equal ∷ Binops.not_equal ∷ Binops.lt
    ∷ Binops.lte ∷ Binops.gt ∷ Binops.gte ∷ Binops.ifonlyif ∷ Binops.or_op ∷ Binops.and_op
    ∷ Binops.implies ∷ []

nth-ops_code : (a : Ops) → nth Ops.neg all_ops (ops_code a) ≡ a
nth-ops_code Ops.neg = refl
nth-ops_code _ = refl

nth-binops_code : (a : Binops) → nth Binops.mult all_binops (binops_code a) ≡ a
nth-binops_code Binops.mult = refl
nth-binops_code _ = refl

ops_eq→eq : (a b : Ops) → ops_eq a b ≡ true → a ≡ b
ops_eq→eq a b h = sym (nth-ops_code a) ∙ ap (nth Ops.neg all_ops) (nat_eq→eq _ _ h) ∙ nth-ops_code b

binops_eq→eq : (a b : Binops) → binops_eq a b ≡ true → a ≡ b
binops_eq→eq a b h =
    sym (nth-binops_code a) ∙ ap (nth Binops.mult all_binops) (nat_eq→eq _ _ h) ∙ nth-binops_code b

literal_eq→eq : (a b : Literal) → literal_eq a b ≡ true → a ≡ b
literal_eq→eq (ulong a) (ulong b) h = ap ulong (nat_eq→eq a b h)
literal_eq→eq (text a) (text b) h = ap text ((eq_iff a b).0 h)
literal_eq→eq (truth a) (truth b) h = ap truth (bool_eq→eq a b h)
literal_eq→eq _ _ h = cc

module _ (I : Interpretation) (same_type : SpecType → SpecType → Bool)
    (same_type_eq : (t u : SpecType) → same_type t u ≡ true → t ≡ u) (sign_of : ℕ → Bool) where
  open I use {Value}

  operator-op_eq : (o o' : Op) → op_eq same_type o o' ≡ true → operator o ≡ operator o'
  unfolding node_eq
  operator-op_eq (node_op m) (node_op n) h = refl
  operator-op_eq (op a) (op b) h = rw (ops_eq→eq a b h)
  operator-op_eq (binop a) (binop b) h = rw (binops_eq→eq a b h)
  operator-op_eq (name a) (name b) h = rw ((eq_iff a b).0 h)
  operator-op_eq _ _ h = cc

  same_constant :
      (m n : ℕ) (s s' : Bool)
      → s ≡ sign_of m
      → s' ≡ sign_of n
      → nat_eq m n ≡ true
      → int_constant m s ≡ int_constant n s'
  same_constant m n s s' a k h =
      let p = nat_eq→eq m n h in ap₂ int_constant p (a ∙ ap sign_of p ∙ sym k)

  mutual
    unfolding node_eq match_pattern

    match_pattern-node_eq :
        (p q : SpecNode)
        → Consistent sign_of p
        → Consistent sign_of q
        → node_eq same_type p q ≡ true
        → (v : Value) (r : Env I) → match_pattern I p v r ≡ match_pattern I q v r
    match_pattern-node_eq (symbol x t) (symbol y u) a k h v r = rw ((eq_iff x y).0 h)
    match_pattern-node_eq (const c t) (const d u) a k h v r = rw (literal_eq→eq c d h)
    match_pattern-node_eq (int_const m s) (int_const n s') a k h v r =
        ap (λ c. when_test I (is_constant I c v) r) (same_constant m n s s' a k h)
    match_pattern-node_eq (string_const x) (string_const y) a k h v r = rw ((eq_iff x y).0 h)
    match_pattern-node_eq (bool_const x) (bool_const y) a k h v r = rw (bool_eq→eq x y h)
    match_pattern-node_eq (expr o es t) (expr o' es' t') a k h v r = rw (
      operator-op_eq o o' (and_left _ _ h),
      fun_ext (λ vs. match_patterns-nodes_eq es es' a.1 k.1 (and_right _ _ h) vs r),
    )
    match_pattern-node_eq (matching s ps t) (matching s' qs t') a k h v r = refl
    match_pattern-node_eq (rely p b t) (rely p' b' t') a k h v r = refl
    match_pattern-node_eq (anno p b t) (anno p' b' t') a k h v r = refl
    match_pattern-node_eq (branch c x y t) (branch c' x' y' t') a k h v r = refl
    match_pattern-node_eq (forall vs b t) (forall vs' b' t') a k h v r = refl
    match_pattern-node_eq (exists vs b t) (exists vs' b' t') a k h v r = refl
    match_pattern-node_eq _ _ a k h v r = cc

    match_patterns-nodes_eq :
        (ps qs : SpecNodes)
        → ConsistentNodes sign_of ps
        → ConsistentNodes sign_of qs
        → nodes_eq same_type ps qs ≡ true
        → (vs : List Value) (r : Env I) → match_patterns I ps vs r ≡ match_patterns I qs vs r
    match_patterns-nodes_eq nil nil a k h vs r = refl
    match_patterns-nodes_eq (cons p ps) (cons q qs) a k h [] r = refl
    match_patterns-nodes_eq (cons p ps) (cons q qs) a k h (v ∷ vs) r = rw (
      match_pattern-node_eq p q a.0 k.0 (and_left _ _ h) v r,
      fun_ext (λ s. match_patterns-nodes_eq ps qs a.1 k.1 (and_right _ _ h) vs s),
    )
    match_patterns-nodes_eq _ _ a k h vs r = cc

  mutual
    unfolding node_eq eval

    eval-eq :
        (m n : SpecNode)
        → Consistent sign_of m
        → Consistent sign_of n
        → node_eq same_type m n ≡ true
        → (r : Env I) → eval I m r ≡ eval I n r
    eval-eq (symbol x t) (symbol y u) a k h r = rw ((eq_iff x y).0 h)
    eval-eq (const c t) (const d u) a k h r = rw (literal_eq→eq c d h)
    eval-eq (int_const m s) (int_const n s') a k h r =
        ap (constant I) (same_constant m n s s' a k h)
    eval-eq (string_const x) (string_const y) a k h r = rw ((eq_iff x y).0 h)
    eval-eq (bool_const x) (bool_const y) a k h r = rw (bool_eq→eq x y h)
    eval-eq (expr o es t) (expr o' es' t') a k h r =
        rw
          (eval_nodes-eq es es' a.1 k.1
            (and_right (op_eq same_type o o') (nodes_eq same_type es es') h) r)
          (eval_op-eq o o' a.0 k.0 (and_left _ _ h) (eval_nodes I es' r) r)
    eval-eq (matching s ps t) (matching s' qs t') a k h r =
        rw (eval-eq s s' a.0 k.0 (and_left (node_eq same_type s s') (arms_eq same_type ps qs) h) r)
          (eval_arms-eq ps qs a.1 k.1 (and_right _ _ h) (eval I s' r) r)
    eval-eq (rely p b t) (rely p' b' t') a k h r =
        ap₂ I.relies (eval-eq p p' a.0 k.0 (and_left _ _ h) r)
          (eval-eq b b' a.1 k.1 (and_right _ _ h) r)
    eval-eq (anno p b t) (anno p' b' t') a k h r =
        ap₂ I.annotates (eval-eq p p' a.0 k.0 (and_left _ _ h) r)
          (eval-eq b b' a.1 k.1 (and_right _ _ h) r)
    eval-eq (branch c x y t) (branch c' x' y' t') a k h r =
        let e = node_eq same_type x x' in
        let f = node_eq same_type y y' in
        let g = and_right (node_eq same_type c c') (e && f) h in
        rw (
          eval-eq c c' a.0 k.0 (and_left (node_eq same_type c c') (e && f) h) r,
          eval-eq x x' a.1 k.1 (and_left e f g) r,
          eval-eq y y' a.2 k.2 (and_right e f g) r,
        )
    eval-eq (forall vs b t) (forall vs' b' t') a k h r =
        rw
          (fun_ext (λ s.
            eval-eq b b' a.1 k.1 (and_right (args_eq same_type vs vs') (node_eq same_type b b') h)
              s))
          (quantify-eq true vs vs' a.0 k.0 (and_left _ _ h) r (λ s. eval I b' s))
    eval-eq (exists vs b t) (exists vs' b' t') a k h r =
        rw
          (fun_ext (λ s.
            eval-eq b b' a.1 k.1 (and_right (args_eq same_type vs vs') (node_eq same_type b b') h)
              s))
          (quantify-eq false vs vs' a.0 k.0 (and_left _ _ h) r (λ s. eval I b' s))
    eval-eq _ _ a k h r = cc

    eval_op-eq :
        (o o' : Op)
        → ConsistentOp sign_of o
        → ConsistentOp sign_of o'
        → op_eq same_type o o' ≡ true
        → (vs : List Value) (r : Env I) → eval_op I o vs r ≡ eval_op I o' vs r
    eval_op-eq (node_op m) (node_op n) a k h vs r = ap (λ f. I.call f vs) (eval-eq m n a k h r)
    eval_op-eq (op x) (op y) a k h vs r = rw (ops_eq→eq x y h)
    eval_op-eq (binop x) (binop y) a k h vs r = rw (binops_eq→eq x y h)
    eval_op-eq (name x) (name y) a k h vs r = rw ((eq_iff x y).0 h)
    eval_op-eq _ _ a k h vs r = cc

    eval_nodes-eq :
        (ms ns : SpecNodes)
        → ConsistentNodes sign_of ms
        → ConsistentNodes sign_of ns
        → nodes_eq same_type ms ns ≡ true
        → (r : Env I) → eval_nodes I ms r ≡ eval_nodes I ns r
    eval_nodes-eq nil nil a k h r = refl
    eval_nodes-eq (cons m ms) (cons n ns) a k h r =
        ap₂ (λ x y. x ∷ y) (eval-eq m n a.0 k.0 (and_left _ _ h) r)
          (eval_nodes-eq ms ns a.1 k.1 (and_right _ _ h) r)
    eval_nodes-eq _ _ a k h r = cc

    eval_arms-eq :
        (ps qs : Arms)
        → ConsistentArms sign_of ps
        → ConsistentArms sign_of qs
        → arms_eq same_type ps qs ≡ true
        → (v : Value) (r : Env I) → eval_arms I ps v r ≡ eval_arms I qs v r
    eval_arms-eq no_arms no_arms a k h v r = refl
    eval_arms-eq (arm p b ps) (arm q c qs) a k h v r =
        let d = node_eq same_type p q in
        let e = node_eq same_type b c in
        let f = arms_eq same_type ps qs in
        let g = and_left (d && e) f h in
        rw (
          match_pattern-node_eq p q a.0 k.0 (and_left d e g) v r,
          fun_ext (λ s. eval-eq b c a.1 k.1 (and_right d e g) s),
          eval_arms-eq ps qs a.2 k.2 (and_right (d && e) f h) v r,
        )
    eval_arms-eq _ _ a k h v r = cc

    quantify-eq :
        (q : Bool) (vs ws : Args)
        → ConsistentArgs sign_of vs
        → ConsistentArgs sign_of ws
        → args_eq same_type vs ws ≡ true
        → (r : Env I) (k : Env I → Value) → quantify I q vs r k ≡ quantify I q ws r k
    quantify-eq q no_args no_args a k h r f = refl
    quantify-eq q (arg x t vs) (arg y u ws) a k h r f =
        let e = args_eq same_type vs ws in
        let g = and_left (x == y && same_type t u) e h in
        rw (
          (eq_iff x y).0 (and_left (x == y) (same_type t u) g),
          same_type_eq t u (and_right (x == y) (same_type t u) g),
          fun_ext (λ w.
              quantify-eq q vs ws a k (and_right (x == y && same_type t u) e h) (update r y w) f),
        )
    quantify-eq q (hypothesis x e vs) (hypothesis y d ws) a k h r f = absurd a
    quantify-eq _ _ _ a k h r f = cc

  -- Two nodes that compare equal mean the same in every interpretation and environment, where no
  -- quantifier has a hypothesis, no word occurs with two signs, and the comparison of types is sound.
  pub eval-node_eq :
      (m n : SpecNode) (r : Env I)
      → Consistent sign_of m
      → Consistent sign_of n
      → node_eq same_type m n ≡ true
      → eval I m r ≡ eval I n r
  eval-node_eq m n r a k h = eval-eq m n a k h r
