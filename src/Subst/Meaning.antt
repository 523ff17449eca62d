-- ===== src/Subst/Meaning.antt =====
-- The meaning of what `subst` of src/optimizations/rules.cpp makes of a specification.
use spoq.Base.{
  String, Bool, true, false, ◌==◌, Option, none, some, List, ◌∷◌, ◌≡◌, refl, sym, ap, ap₂, fun_ext,
  if◌then◌else◌, eq_iff, eq_refl, Bool-cases, inl, inr, arith, ◌∙◌, map_option, or_else,
}
use spoq.Ast.{
  SpecType, SpecNode, symbol, expr, matching, rely, anno, branch, forall, exists, Op, node_op,
  SpecNodes, nil, cons, Arms, no_arms, arm, Args, no_args, arg, hypothesis,
}
use spoq.Copy.{deep_copy}
use spoq.Copy.Meaning.{CopySafe, eval-deep_copy, match_pattern-deep_copy}
use spoq.Scope.{exists_in_pattern}
use spoq.Meaning.{
  Interpretation, Env, match_pattern, eval, eval_op, eval_nodes, eval_arms, quantify, update,
}
use spoq.Meaning.Envs.{
  Agree, Related, Related-or_else, Related-either, FrameAt, match_pattern-keeps,
  match_pattern-frame, match_pattern-binds,
}
use spoq.Meaning.Reads.{Within, eval-Agree}
use spoq.Subst.{set_symbol_type, subst, subst_op, subst_nodes, subst_arms, subst_args}

-- No name that an arm binds is a symbol of the value, unless the arm binds the name substituted
-- for; an arm that does is copied, so its body is safe to copy. No argument of a quantifier is the
-- name or a symbol of the value.
module _ (x : String) (value : SpecNode) where
  abbrev pub NoCaptureArm : Bool → SpecNode → SpecNode → Type 0 → Type 0
  NoCaptureArm true p b ok = CopySafe b
  NoCaptureArm false p b ok = Within (λ y. exists_in_pattern y p ≡ false) value × ok

  abbrev mutual
    pub NoCapture : SpecNode → Type 0
    NoCapture (expr o es t) = NoCaptureOp o × NoCaptureNodes es
    NoCapture (matching src arms t) = NoCapture src × NoCaptureArms arms
    NoCapture (rely p b t) = NoCapture p × NoCapture b
    NoCapture (anno p b t) = NoCapture p × NoCapture b
    NoCapture (branch c a b t) = NoCapture c × NoCapture a × NoCapture b
    NoCapture (forall vs b t) = NoCaptureArgs vs × NoCapture b
    NoCapture (exists vs b t) = NoCaptureArgs vs × NoCapture b
    NoCapture _ = Unit

    pub NoCaptureOp : Op → Type 0
    NoCaptureOp (node_op n) = NoCapture n
    NoCaptureOp _ = Unit

    pub NoCaptureNodes : SpecNodes → Type 0
    NoCaptureNodes nil = Unit
    NoCaptureNodes (cons n ns) = NoCapture n × NoCaptureNodes ns

    pub NoCaptureArms : Arms → Type 0
    NoCaptureArms no_arms = Unit
    NoCaptureArms (arm p b rest) =
        NoCaptureArm (exists_in_pattern x p) p b (NoCapture b) × NoCaptureArms rest

    pub NoCaptureArgs : Args → Type 0
    NoCaptureArgs no_args = Unit
    NoCaptureArgs (arg y t vs) =
        ((y == x) ≡ false) × Within (λ z. (z == y) ≡ false) value × NoCaptureArgs vs
    NoCaptureArgs (hypothesis y e vs) = NoCapture e × NoCaptureArgs vs

-- The environments on the two sides of a substitution of `value`, worth `w`, for `x`.
module _ (I : Interpretation) (x : String) (value : SpecNode) (w : I.Value) where
  open I use {Value}

  abbrev Sides : Env I → Env I → Type 0
  Sides r r' = Agree I (λ y. (y == x) ≡ false) r r' × (r' x ≡ w) × (eval I value r ≡ w)

  abbrev ValueIs : Option (Env I) → Type 0
  ValueIs none = Unit
  ValueIs (some s) = eval I value s ≡ w

  ValueIs-match :
      (p : SpecNode) (r : Env I) (o : Option (Env I))
      → Within (λ y. exists_in_pattern y p ≡ false) value
      → ((y : String) → exists_in_pattern y p ≡ false → FrameAt I y r o)
      → eval I value r ≡ w
      → ValueIs o
  ValueIs-match p r none h f e = tt
  ValueIs-match p r (some s) h f e =
      eval-Agree I (λ y. exists_in_pattern y p ≡ false) value h s r f ∙ e

  Sides-arm :
      (o o' : Option (Env I)) (r' : Env I) (f f' : Env I → Value) (d d' : Value)
      → Related I (λ y. (y == x) ≡ false) o o'
      → FrameAt I x r' o'
      → ValueIs o
      → r' x ≡ w
      → ((s s' : Env I) → Sides s s' → f s ≡ f' s')
      → d ≡ d'
      → or_else (map_option f o) d ≡ or_else (map_option f' o') d'
  Sides-arm none none r' f f' d d' h g v a k e = e
  Sides-arm (some s) (some s') r' f f' d d' h g v a k e = k s s' (h, g ∙ a, v)
  Sides-arm none (some s') r' f f' d d' h g v a k e = absurd h
  Sides-arm (some s) none r' f f' d d' h g v a k e = absurd h

  Related-shadowed :
      (o o' : Option (Env I)) (f f' : Env I → Value) (d d' : Value)
      → Related I (λ y. Unit {0}) o o'
      → ((s : Env I) → f s ≡ f' s)
      → d ≡ d'
      → or_else (map_option f o) d ≡ or_else (map_option f' o') d'
  Related-shadowed o o' f f' d d' h k e =
      Related-or_else I o o' f f' d d' h
        (λ s s' a. let q : s ≡ s' = fun_ext (λ y. a y tt) in k s ∙ ap f' q) e

  eval-set_symbol_type :
      (n : SpecNode) (t : SpecType) (r : Env I) → eval I (set_symbol_type n t) r ≡ eval I n r
  unfolding eval
  eval-set_symbol_type (symbol y u) t r = refl
  eval-set_symbol_type _ t r = refl

  Sides-update :
      (y : String) (u : Value) (r r' : Env I)
      → (y == x) ≡ false
      → Within (λ z. (z == y) ≡ false) value
      → Sides r r'
      → Sides (update r y u) (update r' y u)
  Sides-update y u r r' f h s = (
    λ z m. elim (Bool-cases (z == y)) [ inl e ↦ rw e | inr e ↦ rw e (s.0 z m) ],
    ground (arith, eq_iff x y, eq_iff y x, s.1),
    eval-Agree I (λ z. (z == y) ≡ false) value h (update r y u) r (λ z m. rw m) ∙ s.2,
  )

  module _ (unknown_x : I.known x ≡ false) (safe : CopySafe value) where
    mutual
      unfolding subst eval

      eval-Sides :
          (n : SpecNode)
          → NoCapture x value n
          → (r r' : Env I) → Sides r r'
          → eval I (subst x value n) r ≡ eval I n r'
      eval-Sides (symbol y t) c r r' s = elim (Bool-cases (y == x)) [
        | inl e ↦
            let q = (eq_iff y x).0 e in
            rw (e, q, unknown_x)
              (eval-set_symbol_type (deep_copy value) t r
                ∙ eval-deep_copy I value r safe
                ∙ s.2
                ∙ sym s.1)
        | inr e ↦ rw e (ap (λ u. if I.known y then I.global y else u) (s.0 y e))
      ]
      eval-Sides (expr o es t) c r r' s =
          rw (eval_nodes-Sides es c.1 r r' s) (eval_op-Sides o c.0 (eval_nodes I es r') r r' s)
      eval-Sides (matching src arms t) c r r' s =
          rw (eval-Sides src c.0 r r' s) (eval_arms-Sides arms c.1 (eval I src r') r r' s)
      eval-Sides (rely p b t) c r r' s =
          ap₂ I.relies (eval-Sides p c.0 r r' s) (eval-Sides b c.1 r r' s)
      eval-Sides (anno p b t) c r r' s =
          ap₂ I.annotates (eval-Sides p c.0 r r' s) (eval-Sides b c.1 r r' s)
      eval-Sides (branch q a b t) c r r' s =
          rw (eval-Sides q c.0 r r' s, eval-Sides a c.1 r r' s, eval-Sides b c.2 r r' s)
      eval-Sides (forall vs b t) c r r' s =
          quantify-Sides true vs c.0 r r' s (λ z. eval I (subst x value b) z) (λ z. eval I b z)
            (λ z z' k. eval-Sides b c.1 z z' k)
      eval-Sides (exists vs b t) c r r' s =
          quantify-Sides false vs c.0 r r' s (λ z. eval I (subst x value b) z) (λ z. eval I b z)
            (λ z z' k. eval-Sides b c.1 z z' k)
      eval-Sides _ c r r' s = refl

      eval_op-Sides :
          (o : Op)
          → NoCaptureOp x value o
          → (vs : List Value) (r r' : Env I) → Sides r r'
          → eval_op I (subst_op x value o) vs r ≡ eval_op I o vs r'
      eval_op-Sides (node_op n) c vs r r' s = ap (λ f. I.call f vs) (eval-Sides n c r r' s)
      eval_op-Sides _ c vs r r' s = refl

      eval_nodes-Sides :
          (ns : SpecNodes)
          → NoCaptureNodes x value ns
          → (r r' : Env I) → Sides r r'
          → eval_nodes I (subst_nodes x value ns) r ≡ eval_nodes I ns r'
      eval_nodes-Sides nil c r r' s = refl
      eval_nodes-Sides (cons n ns) c r r' s =
          ap₂ (λ a b. a ∷ b) (eval-Sides n c.0 r r' s) (eval_nodes-Sides ns c.1 r r' s)

      eval_arms-Sides :
          (arms : Arms)
          → NoCaptureArms x value arms
          → (v : Value) (r r' : Env I) → Sides r r'
          → eval_arms I (subst_arms x value arms) v r ≡ eval_arms I arms v r'
      eval_arms-Sides no_arms c v r r' s = refl
      eval_arms-Sides (arm p b rest) c v r r' s =
          rw (match_pattern-deep_copy I p v r) (elim (Bool-cases (exists_in_pattern x p)) [
            | inl e ↦ rw e (
                Related-shadowed (match_pattern I p v r) (match_pattern I p v r') _ _ _ _
                  (Related-either I (match_pattern I p v r) (match_pattern I p v r')
                    (match_pattern-keeps I (λ y. (y == x) ≡ false) p v r r' s.0)
                    (match_pattern-binds I x unknown_x p v r r' e)
                    (λ y m. elim (Bool-cases (y == x)) [
                      | inl q ↦ inr ((eq_iff y x).0 q)
                      | inr q ↦ inl q
                    ]))
                  (λ z. eval-deep_copy I b z (rw e at c.0)) (eval_arms-Sides rest c.1 v r r' s))
            | inr e ↦
                let c' : NoCaptureArm x value false p b (NoCapture x value b) = rw e at c.0 in
                rw e (
                  Sides-arm (match_pattern I p v r) (match_pattern I p v r') r' _ _ _ _
                    (match_pattern-keeps I (λ y. (y == x) ≡ false) p v r r' s.0)
                    (match_pattern-frame I x p v r' e)
                    (ValueIs-match p r (match_pattern I p v r) c'.0
                      (λ y m. match_pattern-frame I y p v r m) s.2)
                    s.1 (λ z z' k. eval-Sides b c'.1 z z' k) (eval_arms-Sides rest c.1 v r r' s))
          ])

      quantify-Sides :
          (q : Bool) (vs : Args)
          → NoCaptureArgs x value vs
          → (r r' : Env I) → Sides r r'
          → (k k' : Env I → Value) → ((z z' : Env I) → Sides z z' → k z ≡ k' z')
          → quantify I q (subst_args x value vs) r k ≡ quantify I q vs r' k'
      quantify-Sides q no_args c r r' s k k' e = e r r' s
      quantify-Sides q (arg y t vs) c r r' s k k' e = ap ((if q then I.for_all else I.there_is) t) (
          fun_ext λ u.
            quantify-Sides q vs c.2 (update r y u) (update r' y u) (Sides-update y u r r' c.0 c.1 s)
              k k' e)
      quantify-Sides q (hypothesis y d vs) c r r' s k k' e =
          ap₂ (if q then I.implies else I.and_also) (eval-Sides d c.0 r r' s)
            (quantify-Sides q vs c.1 r r' s k k' e)

-- The specification with `value` for `x` means what the specification means where `x` has the
-- value's meaning, in every interpretation: where `x` is a variable, the value is safe to copy, and
-- no binder captures.
pub eval-subst :
    (I : Interpretation) (x : String) (value n : SpecNode) (r : Env I)
    → I.known x ≡ false
    → CopySafe value
    → NoCapture x value n
    → eval I (subst x value n) r ≡ eval I n (update r x (eval I value r))
eval-subst I x value n r u safe c =
    eval-Sides I x value (eval I value r) u safe n c r (update r x (eval I value r))
      (λ y e. rw e, rw eq_refl, refl)
