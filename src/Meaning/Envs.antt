-- ===== src/Meaning/Envs.antt =====
-- How a pattern changes an environment, and what of an environment a specification reads.
use spoq.Base.{
  String, Bool, true, false, ◌==◌, Option, none, some, List, [], ◌∷◌, ◌≡◌, refl, eq_iff, Bool-cases,
  ◌⊎◌, inl, inr, arith, or_left, or_right, ◌∙◌, and_then, or_else, map_option,
}
use spoq.Ast.{
  SpecNode, symbol, const, int_const, string_const, bool_const, expr, matching, rely, anno, branch,
  forall, exists, SpecNodes, nil, cons, text, truth,
}
use spoq.Scope.{exists_in_pattern, exists_in_patterns}
use spoq.Meaning.{
  int_constant, is_constant, Interpretation, Env, match_pattern, match_patterns, operator, update,
  when_test,
}

module _ (I : Interpretation) where
  open I use {Value}

  -- The environments agree on the names of `P`.
  abbrev pub Agree : (String → Type 0) → Env I → Env I → Type 0
  Agree P r r' = (y : String) → P y → r y ≡ r' y

  -- Two matches fail together, or succeed together with environments that agree on `P`.
  abbrev pub Related : (String → Type 0) → Option (Env I) → Option (Env I) → Type 0
  Related P none none = Unit
  Related P (some s) (some s') = Agree P s s'
  Related P _ _ = ⊥

  pub Related-and_then :
      (P Q : String → Type 0) (o o' : Option (Env I)) (f f' : Env I → Option (Env I))
      → Related P o o'
      → ((s s' : Env I) → Agree P s s' → Related Q (f s) (f' s'))
      → Related Q (and_then o f) (and_then o' f')
  Related-and_then P Q none none f f' h k = tt
  Related-and_then P Q (some s) (some s') f f' h k = k s s' h
  Related-and_then P Q none (some s') f f' h k = absurd h
  Related-and_then P Q (some s) none f f' h k = absurd h

  pub Related-or_else :
      {P : String → Type 0} (o o' : Option (Env I)) (f f' : Env I → Value) (d d' : Value)
      → Related P o o'
      → ((s s' : Env I) → Agree P s s' → f s ≡ f' s')
      → d ≡ d'
      → or_else (map_option f o) d ≡ or_else (map_option f' o') d'
  Related-or_else none none f f' d d' h k e = e
  Related-or_else (some s) (some s') f f' d d' h k e = k s s' h
  Related-or_else none (some s') f f' d d' h k e = absurd h
  Related-or_else (some s) none f f' d d' h k e = absurd h

  pub Related-either :
      {P Q S : String → Type 0} (o o' : Option (Env I))
      → Related P o o'
      → Related Q o o'
      → ((y : String) → S y → P y ⊎ Q y)
      → Related S o o'
  Related-either none none h g c = tt
  Related-either (some s) (some s') h g c = λ y m. elim (c y m) [ inl p ↦ h y p | inr q ↦ g y q ]
  Related-either none (some s') h g c = absurd h
  Related-either (some s) none h g c = absurd h

  pub Agree-update :
      (P : String → Type 0) (x : String) (v : Value) (r r' : Env I)
      → Agree P r r'
      → Agree P (update r x v) (update r' x v)
  Agree-update P x v r r' h y m = elim (Bool-cases (y == x)) [ inl e ↦ rw e | inr e ↦ rw e (h y m) ]

  pub Related-when_test :
      (P : String → Type 0) (b : Bool) (r r' : Env I)
      → Agree P r r'
      → Related P (when_test I b r) (when_test I b r')
  Related-when_test P true r r' h = h
  Related-when_test P false r r' h = tt

  pub Related-and_then_same {ℓ} :
      {A : Type ℓ} (P : String → Type 0) (o : Option A) (f f' : A → Option (Env I))
      → ((a : A) → Related P (f a) (f' a))
      → Related P (and_then o f) (and_then o f')
  Related-and_then_same P none f f' k = tt
  Related-and_then_same P (some a) f f' k = k a

  mutual
    unfolding match_pattern

    -- A match keeps what the environments agree on.
    pub match_pattern-keeps :
        (P : String → Type 0) (p : SpecNode) (v : Value) (r r' : Env I)
        → Agree P r r'
        → Related P (match_pattern I p v r) (match_pattern I p v r')
    match_pattern-keeps P (symbol x t) v r r' h = elim (Bool-cases (I.known x)) [
      | inl e ↦ rw e (Related-when_test P (I.is_global x v) r r' h)
      | inr e ↦ rw e (Agree-update P x v r r' h)
    ]
    match_pattern-keeps P (const c t) v r r' h = Related-when_test P (I.is_literal c v) r r' h
    match_pattern-keeps P (int_const n s) v r r' h =
        Related-when_test P (is_constant I (int_constant n s) v) r r' h
    match_pattern-keeps P (string_const s) v r r' h =
        Related-when_test P (I.is_literal (text s) v) r r' h
    match_pattern-keeps P (bool_const b) v r r' h =
        Related-when_test P (I.is_literal (truth b) v) r r' h
    match_pattern-keeps P (expr o es t) v r r' h =
        Related-and_then_same P (operator o) _ _ λ f.
          Related-and_then_same P (I.destruct f v) _ _ λ vs. match_patterns-keeps P es vs r r' h
    match_pattern-keeps P (matching s ps t) v r r' h = tt
    match_pattern-keeps P (rely p b t) v r r' h = tt
    match_pattern-keeps P (anno p b t) v r r' h = tt
    match_pattern-keeps P (branch c a b t) v r r' h = tt
    match_pattern-keeps P (forall vs b t) v r r' h = tt
    match_pattern-keeps P (exists vs b t) v r r' h = tt

    match_patterns-keeps :
        (P : String → Type 0) (ps : SpecNodes) (vs : List Value) (r r' : Env I)
        → Agree P r r'
        → Related P (match_patterns I ps vs r) (match_patterns I ps vs r')
    match_patterns-keeps P nil [] r r' h = h
    match_patterns-keeps P nil (v ∷ vs) r r' h = tt
    match_patterns-keeps P (cons p ps) [] r r' h = tt
    match_patterns-keeps P (cons p ps) (v ∷ vs) r r' h =
        Related-and_then P P _ _ _ _ (match_pattern-keeps P p v r r' h)
          λ s s' k. match_patterns-keeps P ps vs s s' k

  -- What a match leaves alone.
  abbrev pub FrameAt : String → Env I → Option (Env I) → Type 0
  FrameAt y r none = Unit
  FrameAt y r (some s) = s y ≡ r y

  FrameAt-when_test : (y : String) (b : Bool) (r : Env I) → FrameAt y r (when_test I b r)
  FrameAt-when_test y true r = refl
  FrameAt-when_test y false r = tt

  FrameAt-and_then :
      (y : String) (r : Env I) (o : Option (Env I)) (f : Env I → Option (Env I))
      → FrameAt y r o
      → ((s : Env I) → FrameAt y s (f s))
      → FrameAt y r (and_then o f)
  FrameAt-and_then y r none f h k = tt
  FrameAt-and_then y r (some s) f h k = go (f s) (k s)
    where
      go : (o : Option (Env I)) → FrameAt y s o → FrameAt y r o
      go none e = tt
      go (some s') e = e ∙ h

  FrameAt-and_then_same {ℓ} :
      {A : Type ℓ} (y : String) (r : Env I) (o : Option A) (f : A → Option (Env I))
      → ((a : A) → FrameAt y r (f a))
      → FrameAt y r (and_then o f)
  FrameAt-and_then_same y r none f k = tt
  FrameAt-and_then_same y r (some a) f k = k a

  mutual
    unfolding match_pattern exists_in_pattern

    pub match_pattern-frame :
        (y : String) (p : SpecNode) (v : Value) (r : Env I)
        → exists_in_pattern y p ≡ false
        → FrameAt y r (match_pattern I p v r)
    match_pattern-frame y (symbol x t) v r h = elim (Bool-cases (I.known x)) [
      | inl e ↦ rw e (FrameAt-when_test y (I.is_global x v) r)
      | inr e ↦ rw e (go (Bool-cases (y == x)))
    ]
      where
        go : ((y == x) ≡ true) ⊎ ((y == x) ≡ false) → update r x v y ≡ r y
        go (inl e) = ground (arith, eq_iff y x, eq_iff x y)
        go (inr e) = rw e
    match_pattern-frame y (const c t) v r h = FrameAt-when_test y (I.is_literal c v) r
    match_pattern-frame y (int_const n s) v r h =
        FrameAt-when_test y (is_constant I (int_constant n s) v) r
    match_pattern-frame y (string_const s) v r h = FrameAt-when_test y (I.is_literal (text s) v) r
    match_pattern-frame y (bool_const b) v r h = FrameAt-when_test y (I.is_literal (truth b) v) r
    match_pattern-frame y (expr o es t) v r h =
        FrameAt-and_then_same y r (operator o) _
          λ f. FrameAt-and_then_same y r (I.destruct f v) _ λ vs. match_patterns-frame y es vs r h
    match_pattern-frame y (matching s ps t) v r h = tt
    match_pattern-frame y (rely p b t) v r h = tt
    match_pattern-frame y (anno p b t) v r h = tt
    match_pattern-frame y (branch c a b t) v r h = tt
    match_pattern-frame y (forall vs b t) v r h = tt
    match_pattern-frame y (exists vs b t) v r h = tt

    match_patterns-frame :
        (y : String) (ps : SpecNodes) (vs : List Value) (r : Env I)
        → exists_in_patterns y ps ≡ false
        → FrameAt y r (match_patterns I ps vs r)
    match_patterns-frame y nil [] r h = refl
    match_patterns-frame y nil (v ∷ vs) r h = tt
    match_patterns-frame y (cons p ps) [] r h = tt
    match_patterns-frame y (cons p ps) (v ∷ vs) r h =
        let a = exists_in_pattern y p in
        let b = exists_in_patterns y ps in
        FrameAt-and_then y r (match_pattern I p v r) _ (match_pattern-frame y p v r (or_left a b h))
          λ s. match_patterns-frame y ps vs s (or_right a b h)

  -- A variable in a pattern is bound by a match, whatever it was before.
  mutual
    unfolding match_pattern exists_in_pattern

    pub match_pattern-binds :
        (y : String)
        → I.known y ≡ false
        → (p : SpecNode) (v : Value) (r r' : Env I) → exists_in_pattern y p ≡ true
        → Related (λ z. z ≡ y) (match_pattern I p v r) (match_pattern I p v r')
    match_pattern-binds y f (symbol x t) v r r' h =
        let e = (eq_iff x y).0 h in rw (e, f) λ z m. rw ((eq_iff z y).1 m)
    match_pattern-binds y f (expr o es t) v r r' h =
        Related-and_then_same (λ z. z ≡ y) (operator o) _ _
          λ g.
            Related-and_then_same (λ z. z ≡ y) (I.destruct g v) _ _
              λ vs. match_patterns-binds y f es vs r r' h
    match_pattern-binds y f _ v r r' h = cc

    match_patterns-binds :
        (y : String)
        → I.known y ≡ false
        → (ps : SpecNodes) (vs : List Value) (r r' : Env I) → exists_in_patterns y ps ≡ true
        → Related (λ z. z ≡ y) (match_patterns I ps vs r) (match_patterns I ps vs r')
    match_patterns-binds y f nil vs r r' h = cc
    match_patterns-binds y f (cons p ps) [] r r' h = tt
    match_patterns-binds y f (cons p ps) (v ∷ vs) r r' h =
        elim (Bool-cases (exists_in_pattern y p)) [
          | inl e ↦
              Related-and_then (λ z. z ≡ y) (λ z. z ≡ y) _ _ _ _
                (match_pattern-binds y f p v r r' e)
                λ s s' k. match_patterns-keeps (λ z. z ≡ y) ps vs s s' k
          | inr e ↦
              Related-and_then (λ z. ⊥) (λ z. z ≡ y) _ _ _ _
                (match_pattern-keeps (λ z. ⊥) p v r r' (λ z m. absurd m))
                λ s s' k. match_patterns-binds y f ps vs s s' (rw e at h)
        ]
