-- ===== src/Flow/Meaning/Runs.antt =====
-- Runs of a graph of blocks to an end.
use spoq.Base.{
  false, Option, none, some, ◌≡◌, ◌≢◌, refl, ap, sym, ◌∙◌, String, ◌==◌, if◌then◌else◌, ◌>>=◌,
  Bool-cases, inl, inr, eq_iff, ◌↔◌,
}
use spoq.Flow.{Graph}
use spoq.Flow.Meaning.{Machine, halt, goto, Ends, Moves, next}

not_same : (s t : String) → s == t ≡ false → s ≢ t
not_same s t h p = let q = (eq_iff s t).1 p in cc

module _ (M : Machine) where
  open M use {State, Result}

  module _ (g : Graph) where
    -- From a node and a state, the graph comes to the end.
    pub data Runs : String → State → Ends M → Type 0 where
      stops : {m : String} {s : State} {o : Ends M} → next M g m s ≡ some (halt o) → Runs m s o
      goes :
          {m k : String} {s t : State} {o : Ends M}
          → next M g m s ≡ some (goto k t)
          → Runs k t o
          → Runs m s o

  -- The moves of `g` with those to `n` carried on.
  abbrev pub resolve : Graph → String → Moves M → Option (Moves M)
  resolve g n (halt o) = some (halt o)
  resolve g n (goto k t) = if k == n then next M g n t else some (goto k t)

  -- In `g'` the node `n` of `g` is part of the edges that lead to it.
  pub record Fuses (g g' : Graph) (n : String) : Type 0 where
    pub next-resolve :
        (m : String) (s : State) → m ≢ n → next M g' m s ≡ (next M g m s >>= resolve g n)
    pub no_return : (s t : State) → next M g n s ≢ some (goto n t)

  module _ {g g' : Graph} {n : String} (w : Fuses g g' n) where
    -- Either a node of `g'`, or `n`, whose moves a node of `g'` has.
    forward :
        {m : String} {s : State} {o : Ends M}
        → Runs g m s o
        → (m ≢ n → Runs g' m s o)
          × (m ≡ n → (m' : String) (s' : State) → next M g' m' s' ≡ next M g m s → Runs g' m' s' o)
    forward {m} {s} (stops e) = (
      λ h. stops (w.next-resolve m s h ∙ ap (λ j. j >>= resolve g n) e),
      λ h m' s' q. stops (q ∙ e),
    )
    forward {m} {s} (goes {m = _} {k = k} {s = _} {t = t} e r) =
        let q = forward r in
        elim (Bool-cases (k == n)) [
          | inl c ↦
              let p = (eq_iff k n).0 c in
              (
                λ h. q.1 p m s (
                    w.next-resolve m s h
                    ∙ ap (λ j. j >>= resolve g n) e
                    ∙ ap (λ b. if b then next M g n t else some (goto k t)) c
                    ∙ ap (λ x. next M g x t) (sym p)),
                λ h m' s' f. absurd (
                    w.no_return s t
                      (ap (λ x. next M g x s) (sym h) ∙ e ∙ ap (λ x. some (goto x t)) p)),
              )
          | inr c ↦
              let p : k ≢ n = not_same k n c in
              (
                λ h.
                    goes
                      (w.next-resolve m s h
                        ∙ ap (λ j. j >>= resolve g n) e
                        ∙ ap (λ b. if b then next M g n t else some (goto k t)) c)
                      (q.0 p),
                λ h m' s' f. goes (f ∙ e) (q.0 p),
              )
        ]

    -- Where `g` moves as said, `g'` moves on from what is resolved.
    resolved :
        (m : String) (s : State) {j : Option (Moves M)} {r : Moves M}
        → m ≢ n
        → next M g m s ≡ j
        → next M g' m s ≡ some r
        → (j >>= resolve g n) ≡ some r
    resolved m s h e f = ap (λ o. o >>= resolve g n) (sym e) ∙ sym (w.next-resolve m s h) ∙ f

    backward_stops :
        (m : String) (s : State) (o : Ends M) (j : Option (Moves M))
        → m ≢ n
        → next M g m s ≡ j
        → next M g' m s ≡ some (halt o)
        → Runs g m s o
    backward_stops m s o none h e f = let q = resolved m s h e f in cc
    backward_stops m s o (some (halt o')) h e f = stops (e ∙ resolved m s h e f)
    backward_stops m s o (some (goto k t)) h e f = elim (Bool-cases (k == n)) [
      | inl c ↦
          let q : next M g n t ≡ some (halt o) = rw c at (resolved m s h e f) in
          goes e (stops (ap (λ x. next M g x t) ((eq_iff k n).0 c) ∙ q))
      | inr c ↦ let q : some (goto k t) ≡ some (halt o) = rw c at (resolved m s h e f) in cc
    ]

    -- The node that `g'` goes to is not `n`, and `g` comes there too.
    backward_goes :
        (m k : String) (s t : State) (o : Ends M) (j : Option (Moves M))
        → m ≢ n
        → next M g m s ≡ j
        → next M g' m s ≡ some (goto k t)
        → (k ≢ n → Runs g k t o)
        → Runs g m s o
    backward_goes m k s t o none h e f r = let q = resolved m s h e f in cc
    backward_goes m k s t o (some (halt o')) h e f r =
        let q : some (halt o') ≡ some (goto k t) = resolved m s h e f in cc
    backward_goes m k s t o (some (goto k' t')) h e f r = elim (Bool-cases (k' == n)) [
      | inl c ↦
          let q : next M g n t' ≡ some (goto k t) = rw c at (resolved m s h e f) in
          goes e (
            goes (ap (λ x. next M g x t') ((eq_iff k' n).0 c) ∙ q)
              (r (λ p. w.no_return t' t (q ∙ ap (λ x. some (goto x t)) p))))
      | inr c ↦
          let q : some (goto k' t') ≡ some (goto k t) = rw c at (resolved m s h e f) in
          let p : k ≡ k' = cc in goes (e ∙ q) (r (λ p'. not_same k' n c (sym p ∙ p')))
    ]

    backward : {m : String} {s : State} {o : Ends M} → m ≢ n → Runs g' m s o → Runs g m s o
    backward {m} {s} {o} h (stops f) = backward_stops m s o (next M g m s) h refl f
    backward {m} {s} {o} h (goes {m = _} {k = k} {s = _} {t = t} f r) =
        backward_goes m k s t o (next M g m s) h refl f (λ p. backward p r)

    -- The graphs come to the same ends from every other node.
    pub Runs-Fuses : (m : String) (s : State) (o : Ends M) → m ≢ n → Runs g m s o ↔ Runs g' m s o
    Runs-Fuses m s o h = (λ r. (forward r).0 h, λ r. backward h r)
