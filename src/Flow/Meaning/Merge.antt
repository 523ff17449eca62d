-- ===== src/Flow/Meaning/Merge.antt =====
-- Runs after `rule_merge_branches` of src/frontend/IRLoader/control_flow.cpp.
use spoq.Base.{
  ℕ, Option, none, some, List, [], ◌∷◌, ◌≡◌, refl, ap, sym, ◌∙◌, subst, ◌⊎◌, inl, inr, String, ◌==◌,
  if◌then◌else◌, map_option, ◌>>=◌, Bool-cases, eq_iff,
}
use spoq.Ir.{IrValue, IrInsts, no_insts, i_if, one_inst}
use spoq.Flow.{Edge}
use spoq.Flow.Branches.{join_next, common_next, test_then, nested}
use spoq.Flow.Rules.Cases.{bind_some}
use spoq.Flow.Links.{Memᴰ}
use spoq.Flow.Links.Fusion.{some_eq}
use spoq.Flow.Meaning.{Machine, running, finished, Ends, continue, exec, taken, pick}

-- A conditional does what its condition says.
pub record IfLaw (M : Machine) : Type 0 where
  pub step-if :
      (c : IrValue) (a b : IrInsts) (s : M.State)
      → M.step (i_if c a b) s ≡ (if M.holds c s then exec M a s else exec M b s)

nested_more :
    (h : ℕ → Edge) (x : ℕ) (rest : Option IrInsts) (is : IrInsts)
    → (rest >>= test_then (h x)) ≡ some is
    → (c : IrValue) × (js : IrInsts) × (rest ≡ some js)
      × ((h x).cond ≡ some c)
      × (is ≡ one_inst (i_if c (h x).insts js))
nested_more h x rest is e =
    let a = bind_some rest (test_then (h x)) is e in go (h x).cond refl a.0 a.1 a.2
  where
    go :
        (o : Option IrValue)
        → (h x).cond ≡ o
        → (js : IrInsts) → rest ≡ some js
        → map_option (λ c. one_inst (i_if c (h x).insts js)) o ≡ some is
        → (c : IrValue) × (js : IrInsts) × (rest ≡ some js)
          × ((h x).cond ≡ some c)
          × (is ≡ one_inst (i_if c (h x).insts js))
    go none p js q r = cc
    go (some c) p js q r = (c, js, q, p, sym (some_eq r))

-- The common target is that of every edge that does not leave the graph.
join_next_case :
    (s t u : String)
    → join_next s t ≡ some u
    → ((t ≡ "") × (u ≡ s)) ⊎ (((s ≡ "") ⊎ (s ≡ u)) × (t ≡ u))
join_next_case s t u h = elim (Bool-cases (t == "")) [
  | inl e ↦ let q : some s ≡ some u = rw e at h in inl ((eq_iff t "").0 e, sym (some_eq q))
  | inr e ↦ elim (Bool-cases (s == "")) [
    | inl f ↦ let q : some t ≡ some u = rw (e, f) at h in inr (inl ((eq_iff s "").0 f), some_eq q)
    | inr f ↦ elim (Bool-cases (s == t)) [
      | inl k ↦
          let q : some s ≡ some u = rw (e, f, k) at h in
          inr (inr (some_eq q), sym ((eq_iff s t).0 k) ∙ some_eq q)
      | inr k ↦ let q : none ≡ some u = rw (e, f, k) at h in cc
    ]
  ]
]

chained {ℓ} : {A : Type ℓ} {s a t d : A} → (s ≡ d) ⊎ (s ≡ a) → (a ≡ d) ⊎ (a ≡ t) → (s ≡ d) ⊎ (s ≡ t)
chained (inl p) q = inl p
chained (inr p) (inl q) = inl (p ∙ q)
chained (inr p) (inr q) = inr (p ∙ q)

common_next-start :
    (h : ℕ → Edge) (s : String) (xs : List ℕ) (t : String)
    → common_next h s xs ≡ some t
    → (s ≡ "") ⊎ (s ≡ t)
unfolding common_next
common_next-start h s [] t e = inr (some_eq e)
common_next-start h s (x ∷ xs) t e =
    let a = bind_some (join_next s (h x).next) (λ u. common_next h u xs) t e in
    let b = common_next-start h a.0 xs t a.2 in
    elim (join_next_case s (h x).next a.0 a.1) [
      | inl (p, q) ↦ subst (λ u. (u ≡ "") ⊎ (u ≡ t)) q b
      | inr (p, q) ↦ chained p b
    ]

pub common_next-Memᴰ :
    (h : ℕ → Edge) (s : String) (xs : List ℕ) (t : String) (z : ℕ)
    → common_next h s xs ≡ some t
    → Memᴰ z xs
    → ((h z).next ≡ "") ⊎ ((h z).next ≡ t)
unfolding common_next
common_next-Memᴰ h s [] t z e m = elim m [ ]
common_next-Memᴰ h s (x ∷ xs) t z e (Memᴰ.tail m) =
    let a = bind_some (join_next s (h x).next) (λ u. common_next h u xs) t e in
    common_next-Memᴰ h a.0 xs t z a.2 m
common_next-Memᴰ h s (x ∷ xs) t z e (Memᴰ.head i) =
    let a = bind_some (join_next s (h x).next) (λ u. common_next h u xs) t e in
    let b = common_next-start h a.0 xs t a.2 in
    elim (join_next_case s (h x).next a.0 a.1) [
      | inl (p, q) ↦ inl (ap (λ y. (h y).next) i ∙ p)
      | inr (p, q) ↦ chained (inr (ap (λ y. (h y).next) i ∙ q)) b
    ]

module _ (M : Machine) (law : IfLaw M) where
  open M use {State, Result}

  pub exec-no_insts : (o : Ends M) → continue M (exec M no_insts) o ≡ o
  unfolding exec
  exec-no_insts (running s) = refl
  exec-no_insts (finished r) = refl

  pub exec-one_if :
      (c : IrValue) (a b : IrInsts) (s : State)
      → exec M (one_inst (i_if c a b)) s ≡ (if M.holds c s then exec M a s else exec M b s)
  unfolding exec
  exec-one_if c a b s = exec-no_insts (M.step (i_if c a b) s) ∙ law.step-if c a b s

  -- The nest of conditionals runs the instructions of the edge that would be taken.
  pub exec-nested :
      (h : ℕ → Edge) (xs : List ℕ) (is : IrInsts) (s : State)
      → nested h xs ≡ some is
      → (x : ℕ) × (pick M h xs s ≡ some x) × (exec M is s ≡ exec M (h x).insts s)
  unfolding nested pick
  exec-nested h [] is s e = cc
  exec-nested h (x ∷ []) is s e = (x, refl, ap (λ js. exec M js s) (sym (some_eq e)))
  exec-nested h (x ∷ y ∷ ys) is s e =
      let (c, js, p, q, r) = nested_more h x (nested h (y ∷ ys)) is e in
      let (z, u, v) = exec-nested h (y ∷ ys) js s p in
      let f = ap (λ ks. exec M ks s) r ∙ exec-one_if c (h x).insts js s in
      elim (Bool-cases (M.holds c s)) [
        | inl t ↦ (
          x,
          ap (λ o. if taken M o s then some x else pick M h (y ∷ ys) s) q
              ∙ ap (λ b. if b then some x else pick M h (y ∷ ys) s) t,
          f ∙ ap (λ b. if b then exec M (h x).insts s else exec M js s) t,
        )
        | inr t ↦ (
          z,
          ap (λ o. if taken M o s then some x else pick M h (y ∷ ys) s) q
              ∙ ap (λ b. if b then some x else pick M h (y ∷ ys) s) t
              ∙ u,
          f ∙ ap (λ b. if b then exec M (h x).insts s else exec M js s) t ∙ v,
        )
      ]
