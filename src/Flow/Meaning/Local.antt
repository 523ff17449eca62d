-- ===== src/Flow/Meaning/Local.antt =====
-- Runs along the edge that `rule_merge_branches_local` of src/frontend/IRLoader/control_flow.cpp
-- makes of two.
use spoq.Base.{true, false, some, ◌≡◌, ap, sym, ◌∙◌, ◌||◌, if◌then◌else◌, map_option}
use spoq.Ir.{IrValue, i_if, one_inst}
use spoq.Flow.{Edge}
use spoq.Flow.Branches.{either_value, joined_cond, joined_edge}
use spoq.Flow.Links.Fusion.{some_eq}
use spoq.Flow.Meaning.{Machine, exec, taken}
use spoq.Flow.Meaning.Merge.{IfLaw, exec-one_if}

-- A disjunction holds where one of its operands does.
pub record OrLaw (M : Machine) : Type 0 where
  pub holds-either :
      (a b : IrValue) (s : M.State) → M.holds (either_value a b) s ≡ (M.holds a s || M.holds b s)

module _ (M : Machine) (law : IfLaw M) where
  open M use {State, Result}

  exec-joined :
      (e f d : Edge) (c : IrValue) (s : State)
      → joined_cond e.cond f.cond ≡ some c
      → joined_edge e f ≡ some d
      → (d.cond ≡ some c)
        × (exec M d.insts s ≡ (if M.holds c s then exec M e.insts s else exec M f.insts s))
  unfolding joined_edge
  exec-joined e f d c s p h =
      let q = some_eq (
        ap (map_option (λ c. record e { cond = some c; insts = one_inst (i_if c e.insts f.insts) }))
          (sym p)
        ∙ h) in
      (
        ap (λ x. x.cond) (sym q),
        ap (λ x. exec M x.insts s) (sym q) ∙ exec-one_if M law c e.insts f.insts s,
      )

-- The edge that `rule_merge_branches_local` makes of two with conditions is taken, and runs the
-- instructions of the first, where the condition of the first does not hold and that of the second
-- does; conditionals and disjunctions do what they say.
pub joined_edge-runs_first :
    (M : Machine) (e f d : Edge) (a b : IrValue) (s : M.State)
    → IfLaw M
    → OrLaw M
    → e.cond ≡ some a
    → f.cond ≡ some b
    → joined_edge e f ≡ some d
    → M.holds a s ≡ false
    → M.holds b s ≡ true
    → (taken M d.cond s ≡ true) × (exec M d.insts s ≡ exec M e.insts s)
unfolding joined_cond
joined_edge-runs_first M e f d a b s law laws p q h u v =
    let r = exec-joined M law e f d (either_value a b) s (rw (p, q)) h in
    let t : M.holds (either_value a b) s ≡ true = rw (laws.holds-either a b s, u, v) in
    (
      ap (λ c. taken M c s) r.0 ∙ t,
      r.1 ∙ ap (λ k. if k then exec M e.insts s else exec M f.insts s) t,
    )
