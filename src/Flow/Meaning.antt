-- ===== src/Flow/Meaning.antt =====
-- What a graph of blocks of src/frontend/IRLoader/control_flow.cpp does when it runs.
--
-- A machine says what an instruction does and when a value holds. After the instructions of a node
-- an edge whose condition holds is taken, and where none does, the first edge if it has no
-- condition, or else the last one. Where several conditions hold at once, which those of a branch or
-- a switch do not, the first of them counts; if the first edge has no condition, the last edge is
-- asked before those between. The choice of the edge uses nothing of the rules.
pub mod Choice
pub mod Runs
pub mod Edges
pub mod Fusion
pub mod Absorb
pub mod Merge
pub mod Merged
pub mod Local
pub mod Endings
pub mod Whole
use spoq.Base.{
  ℕ, Bool, true, false, Option, none, some, List, [], ◌∷◌, ◌≡◌, refl, ap, ◌∙◌, fun_ext, String,
  ◌==◌, if◌then◌else◌, and_then, ◌>>=◌,
}
use spoq.Dict.{get}
use spoq.Ir.{IrValue, IrInst, IrInsts, no_insts, inst_then, append}
use spoq.Flow.{Node, Edge, Graph}

pub data Outcome (S R : Type 0) : Type 0 where
  running : S → Outcome S R
  finished : R → Outcome S R

pub record Machine : Type 1 where
  pub State : Type 0
  pub Result : Type 0
  pub step : IrInst → State → Outcome State Result
  pub holds : IrValue → State → Bool

pub data Jump (S R : Type 0) : Type 0 where
  halt : Outcome S R → Jump S R
  goto : String → S → Jump S R

module _ (M : Machine) where
  open M use {State, Result}

  abbrev pub Ends : Type 0
  Ends = Outcome State Result

  abbrev pub Moves : Type 0
  Moves = Jump State Result

  abbrev pub continue : (State → Ends) → Ends → Ends
  continue f (running s) = f s
  continue f (finished r) = finished r

  unfoldable pub exec : IrInsts → State → Ends
  exec no_insts s = running s
  exec (inst_then i is) s = continue (exec is) (M.step i s)

  abbrev pub taken : Option IrValue → State → Bool
  taken none s = true
  taken (some c) s = M.holds c s

  unfoldable pub pick : (ℕ → Edge) → List ℕ → State → Option ℕ
  pick h [] s = none
  pick h (x ∷ []) s = some x
  pick h (x ∷ y ∷ ys) s = if taken (h x).cond s then some x else pick h (y ∷ ys) s

  abbrev pub final : ℕ → List ℕ → ℕ
  final y [] = y
  final y (z ∷ zs) = final z zs

  -- The edges but the last are asked, and `d` is taken where no condition holds.
  unfoldable pub between : (ℕ → Edge) → ℕ → List ℕ → State → Option ℕ
  between h d [] s = some d
  between h d (y ∷ []) s = some d
  between h d (y ∷ z ∷ zs) s = if taken (h y).cond s then some y else between h d (z ∷ zs) s

  abbrev pub first_default : (ℕ → Edge) → ℕ → List ℕ → State → Option ℕ
  first_default h x [] s = some x
  first_default h x (y ∷ ys) s =
      if taken (h (final y ys)).cond s then some (final y ys) else between h x (y ∷ ys) s

  abbrev pub choose_at : (ℕ → Edge) → Option IrValue → ℕ → List ℕ → State → Option ℕ
  choose_at h none x xs s = first_default h x xs s
  choose_at h (some c) x xs s = pick h (x ∷ xs) s

  -- The edge that is taken.
  unfoldable pub choose : (ℕ → Edge) → List ℕ → State → Option ℕ
  choose h [] s = none
  choose h (x ∷ xs) s = choose_at h (h x).cond x xs s

  abbrev pub arrive : String → Ends → Moves
  arrive t (running s) = if t == "" then halt (running s) else goto t s
  arrive t (finished r) = halt (finished r)

  unfoldable pub traverse : Edge → State → Moves
  traverse e s = arrive e.next (exec e.insts s)

  abbrev pub along : (ℕ → Edge) → State → Option ℕ → Moves
  along h s none = halt (running s)
  along h s (some x) = traverse (h x) s

  unfoldable pub leave : (ℕ → Edge) → List ℕ → Ends → Moves
  leave h es (running s) = along h s (choose h es s)
  leave h es (finished r) = halt (finished r)

  -- A node and the edge that is taken from it: `none` where the graph does not have the node.
  unfoldable pub next : Graph → String → State → Option Moves
  next g n s = do
    node ← get n g.nodes
    es ← get n g.edges
    some (leave g.edge_at es (exec node.insts s))

  continue_assoc :
      (f g : State → Ends) (o : Ends)
      → continue (λ s. continue g (f s)) o ≡ continue g (continue f o)
  continue_assoc f g (running s) = refl
  continue_assoc f g (finished r) = refl

  pub exec-append :
      (is js : IrInsts) (s : State) → exec (append is js) s ≡ continue (exec js) (exec is s)
  unfolding exec append
  exec-append no_insts js s = refl
  exec-append (inst_then i is) js s =
      ap (λ f. continue f (M.step i s)) (fun_ext (exec-append is js))
      ∙ continue_assoc (exec is) (exec js) (M.step i s)
