-- ===== src/Flow.antt =====
-- Graphs of basic blocks that src/frontend/IRLoader/control_flow.cpp turns into structured code.
--
-- Edges and backward links are shared objects: they have an address, and the graph has a store for
-- each kind. A node and a vector of addresses have one owner and are values. The result `none`
-- stands for a null pointer that is followed, a failed `assert` or an insertion of a vector into
-- itself; in a pair, the Boolean says whether the rule did anything.
pub mod Rules
pub mod Branches
pub mod Links
pub mod Meaning
pub mod Build
pub mod Phi
pub mod Copies
use spoq.Base.{
  ℕ, suc, Bool, true, false, Option, none, some, List, [], ◌∷◌, ◌++◌, String, nat_eq, if◌then◌else◌,
}
use spoq.Dict.{Dict, erase}
use spoq.Ir.{IrValue, IrInst, IrInsts}

-- `scc` is `none` for -1, and `last_inst` for a null pointer.
pub record Node : Type 0 where
  pub insts : IrInsts
  pub scc : Option ℕ
  pub loop_use : List String
  pub last_inst : Option IrInst

-- An edge that leaves the graph has the empty name for `next`.
pub record Edge : Type 0 where
  pub next : String
  pub cond : Option IrValue
  pub insts : IrInsts
  pub backward : Option ℕ

pub record Backward : Type 0 where
  pub from : String
  pub edge : ℕ

pub record Graph : Type 0 where
  pub nodes : Dict Node
  pub edges : Dict (List ℕ)
  pub backwards : Dict (List ℕ)
  pub edge_at : ℕ → Edge
  pub back_at : ℕ → Backward
  pub new_edge : ℕ
  pub new_back : ℕ

abbrev pub write {ℓ} : {A : Type ℓ} → ℕ → A → (ℕ → A) → ℕ → A
write i a h j = if nat_eq i j then a else h j

abbrev pub is_empty {ℓ} : {A : Type ℓ} → List A → Bool
is_empty [] = true
is_empty (x ∷ xs) = false

-- The three erasures of a node.
unfoldable pub drop_node : String → Graph → Graph
drop_node n g = record g {
  nodes = erase n g.nodes;
  edges = erase n g.edges;
  backwards = erase n g.backwards;
}

-- `std::remove_if` and `erase`.
unfoldable pub remove_if {ℓ} : {A : Type ℓ} → (A → Bool) → List A → List A
remove_if p [] = []
remove_if p (x ∷ xs) = let rest = remove_if p xs in if p x then rest else x ∷ rest
