-- ===== src/Flow/Phi.antt =====
-- The removal of PHI nodes in `control_flow_conversion` of
-- src/frontend/IRLoader/control_flow.cpp.
--
-- `coq_name` is `to_coq_name`, which the constructor of an assignment applies to its target.
pub mod Same
pub mod Linked
use spoq.Base.{
  ℕ, Bool, Option, none, some, List, [], ◌∷◌, map, String, ◌==◌, if◌then◌else◌, map_option,
  and_then, ◌>>=◌,
}
use spoq.Dict.{get, insert, entries}
use spoq.Ir.{
  IrType, IrValue, IrInst, IrInsts, no_insts, inst_then, i_phi, i_assign, append, one_inst,
}
use spoq.Flow.{Node, Edge, Graph, write}
use spoq.Flow.Build.{each, build}

abbrev pub with_inst : IrInst → Edge → Edge
with_inst i e = record e { insts = append e.insts (one_inst i) }

abbrev pub add_to_edge : String → IrInst → ℕ → (ℕ → Edge) → ℕ → Edge
add_to_edge n i x h = if (h x).next == n then write x (with_inst i (h x)) h else h

-- The instruction goes to each edge of the list that leads to the block.
unfoldable pub add_to_edges : String → IrInst → List ℕ → (ℕ → Edge) → ℕ → Edge
add_to_edges n i [] h = h
add_to_edges n i (x ∷ xs) h = add_to_edges n i xs (add_to_edge n i x h)

unfoldable pub add_value :
    (String → String) → String → IrType → String → IrValue × String → Graph → Option Graph
add_value coq_name n t x p g =
    map_option
      (λ es. record g { edge_at = add_to_edges n (i_assign t (coq_name x) p.0) es g.edge_at })
      (get p.1 g.edges)

unfoldable pub add_phi : (String → String) → String → IrInst → Graph → Option Graph
add_phi coq_name n (i_phi t x values) g = each (add_value coq_name n t x) values g
add_phi coq_name n i g = some g

unfoldable pub add_phis : (String → String) → String → IrInsts → Graph → Option Graph
add_phis coq_name n no_insts g = some g
add_phis coq_name n (inst_then i is) g = add_phi coq_name n i g >>= add_phis coq_name n is

abbrev pub then_unless_phi : IrInst → IrInsts → IrInsts
then_unless_phi (i_phi t x values) is = is
then_unless_phi i is = inst_then i is

unfoldable pub remove_phis : IrInsts → IrInsts
remove_phis no_insts = no_insts
remove_phis (inst_then i is) = then_unless_phi i (remove_phis is)

unfoldable pub without_phis : String → Node → Graph → Graph
without_phis n node g = record g {
  nodes = insert n (record node { insts = remove_phis node.insts }) g.nodes;
}

unfoldable pub phi_block : (String → String) → String → Graph → Option Graph
phi_block coq_name n g = do
  node ← get n g.nodes
  g' ← add_phis coq_name n node.insts g
  some (without_phis n node g')

abbrev pub name_of : String × Node → String
name_of e = e.0

-- The blocks in the order of the dictionary.
unfoldable pub eliminate_phis : (String → String) → Graph → Option Graph
eliminate_phis coq_name g = each (phi_block coq_name) (map name_of (entries g.nodes)) g

-- The graph that the main loop starts with.
unfoldable pub initial_graph :
    (String → String) → (String → Option IrInsts) → List String → Option Graph
initial_graph coq_name blocks ns = build blocks ns >>= eliminate_phis coq_name
