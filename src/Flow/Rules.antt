-- ===== src/Flow/Rules.antt =====
-- The rules of src/frontend/IRLoader/control_flow.cpp on a node and the branches that leave it.
pub mod Cases
use spoq.Base.{
  ℕ, suc, Bool, true, false, Option, none, some, List, [], ◌∷◌, ◌++◌, String, ◌==◌, nat_eq, not,
  ◌&&◌, ◌||◌, if◌then◌else◌, map_option, and_then, or_else, ◌>>=◌,
}
use spoq.Dict.{Dict, get, insert}
use spoq.Ir.{
  IrValue, IrValues, no_values, value_then, v_expr, t_bool, o_or, IrInst, IrInsts, no_insts,
  inst_then, i_if, append, one_inst,
}
use spoq.Flow.{Node, Edge, Backward, Graph, write, is_empty, drop_node, remove_if}

abbrev pub Step : Type 0
Step = Graph × Bool

-- `rule_eliminate_leaf`: a node without edges goes into the one edge that leads to it.
unfoldable pub absorb_leaf : String → Graph → ℕ → Node → Graph
absorb_leaf n g x node =
    let e = g.edge_at x in
    drop_node n (record g {
      edge_at = write x (record e { insts = append e.insts node.insts; next = "" }) g.edge_at;
    })

abbrev pub leaf_node : String → Graph → ℕ → Node → Step
leaf_node n g b node =
    if is_empty node.loop_use then (absorb_leaf n g (g.back_at b).edge node, true) else (g, false)

abbrev pub leaf_backwards : String → Graph → List ℕ → Option Step
leaf_backwards n g (b ∷ []) = map_option (leaf_node n g b) (get n g.nodes)
leaf_backwards n g _ = some (g, false)

abbrev pub leaf_edges : String → Graph → List ℕ → Option Step
leaf_edges n g [] = get n g.backwards >>= leaf_backwards n g
leaf_edges n g (x ∷ xs) = some (g, false)

unfoldable pub eliminate_leaf : String → Graph → Option Step
eliminate_leaf n g = get n g.edges >>= leaf_edges n g

-- `rule_eliminate_bridge`: a node with one edge goes, with this edge, into the one that leads to it.
abbrev pub redirect : String → ℕ → Option ℕ → (ℕ → Backward) → ℕ → Backward
redirect p x none h = h
redirect p x (some b) h = write b (record { from = p; edge = x }) h

unfoldable pub absorb_bridge : String → Graph → String → ℕ → ℕ → Node → Graph
absorb_bridge n g p x y node =
    let e1 = g.edge_at x in
    let e2 = g.edge_at y in
    drop_node n (record g {
      edge_at =
          write x
            (record e1 {
              next = e2.next;
              insts = append (append e1.insts node.insts) e2.insts;
              backward = e2.backward;
            })
            g.edge_at;
      back_at = redirect p x e2.backward g.back_at;
    })

abbrev pub bridge_node : String → Graph → ℕ → ℕ → Node → Option Step
bridge_node n g y b node =
    let back = g.back_at b in
    if is_empty node.loop_use
    then if nat_eq back.edge y
      then none
      else some (absorb_bridge n g back.from back.edge y node, true)
    else some (g, false)

abbrev pub bridge_backwards : String → Graph → ℕ → List ℕ → Option Step
bridge_backwards n g y (b ∷ []) = get n g.nodes >>= bridge_node n g y b
bridge_backwards n g y _ = some (g, false)

abbrev pub bridge_edges : String → Graph → List ℕ → Option Step
bridge_edges n g (y ∷ []) = get n g.backwards >>= bridge_backwards n g y
bridge_edges n g _ = some (g, false)

unfoldable pub eliminate_bridge : String → Graph → Option Step
eliminate_bridge n g = get n g.edges >>= bridge_edges n g
