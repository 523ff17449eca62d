-- ===== src/Flow/Build.antt =====
-- The graph that `control_flow_conversion` of src/frontend/IRLoader/control_flow.cpp makes of the
-- blocks of a function.
--
-- `blocks` has the instructions of a block: `none` where there is no block of the name.
pub mod Pending
pub mod Push
pub mod Link
pub mod Linked
pub mod Start
use spoq.Base.{
  ℕ, suc, Bool, true, false, Option, none, some, List, [], ◌∷◌, ◌++◌, map, String, ◌==◌, map_option,
  and_then, ◌>>=◌,
}
use spoq.Dict.{Dict, empty_dict, get, insert}
use spoq.Ir.{
  IrValue, no_values, value_then, v_expr, t_bool, ceq, IrInst, i_branch, i_cond_branch, i_switch,
  i_return, i_unreachable, IrInsts, no_insts, inst_then, append,
}
use spoq.Flow.{Node, Edge, Backward, Graph, write}

abbrev pub empty_node : Node
empty_node = record { insts = no_insts; scc = none; loop_use = []; last_inst = none }

abbrev pub no_edge : ℕ → Edge
no_edge x = record { next = ""; cond = none; insts = no_insts; backward = none }

abbrev pub empty_graph : Graph
empty_graph = record {
  nodes = empty_dict;
  edges = empty_dict;
  backwards = empty_dict;
  edge_at = no_edge;
  back_at = λ b. record { from = ""; edge = 0 };
  new_edge = 0;
  new_back = 0;
}

-- A loop that changes the graph.
unfoldable pub each {ℓ} : {A : Type ℓ} → (A → Graph → Option Graph) → List A → Graph → Option Graph
each f [] g = some g
each f (a ∷ rest) g = f a g >>= each f rest

unfoldable pub add_block : String → Graph → Graph
add_block n g = record g {
  nodes = insert n empty_node g.nodes;
  edges = insert n [] g.edges;
  backwards = insert n [] g.backwards;
}

-- All instructions but the last, and the last.
abbrev pub put_first : IrInst → IrInsts × IrInst → IrInsts × IrInst
put_first i p = (inst_then i p.0, p.1)

unfoldable pub split_last : IrInsts → Option (IrInsts × IrInst)
split_last no_insts = none
split_last (inst_then i no_insts) = some (no_insts, i)
split_last (inst_then i (inst_then j is)) = map_option (put_first i) (split_last (inst_then j is))

abbrev pub Way : Type 0
Way = String × Option IrValue

abbrev pub case_way : IrValue → IrValue × String → Way
case_way c p = (p.1, some (v_expr t_bool ceq (value_then c (value_then p.0 no_values))))

-- The targets of the last instruction with their conditions; any other one is an exception.
unfoldable pub ways_of : IrInst → Option (List Way)
ways_of (i_branch l n) = some ((l, none) ∷ [])
ways_of (i_cond_branch c t f n) = some ((t, some c) ∷ (f, some c) ∷ [])
ways_of (i_switch c d cases) = some ((d, none) ∷ map (case_way c) cases)
ways_of (i_return t v) = some []
ways_of i_unreachable = some []
ways_of i = none

-- A return stays in the block.
abbrev pub kept_insts : IrInst → IrInsts → IrInsts → IrInsts
kept_insts (i_return t v) all init = all
kept_insts i all init = init

abbrev pub push_at : String → Way → Graph → List ℕ → Graph
push_at n way g es = record g {
  edges = insert n (es ++ g.new_edge ∷ []) g.edges;
  edge_at =
      write g.new_edge (record { next = way.0; cond = way.1; insts = no_insts; backward = none })
        g.edge_at;
  new_edge = suc g.new_edge;
}

unfoldable pub push_way : String → Way → Graph → Option Graph
push_way n way g = map_option (push_at n way g) (get n g.edges)

abbrev pub link_at : String → ℕ → Graph → List ℕ → Graph
link_at n x g bs =
    let e = g.edge_at x in
    record g {
      backwards = insert e.next (bs ++ g.new_back ∷ []) g.backwards;
      edge_at = write x (record e { backward = some g.new_back }) g.edge_at;
      back_at = write g.new_back (record { from = n; edge = x }) g.back_at;
      new_back = suc g.new_back;
    }

unfoldable pub link_edge : String → ℕ → Graph → Option Graph
link_edge n x g = map_option (link_at n x g) (get (g.edge_at x).next g.backwards)

unfoldable pub set_node : String → IrInsts → IrInst → Node → Graph → Graph
set_node n is last node g = record g {
  nodes =
      insert n (record node { insts = append node.insts is; scc = none; last_inst = some last })
        g.nodes;
}

unfoldable pub link_all : String → Graph → Option Graph
link_all n g = get n g.edges >>= λ es. each (link_edge n) es g

unfoldable pub add_ways : String → IrInsts → Graph → Option Graph
add_ways n is g = do
  p ← split_last is
  ways ← ways_of p.1
  node ← get n g.nodes
  g' ← each (push_way n) ways (set_node n (kept_insts p.1 is p.0) p.1 node g)
  link_all n g'

unfoldable pub add_blocks : List String → Graph → Graph
add_blocks [] g = g
add_blocks (n ∷ ns) g = add_blocks ns (add_block n g)

unfoldable pub build : (String → Option IrInsts) → List String → Option Graph
build blocks ns = each (λ n g. blocks n >>= λ is. add_ways n is g) ns (add_blocks ns empty_graph)
