-- ===== src/Flow/Copies.antt =====
-- `rule_duplicate_node` of src/frontend/IRLoader/control_flow.cpp: a node with at most one edge goes
-- into each of the edges that lead to it.
pub mod Loop
pub mod Edges
pub mod Runs
use spoq.Base.{
  ℕ, suc, Bool, true, false, Option, none, some, List, [], ◌∷◌, ◌++◌, String, ◌==◌, nat_eq,
  if◌then◌else◌, map_option, and_then, ◌>>=◌,
}
use spoq.Dict.{get, insert}
use spoq.Ir.{IrInsts, no_insts, append}
use spoq.Flow.{Node, Edge, Backward, Graph, write, is_empty, drop_node, remove_if}
use spoq.Flow.Rules.{Step}
use spoq.Flow.Build.{each}

abbrev pub way_insts : Graph → Option ℕ → IrInsts
way_insts g none = no_insts
way_insts g (some y) = (g.edge_at y).insts

abbrev pub is_way : Option ℕ → ℕ → Bool
is_way none x = false
is_way (some y) x = nat_eq x y

abbrev pub copied_edge : String → IrInsts → Option ℕ → Edge → Edge
copied_edge s is b e = record e { next = s; insts = append e.insts is; backward = b }

abbrev pub copy_out : ℕ → IrInsts → Graph → Graph
copy_out x is g = record g { edge_at = write x (copied_edge "" is none (g.edge_at x)) g.edge_at }

abbrev pub copy_to : String → String → ℕ → IrInsts → Graph → List ℕ → Graph
copy_to s from x is g bs = record g {
  backwards = insert s (bs ++ g.new_back ∷ []) g.backwards;
  edge_at = write x (copied_edge s is (some g.new_back) (g.edge_at x)) g.edge_at;
  back_at = write g.new_back (record { from = from; edge = x }) g.back_at;
  new_back = suc g.new_back;
}

-- The edge of a link gets the instructions of the node and of its edge, and leads on. The two
-- insertions run as one.
unfoldable pub copy_link : String → Option ℕ → Node → ℕ → Graph → Option Graph
copy_link s way node b g =
    let l = g.back_at b in
    let is = append node.insts (way_insts g way) in
    if is_way way l.edge
    then none
    else if s == ""
    then some (copy_out l.edge is g)
    else map_option (copy_to s l.from l.edge is g) (get s g.backwards)

-- The links from the node leave the list of the node that it leads to.
unfoldable pub unlink_node : String → String → Graph → Option Graph
unlink_node n s g =
    if s == ""
    then some g
    else map_option
        (λ bs. record g {
          backwards = insert s (remove_if (λ b. (g.back_at b).from == n) bs) g.backwards;
        })
        (get s g.backwards)

abbrev pub done_with : String → Option Graph → Option Step
done_with n o = map_option (λ g. (drop_node n g, true)) o

abbrev pub copies : String → String → Option ℕ → Node → List ℕ → Graph → Option Step
copies n s way node bs g = done_with n (unlink_node n s g >>= each (copy_link s way node) bs)

abbrev pub copy_node : String → Graph → Option ℕ → List ℕ → Node → Option Step
copy_node n g none bs node =
    if is_empty node.loop_use then copies n "" none node bs g else some (g, false)
copy_node n g (some y) bs node =
    if is_empty node.loop_use
    then if (g.edge_at y).next == n
      then some (g, false)
      else copies n (g.edge_at y).next (some y) node bs g
    else some (g, false)

abbrev pub copy_backwards : String → Graph → Option ℕ → List ℕ → Option Step
copy_backwards n g way (a ∷ b ∷ bs) = get n g.nodes >>= copy_node n g way (a ∷ b ∷ bs)
copy_backwards n g way _ = some (g, false)

abbrev pub copy_edges : String → Graph → List ℕ → Option Step
copy_edges n g [] = get n g.backwards >>= copy_backwards n g none
copy_edges n g (y ∷ []) = get n g.backwards >>= copy_backwards n g (some y)
copy_edges n g _ = some (g, false)

unfoldable pub duplicate_node : String → Graph → Option Step
duplicate_node n g = get n g.edges >>= copy_edges n g
