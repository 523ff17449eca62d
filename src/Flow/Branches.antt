-- ===== src/Flow/Branches.antt =====
-- The rules of src/frontend/IRLoader/control_flow.cpp on the branches that leave a node, and on the
-- copies of a node.
pub mod Cases
use spoq.Base.{
  ℕ, suc, Bool, true, false, Option, none, some, List, [], ◌∷◌, ◌++◌, String, ◌==◌, nat_eq, not,
  ◌&&◌, ◌||◌, if◌then◌else◌, map_option, and_then, ◌>>=◌,
}
use spoq.Dict.{Dict, get, insert, length}
use spoq.Ir.{
  IrValue, IrValues, no_values, value_then, v_expr, t_bool, o_or, IrInst, IrInsts, no_insts,
  inst_then, i_if, append, one_inst,
}
use spoq.Flow.{Node, Edge, Backward, Graph, write, is_empty, drop_node, remove_if}
use spoq.Flow.Rules.{Step}

-- `rule_merge_branches`: the one name that the edges lead to, or the empty name where they leave the
-- graph; `none` where two of them lead to different nodes.
abbrev pub join_next : String → String → Option String
join_next s t =
    if t == "" then some s else if s == "" then some t else if s == t then some s else none

unfoldable pub common_next : (ℕ → Edge) → String → List ℕ → Option String
common_next h s [] = some s
common_next h s (x ∷ xs) = join_next s (h x).next >>= λ t. common_next h t xs

unfoldable pub replace_last : ℕ → List ℕ → List ℕ
replace_last t [] = []
replace_last t (x ∷ []) = t ∷ []
replace_last t (x ∷ y ∷ ys) = x ∷ replace_last t (y ∷ ys)

unfoldable pub last : ℕ → List ℕ → ℕ
last t [] = t
last t (x ∷ xs) = last x xs

-- The first edge and the last change places.
abbrev pub swap_ends : List ℕ → List ℕ
swap_ends [] = []
swap_ends (t ∷ []) = t ∷ []
swap_ends (t ∷ x ∷ xs) = last x xs ∷ replace_last t (x ∷ xs)

abbrev pub is_none {ℓ} : {A : Type ℓ} → Option A → Bool
is_none none = true
is_none (some a) = false

abbrev pub first_has_cond : (ℕ → Edge) → List ℕ → Bool
first_has_cond h [] = true
first_has_cond h (t ∷ ts) = not (is_none (h t).cond)

unfoldable pub ordered : (ℕ → Edge) → List ℕ → List ℕ
ordered h es = if first_has_cond h es then es else swap_ends es

abbrev pub test_then : Edge → IrInsts → Option IrInsts
test_then e rest = map_option (λ c. one_inst (i_if c e.insts rest)) e.cond

-- The nest of conditionals, with the instructions of the last edge inside.
unfoldable pub nested : (ℕ → Edge) → List ℕ → Option IrInsts
nested h [] = none
nested h (x ∷ []) = some (h x).insts
nested h (x ∷ y ∷ ys) = nested h (y ∷ ys) >>= test_then (h x)

abbrev pub add_insts : IrInsts → Node → Node
add_insts is node = record node { insts = append node.insts is }

abbrev pub plain_edge : String → ℕ → Edge
plain_edge s b = record { next = s; cond = none; insts = no_insts; backward = some b }

-- One new edge in place of all, and one new link in place of those from the node.
unfoldable pub join_at : String → String → Graph → Node → List ℕ → Graph
join_at n s g node bs = record g {
  nodes = insert n node g.nodes;
  edges = insert n (g.new_edge ∷ []) g.edges;
  backwards = insert s (remove_if (λ b. (g.back_at b).from == n) bs ++ g.new_back ∷ []) g.backwards;
  edge_at = write g.new_edge (plain_edge s g.new_back) g.edge_at;
  back_at = write g.new_back (record { from = n; edge = g.new_edge }) g.back_at;
  new_edge = suc g.new_edge;
  new_back = suc g.new_back;
}

unfoldable pub leave_at : String → Graph → Node → Graph
leave_at n g node = record g { nodes = insert n node g.nodes; edges = insert n [] g.edges }

abbrev pub merge_node : String → String → Graph → IrInsts → Node → Option Step
merge_node n s g is node =
    if s == ""
    then some (leave_at n g (add_insts is node), true)
    else map_option (λ bs. (join_at n s g (add_insts is node) bs, true)) (get s g.backwards)

abbrev pub is_one : List ℕ → Bool
is_one (x ∷ []) = true
is_one _ = false

abbrev pub merge_into : String → Graph → List ℕ → Option String → Option Step
merge_into n g es none = some (g, false)
merge_into n g es (some s) = if not (s == "") && is_one es then some (g, false) else do
  is ← nested g.edge_at (ordered g.edge_at es)
  node ← get n g.nodes
  merge_node n s g is node

abbrev pub merge_edges : String → Graph → List ℕ → Option Step
merge_edges n g [] = some (g, false)
merge_edges n g (x ∷ xs) = merge_into n g (x ∷ xs) (common_next g.edge_at "" (x ∷ xs))

unfoldable pub merge_branches : String → Graph → Option Step
merge_branches n g = get n g.edges >>= merge_edges n g

-- `rule_merge_branches_local`: the first two edges that lead to the same node.
abbrev pub lead_together : (ℕ → Edge) → ℕ → ℕ → Bool
lead_together h x y =
    not (nat_eq x y)
    && (not ((h x).next == "") && (not ((h y).next == "") && (h x).next == (h y).next))

unfoldable pub partner : (ℕ → Edge) → ℕ → List ℕ → Option ℕ
partner h x [] = none
partner h x (y ∷ ys) = let rest = partner h x ys in if lead_together h x y then some y else rest

abbrev pub or_pair : ℕ → Option ℕ → Option (ℕ × ℕ) → Option (ℕ × ℕ)
or_pair x (some y) rest = some (x, y)
or_pair x none rest = rest

unfoldable pub first_pair : (ℕ → Edge) → List ℕ → List ℕ → Option (ℕ × ℕ)
first_pair h [] es = none
first_pair h (x ∷ xs) es = let rest = first_pair h xs es in or_pair x (partner h x es) rest

abbrev pub either_value : IrValue → IrValue → IrValue
either_value a b = v_expr t_bool o_or (value_then a (value_then b no_values))

unfoldable pub joined_cond : Option IrValue → Option IrValue → Option IrValue
joined_cond (some a) (some b) = some (either_value a b)
joined_cond none (some b) = some b
joined_cond a none = a

-- The condition of the new conditional is the one that the first edge has by now.
unfoldable pub joined_edge : Edge → Edge → Option Edge
joined_edge e f =
    map_option (λ c. record e { cond = some c; insts = one_inst (i_if c e.insts f.insts) })
      (joined_cond e.cond f.cond)

abbrev pub is_link : Option ℕ → ℕ → Bool
is_link none b = false
is_link (some c) b = nat_eq b c

abbrev pub join_pair : String → Graph → List ℕ → Option (ℕ × ℕ) → Option Step
join_pair n g es none = some (g, false)
join_pair n g es (some (x, y)) = do
  e ← joined_edge (g.edge_at x) (g.edge_at y)
  bs ← get e.next g.backwards
  some (
    record g {
      edges = insert n (remove_if (nat_eq y) es) g.edges;
      backwards = insert e.next (remove_if (is_link (g.edge_at y).backward) bs) g.backwards;
      edge_at = write x e g.edge_at;
    },
    true,
  )

unfoldable pub merge_branches_local : String → Graph → Option Step
merge_branches_local n g = get n g.edges >>= λ es. join_pair n g es (first_pair g.edge_at es es)
