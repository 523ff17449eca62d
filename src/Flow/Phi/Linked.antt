-- ===== src/Flow/Phi/Linked.antt =====
-- Edges and links after the removal of PHI nodes in `control_flow_conversion` of
-- src/frontend/IRLoader/control_flow.cpp.
use spoq.Base.{
  ℕ, true, false, Option, some, List, [], ◌∷◌, ◌≡◌, ◌≢◌, refl, ap, ◌∙◌, subst, inl, inr, ◌⊎◌,
  String, ◌==◌, nat_eq, nat_eq→eq, map, Bool-cases,
}
use spoq.Dict.{get, entries}
use spoq.Dict.Valid.{insert-IsValid}
use spoq.Ir.{IrType, IrValue, IrInst, IrInsts, no_insts, inst_then, i_phi, i_assign}
use spoq.Flow.{Node, Edge, Graph, write}
use spoq.Flow.Rules.Cases.{bind_some}
use spoq.Flow.Links.{Memᴰ, IsLinked}
use spoq.Flow.Links.Fusion.{some_eq, write_here, write_other}
use spoq.Flow.Links.Fresh.{IsFresh}
use spoq.Flow.Build.{each, build}
use spoq.Flow.Build.Pending.{AllApart}
use spoq.Flow.Build.Linked.{map_some}
use spoq.Flow.Build.Start.{build-IsLinked}
use spoq.Flow.Phi.{
  with_inst, add_to_edge, add_to_edges, add_value, add_phi, add_phis, without_phis, phi_block,
  eliminate_phis, remove_phis, name_of, initial_graph,
}
use spoq.Flow.Phi.Same.{SameLinks, same, both, same-IsLinked, same-IsFresh}

abbrev SameEdge : Edge → Edge → Type 0
SameEdge e d = (d.next ≡ e.next) × (d.backward ≡ e.backward)

add_to_edge_same :
    (n : String) (i : IrInst) (y : ℕ) (h : ℕ → Edge) (x : ℕ)
    → SameEdge (h x) (add_to_edge n i y h x)
add_to_edge_same n i y h x = elim (Bool-cases ((h y).next == n)) [
  | inl q ↦ rw q (written (Bool-cases (nat_eq y x)))
  | inr q ↦ rw q (refl, refl)
]
  where
    written :
        (nat_eq y x ≡ true) ⊎ (nat_eq y x ≡ false)
        → SameEdge (h x) (write y (with_inst i (h y)) h x)
    written (inl q) =
        let e = nat_eq→eq y x q in
        let w = write_here y x (with_inst i (h y)) h e in
        (
          ap (λ d. d.next) w ∙ ap (λ z. (h z).next) e,
          ap (λ d. d.backward) w ∙ ap (λ z. (h z).backward) e,
        )
    written (inr q) =
        let w = write_other y x (with_inst i (h y)) h q in
        (ap (λ d. d.next) w, ap (λ d. d.backward) w)

add_to_edges_same :
    (n : String) (i : IrInst) (es : List ℕ) (h : ℕ → Edge) (x : ℕ)
    → SameEdge (h x) (add_to_edges n i es h x)
unfolding add_to_edges
add_to_edges_same n i [] h x = (refl, refl)
add_to_edges_same n i (y ∷ ys) h x =
    let a = add_to_edges_same n i ys (add_to_edge n i y h) x in
    let b = add_to_edge_same n i y h x in (a.0 ∙ b.0, a.1 ∙ b.1)

each_same :
    {A : Type 0} (f : A → Graph → Option Graph)
    → ((a : A) (g g' : Graph) → f a g ≡ some g' → SameLinks g g')
    → (xs : List A) (g g' : Graph) → each f xs g ≡ some g'
    → SameLinks g g'
unfolding each
each_same f h [] g g' e = subst (SameLinks g) (some_eq e) (same g)
each_same f h (x ∷ xs) g g' e =
    let (k, a, b) = bind_some (f x g) (each f xs) g' e in both (h x g k a) (each_same f h xs k g' b)

-- A change of instructions on edges.
edges_same :
    (g : Graph) (h : ℕ → Edge)
    → ((x : ℕ) → SameEdge (g.edge_at x) (h x))
    → SameLinks g (record g { edge_at = h })
edges_same g h f = record {
  valid = λ v. v;
  edges = refl;
  backwards = refl;
  back_at = refl;
  new_edge = refl;
  new_back = refl;
  same_next = λ x. (f x).0;
  same_backward = λ x. (f x).1;
}

module _ (coq_name : String → String) (n : String) where
  add_value_same :
      (t : IrType) (y : String) (p : IrValue × String) (g g' : Graph)
      → add_value coq_name n t y p g ≡ some g'
      → SameLinks g g'
  unfolding add_value
  add_value_same t y p g g' e =
      let i = i_assign t (coq_name y) p.0 in
      let (es, a, b) =
        map_some (λ es. record g { edge_at = add_to_edges n i es g.edge_at }) (get p.1 g.edges) g'
          e in
      subst (SameLinks g) b
        (edges_same g (add_to_edges n i es g.edge_at) (add_to_edges_same n i es g.edge_at))

  add_phi_same : (i : IrInst) (g g' : Graph) → add_phi coq_name n i g ≡ some g' → SameLinks g g'
  unfolding add_phi
  add_phi_same (i_phi t y values) g g' e =
      each_same (add_value coq_name n t y) (add_value_same t y) values g g' e
  add_phi_same _ g g' e = subst (SameLinks g) (some_eq e) (same g)

  add_phis_same :
      (is : IrInsts) (g g' : Graph) → add_phis coq_name n is g ≡ some g' → SameLinks g g'
  unfolding add_phis
  add_phis_same no_insts g g' e = subst (SameLinks g) (some_eq e) (same g)
  add_phis_same (inst_then i is) g g' e =
      let (k, a, b) = bind_some (add_phi coq_name n i g) (add_phis coq_name n is) g' e in
      both (add_phi_same i g k a) (add_phis_same is k g' b)

  without_phis_same : (node : Node) (g : Graph) → SameLinks g (without_phis n node g)
  unfolding without_phis
  without_phis_same node g = record {
    valid = λ v. insert-IsValid n (record node { insts = remove_phis node.insts }) g.nodes v;
    edges = refl;
    backwards = refl;
    back_at = refl;
    new_edge = refl;
    new_back = refl;
    same_next = λ x. refl;
    same_backward = λ x. refl;
  }

phi_block_same :
    (coq_name : String → String) (n : String) (g g' : Graph)
    → phi_block coq_name n g ≡ some g'
    → SameLinks g g'
unfolding phi_block
phi_block_same coq_name n g g' e =
    let (node, a, b) = bind_some (get n g.nodes) _ g' e in
    let (k, c, d) = bind_some (add_phis coq_name n node.insts g) _ g' b in
    both (add_phis_same coq_name n node.insts g k c)
      (subst (SameLinks k) (some_eq d) (without_phis_same coq_name n node k))

-- In the graph that the main loop starts with, where it can be made, edges and links belong together
-- and new addresses are not in use, if the names of the blocks are different and not empty.
pub initial_graph-IsLinked :
    (coq_name : String → String) (blocks : String → Option IrInsts) (ns : List String) (g : Graph)
    → AllApart ns
    → ((n : String) → Memᴰ n ns → n ≢ "")
    → initial_graph coq_name blocks ns ≡ some g
    → IsLinked g × IsFresh g
unfolding initial_graph eliminate_phis
initial_graph-IsLinked coq_name blocks ns g names named e =
    let (k, a, b) = bind_some (build blocks ns) (eliminate_phis coq_name) g e in
    let v = build-IsLinked blocks ns k names named a in
    let s =
      each_same (phi_block coq_name) (phi_block_same coq_name) (map name_of (entries k.nodes)) k g
        b in
    (same-IsLinked k g s v.0, same-IsFresh k g s v.1)
