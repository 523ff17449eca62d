-- ===== src/Flow/Branches/Cases.antt =====
-- When `rule_merge_branches` of src/frontend/IRLoader/control_flow.cpp does something.
use spoq.Base.{
  ℕ, true, false, Option, none, some, List, [], ◌∷◌, ◌≡◌, ◌≢◌, refl, inl, inr, String, ◌==◌, not,
  ◌&&◌, map_option, ◌>>=◌, Bool-cases, eq_iff,
}
use spoq.Dict.{get}
use spoq.Dict.Laws.{false→not_eq}
use spoq.Ir.{IrInsts}
use spoq.Flow.{Node, Graph}
use spoq.Flow.Rules.Cases.{Gives, bind_some, not_done, result_of}
use spoq.Flow.Branches.{
  common_next, ordered, nested, add_insts, leave_at, join_at, merge_node, merge_into, merge_edges,
  merge_branches, is_one,
}

-- The edges leave the graph, or lead to a node.
pub data Merged (n s : String) (g g' : Graph) (node : Node) : Type 0 where
  leaves : s ≡ "" → g' ≡ leave_at n g node → Merged n s g g' node
  leads :
      (bs : List ℕ)
      → s ≢ ""
      → get s g.backwards ≡ some bs
      → g' ≡ join_at n s g node bs
      → Merged n s g g' node

pub record MergeCase (n : String) (g g' : Graph) : Type 0 where
  pub node : Node
  pub ways : List ℕ
  pub common : String
  pub nest : IrInsts
  pub has_node : get n g.nodes ≡ some node
  pub has_edges : get n g.edges ≡ some ways
  pub has_common : common_next g.edge_at "" ways ≡ some common
  pub has_nest : nested g.edge_at (ordered g.edge_at ways) ≡ some nest
  pub result : Merged n common g g' (add_insts nest node)

module _ (n : String) (g g' : Graph) where
  merge_node_case :
      (s : String) (is : IrInsts) (v : Node)
      → Gives (merge_node n s g is v) g'
      → Merged n s g g' (add_insts is v)
  merge_node_case s is v h = elim (Bool-cases (s == "")) [
    | inl e ↦
        let k : Gives (some (leave_at n g (add_insts is v), true)) g' = rw e at h in
        leaves ((eq_iff s "").0 e) (result_of (leave_at n g (add_insts is v)) g' k)
    | inr e ↦
        let k : Gives
            (map_option (λ bs. (join_at n s g (add_insts is v) bs, true)) (get s g.backwards)) g' =
          rw e at h in
        go e (get s g.backwards) refl k
  ]
    where
      go :
          s == "" ≡ false
          → (o : Option (List ℕ)) → get s g.backwards ≡ o
          → Gives (map_option (λ bs. (join_at n s g (add_insts is v) bs, true)) o) g'
          → Merged n s g g' (add_insts is v)
      go e none q k = cc
      go e (some bs) q k =
          leads bs (false→not_eq s "" e) q (result_of (join_at n s g (add_insts is v) bs) g' k)

  merge_into_case :
      (es : List ℕ) (o : Option String)
      → Gives (merge_into n g es o) g'
      → (s : String) × (o ≡ some s)
        × Gives
            (nested g.edge_at (ordered g.edge_at es) >>= λ is.
              get n g.nodes >>= λ v. merge_node n s g is v)
            g'
  merge_into_case es none h = absurd (not_done g g' h)
  merge_into_case es (some s) h = elim (Bool-cases (not (s == "") && is_one es)) [
    | inl e ↦ let k : Gives (some (g, false)) g' = rw e at h in absurd (not_done g g' k)
    | inr e ↦ (s, refl, rw e at h)
  ]

  merge_edges_case :
      (es : List ℕ)
      → Gives (merge_edges n g es) g'
      → Gives (merge_into n g es (common_next g.edge_at "" es)) g'
  merge_edges_case [] h = absurd (not_done g g' h)
  merge_edges_case (x ∷ xs) h = h

  pub merge_case : merge_branches n g ≡ some (g', true) → MergeCase n g g'
  unfolding merge_branches
  merge_case h =
      let a = bind_some (get n g.edges) (merge_edges n g) (g', true) h in
      let b = merge_into_case a.0 (common_next g.edge_at "" a.0) (merge_edges_case a.0 a.2) in
      let c =
        bind_some (nested g.edge_at (ordered g.edge_at a.0))
          (λ is. get n g.nodes >>= λ v. merge_node n b.0 g is v) (g', true) b.2 in
      let d = bind_some (get n g.nodes) (λ v. merge_node n b.0 g c.0 v) (g', true) c.2 in
      record {
        node = d.0;
        ways = a.0;
        common = b.0;
        nest = c.0;
        has_node = d.1;
        has_edges = a.1;
        has_common = b.1;
        has_nest = c.1;
        result = merge_node_case b.0 c.0 d.0 d.2;
      }
