-- ===== src/Flow/Meaning/Whole.antt =====
-- Steps of the main loop of `control_flow_conversion` of
-- src/frontend/IRLoader/control_flow.cpp, to a graph of one node.
use spoq.Base.{
  ℕ, ◌<◌, arith, true, some, [], ◌≡◌, ◌≢◌, refl, ap, ap₂, sym, ◌∙◌, subst, ◌⊎◌, ◌↔◌, inl, inr,
  String,
}
use spoq.Dict.{get}
use spoq.Flow.{Node, Graph}
use spoq.Flow.Rules.{eliminate_leaf, eliminate_bridge}
use spoq.Flow.Rules.Cases.{leaf_case, bridge_case}
use spoq.Flow.Branches.{add_insts, merge_branches}
use spoq.Flow.Branches.Cases.{Merged, leaves, leads, MergeCase, merge_case}
use spoq.Flow.Links.{IsLinked}
use spoq.Flow.Links.Bridge.{eliminate-IsLinked}
use spoq.Flow.Links.Fresh.{IsFresh, leaf-IsFresh, bridge-IsFresh}
use spoq.Flow.Links.Merge.{left-IsLinked, left-IsFresh}
use spoq.Flow.Links.Joined.{joined-IsLinked, joined-IsFresh}
use spoq.Flow.Meaning.{Machine, running, finished, Ends, halt, goto, arrive, exec, next}
use spoq.Flow.Meaning.Runs.{Runs, stops, goes}
use spoq.Flow.Meaning.Edges.{enter, next-enter}
use spoq.Flow.Meaning.Fusion.{leave_none}
use spoq.Flow.Meaning.Absorb.{Runs-eliminate}
use spoq.Flow.Meaning.Merge.{IfLaw}
use spoq.Flow.Meaning.Merged.{Runs-merge_branches}
use spoq.Flow.Meaning.Endings.{EndsAll, leaf-EndsAll, bridge-EndsAll, left-EndsAll, joined-EndsAll}

-- A rule that did something, on a node that is not the first one of the function where it
-- eliminates the node.
pub data Reduces (start : String) : Graph → Graph → Type 0 where
  reduced : {g : Graph} → Reduces start g g
  by_elimination :
      {g g' h : Graph} (n : String)
      → start ≢ n
      → (eliminate_leaf n g ≡ some (g', true)) ⊎ (eliminate_bridge n g ≡ some (g', true))
      → Reduces start g' h
      → Reduces start g h
  by_merging :
      {g g' h : Graph} (n : String)
      → merge_branches n g ≡ some (g', true)
      → Reduces start g' h
      → Reduces start g h

-- What the rules keep.
pub record IsSound (M : Machine) (g : Graph) : Type 0 where
  pub is_linked : IsLinked g
  pub is_fresh : IsFresh g
  pub ends_all : EndsAll M g

not_below : (i k : ℕ) → i < k → i ≢ k
not_below i k h p = absurd (omega arith)

module _ (M : Machine) (law : IfLaw M) where
  open M use {State, Result}

  eliminate-IsSound :
      (g g' : Graph) (n : String)
      → IsSound M g
      → (eliminate_leaf n g ≡ some (g', true)) ⊎ (eliminate_bridge n g ≡ some (g', true))
      → IsSound M g'
  eliminate-IsSound g g' n v (inl h) =
      let c = leaf_case n g g' h in
      record {
        is_linked = eliminate-IsLinked g n g' v.is_linked (inl h);
        is_fresh = subst IsFresh (sym c.result) (leaf-IsFresh g v.is_linked v.is_fresh n g' c);
        ends_all =
            subst (EndsAll M) (sym c.result) (leaf-EndsAll M g v.is_linked v.ends_all n g' c);
      }
  eliminate-IsSound g g' n v (inr h) =
      let c = bridge_case n g g' h in
      record {
        is_linked = eliminate-IsLinked g n g' v.is_linked (inr h);
        is_fresh = subst IsFresh (sym c.result) (bridge-IsFresh g v.is_linked v.is_fresh n g' c);
        ends_all =
            subst (EndsAll M) (sym c.result) (bridge-EndsAll M g v.is_linked v.ends_all n g' c);
      }

  merged-IsSound :
      (g g' : Graph) (n : String)
      → IsSound M g
      → (c : MergeCase n g g') → Merged n c.common g g' (add_insts c.nest c.node)
      → IsSound M g'
  merged-IsSound g g' n v c (leaves p q) = subst (IsSound M) (sym q) (record {
    is_linked = left-IsLinked g v.is_linked v.is_fresh n g' c (add_insts c.nest c.node) p;
    is_fresh = left-IsFresh g v.is_linked v.is_fresh n g' c (add_insts c.nest c.node);
    ends_all = left-EndsAll M g v.is_linked v.ends_all n g' law v.is_fresh c p;
  })
  merged-IsSound g g' n v c (leads bs p q r) =
      let node = add_insts c.nest c.node in
      subst (IsSound M) (sym r) (record {
        is_linked = joined-IsLinked g v.is_linked v.is_fresh n g' c node bs p q;
        is_fresh = joined-IsFresh g v.is_linked v.is_fresh n g' c node bs p q;
        ends_all = joined-EndsAll M g v.is_linked v.ends_all n g' law v.is_fresh c bs p q;
      })

  pub merge-IsSound :
      (g g' : Graph) (n : String)
      → IsSound M g
      → merge_branches n g ≡ some (g', true)
      → IsSound M g'
  merge-IsSound g g' n v h = let c = merge_case n g g' h in merged-IsSound g g' n v c c.result

  -- `rule_eliminate_leaf`, `rule_eliminate_bridge` and `rule_merge_branches` keep a graph sound: the
  -- dictionaries stay valid, the link of an edge that leads to a node is in the list of this node and
  -- names the edge and the node that the edge leaves, the edge of every link in a list is one of the
  -- node that the link names, leads to the node of the list and has the link, new addresses are not
  -- in use, and a run ends on every edge that leaves the graph and in every node without edges. A
  -- conditional does what its condition says.
  pub rules-IsSound :
      (g g' : Graph) (n : String)
      → IsSound M g
      → (eliminate_leaf n g ≡ some (g', true))
        ⊎ (eliminate_bridge n g ≡ some (g', true))
        ⊎ (merge_branches n g ≡ some (g', true))
      → IsSound M g'
  rules-IsSound g g' n v (inl h) = eliminate-IsSound g g' n v (inl h)
  rules-IsSound g g' n v (inr (inl h)) = eliminate-IsSound g g' n v (inr h)
  rules-IsSound g g' n v (inr (inr h)) = merge-IsSound g g' n v h

  merge-Runs :
      (g g' : Graph) (n : String)
      → IsSound M g
      → merge_branches n g ≡ some (g', true)
      → (m : String) (s : State) (o : Ends M) → Runs M g m s o ↔ Runs M g' m s o
  merge-Runs g g' n v h =
      Runs-merge_branches M g n g' law v.is_linked
        (λ m es x k i p. not_below x g.new_edge (v.is_fresh.edges_below m es x k i) p)
        (λ es x s k i p. v.ends_all.edges_end n es x k i p s) h

  both : {A B C : Type 0} → A ↔ B → B ↔ C → A ↔ C
  both f g = (λ a. g.0 (f.0 a), λ c. f.1 (g.1 c))

  Runs-Reduces :
      (start : String) {g h : Graph}
      → IsSound M g
      → Reduces start g h
      → (s : State) (o : Ends M) → Runs M g start s o ↔ Runs M h start s o
  Runs-Reduces start v reduced s o = (λ r. r, λ r. r)
  Runs-Reduces start {g} v (by_elimination {g = _} {g' = g'} n k e r) s o =
      both (Runs-eliminate M g v.is_linked n g' e start s o k)
        (Runs-Reduces start (eliminate-IsSound g g' n v e) r s o)
  Runs-Reduces start {g} v (by_merging {g = _} {g' = g'} n e r) s o =
      both (merge-Runs g g' n v e start s o) (Runs-Reduces start (merge-IsSound g g' n v e) r s o)

  -- A node without edges runs its instructions, and the run ends.
  next-single :
      (h : Graph) (m : String) (node : Node)
      → get m h.nodes ≡ some node
      → get m h.edges ≡ some []
      → (s : State) → next M h m s ≡ some (halt (exec M node.insts s))
  next-single h m node p q s =
      next-enter M h m s
      ∙ ap₂ (enter M h.edge_at s) p q
      ∙ ap some (leave_none M h.edge_at (exec M node.insts s) ∙ go (exec M node.insts s))
    where
      go : (o : Ends M) → arrive M "" o ≡ halt o
      go (running t) = refl
      go (finished r) = refl

  Runs-single :
      (h : Graph) (m : String) (node : Node)
      → get m h.nodes ≡ some node
      → get m h.edges ≡ some []
      → (s : State) (o : Ends M) → Runs M h m s o ↔ (exec M node.insts s ≡ o)
  Runs-single h m node p q s o =
      (there, λ e. stops (next-single h m node p q s ∙ ap (λ x. some (halt x)) e))
    where
      there : Runs M h m s o → exec M node.insts s ≡ o
      there (stops e) =
          let k : some (halt (exec M node.insts s)) ≡ some (halt o) =
            sym (next-single h m node p q s) ∙ e in
          cc
      there (goes {m = _} {k = t} {s = _} {t = u} e r) =
          let k : some (halt (exec M node.insts s)) ≡ some (goto t u) =
            sym (next-single h m node p q s) ∙ e in
          cc

  -- Structured code means what the graph meant: where `rule_eliminate_leaf`,
  -- `rule_eliminate_bridge` and `rule_merge_branches` reduce a graph, in any order and on any nodes
  -- but that the first node of the function is not eliminated, until this node has no edges, its
  -- instructions end as the runs of the graph from there do, and only so. The edges and links of the
  -- graph belong together, new addresses are not in use, a run ends on every edge that leaves the
  -- graph and in every node without edges, and a conditional does what its condition says.
  pub exec-Reduces :
      (g h : Graph) (start : String) (node : Node)
      → IsSound M g
      → Reduces start g h
      → get start h.nodes ≡ some node
      → get start h.edges ≡ some []
      → (s : State) (o : Ends M) → Runs M g start s o ↔ (exec M node.insts s ≡ o)
  exec-Reduces g h start node v r p q s o =
      both (Runs-Reduces start v r s o) (Runs-single h start node p q s o)
