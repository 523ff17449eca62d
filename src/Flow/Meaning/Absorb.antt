-- ===== src/Flow/Meaning/Absorb.antt =====
-- Runs after `rule_eliminate_leaf` and `rule_eliminate_bridge` of
-- src/frontend/IRLoader/control_flow.cpp.
use spoq.Base.{
  true, some, [], ◌∷◌, ◌≡◌, ◌≢◌, refl, ap, ap₂, sym, ◌∙◌, subst, String, ◌==◌, ◌↔◌, ◌⊎◌, inl, inr,
  Bool-cases,
}
use spoq.Ir.{IrInsts, append, no_insts, inst_then}
use spoq.Flow.{Edge, Graph, drop_node}
use spoq.Flow.Rules.{absorb_leaf, absorb_bridge, eliminate_leaf, eliminate_bridge}
use spoq.Flow.Rules.Cases.{LeafCase, leaf_case, BridgeCase, bridge_case}
use spoq.Flow.Links.{Memᴰ, IsLinked}
use spoq.Flow.Links.Fusion.{has_name, only_edge, differ}
use spoq.Flow.Meaning.{
  Machine, running, finished, halt, goto, Ends, arrive, exec, exec-append, next,
}
use spoq.Flow.Meaning.Runs.{Fuses, Runs, Runs-Fuses}
use spoq.Flow.Meaning.Edges.{next-enter, enter, next-erase}
use spoq.Flow.Meaning.Fusion.{leave_none, leave_one, carries_write, cond_write}

append_assoc : (is js ks : IrInsts) → append (append is js) ks ≡ append is (append js ks)
unfolding append
append_assoc no_insts js ks = refl
append_assoc (inst_then i is) js ks = ap (inst_then i) (append_assoc is js ks)

-- A node whose moves all arrive elsewhere is not moved to.
pub no_return :
    (M : Machine) (g : Graph) (n k : String) (tail : IrInsts)
    → ((t : M.State) → next M g n t ≡ some (arrive M k (exec M tail t)))
    → k ≢ n
    → (s t : M.State) → next M g n s ≢ some (goto n t)
no_return M g n k tail f h s t e = go (exec M tail s) (sym (f s) ∙ e)
  where
    go : (o : Ends M) → some (arrive M k o) ≢ some (goto n t)
    go (running u) p = elim (Bool-cases (k == "")) [
      | inl q ↦ let r : some (halt (running u)) ≡ some (goto n t) = rw q at p in cc
      | inr q ↦ let r : some (goto k u) ≡ some (goto n t) = rw q at p in let v : k ≡ n = cc in h v
    ]
    go (finished r) p = cc

module _ (M : Machine) (g : Graph) (w : IsLinked g) (n : String) where
  open M use {State, Result}

  module _ (g' : Graph) (c : LeafCase n g g') where
    next-leaf : (t : State) → next M g n t ≡ some (arrive M "" (exec M c.node.insts t))
    next-leaf t =
        next-enter M g n t
        ∙ ap₂ (enter M g.edge_at t) c.has_node c.has_edges
        ∙ ap some (leave_none M g.edge_at (exec M c.node.insts t))

    leaf-Fuses : Fuses M g (absorb_leaf n g (g.back_at c.link).edge c.node) n
    unfolding absorb_leaf drop_node
    leaf-Fuses =
        let x = (g.back_at c.link).edge in
        let old = g.edge_at x in
        let e : Edge = record old { insts = append old.insts c.node.insts; next = "" } in
        record {
          next-resolve =
              next-erase M g (absorb_leaf n g x c.node) n w.nodes_valid w.edges_valid refl refl
                (cond_write M g w n c.link c.has_links e c.node.insts refl)
                (carries_write M g w n c.link c.has_links e c.node.insts (refl, next-leaf));
          no_return =
              no_return M g n "" c.node.insts next-leaf
                (λ p. has_name g w n (c.link ∷ []) c.has_links (sym p));
        }

  module _ (g' : Graph) (c : BridgeCase n g g') where
    abbrev way_out : Edge
    way_out = g.edge_at c.way

    next-bridge :
        (t : State)
        → next M g n t ≡ some (arrive M way_out.next (exec M (append c.node.insts way_out.insts) t))
    next-bridge t =
        next-enter M g n t
        ∙ ap₂ (enter M g.edge_at t) c.has_node c.has_edges
        ∙ ap some (leave_one M g.edge_at c.way (exec M c.node.insts t))
        ∙ ap (λ o. some (arrive M way_out.next o))
            (sym (exec-append M c.node.insts way_out.insts t))

    -- The edge of the node is not the one that leads to it, so it leads on.
    leads_on : way_out.next ≢ n
    leads_on p =
        differ (g.back_at c.link).edge c.way c.other
          (only_edge g w n c.link n (c.way ∷ []) c.way c.has_links c.has_edges (Memᴰ.head refl) p).0

    bridge-Fuses :
        Fuses M g (absorb_bridge n g (g.back_at c.link).from (g.back_at c.link).edge c.way c.node) n
    unfolding absorb_bridge drop_node
    bridge-Fuses =
        let x = (g.back_at c.link).edge in
        let old = g.edge_at x in
        let tail = append c.node.insts way_out.insts in
        let e : Edge = record old {
          next = way_out.next;
          insts = append (append old.insts c.node.insts) way_out.insts;
          backward = way_out.backward;
        } in
        record {
          next-resolve =
              next-erase M g (absorb_bridge n g (g.back_at c.link).from x c.way c.node) n
                w.nodes_valid w.edges_valid refl refl
                (cond_write M g w n c.link c.has_links e tail refl)
                (carries_write M g w n c.link c.has_links e tail
                  (append_assoc old.insts c.node.insts way_out.insts, next-bridge));
          no_return = no_return M g n way_out.next tail next-bridge leads_on;
        }

  -- `rule_eliminate_leaf` and `rule_eliminate_bridge` keep what a graph does: where either changes a
  -- graph whose edges and links belong together, the graphs come to the same ends from every node
  -- but the one that is eliminated.
  pub Runs-eliminate :
      (g' : Graph)
      → (eliminate_leaf n g ≡ some (g', true)) ⊎ (eliminate_bridge n g ≡ some (g', true))
      → (m : String) (s : State) (o : Ends M) → m ≢ n
      → Runs M g m s o ↔ Runs M g' m s o
  Runs-eliminate g' (inl h) m s o k =
      let c = leaf_case n g g' h in
      subst (λ x. Runs M g m s o ↔ Runs M x m s o) (sym c.result)
        (Runs-Fuses M (leaf-Fuses g' c) m s o k)
  Runs-eliminate g' (inr h) m s o k =
      let c = bridge_case n g g' h in
      subst (λ x. Runs M g m s o ↔ Runs M x m s o) (sym c.result)
        (Runs-Fuses M (bridge-Fuses g' c) m s o k)
