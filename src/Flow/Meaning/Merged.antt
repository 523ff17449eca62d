-- ===== src/Flow/Meaning/Merged.antt =====
-- A graph before and after `rule_merge_branches` of src/frontend/IRLoader/control_flow.cpp.
use spoq.Base.{
  ℕ, true, Option, none, some, List, [], ◌∷◌, ◌≡◌, ◌≢◌, refl, ap, ap₂, sym, ◌∙◌, ◌⊎◌, ◌↔◌, inl, inr,
  String, ◌==◌, not, if◌then◌else◌, Bool-cases, eq_iff,
}
use spoq.Dict.{get, insert}
use spoq.Dict.Laws.{get-insert, get-insert_other, false→not_eq}
use spoq.Ir.{append}
use spoq.Flow.{Node, Edge, Graph, write}
use spoq.Flow.Branches.{
  ordered, swap_ends, is_none, add_insts, plain_edge, leave_at, join_at, merge_branches,
}
use spoq.Flow.Branches.Cases.{Merged, leaves, leads, MergeCase, merge_case}
use spoq.Flow.Links.{Memᴰ, IsLinked}
use spoq.Flow.Links.Fusion.{write_here, write_other, apart}
use spoq.Flow.Meaning.{
  Machine, running, finished, Ends, continue, exec, exec-append, taken, pick, arrive, traverse,
  along, leave, next,
}
use spoq.Flow.Meaning.Runs.{Runs, stops, goes}
use spoq.Flow.Meaning.Edges.{enter, next-enter, ordered-Memᴰ, pick-Memᴰ}
use spoq.Flow.Meaning.Choice.{leave-ordered}
use spoq.Flow.Meaning.Fusion.{leave_none, leave_one}
use spoq.Flow.Meaning.Merge.{IfLaw, common_next-Memᴰ, exec-no_insts, exec-nested}

-- The address for a new edge is not that of an edge.
abbrev pub IsUnused : Graph → Type 0
IsUnused g =
    (m : String) (es : List ℕ) (x : ℕ) → get m g.edges ≡ some es → Memᴰ x es → x ≢ g.new_edge

-- The run ends along every edge of the node that leaves the graph.
abbrev pub EndsOutside : (M : Machine) → Graph → String → Type 0
EndsOutside M g n =
    (es : List ℕ) (x : ℕ) (s : M.State)
    → get n g.edges ≡ some es
    → Memᴰ x es
    → (g.edge_at x).next ≡ ""
    → (r : M.Result) × (exec M (g.edge_at x).insts s ≡ finished r)

module _ (M : Machine) where
  open M use {State, Result}

  pick_local :
      (h h' : ℕ → Edge) (xs : List ℕ) (s : State)
      → ((x : ℕ) → Memᴰ x xs → h' x ≡ h x)
      → pick M h' xs s ≡ pick M h xs s
  unfolding pick
  pick_local h h' [] s f = refl
  pick_local h h' (x ∷ []) s f = refl
  pick_local h h' (x ∷ y ∷ ys) s f =
      ap₂ (λ e o. if taken M e.cond s then some x else o) (f x (Memᴰ.head refl))
        (pick_local h h' (y ∷ ys) s (λ z m. f z (Memᴰ.tail m)))

  ordered_local :
      (h h' : ℕ → Edge) (xs : List ℕ)
      → ((x : ℕ) → Memᴰ x xs → h' x ≡ h x)
      → ordered h' xs ≡ ordered h xs
  unfolding ordered
  ordered_local h h' [] f = refl
  ordered_local h h' (x ∷ xs) f =
      ap (λ e. if not (is_none e.cond) then x ∷ xs else swap_ends (x ∷ xs)) (f x (Memᴰ.head refl))

  leave_local :
      (h h' : ℕ → Edge) (xs : List ℕ) (o : Ends M)
      → ((x : ℕ) → Memᴰ x xs → h' x ≡ h x)
      → leave M h' xs o ≡ leave M h xs o
  unfolding leave
  leave_local h h' xs (finished r) f = refl
  leave_local h h' xs (running s) f =
      leave-ordered M h' xs s
      ∙ ap (λ ys. along M h' s (pick M h' ys s)) (ordered_local h h' xs f)
      ∙ ap (along M h' s) (pick_local h h' (ordered h xs) s (λ x m. f x (ordered-Memᴰ h xs x m)))
      ∙ go (pick M h (ordered h xs) s) refl
      ∙ sym (leave-ordered M h xs s)
    where
      go : (o : Option ℕ) → pick M h (ordered h xs) s ≡ o → along M h' s o ≡ along M h s o
      go none e = refl
      go (some x) e =
          ap (λ d. traverse M d s) (f x (ordered-Memᴰ h xs x (pick-Memᴰ M h (ordered h xs) s x e)))

  pub Runs-same :
      (g g' : Graph)
      → ((m : String) (s : State) → next M g' m s ≡ next M g m s)
      → (m : String) (s : State) (o : Ends M) → Runs M g m s o ↔ Runs M g' m s o
  Runs-same g g' f m s o = (there f, there (λ k t. sym (f k t)))
    where
      there :
          {g g' : Graph}
          → ((m : String) (s : State) → next M g' m s ≡ next M g m s)
          → {m : String} {s : State} {o : Ends M} → Runs M g m s o
          → Runs M g' m s o
      there f {m} {s} (stops e) = stops (f m s ∙ e)
      there f {m} {s} (goes e r) = goes (f m s ∙ e) (there f r)

  module _ (law : IfLaw M) (g : Graph) (w : IsLinked g) (n : String) (g' : Graph)
      (c : MergeCase n g g') (outside : EndsOutside M g n) where
    arrival :
        (x : ℕ) (s : State)
        → ((g.edge_at x).next ≡ "") ⊎ ((g.edge_at x).next ≡ c.common)
        → Memᴰ x c.ways
        → traverse M (g.edge_at x) s ≡ arrive M c.common (exec M (g.edge_at x).insts s)
    unfolding traverse
    arrival x s (inl p) m =
        let q = (outside c.ways x s c.has_edges m p).1 in
        ap (arrive M (g.edge_at x).next) q ∙ ap (arrive M c.common) (sym q)
    arrival x s (inr p) m = ap (λ t. arrive M t (exec M (g.edge_at x).insts s)) p

    leave_nested :
        (o : Ends M) → leave M g.edge_at c.ways o ≡ arrive M c.common (continue M (exec M c.nest) o)
    unfolding leave
    leave_nested (finished r) = refl
    leave_nested (running s) =
        let (x, u, v) =
          exec-nested M law g.edge_at (ordered g.edge_at c.ways) c.nest s c.has_nest in
        let m =
          ordered-Memᴰ g.edge_at c.ways x
            (pick-Memᴰ M g.edge_at (ordered g.edge_at c.ways) s x u) in
        leave-ordered M g.edge_at c.ways s
        ∙ ap (along M g.edge_at s) u
        ∙ arrival x s (common_next-Memᴰ g.edge_at "" c.ways c.common x c.has_common m) m
        ∙ ap (arrive M c.common) (sym v)

    next-before :
        (s : State)
        → next M g n s ≡ some (arrive M c.common (exec M (append c.node.insts c.nest) s))
    next-before s =
        next-enter M g n s
        ∙ ap₂ (enter M g.edge_at s) c.has_node c.has_edges
        ∙ ap some (leave_nested (exec M c.node.insts s))
        ∙ ap (λ o. some (arrive M c.common o)) (sym (exec-append M c.node.insts c.nest s))

    abbrev node' : Node
    node' = add_insts c.nest c.node

    next-left :
        c.common ≡ "" → (m : String) (s : State) → next M (leave_at n g node') m s ≡ next M g m s
    unfolding leave_at
    next-left p m s = elim (Bool-cases (m == n)) [
      | inl e ↦
          let q = (eq_iff m n).0 e in
          next-enter M (leave_at n g node') m s
          ∙ ap₂ (enter M g.edge_at s)
              (ap (λ k. get k (insert n node' g.nodes)) q
                ∙ get-insert n node' g.nodes w.nodes_valid)
              (ap (λ k. get k (insert n [] g.edges)) q ∙ get-insert n [] g.edges w.edges_valid)
          ∙ ap some (leave_none M g.edge_at (exec M node'.insts s))
          ∙ ap (λ t. some (arrive M t (exec M node'.insts s))) (sym p)
          ∙ sym (next-before s)
          ∙ ap (λ k. next M g k s) (sym q)
      | inr e ↦
          let q = false→not_eq m n e in
          next-enter M (leave_at n g node') m s
          ∙ ap₂ (enter M g.edge_at s) (get-insert_other n m node' g.nodes w.nodes_valid q)
              (get-insert_other n m [] g.edges w.edges_valid q)
          ∙ sym (next-enter M g m s)
    ]

    abbrev joined : List ℕ → Graph
    joined bs = join_at n c.common g node' bs

    abbrev h' : ℕ → Edge
    h' = write g.new_edge (plain_edge c.common g.new_back) g.edge_at

    enter_local :
        (m : String) (s : State) (a : Option Node) (b : Option (List ℕ))
        → get m g.edges ≡ b
        → IsUnused g
        → enter M h' s a b ≡ enter M g.edge_at s a b
    enter_local m s none b e unused = refl
    enter_local m s (some v) none e unused = refl
    enter_local m s (some v) (some es) e unused = ap some (
        leave_local g.edge_at h' es (exec M v.insts s) (λ x i.
          write_other g.new_edge x (plain_edge c.common g.new_back) g.edge_at
            (apart g.new_edge x (λ p. unused m es x e i (sym p)))))

    next-joined :
        (bs : List ℕ)
        → IsUnused g
        → (m : String) (s : State) → next M (joined bs) m s ≡ next M g m s
    unfolding join_at
    next-joined bs unused m s = elim (Bool-cases (m == n)) [
      | inl e ↦
          let q = (eq_iff m n).0 e in
          let f =
            write_here g.new_edge g.new_edge (plain_edge c.common g.new_back) g.edge_at refl in
          let o = exec M node'.insts s in
          next-enter M (joined bs) m s
          ∙ ap₂ (enter M h' s)
              (ap (λ k. get k (insert n node' g.nodes)) q
                ∙ get-insert n node' g.nodes w.nodes_valid)
              (ap (λ k. get k (insert n (g.new_edge ∷ []) g.edges)) q
                ∙ get-insert n (g.new_edge ∷ []) g.edges w.edges_valid)
          ∙ ap some (leave_one M h' g.new_edge o)
          ∙ ap (λ d. some (arrive M d.next (continue M (exec M d.insts) o))) f
          ∙ ap (λ u. some (arrive M c.common u)) (exec-no_insts M law o)
          ∙ sym (next-before s)
          ∙ ap (λ k. next M g k s) (sym q)
      | inr e ↦
          let q = false→not_eq m n e in
          next-enter M (joined bs) m s
          ∙ ap₂ (enter M h' s) (get-insert_other n m node' g.nodes w.nodes_valid q)
              (get-insert_other n m (g.new_edge ∷ []) g.edges w.edges_valid q)
          ∙ enter_local m s (get m g.nodes) (get m g.edges) refl unused
          ∙ sym (next-enter M g m s)
    ]

    next-merged :
        IsUnused g
        → Merged n c.common g g' node'
        → (m : String) (s : State) → next M g' m s ≡ next M g m s
    next-merged unused (leaves p q) m s = ap (λ k. next M k m s) q ∙ next-left p m s
    next-merged unused (leads bs p q r) m s = ap (λ k. next M k m s) r ∙ next-joined bs unused m s

  -- `rule_merge_branches` keeps what a graph does: where it changes a graph whose edges and links
  -- belong together, the graphs come to the same ends from every node. A conditional does what its
  -- condition says, the address for a new edge is not in use, and a run ends along each edge of the
  -- node that leaves the graph.
  pub Runs-merge_branches :
      (g : Graph) (n : String) (g' : Graph)
      → IfLaw M
      → IsLinked g
      → IsUnused g
      → EndsOutside M g n
      → merge_branches n g ≡ some (g', true)
      → (m : String) (s : State) (o : Ends M) → Runs M g m s o ↔ Runs M g' m s o
  Runs-merge_branches g n g' law w unused outside h =
      let c = merge_case n g g' h in
      Runs-same g g' (next-merged law g w n g' c outside unused c.result)
