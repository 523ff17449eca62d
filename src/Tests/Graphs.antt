-- ===== src/Tests/Graphs.antt =====
-- Rules on a graph of two blocks, where edges with their own addresses for links lead from the
-- first to the second.
use spoq.Base.{
  ℕ, ◌<◌, ◌∙◌, Bool, true, Option, none, some, List, [], ◌∷◌, ◌≡◌, ◌≢◌, refl, sym, subst, arith,
  ◌⊎◌, ◌↔◌, inl, inr, String, ◌==◌, or_else, map_option, Bool-cases, eq_iff,
}
use spoq.Dict.{find, value_at, unlink, erase, erase_at, set_at, empty_dict, get, insert}
use spoq.Dict.Laws.{false→not_eq}
use spoq.Ir.{IrValue, IrInsts, no_insts, one_inst, append, i_assign, i_return, t_unknown}
use spoq.Flow.{Node, Edge, Graph, drop_node, remove_if}
use spoq.Flow.Rules.{eliminate_leaf, absorb_leaf}
use spoq.Flow.Branches.{merge_branches, common_next, ordered, nested, join_at, leave_at}
use spoq.Flow.Build.{each}
use spoq.Flow.Build.Pending.{AllApart}
use spoq.Flow.Copies.{duplicate_node, copy_link, unlink_node}
use spoq.Flow.Copies.Runs.{Runs-duplicate_node}
use spoq.Flow.Links.{Memᴰ, IsLinked}
use spoq.Flow.Links.Fusion.{some_eq}
use spoq.Flow.Links.Bridge.{eliminate-IsLinked}
use spoq.Flow.Meaning.{finished, next, exec, leave, choose, pick, traverse}
use spoq.Flow.Meaning.Runs.{Runs, stops}
use spoq.Flow.Meaning.Absorb.{Runs-eliminate}
use spoq.Flow.Meaning.Endings.{EndsAll}
use spoq.Flow.Meaning.Whole.{
  Reduces, reduced, by_elimination, by_merging, IsSound, rules-IsSound, exec-Reduces,
}
use spoq.Flow.Links.Fresh.{IsFresh}
use spoq.Flow.Meaning.Merged.{IsUnused, EndsOutside, Runs-merge_branches}
use spoq.Tests.Blocks.{number, counter, counter-IfLaw, pair_dict-IsValid}

abbrev block : IrInsts → Node
block is = record { insts = is; scc = none; loop_use = []; last_inst = none }

abbrev way_to_b : (ℕ → Option IrValue) → (ℕ → IrInsts) → ℕ → Edge
way_to_b c is x = record { next = "b"; cond = c x; insts = is x; backward = some x }

abbrev two_blocks : List ℕ → ℕ → (ℕ → Option IrValue) → (ℕ → IrInsts) → Graph
two_blocks xs n c is = record {
  nodes =
      insert "b" (block (one_inst (i_return t_unknown none)))
        (insert "a" (block no_insts) empty_dict);
  edges = insert "b" [] (insert "a" xs empty_dict);
  backwards = insert "b" xs (insert "a" [] empty_dict);
  edge_at = way_to_b c is;
  back_at = λ x. record { from = "a"; edge = x };
  new_edge = n;
  new_back = n;
}

-- What is in a dictionary of two entries.
get_pair {ℓ} :
    {V : Type ℓ} (v w r : V) (m : String)
    → get m (insert "b" w (insert "a" v empty_dict)) ≡ some r
    → ((m ≡ "a") × (r ≡ v)) ⊎ ((m ≡ "b") × (r ≡ w))
unfolding get insert find value_at
get_pair v w r m h = elim (Bool-cases ("a" == m)) [
  | inl e ↦ let q : some v ≡ some r = rw e at h in inl (sym ((eq_iff "a" m).0 e), sym (some_eq q))
  | inr e ↦ elim (Bool-cases ("b" == m)) [
    | inl f ↦
        let q : some w ≡ some r = rw (e, f) at h in inr (sym ((eq_iff "b" m).0 f), sym (some_eq q))
    | inr f ↦ let q : none ≡ some r = rw (e, f) at h in cc
  ]
]

two_blocks-IsLinked :
    (xs : List ℕ) (n : ℕ) (c : ℕ → Option IrValue) (is : ℕ → IrInsts)
    → IsLinked (two_blocks xs n c is)
unfolding get insert find value_at
two_blocks-IsLinked xs n c is = record {
  nodes_valid = pair_dict-IsValid (block no_insts) (block (one_inst (i_return t_unknown none)));
  edges_valid = pair_dict-IsValid xs [];
  backwards_valid = pair_dict-IsValid [] xs;
  no_empty_name = refl;
  own_link = λ m es x b h i k. elim (get_pair xs [] es m h) [
    | inl (p, q) ↦ (sym (some_eq k), sym p)
    | inr (p, q) ↦ elim (subst (Memᴰ x) q i) [ ]
  ];
  arrives = λ m es x h i k. elim (get_pair xs [] es m h) [
    | inl (p, q) ↦ record {
      link = x;
      links = xs;
      has_link = refl;
      at_next = refl;
      listed = subst (Memᴰ x) q i;
    }
    | inr (p, q) ↦ elim (subst (Memᴰ x) q i) [ ]
  ];
  departs = λ t bs b h i. elim (get_pair [] xs bs t h) [
    | inl (p, q) ↦ elim (subst (Memᴰ b) q i) [ ]
    | inr (p, q) ↦ record {
      leads = sym p;
      linked = refl;
      outgoing = xs;
      at_from = refl;
      listed = subst (Memᴰ b) q i;
    }
  ];
}

abbrev sets : ℕ → IrInsts
sets x = one_inst (i_assign t_unknown "x" (number x))

-- One edge, which sets the state to zero.
abbrev one_way : Graph
one_way = two_blocks (0 ∷ []) 1 (λ x. none) sets

abbrev one_block : Graph
one_block = absorb_leaf "b" one_way 0 (block (one_inst (i_return t_unknown none)))

eliminate_one : eliminate_leaf "b" one_way ≡ some (one_block, true)
unfolding eliminate_leaf get insert find value_at
eliminate_one = refl

one_block-Runs : Runs counter one_way "a" 5 (finished 0) ↔ Runs counter one_block "a" 5 (finished 0)
one_block-Runs =
    Runs-eliminate counter one_way (two_blocks-IsLinked (0 ∷ []) 1 (λ x. none) sets) "b" one_block
      (inl eliminate_one) "a" 5 (finished 0) (false→not_eq "a" "b" refl)

one_block-IsLinked : IsLinked one_block
one_block-IsLinked =
    eliminate-IsLinked one_way "b" one_block (two_blocks-IsLinked (0 ∷ []) 1 (λ x. none) sets)
      (inl eliminate_one)

-- The run itself.
one_block_runs : Runs counter one_block "a" 5 (finished 0)
unfolding absorb_leaf drop_node next exec leave choose pick traverse get insert erase find value_at
    unlink erase_at set_at append
one_block_runs = stops refl

-- Two edges: the first where the state is zero.
abbrev two_ways : Graph
two_ways = two_blocks (0 ∷ 1 ∷ []) 2 (λ x. some (number x)) sets

abbrev merged : Graph
merged = or_else (map_option (λ p. p.0) (merge_branches "a" two_ways)) two_ways

merge_two : merge_branches "a" two_ways ≡ some (merged, true)
unfolding merge_branches get insert find value_at common_next ordered nested
merge_two = refl

two_ways-IsUnused : IsUnused two_ways
two_ways-IsUnused m es x h i e = elim (get_pair (0 ∷ 1 ∷ []) [] es m h) [
  | inl (p, q) ↦ old x (subst (Memᴰ x) q i) e
  | inr (p, q) ↦ elim (subst (Memᴰ x) q i) [ ]
]
  where
    old : (x : ℕ) → Memᴰ x (0 ∷ 1 ∷ []) → x ≢ 2
    old x (Memᴰ.head p) e = absurd (omega arith)
    old x (Memᴰ.tail (Memᴰ.head p)) e = absurd (omega arith)
    old x (Memᴰ.tail (Memᴰ.tail m)) e = elim m [ ]

two_ways-EndsOutside : EndsOutside counter two_ways "a"
two_ways-EndsOutside es x s h i e = cc

Runs-merge_branches_example :
    Runs counter two_ways "a" 0 (finished 0) ↔ Runs counter merged "a" 0 (finished 0)
Runs-merge_branches_example =
    Runs-merge_branches counter two_ways "a" merged counter-IfLaw
      (two_blocks-IsLinked (0 ∷ 1 ∷ []) 2 (λ x. some (number x)) sets) two_ways-IsUnused
      two_ways-EndsOutside merge_two "a" 0 (finished 0)

two_ways-old : (x : ℕ) → Memᴰ x (0 ∷ 1 ∷ []) → x < 2
two_ways-old x (Memᴰ.head p) = omega arith
two_ways-old x (Memᴰ.tail (Memᴰ.head p)) = omega arith
two_ways-old x (Memᴰ.tail (Memᴰ.tail m)) = elim m [ ]

two_ways-IsFresh : IsFresh two_ways
two_ways-IsFresh = record {
  edges_below = λ m es x h i. elim (get_pair (0 ∷ 1 ∷ []) [] es m h) [
    | inl (p, q) ↦ two_ways-old x (subst (Memᴰ x) q i)
    | inr (p, q) ↦ elim (subst (Memᴰ x) q i) [ ]
  ];
  links_below = λ m es x b h i k. elim (get_pair (0 ∷ 1 ∷ []) [] es m h) [
    | inl (p, q) ↦ subst (λ z. z < 2) (some_eq k) (two_ways-old x (subst (Memᴰ x) q i))
    | inr (p, q) ↦ elim (subst (Memᴰ x) q i) [ ]
  ];
  backs_below = λ t bs b h i. elim (get_pair [] (0 ∷ 1 ∷ []) bs t h) [
    | inl (p, q) ↦ elim (subst (Memᴰ b) q i) [ ]
    | inr (p, q) ↦ two_ways-old b (subst (Memᴰ b) q i)
  ];
}

return_ends : (s : ℕ) → (r : ℕ) × (exec counter (one_inst (i_return t_unknown none)) s ≡ finished r)
unfolding exec
return_ends s = (s, refl)

two_ways-EndsAll : EndsAll counter two_ways
two_ways-EndsAll = record {
  edges_end = λ m es x h i e. cc;
  nodes_end = λ m node h k.
      elim (get_pair (block no_insts) (block (one_inst (i_return t_unknown none))) node m h) [
        | inl (p, q) ↦ elim (get_pair (0 ∷ 1 ∷ []) [] [] m k) [
          | inl (a, b) ↦ cc
          | inr (a, b) ↦ absurd (false→not_eq "a" "b" refl (sym p ∙ a))
        ]
        | inr (p, q) ↦
            subst (λ v. (s : ℕ) → (r : ℕ) × (exec counter v.insts s ≡ finished r)) (sym q)
              return_ends
      ];
}

-- Both edges end the run.
abbrev copied : Graph
copied = or_else (map_option (λ p. p.0) (duplicate_node "b" two_ways)) two_ways

copy_b : duplicate_node "b" two_ways ≡ some (copied, true)
unfolding duplicate_node copy_link unlink_node drop_node each append get insert find value_at set_at
    erase erase_at unlink
copy_b = refl

links-AllApart : AllApart {A = ℕ} (0 ∷ 1 ∷ [])
links-AllApart = (other, (λ y m. elim m [ ], tt))
  where
    other : (y : ℕ) → Memᴰ y (1 ∷ []) → 0 ≢ y
    other y (Memᴰ.head e) p = absurd (omega arith)
    other y (Memᴰ.tail m) p = elim m [ ]

links_b : get "b" two_ways.backwards ≡ some (0 ∷ 1 ∷ [])
unfolding get insert find value_at set_at
links_b = refl

Runs-duplicate_node_example :
    Runs counter two_ways "a" 0 (finished 0) ↔ Runs counter copied "a" 0 (finished 0)
Runs-duplicate_node_example =
    Runs-duplicate_node counter two_ways
      (two_blocks-IsLinked (0 ∷ 1 ∷ []) 2 (λ x. some (number x)) sets) two_ways-IsFresh "b" copied
      (0 ∷ 1 ∷ []) links_b links-AllApart copy_b "a" 0 (finished 0) (false→not_eq "a" "b" refl)

two_ways-IsSound : IsSound counter two_ways
two_ways-IsSound = record {
  is_linked = two_blocks-IsLinked (0 ∷ 1 ∷ []) 2 (λ x. some (number x)) sets;
  is_fresh = two_ways-IsFresh;
  ends_all = two_ways-EndsAll;
}

rules-IsSound_example : IsSound counter merged
rules-IsSound_example =
    rules-IsSound counter counter-IfLaw two_ways merged "a" two_ways-IsSound (inr (inr merge_two))

abbrev after : Option (Graph × Bool) → Graph
after o = or_else (map_option (λ p. p.0) o) two_ways

abbrev without_b : Graph
without_b = after (eliminate_leaf "b" merged)

abbrev single : Graph
single = after (merge_branches "a" without_b)

-- The code of the function: the conditional and the end of the run.
abbrev whole : Node
whole = or_else (get "a" single.nodes) (block no_insts)

leaf_b : eliminate_leaf "b" merged ≡ some (without_b, true)
unfolding eliminate_leaf absorb_leaf drop_node merge_branches get insert find value_at set_at erase
    erase_at unlink common_next ordered nested join_at leave_at append remove_if
leaf_b = refl

merge_a : merge_branches "a" without_b ≡ some (single, true)
unfolding eliminate_leaf absorb_leaf drop_node merge_branches get insert find value_at set_at erase
    erase_at unlink common_next ordered nested join_at leave_at append remove_if
merge_a = refl

two_ways-Reduces : Reduces "a" two_ways single
two_ways-Reduces =
    by_merging "a" merge_two
      (by_elimination "b" (false→not_eq "a" "b" refl) (inl leaf_b) (by_merging "a" merge_a reduced))

single_node : (get "a" single.nodes ≡ some whole) × (get "a" single.edges ≡ some [])
unfolding eliminate_leaf absorb_leaf drop_node merge_branches get insert find value_at set_at erase
    erase_at unlink common_next ordered nested join_at leave_at append remove_if
single_node = (refl, refl)

exec-Reduces_example :
    Runs counter two_ways "a" 0 (finished 0) ↔ (exec counter whole.insts 0 ≡ finished 0)
exec-Reduces_example =
    exec-Reduces counter counter-IfLaw two_ways single "a" whole two_ways-IsSound two_ways-Reduces
      single_node.0 single_node.1 0 (finished 0)
