-- ===== src/Tests/Built.antt =====
-- The graph of a function of three blocks.
use spoq.Base.{
  Option, none, some, List, [], ◌∷◌, ◌≡◌, ◌≢◌, refl, sym, ◌∙◌, String, ◌==◌, if◌then◌else◌, or_else,
}
use spoq.Dict.{get, entries, insert, find, value_at, set_at}
use spoq.Dict.Laws.{false→not_eq}
use spoq.Ir.{
  IrInst, IrInsts, one_inst, append, i_branch, i_cond_branch, i_return, i_phi, i_assign, t_unknown,
}
use spoq.Flow.{Graph}
use spoq.Flow.Links.{Memᴰ, IsLinked}
use spoq.Flow.Links.Fresh.{IsFresh}
use spoq.Flow.Build.{
  build, empty_graph, each, add_blocks, add_block, add_ways, split_last, ways_of, set_node,
  push_way, link_edge, link_all,
}
use spoq.Flow.Build.Pending.{AllApart}
use spoq.Flow.Phi.{
  initial_graph, eliminate_phis, phi_block, add_phis, add_phi, add_value, add_to_edges, remove_phis,
  without_phis,
}
use spoq.Flow.Phi.Linked.{initial_graph-IsLinked}
use spoq.Tests.Blocks.{number}

-- Three from the first block, four from the third.
abbrev choice : IrInst
choice = i_phi t_unknown "x" ((number 3, "a") ∷ (number 4, "c") ∷ [])

abbrev blocks : String → Option IrInsts
blocks n =
    if n == "a"
    then some (one_inst (i_cond_branch (number 0) "b" "c" 1))
    else if n == "b"
    then some (append (one_inst choice) (one_inst (i_return t_unknown none)))
    else if n == "c"
    then some (one_inst (i_branch "b" 2))
    else none

abbrev names : List String
names = "a" ∷ "b" ∷ "c" ∷ []

abbrev same_name : String → String
same_name x = x

abbrev built : Graph
built = or_else (initial_graph same_name blocks names) empty_graph

build_names : initial_graph same_name blocks names ≡ some built
unfolding build each add_blocks add_block add_ways split_last ways_of set_node push_way link_edge
    link_all append get insert find value_at set_at initial_graph eliminate_phis phi_block add_phis
    add_phi add_value add_to_edges remove_phis without_phis entries
build_names = refl

names-AllApart : AllApart names
names-AllApart = (after_a, (after_b, (λ y m. elim m [ ], tt)))
  where
    after_a : (y : String) → Memᴰ y ("b" ∷ "c" ∷ []) → "a" ≢ y
    after_a y (Memᴰ.head e) p = false→not_eq "a" "b" refl (p ∙ e)
    after_a y (Memᴰ.tail (Memᴰ.head e)) p = false→not_eq "a" "c" refl (p ∙ e)
    after_a y (Memᴰ.tail (Memᴰ.tail m)) p = elim m [ ]

    after_b : (y : String) → Memᴰ y ("c" ∷ []) → "b" ≢ y
    after_b y (Memᴰ.head e) p = false→not_eq "b" "c" refl (p ∙ e)
    after_b y (Memᴰ.tail m) p = elim m [ ]

names_named : (n : String) → Memᴰ n names → n ≢ ""
names_named n (Memᴰ.head e) p = false→not_eq "a" "" refl (sym e ∙ p)
names_named n (Memᴰ.tail (Memᴰ.head e)) p = false→not_eq "b" "" refl (sym e ∙ p)
names_named n (Memᴰ.tail (Memᴰ.tail (Memᴰ.head e))) p = false→not_eq "c" "" refl (sym e ∙ p)
names_named n (Memᴰ.tail (Memᴰ.tail (Memᴰ.tail m))) p = elim m [ ]

initial_graph-IsLinked_example : IsLinked built × IsFresh built
initial_graph-IsLinked_example =
    initial_graph-IsLinked same_name blocks names built names-AllApart names_named build_names

-- The two edges to the second block have the first and the third link, and set the variable.
links_b : get "b" built.backwards ≡ some (0 ∷ 2 ∷ [])
unfolding build each add_blocks add_block add_ways split_last ways_of set_node push_way link_edge
    link_all append get insert find value_at set_at initial_graph eliminate_phis phi_block add_phis
    add_phi add_value add_to_edges remove_phis without_phis entries
links_b = refl

insts_c : (built.edge_at 2).insts ≡ one_inst (i_assign t_unknown "x" (number 4))
unfolding build each add_blocks add_block add_ways split_last ways_of set_node push_way link_edge
    link_all append get insert find value_at set_at initial_graph eliminate_phis phi_block add_phis
    add_phi add_value add_to_edges remove_phis without_phis entries
insts_c = refl
