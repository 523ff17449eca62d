-- ===== src/Flow/Build/Start.antt =====
-- Edges and links of the graph that `control_flow_conversion` of
-- src/frontend/IRLoader/control_flow.cpp starts with.
use spoq.Base.{
  ℕ, Option, none, some, List, [], ◌∷◌, ◌≡◌, ◌≢◌, refl, ap, sym, ◌∙◌, subst, ◌⊎◌, inl, inr, String,
  ◌==◌, Bool-cases, eq_iff, ◌>>=◌,
}
use spoq.Dict.{find, get, insert}
use spoq.Dict.Valid.{IsValid, insert-IsValid}
use spoq.Dict.Laws.{get-insert, get-insert_other, false→not_eq}
use spoq.Flow.{Graph}
use spoq.Flow.Rules.Cases.{bind_some}
use spoq.Ir.{IrInsts}
use spoq.Flow.Links.{Memᴰ, IsLinked}
use spoq.Flow.Links.Fusion.{some_eq}
use spoq.Flow.Links.Fresh.{IsFresh}
use spoq.Flow.Links.Members.{insert_left}
use spoq.Flow.Build.{each, empty_node, empty_graph, add_block, add_blocks, add_ways, build}
use spoq.Flow.Build.Pending.{AllApart}
use spoq.Flow.Build.Linked.{IsBuilt, add_ways-IsBuilt}

-- No block has an edge or a link yet.
record IsBare (g : Graph) : Type 0 where
  nodes_valid : IsValid g.nodes
  edges_valid : IsValid g.edges
  backwards_valid : IsValid g.backwards
  no_empty_name : get "" g.backwards ≡ none
  bare_edges : (m : String) (es : List ℕ) → get m g.edges ≡ some es → es ≡ []
  bare_links : (t : String) (bs : List ℕ) → get t g.backwards ≡ some bs → bs ≡ []

add_block-IsBare : (n : String) (g : Graph) → n ≢ "" → IsBare g → IsBare (add_block n g)
unfolding add_block
add_block-IsBare n g h v = record {
  nodes_valid = insert-IsValid n empty_node g.nodes v.nodes_valid;
  edges_valid = insert-IsValid n [] g.edges v.edges_valid;
  backwards_valid = insert-IsValid n [] g.backwards v.backwards_valid;
  no_empty_name =
      get-insert_other n "" [] g.backwards v.backwards_valid (λ e. h (sym e)) ∙ v.no_empty_name;
  bare_edges = λ m es k. elim (insert_left n m [] es g.edges v.edges_valid k) [
    | inl (e, r) ↦ r
    | inr (e, r) ↦ v.bare_edges m es r
  ];
  bare_links = λ t bs k. elim (insert_left n t [] bs g.backwards v.backwards_valid k) [
    | inl (e, r) ↦ r
    | inr (e, r) ↦ v.bare_links t bs r
  ];
}

-- A block that has an empty list of edges keeps it, and each block of the list gets one.
add_block-edges :
    (n m : String) (g : Graph)
    → IsBare g
    → (m ≡ n) ⊎ (get m g.edges ≡ some [])
    → get m (add_block n g).edges ≡ some []
unfolding add_block
add_block-edges n m g v (inl e) =
    ap (λ z. get z (insert n [] g.edges)) e ∙ get-insert n [] g.edges v.edges_valid
add_block-edges n m g v (inr h) = elim (Bool-cases (m == n)) [
  | inl e ↦
      ap (λ z. get z (insert n [] g.edges)) ((eq_iff m n).0 e)
      ∙ get-insert n [] g.edges v.edges_valid
  | inr e ↦ get-insert_other n m [] g.edges v.edges_valid (false→not_eq m n e) ∙ h
]

add_blocks-IsBare :
    (ns : List String) (g : Graph)
    → ((n : String) → Memᴰ n ns → n ≢ "")
    → IsBare g
    → IsBare (add_blocks ns g)
      × ((m : String)
          → Memᴰ m ns ⊎ (get m g.edges ≡ some [])
          → get m (add_blocks ns g).edges ≡ some [])
unfolding add_blocks
add_blocks-IsBare [] g named v = (v, keep)
  where
    keep : (m : String) → Memᴰ m [] ⊎ (get m g.edges ≡ some []) → get m g.edges ≡ some []
    keep m (inl i) = elim i [ ]
    keep m (inr h) = h
add_blocks-IsBare (n ∷ ns) g named v =
    let w = add_block-IsBare n g (named n (Memᴰ.head refl)) v in
    let r = add_blocks-IsBare ns (add_block n g) (λ m i. named m (Memᴰ.tail i)) w in
    (r.0, λ m i. r.1 m (later m i))
  where
    later :
        (m : String)
        → Memᴰ m (n ∷ ns) ⊎ (get m g.edges ≡ some [])
        → Memᴰ m ns ⊎ (get m (add_block n g).edges ≡ some [])
    later m (inl (Memᴰ.head e)) = inr (add_block-edges n m g v (inl e))
    later m (inl (Memᴰ.tail i)) = inl i
    later m (inr h) = inr (add_block-edges n m g v (inr h))

bare-IsBuilt :
    (ns : List String) (g : Graph)
    → IsBare g
    → ((m : String) → Memᴰ m ns → get m g.edges ≡ some [])
    → IsBuilt ns g
bare-IsBuilt ns g v h =
    let no_edge =
      λ (m : String) (es : List ℕ) (x : ℕ) (k : get m g.edges ≡ some es) (i : Memᴰ x es).
        not_in x es (v.bare_edges m es k) i in
    let no_link =
      λ (t : String) (bs : List ℕ) (b : ℕ) (k : get t g.backwards ≡ some bs) (i : Memᴰ b bs).
        not_in b bs (v.bare_links t bs k) i in
    record {
      is_linked = record {
        nodes_valid = v.nodes_valid;
        edges_valid = v.edges_valid;
        backwards_valid = v.backwards_valid;
        no_empty_name = v.no_empty_name;
        own_link = λ m es x b k i j. absurd (no_edge m es x k i);
        arrives = λ m es x k i j. absurd (no_edge m es x k i);
        departs = λ t bs b k i. absurd (no_link t bs b k i);
      };
      is_fresh = record {
        edges_below = λ m es x k i. absurd (no_edge m es x k i);
        links_below = λ m es x b k i j. absurd (no_edge m es x k i);
        backs_below = λ t bs b k i. absurd (no_link t bs b k i);
      };
      no_edges = h;
    }
  where
    not_in : (x : ℕ) (xs : List ℕ) → xs ≡ [] → ¬ Memᴰ x xs
    not_in x xs e i = elim (subst (Memᴰ x) e i) [ ]

empty-IsBare : IsBare empty_graph
unfolding get find
empty-IsBare = record {
  nodes_valid = record { linked = refl; distinct = tt; below = tt };
  edges_valid = record { linked = refl; distinct = tt; below = tt };
  backwards_valid = record { linked = refl; distinct = tt; below = tt };
  no_empty_name = refl;
  bare_edges = λ m es h. cc;
  bare_links = λ t bs h. cc;
}

abbrev add_named : (String → Option IrInsts) → String → Graph → Option Graph
add_named blocks n g = blocks n >>= λ is. add_ways n is g

each_block :
    (blocks : String → Option IrInsts) (ns : List String) (g g' : Graph)
    → AllApart ns
    → IsBuilt ns g
    → each (add_named blocks) ns g ≡ some g'
    → IsBuilt [] g'
unfolding each
each_block blocks [] g g' names v e = subst (IsBuilt []) (some_eq e) v
each_block blocks (n ∷ ns) g g' names v e =
    let (k, a, b) = bind_some (add_named blocks n g) (each (add_named blocks) ns) g' e in
    let (is, c, d) = bind_some (blocks n) (λ is. add_ways n is g) k a in
    each_block blocks ns k g' names.1 (add_ways-IsBuilt n ns is g k v names.0 d) b

-- In the graph that is made of the blocks of a function, where it can be made, edges and links
-- belong together and new addresses are not in use, if the names of the blocks are different and not
-- empty.
pub build-IsLinked :
    (blocks : String → Option IrInsts) (ns : List String) (g : Graph)
    → AllApart ns
    → ((n : String) → Memᴰ n ns → n ≢ "")
    → build blocks ns ≡ some g
    → IsLinked g × IsFresh g
unfolding build
build-IsLinked blocks ns g names named e =
    let r = add_blocks-IsBare ns empty_graph named empty-IsBare in
    let v = bare-IsBuilt ns (add_blocks ns empty_graph) r.0 (λ m i. r.1 m (inl i)) in
    let w = each_block blocks ns (add_blocks ns empty_graph) g names v e in
    (w.is_linked, w.is_fresh)
