-- ===== src/Flow/Links/Merge.antt =====
-- Edges and links after `rule_merge_branches` of src/frontend/IRLoader/control_flow.cpp.
use spoq.Base.{ℕ, some, List, [], ◌≡◌, ap, sym, ◌∙◌, subst, inl, inr, String}
use spoq.Dict.{get}
use spoq.Dict.Valid.{insert-IsValid}
use spoq.Dict.Laws.{get-insert_other}
use spoq.Flow.{Node, Graph}
use spoq.Flow.Branches.{leave_at}
use spoq.Flow.Branches.Cases.{MergeCase}
use spoq.Flow.Links.{Memᴰ, Arrives, Departs, IsLinked}
use spoq.Flow.Links.Fusion.{some_eq, has_name}
use spoq.Flow.Links.Members.{insert_left}
use spoq.Flow.Links.Fresh.{IsFresh}
use spoq.Flow.Meaning.Merge.{common_next-Memᴰ}

module _ (g : Graph) (w : IsLinked g) (f : IsFresh g) (n : String) (g' : Graph)
    (c : MergeCase n g g') (node : Node) where
  -- A link from the node is in the list of the common target.
  pub from_node :
      (t : String) (bs : List ℕ) (b : ℕ)
      → get t g.backwards ≡ some bs
      → Memᴰ b bs
      → (g.back_at b).from ≡ n
      → t ≡ c.common
  from_node t bs b h i p =
      let d = w.departs t bs b h i in
      let q = some_eq (sym d.at_from ∙ ap (λ m. get m g.edges) p ∙ c.has_edges) in
      let m = subst (Memᴰ (g.back_at b).edge) q d.listed in
      elim (common_next-Memᴰ g.edge_at "" c.ways c.common (g.back_at b).edge c.has_common m) [
        | inl e ↦ absurd (has_name g w t bs h (sym d.leads ∙ e))
        | inr e ↦ sym d.leads ∙ e
      ]

  -- The edges of the node are gone, and the others are as they were.
  left-Departs :
      (t : String) (bs : List ℕ) (b : ℕ)
      → c.common ≡ ""
      → get t g.backwards ≡ some bs
      → Memᴰ b bs
      → Departs (leave_at n g node) t b
  unfolding leave_at
  left-Departs t bs b p h i =
      let d = w.departs t bs b h i in
      record {
        leads = d.leads;
        linked = d.linked;
        outgoing = d.outgoing;
        at_from =
            get-insert_other n (g.back_at b).from [] g.edges w.edges_valid
              (λ e. has_name g w t bs h (from_node t bs b h i e ∙ p))
            ∙ d.at_from;
        listed = d.listed;
      }

  left-Arrives : (x : ℕ) → Arrives g x → Arrives (leave_at n g node) x
  unfolding leave_at
  left-Arrives x a = record {
    link = a.link;
    links = a.links;
    has_link = a.has_link;
    at_next = a.at_next;
    listed = a.listed;
  }

  pub left-IsLinked : c.common ≡ "" → IsLinked (leave_at n g node)
  unfolding leave_at
  left-IsLinked p = record {
    nodes_valid = insert-IsValid n node g.nodes w.nodes_valid;
    edges_valid = insert-IsValid n [] g.edges w.edges_valid;
    backwards_valid = w.backwards_valid;
    no_empty_name = w.no_empty_name;
    own_link = λ m es x b h i k. elim (insert_left n m [] es g.edges w.edges_valid h) [
      | inl (q, r) ↦ elim (subst (Memᴰ x) r i) [ ]
      | inr (q, r) ↦ w.own_link m es x b r i k
    ];
    arrives = λ m es x h i k. elim (insert_left n m [] es g.edges w.edges_valid h) [
      | inl (q, r) ↦ elim (subst (Memᴰ x) r i) [ ]
      | inr (q, r) ↦ left-Arrives x (w.arrives m es x r i k)
    ];
    departs = λ t bs b h i. left-Departs t bs b p h i;
  }

  pub left-IsFresh : IsFresh (leave_at n g node)
  unfolding leave_at
  left-IsFresh = record {
    edges_below = λ m es x h i. elim (insert_left n m [] es g.edges w.edges_valid h) [
      | inl (q, r) ↦ elim (subst (Memᴰ x) r i) [ ]
      | inr (q, r) ↦ f.edges_below m es x r i
    ];
    links_below = λ m es x b h i k. elim (insert_left n m [] es g.edges w.edges_valid h) [
      | inl (q, r) ↦ elim (subst (Memᴰ x) r i) [ ]
      | inr (q, r) ↦ f.links_below m es x b r i k
    ];
    backs_below = f.backs_below;
  }
