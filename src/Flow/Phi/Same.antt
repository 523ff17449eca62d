-- ===== src/Flow/Phi/Same.antt =====
-- Graphs of blocks of src/frontend/IRLoader/control_flow.cpp that differ in instructions only.
use spoq.Base.{ℕ, ◌<◌, ◌≡◌, refl, ap, sym, ◌∙◌, subst, String}
use spoq.Dict.{get}
use spoq.Dict.Valid.{IsValid}
use spoq.Flow.{Graph}
use spoq.Flow.Links.{Memᴰ, Arrives, Departs, IsLinked}
use spoq.Flow.Links.Fresh.{IsFresh}

-- Both graphs have the same edges and links, but for instructions.
pub record SameLinks (g g' : Graph) : Type 0 where
  pub valid : IsValid g.nodes → IsValid g'.nodes
  pub edges : g'.edges ≡ g.edges
  pub backwards : g'.backwards ≡ g.backwards
  pub back_at : g'.back_at ≡ g.back_at
  pub new_edge : g'.new_edge ≡ g.new_edge
  pub new_back : g'.new_back ≡ g.new_back
  pub same_next : (x : ℕ) → (g'.edge_at x).next ≡ (g.edge_at x).next
  pub same_backward : (x : ℕ) → (g'.edge_at x).backward ≡ (g.edge_at x).backward

pub same : (g : Graph) → SameLinks g g
same g = record {
  valid = λ v. v;
  edges = refl;
  backwards = refl;
  back_at = refl;
  new_edge = refl;
  new_back = refl;
  same_next = λ x. refl;
  same_backward = λ x. refl;
}

pub both : {g h k : Graph} → SameLinks g h → SameLinks h k → SameLinks g k
both p q = record {
  valid = λ v. q.valid (p.valid v);
  edges = q.edges ∙ p.edges;
  backwards = q.backwards ∙ p.backwards;
  back_at = q.back_at ∙ p.back_at;
  new_edge = q.new_edge ∙ p.new_edge;
  new_back = q.new_back ∙ p.new_back;
  same_next = λ x. q.same_next x ∙ p.same_next x;
  same_backward = λ x. q.same_backward x ∙ p.same_backward x;
}

module _ (g g' : Graph) (s : SameLinks g g') where
  at_edges : (m : String) → get m g'.edges ≡ get m g.edges
  at_edges m = ap (get m) s.edges

  at_backwards : (t : String) → get t g'.backwards ≡ get t g.backwards
  at_backwards t = ap (get t) s.backwards

  at_back : (b : ℕ) → g'.back_at b ≡ g.back_at b
  at_back b = ap (λ h. h b) s.back_at

  same-Arrives : (x : ℕ) → Arrives g x → Arrives g' x
  same-Arrives x a = record {
    link = a.link;
    links = a.links;
    has_link = s.same_backward x ∙ a.has_link;
    at_next =
        ap (λ t. get t g'.backwards) (s.same_next x) ∙ at_backwards (g.edge_at x).next ∙ a.at_next;
    listed = a.listed;
  }

  same-Departs : (t : String) (b : ℕ) → Departs g t b → Departs g' t b
  same-Departs t b d =
      let e = at_back b in
      record {
        leads = ap (λ l. (g'.edge_at l.edge).next) e ∙ s.same_next (g.back_at b).edge ∙ d.leads;
        linked =
            ap (λ l. (g'.edge_at l.edge).backward) e
            ∙ s.same_backward (g.back_at b).edge
            ∙ d.linked;
        outgoing = d.outgoing;
        at_from = ap (λ l. get l.from g'.edges) e ∙ at_edges (g.back_at b).from ∙ d.at_from;
        listed = subst (λ l. Memᴰ l.edge d.outgoing) (sym e) d.listed;
      }

  pub same-IsLinked : IsLinked g → IsLinked g'
  same-IsLinked w = record {
    nodes_valid = s.valid w.nodes_valid;
    edges_valid = subst IsValid (sym s.edges) w.edges_valid;
    backwards_valid = subst IsValid (sym s.backwards) w.backwards_valid;
    no_empty_name = at_backwards "" ∙ w.no_empty_name;
    own_link = λ m es x b h i k.
        let o = w.own_link m es x b (sym (at_edges m) ∙ h) i (sym (s.same_backward x) ∙ k) in
        (ap (λ l. l.edge) (at_back b) ∙ o.0, ap (λ l. l.from) (at_back b) ∙ o.1);
    arrives = λ m es x h i k.
        same-Arrives x (w.arrives m es x (sym (at_edges m) ∙ h) i (λ e. k (s.same_next x ∙ e)));
    departs = λ t bs b h i. same-Departs t b (w.departs t bs b (sym (at_backwards t) ∙ h) i);
  }

  pub same-IsFresh : IsFresh g → IsFresh g'
  same-IsFresh f = record {
    edges_below = λ m es x h i.
        subst (λ n. x < n) (sym s.new_edge) (f.edges_below m es x (sym (at_edges m) ∙ h) i);
    links_below = λ m es x b h i k.
        subst (λ n. b < n) (sym s.new_back)
          (f.links_below m es x b (sym (at_edges m) ∙ h) i (sym (s.same_backward x) ∙ k));
    backs_below = λ t bs b h i.
        subst (λ n. b < n) (sym s.new_back) (f.backs_below t bs b (sym (at_backwards t) ∙ h) i);
  }
