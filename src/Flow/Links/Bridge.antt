-- ===== src/Flow/Links/Bridge.antt =====
-- Edges and links after `rule_eliminate_bridge` of src/frontend/IRLoader/control_flow.cpp.
use spoq.Base.{
  ℕ, true, Option, none, some, List, [], ◌∷◌, ◌≡◌, ◌≢◌, refl, ap, sym, ◌∙◌, subst, String, nat_eq,
  nat_eq→eq, ◌⊎◌, inl, inr, Bool-cases,
}
use spoq.Dict.{get, erase}
use spoq.Dict.Valid.{erase-IsValid}
use spoq.Dict.Laws.{get-erase_other, erase_left}
use spoq.Ir.{append}
use spoq.Flow.{Edge, Backward, Graph, write, drop_node}
use spoq.Flow.Rules.{redirect, absorb_bridge, eliminate_leaf, eliminate_bridge}
use spoq.Flow.Rules.Cases.{leaf_case, BridgeCase, bridge_case}
use spoq.Flow.Links.{Memᴰ, Arrives, Departs, IsLinked}
use spoq.Flow.Links.Kept.{Arrives-kept, Departs-kept, into_leads, leaf-IsLinked}
use spoq.Flow.Links.Fusion.{
  only_member, some_eq, has_name, only_edge, write_here, write_other, differ, apart,
}

redirect_here :
    (p : String) (x l : ℕ) (h : ℕ → Backward) (o : Option ℕ)
    → o ≡ some l
    → redirect p x o h l ≡ record { from = p; edge = x }
redirect_here p x l h o e =
    ap (λ q. redirect p x q h l) e ∙ write_here l l (record { from = p; edge = x }) h refl

redirect_other :
    (p : String) (x l : ℕ) (h : ℕ → Backward) (o : Option ℕ) → o ≢ some l → redirect p x o h l ≡ h l
redirect_other p x l h none e = refl
redirect_other p x l h (some k) e =
    write_other k l (record { from = p; edge = x }) h (apart k l (λ q. e (ap some q)))

-- Whether an edge has the link.
has_link-cases : (o : Option ℕ) (l : ℕ) → (o ≡ some l) ⊎ (o ≢ some l)
has_link-cases none l = inr (λ q. cc)
has_link-cases (some k) l = elim (Bool-cases (nat_eq k l)) [
  | inl q ↦ inl (ap some (nat_eq→eq k l q))
  | inr q ↦ inr (λ e. differ k l q (some_eq e))
]

module _ (g : Graph) (w : IsLinked g) (n : String) (g' : Graph) (c : BridgeCase n g g') where
  abbrev into : ℕ
  into = (g.back_at c.link).edge

  abbrev start : String
  start = (g.back_at c.link).from

  abbrev old : Edge
  old = g.edge_at into

  abbrev way_out : Edge
  way_out = g.edge_at c.way

  abbrev pub new : Edge
  new = record old {
    next = way_out.next;
    insts = append (append old.insts c.node.insts) way_out.insts;
    backward = way_out.backward;
  }

  abbrev backs : ℕ → Backward
  backs = redirect start into way_out.backward g.back_at

  abbrev result : Graph
  result = absorb_bridge n g start into c.way c.node

  -- The link of the edge of the node belongs to it alone.
  way_link :
      (l : ℕ) → way_out.backward ≡ some l → ((g.back_at l).edge ≡ c.way) × ((g.back_at l).from ≡ n)
  way_link l h = w.own_link n (c.way ∷ []) c.way l c.has_edges (Memᴰ.head refl) h

  start_other : start ≢ n
  start_other p =
      let d = w.departs n (c.link ∷ []) c.link c.has_links (Memᴰ.head refl) in
      let q = some_eq (sym d.at_from ∙ ap (λ m. get m g.edges) p ∙ c.has_edges) in
      differ into c.way c.other (only_member into c.way (subst (Memᴰ into) q d.listed))

  bridge_own_link :
      (m : String) (es : List ℕ) (x b : ℕ)
      → m ≢ n
      → get m g.edges ≡ some es
      → Memᴰ x es
      → (write into new g.edge_at x).backward ≡ some b
      → ((backs b).edge ≡ x) × ((backs b).from ≡ m)
  bridge_own_link m es x b h k i e = elim (Bool-cases (nat_eq into x)) [
    | inl q ↦
        let r = nat_eq→eq into x q in
        let u = sym (ap (λ f. f.backward) (write_here into x new g.edge_at r)) ∙ e in
        let v = redirect_here start into b g.back_at way_out.backward u in
        let o =
          only_edge g w n c.link m es x c.has_links k i
            (ap (λ z. (g.edge_at z).next) (sym r) ∙ into_leads g w n c.link c.has_links) in
        (ap (λ l. l.edge) v ∙ r, ap (λ l. l.from) v ∙ o.1)
    | inr q ↦
        let u = sym (ap (λ f. f.backward) (write_other into x new g.edge_at q)) ∙ e in
        let o = w.own_link m es x b k i u in
        let v =
          redirect_other start into b g.back_at way_out.backward
            (λ p. h (sym o.1 ∙ (way_link b p).1)) in
        (ap (λ l. l.edge) v ∙ o.0, ap (λ l. l.from) v ∙ o.1)
  ]

  way-Arrives : way_out.next ≢ "" → Arrives g c.way
  way-Arrives h = w.arrives n (c.way ∷ []) c.way c.has_edges (Memᴰ.head refl) h

  leads_on : way_out.next ≢ n
  leads_on p =
      differ into c.way c.other
        (only_edge g w n c.link n (c.way ∷ []) c.way c.has_links c.has_edges (Memᴰ.head refl) p).0

  new-Arrives : (x : ℕ) → write into new g.edge_at x ≡ new → way_out.next ≢ "" → Arrives result x
  unfolding absorb_bridge drop_node
  new-Arrives x e h =
      let a = way-Arrives h in
      record {
        link = a.link;
        links = a.links;
        has_link = ap (λ f. f.backward) e ∙ a.has_link;
        at_next =
            ap (λ f. get f.next (erase n g.backwards)) e
            ∙ get-erase_other n way_out.next g.backwards w.backwards_valid leads_on
            ∙ a.at_next;
        listed = a.listed;
      }

  bridge-Arrives :
      (m : String) (es : List ℕ) (x : ℕ)
      → get m g.edges ≡ some es
      → Memᴰ x es
      → (write into new g.edge_at x).next ≢ ""
      → Arrives result x
  unfolding absorb_bridge drop_node
  bridge-Arrives m es x k i h = elim (Bool-cases (nat_eq into x)) [
    | inl q ↦
        let e = write_here into x new g.edge_at (nat_eq→eq into x q) in
        new-Arrives x e (λ p. h (ap (λ f. f.next) e ∙ p))
    | inr q ↦
        let e = write_other into x new g.edge_at q in
        Arrives-kept g w n result x refl e
          (λ p. differ into x q (only_edge g w n c.link m es x c.has_links k i p).0)
          (w.arrives m es x k i (λ p. h (ap (λ f. f.next) e ∙ p)))
  ]

  -- The link that the edge takes over departs with it.
  taken-Departs :
      (t : String) (b : ℕ) → Departs g t b → way_out.backward ≡ some b → Departs result t b
  unfolding absorb_bridge drop_node
  taken-Departs t b d h =
      let v = redirect_here start into b g.back_at way_out.backward h in
      let e = write_here into into new g.edge_at refl in
      let s = w.departs n (c.link ∷ []) c.link c.has_links (Memᴰ.head refl) in
      let y = (way_link b h).0 in
      record {
        leads =
            ap (λ l. (write into new g.edge_at l.edge).next) v
            ∙ ap (λ f. f.next) e
            ∙ ap (λ z. (g.edge_at z).next) (sym y)
            ∙ d.leads;
        linked =
            ap (λ l. (write into new g.edge_at l.edge).backward) v ∙ ap (λ f. f.backward) e ∙ h;
        outgoing = s.outgoing;
        at_from =
            ap (λ l. get l.from (erase n g.edges)) v
            ∙ get-erase_other n start g.edges w.edges_valid start_other
            ∙ s.at_from;
        listed = subst (λ l. Memᴰ l.edge s.outgoing) (sym v) s.listed;
      }

  -- No other link comes from the node.
  other_from :
      (t : String) (b : ℕ) → Departs g t b → way_out.backward ≢ some b → (g.back_at b).from ≢ n
  other_from t b d h p =
      let q = some_eq (sym d.at_from ∙ ap (λ m. get m g.edges) p ∙ c.has_edges) in
      let y = only_member (g.back_at b).edge c.way (subst (Memᴰ (g.back_at b).edge) q d.listed) in
      h (ap (λ z. (g.edge_at z).backward) (sym y) ∙ d.linked)

  bridge-Departs : (t : String) (b : ℕ) → t ≢ n → Departs g t b → Departs result t b
  unfolding absorb_bridge drop_node
  bridge-Departs t b k d = elim (has_link-cases way_out.backward b) [
    | inl h ↦ taken-Departs t b d h
    | inr h ↦
        Departs-kept g w n result t b refl
          (redirect_other start into b g.back_at way_out.backward h)
          (write_other into (g.back_at b).edge new g.edge_at (
            apart into (g.back_at b).edge (λ p. k (
              sym d.leads
              ∙ ap (λ z. (g.edge_at z).next) (sym p)
              ∙ into_leads g w n c.link c.has_links))))
          (other_from t b d h) d
  ]

  pub bridge-IsLinked : IsLinked result
  unfolding absorb_bridge drop_node
  bridge-IsLinked = record {
    nodes_valid = erase-IsValid n g.nodes w.nodes_valid;
    edges_valid = erase-IsValid n g.edges w.edges_valid;
    backwards_valid = erase-IsValid n g.backwards w.backwards_valid;
    no_empty_name =
        get-erase_other n "" g.backwards w.backwards_valid
          (λ p. has_name g w n (c.link ∷ []) c.has_links (sym p))
        ∙ w.no_empty_name;
    own_link = λ m es x b h i k.
        let l = erase_left n m g.edges es w.edges_valid h in bridge_own_link m es x b l.0 l.1 i k;
    arrives =
        λ m es x h i k. bridge-Arrives m es x (erase_left n m g.edges es w.edges_valid h).1 i k;
    departs = λ t bs b h i.
        let l = erase_left n t g.backwards bs w.backwards_valid h in
        bridge-Departs t b l.0 (w.departs t bs b l.1 i);
  }

-- Both rules keep the edges and links of a graph together.
pub eliminate-IsLinked :
    (g : Graph) (n : String) (g' : Graph)
    → IsLinked g
    → (eliminate_leaf n g ≡ some (g', true)) ⊎ (eliminate_bridge n g ≡ some (g', true))
    → IsLinked g'
eliminate-IsLinked g n g' w (inl h) =
    let c = leaf_case n g g' h in subst IsLinked (sym c.result) (leaf-IsLinked g w n g' c)
eliminate-IsLinked g n g' w (inr h) =
    let c = bridge_case n g g' h in subst IsLinked (sym c.result) (bridge-IsLinked g w n g' c)
