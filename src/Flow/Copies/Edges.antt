-- ===== src/Flow/Copies/Edges.antt =====
-- What `rule_duplicate_node` of src/frontend/IRLoader/control_flow.cpp does to edges.
use spoq.Base.{
  ℕ, ◌<◌, true, false, Option, none, some, List, [], ◌∷◌, ◌≡◌, ◌≢◌, refl, ap, ap₂, sym, ◌∙◌, subst,
  String, ◌==◌, map_option, ◌>>=◌, Bool-cases, inl, inr,
}
use spoq.Dict.{get, insert}
use spoq.Dict.Laws.{false→not_eq}
use spoq.Ir.{append}
use spoq.Flow.{Node, Backward, Graph, is_empty, remove_if}
use spoq.Flow.Rules.Cases.{Gives, bind_some, not_done}
use spoq.Flow.Links.{Memᴰ}
use spoq.Flow.Links.Fusion.{some_eq, differ}
use spoq.Flow.Build.{each}
use spoq.Flow.Build.Linked.{map_some}
use spoq.Flow.Copies.{
  way_insts, is_way, copy_link, unlink_node, copies, copy_node, copy_backwards, copy_edges,
  duplicate_node,
}
use spoq.Flow.Copies.Loop.{EdgesApart, IsCopy, tail_of, Copied, copy_link-Copied}

module _ (s : String) (way : Option ℕ) (node : Node) where
  -- The whole loop.
  pub record AllCopied (bk : ℕ → Backward) (bs : List ℕ) (g g' : Graph) : Type 0 where
    pub same_nodes : g'.nodes ≡ g.nodes
    pub same_edges : g'.edges ≡ g.edges
    pub conds : (y : ℕ) → (g'.edge_at y).cond ≡ (g.edge_at y).cond
    pub copied :
        (b : ℕ)
        → Memᴰ b bs
        → IsCopy s (tail_of s way node g) (g.edge_at (bk b).edge) (g'.edge_at (bk b).edge)
    pub elsewhere : (y : ℕ) → ((b : ℕ) → Memᴰ b bs → (bk b).edge ≢ y) → g'.edge_at y ≡ g.edge_at y

  same_tail :
      (g g' : Graph) (x : ℕ)
      → Copied s way node g g' x
      → tail_of s way node g' ≡ tail_of s way node g
  same_tail g g' x c = go way c.not_way
    where
      go :
          (o : Option ℕ)
          → is_way o x ≡ false
          → append node.insts (way_insts g' o) ≡ append node.insts (way_insts g o)
      go none k = refl
      go (some y) k = ap (λ d. append node.insts d.insts) (c.elsewhere y (differ x y k))

  pub each_copied :
      (bk : ℕ → Backward) (bs : List ℕ) (g g' : Graph)
      → EdgesApart bk bs
      → ((b : ℕ) → Memᴰ b bs → g.back_at b ≡ bk b)
      → ((b : ℕ) → Memᴰ b bs → b < g.new_back)
      → each (copy_link s way node) bs g ≡ some g'
      → AllCopied bk bs g g'
  unfolding each
  each_copied bk [] g g' a f h e =
      let q = sym (some_eq e) in
      record {
        same_nodes = ap (λ k. k.nodes) q;
        same_edges = ap (λ k. k.edges) q;
        conds = λ y. ap (λ k. (k.edge_at y).cond) q;
        copied = λ b i. elim i [ ];
        elsewhere = λ y i. ap (λ k. k.edge_at y) q;
      }
  each_copied bk (b ∷ bs) g g' a f h e =
      let (k, u, v) = bind_some (copy_link s way node b g) (each (copy_link s way node) bs) g' e in
      let x = (bk b).edge in
      let c =
        subst (λ l. Copied s way node g k l.edge) (f b (Memᴰ.head refl))
          (copy_link-Copied s way node b g k u) in
      let r =
        each_copied bk bs k g' a.1 (λ d i. c.old_links d (h d (Memᴰ.tail i)) ∙ f d (Memᴰ.tail i))
          (λ d i. c.more d (h d (Memᴰ.tail i))) v in
      let t = same_tail g k x c in
      let old = r.elsewhere x (λ d i p. a.0 d i (sym p)) in
      record {
        same_nodes = r.same_nodes ∙ c.same_nodes;
        same_edges = r.same_edges ∙ c.same_edges;
        conds = λ y. r.conds y ∙ c.conds y;
        copied = λ d i. elim i [
          | Memᴰ.head p ↦
              subst
                (λ z.
                  IsCopy s (tail_of s way node g) (g.edge_at (bk z).edge) (g'.edge_at (bk z).edge))
                (sym p) (ap (λ z. z.next) old ∙ c.here.0, ap (λ z. z.insts) old ∙ c.here.1)
          | Memᴰ.tail j ↦
              let q = r.copied d j in
              (q.0, q.1 ∙ ap₂ append (ap (λ z. z.insts) (c.elsewhere (bk d).edge (a.0 d j))) t)
        ];
        elsewhere =
            λ y i. r.elsewhere y (λ d j. i d (Memᴰ.tail j)) ∙ c.elsewhere y (i b (Memᴰ.head refl));
      }

abbrev pub listed_way : Option ℕ → List ℕ
listed_way none = []
listed_way (some y) = y ∷ []

abbrev pub target_of : Graph → Option ℕ → String
target_of g none = ""
target_of g (some y) = (g.edge_at y).next

pub record CopyCase (n : String) (g g' : Graph) : Type 0 where
  pub node : Node
  pub way : Option ℕ
  pub links : List ℕ
  pub has_node : get n g.nodes ≡ some node
  pub has_edges : get n g.edges ≡ some (listed_way way)
  pub has_links : get n g.backwards ≡ some links
  pub leads_on : target_of g way ≡ n → n ≡ ""
  pub result : Gives (copies n (target_of g way) way node links g) g'

module _ (n : String) (g g' : Graph) where
  copy_edges_case :
      (es : List ℕ)
      → Gives (copy_edges n g es) g'
      → (way : Option ℕ) × (es ≡ listed_way way)
        × Gives (get n g.backwards >>= copy_backwards n g way) g'
  copy_edges_case [] h = (none, refl, h)
  copy_edges_case (y ∷ []) h = (some y, refl, h)
  copy_edges_case (y ∷ z ∷ zs) h = absurd (not_done g g' h)

  copy_backwards_case :
      (way : Option ℕ) (bs : List ℕ)
      → Gives (copy_backwards n g way bs) g'
      → Gives (get n g.nodes >>= copy_node n g way bs) g'
  copy_backwards_case way [] h = absurd (not_done g g' h)
  copy_backwards_case way (b ∷ []) h = absurd (not_done g g' h)
  copy_backwards_case way (a ∷ b ∷ bs) h = h

  copy_node_case :
      (way : Option ℕ) (bs : List ℕ) (v : Node)
      → Gives (copy_node n g way bs v) g'
      → (target_of g way ≡ n → n ≡ "") × Gives (copies n (target_of g way) way v bs g) g'
  copy_node_case none bs v h = elim (Bool-cases (is_empty v.loop_use)) [
    | inl e ↦ (λ p. sym p, rw e at h)
    | inr e ↦ let k : Gives (some (g, false)) g' = rw e at h in absurd (not_done g g' k)
  ]
  copy_node_case (some y) bs v h = elim (Bool-cases (is_empty v.loop_use)) [
    | inl e ↦ elim (Bool-cases ((g.edge_at y).next == n)) [
      | inl i ↦ let k : Gives (some (g, false)) g' = rw (e, i) at h in absurd (not_done g g' k)
      | inr i ↦ (λ p. absurd (false→not_eq (g.edge_at y).next n i p), rw (e, i) at h)
    ]
    | inr e ↦ let k : Gives (some (g, false)) g' = rw e at h in absurd (not_done g g' k)
  ]

  pub copy_case : duplicate_node n g ≡ some (g', true) → CopyCase n g g'
  unfolding duplicate_node
  copy_case h =
      let (es, a, b) = bind_some (get n g.edges) (copy_edges n g) (g', true) h in
      let (way, c, d) = copy_edges_case es b in
      let (bs, p, q) = bind_some (get n g.backwards) (copy_backwards n g way) (g', true) d in
      let (v, r, t) =
        bind_some (get n g.nodes) (copy_node n g way bs) (g', true)
          (copy_backwards_case way bs q) in
      let u = copy_node_case way bs v t in
      record {
        node = v;
        way = way;
        links = bs;
        has_node = r;
        has_edges = a ∙ ap some c;
        has_links = p;
        leads_on = u.0;
        result = u.1;
      }

-- What the removal of links leaves alone.
pub record SameButLinks (g g' : Graph) : Type 0 where
  pub same_nodes : g'.nodes ≡ g.nodes
  pub same_edges : g'.edges ≡ g.edges
  pub same_edge_at : g'.edge_at ≡ g.edge_at
  pub same_back_at : g'.back_at ≡ g.back_at
  pub same_new_back : g'.new_back ≡ g.new_back

pub unlink_node_same :
    (n s : String) (g g' : Graph) → unlink_node n s g ≡ some g' → SameButLinks g g'
unfolding unlink_node
unlink_node_same n s g g' e = elim (Bool-cases (s == "")) [
  | inl p ↦
      let q : some g ≡ some g' = rw p at e in
      let k = sym (some_eq q) in
      record {
        same_nodes = ap (λ z. z.nodes) k;
        same_edges = ap (λ z. z.edges) k;
        same_edge_at = ap (λ z. z.edge_at) k;
        same_back_at = ap (λ z. z.back_at) k;
        same_new_back = ap (λ z. z.new_back) k;
      }
  | inr p ↦
      let f = λ (bs : List ℕ). record g {
        backwards = insert s (remove_if (λ b. (g.back_at b).from == n) bs) g.backwards;
      } in
      let q : map_option f (get s g.backwards) ≡ some g' = rw p at e in
      let k = sym (map_some f (get s g.backwards) g' q).2 in
      record {
        same_nodes = ap (λ z. z.nodes) k;
        same_edges = ap (λ z. z.edges) k;
        same_edge_at = ap (λ z. z.edge_at) k;
        same_back_at = ap (λ z. z.back_at) k;
        same_new_back = ap (λ z. z.new_back) k;
      }
]
