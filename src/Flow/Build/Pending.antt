-- ===== src/Flow/Build/Pending.antt =====
-- A graph of blocks of src/frontend/IRLoader/control_flow.cpp while the edges of one block get
-- their links.
use spoq.Base.{ℕ, ◌<◌, none, some, List, [], ◌∷◌, ◌++◌, ◌≡◌, ◌≢◌, refl, inl, inr, String, arith}
use spoq.Dict.{get}
use spoq.Dict.Valid.{IsValid}
use spoq.Flow.{Graph}
use spoq.Flow.Links.{Memᴰ, Arrives, Departs, IsLinked}
use spoq.Flow.Links.Fresh.{IsFresh}
use spoq.Flow.Links.Members.{Memᴰ-append}

abbrev pub AllApart : {A : Type 0} → List A → Type 0
AllApart [] = Unit
AllApart (x ∷ xs) = ((y : _) → Memᴰ y xs → x ≢ y) × AllApart xs

-- The edges `ps` of the node `n` have no link yet, and all others are linked.
pub record IsPending (n : String) (ps : List ℕ) (g : Graph) : Type 0 where
  pub nodes_valid : IsValid g.nodes
  pub edges_valid : IsValid g.edges
  pub backwards_valid : IsValid g.backwards
  pub no_empty_name : get "" g.backwards ≡ none
  pub own_link :
      (m : String) (es : List ℕ) (x b : ℕ)
      → get m g.edges ≡ some es
      → Memᴰ x es
      → (g.edge_at x).backward ≡ some b
      → ((g.back_at b).edge ≡ x) × ((g.back_at b).from ≡ m)
  pub arrives :
      (m : String) (es : List ℕ) (x : ℕ)
      → get m g.edges ≡ some es
      → Memᴰ x es
      → ¬ Memᴰ x ps
      → (g.edge_at x).next ≢ ""
      → Arrives g x
  pub departs :
      (t : String) (bs : List ℕ) (b : ℕ) → get t g.backwards ≡ some bs → Memᴰ b bs → Departs g t b
  pub is_fresh : IsFresh g
  pub unlinked : (x : ℕ) → Memᴰ x ps → (g.edge_at x).backward ≡ none
  pub at_home :
      (m : String) (es : List ℕ) (x : ℕ) → get m g.edges ≡ some es → Memᴰ x es → Memᴰ x ps → m ≡ n
  pub all_apart : AllApart ps
  pub pending_edges : (es : List ℕ) × (get n g.edges ≡ some es) × ((x : ℕ) → Memᴰ x ps → Memᴰ x es)

pub none_pending : {n : String} {g : Graph} → IsPending n [] g → IsLinked g
none_pending p = record {
  nodes_valid = p.nodes_valid;
  edges_valid = p.edges_valid;
  backwards_valid = p.backwards_valid;
  no_empty_name = p.no_empty_name;
  own_link = p.own_link;
  arrives = λ m es x h i k. p.arrives m es x h i (λ j. elim j [ ]) k;
  departs = p.departs;
}

pub all_linked :
    (n : String) (es : List ℕ) (g : Graph)
    → IsLinked g
    → IsFresh g
    → get n g.edges ≡ some es
    → IsPending n [] g
all_linked n es g w f h = record {
  nodes_valid = w.nodes_valid;
  edges_valid = w.edges_valid;
  backwards_valid = w.backwards_valid;
  no_empty_name = w.no_empty_name;
  own_link = w.own_link;
  arrives = λ m es x h i j k. w.arrives m es x h i k;
  departs = w.departs;
  is_fresh = f;
  unlinked = λ x j. elim j [ ];
  at_home = λ m es x h i j. elim j [ ];
  all_apart = tt;
  pending_edges = (es, h, λ x j. elim j [ ]);
}

pub AllApart-append :
    (xs : List ℕ) (k : ℕ) → AllApart xs → ((y : ℕ) → Memᴰ y xs → y < k) → AllApart (xs ++ k ∷ [])
AllApart-append [] k h f = (λ y m. elim m [ ], tt)
AllApart-append (x ∷ xs) k h f = (
  λ y m. elim (Memᴰ-append y k xs m) [
    | inl i ↦ h.0 y i
    | inr e ↦ λ p. let q = f x (Memᴰ.head refl) in absurd (omega arith)
  ],
  AllApart-append xs k h.1 (λ y m. f y (Memᴰ.tail m)),
)
