-- ===== src/Flow/Links.antt =====
-- Edges and backward links of a graph of src/frontend/IRLoader/control_flow.cpp that belong together.
pub mod Fusion
pub mod Kept
pub mod Bridge
pub mod Members
pub mod Fresh
pub mod Merge
pub mod Joined
use spoq.Base.{ℕ, Bool, Option, none, some, List, [], ◌∷◌, ◌≡◌, ◌≢◌, String}
use spoq.Dict.{get}
use spoq.Dict.Valid.{IsValid}
use spoq.Flow.{Node, Edge, Backward, Graph}
pub use mathlib.Core.List.{Memᴰ}

-- The link of an edge that does not leave the graph is in the list of the node that it leads to.
pub record Arrives (g : Graph) (x : ℕ) : Type 0 where
  pub link : ℕ
  pub links : List ℕ
  pub has_link : (g.edge_at x).backward ≡ some link
  pub at_next : get (g.edge_at x).next g.backwards ≡ some links
  pub listed : Memᴰ link links

-- The edge of a link is in the list of the node that it comes from.
pub record Departs (g : Graph) (t : String) (b : ℕ) : Type 0 where
  pub leads : (g.edge_at (g.back_at b).edge).next ≡ t
  pub linked : (g.edge_at (g.back_at b).edge).backward ≡ some b
  pub outgoing : List ℕ
  pub at_from : get (g.back_at b).from g.edges ≡ some outgoing
  pub listed : Memᴰ (g.back_at b).edge outgoing

pub record IsLinked (g : Graph) : Type 0 where
  pub nodes_valid : IsValid g.nodes
  pub edges_valid : IsValid g.edges
  pub backwards_valid : IsValid g.backwards
  pub no_empty_name : get "" g.backwards ≡ none
  pub own_link :
      (m : String) (es : List ℕ) (x b : ℕ)
      → get m g.edges ≡ some es
      → Memᴰ x es
      → (g.edge_at x).backward ≡ some b
      → ((g.back_at b).edge ≡ x) × ((g.back_at b).from ≡ m)
  pub arrives :
      (m : String) (es : List ℕ) (x : ℕ)
      → get m g.edges ≡ some es
      → Memᴰ x es
      → (g.edge_at x).next ≢ ""
      → Arrives g x
  pub departs :
      (t : String) (bs : List ℕ) (b : ℕ) → get t g.backwards ≡ some bs → Memᴰ b bs → Departs g t b
