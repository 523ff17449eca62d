-- ===== src/Equal/Signs.antt =====
-- The sign of an `IntConst` (include/nodes.h) in its comparison and in its printed form.
use spoq.Base.{ℕ, Bool, true, false, leb, nat_eq, ◌≤◌, ◌^◌, ◌≡◌, ◌≢◌, arith}
use spoq.Ast.{SpecType, int_const}
use spoq.Equal.{node_eq}
use spoq.Meaning.{printed}

-- Two constants of one word from 2 ^ 63 on, of which one is signed, compare equal, and they are
-- printed as different numbers.
pub node_eq-signs :
    (same_type : SpecType → SpecType → Bool) (n : ℕ)
    → 2 ^ 63 ≤ n
    → (node_eq same_type (int_const n true) (int_const n false) ≡ true)
      × (printed (int_const n true) ≢ printed (int_const n false))
unfolding node_eq
node_eq-signs same_type n h =
    (same n, λ e. let k : leb (2 ^ 63) n ≡ true = ground arith in cc (rw k at e))
  where
    same : (n : ℕ) → nat_eq n n ≡ true
    same n = ground arith
