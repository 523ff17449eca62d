-- ===== src/Tests/Bits.antt =====
-- The disjunction of bits, for the interpretation of masks.
use Prim.Native.Nat.{bit_or, bit_or-bitwise, digits, max}
use spoq.Base.{ℕ, zero, suc, ◌+◌, ◌*◌, ◌/◌, ◌%◌, ◌≤◌, ◌≡◌, refl, sym, ap, ap₂, ◌∙◌, arith}

abbrev run : ℕ → ℕ → ℕ → ℕ
run n a b = digits (λ c. c) max n a b

run-zero : (n b : ℕ) → run n 0 b ≡ b
run-zero zero b = refl
run-zero (suc n) b = refl

run-suc : (n a b : ℕ) → run (suc n) a b ≡ run n (a / 2) (b / 2) * 2 + max (a % 2) (b % 2)
run-suc n zero b = rw (run-zero n (b / 2)) (ground arith)
run-suc n (suc a) b = refl

run-fuel : (n m a b : ℕ) → a ≤ n → a ≤ m → run n a b ≡ run m a b
run-fuel zero m zero b h k = sym (run-zero m b)
run-fuel zero m (suc a) b h k = absurd (omega arith)
run-fuel (suc n) zero zero b h k = refl
run-fuel (suc n) zero (suc a) b h k = absurd (omega arith)
run-fuel (suc n) (suc m) a b h k =
    run-suc n a b
    ∙ ap (λ d. d * 2 + max (a % 2) (b % 2))
        (run-fuel n m (a / 2) (b / 2) (omega arith) (omega arith))
    ∙ sym (run-suc m a b)

bit_or-run : (a b : ℕ) → bit_or a b ≡ run a a b
bit_or-run a b = bit_or-bitwise a b

bit_or-halves : (a b : ℕ) → bit_or a b ≡ bit_or (a / 2) (b / 2) * 2 + max (a % 2) (b % 2)
bit_or-halves a b =
    bit_or-run a b
    ∙ run-fuel a (suc a) a b (omega arith) (omega arith)
    ∙ run-suc a a b
    ∙ ap (λ d. d * 2 + max (a % 2) (b % 2))
        (run-fuel a (a / 2) (a / 2) (b / 2) (omega arith) (omega arith)
          ∙ sym (bit_or-run (a / 2) (b / 2)))

max-bit : (a b : ℕ) → max (a % 2) (b % 2) ≤ 1
max-bit a b = ground arith

half-of : (d m : ℕ) → m ≤ 1 → (d * 2 + m) / 2 ≡ d
half-of d m h = omega arith

bit-of : (d m : ℕ) → m ≤ 1 → (d * 2 + m) % 2 ≡ m
bit-of d m h = omega arith

bit_or-half : (a b : ℕ) → bit_or a b / 2 ≡ bit_or (a / 2) (b / 2)
bit_or-half a b =
    ap (λ d. d / 2) (bit_or-halves a b)
    ∙ half-of (bit_or (a / 2) (b / 2)) (max (a % 2) (b % 2)) (max-bit a b)

bit_or-bit : (a b : ℕ) → bit_or a b % 2 ≡ max (a % 2) (b % 2)
bit_or-bit a b =
    ap (λ d. d % 2) (bit_or-halves a b)
    ∙ bit-of (bit_or (a / 2) (b / 2)) (max (a % 2) (b % 2)) (max-bit a b)

max_assoc : (a b c : ℕ) → max (max a b) c ≡ max a (max b c)
max_assoc a b c = ground arith

assoc : (n a b c : ℕ) → a ≤ n → b ≤ n → c ≤ n → bit_or (bit_or a b) c ≡ bit_or a (bit_or b c)
assoc zero zero zero zero h k l = rw (bit_or-run 0 0)
assoc zero (suc a) b c h k l = absurd (omega arith)
assoc zero zero (suc b) c h k l = absurd (omega arith)
assoc zero zero zero (suc c) h k l = absurd (omega arith)
assoc (suc n) a b c h k l =
    bit_or-halves (bit_or a b) c
    ∙ ap₂ (λ d m. d * 2 + m)
        (ap (λ d. bit_or d (c / 2)) (bit_or-half a b)
          ∙ assoc n (a / 2) (b / 2) (c / 2) (omega arith) (omega arith) (omega arith)
          ∙ sym (ap (bit_or (a / 2)) (bit_or-half b c)))
        (ap (λ m. max m (c % 2)) (bit_or-bit a b)
          ∙ max_assoc (a % 2) (b % 2) (c % 2)
          ∙ sym (ap (max (a % 2)) (bit_or-bit b c)))
    ∙ sym (bit_or-halves a (bit_or b c))

pub bit_or_assoc : (a b c : ℕ) → bit_or (bit_or a b) c ≡ bit_or a (bit_or b c)
bit_or_assoc a b c = assoc (a + b + c) a b c (omega arith) (omega arith) (omega arith)
