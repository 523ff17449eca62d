-- ===== src/Ir/Sizes.antt =====
-- Sizes of types (include/irtypes.h) and integer constants (`VInt` of include/irvalues.h).
--
-- A size is an `unsigned long`. `struct_size` is the size of what the table of structures has under
-- a name, once its dots are replaced: `none` where it has nothing.
use spoq.Base.{
  ℕ, zero, suc, ◌+◌, ◌-◌, ◌*◌, ◌/◌, ◌%◌, ◌^◌, ◌≤◌, ◌<◌, Bool, true, false, Option, some, String,
  ◌≡◌, if◌then◌else◌, ltb, leb, map_option, arith, subst, Bool-cases, inl, inr,
}
use spoq.Cache.{ℤ, pos, negsuc}
use spoq.Ir.{
  IntType, ti8, ti16, ti32, ti64, ti128, IrType, t_bool, t_int, t_ptr, t_named_struct, t_struct,
  t_array, t_fixed_vector,
}

-- `1 << type`
unfoldable pub int_size : IntType → ℕ
int_size ti8 = 1
int_size ti16 = 2
int_size ti32 = 4
int_size ti64 = 8
int_size ti128 = 16

module _ (struct_size : String → Option ℕ) where
  unfoldable pub szof : IrType → Option ℕ
  szof t_bool = some (int_size ti8)
  szof (t_int k) = some (int_size k)
  szof (t_ptr t) = some 8
  szof (t_named_struct x) = struct_size x
  szof (t_struct es n) = some n
  szof (t_array t n) = map_option (λ k. k * n % 2 ^ 64) (szof t)
  szof (t_fixed_vector t n) = map_option (λ k. k * n % 2 ^ 64) (szof t)
  szof _ = some 0

abbrev pub min : ℕ → ℕ → ℕ
min a b = if leb a b then a else b

-- `val` and `val_signed` of a constant: `size` is the size of its type in bytes.
unfoldable pub int_fields : ℕ → ℕ → ℕ × Bool
int_fields size val =
    if ltb size 8
    then (let max = 2 ^ (size * 8) in
        if ltb (max - min 256 (max / 32)) val
        then ((val + (2 ^ 64 - max)) % 2 ^ 64, ltb val max)
        else (val, false))
    else if ltb (2 ^ 64 - 1 - 256 + 1) val
    then (((val + (2 ^ 64 - (2 ^ 64 - 1))) % 2 ^ 64 + (2 ^ 64 - 1)) % 2 ^ 64, true)
    else (val, false)

-- The cast to `long long`.
abbrev pub long_long : ℕ → ℤ
long_long v = if ltb v (2 ^ 63) then pos v else negsuc (2 ^ 64 - suc v)

-- The number that `to_coq` prints.
unfoldable pub printed_int : ℕ → ℕ → ℤ
printed_int size val =
    let fields = int_fields size val in if fields.1 then long_long fields.0 else pos fields.0

-- Two's complement for the last numbers of a width, and the number itself for the others.
unfoldable pub near_zero : ℕ → ℕ → ℤ
near_zero max val =
    if ltb val max
    then (if leb val (max - min 256 (max / 32)) then pos val else negsuc (max - suc val))
    else pos (val - max)

max_bounds : (n : ℕ) → 0 < n → n < 8 → (256 ≤ 2 ^ (n * 8)) × (2 ^ (n * 8) ≤ 2 ^ 56)
max_bounds (suc zero) p q = (omega arith, omega arith)
max_bounds (suc (suc zero)) p q = (omega arith, omega arith)
max_bounds (suc (suc (suc zero))) p q = (omega arith, omega arith)
max_bounds (suc (suc (suc (suc zero)))) p q = (omega arith, omega arith)
max_bounds (suc (suc (suc (suc (suc zero))))) p q = (omega arith, omega arith)
max_bounds (suc (suc (suc (suc (suc (suc zero)))))) p q = (omega arith, omega arith)
max_bounds (suc (suc (suc (suc (suc (suc (suc zero))))))) p q = (omega arith, omega arith)
max_bounds zero p q = (omega arith, omega arith)
max_bounds (suc (suc (suc (suc (suc (suc (suc (suc n)))))))) p q = (omega arith, omega arith)

-- The gap below the width is at least one.
gap : (max : ℕ) → 256 ≤ max → (0 < min 256 (max / 32)) × (min 256 (max / 32) ≤ max)
gap max h = (ground arith, ground arith)

wrapped :
    (max val : ℕ)
    → max ≤ val
    → max ≤ 2 ^ 56
    → val < 2 ^ 64
    → (val + (2 ^ 64 - max)) % 2 ^ 64 ≡ val - max
wrapped max val h k l = omega arith

unwrapped :
    (max val : ℕ)
    → val < max
    → max ≤ 2 ^ 64
    → (val + (2 ^ 64 - max)) % 2 ^ 64 ≡ 2 ^ 64 - (max - val)
unwrapped max val h k = omega arith

negative :
    (max val : ℕ)
    → val < max
    → max ≤ val + 256
    → long_long (2 ^ 64 - (max - val)) ≡ negsuc (max - suc val)
negative max val h k = ground arith

-- Below the gap the number stays, in it it is negative, and above the width the width is taken off.
below_gap :
    (max g val : ℕ)
    → 0 < g
    → g ≤ max
    → ltb (max - g) val ≡ false
    → (ltb val max ≡ true) × (leb val (max - g) ≡ true)
below_gap max g val h k e = (ground arith, ground arith)

above_gap : (max g val : ℕ) → ltb (max - g) val ≡ true → leb val (max - g) ≡ false
above_gap max g val e = ground arith

gap_le : (max : ℕ) → min 256 (max / 32) ≤ 256
gap_le max = ground arith

in_gap : (max g val : ℕ) → g ≤ 256 → ltb (max - g) val ≡ true → max ≤ val + 256
in_gap max g val h e = ground arith

ltb→lt : (a b : ℕ) → ltb a b ≡ true → a < b
ltb→lt a b h = ground arith

ltb→le : (a b : ℕ) → ltb a b ≡ false → b ≤ a
ltb→le a b h = ground arith

abbrev read_fields : ℕ × Bool → ℤ
read_fields f = if f.1 then long_long f.0 else pos f.0

narrow_int :
    (max val : ℕ)
    → 256 ≤ max
    → max ≤ 2 ^ 56
    → val < 2 ^ 64
    → read_fields (
        if ltb (max - min 256 (max / 32)) val
        then ((val + (2 ^ 64 - max)) % 2 ^ 64, ltb val max)
        else (val, false))
      ≡ near_zero max val
unfolding near_zero
narrow_int max val h k l = elim (Bool-cases (ltb (max - min 256 (max / 32)) val)) [
  | inl e ↦ elim (Bool-cases (ltb val max)) [
    | inl b ↦
        rw
          (
            e,
            b,
            above_gap max (min 256 (max / 32)) val e,
            unwrapped max val (ltb→lt val max b) (omega arith),
          )
          (negative max val (ltb→lt val max b) (in_gap max (min 256 (max / 32)) val (gap_le max) e))
    | inr b ↦ rw (e, b, wrapped max val (ltb→le val max b) k l)
  ]
  | inr e ↦
      let q = below_gap max (min 256 (max / 32)) val (gap max h).0 (gap max h).1 e in
      rw (e, q.0, q.1)
]

unwrapped_word : (val : ℕ) → val < 2 ^ 64 → ((val + 1) % 2 ^ 64 + (2 ^ 64 - 1)) % 2 ^ 64 ≡ val
unwrapped_word val l = omega arith

wide_int :
    (val : ℕ)
    → val < 2 ^ 64
    → read_fields (
        if ltb (2 ^ 64 - 256) val
        then (((val + 1) % 2 ^ 64 + (2 ^ 64 - 1)) % 2 ^ 64, true)
        else (val, false))
      ≡ near_zero (2 ^ 64) val
unfolding near_zero
wide_int val l = elim (Bool-cases (ltb (2 ^ 64 - 256) val)) [
  | inl e ↦
      let p : ltb val (2 ^ 64) ≡ true = ground arith in
      let q : leb val (2 ^ 64 - 256) ≡ false = ground arith in
      let s : ltb val (2 ^ 63) ≡ false = ground arith in rw (e, p, q, unwrapped_word val l, s)
  | inr e ↦
      let p : ltb val (2 ^ 64) ≡ true = ground arith in
      let q : leb val (2 ^ 64 - 256) ≡ true = ground arith in rw (e, p, q)
]

eight : (size : ℕ) → size ≤ 8 → 8 ≤ size → 8 ≡ size
eight size h k = omega arith

-- An integer constant whose type has one to eight bytes prints as the number itself where this is
-- below the width of the type by the gap (256, or a 32nd of the width) or more, as the negative
-- number with the same bits where it is below the width by less, and less the width where it is
-- not below it; the constant is a 64-bit word.
pub printed_int-near_zero :
    (size val : ℕ)
    → 0 < size
    → size ≤ 8
    → val < 2 ^ 64
    → printed_int size val ≡ near_zero (2 ^ (size * 8)) val
unfolding printed_int int_fields
printed_int-near_zero size val h k l = elim (Bool-cases (ltb size 8)) [
  | inl e ↦
      let b = max_bounds size h (ltb→lt size 8 e) in
      rw e (narrow_int (2 ^ (size * 8)) val b.0 b.1 l)
  | inr e ↦
      subst (λ n. read_fields (int_fields n val) ≡ near_zero (2 ^ (n * 8)) val)
        (eight size k (ltb→le size 8 e)) (wide_int val l)
]
