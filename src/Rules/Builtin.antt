-- ===== src/Rules/Builtin.antt =====
-- `rule_simple_builtin_functions` of src/optimizations/rules.cpp: conversions that undo each other,
-- and masks that are set one after the other.
use Prim.Native.Nat.{bit_or}
use spoq.Base.{ℕ, String, Bool, true, false, ◌&&◌, ◌||◌, ◌==◌, List, [], ◌∷◌, ◌≡◌}
use spoq.Ast.{SpecType, ulong, Binops, SpecNode, int_const, expr, binop, name, nil, cons}
use spoq.Meaning.{Interpretation, binops, named, plain, int_constant}
use spoq.Rules.{Rewrite, when_rewrite}

-- `f (g x)` is `x`.
abbrev pub undoes : String → String → Bool
undoes f g =
    (f == "Z_to_PA" && g == "PA_to_Z")
    || ((f == "PTE_to_Z" && g == "Z_to_PTE")
        || ((f == "Z_to_PTE" && g == "PTE_to_Z")
            || ((f == "PA_to_Z" && g == "Z_to_PA")
                || ((f == "int_to_ptr" && g == "ptr_to_int")
                    || (f == "ptr_to_int" && g == "int_to_ptr")))))

abbrev pub bitor_of : SpecNode → SpecNode → SpecType → SpecNode
bitor_of a b t = expr (binop Binops.bitor) (cons a (cons b nil)) t

-- The local function. The masks are merged without setting `changed`. A conversion has an argument,
-- and `bitor` two: the code throws or asserts otherwise.
unfoldable pub simple_builtin_functions : Rewrite
simple_builtin_functions (expr (name f) (cons (expr (name g) (cons e es) u) rest) t) =
    when_rewrite (undoes f g) (e, true)
      (expr (name f) (cons (expr (name g) (cons e es) u) rest) t, false)
simple_builtin_functions
      (expr
        (binop Binops.bitor)
        (cons
          (expr (binop Binops.bitor) (cons e (cons (int_const a s) nil)) u)
          (cons (int_const b s') nil))
        t) =
    (bitor_of e (int_const (bit_or a b) false) t, false)
simple_builtin_functions n = (n, false)

module _ (I : Interpretation) where
  open I use {Value}

  abbrev or_value : Value → Value → Value
  or_value v w = I.apply (binops Binops.bitor) (v ∷ w ∷ [])

  -- The function `f` undoes `g`: further arguments do not count.
  abbrev pub Undoes : String → String → Type 0
  Undoes f g =
      (v : Value) (vs ws : List Value) → I.apply (named f) (I.apply (named g) (v ∷ vs) ∷ ws) ≡ v

  -- Physical addresses, page-table entries and pointers are written as integers one to one, and the
  -- disjunction of bits is associative and that of the constants.
  pub record BuiltinLaws : Type 0 where
    pub address_of_integer : Undoes "Z_to_PA" "PA_to_Z"
    pub integer_of_address : Undoes "PA_to_Z" "Z_to_PA"
    pub entry_of_integer : Undoes "Z_to_PTE" "PTE_to_Z"
    pub integer_of_entry : Undoes "PTE_to_Z" "Z_to_PTE"
    pub pointer_of_integer : Undoes "int_to_ptr" "ptr_to_int"
    pub integer_of_pointer : Undoes "ptr_to_int" "int_to_ptr"
    pub bitor_assoc : (u v w : Value) → or_value (or_value u v) w ≡ or_value u (or_value v w)
    pub bitor_literal :
        (a b : ℕ)
        → or_value (I.literal (ulong a)) (I.literal (ulong b)) ≡ I.literal (ulong (bit_or a b))

  -- The masks that are merged are printed as their words: none is a negative number.
  abbrev pub HasWordMasks : SpecNode → Type 0
  HasWordMasks
        (expr
          (binop Binops.bitor)
          (cons
            (expr (binop Binops.bitor) (cons e (cons (int_const a s) nil)) u)
            (cons (int_const b s') nil))
          t) =
      (int_constant a s ≡ plain (ulong a)) × (int_constant b s' ≡ plain (ulong b))
  HasWordMasks n = Unit
