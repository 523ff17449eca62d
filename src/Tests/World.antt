-- ===== src/Tests/World.antt =====
-- A small interpretation in which the laws hold: literals, optional values, pairs, and maps with a
-- default, which are indexed by literals.
use spoq.Base.{
  ℕ, nat_eq, Bool, true, false, not, ◌&&◌, ◌||◌, ◌==◌, nat_eq→eq, bool_eq→eq, eq_iff, eq_refl,
  Option, none, some, List, [], ◌∷◌, ◌≡◌, ◌≢◌, refl, ap, if◌then◌else◌, Bool-cases, inl, inr, arith,
}
use spoq.Ast.{Literal, ulong, text, truth, Ops, Binops}
use spoq.Equal.{literal_eq}
use spoq.Meaning.{
  Constant, plain, minus_of, Interpretation, Env, constant, Operator, ops, binops, named,
}
use spoq.Rules.Branch.{ConditionLaws}
use spoq.Rules.Rely.{RelyLaws}
use spoq.Rules.Maps.{MapLaws, is_init}
use spoq.Coi.Merge.{BooleanLaws}
use spoq.Rules.When.Meaning.{OptionLaws}

pub data Datum : Type 0 where
  lit : Literal → Datum
  minus : ℕ → Datum
  absent : Datum
  boxed : Datum → Datum
  pair : Datum → Datum → Datum
  default : Datum → Datum
  entry : Datum → Constant → Datum → Datum

abbrev holds : Datum → Bool
holds (lit (truth b)) = b
holds _ = false

-- The index that a value stands for.
abbrev key : Datum → Constant
key (lit c) = plain c
key (minus k) = minus_of k
key _ = plain (truth false)

abbrev constant_eq : Constant → Constant → Bool
constant_eq (plain c) (plain d) = literal_eq c d
constant_eq (minus_of k) (minus_of l) = nat_eq k l
constant_eq _ _ = false

abbrev read : Datum → Constant → Datum
read (default v) c = v
read (entry m d v) c = if constant_eq d c then v else read m c
read _ c = absent

abbrev write : Datum → Constant → Datum → Datum
write (entry m d v) c w = if constant_eq d c then entry m c w else entry (entry m d v) c w
write m c w = entry m c w

abbrev same_text : Datum → Datum → Bool
same_text (lit (text a)) (lit (text b)) = a == b
same_text _ _ = false

abbrev apply : Operator → List Datum → Datum
apply (ops Ops.get) (m ∷ i ∷ []) = read m (key i)
apply (ops Ops.set) (m ∷ i ∷ v ∷ []) = write m (key i) v
apply (ops Ops.bnot) (a ∷ []) = lit (truth (not (holds a)))
apply (ops Ops.some_op) (a ∷ []) = boxed a
apply (ops Ops.tuple_op) (a ∷ b ∷ []) = pair a b
apply (binops Binops.band) (a ∷ b ∷ []) = lit (truth (holds a && holds b))
apply (binops Binops.seq) (a ∷ b ∷ vs) = lit (truth (same_text a b))
apply (named z) (v ∷ vs) = if is_init z then default v else absent
apply _ vs = absent

abbrev destruct : Operator → Datum → Option (List Datum)
destruct (ops Ops.some_op) (boxed v) = some (v ∷ [])
destruct (ops Ops.tuple_op) (pair v w) = some (v ∷ w ∷ [])
destruct (ops Ops.none_op) absent = some []
destruct _ v = none

abbrev is_absent : Datum → Bool
is_absent absent = true
is_absent v = false

abbrev is_literal : Literal → Datum → Bool
is_literal c (lit d) = literal_eq c d
is_literal c v = false

abbrev is_negative : ℕ → Datum → Bool
is_negative k (minus l) = nat_eq k l
is_negative k v = false

abbrev both : Datum → Datum → Datum
both a b = lit (truth (holds a && holds b))

-- The quantifiers range over the two truth values.
abbrev pub world : Interpretation
world = record {
  Value = Datum;
  known = λ x. x == "None";
  global = λ x. absent;
  literal = lit;
  negative = minus;
  apply = apply;
  call = λ g vs. absent;
  holds = holds;
  relies = λ p v. if holds p then v else absent;
  annotates = λ p v. v;
  stuck = absent;
  is_global = λ x v. is_absent v;
  is_literal = is_literal;
  is_negative = is_negative;
  destruct = destruct;
  for_all = λ t k. both (k (lit (truth true))) (k (lit (truth false)));
  there_is = λ t k. lit (truth (holds (k (lit (truth true))) || holds (k (lit (truth false)))));
  implies = λ a b. lit (truth (not (holds a) || holds b));
  and_also = both;
}

-- Every variable is the truth value true, but for the state, which is 7.
abbrev pub start : Env world
start x = if x == "st" then lit (ulong 7) else lit (truth true)

pub world-ConditionLaws : ConditionLaws world
world-ConditionLaws = record { holds_truth = λ b. refl; holds_seq = λ a b vs. refl }

pub world-RelyLaws : RelyLaws world
world-RelyLaws = record { holds_truth = λ b. refl; none_known = refl; relies_eq = λ p v. refl }

pub world-BooleanLaws : BooleanLaws world
world-BooleanLaws = record { holds_band = λ a b. refl; holds_bnot = λ a. refl }

literal_eq_refl : (c : Literal) → literal_eq c c ≡ true
literal_eq_refl (ulong n) = ground arith
literal_eq_refl (text s) = eq_refl s
literal_eq_refl (truth b) = ground arith

literal_eq→eq : (c d : Literal) → literal_eq c d ≡ true → c ≡ d
literal_eq→eq (ulong a) (ulong b) h = ap ulong (nat_eq→eq a b h)
literal_eq→eq (text a) (text b) h = ap text ((eq_iff a b).0 h)
literal_eq→eq (truth a) (truth b) h = ap truth (bool_eq→eq a b h)
literal_eq→eq _ _ h = cc

constant_eq_refl : (c : Constant) → constant_eq c c ≡ true
constant_eq_refl (plain c) = literal_eq_refl c
constant_eq_refl (minus_of k) = ground arith

constant_eq→eq : (c d : Constant) → constant_eq c d ≡ true → c ≡ d
constant_eq→eq (plain c) (plain d) h = ap plain (literal_eq→eq c d h)
constant_eq→eq (minus_of k) (minus_of l) h = ap minus_of (nat_eq→eq k l h)
constant_eq→eq _ _ h = cc

constant_differs : (c d : Constant) → c ≢ d → constant_eq c d ≡ false
constant_differs c d h = elim (Bool-cases (constant_eq c d)) [
  | inl e ↦ absurd (h (constant_eq→eq c d e))
  | inr e ↦ e
]

read-write : (m : Datum) (c : Constant) (v : Datum) → read (write m c v) c ≡ v
read-write (entry m d w) c v = elim (Bool-cases (constant_eq d c)) [
  | inl e ↦ rw (e, constant_eq_refl c)
  | inr e ↦ rw (e, constant_eq_refl c)
]
read-write _ c v = rw (constant_eq_refl c)

read-write_other :
    (m : Datum) (c d : Constant) (v : Datum) → c ≢ d → read (write m c v) d ≡ read m d
read-write_other (entry m e w) c d v h = elim (Bool-cases (constant_eq e c)) [
  | inl p ↦ rw (p, constant_eq→eq e c p, constant_differs c d h)
  | inr p ↦ rw (p, constant_differs c d h)
]
read-write_other _ c d v h = rw (constant_differs c d h)

write-write : (m : Datum) (c : Constant) (v w : Datum) → write (write m c v) c w ≡ write m c w
write-write (entry m d u) c v w = elim (Bool-cases (constant_eq d c)) [
  | inl e ↦ rw (e, constant_eq_refl c)
  | inr e ↦ rw (e, constant_eq_refl c)
]
write-write _ c v w = rw (constant_eq_refl c)

key-constant : (c : Constant) → key (constant world c) ≡ c
key-constant (plain c) = refl
key-constant (minus_of k) = refl

set_other :
    (m v : Datum) (c d : Constant)
    → c ≢ d
    → read (write m (key (constant world c)) v) (key (constant world d))
      ≡ read m (key (constant world d))
set_other m v c d h = rw (key-constant c, key-constant d) (read-write_other m c d v h)

pub world-MapLaws : MapLaws world
world-MapLaws = record {
  get_zmap_init = λ v i vs. refl;
  get_zmap_init_dot = λ v i vs. refl;
  get_set_same = λ m i v. read-write m (key i) v;
  get_set_other = λ m v c d h. set_other m v c d h;
  set_set = λ m i v w. write-write m (key i) v w;
}

pub world-OptionLaws : OptionLaws world
world-OptionLaws = record {
  some_some = λ v. refl;
  none_some = λ v. refl;
  some_none = refl;
  none_none = refl;
  annotates_eq = λ p v. refl;
}
