-- ===== src/Tests/Blocks.antt =====
-- Dictionaries, sizes and graphs of blocks on concrete inputs, with a machine whose state is a
-- number.
use spoq.Base.{
  ℕ, ◌^◌, Bool, true, false, Option, some, [], ◌∷◌, ◌≡◌, refl, ap₂, sym, ◌||◌, nat_eq,
  if◌then◌else◌, arith,
}
use spoq.Dict.{
  Dict, find, set_at, empty_dict, get, insert, erase, access, contains, size, length, entries,
}
use spoq.Dict.Valid.{IsValid, operations-IsValid}
use spoq.Dict.Refines.{lookup, put, remove, has, operations-entries}
use spoq.Ir.{
  t_unknown, IrValue, v_int, v_bool, v_expr, o_or, IrValues, no_values, value_then, IrInst, IrInsts,
  no_insts, inst_then, i_assign, i_return, i_if, one_inst,
}
use spoq.Ir.Sizes.{printed_int, near_zero, printed_int-near_zero}
use spoq.Flow.{Edge}
use spoq.Flow.Branches.{either_value, joined_edge, joined_cond}
use spoq.Flow.Meaning.{Machine, Outcome, running, finished, exec, continue, taken}
use spoq.Flow.Meaning.Merge.{IfLaw}
use spoq.Flow.Meaning.Local.{OrLaw, joined_edge-runs_first}

abbrev two_entries : Dict ℕ
two_entries = insert "b" 2 (insert "a" 1 empty_dict)

module _ {ℓ} {V : Type ℓ} where
  empty-IsValid : IsValid (empty_dict {V = V})
  empty-IsValid = record { linked = refl; distinct = tt; below = tt }

  pub pair_dict-IsValid : (v w : V) → IsValid (insert "b" w (insert "a" v empty_dict))
  pair_dict-IsValid v w =
      (operations-IsValid "b" w (insert "a" v empty_dict)
        (operations-IsValid "a" v empty_dict empty-IsValid).0).0

operations-IsValid_example :
    IsValid (insert "a" 5 two_entries)
    × IsValid (erase "a" two_entries)
    × IsValid (access "a" 5 two_entries)
    × IsValid (empty_dict {V = ℕ})
operations-IsValid_example = operations-IsValid "a" 5 two_entries (pair_dict-IsValid 1 2)

operations-entries_example :
    (get "a" two_entries ≡ lookup "a" (entries two_entries))
    × (contains "a" two_entries ≡ has "a" (entries two_entries))
    × (size two_entries ≡ length (entries two_entries))
    × (entries (insert "a" 5 two_entries) ≡ put "a" 5 (entries two_entries))
    × (entries (erase "a" two_entries) ≡ remove "a" (entries two_entries))
    × (entries (access "a" 5 two_entries) ≡ (
        if has "a" (entries two_entries)
        then entries two_entries
        else put "a" 5 (entries two_entries)))
operations-entries_example = operations-entries "a" 5 two_entries (pair_dict-IsValid 1 2)

-- The order of insertion is kept.
entries_two : entries (insert "a" 5 two_entries) ≡ ("a", 5) ∷ ("b", 2) ∷ []
unfolding entries insert find set_at
entries_two = refl

printed_int-near_zero_example : printed_int 1 255 ≡ near_zero (2 ^ 8) 255
printed_int-near_zero_example =
    printed_int-near_zero 1 255 (omega arith) (omega arith) (omega arith)

abbrev pub number : ℕ → IrValue
number n = v_int t_unknown n false

abbrev value_of : Option IrValue → ℕ → ℕ
value_of (some (v_int t n b)) s = n
value_of v s = s

abbrev mutual
  truth : IrValue → ℕ → Bool
  truth (v_bool b) s = b
  truth (v_int t n b) s = nat_eq n s
  truth (v_expr t o_or vs) s = any_truth vs s
  truth v s = false

  any_truth : IrValues → ℕ → Bool
  any_truth no_values s = false
  any_truth (value_then v vs) s = truth v s || any_truth vs s

abbrev then_do : (ℕ → Outcome ℕ ℕ) → Outcome ℕ ℕ → Outcome ℕ ℕ
then_do f (running s) = f s
then_do f (finished r) = finished r

abbrev mutual
  do_inst : IrInst → ℕ → Outcome ℕ ℕ
  do_inst (i_assign t x v) s = running (value_of (some v) s)
  do_inst (i_return t o) s = finished (value_of o s)
  do_inst (i_if c a b) s =
      let x = do_insts a s in let y = do_insts b s in if truth c s then x else y
  do_inst i s = running s

  do_insts : IrInsts → ℕ → Outcome ℕ ℕ
  do_insts no_insts s = running s
  do_insts (inst_then i is) s = then_do (do_insts is) (do_inst i s)

abbrev pub counter : Machine
counter = record { State = ℕ; Result = ℕ; step = do_inst; holds = truth }

exec-counter : (is : IrInsts) (s : ℕ) → exec counter is s ≡ do_insts is s
unfolding exec
exec-counter no_insts s = refl
exec-counter (inst_then i is) s = go (λ t. exec-counter is t) (do_inst i s)
  where
    go :
        ((t : ℕ) → exec counter is t ≡ do_insts is t)
        → (o : Outcome ℕ ℕ) → continue counter (exec counter is) o ≡ then_do (do_insts is) o
    go f (running t) = f t
    go f (finished r) = refl

pub counter-IfLaw : IfLaw counter
counter-IfLaw = record {
  step-if = λ c a b s.
      ap₂ (λ x y. if truth c s then x else y) (sym (exec-counter a s)) (sym (exec-counter b s));
}

or_false : (a b : Bool) → (a || (b || false)) ≡ (a || b)
or_false a b = ground arith

counter-OrLaw : OrLaw counter
counter-OrLaw = record { holds-either = λ a b s. or_false (truth a s) (truth b s) }

-- The first edge is for one, the second for two: the state is two, and the first sets it to seven.
abbrev way : ℕ → ℕ → Edge
way k n = record {
  next = "b";
  cond = some (number k);
  insts = one_inst (i_assign t_unknown "x" (number n));
  backward = some k;
}

abbrev joined : Edge
joined = record (way 1 7) {
  cond = some (either_value (number 1) (number 2));
  insts = one_inst (
      i_if (either_value (number 1) (number 2)) (one_inst (i_assign t_unknown "x" (number 7)))
        (one_inst (i_assign t_unknown "x" (number 8))));
}

joined_edge_example : joined_edge (way 1 7) (way 2 8) ≡ some joined
unfolding joined_edge joined_cond
joined_edge_example = refl

joined_edge-runs_first_example :
    (taken counter joined.cond 2 ≡ true)
    × (exec counter joined.insts 2 ≡ exec counter (way 1 7).insts 2)
joined_edge-runs_first_example =
    joined_edge-runs_first counter (way 1 7) (way 2 8) joined (number 1) (number 2) 2 counter-IfLaw
      counter-OrLaw refl refl joined_edge_example refl refl
