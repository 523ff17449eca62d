-- ===== src/Rules/Branch.antt =====
-- The rules on `If`: `rule_eliminate_if`, `rule_move_if_out_match` and `rule_move_if_out_expr` of
-- src/optimizations/rules.cpp.
use spoq.Base.{
  String, Bool, true, false, ◌==◌, Option, none, some, List, ◌∷◌, ◌≡◌, refl, ap, ◌∙◌, if◌then◌else◌,
  map_option, Bool-cases, inl, inr,
}
use mathlib.Core.Option.{some-injective}
use spoq.Ast.{
  SpecType, Literal, ulong, text, truth, Binops, SpecNode, symbol, const, int_const, string_const,
  bool_const, expr, matching, rely, anno, branch, forall, exists, Op, binop, SpecNodes, nil, cons,
  Arms, make_match, make_if, as_const,
}
use spoq.Copy.{deep_copy, deep_copy_op, deep_copy_nodes, deep_copy_arms}
use spoq.Copy.Meaning.{
  CopySafe, CopySafeOp, CopySafeNodes, CopySafeArms, eval-deep_copy, eval_op-deep_copy_op,
  eval_nodes-deep_copy_nodes, eval_arms-deep_copy_arms,
}
use spoq.Meaning.{Interpretation, Env, eval, eval_nodes, binops, Constant, plain, printed, constant}
use spoq.Rules.{Rewrite}

-- `std::get_if<bool>(&cond->value)` of a constant.
abbrev pub as_bool : Option Literal → Option Bool
as_bool (some (truth b)) = some b
as_bool _ = none

abbrev pub as_text : Option Literal → Option String
as_text (some (text s)) = some s
as_text _ = none

abbrev pub both_texts : Option String → Option String → Option Bool
both_texts (some a) (some b) = some (a == b)
both_texts _ _ = none

-- The condition's value, where the rule can tell it: a Boolean constant, or the comparison `=s` of
-- two string constants. Fewer than two operands of `=s`, for which the code throws, are no known
-- condition here.
unfoldable pub known_condition : SpecNode → Option Bool
known_condition (expr (binop Binops.seq) (cons l (cons r rest)) t) =
    both_texts (as_text (as_const l)) (as_text (as_const r))
known_condition c = as_bool (as_const c)

abbrev pub take_branch : Option Bool → SpecNode → SpecNode → SpecNode → SpecNode × Bool
take_branch (some true) a b n = (a, true)
take_branch (some false) a b n = (b, true)
take_branch none a b n = (n, false)

unfoldable pub eliminate_if : Rewrite
eliminate_if (branch c a b t) = take_branch (known_condition c) a b (branch c a b t)
eliminate_if n = (n, false)

-- The arms of the second match are a copy.
unfoldable pub move_if_out_match : Rewrite
move_if_out_match (matching (branch c a b t) arms u) =
    (make_if c (make_match a arms) (make_match b (deep_copy_arms arms)), true)
move_if_out_match n = (n, false)

-- The first element that is an `If`: its condition, and the elements with either branch in its
-- place. The other elements are copies.
unfoldable pub lift_if : SpecNodes → Option (SpecNode × SpecNodes × SpecNodes)
lift_if nil = none
lift_if (cons (branch c a b t) ns) =
    some (c, cons a (deep_copy_nodes ns), cons b (deep_copy_nodes ns))
lift_if (cons n ns) =
    map_option (λ (c, ls, rs). (c, cons (deep_copy n) ls, cons (deep_copy n) rs)) (lift_if ns)

abbrev pub build_if : Option (SpecNode × SpecNodes × SpecNodes) → SpecNode → SpecNode × Bool
build_if none n = (n, false)
build_if (some (c, ls, rs)) (expr o es t) =
    (make_if c (expr (deep_copy_op o) ls t) (expr (deep_copy_op o) rs t), true)
build_if (some l) n = (n, false)

unfoldable pub move_if_out_expr : Rewrite
move_if_out_expr (expr o es t) = build_if (lift_if es) (expr o es t)
move_if_out_expr n = (n, false)

as_bool-some : (o : Option Literal) (b : Bool) → as_bool o ≡ some b → o ≡ some (truth b)
as_bool-some (some (truth c)) b h = cc
as_bool-some _ b h = cc

as_text-some : (o : Option Literal) (s : String) → as_text o ≡ some s → o ≡ some (text s)
as_text-some (some (text c)) s h = cc
as_text-some _ s h = cc

both_texts-some :
    (o p : Option String) (c : Bool)
    → both_texts o p ≡ some c
    → (a : String) × (b : String) × (o ≡ some a) × (p ≡ some b) × ((a == b) ≡ c)
both_texts-some (some a) (some b) c h = (a, b, refl, refl, some-injective _ _ h)
both_texts-some none p c h = cc
both_texts-some (some a) none c h = cc

abbrev is_word : Literal → Bool
is_word (ulong n) = true
is_word c = false

module _ (I : Interpretation) where
  open I use {Value}

  -- A Boolean constant holds as it says, and `=s` compares its first two operands.
  pub record ConditionLaws : Type 0 where
    pub holds_truth : (b : Bool) → I.holds (I.literal (truth b)) ≡ b
    pub holds_seq :
        (a b : String) (vs : List Value)
        → I.holds (I.apply (binops Binops.seq) (I.literal (text a) ∷ I.literal (text b) ∷ vs))
          ≡ (a == b)

  -- A constant means what is printed.
  pub eval-printed :
      (n : SpecNode) (c : Constant) (r : Env I) → printed n ≡ some c → eval I n r ≡ constant I c
  unfolding eval
  eval-printed (const d t) c r h = cc
  eval-printed (int_const n s) c r h = cc
  eval-printed (string_const s) c r h = cc
  eval-printed (bool_const b) c r h = cc
  eval-printed (symbol x t) c r h = cc
  eval-printed (expr o es t) c r h = cc
  eval-printed (matching s arms t) c r h = cc
  eval-printed (rely p b t) c r h = cc
  eval-printed (anno p b t) c r h = cc
  eval-printed (branch q a b t) c r h = cc
  eval-printed (forall vs b t) c r h = cc
  eval-printed (exists vs b t) c r h = cc

  eval-as_const :
      (n : SpecNode) (c : Literal) (r : Env I)
      → is_word c ≡ false
      → as_const n ≡ some c
      → eval I n r ≡ I.literal c
  eval-as_const (int_const n s) c r w h = let e = ap is_word (some-injective _ _ h) in cc
  eval-as_const (const d t) c r w h = eval-printed (const d t) (plain c) r (ap (map_option plain) h)
  eval-as_const (string_const s) c r w h =
      eval-printed (string_const s) (plain c) r (ap (map_option plain) h)
  eval-as_const (bool_const b) c r w h =
      eval-printed (bool_const b) (plain c) r (ap (map_option plain) h)
  eval-as_const _ c r w h = cc

  module _ (laws : ConditionLaws) where
    holds-as_bool :
        (n : SpecNode) (b : Bool) (r : Env I)
        → as_bool (as_const n) ≡ some b
        → I.holds (eval I n r) ≡ b
    holds-as_bool n b r h =
        rw (eval-as_const n (truth b) r refl (as_bool-some (as_const n) b h)) (laws.holds_truth b)

    holds-seq :
        (l m : SpecNode) (rest : SpecNodes) (b : Bool) (r : Env I)
        → both_texts (as_text (as_const l)) (as_text (as_const m)) ≡ some b
        → I.holds (I.apply (binops Binops.seq) (eval I l r ∷ eval I m r ∷ eval_nodes I rest r)) ≡ b
    holds-seq l m rest b r h =
        let (x, y, p, q, e) = both_texts-some (as_text (as_const l)) (as_text (as_const m)) b h in
        rw
          (
            eval-as_const l (text x) r refl (as_text-some (as_const l) x p),
            eval-as_const m (text y) r refl (as_text-some (as_const m) y q),
          )
          (laws.holds_seq x y (eval_nodes I rest r) ∙ e)

    holds-known_condition :
        (c : SpecNode) (b : Bool) (r : Env I)
        → known_condition c ≡ some b
        → I.holds (eval I c r) ≡ b
    unfolding known_condition eval
    holds-known_condition (expr (binop Binops.seq) (cons l (cons m rest)) t) b r h =
        holds-seq l m rest b r h
    holds-known_condition n b r h = holds-as_bool n b r h

    eval-take_branch :
        (o : Option Bool) (c a b : SpecNode) (t : SpecType) (r : Env I)
        → ((q : Bool) → o ≡ some q → I.holds (eval I c r) ≡ q)
        → eval I (take_branch o a b (branch c a b t)).0 r ≡ eval I (branch c a b t) r
    unfolding eval
    eval-take_branch none c a b t r h = refl
    eval-take_branch (some true) c a b t r h = rw (h true refl)
    eval-take_branch (some false) c a b t r h = rw (h false refl)

    -- Removing a conditional whose condition is known keeps the meaning of every node, where
    -- Boolean constants hold as they say and `=s` compares texts.
    pub eval-eliminate_if : (n : SpecNode) (r : Env I) → eval I (eliminate_if n).0 r ≡ eval I n r
    unfolding eliminate_if
    eval-eliminate_if (branch c a b t) r =
        eval-take_branch (known_condition c) c a b t r (λ q e. holds-known_condition c q r e)
    eval-eliminate_if _ r = refl

  -- Moving a conditional out of the source of a match keeps the meaning of every match whose arms
  -- are safe to copy.
  pub eval-move_if_out_match :
      (src : SpecNode) (arms : Arms) (t : SpecType) (r : Env I)
      → CopySafeArms arms
      → eval I (move_if_out_match (matching src arms t)).0 r ≡ eval I (matching src arms t) r
  unfolding move_if_out_match eval
  eval-move_if_out_match (branch c a b u) arms t r h =
      rw (eval_arms-deep_copy_arms I arms h (eval I b r) r)
        (elim (Bool-cases (I.holds (eval I c r))) [ inl e ↦ rw e | inr e ↦ rw e ])
  eval-move_if_out_match _ arms t r h = refl

  abbrev Lifted : Option (SpecNode × SpecNodes × SpecNodes) → SpecNodes → Env I → Type 0
  Lifted none ns r = Unit
  Lifted (some (c, ls, rs)) ns r =
      (if I.holds (eval I c r) then eval_nodes I ls r else eval_nodes I rs r) ≡ eval_nodes I ns r

  Lifted-cons :
      (o : Option (SpecNode × SpecNodes × SpecNodes)) (n : SpecNode) (ns : SpecNodes) (r : Env I)
      → CopySafe n
      → Lifted o ns r
      → Lifted
          (map_option (λ (c, ls, rs). (c, cons (deep_copy n) ls, cons (deep_copy n) rs)) o)
          (cons n ns)
          r
  unfolding eval
  Lifted-cons none n ns r h k = tt
  Lifted-cons (some (c, ls, rs)) n ns r h k =
      rw (eval-deep_copy I n r h, ← k)
        (elim (Bool-cases (I.holds (eval I c r))) [ inl e ↦ rw e | inr e ↦ rw e ])

  lift_if-Lifted : (ns : SpecNodes) (r : Env I) → CopySafeNodes ns → Lifted (lift_if ns) ns r
  unfolding lift_if eval
  lift_if-Lifted nil r h = tt
  lift_if-Lifted (cons (branch c a b t) ns) r h =
      rw (eval_nodes-deep_copy_nodes I ns h.1 r)
        (elim (Bool-cases (I.holds (eval I c r))) [ inl e ↦ rw e | inr e ↦ rw e ])
  lift_if-Lifted (cons n ns) r h = Lifted-cons (lift_if ns) n ns r h.0 (lift_if-Lifted ns r h.1)

  eval-build_if :
      (l : Option (SpecNode × SpecNodes × SpecNodes)) (o : Op) (es : SpecNodes) (t : SpecType)
      (r : Env I)
      → CopySafeOp o
      → Lifted l es r
      → eval I (build_if l (expr o es t)).0 r ≡ eval I (expr o es t) r
  unfolding eval
  eval-build_if none o es t r h k = refl
  eval-build_if (some (c, ls, rs)) o es t r h k =
      rw
        (
          ← k,
          eval_op-deep_copy_op I o h (eval_nodes I ls r) r,
          eval_op-deep_copy_op I o h (eval_nodes I rs r) r,
        )
        (elim (Bool-cases (I.holds (eval I c r))) [ inl e ↦ rw e | inr e ↦ rw e ])

  -- Moving the first conditional out of the elements of an expression keeps the meaning of every
  -- expression that is safe to copy.
  pub eval-move_if_out_expr :
      (o : Op) (es : SpecNodes) (t : SpecType) (r : Env I)
      → CopySafe (expr o es t)
      → eval I (move_if_out_expr (expr o es t)).0 r ≡ eval I (expr o es t) r
  unfolding move_if_out_expr
  eval-move_if_out_expr o es t r h =
      eval-build_if (lift_if es) o es t r h.0 (lift_if-Lifted es r h.1)
