-- ===== src/Rules/Simplify/Negation.antt =====
-- `rule_simplify_expr` on a negated comparison: the map `rev`.
use spoq.Base.{
  ℕ, suc, ℤ, pos, negsuc, Bool, true, false, not, nat_eq, ltb, leb, [], ◌∷◌, ◌≡◌, refl, sym, ap,
  ◌∙◌, arith,
}
use spoq.Ast.{SpecType, ulong, Ops, Binops, SpecNode, expr, op, binop, nil, cons}
use spoq.Meaning.{Interpretation, Env, eval, ops, binops}
use spoq.Rules.Simplify.{simplify_expr, is_comparison, rev}

abbrev pub int_eq : ℤ → ℤ → Bool
int_eq (pos a) (pos b) = nat_eq a b
int_eq (negsuc a) (negsuc b) = nat_eq a b
int_eq _ _ = false

abbrev pub int_lt : ℤ → ℤ → Bool
int_lt (pos a) (pos b) = ltb a b
int_lt (pos a) (negsuc b) = false
int_lt (negsuc a) (pos b) = true
int_lt (negsuc a) (negsuc b) = ltb b a

abbrev pub int_le : ℤ → ℤ → Bool
int_le (pos a) (pos b) = leb a b
int_le (pos a) (negsuc b) = false
int_le (negsuc a) (pos b) = true
int_le (negsuc a) (negsuc b) = leb b a

-- A comparison of two integers.
abbrev pub decide : Binops → ℤ → ℤ → Bool
decide Binops.equal a b = int_eq a b
decide Binops.beq a b = int_eq a b
decide Binops.not_equal a b = not (int_eq a b)
decide Binops.bne a b = not (int_eq a b)
decide Binops.lt a b = int_lt a b
decide Binops.blt a b = int_lt a b
decide Binops.lte a b = int_le a b
decide Binops.ble a b = int_le a b
decide Binops.gt a b = int_lt b a
decide Binops.bgt a b = int_lt b a
decide Binops.gte a b = int_le b a
decide Binops.bge a b = int_le b a
decide _ a b = false

-- The keys of `rev`.
abbrev pub has_rev : Binops → Bool
has_rev Binops.not_equal = false
has_rev Binops.bne = false
has_rev o = is_comparison o

has_rev-is_comparison : (o : Binops) → has_rev o ≡ true → is_comparison o ≡ true
has_rev-is_comparison Binops.not_equal h = refl
has_rev-is_comparison Binops.bne h = refl
has_rev-is_comparison o h = h

rev-is_comparison : (o : Binops) → has_rev o ≡ true → is_comparison (rev o) ≡ true
rev-is_comparison Binops.beq h = refl
rev-is_comparison Binops.equal h = refl
rev-is_comparison Binops.lt h = refl
rev-is_comparison Binops.gte h = refl
rev-is_comparison Binops.gt h = refl
rev-is_comparison Binops.lte h = refl
rev-is_comparison Binops.bgt h = refl
rev-is_comparison Binops.ble h = refl
rev-is_comparison Binops.blt h = refl
rev-is_comparison Binops.bge h = refl
rev-is_comparison _ h = cc

int_le-not : (a b : ℤ) → int_le a b ≡ not (int_lt b a)
int_le-not (pos a) (pos b) = ground arith
int_le-not (pos a) (negsuc b) = refl
int_le-not (negsuc a) (pos b) = refl
int_le-not (negsuc a) (negsuc b) = ground arith

int_lt-not : (a b : ℤ) → int_lt a b ≡ not (int_le b a)
int_lt-not (pos a) (pos b) = ground arith
int_lt-not (pos a) (negsuc b) = refl
int_lt-not (negsuc a) (pos b) = refl
int_lt-not (negsuc a) (negsuc b) = ground arith

decide-rev : (o : Binops) (a b : ℤ) → has_rev o ≡ true → decide (rev o) a b ≡ not (decide o a b)
decide-rev Binops.beq a b h = refl
decide-rev Binops.equal a b h = refl
decide-rev Binops.lt a b h = int_le-not b a
decide-rev Binops.gte a b h = int_lt-not a b
decide-rev Binops.gt a b h = int_le-not a b
decide-rev Binops.lte a b h = int_lt-not b a
decide-rev Binops.bgt a b h = int_le-not a b
decide-rev Binops.ble a b h = int_lt-not b a
decide-rev Binops.blt a b h = int_le-not b a
decide-rev Binops.bge a b h = int_lt-not a b
decide-rev _ a b h = cc

-- `Expr::NOT` and `Expr::BNOT`.
abbrev pub is_negation : Ops → Bool
is_negation Ops.not_op = true
is_negation Ops.bnot = true
is_negation _ = false

module _ (I : Interpretation) where
  open I use {Value}

  -- The value of an integer.
  abbrev pub integer : ℤ → Value
  integer (pos n) = I.literal (ulong n)
  integer (negsuc k) = I.negative (suc k)

  -- Comparisons compare integers, and the two negations negate.
  pub record ComparisonLaws : Type 0 where
    pub holds_compare :
        (o : Binops) (a b : ℤ)
        → is_comparison o ≡ true
        → I.holds (I.apply (binops o) (integer a ∷ integer b ∷ [])) ≡ decide o a b
    pub holds_not :
        (q : Ops) (v : Value)
        → is_negation q ≡ true
        → I.holds (I.apply (ops q) (v ∷ [])) ≡ not (I.holds v)

  abbrev pub negated : Ops → Binops → SpecNode → SpecNode → SpecType → SpecType → SpecNode
  negated q o x y t u = expr (op q) (cons (expr (binop o) (cons x (cons y nil)) u) nil) t

  module _ (laws : ComparisonLaws) (undefined : Binops → ℕ → ℕ → ℕ)
      (same_type : SpecType → SpecType → Bool) where
    holds-rev :
        (q : Ops) (o : Binops) (x y : SpecNode) (a b : ℤ) (u : SpecType) (r : Env I)
        → is_negation q ≡ true
        → has_rev o ≡ true
        → eval I x r ≡ integer a
        → eval I y r ≡ integer b
        → I.holds (eval I (expr (binop (rev o)) (cons x (cons y nil)) u) r)
          ≡ I.holds (I.apply (ops q) (eval I (expr (binop o) (cons x (cons y nil)) u) r ∷ []))
    unfolding eval
    holds-rev q o x y a b u r n h p k =
        rw (p, k)
          (laws.holds_compare (rev o) a b (rev-is_comparison o h)
            ∙ decide-rev o a b h
            ∙ ap not (sym (laws.holds_compare o a b (has_rev-is_comparison o h)))
            ∙ sym (laws.holds_not q _ n))

    -- A negation (`NOT` or `BNOT`) of a comparison of two expressions with integer values, other
    -- than a disequality: the rule gives a condition that holds exactly where the negation does.
    pub holds-simplify_negated :
        (q : Ops) (o : Binops) (x y : SpecNode) (a b : ℤ) (t u : SpecType) (r : Env I)
        → is_negation q ≡ true
        → has_rev o ≡ true
        → eval I x r ≡ integer a
        → eval I y r ≡ integer b
        → I.holds (eval I (simplify_expr undefined same_type (negated q o x y t u)).0 r)
          ≡ I.holds (eval I (negated q o x y t u) r)
    unfolding simplify_expr eval
    holds-simplify_negated Ops.bnot o x y a b t u r n h p k =
        rw (has_rev-is_comparison o h) (holds-rev Ops.bnot o x y a b t r n h p k)
    holds-simplify_negated Ops.not_op o x y a b t u r n h p k =
        rw (has_rev-is_comparison o h) (holds-rev Ops.not_op o x y a b t r n h p k)
    holds-simplify_negated _ o x y a b t u r n h p k = cc
