-- ===== src/Meaning.antt =====
-- What a specification means: the language that the passes rewrite is Coq's, of which the program
-- prints the syntax (src/libs/nodes.cpp) and never computes the values. The meaning is therefore
-- relative to an interpretation, a parameter: the values, the constants, the operators, how a value
-- is taken apart by a constructor, and the quantifiers. The laws that one pass relies on stand among
-- the hypotheses of its theorem.
pub mod Envs
pub mod Hypotheses
pub mod Reads
use spoq.Base.{
  ℕ, ◌-◌, ◌^◌, ◌&&◌, leb, String, Bool, true, false, Option, none, some, List, [], ◌∷◌, ◌==◌,
  if◌then◌else◌, map_option, and_then, or_else,
}
use spoq.Ast.{
  SpecType, Literal, ulong, text, truth, Ops, Binops, SpecNode, symbol, const, int_const,
  string_const, bool_const, expr, matching, rely, anno, branch, forall, exists, Op, node_op, op,
  binop, name, SpecNodes, nil, cons, Arms, no_arms, arm, Args, no_args, arg, hypothesis, as_const,
}

-- What a constant is printed as: a literal, or minus a number. An `IntConst` that is signed is printed
-- as the `long long` of its word.
pub data Constant : Type 0 where
  plain : Literal → Constant
  minus_of : ℕ → Constant

abbrev pub int_constant : ℕ → Bool → Constant
int_constant n sign = if sign && leb (2 ^ 63) n then minus_of (2 ^ 64 - n) else plain (ulong n)

-- The constant that a node is, if it is one.
abbrev pub printed : SpecNode → Option Constant
printed (int_const n sign) = some (int_constant n sign)
printed n = map_option plain (as_const n)

-- An operator that is no expression.
pub data Operator : Type 0 where
  ops : Ops → Operator
  binops : Binops → Operator
  named : String → Operator

pub record Interpretation : Type 1 where
  pub Value : Type 0
  -- `Project::is_known_symbol`: what is no variable
  pub known : String → Bool
  pub global : String → Value
  pub literal : Literal → Value
  -- minus a number
  pub negative : ℕ → Value
  pub apply : Operator → List Value → Value
  pub call : Value → List Value → Value
  -- a condition read as a Boolean
  pub holds : Value → Bool
  pub relies : Value → Value → Value
  pub annotates : Value → Value → Value
  -- a match of which no arm fits
  pub stuck : Value
  pub is_global : String → Value → Bool
  pub is_literal : Literal → Value → Bool
  pub is_negative : ℕ → Value → Bool
  pub destruct : Operator → Value → Option (List Value)
  pub for_all : SpecType → (Value → Value) → Value
  pub there_is : SpecType → (Value → Value) → Value
  pub implies : Value → Value → Value
  pub and_also : Value → Value → Value

abbrev pub update {ℓ} : {A : Type ℓ} → (String → A) → String → A → String → A
update r x v y = if y == x then v else r y

-- The operator of an expression that is headed by no expression.
abbrev pub operator : Op → Option Operator
operator (node_op n) = none
operator (op o) = some (ops o)
operator (binop o) = some (binops o)
operator (name s) = some (named s)

module _ (I : Interpretation) where
  open I use {Value}

  abbrev pub Env : Type 0
  Env = String → Value

  abbrev pub when_test : Bool → Env → Option Env
  when_test b r = if b then some r else none

  abbrev pub constant : Constant → Value
  constant (plain c) = I.literal c
  constant (minus_of k) = I.negative k

  abbrev pub is_constant : Constant → Value → Bool
  is_constant (plain c) v = I.is_literal c v
  is_constant (minus_of k) v = I.is_negative k v

  -- A variable of a pattern binds; a known symbol, a constant and an operator are tests.
  unfoldable mutual
    pub match_pattern : SpecNode → Value → Env → Option Env
    match_pattern (symbol x t) v r =
        if I.known x then when_test (I.is_global x v) r else some (update r x v)
    match_pattern (const c t) v r = when_test (I.is_literal c v) r
    match_pattern (int_const n sign) v r = when_test (is_constant (int_constant n sign) v) r
    match_pattern (string_const s) v r = when_test (I.is_literal (text s) v) r
    match_pattern (bool_const b) v r = when_test (I.is_literal (truth b) v) r
    match_pattern (expr o es t) v r =
        and_then (operator o) λ f. and_then (I.destruct f v) λ vs. match_patterns es vs r
    match_pattern _ v r = none

    pub match_patterns : SpecNodes → List Value → Env → Option Env
    match_patterns nil [] r = some r
    match_patterns (cons n ns) (v ∷ vs) r =
        and_then (match_pattern n v r) λ r'. match_patterns ns vs r'
    match_patterns _ _ r = none

  unfoldable mutual
    pub eval : SpecNode → Env → Value
    eval (symbol x t) r = if I.known x then I.global x else r x
    eval (const c t) r = I.literal c
    eval (int_const n sign) r = constant (int_constant n sign)
    eval (string_const s) r = I.literal (text s)
    eval (bool_const b) r = I.literal (truth b)
    eval (expr o es t) r = eval_op o (eval_nodes es r) r
    eval (matching src arms t) r = eval_arms arms (eval src r) r
    eval (rely p b t) r = I.relies (eval p r) (eval b r)
    eval (anno p b t) r = I.annotates (eval p r) (eval b r)
    eval (branch c a b t) r = if I.holds (eval c r) then eval a r else eval b r
    eval (forall vs b t) r = quantify true vs r λ s. eval b s
    eval (exists vs b t) r = quantify false vs r λ s. eval b s

    pub eval_op : Op → List Value → Env → Value
    eval_op (node_op n) vs r = I.call (eval n r) vs
    eval_op (op o) vs r = I.apply (ops o) vs
    eval_op (binop o) vs r = I.apply (binops o) vs
    eval_op (name s) vs r = I.apply (named s) vs

    pub eval_nodes : SpecNodes → Env → List Value
    eval_nodes nil r = []
    eval_nodes (cons n ns) r = eval n r ∷ eval_nodes ns r

    -- The first arm that fits.
    pub eval_arms : Arms → Value → Env → Value
    eval_arms no_arms v r = I.stuck
    eval_arms (arm p b rest) v r =
        or_else (map_option (λ s. eval b s) (match_pattern p v r)) (eval_arms rest v r)

    pub quantify : Bool → Args → Env → (Env → Value) → Value
    quantify q no_args r k = k r
    quantify q (arg x t vs) r k =
        (if q then I.for_all else I.there_is) t λ u. quantify q vs (update r x u) k
    quantify q (hypothesis x e vs) r k =
        (if q then I.implies else I.and_also) (eval e r) (quantify q vs r k)
