-- ===== src/Equal.antt =====
-- The comparison `operator==` of the node classes in include/nodes.h, and of `Arg` in
-- include/values.h.
--
-- `typeid` tells a `Const` from its subclasses, so `Const(3)` differs from `IntConst(3)`. Types are
-- not compared, but those of a quantifier's arguments, as shared pointers: `same_type` is that
-- comparison of pointers. A hypothesis has no type (`Arg::type` is null), and its expression is not
-- compared.
pub mod Consistent
pub mod Meaning
pub mod Signs
use spoq.Base.{ℕ, String, Bool, true, false, ◌&&◌, ◌==◌, nat_eq, bool_eq}
use spoq.Ast.{
  SpecType, Literal, ulong, text, truth, Ops, Binops, SpecNode, symbol, const, int_const,
  string_const, bool_const, expr, matching, rely, anno, branch, forall, exists, Op, node_op, op,
  binop, name, SpecNodes, nil, cons, Arms, no_arms, arm, Args, no_args, arg, hypothesis,
}

-- The values of the enumerations.
abbrev pub ops_code : Ops → ℕ
ops_code Ops.neg = 0
ops_code Ops.set = 1
ops_code Ops.get = 2
ops_code Ops.nth = 3
ops_code Ops.not_op = 4
ops_code Ops.bnot = 5
ops_code Ops.record_set = 6
ops_code Ops.record_get = 7
ops_code Ops.tuple_op = 8
ops_code Ops.some_op = 9
ops_code Ops.none_op = 10

abbrev pub binops_code : Binops → ℕ
binops_code Binops.mult = 0
binops_code Binops.div = 1
binops_code Binops.mod_op = 2
binops_code Binops.add = 3
binops_code Binops.minus = 4
binops_code Binops.bitand = 5
binops_code Binops.bitor = 6
binops_code Binops.beq = 7
binops_code Binops.bne = 8
binops_code Binops.bgt = 9
binops_code Binops.bge = 10
binops_code Binops.blt = 11
binops_code Binops.ble = 12
binops_code Binops.band = 13
binops_code Binops.bor = 14
binops_code Binops.lshift = 15
binops_code Binops.rshift = 16
binops_code Binops.seq = 17
binops_code Binops.sne = 18
binops_code Binops.list_eq = 19
binops_code Binops.append = 20
binops_code Binops.concat = 21
binops_code Binops.equal = 22
binops_code Binops.not_equal = 23
binops_code Binops.lt = 24
binops_code Binops.lte = 25
binops_code Binops.gt = 26
binops_code Binops.gte = 27
binops_code Binops.ifonlyif = 28
binops_code Binops.or_op = 29
binops_code Binops.and_op = 30
binops_code Binops.implies = 31

abbrev pub ops_eq : Ops → Ops → Bool
ops_eq a b = nat_eq (ops_code a) (ops_code b)

abbrev pub binops_eq : Binops → Binops → Bool
binops_eq a b = nat_eq (binops_code a) (binops_code b)

abbrev pub literal_eq : Literal → Literal → Bool
literal_eq (ulong a) (ulong b) = nat_eq a b
literal_eq (text a) (text b) = a == b
literal_eq (truth a) (truth b) = bool_eq a b
literal_eq _ _ = false

module _ (same_type : SpecType → SpecType → Bool) where
  unfoldable mutual
    pub node_eq : SpecNode → SpecNode → Bool
    node_eq (symbol x t) (symbol y u) = x == y
    node_eq (const v t) (const w u) = literal_eq v w
    node_eq (int_const m s) (int_const n s') = nat_eq m n
    node_eq (string_const a) (string_const b) = a == b
    node_eq (bool_const a) (bool_const b) = bool_eq a b
    node_eq (expr o es t) (expr o' es' t') = op_eq o o' && nodes_eq es es'
    node_eq (matching s ps t) (matching s' qs t') = node_eq s s' && arms_eq ps qs
    node_eq (rely p b t) (rely p' b' t') = node_eq p p' && node_eq b b'
    node_eq (anno p b t) (anno p' b' t') = node_eq p p' && node_eq b b'
    node_eq (branch c a b t) (branch c' a' b' t') = node_eq c c' && (node_eq a a' && node_eq b b')
    node_eq (forall vs b t) (forall vs' b' t') = args_eq vs vs' && node_eq b b'
    node_eq (exists vs b t) (exists vs' b' t') = args_eq vs vs' && node_eq b b'
    node_eq _ _ = false

    pub op_eq : Op → Op → Bool
    op_eq (node_op m) (node_op n) = node_eq m n
    op_eq (op a) (op b) = ops_eq a b
    op_eq (binop a) (binop b) = binops_eq a b
    op_eq (name a) (name b) = a == b
    op_eq _ _ = false

    pub nodes_eq : SpecNodes → SpecNodes → Bool
    nodes_eq nil nil = true
    nodes_eq (cons m ms) (cons n ns) = node_eq m n && nodes_eq ms ns
    nodes_eq _ _ = false

    pub arms_eq : Arms → Arms → Bool
    arms_eq no_arms no_arms = true
    arms_eq (arm p b rest) (arm p' b' rest') = (node_eq p p' && node_eq b b') && arms_eq rest rest'
    arms_eq _ _ = false

    pub args_eq : Args → Args → Bool
    args_eq no_args no_args = true
    args_eq (arg x t vs) (arg y u ws) = (x == y && same_type t u) && args_eq vs ws
    args_eq (hypothesis x e vs) (hypothesis y d ws) = x == y && args_eq vs ws
    args_eq _ _ = false
