-- ===== src/Copy.antt =====
-- The two virtual copies of a node in include/nodes.h: `deep_copy()` and `deep_copy(unique_ptr&)`.
pub mod Meaning
use spoq.Ast.{
  bool, string, text, truth, SpecNode, symbol, const, int_const, string_const, bool_const, expr,
  matching, rely, anno, branch, forall, exists, Op, node_op, op, binop, name, SpecNodes, nil, cons,
  Arms, no_arms, arm, Args, no_args, arg, hypothesis, make_match, make_rely, make_anno, make_if,
  make_forall, make_exists,
}

-- `deep_copy` is the copy that is returned. `copy_into` is the copy through a reference: it is the
-- one that `If::deep_copy_impl` calls for its three children.
-- A `StringConst` and a `BoolConst` have no copy of their own and are copied as a plain `Const`.
-- `copy_into` of an `Exists` builds a `Forall`.
unfoldable mutual
  pub deep_copy : SpecNode → SpecNode
  deep_copy (symbol x t) = symbol x t
  deep_copy (const v t) = const v t
  deep_copy (int_const n sign) = int_const n sign
  deep_copy (string_const s) = const (text s) string
  deep_copy (bool_const b) = const (truth b) bool
  deep_copy (expr o es t) = expr (deep_copy_op o) (deep_copy_nodes es) t
  deep_copy (matching src arms t) = make_match (deep_copy src) (deep_copy_arms arms)
  deep_copy (rely p b t) = make_rely (deep_copy p) (deep_copy b)
  deep_copy (anno p b t) = make_anno (deep_copy p) (deep_copy b)
  deep_copy (branch c a b t) = make_if (copy_into c) (copy_into a) (copy_into b)
  deep_copy (forall vs b t) = make_forall (deep_copy_args vs) (deep_copy b)
  deep_copy (exists vs b t) = make_exists (deep_copy_args vs) (deep_copy b)

  pub copy_into : SpecNode → SpecNode
  copy_into (symbol x t) = symbol x t
  copy_into (const v t) = const v t
  copy_into (int_const n sign) = int_const n sign
  copy_into (string_const s) = const (text s) string
  copy_into (bool_const b) = const (truth b) bool
  copy_into (expr o es t) = expr (deep_copy_op o) (deep_copy_nodes es) t
  copy_into (matching src arms t) = make_match (deep_copy src) (deep_copy_arms arms)
  copy_into (rely p b t) = make_rely (deep_copy p) (deep_copy b)
  copy_into (anno p b t) = make_anno (deep_copy p) (deep_copy b)
  copy_into (branch c a b t) = make_if (copy_into c) (copy_into a) (copy_into b)
  copy_into (forall vs b t) = make_forall (deep_copy_args vs) (deep_copy b)
  copy_into (exists vs b t) = make_forall (deep_copy_args vs) (deep_copy b)

  pub deep_copy_op : Op → Op
  deep_copy_op (node_op n) = node_op (deep_copy n)
  deep_copy_op (op o) = op o
  deep_copy_op (binop o) = binop o
  deep_copy_op (name s) = name s

  pub deep_copy_nodes : SpecNodes → SpecNodes
  deep_copy_nodes nil = nil
  deep_copy_nodes (cons n ns) = cons (deep_copy n) (deep_copy_nodes ns)

  pub deep_copy_arms : Arms → Arms
  deep_copy_arms no_arms = no_arms
  deep_copy_arms (arm p b rest) = arm (deep_copy p) (deep_copy b) (deep_copy_arms rest)

  pub deep_copy_args : Args → Args
  deep_copy_args no_args = no_args
  deep_copy_args (arg x t vs) = arg x t (deep_copy_args vs)
  deep_copy_args (hypothesis x e vs) = hypothesis x (deep_copy e) (deep_copy_args vs)
