-- ===== src/Subst.antt =====
-- `subst` of src/optimizations/rules.cpp: the value for a name, without renaming.
--
-- The flag `succ`, which is set where a symbol is replaced, is left out, and so are the exceptions: a
-- hypothesis is an `Expr` before and after, and the type that a symbol is given replaces no other.
pub mod Meaning
use spoq.Base.{String, Bool, true, false, ◌||◌, ◌==◌, if◌then◌else◌}
use spoq.Ast.{
  SpecType, SpecNode, symbol, const, int_const, string_const, bool_const, expr, matching, rely,
  anno, branch, forall, exists, Op, node_op, op, binop, name, SpecNodes, nil, cons, Arms, no_arms,
  arm, Args, no_args, arg, hypothesis,
}
use spoq.Copy.{deep_copy}
use spoq.Scope.{exists_in_pattern}

-- `if (is_instance(new_value, Symbol)) new_value->set_type(s->type)`
abbrev pub set_symbol_type : SpecNode → SpecType → SpecNode
set_symbol_type (symbol y u) t = symbol y t
set_symbol_type n t = n

module _ (x : String) (value : SpecNode) where
  unfoldable mutual
    pub subst : SpecNode → SpecNode
    subst (symbol y t) = if y == x then set_symbol_type (deep_copy value) t else symbol y t
    subst (expr o es t) = expr (subst_op o) (subst_nodes es) t
    subst (matching src arms t) = matching (subst src) (subst_arms arms) t
    subst (rely p b t) = rely (subst p) (subst b) t
    subst (anno p b t) = anno (subst p) (subst b) t
    subst (branch c a b t) = branch (subst c) (subst a) (subst b) t
    subst (forall vs b t) = forall (subst_args vs) (subst b) t
    subst (exists vs b t) = exists (subst_args vs) (subst b) t
    subst n = n

    pub subst_op : Op → Op
    subst_op (node_op n) = node_op (subst n)
    subst_op o = o

    pub subst_nodes : SpecNodes → SpecNodes
    subst_nodes nil = nil
    subst_nodes (cons n ns) = cons (subst n) (subst_nodes ns)

    -- An arm that binds the name is copied.
    pub subst_arms : Arms → Arms
    subst_arms no_arms = no_arms
    subst_arms (arm p b rest) =
        arm (deep_copy p) (if exists_in_pattern x p then deep_copy b else subst b) (subst_arms rest)

    pub subst_args : Args → Args
    subst_args no_args = no_args
    subst_args (arg y t vs) = arg y t (subst_args vs)
    subst_args (hypothesis y e vs) = hypothesis y (subst e) (subst_args vs)
