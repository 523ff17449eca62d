-- ===== src/Rules.antt =====
-- The rewriting rules of src/optimizations/rules.cpp: how a rule is applied over a specification
-- (`SpecRules::rec_apply` and the end of each rule), and the rules, each in a child module.
--
-- A rule's local function `f` is a `Rewrite`: the new node, and whether it set `changed`. `changed`
-- is only ever set, so over a whole specification it is the disjunction over the calls of `f`.
pub mod Meaning
pub mod Branch
pub mod Let
pub mod Rely
pub mod Maps
pub mod Simplify
pub mod Builtin
pub mod When
use spoq.Base.{String, Bool, true, false, not, ◌||◌, Option, none, some, if◌then◌else◌}
use spoq.Ast.{
  SpecNode, symbol, const, int_const, string_const, bool_const, expr, matching, rely, anno, branch,
  forall, exists, Op, node_op, op, binop, name, SpecNodes, nil, cons, Arms, no_arms, arm, Args,
  no_args, arg, hypothesis, make_match, make_rely, make_anno, make_if, make_forall, make_exists,
}

abbrev pub Rewrite : Type 0
Rewrite = SpecNode → SpecNode × Bool

-- `if b then … else …` between two outcomes of a rule.
abbrev pub when_rewrite : Bool → SpecNode × Bool → SpecNode × Bool → SpecNode × Bool
when_rewrite true x y = x
when_rewrite false x y = y

-- `f` on every node, children first. The patterns of arms are nodes too, and so are the hypotheses
-- of a `Forall`, but not those of an `Exists`.
module _ (f : SpecNode → SpecNode) where
  unfoldable mutual
    pub rec_apply : SpecNode → SpecNode
    rec_apply (expr o es t) = f (expr (rec_apply_op o) (rec_apply_nodes es) t)
    rec_apply (matching src arms t) = f (make_match (rec_apply src) (rec_apply_arms arms))
    rec_apply (rely p b t) = f (make_rely (rec_apply p) (rec_apply b))
    rec_apply (anno p b t) = f (make_anno (rec_apply p) (rec_apply b))
    rec_apply (branch c a b t) = f (make_if (rec_apply c) (rec_apply a) (rec_apply b))
    rec_apply (forall vs b t) = f (make_forall (rec_apply_args vs) (rec_apply b))
    rec_apply (exists vs b t) = f (make_exists vs (rec_apply b))
    rec_apply n = f n

    pub rec_apply_op : Op → Op
    rec_apply_op (node_op n) = node_op (rec_apply n)
    rec_apply_op o = o

    pub rec_apply_nodes : SpecNodes → SpecNodes
    rec_apply_nodes nil = nil
    rec_apply_nodes (cons n ns) = cons (rec_apply n) (rec_apply_nodes ns)

    pub rec_apply_arms : Arms → Arms
    rec_apply_arms no_arms = no_arms
    rec_apply_arms (arm p b rest) = arm (rec_apply p) (rec_apply b) (rec_apply_arms rest)

    pub rec_apply_args : Args → Args
    rec_apply_args no_args = no_args
    rec_apply_args (arg x t vs) = arg x t (rec_apply_args vs)
    rec_apply_args (hypothesis x e vs) = hypothesis x (rec_apply e) (rec_apply_args vs)

abbrev pub rewritten : Rewrite → SpecNode → SpecNode
rewritten f n = (f n).0

-- Whether a call of `f` in `rec_apply` sets `changed`.
module _ (f : Rewrite) where
  unfoldable mutual
    pub rec_changed : SpecNode → Bool
    rec_changed (expr o es t) =
        rec_changed_op o
        || (rec_changed_nodes es
            || (f (expr (rec_apply_op (rewritten f) o) (rec_apply_nodes (rewritten f) es) t)).1)
    rec_changed (matching src arms t) =
        rec_changed src
        || (rec_changed_arms arms
            || (f (make_match (rec_apply (rewritten f) src) (rec_apply_arms (rewritten f) arms))).1)
    rec_changed (rely p b t) =
        rec_changed p
        || (rec_changed b
            || (f (make_rely (rec_apply (rewritten f) p) (rec_apply (rewritten f) b))).1)
    rec_changed (anno p b t) =
        rec_changed p
        || (rec_changed b
            || (f (make_anno (rec_apply (rewritten f) p) (rec_apply (rewritten f) b))).1)
    rec_changed (branch c a b t) =
        rec_changed c
        || (rec_changed a
            || (rec_changed b
                || (f (
                    make_if (rec_apply (rewritten f) c) (rec_apply (rewritten f) a)
                      (rec_apply (rewritten f) b))).1))
    rec_changed (forall vs b t) =
        rec_changed_args vs
        || (rec_changed b
            || (f (make_forall (rec_apply_args (rewritten f) vs) (rec_apply (rewritten f) b))).1)
    rec_changed (exists vs b t) =
        rec_changed b || (f (make_exists vs (rec_apply (rewritten f) b))).1
    rec_changed n = (f n).1

    pub rec_changed_op : Op → Bool
    rec_changed_op (node_op n) = rec_changed n
    rec_changed_op o = false

    pub rec_changed_nodes : SpecNodes → Bool
    rec_changed_nodes nil = false
    rec_changed_nodes (cons n ns) = rec_changed n || rec_changed_nodes ns

    pub rec_changed_arms : Arms → Bool
    rec_changed_arms no_arms = false
    rec_changed_arms (arm p b rest) = rec_changed p || (rec_changed b || rec_changed_arms rest)

    pub rec_changed_args : Args → Bool
    rec_changed_args no_args = false
    rec_changed_args (arg x t vs) = rec_changed_args vs
    rec_changed_args (hypothesis x e vs) = rec_changed e || rec_changed_args vs

abbrev pub is_expr : SpecNode → Bool
is_expr (expr o es t) = true
is_expr _ = false

-- Whether `rec_apply` throws: the result for a hypothesis of a `Forall` is no `Expr`.
module _ (f : SpecNode → SpecNode) where
  unfoldable mutual
    pub rec_throws : SpecNode → Bool
    rec_throws (expr o es t) = rec_throws_op o || rec_throws_nodes es
    rec_throws (matching src arms t) = rec_throws src || rec_throws_arms arms
    rec_throws (rely p b t) = rec_throws p || rec_throws b
    rec_throws (anno p b t) = rec_throws p || rec_throws b
    rec_throws (branch c a b t) = rec_throws c || (rec_throws a || rec_throws b)
    rec_throws (forall vs b t) = rec_throws_args vs || rec_throws b
    rec_throws (exists vs b t) = rec_throws b
    rec_throws n = false

    pub rec_throws_op : Op → Bool
    rec_throws_op (node_op n) = rec_throws n
    rec_throws_op o = false

    pub rec_throws_nodes : SpecNodes → Bool
    rec_throws_nodes nil = false
    rec_throws_nodes (cons n ns) = rec_throws n || rec_throws_nodes ns

    pub rec_throws_arms : Arms → Bool
    rec_throws_arms no_arms = false
    rec_throws_arms (arm p b rest) = rec_throws p || (rec_throws b || rec_throws_arms rest)

    pub rec_throws_args : Args → Bool
    rec_throws_args no_args = false
    rec_throws_args (arg x t vs) = rec_throws_args vs
    rec_throws_args (hypothesis x e vs) =
        rec_throws e || (not (is_expr (rec_apply f e)) || rec_throws_args vs)

-- The end of a rule: `f` on every node, or on the root alone. An exception is `none`.
unfoldable pub run_rule : Rewrite → Bool → SpecNode → Option (SpecNode × Bool)
run_rule f rec n =
    if rec
    then (if rec_throws (rewritten f) n
        then none
        else some (rec_apply (rewritten f) n, rec_changed f n))
    else some (f n)
