-- ===== src/Equal/Consistent.antt =====
-- Nodes in which `IntConst::is_signed` (include/nodes.h) depends on the word alone.
use spoq.Base.{ℕ, Bool, ◌≡◌}
use spoq.Ast.{
  SpecNode, int_const, expr, matching, rely, anno, branch, forall, exists, Op, node_op, SpecNodes,
  nil, cons, Arms, no_arms, arm, Args, no_args, arg, hypothesis,
}

-- No quantifier has a hypothesis among its arguments, at any depth, and every integer constant has
-- the sign that `sign_of` gives its word: a word does not occur with two signs.
module _ (sign_of : ℕ → Bool) where
  abbrev mutual
    pub Consistent : SpecNode → Type 0
    Consistent (int_const n sign) = sign ≡ sign_of n
    Consistent (expr o es t) = ConsistentOp o × ConsistentNodes es
    Consistent (matching src arms t) = Consistent src × ConsistentArms arms
    Consistent (rely p b t) = Consistent p × Consistent b
    Consistent (anno p b t) = Consistent p × Consistent b
    Consistent (branch c a b t) = Consistent c × Consistent a × Consistent b
    Consistent (forall vs b t) = ConsistentArgs vs × Consistent b
    Consistent (exists vs b t) = ConsistentArgs vs × Consistent b
    Consistent _ = Unit

    pub ConsistentOp : Op → Type 0
    ConsistentOp (node_op n) = Consistent n
    ConsistentOp _ = Unit

    pub ConsistentNodes : SpecNodes → Type 0
    ConsistentNodes nil = Unit
    ConsistentNodes (cons n ns) = Consistent n × ConsistentNodes ns

    pub ConsistentArms : Arms → Type 0
    ConsistentArms no_arms = Unit
    ConsistentArms (arm p b rest) = Consistent p × Consistent b × ConsistentArms rest

    pub ConsistentArgs : Args → Type 0
    ConsistentArgs no_args = Unit
    ConsistentArgs (arg x t vs) = ConsistentArgs vs
    ConsistentArgs (hypothesis x e vs) = ⊥
