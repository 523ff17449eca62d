-- ===== src/Meaning/Hypotheses.antt =====
-- Quantifiers without hypotheses: a hypothesis is an `Arg` without a type (include/values.h).
use spoq.Ast.{
  SpecNode, expr, matching, rely, anno, branch, forall, exists, Op, node_op, SpecNodes, nil, cons,
  Arms, no_arms, arm, Args, no_args, arg, hypothesis,
}

-- No quantifier has a hypothesis among its arguments, at any depth.
abbrev mutual
  pub NoHypotheses : SpecNode → Type 0
  NoHypotheses (expr o es t) = NoHypothesesOp o × NoHypothesesNodes es
  NoHypotheses (matching src arms t) = NoHypotheses src × NoHypothesesArms arms
  NoHypotheses (rely p b t) = NoHypotheses p × NoHypotheses b
  NoHypotheses (anno p b t) = NoHypotheses p × NoHypotheses b
  NoHypotheses (branch c a b t) = NoHypotheses c × NoHypotheses a × NoHypotheses b
  NoHypotheses (forall vs b t) = NoHypothesesArgs vs × NoHypotheses b
  NoHypotheses (exists vs b t) = NoHypothesesArgs vs × NoHypotheses b
  NoHypotheses _ = Unit

  pub NoHypothesesOp : Op → Type 0
  NoHypothesesOp (node_op n) = NoHypotheses n
  NoHypothesesOp _ = Unit

  pub NoHypothesesNodes : SpecNodes → Type 0
  NoHypothesesNodes nil = Unit
  NoHypothesesNodes (cons n ns) = NoHypotheses n × NoHypothesesNodes ns

  pub NoHypothesesArms : Arms → Type 0
  NoHypothesesArms no_arms = Unit
  NoHypothesesArms (arm p b rest) = NoHypotheses b × NoHypothesesArms rest

  pub NoHypothesesArgs : Args → Type 0
  NoHypothesesArgs no_args = Unit
  NoHypothesesArgs (arg x t vs) = NoHypothesesArgs vs
  NoHypothesesArgs (hypothesis x e vs) = ⊥
