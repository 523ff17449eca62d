-- ===== src/Rules/Maps.antt =====
-- `rule_simplify_map_get_set` of src/optimizations/rules.cpp: reads and writes of a `ZMap`.
use spoq.Base.{
  String, Bool, true, false, ◌&&◌, ◌||◌, ◌==◌, Option, none, some, List, [], ◌∷◌, ◌≡◌, ◌≢◌,
}
use spoq.Ast.{SpecType, Ops, SpecNode, expr, op, name, nil, cons, as_const}
use spoq.Equal.{node_eq}
use spoq.Equal.Consistent.{Consistent}
use spoq.Meaning.{Interpretation, ops, named, Constant, constant}
use spoq.Rules.{Rewrite, when_rewrite}

abbrev pub is_init : String → Bool
is_init s = s == "zmap_init" || s == "ZMap.init"

abbrev pub is_some {ℓ} : {A : Type ℓ} → Option A → Bool
is_some none = false
is_some (some a) = true

-- `is_instance(n, Const)`
abbrev pub is_const : SpecNode → Bool
is_const n = is_some (as_const n)

abbrev pub get_of : SpecNode → SpecNode → SpecType → SpecNode
get_of m i t = expr (op Ops.get) (cons m (cons i nil)) t

abbrev pub set_of : SpecNode → SpecNode → SpecNode → SpecType → SpecNode
set_of m i v t = expr (op Ops.set) (cons m (cons i (cons v nil))) t

module _ (same_type : SpecType → SpecType → Bool) where
  -- The local function: `m @ i` and `m # i == v` have two and three elements. The read of a map
  -- that is initialised does not set `changed`.
  unfoldable pub simplify_map_get_set : Rewrite
  simplify_map_get_set (expr (op Ops.get) (cons (expr (name z) (cons v rest) u) (cons i nil)) t) =
      when_rewrite (is_init z) (v, false) (get_of (expr (name z) (cons v rest) u) i t, false)
  simplify_map_get_set
        (expr
          (op Ops.get)
          (cons (expr (op Ops.set) (cons m (cons j (cons v nil))) u) (cons i nil))
          t) =
      when_rewrite (node_eq same_type i j) (v, true)
        (when_rewrite (is_const i && is_const j) (get_of m i t, true)
          (get_of (set_of m j v u) i t, false))
  simplify_map_get_set
        (expr
          (op Ops.set)
          (cons (expr (op Ops.set) (cons m (cons j (cons v nil))) u) (cons i (cons w nil)))
          t) =
      when_rewrite (node_eq same_type i j) (set_of m i w t, true)
        (set_of (set_of m j v u) i w t, false)
  simplify_map_get_set n = (n, false)

module _ (I : Interpretation) where
  open I use {Value}

  -- The laws of a map from integers with a default.
  pub record MapLaws : Type 0 where
    pub get_zmap_init :
        (v i : Value) (vs : List Value)
        → I.apply (ops Ops.get) (I.apply (named "zmap_init") (v ∷ vs) ∷ i ∷ []) ≡ v
    pub get_zmap_init_dot :
        (v i : Value) (vs : List Value)
        → I.apply (ops Ops.get) (I.apply (named "ZMap.init") (v ∷ vs) ∷ i ∷ []) ≡ v
    pub get_set_same :
        (m i v : Value)
        → I.apply (ops Ops.get) (I.apply (ops Ops.set) (m ∷ i ∷ v ∷ []) ∷ i ∷ []) ≡ v
    pub get_set_other :
        (m v : Value) (c d : Constant)
        → c ≢ d
        → I.apply
            (ops Ops.get)
            (I.apply (ops Ops.set) (m ∷ constant I c ∷ v ∷ []) ∷ constant I d ∷ [])
          ≡ I.apply (ops Ops.get) (m ∷ constant I d ∷ [])
    pub set_set :
        (m i v w : Value)
        → I.apply (ops Ops.set) (I.apply (ops Ops.set) (m ∷ i ∷ v ∷ []) ∷ i ∷ w ∷ [])
          ≡ I.apply (ops Ops.set) (m ∷ i ∷ w ∷ [])
