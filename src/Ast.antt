-- ===== src/Ast.antt =====
-- The abstract syntax of specifications: include/nodes.h, and the types of include/values.h.
--
-- A node's type, which passes read, is the last argument of its constructor. What a node carries
-- besides (its number, its cached text, value and length, the flags of the analyses) is left out.
use spoq.Base.{ℕ, String, Bool, true, false, Option, none, some}

-- The classes below `SpecType`.
mutual
  pub data SpecType : Type 0 where
    unknown int string bool prop type_type : SpecType
    array list option zmap : SpecType → SpecType
    struct inductive : String → SpecType
    tuple : SpecTypes → SpecType
    function : SpecType → SpecTypes → SpecType

  pub data SpecTypes : Type 0 where
    no_types : SpecTypes
    spec_type : SpecType → SpecTypes → SpecTypes

-- `std::variant<unsigned long, string, bool>`
pub data Literal : Type 0 where
  ulong : ℕ → Literal
  text : String → Literal
  truth : Bool → Literal

-- `Expr::ops`
pub data Ops : Type 0 where
  neg set get nth not_op bnot record_set record_get tuple_op some_op none_op : Ops

-- `Expr::binops`
pub data Binops : Type 0 where
  mult div mod_op add minus bitand bitor : Binops
  beq bne bgt bge blt ble band bor lshift rshift seq sne list_eq : Binops
  append concat : Binops
  equal not_equal lt lte gt gte ifonlyif or_op and_op implies : Binops

-- The classes below `SpecNode`. `matching` is `Match`, `branch` is `If`; an arm is a `PatternMatch`.
-- An argument of a quantifier has a type, or is a hypothesis (`Arg::expr`) and has none.
mutual
  pub data SpecNode : Type 0 where
    symbol : String → SpecType → SpecNode
    const : Literal → SpecType → SpecNode
    int_const : ℕ → Bool → SpecNode
    string_const : String → SpecNode
    bool_const : Bool → SpecNode
    expr : Op → SpecNodes → SpecType → SpecNode
    matching : SpecNode → Arms → SpecType → SpecNode
    rely : SpecNode → SpecNode → SpecType → SpecNode
    anno : SpecNode → SpecNode → SpecType → SpecNode
    branch : SpecNode → SpecNode → SpecNode → SpecType → SpecNode
    forall : Args → SpecNode → SpecType → SpecNode
    exists : Args → SpecNode → SpecType → SpecNode

  pub data Op : Type 0 where
    node_op : SpecNode → Op
    op : Ops → Op
    binop : Binops → Op
    name : String → Op

  pub data SpecNodes : Type 0 where
    nil : SpecNodes
    cons : SpecNode → SpecNodes → SpecNodes

  pub data Arms : Type 0 where
    no_arms : Arms
    arm : SpecNode → SpecNode → Arms → Arms

  pub data Args : Type 0 where
    no_args : Args
    arg : String → SpecType → Args → Args
    hypothesis : String → SpecNode → Args → Args

-- `SpecNode::get_type`
abbrev pub get_type : SpecNode → SpecType
get_type (symbol x t) = t
get_type (const v t) = t
get_type (int_const n sign) = int
get_type (string_const s) = string
get_type (bool_const b) = bool
get_type (expr o es t) = t
get_type (matching src arms t) = t
get_type (rely p b t) = t
get_type (anno p b t) = t
get_type (branch c a b t) = t
get_type (forall vs b t) = t
get_type (exists vs b t) = t

-- `SpecNode::has_type`
abbrev pub is_unknown : SpecType → Bool
is_unknown unknown = true
is_unknown _ = false

-- `instance_of(n, Const)`, with the value: the three subclasses are constants too.
abbrev pub as_const : SpecNode → Option Literal
as_const (const v t) = some v
as_const (int_const n sign) = some (ulong n)
as_const (string_const s) = some (text s)
as_const (bool_const b) = some (truth b)
as_const _ = none

-- The type that the constructor of `Match` takes: that of the first arm's body.
abbrev pub arms_type : Arms → SpecType
arms_type no_arms = unknown
arms_type (arm p b rest) = get_type b

-- The constructors `Match(src, match_list)`, `Rely(prop, body)`, `Anno(prop, body)`,
-- `If(cond, then_body, else_body)`, `Forall(vars, body)` and `Exists(vars, body)`.
abbrev pub make_match : SpecNode → Arms → SpecNode
make_match src arms = matching src arms (arms_type arms)

abbrev pub make_rely : SpecNode → SpecNode → SpecNode
make_rely p b = rely p b (get_type b)

abbrev pub make_anno : SpecNode → SpecNode → SpecNode
make_anno p b = anno p b (get_type b)

abbrev pub make_if : SpecNode → SpecNode → SpecNode → SpecNode
make_if c a b = branch c a b (get_type a)

abbrev pub make_forall : Args → SpecNode → SpecNode
make_forall vs b = forall vs b prop

abbrev pub make_exists : Args → SpecNode → SpecNode
make_exists vs b = exists vs b prop
