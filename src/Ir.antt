-- ===== src/Ir.antt =====
-- Types, values and instructions of LLVM IR: include/irtypes.h, include/irvalues.h and
-- include/instructions.h.
--
-- A vector of values or instructions is a data type of its own. The fields `input` and `output` of
-- instructions, the analysis results of loops and conditionals, and the line numbers of
-- instructions that are not given one when they are made are left out. The names of loops in a
-- `continue` or `break` are shared between its copies: the model has the addresses of these texts.
-- A copy by `clone` is the instruction itself.
pub mod Sizes
use spoq.Base.{ℕ, Bool, Option, none, some, String, List, [], ◌∷◌}

pub data IntType : Type 0 where
  ti8 ti16 ti32 ti64 ti128 : IntType

pub data Ordering : Type 0 where
  not_atomic unordered monotonic acquire release acquire_release sequentially_consistent : Ordering

mutual
  pub data IrType : Type 0 where
    t_unknown t_bool t_void t_label : IrType
    t_int : IntType → IrType
    t_function : IrTypes → IrType → IrType
    t_ptr : IrType → IrType
    t_named_struct : String → IrType
    -- The elements and the size.
    t_struct : StructElems → ℕ → IrType
    t_array t_fixed_vector : IrType → ℕ → IrType
    t_scale_vector : IrType → IrType

  pub data IrTypes : Type 0 where
    no_types : IrTypes
    type_then : IrType → IrTypes → IrTypes

  pub data StructElems : Type 0 where
    no_elems : StructElems
    -- Name, type, offset and whether it is a declaration.
    elem_then : String → IrType → ℕ → Bool → StructElems → StructElems

pub data IrOp : Type 0 where
  cslt csle cult cule ceq cne csgt csge cugt cuge : IrOp
  o_add o_and o_ashr o_fadd o_fdiv o_fmul o_fsub o_lshr o_mul o_or o_sdiv o_srem o_shl o_sub : IrOp
  o_udiv o_urem o_xor o_bit_cast o_fp_ext o_fp_to_si o_fp_to_ui o_fp_trunc o_fneg o_int_to_ptr :
      IrOp
  o_ptr_to_int o_sext o_si_to_fp o_trunc o_ui_to_fp o_zext o_get_element_ptr o_xchg o_select : IrOp

mutual
  pub data IrValue : Type 0 where
    v_unsupported v_null v_undef v_agg_zero : IrType → IrValue
    v_global v_local : IrType → String → IrValue
    -- The value and whether it prints as a signed number.
    v_int : IrType → ℕ → Bool → IrValue
    v_bool : Bool → IrValue
    v_ptr : IrType → IrValue → IrValue
    v_expr : IrType → IrOp → IrValues → IrValue
    v_struct : IrType → IrValues → IrValue
    v_label : String → IrValue
    -- Text, side effects and constraints.
    v_inline_asm : IrType → String → Bool → String → IrValue

  pub data IrValues : Type 0 where
    no_values : IrValues
    value_then : IrValue → IrValues → IrValues

-- The target of an instruction that has one is the text after its type.
mutual
  pub data IrInst : Type 0 where
    i_alloc : String → IrType → String → ℕ → IrInst
    i_atomic_rmw : IrType → String → IrOp → IrValue → IrValue → Ordering → ℕ → IrInst
    i_bin_op : IrType → String → IrOp → IrValue → IrValue → IrInst
    i_branch : String → ℕ → IrInst
    i_call : IrType → String → IrValue → IrValues → ℕ → IrInst
    i_cmp_xchg : IrType → String → IrValue → IrValue → IrValue → Ordering → Ordering → ℕ → IrInst
    -- The labels where the condition holds and where it does not.
    i_cond_branch : IrValue → String → String → ℕ → IrInst
    i_extract_elem : IrType → String → IrValue → IrValue → IrInst
    i_extract_value : IrType → String → IrValue → List ℕ → IrInst
    i_fence : Ordering → IrInst
    i_freeze : IrType → String → IrValue → IrInst
    i_get_elem_ptr : IrType → String → IrValue → IrValues → IrInst
    i_insert_elem : IrType → String → IrValue → IrValue → IrValue → IrInst
    i_insert_value : IrType → String → IrValue → IrValue → List ℕ → IrInst
    i_load : IrType → String → IrValue → ℕ → IrInst
    -- The values with the blocks that they come from.
    i_phi : IrType → String → List (IrValue × String) → IrInst
    i_unary_op : IrType → String → IrOp → IrValue → IrInst
    i_return : IrType → Option IrValue → IrInst
    i_select : IrType → String → IrValue → IrValue → IrValue → IrInst
    i_shuffle_vec : IrType → String → IrValues → IrInst
    i_store : IrValue → IrValue → ℕ → IrInst
    -- The default label, and the values with their labels.
    i_switch : IrValue → String → List (IrValue × String) → IrInst
    i_unreachable : IrInst
    i_assign : IrType → String → IrValue → IrInst
    i_if : IrValue → IrInsts → IrInsts → IrInst
    i_loop : IrInsts → ℕ → IrInst
    i_continue i_break : ℕ → ℕ → IrInst

  pub data IrInsts : Type 0 where
    no_insts : IrInsts
    inst_then : IrInst → IrInsts → IrInsts

-- `insert` at the end of a vector of instructions.
unfoldable pub append : IrInsts → IrInsts → IrInsts
append no_insts js = js
append (inst_then i is) js = inst_then i (append is js)

abbrev pub one_inst : IrInst → IrInsts
one_inst i = inst_then i no_insts
