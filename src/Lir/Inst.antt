-- ===== src/Lir/Inst.antt =====
-- src/lir/lir.hh: the operations and instructions of the intermediate representation. An instruction
-- keeps every field of `LIR_Inst` but the two that serve debugging, `comment` and `loc`.
use limitly.Prelude.{ℕ, ◌^◌, ◌-◌, Bool, true, false, String, List}
use limitly.Runtime.Word.{Word}

abbrev pub Reg : Type 0
Reg = ℕ

-- `UINT32_MAX`, which stands for no register.
abbrev pub no_reg : Reg
no_reg = 2 ^ 32 - 1

-- `LIR::Type`
pub data AbiType : Type 0 where
  i32 : AbiType
  i64 : AbiType
  f64 : AbiType
  bool : AbiType
  ptr : AbiType
  void : AbiType

-- `LIR_Op`
pub data Op : Type 0 where
  op_mov : Op
  op_load_const : Op
  op_add : Op
  op_sub : Op
  op_mul : Op
  op_div : Op
  op_mod : Op
  op_neg : Op
  op_and : Op
  op_or : Op
  op_xor : Op
  op_cmp_eq : Op
  op_cmp_neq : Op
  op_cmp_lt : Op
  op_cmp_le : Op
  op_cmp_gt : Op
  op_cmp_ge : Op
  op_string_index : Op
  op_jump : Op
  op_jump_if_false : Op
  op_jump_if : Op
  op_label : Op
  op_call : Op
  op_call_void : Op
  op_call_indirect : Op
  op_call_builtin : Op
  op_call_variadic : Op
  op_return : Op
  op_func_def : Op
  op_param : Op
  op_ret : Op
  op_va_start : Op
  op_va_arg : Op
  op_va_end : Op
  op_copy : Op
  op_print_int : Op
  op_print_uint : Op
  op_print_float : Op
  op_print_bool : Op
  op_print_string : Op
  op_nop : Op
  op_load : Op
  op_store : Op
  op_cast : Op
  op_to_string : Op
  op_str_concat : Op
  op_str_format : Op
  op_dec_add : Op
  op_dec_sub : Op
  op_dec_mul : Op
  op_dec_div : Op
  op_dec_mod : Op
  op_dec_neg : Op
  op_dec_rescale : Op
  op_construct_error : Op
  op_construct_ok : Op
  op_is_error : Op
  op_unwrap : Op
  op_unwrap_or : Op
  op_make_enum : Op
  op_get_tag : Op
  op_get_payload : Op
  op_atomic_load : Op
  op_atomic_store : Op
  op_atomic_fetch_add : Op
  op_await : Op
  op_async_call : Op
  op_task_context_alloc : Op
  op_task_context_init : Op
  op_task_get_state : Op
  op_task_set_state : Op
  op_task_set_field : Op
  op_task_get_field : Op
  op_channel_alloc : Op
  op_channel_push : Op
  op_channel_pop : Op
  op_channel_has_data : Op
  op_channel_send : Op
  op_channel_offer : Op
  op_channel_recv : Op
  op_channel_poll : Op
  op_channel_close : Op
  op_scheduler_init : Op
  op_scheduler_run : Op
  op_scheduler_tick : Op
  op_scheduler_add_task : Op
  op_get_tick_count : Op
  op_delay_until : Op
  op_parallel_init : Op
  op_parallel_sync : Op
  op_list_create : Op
  op_list_append : Op
  op_list_index : Op
  op_list_len : Op
  op_dict_create : Op
  op_dict_set : Op
  op_dict_get : Op
  op_dict_has : Op
  op_dict_len : Op
  op_dict_items : Op
  op_tuple_create : Op
  op_tuple_get : Op
  op_tuple_set : Op
  op_tuple_len : Op
  op_new_frame : Op
  op_frame_get_field : Op
  op_frame_set_field : Op
  op_frame_get_field_atomic : Op
  op_frame_set_field_atomic : Op
  op_frame_field_atomic_add : Op
  op_frame_field_atomic_sub : Op
  op_frame_call_method : Op
  op_frame_call_init : Op
  op_frame_call_deinit : Op
  op_trait_call_method : Op
  op_make_trait_object : Op
  op_import_module : Op
  op_export_symbol : Op
  op_begin_module : Op
  op_end_module : Op
  op_load_global : Op
  op_store_global : Op
  op_shared_cell_alloc : Op
  op_shared_cell_load : Op
  op_shared_cell_store : Op
  op_shared_cell_add : Op
  op_shared_cell_sub : Op

-- `LIR_Inst`
pub record Inst : Type 0 where
  pub op : Op
  pub result_type : AbiType
  pub type_a : AbiType
  pub type_b : AbiType
  pub dst : Reg
  pub a : Reg
  pub b : Reg
  pub imm : ℕ
  pub const_val : Word
  pub func_name : String
  pub type_name : String
  pub call_args : List Reg
  pub call_arg_types : List AbiType

-- `LIR_Inst::isReturn`
unfoldable pub is_return : Op → Bool
is_return op_return = true
is_return op_ret = true
is_return _ = false

unfoldable pub is_mov : Op → Bool
is_mov op_mov = true
is_mov _ = false

unfoldable pub is_load_const : Op → Bool
is_load_const op_load_const = true
is_load_const _ = false

unfoldable pub is_neg : Op → Bool
is_neg op_neg = true
is_neg _ = false

unfoldable pub is_label : Op → Bool
is_label op_label = true
is_label _ = false

-- What an operation does to the program counter, as the switch of `remove_unreachable_code` tells
-- operations apart.
pub data Flow : Type 0 where
  flow_jump : Flow
  flow_jump_if : Flow
  flow_jump_if_false : Flow
  flow_return : Flow
  flow_next : Flow

unfoldable pub flow : Op → Flow
flow op_jump = flow_jump
flow op_jump_if = flow_jump_if
flow op_jump_if_false = flow_jump_if_false
flow op_return = flow_return
flow op_ret = flow_return
flow _ = flow_next

-- Jump, JumpIf and JumpIfFalse
unfoldable pub is_jump : Flow → Bool
is_jump flow_jump = true
is_jump flow_jump_if = true
is_jump flow_jump_if_false = true
is_jump _ = false

-- `Optimizer::has_instruction_side_effects` (src/lir/optimizer.cpp)
unfoldable pub has_side_effects : Op → Bool
has_side_effects op_call = true
has_side_effects op_call_void = true
has_side_effects op_call_indirect = true
has_side_effects op_call_builtin = true
has_side_effects op_call_variadic = true
has_side_effects op_print_int = true
has_side_effects op_print_uint = true
has_side_effects op_print_float = true
has_side_effects op_print_bool = true
has_side_effects op_print_string = true
has_side_effects op_return = true
has_side_effects op_ret = true
has_side_effects op_jump = true
has_side_effects op_jump_if = true
has_side_effects op_jump_if_false = true
has_side_effects op_label = true
has_side_effects op_store = true
has_side_effects op_channel_send = true
has_side_effects op_channel_recv = true
has_side_effects op_channel_close = true
has_side_effects op_await = true
has_side_effects op_async_call = true
has_side_effects _ = false
