-- ===== src/Vm/Machine.antt =====
-- src/backend/vm/register.hh, register.cpp and ops/: the machine's registers, its heap and its
-- globals, and the instructions that work on these alone. The code holds 1024 registers and reads and
-- writes them unchecked; here a register is any number.
pub mod Folding
pub mod Comparison
use limitly.Prelude.{
  ℕ, ◌+◌, Bool, true, false, not, ◌&&◌, ◌||◌, Option, none, some, String, string_eq, List, [], ◌∷◌,
  ◌==◌, if◌then◌else◌, lookup, insert,
}
use limitly.Prelude.Int.{ℤ, pos, negsuc, leb_ℤ, ltb_ℤ}
use Prim.Native.Nat.{bit_and, bit_or, bit_xor}
use limitly.Runtime.Word.{Word, val_nil, val_true, val_false, is_bool, is_nil, is_ptr, unbox_bool}
use limitly.Runtime.Arithmetic.{
  Object, obj_float, lm_box_string, Heap, FloatOps, object_at, wrap_unsigned, wrap_signed, make_i64,
  make_float, is_integer, as_i64, as_i128, as_float, lm_add, lm_sub, lm_mul, lm_div,
  numeric_compare, is_zero,
}
use limitly.Lir.Inst.{
  Reg, AbiType, i64, f64, bool, Op, Inst, op_add, op_sub, op_mul, op_div, op_neg, op_and, op_or,
  op_xor, op_cmp_eq, op_cmp_neq, op_cmp_lt, op_cmp_le, op_cmp_gt, op_cmp_ge, op_jump, op_jump_if,
  op_jump_if_false, op_dec_add, op_dec_sub, op_dec_mul, op_dec_div, op_dec_mod, op_dec_neg,
  op_dec_rescale, op_load_global, op_store_global, op_cast,
}

-- The fields of `RegisterVM` that these instructions use.
pub record RegisterVm : Type 0 where
  pub registers : Reg → Word
  pub heap : Heap
  pub globals : List (String × Word)

unfoldable pub set_register : Reg → Word → RegisterVm → RegisterVm
set_register dst v vm = record vm { registers = λ r. if r == dst then v else vm.registers r }

-- `registers[dst] = …`, for a value that may have been allocated
unfoldable pub store : Reg → Word × Heap → RegisterVm → RegisterVm
store dst v vm = record vm { registers = λ r. if r == dst then v.0 else vm.registers r; heap = v.1 }

-- The text of a box is not empty.
unfoldable pub is_nonempty : String → Bool
is_nonempty s = not (string_eq.beq s "")

-- A binary operation of the runtime on operands `a` and `b`.
unfoldable pub binary : (Word → Word → Heap → Word × Heap) → Inst → RegisterVm → RegisterVm
unfolding store
binary op inst vm = store inst.dst (op (vm.registers inst.a) (vm.registers inst.b) vm.heap) vm

-- The test that an operation makes of the result of `numeric_compare`.
unfoldable pub comparison_result : Op → ℤ → Bool
comparison_result op_cmp_eq cmp = is_zero cmp
comparison_result op_cmp_neq cmp = not (is_zero cmp)
comparison_result op_cmp_lt cmp = ltb_ℤ cmp (pos 0)
comparison_result op_cmp_le cmp = leb_ℤ cmp (pos 0)
comparison_result op_cmp_gt cmp = ltb_ℤ (pos 0) cmp
comparison_result op_cmp_ge cmp = leb_ℤ (pos 0) cmp
comparison_result _ cmp = false

-- `globals_[name]`, which makes the entry 0 where there is none.
unfoldable pub load_global : Inst → RegisterVm → RegisterVm
unfolding set_register
load_global inst vm = elim (lookup inst.func_name vm.globals) [
  | some v ↦ set_register inst.dst v vm
  | none ↦ set_register inst.dst 0 (record vm { globals = insert inst.func_name 0 vm.globals })
]

unfoldable pub execute_modules : Op → Inst → RegisterVm → RegisterVm
unfolding load_global
execute_modules op_load_global inst vm = load_global inst vm
execute_modules op_store_global inst vm = record vm {
  globals = insert inst.func_name (vm.registers inst.a) vm.globals;
}
execute_modules _ inst vm = vm

module _ (f : FloatOps) where
  unfoldable pub object_to_bool : Object → Bool
  unfolding is_nonempty
  object_to_bool (obj_float d) = not (f.eq d (f.of_i64 (pos 0)))
  object_to_bool (lm_box_string s) = is_nonempty s
  object_to_bool _ = true

  unfoldable pub to_bool : Heap → Word → Bool
  unfolding object_to_bool
  to_bool h v =
      if is_bool v
      then unbox_bool v
      else if is_nil v
      then false
      else if is_integer h v
      then not (is_zero (as_i128 f h v))
      else if is_ptr v
      then object_to_bool (object_at h v)
      else false

  -- `lm_sub(make_i64(0), registers[a])`
  unfoldable pub negate : Inst → RegisterVm → RegisterVm
  unfolding store
  negate inst vm =
      let z = make_i64 (pos 0) vm.heap in store inst.dst (lm_sub f z.0 (vm.registers inst.a) z.1) vm

  unfoldable pub execute_arithmetic : Op → Inst → RegisterVm → RegisterVm
  unfolding binary negate set_register
  execute_arithmetic op_add inst vm = binary (lm_add f) inst vm
  execute_arithmetic op_sub inst vm = binary (lm_sub f) inst vm
  execute_arithmetic op_mul inst vm = binary (lm_mul f) inst vm
  execute_arithmetic op_div inst vm = binary (lm_div f) inst vm
  execute_arithmetic op_neg inst vm = negate inst vm
  execute_arithmetic op_dec_add inst vm = binary (lm_add f) inst vm
  execute_arithmetic op_dec_sub inst vm = binary (lm_sub f) inst vm
  execute_arithmetic op_dec_mul inst vm = binary (lm_mul f) inst vm
  execute_arithmetic op_dec_div inst vm = binary (lm_div f) inst vm
  execute_arithmetic op_dec_mod inst vm = set_register inst.dst val_nil vm
  execute_arithmetic op_dec_neg inst vm = negate inst vm
  execute_arithmetic op_dec_rescale inst vm = set_register inst.dst (vm.registers inst.a) vm
  execute_arithmetic _ inst vm = vm

  unfoldable pub execute_comparison : Op → Inst → RegisterVm → RegisterVm
  unfolding comparison_result set_register
  execute_comparison op inst vm =
      let cmp = numeric_compare f vm.heap (vm.registers inst.a) (vm.registers inst.b) in
      set_register inst.dst (if comparison_result op cmp then val_true else val_false) vm

  -- A bitwise operation on two values of `int64_t`.
  unfoldable pub bitwise : (ℕ → ℕ → ℕ) → Inst → RegisterVm → RegisterVm
  unfolding store
  bitwise op inst vm =
      let x = wrap_unsigned 64 (as_i64 f vm.heap (vm.registers inst.a)) in
      let y = wrap_unsigned 64 (as_i64 f vm.heap (vm.registers inst.b)) in
      store inst.dst (make_i64 (wrap_signed 63 (pos (op x y))) vm.heap) vm

  unfoldable pub execute_bitwise : Op → Inst → RegisterVm → RegisterVm
  unfolding bitwise
  execute_bitwise op_and inst vm = bitwise bit_and inst vm
  execute_bitwise op_or inst vm = bitwise bit_or inst vm
  execute_bitwise op_xor inst vm = bitwise bit_xor inst vm
  execute_bitwise _ inst vm = vm

  -- The index of the instruction that follows `pc`, with the increment of the loop.
  unfoldable pub execute_control_flow : Op → Inst → ℕ → RegisterVm → ℕ
  unfolding to_bool
  execute_control_flow op_jump inst pc vm = inst.a
  execute_control_flow op_jump_if inst pc vm =
      if to_bool vm.heap (vm.registers inst.a) then inst.b else pc + 1
  execute_control_flow op_jump_if_false inst pc vm =
      if not (to_bool vm.heap (vm.registers inst.a)) then inst.b else pc + 1
  execute_control_flow _ inst pc vm = pc + 1

  -- A cast to another type than these three leaves the destination alone.
  unfoldable pub cast_to : AbiType → Inst → RegisterVm → RegisterVm
  unfolding store set_register to_bool
  cast_to i64 inst vm =
      store inst.dst (make_i64 (as_i64 f vm.heap (vm.registers inst.a)) vm.heap) vm
  cast_to f64 inst vm =
      store inst.dst (make_float (as_float f vm.heap (vm.registers inst.a)) vm.heap) vm
  cast_to bool inst vm =
      set_register inst.dst (if to_bool vm.heap (vm.registers inst.a) then val_true else val_false)
        vm
  cast_to _ inst vm = vm

  unfoldable pub execute_cast : Op → Inst → RegisterVm → RegisterVm
  unfolding cast_to
  execute_cast op_cast inst vm = cast_to inst.result_type inst vm
  execute_cast _ inst vm = vm

-- LoadConst and Mov, in the switch of `execute_instructions`.
unfoldable pub load_const : Inst → RegisterVm → RegisterVm
unfolding set_register
load_const inst vm =
    if inst.const_val == val_nil
    then set_register inst.dst val_nil vm
    else set_register inst.dst inst.const_val vm

unfoldable pub mov : Inst → RegisterVm → RegisterVm
unfolding set_register
mov inst vm = set_register inst.dst (vm.registers inst.a) vm

-- `isErrorValue`
unfoldable pub is_error_value : FloatOps → Reg → RegisterVm → Bool
is_error_value f reg vm =
    if is_integer vm.heap (vm.registers reg)
    then leb_ℤ (as_i64 f vm.heap (vm.registers reg)) (negsuc 999999)
    else false
