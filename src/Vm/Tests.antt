-- ===== src/Vm/Tests.antt =====
-- The virtual machine (src/backend/vm) on single instructions.
use limitly.Prelude.{ℕ, ◌+◌, ◌-◌, ◌*◌, ◌/◌, [], ◌∷◌, ◌≡◌, refl, ltb, ◌==◌, if◌then◌else◌, nat_eq}
use limitly.Prelude.Int.{pos, pos_part}
use limitly.Runtime.Word.{is_int}
use limitly.Runtime.Arithmetic.{FloatOps, is_integer, as_i128}
use limitly.Lir.Inst.{Op, Inst, void, no_reg, op_cmp_lt, op_jump_if, op_jump_if_false}
use limitly.Lir.Optimizer.Folding.{ConstRegs}
use limitly.Vm.Machine.{RegisterVm, execute_comparison, execute_control_flow}
use limitly.Vm.Machine.Comparison.{holds, compare-branch}

abbrev bits : FloatOps
bits = record {
  add = λ a b. a + b;
  sub = λ a b. a - b;
  mul = λ a b. a * b;
  div = λ a b. a / b;
  lt = ltb;
  eq = λ a b. a == b;
  of_i64 = pos_part;
  to_int = pos;
}

abbrev three_operands : Op → ℕ → ℕ → ℕ → Inst
three_operands op dst a b = record {
  op = op;
  result_type = void;
  type_a = void;
  type_b = void;
  dst = dst;
  a = a;
  b = b;
  imm = 0;
  const_val = 0;
  func_name = "";
  type_name = "";
  call_args = [];
  call_arg_types = [];
}

-- Register 1 holds 7, all others 5.
abbrev machine : RegisterVm
machine = record { registers = λ r. if r == 1 then 57 else 41; heap = []; globals = [] }

abbrev known : ConstRegs
known = (1, 57) ∷ ((2, 41) ∷ [])

compare-branch_example :
    (let vm = execute_comparison bits op_cmp_lt (three_operands op_cmp_lt 3 2 1) machine in
      let b = holds op_cmp_lt (as_i128 bits [] 41) (as_i128 bits [] 57) in
      (execute_control_flow bits op_jump_if (three_operands op_jump_if no_reg 3 9) 4 vm
        ≡ (if b then 9 else 4 + 1))
      × (execute_control_flow bits op_jump_if_false (three_operands op_jump_if no_reg 3 9) 4 vm
          ≡ (if b then 4 + 1 else 9)))
unfolding is_integer is_int
compare-branch_example =
    compare-branch bits op_cmp_lt (three_operands op_cmp_lt 3 2 1) machine refl refl
      (three_operands op_jump_if no_reg 3 9) 4 refl
