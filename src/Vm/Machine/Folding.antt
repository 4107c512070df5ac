-- ===== src/Vm/Machine/Folding.antt =====
-- `constant_folding` (src/lir/optimizer.cpp) against what the machine computes
-- (src/backend/vm/ops/arithmetic.cpp).
use limitly.Prelude.{true, Option, none, some, ◌≡◌, lookup, nat_eq, if◌then◌else◌}
use limitly.Prelude.Int.{ℤ, ◌+ℤ◌, ◌-ℤ◌, ◌*ℤ◌, quot}
use limitly.Runtime.Word.{Word, is_int, unbox_int}
use limitly.Runtime.Arithmetic.{FloatOps, is_zero}
use limitly.Lir.Inst.{Op, Inst, op_add, op_sub, op_mul, op_div}
use limitly.Lir.Optimizer.Folding.{ConstRegs, Folded}
use limitly.Vm.Machine.{RegisterVm, execute_arithmetic, load_const}

-- The exact result of an operation that is folded, or none.
unfoldable pub exact : Op → ℤ → ℤ → Option ℤ
exact op_add x y = some (x +ℤ y)
exact op_sub x y = some (x -ℤ y)
exact op_mul x y = some (x *ℤ y)
exact op_div x y = if is_zero y then none else some (quot x y)
exact _ x y = none

-- The pass has changed the instruction, and the machine does with what it is now, on the heap that the
-- pass leaves, what it does with the instruction.
abbrev pub IsFoldOf : FloatOps → Inst → RegisterVm → Op → Folded → Type 0
IsFoldOf f inst vm op g =
    (g.changed ≡ true)
    × (load_const g.inst (record vm { heap = g.heap }) ≡ execute_arithmetic f op inst vm)

module _ (f : FloatOps) (inst : Inst) (regs : ConstRegs) (vm : RegisterVm)
    (la : lookup inst.a regs ≡ some (vm.registers inst.a))
    (lb : lookup inst.b regs ≡ some (vm.registers inst.b))
    (ia : is_int (vm.registers inst.a) ≡ true) (ib : is_int (vm.registers inst.b) ≡ true) where
  abbrev x : ℤ
  x = unbox_int (vm.registers inst.a)

  abbrev y : ℤ
  y = unbox_int (vm.registers inst.b)
