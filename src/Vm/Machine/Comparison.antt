-- ===== src/Vm/Machine/Comparison.antt =====
-- Comparisons of the machine (src/backend/vm/ops/comparison.cpp) and the branches on them
-- (src/backend/vm/ops/control_flow.cpp), against the order of the integers.
use limitly.Prelude.{
  ◌∙◌, ℕ, ◌+◌, Bool, true, false, not, ◌&&◌, ◌≡◌, refl, ◌∙◌, ap, if◌then◌else◌, arith,
}
use limitly.Prelude.Int.{ℤ, pos, negsuc, leb_ℤ, ltb_ℤ}
use limitly.Runtime.Word.{Word, val_true, val_false, is_bool, unbox_bool}
use limitly.Runtime.Arithmetic.{FloatOps, is_integer, as_i128}
use limitly.Runtime.Arithmetic.Integers.{numeric_compare_lem}
use limitly.Lir.Inst.{
  Reg, Op, Inst, op_cmp_eq, op_cmp_neq, op_cmp_lt, op_cmp_le, op_cmp_gt, op_cmp_ge, op_jump_if,
  op_jump_if_false,
}
use limitly.Vm.Machine.{
  RegisterVm, set_register, comparison_result, execute_comparison, to_bool, execute_control_flow,
}

-- What the operation asks of two integers; false for all other operations.
unfoldable pub holds : Op → ℤ → ℤ → Bool
holds op_cmp_eq x y = leb_ℤ x y && leb_ℤ y x
holds op_cmp_neq x y = not (leb_ℤ x y && leb_ℤ y x)
holds op_cmp_lt x y = not (leb_ℤ y x)
holds op_cmp_le x y = leb_ℤ x y
holds op_cmp_gt x y = not (leb_ℤ x y)
holds op_cmp_ge x y = leb_ℤ y x
holds _ x y = false

abbrev three_way : ℤ → ℤ → ℤ
three_way x y = if ltb_ℤ x y then negsuc 0 else if ltb_ℤ y x then pos 1 else pos 0

comparison_result-three_way :
    (op : Op) (x y : ℤ) → comparison_result op (three_way x y) ≡ holds op x y
unfolding comparison_result holds
comparison_result-three_way op_cmp_eq x y = ground arith
comparison_result-three_way op_cmp_neq x y = ground arith
comparison_result-three_way op_cmp_lt x y = ground arith
comparison_result-three_way op_cmp_le x y = ground arith
comparison_result-three_way op_cmp_gt x y = ground arith
comparison_result-three_way op_cmp_ge x y = ground arith
comparison_result-three_way _ x y = refl

to_bool-word :
    (f : FloatOps) (vm : RegisterVm) (b : Bool)
    → to_bool f vm.heap (if b then val_true else val_false) ≡ b
unfolding to_bool is_bool unbox_bool
to_bool-word f vm true = refl
to_bool-word f vm false = refl

get-set_register : (r : Reg) (v : Word) (vm : RegisterVm) → (set_register r v vm).registers r ≡ v
unfolding set_register
get-set_register r v vm = ground arith

-- A conditional jump on a register that has just got a Boolean word.
branch-set_register :
    (f : FloatOps) (jump : Inst) (pc : ℕ) (vm : RegisterVm) (r : Reg) (b : Bool)
    → jump.a ≡ r
    → (let vm' = set_register r (if b then val_true else val_false) vm in
        (execute_control_flow f op_jump_if jump pc vm' ≡ (if b then jump.b else pc + 1))
        × (execute_control_flow f op_jump_if_false jump pc vm' ≡ (if b then pc + 1 else jump.b)))
unfolding execute_control_flow
branch-set_register f jump pc vm r b e =
    let vm' = set_register r (if b then val_true else val_false) vm in
    let t : to_bool f vm'.heap (vm'.registers jump.a) ≡ b =
      ap (λ (x : Reg). to_bool f vm'.heap (vm'.registers x)) e
      ∙ ap (to_bool f vm'.heap) (get-set_register r (if b then val_true else val_false) vm)
      ∙ to_bool-word f vm' b in
    (
      ap (λ (x : Bool). if x then jump.b else pc + 1) t,
      ap (λ (x : Bool). if not x then jump.b else pc + 1) t ∙ not_branch b jump.b (pc + 1),
    )
  where
    not_branch : (b : Bool) (x y : ℕ) → (if not b then x else y) ≡ (if b then y else x)
    not_branch true x y = refl
    not_branch false x y = refl

module _ (f : FloatOps) (op : Op) (inst : Inst) (vm : RegisterVm)
    (ia : is_integer vm.heap (vm.registers inst.a) ≡ true)
    (ib : is_integer vm.heap (vm.registers inst.b) ≡ true) where
  -- A comparison of two integer registers stores the Boolean word for the relation of the integers,
  -- in its destination alone.
  pub execute_comparison_lem :
      execute_comparison f op inst vm
      ≡ set_register inst.dst
          (if holds op
              (as_i128 f vm.heap (vm.registers inst.a))
              (as_i128 f vm.heap (vm.registers inst.b))
            then val_true
            else val_false)
          vm
  unfolding execute_comparison
  execute_comparison_lem =
      let x = as_i128 f vm.heap (vm.registers inst.a) in
      let y = as_i128 f vm.heap (vm.registers inst.b) in
      ap (λ (b : Bool). set_register inst.dst (if b then val_true else val_false) vm)
        (ap (comparison_result op)
            (numeric_compare_lem f (vm.registers inst.a) (vm.registers inst.b) vm.heap ia ib)
          ∙ comparison_result-three_way op x y)

  -- A conditional jump on the result of a comparison of two integer registers goes to its operand
  -- `b` where the relation holds, and JumpIfFalse where it does not.
  pub compare-branch :
      (jump : Inst) (pc : ℕ)
      → jump.a ≡ inst.dst
      → (let vm' = execute_comparison f op inst vm in
          let b =
            holds op
              (as_i128 f vm.heap (vm.registers inst.a))
              (as_i128 f vm.heap (vm.registers inst.b)) in
          (execute_control_flow f op_jump_if jump pc vm' ≡ (if b then jump.b else pc + 1))
          × (execute_control_flow f op_jump_if_false jump pc vm' ≡ (if b then pc + 1 else jump.b)))
  compare-branch jump pc e = rw execute_comparison_lem (
      branch-set_register f jump pc vm inst.dst
        (holds op (as_i128 f vm.heap (vm.registers inst.a))
          (as_i128 f vm.heap (vm.registers inst.b)))
        e)
