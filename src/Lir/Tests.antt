-- ===== src/Lir/Tests.antt =====
-- The optimizer (src/lir/optimizer.cpp) on small functions.
use limitly.Prelude.{
  remove, not, inl, inr, if◌then◌else◌, ◌==◌, ◌&&◌, Bool-cases, ℕ, ◌+◌, true, false, List, [], ◌∷◌,
  ◌≡◌, refl, ◌↔◌, contains, nat_eq, arith,
}
use limitly.Runtime.Word.{Word, val_true}
use limitly.Lir.Inst.{
  op_call, Reg, no_reg, Op, Inst, void, op_add, op_jump, op_load_const, op_print_int, op_return,
  op_nop, flow, is_jump, has_side_effects,
}
use limitly.Lir.Semantics.{run}
use limitly.Lir.Optimizer.Unreachable.{is_marked, mark_reachable, remove_unreachable_code}
use limitly.Lir.Optimizer.Unreachable.Reach.{Reachable, mark_reachable_iff}
use limitly.Lir.Optimizer.Unreachable.Simulation.{SameOutcome, remove_unreachable_code-Same}
use limitly.Lir.Optimizer.DeadCode.{
  erase_dst, analyze, dst_is_live, is_dead, sweep, dead_code_elimination, insert_uses, insert_regs,
  insert_reg, uses_dst, defines_dst,
}
use limitly.Lir.Optimizer.DeadCode.Reads.{is_read, ends}
use limitly.Lir.Optimizer.DeadCode.StraightLine.{
  run_line, IsSimple, writes, dead_code_elimination-run_line,
}
use limitly.Lir.Optimizer.DeadCode.SelfReads.{dead_code_elimination-drops}
use limitly.Lir.Optimizer.Peephole.Progress.{IsReported}
use limitly.Lir.Optimizer.Passes.{optimize}
use limitly.Lir.Optimizer.Passes.Reported.{optimize-IsReported}

abbrev instruction : Op → Reg → Reg → Reg → ℕ → Word → Inst
instruction op dst a b imm c = record {
  op = op;
  result_type = void;
  type_a = void;
  type_b = void;
  dst = dst;
  a = a;
  b = b;
  imm = imm;
  const_val = c;
  func_name = "";
  type_name = "";
  call_args = [];
  call_arg_types = [];
}

-- jump 2; print r1; r1 = 17; return r1
abbrev jump_over : List Inst
jump_over =
    instruction op_jump no_reg no_reg no_reg 2 0
    ∷ (instruction op_print_int no_reg 1 no_reg 0 0
        ∷ (instruction op_load_const 1 no_reg no_reg 0 17
            ∷ (instruction op_return 1 no_reg no_reg 0 0 ∷ [])))

-- The state is register 1 and what was printed.
abbrev exec : Inst → Word × List Word → Word × List Word
exec inst s = if inst.dst == 1 then (inst.const_val, s.1) else (s.0, s.0 ∷ s.1)

remove_unreachable_code-Same_example :
    SameOutcome
      (run exec (λ r s. s.0 == val_true) 5 jump_over 0 (0, []))
      (run exec (λ r s. s.0 == val_true) 5 (remove_unreachable_code jump_over).1 0 (0, []))
remove_unreachable_code-Same_example =
    remove_unreachable_code-Same exec (λ r s. s.0 == val_true) 5 jump_over (0, [])

mark_reachable_iff_example : is_marked (mark_reachable jump_over) 1 ≡ true ↔ Reachable jump_over 1
mark_reachable_iff_example = mark_reachable_iff jump_over 1 (omega arith)

-- r4 = f(r2, r1)
abbrev call_with_two : Inst
call_with_two = record (instruction op_call 4 no_reg no_reg 0 0) { call_args = 2 ∷ (1 ∷ []) }

-- r1 = 9; r2 = r1 + r1; nop r3; r4 = f(r2, r1)
abbrev straight : List Inst
straight =
    instruction op_load_const 1 no_reg no_reg 0 9
    ∷ (instruction op_add 2 1 1 0 0
        ∷ (instruction op_nop 3 no_reg no_reg 0 0 ∷ (call_with_two ∷ [])))

-- A register that may be none.
abbrev value_of : (Reg → ℕ) → Reg → ℕ
value_of r x = if x == no_reg then 0 else r x

unfoldable values_of : (Reg → ℕ) → List Reg → ℕ
values_of r [] = 0
values_of r (x ∷ xs) = value_of r x + values_of r xs

-- An instruction adds up its constant and what it reads, and the world lists what the instructions
-- with side effects compute.
abbrev effect : Inst → (Reg → ℕ) → List ℕ → ℕ × List ℕ
effect inst r w =
    let v =
      inst.const_val + (value_of r inst.a + (value_of r inst.b + values_of r inst.call_args)) in
    (v, (if has_side_effects inst.op then v ∷ w else w))

values_of-agree :
    (xs : List Reg) (r u : Reg → ℕ)
    → ((x : Reg) → (not (x == no_reg) && contains x xs) ≡ true → r x ≡ u x)
    → values_of r xs ≡ values_of u xs
unfolding values_of contains
values_of-agree [] r u h = refl
values_of-agree (x ∷ xs) r u h =
    let ih = values_of-agree xs r u (λ y k. h y (ground (arith, k))) in
    elim (Bool-cases (x == no_reg)) [
      | inl e ↦ rw (e, ih) refl
      | inr e ↦
          let k : r x ≡ u x = h x (ground (arith, e, nat_eq.beq_iff x x)) in rw (e, k, ih) refl
    ]

effect-reads :
    (inst : Inst) (r u : Reg → ℕ) (w : List ℕ)
    → ((x : Reg) → is_read inst x ≡ true → r x ≡ u x)
    → effect inst r w ≡ effect inst u w
unfolding is_read
effect-reads inst r u w h =
    let a : value_of r inst.a ≡ value_of u inst.a = elim (Bool-cases (inst.a == no_reg)) [
      | inl e ↦ rw e refl
      | inr e ↦ rw e (h inst.a (ground (arith, e)))
    ] in
    let b : value_of r inst.b ≡ value_of u inst.b = elim (Bool-cases (inst.b == no_reg)) [
      | inl e ↦ rw e refl
      | inr e ↦ rw e (h inst.b (ground (arith, e)))
    ] in
    let c = values_of-agree inst.call_args r u (λ x k. h x (ground (arith, k))) in rw (a, b, c) refl

effect-pure :
    (inst : Inst) (r : Reg → ℕ) (w : List ℕ)
    → has_side_effects inst.op ≡ false
    → (effect inst r w).1 ≡ w
effect-pure inst r w h = rw h refl

simple :
    (inst : Inst)
    → is_jump (flow inst.op) ≡ false
    → (writes inst && is_read inst inst.dst) ≡ false
    → IsSimple effect inst
simple inst j n = record {
  no_jump = j;
  no_self = n;
  reads = effect-reads inst;
  pure = effect-pure inst;
}

dead_code_elimination-run_line_example :
    run_line effect (dead_code_elimination straight).1 (λ r. 0) []
    ≡ run_line effect straight (λ r. 0) []
unfolding flow is_jump is_read ends defines_dst contains
dead_code_elimination-run_line_example =
    dead_code_elimination-run_line effect straight (λ r. 0) []
      (
        simple (instruction op_load_const 1 no_reg no_reg 0 9) refl refl,
        (
          simple (instruction op_add 2 1 1 0 0) refl refl,
          (
            simple (instruction op_nop 3 no_reg no_reg 0 0) refl refl,
            (simple call_with_two refl refl, tt),
          ),
        ),
      )

-- The call sees both registers that it names: 18 + 9.
straight_sees_arguments : run_line effect (dead_code_elimination straight).1 (λ r. 0) [] ≡ 27 ∷ []
unfolding run_line values_of has_side_effects flow ends defines_dst dead_code_elimination sweep
    is_dead dst_is_live analyze insert_uses insert_regs insert_reg uses_dst erase_dst contains
    remove
straight_sees_arguments = refl

-- r1 = 9; nop; r1 = r1 + r2
dead_code_elimination-drops_example :
    dead_code_elimination (
      instruction op_load_const 1 no_reg no_reg 0 9
      ∷ (instruction op_nop no_reg no_reg no_reg 0 0 ∷ (instruction op_add 1 1 2 0 0 ∷ [])))
    ≡ (
      true,
      (dead_code_elimination
          (instruction op_nop no_reg no_reg no_reg 0 0 ∷ (instruction op_add 1 1 2 0 0 ∷ []))).1,
    )
unfolding flow defines_dst has_side_effects insert_uses insert_regs insert_reg uses_dst contains
dead_code_elimination-drops_example =
    dead_code_elimination-drops (instruction op_load_const 1 no_reg no_reg 0 9)
      (instruction op_nop no_reg no_reg no_reg 0 0) (instruction op_add 1 1 2 0 0) [] refl refl refl
      refl

optimize-IsReported_example :
    IsReported jump_over ((optimize [] jump_over).0, (optimize [] jump_over).1)
optimize-IsReported_example = optimize-IsReported [] jump_over
