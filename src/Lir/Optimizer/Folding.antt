-- ===== src/Lir/Optimizer/Folding.antt =====
-- `Optimizer::constant_folding` (src/lir/optimizer.cpp). Constants that do not fit a small integer are
-- allocated on the runtime's heap, which the pass hands on.
use limitly.Prelude.{
  Bool, true, false, ◌&&◌, ◌||◌, Option, none, some, List, [], ◌∷◌, ◌==◌, if◌then◌else◌, lookup,
  insert, erase, nat_eq,
}
use limitly.Prelude.Int.{ℤ, ◌+ℤ◌, ◌-ℤ◌, ◌*ℤ◌, quot}
use limitly.Runtime.Word.{Word, is_int, unbox_int}
use limitly.Runtime.Arithmetic.{Heap, wrap_signed, make_i64, is_zero}
use limitly.Lir.Inst.{Reg, no_reg, Op, Inst, op_mov, op_load_const, op_add, op_sub, op_mul, op_div}

-- `const_regs`
abbrev pub ConstRegs : Type 0
ConstRegs = List (Reg × Word)

-- The four operations that are folded; none where the operation is not folded, or not for 0.
pub data FoldOp : Type 0 where
  fold_load_const : FoldOp
  fold_mov : FoldOp
  fold_arith : (ℤ → ℤ → Option ℤ) → FoldOp
  fold_other : FoldOp

unfoldable pub fold_div : ℤ → ℤ → Option ℤ
fold_div a b = if is_zero b then none else some (quot a b)

-- `res` is an `int64_t`.
unfoldable pub fold_op : Op → FoldOp
unfolding fold_div
fold_op op_load_const = fold_load_const
fold_op op_mov = fold_mov
fold_op op_add = fold_arith (λ a b. some (wrap_signed 63 (a +ℤ b)))
fold_op op_sub = fold_arith (λ a b. some (wrap_signed 63 (a -ℤ b)))
fold_op op_mul = fold_arith (λ a b. some (wrap_signed 63 (a *ℤ b)))
fold_op op_div = fold_arith (λ a b. fold_div a b)
fold_op _ = fold_other

-- What one round of the loop gives: whether it changed the instruction, the instruction, the
-- constants and the heap.
pub record Folded : Type 0 where
  pub changed : Bool
  pub inst : Inst
  pub const_regs : ConstRegs
  pub heap : Heap

unfoldable pub unfolded : Inst → ConstRegs → Heap → Folded
unfolded inst regs h = record { changed = false; inst = inst; const_regs = regs; heap = h }

-- `const_regs.erase(inst.dst)`, if there is a destination
unfoldable pub forget_dst : Inst → ConstRegs → ConstRegs
forget_dst inst regs = if inst.dst == no_reg then regs else erase inst.dst regs

unfoldable pub fold_mov_inst : Inst → ConstRegs → Heap → Folded
unfolding unfolded
fold_mov_inst inst regs h = elim (lookup inst.a regs) [
  | none ↦ unfolded inst (erase inst.dst regs) h
  | some c ↦ unfolded inst (insert inst.dst c regs) h
]

-- `inst` becomes the load of a result.
unfoldable pub fold_result : Inst → ConstRegs → Heap → Option ℤ → Folded
unfolding unfolded
fold_result inst regs h none = unfolded inst regs h
fold_result inst regs h (some res) =
    let v = make_i64 res h in
    record {
      changed = true;
      inst = record inst { op = op_load_const; const_val = v.0 };
      const_regs = insert inst.dst v.0 regs;
      heap = v.1;
    }

unfoldable pub fold_constants : Inst → ConstRegs → Heap → (ℤ → ℤ → Option ℤ) → Word → Word → Folded
unfolding fold_result unfolded
fold_constants inst regs h op va vb =
    if is_int va && is_int vb
    then fold_result inst regs h (op (unbox_int va) (unbox_int vb))
    else unfolded inst regs h

unfoldable pub fold_arith_inst : Inst → ConstRegs → Heap → (ℤ → ℤ → Option ℤ) → Folded
unfolding fold_constants unfolded forget_dst
fold_arith_inst inst regs h op = elim (lookup inst.a regs) [
  | none ↦ unfolded inst (forget_dst inst regs) h
  | some va ↦ elim (lookup inst.b regs) [
    | none ↦ unfolded inst (forget_dst inst regs) h
    | some vb ↦ fold_constants inst regs h op va vb
  ]
]

unfoldable pub fold_inst : FoldOp → Inst → ConstRegs → Heap → Folded
unfolding unfolded fold_mov_inst fold_arith_inst forget_dst
fold_inst fold_load_const inst regs h = unfolded inst (insert inst.dst inst.const_val regs) h
fold_inst fold_mov inst regs h = fold_mov_inst inst regs h
fold_inst (fold_arith op) inst regs h = fold_arith_inst inst regs h op
fold_inst fold_other inst regs h = unfolded inst (forget_dst inst regs) h

unfoldable pub constant_folding_from : ConstRegs → Heap → List Inst → Bool × List Inst × Heap
unfolding fold_op fold_inst
constant_folding_from regs h [] = (false, [], h)
constant_folding_from regs h (inst ∷ is) =
    let f = fold_inst (fold_op inst.op) inst regs h in
    let rest = constant_folding_from f.const_regs f.heap is in
    (f.changed || rest.0, f.inst ∷ rest.1, rest.2)

unfoldable pub constant_folding : Heap → List Inst → Bool × List Inst × Heap
unfolding constant_folding_from
constant_folding h is = constant_folding_from [] h is
