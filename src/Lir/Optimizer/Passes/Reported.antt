-- ===== src/Lir/Optimizer/Passes/Reported.antt =====
-- The passes of src/lir/optimizer.cpp and `optimize`: none makes a list longer, and each reports every
-- change.
use limitly.Prelude.{
  ℕ, zero, suc, Bool, true, ◌||◌, Option, List, [], ◌∷◌, ◌≡◌, refl, sym, ap, ◌∙◌, length, arith,
  Bool-cases, ◌⊎◌, inl, inr, nat_eq,
}
use limitly.Prelude.Int.{ℤ}
use limitly.Runtime.Arithmetic.{Heap}
use limitly.Lir.Inst.{Inst}
use limitly.Lir.Optimizer.Unreachable.{
  remove_unreachable_code, mark_reachable, compact, remap_from, all_marked,
}
use limitly.Lir.Optimizer.Unreachable.Reach.{length-mark_reachable}
use limitly.Lir.Optimizer.Unreachable.Compact.{rank-bound, length-compact, length-retarget}
use limitly.Lir.Optimizer.DeadCode.{analyze, is_dead, sweep, dead_code_elimination}
use limitly.Lir.Optimizer.Peephole.{peephole_optimize}
use limitly.Lir.Optimizer.Peephole.Progress.{IsReported, peephole_optimize-IsReported}
use limitly.Lir.Optimizer.Folding.{
  FoldOp, fold_load_const, fold_mov, fold_arith, fold_other, fold_op, fold_inst, fold_mov_inst,
  fold_arith_inst, fold_constants, fold_result, Folded, unfolded, ConstRegs, constant_folding_from,
  constant_folding,
}
use limitly.Lir.Optimizer.Passes.{optimize_round, optimize_rounds, optimize}

remove_unreachable_code-IsReported : (is : List Inst) → IsReported is (remove_unreachable_code is)
unfolding remove_unreachable_code
remove_unreachable_code-IsReported [] = (omega arith, inr refl)
remove_unreachable_code-IsReported (x ∷ is) =
    let js = x ∷ is in
    let m = mark_reachable js in
    let l =
      length-retarget (remap_from 0 m) (compact m js)
      ∙ length-compact m js (length-mark_reachable js) in
    elim (Bool-cases (all_marked m)) [
      | inl e ↦ rw e (omega arith, inr refl)
      | inr e ↦ rw e (omega (arith, l, rank-bound m (length js)), inl refl)
    ]

dead_code_elimination-IsReported : (is : List Inst) → IsReported is (dead_code_elimination is)
unfolding dead_code_elimination sweep
dead_code_elimination-IsReported [] = (omega arith, inr refl)
dead_code_elimination-IsReported (inst ∷ is) =
    let r = dead_code_elimination-IsReported is in
    elim (Bool-cases (is_dead inst (analyze is).0)) [
      | inl e ↦ rw e (omega (arith, r.0), inl refl)
      | inr e ↦ rw e (
        omega (arith, r.0),
        elim r.1 [ inl c ↦ inl c | inr c ↦ inr (ap (λ (l : List Inst). inst ∷ l) c) ],
      )
    ]

-- A round of the folding reports a change of its instruction.
abbrev IsMarked : Inst → Folded → Type 0
IsMarked inst f = (f.changed ≡ true) ⊎ (f.inst ≡ inst)

fold_mov_inst-IsMarked :
    (inst : Inst) (regs : ConstRegs) (h : Heap) → IsMarked inst (fold_mov_inst inst regs h)
unfolding fold_mov_inst
fold_mov_inst-IsMarked inst regs h = inr (ground arith)

fold_arith_inst-IsMarked :
    (inst : Inst) (regs : ConstRegs) (h : Heap) (op : ℤ → ℤ → Option ℤ)
    → IsMarked inst (fold_arith_inst inst regs h op)
unfolding fold_arith_inst fold_constants fold_result
fold_arith_inst-IsMarked inst regs h op = ground arith

fold_inst-IsMarked :
    (op : FoldOp) (inst : Inst) (regs : ConstRegs) (h : Heap)
    → IsMarked inst (fold_inst op inst regs h)
unfolding fold_inst unfolded
fold_inst-IsMarked fold_load_const inst regs h = inr refl
fold_inst-IsMarked fold_mov inst regs h = fold_mov_inst-IsMarked inst regs h
fold_inst-IsMarked (fold_arith op) inst regs h = fold_arith_inst-IsMarked inst regs h op
fold_inst-IsMarked fold_other inst regs h = inr refl

fold_inst-same_length :
    (regs : ConstRegs) (h : Heap) (is : List Inst)
    → length (constant_folding_from regs h is).1 ≡ length is
unfolding constant_folding_from
fold_inst-same_length regs h [] = refl
fold_inst-same_length regs h (inst ∷ is) =
    let f = fold_inst (fold_op inst.op) inst regs h in
    omega (arith, fold_inst-same_length f.const_regs f.heap is)

constant_folding-IsReported :
    (regs : ConstRegs) (h : Heap) (is : List Inst)
    → ((constant_folding_from regs h is).0 ≡ true) ⊎ ((constant_folding_from regs h is).1 ≡ is)
unfolding constant_folding_from
constant_folding-IsReported regs h [] = inr refl
constant_folding-IsReported regs h (inst ∷ is) =
    let f = fold_inst (fold_op inst.op) inst regs h in
    let rest = constant_folding_from f.const_regs f.heap is in
    let m = fold_inst-IsMarked (fold_op inst.op) inst regs h in
    let r = constant_folding-IsReported f.const_regs f.heap is in
    elim m [
      | inl e ↦ inl (ground (arith, e))
      | inr e ↦ elim r [
        | inl c ↦ inl (ground (arith, c))
        | inr c ↦ inr (ap (λ (x : Inst). x ∷ rest.1) e ∙ ap (λ (l : List Inst). inst ∷ l) c)
      ]
    ]

-- One pass after another.
then-IsReported :
    (is js ks : List Inst) (b c : Bool)
    → IsReported is (b, js)
    → IsReported js (c, ks)
    → IsReported is (b || c, ks)
then-IsReported is js ks b c p q = (
  omega (arith, p.0, q.0),
  elim p.1 [
    | inl e ↦ inl (ground (arith, e))
    | inr e ↦ elim q.1 [ inl d ↦ inl (ground (arith, d)) | inr d ↦ inr (d ∙ e) ]
  ],
)

optimize_round-IsReported :
    (h : Heap) (is : List Inst) → (let r = optimize_round h is in IsReported is (r.0, r.1))
unfolding optimize_round constant_folding
optimize_round-IsReported h is =
    let ur = remove_unreachable_code is in
    let cf = constant_folding h ur.1 in
    let po = peephole_optimize cf.1 in
    let dce = dead_code_elimination po.1 in
    let c : IsReported ur.1 (cf.0, cf.1) =
      (omega (arith, fold_inst-same_length [] h ur.1), constant_folding-IsReported [] h ur.1) in
    then-IsReported is ur.1 dce.1 ur.0 (cf.0 || (po.0 || dce.0))
      (remove_unreachable_code-IsReported is)
      (then-IsReported ur.1 cf.1 dce.1 cf.0 (po.0 || dce.0) c (
        then-IsReported cf.1 po.1 dce.1 po.0 dce.0 (peephole_optimize-IsReported cf.1)
          (dead_code_elimination-IsReported po.1)))

optimize_rounds-IsReported :
    (n : ℕ) (h : Heap) (is : List Inst)
    → (let r = optimize_rounds n h is in IsReported is (r.0, r.1))
unfolding optimize_rounds
optimize_rounds-IsReported zero h is = (omega arith, inr refl)
optimize_rounds-IsReported (suc n) h is =
    let r = optimize_round h is in
    let p = optimize_round-IsReported h is in
    let q = optimize_rounds-IsReported n r.2 r.1 in
    elim (Bool-cases r.0) [
      | inl e ↦ rw e (omega (arith, p.0, q.0), inl refl)
      | inr e ↦ rw e (p.0, elim p.1 [ inl c ↦ inl (sym e ∙ c) | inr c ↦ inr c ])
    ]

-- The optimizer leaves no more instructions than it found, and a function that it reports unchanged
-- has the instructions that it had.
pub optimize-IsReported :
    (h : Heap) (is : List Inst) → (let r = optimize h is in IsReported is (r.0, r.1))
unfolding optimize
optimize-IsReported h is = optimize_rounds-IsReported 10 h is
