-- ===== src/Lir/Optimizer/Passes.antt =====
-- `Optimizer::optimize` (src/lir/optimizer.cpp): rounds of the four passes, until a round changes
-- nothing, 10 at most.
pub mod Reported
use limitly.Prelude.{ℕ, zero, suc, Bool, true, false, ◌||◌, List, if◌then◌else◌}
use limitly.Runtime.Arithmetic.{Heap}
use limitly.Lir.Inst.{Inst}
use limitly.Lir.Optimizer.Unreachable.{remove_unreachable_code}
use limitly.Lir.Optimizer.DeadCode.{dead_code_elimination}
use limitly.Lir.Optimizer.Peephole.{peephole_optimize}
use limitly.Lir.Optimizer.Folding.{constant_folding}

unfoldable pub optimize_round : Heap → List Inst → Bool × List Inst × Heap
unfolding remove_unreachable_code constant_folding peephole_optimize dead_code_elimination
optimize_round h is =
    let ur = remove_unreachable_code is in
    let cf = constant_folding h ur.1 in
    let po = peephole_optimize cf.1 in
    let dce = dead_code_elimination po.1 in (ur.0 || (cf.0 || (po.0 || dce.0)), dce.1, cf.2)

-- The rounds that may still follow a round.
unfoldable pub optimize_rounds : ℕ → Heap → List Inst → Bool × List Inst × Heap
unfolding optimize_round
optimize_rounds zero h is = (false, is, h)
optimize_rounds (suc n) h is =
    let r = optimize_round h is in
    let later = optimize_rounds n r.2 r.1 in
    if r.0 then (true, later.1, later.2) else (false, r.1, r.2)

unfoldable pub optimize : Heap → List Inst → Bool × List Inst × Heap
unfolding optimize_rounds
optimize h is = optimize_rounds 10 h is
