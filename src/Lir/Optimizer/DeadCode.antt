-- ===== src/Lir/Optimizer/DeadCode.antt =====
-- `LivenessAnalyzer`, `Optimizer::dead_code_elimination` and `dead_code_elimination_simple`
-- (src/lir/optimizer.cpp). A set of registers is a list; the passes over the indices from the last to
-- the first recur on the list.
pub mod Reads
pub mod StraightLine
pub mod SelfReads
use limitly.Prelude.{
  ℕ, zero, suc, Bool, true, false, not, ◌&&◌, ◌||◌, List, [], ◌∷◌, ◌==◌, if◌then◌else◌, contains,
  remove, nat_eq,
}
use limitly.Lir.Inst.{
  Reg, no_reg, Inst, Flow, flow, flow_jump, flow_jump_if, flow_jump_if_false, flow_return,
  flow_next, has_side_effects,
}

-- `if (r != UINT32_MAX) live_regs.insert(r)`
unfoldable pub insert_reg : Reg → List Reg → List Reg
insert_reg r live = if r == no_reg then live else r ∷ live

unfoldable pub insert_regs : List Reg → List Reg → List Reg
unfolding insert_reg
insert_regs [] live = live
insert_regs (r ∷ rs) live = insert_regs rs (insert_reg r live)

-- `dst` is a use of a return and of a conditional jump.
unfoldable pub uses_dst : Flow → Bool
uses_dst flow_return = true
uses_dst flow_jump_if = true
uses_dst flow_jump_if_false = true
uses_dst flow_jump = false
uses_dst flow_next = false

unfoldable pub insert_uses : Inst → List Reg → List Reg
unfolding uses_dst
insert_uses inst live =
    let operands = insert_regs inst.call_args (insert_reg inst.b (insert_reg inst.a live)) in
    if uses_dst (flow inst.op) then insert_reg inst.dst operands else operands

-- `dst` is defined by what is no return and no jump.
unfoldable pub defines_dst : Flow → Bool
defines_dst flow_next = true
defines_dst _ = false

unfoldable pub erase_dst : Inst → List Reg → List Reg
unfolding defines_dst
erase_dst inst live =
    if not (inst.dst == no_reg) && defines_dst (flow inst.op) then remove inst.dst live else live

-- `LivenessAnalyzer::analyze`: the sets of the instructions, and `live_regs` at the end of the pass.
unfoldable pub analyze : List Inst → List (List Reg) × List Reg
unfolding insert_uses erase_dst
analyze [] = ([], [])
analyze (inst ∷ is) =
    let rest = analyze is in
    let live = insert_uses inst rest.1 in (live ∷ rest.0, erase_dst inst live)

-- `live_at[i + 1].count(dst)`, false after the last instruction.
unfoldable pub dst_is_live : Reg → List (List Reg) → Bool
dst_is_live dst [] = false
dst_is_live dst (live ∷ _) = contains dst live

unfoldable pub is_dead : Inst → List (List Reg) → Bool
unfolding dst_is_live
is_dead inst after =
    not (has_side_effects inst.op) && (not (dst_is_live inst.dst after) && not (inst.dst == no_reg))

-- The instructions that are kept, by the sets that follow each.
unfoldable pub sweep : List Inst → Bool × List Inst
unfolding is_dead analyze
sweep [] = (false, [])
sweep (inst ∷ is) =
    let rest = sweep is in
    if is_dead inst (analyze is).0 then (true, rest.1) else (rest.0, inst ∷ rest.1)

unfoldable pub dead_code_elimination : List Inst → Bool × List Inst
unfolding sweep
dead_code_elimination is = sweep is

-- One backward pass of `dead_code_elimination_simple`.
unfoldable pub simple_pass : List Inst → Bool × List Inst × List Reg
unfolding insert_reg insert_regs
simple_pass [] = (false, [], [])
simple_pass (inst ∷ is) =
    let rest = simple_pass is in
    let live = rest.2 in
    let has_dst = not (inst.dst == no_reg) in
    let operands = insert_regs inst.call_args (insert_reg inst.b (insert_reg inst.a live)) in
    if has_side_effects inst.op || (has_dst && contains inst.dst live)
    then (rest.0, inst ∷ rest.1, (if has_dst then remove inst.dst operands else operands))
    else if has_dst
    then (true, rest.1, live)
    else (rest.0, inst ∷ rest.1, live)

-- The passes that may still follow, of 10.
unfoldable pub simple_passes : ℕ → List Inst → Bool × List Inst
unfolding simple_pass
simple_passes zero is = (false, is)
simple_passes (suc n) is =
    let p = simple_pass is in
    let rest = simple_passes n p.1 in if p.0 then (true, rest.1) else (false, p.1)

unfoldable pub dead_code_elimination_simple : List Inst → Bool × List Inst
unfolding simple_passes
dead_code_elimination_simple is = simple_passes 10 is
