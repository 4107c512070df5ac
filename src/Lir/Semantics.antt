-- ===== src/Lir/Semantics.antt =====
-- What a list of instructions of src/lir/lir.hh does, as the comments of `LIR_Op` and `LIR_Inst` say
-- it: the jump target is the immediate, the condition is operand `a`. The state, the effect of an
-- instruction that goes on to the next and the test of a register are parameters.
use limitly.Prelude.{ℕ, zero, suc, ◌+◌, Bool, Option, none, some, List, get_elem?, if◌then◌else◌}
use limitly.Lir.Inst.{
  Reg, Inst, Flow, flow, flow_jump, flow_jump_if, flow_jump_if_false, flow_return, flow_next,
}

-- A run has ended in a state, or stands before an instruction when its steps are used up.
pub data Outcome {ℓ} (S : Type ℓ) : Type ℓ where
  stopped : S → Outcome S
  running : ℕ → S → Outcome S

module _ {ℓ} {S : Type ℓ} (exec : Inst → S → S) (cond : Reg → S → Bool) where
  -- The next program counter, or none after a return.
  unfoldable pub next_pc : Flow → Inst → ℕ → S → Option ℕ
  next_pc flow_jump inst pc s = some inst.imm
  next_pc flow_jump_if inst pc s = some (if cond inst.a s then inst.imm else pc + 1)
  next_pc flow_jump_if_false inst pc s = some (if cond inst.a s then pc + 1 else inst.imm)
  next_pc flow_return inst pc s = none
  next_pc flow_next inst pc s = some (pc + 1)

  unfoldable pub next_state : Flow → Inst → S → S
  next_state flow_jump inst s = s
  next_state flow_jump_if inst s = s
  next_state flow_jump_if_false inst s = s
  next_state flow_return inst s = exec inst s
  next_state flow_next inst s = exec inst s

  unfoldable pub run : ℕ → List Inst → ℕ → S → Outcome S
  unfolding next_pc next_state flow
  run zero is pc s = running pc s
  run (suc steps) is pc s = elim (get_elem? is pc) [
    | none ↦ stopped s
    | some inst ↦
        let s' = next_state (flow inst.op) inst s in
        elim (next_pc (flow inst.op) inst pc s) [
          | none ↦ stopped s'
          | some pc' ↦ run steps is pc' s'
        ]
  ]
