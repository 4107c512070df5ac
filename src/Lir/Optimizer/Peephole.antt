-- ===== src/Lir/Optimizer/Peephole.antt =====
-- `Optimizer::peephole_optimize` (src/lir/optimizer.cpp). The loop stands before the rest of the list
-- and looks back at one instruction. Its rules are grouped by the operation that they ask for, in
-- their order; the number of the source stands with each. A rule that erases the instruction at hand
-- looks at the same index again, so that the loop has one unit of fuel for each instruction.
pub mod Progress
use limitly.Prelude.{
  ℕ, zero, suc, Bool, true, false, not, ◌&&◌, ◌||◌, Option, none, some, List, [], ◌∷◌, length, ◌==◌,
  if◌then◌else◌,
}
use limitly.Prelude.Int.{pos, negsuc}
use limitly.Runtime.Word.{Word, val_true, val_false, box_int, unbox_int, is_int}
use limitly.Lir.Inst.{
  no_reg, Op, Inst, op_mov, op_load_const, op_add, op_sub, op_mul, op_div, op_mod, op_neg, op_and,
  op_or, op_xor, op_cmp_eq, op_cmp_neq, op_cmp_lt, op_cmp_le, op_cmp_gt, op_cmp_ge, op_jump,
  is_return, is_mov, is_load_const, is_neg, is_label,
}

pub data PeepholeStep : Type 0 where
  -- Go on behind an instruction, which a rule may have changed.
  keep : Bool → Inst → List Inst → PeepholeStep
  -- The instruction is erased: look at what now stands at its index.
  drop : List Inst → PeepholeStep

unfoldable pub to_mov : Inst → Inst
to_mov inst = record inst { op = op_mov; b = no_reg }

unfoldable pub to_load_const : Word → Inst → Inst
to_load_const c inst = record inst { op = op_load_const; a = no_reg; b = no_reg; const_val = c }

-- `IS_INT(prev.const_val) && UNBOX_INT(prev.const_val) == n`
unfoldable pub is_small : Word → ℕ → Bool
is_small w n = is_int w && elim (unbox_int w) [ pos m ↦ m == n | negsuc _ ↦ false ]

-- The previous instruction loads the constant `n` into operand `b`.
unfoldable pub loads_operand : Option Inst → Inst → ℕ → Bool
unfolding is_small is_load_const
loads_operand none inst n = false
loads_operand (some prev) inst n =
    not (inst.b == no_reg)
    && (is_load_const prev.op && (prev.dst == inst.b && is_small prev.const_val n))

-- 1, 2 and 15
unfoldable pub peep_mov : Inst → List Inst → PeepholeStep
unfolding is_mov is_return
peep_mov inst [] = if inst.dst == inst.a then drop [] else keep false inst []
peep_mov inst (next ∷ rest) =
    if inst.dst == inst.a
    then drop (next ∷ rest)
    else if is_mov next.op && next.a == inst.dst
    then drop (record next { a = inst.a } ∷ rest)
    else if is_return next.op && next.dst == inst.dst
    then drop (record next { dst = inst.a } ∷ rest)
    else keep false inst (next ∷ rest)

-- 3 and 14
unfoldable pub peep_load_const : Inst → List Inst → PeepholeStep
unfolding is_load_const is_mov
peep_load_const inst [] = keep false inst []
peep_load_const inst (next ∷ rest) =
    if is_load_const next.op && (next.dst == inst.dst && next.const_val == inst.const_val)
    then keep true inst rest
    else if is_mov next.op && next.a == inst.dst
    then keep true (record inst { dst = next.dst }) rest
    else keep false inst (next ∷ rest)

-- 12
unfoldable pub peep_neg : Inst → List Inst → PeepholeStep
unfolding is_neg
peep_neg inst [] = keep false inst []
peep_neg inst (next ∷ rest) =
    if is_neg next.op && next.a == inst.dst
    then drop (record next { op = op_mov; a = inst.a } ∷ rest)
    else keep false inst (next ∷ rest)

-- 13
unfoldable pub peep_jump : Inst → List Inst → PeepholeStep
unfolding is_label
peep_jump inst [] = keep false inst []
peep_jump inst (next ∷ rest) =
    if is_label next.op && next.imm == inst.imm
    then drop (next ∷ rest)
    else keep false inst (next ∷ rest)

-- A rule that changes the instruction alone, where its test holds.
unfoldable pub replace_if : Bool → Inst → Inst → List Inst → PeepholeStep
replace_if test new inst rest = if test then keep true new rest else keep false inst rest

unfoldable pub same_operands : Inst → Bool
same_operands inst = not (inst.a == no_reg) && inst.a == inst.b

unfoldable pub peep_at : Op → Option Inst → Inst → List Inst → PeepholeStep
unfolding peep_mov peep_load_const peep_neg peep_jump replace_if same_operands loads_operand to_mov
    to_load_const
peep_at op_mov prev inst rest = peep_mov inst rest
peep_at op_load_const prev inst rest = peep_load_const inst rest
-- 4
peep_at op_add prev inst rest = replace_if (loads_operand prev inst 0) (to_mov inst) inst rest
-- 5 and 6
peep_at op_mul prev inst rest =
    if loads_operand prev inst 1
    then keep true (to_mov inst) rest
    else replace_if (loads_operand prev inst 2) (record inst { op = op_add; b = inst.a }) inst rest
-- 7 and 8
peep_at op_cmp_eq prev inst rest =
    replace_if (same_operands inst) (to_load_const val_true inst) inst rest
peep_at op_cmp_le prev inst rest =
    replace_if (same_operands inst) (to_load_const val_true inst) inst rest
peep_at op_cmp_ge prev inst rest =
    replace_if (same_operands inst) (to_load_const val_true inst) inst rest
peep_at op_cmp_neq prev inst rest =
    replace_if (same_operands inst) (to_load_const val_false inst) inst rest
peep_at op_cmp_lt prev inst rest =
    replace_if (same_operands inst) (to_load_const val_false inst) inst rest
peep_at op_cmp_gt prev inst rest =
    replace_if (same_operands inst) (to_load_const val_false inst) inst rest
-- 9, 10 and 11
peep_at op_and prev inst rest = replace_if (inst.a == inst.b) (to_mov inst) inst rest
peep_at op_or prev inst rest = replace_if (inst.a == inst.b) (to_mov inst) inst rest
peep_at op_xor prev inst rest =
    replace_if (same_operands inst) (to_load_const val_false inst) inst rest
peep_at op_neg prev inst rest = peep_neg inst rest
peep_at op_jump prev inst rest = peep_jump inst rest
-- 16, 17 and 18
peep_at op_sub prev inst rest = replace_if (loads_operand prev inst 0) (to_mov inst) inst rest
peep_at op_div prev inst rest = replace_if (loads_operand prev inst 1) (to_mov inst) inst rest
peep_at op_mod prev inst rest =
    replace_if (loads_operand prev inst 1) (to_load_const (box_int (pos 0)) inst) inst rest
peep_at _ prev inst rest = keep false inst rest

unfoldable pub peephole_from : ℕ → Option Inst → List Inst → Bool × List Inst
unfolding peep_at
peephole_from zero prev is = (false, is)
peephole_from (suc fuel) prev [] = (false, [])
peephole_from (suc fuel) prev (inst ∷ is) = elim (peep_at inst.op prev inst is) [
  | keep changed new rest ↦
      let later = peephole_from fuel (some new) rest in (changed || later.0, new ∷ later.1)
  | drop rest ↦ let later = peephole_from fuel prev rest in (true, later.1)
]

unfoldable pub peephole_optimize : List Inst → Bool × List Inst
unfolding peephole_from
peephole_optimize is = peephole_from (length is) none is
