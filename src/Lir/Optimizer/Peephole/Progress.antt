-- ===== src/Lir/Optimizer/Peephole/Progress.antt =====
-- The loop of `peephole_optimize` (src/lir/optimizer.cpp): it ends, its result is no longer than its
-- input, and it reports every change.
use limitly.Prelude.{
  none, ℕ, zero, suc, ◌≤◌, Bool, true, false, ◌||◌, Option, some, List, [], ◌∷◌, ◌≡◌, refl, sym, ap,
  ◌∙◌, length, arith, Bool-cases, ◌⊎◌, inl, inr,
}
use limitly.Lir.Inst.{
  Op, Inst, op_mov, op_load_const, op_add, op_sub, op_mul, op_div, op_mod, op_neg, op_and, op_or,
  op_xor, op_cmp_eq, op_cmp_neq, op_cmp_lt, op_cmp_le, op_cmp_gt, op_cmp_ge, op_jump,
}
use limitly.Lir.Optimizer.Peephole.{
  PeepholeStep, keep, drop, loads_operand, peep_mov, peep_load_const, peep_neg, peep_jump,
  replace_if, peep_at, peephole_from, peephole_optimize,
}

-- A step leaves less to look at, and one that reports no change leaves the list as it was.
abbrev pub IsProgress : Inst → List Inst → PeepholeStep → Type 0
IsProgress inst is (keep true new rest) = length rest ≤ length is
IsProgress inst is (keep false new rest) = (new ≡ inst) × (rest ≡ is)
IsProgress inst is (drop rest) = length rest ≤ length is

peep_mov-IsProgress : (inst : Inst) (is : List Inst) → IsProgress inst is (peep_mov inst is)
unfolding peep_mov
peep_mov-IsProgress inst [] = ground arith
peep_mov-IsProgress inst (next ∷ is) = ground arith

peep_load_const-IsProgress :
    (inst : Inst) (is : List Inst) → IsProgress inst is (peep_load_const inst is)
unfolding peep_load_const
peep_load_const-IsProgress inst [] = ground arith
peep_load_const-IsProgress inst (next ∷ is) = ground arith

peep_neg-IsProgress : (inst : Inst) (is : List Inst) → IsProgress inst is (peep_neg inst is)
unfolding peep_neg
peep_neg-IsProgress inst [] = ground arith
peep_neg-IsProgress inst (next ∷ is) = ground arith

peep_jump-IsProgress : (inst : Inst) (is : List Inst) → IsProgress inst is (peep_jump inst is)
unfolding peep_jump
peep_jump-IsProgress inst [] = ground arith
peep_jump-IsProgress inst (next ∷ is) = ground arith

replace_if-IsProgress :
    (b : Bool) (new inst : Inst) (is : List Inst) → IsProgress inst is (replace_if b new inst is)
unfolding replace_if
replace_if-IsProgress true new inst is = omega arith
replace_if-IsProgress false new inst is = (refl, refl)

peep_at-IsProgress :
    (op : Op) (prev : Option Inst) (inst : Inst) (is : List Inst)
    → IsProgress inst is (peep_at op prev inst is)
unfolding peep_at
peep_at-IsProgress op_add prev inst is = replace_if-IsProgress _ _ inst is
peep_at-IsProgress op_cmp_eq prev inst is = replace_if-IsProgress _ _ inst is
peep_at-IsProgress op_cmp_le prev inst is = replace_if-IsProgress _ _ inst is
peep_at-IsProgress op_cmp_ge prev inst is = replace_if-IsProgress _ _ inst is
peep_at-IsProgress op_cmp_neq prev inst is = replace_if-IsProgress _ _ inst is
peep_at-IsProgress op_cmp_lt prev inst is = replace_if-IsProgress _ _ inst is
peep_at-IsProgress op_cmp_gt prev inst is = replace_if-IsProgress _ _ inst is
peep_at-IsProgress op_and prev inst is = replace_if-IsProgress _ _ inst is
peep_at-IsProgress op_or prev inst is = replace_if-IsProgress _ _ inst is
peep_at-IsProgress op_xor prev inst is = replace_if-IsProgress _ _ inst is
peep_at-IsProgress op_sub prev inst is = replace_if-IsProgress _ _ inst is
peep_at-IsProgress op_div prev inst is = replace_if-IsProgress _ _ inst is
peep_at-IsProgress op_mod prev inst is = replace_if-IsProgress _ _ inst is
peep_at-IsProgress op_mul prev inst is = elim (Bool-cases (loads_operand prev inst 1)) [
  | inl e ↦ rw e (omega arith)
  | inr e ↦ rw e (replace_if-IsProgress _ _ inst is)
]
peep_at-IsProgress op_mov prev inst is = peep_mov-IsProgress inst is
peep_at-IsProgress op_load_const prev inst is = peep_load_const-IsProgress inst is
peep_at-IsProgress op_neg prev inst is = peep_neg-IsProgress inst is
peep_at-IsProgress op_jump prev inst is = peep_jump-IsProgress inst is
peep_at-IsProgress _ prev inst is = (refl, refl)

-- Where the loop stands after a step.
abbrev after_step : ℕ → Option Inst → PeepholeStep → Bool × List Inst
after_step fuel prev (keep changed new rest) =
    let later = peephole_from fuel (some new) rest in (changed || later.0, new ∷ later.1)
after_step fuel prev (drop rest) = let later = peephole_from fuel prev rest in (true, later.1)

peephole_from-step :
    (fuel : ℕ) (prev : Option Inst) (inst : Inst) (is : List Inst)
    → peephole_from (suc fuel) prev (inst ∷ is)
      ≡ after_step fuel prev (peep_at inst.op prev inst is)
unfolding peephole_from
peephole_from-step fuel prev inst is = ground arith

empty : (fuel : ℕ) (prev : Option Inst) → peephole_from fuel prev [] ≡ (false, [])
unfolding peephole_from
empty zero prev = refl
empty (suc fuel) prev = refl

module _ (f g : ℕ)
    (ih : (prev : Option Inst) (is : List Inst)
      → length is ≤ f
      → length is ≤ g
      → peephole_from f prev is ≡ peephole_from g prev is)
    (prev : Option Inst) (inst : Inst) (is : List Inst) (lf : length is ≤ f)
    (lg : length is ≤ g) where
  after_step-fuel :
      (st : PeepholeStep) → IsProgress inst is st → after_step f prev st ≡ after_step g prev st
  after_step-fuel (keep true new rest) p =
      ap (λ (l : Bool × List Inst). (true || l.0, new ∷ l.1))
        (ih (some new) rest (omega (arith, p, lf)) (omega (arith, p, lg)))
  after_step-fuel (keep false new rest) p =
      let q = ap (λ (l : List Inst). length l) p.1 in
      ap (λ (l : Bool × List Inst). (false || l.0, new ∷ l.1))
        (ih (some new) rest (omega (arith, q, lf)) (omega (arith, q, lg)))
  after_step-fuel (drop rest) p =
      ap (λ (l : Bool × List Inst). (true, l.1))
        (ih prev rest (omega (arith, p, lf)) (omega (arith, p, lg)))

-- With one unit of fuel for each instruction or more the loop ends: the fuel does not matter.
pub peephole_from-fuel :
    (f g : ℕ) (prev : Option Inst) (is : List Inst)
    → length is ≤ f
    → length is ≤ g
    → peephole_from f prev is ≡ peephole_from g prev is
peephole_from-fuel f g prev [] lf lg = empty f prev ∙ sym (empty g prev)
peephole_from-fuel zero g prev (inst ∷ is) lf lg = absurd (omega (arith, lf))
peephole_from-fuel (suc f) zero prev (inst ∷ is) lf lg = absurd (omega (arith, lg))
peephole_from-fuel (suc f) (suc g) prev (inst ∷ is) lf lg =
    peephole_from-step f prev inst is
    ∙ after_step-fuel f g (peephole_from-fuel f g) prev inst is (omega (arith, lf))
        (omega (arith, lg)) (peep_at inst.op prev inst is) (peep_at-IsProgress inst.op prev inst is)
    ∙ sym (peephole_from-step g prev inst is)

-- A pass leaves no more instructions than it found, and reports every change.
abbrev pub IsReported : List Inst → Bool × List Inst → Type 0
IsReported is r = (length r.1 ≤ length is) × ((r.0 ≡ true) ⊎ (r.1 ≡ is))

after_step-IsReported :
    (f : ℕ) (prev : Option Inst) (inst : Inst) (is : List Inst)
    → ((p : Option Inst) (js : List Inst) → IsReported js (peephole_from f p js))
    → (st : PeepholeStep) → IsProgress inst is st
    → IsReported (inst ∷ is) (after_step f prev st)
after_step-IsReported f prev inst is ih (keep true new rest) p =
    let l = ih (some new) rest in (omega (arith, p, l.0), inl refl)
after_step-IsReported f prev inst is ih (keep false new rest) p =
    let l = ih (some new) rest in
    let q = ap (λ (l : List Inst). length l) p.1 in
    (
      omega (arith, q, l.0),
      elim l.1 [
        | inl e ↦ inl e
        | inr e ↦ inr (
            ap (λ (x : Inst). x ∷ (peephole_from f (some new) rest).1) p.0
            ∙ ap (λ (x : List Inst). inst ∷ x) (e ∙ p.1))
      ],
    )
after_step-IsReported f prev inst is ih (drop rest) p =
    let l = ih prev rest in (omega (arith, p, l.0), inl refl)

peephole_from-IsReported :
    (fuel : ℕ) (prev : Option Inst) (is : List Inst) → IsReported is (peephole_from fuel prev is)
unfolding peephole_from
peephole_from-IsReported zero prev is = (omega arith, inr refl)
peephole_from-IsReported (suc fuel) prev [] = (omega arith, inr refl)
peephole_from-IsReported (suc fuel) prev (inst ∷ is) = rw (peephole_from-step fuel prev inst is) (
    after_step-IsReported fuel prev inst is (peephole_from-IsReported fuel)
      (peep_at inst.op prev inst is) (peep_at-IsProgress inst.op prev inst is))

pub peephole_optimize-IsReported : (is : List Inst) → IsReported is (peephole_optimize is)
unfolding peephole_optimize
peephole_optimize-IsReported is = peephole_from-IsReported (length is) none is
