-- ===== src/Lir/Optimizer/DeadCode/SelfReads.antt =====
-- `dead_code_elimination` (src/lir/optimizer.cpp) before an instruction that reads what it redefines.
use limitly.Prelude.{
  subst, sym, ap, ◌∙◌, true, false, ◌||◌, List, ◌∷◌, ◌≡◌, refl, contains, nat_eq, arith,
}
use limitly.Lir.Inst.{Inst, has_side_effects}
use limitly.Lir.Optimizer.DeadCode.{
  insert_uses, analyze, dst_is_live, is_dead, sweep, dead_code_elimination,
}
use limitly.Lir.Optimizer.DeadCode.Reads.{uses, contains-insert_uses}
use limitly.Lir.Optimizer.DeadCode.StraightLine.{writes, live_in, contains-erase_dst}

-- A register is never live at the entry of an instruction that defines it, though it may read it.
live_in-defined :
    (inst : Inst) (rest : List Inst)
    → writes inst ≡ true
    → contains inst.dst (live_in (inst ∷ rest)) ≡ false
unfolding analyze
live_in-defined inst rest w =
    ground (arith, contains-erase_dst inst.dst inst (insert_uses inst (live_in rest)))

-- The definition of a register is removed when the next instruction does not read it and the one
-- after that redefines it, also where that one reads it.
pub dead_code_elimination-drops :
    (def next redefinition : Inst) (rest : List Inst)
    → writes redefinition ≡ true
    → def.dst ≡ redefinition.dst
    → has_side_effects def.op ≡ false
    → contains def.dst (uses next) ≡ false
    → dead_code_elimination (def ∷ next ∷ redefinition ∷ rest)
      ≡ (true, (dead_code_elimination (next ∷ redefinition ∷ rest)).1)
unfolding dead_code_elimination
dead_code_elimination-drops def next redefinition rest w e s u =
    let l : contains def.dst (live_in (redefinition ∷ rest)) ≡ false =
      subst (λ r. contains r (live_in (redefinition ∷ rest)) ≡ false) (sym e)
        (live_in-defined redefinition rest w) in
    let n : contains def.dst (insert_uses next (live_in (redefinition ∷ rest))) ≡ false =
      contains-insert_uses def.dst next (live_in (redefinition ∷ rest))
      ∙ ap (λ b. b || contains def.dst (uses next)) l
      ∙ u in
    let d : is_dead def (analyze (next ∷ (redefinition ∷ rest))).0 ≡ true =
      unfold is_dead dst_is_live analyze in ground (arith, s, n, w, e) in
    unfold sweep in rw d refl
