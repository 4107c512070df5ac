-- ===== src/Lir/Optimizer/DeadCode/StraightLine.antt =====
-- `dead_code_elimination` (src/lir/optimizer.cpp) on code without jumps.
use limitly.Prelude.{
  sym, subst, ◌∙◌, All, ap, contains-remove, if◌then◌else◌, inl, inr, Bool, true, false, not, ◌&&◌,
  List, [], ◌∷◌, ◌≡◌, refl, ◌==◌, contains, nat_eq, arith, Bool-cases,
}
use limitly.Lir.Inst.{
  has_side_effects, Op, op_jump, op_jump_if, op_jump_if_false, op_return, op_ret, flow_next,
  is_jump, Reg, no_reg, Inst, flow,
}
use limitly.Lir.Optimizer.DeadCode.Reads.{ends, is_read, contains-uses, contains-insert_uses}
use limitly.Lir.Optimizer.DeadCode.{
  dead_code_elimination, sweep, is_dead, erase_dst, dst_is_live, defines_dst, insert_uses, analyze,
}

-- A register is live where control comes to a list of instructions.
abbrev pub live_in : List Inst → List Reg
live_in is = (analyze is).1

-- What the last part of the list may need, without what the instruction defines.
pub contains-erase_dst :
    (x : Reg) (inst : Inst) (l : List Reg)
    → contains x (erase_dst inst l) ≡ (
        if not (inst.dst == no_reg) && defines_dst (flow inst.op) && inst.dst == x
        then false
        else contains x l)
unfolding erase_dst
contains-erase_dst x inst l = ground (arith, contains-remove inst.dst x l)

-- The first set of `analyze` holds what is live at the entry.
dst_is_live-live_in :
    (x : Reg) (is : List Inst)
    → contains x (live_in is) ≡ true
    → dst_is_live x (analyze is).0 ≡ true
unfolding dst_is_live analyze contains
dst_is_live-live_in x [] h = h
dst_is_live-live_in x (inst ∷ is) h =
    ground (arith, contains-erase_dst x inst (insert_uses inst (live_in is)))

-- The instruction writes its destination, or none.
abbrev pub writes : Inst → Bool
writes inst = not (inst.dst == no_reg) && defines_dst (flow inst.op)

flow-has_no_side_effects : (op : Op) → has_side_effects op ≡ false → flow op ≡ flow_next
unfolding has_side_effects flow
flow-has_no_side_effects op_jump h = cc
flow-has_no_side_effects op_jump_if h = cc
flow-has_no_side_effects op_jump_if_false h = cc
flow-has_no_side_effects op_return h = cc
flow-has_no_side_effects op_ret h = cc
flow-has_no_side_effects _ h = refl

-- `effect` gives the value of an instruction and the world after it.
module _ {V W : Type 0} (effect : Inst → (Reg → V) → W → V × W) where
  abbrev pub write : Inst → V → (Reg → V) → Reg → V
  write inst v r x = if writes inst && inst.dst == x then v else r x

  -- What a list without jumps does to the world.
  unfoldable pub run_line : List Inst → (Reg → V) → W → W
  unfolding ends
  run_line [] r w = w
  run_line (inst ∷ is) r w =
      let e = effect inst r w in
      let rest = run_line is (write inst e.0 r) e.1 in if ends (flow inst.op) then e.1 else rest

  -- An instruction that is no jump and does not read the register that it defines, whose effect
  -- rests on the registers that it reads, and that leaves the world alone if the optimizer
  -- takes it to have no side effects.
  pub record IsSimple (inst : Inst) : Type 0 where
    pub no_jump : is_jump (flow inst.op) ≡ false
    pub no_self : (writes inst && is_read inst inst.dst) ≡ false
    pub reads :
        (r u : Reg → V) (w : W)
        → ((x : Reg) → is_read inst x ≡ true → r x ≡ u x)
        → effect inst r w ≡ effect inst u w
    pub pure : (r : Reg → V) (w : W) → has_side_effects inst.op ≡ false → (effect inst r w).1 ≡ w

  abbrev Agree : List Inst → (Reg → V) → (Reg → V) → Type 0
  Agree is r u = (x : Reg) → contains x (live_in is) ≡ true → r x ≡ u x

  module _ (inst : Inst) (is : List Inst) (r u : Reg → V) (g : Agree (inst ∷ is) r u) where
    -- A register that is live after the instruction agrees, but for the one that it defines.
    Agree-rest :
        (x : Reg)
        → contains x (live_in is) ≡ true
        → (writes inst && inst.dst == x) ≡ false
        → r x ≡ u x
    unfolding analyze
    Agree-rest x h k = g x (
        ground (
          arith,
          contains-erase_dst x inst (insert_uses inst (live_in is)),
          contains-insert_uses x inst (live_in is),
        ))

    Agree-reads :
        is_jump (flow inst.op) ≡ false
        → (writes inst && is_read inst inst.dst) ≡ false
        → (x : Reg) → is_read inst x ≡ true
        → r x ≡ u x
    unfolding analyze
    Agree-reads j k x h =
        let d = contains-uses inst.dst inst j in
        let m = contains-uses x inst j in
        let q : (inst.dst == x) ≡ true → inst.dst ≡ x = λ e. ground (arith, e) in
        g x (
          ground (
            arith,
            contains-erase_dst x inst (insert_uses inst (live_in is)),
            contains-insert_uses x inst (live_in is),
          ))

    Agree-write : (v : V) → Agree is (write inst v r) (write inst v u)
    Agree-write v x h = elim (Bool-cases (writes inst && inst.dst == x)) [
      | inl e ↦ rw e refl
      | inr e ↦ rw e (Agree-rest x h e)
    ]

    Agree-dead : (v : V) → is_dead inst (analyze is).0 ≡ true → Agree is (write inst v r) u
    unfolding is_dead
    Agree-dead v d x h =
        let e : (writes inst && inst.dst == x) ≡ false =
          ground (arith, d, dst_is_live-live_in x is h) in
        rw e (Agree-rest x h e)

  sweep-Agree :
      (is : List Inst) (r u : Reg → V) (w : W)
      → All IsSimple is
      → Agree is r u
      → run_line is r w ≡ run_line (sweep is).1 u w
  unfolding run_line sweep
  sweep-Agree [] r u w a g = refl
  sweep-Agree (inst ∷ is) r u w a g =
      let e = effect inst r w in
      elim (Bool-cases (is_dead inst (analyze is).0)) [
        | inl d ↦
            let s : has_side_effects inst.op ≡ false = unfold is_dead in ground (arith, d) in
            let f = flow-has_no_side_effects inst.op s in
            let ih = sweep-Agree is (write inst e.0 r) u e.1 a.1 (Agree-dead inst is r u g e.0 d) in
            rw (d, f) (ih ∙ ap (run_line (sweep is).1 u) (a.0.pure r w s))
        | inr d ↦
            let q = a.0.reads r u w (Agree-reads inst is r u g a.0.no_jump a.0.no_self) in
            let ih =
              sweep-Agree is (write inst e.0 r) (write inst e.0 u) e.1 a.1
                (Agree-write inst is r u g e.0) in
            rw d (
              subst
                (λ (y : V × W).
                  (if ends (flow inst.op) then e.1 else run_line is (write inst e.0 r) e.1) ≡ (
                    if ends (flow inst.op)
                    then y.1
                    else run_line (sweep is).1 (write inst y.0 u) y.1))
                q (elim (Bool-cases (ends (flow inst.op))) [ inl t ↦ rw t refl | inr t ↦ rw t ih ]))
      ]

  -- On code without jumps in which no instruction reads the register that it defines, and in which
  -- every instruction rests on its registers and is free of side effects where the optimizer takes
  -- it to be, the pass keeps what the code does to the world.
  pub dead_code_elimination-run_line :
      (is : List Inst) (r : Reg → V) (w : W)
      → All IsSimple is
      → run_line (dead_code_elimination is).1 r w ≡ run_line is r w
  unfolding dead_code_elimination
  dead_code_elimination-run_line is r w a = sym (sweep-Agree is r r w a (λ x h. refl))
