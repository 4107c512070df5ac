-- ===== src/Lir/Optimizer/DeadCode/Reads.antt =====
-- The registers that an instruction reads, and those that `LivenessAnalyzer::analyze`
-- (src/lir/optimizer.cpp) adds for it.
use limitly.Prelude.{
  inl, inr, Bool, true, false, not, ◌&&◌, ◌||◌, List, [], ◌∷◌, ◌≡◌, refl, ◌==◌, contains, nat_eq,
  arith, Bool-cases,
}
use limitly.Lir.Inst.{Flow, flow_return, flow_next, is_jump, Reg, no_reg, Inst, flow}
use limitly.Lir.Optimizer.DeadCode.{insert_reg, insert_regs, uses_dst, insert_uses}

unfoldable pub ends : Flow → Bool
ends flow_return = true
ends _ = false

-- An instruction that is no jump reads a register that it names as an operand, as an argument of a
-- call, or, if it is a return, as the value to return.
unfoldable pub is_read : Inst → Reg → Bool
unfolding ends
is_read inst x =
    not (x == no_reg)
    && (x == inst.a
        || (x == inst.b || (contains x inst.call_args || (ends (flow inst.op) && x == inst.dst))))

-- The registers that the pass adds for an instruction.
abbrev pub uses : Inst → List Reg
uses inst = insert_uses inst []

contains-insert_reg :
    (x r : Reg) (l : List Reg)
    → contains x (insert_reg r l) ≡ (contains x l || (r == x && not (r == no_reg)))
unfolding insert_reg contains
contains-insert_reg x r l = ground arith

contains-insert_regs :
    (x : Reg) (rs l : List Reg)
    → contains x (insert_regs rs l) ≡ (contains x l || contains x (insert_regs rs []))
unfolding insert_regs contains
contains-insert_regs x [] l = ground arith
contains-insert_regs x (r ∷ rs) l = ground (
  arith,
  contains-insert_regs x rs (insert_reg r l),
  contains-insert_regs x rs (insert_reg r []),
  contains-insert_reg x r l,
  contains-insert_reg x r [],
)

or_assoc : (a b c : Bool) → ((a || b) || c) ≡ (a || (b || c))
or_assoc true b c = refl
or_assoc false b c = refl

contains-insert_operands :
    (x : Reg) (rs : List Reg) (a b : Reg) (l : List Reg)
    → contains x (insert_regs rs (insert_reg b (insert_reg a l)))
      ≡ (contains x l || contains x (insert_regs rs (insert_reg b (insert_reg a []))))
unfolding contains
contains-insert_operands x rs a b l =
    let o = contains-insert_regs x rs (insert_reg b (insert_reg a l)) in
    let p = contains-insert_regs x rs (insert_reg b (insert_reg a [])) in
    ground (
      arith,
      o,
      p,
      contains-insert_reg x b (insert_reg a l),
      contains-insert_reg x a l,
      contains-insert_reg x b (insert_reg a []),
      contains-insert_reg x a [],
    )

pub contains-insert_uses :
    (x : Reg) (inst : Inst) (l : List Reg)
    → contains x (insert_uses inst l) ≡ (contains x l || contains x (uses inst))
unfolding insert_uses
contains-insert_uses x inst l =
    let o = contains-insert_operands x inst.call_args inst.a inst.b l in
    elim (Bool-cases (uses_dst (flow inst.op))) [
      | inr e ↦ rw e o
      | inl e ↦
          rw
            (
              e,
              contains-insert_reg x inst.dst
                  (insert_regs inst.call_args (insert_reg inst.b (insert_reg inst.a l))),
              contains-insert_reg x inst.dst
                  (insert_regs inst.call_args (insert_reg inst.b (insert_reg inst.a []))),
              o,
            )
            (or_assoc (contains x l)
              (contains x (insert_regs inst.call_args (insert_reg inst.b (insert_reg inst.a []))))
              (inst.dst == x && not (inst.dst == no_reg)))
    ]

contains-insert_args :
    (x : Reg) (rs : List Reg)
    → contains x (insert_regs rs []) ≡ (not (x == no_reg) && contains x rs)
unfolding insert_regs contains
contains-insert_args x [] = ground arith
contains-insert_args x (r ∷ rs) = ground (
  arith,
  contains-insert_regs x rs (insert_reg r []),
  contains-insert_reg x r [],
  contains-insert_args x rs,
)

ends-uses_dst : (f : Flow) → is_jump f ≡ false → uses_dst f ≡ ends f
unfolding uses_dst ends is_jump
ends-uses_dst flow_return h = refl
ends-uses_dst flow_next h = refl
ends-uses_dst _ h = cc

-- They are the registers that it reads.
pub contains-uses :
    (x : Reg) (inst : Inst)
    → is_jump (flow inst.op) ≡ false
    → contains x (uses inst) ≡ is_read inst x
unfolding insert_uses is_read contains
contains-uses x inst j = ground (
  arith,
  ends-uses_dst (flow inst.op) j,
  contains-insert_regs x inst.call_args (insert_reg inst.b (insert_reg inst.a [])),
  contains-insert_args x inst.call_args,
  contains-insert_reg x inst.b (insert_reg inst.a []),
  contains-insert_reg x inst.a [],
  contains-insert_reg x inst.dst
      (insert_regs inst.call_args (insert_reg inst.b (insert_reg inst.a []))),
)
