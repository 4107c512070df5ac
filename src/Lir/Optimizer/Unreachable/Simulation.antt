-- ===== src/Lir/Optimizer/Unreachable/Simulation.antt =====
-- `remove_unreachable_code` (src/lir/optimizer.cpp) keeps what a function does.
use limitly.Prelude.{
  get_elem?-outside, get_elem?-some, ◌<◌, ◌⊎◌, ◌∙◌, ℕ, zero, suc, ◌+◌, ◌≤◌, Bool, true, false,
  Option, none, some, List, [], ◌∷◌, ◌≡◌, refl, sym, ap, inl, inr, length, get_elem?, ltb, contains,
  nat_eq, arith, Bool-cases,
}
use limitly.Lir.Inst.{
  Flow, flow_jump, flow_jump_if, flow_jump_if_false, flow_return, flow_next, Reg, Inst, flow,
  is_jump,
}
use limitly.Lir.Semantics.{Outcome, stopped, running, next_pc, next_state, run}
use limitly.Lir.Optimizer.Unreachable.{
  all_marked, remove_unreachable_code, is_marked, mark_reachable, compact, remap_from, new_target,
  retarget, retarget_all,
}
use limitly.Lir.Optimizer.Unreachable.Marks.{targets, is_marked-bound}
use limitly.Lir.Optimizer.Unreachable.Reach.{
  mark_reachable-entry, mark_reachable-closed, length-mark_reachable,
}
use limitly.Lir.Optimizer.Unreachable.Compact.{
  get_elem?-compact, get_elem?-retarget, rank, rank-bound, rank-suc, length-compact, new_target_lem,
  length-retarget,
}

-- Two outcomes with the same state, both at an end or both before it.
pub data SameOutcome {ℓ} {S : Type ℓ} : Outcome S → Outcome S → Type ℓ where
  same_stopped : (s : S) → SameOutcome (stopped s) (stopped s)
  same_running : (i j : ℕ) (s : S) → SameOutcome (running i s) (running j s)

abbrev moved : List Inst → List Inst
moved is = retarget_all (remap_from 0 (mark_reachable is)) (compact (mark_reachable is) is)

-- Where a program counter of the old list stands in the new one.
data Moves (is : List Inst) : ℕ → ℕ → Type 0 where
  inside :
      {i j : ℕ}
      → is_marked (mark_reachable is) i ≡ true
      → j ≡ rank (mark_reachable is) i
      → Moves is i j
  outside : {i j : ℕ} → length is ≤ i → length (moved is) ≤ j → Moves is i j

length-moved : (is : List Inst) → length (moved is) ≡ rank (mark_reachable is) (length is)
length-moved is =
    let m = mark_reachable is in
    length-retarget (remap_from 0 m) (compact m is) ∙ length-compact m is (length-mark_reachable is)

-- A fallthrough and a jump lead to places that correspond.
next-Moves :
    (is : List Inst) (i : ℕ) (inst : Inst)
    → is_marked (mark_reachable is) i ≡ true
    → get_elem? is i ≡ some inst
    → contains (i + 1) (targets (flow inst.op) inst.imm i) ≡ true
    → Moves is (i + 1) (rank (mark_reachable is) i + 1)
next-Moves is i inst m e c =
    let s = rank-suc (mark_reachable is) i m in
    elim (Bool-cases (ltb (i + 1) (length is))) [
      | inl l ↦
          inside
            (mark_reachable-closed is i (i + 1) m (record { inst = inst; here = e; target = c })
              (ground (arith, l)))
            (sym s)
      | inr l ↦
          let b = is_marked-bound (mark_reachable is) i m in
          let q : i + 1 ≡ length is = ground (arith, b, l, length-mark_reachable is) in
          outside (omega (arith, q))
            (omega (arith, length-moved is, s, ap (rank (mark_reachable is)) q))
    ]

jump-Moves :
    (is : List Inst) (i : ℕ) (inst : Inst)
    → is_marked (mark_reachable is) i ≡ true
    → get_elem? is i ≡ some inst
    → contains inst.imm (targets (flow inst.op) inst.imm i) ≡ true
    → Moves is inst.imm (new_target (remap_from 0 (mark_reachable is)) inst.imm)
jump-Moves is i inst m e c =
    let t = new_target_lem (mark_reachable is) inst.imm in
    elim (Bool-cases (ltb inst.imm (length is))) [
      | inl l ↦
          let k =
            mark_reachable-closed is i inst.imm m (record { inst = inst; here = e; target = c })
              (ground (arith, l)) in
          inside k (ground (arith, t, k))
      | inr l ↦ outside (ground (arith, l)) (
          ground (
            arith,
            l,
            t,
            length-moved is,
            rank-bound (mark_reachable is) (length is),
            is_marked-bound (mark_reachable is) inst.imm,
            length-mark_reachable is,
          ))
    ]

retarget-op :
    (r : List (Option ℕ)) (inst : Inst)
    → ((retarget r inst).op ≡ inst.op) × ((retarget r inst).a ≡ inst.a)
unfolding retarget
retarget-op r inst = elim (Bool-cases (is_jump (flow inst.op))) [
  | inl e ↦ rw e (refl, refl)
  | inr e ↦ rw e (refl, refl)
]

retarget-imm :
    (r : List (Option ℕ)) (inst : Inst)
    → is_jump (flow inst.op) ≡ true
    → (retarget r inst).imm ≡ new_target r inst.imm
unfolding retarget
retarget-imm r inst e = rw e refl

retarget-same :
    (r : List (Option ℕ)) (inst : Inst) → is_jump (flow inst.op) ≡ false → retarget r inst ≡ inst
unfolding retarget
retarget-same r inst e = rw e refl

remove_unreachable_code-cases :
    (is : List Inst)
    → ((remove_unreachable_code is).1 ≡ is)
      ⊎ ((0 < length is) × ((remove_unreachable_code is).1 ≡ moved is))
unfolding remove_unreachable_code
remove_unreachable_code-cases [] = inl refl
remove_unreachable_code-cases (x ∷ is) = elim (Bool-cases (all_marked (mark_reachable (x ∷ is)))) [
  | inl e ↦ inl (rw e refl)
  | inr e ↦ inr (omega arith, rw e refl)
]

SameOutcome-refl {ℓ} : {S : Type ℓ} (o : Outcome S) → SameOutcome o o
SameOutcome-refl (stopped s) = same_stopped s
SameOutcome-refl (running pc s) = same_running pc pc s

module _ {ℓ} {S : Type ℓ} (exec : Inst → S → S) (cond : Reg → S → Bool) where
  abbrev after_step : ℕ → List Inst → Option ℕ → S → Outcome S
  after_step k is none s = stopped s
  after_step k is (some pc) s = run exec cond k is pc s

  run-end :
      (k : ℕ) (is : List Inst) (pc : ℕ) (s : S)
      → get_elem? is pc ≡ none
      → run exec cond (suc k) is pc s ≡ stopped s
  unfolding run
  run-end k is pc s e = ground arith

  run-step :
      (k : ℕ) (is : List Inst) (pc : ℕ) (s : S) (inst : Inst)
      → get_elem? is pc ≡ some inst
      → run exec cond (suc k) is pc s
        ≡ after_step k is
            (next_pc exec cond (flow inst.op) inst pc s)
            (next_state exec cond (flow inst.op) inst s)
  unfolding run
  run-step k is pc s inst e = ground arith

  module _ (is : List Inst) (k : ℕ)
      (ih : (i j : ℕ) (s : S)
        → Moves is i j
        → SameOutcome (run exec cond k is i s) (run exec cond k (moved is) j s))
      (i : ℕ) (inst : Inst) (s : S) (m : is_marked (mark_reachable is) i ≡ true)
      (e : get_elem? is i ≡ some inst) where
    abbrev new_inst : Inst
    new_inst = retarget (remap_from 0 (mark_reachable is)) inst

    abbrev new_i : ℕ
    new_i = rank (mark_reachable is) i

    jump_to :
        contains inst.imm (targets (flow inst.op) inst.imm i) ≡ true
        → is_jump (flow inst.op) ≡ true
        → SameOutcome (run exec cond k is inst.imm s) (run exec cond k (moved is) new_inst.imm s)
    jump_to c j =
        ih inst.imm new_inst.imm s
          (rw (retarget-imm (remap_from 0 (mark_reachable is)) inst j) (jump-Moves is i inst m e c))

    fall_to :
        (u : S)
        → contains (i + 1) (targets (flow inst.op) inst.imm i) ≡ true
        → SameOutcome (run exec cond k is (i + 1) u) (run exec cond k (moved is) (new_i + 1) u)
    fall_to u c = ih (i + 1) (new_i + 1) u (next-Moves is i inst m e c)

    step-Same :
        (fl : Flow)
        → flow inst.op ≡ fl
        → SameOutcome
            (after_step k is (next_pc exec cond fl inst i s) (next_state exec cond fl inst s))
            (after_step k
              (moved is)
              (next_pc exec cond fl new_inst new_i s)
              (next_state exec cond fl new_inst s))
    unfolding next_pc next_state is_jump targets contains
    step-Same flow_jump f = jump_to (ground (arith, f)) (ground (arith, f))
    step-Same flow_jump_if f =
        rw ((retarget-op (remap_from 0 (mark_reachable is)) inst).1)
          (elim (Bool-cases (cond inst.a s)) [
            | inl c ↦ rw c (jump_to (ground (arith, f)) (ground (arith, f)))
            | inr c ↦ rw c (fall_to s (ground (arith, f)))
          ])
    step-Same flow_jump_if_false f =
        rw ((retarget-op (remap_from 0 (mark_reachable is)) inst).1)
          (elim (Bool-cases (cond inst.a s)) [
            | inl c ↦ rw c (fall_to s (ground (arith, f)))
            | inr c ↦ rw c (jump_to (ground (arith, f)) (ground (arith, f)))
          ])
    step-Same flow_return f =
        rw (retarget-same (remap_from 0 (mark_reachable is)) inst (ground (arith, f)))
          (same_stopped (exec inst s))
    step-Same flow_next f =
        rw (retarget-same (remap_from 0 (mark_reachable is)) inst (ground (arith, f)))
          (fall_to (exec inst s) (ground (arith, f)))

  moved-Same :
      (k : ℕ) (is : List Inst) (i j : ℕ) (s : S)
      → Moves is i j
      → SameOutcome (run exec cond k is i s) (run exec cond k (moved is) j s)
  unfolding retarget
  moved-Same zero is i j s w = unfold run in same_running i j s
  moved-Same (suc k) is i j s (outside h g) =
      rw
        (
          run-end k is i s (get_elem?-outside is i h),
          run-end k (moved is) j s (get_elem?-outside (moved is) j g),
        )
        (same_stopped s)
  moved-Same (suc k) is i j s (inside m q) =
      let x =
        get_elem?-some is i
          (omega (arith, is_marked-bound (mark_reachable is) i m, length-mark_reachable is)) in
      let r = remap_from 0 (mark_reachable is) in
      let g : get_elem? (moved is) j ≡ some (retarget r x.0) = ground (
        arith,
        q,
        x.1,
        get_elem?-retarget r (compact (mark_reachable is) is) j,
        get_elem?-compact (mark_reachable is) is i m,
      ) in
      rw
        (
          run-step k is i s x.0 x.1,
          run-step k (moved is) j s (retarget r x.0) g,
          (retarget-op r x.0).0,
          q,
        )
        (step-Same is k (moved-Same k is) i x.0 s m x.1 (flow x.0.op) refl)

  -- The optimized list does, in as many steps, what the original does: it ends in the same state or
  -- stands before an end in the same state.
  pub remove_unreachable_code-Same :
      (k : ℕ) (is : List Inst) (s : S)
      → SameOutcome (run exec cond k is 0 s) (run exec cond k (remove_unreachable_code is).1 0 s)
  unfolding rank
  remove_unreachable_code-Same k is s = elim (remove_unreachable_code-cases is) [
    | inl e ↦ rw e (SameOutcome-refl (run exec cond k is 0 s))
    | inr e ↦ rw e.1 (moved-Same k is 0 0 s (inside (mark_reachable-entry is e.0) refl))
  ]
