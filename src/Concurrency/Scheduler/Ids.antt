-- ===== src/Concurrency/Scheduler/Ids.antt =====
-- The fiber ids of the scheduler (src/backend/scheduler.hh) and the queues that hold them.
pub mod Steps
use limitly.Prelude.{
  ℕ, zero, suc, ◌+◌, ◌-◌, ◌%◌, ◌^◌, ◌≤◌, ◌<◌, ◌≡◌, refl, sym, ap, ◌∙◌, subst, Bool, true, false,
  not, ◌&&◌, Option, none, some, List, [], ◌∷◌, ◌++◌, length, length-append, get_elem?, is_empty,
  All, All-append, All-map, inl, inr, ◌⊎◌, Option-cases, Bool-cases, if◌then◌else◌, ◌==◌, arith,
}
use limitly.Concurrency.Fiber.{
  TaskContext, FiberState, Fiber, fiber_new, is_running, is_suspended, is_finished, suspend, resume,
  increment, advance_instruction, has_more_instructions, complete,
}
use limitly.Concurrency.Scheduler.{
  Scheduler, scheduler_new, find_fiber, get_fiber, change_fiber, add_fiber, suspend_fiber,
  resume_fiber, get_next_fiber, execute_current_fiber_step, wake_task, change_at, wake_at,
  wake_from, tick, is_due, run_step, erase_first, Step, add, suspend_call, resume_call, next,
  execute, tick_call, Reach, here, step,
}
use limitly.Concurrency.Scheduler.Cases.{
  suspending, resuming, executing, waking, suspend_fiber-cases, resume_fiber-cases, execute-cases,
  wake_at-cases,
}
use limitly.Concurrency.Scheduler.Lookup.{length-change}

-- The fibers' ids count up from `k`.
abbrev pub IsNumbered : ℕ → List Fiber → Type 0
IsNumbered k [] = Unit
IsNumbered k (f ∷ fs) = (f.fiber_id ≡ k) × IsNumbered (suc k) fs

abbrev pub IsId : ℕ → ℕ → Type 0
IsId n id = (1 ≤ id) × (id ≤ n)

-- Ids are 1, 2, … in the order of creation, and the queues hold ids of fibers that exist.
pub record HasIds (s : Scheduler) : Type 0 where
  pub numbered : IsNumbered 1 s.fibers
  pub next_id : s.next_fiber_id ≡ length s.fibers + 1
  pub ready : All (IsId (length s.fibers)) s.ready_queue
  pub suspended : All (IsId (length s.fibers)) s.suspended_fibers

find-IsNumbered :
    (k id : ℕ) (fs : List Fiber)
    → IsNumbered k fs
    → k ≤ id
    → id < k + length fs
    → (f : Fiber) × (find_fiber id fs ≡ some f) × (f.fiber_id ≡ id)
unfolding find_fiber
find-IsNumbered k id [] h p q = absurd (omega arith)
find-IsNumbered k id (f ∷ fs) h p q = elim (Bool-cases (f.fiber_id == id)) [
  | inl e ↦ (f, ground arith, ground arith)
  | inr e ↦
      let (g, r, t) = find-IsNumbered (suc k) id fs h.1 (ground arith) (omega arith) in
      (g, ground arith, t)
]

found_bounds :
    (id k : ℕ) (fs : List Fiber) (f : Fiber)
    → find_fiber id fs ≡ some f
    → IsNumbered k fs
    → (k ≤ id) × (id < k + length fs)
unfolding find_fiber
found_bounds id k [] f e h = cc
found_bounds id k (g ∷ fs) f e h = elim (Bool-cases (g.fiber_id == id)) [
  | inl t ↦ (ground arith, ground arith)
  | inr t ↦ let b = found_bounds id (suc k) fs f (ground arith) h.1 in omega arith
]

found-IsId :
    (id : ℕ) (fs : List Fiber) (f : Fiber)
    → find_fiber id fs ≡ some f
    → IsNumbered 1 fs
    → IsId (length fs) id
found-IsId id fs f e h = omega (arith, found_bounds id 1 fs f e h)

IsNumbered-change :
    (g : Fiber → Fiber) (keeps : (f : Fiber) → (g f).fiber_id ≡ f.fiber_id) (id k : ℕ)
    (fs : List Fiber)
    → IsNumbered k fs
    → IsNumbered k (change_fiber id g fs)
unfolding change_fiber
IsNumbered-change g keeps id k [] h = tt
IsNumbered-change g keeps id k (f ∷ fs) h =
    ground (arith, keeps f, IsNumbered-change g keeps id (suc k) fs h.1)

IsNumbered-append :
    (k : ℕ) (fs : List Fiber) (f : Fiber)
    → IsNumbered k fs
    → f.fiber_id ≡ k + length fs
    → IsNumbered k (fs ++ (f ∷ []))
IsNumbered-append k [] f h e = (omega arith, tt)
IsNumbered-append k (g ∷ fs) f h e = (h.0, IsNumbered-append (suc k) fs f h.1 (omega arith))

IsNumbered-change_at :
    (i k : ℕ) (fs : List Fiber) → IsNumbered k fs → IsNumbered k (change_at i wake_task fs)
unfolding change_at wake_task
IsNumbered-change_at i k [] h = tt
IsNumbered-change_at zero k (f ∷ fs) h = (ground arith, h.1)
IsNumbered-change_at (suc i) k (f ∷ fs) h = (h.0, IsNumbered-change_at i (suc k) fs h.1)

length-change_at : (i : ℕ) (fs : List Fiber) → length (change_at i wake_task fs) ≡ length fs
unfolding change_at
length-change_at i [] = refl
length-change_at zero (f ∷ fs) = refl
length-change_at (suc i) (f ∷ fs) = omega (arith, length-change_at i fs)

erase_first-All : (n id : ℕ) (js : List ℕ) → All (IsId n) js → All (IsId n) (erase_first id js)
unfolding erase_first
erase_first-All n id [] h = tt
erase_first-All n id (j ∷ js) h = ground (arith, erase_first-All n id js h.1)

snoc-All : (n id : ℕ) (js : List ℕ) → All (IsId n) js → IsId n id → All (IsId n) (js ++ (id ∷ []))
snoc-All n id js h k = All-append (IsId n) js (id ∷ []) h (k, tt)

grow-All : (n m : ℕ) (js : List ℕ) → n ≤ m → All (IsId n) js → All (IsId m) js
grow-All n m [] p h = tt
grow-All n m (j ∷ js) p h = (omega arith, grow-All n m js p h.1)

pub keeps_suspend : (f : Fiber) → (suspend f).fiber_id ≡ f.fiber_id
unfolding suspend
keeps_suspend f = ground arith

pub keeps_resume : (f : Fiber) → (resume f).fiber_id ≡ f.fiber_id
unfolding resume
keeps_resume f = ground arith

pub keeps_run_step : (f : Fiber) → (run_step f).0.fiber_id ≡ f.fiber_id
unfolding advance_instruction complete
keeps_run_step f = ground arith

-- A change of one fiber that keeps its id, with queues that still hold ids.
change-HasIds :
    (g : Fiber → Fiber) (keeps : (f : Fiber) → (g f).fiber_id ≡ f.fiber_id) (id : ℕ)
    (s t : Scheduler)
    → HasIds s
    → t.fibers ≡ change_fiber id g s.fibers
    → t.next_fiber_id ≡ s.next_fiber_id
    → All (IsId (length s.fibers)) t.ready_queue
    → All (IsId (length s.fibers)) t.suspended_fibers
    → HasIds t
change-HasIds g keeps id s t h e n r p =
    let l : length t.fibers ≡ length s.fibers = ap length e ∙ length-change g id s.fibers in
    record {
      numbered = subst (IsNumbered 1) (sym e) (IsNumbered-change g keeps id 1 s.fibers h.numbered);
      next_id = omega (arith, h.next_id);
      ready = subst (λ k. All (IsId k) t.ready_queue) (sym l) r;
      suspended = subst (λ k. All (IsId k) t.suspended_fibers) (sym l) p;
    }
