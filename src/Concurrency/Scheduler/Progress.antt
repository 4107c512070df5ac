-- ===== src/Concurrency/Scheduler/Progress.antt =====
-- What the scheduler (src/backend/scheduler.hh) makes of the fibers that it holds.
use limitly.Prelude.{
  ℕ, zero, suc, ◌≤◌, ◌≡◌, refl, true, not, some, List, [], ◌∷◌, ◌++◌, length, get_elem?, is_empty,
  All, All-append, ◌⊎◌, inl, inr, ap, Option-cases, Bool-cases, arith,
}
use limitly.Concurrency.Fiber.{
  TaskContext, FiberState, Fiber, is_running, is_suspended, is_finished, advance_instruction,
  has_more_instructions,
}
use limitly.Concurrency.Scheduler.{
  Scheduler, scheduler_new, find_fiber, get_fiber, add_fiber, suspend_fiber, resume_fiber,
  get_next_fiber, execute_current_fiber_step, wake_task, change_at, run_step, wake_at, wake_from,
  tick, is_due, has_active_fibers, any_active, Step, add, suspend_call, resume_call, next, execute,
  tick_call, Reach, here, step, get_suspended_count,
}
use limitly.Concurrency.Scheduler.Lookup.{find-change_self}
use limitly.Concurrency.Scheduler.Ids.{keeps_run_step}

abbrev IsCreated : Fiber → Type 0
IsCreated f = f.state ≡ FiberState.created

find-IsCreated :
    (id : ℕ) (fs : List Fiber) (f : Fiber)
    → All IsCreated fs
    → find_fiber id fs ≡ some f
    → IsCreated f
unfolding find_fiber
find-IsCreated id [] f h e = cc
find-IsCreated id (g ∷ fs) f h e = ground (arith, find-IsCreated id fs f h.1)

get_elem?-IsCreated :
    (fs : List Fiber) (i : ℕ) (f : Fiber) → All IsCreated fs → get_elem? fs i ≡ some f → IsCreated f
get_elem?-IsCreated [] i f h e = cc
get_elem?-IsCreated (g ∷ fs) zero f h e = ground arith
get_elem?-IsCreated (g ∷ fs) (suc i) f h e = get_elem?-IsCreated fs i f h.1 e

change_at-All :
    (i : ℕ) (fs : List Fiber) → All IsCreated fs → All IsCreated (change_at i wake_task fs)
unfolding change_at wake_task
change_at-All i [] h = tt
change_at-All zero (f ∷ fs) h = (ground arith, h.1)
change_at-All (suc i) (f ∷ fs) h = (h.0, change_at-All i fs h.1)

-- No fiber has run, and none is listed as suspended.
record IsIdle (s : Scheduler) : Type 0 where
  created : All IsCreated s.fibers
  none_suspended : s.suspended_fibers ≡ []

found_created :
    (id : ℕ) (s : Scheduler) (f : Fiber)
    → IsIdle s
    → get_fiber id s ≡ some f
    → f.state ≡ FiberState.created
unfolding get_fiber
found_created id s f h e = find-IsCreated id s.fibers f h.created e

suspend-idle : (id : ℕ) (s : Scheduler) → IsIdle s → suspend_fiber id s ≡ s
unfolding suspend_fiber is_running
suspend-idle id s h = elim (Option-cases (get_fiber id s)) [
  | inl e ↦ ground arith
  | inr (f, e) ↦ ground (arith, found_created id s f h e)
]

resume-idle : (id : ℕ) (s : Scheduler) → IsIdle s → resume_fiber id s ≡ s
unfolding resume_fiber is_suspended
resume-idle id s h = elim (Option-cases (get_fiber id s)) [
  | inl e ↦ ground arith
  | inr (f, e) ↦ ground (arith, found_created id s f h e)
]

execute-idle : (s : Scheduler) → IsIdle s → execute_current_fiber_step s ≡ s
unfolding execute_current_fiber_step is_running
execute-idle s h = elim (Option-cases (get_fiber s.current_fiber_id s)) [
  | inl e ↦ ground arith
  | inr (f, e) ↦ ground (arith, found_created s.current_fiber_id s f h e)
]

abbrev woken : ℕ → Scheduler → Scheduler
woken i s = record s { fibers = change_at i wake_task s.fibers }

woken-IsIdle : (i : ℕ) (s : Scheduler) → IsIdle s → IsIdle (woken i s)
woken-IsIdle i s h = record {
  created = change_at-All i s.fibers h.created;
  none_suspended = h.none_suspended;
}

wake_at-idle : (i : ℕ) (s : Scheduler) → IsIdle s → (wake_at i s ≡ s) ⊎ (wake_at i s ≡ woken i s)
unfolding wake_at is_suspended
wake_at-idle i s h = elim (Option-cases (get_elem? s.fibers i)) [
  | inl e ↦ inl (ground arith)
  | inr (f, e) ↦ elim (Bool-cases (is_due s.current_time f)) [
    | inl d ↦ inr (ground (arith, get_elem?-IsCreated s.fibers i f h.created e))
    | inr d ↦ inl (ground arith)
  ]
]

wake_at-IsIdle : (i : ℕ) (s : Scheduler) → IsIdle s → IsIdle (wake_at i s)
wake_at-IsIdle i s h = elim (wake_at-idle i s h) [
  | inl e ↦ rw e h
  | inr e ↦ rw e (woken-IsIdle i s h)
]

wake_from-IsIdle : (n i : ℕ) (s : Scheduler) → IsIdle s → IsIdle (wake_from n i s)
unfolding wake_from
wake_from-IsIdle zero i s h = h
wake_from-IsIdle (suc n) i s h = wake_from-IsIdle n (suc i) (wake_at i s) (wake_at-IsIdle i s h)

Step-IsIdle : {s t : Scheduler} → Step s t → IsIdle s → IsIdle t
Step-IsIdle {s} (add task) h =
    unfold add_fiber in
    record {
      created = All-append IsCreated s.fibers _ h.created (refl, tt);
      none_suspended = h.none_suspended;
    }
Step-IsIdle {s} (suspend_call id) h = rw (suspend-idle id s h) h
Step-IsIdle {s} (resume_call id) h = rw (resume-idle id s h) h
Step-IsIdle {s} next h = unfold get_next_fiber in ground arith
Step-IsIdle {s} execute h = rw (execute-idle s h) h
Step-IsIdle {s} tick_call h =
    unfold tick in
    wake_from-IsIdle _ 0 _ (record { created = h.created; none_suspended = h.none_suspended })

Reach-IsIdle : {s t : Scheduler} → Reach s t → IsIdle s → IsIdle t
Reach-IsIdle here h = h
Reach-IsIdle (step r st) h = Step-IsIdle st (Reach-IsIdle r h)

any_active-created : (fs : List Fiber) → All IsCreated fs → any_active fs ≡ not (is_empty fs)
unfolding any_active is_finished
any_active-created [] h = refl
any_active-created (f ∷ fs) h = ground arith

-- The scheduler's own calls never start a fiber: from a new scheduler every reachable one executes
-- nothing, has no suspended fiber, and reports active fibers as soon as it holds one.
pub Reach-never_runs :
    {s : Scheduler}
    → Reach scheduler_new s
    → (execute_current_fiber_step s ≡ s)
      × (get_suspended_count s ≡ 0)
      × (has_active_fibers s ≡ not (is_empty s.fibers))
Reach-never_runs {s} r =
    let h = Reach-IsIdle r (record { created = tt; none_suspended = refl }) in
    (
      execute-idle s h,
      unfold get_suspended_count in ap length h.none_suspended,
      unfold has_active_fibers in any_active-created s.fibers h.created,
    )

stepped_running :
    (f : Fiber) (t : TaskContext)
    → is_running f ≡ true
    → f.task_context ≡ some t
    → f.current_instruction ≤ t.body_end_pc
    → run_step f ≡ (advance_instruction f, true)
unfolding is_running has_more_instructions advance_instruction
stepped_running f t r h k = ground arith

-- A running fiber whose counter lies in its body is queued again by every step, and is found
-- afterwards with its counter advanced and not completed, at the end of its body too.
pub execute_requeues :
    (s : Scheduler) (f : Fiber) (t : TaskContext)
    → get_fiber s.current_fiber_id s ≡ some f
    → is_running f ≡ true
    → f.task_context ≡ some t
    → f.current_instruction ≤ t.body_end_pc
    → ((execute_current_fiber_step s).ready_queue ≡ s.ready_queue ++ (s.current_fiber_id ∷ []))
      × (get_fiber s.current_fiber_id (execute_current_fiber_step s) ≡ some (advance_instruction f))
      × (is_running (advance_instruction f) ≡ true)
execute_requeues s f t e r h k =
    let p = stepped_running f t r h k in
    let m : has_more_instructions f ≡ true = unfold has_more_instructions in ground arith in
    let q =
      find-change_self (λ g. (run_step g).0) keeps_run_step s.current_fiber_id s.fibers f
        (unfold get_fiber in e) in
    (
      unfold execute_current_fiber_step in ground arith,
      unfold execute_current_fiber_step get_fiber in ground arith,
      unfold advance_instruction is_running in ground arith,
    )
