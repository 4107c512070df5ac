-- ===== src/Concurrency/Scheduler/Cases.antt =====
-- The calls of the scheduler (src/backend/scheduler.hh) by cases: a call changes nothing, or it
-- finds a fiber that passes its test and does its work.
use limitly.Prelude.{
  ℕ, ◌≡◌, ◌⊎◌, inl, inr, true, ◌&&◌, some, [], ◌∷◌, ◌++◌, get_elem?, if◌then◌else◌, Option-cases,
  Bool-cases, arith,
}
use limitly.Concurrency.Fiber.{
  Fiber, is_running, is_suspended, suspend, resume, has_more_instructions,
}
use limitly.Concurrency.Scheduler.{
  Scheduler, get_fiber, find_fiber, change_fiber, change_at, erase_first, suspend_fiber,
  resume_fiber, run_step, execute_current_fiber_step, wake_task, wake_at, is_due,
}

abbrev pub suspending : ℕ → Scheduler → Scheduler
suspending id s = record s {
  fibers = change_fiber id suspend s.fibers;
  suspended_fibers = s.suspended_fibers ++ (id ∷ []);
}

abbrev pub resuming : ℕ → Scheduler → Scheduler
resuming id s = record s {
  fibers = change_fiber id resume s.fibers;
  ready_queue = s.ready_queue ++ (id ∷ []);
  suspended_fibers = erase_first id s.suspended_fibers;
}

abbrev pub executing : Fiber → Scheduler → Scheduler
executing f s = record s {
  fibers = change_fiber s.current_fiber_id (λ g. (run_step g).0) s.fibers;
  ready_queue =
      if (run_step f).1 then s.ready_queue ++ (s.current_fiber_id ∷ []) else s.ready_queue;
}

abbrev pub waking : ℕ → Scheduler → Scheduler
waking i s = record s { fibers = change_at i wake_task s.fibers }

pub suspend_fiber-cases :
    (id : ℕ) (s : Scheduler)
    → (suspend_fiber id s ≡ s)
      ⊎ ((f : Fiber) × (find_fiber id s.fibers ≡ some f)
          × (is_running f ≡ true)
          × (suspend_fiber id s ≡ suspending id s))
unfolding suspend_fiber get_fiber
suspend_fiber-cases id s = elim (Option-cases (find_fiber id s.fibers)) [
  | inl e ↦ inl (ground arith)
  | inr (f, e) ↦ elim (Bool-cases (is_running f)) [
    | inl r ↦ inr (f, e, r, ground arith)
    | inr r ↦ inl (ground arith)
  ]
]

pub resume_fiber-cases :
    (id : ℕ) (s : Scheduler)
    → (resume_fiber id s ≡ s)
      ⊎ ((f : Fiber) × (find_fiber id s.fibers ≡ some f)
          × (is_suspended f ≡ true)
          × (resume_fiber id s ≡ resuming id s))
unfolding resume_fiber get_fiber
resume_fiber-cases id s = elim (Option-cases (find_fiber id s.fibers)) [
  | inl e ↦ inl (ground arith)
  | inr (f, e) ↦ elim (Bool-cases (is_suspended f)) [
    | inl r ↦ inr (f, e, r, ground arith)
    | inr r ↦ inl (ground arith)
  ]
]

pub execute-cases :
    (s : Scheduler)
    → (execute_current_fiber_step s ≡ s)
      ⊎ ((f : Fiber) × (find_fiber s.current_fiber_id s.fibers ≡ some f)
          × (is_running f ≡ true)
          × (execute_current_fiber_step s ≡ executing f s))
unfolding execute_current_fiber_step get_fiber
execute-cases s = elim (Option-cases (find_fiber s.current_fiber_id s.fibers)) [
  | inl e ↦ inl (ground arith)
  | inr (f, e) ↦ elim (Bool-cases (is_running f && has_more_instructions f)) [
    | inl r ↦ inr (f, e, ground arith, ground arith)
    | inr r ↦ inl (ground arith)
  ]
]

pub wake_at-cases :
    (i : ℕ) (s : Scheduler)
    → (wake_at i s ≡ s)
      ⊎ (wake_at i s ≡ waking i s)
      ⊎ ((id : ℕ) × (wake_at i s ≡ resume_fiber id (waking i s)))
unfolding wake_at
wake_at-cases i s = elim (Option-cases (get_elem? s.fibers i)) [
  | inl e ↦ inl (ground arith)
  | inr (f, e) ↦ elim (Bool-cases (is_due s.current_time f)) [
    | inr d ↦ inl (ground arith)
    | inl d ↦ elim (Bool-cases (is_suspended f)) [
      | inl r ↦ inr (inr (f.fiber_id, ground arith))
      | inr r ↦ inr (inl (ground arith))
    ]
  ]
]
