-- ===== src/Concurrency/Scheduler.antt =====
-- src/backend/scheduler.hh: the scheduler of fibers.
-- A task context is owned by the scheduler and pointed to by its fiber alone (`add_fiber` takes it
-- by `unique_ptr`), so it stands in the fiber.
pub mod Lookup
pub mod Cases
pub mod Ids
pub mod Suspended
pub mod Progress
use limitly.Prelude.{
  ℕ, zero, suc, ◌+◌, ◌-◌, Bool, true, false, not, ◌&&◌, ◌||◌, Option, none, some, List, [], ◌∷◌,
  ◌++◌, length, get_elem?, is_empty, leb, ◌==◌, if◌then◌else◌,
}
use limitly.Concurrency.Fiber.{
  TaskState, TaskContext, increment, Fiber, fiber_new, is_running, is_suspended, is_finished,
  suspend, resume, complete, advance_instruction, has_more_instructions,
}

pub record Scheduler : Type 0 where
  pub fibers : List Fiber
  pub ready_queue : List ℕ
  pub suspended_fibers : List ℕ
  pub current_time : ℕ
  pub next_fiber_id : ℕ
  pub current_fiber_id : ℕ

-- `Scheduler()`
abbrev pub scheduler_new : Scheduler
scheduler_new = record {
  fibers = [];
  ready_queue = [];
  suspended_fibers = [];
  current_time = 0;
  next_fiber_id = 1;
  current_fiber_id = 0;
}

-- `get_fiber`: the first fiber with the id.
unfoldable pub find_fiber : ℕ → List Fiber → Option Fiber
find_fiber id [] = none
find_fiber id (f ∷ fs) = if f.fiber_id == id then some f else find_fiber id fs

-- A change through the pointer that `get_fiber` returns.
unfoldable pub change_fiber : ℕ → (Fiber → Fiber) → List Fiber → List Fiber
change_fiber id g [] = []
change_fiber id g (f ∷ fs) = if f.fiber_id == id then g f ∷ fs else f ∷ change_fiber id g fs

unfoldable pub get_fiber : ℕ → Scheduler → Option Fiber
get_fiber id s = find_fiber id s.fibers

-- `vector::erase(std::find(…))`: the first occurrence.
unfoldable pub erase_first : ℕ → List ℕ → List ℕ
erase_first id [] = []
erase_first id (j ∷ js) = if j == id then js else j ∷ erase_first id js

unfoldable pub add_fiber : Option TaskContext → Scheduler → Scheduler × ℕ
add_fiber task s =
    let id = s.next_fiber_id in
    (
      record s {
        fibers = s.fibers ++ (fiber_new id task ∷ []);
        ready_queue = s.ready_queue ++ (id ∷ []);
        next_fiber_id = increment s.next_fiber_id;
      },
      id,
    )

unfoldable pub suspend_fiber : ℕ → Scheduler → Scheduler
suspend_fiber id s = elim (get_fiber id s) [
  | none ↦ s
  | some f ↦
      if is_running f
      then record s {
        fibers = change_fiber id suspend s.fibers;
        suspended_fibers = s.suspended_fibers ++ (id ∷ []);
      }
      else s
]

unfoldable pub resume_fiber : ℕ → Scheduler → Scheduler
resume_fiber id s = elim (get_fiber id s) [
  | none ↦ s
  | some f ↦
      if is_suspended f
      then record s {
        fibers = change_fiber id resume s.fibers;
        ready_queue = s.ready_queue ++ (id ∷ []);
        suspended_fibers = erase_first id s.suspended_fibers;
      }
      else s
]

unfoldable pub get_next_fiber : Scheduler → Scheduler × Option Fiber
get_next_fiber s = elim (s.ready_queue) [
  | [] ↦ (s, none)
  | id ∷ q ↦ (record s { ready_queue = q; current_fiber_id = id }, get_fiber id s)
]

-- What a step does to the fiber that runs, and whether it is queued again.
abbrev pub run_step : Fiber → Fiber × Bool
run_step f =
    let g = advance_instruction f in
    if has_more_instructions g then (g, true) else (complete g, false)

unfoldable pub execute_current_fiber_step : Scheduler → Scheduler
execute_current_fiber_step s = elim (get_fiber s.current_fiber_id s) [
  | none ↦ s
  | some f ↦
      if is_running f && has_more_instructions f
      then record s {
        fibers = change_fiber s.current_fiber_id (λ g. (run_step g).0) s.fibers;
        ready_queue =
            if (run_step f).1 then s.ready_queue ++ (s.current_fiber_id ∷ []) else s.ready_queue;
      }
      else s
]

abbrev is_sleeping : TaskState → Bool
is_sleeping TaskState.sleeping = true
is_sleeping _ = false

-- The test of `tick` on a fiber's task, at a time.
unfoldable pub is_due : ℕ → Fiber → Bool
is_due now f = elim (f.task_context) [
  | none ↦ false
  | some t ↦ is_sleeping t.state && leb t.sleep_until now
]

unfoldable pub wake_task : Fiber → Fiber
wake_task f = elim (f.task_context) [
  | none ↦ f
  | some t ↦ record f { task_context = some (record t { state = TaskState.running }) }
]

unfoldable pub change_at : ℕ → (Fiber → Fiber) → List Fiber → List Fiber
change_at i g [] = []
change_at zero g (f ∷ fs) = g f ∷ fs
change_at (suc i) g (f ∷ fs) = f ∷ change_at i g fs

-- The body of the loop of `tick`, for the fiber at position `i`.
unfoldable pub wake_at : ℕ → Scheduler → Scheduler
wake_at i s = elim (get_elem? s.fibers i) [
  | none ↦ s
  | some f ↦
      let woken = record s { fibers = change_at i wake_task s.fibers } in
      if is_due s.current_time f
      then if is_suspended f then resume_fiber f.fiber_id woken else woken
      else s
]

-- `n` rounds of the loop, from position `i`.
unfoldable pub wake_from : ℕ → ℕ → Scheduler → Scheduler
wake_from zero i s = s
wake_from (suc n) i s = wake_from n (suc i) (wake_at i s)

unfoldable pub tick : Scheduler → Scheduler
tick s = wake_from (length s.fibers) 0 (record s { current_time = increment s.current_time })

unfoldable pub has_runnable_fibers : Scheduler → Bool
has_runnable_fibers s = not (is_empty s.ready_queue) || not (is_empty s.suspended_fibers)

unfoldable pub any_active : List Fiber → Bool
any_active [] = false
any_active (f ∷ fs) = not (is_finished f) || any_active fs

unfoldable pub has_active_fibers : Scheduler → Bool
has_active_fibers s = any_active s.fibers

unfoldable pub get_current_fiber : Scheduler → Option Fiber
get_current_fiber s = get_fiber s.current_fiber_id s

unfoldable pub get_total_fibers : Scheduler → ℕ
get_total_fibers s = length s.fibers

unfoldable pub get_ready_count : Scheduler → ℕ
get_ready_count s = length s.ready_queue

unfoldable pub get_suspended_count : Scheduler → ℕ
get_suspended_count s = length s.suspended_fibers

-- The calls by which the rest of the program moves the scheduler, as a step relation.
pub data Step (s : Scheduler) : Scheduler → Type 0 where
  add : (task : Option TaskContext) → Step s (add_fiber task s).0
  suspend_call : (id : ℕ) → Step s (suspend_fiber id s)
  resume_call : (id : ℕ) → Step s (resume_fiber id s)
  next : Step s (get_next_fiber s).0
  execute : Step s (execute_current_fiber_step s)
  tick_call : Step s (tick s)

pub data Reach (s : Scheduler) : Scheduler → Type 0 where
  here : Reach s s
  step : {t u : Scheduler} → Reach s t → Step t u → Reach s u
