-- ===== src/Concurrency/Fiber/Laws.antt =====
-- The life cycle of a fiber (src/backend/fiber.hh): its calls as a step relation.
use limitly.Prelude.{◌≤◌, ◌≡◌, true, some, if◌then◌else◌, arith}
use limitly.Concurrency.Fiber.{
  TaskContext, Fiber, is_running, is_finished, suspend, resume, advance_instruction,
  has_more_instructions, increment,
}

-- The calls by which the scheduler and the channels move a fiber, `complete` and `fail` apart.
pub data Runs (f : Fiber) : Fiber → Type 0 where
  here : Runs f f
  then_suspend : {g : Fiber} → Runs f g → Runs f (suspend g)
  then_resume : {g : Fiber} → Runs f g → Runs f (resume g)
  then_advance : {g : Fiber} → Runs f g → Runs f (advance_instruction g)

-- The program counter lies in the body of the fiber's task.
pub record IsInBody (t : TaskContext) (f : Fiber) : Type 0 where
  pub has_task : f.task_context ≡ some t
  pub within : f.current_instruction ≤ t.body_end_pc

module _ {t : TaskContext} where
  suspend-IsInBody : {f : Fiber} → IsInBody t f → IsInBody t (suspend f)
  unfolding suspend
  suspend-IsInBody v = ground arith

  resume-IsInBody : {f : Fiber} → IsInBody t f → IsInBody t (resume f)
  unfolding resume
  resume-IsInBody v = ground arith

  advance-IsInBody : {f : Fiber} → IsInBody t f → IsInBody t (advance_instruction f)
  unfolding advance_instruction
  advance-IsInBody v = ground arith

  Runs-IsInBody : {f g : Fiber} → IsInBody t f → Runs f g → IsInBody t g
  Runs-IsInBody v here = v
  Runs-IsInBody v (then_suspend r) = suspend-IsInBody (Runs-IsInBody v r)
  Runs-IsInBody v (then_resume r) = resume-IsInBody (Runs-IsInBody v r)
  Runs-IsInBody v (then_advance r) = advance-IsInBody (Runs-IsInBody v r)

  IsInBody-has_more : {f : Fiber} → IsInBody t f → has_more_instructions f ≡ true
  unfolding has_more_instructions
  IsInBody-has_more v = ground arith

-- A fiber whose counter lies in its task's body has more instructions after any sequence of
-- suspensions, resumptions and advances: `advance_instruction` stops at `body_end_pc`, where
-- `has_more_instructions` still answers yes.
pub Runs-has_more_instructions :
    (t : TaskContext) (f g : Fiber)
    → f.task_context ≡ some t
    → f.current_instruction ≤ t.body_end_pc
    → Runs f g
    → has_more_instructions g ≡ true
Runs-has_more_instructions t f g h k r =
    IsInBody-has_more (Runs-IsInBody (record { has_task = h; within = k }) r)

-- A suspension followed by a resumption gives a running fiber back with one more suspension
-- counted, and changes nothing in a fiber that is neither running nor suspended.
pub resume-suspend :
    (f : Fiber)
    → resume (suspend f)
      ≡ (if is_running f then record f { suspend_count = increment f.suspend_count } else resume f)
unfolding resume suspend is_running
resume-suspend f = ground arith

-- A finished fiber stays as it is under `suspend` and `resume`.
pub finished_absorbs : (f : Fiber) → is_finished f ≡ true → (suspend f ≡ f) × (resume f ≡ f)
unfolding is_finished suspend resume
finished_absorbs f h = ground arith
