-- ===== src/Concurrency/Fiber.antt =====
-- src/backend/task.hh and src/backend/fiber.hh: task contexts and fibers.
-- A `uint64_t` is a native number; an `int64_t` program counter is the number that it is compared as
-- (`current_instruction < body_end_pc` converts the counter to `uint64_t`), so -1 is 2^64 - 1.
pub mod Laws
use limitly.Prelude.{
  ℕ, ◌+◌, ◌-◌, ◌%◌, ◌^◌, Bool, true, false, ◌||◌, List, [], Option, none, some, ltb, leb,
  if◌then◌else◌,
}

-- `RegisterValue`, a tagged 64-bit word.
abbrev pub RegisterValue : Type 0
RegisterValue = ℕ

-- `VAL_NIL`, `((LmValue)(0 << 3) | TAG_IMMEDIATE)`
abbrev pub val_nil : RegisterValue
val_nil = 2

-- The value of `RegisterValue()`.
abbrev pub register_value_default : RegisterValue
register_value_default = 0

-- One step of a `uint64_t` counter.
abbrev pub increment : ℕ → ℕ
increment n = (n + 1) % 2 ^ 64

pub data TaskState : Type 0 where
  init running sleeping completed : TaskState

pub record TaskContext : Type 0 where
  pub state : TaskState
  pub task_id : ℕ
  pub sleep_until : ℕ
  pub counter : ℕ
  pub channel_ptr : RegisterValue
  pub fields : List (ℕ × RegisterValue)
  pub body_start_pc : ℕ
  pub body_end_pc : ℕ

-- `TaskContext()`
abbrev pub task_context_new : TaskContext
task_context_new = record {
  state = TaskState.init;
  task_id = 0;
  sleep_until = 0;
  counter = 0;
  channel_ptr = val_nil;
  fields = [];
  body_start_pc = 2 ^ 64 - 1;
  body_end_pc = 2 ^ 64 - 1;
}

pub data FiberState : Type 0 where
  created running suspended completed failed : FiberState

pub record Fiber : Type 0 where
  pub fiber_id : ℕ
  pub state : FiberState
  pub task_context : Option TaskContext
  pub current_instruction : ℕ
  pub suspend_count : ℕ
  pub stack_pointer : ℕ
  pub stack_size : ℕ

-- `Fiber(id, context)`; a null context leaves the instruction at 0.
abbrev pub fiber_new : ℕ → Option TaskContext → Fiber
fiber_new id context = record {
  fiber_id = id;
  state = FiberState.created;
  task_context = context;
  current_instruction = elim context [ none ↦ 0 | some t ↦ t.body_start_pc ];
  suspend_count = 0;
  stack_pointer = 0;
  stack_size = 0;
}

abbrev state_is_running : FiberState → Bool
state_is_running FiberState.running = true
state_is_running _ = false

abbrev state_is_suspended : FiberState → Bool
state_is_suspended FiberState.suspended = true
state_is_suspended _ = false

abbrev state_is_completed : FiberState → Bool
state_is_completed FiberState.completed = true
state_is_completed _ = false

abbrev state_is_failed : FiberState → Bool
state_is_failed FiberState.failed = true
state_is_failed _ = false

unfoldable pub is_running : Fiber → Bool
is_running f = state_is_running f.state

unfoldable pub is_suspended : Fiber → Bool
is_suspended f = state_is_suspended f.state

unfoldable pub is_completed : Fiber → Bool
is_completed f = state_is_completed f.state

unfoldable pub is_failed : Fiber → Bool
is_failed f = state_is_failed f.state

unfoldable pub is_finished : Fiber → Bool
unfolding is_completed is_failed
is_finished f = is_completed f || is_failed f

unfoldable pub suspend : Fiber → Fiber
unfolding is_running
suspend f =
    if is_running f
    then record f { state = FiberState.suspended; suspend_count = increment f.suspend_count }
    else f

unfoldable pub resume : Fiber → Fiber
unfolding is_suspended
resume f = if is_suspended f then record f { state = FiberState.running } else f

unfoldable pub complete : Fiber → Fiber
complete f = record f { state = FiberState.completed }

unfoldable pub fail : Fiber → Fiber
fail f = record f { state = FiberState.failed }

unfoldable pub get_next_instruction : Fiber → ℕ
get_next_instruction f = f.current_instruction

unfoldable pub advance_instruction : Fiber → Fiber
advance_instruction f = elim f.task_context [
  | none ↦ f
  | some t ↦
      if ltb f.current_instruction t.body_end_pc
      then record f { current_instruction = increment f.current_instruction }
      else f
]

unfoldable pub has_more_instructions : Fiber → Bool
has_more_instructions f = elim f.task_context [
  | none ↦ false
  | some t ↦ leb f.current_instruction t.body_end_pc
]
