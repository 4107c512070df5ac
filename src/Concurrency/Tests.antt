-- ===== src/Concurrency/Tests.antt =====
-- The fibers, channels and schedulers of src/backend at concrete inputs.
use limitly.Prelude.{
  ℕ, ◌≡◌, refl, true, false, List, [], ◌∷◌, ◌++◌, some, contains, nat_eq, if◌then◌else◌, ◌||◌,
  arith,
}
use limitly.Concurrency.Fiber.{
  task_context_new, TaskContext, FiberState, Fiber, fiber_new, suspend, resume, is_running,
  is_suspended, advance_instruction,
}
use limitly.Concurrency.Channel.{
  channel_new, Store, Sys, push, pop_to, wake_all, offer, poll, send, recv, close, Call, offer_call,
  poll_call, send_call, recv_call, close_call, call, run,
}
use limitly.Concurrency.Channel.Bounds.{IsBounded, run-IsBounded}
use limitly.Concurrency.Channel.Fifo.{events, history, takes}
use limitly.Concurrency.Channel.Close.{IsDrained, close_lem, run-close-IsDrained}
use limitly.Concurrency.Channel.Blocking.{send-full_forgets}
use limitly.Concurrency.Scheduler.{
  Scheduler, scheduler_new, add_fiber, suspend_fiber, get_fiber, find_fiber,
  execute_current_fiber_step, has_active_fibers, get_suspended_count, add, suspend_call, Reach,
  step,
}
use limitly.Concurrency.Scheduler.Lookup.{suspended_in}
use limitly.Concurrency.Scheduler.Ids.{HasIds}
use limitly.Concurrency.Scheduler.Ids.Steps.{Reach-HasIds}
use limitly.Concurrency.Scheduler.Suspended.{IsExact, Step-IsExact}
use limitly.Concurrency.Scheduler.Progress.{Reach-never_runs, execute_requeues}

-- A task whose body is the instructions 4 to 6.
abbrev task : TaskContext
task = record task_context_new { task_id = 7; body_start_pc = 4; body_end_pc = 6 }

abbrev worker : ℕ → Fiber
worker id = record (fiber_new id (some task)) { state = FiberState.running }

abbrev fibers : Store
fibers = worker

abbrev opened : ℕ → Sys
opened cap = record { chan = channel_new cap; store = fibers }

-- One value in a channel of capacity 1, with a sender and a receiver that wait.
abbrev crowded : Sys
crowded = record {
  chan = record {
    buffer = 5 ∷ [];
    capacity = 1;
    closed = false;
    waiting_senders = 2 ∷ [];
    waiting_receivers = 3 ∷ [];
  };
  store = λ p. suspend (worker p);
}

abbrev calls : List Call
calls =
    offer_call 8
    ∷ send_call 9 1
    ∷ offer_call 10
    ∷ recv_call 2
    ∷ poll_call
    ∷ poll_call
    ∷ close_call
    ∷ offer_call 11
    ∷ []

taken_in_order : takes (history calls (opened 2)) ≡ 8 ∷ 9 ∷ []
unfolding takes history events offer send recv poll push pop_to call close wake_all
taken_in_order = refl

run-IsBounded_example :
    IsBounded (run calls (opened 2)) × ((run calls (opened 2)).chan.capacity ≡ 2)
run-IsBounded_example = run-IsBounded calls (opened 2) (omega arith)

close_lem_example :
    ((close crowded).store 2 ≡ (
      if contains {K = ℕ} 2 (3 ∷ []) || contains {K = ℕ} 2 (2 ∷ [])
      then resume (suspend (worker 2))
      else suspend (worker 2)))
    × ((close crowded).chan.waiting_senders ≡ [])
    × ((close crowded).chan.waiting_receivers ≡ [])
    × ((close crowded).chan.buffer ≡ 5 ∷ [])
close_lem_example = close_lem crowded 2

run-close-IsDrained_example : IsDrained (run calls (close crowded))
run-close-IsDrained_example = run-close-IsDrained calls crowded

-- A full channel of capacity 1 with nobody waiting.
abbrev full : Sys
full = record { chan = record (channel_new 1) { buffer = 5 ∷ [] }; store = worker }

send-full_forgets_example :
    ((send 6 4 full).store 4 ≡ suspend (worker 4))
    × ((send 6 4 full).chan.waiting_senders ≡ 4 ∷ [])
    × ((poll 0 (send 6 4 full)).2 ≡ 5)
    × ((poll 0 (send 6 4 full)).0.chan ≡ (poll 0 full).0.chan)
    × ((poll 0 (send 6 4 full)).0.store 4 ≡ resume (suspend (worker 4)))
    × (run calls (send 6 4 full) ≡ run calls (send 7 4 full))
send-full_forgets_example = send-full_forgets 6 7 0 5 4 4 [] calls full refl (omega arith) refl refl

abbrev one_fiber : Scheduler
one_fiber = record {
  fibers = fiber_new 1 (some task) ∷ [];
  ready_queue = 1 ∷ [];
  suspended_fibers = [];
  current_time = 0;
  next_fiber_id = 2;
  current_fiber_id = 0;
}

one_fiber_reached : Reach scheduler_new one_fiber
unfolding add_fiber
one_fiber_reached = step Reach.here (add (some task))

Reach-HasIds_example : HasIds one_fiber
Reach-HasIds_example = Reach-HasIds one_fiber_reached (omega arith)

Reach-never_runs_example :
    (execute_current_fiber_step one_fiber ≡ one_fiber)
    × (get_suspended_count one_fiber ≡ 0)
    × (has_active_fibers one_fiber ≡ true)
Reach-never_runs_example = Reach-never_runs one_fiber_reached

-- A fiber at the end of its body, the current one.
abbrev at_end : Fiber
at_end = record (worker 1) { current_instruction = 6 }

abbrev busy : Scheduler
busy = record one_fiber { fibers = at_end ∷ []; current_fiber_id = 1; ready_queue = [] }

execute_requeues_example :
    ((execute_current_fiber_step busy).ready_queue ≡ [] ++ (1 ∷ []))
    × (get_fiber 1 (execute_current_fiber_step busy) ≡ some (advance_instruction at_end))
    × (is_running (advance_instruction at_end) ≡ true)
unfolding get_fiber find_fiber is_running
execute_requeues_example = execute_requeues busy at_end task refl refl refl (omega arith)

busy-IsExact : IsExact busy
unfolding contains suspended_in is_suspended
busy-IsExact = record { listed = λ j. ground arith; once = tt }

Step-IsExact_example : IsExact (suspend_fiber 1 busy)
Step-IsExact_example = Step-IsExact {s = busy} (suspend_call 1) busy-IsExact
