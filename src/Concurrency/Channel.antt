-- ===== src/Concurrency/Channel.antt =====
-- src/backend/channel.hh: bounded channels between fibers.
-- A `Fiber*` is an address, and the fibers stand in a store by their addresses, since the wait
-- lists of several channels and the scheduler share them.
pub mod Bounds
pub mod Fifo
pub mod Close
pub mod Blocking
use limitly.Prelude.{
  ℕ, Bool, true, false, not, ◌&&◌, List, [], ◌∷◌, ◌++◌, length, is_empty, leb, ◌==◌, if◌then◌else◌,
}
use limitly.Concurrency.Fiber.{RegisterValue, register_value_default, Fiber, suspend, resume}

pub record Channel : Type 0 where
  pub buffer : List RegisterValue
  pub capacity : ℕ
  pub closed : Bool
  pub waiting_senders : List ℕ
  pub waiting_receivers : List ℕ

abbrev pub channel_new : ℕ → Channel
channel_new cap = record {
  buffer = [];
  capacity = cap;
  closed = false;
  waiting_senders = [];
  waiting_receivers = [];
}

abbrev pub Store : Type 0
Store = ℕ → Fiber

-- `p->f()` for a method that changes the fiber
abbrev pub update : Store → ℕ → (Fiber → Fiber) → Store
update h p f q = if p == q then f (h q) else h q

-- A channel and the store that its fibers live in.
pub record Sys : Type 0 where
  pub chan : Channel
  pub store : Store

-- `if (!waiting.empty()) { front(); pop_front(); resume(); }`
unfoldable pub wake_first : List ℕ → Store → Store
wake_first [] h = h
wake_first (p ∷ _) h = update h p resume

-- `pop_front()` of the same block
abbrev pub rest : List ℕ → List ℕ
rest [] = []
rest (_ ∷ q) = q

-- `while (!waiting.empty()) { … }` of `close`
unfoldable pub wake_all : List ℕ → Store → Store
wake_all [] h = h
wake_all (p ∷ q) h = wake_all q (update h p resume)

-- `buffer.push(value)` with the receiver's wake-up that follows it
unfoldable pub push : RegisterValue → Sys → Sys
unfolding wake_first
push v s = record {
  chan = record (s.chan) {
    buffer = s.chan.buffer ++ (v ∷ []);
    waiting_receivers = rest s.chan.waiting_receivers;
  };
  store = wake_first s.chan.waiting_receivers s.store;
}

-- `buffer.pop()` with the sender's wake-up that follows it; `b` is what is left
unfoldable pub pop_to : List RegisterValue → Sys → Sys
unfolding wake_first
pop_to b s = record {
  chan = record (s.chan) { buffer = b; waiting_senders = rest s.chan.waiting_senders };
  store = wake_first s.chan.waiting_senders s.store;
}

unfoldable pub is_full : Channel → Bool
is_full c = leb c.capacity (length c.buffer)

unfoldable pub offer : RegisterValue → Sys → Sys × Bool
unfolding is_full
offer v s =
    if s.chan.closed then (s, false) else if is_full s.chan then (s, false) else (push v s, true)

-- `out` is the value that `out_value` has before the call.
unfoldable pub poll : RegisterValue → Sys → Sys × Bool × RegisterValue
poll out s = elim (s.chan.buffer) [ [] ↦ (s, false, out) | v ∷ b ↦ (pop_to b s, true, v) ]

-- The body of the `while` loop of `send` returns, so that it runs once at most.
unfoldable pub send : RegisterValue → ℕ → Sys → Sys
unfolding is_full
send v current s =
    if is_full s.chan && not s.chan.closed
    then record {
      chan = record (s.chan) { waiting_senders = s.chan.waiting_senders ++ (current ∷ []) };
      store = update s.store current suspend;
    }
    else if s.chan.closed
    then s
    else push v s

unfoldable pub recv : ℕ → Sys → Sys × RegisterValue
recv current s =
    if is_empty s.chan.buffer && not s.chan.closed
    then (
      record {
        chan = record (s.chan) { waiting_receivers = s.chan.waiting_receivers ++ (current ∷ []) };
        store = update s.store current suspend;
      },
      register_value_default,
    )
    else elim (s.chan.buffer) [ [] ↦ (s, register_value_default) | v ∷ b ↦ (pop_to b s, v) ]

unfoldable pub close : Sys → Sys
close s = record {
  chan = record (s.chan) { closed = true; waiting_senders = []; waiting_receivers = [] };
  store = wake_all s.chan.waiting_senders (wake_all s.chan.waiting_receivers s.store);
}

unfoldable pub has_data : Channel → Bool
has_data c = not (is_empty c.buffer)

unfoldable pub size : Channel → ℕ
size c = length c.buffer

unfoldable pub is_closed : Channel → Bool
is_closed c = c.closed

-- A call on the channel, with the fiber that makes it where the call may block it.
pub data Call : Type 0 where
  offer_call : RegisterValue → Call
  poll_call : Call
  send_call : RegisterValue → ℕ → Call
  recv_call : ℕ → Call
  close_call : Call

unfoldable pub call : Call → Sys → Sys
call (offer_call v) s = (offer v s).0
call poll_call s = (poll register_value_default s).0
call (send_call v p) s = send v p s
call (recv_call p) s = (recv p s).0
call close_call s = close s

-- An interleaving of the calls of all fibers.
unfoldable pub run : List Call → Sys → Sys
run [] s = s
run (c ∷ cs) s = run cs (call c s)
