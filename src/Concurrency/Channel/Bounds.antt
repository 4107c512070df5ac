-- ===== src/Concurrency/Channel/Bounds.antt =====
-- The buffer of a channel (src/backend/channel.hh) keeps to its capacity.
use limitly.Prelude.{ℕ, ◌≤◌, ◌≡◌, refl, List, [], ◌∷◌, length, length-append, arith}
use limitly.Concurrency.Fiber.{RegisterValue}
use limitly.Concurrency.Channel.{
  Sys, push, pop_to, offer, poll, send, recv, close, Call, offer_call, poll_call, send_call,
  recv_call, close_call, call, run,
}

abbrev pub IsBounded : Sys → Type 0
IsBounded s = length s.chan.buffer ≤ s.chan.capacity

-- A call changes neither the capacity nor the bound.
record Keeps (s t : Sys) : Type 0 where
  bounded : IsBounded t
  capacity : t.chan.capacity ≡ s.chan.capacity

offer-Keeps : (v : RegisterValue) (s : Sys) → IsBounded s → Keeps s (offer v s).0
unfolding offer push
offer-Keeps v s h = ground (arith, length-append s.chan.buffer (v ∷ []))

poll-Keeps : (v : RegisterValue) (s : Sys) → IsBounded s → Keeps s (poll v s).0
unfolding poll pop_to
poll-Keeps v s h = ground arith

send-Keeps : (v : RegisterValue) (p : ℕ) (s : Sys) → IsBounded s → Keeps s (send v p s)
unfolding send push
send-Keeps v p s h = ground (arith, length-append s.chan.buffer (v ∷ []))

recv-Keeps : (p : ℕ) (s : Sys) → IsBounded s → Keeps s (recv p s).0
unfolding recv pop_to
recv-Keeps p s h = ground arith

close-Keeps : (s : Sys) → IsBounded s → Keeps s (close s)
unfolding close
close-Keeps s h = ground arith

call-Keeps : (c : Call) (s : Sys) → IsBounded s → Keeps s (call c s)
unfolding call
call-Keeps (offer_call v) s h = offer-Keeps v s h
call-Keeps poll_call s h = poll-Keeps _ s h
call-Keeps (send_call v p) s h = send-Keeps v p s h
call-Keeps (recv_call p) s h = recv-Keeps p s h
call-Keeps close_call s h = close-Keeps s h

-- Whatever calls the fibers make, and in whatever order, a buffer within its capacity stays within
-- it, and the capacity stays what it was.
pub run-IsBounded :
    (cs : List Call) (s : Sys)
    → IsBounded s
    → IsBounded (run cs s) × ((run cs s).chan.capacity ≡ s.chan.capacity)
unfolding run
run-IsBounded [] s h = (h, refl)
run-IsBounded (c ∷ cs) s h =
    let k = call-Keeps c s h in let r = run-IsBounded cs (call c s) k.bounded in (r.0, ground arith)
