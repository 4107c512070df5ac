-- ===== src/Concurrency/Channel/Close.antt =====
-- Closing a channel (src/backend/channel.hh): who is woken, and what is still delivered.
use limitly.Prelude.{
  ℕ, ◌≡◌, refl, true, ◌||◌, List, [], ◌∷◌, contains, nat_eq, ==_iff, if◌then◌else◌, arith,
}
use limitly.Concurrency.Fiber.{Fiber, resume, is_suspended}
use limitly.Concurrency.Channel.{
  Store, update, Sys, push, pop_to, offer, poll, send, recv, close, wake_all, Call, offer_call,
  poll_call, send_call, recv_call, close_call, call, run,
}

resume_idem : (f : Fiber) → resume (resume f) ≡ resume f
unfolding resume is_suspended
resume_idem f = ground arith

store-wake_all :
    (q : List ℕ) (h : Store) (p : ℕ) → wake_all q h p ≡ (if contains p q then resume (h p) else h p)
unfolding wake_all contains
store-wake_all [] h p = refl
store-wake_all (r ∷ q) h p =
    ground (arith, store-wake_all q (update h r resume) p, resume_idem (h r), ==_iff r p)

-- `close` resumes each fiber that waits to send or to receive, leaves every other fiber as it was,
-- empties both wait lists and keeps the buffered values.
pub close_lem :
    (s : Sys) (p : ℕ)
    → ((close s).store p ≡ (
        if contains p s.chan.waiting_receivers || contains p s.chan.waiting_senders
        then resume (s.store p)
        else s.store p))
      × ((close s).chan.waiting_senders ≡ [])
      × ((close s).chan.waiting_receivers ≡ [])
      × ((close s).chan.buffer ≡ s.chan.buffer)
unfolding close
close_lem s p = (
  ground (
    arith,
    store-wake_all s.chan.waiting_senders (wake_all s.chan.waiting_receivers s.store) p,
    store-wake_all s.chan.waiting_receivers s.store p,
    resume_idem (s.store p),
  ),
  refl,
  refl,
  refl,
)

-- The channel is closed and nobody waits on it.
pub record IsDrained (s : Sys) : Type 0 where
  pub closed : s.chan.closed ≡ true
  pub senders : s.chan.waiting_senders ≡ []
  pub receivers : s.chan.waiting_receivers ≡ []

call-IsDrained : (c : Call) (s : Sys) → IsDrained s → IsDrained (call c s)
unfolding call offer poll send recv close push pop_to
call-IsDrained (offer_call v) s h = ground arith
call-IsDrained poll_call s h = ground arith
call-IsDrained (send_call v p) s h = ground arith
call-IsDrained (recv_call p) s h = ground arith
call-IsDrained close_call s h = ground arith

run-IsDrained : (cs : List Call) (s : Sys) → IsDrained s → IsDrained (run cs s)
unfolding run
run-IsDrained [] s h = h
run-IsDrained (c ∷ cs) s h = run-IsDrained cs (call c s) (call-IsDrained c s h)

-- Once closed, a channel stays closed and nobody ever waits on it again, whatever is called.
pub run-close-IsDrained : (cs : List Call) (s : Sys) → IsDrained (run cs (close s))
run-close-IsDrained cs s =
    run-IsDrained cs (close s)
      (unfold close in record { closed = refl; senders = refl; receivers = refl })
