-- ===== src/Concurrency/Channel/Fifo.antt =====
-- A channel (src/backend/channel.hh) refines a bounded first-in first-out queue.
use limitly.Prelude.{
  ℕ, ◌≡◌, refl, sym, ◌∙◌, ap, Option, none, some, List, [], ◌∷◌, ◌++◌, append-nil, append_assoc,
  length, length-append, ltb, ◌==◌, if◌then◌else◌, arith,
}
use limitly.Concurrency.Fiber.{RegisterValue, register_value_default}
use limitly.Concurrency.Channel.{
  Sys, push, pop_to, offer, poll, send, recv, close, Call, offer_call, poll_call, send_call,
  recv_call, close_call, call, run,
}

-- What an abstract queue does: a value enters, or a value leaves.
pub data Event : Type 0 where
  put : RegisterValue → Event
  take : RegisterValue → Event

-- The queue that holds at most `cap` values; `none` where an event cannot happen.
unfoldable pub replay : ℕ → List Event → List RegisterValue → Option (List RegisterValue)
replay cap [] q = some q
replay cap (put v ∷ es) q = if ltb (length q) cap then replay cap es (q ++ (v ∷ [])) else none
replay cap (take v ∷ es) [] = none
replay cap (take v ∷ es) (w ∷ q) = if w == v then replay cap es q else none

-- What a caller of the channel observes: the answers of `offer` and `poll`, the value that `recv`
-- returns, and whether the buffer grew or shrank in a blocking call.
unfoldable pub events : Call → Sys → List Event
events (offer_call v) s = if (offer v s).1 then put v ∷ [] else []
events poll_call s =
    let (_, found, v) = poll register_value_default s in if found then take v ∷ [] else []
events (send_call v p) s =
    if ltb (length s.chan.buffer) (length (send v p s).chan.buffer) then put v ∷ [] else []
events (recv_call p) s =
    let (t, v) = recv p s in
    if ltb (length t.chan.buffer) (length s.chan.buffer) then take v ∷ [] else []
events close_call s = []

unfoldable pub history : List Call → Sys → List Event
history [] s = []
history (c ∷ cs) s = events c s ++ history cs (call c s)

module _ (es : List Event) (s : Sys) where
  abbrev Replays : List Event → Sys → Type 0
  Replays seen t =
      replay s.chan.capacity (seen ++ es) s.chan.buffer ≡ replay s.chan.capacity es t.chan.buffer

  replay-offer : (v : RegisterValue) → Replays (events (offer_call v) s) (offer v s).0
  unfolding replay events offer push
  replay-offer v = ground arith

  replay-poll : Replays (events poll_call s) (poll register_value_default s).0
  unfolding replay events poll pop_to
  replay-poll = ground arith

  replay-send : (v : RegisterValue) (p : ℕ) → Replays (events (send_call v p) s) (send v p s)
  unfolding replay events send push
  replay-send v p = ground (arith, length-append s.chan.buffer (v ∷ []))

  replay-recv : (p : ℕ) → Replays (events (recv_call p) s) (recv p s).0
  unfolding replay events recv pop_to
  replay-recv p = ground arith

  replay-call : (c : Call) → Replays (events c s) (call c s)
  unfolding call
  replay-call (offer_call v) = replay-offer v
  replay-call poll_call = replay-poll
  replay-call (send_call v p) = replay-send v p
  replay-call (recv_call p) = replay-recv p
  replay-call close_call = unfold events close in refl

capacity-call : (c : Call) (s : Sys) → (call c s).chan.capacity ≡ s.chan.capacity
unfolding call offer poll send recv close push pop_to
capacity-call (offer_call v) s = ground arith
capacity-call poll_call s = ground arith
capacity-call (send_call v p) s = ground arith
capacity-call (recv_call p) s = ground arith
capacity-call close_call s = refl

pub replay-history :
    (cs : List Call) (s : Sys)
    → replay s.chan.capacity (history cs s) s.chan.buffer ≡ some (run cs s).chan.buffer
unfolding history run
replay-history [] s = unfold replay in refl
replay-history (c ∷ cs) s =
    replay-call (history cs (call c s)) s c
    ∙ ap (λ k. replay k (history cs (call c s)) (call c s).chan.buffer) (sym (capacity-call c s))
    ∙ replay-history cs (call c s)

unfoldable pub puts : List Event → List RegisterValue
puts [] = []
puts (put v ∷ es) = v ∷ puts es
puts (take v ∷ es) = puts es

unfoldable pub takes : List Event → List RegisterValue
takes [] = []
takes (put v ∷ es) = takes es
takes (take v ∷ es) = v ∷ takes es

replay-order :
    (cap : ℕ) (es : List Event) (q r : List RegisterValue)
    → replay cap es q ≡ some r
    → q ++ puts es ≡ takes es ++ r
unfolding replay puts takes
replay-order cap [] q r h = rw append-nil (ground arith)
replay-order cap (put v ∷ es) q r h =
    (rw append_assoc) ∙ replay-order cap es (q ++ (v ∷ [])) r (ground arith)
replay-order cap (take v ∷ es) [] r h = cc
replay-order cap (take v ∷ es) (w ∷ q) r h = ground (arith, replay-order cap es q r)

-- No value is lost, made up or overtaken: the values that were in the buffer and those that
-- entered it are, in order, the values that left it and those that are in it now.
pub puts-takes :
    (cs : List Call) (s : Sys)
    → s.chan.buffer ++ puts (history cs s) ≡ takes (history cs s) ++ (run cs s).chan.buffer
puts-takes cs s = replay-order s.chan.capacity (history cs s) _ _ (replay-history cs s)
