-- ===== src/Concurrency/Channel/Blocking.antt =====
-- The blocking calls of a channel (src/backend/channel.hh): what a call that blocks leaves, and how
-- they follow the calls that do not block.
use limitly.Prelude.{
  Bool, sym, ap, ◌∙◌, List, ◌==◌, if◌then◌else◌, refl, ℕ, ◌≤◌, ◌≡◌, true, false, [], ◌∷◌, ◌++◌,
  length, arith,
}
use limitly.Concurrency.Fiber.{RegisterValue, Fiber, suspend, resume}
use limitly.Concurrency.Channel.{
  Sys, update, wake_first, pop_to, send, recv, offer, poll, Call, run,
}

-- The state with the fiber queued and suspended.
abbrev blocked : ℕ → Sys → Sys
blocked p s = record {
  chan = record (s.chan) { waiting_senders = s.chan.waiting_senders ++ (p ∷ []) };
  store = update s.store p suspend;
}

send-blocks :
    (v : RegisterValue) (p : ℕ) (s : Sys)
    → s.chan.capacity ≤ length s.chan.buffer
    → s.chan.closed ≡ false
    → send v p s ≡ blocked p s
unfolding send
send-blocks v p s h k = ground arith

resumed :
    (c : Bool) (f : Fiber)
    → (if c then resume (if c then suspend f else f) else if c then suspend f else f)
      ≡ (if c then resume (suspend f) else f)
resumed true f = refl
resumed false f = refl

-- The poll after it.
module _ (out x : RegisterValue) (p : ℕ) (b : List RegisterValue) (s : Sys)
    (e : s.chan.buffer ≡ x ∷ b) where
  polled_value : (poll out (blocked p s)).2 ≡ x
  unfolding poll
  polled_value = rw e refl

  polled_chan : s.chan.waiting_senders ≡ [] → (poll out (blocked p s)).0.chan ≡ (poll out s).0.chan
  unfolding poll pop_to
  polled_chan n = rw (e, n) refl

  polled_store :
      (q : ℕ)
      → s.chan.waiting_senders ≡ []
      → (poll out (blocked p s)).0.store q
        ≡ (if p == q then resume (suspend (s.store q)) else s.store q)
  unfolding poll pop_to wake_first
  polled_store q n = rw (e, n) (resumed (p == q) (s.store q))

-- A blocking send that finds an open channel full, with a value at the front of the buffer and no other
-- sender waiting, suspends its fiber and queues it, and leaves the other fibers alone. The poll that
-- follows takes the front value and resumes the sender, and yet the channel is then as if there had
-- been no send: the value is not in it and nobody waits to send it. Whatever is called after the send,
-- the outcome is the same for any other value.
pub send-full_forgets :
    (v w out x : RegisterValue) (p q : ℕ) (b : List RegisterValue) (cs : List Call) (s : Sys)
    → s.chan.buffer ≡ x ∷ b
    → s.chan.capacity ≤ length s.chan.buffer
    → s.chan.closed ≡ false
    → s.chan.waiting_senders ≡ []
    → (let t = send v p s in
        let u = poll out t in
        (t.store q ≡ (if p == q then suspend (s.store q) else s.store q))
        × (t.chan.waiting_senders ≡ p ∷ [])
        × (u.2 ≡ x)
        × (u.0.chan ≡ (poll out s).0.chan)
        × (u.0.store q ≡ (if p == q then resume (suspend (s.store q)) else s.store q))
        × (run cs t ≡ run cs (send w p s)))
send-full_forgets v w out x p q b cs s e h k n =
    let i = send-blocks v p s h k in
    let j = send-blocks w p s h k in
    (
      ap (λ t. t.store q) i,
      ap (λ t. t.chan.waiting_senders) i ∙ ap (λ l. l ++ (p ∷ [])) n,
      ap (λ t. (poll out t).2) i ∙ polled_value out x p b s e,
      ap (λ t. (poll out t).0.chan) i ∙ polled_chan out x p b s e n,
      ap (λ t. (poll out t).0.store q) i ∙ polled_store out x p b s e q n,
      ap (run cs) (i ∙ sym j),
    )

-- Where `offer` succeeds, a blocking `send` of the value does the same, whoever calls it.
pub send-eq-offer :
    (v : RegisterValue) (p : ℕ) (s : Sys) → (offer v s).1 ≡ true → send v p s ≡ (offer v s).0
unfolding send offer
send-eq-offer v p s h = ground arith

-- Where `poll` finds a value, a blocking `recv` returns it and leaves the same state; on a closed
-- channel where it finds none, `recv` changes nothing and returns the word 0, which is not nil.
pub recv-eq-poll :
    (out : RegisterValue) (p : ℕ) (s : Sys)
    → (((poll out s).1 ≡ true) → recv p s ≡ ((poll out s).0, (poll out s).2))
      × (((poll out s).1 ≡ false) → s.chan.closed ≡ true → recv p s ≡ (s, 0))
unfolding recv poll
recv-eq-poll out p s = ground arith
