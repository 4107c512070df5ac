-- ===== src/Concurrency/Scheduler/Ids/Steps.antt =====
-- Every call of the scheduler (src/backend/scheduler.hh) keeps the ids in order and the queues to
-- fibers that exist.
use limitly.Prelude.{
  ℕ, zero, suc, ◌+◌, ◌^◌, ◌≤◌, ◌<◌, ◌≡◌, refl, sym, ap, ◌∙◌, subst, Bool, true, false, Option, some,
  List, [], ◌∷◌, ◌++◌, length, length-append, All, inl, inr, if◌then◌else◌, arith,
}
use limitly.Concurrency.Fiber.{TaskContext, Fiber, fiber_new, suspend, resume, increment}
use limitly.Concurrency.Scheduler.{
  Scheduler, scheduler_new, get_fiber, add_fiber, suspend_fiber, resume_fiber, get_next_fiber,
  execute_current_fiber_step, wake_at, wake_from, tick, run_step, Step, add, suspend_call,
  resume_call, next, execute, tick_call, Reach, here, step,
}
use limitly.Concurrency.Scheduler.Cases.{
  suspending, resuming, executing, waking, suspend_fiber-cases, resume_fiber-cases, execute-cases,
  wake_at-cases,
}
use limitly.Concurrency.Scheduler.Lookup.{length-change}
use limitly.Concurrency.Scheduler.Ids.{
  IsId, HasIds, found-IsId, find-IsNumbered, IsNumbered-append, IsNumbered-change_at,
  length-change_at, erase_first-All, snoc-All, grow-All, keeps_suspend, keeps_resume,
  keeps_run_step, change-HasIds,
}

suspend-HasIds : (id : ℕ) (s : Scheduler) → HasIds s → HasIds (suspend_fiber id s)
suspend-HasIds id s h = elim (suspend_fiber-cases id s) [
  | inl e ↦ rw e h
  | inr (f, e, _, r) ↦
      let b = found-IsId id s.fibers f e h.numbered in
      rw r (
        change-HasIds suspend keeps_suspend id s (suspending id s) h refl refl h.ready
          (snoc-All _ id s.suspended_fibers h.suspended b))
]

resume-HasIds : (id : ℕ) (s : Scheduler) → HasIds s → HasIds (resume_fiber id s)
resume-HasIds id s h = elim (resume_fiber-cases id s) [
  | inl e ↦ rw e h
  | inr (f, e, _, r) ↦
      let b = found-IsId id s.fibers f e h.numbered in
      rw r (
        change-HasIds resume keeps_resume id s (resuming id s) h refl refl
          (snoc-All _ id s.ready_queue h.ready b)
          (erase_first-All _ id s.suspended_fibers h.suspended))
]

execute-HasIds : (s : Scheduler) → HasIds s → HasIds (execute_current_fiber_step s)
execute-HasIds s h = elim (execute-cases s) [
  | inl e ↦ rw e h
  | inr (f, e, _, r) ↦
      let b = found-IsId s.current_fiber_id s.fibers f e h.numbered in
      rw r (
        change-HasIds (λ g. (run_step g).0) keeps_run_step s.current_fiber_id s (executing f s) h
          refl refl (queued (run_step f).1 (snoc-All _ s.current_fiber_id s.ready_queue h.ready b))
          h.suspended)
]
  where
    queued :
        (b : Bool)
        → All (IsId (length s.fibers)) (s.ready_queue ++ (s.current_fiber_id ∷ []))
        → All
            (IsId (length s.fibers))
            (if b then s.ready_queue ++ (s.current_fiber_id ∷ []) else s.ready_queue)
    queued true k = k
    queued false k = h.ready

waking-HasIds : (i : ℕ) (s : Scheduler) → HasIds s → HasIds (waking i s)
waking-HasIds i s h =
    let l = length-change_at i s.fibers in
    record {
      numbered = IsNumbered-change_at i 1 s.fibers h.numbered;
      next_id = omega (arith, l, h.next_id);
      ready = subst (λ k. All (IsId k) s.ready_queue) (sym l) h.ready;
      suspended = subst (λ k. All (IsId k) s.suspended_fibers) (sym l) h.suspended;
    }

wake_at-HasIds : (i : ℕ) (s : Scheduler) → HasIds s → HasIds (wake_at i s)
wake_at-HasIds i s h = elim (wake_at-cases i s) [
  | inl e ↦ rw e h
  | inr (inl e) ↦ rw e (waking-HasIds i s h)
  | inr (inr (id, e)) ↦ rw e (resume-HasIds id (waking i s) (waking-HasIds i s h))
]

wake_from-HasIds : (n i : ℕ) (s : Scheduler) → HasIds s → HasIds (wake_from n i s)
unfolding wake_from
wake_from-HasIds zero i s h = h
wake_from-HasIds (suc n) i s h = wake_from-HasIds n (suc i) (wake_at i s) (wake_at-HasIds i s h)

add-HasIds :
    (task : Option TaskContext) (s : Scheduler)
    → length s.fibers + 2 < 2 ^ 64
    → HasIds s
    → HasIds (add_fiber task s).0
unfolding add_fiber
add-HasIds task s small h =
    let l = length-append s.fibers (fiber_new s.next_fiber_id task ∷ []) in
    record {
      numbered = IsNumbered-append 1 s.fibers _ h.numbered (omega (arith, h.next_id));
      next_id = omega (arith, l, h.next_id);
      ready =
          snoc-All _ s.next_fiber_id s.ready_queue
            (grow-All _ _ s.ready_queue (omega (arith, l)) h.ready) (omega (arith, l, h.next_id));
      suspended = grow-All _ _ s.suspended_fibers (omega (arith, l)) h.suspended;
    }

-- Which state `get_next_fiber` leaves, by the queue that it finds.
next_empty : (s : Scheduler) → s.ready_queue ≡ [] → (get_next_fiber s).0 ≡ s
unfolding get_next_fiber
next_empty s e = ground arith

next_found :
    (s : Scheduler) (id : ℕ) (q : List ℕ)
    → s.ready_queue ≡ id ∷ q
    → (get_next_fiber s).0 ≡ record s { ready_queue = q; current_fiber_id = id }
unfolding get_next_fiber
next_found s id q e = ground arith

next-HasIds : (s : Scheduler) → HasIds s → HasIds (get_next_fiber s).0
next-HasIds s h = go s.ready_queue refl
  where
    go : (q : List ℕ) → s.ready_queue ≡ q → HasIds (get_next_fiber s).0
    go [] e = rw (next_empty s e) h
    go (id ∷ q) e =
        let b = subst (All (IsId (length s.fibers))) e h.ready in
        rw (next_found s id q e) (record {
          numbered = h.numbered;
          next_id = h.next_id;
          ready = b.1;
          suspended = h.suspended;
        })

length-suspend : (id : ℕ) (s : Scheduler) → length (suspend_fiber id s).fibers ≡ length s.fibers
length-suspend id s = elim (suspend_fiber-cases id s) [
  | inl e ↦ ap (λ t. length t.fibers) e
  | inr (_, _, _, r) ↦ ap (λ t. length t.fibers) r ∙ length-change suspend id s.fibers
]

length-resume : (id : ℕ) (s : Scheduler) → length (resume_fiber id s).fibers ≡ length s.fibers
length-resume id s = elim (resume_fiber-cases id s) [
  | inl e ↦ ap (λ t. length t.fibers) e
  | inr (_, _, _, r) ↦ ap (λ t. length t.fibers) r ∙ length-change resume id s.fibers
]

length-execute : (s : Scheduler) → length (execute_current_fiber_step s).fibers ≡ length s.fibers
length-execute s = elim (execute-cases s) [
  | inl e ↦ ap (λ t. length t.fibers) e
  | inr (_, _, _, r) ↦ ap (λ t. length t.fibers) r ∙ length-change _ s.current_fiber_id s.fibers
]

length-wake_at : (i : ℕ) (s : Scheduler) → length (wake_at i s).fibers ≡ length s.fibers
length-wake_at i s = elim (wake_at-cases i s) [
  | inl e ↦ ap (λ t. length t.fibers) e
  | inr (inl e) ↦ ap (λ t. length t.fibers) e ∙ length-change_at i s.fibers
  | inr (inr (id, e)) ↦
      ap (λ t. length t.fibers) e ∙ length-resume id (waking i s) ∙ length-change_at i s.fibers
]

length-wake_from : (n i : ℕ) (s : Scheduler) → length (wake_from n i s).fibers ≡ length s.fibers
unfolding wake_from
length-wake_from zero i s = refl
length-wake_from (suc n) i s = length-wake_from n (suc i) (wake_at i s) ∙ length-wake_at i s

Step-length : {s t : Scheduler} → Step s t → length s.fibers ≤ length t.fibers
unfolding add_fiber get_next_fiber tick
Step-length {s} (add task) =
    omega (arith, length-append s.fibers (fiber_new s.next_fiber_id task ∷ []))
Step-length {s} (suspend_call id) = omega (arith, length-suspend id s)
Step-length {s} (resume_call id) = omega (arith, length-resume id s)
Step-length {s} next = ground arith
Step-length {s} execute = omega (arith, length-execute s)
Step-length {s} tick_call = omega (
  arith,
  length-wake_from (length s.fibers) 0 (record s { current_time = increment s.current_time }),
)

Step-HasIds : {s t : Scheduler} → Step s t → length t.fibers + 1 < 2 ^ 64 → HasIds s → HasIds t
Step-HasIds {s} (add task) small h =
    add-HasIds task s
      (unfold add_fiber in
        omega (arith, small, length-append s.fibers (fiber_new s.next_fiber_id task ∷ [])))
      h
Step-HasIds {s} (suspend_call id) small h = suspend-HasIds id s h
Step-HasIds {s} (resume_call id) small h = resume-HasIds id s h
Step-HasIds {s} next small h = next-HasIds s h
Step-HasIds {s} execute small h = execute-HasIds s h
Step-HasIds {s} tick_call small h =
    unfold tick in
    wake_from-HasIds _ 0 _ (record {
      numbered = h.numbered;
      next_id = h.next_id;
      ready = h.ready;
      suspended = h.suspended;
    })

-- The scheduler's calls keep the ids 1, 2, … in the order of creation and the queues to fibers that
-- exist, as long as the id counter does not wrap.
pub Reach-HasIds : {s : Scheduler} → Reach scheduler_new s → length s.fibers + 1 < 2 ^ 64 → HasIds s
Reach-HasIds here small = record { numbered = tt; next_id = refl; ready = tt; suspended = tt }
Reach-HasIds (step r st) small =
    Step-HasIds st small (Reach-HasIds r (omega (arith, Step-length st)))

-- A reachable scheduler whose ready queue starts with an id gives out the fiber of that id.
pub get_next_fiber-found :
    {s : Scheduler} (id : ℕ) (q : List ℕ)
    → Reach scheduler_new s
    → length s.fibers + 1 < 2 ^ 64
    → s.ready_queue ≡ id ∷ q
    → (f : Fiber) × ((get_next_fiber s).1 ≡ some f)
      × (f.fiber_id ≡ id)
      × ((get_next_fiber s).0.current_fiber_id ≡ id)
unfolding get_next_fiber get_fiber
get_next_fiber-found {s} id q r small e =
    let h = Reach-HasIds r small in
    let b = subst (All (IsId (length s.fibers))) e h.ready in
    let (f, p, t) = find-IsNumbered 1 id s.fibers h.numbered b.0.0 (omega (arith, b.0.1)) in
    (f, ground arith, t, ground arith)
