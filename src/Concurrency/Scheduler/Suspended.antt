-- ===== src/Concurrency/Scheduler/Suspended.antt =====
-- The list of suspended fibers of the scheduler (src/backend/scheduler.hh).
use limitly.Prelude.{
  ℕ, zero, suc, ◌≡◌, refl, sym, ap, ◌∙◌, true, false, ◌||◌, List, [], ◌∷◌, ◌++◌, inl, inr, contains,
  nat_eq, ◌==◌, if◌then◌else◌, arith,
}
use limitly.Concurrency.Fiber.{
  Fiber, fiber_new, is_running, is_suspended, suspend, resume, advance_instruction, complete,
}
use limitly.Concurrency.Scheduler.{
  Scheduler, change_at, erase_first, run_step, add_fiber, suspend_fiber, resume_fiber,
  get_next_fiber, execute_current_fiber_step, wake_task, wake_at, wake_from, tick, Step, add,
  suspend_call, resume_call, next, execute, tick_call,
}
use limitly.Concurrency.Scheduler.Cases.{
  waking, suspend_fiber-cases, resume_fiber-cases, execute-cases, wake_at-cases,
}
use limitly.Concurrency.Scheduler.Lookup.{
  suspended_in, suspended_in-change, suspended_in-find, suspended_in-append,
}
use limitly.Concurrency.Scheduler.Ids.{keeps_suspend, keeps_resume, keeps_run_step}

-- No id stands twice.
abbrev pub HasNoTwin : List ℕ → Type 0
HasNoTwin [] = Unit
HasNoTwin (j ∷ js) = (contains j js ≡ false) × HasNoTwin js

contains-snoc :
    (k id : ℕ) (js : List ℕ) → contains k (js ++ (id ∷ [])) ≡ (contains k js || (id == k))
unfolding contains
contains-snoc k id [] = ground arith
contains-snoc k id (j ∷ js) = ground (arith, contains-snoc k id js)

HasNoTwin-snoc :
    (id : ℕ) (js : List ℕ) → contains id js ≡ false → HasNoTwin js → HasNoTwin (js ++ (id ∷ []))
unfolding contains
HasNoTwin-snoc id [] c h = (refl, tt)
HasNoTwin-snoc id (j ∷ js) c h =
    (ground (arith, contains-snoc j id js), HasNoTwin-snoc id js (ground arith) h.1)

contains-erase_first :
    (k id : ℕ) (js : List ℕ)
    → HasNoTwin js
    → contains k (erase_first id js) ≡ (if id == k then false else contains k js)
unfolding contains erase_first
contains-erase_first k id [] h = ground arith
contains-erase_first k id (j ∷ js) h = ground (arith, contains-erase_first k id js h.1)

HasNoTwin-erase_first : (id : ℕ) (js : List ℕ) → HasNoTwin js → HasNoTwin (erase_first id js)
unfolding erase_first
HasNoTwin-erase_first id [] h = tt
HasNoTwin-erase_first id (j ∷ js) h =
    ground (arith, HasNoTwin-erase_first id js h.1, contains-erase_first j id js h.1)

-- `suspended_fibers` holds exactly the ids that `get_fiber` takes to a suspended fiber, each once.
pub record IsExact (s : Scheduler) : Type 0 where
  pub listed : (j : ℕ) → contains j s.suspended_fibers ≡ suspended_in j s.fibers
  pub once : HasNoTwin s.suspended_fibers

suspend-IsSuspended : (f : Fiber) → is_running f ≡ true → is_suspended (suspend f) ≡ true
unfolding suspend is_running is_suspended
suspend-IsSuspended f r = ground arith

resume-not_suspended : (f : Fiber) → is_suspended f ≡ true → is_suspended (resume f) ≡ false
unfolding resume is_suspended
resume-not_suspended f r = ground arith

running-not_suspended : (f : Fiber) → is_running f ≡ true → is_suspended f ≡ false
unfolding is_running is_suspended
running-not_suspended f r = ground arith

run_step-not_suspended : (f : Fiber) → is_running f ≡ true → is_suspended (run_step f).0 ≡ false
unfolding is_running is_suspended advance_instruction complete
run_step-not_suspended f r = ground arith

suspend-IsExact : (id : ℕ) (s : Scheduler) → IsExact s → IsExact (suspend_fiber id s)
suspend-IsExact id s h = elim (suspend_fiber-cases id s) [
  | inl e ↦ rw e h
  | inr (f, e, r, p) ↦
      let c : contains id s.suspended_fibers ≡ false =
        h.listed id ∙ suspended_in-find id s.fibers f e ∙ running-not_suspended f r in
      rw p (record {
        listed = λ j. ground (
          arith,
          contains-snoc j id s.suspended_fibers,
          h.listed j,
          suspended_in-change suspend keeps_suspend id j s.fibers f e,
          suspend-IsSuspended f r,
        );
        once = HasNoTwin-snoc id s.suspended_fibers c h.once;
      })
]

resume-IsExact : (id : ℕ) (s : Scheduler) → IsExact s → IsExact (resume_fiber id s)
resume-IsExact id s h = elim (resume_fiber-cases id s) [
  | inl e ↦ rw e h
  | inr (f, e, r, p) ↦ rw p (record {
    listed = λ j. ground (
      arith,
      contains-erase_first j id s.suspended_fibers h.once,
      h.listed j,
      suspended_in-change resume keeps_resume id j s.fibers f e,
      resume-not_suspended f r,
    );
    once = HasNoTwin-erase_first id s.suspended_fibers h.once;
  })
]

execute-IsExact : (s : Scheduler) → IsExact s → IsExact (execute_current_fiber_step s)
execute-IsExact s h = elim (execute-cases s) [
  | inl e ↦ rw e h
  | inr (f, e, r, p) ↦ rw p (record {
    listed = λ j. ground (
      arith,
      h.listed j,
      suspended_in-change (λ g. (run_step g).0) keeps_run_step s.current_fiber_id j s.fibers f e,
      run_step-not_suspended f r,
      running-not_suspended f r,
      suspended_in-find s.current_fiber_id s.fibers f e,
    );
    once = h.once;
  })
]

suspended_in-wake :
    (j i : ℕ) (fs : List Fiber) → suspended_in j (change_at i wake_task fs) ≡ suspended_in j fs
unfolding change_at wake_task suspended_in is_suspended
suspended_in-wake j i [] = refl
suspended_in-wake j zero (f ∷ fs) = ground arith
suspended_in-wake j (suc i) (f ∷ fs) = ground (arith, suspended_in-wake j i fs)

waking-IsExact : (i : ℕ) (s : Scheduler) → IsExact s → IsExact (waking i s)
waking-IsExact i s h = record {
  listed = λ j. h.listed j ∙ sym (suspended_in-wake j i s.fibers);
  once = h.once;
}

wake_at-IsExact : (i : ℕ) (s : Scheduler) → IsExact s → IsExact (wake_at i s)
wake_at-IsExact i s h = elim (wake_at-cases i s) [
  | inl e ↦ rw e h
  | inr (inl e) ↦ rw e (waking-IsExact i s h)
  | inr (inr (id, e)) ↦ rw e (resume-IsExact id (waking i s) (waking-IsExact i s h))
]

wake_from-IsExact : (n i : ℕ) (s : Scheduler) → IsExact s → IsExact (wake_from n i s)
unfolding wake_from
wake_from-IsExact zero i s h = h
wake_from-IsExact (suc n) i s h = wake_from-IsExact n (suc i) (wake_at i s) (wake_at-IsExact i s h)

next_lists :
    (s : Scheduler)
    → ((get_next_fiber s).0.suspended_fibers ≡ s.suspended_fibers)
      × ((get_next_fiber s).0.fibers ≡ s.fibers)
unfolding get_next_fiber
next_lists s = ground arith

-- Each call of the scheduler keeps `suspended_fibers` to exactly the ids of suspended fibers, each
-- once, from any state where it is so.
pub Step-IsExact : {s t : Scheduler} → Step s t → IsExact s → IsExact t
Step-IsExact {s} (add task) h = record {
  listed = λ j.
      unfold add_fiber in
      (h.listed j
        ∙ sym (
            suspended_in-append j s.fibers (fiber_new s.next_fiber_id task)
              (unfold is_suspended in refl)));
  once = unfold add_fiber in h.once;
}
Step-IsExact {s} (suspend_call id) h = suspend-IsExact id s h
Step-IsExact {s} (resume_call id) h = resume-IsExact id s h
Step-IsExact {s} next h =
    let l = next_lists s in
    record {
      listed = λ j. (ap (contains j) l.0) ∙ h.listed j ∙ sym (ap (suspended_in j) l.1);
      once = rw (l.0) h.once;
    }
Step-IsExact {s} execute h = execute-IsExact s h
Step-IsExact {s} tick_call h =
    unfold tick in wake_from-IsExact _ 0 _ (record { listed = h.listed; once = h.once })
