-- ===== src/Concurrency/Scheduler/Lookup.antt =====
-- `get_fiber` (src/backend/scheduler.hh) after a change through the pointer that it returned.
use limitly.Prelude.{
  ℕ, ◌≡◌, refl, List, [], ◌∷◌, ◌++◌, length, some, Bool, false, if◌then◌else◌, ◌==◌, arith,
}
use limitly.Concurrency.Fiber.{Fiber, is_suspended}
use limitly.Concurrency.Scheduler.{find_fiber, change_fiber}

module _ (g : Fiber → Fiber) (keeps : (f : Fiber) → (g f).fiber_id ≡ f.fiber_id) where
  pub find-change_self :
      (id : ℕ) (fs : List Fiber) (f : Fiber)
      → find_fiber id fs ≡ some f
      → find_fiber id (change_fiber id g fs) ≡ some (g f)
  unfolding find_fiber change_fiber
  find-change_self id [] f e = cc
  find-change_self id (h ∷ fs) f e = ground (arith, keeps h, find-change_self id fs f)

pub length-change :
    (g : Fiber → Fiber) (id : ℕ) (fs : List Fiber) → length (change_fiber id g fs) ≡ length fs
unfolding change_fiber
length-change g id [] = refl
length-change g id (f ∷ fs) = ground (arith, length-change g id fs)

-- Whether the fiber with an id is suspended; no fiber is not.
unfoldable pub suspended_in : ℕ → List Fiber → Bool
suspended_in id [] = false
suspended_in id (f ∷ fs) = if f.fiber_id == id then is_suspended f else suspended_in id fs

module _ (g : Fiber → Fiber) (keeps : (f : Fiber) → (g f).fiber_id ≡ f.fiber_id) where
  pub suspended_in-change :
      (id j : ℕ) (fs : List Fiber) (f : Fiber)
      → find_fiber id fs ≡ some f
      → suspended_in j (change_fiber id g fs)
        ≡ (if id == j then is_suspended (g f) else suspended_in j fs)
  unfolding find_fiber change_fiber suspended_in
  suspended_in-change id j [] f e = cc
  suspended_in-change id j (h ∷ fs) f e = ground (arith, keeps h, suspended_in-change id j fs f)

pub suspended_in-find :
    (id : ℕ) (fs : List Fiber) (f : Fiber)
    → find_fiber id fs ≡ some f
    → suspended_in id fs ≡ is_suspended f
unfolding find_fiber suspended_in
suspended_in-find id [] f e = cc
suspended_in-find id (h ∷ fs) f e = ground (arith, suspended_in-find id fs f)

pub suspended_in-append :
    (id : ℕ) (fs : List Fiber) (f : Fiber)
    → is_suspended f ≡ false
    → suspended_in id (fs ++ (f ∷ [])) ≡ suspended_in id fs
unfolding suspended_in
suspended_in-append id [] f e = ground arith
suspended_in-append id (h ∷ fs) f e = ground (arith, suspended_in-append id fs f e)
