-- ===== src/Lir/Optimizer/Unreachable/Marks.antt =====
-- The marks and the worklist of `remove_unreachable_code` (src/lir/optimizer.cpp) under the pushes of
-- one visit.
use limitly.Prelude.{
  ℕ, zero, suc, ◌+◌, ◌<◌, Bool, true, false, not, ◌&&◌, ◌||◌, List, [], ◌∷◌, ◌++◌, ◌≡◌, refl, ◌∙◌,
  inl, inr, length, length-append, ltb, ◌==◌, if◌then◌else◌, contains, nat_eq, arith, Bool-cases,
}
use limitly.Lir.Inst.{Flow, flow_jump, flow_jump_if, flow_jump_if_false, flow_return, flow_next}
use limitly.Lir.Optimizer.Unreachable.{
  is_marked, mark, unmarked, Traversal, push_if_valid, push_next, push_successors,
}

pub length-mark : (m : List Bool) (i : ℕ) → length (mark m i) ≡ length m
unfolding mark
length-mark [] i = refl
length-mark (b ∷ m) zero = refl
length-mark (b ∷ m) (suc i) = ground (arith, length-mark m i)

pub is_marked-mark :
    (m : List Bool) (i k : ℕ)
    → is_marked (mark m i) k ≡ (if i == k then ltb i (length m) else is_marked m k)
unfolding mark is_marked
is_marked-mark [] i k = ground arith
is_marked-mark (b ∷ m) zero zero = ground arith
is_marked-mark (b ∷ m) zero (suc k) = ground arith
is_marked-mark (b ∷ m) (suc i) zero = ground arith
is_marked-mark (b ∷ m) (suc i) (suc k) = ground (arith, is_marked-mark m i k)

pub is_marked-bound : (m : List Bool) (i : ℕ) → is_marked m i ≡ true → i < length m
unfolding is_marked
is_marked-bound [] i h = cc
is_marked-bound (b ∷ m) zero h = omega arith
is_marked-bound (b ∷ m) (suc i) h = omega (arith, is_marked-bound m i h)

pub is_marked-unmarked : (n k : ℕ) → is_marked (unmarked n) k ≡ false
unfolding is_marked unmarked
is_marked-unmarked zero k = refl
is_marked-unmarked (suc n) zero = refl
is_marked-unmarked (suc n) (suc k) = is_marked-unmarked n k

pub length-unmarked : (n : ℕ) → length (unmarked n) ≡ n
unfolding unmarked
length-unmarked zero = refl
length-unmarked (suc n) = omega (arith, length-unmarked n)

-- The instructions that are not marked yet.
unfoldable pub open_count : List Bool → ℕ
open_count [] = 0
open_count (b ∷ m) = (if b then 0 else 1) + open_count m

pub open_count-mark :
    (m : List Bool) (i : ℕ)
    → i < length m
    → is_marked m i ≡ false
    → open_count m ≡ open_count (mark m i) + 1
unfolding open_count mark is_marked
open_count-mark [] i l h = omega arith
open_count-mark (b ∷ m) zero l h = ground arith
open_count-mark (b ∷ m) (suc i) l h = ground (arith, open_count-mark m i)

pub open_count-unmarked : (n : ℕ) → open_count (unmarked n) ≡ n
unfolding open_count unmarked
open_count-unmarked zero = refl
open_count-unmarked (suc n) = omega (arith, open_count-unmarked n)

pub contains-append :
    (k : ℕ) (xs ys : List ℕ) → contains k (xs ++ ys) ≡ (contains k xs || contains k ys)
unfolding contains
contains-append k [] ys = refl
contains-append k (x ∷ xs) ys = ground (arith, contains-append k xs ys)

-- The pushes of one visit, one after the other.
unfoldable pub pushes : ℕ → List ℕ → Traversal → Traversal
pushes n [] t = t
pushes n (j ∷ js) t = pushes n js (push_if_valid n j t)

-- Where control can go from instruction `i`: to its target, to its successor, to both or nowhere.
unfoldable pub targets : Flow → ℕ → ℕ → List ℕ
targets flow_jump imm i = imm ∷ []
targets flow_jump_if imm i = imm ∷ ((i + 1) ∷ [])
targets flow_jump_if_false imm i = imm ∷ ((i + 1) ∷ [])
targets flow_return imm i = []
targets flow_next imm i = (i + 1) ∷ []

push_next-valid : (n i : ℕ) (t : Traversal) → push_next n i t ≡ push_if_valid n (i + 1) t
unfolding push_next push_if_valid
push_next-valid n i t = elim (Bool-cases (ltb (i + 1) n)) [ inl e ↦ rw e refl | inr e ↦ rw e refl ]

pub push_successors-pushes :
    (fl : Flow) (imm n i : ℕ) (t : Traversal)
    → push_successors fl imm n i t ≡ pushes n (targets fl imm i) t
unfolding push_successors targets pushes
push_successors-pushes flow_jump imm n i t = refl
push_successors-pushes flow_jump_if imm n i t = push_next-valid n i _
push_successors-pushes flow_jump_if_false imm n i t = push_next-valid n i _
push_successors-pushes flow_return imm n i t = refl
push_successors-pushes flow_next imm n i t = push_next-valid n i t

-- What the pushes `js` do to a traversal of `n` instructions.
pub record Pushed (n : ℕ) (js : List ℕ) (t u : Traversal) : Type 0 where
  pub len : length u.reachable ≡ n
  pub marks :
      (k : ℕ) → is_marked u.reachable k ≡ (is_marked t.reachable k || (contains k js && ltb k n))
  pub keeps : (k : ℕ) → contains k t.worklist ≡ true → contains k u.worklist ≡ true
  pub queues :
      (k : ℕ)
      → contains k u.worklist
        ≡ (contains k t.worklist || (is_marked u.reachable k && not (is_marked t.reachable k)))
  pub measure :
      open_count u.reachable + length u.worklist ≡ open_count t.reachable + length t.worklist

push-Pushed :
    (n j : ℕ) (t : Traversal) → length t.reachable ≡ n → Pushed n (j ∷ []) t (push_if_valid n j t)
unfolding push_if_valid contains
push-Pushed n j t l = record {
  len = ground (arith, length-mark t.reachable j);
  marks = λ k. ground (arith, is_marked-mark t.reachable j k, is_marked-bound t.reachable k);
  keeps = λ k e. ground (arith, contains-append k t.worklist (j ∷ []));
  queues =
      λ k. ground (arith, contains-append k t.worklist (j ∷ []), is_marked-mark t.reachable j k);
  measure = ground (arith, open_count-mark t.reachable j, length-append t.worklist (j ∷ []));
}

pub pushes-Pushed :
    (n : ℕ) (js : List ℕ) (t : Traversal) → length t.reachable ≡ n → Pushed n js t (pushes n js t)
unfolding pushes contains
pushes-Pushed n [] t l = record {
  len = l;
  marks = λ k. ground arith;
  keeps = λ k e. e;
  queues = λ k. ground arith;
  measure = refl;
}
pushes-Pushed n (j ∷ js) t l =
    let p = push-Pushed n j t l in
    let q = pushes-Pushed n js (push_if_valid n j t) p.len in
    record {
      len = q.len;
      marks = λ k. ground (arith, p.marks k, q.marks k);
      keeps = λ k e. q.keeps k (p.keeps k e);
      queues = λ k. ground (arith, p.queues k, q.queues k, p.marks k, q.marks k);
      measure = q.measure ∙ p.measure;
    }
