-- ===== src/Lir/Optimizer/Unreachable/Reach.antt =====
-- The marks of `remove_unreachable_code` (src/lir/optimizer.cpp) against reachability as a relation.
use limitly.Prelude.{
  get_elem?-some, get_elem?-bound, ℕ, zero, suc, ◌+◌, ◌≤◌, ◌<◌, Bool, true, some, List, [], ◌∷◌,
  subst, ◌≡◌, refl, ◌⊎◌, inl, inr, ◌↔◌, length, get_elem?, ◌==◌, contains, nat_eq, arith,
  Bool-cases,
}
use limitly.Lir.Inst.{Inst, flow}
use limitly.Lir.Optimizer.Unreachable.{
  is_marked, unmarked, Traversal, push_if_valid, visit, traverse, mark_reachable,
}
use limitly.Lir.Optimizer.Unreachable.Marks.{
  Pushed, pushes, pushes-Pushed, push_successors-pushes, targets, open_count, open_count-unmarked,
  length-unmarked, is_marked-unmarked, is_marked-bound,
}

-- Control goes from instruction `i` to `j`.
pub record CanStep (is : List Inst) (i j : ℕ) : Type 0 where
  pub inst : Inst
  pub here : get_elem? is i ≡ some inst
  pub target : contains j (targets (flow inst.op) inst.imm i) ≡ true

-- Control gets from instruction 0 to an index.
pub data Reachable : List Inst → ℕ → Type 0 where
  start : {is : List Inst} → Reachable is 0
  step : {is : List Inst} {i j : ℕ} → Reachable is i → CanStep is i j → Reachable is j

-- Every step from `k` inside the function leads to a mark.
abbrev Done : List Inst → List Bool → ℕ → Type 0
Done is m k = (j : ℕ) → CanStep is k j → j < length is → is_marked m j ≡ true

-- The traversal's invariant.
record IsSound (is : List Inst) (t : Traversal) : Type 0 where
  len : length t.reachable ≡ length is
  sound : (k : ℕ) → is_marked t.reachable k ≡ true → Reachable is k
  queued : (k : ℕ) → contains k t.worklist ≡ true → is_marked t.reachable k ≡ true
  closed :
      (k : ℕ)
      → is_marked t.reachable k ≡ true
      → (contains k t.worklist ≡ true) ⊎ Done is t.reachable k

abbrev rest_of : Traversal → List ℕ → Traversal
rest_of t rest = record { reachable = t.reachable; worklist = rest }

visit-pushes :
    (is : List Inst) (i : ℕ) (inst : Inst) (t : Traversal)
    → get_elem? is i ≡ some inst
    → visit is i t ≡ pushes (length is) (targets (flow inst.op) inst.imm i) t
unfolding visit
visit-pushes is i inst t e =
    ground (arith, push_successors-pushes (flow inst.op) inst.imm (length is) i t)

visit-Pushed :
    (is : List Inst) (i : ℕ) (inst : Inst) (t : Traversal)
    → get_elem? is i ≡ some inst
    → length t.reachable ≡ length is
    → Pushed (length is) (targets (flow inst.op) inst.imm i) t (visit is i t)
visit-Pushed is i inst t e l =
    rw (visit-pushes is i inst t e)
      (pushes-Pushed (length is) (targets (flow inst.op) inst.imm i) t l)

module _ (is : List Inst) (i : ℕ) (rest : List ℕ) (m : List Bool)
    (v : IsSound is (record { reachable = m; worklist = i ∷ rest })) where
  here : (inst : Inst) × (get_elem? is i ≡ some inst)
  unfolding contains
  here = get_elem?-some is i (omega (arith, v.len, is_marked-bound m i (v.queued i (ground arith))))

  after : Traversal
  after = visit is i (record { reachable = m; worklist = rest })

  pushed :
      Pushed
        (length is)
        (targets (flow here.0.op) here.0.imm i)
        (record { reachable = m; worklist = rest })
        after
  unfolding after
  pushed = visit-Pushed is i here.0 (record { reachable = m; worklist = rest }) here.1 v.len

  grows : (k : ℕ) → is_marked m k ≡ true → is_marked after.reachable k ≡ true
  grows k h = ground (arith, pushed.marks k)

  visit-sound : (k : ℕ) → is_marked after.reachable k ≡ true → Reachable is k
  unfolding contains
  visit-sound k h = elim (Bool-cases (is_marked m k)) [
    | inl e ↦ v.sound k e
    | inr e ↦
        Reachable.step (v.sound i (v.queued i (ground arith)))
          (record { inst = here.0; here = here.1; target = ground (arith, pushed.marks k) })
  ]

  visit-queued : (k : ℕ) → contains k after.worklist ≡ true → is_marked after.reachable k ≡ true
  unfolding contains
  visit-queued k h = ground (arith, pushed.queues k, v.queued k, grows k)

  -- Of the popped instruction every step leads to a mark.
  popped-Done : Done is after.reachable i
  popped-Done j c h =
      let g : get_elem? is i ≡ some here.0 = here.1 in
      let e : c.inst ≡ here.0 = cc in
      let t : contains j (targets (flow here.0.op) here.0.imm i) ≡ true =
        subst (λ (x : Inst). contains j (targets (flow x.op) x.imm i) ≡ true) e c.target in
      ground (arith, pushed.marks j, t, h)

  visit-closed :
      (k : ℕ)
      → is_marked after.reachable k ≡ true
      → (contains k after.worklist ≡ true) ⊎ Done is after.reachable k
  unfolding contains
  visit-closed k h = elim (Bool-cases (is_marked m k)) [
    | inr e ↦ inl (ground (arith, pushed.queues k))
    | inl e ↦ elim (v.closed k e) [
      | inr d ↦ inr (λ j c l. grows j (d j c l))
      | inl w ↦ elim (Bool-cases (i == k)) [
        | inl q ↦
            let r : i ≡ k = ground (arith, q) in inr (subst (Done is after.reachable) r popped-Done)
        | inr q ↦ inl (pushed.keeps k (ground (arith, q, w)))
      ]
    ]
  ]

  visit-IsSound : IsSound is after
  visit-IsSound = record {
    len = pushed.len;
    sound = visit-sound;
    queued = visit-queued;
    closed = visit-closed;
  }

-- Enough fuel empties the worklist, the invariant holds at the end and no mark is lost.
traverse-IsSound :
    (fuel : ℕ) (is : List Inst) (w : List ℕ) (m : List Bool)
    → IsSound is (record { reachable = m; worklist = w })
    → open_count m + length w ≤ fuel
    → (let u = traverse fuel is (record { reachable = m; worklist = w }) in
        IsSound is u
        × (u.worklist ≡ [])
        × ((k : ℕ) → is_marked m k ≡ true → is_marked u.reachable k ≡ true))
unfolding traverse after
traverse-IsSound zero is [] m v f = (v, refl, λ k h. h)
traverse-IsSound zero is (i ∷ w) m v f = absurd (omega (arith, f))
traverse-IsSound (suc fuel) is [] m v f = (v, refl, λ k h. h)
traverse-IsSound (suc fuel) is (i ∷ w) m v f =
    let u = after is i w m v in
    let r =
      traverse-IsSound fuel is u.worklist u.reachable (visit-IsSound is i w m v)
        (omega (arith, f, (pushed is i w m v).measure)) in
    (r.0, r.1, λ k h. r.2 k (grows is i w m v k h))

abbrev start_of : List Inst → Traversal
start_of is =
    push_if_valid (length is) 0 (record { reachable = unmarked (length is); worklist = [] })

start-Pushed :
    (is : List Inst)
    → Pushed
        (length is)
        (0 ∷ [])
        (record { reachable = unmarked (length is); worklist = [] })
        (start_of is)
unfolding pushes
start-Pushed is =
    pushes-Pushed (length is) (0 ∷ []) (record { reachable = unmarked (length is); worklist = [] })
      (length-unmarked (length is))

start-IsSound : (is : List Inst) → IsSound is (start_of is)
unfolding contains
start-IsSound is =
    let n = length is in
    let p = start-Pushed is in
    record {
      len = p.len;
      sound = λ k h.
          let e : 0 ≡ k = ground (arith, p.marks k, is_marked-unmarked n k, h) in
          subst (Reachable is) e Reachable.start;
      queued = λ k h. ground (arith, p.queues k, h);
      closed = λ k h. inl (ground (arith, p.queues k, is_marked-unmarked n k, h));
    }

-- What the traversal ends with.
end-IsSound :
    (is : List Inst)
    → (let u = traverse (length is) is (start_of is) in
        IsSound is u
        × (u.worklist ≡ [])
        × ((k : ℕ) → is_marked (start_of is).reachable k ≡ true → is_marked u.reachable k ≡ true))
end-IsSound is =
    traverse-IsSound (length is) is (start_of is).worklist (start_of is).reachable
      (start-IsSound is) (omega (arith, (start-Pushed is).measure, open_count-unmarked (length is)))

-- Every step from a marked instruction inside the function leads to a marked one.
pub mark_reachable-closed :
    (is : List Inst) (i j : ℕ)
    → is_marked (mark_reachable is) i ≡ true
    → CanStep is i j
    → j < length is
    → is_marked (mark_reachable is) j ≡ true
unfolding mark_reachable contains
mark_reachable-closed is i j h c l =
    let r = end-IsSound is in
    elim (r.0.closed i h) [
      | inl w ↦
          let e : contains i [] ≡ true = subst (λ (q : List ℕ). contains i q ≡ true) r.1 w in
          absurd (ground (arith, e))
      | inr d ↦ d j c l
    ]

pub mark_reachable-entry : (is : List Inst) → 0 < length is → is_marked (mark_reachable is) 0 ≡ true
unfolding mark_reachable contains
mark_reachable-entry is h = (end-IsSound is).2 0 (ground (arith, (start-Pushed is).marks 0, h))

pub length-mark_reachable : (is : List Inst) → length (mark_reachable is) ≡ length is
unfolding mark_reachable
length-mark_reachable is = (end-IsSound is).0.len

marks_all :
    (is : List Inst) (i : ℕ)
    → Reachable is i
    → i < length is
    → is_marked (mark_reachable is) i ≡ true
marks_all is i Reachable.start h = mark_reachable-entry is h
marks_all is i (Reachable.step {i = k} r c) h =
    mark_reachable-closed is k i (marks_all is k r (get_elem?-bound is k c.inst c.here)) c h

-- Exactly the instructions of the function that control can get to are marked.
pub mark_reachable_iff :
    (is : List Inst) (i : ℕ)
    → i < length is
    → is_marked (mark_reachable is) i ≡ true ↔ Reachable is i
unfolding mark_reachable
mark_reachable_iff is i h = ((end-IsSound is).0.sound i, λ r. marks_all is i r h)
