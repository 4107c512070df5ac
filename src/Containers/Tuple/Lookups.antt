-- ===== src/Containers/Tuple/Lookups.antt =====
-- What the calls of src/runtime/runtime_tuple.c leave for later lookups.
use limitly.Prelude.{
  sym, ℕ, ◌+◌, ◌*◌, ◌%◌, ◌^◌, ◌≤◌, ◌<◌, ◌&&◌, Option, none, some, List, ◌≡◌, refl, ◌∙◌, get_elem?,
  ltb, leb, ◌==◌, if◌then◌else◌, arith, Bool-cases, inl, inr,
}
use limitly.Runtime.Word.{Word, val_nil}
use limitly.Containers.Block.{IsRealloc}
use limitly.Containers.Tuple.{
  LmTuple, lm_tuple_set, lm_tuple_get, shrink, lm_tuple_resize, put_last, lm_tuple_append,
  lm_tuple_clear,
}
use limitly.Containers.Tuple.Cells.{
  IsTuple, IsClean, Answers, Leaves, grow-Grown, put_last-Leaves, lm_tuple_set-Leaves,
  lm_tuple_clear-Leaves,
}

pub data TupleCall : Type 0 where
  set : ℕ → Word → TupleCall
  append : Word → TupleCall
  resize : ℕ → TupleCall
  clear : TupleCall

-- Each call, by the function it calls.
unfoldable pub tuple_call :
    (List Word → ℕ → Option (List Word)) → LmTuple → TupleCall → Option LmTuple
unfolding lm_tuple_set lm_tuple_append lm_tuple_resize lm_tuple_clear
tuple_call realloc t (TupleCall.set i v) = lm_tuple_set t i v
tuple_call realloc t (TupleCall.append v) = lm_tuple_append realloc t v
tuple_call realloc t (TupleCall.resize n) = lm_tuple_resize realloc t n
tuple_call realloc t TupleCall.clear = lm_tuple_clear t

-- The lookups after a call, from those before it.
unfoldable pub lookups_after : LmTuple → TupleCall → ℕ → Option Word
unfolding lm_tuple_get
lookups_after t (TupleCall.set i v) j =
    if ltb i t.capacity && (i == j) then some v else lm_tuple_get t j
lookups_after t (TupleCall.append v) j = if t.size == j then some v else lm_tuple_get t j
lookups_after t (TupleCall.resize n) j = if ltb j n then lm_tuple_get t j else some val_nil
lookups_after t TupleCall.clear j = some val_nil

-- Bytes that a call may ask for.
abbrev pub request : LmTuple → TupleCall → ℕ
request t (TupleCall.set i v) = 0
request t (TupleCall.append v) = 16 * t.capacity + 64
request t (TupleCall.resize n) = 8 * n
request t TupleCall.clear = 0

-- A call that does not cut elements off.
abbrev pub IsKeeping : LmTuple → TupleCall → Type 0
IsKeeping t (TupleCall.set i v) = Unit
IsKeeping t (TupleCall.append v) = Unit
IsKeeping t (TupleCall.resize n) = t.size ≤ n
IsKeeping t TupleCall.clear = Unit

-- The lookups of a tuple that has the words of another and a size cut to `n`.
Answers-cut :
    (t t' : LmTuple) (n : ℕ)
    → t'.size ≡ (if ltb n t.size then n else t.size)
    → ((j : ℕ) → j < t'.size → get_elem? t'.elements j ≡ get_elem? t.elements j)
    → Answers t' (λ j. if ltb j n then lm_tuple_get t j else some val_nil)
unfolding lm_tuple_get
Answers-cut t t' n e h j = elim (Bool-cases (leb t'.size j)) [
  | inl s ↦ ground (arith, s, e)
  | inr s ↦ ground (arith, s, e, h j)
]

lm_tuple_get-past : (t : LmTuple) (j : ℕ) → t.size ≤ j → lm_tuple_get t j ≡ some val_nil
unfolding lm_tuple_get
lm_tuple_get-past t j l = ground (arith, l)

module _ (realloc : List Word → ℕ → Option (List Word)) (limit : ℕ) (q : IsRealloc realloc limit)
    (b : limit < 2 ^ 63) where
  abbrev resized : LmTuple → ℕ → LmTuple
  resized t n = if ltb n t.size then record t { size = n } else t

  -- The cut of a tuple that has room for the new size.
  shrink-Leaves :
      (t : LmTuple) (n : ℕ)
      → IsTuple t
      → Leaves (shrink (some t) n) (λ t'.
        (t'.elements ≡ t.elements)
        × (t'.capacity ≡ t.capacity)
        × (t'.size ≡ (if ltb n t.size then n else t.size)))
  shrink-Leaves t n w = elim (Bool-cases (ltb n t.size)) [
    | inl s ↦ (
      record t { size = n },
      rw s refl,
      record { block_full = w.block_full; size_le = ground (arith, s, w.size_le); few = w.few },
      (refl, refl, rw s refl),
    )
    | inr s ↦ (t, rw s refl, w, (refl, refl, rw s refl))
  ]

  lm_tuple_resize-Leaves :
      (t : LmTuple) (n : ℕ)
      → IsTuple t
      → IsClean t
      → 8 * n ≤ limit
      → Leaves (lm_tuple_resize realloc t n) (λ t'.
        (t.size ≤ n → IsClean t')
        × Answers t' (λ j. if ltb j n then lm_tuple_get t j else some val_nil)
        × (n ≤ t'.capacity)
        × (t'.size ≡ (if ltb n t.size then n else t.size)))
  unfolding lm_tuple_resize lm_tuple_get
  lm_tuple_resize-Leaves t n w c m = elim (Bool-cases (ltb t.capacity n)) [
    | inl s ↦
        let g = grow-Grown realloc limit q b t n w (ground (arith, s)) m in
        let r = shrink-Leaves g.0 n g.2 in
        (
          r.0,
          rw (s, g.1) r.1,
          r.2,
          (
            λ k j x y. rw r.3.0 (
                g.3.2 j (omega (arith, y, r.3.1, g.3.1)) ∙ ground (arith, c j, x, r.3.2, k, g.3.0)),
            Answers-cut t r.0 n (rw (sym g.3.0) r.3.2) (λ j x. rw r.3.0 (
                g.3.2 j (ground (arith, x, r.2.size_le, r.3.1, g.3.1))
                ∙ ground (arith, x, r.3.2, g.3.0, w.size_le))),
            omega (arith, r.3.1, g.3.1),
            rw (sym g.3.0) r.3.2,
          ),
        )
    | inr s ↦
        let r = shrink-Leaves t n w in
        (
          r.0,
          rw s r.1,
          r.2,
          (
            λ k j x y. rw r.3.0 (c j (ground (arith, x, r.3.2, k)) (omega (arith, y, r.3.1))),
            Answers-cut t r.0 n r.3.2 (λ j x. rw r.3.0 refl),
            ground (arith, r.3.1, s),
            r.3.2,
          ),
        )
  ]

  -- A store after the tuple has grown.
  grow_put-Leaves :
      (t : LmTuple) (v : Word) (n : ℕ)
      → IsTuple t
      → IsClean t
      → t.size < n
      → 8 * n ≤ limit
      → Leaves
          (elim (lm_tuple_resize realloc t n) [ none ↦ none | some t' ↦ put_last t' v ])
          (λ t'. IsClean t' × Answers t' (λ j. if t.size == j then some v else lm_tuple_get t j))
  grow_put-Leaves t v n w c l m =
      let g = lm_tuple_resize-Leaves t n w c m in
      let k : g.0.size ≡ t.size = g.3.3 ∙ ground (arith, l) in
      let r = put_last-Leaves g.0 v g.2 (g.3.0 (omega (arith, l))) (omega (arith, l, k, g.3.2)) in
      (
        r.0,
        rw g.1 r.1,
        r.2,
        (r.3.0, λ j. r.3.2 j ∙ ground (arith, k, l, g.3.1 j, lm_tuple_get-past t j)),
      )

  lm_tuple_append-Leaves :
      (t : LmTuple) (v : Word)
      → IsTuple t
      → IsClean t
      → 16 * t.capacity + 64 ≤ limit
      → Leaves
          (lm_tuple_append realloc t v)
          (λ t'. IsClean t' × Answers t' (λ j. if t.size == j then some v else lm_tuple_get t j))
  unfolding lm_tuple_append
  lm_tuple_append-Leaves t v w c m = elim (Bool-cases (leb t.capacity t.size)) [
    | inr s ↦
        let r = put_last-Leaves t v w c (ground (arith, s)) in (r.0, rw s r.1, r.2, (r.3.0, r.3.2))
    | inl s ↦
        let n = (if t.capacity == 0 then 8 else t.capacity * 2 % 2 ^ 64) in
        let e : t.capacity ≡ t.size = ground (arith, s, w.size_le) in
        let l : t.size < n = ground (arith, e, w.few) in
        let k : 8 * n ≤ limit = ground (arith, w.few, m) in rw s (grow_put-Leaves t v n w c l k)
  ]

  -- Every call on a tuple whose unused words are nil, when its request for memory is granted, stays
  -- inside of the block, keeps the tuple well formed, and leaves the lookups that it is meant to; a
  -- call that cuts no elements off leaves the unused words nil.
  pub tuple_call-Leaves :
      (t : LmTuple) (call : TupleCall)
      → IsTuple t
      → IsClean t
      → request t call ≤ limit
      → Leaves
          (tuple_call realloc t call)
          (λ t'. (IsKeeping t call → IsClean t') × Answers t' (lookups_after t call))
  unfolding tuple_call lookups_after
  tuple_call-Leaves t (TupleCall.set i v) w c m =
      let r = lm_tuple_set-Leaves t i v w c in (r.0, r.1, r.2, (λ _. r.3.0, r.3.1))
  tuple_call-Leaves t (TupleCall.append v) w c m =
      let r = lm_tuple_append-Leaves t v w c m in (r.0, r.1, r.2, (λ _. r.3.0, r.3.1))
  tuple_call-Leaves t (TupleCall.resize n) w c m =
      let r = lm_tuple_resize-Leaves t n w c m in (r.0, r.1, r.2, (r.3.0, r.3.1))
  tuple_call-Leaves t TupleCall.clear w c m =
      let r = lm_tuple_clear-Leaves t w c in (r.0, r.1, r.2, (λ _. r.3.0, r.3.1))
