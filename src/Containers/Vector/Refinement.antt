-- ===== src/Containers/Vector/Refinement.antt =====
-- The lists of src/runtime/runtime_list.c implement mathematical lists: whatever calls are made, the
-- answers are those of a list that has no capacity and no block.
use limitly.Prelude.{
  ◌∙◌, ℕ, ◌+◌, ◌*◌, ◌%◌, ◌^◌, ◌≤◌, ◌<◌, Option, none, some, List, [], ◌∷◌, ◌++◌, ◌≡◌, refl, length,
  length-append, get_elem?, leb, arith, Bool-cases, inl, inr,
}
use limitly.Runtime.Word.{Word}
use limitly.Containers.Block.{write-IsWritten, IsMalloc, IsRealloc}
use limitly.Containers.Vector.Calls.{
  ListCall, set_at, get_at, list_answers, length-set_at, set_at-outside, get_elem?-set_at,
  get_elem?-get_at, get_at-outside, get_elem?-append,
}
use limitly.Containers.Vector.{
  LmList, lm_list_new, store_element, lm_list_append, lm_list_get, lm_list_set, lm_list_len,
}

-- The block is as large as the capacity, which is at most twice the size once it has grown.
pub record IsList (list : LmList) : Type 0 where
  pub block_full : length list.cells ≡ list.capacity
  pub size_le : list.size ≤ list.capacity
  pub not_empty : 8 ≤ list.capacity
  pub growth : list.capacity ≤ 2 * list.size + 8

-- The first `size` words of the block are those of `xs`.
abbrev pub Holds : LmList → List Word → Type 0
Holds list xs =
    (length xs ≡ list.size) × ((i : ℕ) → i < list.size → get_elem? list.cells i ≡ get_elem? xs i)

abbrev pub answer : Word → Option (List Word) → Option (List Word)
answer v none = none
answer v (some ws) = some (v ∷ ws)

abbrev pub answer? : Option Word → Option (List Word) → Option (List Word)
answer? none ws = none
answer? (some v) ws = answer v ws

-- The answers of the code; `none` when a call goes outside of the block.
unfoldable pub run_list :
    (List Word → ℕ → Option (List Word)) → LmList → List ListCall → Option (List Word)
unfolding lm_list_append lm_list_get lm_list_set lm_list_len
run_list realloc list [] = some []
run_list realloc list (ListCall.append v ∷ calls) = elim (lm_list_append realloc list v) [
  | none ↦ none
  | some l ↦ run_list realloc l calls
]
run_list realloc list (ListCall.get i ∷ calls) =
    answer? (lm_list_get list i) (run_list realloc list calls)
run_list realloc list (ListCall.set i v ∷ calls) = elim (lm_list_set list i v) [
  | none ↦ none
  | some l ↦ run_list realloc l calls
]
run_list realloc list (ListCall.len ∷ calls) =
    answer (lm_list_len list) (run_list realloc list calls)

-- The answers from a new list on, when there is memory for it.
unfoldable pub run_new :
    (ℕ → Option (List Word))
    → (List Word → ℕ → Option (List Word))
    → List ListCall
    → Option (List Word)
unfolding lm_list_new run_list
run_new malloc realloc calls = elim (lm_list_new malloc) [
  | none ↦ none
  | some list ↦ run_list realloc list calls
]

-- The list is well formed and holds `xs`.
abbrev pub Implements : Option LmList → List Word → Type 0
Implements o xs = (list : LmList) × (o ≡ some list) × IsList list × Holds list xs

lm_list_get-get_at :
    (list : LmList) (xs : List Word) (i : ℕ)
    → Holds list xs
    → lm_list_get list i ≡ some (get_at xs i)
unfolding lm_list_get
lm_list_get-get_at list xs i h = elim (Bool-cases (leb list.size i)) [
  | inl s ↦ ground (arith, s, h.0, get_at-outside xs i)
  | inr s ↦ ground (arith, s, h.0, h.1 i, get_elem?-get_at xs i)
]

lm_list_set-Implements :
    (list : LmList) (xs : List Word) (i : ℕ) (v : Word)
    → IsList list
    → Holds list xs
    → Implements (lm_list_set list i v) (set_at xs i v)
unfolding lm_list_set
lm_list_set-Implements list xs i v w h = elim (Bool-cases (leb list.size i)) [
  | inl s ↦ let e = set_at-outside xs i v (ground (arith, s, h.0)) in (list, rw s refl, w, rw e h)
  | inr s ↦
      let l : i < list.size = ground (arith, s) in
      let r = write-IsWritten list.cells i v (omega (arith, l, w.size_le, w.block_full)) in
      (
        record list { cells = r.0 },
        rw (s, r.1) refl,
        record {
          block_full = omega (arith, r.2.0, w.block_full);
          size_le = w.size_le;
          not_empty = w.not_empty;
          growth = w.growth;
        },
        (
          omega (arith, length-set_at xs i v, h.0),
          λ j m.
              ground (arith, r.2.1 j, get_elem?-set_at xs i j v (omega (arith, l, h.0)), h.1 j m),
        ),
      )
]

-- A store behind the last element, in a block with room.
store_element-Implements :
    (list : LmList) (xs : List Word) (v : Word)
    → IsList list
    → Holds list xs
    → list.size < list.capacity
    → list.size < 2 ^ 63
    → Implements (store_element list v) (xs ++ (v ∷ []))
unfolding store_element
store_element-Implements list xs v w h l b =
    let r = write-IsWritten list.cells list.size v (omega (arith, l, w.block_full)) in
    (
      record list { cells = r.0; size = (list.size + 1) % 2 ^ 64 },
      rw (r.1, store_element) refl,
      record {
        block_full = omega (arith, r.2.0, w.block_full);
        size_le = omega (arith, l, b);
        not_empty = w.not_empty;
        growth = omega (arith, w.growth, b);
      },
      (
        omega (arith, length-append xs (v ∷ []), h.0, b),
        λ j m. ground (arith, r.2.1 j, get_elem?-append xs v j, h.0, h.1 j, m, b),
      ),
    )

lm_list_append-Implements :
    (realloc : List Word → ℕ → Option (List Word)) (limit : ℕ)
    → IsRealloc realloc limit
    → limit < 2 ^ 63
    → (list : LmList) (xs : List Word) (v : Word) → IsList list
    → Holds list xs
    → 16 * list.size ≤ limit
    → Implements (lm_list_append realloc list v) (xs ++ (v ∷ []))
unfolding lm_list_append
lm_list_append-Implements realloc limit q b list xs v w h m =
    elim (Bool-cases (leb list.capacity list.size)) [
      | inr s ↦
          rw s (store_element-Implements list xs v w h (ground (arith, s)) (omega (arith, m, b)))
      | inl s ↦
          let e : list.capacity ≡ list.size = ground (arith, s, w.size_le) in
          let n = list.capacity * 2 in
          let r = q.granted list.cells n (omega (arith, m, e)) in
          let k : 8 * (n % 2 ^ 64) % 2 ^ 64 ≡ 8 * n = omega (arith, m, b, e) in
          rw (s, k, r.1)
            (store_element-Implements
              (record { cells = r.0; size = list.size; capacity = n % 2 ^ 64 }) xs v
              (record {
                block_full = omega (arith, q.length_new list.cells n r.0 r.1, m, b, e);
                size_le = omega (arith, m, b, e);
                not_empty = omega (arith, w.not_empty, m, b, e);
                growth = omega (arith, e, m, b);
              })
              (
                h.0,
                λ i l.
                    q.kept list.cells n r.0 r.1 (omega (arith, w.block_full)) i
                      (omega (arith, l, e, w.block_full))
                    ∙ h.1 i l,
              )
              (omega (arith, e, w.not_empty, m, b)) (omega (arith, m, b)))
    ]

-- Whatever calls follow, a list that holds `xs` answers as `xs` does, within the memory limit.
run_list-list_answers :
    (realloc : List Word → ℕ → Option (List Word)) (limit : ℕ)
    → IsRealloc realloc limit
    → limit < 2 ^ 63
    → (list : LmList) (xs : List Word) (calls : List ListCall) → IsList list
    → Holds list xs
    → 16 * (length xs + length calls) ≤ limit
    → run_list realloc list calls ≡ some (list_answers xs calls)
unfolding run_list list_answers lm_list_len
run_list-list_answers realloc limit q b list xs [] w h m = refl
run_list-list_answers realloc limit q b list xs (ListCall.append v ∷ calls) w h m =
    let r = lm_list_append-Implements realloc limit q b list xs v w h (omega (arith, h.0, m)) in
    rw (r.1, run_list)
      (run_list-list_answers realloc limit q b r.0 (xs ++ (v ∷ [])) calls r.2 r.3
        (omega (arith, length-append xs (v ∷ []), m)))
run_list-list_answers realloc limit q b list xs (ListCall.get i ∷ calls) w h m =
    let ih = run_list-list_answers realloc limit q b list xs calls w h (omega (arith, m)) in
    rw (lm_list_get-get_at list xs i h, ih) refl
run_list-list_answers realloc limit q b list xs (ListCall.set i v ∷ calls) w h m =
    let r = lm_list_set-Implements list xs i v w h in
    rw (r.1, run_list)
      (run_list-list_answers realloc limit q b r.0 (set_at xs i v) calls r.2 r.3
        (omega (arith, length-set_at xs i v, m)))
run_list-list_answers realloc limit q b list xs (ListCall.len ∷ calls) w h m =
    let ih = run_list-list_answers realloc limit q b list xs calls w h (omega (arith, m)) in
    rw (ih, h.0) refl

-- From a new list on, every sequence of calls stays inside of the block and is answered as a list
-- without capacity answers it, when requests of up to 64 + 16 bytes for each call are granted.
pub run_new-list_answers :
    (malloc : ℕ → Option (List Word)) (realloc : List Word → ℕ → Option (List Word)) (limit : ℕ)
    (calls : List ListCall)
    → IsMalloc malloc limit
    → IsRealloc realloc limit
    → limit < 2 ^ 63
    → 64 + 16 * length calls ≤ limit
    → run_new malloc realloc calls ≡ some (list_answers [] calls)
unfolding run_new lm_list_new
run_new-list_answers malloc realloc limit calls p q b m =
    let r = p.new_granted 8 (omega (arith, m)) in
    rw (r.1, run_new)
      (run_list-list_answers realloc limit q b (record { cells = r.0; size = 0; capacity = 8 }) []
        calls
        (record {
          block_full = p.new_length 8 r.0 r.1;
          size_le = omega arith;
          not_empty = omega arith;
          growth = omega arith;
        })
        (refl, λ i l. absurd (omega (arith, l))) (omega (arith, m)))
