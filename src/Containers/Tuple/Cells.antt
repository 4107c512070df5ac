-- ===== src/Containers/Tuple/Cells.antt =====
-- The state of a tuple of src/runtime/runtime_tuple.c, and what growing and storing do to it.
use limitly.Prelude.{
  ◌∙◌, List, ℕ, ◌+◌, ◌-◌, ◌*◌, ◌%◌, ◌^◌, ◌≤◌, ◌<◌, ◌&&◌, Option, some, ◌≡◌, refl, length, get_elem?,
  ltb, leb, ◌==◌, if◌then◌else◌, arith, Bool-cases, inl, inr,
}
use limitly.Runtime.Word.{Word, val_nil}
use limitly.Containers.Block.{IsMalloc, IsRealloc, fill_nil-IsFilled, write-IsWritten}
use limitly.Containers.Tuple.{
  put_last, lm_tuple_new, grow, lm_tuple_clear, LmTuple, lm_tuple_set, lm_tuple_get,
}

-- The block has `capacity` words, few enough for its size in bytes to be a number of the machine.
pub record IsTuple (t : LmTuple) : Type 0 where
  pub block_full : length t.elements ≡ t.capacity
  pub size_le : t.size ≤ t.capacity
  pub few : t.capacity < 2 ^ 60

-- The words of the block from the size on are nil.
abbrev pub IsClean : LmTuple → Type 0
IsClean t = (i : ℕ) → t.size ≤ i → i < t.capacity → get_elem? t.elements i ≡ some val_nil

-- What a tuple answers to all lookups.
abbrev pub Answers : LmTuple → (ℕ → Option Word) → Type 0
Answers t f = (j : ℕ) → lm_tuple_get t j ≡ f j

-- The operation stays inside of the block and leaves a tuple that has the property.
abbrev pub Leaves : Option LmTuple → (LmTuple → Type 0) → Type 0
Leaves o P = (t : LmTuple) × (o ≡ some t) × IsTuple t × P t

pub lm_tuple_set-Leaves :
    (t : LmTuple) (i : ℕ) (v : Word)
    → IsTuple t
    → IsClean t
    → Leaves (lm_tuple_set t i v) (λ t'.
      IsClean t'
      × Answers t' (λ j. if ltb i t.capacity && (i == j) then some v else lm_tuple_get t j))
unfolding lm_tuple_set lm_tuple_get
lm_tuple_set-Leaves t i v w c = elim (Bool-cases (leb t.capacity i)) [
  | inl s ↦ (t, rw s refl, w, (c, λ j. ground (arith, s)))
  | inr s ↦
      let l : i < t.capacity = ground (arith, s) in
      let r = write-IsWritten t.elements i v (omega (arith, l, w.block_full)) in
      let n = (if leb t.size i then (i + 1) % 2 ^ 64 else t.size) in
      (
        record t { elements = r.0; size = n },
        elim (Bool-cases (leb t.size i)) [
          | inl z ↦ rw (s, z, r.1) refl
          | inr z ↦ rw (s, z, r.1) refl
        ],
        record {
          block_full = omega (arith, r.2.0, w.block_full);
          size_le = ground (arith, l, w.size_le, w.few);
          few = w.few;
        },
        (
          λ j a b. ground (arith, r.2.1 j, c j, a, b, l, w.few),
          λ j. elim (Bool-cases (leb t.size j)) [
            | inl z ↦ ground (arith, z, r.2.1 j, c j, l, w.few)
            | inr z ↦ ground (arith, z, r.2.1 j, l, w.few)
          ],
        ),
      )
]

-- A store behind the last element, in a block with room.
pub put_last-Leaves :
    (t : LmTuple) (v : Word)
    → IsTuple t
    → IsClean t
    → t.size < t.capacity
    → Leaves (put_last t v) (λ t'.
      IsClean t'
      × (t'.size ≡ t.size + 1)
      × Answers t' (λ j. if t.size == j then some v else lm_tuple_get t j))
unfolding put_last lm_tuple_get
put_last-Leaves t v w c l =
    let r = write-IsWritten t.elements t.size v (omega (arith, l, w.block_full)) in
    (
      record t { elements = r.0; size = (t.size + 1) % 2 ^ 64 },
      rw (r.1, put_last) refl,
      record {
        block_full = omega (arith, r.2.0, w.block_full);
        size_le = omega (arith, l, w.few);
        few = w.few;
      },
      (
        λ j a b. ground (arith, r.2.1 j, c j, a, b, l, w.few),
        omega (arith, l, w.few),
        λ j. ground (arith, r.2.1 j, l, w.few),
      ),
    )

pub lm_tuple_clear-Leaves :
    (t : LmTuple)
    → IsTuple t
    → IsClean t
    → Leaves (lm_tuple_clear t) (λ t'. IsClean t' × Answers t' (λ j. some val_nil))
unfolding lm_tuple_clear lm_tuple_get
lm_tuple_clear-Leaves t w c =
    let r = fill_nil-IsFilled t.elements 0 t.size (omega (arith, w.size_le, w.block_full)) in
    (
      record t { elements = r.0; size = 0 },
      rw (r.1, lm_tuple_clear) refl,
      record {
        block_full = omega (arith, r.2.0, w.block_full);
        size_le = omega arith;
        few = w.few;
      },
      (λ j a b. ground (arith, r.2.1 j, c j, b), λ j. ground arith),
    )

pub lm_tuple_new-Leaves :
    (malloc : ℕ → Option (List Word)) (limit n : ℕ)
    → IsMalloc malloc limit
    → 8 * n ≤ limit
    → limit < 2 ^ 63
    → Leaves
        (lm_tuple_new malloc n)
        (λ t'. IsClean t' × (t'.size ≡ n) × Answers t' (λ j. some val_nil))
unfolding lm_tuple_new lm_tuple_get
lm_tuple_new-Leaves malloc limit n q m b =
    let a = q.new_granted n m in
    let e = q.new_length n a.0 a.1 in
    let r = fill_nil-IsFilled a.0 0 n (omega (arith, e)) in
    let k : 8 * n % 2 ^ 64 ≡ 8 * n = omega (arith, m, b) in
    (
      record { elements = r.0; size = n; capacity = n },
      rw (k, a.1, r.1, lm_tuple_new) refl,
      record {
        block_full = omega (arith, r.2.0, e);
        size_le = omega arith;
        few = omega (arith, m, b);
      },
      (λ j x y. absurd (omega (arith, x, y)), refl, λ j. ground (arith, r.2.1 j)),
    )

-- What `grow` leaves: the same lookups in a block of the new size.
abbrev pub Grown : LmTuple → ℕ → LmTuple → Type 0
Grown t n t' =
    (t'.size ≡ t.size)
    × (t'.capacity ≡ n)
    × ((j : ℕ)
        → j < n
        → get_elem? t'.elements j
          ≡ (if ltb j t.capacity then get_elem? t.elements j else some val_nil))

module _ (realloc : List Word → ℕ → Option (List Word)) (limit : ℕ) (q : IsRealloc realloc limit)
    (b : limit < 2 ^ 63) where
  pub grow-Grown :
      (t : LmTuple) (n : ℕ)
      → IsTuple t
      → t.capacity < n
      → 8 * n ≤ limit
      → Leaves (grow realloc t n) (Grown t n)
  unfolding grow
  grow-Grown t n w l m =
      let a = q.granted t.elements n m in
      let e = q.length_new t.elements n a.0 a.1 in
      let r = fill_nil-IsFilled a.0 t.capacity (n - t.capacity) (omega (arith, e, l)) in
      let k : 8 * n % 2 ^ 64 ≡ 8 * n = omega (arith, m, b) in
      (
        record t { elements = r.0; capacity = n },
        rw (k, a.1, r.1, grow) refl,
        record {
          block_full = omega (arith, r.2.0, e);
          size_le = omega (arith, w.size_le, l);
          few = omega (arith, m, b);
        },
        (
          refl,
          refl,
          λ j x. elim (Bool-cases (ltb j t.capacity)) [
            | inl s ↦ rw s (
                r.2.1 j
                ∙ ground (arith, s)
                ∙ q.kept t.elements n a.0 a.1 (omega (arith, w.block_full, l)) j
                    (ground (arith, s, w.block_full)))
            | inr s ↦ rw s (r.2.1 j ∙ ground (arith, s, x))
          ],
        ),
      )
