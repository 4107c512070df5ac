-- ===== src/Containers/Block.antt =====
-- Blocks of the C library's heap, as the lists of the words they hold. `none` is an access outside
-- of a block, which C leaves undefined.
use limitly.Prelude.{
  ℕ, zero, suc, ◌+◌, ◌*◌, ◌≤◌, ◌<◌, Option, none, some, List, [], ◌∷◌, ◌≡◌, refl, length, get_elem?,
  ltb, leb, ◌==◌, ◌&&◌, if◌then◌else◌, arith,
}
use limitly.Runtime.Word.{Word, val_nil}

-- `p[i] = v`
unfoldable pub write : List Word → ℕ → Word → Option (List Word)
write [] i v = none
write (x ∷ p) zero v = some (v ∷ p)
write (x ∷ p) (suc i) v = elim (write p i v) [ none ↦ none | some p' ↦ some (x ∷ p') ]

-- `for (j = i; j < i + n; j++) p[j] = VAL_NIL`
unfoldable pub fill_nil : List Word → ℕ → ℕ → Option (List Word)
unfolding write
fill_nil p i zero = some p
fill_nil p i (suc n) = elim (write p i val_nil) [ none ↦ none | some p' ↦ fill_nil p' (suc i) n ]

-- A block of `n` words is a write away from `p` at `i`.
abbrev pub IsWritten : List Word → ℕ → Word → List Word → Type 0
IsWritten p i v p' =
    (length p' ≡ length p) × ((j : ℕ) → get_elem? p' j ≡ (if i == j then some v else get_elem? p j))

get_elem?-here :
    (p : List Word) (x v : Word) (j : ℕ)
    → get_elem? (v ∷ p) j ≡ (if 0 == j then some v else get_elem? (x ∷ p) j)
get_elem?-here p x v zero = refl
get_elem?-here p x v (suc j) = ground arith

get_elem?-there :
    (p p' : List Word) (x v : Word) (i : ℕ)
    → IsWritten p i v p'
    → (j : ℕ) → get_elem? (x ∷ p') j ≡ (if suc i == j then some v else get_elem? (x ∷ p) j)
get_elem?-there p p' x v i w zero = ground arith
get_elem?-there p p' x v i w (suc j) = ground (arith, w.1 j)

pub write-IsWritten :
    (p : List Word) (i : ℕ) (v : Word)
    → i < length p
    → (p' : List Word) × (write p i v ≡ some p') × IsWritten p i v p'
unfolding write
write-IsWritten [] i v l = absurd (omega (arith, l))
write-IsWritten (x ∷ p) zero v l = (v ∷ p, refl, (refl, get_elem?-here p x v))
write-IsWritten (x ∷ p) (suc i) v l =
    let r = write-IsWritten p i v (omega (arith, l)) in
    (x ∷ r.0, rw r.1 refl, (omega (arith, r.2.0), get_elem?-there p r.0 x v i r.2))

-- `p'` is `p` with nil in the `n` words from `i`.
abbrev pub IsFilled : List Word → ℕ → ℕ → List Word → Type 0
IsFilled p i n p' =
    (length p' ≡ length p)
    × ((j : ℕ)
        → get_elem? p' j ≡ (if leb i j && ltb j (i + n) then some val_nil else get_elem? p j))

pub fill_nil-IsFilled :
    (p : List Word) (i n : ℕ)
    → i + n ≤ length p
    → (p' : List Word) × (fill_nil p i n ≡ some p') × IsFilled p i n p'
unfolding fill_nil
fill_nil-IsFilled p i zero l = (p, refl, (refl, λ j. ground arith))
fill_nil-IsFilled p i (suc n) l =
    let w = write-IsWritten p i val_nil (omega (arith, l)) in
    let r = fill_nil-IsFilled w.0 (suc i) n (omega (arith, l, w.2.0)) in
    (
      r.0,
      rw (w.1, fill_nil) r.1,
      (omega (arith, r.2.0, w.2.0), λ j. ground (arith, r.2.1 j, w.2.1 j)),
    )

-- `malloc`, in bytes: a block that is given has the size that was asked for.
pub record IsMalloc (malloc : ℕ → Option (List Word)) (limit : ℕ) : Type 0 where
  pub new_length : (n : ℕ) (p : List Word) → malloc (8 * n) ≡ some p → length p ≡ n
  pub new_granted : (n : ℕ) → 8 * n ≤ limit → (p : List Word) × (malloc (8 * n) ≡ some p)

-- `realloc`, in bytes, to a larger block, which starts with the words of the old one. Requests of
-- at most `limit` bytes are granted.
pub record IsRealloc (realloc : List Word → ℕ → Option (List Word)) (limit : ℕ) : Type 0 where
  pub length_new :
      (p : List Word) (n : ℕ) (p' : List Word) → realloc p (8 * n) ≡ some p' → length p' ≡ n
  pub kept :
      (p : List Word) (n : ℕ) (p' : List Word)
      → realloc p (8 * n) ≡ some p'
      → length p ≤ n
      → (i : ℕ) → i < length p
      → get_elem? p' i ≡ get_elem? p i
  pub granted :
      (p : List Word) (n : ℕ) → 8 * n ≤ limit → (p' : List Word) × (realloc p (8 * n) ≡ some p')
