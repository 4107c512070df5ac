-- ===== src/Containers/Vector/Calls.antt =====
-- Lists of words as they are meant, with the calls of src/runtime/runtime_list.c: no capacity, no block.
use limitly.Prelude.{
  ℕ, zero, suc, ◌≤◌, ◌<◌, some, List, [], ◌∷◌, ◌++◌, ◌≡◌, refl, length, get_elem?, ◌==◌,
  if◌then◌else◌, arith,
}
use limitly.Runtime.Word.{Word, val_nil}

-- A list as it is meant: out of range, a read gives nil and a write does nothing.
unfoldable pub set_at : List Word → ℕ → Word → List Word
set_at [] i v = []
set_at (x ∷ xs) zero v = v ∷ xs
set_at (x ∷ xs) (suc i) v = x ∷ set_at xs i v

unfoldable pub get_at : List Word → ℕ → Word
get_at [] i = val_nil
get_at (x ∷ xs) zero = x
get_at (x ∷ xs) (suc i) = get_at xs i

pub data ListCall : Type 0 where
  append : Word → ListCall
  get : ℕ → ListCall
  set : ℕ → Word → ListCall
  len : ListCall

-- The answers to a sequence of calls.
unfoldable pub list_answers : List Word → List ListCall → List Word
unfolding set_at get_at
list_answers xs [] = []
list_answers xs (ListCall.append v ∷ calls) = list_answers (xs ++ (v ∷ [])) calls
list_answers xs (ListCall.get i ∷ calls) = get_at xs i ∷ list_answers xs calls
list_answers xs (ListCall.set i v ∷ calls) = list_answers (set_at xs i v) calls
list_answers xs (ListCall.len ∷ calls) = length xs ∷ list_answers xs calls

pub get_elem?-append :
    (xs : List Word) (v : Word) (i : ℕ)
    → get_elem? (xs ++ (v ∷ [])) i ≡ (if length xs == i then some v else get_elem? xs i)
get_elem?-append [] v zero = refl
get_elem?-append [] v (suc i) = ground arith
get_elem?-append (x ∷ xs) v zero = ground arith
get_elem?-append (x ∷ xs) v (suc i) = ground (arith, get_elem?-append xs v i)

pub length-set_at : (xs : List Word) (i : ℕ) (v : Word) → length (set_at xs i v) ≡ length xs
unfolding set_at
length-set_at [] i v = refl
length-set_at (x ∷ xs) zero v = refl
length-set_at (x ∷ xs) (suc i) v = omega (arith, length-set_at xs i v)

pub set_at-outside : (xs : List Word) (i : ℕ) (v : Word) → length xs ≤ i → set_at xs i v ≡ xs
unfolding set_at
set_at-outside [] i v l = refl
set_at-outside (x ∷ xs) zero v l = absurd (omega (arith, l))
set_at-outside (x ∷ xs) (suc i) v l = rw (set_at-outside xs i v (omega (arith, l))) refl

pub get_elem?-set_at :
    (xs : List Word) (i j : ℕ) (v : Word)
    → i < length xs
    → get_elem? (set_at xs i v) j ≡ (if i == j then some v else get_elem? xs j)
unfolding set_at
get_elem?-set_at [] i j v l = absurd (omega (arith, l))
get_elem?-set_at (x ∷ xs) zero zero v l = refl
get_elem?-set_at (x ∷ xs) zero (suc j) v l = ground arith
get_elem?-set_at (x ∷ xs) (suc i) zero v l = ground arith
get_elem?-set_at (x ∷ xs) (suc i) (suc j) v l =
    ground (arith, get_elem?-set_at xs i j v (omega (arith, l)))

pub get_elem?-get_at :
    (xs : List Word) (i : ℕ) → i < length xs → get_elem? xs i ≡ some (get_at xs i)
unfolding get_at
get_elem?-get_at [] i l = absurd (omega (arith, l))
get_elem?-get_at (x ∷ xs) zero l = refl
get_elem?-get_at (x ∷ xs) (suc i) l = get_elem?-get_at xs i (omega (arith, l))

pub get_at-outside : (xs : List Word) (i : ℕ) → length xs ≤ i → get_at xs i ≡ val_nil
unfolding get_at
get_at-outside [] i l = refl
get_at-outside (x ∷ xs) zero l = absurd (omega (arith, l))
get_at-outside (x ∷ xs) (suc i) l = get_at-outside xs i (omega (arith, l))
