-- ===== src/Containers/Tuple/Iteration.antt =====
-- The iterators of src/runtime/runtime_tuple.c.
use limitly.Prelude.{
  ◌∙◌, sym, ap, ℕ, zero, suc, ◌+◌, ◌-◌, ◌%◌, ◌^◌, ◌≤◌, ◌<◌, false, Option, none, some, List, [],
  ◌∷◌, ◌≡◌, refl, get_elem?, get_elem?-some, ltb, leb, if◌then◌else◌, arith, Bool-cases, inl, inr,
}
use limitly.Runtime.Word.{Word}
use limitly.Containers.Tuple.{
  LmTuple, LmTupleIterator, lm_tuple_iterator_new, lm_tuple_iterator_next,
  lm_tuple_iterator_has_next,
}
use limitly.Containers.Tuple.Cells.{IsTuple}

abbrev pub prepend : Option Word → Option (List Word) → Option (List Word)
prepend none vs = none
prepend (some v) none = none
prepend (some v) (some vs) = some (v ∷ vs)

-- A loop that takes the next element as long as there is one, at most `fuel` times.
unfoldable pub elements_from : ℕ → LmTupleIterator → Option (List Word)
unfolding lm_tuple_iterator_next lm_tuple_iterator_has_next
elements_from zero it = if lm_tuple_iterator_has_next it then none else some []
elements_from (suc fuel) it =
    let rest = elements_from fuel (lm_tuple_iterator_next it).1 in
    if lm_tuple_iterator_has_next it then prepend (lm_tuple_iterator_next it).0 rest else some []

abbrev pub take : ℕ → List Word → List Word
take zero l = []
take (suc n) [] = []
take (suc n) (x ∷ l) = x ∷ take n l

abbrev pub drop : ℕ → List Word → List Word
drop zero l = l
drop (suc n) [] = []
drop (suc n) (x ∷ l) = drop n l

take-drop :
    (l : List Word) (i n : ℕ) (v : Word)
    → get_elem? l i ≡ some v
    → take (suc n) (drop i l) ≡ v ∷ take n (drop (suc i) l)
take-drop [] i n v e = cc
take-drop (x ∷ l) zero n v e = cc
take-drop (x ∷ l) (suc i) n v e = take-drop l i n v e

elements_from-take :
    (t : LmTuple) (fuel i : ℕ)
    → IsTuple t
    → t.size ≤ i + fuel
    → elements_from fuel (record { tuple = t; current_index = i })
      ≡ some (take (t.size - i) (drop i t.elements))
unfolding elements_from
elements_from-take t zero i w l =
    let k : t.size - i ≡ 0 = omega (arith, l) in rw k (ground (arith, l))
elements_from-take t (suc fuel) i w l = elim (Bool-cases (ltb i t.size)) [
  | inr s ↦ let k : t.size - i ≡ 0 = ground (arith, s) in rw (s, k) refl
  | inl s ↦
      let lt : i < t.size = ground (arith, s) in
      let v = get_elem?-some t.elements i (omega (arith, lt, w.size_le, w.block_full)) in
      let k : t.size - i ≡ suc (t.size - suc i) = omega (arith, lt) in
      let n : (i + 1) % 2 ^ 64 ≡ suc i = omega (arith, lt, w.size_le, w.few) in
      let g : leb t.size i ≡ false = ground (arith, lt) in
      let ih = elements_from-take t fuel (suc i) w (omega (arith, l)) in
      rw (s, k, g, n, v.1, ih) (ap some (sym (take-drop t.elements i (t.size - suc i) v.0 v.1)))
]

-- A loop over a new iterator ends after as many rounds as the tuple has elements, and has then
-- taken them all, in order.
pub elements_from-iterator_new :
    (t : LmTuple) (fuel : ℕ)
    → IsTuple t
    → t.size ≤ fuel
    → elements_from fuel (lm_tuple_iterator_new t) ≡ some (take t.size t.elements)
unfolding lm_tuple_iterator_new
elements_from-iterator_new t fuel w l =
    elements_from-take t fuel 0 w (omega (arith, l))
    ∙ ap (λ n. some (take n t.elements)) (omega arith)
