-- ===== src/Lir/Optimizer/Unreachable/Compact.antt =====
-- The compaction and the renumbering of `remove_unreachable_code` (src/lir/optimizer.cpp): where the
-- marked instructions stand afterwards.
use limitly.Prelude.{
  ℕ, zero, suc, ◌+◌, ◌≤◌, Bool, true, false, Option, none, some, List, [], ◌∷◌, ◌≡◌, refl, length,
  get_elem?, ltb, if◌then◌else◌, arith,
}
use limitly.Lir.Inst.{Inst}
use limitly.Lir.Optimizer.Unreachable.Marks.{is_marked-bound}
use limitly.Lir.Optimizer.Unreachable.{
  is_marked, compact, remap_from, new_target, retarget, retarget_all,
}

-- The marks before an index.
unfoldable pub rank : List Bool → ℕ → ℕ
rank m zero = 0
rank [] (suc i) = 0
rank (b ∷ m) (suc i) = let r = rank m i in if b then suc r else r

pub rank-suc : (m : List Bool) (i : ℕ) → is_marked m i ≡ true → rank m (i + 1) ≡ rank m i + 1
unfolding rank is_marked
rank-suc [] i h = cc
rank-suc (b ∷ m) zero h = ground arith
rank-suc (b ∷ m) (suc i) h = ground (arith, rank-suc m i)

pub get_elem?-compact :
    (m : List Bool) (is : List Inst) (i : ℕ)
    → is_marked m i ≡ true
    → get_elem? (compact m is) (rank m i) ≡ get_elem? is i
unfolding compact rank is_marked
get_elem?-compact [] is i h = cc
get_elem?-compact (b ∷ m) [] i h = refl
get_elem?-compact (true ∷ m) (inst ∷ is) zero h = refl
get_elem?-compact (false ∷ m) (inst ∷ is) zero h = cc
get_elem?-compact (true ∷ m) (inst ∷ is) (suc i) h = get_elem?-compact m is i h
get_elem?-compact (false ∷ m) (inst ∷ is) (suc i) h = get_elem?-compact m is i h

pub length-compact :
    (m : List Bool) (is : List Inst)
    → length m ≡ length is
    → length (compact m is) ≡ rank m (length is)
unfolding compact rank
length-compact [] [] h = refl
length-compact [] (x ∷ is) h = refl
length-compact (b ∷ m) [] h = refl
length-compact (b ∷ m) (x ∷ is) h = ground (arith, length-compact m is)

pub rank-bound : (m : List Bool) (i : ℕ) → rank m i ≤ i
unfolding rank
rank-bound m zero = omega arith
rank-bound [] (suc i) = omega arith
rank-bound (b ∷ m) (suc i) = ground (arith, rank-bound m i)

get_elem?-remap :
    (m : List Bool) (next i : ℕ)
    → get_elem? (remap_from next m) i ≡ (
        if ltb i (length m)
        then some (if is_marked m i then some (next + rank m i) else none)
        else none)
unfolding remap_from rank is_marked
get_elem?-remap [] next i = ground arith
get_elem?-remap (true ∷ m) next zero = ground arith
get_elem?-remap (false ∷ m) next zero = ground arith
get_elem?-remap (true ∷ m) next (suc i) = ground (arith, get_elem?-remap m (suc next) i)
get_elem?-remap (false ∷ m) next (suc i) = ground (arith, get_elem?-remap m next i)

-- A jump target gets the new index of a marked instruction, and stays what it is otherwise.
pub new_target_lem :
    (m : List Bool) (i : ℕ)
    → new_target (remap_from 0 m) i ≡ (if is_marked m i then rank m i else i)
unfolding new_target
new_target_lem m i = ground (arith, get_elem?-remap m 0 i, is_marked-bound m i)

pub get_elem?-retarget :
    (r : List (Option ℕ)) (is : List Inst) (i : ℕ)
    → get_elem? (retarget_all r is) i
      ≡ elim (get_elem? is i) [ none ↦ none | some inst ↦ some (retarget r inst) ]
unfolding retarget_all
get_elem?-retarget r [] i = refl
get_elem?-retarget r (x ∷ is) zero = refl
get_elem?-retarget r (x ∷ is) (suc i) = get_elem?-retarget r is i

pub length-retarget :
    (r : List (Option ℕ)) (is : List Inst) → length (retarget_all r is) ≡ length is
unfolding retarget_all
length-retarget r [] = refl
length-retarget r (x ∷ is) = omega (arith, length-retarget r is)
