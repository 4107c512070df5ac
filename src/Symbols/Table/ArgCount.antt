-- ===== src/Symbols/Table/ArgCount.antt =====
-- The counts of arguments that a signature of src/backend/symbol_table.hh takes.
use limitly.Prelude.{
  ℕ, zero, suc, ◌+◌, ◌≤◌, ◌<◌, Bool, true, false, ◌||◌, List, [], ◌∷◌, ◌≡◌, refl, ◌⊎◌, inl, inr,
  ◌↔◌, length, ltb, arith, Bool-cases,
}
use limitly.Symbols.Table.{
  FunctionSignature, min_required_from, get_min_required_args, is_valid_arg_count,
}

-- Which parameters are optional or have a default value. The code looks at as many as there are
-- optional flags.
unfoldable pub omittable : List Bool → List Bool → List Bool
omittable [] defaults = []
omittable (o ∷ optionals) [] = o ∷ omittable optionals []
omittable (o ∷ optionals) (d ∷ defaults) = (o || d) ∷ omittable optionals defaults

unfoldable pub flag_at : List Bool → ℕ → Bool
flag_at [] i = false
flag_at (b ∷ flags) zero = b
flag_at (b ∷ flags) (suc i) = flag_at flags i

-- The number `m` is the index of the first flag that is set, counted from `i`, or `size`.
abbrev IsFirst : ℕ → ℕ → List Bool → ℕ → Type 0
IsFirst size i flags m =
    ((m ≡ size) × ((j : ℕ) → flag_at flags j ≡ false))
    ⊎ ((j : ℕ) × (m ≡ i + j)
        × (flag_at flags j ≡ true)
        × ((k : ℕ) → k < j → flag_at flags k ≡ false))

unset-cons :
    (flags : List Bool)
    → ((j : ℕ) → flag_at flags j ≡ false)
    → (j : ℕ) → flag_at (false ∷ flags) j ≡ false
unfolding flag_at
unset-cons flags h zero = refl
unset-cons flags h (suc j) = h j

unset-below :
    (flags : List Bool) (n : ℕ)
    → ((k : ℕ) → k < n → flag_at flags k ≡ false)
    → (k : ℕ) → k < suc n
    → flag_at (false ∷ flags) k ≡ false
unfolding flag_at
unset-below flags n h zero l = refl
unset-below flags n h (suc k) l = h k (omega (arith, l))

IsFirst-cons :
    (size i : ℕ) (flags : List Bool) (m : ℕ)
    → IsFirst size (i + 1) flags m
    → IsFirst size i (false ∷ flags) m
unfolding flag_at
IsFirst-cons size i flags m (inl h) = inl (h.0, unset-cons flags h.1)
IsFirst-cons size i flags m (inr h) =
    inr (suc h.0, omega (arith, h.1), h.2, unset-below flags h.0 h.3)

IsFirst-here : (size i : ℕ) (flags : List Bool) → IsFirst size i (true ∷ flags) i
unfolding flag_at
IsFirst-here size i flags = inr (0, omega arith, refl, λ k l. absurd (omega (arith, l)))

min_required_from-IsFirst :
    (size i : ℕ) (os ds : List Bool)
    → IsFirst size i (omittable os ds) (min_required_from size i os ds)
unfolding min_required_from omittable flag_at
min_required_from-IsFirst size i [] ds = inl (refl, λ j. refl)
min_required_from-IsFirst size i (true ∷ os) [] = IsFirst-here size i (omittable os [])
min_required_from-IsFirst size i (true ∷ os) (d ∷ ds) = IsFirst-here size i (omittable os ds)
min_required_from-IsFirst size i (false ∷ os) (true ∷ ds) = IsFirst-here size i (omittable os ds)
min_required_from-IsFirst size i (false ∷ os) [] =
    IsFirst-cons size i (omittable os []) _ (min_required_from-IsFirst size (i + 1) os [])
min_required_from-IsFirst size i (false ∷ os) (false ∷ ds) =
    IsFirst-cons size i (omittable os ds) _ (min_required_from-IsFirst size (i + 1) os ds)

flag_at-bound : (os ds : List Bool) (j : ℕ) → flag_at (omittable os ds) j ≡ true → j < length os
unfolding flag_at omittable
flag_at-bound [] ds j h = cc
flag_at-bound (o ∷ os) [] zero h = omega arith
flag_at-bound (o ∷ os) (d ∷ ds) zero h = omega arith
flag_at-bound (o ∷ os) [] (suc j) h = omega (arith, flag_at-bound os [] j h)
flag_at-bound (o ∷ os) (d ∷ ds) (suc j) h = omega (arith, flag_at-bound os ds j h)

-- A count of arguments is accepted exactly when it is the number of parameters, or is smaller and a
-- parameter at it or before it may be omitted, whether or not those behind it may.
pub is_valid_arg_count_iff :
    (TypePtr : Type 0) (f : FunctionSignature TypePtr) (n : ℕ)
    → length f.optional_params ≤ length f.param_types
    → is_valid_arg_count TypePtr f n ≡ true ↔ (
        (n ≡ length f.param_types)
        ⊎ ((n < length f.param_types)
            × ((i : ℕ) × (i ≤ n)
                × (flag_at (omittable f.optional_params f.has_default_values) i ≡ true))))
unfolding is_valid_arg_count get_min_required_args
is_valid_arg_count_iff TypePtr f n h =
    let m =
      min_required_from-IsFirst (length f.param_types) 0 f.optional_params f.has_default_values in
    elim m [
      | inl e ↦ (
        (λ v. inl (ground (arith, e.0, v))),
        (λ w. elim w [ inl q ↦ ground (arith, e.0, q) | inr q ↦ ground (arith, e.1 q.1.0, q.1.2) ]),
      )
      | inr e ↦ (
        (λ v. elim (Bool-cases (ltb n (length f.param_types))) [
          | inl l ↦ inr (ground (arith, l), (e.0, (ground (arith, e.1, v)), e.2))
          | inr l ↦ inl (ground (arith, l, v))
        ]),
        (λ w. elim w [
          | inl q ↦
              ground
                (arith, flag_at-bound f.optional_params f.has_default_values e.0 e.2, e.1, q, h)
          | inr q ↦ elim (Bool-cases (ltb q.1.0 e.0)) [
            | inl l ↦ let z = e.3 q.1.0 (ground (arith, l)) in ground (arith, z, q.1.2)
            | inr l ↦ let z : e.0 ≤ q.1.0 = ground (arith, l) in ground (arith, z, q.0, q.1.1, e.1)
          ]
        ]),
      )
    ]
