-- ===== src/Environment/Fuel.antt =====
-- The lookup through parents in src/backend/env.hh ends: parents are older than their children.
use limitly.Prelude.{
  ℕ, zero, suc, ◌+◌, ◌<◌, Option, none, some, String, List, get_elem?, ◌≡◌, refl, sym, ap, ◌∙◌,
  arith, Option-cases, inl, inr,
}
use limitly.Environment.{Environment, or_else, at_parent, own_value, get, get_in}

abbrev pub IsOlder : Option ℕ → ℕ → Type 0
IsOlder none i = Unit
IsOlder (some j) i = j < i

module _ {V : Type 0} (store : List (Environment V)) (name : String) where
  -- The parents of an environment stand before it in the store.
  abbrev pub AreOlder : Type 0
  AreOlder =
      (i : ℕ) (e : Environment V)
      → get_elem? store i ≡ some e
      → IsOlder e.closure_parent i × IsOlder e.enclosing i

  at_parent-older :
      (f g : ℕ → Option V) (i : ℕ)
      → ((j : ℕ) → j < i → f j ≡ g j)
      → (p : Option ℕ) → IsOlder p i
      → at_parent f p ≡ at_parent g p
  at_parent-older f g i h none l = refl
  at_parent-older f g i h (some j) l = h j l

  get_in-older :
      (f g : ℕ → Option V) (i : ℕ) (e : Environment V)
      → ((j : ℕ) → j < i → f j ≡ g j)
      → IsOlder e.closure_parent i × IsOlder e.enclosing i
      → get_in name f (some e) ≡ get_in name g (some e)
  unfolding get_in
  get_in-older f g i e h w =
      ap (λ o. or_else (own_value e name) (or_else o (at_parent f e.enclosing)))
        (at_parent-older f g i h e.closure_parent w.0)
      ∙ ap (λ o. or_else (own_value e name) (or_else (at_parent g e.closure_parent) o))
          (at_parent-older f g i h e.enclosing w.1)

  -- When parents are older, a lookup in the environment at a place has ended with more fuel than the
  -- number of the place: further fuel does not change what it finds.
  pub get-fuel :
      (fuel more i : ℕ)
      → AreOlder
      → i < fuel
      → get (fuel + more) store name i ≡ get fuel store name i
  unfolding get get_in
  get-fuel zero more i w l = absurd (omega (arith, l))
  get-fuel (suc fuel) more i w l =
      let e : suc fuel + more ≡ suc (fuel + more) = omega arith in
      let f = get (fuel + more) store name in
      let g = get fuel store name in
      ap (λ n. get n store name i) e ∙ elim (Option-cases (get_elem? store i)) [
        | inl n ↦ ap (get_in name f) n ∙ sym (ap (get_in name g) n)
        | inr c ↦
            ap (get_in name f) c.1
            ∙ get_in-older f g i c.0 (λ j m. get-fuel fuel more j w (omega (arith, l, m)))
                (w i c.0 c.1)
            ∙ sym (ap (get_in name g) c.1)
      ]
