-- ===== src/Environment/Assign.antt =====
-- Assignment and lookup through the parents of an environment (src/backend/env.hh).
use limitly.Prelude.{
  ℕ, zero, suc, true, false, ◌||◌, Option, none, some, String, string_eq, List, [], ◌∷◌, get_elem?,
  lookup, insert, lookup-insert, beq_refl, ◌≡◌, refl, sym, ap, ◌∙◌, subst, arith, Option-cases, inl,
  inr, ◌⊎◌,
}
use limitly.Environment.{
  Environment, is_some, get_in, assign_in, or_else, at_parent, update, own_value,
  assign_in_current_scope, get, put_back, assign,
}

is_some-none : {A : Type 0} (o : Option A) → is_some o ≡ false → o ≡ none
is_some-none none h = refl
is_some-none (some a) h = absurd (ground (arith, h))

is_some-or_else : {A : Type 0} (a b : Option A) → is_some (or_else a b) ≡ (is_some a || is_some b)
is_some-or_else none b = refl
is_some-or_else (some a) b = refl

module _ {V : Type 0} (name : String) where
  -- Two environments with the same parents, in which the name is or is not there.
  abbrev pub Alike : Option (Environment V) → Option (Environment V) → Type 0
  Alike none none = Unit
  Alike none (some e) = ⊥
  Alike (some e) none = ⊥
  Alike (some e) (some f) =
      (f.closure_parent ≡ e.closure_parent)
      × (f.enclosing ≡ e.enclosing)
      × (is_some (own_value f name) ≡ is_some (own_value e name))

  abbrev pub SameAt : List (Environment V) → List (Environment V) → Type 0
  SameAt s t = (k : ℕ) → Alike (get_elem? s k) (get_elem? t k)

  Alike-refl : (o : Option (Environment V)) → Alike o o
  Alike-refl none = tt
  Alike-refl (some e) = (refl, refl, refl)

  -- What an assignment does to one environment.
  assign_in-cases :
      (e : Environment V) (v : V)
      → ((own_value e name ≡ none) × (assign_in_current_scope e name v ≡ none))
        ⊎ (f : Environment V) × (assign_in_current_scope e name v ≡ some f)
          × (own_value f name ≡ some v)
          × Alike (some e) (some f)
  unfolding own_value assign_in_current_scope
  assign_in-cases e v = elim (Option-cases (lookup name e.captured_variables)) [
    | inr c ↦
        let f = record e { captured_variables = insert name v e.captured_variables } in
        let p : lookup name f.captured_variables ≡ some v =
          lookup-insert name name v e.captured_variables ∙ ground (arith, beq_refl name) in
        let q : own_value f name ≡ some v = ap (λ o. or_else o (lookup name f.values)) p in
        let r : is_some (own_value e name) ≡ true =
          ap (λ o. is_some (or_else o (lookup name e.values))) c.1 in
        inr (f, rw (c.1, assign_in_current_scope) refl, q, (refl, refl, ap is_some q ∙ sym r))
    | inl n ↦ elim (Option-cases (lookup name e.values)) [
      | inl m ↦ inl (rw (own_value, n, m) refl, rw (n, m, assign_in_current_scope) refl)
      | inr c ↦
          let f = record e { values = insert name v e.values } in
          let p : lookup name f.values ≡ some v =
            lookup-insert name name v e.values ∙ ground (arith, beq_refl name) in
          let q : own_value f name ≡ some v = ap (λ o. or_else o (lookup name f.values)) n ∙ p in
          let r : is_some (own_value e name) ≡ true =
            ap (λ o. is_some (or_else o (lookup name e.values))) n ∙ ap is_some c.1 in
          inr (f, rw (n, c.1, assign_in_current_scope) refl, q, (refl, refl, ap is_some q ∙ sym r))
    ]
  ]

  get_elem?-update :
      (s : List (Environment V)) (i : ℕ) (e f : Environment V)
      → get_elem? s i ≡ some e
      → get_elem? (update s i f) i ≡ some f
  unfolding update
  get_elem?-update [] i e f h = cc
  get_elem?-update (x ∷ s) zero e f h = refl
  get_elem?-update (x ∷ s) (suc i) e f h = get_elem?-update s i e f h

  SameAt-update :
      (s : List (Environment V)) (i : ℕ) (e f : Environment V)
      → get_elem? s i ≡ some e
      → Alike (some e) (some f)
      → SameAt s (update s i f)
  unfolding update
  SameAt-update [] i e f h a k = cc
  SameAt-update (x ∷ s) zero e f h a zero = subst (λ o. Alike o (some f)) (sym h) a
  SameAt-update (x ∷ s) zero e f h a (suc k) = Alike-refl (get_elem? s k)
  SameAt-update (x ∷ s) (suc i) e f h a zero = (refl, refl, refl)
  SameAt-update (x ∷ s) (suc i) e f h a (suc k) = SameAt-update s i e f h a k

  at_parent-Alike :
      (f g : ℕ → Option V)
      → ((j : ℕ) → is_some (g j) ≡ is_some (f j))
      → (p q : Option ℕ) → q ≡ p
      → is_some (at_parent g q) ≡ is_some (at_parent f p)
  at_parent-Alike f g h p q e = ap (λ o. is_some (at_parent g o)) e ∙ same p
    where
      same : (o : Option ℕ) → is_some (at_parent g o) ≡ is_some (at_parent f o)
      same none = refl
      same (some j) = h j

  get_in-Alike :
      (f g : ℕ → Option V)
      → ((j : ℕ) → is_some (g j) ≡ is_some (f j))
      → (o u : Option (Environment V)) → Alike o u
      → is_some (get_in name g u) ≡ is_some (get_in name f o)
  unfolding get_in
  get_in-Alike f g h none none w = refl
  get_in-Alike f g h none (some e') w = absurd w
  get_in-Alike f g h (some e) none w = absurd w
  get_in-Alike f g h (some e) (some e') w =
      let c = at_parent-Alike f g h e.closure_parent e'.closure_parent w.0 in
      let d = at_parent-Alike f g h e.enclosing e'.enclosing w.1 in
      ground (
        arith,
        c,
        d,
        w.2,
        is_some-or_else (own_value e' name)
            (or_else (at_parent g e'.closure_parent) (at_parent g e'.enclosing)),
        is_some-or_else (at_parent g e'.closure_parent) (at_parent g e'.enclosing),
        is_some-or_else (own_value e name)
            (or_else (at_parent f e.closure_parent) (at_parent f e.enclosing)),
        is_some-or_else (at_parent f e.closure_parent) (at_parent f e.enclosing),
      )

  -- Both lookups find something, or none does.
  get-SameAt :
      (fuel : ℕ) (s t : List (Environment V)) (i : ℕ)
      → SameAt s t
      → is_some (get fuel t name i) ≡ is_some (get fuel s name i)
  unfolding get
  get-SameAt zero s t i a = refl
  get-SameAt (suc fuel) s t i a =
      get_in-Alike (get fuel s name) (get fuel t name) (λ j. get-SameAt fuel s t j a)
        (get_elem? s i) (get_elem? t i) (a i)

  module _ (v : V) where
    -- What an assignment that goes from `s` to `o` leaves for a lookup that gave `r`, and that
    -- gives `look t` afterwards.
    abbrev pub Assigned :
        List (Environment V)
        → Option (List (Environment V))
        → Option V
        → (List (Environment V) → Option V)
        → Type 0
    Assigned s none r look = r ≡ none
    Assigned s (some t) r look = (is_some r ≡ true) × SameAt s t × (look t ≡ some v)

    at_parent-Assigned :
        (s : List (Environment V)) (f : ℕ → Option (List (Environment V)))
        (g : List (Environment V) → ℕ → Option V)
        → ((j : ℕ) → Assigned s (f j) (g s j) (λ t. g t j))
        → (p : Option ℕ) → Assigned s (at_parent f p) (at_parent (g s) p) (λ t. at_parent (g t) p)
    at_parent-Assigned s f g h none = refl
    at_parent-Assigned s f g h (some j) = h j

    -- The second of two assignments is tried when the first fails; a lookup goes the same way.
    or_else-Assigned :
        (s : List (Environment V)) (o u : Option (List (Environment V)))
        (look look' : List (Environment V) → Option V)
        → ((t : List (Environment V)) → SameAt s t → is_some (look t) ≡ is_some (look s))
        → Assigned s o (look s) look
        → Assigned s u (look' s) look'
        → Assigned s (or_else o u) (or_else (look s) (look' s)) (λ t. or_else (look t) (look' t))
    or_else-Assigned s none none look look' k a b = rw a b
    or_else-Assigned s none (some t) look look' k a b =
        (rw a b.0, b.1, (let n = is_some-none (look t) (k t b.1 ∙ ap is_some a) in rw n b.2))
    or_else-Assigned s (some t) u look look' k a b =
        (is_some-or_else (look s) (look' s) ∙ ground (arith, a.0), a.1, rw a.2 refl)

    Assigned-look :
        (s : List (Environment V)) (o : Option (List (Environment V))) (r r' : Option V)
        (look look' : List (Environment V) → Option V)
        → r ≡ r'
        → ((t : List (Environment V)) → SameAt s t → look t ≡ look' t)
        → Assigned s o r look
        → Assigned s o r' look'
    Assigned-look s none r r' look look' e h a = sym e ∙ a
    Assigned-look s (some t) r r' look look' e h a =
        (ap is_some (sym e) ∙ a.0, a.1, sym (h t a.1) ∙ a.2)

    -- The value in an environment of its own, if there is the environment.
    abbrev own_in : Option (Environment V) → Option V
    own_in none = none
    own_in (some e) = own_value e name

    own_in-Alike :
        (o u : Option (Environment V)) → Alike o u → is_some (own_in u) ≡ is_some (own_in o)
    own_in-Alike none none w = refl
    own_in-Alike none (some e') w = absurd w
    own_in-Alike (some e) none w = absurd w
    own_in-Alike (some e) (some e') w = w.2

    get_in-parents :
        (f : ℕ → Option V) (e : Environment V) (u : Option (Environment V))
        → Alike (some e) u
        → or_else (own_in u) (or_else (at_parent f e.closure_parent) (at_parent f e.enclosing))
          ≡ get_in name f u
    unfolding get_in
    get_in-parents f e none w = absurd w
    get_in-parents f e (some e') w =
        ap (λ p. or_else (own_value e' name) (or_else (at_parent f p) (at_parent f e.enclosing)))
          (sym w.0)
        ∙ ap
            (λ p.
              or_else (own_value e' name) (or_else (at_parent f e'.closure_parent) (at_parent f p)))
            (sym w.1)

    put_back-Assigned :
        (s : List (Environment V)) (i : ℕ) (e : Environment V)
        → get_elem? s i ≡ some e
        → Assigned s
            (put_back s i (assign_in_current_scope e name v))
            (own_in (get_elem? s i))
            (λ t. own_in (get_elem? t i))
    put_back-Assigned s i e h = elim (assign_in-cases e v) [
      | inl c ↦ rw c.1 (ap own_in h ∙ c.0)
      | inr c ↦
          let own : is_some (own_value e name) ≡ true = sym c.3.2 ∙ ap is_some c.2 in
          rw c.1 (
            ap (λ o. is_some (own_in o)) h ∙ own,
            SameAt-update s i e c.0 h c.3,
            ap own_in (get_elem?-update s i e c.0 h) ∙ c.2,
          )
    ]

    -- An assignment fails exactly where a lookup fails. Where it succeeds, the lookup gives the
    -- assigned value afterwards, and every environment has the parents that it had and has the name
    -- where it had it.
    pub assign-Assigned :
        (fuel : ℕ) (s : List (Environment V)) (i : ℕ)
        → Assigned s (assign fuel s name v i) (get fuel s name i) (λ t. get fuel t name i)
    unfolding assign get assign_in get_in
    assign-Assigned zero s i = refl
    assign-Assigned (suc fuel) s i = elim (Option-cases (get_elem? s i)) [
      | inl n ↦
          subst
            (λ o.
              Assigned s (assign_in s name v i (assign fuel s name v) o)
                (get_in name (get fuel s name) o)
                (λ t. get_in name (get fuel t name) (get_elem? t i)))
            (sym n) refl
      | inr e ↦
          let p = e.0.closure_parent in
          let q = e.0.enclosing in
          let f = assign fuel s name v in
          let g = λ (t : List (Environment V)) (j : ℕ). get fuel t name j in
          let ih = λ (j : ℕ). assign-Assigned fuel s j in
          let parents =
            or_else-Assigned s (at_parent f p) (at_parent f q) (λ t. at_parent (g t) p)
              (λ t. at_parent (g t) q)
              (λ t w. at_parent-Alike (g s) (g t) (λ j. get-SameAt fuel s t j w) p p refl)
              (at_parent-Assigned s f g ih p) (at_parent-Assigned s f g ih q) in
          let all =
            or_else-Assigned s (put_back s i (assign_in_current_scope e.0 name v))
              (or_else (at_parent f p) (at_parent f q)) (λ t. own_in (get_elem? t i))
              (λ t. or_else (at_parent (g t) p) (at_parent (g t) q))
              (λ t w. own_in-Alike (get_elem? s i) (get_elem? t i) (w i))
              (put_back-Assigned s i e.0 e.1) parents in
          let alike = λ (t : List (Environment V)) (w : SameAt s t).
            subst (λ o. Alike o (get_elem? t i)) e.1 (w i) in
          let r =
            Assigned-look s
              (or_else (put_back s i (assign_in_current_scope e.0 name v))
                (or_else (at_parent f p) (at_parent f q)))
              (or_else (own_in (get_elem? s i)) (or_else (at_parent (g s) p) (at_parent (g s) q)))
              (get_in name (g s) (get_elem? s i))
              (λ t.
                or_else (own_in (get_elem? t i)) (or_else (at_parent (g t) p) (at_parent (g t) q)))
              (λ t. get_in name (g t) (get_elem? t i))
              (get_in-parents (g s) e.0 (get_elem? s i) (alike s (λ k. Alike-refl (get_elem? s k))))
              (λ t w. get_in-parents (g t) e.0 (get_elem? t i) (alike t w)) all in
          subst
            (λ o.
              Assigned s (assign_in s name v i f o) (get_in name (g s) (get_elem? s i))
                (λ t. get_in name (g t) (get_elem? t i)))
            (sym e.1) r
    ]
