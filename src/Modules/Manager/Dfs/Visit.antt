-- ===== src/Modules/Manager/Dfs/Visit.antt =====
-- One visit of the depth-first search of src/frontend/module_manager.cpp: it ends, keeps the order, and
-- when it fails there is a cycle.
use limitly.Prelude.{
  ℕ, zero, suc, ◌<◌, Bool, true, false, Option, String, string_eq, List, [], ◌∷◌, ◌++◌, ◌≡◌, refl,
  ◌∙◌, inl, inr, All, All-map, ◌==◌, insert, contains, beq_refl, arith, Bool-cases, subst,
}
use limitly.Modules.Manager.{Modules}
use limitly.Modules.Manager.Dfs.{state_of, Dfs, dependencies_of, visit_each, finish_visit, visit}
use limitly.Modules.Manager.Dfs.State.{
  state_of-insert, contains-append, contains-All, IsOrder-append, Reaches, IsDfs, IsClosed,
  untouched, Keeps-trans, Keeps-insert, untouched-insert,
}
use limitly.Modules.Manager.Dfs.Each.{IsPath, Ends, visit_each-Ends}

module _ (modules : Modules) where
  -- The search has set out for `n`.
  abbrev enter : String → Dfs → Dfs
  enter n s = record s { state = insert n 1 s.state }

  enter-IsDfs :
      (n : String) (s : Dfs)
      → IsDfs modules s
      → (state_of s.state n == 0) ≡ true
      → IsDfs modules (enter n s)
  enter-IsDfs n s w z = record {
    done = λ m. w.done m ∙ ground (arith, state_of-insert n m 1 s.state, string_eq.beq_iff n m, z);
    ordered = w.ordered;
    known = λ m. ground (arith, state_of-insert n m 1 s.state, w.known m);
  }

  -- The search is done with `n`.
  abbrev leave : String → Dfs → Dfs
  leave n s = record { state = insert n 2 s.state; order = s.order ++ (n ∷ []) }

  leave-IsDfs :
      (n : String) (s : Dfs)
      → IsDfs modules s
      → state_of s.state n ≡ 1
      → All (λ d. (state_of s.state d == 2) ≡ true) (dependencies_of modules n)
      → IsDfs modules (leave n s)
  unfolding contains
  leave-IsDfs n s w z a = record {
    done = λ m.
        contains-append m s.order (n ∷ [])
        ∙ ground (arith, w.done m, state_of-insert n m 2 s.state);
    ordered =
        IsOrder-append modules [] s.order n w.ordered refl (ground (arith, w.done n, z))
          (All-map (λ d e. ground (arith, w.done d, e)) (dependencies_of modules n) a);
    known = λ m. ground (arith, state_of-insert n m 2 s.state, w.known m);
  }

  enter-IsPath :
      (n : String) (s : Dfs)
      → IsPath modules s.state n
      → All (IsPath modules (enter n s).state) (dependencies_of modules n)
  enter-IsPath n s p =
      contains-All (IsPath modules (enter n s).state) (dependencies_of modules n) (λ d c m y.
        elim (Bool-cases (string_eq.beq n m)) [
          | inl e ↦
              subst (λ x. Reaches modules x d) ((string_eq.beq_iff n m).0 e) (Reaches.direct c)
          | inr e ↦ Reaches.further n (p m (ground (arith, state_of-insert n m 1 s.state, e, y))) c
        ])

  -- The search through the dependencies of an untouched name.
  finish_visit-Ends :
      (n : String) (s : Dfs) (o : Option (Bool × Dfs))
      → (state_of s.state n == 0) ≡ true
      → Ends modules (dependencies_of modules n) (enter n s) o
      → Ends modules (n ∷ []) s (finish_visit n o)
  unfolding finish_visit
  finish_visit-Ends n s o z e =
      let t = e.0.1 in
      let keeps =
        Keeps-trans s.state (insert n 1 s.state) t.state (Keeps-insert s.state n 1 z) e.2.keeps in
      elim (Bool-cases e.0.0) [
        | inr f ↦ (
          (false, t),
          rw (e.1, f, finish_visit) refl,
          record {
            is_dfs = e.2.is_dfs;
            keeps = keeps;
            all_done = λ x. absurd (ground (arith, x));
            same_way = λ x. absurd (ground (arith, x));
            cyclic = λ x p. e.2.cyclic f (enter-IsPath n s p.0);
          },
        )
        | inl f ↦
            let one : state_of t.state n ≡ 1 = ground (
              arith,
              e.2.keeps n,
              state_of-insert n n 1 s.state,
              string_eq.beq_iff n n,
              beq_refl n,
            ) in
            (
              (true, leave n t),
              rw (e.1, f, finish_visit) refl,
              record {
                is_dfs = leave-IsDfs n t e.2.is_dfs one (e.2.all_done f);
                keeps = λ m y.
                    ground (
                      arith,
                      keeps m y,
                      state_of-insert n m 2 t.state,
                      string_eq.beq_iff n m,
                      y,
                      z,
                    );
                all_done = λ _. (ground (arith, state_of-insert n n 2 t.state, beq_refl n), tt);
                same_way = λ _ m y. ground (
                  arith,
                  e.2.same_way f m,
                  state_of-insert n m 2 t.state,
                  state_of-insert n m 1 s.state,
                  y,
                );
                cyclic = λ x. absurd (ground (arith, x));
              },
            )
      ]

  -- A visit of a name ends when there is a unit of fuel for each untouched name, and one more.
  pub visit-Ends :
      (universe : List String)
      → IsClosed modules universe
      → (fuel : ℕ) (n : String) (s : Dfs) → IsDfs modules s
      → contains n universe ≡ true
      → untouched s.state universe < fuel
      → Ends modules (n ∷ []) s (visit modules fuel n s)
  unfolding visit
  visit-Ends universe closed zero n s w c l = absurd (omega (arith, l))
  visit-Ends universe closed (suc fuel) n s w c l = elim (Bool-cases (state_of s.state n == 1)) [
    | inl e ↦ (
      (false, s),
      rw (e, visit) refl,
      record {
        is_dfs = w;
        keeps = λ m k. refl;
        all_done = λ x. absurd (ground (arith, x));
        same_way = λ x. absurd (ground (arith, x));
        cyclic = λ x p. (n, p.0 n e);
      },
    )
    | inr e ↦ elim (Bool-cases (state_of s.state n == 2)) [
      | inl f ↦ (
        (true, s),
        rw (e, f, visit) refl,
        record {
          is_dfs = w;
          keeps = λ m k. refl;
          all_done = λ x. (f, tt);
          same_way = λ x m k. k;
          cyclic = λ x. absurd (ground (arith, x));
        },
      )
      | inr f ↦
          let z : (state_of s.state n == 0) ≡ true = ground (arith, w.known n, e, f) in
          let k = untouched-insert s.state universe n z c in
          rw (e, f, visit)
            (finish_visit-Ends n s
              (visit_each (visit modules fuel) (dependencies_of modules n) (enter n s)) z
              (visit_each-Ends modules universe fuel (visit modules fuel)
                (visit-Ends universe closed fuel) (dependencies_of modules n) (enter n s)
                (enter-IsDfs n s w z)
                (contains-All (λ d. contains d universe ≡ true) (dependencies_of modules n)
                  (λ d y. closed n d y))
                (omega (arith, k, l))))
    ]
  ]
