-- ===== src/Modules/Manager/Dfs/Each.antt =====
-- What a part of the depth-first search of src/frontend/module_manager.cpp leaves, and the loop over
-- dependencies.
use limitly.Prelude.{
  ℕ, ◌<◌, Bool, true, false, Option, some, String, string_eq, List, [], ◌∷◌, ◌≡◌, refl, inl, inr,
  All, All-map, ◌==◌, contains, arith, Bool-cases,
}
use limitly.Modules.Manager.{Modules}
use limitly.Modules.Manager.Dfs.{state_of, Dfs, visit_each}
use limitly.Modules.Manager.Dfs.State.{
  Reaches, IsDfs, untouched, Keeps, Keeps-trans, untouched-Keeps,
}

module _ (modules : Modules) where
  -- Every name on the way reaches `n`.
  abbrev pub IsPath : List (String × ℕ) → String → Type 0
  IsPath s n = (m : String) → (state_of s m == 1) ≡ true → Reaches modules m n

  abbrev pub Cycle : Type 0
  Cycle = (n : String) × Reaches modules n n

  -- A search from `s` that gave `r` for the names `ns`.
  pub record Searched (ns : List String) (s : Dfs) (r : Bool × Dfs) : Type 0 where
    pub is_dfs : IsDfs modules r.1
    pub keeps : Keeps s.state r.1.state
    pub all_done : r.0 ≡ true → All (λ n. (state_of r.1.state n == 2) ≡ true) ns
    pub same_way :
        r.0 ≡ true
        → (n : String) → (state_of r.1.state n == 1) ≡ true
        → (state_of s.state n == 1) ≡ true
    pub cyclic : r.0 ≡ false → All (IsPath s.state) ns → Cycle

  abbrev pub Ends : List String → Dfs → Option (Bool × Dfs) → Type 0
  Ends ns s o = (r : Bool × Dfs) × (o ≡ some r) × Searched ns s r

  -- The loop over dependencies, by what one visit does.
  pub visit_each-Ends :
      (universe : List String) (fuel : ℕ) (f : String → Dfs → Option (Bool × Dfs))
      → ((n : String) (s : Dfs)
          → IsDfs modules s
          → contains n universe ≡ true
          → untouched s.state universe < fuel
          → Ends (n ∷ []) s (f n s))
      → (ns : List String) (s : Dfs) → IsDfs modules s
      → All (λ n. contains n universe ≡ true) ns
      → untouched s.state universe < fuel
      → Ends ns s (visit_each f ns s)
  unfolding visit_each
  visit_each-Ends universe fuel f h [] s w c l = (
    (true, s),
    refl,
    record {
      is_dfs = w;
      keeps = λ n k. refl;
      all_done = λ _. tt;
      same_way = λ _ n k. k;
      cyclic = λ e. absurd (ground (arith, e));
    },
  )
  visit_each-Ends universe fuel f h (n ∷ ns) s w c l =
      let v = h n s w c.0 l in
      elim (Bool-cases v.0.0) [
        | inr e ↦ (
          (false, v.0.1),
          rw (v.1, e, visit_each) refl,
          record {
            is_dfs = v.2.is_dfs;
            keeps = v.2.keeps;
            all_done = λ x. absurd (ground (arith, x));
            same_way = λ x. absurd (ground (arith, x));
            cyclic = λ x p. v.2.cyclic e (p.0, tt);
          },
        )
        | inl e ↦
            let k = untouched-Keeps s.state v.0.1.state universe v.2.keeps in
            let r =
              visit_each-Ends universe fuel f h ns v.0.1 v.2.is_dfs c.1 (omega (arith, k, l)) in
            (
              r.0,
              rw (v.1, e, visit_each) r.1,
              record {
                is_dfs = r.2.is_dfs;
                keeps = Keeps-trans s.state v.0.1.state r.0.1.state v.2.keeps r.2.keeps;
                all_done = λ x.
                    (let d = (v.2.all_done e).0 in ground (arith, d, r.2.keeps n), r.2.all_done x);
                same_way = λ x m y. v.2.same_way e m (r.2.same_way x m y);
                cyclic = λ x p. r.2.cyclic x (All-map (λ m q i y. q i (v.2.same_way e i y)) ns p.1);
              },
            )
      ]
