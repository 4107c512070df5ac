-- ===== src/Modules/Manager/Dfs/Loops.antt =====
-- The loops of `get_topological_order` and `has_circular_dependencies` over all modules
-- (src/frontend/module_manager.cpp).
use limitly.Prelude.{
  ℕ, ◌<◌, Bool, true, false, some, String, string_eq, [], ◌∷◌, ◌≡◌, refl, inl, inr, All, ◌==◌,
  contains, arith, Bool-cases,
}
use limitly.Modules.Manager.{Module, Modules}
use limitly.Modules.Manager.Dfs.{state_of, Dfs, visit, order_from, circular_from}
use limitly.Modules.Manager.Dfs.State.{IsDfs, untouched, Keeps, Keeps-trans, untouched-Keeps}
use limitly.Modules.Manager.Dfs.Each.{Cycle, Searched, Ends}
use limitly.Modules.Manager.Dfs.Visit.{visit-Ends}
use limitly.Modules.Manager.Dfs.Search.{all_names, all_names-IsClosed, check-visit}

module _ (modules : Modules) (fuel : ℕ) where
  -- A search over the entries that are left.
  pub record Ready (entries : Modules) (s : Dfs) : Type 0 where
    pub is_dfs : IsDfs modules s
    pub named : All (λ e. contains e.0 (all_names modules) ≡ true) entries
    pub fueled : untouched s.state (all_names modules) < fuel

  -- Nothing is on the way.
  abbrev pub Idle : Dfs → Type 0
  Idle s = (n : String) → (state_of s.state n == 1) ≡ false

  entry-Ends :
      (n : String) (m : Module) (entries : Modules) (s : Dfs)
      → Ready ((n, m) ∷ entries) s
      → Ends modules (n ∷ []) s (visit modules fuel n s)
  entry-Ends n m entries s w =
      visit-Ends modules (all_names modules) (all_names-IsClosed modules) fuel n s w.is_dfs
        w.named.0 w.fueled

  next-Ready :
      (n : String) (m : Module) (entries : Modules) (s : Dfs) (r : Bool × Dfs)
      → Ready ((n, m) ∷ entries) s
      → Searched modules (n ∷ []) s r
      → Ready entries r.1
  next-Ready n m entries s r w v = record {
    is_dfs = v.is_dfs;
    named = w.named.1;
    fueled = omega (arith, untouched-Keeps s.state r.1.state (all_names modules) v.keeps, w.fueled);
  }

  -- The loop of `get_topological_order` ends, whether or not there are cycles.
  pub order_from-IsDfs :
      (entries : Modules) (s : Dfs)
      → Ready entries s
      → (t : Dfs) × (order_from modules fuel entries s ≡ some t) × IsDfs modules t
  unfolding order_from
  order_from-IsDfs [] s w = (s, refl, w.is_dfs)
  order_from-IsDfs ((n, m) ∷ entries) s w = elim (Bool-cases (state_of s.state n == 0)) [
    | inr e ↦
        let r =
          order_from-IsDfs entries s
            (record { is_dfs = w.is_dfs; named = w.named.1; fueled = w.fueled }) in
        (r.0, rw (order_from, e) r.1, r.2)
    | inl e ↦
        let v = entry-Ends n m entries s w in
        let r = order_from-IsDfs entries v.0.1 (next-Ready n m entries s v.0 w v.2) in
        (r.0, rw (order_from, e, v.1) r.1, r.2)
  ]

  -- What the loop of `has_circular_dependencies` answers.
  pub record Answered (entries : Modules) (s : Dfs) (b : Bool) : Type 0 where
    pub cyclic : b ≡ true → Cycle modules
    pub all_ordered :
        b ≡ false
        → (t : Dfs) × (order_from modules fuel entries s ≡ some t)
          × Keeps s.state t.state
          × All (λ e. (state_of t.state e.0 == 2) ≡ true) entries

  pub circular_from-Answered :
      (entries : Modules) (s : Dfs)
      → Ready entries s
      → Idle s
      → (b : Bool) × (circular_from modules fuel entries s.state ≡ some b) × Answered entries s b
  unfolding order_from circular_from
  circular_from-Answered [] s w i = (
    false,
    refl,
    record {
      cyclic = λ e. absurd (ground (arith, e));
      all_ordered = λ e. (s, refl, λ n h. refl, tt);
    },
  )
  circular_from-Answered ((n, m) ∷ entries) s w i = elim (Bool-cases (state_of s.state n == 0)) [
    | inr e ↦
        let r =
          circular_from-Answered entries s
            (record { is_dfs = w.is_dfs; named = w.named.1; fueled = w.fueled }) i in
        (
          r.0,
          rw (circular_from, e) r.1,
          record {
            cyclic = r.2.cyclic;
            all_ordered = λ x.
                let o = r.2.all_ordered x in
                (
                  o.0,
                  rw (order_from, e) o.1,
                  o.2,
                  (ground (arith, o.2 n, e, i n, w.is_dfs.known n), o.3),
                );
          },
        )
    | inl e ↦
        let v = entry-Ends n m entries s w in
        let c = check-visit modules fuel n s in
        elim (Bool-cases v.0.0) [
          | inr f ↦ (
            true,
            rw (circular_from, e, c, v.1, f) refl,
            record {
              cyclic = λ _. v.2.cyclic f ((λ k y. absurd (ground (arith, i k, y))), tt);
              all_ordered = λ x. absurd (ground (arith, x));
            },
          )
          | inl f ↦
              let idle : Idle v.0.1 = λ k. ground (arith, v.2.same_way f k, i k) in
              let r =
                circular_from-Answered entries v.0.1 (next-Ready n m entries s v.0 w v.2) idle in
              (
                r.0,
                rw (circular_from, e, c, v.1, f) r.1,
                record {
                  cyclic = r.2.cyclic;
                  all_ordered = λ x.
                      let o = r.2.all_ordered x in
                      (
                        o.0,
                        rw (order_from, e, v.1) o.1,
                        Keeps-trans s.state v.0.1.state o.0.state v.2.keeps o.2,
                        (let d = (v.2.all_done f).0 in ground (arith, o.2 n, d), o.3),
                      );
                },
              )
        ]
  ]
