-- ===== src/Modules/Manager/Loading/Select.antt =====
-- What a round of `resolve_all` (src/frontend/module_manager.cpp) selects to load.
use limitly.Prelude.{
  ℕ, ◌+◌, ◌≤◌, ◌<◌, true, false, ◌||◌, String, string_eq, List, [], ◌∷◌, ◌≡◌, subst, contains,
  if◌then◌else◌, arith, Bool-cases, inl, inr,
}
use limitly.Modules.Manager.{Modules, is_loaded, select}

-- The names of a list that are not in another.
unfoldable pub missing_count : List String → List String → ℕ
unfolding contains
missing_count processing [] = 0
missing_count processing (n ∷ ns) =
    (if contains n processing then 0 else 1) + missing_count processing ns

abbrev pub Includes : List String → List String → Type 0
Includes s t = (n : String) → contains n s ≡ true → contains n t ≡ true

pub missing_count-Includes :
    (s t ns : List String) → Includes s t → missing_count t ns ≤ missing_count s ns
unfolding missing_count
missing_count-Includes s t [] i = omega arith
missing_count-Includes s t (n ∷ ns) i = ground (arith, missing_count-Includes s t ns i, i n)

pub missing_count-fewer :
    (s t ns : List String) (p : String)
    → Includes s t
    → contains p ns ≡ true
    → contains p s ≡ false
    → contains p t ≡ true
    → missing_count t ns < missing_count s ns
unfolding missing_count contains
missing_count-fewer s t [] p i c a b = absurd (ground (arith, c))
missing_count-fewer s t (n ∷ ns) p i c a b = elim (Bool-cases (string_eq.beq n p)) [
  | inl e ↦
      let q : n ≡ p = (string_eq.beq_iff n p).0 e in
      rw q (ground (arith, a, b, missing_count-Includes s t ns i))
  | inr e ↦ ground (arith, missing_count-fewer s t ns p i (ground (arith, e, c)) a b, i n)
]

-- What the first loop of a round selects.
pub record Selects (modules : Modules) (worklist processing : List String)
    (r : List String × List String) : Type 0 where
  pub kept : Includes processing r.1
  pub chosen : Includes r.0 r.1
  pub fresh :
      (p : String)
      → contains p r.0 ≡ true
      → (contains p worklist ≡ true) × (contains p processing ≡ false)
  pub from : (p : String) → contains p r.1 ≡ true → (contains p processing || contains p r.0) ≡ true
  pub settled :
      (p : String) → contains p worklist ≡ true → (is_loaded modules p || contains p r.1) ≡ true

pub select-Selects :
    (modules : Modules) (worklist processing : List String)
    → Selects modules worklist processing (select modules worklist processing)
unfolding select contains
select-Selects modules [] processing = record {
  kept = λ n c. c;
  chosen = λ n c. absurd (ground (arith, c));
  fresh = λ p c. absurd (ground (arith, c));
  from = λ p c. ground (arith, c);
  settled = λ p c. absurd (ground (arith, c));
}
select-Selects modules (path ∷ worklist) processing =
    elim (Bool-cases (is_loaded modules path || contains path processing)) [
      | inl e ↦
          let r = select-Selects modules worklist processing in
          rw (select, e)
            (record {
              kept = r.kept;
              chosen = r.chosen;
              fresh = λ p c. let f = r.fresh p c in (ground (arith, f.0), f.1);
              from = r.from;
              settled = λ p c. elim (Bool-cases (string_eq.beq path p)) [
                | inr f ↦ r.settled p (ground (arith, c, f))
                | inl f ↦
                    let q = (string_eq.beq_iff path p).0 f in
                    let g =
                      subst (λ x. (is_loaded modules x || contains x processing) ≡ true) q e in
                    ground (arith, g, r.kept p)
              ];
            })
      | inr e ↦
          let r = select-Selects modules worklist (path ∷ processing) in
          rw (select, e)
            (record {
              kept = λ n c. r.kept n (ground (arith, c));
              chosen = λ n c. ground (arith, c, r.chosen n, r.kept n);
              fresh = λ p c. elim (Bool-cases (string_eq.beq path p)) [
                | inr f ↦ let g = r.fresh p (ground (arith, c, f)) in ground (arith, g.0, g.1)
                | inl f ↦
                    let q = (string_eq.beq_iff path p).0 f in
                    let g =
                      subst (λ x. (is_loaded modules x || contains x processing) ≡ false) q e in
                    ground (arith, g, f)
              ];
              from = λ p c. ground (arith, r.from p c);
              settled = λ p c. ground (arith, c, r.settled p, r.kept p);
            })
    ]
