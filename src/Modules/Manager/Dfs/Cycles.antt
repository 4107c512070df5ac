-- ===== src/Modules/Manager/Dfs/Cycles.antt =====
-- `get_topological_order` and `has_circular_dependencies` (src/frontend/module_manager.cpp) against the
-- graph of dependencies.
use limitly.Prelude.{
  ℕ, suc, ◌<◌, Bool, true, false, some, String, string_eq, List, [], ◌∷◌, ◌≡◌, refl, sym, ap, ◌∙◌,
  inl, inr, ◌⊎◌, ◌↔◌, All, All-map, if◌then◌else◌, contains, lookup, beq_refl, arith, Bool-cases,
  subst, length,
}
use limitly.Modules.Manager.{Modules, get_module}
use limitly.Modules.Manager.Dfs.{
  state_of, Dfs, dependencies_of, order_from, get_topological_order, has_circular_dependencies,
}
use limitly.Modules.Manager.Dfs.State.{All-contains, contains-append, IsOrder, Reaches, IsDfs}
use limitly.Modules.Manager.Dfs.Each.{Cycle}
use limitly.Modules.Manager.Dfs.Search.{deps_of, all_names, untouched-start}
use limitly.Modules.Manager.Dfs.Loops.{Ready, Idle, order_from-IsDfs, circular_from-Answered}

all_names-key : (entries : Modules) → All (λ e. contains e.0 (all_names entries) ≡ true) entries
unfolding contains
all_names-key [] = tt
all_names-key ((n, m) ∷ entries) = (
  ground (arith, beq_refl n),
  All-map (λ e h. ground (arith, h, contains-append e.0 m.dependencies (all_names entries))) entries
      (all_names-key entries),
)

-- Where a name stands in a list.
unfoldable index_of : String → List String → ℕ
index_of n [] = 0
index_of n (m ∷ ns) = if string_eq.beq m n then 0 else suc (index_of n ns)

abbrev start : Dfs
start = record { state = []; order = [] }

module _ (modules : Modules) where
  start-IsDfs : IsDfs modules start
  unfolding state_of contains lookup
  start-IsDfs = record { done = λ n. refl; ordered = tt; known = λ n. omega arith }

  start-Ready : (fuel : ℕ) → length (all_names modules) < fuel → Ready modules fuel modules start
  start-Ready fuel l = record {
    is_dfs = start-IsDfs;
    named = all_names-key modules;
    fueled = omega (arith, untouched-start (all_names modules), l);
  }

  start-Idle : (fuel : ℕ) → Idle modules fuel start
  unfolding state_of lookup
  start-Idle fuel n = refl

  -- In an order a dependency comes before what depends on it.
  index_of-dependency :
      (seen ns : List String) (n d : String)
      → IsOrder modules seen ns
      → contains n ns ≡ true
      → contains d (dependencies_of modules n) ≡ true
      → (contains d seen ≡ true) ⊎ (contains d ns ≡ true) × (index_of d ns < index_of n ns)
  unfolding contains index_of
  index_of-dependency seen [] n d o c e = absurd (ground (arith, c))
  index_of-dependency seen (m ∷ ns) n d o c e = elim (Bool-cases (string_eq.beq m n)) [
    | inl f ↦
        let p : m ≡ n = (string_eq.beq_iff m n).0 f in
        inl (
          All-contains (λ d'. contains d' seen ≡ true) (dependencies_of modules m) d o.1
            (subst (λ x. contains d (dependencies_of modules x) ≡ true) (sym p) e))
    | inr f ↦ elim (index_of-dependency (m ∷ seen) ns n d o.2 (ground (arith, f, c)) e) [
      | inl h ↦ elim (Bool-cases (string_eq.beq m d)) [
        | inl g ↦ inr (ground (arith, g), ground (arith, f, g))
        | inr g ↦ inl (ground (arith, g, h))
      ]
      | inr h ↦ inr (ground (arith, h.0), ground (arith, f, h.1))
    ]
  ]

  index_of-Reaches :
      (order : List String) (m n : String)
      → IsOrder modules [] order
      → contains m order ≡ true
      → Reaches modules m n
      → (contains n order ≡ true) × (index_of n order < index_of m order)
  unfolding contains
  index_of-Reaches order m n o c (Reaches.direct e) =
      elim (index_of-dependency [] order m n o c e) [
        | inl h ↦ absurd (ground (arith, h))
        | inr h ↦ h
      ]
  index_of-Reaches order l n o c (Reaches.further m r e) =
      let h = index_of-Reaches order l m o c r in
      elim (index_of-dependency [] order m n o h.0 e) [
        | inl k ↦ absurd (ground (arith, k))
        | inr k ↦ (k.0, omega (arith, k.1, h.1))
      ]

  Reaches-dependency :
      (m n : String)
      → Reaches modules m n
      → (d : String) × (contains d (dependencies_of modules m) ≡ true)
  Reaches-dependency m n (Reaches.direct e) = (n, e)
  Reaches-dependency m n (Reaches.further k r e) = Reaches-dependency m k r

-- What holds of all modules holds of a name that has dependencies.
All-with_dependencies :
    (P : String → Type 0) (entries : Modules) (n d : String)
    → All (λ e. P e.0) entries
    → contains d (dependencies_of entries n) ≡ true
    → P n
unfolding dependencies_of get_module lookup contains
All-with_dependencies P [] n d a c = absurd (ground (arith, c))
All-with_dependencies P ((k, m) ∷ entries) n d a c = elim (Bool-cases (string_eq.beq k n)) [
  | inl f ↦ subst P ((string_eq.beq_iff k n).0 f) a.0
  | inr f ↦
      All-with_dependencies P entries n d a.1
        (subst (λ b. contains d (deps_of (if b then some m else lookup n entries)) ≡ true) f c)
]

module _ (modules : Modules) (fuel : ℕ) where
  -- When no cycle is reported, all modules are ordered.
  done_order :
      length (all_names modules) < fuel
      → has_circular_dependencies modules fuel ≡ some false
      → (t : Dfs) × (order_from modules fuel modules start ≡ some t)
        × IsDfs modules t
        × All (λ e. contains e.0 t.order ≡ true) modules
  unfolding has_circular_dependencies
  done_order l h =
      let r =
        circular_from-Answered modules fuel modules start (start-Ready modules fuel l)
          (start-Idle modules fuel) in
      let e : some r.0 ≡ some false = sym r.1 ∙ h in
      let b : r.0 ≡ false = cc in
      let o = r.2.all_ordered b in
      let t = order_from-IsDfs modules fuel modules start (start-Ready modules fuel l) in
      let p : some t.0 ≡ some o.0 = sym t.1 ∙ o.1 in
      let q : t.0 ≡ o.0 = cc in
      let w = subst (IsDfs modules) q t.2 in
      (o.0, o.1, w, All-map (λ e d. w.done e.0 ∙ d) modules o.3)

  -- With a unit of fuel for every name in the dependencies, and one more, the check for cycles ends,
  -- and answers true exactly when some name reaches itself by dependencies.
  pub has_circular_dependencies_iff :
      length (all_names modules) < fuel
      → (b : Bool) × (has_circular_dependencies modules fuel ≡ some b)
        × ((b ≡ true) ↔ Cycle modules)
  unfolding has_circular_dependencies
  has_circular_dependencies_iff l =
      let r =
        circular_from-Answered modules fuel modules start (start-Ready modules fuel l)
          (start-Idle modules fuel) in
      (
        r.0,
        r.1,
        (
          r.2.cyclic,
          λ c. elim (Bool-cases r.0) [
            | inl b ↦ b
            | inr b ↦
                let o = done_order l (r.1 ∙ ap some b) in
                let d = Reaches-dependency modules c.0 c.0 c.1 in
                let k =
                  All-with_dependencies (λ n. contains n o.0.order ≡ true) modules c.0 d.0 o.3
                    d.1 in
                let i = index_of-Reaches modules o.0.order c.0 c.0 o.2.ordered k c.1 in
                absurd (omega (arith, i.1))
          ],
        ),
      )

  -- With a unit of fuel for every name in the dependencies, and one more, the order of modules is
  -- given: each name in it comes once and after all its dependencies, and it holds every module when
  -- no cycle is reported.
  pub get_topological_order-IsOrder :
      length (all_names modules) < fuel
      → (order : List String) × (get_topological_order modules fuel ≡ some order)
        × IsOrder modules [] order
        × (has_circular_dependencies modules fuel ≡ some false
            → All (λ e. contains e.0 order ≡ true) modules)
  unfolding get_topological_order
  get_topological_order-IsOrder l =
      let t = order_from-IsDfs modules fuel modules start (start-Ready modules fuel l) in
      (
        t.0.order,
        rw (get_topological_order, t.1) refl,
        t.2.ordered,
        λ h.
            let o = done_order l h in
            let p : some t.0 ≡ some o.0 = sym t.1 ∙ o.1 in
            let q : t.0 ≡ o.0 = cc in
            subst (λ (s : Dfs). All (λ e. contains e.0 s.order ≡ true) modules) (sym q) o.3,
      )
