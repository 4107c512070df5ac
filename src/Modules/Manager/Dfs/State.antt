-- ===== src/Modules/Manager/Dfs/State.antt =====
-- What the depth-first searches of src/frontend/module_manager.cpp keep, and the names that they can meet.
use limitly.Prelude.{
  subst, ℕ, ◌+◌, ◌≤◌, ◌<◌, true, false, ◌||◌, String, string_eq, List, [], ◌∷◌, ◌++◌, ◌≡◌, refl,
  inl, inr, All, All-map, ◌==◌, if◌then◌else◌, insert, contains, lookup-insert, beq_refl, arith,
  Bool-cases,
}
use limitly.Modules.Manager.{Modules}
use limitly.Modules.Manager.Dfs.{state_of, Dfs, dependencies_of}

pub state_of-insert :
    (k j : String) (v : ℕ) (m : List (String × ℕ))
    → state_of (insert k v m) j ≡ (if string_eq.beq k j then v else state_of m j)
unfolding state_of
state_of-insert k j v m = ground (arith, lookup-insert k j v m)

pub contains-append :
    (k : String) (s t : List String) → contains k (s ++ t) ≡ (contains k s || contains k t)
unfolding contains
contains-append k [] t = refl
contains-append k (j ∷ s) t = ground (arith, contains-append k s t)

pub All-contains :
    (P : String → Type 0) (ns : List String) (n : String) → All P ns → contains n ns ≡ true → P n
unfolding contains
All-contains P [] n a h = absurd (ground (arith, h))
All-contains P (m ∷ ns) n a h = elim (Bool-cases (string_eq.beq m n)) [
  | inl e ↦ subst P ((string_eq.beq_iff m n).0 e) a.0
  | inr e ↦ All-contains P ns n a.1 (ground (arith, e, h))
]

pub contains-All :
    (P : String → Type 0) (ns : List String)
    → ((n : String) → contains n ns ≡ true → P n)
    → All P ns
unfolding contains
contains-All P [] f = tt
contains-All P (m ∷ ns) f =
    (f m (ground (arith, beq_refl m)), contains-All P ns (λ n h. f n (ground (arith, h))))

module _ (modules : Modules) where
  -- Names in an order in which each comes once, after its dependencies. `seen` came before.
  abbrev pub IsOrder : List String → List String → Type 0
  IsOrder seen [] = Unit
  IsOrder seen (n ∷ ns) =
      (contains n seen ≡ false)
      × All (λ d. contains d seen ≡ true) (dependencies_of modules n)
      × IsOrder (n ∷ seen) ns

  pub IsOrder-append :
      (seen ns : List String) (n : String)
      → IsOrder seen ns
      → contains n seen ≡ false
      → contains n ns ≡ false
      → All (λ d. (contains d seen || contains d ns) ≡ true) (dependencies_of modules n)
      → IsOrder seen (ns ++ (n ∷ []))
  unfolding contains
  IsOrder-append seen [] n o h k a =
      (h, All-map (λ d e. ground (arith, e)) (dependencies_of modules n) a, tt)
  IsOrder-append seen (m ∷ ns) n o h k a = (
    o.0,
    o.1,
    IsOrder-append (m ∷ seen) ns n o.2 (ground (arith, h, k)) (ground (arith, k))
        (All-map (λ d e. ground (arith, e)) (dependencies_of modules n) a),
  )

  -- A path of one dependency or more.
  pub data Reaches : String → String → Type 0 where
    direct : {m n : String} → contains n (dependencies_of modules m) ≡ true → Reaches m n
    further :
        {l n : String} (m : String)
        → Reaches l m
        → contains n (dependencies_of modules m) ≡ true
        → Reaches l n

  -- The names that are done are those in the order, which is one.
  pub record IsDfs (s : Dfs) : Type 0 where
    pub done : (n : String) → contains n s.order ≡ (state_of s.state n == 2)
    pub ordered : IsOrder [] s.order
    pub known : (n : String) → state_of s.state n < 3

  -- Every dependency of a name is in `universe`.
  abbrev pub IsClosed : List String → Type 0
  IsClosed universe =
      (n d : String) → contains d (dependencies_of modules n) ≡ true → contains d universe ≡ true

-- How many names of a list are untouched.
unfoldable pub untouched : List (String × ℕ) → List String → ℕ
untouched state [] = 0
untouched state (n ∷ ns) = (if state_of state n == 0 then 1 else 0) + untouched state ns

-- What was touched stays as it is.
abbrev pub Keeps : List (String × ℕ) → List (String × ℕ) → Type 0
Keeps s t = (n : String) → (state_of s n == 0) ≡ false → state_of t n ≡ state_of s n

pub Keeps-trans : (s t u : List (String × ℕ)) → Keeps s t → Keeps t u → Keeps s u
Keeps-trans s t u f g n h = ground (arith, f n h, g n)

pub untouched-Keeps :
    (s t : List (String × ℕ)) (ns : List String) → Keeps s t → untouched t ns ≤ untouched s ns
unfolding untouched
untouched-Keeps s t [] k = omega arith
untouched-Keeps s t (n ∷ ns) k = ground (arith, untouched-Keeps s t ns k, k n)

pub Keeps-insert :
    (s : List (String × ℕ)) (n : String) (v : ℕ)
    → (state_of s n == 0) ≡ true
    → Keeps s (insert n v s)
Keeps-insert s n v h j k = ground (arith, state_of-insert n j v s, string_eq.beq_iff n j, h, k)

-- Touching an untouched name of the list leaves fewer.
pub untouched-insert :
    (s : List (String × ℕ)) (ns : List String) (n : String)
    → (state_of s n == 0) ≡ true
    → contains n ns ≡ true
    → untouched (insert n 1 s) ns < untouched s ns
unfolding untouched contains
untouched-insert s [] n h c = absurd (ground (arith, c))
untouched-insert s (m ∷ ns) n h c = elim (Bool-cases (string_eq.beq m n)) [
  | inl e ↦
      let p : m ≡ n = (string_eq.beq_iff m n).0 e in
      let k = untouched-Keeps s (insert n 1 s) ns (Keeps-insert s n 1 h) in
      rw p (ground (arith, h, state_of-insert n n 1 s, beq_refl n, k))
  | inr e ↦
      let k = untouched-insert s ns n h (ground (arith, e, c)) in
      ground (arith, k, Keeps-insert s n 1 h m)
]
