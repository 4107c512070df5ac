-- ===== src/Modules/Manager/Filter.antt =====
-- `filter_symbols` (src/frontend/module_manager.cpp).
use limitly.Prelude.{
  Bool, true, not, ◌&&◌, ◌||◌, Option, none, some, String, string_eq, List, [], ◌∷◌, ◌≡◌, ◌∙◌,
  contains, remove, contains-remove, arith, Bool-cases, inl, inr,
}
use limitly.Modules.Manager.{
  Module, set_insert, ImportFilterType, ImportFilter, show_symbols, hide_symbols, filter_symbols,
}
use limitly.Modules.Manager.Dfs.State.{contains-append}

contains-set_insert :
    (x y : String) (s : List String)
    → contains x (set_insert y s) ≡ (string_eq.beq y x || contains x s)
unfolding set_insert contains
contains-set_insert x y s = elim (Bool-cases (contains y s)) [
  | inl e ↦ ground (arith, e, string_eq.beq_iff y x)
  | inr e ↦ rw e (contains-append x s (y ∷ []) ∙ ground arith)
]

contains-show_symbols :
    (x : String) (symbols ids result : List String)
    → contains x (show_symbols symbols ids result)
      ≡ (contains x result || (contains x ids && contains x symbols))
unfolding show_symbols contains
contains-show_symbols x symbols [] result = ground arith
contains-show_symbols x symbols (id ∷ ids) result = elim (Bool-cases (contains id symbols)) [
  | inl e ↦ rw e (
      contains-show_symbols x symbols ids (set_insert id result)
      ∙ ground (arith, e, contains-set_insert x id result, string_eq.beq_iff id x))
  | inr e ↦
      rw e (contains-show_symbols x symbols ids result ∙ ground (arith, e, string_eq.beq_iff id x))
]

contains-hide_symbols :
    (x : String) (ids result : List String)
    → contains x (hide_symbols ids result) ≡ (contains x result && not (contains x ids))
unfolding hide_symbols contains
contains-hide_symbols x [] result = ground arith
contains-hide_symbols x (id ∷ ids) result =
    contains-hide_symbols x ids (remove id result) ∙ ground (arith, contains-remove id x result)

-- What a filter lets through.
abbrev pub passes : Option ImportFilter → String → Bool
passes none x = true
passes (some f) x = elim f.type [
  | ImportFilterType.show ↦ contains x f.identifiers
  | ImportFilterType.hide ↦ not (contains x f.identifiers)
]

contains-filter_by :
    (m : Module) (type : ImportFilterType) (ids : List String) (x : String)
    → contains x (filter_symbols (some m) (some (record { type = type; identifiers = ids })))
      ≡ (contains x m.public_symbols && passes (some (record { type = type; identifiers = ids })) x)
unfolding filter_symbols contains
contains-filter_by m ImportFilterType.show ids x =
    contains-show_symbols x m.public_symbols ids [] ∙ ground arith
contains-filter_by m ImportFilterType.hide ids x = contains-hide_symbols x ids m.public_symbols

-- The symbols of an import are the public symbols of the module that its filter lets through: all,
-- those that are shown, or those that are not hidden.
pub contains-filter_symbols :
    (m : Module) (filter : Option ImportFilter) (x : String)
    → contains x (filter_symbols (some m) filter) ≡ (contains x m.public_symbols && passes filter x)
unfolding filter_symbols
contains-filter_symbols m none x = ground arith
contains-filter_symbols m (some f) x = contains-filter_by m f.type f.identifiers x
