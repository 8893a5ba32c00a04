-- ===== src/Adapters/Registry.antt =====
-- adapters/registry.py. The module's dict `_ADAPTERS` is a list of adapters in the order of their
-- registration, each under its own name.
use omniscan.Prelude.{String, ◌<>◌, ◌==◌, ◌≡◌, refl, eq_iff, true, none, some}
use omniscan.Prelude.{List, [], ◌∷◌, ◌++◌, map, select, contains, arith, Option-cases, inl, inr}
use omniscan.Prelude.{eq_refl, Bool-cases}
use omniscan.Prelude.Table.{find_by, find_by-append_none}
use omniscan.Prelude.Try.{Try, ok, raise, value_error, key_error, ◌>>=◌}
use omniscan.Core.Enums.{ScanClass, same_class}
use omniscan.Adapters.Base.{ScannerAdapter}

abbrev pub Registry : Type 0
Registry = List ScannerAdapter

abbrev pub name_of : ScannerAdapter → String
name_of a = a.name

unfoldable pub register : ScannerAdapter → Registry → Try Registry
register adapter adapters = elim (find_by name_of adapter.name adapters) [
  | none ↦ ok (adapters ++ adapter ∷ [])
  | some other ↦ raise (value_error ("adapter already registered: " <> adapter.name))
]

-- The calls of `register` at the end of the module.
unfoldable pub register_all : List ScannerAdapter → Registry → Try Registry
unfolding register
register_all [] adapters = ok adapters
register_all (a ∷ as_) adapters = do more ← register a adapters; register_all as_ more

unfoldable pub get : Registry → String → Try ScannerAdapter
get adapters name = elim (find_by name_of name adapters) [
  | none ↦ raise (key_error ("unknown adapter: " <> name))
  | some a ↦ ok a
]

unfoldable pub for_class : Registry → ScanClass → List ScannerAdapter
for_class adapters scan_class = select (λ a. same_class a.scan_class scan_class) adapters

unfoldable pub names_for_class : Registry → ScanClass → List String
unfolding for_class
names_for_class adapters scan_class = map name_of (for_class adapters scan_class)

unfoldable pub default_tools : Registry → ScanClass → List String
default_tools adapters scan_class = elim (names_for_class adapters scan_class) [
  | [] ↦ []
  | name ∷ names ↦ name ∷ []
]

-- No two adapters have one name.
abbrev pub IsRegistry : Registry → Type 0
IsRegistry [] = Unit
IsRegistry (a ∷ as_) = (find_by name_of a.name as_ ≡ none) × IsRegistry as_

append-IsRegistry :
    (a : ScannerAdapter) (r : Registry)
    → find_by name_of a.name r ≡ none
    → IsRegistry r
    → IsRegistry (r ++ a ∷ [])
unfolding find_by
append-IsRegistry a [] h i = (refl, tt)
append-IsRegistry a (b ∷ r) h (fresh, i) = (
  ground (
    arith,
    find_by-append_none name_of b.name a r fresh,
    eq_iff a.name b.name,
    eq_iff b.name a.name,
  ),
  append-IsRegistry a r (ground arith) i,
)

register-IsRegistry :
    (a : ScannerAdapter) (r s : Registry) → register a r ≡ ok s → IsRegistry r → IsRegistry s
unfolding register
register-IsRegistry a r s h i = elim (Option-cases (find_by name_of a.name r)) [
  | inl e ↦ ground (arith, append-IsRegistry a r e i)
  | inr (b, e) ↦ absurd (ground arith)
]

get-register : (a : ScannerAdapter) (r s : Registry) → register a r ≡ ok s → get s a.name ≡ ok a
unfolding register get
get-register a r s h = elim (Option-cases (find_by name_of a.name r)) [
  | inl e ↦ ground (arith, find_by-append_none name_of a.name a r e, eq_refl a.name)
  | inr (b, e) ↦ absurd (ground arith)
]

names_in_registry :
    (r : Registry) (c : ScanClass) (name : String)
    → contains (names_for_class r c) name ≡ true
    → (a : ScannerAdapter) × (find_by name_of name r ≡ some a)
unfolding names_for_class find_by
names_in_registry [] c name h = cc
names_in_registry (a ∷ r) c name h = elim (Bool-cases (a.name == name)) [
  | inl e ↦ (a, ground arith)
  | inr e ↦ let (b, found) = names_in_registry r c name (ground arith) in (b, ground arith)
]

-- A name listed for a class can be looked up.
pub get-names_for_class :
    (r : Registry) (c : ScanClass) (name : String)
    → contains (names_for_class r c) name ≡ true
    → (a : ScannerAdapter) × (get r name ≡ ok a)
unfolding get
get-names_for_class r c name h = let (a, found) = names_in_registry r c name h in (a, ground arith)
