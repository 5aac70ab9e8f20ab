-- ===== src/Prelude/Maps.antt =====
-- Go's `map[string]V` as an association list. A nil map and an empty one answer every use in the
-- code alike, so both are `[]`. The code never shows the order in which it walks a map.
use Prim.Native.String.{String}
use mathlib.Core.Path.{◌≡◌}
use mathlib.Core.Bool.{Bool}
use mathlib.Core.List.{List, [], ◌∷◌}
use mathlib.Core.Option.{Option, none, some}
use native.Mathlib.Omega.{arith}
use text.Mathlib.Text.{◌==◌}
use text.Mathlib.TextEquality.{eq_iff}
use mildstack.Prelude.Tests.{if◌then◌else◌}

abbrev pub Map {ℓ} : Type ℓ → Type ℓ
Map V = List (String × V)

module _ {ℓ} {V : Type ℓ} where
  -- `value, found := entries[key]`
  unfoldable pub lookup : String → Map V → Option V
  lookup key [] = none
  lookup key ((name, value) ∷ entries) =
      let later = lookup key entries in if name == key then some value else later

  -- `delete(entries, key)`
  unfoldable pub delete : String → Map V → Map V
  delete key [] = []
  delete key ((name, value) ∷ entries) =
      let rest = delete key entries in if name == key then rest else (name, value) ∷ rest

  -- `entries[key] = value`
  unfoldable pub insert : String → V → Map V → Map V
  unfolding delete
  insert key value entries = (key, value) ∷ delete key entries

  -- `for k, v := range m { if !keep(k, v) { delete(m, k) } }`
  unfoldable pub retain : (String → V → Bool) → Map V → Map V
  retain keep [] = []
  retain keep ((name, value) ∷ entries) =
      let rest = retain keep entries in if keep name value then (name, value) ∷ rest else rest

  pub lookup-delete :
      (gone key : String) (entries : Map V)
      → lookup key (delete gone entries) ≡ (if gone == key then none else lookup key entries)
  unfolding lookup delete
  lookup-delete gone key [] = ground arith
  lookup-delete gone key ((name, value) ∷ entries) =
      ground
        (arith, eq_iff name gone, eq_iff name key, eq_iff gone key, lookup-delete gone key entries)

  pub lookup-insert :
      (new key : String) (value : V) (entries : Map V)
      → lookup key (insert new value entries)
        ≡ (if new == key then some value else lookup key entries)
  unfolding lookup insert
  lookup-insert new key value entries = ground (arith, lookup-delete new key entries)

-- `m[k]` of a `map[string]string`: a key that is missing reads as the empty text.
abbrev or_empty : Option String → String
or_empty none = ""
or_empty (some v) = v

unfoldable pub get_text : String → Map String → String
unfolding lookup
get_text key entries = or_empty (lookup key entries)

pub get_text-insert :
    (new key value : String) (entries : Map String)
    → get_text key (insert new value entries) ≡ (if new == key then value else get_text key entries)
unfolding get_text
get_text-insert new key value entries = ground (arith, lookup-insert new key value entries)
