-- ===== src/Prelude/Nested.antt =====
-- Go's `map[string]map[string]V`: a value per bucket and key.
use mildstack.Prelude.Tests.{if◌then◌else◌}
use mildstack.Prelude.Maps.{Map, lookup, insert, delete, lookup-insert, lookup-delete}
use Prim.Native.String.{String}
use mathlib.Core.Path.{◌≡◌, refl}
use mathlib.Core.Bool.{◌&&◌}
use mathlib.Core.Option.{Option, none, some}
use mathlib.Core.List.{[], ◌∷◌}
use native.Mathlib.Omega.{arith}
use text.Mathlib.Text.{◌==◌}
use text.Mathlib.TextEquality.{eq_iff}

module _ {ℓ} {V : Type ℓ} where
  abbrev or_empty : Option (Map V) → Map V
  or_empty none = []
  or_empty (some inner) = inner

  -- `entries[bucket][key]`; a bucket that is missing has no keys.
  unfoldable pub nested_lookup : String → String → Map (Map V) → Option V
  unfolding lookup
  nested_lookup bucket key entries = lookup key (or_empty (lookup bucket entries))

  -- `entries[bucket][key] = value`, which makes the map of the bucket where it is missing
  unfoldable pub nested_insert : String → String → V → Map (Map V) → Map (Map V)
  unfolding insert lookup
  nested_insert bucket key value entries =
      insert bucket (insert key value (or_empty (lookup bucket entries))) entries

  -- A map that is left empty goes, with its bucket.
  unfoldable pub store_inner : String → Map V → Map (Map V) → Map (Map V)
  unfolding insert delete
  store_inner bucket [] entries = delete bucket entries
  store_inner bucket (entry ∷ inner) entries = insert bucket (entry ∷ inner) entries

  unfoldable delete_found : String → String → Map (Map V) → Option V → Map (Map V)
  unfolding store_inner delete lookup
  delete_found bucket key entries none = entries
  delete_found bucket key entries (some value) =
      store_inner bucket (delete key (or_empty (lookup bucket entries))) entries

  unfoldable pub nested_delete : String → String → Map (Map V) → Map (Map V)
  unfolding nested_lookup delete_found
  nested_delete bucket key entries =
      delete_found bucket key entries (nested_lookup bucket key entries)

  pub nested_lookup-nested_insert :
      (new_bucket new_key bucket key : String) (value : V) (entries : Map (Map V))
      → nested_lookup bucket key (nested_insert new_bucket new_key value entries) ≡ (
          if new_bucket == bucket && new_key == key
          then some value
          else nested_lookup bucket key entries)
  unfolding nested_lookup nested_insert
  nested_lookup-nested_insert new_bucket new_key bucket key value entries = ground (
    arith,
    eq_iff new_bucket bucket,
    eq_iff new_key key,
    lookup-insert new_bucket bucket (insert new_key value (or_empty (lookup new_bucket entries)))
        entries,
    lookup-insert new_key key value (or_empty (lookup new_bucket entries)),
  )

  nested_lookup-store_inner :
      (at bucket key : String) (inner : Map V) (entries : Map (Map V))
      → nested_lookup bucket key (store_inner at inner entries)
        ≡ (if at == bucket then lookup key inner else nested_lookup bucket key entries)
  unfolding nested_lookup store_inner
  nested_lookup-store_inner at bucket key [] entries =
      ground (arith, lookup-delete at bucket entries)
  nested_lookup-store_inner at bucket key (entry ∷ inner) entries =
      ground (arith, lookup-insert at bucket (entry ∷ inner) entries)

  nested_lookup-delete_found :
      (old_bucket old_key bucket key : String) (entries : Map (Map V)) (found : Option V)
      → nested_lookup old_bucket old_key entries ≡ found
      → nested_lookup bucket key (delete_found old_bucket old_key entries found) ≡ (
          if old_bucket == bucket && old_key == key then none else nested_lookup bucket key entries)
  unfolding nested_lookup delete_found
  nested_lookup-delete_found old_bucket old_key bucket key entries none h =
      ground (arith, eq_iff old_bucket bucket, eq_iff old_key key)
  nested_lookup-delete_found old_bucket old_key bucket key entries (some value) h =
      let inner = or_empty (lookup old_bucket entries) in
      ground (
        arith,
        eq_iff old_bucket bucket,
        eq_iff old_key key,
        nested_lookup-store_inner old_bucket bucket key (delete old_key inner) entries,
        lookup-delete old_key key inner,
      )

  pub nested_lookup-nested_delete :
      (old_bucket old_key bucket key : String) (entries : Map (Map V))
      → nested_lookup bucket key (nested_delete old_bucket old_key entries) ≡ (
          if old_bucket == bucket && old_key == key then none else nested_lookup bucket key entries)
  unfolding nested_delete
  nested_lookup-nested_delete old_bucket old_key bucket key entries =
      nested_lookup-delete_found old_bucket old_key bucket key entries
        (nested_lookup old_bucket old_key entries) refl
