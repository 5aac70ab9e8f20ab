-- ===== src/S3/Lock.antt =====
-- core/internal/resources/s3/application/service_object_lock.go: object lock: what a retention and a
-- legal hold forbid, and how they are read, set and carried over.
pub mod Settings
pub mod Retention
pub mod Survival
pub mod Calls
pub mod OtherCalls
pub mod Runs
use mildstack.Prelude.{
  ℕ, String, ◌==◌, Bool, true, false, not, ◌&&◌, ◌||◌, Option, none, some, Map, if◌then◌else◌,
  equal_fold, ltb, lookup,
}
use mildstack.Prelude.Numeral.{ℤ}
use mildstack.Prelude.Nested.{nested_lookup, nested_insert}
use mildstack.Prelude.Time.{Time, is_zero}
use mildstack.S3.Domain.{
  ObjectLockConfiguration, ObjectLockRetention, ObjectRetention, ObjectLegalHold, State,
}
use mildstack.S3.Service.{Env}
use mildstack.S3.Store.{delete_object_retention, delete_object_legal_hold}

unfoldable pub object_retention_config : String → String → State → Option ObjectRetention
unfolding nested_lookup
object_retention_config bucket key s = nested_lookup bucket key s.object_retention

unfoldable pub object_legal_hold_config : String → String → State → Option ObjectLegalHold
unfolding nested_lookup
object_legal_hold_config bucket key s = nested_lookup bucket key s.object_legal_hold

unfoldable pub set_object_retention : String → String → ObjectRetention → State → State
unfolding nested_insert
set_object_retention bucket key retention s = record s {
  object_retention = nested_insert bucket key retention s.object_retention;
}

unfoldable pub set_object_legal_hold : String → String → ObjectLegalHold → State → State
unfolding nested_insert
set_object_legal_hold bucket key hold s = record s {
  object_legal_hold = nested_insert bucket key hold s.object_legal_hold;
}

abbrev pub is_on : Option ObjectLegalHold → Bool
is_on none = false
is_on (some hold) = equal_fold hold.status "ON"

-- The date is set and has not come, and the mode is one of the two.
abbrev pub is_retaining : Time → Option ObjectRetention → Bool
is_retaining now none = false
is_retaining now (some r) =
    not (is_zero r.retain_until_date || not (ltb now r.retain_until_date))
    && (r.mode == "COMPLIANCE" || r.mode == "GOVERNANCE")

-- `objectMutationBlocked` answers with an error.
unfoldable pub object_mutation_blocked : Time → String → String → State → Bool
unfolding object_legal_hold_config object_retention_config
object_mutation_blocked now bucket key s =
    if is_on (object_legal_hold_config bucket key s)
    then true
    else is_retaining now (object_retention_config bucket key s)

unfoldable pub clear_object_protection : String → String → State → State
unfolding delete_object_retention delete_object_legal_hold
clear_object_protection bucket key s =
    delete_object_legal_hold bucket key (delete_object_retention bucket key s)

unfoldable pub default_retention : Env → ObjectLockRetention → Time → ObjectRetention
default_retention env lock now = record {
  mode = lock.mode;
  retain_until_date = env.add_date now lock.years lock.days;
}

-- The default retention of the bucket's lock, if there is one.
abbrev pub retention_of_lock : Option ObjectLockConfiguration → Option ObjectLockRetention
retention_of_lock none = none
retention_of_lock (some config) = config.default_retention

unfoldable pub apply_default_retention : Env → Time → String → String → State → State
unfolding lookup object_retention_config set_object_retention default_retention
apply_default_retention env now bucket key s =
    elim (retention_of_lock (lookup bucket s.bucket_object_lock)) [
      | none ↦ s
      | some lock ↦ elim (object_retention_config bucket key s) [
        | some r ↦ s
        | none ↦ set_object_retention bucket key (default_retention env lock now) s
      ]
    ]

-- The two halves of `copyObjectProtection`.
unfoldable pub copy_retention : String → String → Option ObjectRetention → State → State
unfolding set_object_retention delete_object_retention
copy_retention bucket key none s = delete_object_retention bucket key s
copy_retention bucket key (some r) s = set_object_retention bucket key r s

unfoldable pub copy_legal_hold : String → String → Option ObjectLegalHold → State → State
unfolding set_object_legal_hold delete_object_legal_hold
copy_legal_hold bucket key none s = delete_object_legal_hold bucket key s
copy_legal_hold bucket key (some hold) s = set_object_legal_hold bucket key hold s

unfoldable pub copy_object_protection : String → String → String → String → State → State
unfolding copy_retention copy_legal_hold object_retention_config object_legal_hold_config
copy_object_protection bucket key source_bucket source_key s =
    let retained =
      copy_retention bucket key (object_retention_config source_bucket source_key s) s in
    copy_legal_hold bucket key (object_legal_hold_config source_bucket source_key retained) retained

unfoldable pub object_retention_reduction : ObjectRetention → ObjectRetention → Bool
object_retention_reduction existing next =
    if ltb next.retain_until_date existing.retain_until_date
    then true
    else existing.mode == "COMPLIANCE" && next.mode == "GOVERNANCE"
