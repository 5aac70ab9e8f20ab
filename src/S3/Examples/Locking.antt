-- ===== src/S3/Examples/Locking.antt =====
-- core/internal/resources/s3/application: runs beside a retained object, and versions.
use mildstack.Prelude.{◌<◌, ℕ, List, [], ◌∷◌, none, some, true, false, refl, arith, lookup}
use mildstack.Prelude.Nested.{nested_lookup}
use mildstack.S3.Service.{Env, Service}
use mildstack.S3.Store.{find_object}
use mildstack.S3.Store.History.{Extends}
use mildstack.S3.Lock.{object_retention_config}
use mildstack.S3.Lock.Retention.{Retains}
use mildstack.S3.Lock.Runs.{retained_object_survives}
use mildstack.S3.VersionRuns.{version_history-Extends}
use mildstack.S3.Operations.{
  Operation, run, delete_object_call, put_object_call, put_object_retention_call,
  delete_bucket_call, delete_objects_call, put_bucket_versioning_call,
}
use mildstack.S3.Examples.{env, store, old_photo}

abbrev retained_store : Service
retained_store = record store {
  state = record store.state {
    object_retention =
        ("photos", ("old", record { mode = "COMPLIANCE"; retain_until_date = 5000 }) ∷ []) ∷ [];
    bucket_object_lock = ("photos", record { enabled = true; default_retention = none }) ∷ [];
  };
}

abbrev attacks : List (Env × Operation)
attacks =
    (env, delete_object_call "photos" "old")
    ∷ (env, put_object_call "photos" "old" (some (1 ∷ [])) "" [] [])
    ∷ (env, delete_objects_call "photos" ("x" ∷ "old" ∷ []) false)
    ∷ (env, put_object_retention_call "photos" "old" [])
    ∷ (env, delete_bucket_call "photos")
    ∷ []

retained : Retains 5000 "photos" "old" old_photo retained_store.state
unfolding Retains find_object object_retention_config nested_lookup lookup
retained = (refl, record { mode = "COMPLIANCE"; retain_until_date = 5000 }, refl, refl, omega arith)

before : (i : ℕ) → env.clock i < 5000
before i = omega arith

retained_object_survives_example :
    Retains 5000 "photos" "old" old_photo (run attacks retained_store).state
retained_object_survives_example =
    retained_object_survives 5000 "photos" "old" old_photo attacks retained_store
      (before, (before, (before, (before, (before, tt))))) retained

abbrev versioned_calls : List (Env × Operation)
versioned_calls =
    (env, put_bucket_versioning_call "photos" "Enabled")
    ∷ (env, put_object_call "photos" "new" (some (1 ∷ [])) "" [] [])
    ∷ (env, delete_object_call "photos" "old")
    ∷ []

version_history-Extends_example : Extends [] (run versioned_calls store).state
version_history-Extends_example = version_history-Extends versioned_calls store tt
