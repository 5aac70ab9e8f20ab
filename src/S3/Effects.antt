-- ===== src/S3/Effects.antt =====
-- core/internal/resources/s3/application: what the protection that goes with a write leaves alone.
use mildstack.Prelude.{
  ◌∙◌, String, Option, none, some, ◌≡◌, refl, Option-cases, Bool-cases, inl, inr, lookup,
}
use mildstack.Prelude.Time.{Time}
use mildstack.S3.Domain.{Object, ObjectRetention, ObjectLegalHold, State}
use mildstack.S3.Service.{Env}
use mildstack.S3.Store.{
  put_first, upsert_object, with_defaults, versioning_enabled, record_object_version,
  delete_object_retention, delete_object_legal_hold,
}
use mildstack.S3.Lock.{
  object_retention_config, set_object_retention, set_object_legal_hold, clear_object_protection,
  apply_default_retention, retention_of_lock, copy_object_protection, copy_retention,
  copy_legal_hold,
}
use mildstack.S3.Objects.{store_object, stored_state}

-- Objects, buckets and versions are what they were.
unfoldable pub Untouched : State → State → Type 0
Untouched s after =
    (after.objects ≡ s.objects)
    × (after.buckets ≡ s.buckets)
    × (after.version_history ≡ s.version_history)

Untouched-trans : (s mid after : State) → Untouched s mid → Untouched mid after → Untouched s after
unfolding Untouched
Untouched-trans s mid after (a, b, c) (d, e, f) = (d ∙ a, e ∙ b, f ∙ c)

copy_retention-Untouched :
    (bucket key : String) (found : Option ObjectRetention) (s : State)
    → Untouched s (copy_retention bucket key found s)
unfolding Untouched copy_retention set_object_retention delete_object_retention
copy_retention-Untouched bucket key none s = (refl, refl, refl)
copy_retention-Untouched bucket key (some r) s = (refl, refl, refl)

copy_legal_hold-Untouched :
    (bucket key : String) (found : Option ObjectLegalHold) (s : State)
    → Untouched s (copy_legal_hold bucket key found s)
unfolding Untouched copy_legal_hold set_object_legal_hold delete_object_legal_hold
copy_legal_hold-Untouched bucket key none s = (refl, refl, refl)
copy_legal_hold-Untouched bucket key (some hold) s = (refl, refl, refl)

pub copy_object_protection-Untouched :
    (bucket key source_bucket source_key : String) (s : State)
    → Untouched s (copy_object_protection bucket key source_bucket source_key s)
unfolding copy_object_protection
copy_object_protection-Untouched bucket key source_bucket source_key s =
    Untouched-trans s
      (copy_retention bucket key (object_retention_config source_bucket source_key s) s) _
      (copy_retention-Untouched bucket key (object_retention_config source_bucket source_key s) s)
      (copy_legal_hold-Untouched bucket key _ _)

pub apply_default_retention-Untouched :
    (env : Env) (now : Time) (bucket key : String) (s : State)
    → Untouched s (apply_default_retention env now bucket key s)
unfolding Untouched apply_default_retention set_object_retention
apply_default_retention-Untouched env now bucket key s =
    elim (Option-cases (retention_of_lock (lookup bucket s.bucket_object_lock))) [
      | inl e ↦ rw (e, apply_default_retention) (refl, refl, refl)
      | inr (lock, e) ↦ elim (Option-cases (object_retention_config bucket key s)) [
        | inl f ↦ rw (e, f, apply_default_retention) (refl, refl, refl)
        | inr (r, f) ↦ rw (e, f, apply_default_retention) (refl, refl, refl)
      ]
    ]

-- A write leaves, beside the protection, what storing its object leaves.
pub stored_state-Untouched :
    (env : Env) (protect : State → State) (o : Object) (s : State)
    → ((before : State) → Untouched before (protect before))
    → Untouched (store_object env (env.clock 1) o s).0 (stored_state env protect o s)
unfolding Untouched stored_state clear_object_protection delete_object_retention
    delete_object_legal_hold
stored_state-Untouched env protect o s protects =
    let stored = (store_object env (env.clock 1) o s).0 in
    let cleared = clear_object_protection o.bucket o.key stored in
    Untouched-trans stored (protect cleared)
      (apply_default_retention env (env.clock 2) o.bucket o.key (protect cleared))
      (Untouched-trans stored cleared (protect cleared) (refl, refl, refl) (protects cleared))
      (apply_default_retention-Untouched env (env.clock 2) o.bucket o.key (protect cleared))

-- Storing replaces or appends the one object, and leaves the buckets.
pub store_object-objects :
    (env : Env) (now : Time) (o : Object) (s : State)
    → ((store_object env now o s).0.objects ≡ put_first (with_defaults env now o) s.objects)
      × ((store_object env now o s).0.buckets ≡ s.buckets)
unfolding store_object upsert_object record_object_version
store_object-objects env now o s =
    elim (Bool-cases (versioning_enabled o.bucket (upsert_object env now o s).0)) [
      | inl e ↦ rw e (refl, refl)
      | inr e ↦ rw e (refl, refl)
    ]
