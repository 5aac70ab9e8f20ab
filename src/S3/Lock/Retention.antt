-- ===== src/S3/Lock/Retention.antt =====
-- core/internal/resources/s3/application/service_object_lock.go: objects under a retention, and the
-- changes of the state that leave them alone.
use mildstack.Prelude.{
  ◌⊎◌, String, ◌==◌, true, false, ◌&&◌, ◌||◌, some, ◌≡◌, arith, eq_iff, ◌≤◌, ◌<◌, tests, ap, ◌∙◌,
}
use mildstack.Prelude.Nested.{
  nested_lookup, nested_lookup-nested_insert, nested_lookup-nested_delete,
}
use mildstack.Prelude.Time.{Time}
use mildstack.S3.Domain.{Object, ObjectRetention, State}
use mildstack.S3.Service.{Env}
use mildstack.S3.Store.{
  is_at, find_object, has_object, remove_first, upsert_object, with_defaults,
  delete_object_retention,
}
use mildstack.S3.Store.Laws.{find_object-put_first, find_object-remove_first}
use mildstack.S3.Lock.{object_retention_config, object_mutation_blocked, set_object_retention}
use mildstack.S3.Objects.{write_blocked}

-- The object stands at the bucket and key under a retention of either mode that lasts to `t` at least.
unfoldable pub Retains : Time → String → String → Object → State → Type 0
unfolding find_object object_retention_config
Retains t bucket key o s =
    (find_object bucket key s.objects ≡ some o)
    × (r : ObjectRetention) × (object_retention_config bucket key s ≡ some r)
    × ((r.mode == "COMPLIANCE" || r.mode == "GOVERNANCE") ≡ true)
    × (t ≤ r.retain_until_date)

module _ (t : Time) (bucket key : String) (o : Object) where
  -- Until `t` no write goes to the pair.
  pub write_blocked-Retains :
      (now : Time) (s : State)
      → now < t
      → Retains t bucket key o s
      → write_blocked now bucket key s ≡ true
  unfolding Retains write_blocked has_object object_mutation_blocked
  write_blocked-Retains now s h (found, r, kept, mode, later) = grind tests

  -- Two pairs are one, or a change at the one does not touch the other.
  pub pair-cases :
      (at_bucket at_key : String)
      → ((at_bucket ≡ bucket) × (at_key ≡ key)) ⊎ ((at_bucket == bucket && at_key == key) ≡ false)
  pair-cases at_bucket at_key = ground (arith, eq_iff at_bucket bucket, eq_iff at_key key)

  pub Retains-upsert_object :
      (env : Env) (now : Time) (new : Object) (s : State)
      → is_at bucket key new ≡ false
      → Retains t bucket key o s
      → Retains t bucket key o (upsert_object env now new s).0
  unfolding Retains upsert_object with_defaults
  Retains-upsert_object env now new s h (found, r, kept, mode, later) = (
    ground (arith, find_object-put_first bucket key (with_defaults env now new) s.objects),
    r,
    kept,
    mode,
    later,
  )

  pub Retains-set_object_retention :
      (at_bucket at_key : String) (r : ObjectRetention) (s : State)
      → (at_bucket == bucket && at_key == key) ≡ false
      → Retains t bucket key o s
      → Retains t bucket key o (set_object_retention at_bucket at_key r s)
  unfolding Retains set_object_retention object_retention_config
  Retains-set_object_retention at_bucket at_key r s h (found, kept_r, kept, mode, later) = (
    found,
    kept_r,
    ground (arith, nested_lookup-nested_insert at_bucket at_key bucket key r s.object_retention),
    mode,
    later,
  )

  pub Retains-delete_object_retention :
      (at_bucket at_key : String) (s : State)
      → (at_bucket == bucket && at_key == key) ≡ false
      → Retains t bucket key o s
      → Retains t bucket key o (delete_object_retention at_bucket at_key s)
  unfolding Retains delete_object_retention object_retention_config
  Retains-delete_object_retention at_bucket at_key s h (found, r, kept, mode, later) = (
    found,
    r,
    ground (arith, nested_lookup-nested_delete at_bucket at_key bucket key s.object_retention),
    mode,
    later,
  )

  pub Retains-remove_first :
      (at_bucket at_key : String) (s : State)
      → (at_bucket == bucket && at_key == key) ≡ false
      → Retains t bucket key o s
      → Retains t bucket key o (record s { objects = remove_first at_bucket at_key s.objects })
  unfolding Retains object_retention_config
  Retains-remove_first at_bucket at_key s h (found, r, kept, mode, later) = (
    find_object-remove_first bucket key at_bucket at_key s.objects h ∙ found,
    r,
    kept,
    mode,
    later,
  )

  -- What leaves the objects and the retentions as they were.
  pub Retains-same :
      (s after : State)
      → after.objects ≡ s.objects
      → after.object_retention ≡ s.object_retention
      → Retains t bucket key o s
      → Retains t bucket key o after
  unfolding Retains object_retention_config
  Retains-same s after eo er (found, r, kept, mode, later) = (
    ap (find_object bucket key) eo ∙ found,
    r,
    ap (nested_lookup bucket key) er ∙ kept,
    mode,
    later,
  )
