-- ===== src/S3/Lock/Survival.antt =====
-- core/internal/resources/s3/application: writes and removals beside an object under a retention.
use mildstack.Prelude.{
  String, ◌==◌, Bool, true, false, ◌&&◌, Option, none, some, if◌then◌else◌, ◌≡◌, refl, Bool-cases,
  Option-cases, inl, inr, lookup,
}
use mildstack.Prelude.Time.{Time}
use mildstack.S3.Domain.{Object, ObjectRetention, ObjectLegalHold, State}
use mildstack.S3.Service.{Env, Service}
use mildstack.S3.Store.{
  is_at, remove_first, upsert_object, delete_object_record, delete_object_retention,
  delete_object_legal_hold, delete_object_acl, delete_object_tagging, versioning_enabled,
  record_delete_marker, record_object_version,
}
use mildstack.S3.Lock.{
  object_retention_config, set_object_legal_hold, clear_object_protection, apply_default_retention,
  retention_of_lock, default_retention, copy_object_protection, copy_retention, copy_legal_hold,
}
use mildstack.S3.Lock.Retention.{
  Retains, Retains-upsert_object, Retains-set_object_retention, Retains-delete_object_retention,
  Retains-remove_first, Retains-same,
}
use mildstack.S3.Objects.{store_object, stored_state}
use mildstack.S3.Objects.Removal.{removed}

module _ (t : Time) (bucket key : String) (o : Object) where
  Retains-store_object :
      (env : Env) (now : Time) (new : Object) (s : State)
      → is_at bucket key new ≡ false
      → Retains t bucket key o s
      → Retains t bucket key o (store_object env now new s).0
  unfolding store_object record_object_version
  Retains-store_object env now new s h kept =
      let upserted = upsert_object env now new s in
      let still = Retains-upsert_object t bucket key o env now new s h kept in
      elim (Bool-cases (versioning_enabled upserted.1.bucket upserted.0)) [
        | inl e ↦ rw e (Retains-same t bucket key o upserted.0 _ refl refl still)
        | inr e ↦ rw e still
      ]

  Retains-clear_object_protection :
      (at_bucket at_key : String) (s : State)
      → (at_bucket == bucket && at_key == key) ≡ false
      → Retains t bucket key o s
      → Retains t bucket key o (clear_object_protection at_bucket at_key s)
  unfolding clear_object_protection delete_object_legal_hold
  Retains-clear_object_protection at_bucket at_key s h kept =
      Retains-same t bucket key o (delete_object_retention at_bucket at_key s) _ refl refl
        (Retains-delete_object_retention t bucket key o at_bucket at_key s h kept)

  Retains-apply_default_retention :
      (env : Env) (now : Time) (at_bucket at_key : String) (s : State)
      → (at_bucket == bucket && at_key == key) ≡ false
      → Retains t bucket key o s
      → Retains t bucket key o (apply_default_retention env now at_bucket at_key s)
  unfolding apply_default_retention
  Retains-apply_default_retention env now at_bucket at_key s h kept =
      elim (Option-cases (retention_of_lock (lookup at_bucket s.bucket_object_lock))) [
        | inl e ↦ rw (e, apply_default_retention) kept
        | inr (lock, e) ↦ elim (Option-cases (object_retention_config at_bucket at_key s)) [
          | inl f ↦
              rw (e, f, apply_default_retention)
                (Retains-set_object_retention t bucket key o at_bucket at_key
                  (default_retention env lock now) s h kept)
          | inr (r, f) ↦ rw (e, f, apply_default_retention) kept
        ]
      ]

  Retains-copy_retention :
      (at_bucket at_key : String) (found : Option ObjectRetention) (s : State)
      → (at_bucket == bucket && at_key == key) ≡ false
      → Retains t bucket key o s
      → Retains t bucket key o (copy_retention at_bucket at_key found s)
  unfolding copy_retention
  Retains-copy_retention at_bucket at_key none s h kept =
      Retains-delete_object_retention t bucket key o at_bucket at_key s h kept
  Retains-copy_retention at_bucket at_key (some r) s h kept =
      Retains-set_object_retention t bucket key o at_bucket at_key r s h kept

  Retains-copy_legal_hold :
      (at_bucket at_key : String) (found : Option ObjectLegalHold) (s : State)
      → Retains t bucket key o s
      → Retains t bucket key o (copy_legal_hold at_bucket at_key found s)
  unfolding copy_legal_hold delete_object_legal_hold set_object_legal_hold
  Retains-copy_legal_hold at_bucket at_key none s kept =
      Retains-same t bucket key o s _ refl refl kept
  Retains-copy_legal_hold at_bucket at_key (some hold) s kept =
      Retains-same t bucket key o s _ refl refl kept

  pub Retains-copy_object_protection :
      (at_bucket at_key source_bucket source_key : String) (s : State)
      → (at_bucket == bucket && at_key == key) ≡ false
      → Retains t bucket key o s
      → Retains t bucket key o (copy_object_protection at_bucket at_key source_bucket source_key s)
  unfolding copy_object_protection
  Retains-copy_object_protection at_bucket at_key source_bucket source_key s h kept =
      Retains-copy_legal_hold at_bucket at_key _ _ (
        Retains-copy_retention at_bucket at_key (object_retention_config source_bucket source_key s)
          s h kept)

  -- A write beside the pair leaves its object and retention.
  pub Retains-stored_state :
      (env : Env) (protect : State → State) (new : Object) (s : State)
      → is_at bucket key new ≡ false
      → ((before : State) → Retains t bucket key o before → Retains t bucket key o (protect before))
      → Retains t bucket key o s
      → Retains t bucket key o (stored_state env protect new s)
  unfolding stored_state
  Retains-stored_state env protect new s h protects kept =
      Retains-apply_default_retention env (env.clock 2) new.bucket new.key _ h (
        protects _ (
          Retains-clear_object_protection new.bucket new.key _ h
            (Retains-store_object env (env.clock 1) new s h kept)))

  Retains-delete_object_record :
      (at_bucket at_key : String) (s : State)
      → (at_bucket == bucket && at_key == key) ≡ false
      → Retains t bucket key o s
      → Retains t bucket key o (delete_object_record at_bucket at_key s)
  unfolding delete_object_record delete_object_legal_hold delete_object_acl delete_object_tagging
  Retains-delete_object_record at_bucket at_key s h kept =
      let gone = record s { objects = remove_first at_bucket at_key s.objects } in
      Retains-same t bucket key o (delete_object_retention at_bucket at_key gone) _ refl refl (
        Retains-delete_object_retention t bucket key o at_bucket at_key gone h
          (Retains-remove_first t bucket key o at_bucket at_key s h kept))

  Retains-marked :
      (versioned : Bool) (now : Time) (at_bucket at_key : String) (s : State)
      → Retains t bucket key o s
      → Retains t bucket key o
          (if versioned then record_delete_marker now at_bucket at_key s else s)
  unfolding record_delete_marker
  Retains-marked true now at_bucket at_key s kept = Retains-same t bucket key o s _ refl refl kept
  Retains-marked false now at_bucket at_key s kept = kept

  -- A removal beside the pair leaves its object and retention.
  pub Retains-removed :
      (now : Time) (at_bucket at_key : String) (s : Service)
      → (at_bucket == bucket && at_key == key) ≡ false
      → Retains t bucket key o s.state
      → Retains t bucket key o (removed now at_bucket at_key s).state
  unfolding removed
  Retains-removed now at_bucket at_key s h kept =
      Retains-delete_object_record at_bucket at_key _ h
        (Retains-marked (versioning_enabled at_bucket s.state) now at_bucket at_key s.state kept)
