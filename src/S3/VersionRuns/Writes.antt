-- ===== src/S3/VersionRuns/Writes.antt =====
-- core/internal/resources/s3/application: the version history through writes and removals.
use Prim.Native.String.{◌++◌}
use mildstack.S3.Service.{store_payload}
use mildstack.S3.Objects.{
  new_object, store_object, stored_state, write_object, write_bytes, put_object_with_metadata,
  copy_object_with_options, copy_source, source_bytes, get_object, write_blocked, object_error,
  copy_error, or_octets, resolved_copy_metadata,
}
use mildstack.S3.Objects.Removal.{removed, remove_object, delete_keys}
use mildstack.Prelude.{
  ℕ, String, ◌==◌, Bool, Option, List, [], ◌∷◌, ◌≡◌, refl, ◌+◌, ◌*◌, Bool-cases, inl, inr, trim,
  Map,
}
use mildstack.Prelude.Time.{Time}
use mildstack.S3.Domain.{Bytes, Object, VersionRecord, State}
use mildstack.S3.Service.{Env, Service, ok}
use mildstack.S3.Invariant.{Holds-persist, Holds-guard, Holds-if, Holds-found, Holds-result}
use mildstack.S3.Store.{
  upsert_object, versioning_enabled, record_delete_marker, delete_object_record,
  delete_object_retention, delete_object_legal_hold, delete_object_acl, delete_object_tagging,
}
use mildstack.S3.Store.History.{
  Extends, Extends-same, Extends-record_object_version, Extends-record_delete_marker,
}
use mildstack.S3.Effects.{Untouched, stored_state-Untouched, copy_object_protection-Untouched}
use mildstack.S3.Lock.{copy_object_protection}

module _ (before : List VersionRecord) where
  abbrev Kept : State → Type 0
  Kept s = Extends before s

  pub same :
      (s after : State)
      → after.objects ≡ s.objects
      → after.object_retention ≡ s.object_retention
      → after.version_history ≡ s.version_history
      → Kept s
      → Kept after
  same s after objects retentions versions kept = Extends-same before s after versions kept

  pub Kept-store_object :
      (env : Env) (now : Time) (o : Object) (s : State) → Kept s → Kept (store_object env now o s).0
  unfolding store_object upsert_object
  Kept-store_object env now o s kept =
      let upserted = (upsert_object env now o s).0 in
      let still = Extends-same before s upserted refl kept in
      elim (Bool-cases (versioning_enabled o.bucket upserted)) [
        | inl e ↦ rw e (
            Extends-record_object_version before
              (record (upsert_object env now o s).1 { body = [] }) upserted still)
        | inr e ↦ rw e still
      ]

  pub Kept-stored_state :
      (env : Env) (protect : State → State) (o : Object) (s : State)
      → ((b : State) → Untouched b (protect b))
      → Kept s
      → Kept (stored_state env protect o s)
  unfolding Untouched
  Kept-stored_state env protect o s protects kept =
      let (objects, buckets, versions) = stored_state-Untouched env protect o s protects in
      Extends-same before (store_object env (env.clock 1) o s).0 (stored_state env protect o s)
        versions (Kept-store_object env (env.clock 1) o s kept)

  pub Kept-write_bytes :
      (env : Env) (protect : State → State) (bucket key : String) (bytes : Bytes)
      (content_type : String) (metadata preserved_headers : Map String) (s : Service)
      → ((b : State) → Untouched b (protect b))
      → Kept s.state
      → Kept
          (write_bytes env protect bucket key bytes content_type metadata preserved_headers
            s).0.state
  unfolding write_bytes write_object
  Kept-write_bytes env protect bucket key bytes content_type metadata preserved_headers s protects
        kept =
      let (payloads, ref) = store_payload env (bucket ++ "/" ++ key) bytes s.payloads in
      Holds-persist Kept env 0 _ _ (
        Kept-stored_state env protect
          (new_object env bucket key bytes content_type metadata preserved_headers ref) s.state
          protects kept)

  pub Kept-put_object :
      (env : Env) (bucket key : String) (body : Option Bytes) (content_type : String)
      (metadata preserved_headers : Map String) (s : Service)
      → Kept s.state
      → Kept
          (put_object_with_metadata env bucket key body content_type metadata preserved_headers
            s).0.state
  unfolding put_object_with_metadata Untouched
  Kept-put_object env bucket key body content_type metadata preserved_headers s kept =
      Holds-guard Kept (object_error (trim bucket) (trim key) s.state) s _ kept (
        Holds-if Kept (write_blocked (env.clock 0) (trim bucket) (trim key) s.state) s _ _ kept (
          inr (
            Holds-found Kept body s _ _ kept (λ bytes e.
              Kept-write_bytes env (λ x. x) (trim bucket) (trim key) bytes
                (or_octets (trim content_type)) metadata preserved_headers s
                (λ b. (refl, refl, refl)) kept))))

  pub Kept-copy_object :
      (env : Env) (bucket key source_bucket source_key directive : String) (metadata : Map String)
      (s : Service)
      → Kept s.state
      → Kept
          (copy_object_with_options env bucket key source_bucket source_key directive metadata
            s).0.state
  unfolding copy_object_with_options copy_source
  Kept-copy_object env bucket key source_bucket source_key directive metadata s kept =
      Holds-guard Kept
        (copy_error (trim bucket) (trim key) (trim source_bucket) (trim source_key) s.state) s _
        kept
        (Holds-if Kept (write_blocked (env.clock 0) (trim bucket) (trim key) s.state) s _ _ kept (
          inr (
            Holds-result Kept (get_object (trim source_bucket) (trim source_key) s) s _ kept
              (λ source e. Holds-result Kept (source_bytes s.payloads source) s _ kept (λ bytes f.
                Kept-write_bytes env
                  (copy_object_protection (trim bucket) (trim key) (trim source_bucket)
                    (trim source_key))
                  (trim bucket) (trim key) bytes source.content_type
                  (resolved_copy_metadata env source.metadata directive metadata)
                  source.preserved_headers s
                  (copy_object_protection-Untouched (trim bucket) (trim key) (trim source_bucket)
                    (trim source_key))
                  kept)))))

  pub Kept-removed :
      (now : Time) (bucket key : String) (s : Service)
      → Kept s.state
      → Kept (removed now bucket key s).state
  unfolding removed delete_object_record delete_object_retention delete_object_legal_hold
      delete_object_acl delete_object_tagging
  Kept-removed now bucket key s kept = elim (Bool-cases (versioning_enabled bucket s.state)) [
    | inl e ↦
        Extends-same before (record_delete_marker now bucket key s.state)
          (removed now bucket key s).state (rw (e, removed) refl)
          (Extends-record_delete_marker before now bucket key s.state kept)
    | inr e ↦
        Extends-same before s.state (removed now bucket key s).state (rw (e, removed) refl) kept
  ]

  pub Kept-remove_object :
      (env : Env) (i : ℕ) (bucket key : String) (s : Service)
      → Kept s.state
      → Kept (remove_object env i bucket key s).0.state
  unfolding remove_object
  Kept-remove_object env i bucket key s kept =
      Holds-if Kept (write_blocked (env.clock (2 * i)) bucket key s.state) s _ _ kept (
        inr (Holds-persist Kept env i _ _ (Kept-removed (env.clock (2 * i + 1)) bucket key s kept)))

  pub Kept-delete_keys :
      (env : Env) (bucket : String) (quiet : Bool) (i : ℕ) (keys : List String) (s : Service)
      → Kept s.state
      → Kept (delete_keys env bucket quiet i keys s).0.state
  unfolding delete_keys
  Kept-delete_keys env bucket quiet i [] s kept = kept
  Kept-delete_keys env bucket quiet i (k ∷ keys) s kept =
      Kept-delete_keys env bucket quiet (i + 1) keys _ (
        Holds-if Kept (trim k == "") s (ok tt) (remove_object env i bucket (trim k) s) kept
          (inr (Kept-remove_object env i bucket (trim k) s kept)))
