-- ===== src/S3/VersionRuns.antt =====
-- core/internal/resources/s3/application: the version history over runs of calls.
pub mod Writes
use mildstack.S3.VersionRuns.Writes.{
  Kept-stored_state, Kept-put_object, Kept-copy_object, Kept-remove_object, Kept-delete_keys, same,
}
use mathlib.Core.List.{append-nil}
use Prim.Native.String.{◌++◌}
use mildstack.S3.Service.{store_payload}
use mildstack.S3.Objects.{
  new_object, store_object, stored_state, write_object, write_bytes, put_object_with_metadata,
  copy_object_with_options, copy_source, source_bytes, get_object, write_blocked, object_error,
  copy_error, or_octets, resolved_copy_metadata,
}
use mildstack.S3.Objects.Removal.{
  removed, remove_object, delete_object, delete_keys, delete_objects,
}
use mildstack.Prelude.{
  ℕ, String, ◌==◌, Bool, not, Option, some, List, [], ◌∷◌, ◌≡◌, refl, arith, ◌+◌, ◌*◌, Bool-cases,
  inl, inr, trim, lookup, eqb, length, Map, sym,
}
use mildstack.Prelude.Time.{Time}
use mildstack.S3.Domain.{Bytes, Object, VersionRecord, State, MultipartUpload, MultipartPart}
use mildstack.S3.Service.{Env, Service, ok}
use mildstack.S3.Invariant.{
  Holds-persist, Holds-guard, Holds-if, Holds-found, Holds-result, Holds-save,
}
use mildstack.S3.Invariant.Calls.{
  Kept-create_bucket, Kept-put_bucket_versioning, Kept-put_object_lock_configuration,
  Kept-put_object_legal_hold, Kept-put_object_acl, Kept-put_object_tagging, Kept-untag_object,
  Kept-create_multipart_upload, Kept-upload_part, Kept-abort_multipart_upload,
}
use mildstack.S3.Store.{
  upsert_object, versioning_enabled, record_delete_marker, delete_object_record, has_bucket,
  delete_object_retention, delete_object_legal_hold, delete_object_acl, delete_object_tagging,
}
use mildstack.S3.Store.History.{
  IsRising, Extends, Extends-same, Extends-record_object_version, Extends-record_delete_marker,
}
use mildstack.S3.Effects.{Untouched, stored_state-Untouched, copy_object_protection-Untouched}
use mildstack.S3.Buckets.{delete_bucket, delete_bucket_record, remove_bucket_governance}
use mildstack.S3.Lock.{copy_object_protection, object_retention_config, set_object_retention}
use mildstack.S3.Lock.Settings.{
  bucket_error, put_object_retention, locked_object_error, parse_object_retention, is_reduction,
  marshal_object_retention,
}
use mildstack.S3.Multipart.{
  complete_multipart_upload, complete_parts, completed_object, sorted_multipart_parts,
}
use mildstack.S3.Lock.OtherCalls.{drop_upload-state}
use mildstack.S3.Operations.{
  Operation, step, run, create_bucket_call, delete_bucket_call, put_bucket_versioning_call,
  put_object_call, copy_object_call, delete_object_call, delete_objects_call,
  put_object_lock_configuration_call, put_object_retention_call, put_object_legal_hold_call,
  put_object_acl_call, put_object_tagging_call, delete_object_tagging_call,
  create_multipart_upload_call, upload_part_call, complete_multipart_upload_call,
  abort_multipart_upload_call,
}

module _ (before : List VersionRecord) where
  abbrev Kept : State → Type 0
  Kept s = Extends before s

  Kept-complete_parts :
      (env : Env) (upload_id : String) (upload : MultipartUpload) (parts : List MultipartPart)
      (s : Service)
      → Kept s.state
      → Kept (complete_parts env upload_id upload parts s).0.state
  unfolding complete_parts Untouched
  Kept-complete_parts env upload_id upload parts s kept = rw (drop_upload-state upload_id) (
      Holds-persist Kept env 0 _ _ (
        Kept-stored_state before env (λ x. x) (completed_object env upload parts) s.state
          (λ b. (refl, refl, refl)) kept))

  Kept-complete_multipart_upload :
      (env : Env) (upload_id : String) (s : Service)
      → Kept s.state
      → Kept (complete_multipart_upload env upload_id s).0.state
  unfolding complete_multipart_upload
  Kept-complete_multipart_upload env upload_id s kept =
      Holds-if Kept (trim upload_id == "") s _ _ kept (
        inr (
          Holds-found Kept (lookup (trim upload_id) s.multipart_uploads) s _ _ kept (λ upload e.
            let parts = sorted_multipart_parts upload.parts in
            Holds-if Kept (eqb (length parts) 0) s _ _ kept (
              inr (
                Holds-if Kept (not (has_bucket upload.bucket s.state)) s _ _ kept (
                  inr (
                    Holds-if Kept (write_blocked (env.clock 0) upload.bucket upload.key s.state) s _
                      _ kept
                      (inr (Kept-complete_parts env (trim upload_id) upload parts s kept)))))))))

  delete_bucket_record-versions :
      (name : String) (s after : State)
      → delete_bucket_record name s ≡ some after
      → after.version_history ≡ s.version_history
  unfolding delete_bucket_record remove_bucket_governance
  delete_bucket_record-versions name s after h = ground arith

  Kept-delete_bucket :
      (env : Env) (name : String) (s : Service)
      → Kept s.state
      → Kept (delete_bucket env name s).0.state
  unfolding delete_bucket
  Kept-delete_bucket env name s kept = Holds-if Kept (trim name == "") s _ _ kept (
      inr (
        Holds-if Kept (not (has_bucket (trim name) s.state)) s _ _ kept (
          inr (
            Holds-found Kept (delete_bucket_record (trim name) s.state) s _ _ kept (λ after e.
              Holds-persist Kept env 0 _ _ (
                Extends-same before s.state after
                  (delete_bucket_record-versions (trim name) s.state after e) kept))))))

  Kept-put_object_retention :
      (env : Env) (bucket key : String) (body : Bytes) (s : Service)
      → Kept s.state
      → Kept (put_object_retention env bucket key body s).0.state
  unfolding put_object_retention set_object_retention
  Kept-put_object_retention env bucket key body s kept =
      Holds-guard Kept (locked_object_error bucket key s.state) s _ kept (
        Holds-result Kept (parse_object_retention env body) s _ kept (λ r e.
          Holds-if Kept (is_reduction (object_retention_config (trim bucket) (trim key) s.state) r)
            s _ _ kept
            (inr (
              Holds-save Kept env 0 s (set_object_retention (trim bucket) (trim key) r s.state)
                (marshal_object_retention env r)
                (Extends-same before s.state
                  (set_object_retention (trim bucket) (trim key) r s.state) refl kept)))))

  Kept-step :
      (env : Env) (operation : Operation) (s : Service)
      → Kept s.state
      → Kept (step env operation s).state
  unfolding step delete_object delete_objects
  Kept-step env (create_bucket_call name region) s kept =
      Kept-create_bucket Kept (same before) env name region s kept
  Kept-step env (delete_bucket_call name) s kept = Kept-delete_bucket env name s kept
  Kept-step env (put_bucket_versioning_call b status) s kept =
      Kept-put_bucket_versioning Kept (same before) env b status s kept
  Kept-step env (put_object_call b k body content_type metadata preserved_headers) s kept =
      Kept-put_object before env b k body content_type metadata preserved_headers s kept
  Kept-step env (copy_object_call b k source_bucket source_key directive metadata) s kept =
      Kept-copy_object before env b k source_bucket source_key directive metadata s kept
  Kept-step env (delete_object_call b k) s kept =
      Holds-guard Kept (object_error (trim b) (trim k) s.state) s _ kept
        (Kept-remove_object before env 0 (trim b) (trim k) s kept)
  Kept-step env (delete_objects_call b keys quiet) s kept =
      Holds-guard Kept (bucket_error b s.state) s _ kept
        (Kept-delete_keys before env (trim b) quiet 0 keys s kept)
  Kept-step env (put_object_lock_configuration_call b body) s kept =
      Kept-put_object_lock_configuration Kept (same before) env b body s kept
  Kept-step env (put_object_retention_call b k body) s kept =
      Kept-put_object_retention env b k body s kept
  Kept-step env (put_object_legal_hold_call b k body) s kept =
      Kept-put_object_legal_hold Kept (same before) env b k body s kept
  Kept-step env (put_object_acl_call b k body) s kept =
      Kept-put_object_acl Kept (same before) env b k body s kept
  Kept-step env (put_object_tagging_call b k body) s kept =
      Kept-put_object_tagging Kept (same before) env b k body s kept
  Kept-step env (delete_object_tagging_call b k) s kept =
      Kept-untag_object Kept (same before) env b k s kept
  Kept-step env (create_multipart_upload_call b k content_type metadata preserved_headers) s kept =
      Kept-create_multipart_upload Kept (same before) env b k content_type metadata
        preserved_headers s kept
  Kept-step env (upload_part_call upload_id number body) s kept =
      Kept-upload_part Kept (same before) env upload_id number body s kept
  Kept-step env (complete_multipart_upload_call upload_id) s kept =
      Kept-complete_multipart_upload env upload_id s kept
  Kept-step env (abort_multipart_upload_call upload_id) s kept =
      Kept-abort_multipart_upload Kept (same before) upload_id s kept

  Kept-run :
      (calls : List (Env × Operation)) (s : Service) → Kept s.state → Kept (run calls s).state
  unfolding run
  Kept-run [] s kept = kept
  Kept-run ((env, operation) ∷ calls) s kept =
      Kept-run calls (step env operation s) (Kept-step env operation s kept)

-- Where the sequence numbers of the version history rise, every run of the calls of `Operation`,
-- succeeding or failing, leaves the history that there was, with new records behind it, and the
-- sequence numbers still rise.
pub version_history-Extends :
    (calls : List (Env × Operation)) (s : Service)
    → IsRising 0 s.state.version_history
    → Extends s.state.version_history (run calls s).state
unfolding Extends
version_history-Extends calls s rising =
    Kept-run s.state.version_history calls s
      (([], sym (append-nil s.state.version_history)), rising)
