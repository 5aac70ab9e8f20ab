-- ===== src/S3/Lock/Runs.antt =====
-- core/internal/resources/s3/application: every call, and runs of calls, beside an object under a
-- retention.
use mildstack.Prelude.{
  ℕ, String, ◌==◌, true, ◌||◌, List, [], ◌∷◌, ◌≡◌, arith, ◌<◌, Bool-cases, inl, inr, trim, All,
}
use mildstack.Prelude.Time.{Time}
use mildstack.S3.Domain.{Object, ObjectRetention, State, Bytes}
use mildstack.S3.Service.{Env, Service, ok}
use mildstack.S3.Invariant.{Holds-persist, Holds-guard, Holds-if, Holds-result}
use mildstack.S3.Lock.{object_retention_config}
use mildstack.S3.Lock.Settings.{
  locked_object_error, parse_object_retention, is_reduction, put_object_retention,
}
use mildstack.S3.Lock.Retention.{Retains, Retains-same}
use mildstack.S3.Lock.Calls.{
  Keeps-put_object, Keeps-copy_object, Keeps-delete_object, Keeps-delete_objects,
}
use mildstack.S3.Invariant.Calls.{
  Kept-create_bucket, Kept-put_bucket_versioning, Kept-put_object_lock_configuration,
  Kept-put_object_legal_hold, Kept-put_object_acl, Kept-put_object_tagging, Kept-untag_object,
  Kept-create_multipart_upload, Kept-upload_part, Kept-abort_multipart_upload,
}
use mildstack.S3.Lock.OtherCalls.{
  Kept-complete_multipart_upload, Kept-delete_bucket, Kept-set_object_retention,
}
use mildstack.S3.Operations.{
  Operation, step, run, create_bucket_call, delete_bucket_call, put_bucket_versioning_call,
  put_object_call, copy_object_call, delete_object_call, delete_objects_call,
  put_object_lock_configuration_call, put_object_retention_call, put_object_legal_hold_call,
  put_object_acl_call, put_object_tagging_call, delete_object_tagging_call,
  create_multipart_upload_call, upload_part_call, complete_multipart_upload_call,
  abort_multipart_upload_call,
}

-- What is parsed has a mode.
parse_object_retention-mode :
    (env : Env) (body : Bytes) (r : ObjectRetention)
    → parse_object_retention env body ≡ ok r
    → (r.mode == "GOVERNANCE" || r.mode == "COMPLIANCE") ≡ true
unfolding parse_object_retention
parse_object_retention-mode env body r h = ground arith

module _ (t : Time) (bucket key : String) (o : Object) where
  abbrev Kept : State → Type 0
  Kept s = Retains t bucket key o s

  -- What changes neither objects nor retentions.
  same :
      (s after : State)
      → after.objects ≡ s.objects
      → after.object_retention ≡ s.object_retention
      → after.version_history ≡ s.version_history
      → Kept s
      → Kept after
  same s after objects retentions versions kept =
      Retains-same t bucket key o s after objects retentions kept

  Kept-put_object_retention :
      (env : Env) (at_bucket at_key : String) (body : Bytes) (s : Service)
      → Kept s.state
      → Kept (put_object_retention env at_bucket at_key body s).0.state
  unfolding put_object_retention
  Kept-put_object_retention env at_bucket at_key body s kept =
      Holds-guard Kept (locked_object_error at_bucket at_key s.state) s _ kept (
        Holds-result Kept (parse_object_retention env body) s _ kept (λ r e.
          let reduces =
            is_reduction (object_retention_config (trim at_bucket) (trim at_key) s.state) r in
          Holds-if Kept reduces s _ _ kept (elim (Bool-cases reduces) [
            | inl b ↦ inl b
            | inr b ↦ inr (
                Holds-persist Kept env 0 _ _ (
                  Kept-set_object_retention t bucket key o (trim at_bucket) (trim at_key) r s.state
                    b (parse_object_retention-mode env body r e) kept))
          ])))

  -- No call changes the object or shortens its retention while the clock has not come to `t`.
  Kept-step :
      (env : Env) (operation : Operation) (s : Service)
      → ((i : ℕ) → env.clock i < t)
      → Kept s.state
      → Kept (step env operation s).state
  unfolding step
  Kept-step env (create_bucket_call name region) s h kept =
      Kept-create_bucket Kept same env name region s kept
  Kept-step env (delete_bucket_call name) s h kept =
      Kept-delete_bucket t bucket key o env name s kept
  Kept-step env (put_bucket_versioning_call b status) s h kept =
      Kept-put_bucket_versioning Kept same env b status s kept
  Kept-step env (put_object_call b k body content_type metadata preserved_headers) s h kept =
      Keeps-put_object t bucket key o env b k body content_type metadata preserved_headers s (h 0)
        kept
  Kept-step env (copy_object_call b k source_bucket source_key directive metadata) s h kept =
      Keeps-copy_object t bucket key o env b k source_bucket source_key directive metadata s (h 0)
        kept
  Kept-step env (delete_object_call b k) s h kept =
      Keeps-delete_object t bucket key o env b k s (h 0) kept
  Kept-step env (delete_objects_call b keys quiet) s h kept =
      Keeps-delete_objects t bucket key o env b keys quiet s h kept
  Kept-step env (put_object_lock_configuration_call b body) s h kept =
      Kept-put_object_lock_configuration Kept same env b body s kept
  Kept-step env (put_object_retention_call b k body) s h kept =
      Kept-put_object_retention env b k body s kept
  Kept-step env (put_object_legal_hold_call b k body) s h kept =
      Kept-put_object_legal_hold Kept same env b k body s kept
  Kept-step env (put_object_acl_call b k body) s h kept =
      Kept-put_object_acl Kept same env b k body s kept
  Kept-step env (put_object_tagging_call b k body) s h kept =
      Kept-put_object_tagging Kept same env b k body s kept
  Kept-step env (delete_object_tagging_call b k) s h kept =
      Kept-untag_object Kept same env b k s kept
  Kept-step env (create_multipart_upload_call b k content_type metadata preserved_headers) s h
        kept =
      Kept-create_multipart_upload Kept same env b k content_type metadata preserved_headers s kept
  Kept-step env (upload_part_call upload_id number body) s h kept =
      Kept-upload_part Kept same env upload_id number body s kept
  Kept-step env (complete_multipart_upload_call upload_id) s h kept =
      Kept-complete_multipart_upload t bucket key o env upload_id s (h 0) kept
  Kept-step env (abort_multipart_upload_call upload_id) s h kept =
      Kept-abort_multipart_upload Kept same upload_id s kept

  abbrev pub IsBefore : Env × Operation → Type 0
  IsBefore call = (i : ℕ) → call.0.clock i < t

  -- An object under a retention of either mode that lasts to `t` at least is the same object, under
  -- such a retention, after every run of the calls of `Operation` (puts, copies, deletes, completed
  -- uploads, bucket deletions, retention changes and the rest), succeeding or failing, in which each
  -- reading of the clock is before `t`.
  pub retained_object_survives :
      (calls : List (Env × Operation)) (s : Service)
      → All IsBefore calls
      → Retains t bucket key o s.state
      → Retains t bucket key o (run calls s).state
  unfolding run
  retained_object_survives [] s before kept = kept
  retained_object_survives ((env, operation) ∷ calls) s before kept =
      retained_object_survives calls (step env operation s) before.1
        (Kept-step env operation s before.0 kept)
