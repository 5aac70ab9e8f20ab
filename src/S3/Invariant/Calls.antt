-- ===== src/S3/Invariant/Calls.antt =====
-- core/internal/resources/s3/application: the calls that change neither objects nor retentions nor
-- versions, and a predicate of the state that rests on those alone.
use mildstack.S3.Store.{
  find_bucket, set_bucket_versioning, has_bucket, versioning_status, delete_object_tagging,
}
use mildstack.S3.BucketName.{is_valid_bucket_name}
use mildstack.S3.Objects.{object_error}
use mildstack.Prelude.Nested.{nested_lookup}
use mildstack.Sqs.Names.{default_region}
use mildstack.Prelude.{
  zero, suc, String, ◌==◌, true, not, ◌||◌, Option, none, some, if◌then◌else◌, ◌≡◌, refl,
  Bool-cases, inl, inr, trim, lookup, Map,
}
use mildstack.Prelude.Numeral.{ℤ, pos, negsuc}
use mildstack.S3.Domain.{State, Bytes}
use mildstack.S3.Service.{Env, Service, Result, Reply, ok}
use mildstack.S3.Invariant.{
  Holds-save, Holds-persist, Holds-guard, Holds-if, Holds-found, Holds-result,
}
use mildstack.S3.Buckets.{create_bucket, upsert_bucket}
use mildstack.S3.Governance.{
  present_object_error, set_object_tagging, set_object_acl, put_object_acl, put_object_tagging,
  untag_object, put_bucket_versioning,
}
use mildstack.S3.Lock.{set_object_legal_hold}
use mildstack.S3.Lock.Settings.{
  marshal_object_lock_configuration, marshal_object_legal_hold, set_bucket_object_lock_config,
  bucket_error, locked_object_error, parse_object_lock_configuration, parse_object_legal_hold,
  put_object_lock_configuration, put_object_legal_hold,
}
use mildstack.S3.Multipart.{
  create_multipart_upload, upload_part, upload_part_at, abort_multipart_upload,
}

module _ (Kept : State → Type 0)
    (same : (s after : State)
      → after.objects ≡ s.objects
      → after.object_retention ≡ s.object_retention
      → after.version_history ≡ s.version_history
      → Kept s
      → Kept after) where
  Kept-unless_found :
      {A B : Type 0} (found : Option B) (s : Service) (answer : B → Result A) (call : Reply A)
      → Kept s.state
      → Kept call.0.state
      → Kept (elim found as (λ x. Reply A) [ none ↦ call | some b ↦ (s, answer b) ]).0.state
  Kept-unless_found none s answer call h hc = hc
  Kept-unless_found (some b) s answer call h hc = h

  Kept-set_bucket_versioning :
      (at_bucket status : String) (s : State)
      → Kept s
      → Kept (set_bucket_versioning at_bucket status s).0
  unfolding set_bucket_versioning
  Kept-set_bucket_versioning at_bucket status s kept = elim (Bool-cases (trim at_bucket == "")) [
    | inl e ↦ rw (e, set_bucket_versioning) kept
    | inr e ↦ rw (e, set_bucket_versioning) (same s _ refl refl refl kept)
  ]

  pub Kept-create_bucket :
      (env : Env) (name region : String) (s : Service)
      → Kept s.state
      → Kept (create_bucket env name region s).0.state
  unfolding create_bucket upsert_bucket
  Kept-create_bucket env name region s kept = Holds-if Kept (trim name == "") s _ _ kept (
      inr (
        Holds-if Kept (not (is_valid_bucket_name (trim name))) s _ _ kept (
          inr (
            Kept-unless_found (find_bucket (trim name) s.state.buckets) s _ _ kept (
              Holds-persist Kept env 0 _ _ (
                same s.state
                  (upsert_bucket (env.clock 0)
                    (record {
                      name = trim name;
                      region = if trim region == "" then default_region else trim region;
                      created_at = 0;
                    })
                    s.state).0
                  refl refl refl kept))))))

  pub Kept-put_bucket_versioning :
      (env : Env) (at_bucket status : String) (s : Service)
      → Kept s.state
      → Kept (put_bucket_versioning env at_bucket status s).0.state
  unfolding put_bucket_versioning
  Kept-put_bucket_versioning env at_bucket status s kept =
      Holds-if Kept (trim at_bucket == "") s _ _ kept (
        inr (
          Holds-if Kept (not (has_bucket (trim at_bucket) s.state)) s _ _ kept (
            inr (
              Holds-if Kept (not (trim status == "Enabled" || trim status == "Suspended")) s _ _
                kept
                (inr (
                  Holds-save Kept env 0 s
                    (set_bucket_versioning (trim at_bucket) (trim status) s.state).0 _
                    (Kept-set_bucket_versioning (trim at_bucket) (trim status) s.state kept)))))))

  pub Kept-put_object_lock_configuration :
      (env : Env) (at_bucket : String) (body : Bytes) (s : Service)
      → Kept s.state
      → Kept (put_object_lock_configuration env at_bucket body s).0.state
  unfolding put_object_lock_configuration set_bucket_object_lock_config
  Kept-put_object_lock_configuration env at_bucket body s kept =
      Holds-guard Kept (bucket_error at_bucket s.state) s _ kept (
        Holds-if Kept
          (not (versioning_status (trim at_bucket) s.state.bucket_versioning == "Enabled")) s _ _
          kept
          (inr (
            Holds-result Kept (parse_object_lock_configuration env body) s _ kept (λ config e.
              Holds-save Kept env 0 s
                (set_bucket_object_lock_config (trim at_bucket) config s.state)
                (marshal_object_lock_configuration env (record config { enabled = true }))
                (same s.state (set_bucket_object_lock_config (trim at_bucket) config s.state) refl
                  refl refl kept)))))

  pub Kept-put_object_legal_hold :
      (env : Env) (at_bucket at_key : String) (body : Bytes) (s : Service)
      → Kept s.state
      → Kept (put_object_legal_hold env at_bucket at_key body s).0.state
  unfolding put_object_legal_hold set_object_legal_hold
  Kept-put_object_legal_hold env at_bucket at_key body s kept =
      Holds-guard Kept (locked_object_error at_bucket at_key s.state) s _ kept (
        Holds-result Kept (parse_object_legal_hold env body) s _ kept (λ hold e.
          Holds-save Kept env 0 s
            (set_object_legal_hold (trim at_bucket) (trim at_key) hold s.state)
            (marshal_object_legal_hold env hold)
            (same s.state (set_object_legal_hold (trim at_bucket) (trim at_key) hold s.state) refl
              refl refl kept)))

  pub Kept-put_object_acl :
      (env : Env) (at_bucket at_key : String) (body : Bytes) (s : Service)
      → Kept s.state
      → Kept (put_object_acl env at_bucket at_key body s).0.state
  unfolding put_object_acl set_object_acl
  Kept-put_object_acl env at_bucket at_key body s kept =
      Holds-guard Kept (present_object_error at_bucket at_key s.state) s _ kept (
        Holds-save Kept env 0 s (set_object_acl (trim at_bucket) (trim at_key) body s.state)
          (ok body)
          (same s.state (set_object_acl (trim at_bucket) (trim at_key) body s.state) refl refl refl
            kept))

  pub Kept-put_object_tagging :
      (env : Env) (at_bucket at_key : String) (body : Bytes) (s : Service)
      → Kept s.state
      → Kept (put_object_tagging env at_bucket at_key body s).0.state
  unfolding put_object_tagging set_object_tagging
  Kept-put_object_tagging env at_bucket at_key body s kept =
      Holds-guard Kept (present_object_error at_bucket at_key s.state) s _ kept (
        Holds-save Kept env 0 s (set_object_tagging (trim at_bucket) (trim at_key) body s.state)
          (ok body)
          (same s.state (set_object_tagging (trim at_bucket) (trim at_key) body s.state) refl refl
            refl kept))

  pub Kept-untag_object :
      (env : Env) (at_bucket at_key : String) (s : Service)
      → Kept s.state
      → Kept (untag_object env at_bucket at_key s).0.state
  unfolding untag_object delete_object_tagging
  Kept-untag_object env at_bucket at_key s kept =
      Holds-guard Kept (present_object_error at_bucket at_key s.state) s _ kept (
        Holds-found Kept (nested_lookup (trim at_bucket) (trim at_key) s.state.object_taggings) s _
          _ kept
          (λ body e.
            Holds-save Kept env 0 s (delete_object_tagging (trim at_bucket) (trim at_key) s.state)
              (ok tt)
              (same s.state (delete_object_tagging (trim at_bucket) (trim at_key) s.state) refl refl
                refl kept)))

  pub Kept-upload_part :
      (env : Env) (upload_id : String) (number : ℤ) (body : Bytes) (s : Service)
      → Kept s.state
      → Kept (upload_part env upload_id number body s).0.state
  unfolding upload_part upload_part_at
  Kept-upload_part env upload_id (negsuc n) body s kept =
      Holds-if Kept (trim upload_id == "") s _ _ kept (inr kept)
  Kept-upload_part env upload_id (pos zero) body s kept =
      Holds-if Kept (trim upload_id == "") s _ _ kept (inr kept)
  Kept-upload_part env upload_id (pos (suc n)) body s kept =
      Holds-if Kept (trim upload_id == "") s _ _ kept (
        inr (
          Holds-found Kept (lookup (trim upload_id) s.multipart_uploads) s _ _ kept
            (λ upload e. kept)))

  pub Kept-abort_multipart_upload :
      (upload_id : String) (s : Service)
      → Kept s.state
      → Kept (abort_multipart_upload upload_id s).0.state
  unfolding abort_multipart_upload
  Kept-abort_multipart_upload upload_id s kept = Holds-if Kept (trim upload_id == "") s _ _ kept (
      inr (
        Holds-found Kept (lookup (trim upload_id) s.multipart_uploads) s _ _ kept
          (λ upload e. kept)))

  pub Kept-create_multipart_upload :
      (env : Env) (at_bucket at_key content_type : String) (metadata preserved_headers : Map String)
      (s : Service)
      → Kept s.state
      → Kept
          (create_multipart_upload env at_bucket at_key content_type metadata preserved_headers
            s).0.state
  unfolding create_multipart_upload
  Kept-create_multipart_upload env at_bucket at_key content_type metadata preserved_headers s kept =
      Holds-guard Kept (object_error (trim at_bucket) (trim at_key) s.state) s _ kept kept
