-- ===== src/S3/Lock/OtherCalls.antt =====
-- core/internal/resources/s3/application: the calls on buckets, settings and uploads, beside an object
-- under a retention.
use mildstack.Prelude.{
  String, ◌==◌, true, false, not, ◌&&◌, ◌||◌, some, List, [], ◌∷◌, ◌≡◌, refl, arith, eq_iff, ◌<◌,
  inl, inr, ap, ◌∙◌, trim, lookup, eqb, length, delete, lookup-delete,
}
use mildstack.Prelude.Nested.{nested_lookup, nested_lookup-nested_insert}
use mildstack.Prelude.Time.{Time}
use mildstack.S3.Domain.{Object, ObjectRetention, State, MultipartUpload, MultipartPart}
use mildstack.S3.Service.{Env, Service, Reply, ok, err}
use mildstack.S3.Invariant.{Holds-persist, Holds-if, Holds-found}
use mildstack.S3.Store.{has_bucket, find_object}
use mildstack.S3.Buckets.{
  any_object_in, delete_bucket_record, remove_bucket_governance, delete_bucket,
}
use mildstack.S3.Lock.{object_retention_config, set_object_retention, object_retention_reduction}
use mildstack.S3.Lock.Settings.{is_reduction}
use mildstack.S3.Lock.Retention.{Retains, pair-cases, Retains-set_object_retention}
use mildstack.S3.Lock.Survival.{Retains-stored_state}
use mildstack.S3.Lock.Calls.{Keeps-unless_blocked}
use mildstack.S3.Multipart.{
  complete_parts, complete_multipart_upload, drop_upload, sorted_multipart_parts, completed_object,
}

-- An object that is found stands in its bucket.
any_object_in-find_object :
    (bucket key : String) (o : Object) (os : List Object)
    → find_object bucket key os ≡ some o
    → any_object_in bucket os ≡ true
unfolding any_object_in find_object
any_object_in-find_object bucket key o [] h = ground arith
any_object_in-find_object bucket key o (p ∷ ps) h =
    ground
      (arith, eq_iff p.bucket bucket, eq_iff p.key key, any_object_in-find_object bucket key o ps)

delete_bucket_record-changes :
    (name : String) (s after : State)
    → delete_bucket_record name s ≡ some after
    → (any_object_in name s.objects ≡ false)
      × (after.objects ≡ s.objects)
      × (after.object_retention ≡ delete name s.object_retention)
unfolding delete_bucket_record remove_bucket_governance
delete_bucket_record-changes name s after h = (ground arith, ground arith, ground arith)

pub drop_upload-state :
    (upload_id : String) (reply : Reply Object)
    → (drop_upload upload_id reply).0.state ≡ reply.0.state
unfolding drop_upload
drop_upload-state upload_id (s, err e) = refl
drop_upload-state upload_id (s, ok r) = refl

module _ (t : Time) (bucket key : String) (o : Object) where
  abbrev Kept : State → Type 0
  Kept s = Retains t bucket key o s

  Kept-complete_parts :
      (env : Env) (upload_id : String) (upload : MultipartUpload) (parts : List MultipartPart)
      (s : Service)
      → (upload.bucket == bucket && upload.key == key) ≡ false
      → Kept s.state
      → Kept (complete_parts env upload_id upload parts s).0.state
  unfolding complete_parts completed_object
  Kept-complete_parts env upload_id upload parts s ne kept = rw (drop_upload-state upload_id) (
      Holds-persist Kept env 0 _ _ (
        Retains-stored_state t bucket key o env (λ x. x) (completed_object env upload parts) s.state
          ne (λ before k. k) kept))

  pub Kept-complete_multipart_upload :
      (env : Env) (upload_id : String) (s : Service)
      → env.clock 0 < t
      → Kept s.state
      → Kept (complete_multipart_upload env upload_id s).0.state
  unfolding complete_multipart_upload
  Kept-complete_multipart_upload env upload_id s h kept =
      Holds-if Kept (trim upload_id == "") s _ _ kept (
        inr (
          Holds-found Kept (lookup (trim upload_id) s.multipart_uploads) s _ _ kept (λ upload e.
            let parts = sorted_multipart_parts upload.parts in
            Holds-if Kept (eqb (length parts) 0) s _ _ kept (
              inr (
                Holds-if Kept (not (has_bucket upload.bucket s.state)) s _ _ kept (
                  inr (
                    Keeps-unless_blocked t bucket key o (env.clock 0) upload.bucket upload.key s _ _
                      h kept
                      (λ ne. Kept-complete_parts env (trim upload_id) upload parts s ne kept))))))))

  -- A bucket that goes is not the bucket of the object.
  Kept-delete_bucket_record :
      (name : String) (s after : State)
      → delete_bucket_record name s ≡ some after
      → Kept s
      → Kept after
  unfolding Retains object_retention_config nested_lookup
  Kept-delete_bucket_record name s after h (found, r, kept, mode, later) =
      let (without, objects, retention) = delete_bucket_record-changes name s after h in
      (
        ap (find_object bucket key) objects ∙ found,
        r,
        ground (
          arith,
          eq_iff name bucket,
          any_object_in-find_object bucket key o s.objects found,
          lookup-delete name bucket s.object_retention,
        ),
        mode,
        later,
      )

  pub Kept-delete_bucket :
      (env : Env) (name : String) (s : Service)
      → Kept s.state
      → Kept (delete_bucket env name s).0.state
  unfolding delete_bucket
  Kept-delete_bucket env name s kept = Holds-if Kept (trim name == "") s _ _ kept (
      inr (
        Holds-if Kept (not (has_bucket (trim name) s.state)) s _ _ kept (
          inr (
            Holds-found Kept (delete_bucket_record (trim name) s.state) s _ _ kept (λ after e.
              Holds-persist Kept env 0 _ _
                (Kept-delete_bucket_record (trim name) s.state after e kept))))))

  -- A retention that is set on the pair is no shorter and has a mode.
  pub Kept-set_object_retention :
      (at_bucket at_key : String) (next : ObjectRetention) (s : State)
      → is_reduction (object_retention_config at_bucket at_key s) next ≡ false
      → (next.mode == "GOVERNANCE" || next.mode == "COMPLIANCE") ≡ true
      → Kept s
      → Kept (set_object_retention at_bucket at_key next s)
  unfolding Retains set_object_retention object_retention_config object_retention_reduction
  Kept-set_object_retention at_bucket at_key next s extends valid (found, r, kept, mode, later) =
      elim (pair-cases t bucket key o at_bucket at_key) [
        | inl (eb, ek) ↦ (
          found,
          next,
          ground (
            arith,
            eq_iff at_bucket bucket,
            eq_iff at_key key,
            nested_lookup-nested_insert at_bucket at_key bucket key next s.object_retention,
          ),
          ground arith,
          ground arith,
        )
        | inr ne ↦
            Retains-set_object_retention t bucket key o at_bucket at_key next s ne
              (found, r, kept, mode, later)
      ]
