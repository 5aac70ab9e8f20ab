-- ===== src/S3/Governance.antt =====
-- core/internal/resources/s3/application/service_object_governance.go, and the calls of
-- service_versions.go that set and read the versioning of a bucket.
use mildstack.Prelude.{String, ◌==◌, not, ◌||◌, Option, none, some, if◌then◌else◌, trim}
use mildstack.Prelude.Nested.{nested_lookup, nested_insert}
use mildstack.S3.Domain.{Bytes, BucketVersioning, State}
use mildstack.S3.Service.{
  invalid_versioning_status, no_such_bucket, no_such_key, bucket_name_required, object_key_required,
  Env, Error, Result, ok, err, Service, Reply, persist,
}
use mildstack.S3.Store.{
  has_bucket, has_object, delete_object_tagging, versioning_status, set_bucket_versioning,
}
use mildstack.S3.Lock.Settings.{bucket_error}

-- The guards of the calls on an object that is there.
unfoldable pub present_object_error : String → String → State → Option Error
unfolding bucket_error has_object
present_object_error bucket key s = elim (bucket_error bucket s) [
  | some e ↦ some e
  | none ↦
      if trim key == ""
      then some object_key_required
      else if not (has_object (trim bucket) (trim key) s)
      then some no_such_key
      else none
]

abbrev or_default : Bytes → Option Bytes → Bytes
or_default body none = body
or_default body (some stored) = stored

-- `default_body` is the XML of the default policy.
unfoldable pub get_object_acl : Bytes → String → String → Service → Result Bytes
unfolding present_object_error nested_lookup
get_object_acl default_body bucket key s = elim (present_object_error bucket key s.state) [
  | some e ↦ err e
  | none ↦ ok (or_default default_body (nested_lookup (trim bucket) (trim key) s.state.object_acls))
]

unfoldable pub set_object_acl : String → String → Bytes → State → State
unfolding nested_insert
set_object_acl bucket key body s = record s {
  object_acls = nested_insert bucket key body s.object_acls;
}

unfoldable pub put_object_acl : Env → String → String → Bytes → Service → Reply Bytes
unfolding present_object_error set_object_acl persist
put_object_acl env bucket key body s = elim (present_object_error bucket key s.state) [
  | some e ↦ (s, err e)
  | none ↦
      persist env 0 (record s { state = set_object_acl (trim bucket) (trim key) body s.state })
        (ok body)
]

unfoldable pub get_object_tagging : Bytes → String → String → Service → Result Bytes
unfolding present_object_error nested_lookup
get_object_tagging default_body bucket key s = elim (present_object_error bucket key s.state) [
  | some e ↦ err e
  | none ↦
      ok (or_default default_body (nested_lookup (trim bucket) (trim key) s.state.object_taggings))
]

unfoldable pub set_object_tagging : String → String → Bytes → State → State
unfolding nested_insert
set_object_tagging bucket key body s = record s {
  object_taggings = nested_insert bucket key body s.object_taggings;
}

unfoldable pub put_object_tagging : Env → String → String → Bytes → Service → Reply Bytes
unfolding present_object_error set_object_tagging persist
put_object_tagging env bucket key body s = elim (present_object_error bucket key s.state) [
  | some e ↦ (s, err e)
  | none ↦
      persist env 0 (record s { state = set_object_tagging (trim bucket) (trim key) body s.state })
        (ok body)
]

-- DeleteObjectTagging of the service: nothing is saved where there was no tagging.
unfoldable pub untag_object : Env → String → String → Service → Reply (Unit {0})
unfolding present_object_error nested_lookup delete_object_tagging persist
untag_object env bucket key s = elim (present_object_error bucket key s.state) [
  | some e ↦ (s, err e)
  | none ↦ elim (nested_lookup (trim bucket) (trim key) s.state.object_taggings) [
    | none ↦ (s, ok tt)
    | some body ↦
        persist env 0 (record s { state = delete_object_tagging (trim bucket) (trim key) s.state })
          (ok tt)
  ]
]

unfoldable pub get_bucket_versioning : String → Service → Result BucketVersioning
unfolding has_bucket versioning_status
get_bucket_versioning bucket s =
    if trim bucket == ""
    then err bucket_name_required
    else if not (has_bucket (trim bucket) s.state)
    then err no_such_bucket
    else ok (record {
      bucket = trim bucket;
      status = versioning_status (trim bucket) s.state.bucket_versioning;
    })

unfoldable pub put_bucket_versioning : Env → String → String → Service → Reply BucketVersioning
unfolding has_bucket set_bucket_versioning persist
put_bucket_versioning env bucket status s =
    let (state, setting) = set_bucket_versioning (trim bucket) (trim status) s.state in
    if trim bucket == ""
    then (s, err bucket_name_required)
    else if not (has_bucket (trim bucket) s.state)
    then (s, err no_such_bucket)
    else if not (trim status == "Enabled" || trim status == "Suspended")
    then (s, err invalid_versioning_status)
    else persist env 0 (record s { state = state }) (ok setting)
