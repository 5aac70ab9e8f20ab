-- ===== src/S3/Operations.antt =====
-- core/internal/resources/s3/application: the calls that change the service, as data, and their runs.
use mildstack.Prelude.{String, Bool, Option, List, [], ◌∷◌, Map}
use mildstack.Prelude.Numeral.{ℤ}
use mildstack.S3.Domain.{Bytes}
use mildstack.S3.Service.{Env, Service}
use mildstack.S3.Buckets.{create_bucket, delete_bucket}
use mildstack.S3.Governance.{
  put_object_acl, put_object_tagging, untag_object, put_bucket_versioning,
}
use mildstack.S3.Lock.Settings.{
  put_object_lock_configuration, put_object_retention, put_object_legal_hold,
}
use mildstack.S3.Objects.{put_object_with_metadata, copy_object_with_options}
use mildstack.S3.Objects.Removal.{delete_object, delete_objects}
use mildstack.S3.Multipart.{
  create_multipart_upload, upload_part, complete_multipart_upload, abort_multipart_upload,
}

pub data Operation : Type 0 where
  create_bucket_call : (name region : String) → Operation
  delete_bucket_call : (name : String) → Operation
  put_bucket_versioning_call : (bucket status : String) → Operation
  put_object_call :
      (bucket key : String) (body : Option Bytes) (content_type : String)
      (metadata preserved_headers : Map String)
      → Operation
  copy_object_call :
      (bucket key source_bucket source_key metadata_directive : String) (metadata : Map String)
      → Operation
  delete_object_call : (bucket key : String) → Operation
  delete_objects_call : (bucket : String) (keys : List String) (quiet : Bool) → Operation
  put_object_lock_configuration_call : (bucket : String) (body : Bytes) → Operation
  put_object_retention_call : (bucket key : String) (body : Bytes) → Operation
  put_object_legal_hold_call : (bucket key : String) (body : Bytes) → Operation
  put_object_acl_call : (bucket key : String) (body : Bytes) → Operation
  put_object_tagging_call : (bucket key : String) (body : Bytes) → Operation
  delete_object_tagging_call : (bucket key : String) → Operation
  create_multipart_upload_call :
      (bucket key content_type : String) (metadata preserved_headers : Map String) → Operation
  upload_part_call : (upload_id : String) (part_number : ℤ) (body : Bytes) → Operation
  complete_multipart_upload_call : (upload_id : String) → Operation
  abort_multipart_upload_call : (upload_id : String) → Operation

-- The service that a call leaves, whether it succeeds or fails.
unfoldable pub step : Env → Operation → Service → Service
unfolding create_bucket delete_bucket put_bucket_versioning put_object_with_metadata
    copy_object_with_options delete_object delete_objects put_object_lock_configuration
    put_object_retention put_object_legal_hold put_object_acl put_object_tagging untag_object
    create_multipart_upload upload_part complete_multipart_upload abort_multipart_upload
step env (create_bucket_call name region) s = (create_bucket env name region s).0
step env (delete_bucket_call name) s = (delete_bucket env name s).0
step env (put_bucket_versioning_call bucket status) s =
    (put_bucket_versioning env bucket status s).0
step env (put_object_call bucket key body content_type metadata preserved_headers) s =
    (put_object_with_metadata env bucket key body content_type metadata preserved_headers s).0
step env (copy_object_call bucket key source_bucket source_key directive metadata) s =
    (copy_object_with_options env bucket key source_bucket source_key directive metadata s).0
step env (delete_object_call bucket key) s = (delete_object env bucket key s).0
step env (delete_objects_call bucket keys quiet) s = (delete_objects env bucket keys quiet s).0
step env (put_object_lock_configuration_call bucket body) s =
    (put_object_lock_configuration env bucket body s).0
step env (put_object_retention_call bucket key body) s =
    (put_object_retention env bucket key body s).0
step env (put_object_legal_hold_call bucket key body) s =
    (put_object_legal_hold env bucket key body s).0
step env (put_object_acl_call bucket key body) s = (put_object_acl env bucket key body s).0
step env (put_object_tagging_call bucket key body) s = (put_object_tagging env bucket key body s).0
step env (delete_object_tagging_call bucket key) s = (untag_object env bucket key s).0
step env (create_multipart_upload_call bucket key content_type metadata preserved_headers) s =
    (create_multipart_upload env bucket key content_type metadata preserved_headers s).0
step env (upload_part_call upload_id part_number body) s =
    (upload_part env upload_id part_number body s).0
step env (complete_multipart_upload_call upload_id) s =
    (complete_multipart_upload env upload_id s).0
step env (abort_multipart_upload_call upload_id) s = (abort_multipart_upload upload_id s).0

-- Calls one behind the other, each with what it meets from outside.
unfoldable pub run : List (Env × Operation) → Service → Service
unfolding step
run [] s = s
run ((env, operation) ∷ calls) s = run calls (step env operation s)
