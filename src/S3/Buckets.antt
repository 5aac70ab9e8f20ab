-- ===== src/S3/Buckets.antt =====
-- core/internal/resources/s3/application/service_buckets.go, and the buckets of domain/state.go and
-- domain/state_versions.go.
use mildstack.Prelude.{
  String, ◌==◌, Bool, false, not, ◌||◌, Option, none, some, List, [], ◌∷◌, Map, if◌then◌else◌, trim,
  delete, retain,
}
use mildstack.Prelude.Time.{Time, is_zero}
use mildstack.Prelude.Sort.{stable_sort}
use mildstack.Prelude.{string_lt}
use mildstack.Sqs.Names.{default_region}
use mildstack.S3.Domain.{Bucket, Object, BucketVersioning, VersionRecord, MultipartUpload, State}
use mildstack.S3.Service.{
  bucket_not_empty, no_such_bucket, invalid_bucket_name, bucket_name_required, Env, Result, ok, err,
  Service, Reply, persist,
}
use mildstack.S3.Store.{find_bucket, has_bucket}
use mildstack.S3.BucketName.{is_valid_bucket_name}

-- `State.ListBuckets`
unfoldable pub sorted_buckets : State → List Bucket
unfolding stable_sort
sorted_buckets s = stable_sort (λ a b. string_lt a.name b.name) s.buckets

unfoldable pub merge_bucket : Bucket → Bucket → Bucket
merge_bucket new old = record old {
  region = if not (new.region == "") then new.region else old.region;
  created_at = if is_zero old.created_at then new.created_at else old.created_at;
}

-- The loop of `UpsertBucket`: the buckets, and the one that was stored.
unfoldable pub upsert_bucket_loop : Bucket → List Bucket → List Bucket × Bucket
unfolding merge_bucket
upsert_bucket_loop new [] = (new ∷ [], new)
upsert_bucket_loop new (b ∷ bs) =
    let (rest, stored) = upsert_bucket_loop new bs in
    if b.name == new.name then (merge_bucket new b ∷ bs, merge_bucket new b) else (b ∷ rest, stored)

unfoldable pub upsert_bucket : Time → Bucket → State → State × Bucket
unfolding upsert_bucket_loop
upsert_bucket now b s =
    let (buckets, stored) =
      upsert_bucket_loop
        (record b { created_at = if is_zero b.created_at then now else b.created_at }) s.buckets in
    (record s { buckets = buckets }, stored)

unfoldable pub any_object_in : String → List Object → Bool
any_object_in name [] = false
any_object_in name (o ∷ os) = o.bucket == name || any_object_in name os

-- `VersionHistory.hasBucket`
unfoldable pub any_version_in : String → List VersionRecord → Bool
any_version_in name [] = false
any_version_in name (v ∷ vs) = v.bucket == name || any_version_in name vs

unfoldable pub remove_bucket : String → List Bucket → List Bucket
remove_bucket name [] = []
remove_bucket name (b ∷ bs) =
    let rest = remove_bucket name bs in if b.name == name then bs else b ∷ rest

-- `removeBucketVersioning`
unfoldable pub remove_bucket_versioning : String → List BucketVersioning → List BucketVersioning
remove_bucket_versioning name [] = []
remove_bucket_versioning name (v ∷ vs) =
    let rest = remove_bucket_versioning name vs in if v.bucket == name then rest else v ∷ rest

unfoldable pub remove_bucket_governance : String → State → State
unfolding delete
remove_bucket_governance name s = record s {
  bucket_policies = delete name s.bucket_policies;
  bucket_encryption = delete name s.bucket_encryption;
  bucket_lifecycle = delete name s.bucket_lifecycle;
  bucket_cors = delete name s.bucket_cors;
  bucket_acl = delete name s.bucket_acl;
  bucket_tagging = delete name s.bucket_tagging;
  bucket_ownership = delete name s.bucket_ownership;
  bucket_public_access = delete name s.bucket_public_access;
  bucket_notifications = delete name s.bucket_notifications;
  bucket_logging = delete name s.bucket_logging;
  bucket_replication = delete name s.bucket_replication;
  bucket_object_lock = delete name s.bucket_object_lock;
  object_acls = delete name s.object_acls;
  object_taggings = delete name s.object_taggings;
  object_retention = delete name s.object_retention;
  object_legal_hold = delete name s.object_legal_hold;
}

-- `State.DeleteBucket`; `none` is `false`
unfoldable pub delete_bucket_record : String → State → Option State
unfolding any_object_in any_version_in has_bucket remove_bucket remove_bucket_versioning
    remove_bucket_governance
delete_bucket_record name s =
    if any_object_in name s.objects
    then none
    else if any_version_in name s.version_history
    then none
    else if has_bucket name s
    then some (
        remove_bucket_governance name (record s {
          buckets = remove_bucket name s.buckets;
          bucket_versioning = remove_bucket_versioning name s.bucket_versioning;
        }))
    else none

abbrev pub is_nameless : String → Bool
is_nameless name = trim name == ""

abbrev with_region : Bucket → Bucket
with_region b = record b { region = if b.region == "" then default_region else b.region }

unfoldable pub create_bucket : Env → String → String → Service → Reply Bucket
unfolding is_valid_bucket_name find_bucket upsert_bucket persist
create_bucket env name region s =
    let name = trim name in
    let region = if trim region == "" then default_region else trim region in
    let (state, stored) =
      upsert_bucket (env.clock 0) (record { name = name; region = region; created_at = 0 })
        s.state in
    if name == ""
    then (s, err bucket_name_required)
    else if not (is_valid_bucket_name name)
    then (s, err invalid_bucket_name)
    else elim (find_bucket name s.state.buckets) [
      | some b ↦ (s, ok (with_region b))
      | none ↦ persist env 0 (record s { state = state }) (ok stored)
    ]

unfoldable pub head_bucket : String → Service → Result Bucket
unfolding find_bucket
head_bucket name s =
    if trim name == ""
    then err bucket_name_required
    else elim (find_bucket (trim name) s.state.buckets) [
      | none ↦ err no_such_bucket
      | some b ↦ ok (with_region b)
    ]

unfoldable pub get_bucket_location : String → Service → Result String
unfolding find_bucket
get_bucket_location name s =
    if trim name == ""
    then err bucket_name_required
    else elim (find_bucket (trim name) s.state.buckets) [
      | none ↦ err no_such_bucket
      | some b ↦
          let region = if trim b.region == "" then default_region else trim b.region in
          ok (if region == default_region then "" else region)
    ]

-- `removeMultipartUploads`
unfoldable pub remove_multipart_uploads : String → Map MultipartUpload → Map MultipartUpload
unfolding retain
remove_multipart_uploads bucket uploads =
    retain (λ id upload. not (upload.bucket == bucket)) uploads

unfoldable pub delete_bucket : Env → String → Service → Reply (Unit {0})
unfolding has_bucket delete_bucket_record remove_multipart_uploads persist
delete_bucket env name s =
    let name = trim name in
    if name == ""
    then (s, err bucket_name_required)
    else if not (has_bucket name s.state)
    then (s, err no_such_bucket)
    else elim (delete_bucket_record name s.state) [
      | none ↦ (s, err bucket_not_empty)
      | some state ↦
          persist env 0
            (record s {
              state = state;
              multipart_uploads = remove_multipart_uploads name s.multipart_uploads;
            })
            (ok tt)
    ]
