-- ===== src/S3/Store.antt =====
-- core/internal/resources/s3/domain: state.go and state_versions.go: buckets, objects and versions.
pub mod Laws
pub mod History
use mildstack.Prelude.{
  ℕ, ◌+◌, String, ◌==◌, Bool, true, false, ◌&&◌, ◌||◌, Option, none, some, List, [], ◌∷◌, ◌++◌,
  if◌then◌else◌, trim, length, ltb, eqb,
}
use mildstack.Prelude.Nested.{nested_delete}
use mildstack.Prelude.Time.{Time, is_zero}
use mildstack.S3.Domain.{Bucket, Object, BucketVersioning, VersionRecord, State}
use mildstack.S3.Service.{Env, quoted_md5}
use mildstack.S3.VersionId.{version_id_for_sequence}

-- `State.Bucket`
unfoldable pub find_bucket : String → List Bucket → Option Bucket
find_bucket name [] = none
find_bucket name (b ∷ bs) =
    let later = find_bucket name bs in if b.name == name then some b else later

unfoldable pub has_bucket : String → State → Bool
unfolding find_bucket
has_bucket name s = elim (find_bucket name s.buckets) [ none ↦ false | some b ↦ true ]

abbrev pub is_at : String → String → Object → Bool
is_at bucket key o = o.bucket == bucket && o.key == key

-- `State.Object`
unfoldable pub find_object : String → String → List Object → Option Object
find_object bucket key [] = none
find_object bucket key (o ∷ os) =
    let later = find_object bucket key os in if is_at bucket key o then some o else later

unfoldable pub has_object : String → String → State → Bool
unfolding find_object
has_object bucket key s = elim (find_object bucket key s.objects) [ none ↦ false | some o ↦ true ]

-- The loop of `UpsertObject`: the first object of the bucket and key is replaced, or the new one goes
-- behind all others.
unfoldable pub put_first : Object → List Object → List Object
put_first new [] = new ∷ []
put_first new (o ∷ os) =
    let rest = put_first new os in if is_at new.bucket new.key o then new ∷ os else o ∷ rest

-- The defaults of `UpsertObject`.
unfoldable pub with_defaults : Env → Time → Object → Object
unfolding quoted_md5
with_defaults env now o = record o {
  size = if eqb o.size 0 then length o.body else o.size;
  etag = if o.etag == "" then quoted_md5 env o.body else o.etag;
  last_modified = if is_zero o.last_modified then now else o.last_modified;
}

unfoldable pub upsert_object : Env → Time → Object → State → State × Object
unfolding put_first with_defaults
upsert_object env now o s =
    let stored = with_defaults env now o in
    (record s { objects = put_first stored s.objects }, stored)

-- The loop of `DeleteObject`: the first object of the bucket and key goes.
unfoldable pub remove_first : String → String → List Object → List Object
remove_first bucket key [] = []
remove_first bucket key (o ∷ os) =
    let rest = remove_first bucket key os in if is_at bucket key o then os else o ∷ rest

unfoldable pub delete_object_retention : String → String → State → State
unfolding nested_delete
delete_object_retention bucket key s = record s {
  object_retention = nested_delete bucket key s.object_retention;
}

unfoldable pub delete_object_legal_hold : String → String → State → State
unfolding nested_delete
delete_object_legal_hold bucket key s = record s {
  object_legal_hold = nested_delete bucket key s.object_legal_hold;
}

unfoldable pub delete_object_acl : String → String → State → State
unfolding nested_delete
delete_object_acl bucket key s = record s { object_acls = nested_delete bucket key s.object_acls }

unfoldable pub delete_object_tagging : String → String → State → State
unfolding nested_delete
delete_object_tagging bucket key s = record s {
  object_taggings = nested_delete bucket key s.object_taggings;
}

-- `State.DeleteObject`
unfoldable pub delete_object_record : String → String → State → State
unfolding remove_first delete_object_retention delete_object_legal_hold delete_object_acl
    delete_object_tagging
delete_object_record bucket key s = delete_object_tagging bucket key (
    delete_object_acl bucket key (
      delete_object_legal_hold bucket key (
        delete_object_retention bucket key
          (record s { objects = remove_first bucket key s.objects }))))

unfoldable pub max_sequence : List VersionRecord → ℕ → ℕ
max_sequence [] max = max
max_sequence (v ∷ vs) max = max_sequence vs (if ltb max v.sequence then v.sequence else max)

unfoldable pub next_sequence : List VersionRecord → ℕ
unfolding max_sequence
next_sequence history = max_sequence history 0 + 1

unfoldable pub version_record_from_object : Object → String → ℕ → VersionRecord
version_record_from_object o version_id sequence = record {
  bucket = o.bucket;
  key = o.key;
  version_id = version_id;
  sequence = sequence;
  is_delete_marker = false;
  body = o.body;
  payload_ref = o.payload_ref;
  size = if eqb o.size 0 then length o.body else o.size;
  content_type = o.content_type;
  etag = o.etag;
  last_modified = o.last_modified;
  metadata = o.metadata;
  preserved_headers = o.preserved_headers;
}

unfoldable pub record_object_version : Object → State → State
unfolding next_sequence version_id_for_sequence version_record_from_object
record_object_version o s =
    let sequence = next_sequence s.version_history in
    let version = version_record_from_object o (version_id_for_sequence sequence) sequence in
    record s { version_history = s.version_history ++ (version ∷ []) }

unfoldable pub delete_marker : Time → String → String → ℕ → VersionRecord
unfolding version_id_for_sequence
delete_marker now bucket key sequence = record {
  bucket = bucket;
  key = key;
  version_id = version_id_for_sequence sequence;
  sequence = sequence;
  is_delete_marker = true;
  body = [];
  payload_ref = "";
  size = 0;
  content_type = "";
  etag = "";
  last_modified = now;
  metadata = [];
  preserved_headers = [];
}

unfoldable pub record_delete_marker : Time → String → String → State → State
unfolding next_sequence delete_marker
record_delete_marker now bucket key s =
    let marker = delete_marker now bucket key (next_sequence s.version_history) in
    record s { version_history = s.version_history ++ (marker ∷ []) }

unfoldable pub versioning_status : String → List BucketVersioning → String
versioning_status bucket [] = ""
versioning_status bucket (v ∷ vs) =
    let later = versioning_status bucket vs in if v.bucket == bucket then v.status else later

unfoldable pub versioning_enabled : String → State → Bool
unfolding versioning_status
versioning_enabled bucket s =
    let status = versioning_status bucket s.bucket_versioning in
    status == "Enabled" || status == "Suspended"

-- The loop of `SetBucketVersioning`; an empty status takes the setting out.
unfoldable pub set_versioning : String → String → List BucketVersioning → List BucketVersioning
set_versioning bucket status [] =
    if status == "" then [] else record { bucket = bucket; status = status } ∷ []
set_versioning bucket status (v ∷ vs) =
    let rest = set_versioning bucket status vs in
    if v.bucket == bucket
    then if status == "" then vs else record v { status = status } ∷ vs
    else v ∷ rest

unfoldable pub set_bucket_versioning : String → String → State → State × BucketVersioning
unfolding set_versioning
set_bucket_versioning bucket status s =
    let bucket = trim bucket in
    let status = trim status in
    if bucket == "" then (s, record { bucket = ""; status = "" }) else (
      record s { bucket_versioning = set_versioning bucket status s.bucket_versioning },
      record { bucket = bucket; status = status },
    )
