-- ===== src/S3/Objects.antt =====
-- core/internal/resources/s3/application: service_objects.go and the two writes of
-- service_versions.go: objects put, read, copied and deleted.
pub mod Removal
pub mod RoundTrip
pub mod Others
use Prim.Native.String.{◌++◌}
use mildstack.Prelude.{
  ℕ, String, ◌==◌, Bool, not, ◌&&◌, ◌||◌, ◌+◌, ◌*◌, Option, none, some, List, [], ◌∷◌, Map,
  if◌then◌else◌, trim, length, delete,
}
use mildstack.Prelude.Time.{Time}
use mildstack.S3.Domain.{Bytes, Object, State}
use mildstack.S3.Service.{
  source_key_required, source_bucket_required, no_such_bucket, body_unreadable, object_key_required,
  source_payload_unavailable, access_denied, no_such_key, bucket_name_required, Env, Error, Result,
  ok, err, Service, Reply, persist, store_payload, quoted_md5, read_payload, hydrate_object,
}
use mildstack.S3.Store.{
  has_bucket, has_object, find_object, upsert_object, versioning_enabled, record_object_version,
  record_delete_marker, delete_object_record,
}
use mildstack.S3.Lock.{
  object_mutation_blocked, clear_object_protection, copy_object_protection, apply_default_retention,
}
use mildstack.S3.Lock.Settings.{bucket_error}

-- The guards of GetObject, DeleteObject and the writes, on trimmed names.
unfoldable pub object_error : String → String → State → Option Error
unfolding has_bucket
object_error bucket key s =
    if bucket == ""
    then some bucket_name_required
    else if key == ""
    then some object_key_required
    else if not (has_bucket bucket s)
    then some no_such_bucket
    else none

-- GetObject on trimmed names.
unfoldable pub get_object_at : String → String → Service → Result Object
unfolding object_error find_object hydrate_object
get_object_at bucket key s = elim (object_error bucket key s.state) [
  | some e ↦ err e
  | none ↦ elim (find_object bucket key s.state.objects) [
    | none ↦ err no_such_key
    | some o ↦ hydrate_object s.payloads o
  ]
]

unfoldable pub get_object : String → String → Service → Result Object
unfolding get_object_at
get_object bucket key s = get_object_at (trim bucket) (trim key) s

unfoldable pub head_object : String → String → Service → Result Object
unfolding get_object
head_object bucket key s = elim (get_object bucket key s) [
  | err e ↦ err e
  | ok o ↦ ok (record o { body = [] })
]

-- `storeObject`: the object goes into the state, and without its body into the history.
unfoldable pub store_object : Env → Time → Object → State → State × Object
unfolding upsert_object versioning_enabled record_object_version
store_object env now o s =
    let (state, stored) = upsert_object env now o s in
    let bare = record stored { body = [] } in
    (if versioning_enabled bare.bucket state then record_object_version bare state else state, bare)

-- An existing object that is protected is not overwritten.
unfoldable pub write_blocked : Time → String → String → State → Bool
unfolding has_object object_mutation_blocked
write_blocked now bucket key s = has_object bucket key s && object_mutation_blocked now bucket key s

-- The end of a write: the object is stored, its protection cleared and set anew, the state saved.
unfoldable pub stored_state : Env → (State → State) → Object → State → State
unfolding store_object clear_object_protection apply_default_retention
stored_state env protect o s =
    apply_default_retention env (env.clock 2) o.bucket o.key
      (protect (clear_object_protection o.bucket o.key (store_object env (env.clock 1) o s).0))

unfoldable pub write_object : Env → (State → State) → Object → Service → Reply Object
unfolding store_object stored_state persist hydrate_object
write_object env protect o s =
    persist env 0 (record s { state = stored_state env protect o s.state })
      (hydrate_object s.payloads (store_object env (env.clock 1) o s.state).1)

-- The object that a write stores, its body among the payloads.
unfoldable pub new_object :
    Env → String → String → Bytes → String → Map String → Map String → String → Object
unfolding quoted_md5
new_object env bucket key body content_type metadata preserved_headers payload_ref = record {
  bucket = bucket;
  key = key;
  body = [];
  payload_ref = payload_ref;
  size = length body;
  content_type = content_type;
  etag = quoted_md5 env body;
  last_modified = 0;
  metadata = metadata;
  preserved_headers = preserved_headers;
}

-- The bytes of a write go to the payloads, then its object into the state.
unfoldable pub write_bytes :
    Env
    → (State → State)
    → String
    → String
    → Bytes
    → String
    → Map String
    → Map String
    → Service
    → Reply Object
unfolding store_payload new_object write_object
write_bytes env protect bucket key bytes content_type metadata preserved_headers s =
    let (payloads, ref) = store_payload env (bucket ++ "/" ++ key) bytes s.payloads in
    write_object env protect
      (new_object env bucket key bytes content_type metadata preserved_headers ref)
      (record s { payloads = payloads })

abbrev pub or_octets : String → String
or_octets content_type = if content_type == "" then "application/octet-stream" else content_type

-- `body` is `none` where reading it fails.
unfoldable pub put_object_with_metadata :
    Env → String → String → Option Bytes → String → Map String → Map String → Service → Reply Object
unfolding object_error write_blocked write_bytes
put_object_with_metadata env bucket key body content_type metadata preserved_headers s =
    let bucket = trim bucket in
    let key = trim key in
    elim (object_error bucket key s.state) [
      | some e ↦ (s, err e)
      | none ↦
          if write_blocked (env.clock 0) bucket key s.state
          then (s, err access_denied)
          else elim body [
            | none ↦ (s, err body_unreadable)
            | some bytes ↦
                write_bytes env (λ t. t) bucket key bytes (or_octets (trim content_type)) metadata
                  preserved_headers s
          ]
    ]

unfoldable pub put_object : Env → String → String → Option Bytes → String → Service → Reply Object
unfolding put_object_with_metadata
put_object env bucket key body content_type s =
    put_object_with_metadata env bucket key body content_type [] [] s

unfoldable pub resolved_copy_metadata : Env → Map String → String → Map String → Map String
resolved_copy_metadata env source metadata_directive metadata =
    let directive = env.to_upper (trim metadata_directive) in
    if directive == "" || directive == "COPY"
    then source
    else if directive == "REPLACE"
    then metadata
    else source

-- The bytes that a copy reads from its source.
unfoldable pub source_bytes : Map Bytes → Object → Result Bytes
unfolding read_payload
source_bytes payloads source =
    if not (source.payload_ref == "")
    then read_payload source.payload_ref payloads
    else elim source.body [ [] ↦ err source_payload_unavailable | byte ∷ bytes ↦ ok source.body ]

-- The guards of a copy, on trimmed names.
unfoldable pub copy_error : String → String → String → String → State → Option Error
unfolding has_bucket
copy_error bucket key source_bucket source_key s =
    if bucket == ""
    then some bucket_name_required
    else if key == ""
    then some object_key_required
    else if source_bucket == ""
    then some source_bucket_required
    else if source_key == ""
    then some source_key_required
    else if not (has_bucket bucket s)
    then some no_such_bucket
    else none

-- A copy behind its guards.
unfoldable pub copy_source :
    Env → String → String → String → String → String → Map String → Service → Reply Object
unfolding get_object source_bytes resolved_copy_metadata copy_object_protection write_bytes
copy_source env bucket key source_bucket source_key metadata_directive metadata s =
    elim (get_object source_bucket source_key s) [
      | err e ↦ (s, err e)
      | ok source ↦ elim (source_bytes s.payloads source) [
        | err e ↦ (s, err e)
        | ok bytes ↦
            write_bytes env (copy_object_protection bucket key source_bucket source_key) bucket key
              bytes source.content_type
              (resolved_copy_metadata env source.metadata metadata_directive metadata)
              source.preserved_headers s
      ]
    ]

unfoldable pub copy_object_with_options :
    Env → String → String → String → String → String → Map String → Service → Reply Object
unfolding copy_error write_blocked copy_source
copy_object_with_options env bucket key source_bucket source_key metadata_directive metadata s =
    let bucket = trim bucket in
    let key = trim key in
    elim (copy_error bucket key (trim source_bucket) (trim source_key) s.state) [
      | some e ↦ (s, err e)
      | none ↦
          if write_blocked (env.clock 0) bucket key s.state
          then (s, err access_denied)
          else copy_source env bucket key (trim source_bucket) (trim source_key) metadata_directive
              metadata s
    ]
