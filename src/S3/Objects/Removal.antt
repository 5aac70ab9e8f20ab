-- ===== src/S3/Objects/Removal.antt =====
-- core/internal/resources/s3/application: removeObject of service_versions.go, DeleteObject and
-- DeleteObjects of service_objects.go.
use mildstack.Prelude.{
  ℕ, String, ◌==◌, Bool, not, ◌+◌, ◌*◌, Option, none, some, List, [], ◌∷◌, if◌then◌else◌, trim,
  delete,
}
use mildstack.Prelude.Time.{Time}
use mildstack.S3.Domain.{Object}
use mildstack.S3.Service.{access_denied, Env, Error, Result, ok, err, Service, Reply, persist}
use mildstack.S3.Store.{find_object, versioning_enabled, record_delete_marker, delete_object_record}
use mildstack.S3.Lock.Settings.{bucket_error}
use mildstack.S3.Objects.{object_error, write_blocked}

abbrev pub ref_of : Option Object → String
ref_of none = ""
ref_of (some o) = o.payload_ref

-- The state and the payloads that `removeObject` leaves.
unfoldable pub removed : Time → String → String → Service → Service
unfolding find_object versioning_enabled record_delete_marker delete_object_record delete
removed now bucket key s =
    let versioned = versioning_enabled bucket s.state in
    let ref = if versioned then "" else ref_of (find_object bucket key s.state.objects) in
    record s {
      state =
          delete_object_record bucket key
            (if versioned then record_delete_marker now bucket key s.state else s.state);
      payloads = if not (ref == "") then delete ref s.payloads else s.payloads;
    }

-- `removeObject`, which is the call with number `i` of its request
unfoldable pub remove_object : Env → ℕ → String → String → Service → Reply (Unit {0})
unfolding write_blocked removed persist
remove_object env i bucket key s =
    if write_blocked (env.clock (2 * i)) bucket key s.state
    then (s, err access_denied)
    else persist env i (removed (env.clock (2 * i + 1)) bucket key s) (ok tt)

unfoldable pub delete_object : Env → String → String → Service → Reply (Unit {0})
unfolding object_error remove_object
delete_object env bucket key s = elim (object_error (trim bucket) (trim key) s.state) [
  | some e ↦ (s, err e)
  | none ↦ remove_object env 0 (trim bucket) (trim key) s
]

pub record DeleteObjectsResult : Type 0 where
  pub deleted : List String
  pub errors : List (String × Error)

-- The answer for one key in front of the answers for the keys behind it.
abbrev pub with_answer :
    Bool → String → Result (Unit {0}) → DeleteObjectsResult → DeleteObjectsResult
with_answer quiet key (err e) rest = record rest { errors = (key, e) ∷ rest.errors }
with_answer quiet key (ok u) rest = record rest {
  deleted = if quiet then rest.deleted else key ∷ rest.deleted;
}

-- The loop of DeleteObjects, from the key with number `i` on.
unfoldable pub delete_keys :
    Env → String → Bool → ℕ → List String → Service → Service × DeleteObjectsResult
unfolding remove_object
delete_keys env bucket quiet i [] s = (s, record { deleted = []; errors = [] })
delete_keys env bucket quiet i (key ∷ keys) s =
    let blank = trim key == "" in
    let (gone, answer) = if blank then (s, ok tt) else remove_object env i bucket (trim key) s in
    let (after, rest) = delete_keys env bucket quiet (i + 1) keys gone in
    (after, if blank then rest else with_answer quiet (trim key) answer rest)

unfoldable pub delete_objects :
    Env → String → List String → Bool → Service → Reply DeleteObjectsResult
unfolding bucket_error delete_keys
delete_objects env bucket keys quiet s = elim (bucket_error bucket s.state) [
  | some e ↦ (s, err e)
  | none ↦ let (after, result) = delete_keys env (trim bucket) quiet 0 keys s in (after, ok result)
]
