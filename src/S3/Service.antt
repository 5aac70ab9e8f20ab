-- ===== src/S3/Service.antt =====
-- core/internal/resources/s3/application: service.go, service_persistence.go and payload_store.go:
-- the state of the service, its saves, its payloads, and what a call meets from outside.
use Prim.Native.String.{◌++◌}
use mildstack.Prelude.{
  refl, inl, inr, ◌⊎◌, ◌≡◌, ℕ, String, ◌==◌, Bool, true, false, not, ◌&&◌, Option, none, some, [],
  ◌∷◌, Map, if◌then◌else◌, trim, lookup, insert,
}
use mildstack.Prelude.Numeral.{ℤ}
use mildstack.Prelude.Time.{Time}
use mildstack.S3.Domain.{Bytes, Object, ObjectLockRetention, MultipartUpload, State}

-- The XML of a lock configuration, read or written: `rule` and its retention may be missing.
pub record LockXml : Type 0 where
  pub object_lock_enabled : String
  pub rule : Option (Option ObjectLockRetention)

pub record RetentionXml : Type 0 where
  pub mode : String
  pub retain_until_date : String

-- What one call of the service meets from outside: the readings of the clock and the outcomes of
-- `repo.Save`, numbered by their place in the call, and the functions of Go's library that stay
-- abstract.
pub record Env : Type 0 where
  pub clock : ℕ → Time
  pub save_ok : ℕ → Bool
  -- `md5.Sum`
  pub md5_sum : Bytes → Bytes
  -- `hex.EncodeToString`
  pub hex : Bytes → String
  -- `[]byte(text)`
  pub encode_utf8 : String → Bytes
  -- `strings.ToUpper`
  pub to_upper : String → String
  -- `t.AddDate(years, 0, days)`
  pub add_date : Time → ℤ → ℤ → Time
  -- `time.Parse` and `Format` by RFC 3339
  pub parse_time : String → Option Time
  pub format_time : Time → String
  -- `xml.Unmarshal` and `xml.MarshalIndent`; `none` is an error
  pub unmarshal_lock : Bytes → Option LockXml
  pub unmarshal_retention : Bytes → Option RetentionXml
  pub unmarshal_legal_hold : Bytes → Option String
  pub marshal_lock : LockXml → Option Bytes
  pub marshal_retention : RetentionXml → Option Bytes
  pub marshal_legal_hold : String → Option Bytes

pub data Error : Type 0 where
  bucket_name_required object_key_required source_bucket_required source_key_required : Error
  no_such_bucket bucket_not_found no_such_key invalid_bucket_name bucket_not_empty access_denied :
      Error
  body_unreadable payload_not_found source_payload_unavailable save_failed : Error
  invalid_versioning_status invalid_bucket_state malformed_xml missing_lock_configuration : Error
  no_lock_configuration no_such_lock_configuration render_failed : Error
  no_such_bucket_policy no_encryption_configuration no_lifecycle_configuration : Error
  no_cors_configuration no_such_tag_set : Error
  upload_id_required invalid_part_number no_such_upload no_parts : Error

pub data Result {ℓ} (A : Type ℓ) : Type ℓ where
  ok : A → Result A
  err : Error → Result A

pub Result-cases {ℓ} :
    {A : Type ℓ} (r : Result A) → ((e : Error) × (r ≡ err e)) ⊎ ((a : A) × (r ≡ ok a))
Result-cases (ok a) = inr (a, refl)
Result-cases (err e) = inl (e, refl)

-- `payloads` is the map of the store in memory, by reference; `repo` holds what was saved last.
pub record Service : Type 0 where
  pub state : State
  pub repo : Option State
  pub payloads : Map Bytes
  pub multipart_uploads : Map MultipartUpload

abbrev pub Reply : Type 0 → Type 0
Reply A = Service × Result A

unfoldable pub persist_succeeds : Env → ℕ → Option State → Bool
persist_succeeds env k none = true
persist_succeeds env k (some saved) = env.save_ok k

abbrev overwrite : Option State → State → Option State
overwrite none new = none
overwrite (some old) new = some new

-- `if err := s.persist(); err != nil { return …, err }`, and `result` where it is saved. The state in
-- memory is kept either way.
unfoldable pub persist : {A : Type 0} → Env → ℕ → Service → Result A → Reply A
unfolding persist_succeeds
persist env k s result =
    if persist_succeeds env k s.repo
    then (record s { repo = overwrite s.repo s.state }, result)
    else (s, err save_failed)

unfoldable pub payload_ref_for : Env → String → Bytes → String
payload_ref_for env hint body_hash =
    "payload-" ++ env.hex (env.md5_sum (env.encode_utf8 (trim hint))) ++ "-" ++ env.hex body_hash

unfoldable pub quoted_md5 : Env → Bytes → String
quoted_md5 env body = "\"" ++ env.hex (env.md5_sum body) ++ "\""

-- `memoryPayloadStore.StorePayload`, of a body that was read to its end: the payloads and the
-- reference. The size and the entity tag that go with them are the body's own.
unfoldable pub store_payload : Env → String → Bytes → Map Bytes → Map Bytes × String
unfolding payload_ref_for insert
store_payload env hint body payloads =
    let ref = payload_ref_for env hint (env.md5_sum body) in (insert ref body payloads, ref)

unfoldable pub read_payload : String → Map Bytes → Result Bytes
unfolding lookup
read_payload ref payloads = elim (lookup ref payloads) [
  | none ↦ err payload_not_found
  | some body ↦ ok body
]

abbrev is_empty : Bytes → Bool
is_empty [] = true
is_empty (byte ∷ bytes) = false

unfoldable pub hydrate_object : Map Bytes → Object → Result Object
unfolding read_payload
hydrate_object payloads object =
    if is_empty object.body && not (object.payload_ref == "")
    then elim (read_payload object.payload_ref payloads) [
      | ok body ↦ ok (record object { body = body })
      | err e ↦ err e
    ]
    else ok object
