-- ===== src/S3/Settings.antt =====
-- core/internal/resources/s3/application: service_subresources.go, service_bucket_access.go and the
-- notifications and logging of service_bucket_events.go: the settings of a bucket that are kept as they
-- are sent, with their maps in domain/state.go.
pub mod Laws
use mildstack.Prelude.{
  ℕ, String, ◌==◌, Bool, true, false, ◌&&◌, Option, none, some, List, [], ◌∷◌, Map, if◌then◌else◌,
  trim, lookup, insert, delete,
}
use mildstack.S3.Domain.{Bytes, State}
use mildstack.S3.Service.{
  no_such_tag_set, no_cors_configuration, no_lifecycle_configuration, no_encryption_configuration,
  no_such_bucket_policy, Env, Error, Result, ok, err, Service, Reply, persist,
}
use mildstack.S3.Lock.Settings.{bucket_error}

pub data Setting : Type 0 where
  policy encryption lifecycle cors acl tagging ownership public_access notifications logging :
      Setting

-- The map of the state that holds a setting, by bucket.
unfoldable pub bodies : Setting → State → Map Bytes
bodies policy s = s.bucket_policies
bodies encryption s = s.bucket_encryption
bodies lifecycle s = s.bucket_lifecycle
bodies cors s = s.bucket_cors
bodies acl s = s.bucket_acl
bodies tagging s = s.bucket_tagging
bodies ownership s = s.bucket_ownership
bodies public_access s = s.bucket_public_access
bodies notifications s = s.bucket_notifications
bodies logging s = s.bucket_logging

-- The maps of the setters of domain/state.go; those of notifications and logging stand below the
-- others there.
unfoldable pub with_bodies : Setting → Map Bytes → State → State
with_bodies policy m s = record s { bucket_policies = m }
with_bodies encryption m s = record s { bucket_encryption = m }
with_bodies lifecycle m s = record s { bucket_lifecycle = m }
with_bodies cors m s = record s { bucket_cors = m }
with_bodies acl m s = record s { bucket_acl = m }
with_bodies tagging m s = record s { bucket_tagging = m }
with_bodies ownership m s = record s { bucket_ownership = m }
with_bodies public_access m s = record s { bucket_public_access = m }
with_bodies notifications m s = record s { bucket_notifications = m }
with_bodies logging m s = record s { bucket_logging = m }

-- What a read answers where nothing is stored: an error, or the default XML, which is a parameter.
unfoldable pub missing : (Setting → Bytes) → Setting → Result Bytes
missing default_body policy = err no_such_bucket_policy
missing default_body encryption = err no_encryption_configuration
missing default_body lifecycle = err no_lifecycle_configuration
missing default_body cors = err no_cors_configuration
missing default_body acl = ok (default_body acl)
missing default_body tagging = err no_such_tag_set
missing default_body ownership = ok (default_body ownership)
missing default_body public_access = ok (default_body public_access)
missing default_body notifications = ok (default_body notifications)
missing default_body logging = ok (default_body logging)

abbrev found_or : Result Bytes → Option Bytes → Result Bytes
found_or absent none = absent
found_or absent (some body) = ok body

unfoldable pub get_setting : (Setting → Bytes) → Setting → String → Service → Result Bytes
unfolding bucket_error bodies missing lookup
get_setting default_body setting bucket s = elim (bucket_error bucket s.state) [
  | some e ↦ err e
  | none ↦ found_or (missing default_body setting) (lookup (trim bucket) (bodies setting s.state))
]

-- `SetBucketPolicy` and its like.
unfoldable pub set_setting : Setting → String → Bytes → State → State
unfolding with_bodies bodies insert
set_setting setting bucket body s = with_bodies setting (insert bucket body (bodies setting s)) s

-- `PutBucketPolicy` and its like, given the setting; `PutBucketACL` comes to it with a body that is
-- not empty alone (`put_bucket_acl`).
unfoldable pub put_setting : Env → Setting → String → Bytes → Service → Reply Bytes
unfolding bucket_error set_setting persist
put_setting env setting bucket body s = elim (bucket_error bucket s.state) [
  | some e ↦ (s, err e)
  | none ↦
      persist env 0 (record s { state = set_setting setting (trim bucket) body s.state }) (ok body)
]

-- `DeleteBucketPolicy` of the service and its like: nothing is saved where nothing was stored.
unfoldable pub delete_setting : Env → Setting → String → Service → Reply (Unit {0})
unfolding bucket_error with_bodies bodies lookup delete persist
delete_setting env setting bucket s = elim (bucket_error bucket s.state) [
  | some e ↦ (s, err e)
  | none ↦ elim (lookup (trim bucket) (bodies setting s.state)) [
    | none ↦ (s, ok tt)
    | some body ↦
        persist env 0
          (record s {
            state = with_bodies setting (delete (trim bucket) (bodies setting s.state)) s.state;
          })
          (ok tt)
  ]
]

unfoldable pub get_bucket_policy : (Setting → Bytes) → String → Service → Result Bytes
unfolding get_setting
get_bucket_policy default_body bucket s = get_setting default_body policy bucket s

unfoldable pub put_bucket_policy : Env → String → Bytes → Service → Reply Bytes
unfolding put_setting
put_bucket_policy env bucket body s = put_setting env policy bucket body s

unfoldable pub delete_bucket_policy : Env → String → Service → Reply (Unit {0})
unfolding delete_setting
delete_bucket_policy env bucket s = delete_setting env policy bucket s

unfoldable pub get_bucket_encryption : (Setting → Bytes) → String → Service → Result Bytes
unfolding get_setting
get_bucket_encryption default_body bucket s = get_setting default_body encryption bucket s

unfoldable pub put_bucket_encryption : Env → String → Bytes → Service → Reply Bytes
unfolding put_setting
put_bucket_encryption env bucket body s = put_setting env encryption bucket body s

unfoldable pub delete_bucket_encryption : Env → String → Service → Reply (Unit {0})
unfolding delete_setting
delete_bucket_encryption env bucket s = delete_setting env encryption bucket s

unfoldable pub get_bucket_lifecycle : (Setting → Bytes) → String → Service → Result Bytes
unfolding get_setting
get_bucket_lifecycle default_body bucket s = get_setting default_body lifecycle bucket s

unfoldable pub put_bucket_lifecycle : Env → String → Bytes → Service → Reply Bytes
unfolding put_setting
put_bucket_lifecycle env bucket body s = put_setting env lifecycle bucket body s

unfoldable pub delete_bucket_lifecycle : Env → String → Service → Reply (Unit {0})
unfolding delete_setting
delete_bucket_lifecycle env bucket s = delete_setting env lifecycle bucket s

unfoldable pub get_bucket_cors : (Setting → Bytes) → String → Service → Result Bytes
unfolding get_setting
get_bucket_cors default_body bucket s = get_setting default_body cors bucket s

unfoldable pub put_bucket_cors : Env → String → Bytes → Service → Reply Bytes
unfolding put_setting
put_bucket_cors env bucket body s = put_setting env cors bucket body s

unfoldable pub delete_bucket_cors : Env → String → Service → Reply (Unit {0})
unfolding delete_setting
delete_bucket_cors env bucket s = delete_setting env cors bucket s

unfoldable pub get_bucket_acl : (Setting → Bytes) → String → Service → Result Bytes
unfolding get_setting
get_bucket_acl default_body bucket s = get_setting default_body acl bucket s

-- An empty body sets nothing.
unfoldable pub put_bucket_acl : (Setting → Bytes) → Env → String → Bytes → Service → Reply Bytes
unfolding bucket_error put_setting
put_bucket_acl default_body env bucket [] s = elim (bucket_error bucket s.state) [
  | some e ↦ (s, err e)
  | none ↦ (s, ok (default_body acl))
]
put_bucket_acl default_body env bucket (byte ∷ bytes) s =
    put_setting env acl bucket (byte ∷ bytes) s

unfoldable pub get_bucket_tagging : (Setting → Bytes) → String → Service → Result Bytes
unfolding get_setting
get_bucket_tagging default_body bucket s = get_setting default_body tagging bucket s

unfoldable pub put_bucket_tagging : Env → String → Bytes → Service → Reply Bytes
unfolding put_setting
put_bucket_tagging env bucket body s = put_setting env tagging bucket body s

unfoldable pub delete_bucket_tagging : Env → String → Service → Reply (Unit {0})
unfolding delete_setting
delete_bucket_tagging env bucket s = delete_setting env tagging bucket s

unfoldable pub get_bucket_ownership_controls : (Setting → Bytes) → String → Service → Result Bytes
unfolding get_setting
get_bucket_ownership_controls default_body bucket s = get_setting default_body ownership bucket s

unfoldable pub put_bucket_ownership_controls : Env → String → Bytes → Service → Reply Bytes
unfolding put_setting
put_bucket_ownership_controls env bucket body s = put_setting env ownership bucket body s

unfoldable pub delete_bucket_ownership_controls : Env → String → Service → Reply (Unit {0})
unfolding delete_setting
delete_bucket_ownership_controls env bucket s = delete_setting env ownership bucket s

unfoldable pub get_public_access_block : (Setting → Bytes) → String → Service → Result Bytes
unfolding get_setting
get_public_access_block default_body bucket s = get_setting default_body public_access bucket s

unfoldable pub put_public_access_block : Env → String → Bytes → Service → Reply Bytes
unfolding put_setting
put_public_access_block env bucket body s = put_setting env public_access bucket body s

unfoldable pub delete_public_access_block : Env → String → Service → Reply (Unit {0})
unfolding delete_setting
delete_public_access_block env bucket s = delete_setting env public_access bucket s

unfoldable pub get_bucket_notification : (Setting → Bytes) → String → Service → Result Bytes
unfolding get_setting
get_bucket_notification default_body bucket s = get_setting default_body notifications bucket s

unfoldable pub put_bucket_notification : Env → String → Bytes → Service → Reply Bytes
unfolding put_setting
put_bucket_notification env bucket body s = put_setting env notifications bucket body s

unfoldable pub get_bucket_logging : (Setting → Bytes) → String → Service → Result Bytes
unfolding get_setting
get_bucket_logging default_body bucket s = get_setting default_body logging bucket s

unfoldable pub put_bucket_logging : Env → String → Bytes → Service → Reply Bytes
unfolding put_setting
put_bucket_logging env bucket body s = put_setting env logging bucket body s
