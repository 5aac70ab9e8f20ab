-- ===== src/S3/Lock/Settings.antt =====
-- core/internal/resources/s3/application/service_object_lock.go: the calls that read and set a lock.
use mildstack.Prelude.{
  String, ◌==◌, Bool, true, false, not, ◌||◌, Option, none, some, if◌then◌else◌, trim, lookup,
  insert,
}
use mildstack.Prelude.Numeral.{ℤ, pos, is_positive}
use mildstack.S3.Domain.{
  Bytes, ObjectLockConfiguration, ObjectLockRetention, ObjectRetention, ObjectLegalHold, State,
}
use mildstack.S3.Service.{
  missing_lock_configuration, no_such_key, bucket_not_found, access_denied,
  no_such_lock_configuration, invalid_bucket_state, no_lock_configuration, render_failed,
  malformed_xml, object_key_required, bucket_name_required, Env, Error, Result, ok, err, Service,
  Reply, persist,
}
use mildstack.S3.Store.{has_bucket, has_object, versioning_status}
use mildstack.S3.Lock.{
  object_retention_config, object_legal_hold_config, set_object_retention, set_object_legal_hold,
  object_retention_reduction,
}

-- `requireBucket`: the error that it answers with, if any; the bucket is the trimmed name.
unfoldable pub bucket_error : String → State → Option Error
unfolding has_bucket
bucket_error bucket s =
    if trim bucket == ""
    then some bucket_name_required
    else if not (has_bucket (trim bucket) s)
    then some bucket_not_found
    else none

-- The guards that the calls on a locked object begin with.
unfoldable pub locked_object_error : String → String → State → Option Error
unfolding bucket_error has_object lookup
locked_object_error bucket key s = elim (bucket_error bucket s) [
  | some e ↦ some e
  | none ↦
      if trim key == ""
      then some object_key_required
      else if not (has_object (trim bucket) (trim key) s)
      then some no_such_key
      else elim (lookup (trim bucket) s.bucket_object_lock) [
        | none ↦ some missing_lock_configuration
        | some config ↦ none
      ]
]

abbrev is_mode : String → Bool
is_mode mode = mode == "GOVERNANCE" || mode == "COMPLIANCE"

abbrev kept : ℤ → ℤ
kept n = if is_positive n then n else pos 0

abbrev same : Bool → Bool → Bool
same true b = b
same false b = not b

unfoldable pub parse_lock_rule : Option ObjectLockRetention → Result ObjectLockConfiguration
unfolding is_positive
parse_lock_rule none = ok (record { enabled = true; default_retention = none })
parse_lock_rule (some r) =
    if not (is_mode r.mode)
    then err malformed_xml
    else if same (is_positive r.days) (is_positive r.years)
    then err malformed_xml
    else ok (record {
      enabled = true;
      default_retention = some (record { mode = r.mode; days = kept r.days; years = kept r.years });
    })

abbrev rule_retention : Option (Option ObjectLockRetention) → Option ObjectLockRetention
rule_retention none = none
rule_retention (some retention) = retention

unfoldable pub parse_object_lock_configuration : Env → Bytes → Result ObjectLockConfiguration
unfolding parse_lock_rule
parse_object_lock_configuration env body = elim (env.unmarshal_lock body) [
  | none ↦ err malformed_xml
  | some payload ↦
      if not (trim payload.object_lock_enabled == "Enabled")
      then err malformed_xml
      else parse_lock_rule (rule_retention payload.rule)
]

unfoldable pub parse_object_retention : Env → Bytes → Result ObjectRetention
parse_object_retention env body = elim (env.unmarshal_retention body) [
  | none ↦ err malformed_xml
  | some payload ↦
      if not (is_mode payload.mode)
      then err malformed_xml
      else elim (env.parse_time (trim payload.retain_until_date)) [
        | none ↦ err malformed_xml
        | some t ↦ ok (record { mode = payload.mode; retain_until_date = t })
      ]
]

unfoldable pub parse_object_legal_hold : Env → Bytes → Result ObjectLegalHold
parse_object_legal_hold env body = elim (env.unmarshal_legal_hold body) [
  | none ↦ err malformed_xml
  | some status ↦
      if not (status == "ON" || status == "OFF")
      then err malformed_xml
      else ok (record { status = status })
]

abbrev rendered : Option Bytes → Result Bytes
rendered none = err render_failed
rendered (some output) = ok output

abbrev lock_rule : Option ObjectLockRetention → Option (Option ObjectLockRetention)
lock_rule none = none
lock_rule (some r) =
    some (some (record { mode = r.mode; days = kept r.days; years = kept r.years }))

unfoldable pub marshal_object_lock_configuration : Env → ObjectLockConfiguration → Result Bytes
unfolding is_positive
marshal_object_lock_configuration env config = rendered (
    env.marshal_lock
      (record { object_lock_enabled = "Enabled"; rule = lock_rule config.default_retention }))

unfoldable pub marshal_object_retention : Env → ObjectRetention → Result Bytes
marshal_object_retention env r = rendered (
    env.marshal_retention
      (record { mode = r.mode; retain_until_date = env.format_time r.retain_until_date }))

unfoldable pub marshal_object_legal_hold : Env → ObjectLegalHold → Result Bytes
marshal_object_legal_hold env hold = rendered (env.marshal_legal_hold hold.status)

unfoldable pub get_object_lock_configuration : Env → String → Service → Result Bytes
unfolding bucket_error lookup marshal_object_lock_configuration
get_object_lock_configuration env bucket s = elim (bucket_error bucket s.state) [
  | some e ↦ err e
  | none ↦ elim (lookup (trim bucket) s.state.bucket_object_lock) [
    | none ↦ err no_lock_configuration
    | some config ↦ marshal_object_lock_configuration env config
  ]
]

-- `SetBucketObjectLockConfig`, which turns the lock on
unfoldable pub set_bucket_object_lock_config : String → ObjectLockConfiguration → State → State
unfolding insert
set_bucket_object_lock_config bucket config s = record s {
  bucket_object_lock = insert bucket (record config { enabled = true }) s.bucket_object_lock;
}

unfoldable pub put_object_lock_configuration : Env → String → Bytes → Service → Reply Bytes
unfolding bucket_error versioning_status parse_object_lock_configuration
    set_bucket_object_lock_config marshal_object_lock_configuration persist
put_object_lock_configuration env bucket body s = elim (bucket_error bucket s.state) [
  | some e ↦ (s, err e)
  | none ↦
      if not (versioning_status (trim bucket) s.state.bucket_versioning == "Enabled")
      then (s, err invalid_bucket_state)
      else elim (parse_object_lock_configuration env body) [
        | err e ↦ (s, err e)
        | ok config ↦
            persist env 0
              (record s { state = set_bucket_object_lock_config (trim bucket) config s.state })
              (marshal_object_lock_configuration env (record config { enabled = true }))
      ]
]

unfoldable pub get_object_retention : Env → String → String → Service → Result Bytes
unfolding locked_object_error object_retention_config marshal_object_retention
get_object_retention env bucket key s = elim (locked_object_error bucket key s.state) [
  | some e ↦ err e
  | none ↦ elim (object_retention_config (trim bucket) (trim key) s.state) [
    | none ↦ err no_such_lock_configuration
    | some r ↦ marshal_object_retention env r
  ]
]

abbrev pub is_reduction : Option ObjectRetention → ObjectRetention → Bool
is_reduction none next = false
is_reduction (some existing) next = object_retention_reduction existing next

unfoldable pub put_object_retention : Env → String → String → Bytes → Service → Reply Bytes
unfolding locked_object_error parse_object_retention object_retention_config
    object_retention_reduction set_object_retention marshal_object_retention persist
put_object_retention env bucket key body s = elim (locked_object_error bucket key s.state) [
  | some e ↦ (s, err e)
  | none ↦ elim (parse_object_retention env body) [
    | err e ↦ (s, err e)
    | ok r ↦
        if is_reduction (object_retention_config (trim bucket) (trim key) s.state) r
        then (s, err access_denied)
        else persist env 0
            (record s { state = set_object_retention (trim bucket) (trim key) r s.state })
            (marshal_object_retention env r)
  ]
]

unfoldable pub get_object_legal_hold : Env → String → String → Service → Result Bytes
unfolding locked_object_error object_legal_hold_config marshal_object_legal_hold
get_object_legal_hold env bucket key s = elim (locked_object_error bucket key s.state) [
  | some e ↦ err e
  | none ↦ elim (object_legal_hold_config (trim bucket) (trim key) s.state) [
    | none ↦ err no_such_lock_configuration
    | some hold ↦ marshal_object_legal_hold env hold
  ]
]

unfoldable pub put_object_legal_hold : Env → String → String → Bytes → Service → Reply Bytes
unfolding locked_object_error parse_object_legal_hold set_object_legal_hold
    marshal_object_legal_hold persist
put_object_legal_hold env bucket key body s = elim (locked_object_error bucket key s.state) [
  | some e ↦ (s, err e)
  | none ↦ elim (parse_object_legal_hold env body) [
    | err e ↦ (s, err e)
    | ok hold ↦
        persist env 0
          (record s { state = set_object_legal_hold (trim bucket) (trim key) hold s.state })
          (marshal_object_legal_hold env hold)
  ]
]
