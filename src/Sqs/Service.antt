-- ===== src/Sqs/Service.antt =====
-- core/internal/resources/sqs/application/service.go: the service's state, its commit, the look-ups
-- of queues, and the parts of the environment that a call meets.
pub mod Commit
pub mod Lookup
use mildstack.Prelude.{
  ℕ, suc, String, ◌==◌, Bool, true, false, not, ◌&&◌, Option, none, some, List, [], ◌∷◌, Map,
  if◌then◌else◌, trim,
}
use mildstack.Sqs.Domain.{Time, is_zero, Queue, Message, State}

-- What one call of the service meets from outside: the readings of the clock, the identifiers of
-- `uuid.NewString` and the outcomes of `repo.Save`, each numbered by the place in the call, the entry
-- of a batch or the round of a loop that asks for it, and the functions of Go's library that the
-- model leaves abstract.
pub record Env : Type 0 where
  pub clock : ℕ → Time
  pub fresh_id : ℕ → String
  pub save_ok : ℕ → Bool
  -- `md5OfString`
  pub md5_hex : String → String
  -- `t.UTC().Format(time.RFC3339Nano)`
  pub format_time : Time → String
  -- `json.Unmarshal` into an object, each value printed by `fmt.Sprint`; `none` is an error
  pub decode_object : String → Option (Map String)
  -- `strings.ToLower`
  pub to_lower : String → String

pub data Error : Type 0 where
  queue_name_required queue_not_found receipt_handle_required receipt_handle_mismatch : Error
  invalid_visibility_window empty_batch_request too_many_batch_entries : Error
  duplicate_batch_entry_ids different_attributes delete_cooldown purge_cooldown : Error
  message_body_required group_id_required batch_entry_id_required : Error
  permission_label_required source_arn_required negative_rate move_task_running : Error
  not_a_dead_letter_queue task_handle_required save_failed nil_hook : Error

pub data Result {ℓ} (A : Type ℓ) : Type ℓ where
  ok : A → Result A
  err : Error → Result A

-- `repo` holds what was saved last, if there is a repository; `hook` what was published last, if a
-- state hook is attached.
pub record Service : Type 0 where
  pub state : State
  pub repo : Option State
  pub hook : Option State

-- A call gives the new service and its result.
abbrev pub Reply : Type 0 → Type 0
Reply A = Service × Result A

-- `s.repo.Save` succeeds, or there is no repository.
unfoldable pub save_succeeds : Env → ℕ → Option State → Bool
save_succeeds env k none = true
save_succeeds env k (some saved) = env.save_ok k

abbrev overwrite : Option State → State → Option State
overwrite none new = none
overwrite (some old) new = some new

unfoldable pub publish_snapshot : Service → Service
publish_snapshot s = record s { hook = overwrite s.hook s.state }

unfoldable pub saved : Service → Service
unfolding publish_snapshot
saved s = publish_snapshot (record s { repo = overwrite s.repo s.state })

-- `if err := s.commitStateLocked(); err != nil { return …, err }; return a, nil`
unfoldable pub commit : {A : Type 0} → Env → ℕ → Service → A → Reply A
unfolding saved save_succeeds
commit env k s a = if save_succeeds env k s.repo then (saved s, ok a) else (s, err save_failed)

-- `_ = s.commitStateLocked()`
unfoldable pub commit_ignoring_error : Env → ℕ → Service → Service
unfolding saved save_succeeds
commit_ignoring_error env k s = if save_succeeds env k s.repo then saved s else s

-- `AttachState`
unfoldable pub attach_state : Bool → Service → Reply (Unit {0})
unfolding publish_snapshot
attach_state hook_is_nil s =
    if hook_is_nil
    then (s, err nil_hook)
    else (publish_snapshot (record s { hook = some s.state }), ok tt)

abbrev pub lease_visibility_timeout_meta_key : String
lease_visibility_timeout_meta_key = "visibility_timeout_seconds"

unfoldable pub find_record : ℕ → String → List Queue → Option (ℕ × Queue)
find_record i name [] = none
find_record i name (q ∷ qs) = if q.name == name then some (i, q) else find_record (suc i) name qs

unfoldable pub queue_record_by_name : String → List Queue → Option (ℕ × Queue)
unfolding find_record
queue_record_by_name name qs = find_record 0 name qs

unfoldable pub active_queue_by_name : String → List Queue → Option Queue
active_queue_by_name name [] = none
active_queue_by_name name (q ∷ qs) =
    if q.name == name && is_zero q.deleted_at then some q else active_queue_by_name name qs

-- A message that has been dead-lettered out of a queue and still stands in it is hidden there.
unfoldable pub message_visible_in_queue : Message → String → Bool
message_visible_in_queue message queue_name =
    if not (message.queue == queue_name)
    then false
    else if trim message.dead_letter_source_queue == queue_name
        && not (trim message.dead_letter_queue == queue_name)
    then false
    else true
