-- ===== src/Sqs/Visibility.antt =====
-- core/internal/resources/sqs/application/service.go: ChangeMessageVisibility,
-- changeMessageVisibilityLocked and ChangeMessageVisibilityBatch.
pub mod Laws
use mildstack.Prelude.{
  ℕ, zero, suc, ◌*◌, ◌/◌, ◌%◌, ◌^◌, String, ◌==◌, Bool, true, false, ◌||◌, ◌&&◌, Option, none, some,
  List, [], ◌∷◌, map, if◌then◌else◌, trim, ltb, eqb, length, insert, set, get_elem?,
}
use mildstack.Prelude.Numeral.{ℤ, pos, negsuc, itoa, is_negative, pos_part, wrap64}
use mildstack.Sqs.Domain.{Time, zero_time, second, Queue, Message}
use mildstack.Sqs.Service.{
  Env, Error, queue_name_required, queue_not_found, receipt_handle_required,
  receipt_handle_mismatch, invalid_visibility_window, empty_batch_request, too_many_batch_entries,
  duplicate_batch_entry_ids, Result, ok, err, Service, Reply, commit, active_queue_by_name,
  lease_visibility_timeout_meta_key,
}
use mildstack.Sqs.Batch.{
  BatchResultErrorEntry, batch_failure_entry_with_code, has_duplicate_batch_entry_ids,
}
use mildstack.Sqs.Send.{with_messages}
use mildstack.Sqs.Acknowledge.{
  find_message_by_receipt, BatchResult, with_failure, with_success, finish_batch,
}

-- `12*time.Hour`
unfoldable pub max_visibility : ℕ
unfolding second
max_visibility = 43_200 * second

-- What a change of visibility writes into the message; the duration is not negative.
unfoldable pub set_visibility : Time → ℕ → Message → Message
set_visibility now zero message = record message {
  received_at = zero_time;
  available_at = now;
  metadata = insert lease_visibility_timeout_meta_key "0" message.metadata;
}
set_visibility now (suc d) message = record message {
  received_at = now;
  metadata = insert lease_visibility_timeout_meta_key (itoa (suc d / second)) message.metadata;
}

unfoldable pub change_at : Time → ℕ → ℕ → List Message → List Message
change_at now visibility idx messages = elim (get_elem? messages idx) [
  | none ↦ messages
  | some message ↦ set messages idx (set_visibility now visibility message)
]

unfoldable pub cap_visibility : ℤ → ℕ
cap_visibility visibility =
    if ltb max_visibility (pos_part visibility) then max_visibility else pos_part visibility

-- The durations are `int64` nanoseconds.
unfoldable pub change_message_visibility : Env → String → String → ℤ → Service → Reply (Unit {0})
change_message_visibility env raw_name raw_handle visibility s =
    let queue_name = trim raw_name in
    let receipt_handle = trim raw_handle in
    if queue_name == ""
    then (s, err queue_name_required)
    else if receipt_handle == ""
    then (s, err receipt_handle_required)
    else if is_negative visibility
    then (s, err invalid_visibility_window)
    else elim (find_message_by_receipt s queue_name receipt_handle) [
      | none ↦ (s, err receipt_handle_mismatch)
      | some idx ↦
          commit env 0
            (with_messages s
              (change_at (env.clock 0) (cap_visibility visibility) idx s.state.messages))
            tt
    ]

-- `changeMessageVisibilityLocked`, which puts no cap on the duration.
unfoldable pub change_message_visibility_locked :
    Time → String → String → ℤ → Service → Service × Result (Unit {0})
change_message_visibility_locked now queue_name receipt_handle visibility s =
    if is_negative visibility
    then (s, err invalid_visibility_window)
    else elim (find_message_by_receipt s queue_name receipt_handle) [
      | none ↦ (s, err receipt_handle_mismatch)
      | some idx ↦
          (with_messages s (change_at now (pos_part visibility) idx s.state.messages), ok tt)
    ]

pub record ChangeMessageVisibilityBatchRequestEntry : Type 0 where
  pub id : String
  pub receipt_handle : String
  pub visibility_timeout : ℤ

unfoldable pub failure_code : Error → String
failure_code receipt_handle_mismatch = "ReceiptHandleIsInvalid"
failure_code _ = "InvalidParameterValue"

-- `time.Duration(entry.VisibilityTimeout) * time.Second` of a number that is not negative.
unfoldable pub visibility_duration : ℤ → ℤ
visibility_duration z = wrap64 (pos_part z * second)

-- The loop of `ChangeMessageVisibilityBatch`; entry `k` reads the clock for the `k`th time.
unfoldable pub change_entries :
    Env
    → ℕ
    → String
    → List ChangeMessageVisibilityBatchRequestEntry
    → Service
    → Service × BatchResult
change_entries env k queue_name [] s = (s, record { failed = []; successful = [] })
change_entries env k queue_name (entry ∷ entries) s =
    let id = trim entry.id in
    let handle = trim entry.receipt_handle in
    let (changed, outcome) =
      change_message_visibility_locked (env.clock k) queue_name handle
        (visibility_duration entry.visibility_timeout) s in
    let unfit =
      with_failure
        (batch_failure_entry_with_code entry.id "InvalidParameterValue" receipt_handle_required
          true)
        (change_entries env (suc k) queue_name entries s) in
    let negative =
      with_failure
        (batch_failure_entry_with_code entry.id "InvalidParameterValue" invalid_visibility_window
          true)
        (change_entries env (suc k) queue_name entries s) in
    if id == "" || handle == ""
    then unfit
    else if is_negative entry.visibility_timeout
    then negative
    else elim outcome [
      | err e ↦
          with_failure (batch_failure_entry_with_code entry.id (failure_code e) e true)
            (change_entries env (suc k) queue_name entries s)
      | ok u ↦ with_success id (change_entries env (suc k) queue_name entries changed)
    ]

unfoldable pub change_message_visibility_batch :
    Env → String → List ChangeMessageVisibilityBatchRequestEntry → Service → Reply BatchResult
change_message_visibility_batch env raw_name entries s =
    let queue_name = trim raw_name in
    if queue_name == ""
    then (s, err queue_name_required)
    else if ltb (length entries) 1
    then (s, err empty_batch_request)
    else if ltb 10 (length entries)
    then (s, err too_many_batch_entries)
    else if has_duplicate_batch_entry_ids (map (λ e. e.id) entries)
    then (s, err duplicate_batch_entry_ids)
    else elim (active_queue_by_name queue_name s.state.queues) [
      | none ↦ (s, err queue_not_found)
      | some queue ↦ finish_batch env (change_entries env 0 queue_name entries s)
    ]
