-- ===== src/Sqs/Acknowledge.antt =====
-- core/internal/resources/sqs/application/service.go: findMessageByReceiptLocked, DeleteMessage and
-- DeleteMessageBatch.
pub mod Laws
pub mod Refusal
use mildstack.Prelude.{
  ℕ, suc, String, ◌==◌, Bool, true, false, ◌||◌, ◌&&◌, Option, none, some, List, [], ◌∷◌, map,
  if◌then◌else◌, trim, ltb, length, erase_idx,
}
use mildstack.Sqs.Domain.{Queue, Message}
use mildstack.Sqs.Delivery.{current_receipt_handle}
use mildstack.Sqs.Service.{
  Env, Error, queue_name_required, queue_not_found, receipt_handle_required,
  receipt_handle_mismatch, empty_batch_request, too_many_batch_entries, duplicate_batch_entry_ids,
  Result, ok, err, Service, Reply, commit, active_queue_by_name, message_visible_in_queue,
}
use mildstack.Sqs.Batch.{
  BatchResultErrorEntry, batch_failure_entry_with_code, has_duplicate_batch_entry_ids,
}
use mildstack.Sqs.Send.{with_messages}

unfoldable pub holds_receipt : String → String → Message → Bool
holds_receipt queue_name receipt_handle message =
    message_visible_in_queue message queue_name && current_receipt_handle message == receipt_handle

-- The index of the first message that passes a test, counted from `idx`.
unfoldable pub index_from : (Message → Bool) → ℕ → List Message → Option ℕ
index_from test idx [] = none
index_from test idx (m ∷ ms) = if test m then some idx else index_from test (suc idx) ms

unfoldable pub find_message_by_receipt : Service → String → String → Option ℕ
find_message_by_receipt s queue_name receipt_handle =
    elim (active_queue_by_name queue_name s.state.queues) [
      | none ↦ none
      | some queue ↦ index_from (holds_receipt queue_name receipt_handle) 0 s.state.messages
    ]

unfoldable pub delete_message : Env → String → String → Service → Reply (Unit {0})
delete_message env raw_name raw_handle s =
    let queue_name = trim raw_name in
    let receipt_handle = trim raw_handle in
    if queue_name == ""
    then (s, err queue_name_required)
    else if receipt_handle == ""
    then (s, err receipt_handle_required)
    else elim (find_message_by_receipt s queue_name receipt_handle) [
      | none ↦ (s, err receipt_handle_mismatch)
      | some idx ↦ commit env 0 (with_messages s (erase_idx s.state.messages idx)) tt
    ]

pub record DeleteMessageBatchRequestEntry : Type 0 where
  pub id : String
  pub receipt_handle : String

-- Identifiers of the entries that succeeded, and the entries that failed.
pub record BatchResult : Type 0 where
  pub failed : List BatchResultErrorEntry
  pub successful : List String

abbrev pub with_failure : BatchResultErrorEntry → Service × BatchResult → Service × BatchResult
with_failure entry (s, result) = (s, record result { failed = entry ∷ result.failed })

abbrev pub with_success : String → Service × BatchResult → Service × BatchResult
with_success id (s, result) = (s, record result { successful = id ∷ result.successful })

-- The loop of `DeleteMessageBatch`: an entry sees what the ones before it deleted.
unfoldable pub delete_entries :
    String → List DeleteMessageBatchRequestEntry → Service → Service × BatchResult
delete_entries queue_name [] s = (s, record { failed = []; successful = [] })
delete_entries queue_name (entry ∷ entries) s =
    let id = trim entry.id in
    let handle = trim entry.receipt_handle in
    let found = find_message_by_receipt s queue_name handle in
    let unfit =
      with_failure
        (batch_failure_entry_with_code entry.id "InvalidParameterValue" receipt_handle_required
          true)
        (delete_entries queue_name entries s) in
    let unknown =
      with_failure
        (batch_failure_entry_with_code entry.id "ReceiptHandleIsInvalid" receipt_handle_mismatch
          true)
        (delete_entries queue_name entries s) in
    if id == "" || handle == "" then unfit else elim found [
      | none ↦ unknown
      | some idx ↦
          with_success id
            (delete_entries queue_name entries (with_messages s (erase_idx s.state.messages idx)))
    ]

-- The commit is made only if an entry succeeded.
unfoldable pub finish_batch : Env → Service × BatchResult → Reply BatchResult
finish_batch env (s, result) = elim result.successful [
  | [] ↦ (s, ok result)
  | id ∷ ids ↦ commit env 0 s result
]

unfoldable pub delete_message_batch :
    Env → String → List DeleteMessageBatchRequestEntry → Service → Reply BatchResult
unfolding finish_batch
delete_message_batch env raw_name entries s =
    let queue_name = trim raw_name in
    if queue_name == ""
    then (s, err queue_name_required)
    else if ltb (length entries) 1
    then (s, err empty_batch_request)
    else if ltb 10 (length entries)
    then (s, err too_many_batch_entries)
    else if has_duplicate_batch_entry_ids (map (λ e. e.id) entries)
    then (s, err duplicate_batch_entry_ids)
    else elim (active_queue_by_name queue_name s.state.queues) [
      | none ↦ (s, err queue_not_found)
      | some queue ↦ finish_batch env (delete_entries queue_name entries s)
    ]
