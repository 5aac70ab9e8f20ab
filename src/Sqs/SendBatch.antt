-- ===== src/Sqs/SendBatch.antt =====
-- core/internal/resources/sqs/application/service.go: SendMessageBatch. Every entry is enqueued
-- against the state in which the call began; what it enqueues is appended at the end.
pub mod Laws
pub mod Stored
use mathlib.Core.List.{◌++◌ as append}
use mildstack.Prelude.{
  ℕ, suc, String, ◌==◌, true, Option, none, some, List, [], ◌∷◌, map, if◌then◌else◌, trim, ltb,
  length,
}
use mildstack.Sqs.Domain.{Queue, Message}
use mildstack.Sqs.Service.{
  Env, queue_name_required, queue_not_found, message_body_required, batch_entry_id_required,
  empty_batch_request, too_many_batch_entries, duplicate_batch_entry_ids, Result, ok, err, Service,
  Reply, commit, active_queue_by_name,
}
use mildstack.Sqs.Batch.{
  BatchResultErrorEntry, batch_failure_entry_with_code, has_duplicate_batch_entry_ids,
}
use mildstack.Sqs.Send.{SendMessageRequest, SendMessageResult, enqueue_message, with_messages}

-- `SendMessageBatchRequestEntry`: an identifier, and the fields of a request.
pub record SendMessageBatchRequestEntry : Type 0 where
  pub id : String
  pub request : SendMessageRequest

pub record SendMessageBatchResultEntry : Type 0 where
  pub id : String
  pub result : SendMessageResult

pub record SendMessageBatchResult : Type 0 where
  pub failed : List BatchResultErrorEntry
  pub successful : List SendMessageBatchResultEntry

module _ (env : Env) (s : Service) (queue_name : String) (queue : Queue) (count : ℕ) where
  -- `enqueueBatchMessageLocked` for the entry at an index.
  unfoldable pub enqueue_batch_message :
      ℕ → SendMessageBatchRequestEntry → Result (Message × SendMessageResult)
  enqueue_batch_message index entry =
      if trim entry.id == ""
      then err batch_entry_id_required
      else if trim entry.request.message_body == ""
      then err message_body_required
      else enqueue_message env index s.state queue_name queue entry.request entry.id index count

  -- The loop: the messages that are pending, and the result.
  unfoldable pub send_entries :
      ℕ → List SendMessageBatchRequestEntry → List Message × SendMessageBatchResult
  send_entries index [] = ([], record { failed = []; successful = [] })
  send_entries index (entry ∷ entries) =
      let (pending, result) = send_entries (suc index) entries in
      elim (enqueue_batch_message index entry) [
        | err e ↦ (
          pending,
          record result {
            failed =
                batch_failure_entry_with_code entry.id "InvalidParameterValue" e true
                ∷ result.failed;
          },
        )
        | ok (message, sent) ↦ (
          message ∷ pending,
          record result {
            successful = record { id = trim entry.id; result = sent } ∷ result.successful;
          },
        )
      ]

unfoldable pub append_pending :
    Env → Service → List Message × SendMessageBatchResult → Reply SendMessageBatchResult
append_pending env s ([], result) = (s, ok result)
append_pending env s (m ∷ ms, result) =
    commit env 0 (with_messages s (append s.state.messages (m ∷ ms))) result

unfoldable pub send_message_batch :
    Env → String → List SendMessageBatchRequestEntry → Service → Reply SendMessageBatchResult
unfolding append_pending
send_message_batch env raw_name entries s =
    let queue_name = trim raw_name in
    if queue_name == ""
    then (s, err queue_name_required)
    else if ltb (length entries) 1
    then (s, err empty_batch_request)
    else if ltb 10 (length entries)
    then (s, err too_many_batch_entries)
    else if has_duplicate_batch_entry_ids (map (λ e. e.id) entries)
    then (s, err duplicate_batch_entry_ids)
    else elim (active_queue_by_name queue_name s.state.queues) [
      | none ↦ (s, err queue_not_found)
      | some queue ↦
          append_pending env s (send_entries env s queue_name queue (length entries) 0 entries)
    ]
