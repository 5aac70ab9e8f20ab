-- ===== src/Sqs/SendBatch/Laws.antt =====
-- The loop of SendMessageBatch of core/internal/resources/sqs/application/service.go: its answers.
use mildstack.Prelude.{
  ℕ, suc, ◌≡◌, refl, String, ◌==◌, ◌⊎◌, inl, inr, true, List, [], ◌∷◌, arith, trim, eq_iff,
  Bool-cases,
}
use mildstack.Sqs.Batch.{BatchResultErrorEntry, batch_failure_entry_with_code}
use mildstack.Sqs.Domain.{Queue, Message, no_message}
use mildstack.Sqs.Delivery.{is_fifo_queue}
use mildstack.Sqs.Service.{Env, Error, Result, ok, err, Service}
use mildstack.Sqs.Send.{SendMessageResult, sent_result, enqueue_message}
use mildstack.Sqs.SendBatch.{
  SendMessageBatchRequestEntry, SendMessageBatchResultEntry, enqueue_batch_message, send_entries,
}

-- An entry that lacks an identifier or a body, or, for a FIFO queue, a message group.
abbrev pub Unfit : Queue → SendMessageBatchRequestEntry → Type 0
Unfit queue entry =
    (trim entry.id ≡ "")
    ⊎ (trim entry.request.message_body ≡ "")
    ⊎ ((is_fifo_queue queue ≡ true) × (trim entry.request.message_group_id ≡ ""))

-- What answers a list of entries: pending messages, successes and failures. Each entry in turn gives
-- either the next message and the next success or the next failure, under its own identifier.
pub data Answered (queue : Queue)
    : List SendMessageBatchRequestEntry
      → List Message
      → List SendMessageBatchResultEntry
      → List BatchResultErrorEntry
      → Type 0 where
  all_answered : Answered queue [] [] [] []
  accepted :
      {entries : List SendMessageBatchRequestEntry} {messages : List Message}
      {successful : List SendMessageBatchResultEntry} {failed : List BatchResultErrorEntry}
      (entry : SendMessageBatchRequestEntry) (message : Message) (r : SendMessageBatchResultEntry)
      → ¬ Unfit queue entry
      → r.id ≡ trim entry.id
      → (message ≡ no_message) ⊎ (r.result.message_id ≡ message.message_id)
      → Answered queue entries messages successful failed
      → Answered queue (entry ∷ entries) (message ∷ messages) (r ∷ successful) failed
  refused :
      {entries : List SendMessageBatchRequestEntry} {messages : List Message}
      {successful : List SendMessageBatchResultEntry} {failed : List BatchResultErrorEntry}
      (entry : SendMessageBatchRequestEntry) (f : BatchResultErrorEntry)
      → Unfit queue entry
      → f.id ≡ trim entry.id
      → Answered queue entries messages successful failed
      → Answered queue (entry ∷ entries) messages successful (f ∷ failed)

module _ (env : Env) (s : Service) (name : String) (queue : Queue) (count : ℕ) where
  accepted_fit :
      (index : ℕ) (entry : SendMessageBatchRequestEntry) (m : Message) (r : SendMessageResult)
      → enqueue_batch_message env s name queue count index entry ≡ ok (m, r)
      → ¬ Unfit queue entry
  unfolding enqueue_batch_message enqueue_message
  accepted_fit index entry m r e (inl h) = ground (arith, eq_iff (trim entry.id) "")
  accepted_fit index entry m r e (inr (inl h)) =
      ground (arith, eq_iff (trim entry.request.message_body) "")
  accepted_fit index entry m r e (inr (inr (fifo, h))) =
      ground (arith, eq_iff (trim entry.request.message_group_id) "")

  accepted_id :
      (index : ℕ) (entry : SendMessageBatchRequestEntry) (m : Message) (r : SendMessageResult)
      → enqueue_batch_message env s name queue count index entry ≡ ok (m, r)
      → (m ≡ no_message) ⊎ (r.message_id ≡ m.message_id)
  unfolding enqueue_batch_message enqueue_message sent_result
  accepted_id index entry m r e = ground arith

  refused-Unfit :
      (index : ℕ) (entry : SendMessageBatchRequestEntry) (why : Error)
      → enqueue_batch_message env s name queue count index entry ≡ err why
      → Unfit queue entry
  unfolding enqueue_batch_message enqueue_message
  refused-Unfit index entry why e = elim (Bool-cases (trim entry.id == "")) [
    | inl h ↦ inl (ground (arith, eq_iff (trim entry.id) ""))
    | inr h ↦ elim (Bool-cases (trim entry.request.message_body == "")) [
      | inl k ↦ inr (inl (ground (arith, eq_iff (trim entry.request.message_body) "")))
      | inr k ↦ elim (Bool-cases (trim entry.request.message_group_id == "")) [
        | inl g ↦
            inr
              (inr (ground arith, ground (arith, eq_iff (trim entry.request.message_group_id) "")))
        | inr g ↦ absurd (ground arith)
      ]
    ]
  ]

  failure_id :
      (entry : SendMessageBatchRequestEntry) (why : Error)
      → (batch_failure_entry_with_code entry.id "InvalidParameterValue" why true).id ≡ trim entry.id
  unfolding batch_failure_entry_with_code
  failure_id entry why = refl

  -- The entries of a batch are answered one by one and in their order: one that lacks an identifier
  -- or a body, or a message group for a FIFO queue, by the next failure, every other by the next
  -- success and the next pending message; each answer carries the trimmed identifier of its entry,
  -- and a success that of its message, where the message is not the empty one.
  pub send_entries-Answered :
      (index : ℕ) (entries : List SendMessageBatchRequestEntry)
      → let (pending, result) = send_entries env s name queue count index entries in
        Answered queue entries pending result.successful result.failed
  unfolding send_entries
  send_entries-Answered index [] = all_answered
  send_entries-Answered index (entry ∷ entries) =
      go (enqueue_batch_message env s name queue count index entry) refl
        (send_entries-Answered (suc index) entries)
    where
      go :
          (o : Result (Message × SendMessageResult))
          → enqueue_batch_message env s name queue count index entry ≡ o
          → (let (pending, result) = send_entries env s name queue count (suc index) entries in
              Answered queue entries pending result.successful result.failed)
          → let (pending, result) = send_entries env s name queue count index (entry ∷ entries) in
            Answered queue (entry ∷ entries) pending result.successful result.failed
      go (err why) h later =
          rw (h, send_entries)
            (refused entry _ (refused-Unfit index entry why h) (failure_id entry why) later)
      go (ok (m, r)) h later =
          rw (h, send_entries)
            (accepted entry m _ (accepted_fit index entry m r h) refl
              (accepted_id index entry m r h) later)
