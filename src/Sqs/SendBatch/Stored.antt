-- ===== src/Sqs/SendBatch/Stored.antt =====
-- The messages that the loop of SendMessageBatch of
-- core/internal/resources/sqs/application/service.go stores.
use mathlib.Core.Path.{subst}
use mildstack.Prelude.{
  ℕ, suc, ◌+◌, ◌≡◌, ◌≢◌, refl, String, ◌==◌, ◌⊎◌, inl, inr, true, Option, none, some, List, [], ◌∷◌,
  arith, trim, trim_idem, eq_iff, get_elem?, All, All-map, Bool-cases, Option-cases,
}
use mildstack.Sqs.Domain.{Queue, Message, no_message}
use mildstack.Sqs.Delivery.{is_fifo_queue}
use mildstack.Sqs.Service.{Env, Result, ok, err, Service}
use mildstack.Sqs.Send.{
  SendMessageResult, SendMessageRequest, enqueue_message, new_message, find_duplicate_fifo_message,
  resolve_fifo_message_deduplication_id,
}
use mildstack.Sqs.Send.Sequence.{Follows, next_sequence_number-Follows}
use mildstack.Sqs.SendBatch.{SendMessageBatchRequestEntry, enqueue_batch_message, send_entries}

module _ (env : Env) (s : Service) (name : String) (queue : Queue) (count : ℕ) where
  -- What the duplicate search finds for an entry at the `k`th reading of the clock.
  abbrev pub earlier : ℕ → SendMessageRequest → Option Message
  earlier k request =
      find_duplicate_fifo_message s.state name (trim request.message_group_id)
        (resolve_fifo_message_deduplication_id env queue request) (env.clock k)

  -- The message of an entry: as it was sent, behind those of its group before the call.
  abbrev pub Sent : ℕ → SendMessageBatchRequestEntry → Message → Type 0
  Sent k entry m =
      ((resolve_fifo_message_deduplication_id env queue entry.request ≡ "")
        ⊎ (earlier k entry.request ≡ none))
      × (m.queue ≡ name)
      × (m.message_id ≡ env.fresh_id k)
      × (m.body ≡ entry.request.message_body)
      × (m.message_group_id ≡ trim entry.request.message_group_id)
      × (m.batch_entry_id ≡ trim entry.id)
      × Follows name m.message_group_id s.state.messages m.sequence_number

  abbrev pub Stored : ℕ → SendMessageBatchRequestEntry → Message → Type 0
  Stored k entry m =
      ((existing : Message) × (earlier k entry.request ≡ some existing) × (m ≡ no_message))
      ⊎ Sent k entry m

  -- A stored message, and the entry that it is of.
  abbrev pub StoredFor : ℕ → List SendMessageBatchRequestEntry → Message → Type 0
  StoredFor index entries m =
      (j : ℕ) × (entry : SendMessageBatchRequestEntry) × (get_elem? entries j ≡ some entry)
      × Stored (index + j) entry m

  enqueued :
      (k : ℕ) (entry : SendMessageBatchRequestEntry) (m : Message) (r : SendMessageResult)
      → is_fifo_queue queue ≡ true
      → enqueue_batch_message env s name queue count k entry ≡ ok (m, r)
      → ((existing : Message) × (earlier k entry.request ≡ some existing) × (m ≡ no_message))
        ⊎ (((resolve_fifo_message_deduplication_id env queue entry.request ≡ "")
              ⊎ (earlier k entry.request ≡ none))
            × (trim entry.request.message_group_id ≢ "")
            × (m ≡ new_message env k s.state name queue entry.request entry.id k count))
  unfolding enqueue_batch_message enqueue_message
  enqueued k entry m r fifo e = elim (Option-cases (earlier k entry.request)) [
    | inl h ↦ inr (
      inr h,
      λ g. ground (arith, g, eq_iff (trim entry.request.message_group_id) ""),
      ground arith,
    )
    | inr (x, h) ↦
        elim (Bool-cases (resolve_fifo_message_deduplication_id env queue entry.request == "")) [
          | inl d ↦ inr (
            inl (
                ground (
                  arith,
                  eq_iff (resolve_fifo_message_deduplication_id env queue entry.request) "",
                )),
            λ g. ground (arith, g, eq_iff (trim entry.request.message_group_id) ""),
            ground arith,
          )
          | inr d ↦ inl (x, h, ground arith)
        ]
  ]

  new_message-Follows :
      (k : ℕ) (entry : SendMessageBatchRequestEntry)
      → is_fifo_queue queue ≡ true
      → trim entry.request.message_group_id ≢ ""
      → Follows name
          (trim entry.request.message_group_id)
          s.state.messages
          (new_message env k s.state name queue entry.request entry.id k count).sequence_number
  unfolding new_message
  new_message-Follows k entry fifo ne = rw fifo (
      next_sequence_number-Follows s.state.messages name (trim entry.request.message_group_id)
        (rw (trim_idem entry.request.message_group_id) ne))

  new_message-Sent :
      (k : ℕ) (entry : SendMessageBatchRequestEntry)
      → is_fifo_queue queue ≡ true
      → (resolve_fifo_message_deduplication_id env queue entry.request ≡ "")
        ⊎ (earlier k entry.request ≡ none)
      → trim entry.request.message_group_id ≢ ""
      → Sent k entry (new_message env k s.state name queue entry.request entry.id k count)
  unfolding new_message
  new_message-Sent k entry fifo fresh ne =
      (fresh, refl, refl, refl, refl, refl, new_message-Follows k entry fifo ne)

  enqueue_batch_message-Stored :
      (k : ℕ) (entry : SendMessageBatchRequestEntry) (m : Message) (r : SendMessageResult)
      → is_fifo_queue queue ≡ true
      → enqueue_batch_message env s name queue count k entry ≡ ok (m, r)
      → Stored k entry m
  enqueue_batch_message-Stored k entry m r fifo e = elim (enqueued k entry m r fifo e) [
    | inl found ↦ inl found
    | inr (fresh, ne, same) ↦ inr (rw same (new_message-Sent k entry fifo fresh ne))
  ]

  StoredFor-cons :
      (index : ℕ) (entry : SendMessageBatchRequestEntry)
      (entries : List SendMessageBatchRequestEntry) (m : Message)
      → StoredFor (suc index) entries m
      → StoredFor index (entry ∷ entries) m
  StoredFor-cons index entry entries m (j, e, at, is) =
      let same : suc index + j ≡ index + suc j = omega arith in
      (suc j, e, at, subst (λ k. Stored k e m) same is)

  -- Every message that a batch stores in a FIFO queue is of one of its entries: the empty message if
  -- the duplicate search finds a message for the entry in the state before the call; else, the search
  -- having found none or there being no deduplication identifier, one with the entry's body, trimmed
  -- group and identifier, whose sequence number is above all of its group before the call, and 1 or
  -- one more than one of them: the batch does not count its own.
  pub send_entries-Stored :
      (index : ℕ) (entries : List SendMessageBatchRequestEntry)
      → is_fifo_queue queue ≡ true
      → All (StoredFor index entries) (send_entries env s name queue count index entries).0
  unfolding send_entries
  send_entries-Stored index [] fifo = tt
  send_entries-Stored index (entry ∷ entries) fifo =
      go (enqueue_batch_message env s name queue count index entry) refl (
        All-map (StoredFor (suc index) entries) (StoredFor index (entry ∷ entries))
          (StoredFor-cons index entry entries)
          (send_entries env s name queue count (suc index) entries).0
          (send_entries-Stored (suc index) entries fifo))
    where
      go :
          (o : Result (Message × SendMessageResult))
          → enqueue_batch_message env s name queue count index entry ≡ o
          → All
              (StoredFor index (entry ∷ entries))
              (send_entries env s name queue count (suc index) entries).0
          → All
              (StoredFor index (entry ∷ entries))
              (send_entries env s name queue count index (entry ∷ entries)).0
      go (err e) h later = rw (h, send_entries) later
      go (ok (m, r)) h later =
          let here : index ≡ index + 0 = omega arith in
          rw (h, send_entries)
            (
              (
                0,
                entry,
                refl,
                subst (λ k. Stored k entry m) here
                    (enqueue_batch_message-Stored index entry m r fifo h),
              ),
              later,
            )
