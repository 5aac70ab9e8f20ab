-- ===== src/Sqs/Send/Resend.antt =====
-- SendMessage of core/internal/resources/sqs/application/service.go: what a call that succeeds did.
use mathlib.Core.List.{◌++◌}
use mildstack.Prelude.{
  ◌≡◌, ◌≢◌, refl, String, ◌==◌, eq_iff, not, ◌&&◌, some, [], ◌∷◌, arith, trim, ◌⊎◌, inl, inr,
  Option-cases, Bool-cases,
}
use mildstack.Sqs.Domain.{no_message, Queue, Message, State}
use mildstack.Sqs.Delivery.{is_fifo_queue}
use mildstack.Sqs.Service.{
  Env, Error, Service, ok, err, Result, active_queue_by_name, commit, group_id_required,
}
use mildstack.Sqs.Service.Commit.{commit_ok, IsDurable}
use mildstack.Sqs.Send.{
  SendMessageRequest, SendMessageResult, find_duplicate_fifo_message, new_message,
  resolve_fifo_message_deduplication_id, enqueue_message, duplicate_result, sent_result,
  send_message, append_sent, with_messages,
}
use mildstack.Sqs.Send.Duplicates.{sent}

module _ (env : Env) (state : State) (name : String) (queue : Queue)
    (request : SendMessageRequest) where
  abbrev Finds : Message → Type 0
  Finds existing =
      find_duplicate_fifo_message state name (trim request.message_group_id)
        (resolve_fifo_message_deduplication_id env queue request) (env.clock 0)
      ≡ some existing

  abbrev fresh_message : Message
  fresh_message = new_message env 0 state name queue request "" 0 1

  -- The three outcomes of `enqueueMessageLocked`.
  data Enqueued (r : Result (Message × SendMessageResult)) : Type 0 where
    refused : r ≡ err group_id_required → Enqueued r
    stored :
        r ≡ ok (fresh_message, sent_result env 0 state name queue request fresh_message)
        → Enqueued r
    duplicated :
        (existing : Message)
        → Finds existing
        → r ≡ ok (no_message, duplicate_result env existing)
        → Enqueued r

  enqueue-Enqueued : Enqueued (enqueue_message env 0 state name queue request "" 0 1)
  unfolding enqueue_message
  enqueue-Enqueued =
      elim (Bool-cases (is_fifo_queue queue && trim request.message_group_id == "")) [
        | inl bad ↦ rw bad (refused refl)
        | inr fine ↦
            elim (Bool-cases (
              is_fifo_queue queue
              && not (resolve_fifo_message_deduplication_id env queue request == ""))) [
                | inr plain ↦ rw (fine, plain) (stored refl)
                | inl keyed ↦
                    elim (Option-cases (
                      find_duplicate_fifo_message state name (trim request.message_group_id)
                        (resolve_fifo_message_deduplication_id env queue request) (env.clock 0))) [
                          | inl missing ↦ rw (fine, keyed, missing) (stored refl)
                          | inr (existing, found) ↦
                              rw (fine, keyed, found) (duplicated existing found refl)
                        ]
              ]
      ]

send_message_opened :
    (env : Env) (raw_name : String) (request : SendMessageRequest) (s s' : Service)
    (r : SendMessageResult)
    → send_message env raw_name request s ≡ (s', ok r)
    → (queue : Queue) × (active_queue_by_name (trim raw_name) s.state.queues ≡ some queue)
      × (append_sent env s (enqueue_message env 0 s.state (trim raw_name) queue request "" 0 1)
          ≡ (s', ok r))
unfolding send_message
send_message_opened env raw_name request s s' r e = ground arith

-- What the call of `SendMessage` did.
abbrev pub Sent :
    Env → String → Queue → SendMessageRequest → Service → Service → SendMessageResult → Type 0
Sent env name queue request s s' r =
    ((s'.state ≡ record (s.state) {
      messages = s.state.messages ++ new_message env 0 s.state name queue request "" 0 1 ∷ [];
    })
      × (r.message_id ≡ env.fresh_id 0)
      × IsDurable s')
    ⊎ ((s' ≡ s)
        × ((existing : Message) × (find_duplicate_fifo_message s.state name
                (trim request.message_group_id)
                (resolve_fifo_message_deduplication_id env queue request) (env.clock 0)
              ≡ some existing)
            × (r.message_id ≡ existing.message_id)))

append_refused :
    (env : Env) (s s' : Service) (r : SendMessageResult) (e : Error)
    → append_sent env s (err e) ≡ (s', ok r)
    → ⊥
unfolding append_sent
append_refused env s s' r e h = ground arith

append_fresh :
    (env : Env) (s s' : Service) (m : Message) (a r : SendMessageResult)
    → m.message_id ≢ ""
    → append_sent env s (ok (m, a)) ≡ (s', ok r)
    → commit env 0 (with_messages s (s.state.messages ++ m ∷ [])) a ≡ (s', ok r)
unfolding append_sent
append_fresh env s s' m a r ne h = ground (arith, eq_iff m.message_id "")

append_duplicate :
    (env : Env) (s s' : Service) (a r : SendMessageResult)
    → append_sent env s (ok (no_message, a)) ≡ (s', ok r)
    → (s' ≡ s) × (r ≡ a)
unfolding append_sent
append_duplicate env s s' a r h = ground arith

append_sent_lem :
    (env : Env) (s : Service) (name : String) (queue : Queue) (request : SendMessageRequest)
    (s' : Service) (r : SendMessageResult)
    → env.fresh_id 0 ≢ ""
    → (sent : Result (Message × SendMessageResult)) → Enqueued env s.state name queue request sent
    → append_sent env s sent ≡ (s', ok r)
    → Sent env name queue request s s' r
append_sent_lem env s name queue request s' r fresh sent (refused e) h =
    absurd (append_refused env s s' r group_id_required (rw e at h))
append_sent_lem env s name queue request s' r fresh sent (stored e) h =
    let (same, is, durable) =
      commit_ok env 0 _ _ s' r (append_fresh env s s' _ _ r fresh' (rw e at h)) in
    inl (same, rw is (unfold new_message sent_result in refl), durable)
  where
    fresh' : (new_message env 0 s.state name queue request "" 0 1).message_id ≢ ""
    fresh' = unfold new_message in fresh
append_sent_lem env s name queue request s' r fresh sent (duplicated existing found e) h =
    let (same, is) = append_duplicate env s s' (duplicate_result env existing) r (rw e at h) in
    inr (same, (existing, found, rw is (unfold duplicate_result in refl)))

-- A send that succeeds found the queue active, and either stores one message behind all others,
-- saves and answers with its identifier, or finds a duplicate, changes nothing and answers with the
-- identifier of that; the identifier that a new message gets is not blank.
pub send_message_stores :
    (env : Env) (raw_name : String) (request : SendMessageRequest) (s s' : Service)
    (r : SendMessageResult)
    → env.fresh_id 0 ≢ ""
    → send_message env raw_name request s ≡ (s', ok r)
    → (queue : Queue) × (active_queue_by_name (trim raw_name) s.state.queues ≡ some queue)
      × Sent env (trim raw_name) queue request s s' r
send_message_stores env raw_name request s s' r fresh e =
    let (queue, active, done) = send_message_opened env raw_name request s s' r e in
    let outcome =
      append_sent_lem env s (trim raw_name) queue request s' r fresh
        (enqueue_message env 0 s.state (trim raw_name) queue request "" 0 1)
        (enqueue-Enqueued env s.state (trim raw_name) queue request) done in
    (queue, active, outcome)
