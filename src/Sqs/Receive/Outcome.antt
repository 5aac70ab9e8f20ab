-- ===== src/Sqs/Receive/Outcome.antt =====
-- What a call of receiveReadyMessagesLocked returns and what it leaves in the queue
-- (core/internal/resources/sqs/application/service.go).
use Prim.Native.Nat.{min}
use mildstack.Prelude.{
  ℕ, suc, ◌≡◌, refl, String, Option, none, some, List, [], ◌∷◌, arith, All, length,
}
use mildstack.Sqs.Domain.{Time, Queue, Message}
use mildstack.Sqs.Service.{Env, Service, ok, active_queue_by_name}
use mildstack.Sqs.Service.{commit}
use mildstack.Sqs.DeadLetter.{sweep_dead_letters}
use mildstack.Sqs.Receive.{
  lease_loop, commit_leases, receive_in_queue, receive_found, receive_ready_messages,
}
use mildstack.Sqs.Receive.Selection.{
  delivery_order, delivery_order-ReadyAt, delivery_order-Distinct,
}
use mildstack.Sqs.Receive.Leases.{
  Untouched, Delivered, Kept, untouched, lease_loop-Delivered, length-lease_loop, lease_loop-Kept,
}

All-Untouched : (messages : List Message) (is : List ℕ) → All (Untouched messages messages) is
All-Untouched messages [] = tt
All-Untouched messages (i ∷ is) = (refl, All-Untouched messages is)

commit_leases_lem :
    (env : Env) (k : ℕ) (s s' : Service) (taken : List Message × List Message)
    (received : List Message)
    → commit_leases env k s taken ≡ (s', ok received)
    → (received ≡ taken.1) × (s'.state.messages ≡ taken.0)
unfolding commit_leases commit
commit_leases_lem env k s s' (messages, []) received e = ground arith
commit_leases_lem env k s s' (messages, m ∷ ms) received e = ground arith

module _ (env : Env) (k : ℕ) (name : String) (room : ℕ) (now : Time) (s : Service) where
  -- The service after the sweep that begins a receive.
  abbrev pub swept : Service
  swept = (sweep_dead_letters env k now s).0

  abbrev looped : Queue → List Message × List Message
  looped queue =
      lease_loop name queue now (delivery_order swept.state.messages name queue now) room
        swept.state.messages

  receive_found_lem :
      (found : Option Queue) (s' : Service) (received : List Message)
      → receive_found env k name room now swept found ≡ (s', ok received)
      → (queue : Queue) × (found ≡ some queue)
        × (received ≡ (looped queue).1)
        × (s'.state.messages ≡ (looped queue).0)
  unfolding receive_found receive_in_queue delivery_order
  receive_found_lem none s' received e = cc
  receive_found_lem (some queue) s' received e =
      let (same, after) = commit_leases_lem env (suc k) swept s' (looped queue) received e in
      (queue, refl, same, after)

-- What a receive that succeeds does to the service and returns.
abbrev pub Received : Env → ℕ → String → ℕ → Time → Service → Service → List Message → Type 0
Received env k name room now s s' received =
    let before = (swept env k name room now s).state in
    (queue : Queue) × (active_queue_by_name name before.queues ≡ some queue)
    × All (Delivered name queue now before.messages s'.state.messages) received
    × (length received ≡ min room (length (delivery_order before.messages name queue now)))
    × ((j : ℕ) → Kept name queue now before.messages s'.state.messages j)

module _ (env : Env) (k : ℕ) (name : String) (room : ℕ) (now : Time) (s s' : Service)
    (received : List Message)
    (returns : receive_ready_messages env k name room now s ≡ (s', ok received)) where
  abbrev messages : List Message
  messages = (swept env k name room now s).state.messages

  opened :
      receive_found env k name room now
        (swept env k name room now s)
        (active_queue_by_name name (swept env k name room now s).state.queues)
      ≡ (s', ok received)
  unfolding receive_ready_messages
  opened = returns

  -- A receive that succeeds found the queue, and each message that it returns is the lease of a
  -- message that was ready in that queue after the sweep, and stands in the list afterwards in place
  -- of that message; it returns as many as there are, up to `room`; and at every index the list afterwards holds the message that it held, or its lease.
  pub receive_leases : Received env k name room now s s' received
  receive_leases =
      let (queue, found, same, after) =
        receive_found_lem env k name room now s _ s' received opened in
      let ready = delivery_order-ReadyAt messages name queue now in
      let apart = delivery_order-Distinct messages name queue now in
      let whole = All-Untouched messages (delivery_order messages name queue now) in
      (
        queue,
        found,
        rw (same, after)
            (lease_loop-Delivered name queue now messages messages _ room apart ready whole),
        rw same (length-lease_loop name queue now messages messages _ room apart ready whole),
        λ j. rw after (
            lease_loop-Kept name queue now messages messages _ room apart ready whole j
              (untouched refl)),
      )
