-- ===== src/Sqs/DeadLetter/Sweeps.antt =====
-- The whole of sweepDeadLettersLocked of core/internal/resources/sqs/application/service.go:
-- each index of the list, and a second sweep.
use mildstack.Prelude.{
  ℕ, suc, zero, ◌≡◌, ◌≢◌, refl, ap, ◌∙◌, ◌⊎◌, ◌≤◌, ◌<◌, Bool, true, false, some, List, [], ◌∷◌, Map,
  arith, trim, All, get_elem?, if◌then◌else◌, inl, inr, length,
}
use mildstack.Sqs.Domain.{Time, Queue, Message, RecoveryMetadata}
use mildstack.Sqs.Delivery.{is_dead_letter_eligible, dead_letter_threshold}
use mildstack.Sqs.Service.{Env, Service, active_queue_by_name, commit_ignoring_error, saved}
use mildstack.Sqs.DeadLetter.{sweep_message, sweep_messages, sweep_dead_letters, dead_lettered}
use mildstack.Sqs.DeadLetter.Sweep.{
  IsSettled, Swept, left, moved, sweep_message-Swept, Swept-IsSettled, eligible-moves,
}
use mildstack.Sqs.DeadLetter.Placement.{
  Marked, Placed, dead_lettered-Marked, dead_lettered-Placed, queue-dead_lettered,
}

module _ (env : Env) (queues : List Queue) (now : Time) where
  sweep_messages-IsSettled :
      (ms : List Message) (metadata : Map RecoveryMetadata) (n : ℕ)
      → All (IsSettled env queues now) (sweep_messages env queues now ms metadata n).0
  unfolding sweep_messages
  sweep_messages-IsSettled [] metadata n = tt
  sweep_messages-IsSettled (m ∷ ms) metadata n = (
    Swept-IsSettled env queues now (sweep_message-Swept env queues now m metadata),
    sweep_messages-IsSettled ms _ _,
  )

  sweep_messages_settled :
      (ms : List Message) (metadata : Map RecoveryMetadata) (n : ℕ)
      → All (IsSettled env queues now) ms
      → sweep_messages env queues now ms metadata n ≡ (ms, metadata, n)
  unfolding sweep_messages
  sweep_messages_settled [] metadata n h = refl
  sweep_messages_settled (m ∷ ms) metadata n h =
      rw (h.0 metadata) (rw (sweep_messages_settled ms metadata n h.1))

  sweep_messages-Swept :
      (ms : List Message) (metadata : Map RecoveryMetadata) (n j : ℕ) (m : Message)
      → get_elem? ms j ≡ some m
      → (m' : Message) × (b : Bool) × (get_elem? (sweep_messages env queues now ms metadata n).0 j
          ≡ some m')
        × Swept env queues now m m' b
  unfolding sweep_messages
  sweep_messages-Swept [] metadata n j m e = cc
  sweep_messages-Swept (x ∷ ms) metadata n zero m e =
      let same : x ≡ m = cc in
      (
        (sweep_message env queues now x metadata).0,
        (sweep_message env queues now x metadata).2,
        refl,
        rw (← same) (sweep_message-Swept env queues now x metadata),
      )
  sweep_messages-Swept (x ∷ ms) metadata n (suc j) m e = sweep_messages-Swept ms _ _ j m e

  length-sweep_messages :
      (ms : List Message) (metadata : Map RecoveryMetadata) (n : ℕ)
      → length (sweep_messages env queues now ms metadata n).0 ≡ length ms
  unfolding sweep_messages
  length-sweep_messages [] metadata n = refl
  length-sweep_messages (m ∷ ms) metadata n = ap suc (length-sweep_messages ms _ _)

-- A message is eligible only if it was received at least as often as the queue allows.
eligible_attempts :
    (m : Message) (q : Queue) (now : Time)
    → is_dead_letter_eligible m q now ≡ true
    → (0 < dead_letter_threshold q) × (dead_letter_threshold q ≤ m.recovery.attempts)
unfolding is_dead_letter_eligible
eligible_attempts m q now h = ground arith

state-commit_ignoring_error :
    (env : Env) (k : ℕ) (s : Service) → (commit_ignoring_error env k s).state ≡ s.state
unfolding commit_ignoring_error saved
state-commit_ignoring_error env k s = ground arith

state-if :
    (env : Env) (k : ℕ) (test : Bool) (s : Service)
    → (if test then commit_ignoring_error env k s else s).state ≡ s.state
state-if env k true s = state-commit_ignoring_error env k s
state-if env k false s = refl

state-sweep :
    (env : Env) (k : ℕ) (now : Time) (s : Service)
    → (sweep_dead_letters env k now s).0.state ≡ record (s.state) {
      messages =
          (sweep_messages env s.state.queues now s.state.messages s.state.recovery_metadata 0).0;
      recovery_metadata =
          (sweep_messages env s.state.queues now s.state.messages s.state.recovery_metadata 0).1;
    }
unfolding sweep_dead_letters
state-sweep env k now s = state-if env k _ _

sweep_settled :
    (env : Env) (l : ℕ) (now : Time) (s : Service)
    → All (IsSettled env s.state.queues now) s.state.messages
    → sweep_dead_letters env l now s ≡ (s, 0)
unfolding sweep_dead_letters
sweep_settled env l now s h =
    rw
      (sweep_messages_settled env s.state.queues now s.state.messages s.state.recovery_metadata 0 h)

-- A sweep at the time of the sweep before it moves nothing and changes nothing.
pub sweep_idempotent :
    (env : Env) (k l : ℕ) (now : Time) (s : Service)
    → sweep_dead_letters env l now (sweep_dead_letters env k now s).0
      ≡ ((sweep_dead_letters env k now s).0, 0)
sweep_idempotent env k l now s = sweep_settled env l now (sweep_dead_letters env k now s).0 (
    rw (state-sweep env k now s) (
      sweep_messages-IsSettled env s.state.queues now s.state.messages s.state.recovery_metadata 0))

-- What a sweep may do with the message `m` that stands at index `j`.
abbrev pub SweptAt : Time → Service → ℕ → Message → List Message → Type 0
SweptAt now s j m after =
    (get_elem? after j ≡ some m)
    ⊎ ((source : Queue) × (m' : Message) × (active_queue_by_name m.queue s.state.queues
          ≡ some source)
        × (0 < dead_letter_threshold source)
        × (dead_letter_threshold source ≤ m.recovery.attempts)
        × (get_elem? after j ≡ some m')
        × Marked now source (trim source.recovery.dead_letter_queue) m m'
        × Placed (trim source.recovery.dead_letter_queue) s.state.queues m m')

outcome :
    (env : Env) (now : Time) (s : Service) (j : ℕ) (m : Message) (after : List Message)
    → (m' : Message) × (b : Bool) × (get_elem? after j ≡ some m')
      × Swept env s.state.queues now m m' b
    → SweptAt now s j m after
outcome env now s j m after (m', b, found, left e f settled) = inl (rw (← e) found)
outcome env now s j m after (m', b, found, moved source active eligible ne e f) =
    let (pos_t, le_t) = eligible_attempts m source now eligible in
    inr (
      source,
      dead_lettered env s.state.queues now source (trim source.recovery.dead_letter_queue) m,
      active,
      pos_t,
      le_t,
      found ∙ ap some e,
      dead_lettered-Marked env s.state.queues now source m _,
      dead_lettered-Placed env s.state.queues now source m _,
    )

-- At each index a sweep leaves the message as it was, or dead-letters it: the message then stands in
-- the dead-letter queue that its active queue names, or, if no queue of that name is active, where
-- it stood, and is marked with that name, its source and the time, its identifier, body and attempts
-- unchanged. Only a message that was received at least as often as its queue allows is
-- dead-lettered, and the list keeps its length.
pub sweep_moves :
    (env : Env) (k : ℕ) (now : Time) (s : Service) (j : ℕ) (m : Message)
    → get_elem? s.state.messages j ≡ some m
    → let after = (sweep_dead_letters env k now s).0.state.messages in
      (length after ≡ length s.state.messages) × SweptAt now s j m after
sweep_moves env k now s j m e = rw (state-sweep env k now s) (
  length-sweep_messages env s.state.queues now s.state.messages s.state.recovery_metadata 0,
  outcome env now s j m _ (
      sweep_messages-Swept env s.state.queues now s.state.messages s.state.recovery_metadata 0 j m
        e),
)

eligible_dead_lettered :
    (env : Env) (k : ℕ) (now : Time) (s : Service) (j : ℕ) (m : Message) (source : Queue)
    → get_elem? s.state.messages j ≡ some m
    → active_queue_by_name m.queue s.state.queues ≡ some source
    → is_dead_letter_eligible m source now ≡ true
    → trim source.recovery.dead_letter_queue ≢ ""
    → get_elem? (sweep_dead_letters env k now s).0.state.messages j
      ≡ some
          (dead_lettered env s.state.queues now source (trim source.recovery.dead_letter_queue) m)
eligible_dead_lettered env k now s j m source e active eligible ne = rw (state-sweep env k now s) (
    go (
      sweep_messages-Swept env s.state.queues now s.state.messages s.state.recovery_metadata 0 j m
        e))
  where
    after : List Message
    after = (sweep_messages env s.state.queues now s.state.messages s.state.recovery_metadata 0).0

    go :
        (m' : Message) × (b : Bool) × (get_elem? after j ≡ some m')
          × Swept env s.state.queues now m m' b
        → get_elem? after j
          ≡ some (
              dead_lettered env s.state.queues now source
                (trim source.recovery.dead_letter_queue)
                m)
    go (m', b, found, left same f settled) =
        absurd (eligible-moves env s.state.queues now m source active eligible ne settled)
    go (m', b, found, moved other there el somewhere same f) =
        let one : other ≡ source = ground arith in found ∙ ap some (rw one at same)

-- A sweep does move a message whose queue is active and finds it eligible, where that queue names a
-- dead-letter queue that is active too: the message then stands in the dead-letter queue, and is
-- marked with it, its source and the time, its identifier, body and attempts unchanged.
pub sweep_moves_eligible :
    (env : Env) (k : ℕ) (now : Time) (s : Service) (j : ℕ) (m : Message) (source dlq : Queue)
    → get_elem? s.state.messages j ≡ some m
    → active_queue_by_name m.queue s.state.queues ≡ some source
    → is_dead_letter_eligible m source now ≡ true
    → trim source.recovery.dead_letter_queue ≢ ""
    → active_queue_by_name (trim source.recovery.dead_letter_queue) s.state.queues ≡ some dlq
    → (m' : Message) × (get_elem? (sweep_dead_letters env k now s).0.state.messages j ≡ some m')
      × (m'.queue ≡ trim source.recovery.dead_letter_queue)
      × Marked now source (trim source.recovery.dead_letter_queue) m m'
sweep_moves_eligible env k now s j m source dlq e active eligible ne there = (
  dead_lettered env s.state.queues now source (trim source.recovery.dead_letter_queue) m,
  eligible_dead_lettered env k now s j m source e active eligible ne,
  queue-dead_lettered env s.state.queues now source m _ dlq there,
  dead_lettered-Marked env s.state.queues now source m _,
)
