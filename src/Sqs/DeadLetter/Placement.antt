-- ===== src/Sqs/DeadLetter/Placement.antt =====
-- What moveMessageToDeadLetterLocked of core/internal/resources/sqs/application/service.go writes
-- into the message.
use mildstack.Prelude.{◌≡◌, ◌⊎◌, inl, inr, refl, some, List, String, Option-cases}
use mildstack.Sqs.Domain.{Time, zero_time, Queue, Message}
use mildstack.Sqs.Service.{Env, active_queue_by_name}
use mildstack.Sqs.Service.Lookup.{NoneActive, active_none}
use mildstack.Sqs.Tags.Laws.{active_found}
use mildstack.Sqs.DeadLetter.{dead_lettered, target_queue}

-- The queue in which a message stands that was dead-lettered to `dlq_name`: the dead-letter queue,
-- where a queue of that name is active; the one it was in, where none is.
abbrev pub Placed : String → List Queue → Message → Message → Type 0
Placed dlq_name queues m m' =
    ((d : Queue) × (d.name ≡ dlq_name)
      × (d.deleted_at ≡ zero_time)
      × (active_queue_by_name dlq_name queues ≡ some d)
      × (m'.queue ≡ dlq_name))
    ⊎ (NoneActive dlq_name queues × (m'.queue ≡ m.queue))

-- What a dead-lettered message says: where it goes, where it comes from and when, that it is free
-- to be received from then on, and what it always was.
abbrev pub Marked : Time → Queue → String → Message → Message → Type 0
Marked now source dlq_name m m' =
    (m'.dead_letter_queue ≡ dlq_name)
    × (m'.dead_letter_source_queue ≡ source.name)
    × (m'.dead_lettered_at ≡ now)
    × (m'.received_at ≡ zero_time)
    × (m'.available_at ≡ now)
    × (m'.message_id ≡ m.message_id)
    × (m'.body ≡ m.body)
    × (m'.recovery ≡ m.recovery)

module _ (env : Env) (queues : List Queue) (now : Time) (source : Queue) (m : Message) where
  pub dead_lettered-Marked :
      (dlq_name : String)
      → Marked now source dlq_name m (dead_lettered env queues now source dlq_name m)
  unfolding dead_lettered
  dead_lettered-Marked dlq_name = (refl, refl, refl, refl, refl, refl, refl, refl)

  pub queue-dead_lettered :
      (dlq_name : String) (d : Queue)
      → active_queue_by_name dlq_name queues ≡ some d
      → (dead_lettered env queues now source dlq_name m).queue ≡ dlq_name
  unfolding dead_lettered target_queue
  queue-dead_lettered dlq_name d e = rw (target_queue, e) (active_found dlq_name queues d e).0

  pub dead_lettered-Placed :
      (dlq_name : String)
      → Placed dlq_name queues m (dead_lettered env queues now source dlq_name m)
  unfolding dead_lettered target_queue
  dead_lettered-Placed dlq_name = elim (Option-cases (active_queue_by_name dlq_name queues)) [
    | inl e ↦ inr (active_none dlq_name queues e, rw (target_queue, e) refl)
    | inr (d, e) ↦
        let (named, live) = active_found dlq_name queues d e in
        inl (d, named, live, e, queue-dead_lettered dlq_name d e)
  ]
