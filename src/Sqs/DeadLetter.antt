-- ===== src/Sqs/DeadLetter.antt =====
-- core/internal/resources/sqs/application/service.go: sweepDeadLettersLocked and
-- moveMessageToDeadLetterLocked.
pub mod Placement
pub mod Sweep
pub mod Sweeps
use Prim.Native.String.{◌++◌}
use mildstack.Prelude.{
  ℕ, suc, ◌+◌, String, ◌==◌, Bool, true, false, ◌||◌, Option, none, some, List, [], ◌∷◌, Map,
  if◌then◌else◌, trim, ltb, insert,
}
use mildstack.Prelude.Numeral.{itoa}
use mildstack.Sqs.Domain.{Time, zero_time, Queue, Message, RecoveryMetadata, State}
use mildstack.Sqs.Delivery.{is_fifo_queue, is_dead_letter_eligible}
use mildstack.Sqs.Service.{Env, Service, commit_ignoring_error, active_queue_by_name}

unfoldable pub queue_ordering_mode : Queue → String
queue_ordering_mode queue = if is_fifo_queue queue then "fifo" else "standard"

-- The message moves only into a dead-letter queue that is there; if none is, it stays, marked.
unfoldable pub target_queue : List Queue → String → Message → String
target_queue queues dlq_name message = elim (active_queue_by_name dlq_name queues) [
  | none ↦ message.queue
  | some q ↦ q.name
]

module _ (env : Env) (queues : List Queue) (now : Time) where
  unfoldable pub dead_lettered : Queue → String → Message → Message
  dead_lettered source dlq_name message = record message {
    queue = target_queue queues dlq_name message;
    dead_letter_queue = dlq_name;
    dead_letter_source_queue = source.name;
    dead_lettered_at = now;
    received_at = zero_time;
    available_at = now;
    metadata = insert "dead_lettered_at" (env.format_time now) (
        insert "dead_letter_source_queue" source.name
          (insert "dead_letter_queue" dlq_name message.metadata));
  }

  unfoldable pub recovery_entry : Queue → String → Message → RecoveryMetadata
  recovery_entry source dlq_name message = record {
    queue = dlq_name;
    message = message.message_id;
    detail =
        ("source_queue", source.name)
        ∷ ("dead_letter_queue", dlq_name)
        ∷ ("attempts", itoa message.recovery.attempts)
        ∷ ("dead_lettered_at", env.format_time now)
        ∷ ("dead_letter_reason", "max_receive_count")
        ∷ ("ordering_mode", queue_ordering_mode source)
        ∷ [];
  }

  -- `moveMessageToDeadLetterLocked`: the message and the recovery metadata after it, and whether
  -- it moved.
  unfoldable pub move_message_to_dead_letter :
      Queue → Message → Map RecoveryMetadata → Message × Map RecoveryMetadata × Bool
  move_message_to_dead_letter source message metadata =
      let dlq_name = trim source.recovery.dead_letter_queue in
      if dlq_name == "" || trim message.dead_letter_queue == dlq_name
      then (message, metadata, false)
      else (
        dead_lettered source dlq_name message,
        insert (source.name ++ "/" ++ message.message_id) (recovery_entry source dlq_name message)
            metadata,
        true,
      )

  unfoldable pub sweep_found :
      Message → Map RecoveryMetadata → Option Queue → Message × Map RecoveryMetadata × Bool
  sweep_found message metadata none = (message, metadata, false)
  sweep_found message metadata (some queue) =
      if is_dead_letter_eligible message queue now
      then move_message_to_dead_letter queue message metadata
      else (message, metadata, false)

  -- One round of the loop of `sweepDeadLettersLocked`.
  unfoldable pub sweep_message :
      Message → Map RecoveryMetadata → Message × Map RecoveryMetadata × Bool
  unfolding sweep_found
  sweep_message message metadata =
      sweep_found message metadata (active_queue_by_name message.queue queues)

  -- A round changes its own message alone, and no queue.
  unfoldable pub sweep_messages :
      List Message → Map RecoveryMetadata → ℕ → List Message × Map RecoveryMetadata × ℕ
  sweep_messages [] metadata mutated = ([], metadata, mutated)
  sweep_messages (m ∷ ms) metadata mutated =
      let (m', metadata', moved) = sweep_message m metadata in
      let (ms', metadata'', total) =
        sweep_messages ms metadata' (if moved then mutated + 1 else mutated) in
      (m' ∷ ms', metadata'', total)

-- `sweepDeadLettersLocked`: the commit is made only if a message moved, and its error is dropped.
unfoldable pub sweep_dead_letters : Env → ℕ → Time → Service → Service × ℕ
sweep_dead_letters env k now s =
    let (messages, metadata, mutated) =
      sweep_messages env s.state.queues now s.state.messages s.state.recovery_metadata 0 in
    let swept = record s {
      state = record (s.state) { messages = messages; recovery_metadata = metadata };
    } in
    (if ltb 0 mutated then commit_ignoring_error env k swept else swept, mutated)
