-- ===== src/Sqs/Send/Duplicates.antt =====
-- findDuplicateFIFOMessageLocked of core/internal/resources/sqs/application/service.go, after a
-- message was stored.
use mathlib.Core.List.{◌++◌}
use mildstack.Prelude.{
  ℕ, ◌+◌, ◌≡◌, ◌≢◌, ◌≤◌, refl, String, ◌==◌, eq_iff, Bool, true, false, none, some, List, [], ◌∷◌,
  arith, trim, trim-empty, Bool-cases, inl, inr, get_text, get_text-insert, IsTrimmed,
}
use mildstack.Sqs.Domain.{Time, Queue, Message, State}
use mildstack.Sqs.Service.{Env, message_visible_in_queue}
use mildstack.Sqs.Send.{
  SendMessageRequest, is_duplicate, first_with, find_duplicate_fifo_message,
  fifo_deduplication_window, new_message, resolve_fifo_message_deduplication_id,
}

first_with-append :
    (test : Message → Bool) (ms : List Message) (m : Message)
    → first_with test ms ≡ none
    → test m ≡ true
    → first_with test (ms ++ m ∷ []) ≡ some m
unfolding first_with
first_with-append test [] m h e = rw e
first_with-append test (x ∷ ms) m h e = ground (arith, first_with-append test ms m)

-- Time only takes messages out of the window.
is_duplicate-later :
    (scope : Bool) (name group id : String) (now later : Time) (m : Message)
    → now ≤ later
    → is_duplicate scope name group id now m ≡ false
    → is_duplicate scope name group id later m ≡ false
unfolding is_duplicate
is_duplicate-later scope name group id now later m le h = ground arith

first_with-later :
    (scope : Bool) (name group id : String) (now later : Time) (ms : List Message)
    → now ≤ later
    → first_with (is_duplicate scope name group id now) ms ≡ none
    → first_with (is_duplicate scope name group id later) ms ≡ none
unfolding first_with
first_with-later scope name group id now later [] le h = refl
first_with-later scope name group id now later (m ∷ ms) le h = ground (
  arith,
  first_with-later scope name group id now later ms,
  is_duplicate-later scope name group id now later m,
)

is_duplicate-true :
    (scope : Bool) (name group id : String) (now : Time) (m : Message)
    → message_visible_in_queue m name ≡ true
    → trim (get_text "MessageDeduplicationId" m.metadata) ≡ id
    → trim m.message_group_id ≡ trim group
    → now ≤ m.sent_at + fifo_deduplication_window
    → is_duplicate scope name group id now m ≡ true
unfolding is_duplicate
is_duplicate-true scope name group id now m visible same grouped le = ground (
  arith,
  eq_iff (trim (get_text "MessageDeduplicationId" m.metadata)) id,
  eq_iff (trim m.message_group_id) (trim group),
)

-- A message that was never dead-lettered is visible in its queue.
visible_in_own :
    (m : Message) (name : String)
    → m.queue ≡ name
    → m.dead_letter_source_queue ≡ ""
    → name ≢ ""
    → message_visible_in_queue m name ≡ true
unfolding message_visible_in_queue
visible_in_own m name e d ne =
    let blank : trim m.dead_letter_source_queue ≡ "" = rw d trim-empty in
    ground (arith, eq_iff m.queue name, eq_iff (trim m.dead_letter_source_queue) name)

module _ (env : Env) (k : ℕ) (state : State) (name : String) (queue : Queue)
    (request : SendMessageRequest) (entry_id : String) (index count : ℕ) where
  abbrev pub sent : Message
  sent = new_message env k state name queue request entry_id index count

  abbrev pub dedup_id : String
  dedup_id = resolve_fifo_message_deduplication_id env queue request

  sent-dedup_id : dedup_id ≢ "" → get_text "MessageDeduplicationId" sent.metadata ≡ dedup_id
  unfolding new_message
  sent-dedup_id ne = elim (Bool-cases (dedup_id == "")) [
    | inl e ↦ absurd (ne ((eq_iff dedup_id "").0 e))
    | inr e ↦ rw e (get_text-insert "MessageDeduplicationId" "MessageDeduplicationId" dedup_id _)
  ]

  -- The message that was sent is a duplicate of itself until the window has passed.
  sent-is_duplicate :
      (scope : Bool) (later : Time)
      → name ≢ ""
      → dedup_id ≢ ""
      → IsTrimmed dedup_id
      → later ≤ env.clock k + fifo_deduplication_window
      → is_duplicate scope name (trim request.message_group_id) dedup_id later sent ≡ true
  sent-is_duplicate scope later named ne trimmed le =
      is_duplicate-true scope name (trim request.message_group_id) dedup_id later sent
        (visible_in_own sent name (unfold new_message in refl) (unfold new_message in refl) named)
        (rw (sent-dedup_id ne) trimmed) (unfold new_message in refl) (unfold new_message in le)

-- A message with a deduplication identifier that is trimmed and not blank, for a queue whose name is
-- not blank, that found no duplicate when it was stored is found by the search for its group and
-- identifier at any later time within the window.
pub sent_is_found :
    (env : Env) (k : ℕ) (state : State) (name : String) (queue : Queue)
    (request : SendMessageRequest) (later : Time)
    → name ≢ ""
    → dedup_id env k state name queue request "" 0 1 ≢ ""
    → IsTrimmed (dedup_id env k state name queue request "" 0 1)
    → find_duplicate_fifo_message state name
        (trim request.message_group_id)
        (dedup_id env k state name queue request "" 0 1)
        (env.clock k)
      ≡ none
    → env.clock k ≤ later
    → later ≤ env.clock k + fifo_deduplication_window
    → find_duplicate_fifo_message
        (record state {
          messages = state.messages ++ sent env k state name queue request "" 0 1 ∷ [];
        })
        name
        (trim request.message_group_id)
        (dedup_id env k state name queue request "" 0 1)
        later
      ≡ some (sent env k state name queue request "" 0 1)
unfolding find_duplicate_fifo_message
sent_is_found env k state name queue request later named ne trimmed fresh le window =
    first_with-append _ state.messages _
      (first_with-later _ name (trim request.message_group_id) _ (env.clock k) later state.messages
        le fresh)
      (sent-is_duplicate env k state name queue request "" 0 1 _ later named ne trimmed window)
