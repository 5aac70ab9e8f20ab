-- ===== src/Sqs/Send.antt =====
-- core/internal/resources/sqs/application/service.go: SendMessage, and what it and
-- SendMessageBatch enqueue.
pub mod Sequence
pub mod Duplicates
pub mod Resend
use Prim.Native.String.{◌++◌}
use mathlib.Core.List.{◌++◌ as append}
use mildstack.Prelude.{
  ℕ, zero, suc, ◌+◌, ◌-◌, ◌*◌, String, ◌==◌, Bool, true, false, not, ◌&&◌, ◌||◌, Option, none, some,
  List, [], ◌∷◌, Map, map, if◌then◌else◌, trim, equal_fold, ltb, leb, eqb, insert, get_text,
  string_lt, length,
}
use mildstack.Prelude.Numeral.{ℤ, pos, negsuc, itoa, atoi, is_positive, pos_part, wrap64}
use mildstack.Prelude.Sort.{stable_sort}
use mildstack.Sqs.Domain.{
  Time, zero_time, second, Queue, Message, MessageRecovery, State, no_message,
}
use mildstack.Sqs.Delivery.{is_fifo_queue}
use mildstack.Sqs.Service.{
  Env, Error, queue_name_required, queue_not_found, message_body_required, group_id_required,
  batch_entry_id_required, empty_batch_request, too_many_batch_entries, duplicate_batch_entry_ids,
  Result, ok, err, Service, Reply, commit, active_queue_by_name, message_visible_in_queue,
}
use mildstack.Sqs.Batch.{
  BatchResultErrorEntry, batch_failure_entry_with_code, has_duplicate_batch_entry_ids,
}

-- The fields of `MessageAttributeValue` that the service reads; bytes are text.
pub record MessageAttributeValue : Type 0 where
  pub string_value : String
  pub binary_value : String
  pub data_type : String

pub record SendMessageRequest : Type 0 where
  pub delay_seconds : ℤ
  pub message_attributes : Map MessageAttributeValue
  pub message_body : String
  pub message_deduplication_id : String
  pub message_group_id : String
  pub message_system_attributes : Map MessageAttributeValue

pub record SendMessageResult : Type 0 where
  pub md5_of_message_attributes : String
  pub md5_of_message_body : String
  pub md5_of_message_system_attributes : String
  pub message_id : String
  pub sequence_number : String

attribute_text : MessageAttributeValue → String
attribute_text value =
    if not (value.string_value == "")
    then value.string_value
    else if not (value.binary_value == "")
    then value.binary_value
    else value.data_type

-- `messageAttributesToStrings` and `messageSystemAttributesToStrings`, which are alike.
unfoldable pub message_attributes_to_strings : Map MessageAttributeValue → Map String
unfolding attribute_text
message_attributes_to_strings [] = []
message_attributes_to_strings ((key, value) ∷ rest) =
    (key, attribute_text value) ∷ message_attributes_to_strings rest

entry_lt : String × String → String × String → Bool
entry_lt (k, v) (j, w) = string_lt k j

spell_entries : Map String → String
spell_entries [] = ""
spell_entries ((key, value) ∷ rest) = key ++ "=" ++ value ++ ";" ++ spell_entries rest

unfoldable pub md5_of_map : Env → Map String → String
unfolding entry_lt spell_entries
md5_of_map env [] = ""
md5_of_map env (e ∷ es) = env.md5_hex (spell_entries (stable_sort entry_lt (e ∷ es)))

unfoldable pub resolve_fifo_message_deduplication_id : Env → Queue → SendMessageRequest → String
resolve_fifo_message_deduplication_id env queue request =
    let explicit = trim request.message_deduplication_id in
    if not (explicit == "")
    then explicit
    else if not (is_fifo_queue queue)
    then ""
    else if equal_fold (trim (get_text "ContentBasedDeduplication" queue.attributes)) "true"
    then env.md5_hex request.message_body
    else ""

-- Five minutes.
unfoldable pub fifo_deduplication_window : ℕ
unfolding second
fifo_deduplication_window = 300 * second

or_no_queue : Option Queue → String → String
or_no_queue none key = ""
or_no_queue (some queue) key = get_text key queue.attributes

unfoldable pub queue_attribute : String → String → List Queue → String
unfolding or_no_queue
queue_attribute queue_name key queues = or_no_queue (active_queue_by_name queue_name queues) key

-- The tests of the loop of `findDuplicateFIFOMessageLocked`.
unfoldable pub is_duplicate : Bool → String → String → String → Time → Message → Bool
is_duplicate group_scope queue_name group_id deduplication_id now message =
    if not (message_visible_in_queue message queue_name)
    then false
    else if not (trim (get_text "MessageDeduplicationId" message.metadata) == deduplication_id)
    then false
    else if group_scope && not (trim message.message_group_id == trim group_id)
    then false
    else not (ltb (message.sent_at + fifo_deduplication_window) now)

unfoldable pub first_with : (Message → Bool) → List Message → Option Message
first_with test [] = none
first_with test (m ∷ ms) = if test m then some m else first_with test ms

unfoldable pub find_duplicate_fifo_message :
    State → String → String → String → Time → Option Message
find_duplicate_fifo_message state queue_name group_id deduplication_id now =
    let scope = trim (queue_attribute queue_name "DeduplicationScope" state.queues) in
    first_with
      (is_duplicate (equal_fold scope "messagegroup") queue_name group_id deduplication_id now)
      state.messages

-- The body of the loop of `nextSequenceNumberLocked`: `best` is `maxSequence`.
unfoldable pub better_sequence : String → String → ℕ → Message → ℕ
better_sequence queue_name group_id best m =
    if not (trim m.queue == queue_name)
    then best
    else if not (trim group_id == "") && not (trim m.message_group_id == trim group_id)
    then best
    else if ltb best m.sequence_number
    then m.sequence_number
    else best

unfoldable pub max_sequence : String → String → ℕ → List Message → ℕ
unfolding better_sequence
max_sequence queue_name group_id best [] = best
max_sequence queue_name group_id best (m ∷ ms) =
    max_sequence queue_name group_id (better_sequence queue_name group_id best m) ms

unfoldable pub next_sequence_number : List Message → String → String → ℕ
unfolding max_sequence
next_sequence_number messages queue_name group_id = max_sequence queue_name group_id 0 messages + 1

-- `seconds` of `strconv.Atoi`, where an error or a negative number is 0.
or_zero : Option ℤ → ℕ
or_zero none = 0
or_zero (some z) = pos_part z

unfoldable pub parse_delay_seconds : String → ℕ
unfolding or_zero
parse_delay_seconds raw = if trim raw == "" then 0 else or_zero (atoi (trim raw))

-- `now.Add(duration)`
unfoldable pub add_duration : Time → ℤ → Time
add_duration now (pos n) = now + n
add_duration now (negsuc n) = now - suc n

unfoldable pub effective_delay_seconds : Queue → ℤ → ℕ
effective_delay_seconds queue requested =
    if is_positive requested
    then pos_part requested
    else parse_delay_seconds (get_text "DelaySeconds" queue.attributes)

-- A sequence number or nothing.
spell_sequence : ℕ → String
spell_sequence n = if ltb 0 n then itoa n else ""

unfoldable pub duplicate_result : Env → Message → SendMessageResult
unfolding spell_sequence
duplicate_result env existing = record {
  md5_of_message_body = env.md5_hex existing.body;
  message_id = existing.message_id;
  md5_of_message_attributes = md5_of_map env existing.attributes;
  md5_of_message_system_attributes = md5_of_map env existing.metadata;
  sequence_number = spell_sequence existing.sequence_number;
}

module _ (env : Env) (k : ℕ) (state : State) (queue_name : String) (queue : Queue) where
  -- The message that `enqueueMessageLocked` builds, with the `k`th identifier, at the `k`th reading
  -- of the clock.
  unfoldable pub new_message : SendMessageRequest → String → ℕ → ℕ → Message
  new_message request batch_entry_id batch_entry_index batch_entry_count =
      let now = env.clock k in
      let group_id = trim request.message_group_id in
      let deduplication_id = resolve_fifo_message_deduplication_id env queue request in
      let system = message_attributes_to_strings request.message_system_attributes in
      let delay = effective_delay_seconds queue request.delay_seconds in
      record no_message {
        queue = queue_name;
        message_id = env.fresh_id k;
        body = request.message_body;
        attributes = message_attributes_to_strings request.message_attributes;
        metadata =
            if deduplication_id == ""
            then system
            else insert "MessageDeduplicationId" deduplication_id system;
        message_group_id = group_id;
        sequence_number =
            if is_fifo_queue queue
            then next_sequence_number state.messages queue_name group_id
            else 0;
        batch_entry_id = trim batch_entry_id;
        batch_entry_index = batch_entry_index;
        batch_entry_count = batch_entry_count;
        sent_at = now;
        available_at =
            if ltb 0 delay then add_duration now (wrap64 (delay * second)) else zero_time;
      }

  unfoldable pub sent_result : SendMessageRequest → Message → SendMessageResult
  unfolding spell_sequence
  sent_result request message = record {
    md5_of_message_body = env.md5_hex request.message_body;
    message_id = message.message_id;
    sequence_number = spell_sequence message.sequence_number;
    md5_of_message_attributes =
        if ltb 0 (length request.message_attributes) then md5_of_map env message.attributes else "";
    md5_of_message_system_attributes =
        if ltb 0 (length request.message_system_attributes)
        then md5_of_map env message.metadata
        else "";
  }

  -- `enqueueMessageLocked`: a duplicate gives the message with no identifier.
  unfoldable pub enqueue_message :
      SendMessageRequest → String → ℕ → ℕ → Result (Message × SendMessageResult)
  enqueue_message request batch_entry_id batch_entry_index batch_entry_count =
      let group_id = trim request.message_group_id in
      let deduplication_id = resolve_fifo_message_deduplication_id env queue request in
      let message = new_message request batch_entry_id batch_entry_index batch_entry_count in
      let fresh : Result (Message × SendMessageResult) =
        ok (message, sent_result request message) in
      if is_fifo_queue queue && group_id == ""
      then err group_id_required
      else if is_fifo_queue queue && not (deduplication_id == "")
      then elim (find_duplicate_fifo_message state queue_name group_id deduplication_id
          (env.clock k)) [
            | none ↦ fresh
            | some existing ↦ ok (no_message, duplicate_result env existing)
          ]
      else fresh

abbrev pub with_messages : Service → List Message → Service
with_messages s messages = record s { state = record (s.state) { messages = messages } }

unfoldable pub append_sent :
    Env → Service → Result (Message × SendMessageResult) → Reply SendMessageResult
append_sent env s (err e) = (s, err e)
append_sent env s (ok (message, result)) =
    if message.message_id == ""
    then (s, ok result)
    else commit env 0 (with_messages s (append s.state.messages (message ∷ []))) result

unfoldable pub send_message : Env → String → SendMessageRequest → Service → Reply SendMessageResult
unfolding append_sent
send_message env raw_name request s =
    let queue_name = trim raw_name in
    if queue_name == ""
    then (s, err queue_name_required)
    else if trim request.message_body == ""
    then (s, err message_body_required)
    else elim (active_queue_by_name queue_name s.state.queues) [
      | none ↦ (s, err queue_not_found)
      | some queue ↦
          append_sent env s (enqueue_message env 0 s.state queue_name queue request "" 0 1)
    ]
