-- ===== src/Sqs/Examples/Sending.antt =====
-- The theorems on sending, on concrete queues.
use mathlib.Core.List.{◌++◌}
use mildstack.Prelude.{
  ◌≡◌, ◌≢◌, refl, [], ◌∷◌, true, List, ap, arith, String, eq_iff, some, none, trim, All, equal_fold,
  get_text,
}
use mildstack.Prelude.Text.{IsTrimmed}
use mildstack.Prelude.Numeral.{pos, itoa}
use mildstack.Sqs.Domain.{Queue}
use mildstack.Sqs.Service.{
  Env, Service, ok, Result, active_queue_by_name, message_visible_in_queue, commit,
}
use mildstack.Sqs.Delivery.{is_fifo_queue}
use mildstack.Sqs.Receive.{compare_fifo_message_order, before}
use mildstack.Sqs.Send.{
  SendMessageRequest, SendMessageResult, send_message, sent_result, new_message,
  find_duplicate_fifo_message, resolve_fifo_message_deduplication_id, fifo_deduplication_window,
  enqueue_message, first_with, is_duplicate,
}
use mildstack.Sqs.Send.Sequence.{new_message-behind}
use mildstack.Sqs.Send.Duplicates.{sent, dedup_id, sent_is_found}
use mildstack.Sqs.Send.Resend.{Sent, send_message_stores}
use mildstack.Sqs.SendBatch.{SendMessageBatchRequestEntry, send_entries}
use mildstack.Sqs.SendBatch.Laws.{send_entries-Answered, Answered}
use mildstack.Sqs.SendBatch.Stored.{send_entries-Stored, StoredFor}
use mildstack.Sqs.Examples.{env_from, fifo, grouped, service_of}

abbrev here : Env
here = env_from 100

abbrev request : SendMessageRequest
request = record {
  delay_seconds = pos 0;
  message_attributes = [];
  message_body = "hello";
  message_deduplication_id = "once";
  message_group_id = "g";
  message_system_attributes = [];
}

abbrev line : Service
line = service_of (fifo ∷ []) (grouped "a" 1 ∷ [])

abbrev after : Service
after = (send_message here "f" request line).0

abbrev answer : SendMessageResult
answer =
    sent_result here 0 line.state "f" fifo request
      (new_message here 0 line.state "f" fifo request "" 0 1)

answered : (send_message here "f" request line).1 ≡ ok answer
unfolding send_message trim active_queue_by_name enqueue_message is_fifo_queue equal_fold get_text
    resolve_fifo_message_deduplication_id find_duplicate_fifo_message first_with is_duplicate
    message_visible_in_queue new_message itoa commit
answered = refl

was_sent : send_message here "f" request line ≡ (after, ok answer)
was_sent = ap (λ (r : Result SendMessageResult). (after, r)) answered

named : here.fresh_id 0 ≢ ""
unfolding itoa
named = λ e. ground (arith, eq_iff (here.fresh_id 0) "")

send_message_stores_example :
    (queue : Queue) × (active_queue_by_name (trim "f") line.state.queues ≡ some queue)
    × Sent here (trim "f") queue request line after answer
send_message_stores_example = send_message_stores here "f" request line after answer named was_sent

fifo_is : is_fifo_queue fifo ≡ true
unfolding is_fifo_queue equal_fold trim get_text
fifo_is = refl

same_queue : trim (grouped "a" 1).queue ≡ "f"
unfolding trim
same_queue = refl

new_message-behind_example :
    compare_fifo_message_order
      (grouped "a" 1)
      (new_message here 0 line.state "f" fifo request "" 0 1)
    ≡ before
new_message-behind_example =
    new_message-behind here 0 line.state "f" fifo request "" 0 1 0 (grouped "a" 1) fifo_is refl
      same_queue refl (omega arith)

abbrev once : String
once = dedup_id here 0 line.state "f" fifo request "" 0 1

abbrev word : String
word = "once"

once_is : once ≡ word
unfolding resolve_fifo_message_deduplication_id trim
once_is = refl

word_not_blank : word ≢ ""
word_not_blank = λ e. ground (arith, eq_iff word "")

keyed : once ≢ ""
keyed = rw once_is word_not_blank

trimmed : IsTrimmed once
unfolding trim resolve_fifo_message_deduplication_id
trimmed = refl

not_yet : find_duplicate_fifo_message line.state "f" (trim "g") once (here.clock 0) ≡ none
unfolding find_duplicate_fifo_message first_with is_duplicate message_visible_in_queue trim get_text
    resolve_fifo_message_deduplication_id
not_yet = refl

sent_is_found_example :
    find_duplicate_fifo_message
      (record (line.state) {
        messages = line.state.messages ++ sent here 0 line.state "f" fifo request "" 0 1 ∷ [];
      })
      "f"
      (trim "g")
      once
      (here.clock 1)
    ≡ some (sent here 0 line.state "f" fifo request "" 0 1)
sent_is_found_example =
    sent_is_found here 0 line.state "f" fifo request (here.clock 1)
      (λ e. ground (arith, eq_iff "f" "")) keyed trimmed not_yet (omega arith)
      (unfold fifo_deduplication_window in omega arith)

abbrev entry : String → SendMessageBatchRequestEntry
entry id = record { id = id; request = request }

abbrev entries : List SendMessageBatchRequestEntry
entries = entry "x" ∷ entry "y" ∷ []

send_entries-Answered_example :
    let (pending, result) = send_entries here line "f" fifo 2 0 entries in
    Answered fifo entries pending result.successful result.failed
send_entries-Answered_example = send_entries-Answered here line "f" fifo 2 0 entries

send_entries-Stored_example :
    All (StoredFor here line "f" fifo 2 0 entries) (send_entries here line "f" fifo 2 0 entries).0
send_entries-Stored_example = send_entries-Stored here line "f" fifo 2 0 entries fifo_is
