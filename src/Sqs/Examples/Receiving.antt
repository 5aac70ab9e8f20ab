-- ===== src/Sqs/Examples/Receiving.antt =====
-- The theorems on receiving, on concrete queues.
use mildstack.Prelude.Sort.{stable_sort, insertion_rounds, sift}
use mildstack.Sqs.DeadLetter.{
  sweep_dead_letters, sweep_messages, sweep_message, dead_lettered, move_message_to_dead_letter,
  queue_ordering_mode, recovery_entry, sweep_found, target_queue,
}
use mildstack.Prelude.{
  ◌≡◌, refl, [], ◌∷◌, true, false, List, leb, ◌*◌, ◌+◌, trim, eq_iff, ◌≢◌, arith, some, get_text,
  equal_fold, ap, insert, lookup, drop_space, fold_code, is_space, trim_left, trim_right,
}
use mildstack.Prelude.Numeral.{
  pos, is_positive, atoi, int64_bound, digit, in_negative_range, in_range, is_digit, itoa, scan,
  unsigned, wrap64,
}
use mildstack.Sqs.Domain.{second, Message}
use mildstack.Sqs.Service.{
  Env, Service, ok, Result, Reply, message_visible_in_queue, active_queue_by_name, commit,
  commit_ignoring_error, publish_snapshot, save_succeeds, saved,
}
use mildstack.Sqs.Delivery.{
  is_delayed, is_visible, visibility_timeout, is_fifo_queue, parse_timeout_seconds, is_invisible,
  is_dead_letter_eligible, dead_letter_threshold, can_redeliver, lease_deadline, seconds_of,
  threshold_of,
}
use mildstack.Sqs.Receive.{
  receive_ready_messages, is_ready, lease_message, receive_message, clamp_wait_time, is_before,
  compare_fifo_message_order, worker_poll_interval, fifo_delivery_blocked, blocks, receive_found,
  receive_in_queue, lease_loop, sort_messages_by_delivery, ready_from, blocked_from, commit_leases,
  delivery_less, next_receipt_handle, parse_message_visibility_timeout, queue_visibility_timeout,
  default_visibility_timeout, stamp_first_receive, unix_milli,
}
use mildstack.Sqs.Receive.Selection.{ReadyAt}
use mildstack.Sqs.Receive.Outcome.{receive_leases, Received}
use mildstack.Sqs.Receive.Lease.{lease_window, visibility_timeouts_agree}
use mildstack.Sqs.Receive.Fifo.{fifo_first, fifo_one_per_group}
use mildstack.Sqs.Receive.Polling.{receive_message_returns, SleepsOn}
use mildstack.Sqs.Examples.{env_from, plain, fifo, in_queue, grouped, service_of}

abbrev here : Env
here = env_from 100

-- Two messages in a queue, of which a call with room for one leases the first.
abbrev two : Service
two = service_of (plain "q" ∷ []) (in_queue "q" "a" ∷ in_queue "q" "b" ∷ [])

abbrev after : Service
after = (receive_ready_messages here 0 "q" 1 second two).0

abbrev first_leased : List Message
first_leased = lease_message "q" (plain "q") second (in_queue "q" "a") ∷ []

returned : (receive_ready_messages here 0 "q" 1 second two).1 ≡ ok first_leased
unfolding receive_ready_messages receive_found active_queue_by_name sweep_dead_letters
    sweep_messages sweep_message is_dead_letter_eligible trim dead_letter_threshold atoi get_text
    receive_in_queue lease_loop sort_messages_by_delivery stable_sort ready_from is_ready
    message_visible_in_queue insert lookup digit in_negative_range in_range int64_bound is_digit
    is_positive itoa scan unsigned wrap64 insertion_rounds sift drop_space equal_fold fold_code
    is_space trim_left trim_right dead_lettered move_message_to_dead_letter queue_ordering_mode
    recovery_entry sweep_found target_queue can_redeliver default_visibility_timeout is_delayed
    is_fifo_queue is_invisible is_visible lease_deadline parse_timeout_seconds seconds_of
    threshold_of visibility_timeout second blocked_from blocks commit_leases
    compare_fifo_message_order delivery_less fifo_delivery_blocked is_before lease_message
    next_receipt_handle parse_message_visibility_timeout queue_visibility_timeout
    stamp_first_receive unix_milli commit commit_ignoring_error publish_snapshot save_succeeds saved
returned = refl

one_returned : receive_ready_messages here 0 "q" 1 second two ≡ (after, ok first_leased)
one_returned = ap (λ (r : Result (List Message)). (after, r)) returned

receive_leases_example : Received here 0 "q" 1 second two after first_leased
receive_leases_example = receive_leases here 0 "q" 1 second two after first_leased one_returned

thirty_seconds : visibility_timeout (plain "q") (in_queue "q" "a") ≡ 30 * second
unfolding visibility_timeout second is_positive parse_timeout_seconds atoi trim get_text
    default_visibility_timeout
thirty_seconds = refl

not_delayed : is_delayed (in_queue "q" "a") second ≡ false
unfolding is_delayed
not_delayed = refl

lease_window_example :
    is_visible (lease_message "q" (plain "q") second (in_queue "q" "a")) (plain "q") (40 * second)
    ≡ leb (second + 30 * second) (40 * second)
unfolding int64_bound
lease_window_example =
    lease_window "q" (plain "q") second (in_queue "q" "a") 30 thirty_seconds
      (unfold second in omega arith) (unfold second in omega arith) not_delayed (40 * second)
      (unfold second in omega arith)

-- A FIFO queue with two messages of one group, of which the first is ready.
abbrev line : List Message
line = grouped "a" 1 ∷ grouped "b" 2 ∷ []

first_ready : ReadyAt line "f" fifo second 0
unfolding is_ready message_visible_in_queue trim is_delayed is_invisible is_fifo_queue equal_fold
    get_text fifo_delivery_blocked blocks compare_fifo_message_order
first_ready = record { message = grouped "a" 1; found = refl; ready = refl }

fifo_is : is_fifo_queue fifo ≡ true
unfolding is_fifo_queue equal_fold trim get_text
fifo_is = refl

grouped_is : trim (grouped "a" 1).message_group_id ≢ ""
unfolding trim
grouped_is = λ e. ground (arith, eq_iff (trim (grouped "a" 1).message_group_id) "")

b_is_there : message_visible_in_queue (grouped "b" 2) "f" ≡ true
unfolding message_visible_in_queue trim
b_is_there = refl

fifo_first_example : is_before (compare_fifo_message_order (grouped "b" 2) (grouped "a" 1)) ≡ false
unfolding first_ready
fifo_first_example =
    fifo_first line "f" fifo second 0 1 first_ready (grouped "b" 2) fifo_is grouped_is
      (λ e. absurd (omega arith)) refl b_is_there refl

-- One message twice.
abbrev doubled : List Message
doubled = grouped "a" 1 ∷ grouped "a" 1 ∷ []

doubled_ready : ReadyAt doubled "f" fifo second 0
unfolding is_ready message_visible_in_queue trim is_delayed is_invisible is_fifo_queue equal_fold
    get_text fifo_delivery_blocked blocks compare_fifo_message_order
doubled_ready = record { message = grouped "a" 1; found = refl; ready = refl }

again_ready : ReadyAt doubled "f" fifo second 1
unfolding is_ready message_visible_in_queue trim is_delayed is_invisible is_fifo_queue equal_fold
    get_text fifo_delivery_blocked blocks compare_fifo_message_order
again_ready = record { message = grouped "a" 1; found = refl; ready = refl }

fifo_one_per_group_example : again_ready.message.message_id ≡ doubled_ready.message.message_id
unfolding doubled_ready again_ready
fifo_one_per_group_example =
    fifo_one_per_group doubled "f" fifo second 0 1 doubled_ready again_ready fifo_is grouped_is
      (λ e. absurd (omega arith)) refl

-- A clock that gains ten seconds with each reading outlasts every pause between two rounds.
steady : SleepsOn here (here.clock 0 + clamp_wait_time (pos (5 * second)))
unfolding clamp_wait_time worker_poll_interval
steady k = omega arith

receive_message_returns_example :
    (r : Reply (List Message)) × (receive_message here
        (λ k s. s)
        "empty"
        (pos 1)
        (pos (5 * second))
        two
      ≡ some r)
receive_message_returns_example =
    receive_message_returns here (λ k s. s) "empty" (pos 1) (pos (5 * second)) two (omega arith)
      steady

visibility_timeouts_agree_example :
    queue_visibility_timeout (plain "q") (in_queue "q" "a")
    ≡ visibility_timeout (plain "q") (in_queue "q" "a")
visibility_timeouts_agree_example = visibility_timeouts_agree (plain "q") (in_queue "q" "a")
