-- ===== src/Sqs/Receive.antt =====
-- core/internal/resources/sqs/application/service.go: ReceiveMessage,
-- receiveReadyMessagesLocked and the order of delivery.
pub mod Selection
pub mod Leases
pub mod Lease
pub mod Fifo
pub mod Polling
pub mod Outcome
use Prim.Native.String.{◌++◌}
use mathlib.Core.List.{◌++◌ as append}
use mildstack.Prelude.{
  ℕ, zero, suc, ◌+◌, ◌-◌, ◌*◌, ◌/◌, String, ◌==◌, Bool, true, false, not, ◌&&◌, ◌||◌, Option, none,
  some, List, [], ◌∷◌, if◌then◌else◌, trim, ltb, leb, eqb, insert, get_text, string_lt, get_elem?,
  set, length,
}
use mildstack.Prelude.Numeral.{
  ℤ, pos, negsuc, itoa, is_positive, is_negative, pos_part, wrap64, atoi,
}
use mildstack.Prelude.Sort.{stable_sort}
use mildstack.Sqs.Domain.{Time, second, Queue, Message, MessageRecovery, State}
use mildstack.Sqs.Delivery.{is_delayed, is_invisible, is_fifo_queue}
use mildstack.Sqs.Service.{
  Env, Error, queue_name_required, queue_not_found, Result, ok, err, Service, Reply, commit,
  active_queue_by_name, message_visible_in_queue, lease_visibility_timeout_meta_key,
}
use mildstack.Sqs.DeadLetter.{sweep_dead_letters}

unfoldable pub max_long_poll_wait : ℕ
unfolding second
max_long_poll_wait = 20 * second

abbrev pub max_receive_messages : ℕ
max_receive_messages = 10

-- `workerPollInterval`
unfoldable pub worker_poll_interval : ℕ
worker_poll_interval = 50_000_000

-- `compareFIFOMessageOrder`, as `Ordering`: the left message comes before, beside or after.
pub data Order : Type 0 where
  before same after : Order

unfoldable pub compare_fifo_message_order : Message → Message → Order
compare_fifo_message_order left right =
    if ltb 0 left.sequence_number
      && ltb 0 right.sequence_number
      && not (eqb left.sequence_number right.sequence_number)
    then (if ltb left.sequence_number right.sequence_number then before else after)
    else if not (eqb left.sent_at right.sent_at)
    then (if ltb left.sent_at right.sent_at then before else after)
    else if not (eqb left.available_at right.available_at)
    then (if ltb left.available_at right.available_at then before else after)
    else if string_lt left.message_id right.message_id
    then before
    else if string_lt right.message_id left.message_id
    then after
    else same

unfoldable pub is_before : Order → Bool
is_before before = true
is_before same = false
is_before after = false

-- The body of the loop of `fifoDeliveryBlocked`: `other` holds the candidate back.
unfoldable pub blocks : String → String → Message → Message → Bool
unfolding is_before
blocks queue_name group_id candidate other =
    message_visible_in_queue other queue_name
    && trim other.message_group_id == group_id
    && is_before (compare_fifo_message_order other candidate)

-- The loop, over the messages from index `idx` on.
unfoldable pub blocked_from : String → String → Message → ℕ → ℕ → List Message → Bool
blocked_from queue_name group_id candidate skip idx [] = false
blocked_from queue_name group_id candidate skip idx (other ∷ rest) =
    (not (eqb idx skip) && blocks queue_name group_id candidate other)
    || blocked_from queue_name group_id candidate skip (suc idx) rest

unfoldable pub fifo_delivery_blocked : List Message → ℕ → Message → String → Bool
unfolding blocked_from
fifo_delivery_blocked messages candidate_index candidate queue_name =
    let group_id = trim candidate.message_group_id in
    if group_id == ""
    then false
    else blocked_from queue_name group_id candidate candidate_index 0 messages

-- The tests of the first loop of `receiveReadyMessagesLocked`.
unfoldable pub is_ready : List Message → String → Queue → Time → ℕ → Message → Bool
is_ready messages queue_name queue now idx message =
    if not (message_visible_in_queue message queue_name)
    then false
    else if is_delayed message now || is_invisible message queue now
    then false
    else not (is_fifo_queue queue && fifo_delivery_blocked messages idx message queue_name)

-- The indices of the ready messages, over the messages from index `idx` on.
unfoldable pub ready_from : List Message → String → Queue → Time → ℕ → List Message → List ℕ
ready_from messages queue_name queue now idx [] = []
ready_from messages queue_name queue now idx (m ∷ ms) =
    let rest = ready_from messages queue_name queue now (suc idx) ms in
    if is_ready messages queue_name queue now idx m then idx ∷ rest else rest

-- The test of `sortMessagesByDelivery` on two messages.
unfoldable pub delivery_less : Queue → Message → Message → Bool
delivery_less queue left right =
    if is_fifo_queue queue && not (left.message_group_id == right.message_group_id)
    then string_lt left.message_group_id right.message_group_id
    else if is_fifo_queue queue
        && not (eqb left.sequence_number right.sequence_number)
        && ltb 0 left.sequence_number
        && ltb 0 right.sequence_number
    then ltb left.sequence_number right.sequence_number
    else if not (eqb left.sent_at right.sent_at)
    then ltb left.sent_at right.sent_at
    else if not (eqb left.available_at right.available_at)
    then ltb left.available_at right.available_at
    else string_lt left.message_id right.message_id

both_less : Queue → Option Message → Option Message → Bool
both_less queue none right = false
both_less queue (some left) none = false
both_less queue (some left) (some right) = delivery_less queue left right

unfoldable pub sort_messages_by_delivery : List Message → List ℕ → Queue → List ℕ
unfolding both_less
sort_messages_by_delivery messages indices queue =
    stable_sort (λ i j. both_less queue (get_elem? messages i) (get_elem? messages j)) indices

unfoldable pub default_visibility_timeout : ℕ
unfolding second
default_visibility_timeout = 30 * second

-- `time.Duration(seconds) * time.Second` of what `strconv.Atoi` reads.
unfoldable pub message_seconds : Option ℤ → ℤ
unfolding second is_negative
message_seconds none = pos 0
message_seconds (some seconds) =
    if is_negative seconds then pos 0 else wrap64 (pos_part seconds * second)

unfoldable pub parse_message_visibility_timeout : String → ℤ
unfolding message_seconds
parse_message_visibility_timeout raw =
    if trim raw == "" then pos 0 else message_seconds (atoi (trim raw))

unfoldable pub queue_visibility_timeout : Queue → Message → ℕ
queue_visibility_timeout queue message =
    let leased =
      parse_message_visibility_timeout
        (get_text lease_visibility_timeout_meta_key message.metadata) in
    let configured =
      parse_message_visibility_timeout (get_text "VisibilityTimeout" queue.attributes) in
    if is_positive leased
    then pos_part leased
    else if is_positive configured
    then pos_part configured
    else default_visibility_timeout

unfoldable pub next_receipt_handle : String → Message → String
next_receipt_handle queue_name message =
    queue_name ++ "/" ++ message.message_id ++ "/" ++ itoa (length message.receipt_keys + 1)

-- `approximate_first_receive_timestamp` is set at the first receipt: `now.UnixMilli()` of a time
-- counts from 1970.
unfoldable pub unix_milli : Time → ℕ
unix_milli now = (now - 62_135_596_800_000_000_000) / 1_000_000

unfoldable pub stamp_first_receive : Time → Message → Message
unfolding unix_milli
stamp_first_receive now message =
    if trim (get_text "approximate_first_receive_timestamp" message.metadata) == ""
    then record message {
      metadata =
          insert "approximate_first_receive_timestamp" (itoa (unix_milli now)) message.metadata;
    }
    else message

-- The body of the second loop of `receiveReadyMessagesLocked`: the message is leased.
unfoldable pub lease_message : String → Queue → Time → Message → Message
unfolding stamp_first_receive second
lease_message queue_name queue now message =
    let stamped = stamp_first_receive now message in
    let timeout = queue_visibility_timeout queue stamped in
    record stamped {
      received_at = now;
      recovery = record (stamped.recovery) { attempts = stamped.recovery.attempts + 1 };
      metadata =
          insert lease_visibility_timeout_meta_key (itoa (timeout / second)) stamped.metadata;
      receipt_keys = append stamped.receipt_keys (next_receipt_handle queue_name stamped ∷ []);
    }

-- The loop: the messages after it, and those selected; it stops when `room` are.
unfoldable pub lease_loop :
    String → Queue → Time → List ℕ → ℕ → List Message → List Message × List Message
lease_loop queue_name queue now [] room messages = (messages, [])
lease_loop queue_name queue now (idx ∷ indices) zero messages = (messages, [])
lease_loop queue_name queue now (idx ∷ indices) (suc room) messages =
    elim (get_elem? messages idx) [
      | none ↦ (messages, [])
      | some message ↦
          let leased = lease_message queue_name queue now message in
          let rest = lease_loop queue_name queue now indices room (set messages idx leased) in
          (rest.0, leased ∷ rest.1)
    ]

-- Nothing is committed where nothing was selected.
unfoldable pub commit_leases :
    Env → ℕ → Service → List Message × List Message → Reply (List Message)
commit_leases env k s (messages, []) =
    (record s { state = record (s.state) { messages = messages } }, ok [])
commit_leases env k s (messages, first ∷ others) =
    commit env k (record s { state = record (s.state) { messages = messages } }) (first ∷ others)

unfoldable pub receive_in_queue :
    Env → ℕ → String → ℕ → Time → Service → Queue → Reply (List Message)
unfolding commit_leases
receive_in_queue env k queue_name max_messages now s queue =
    let messages = s.state.messages in
    let indices =
      sort_messages_by_delivery messages (ready_from messages queue_name queue now 0 messages)
        queue in
    commit_leases env k s (lease_loop queue_name queue now indices max_messages messages)

unfoldable pub receive_found :
    Env → ℕ → String → ℕ → Time → Service → Option Queue → Reply (List Message)
receive_found env k queue_name max_messages now s none = (s, err queue_not_found)
receive_found env k queue_name max_messages now s (some queue) =
    receive_in_queue env (suc k) queue_name max_messages now s queue

unfoldable pub receive_ready_messages : Env → ℕ → String → ℕ → Time → Service → Reply (List Message)
receive_ready_messages env k queue_name max_messages now s =
    let swept = (sweep_dead_letters env k now s).0 in
    receive_found env k queue_name max_messages now swept
      (active_queue_by_name queue_name swept.state.queues)

-- The bounds that `ReceiveMessage` puts on its arguments; a negative number counts as 0 here.
unfoldable pub clamp_max_messages : ℤ → ℕ
clamp_max_messages requested =
    if not (is_positive requested)
    then 1
    else if ltb max_receive_messages (pos_part requested)
    then max_receive_messages
    else pos_part requested

unfoldable pub clamp_wait_time : ℤ → ℕ
unfolding max_long_poll_wait
clamp_wait_time wait =
    if ltb max_long_poll_wait (pos_part wait) then max_long_poll_wait else pos_part wait

-- What ends the loop of `ReceiveMessage`: an error, a message, no wait, or the deadline.
unfoldable pub after_round :
    ℕ
    → Bool
    → Service
    → Result (List Message)
    → Option (Reply (List Message))
    → Option (Reply (List Message))
after_round wait early s (err e) rest = some (s, err e)
after_round wait early s (ok (m ∷ ms)) rest = some (s, ok (m ∷ ms))
after_round wait early s (ok []) rest = if eqb wait 0 || not early then some (s, ok []) else rest

-- The loop of `ReceiveMessage`, on fuel: `none` means that the fuel ran out. Round `k` reads the
-- clock for the `k + 1`st time and may save twice. While it sleeps the lock is free, and `others k`
-- is what other calls do to the service then.
unfoldable pub poll_loop :
    Env
    → (ℕ → Service → Service)
    → String
    → ℕ
    → ℕ
    → Time
    → ℕ
    → ℕ
    → Service
    → Option (Reply (List Message))
poll_loop env others queue_name max_messages wait deadline zero k s = none
poll_loop env others queue_name max_messages wait deadline (suc fuel) k s =
    let now = env.clock (suc k) in
    let round = receive_ready_messages env (k + k) queue_name max_messages now s in
    let rest =
      poll_loop env others queue_name max_messages wait deadline fuel (suc k) (others k round.0) in
    after_round wait (ltb now deadline) round.0 round.1 rest

-- Enough for a wait of at most twenty seconds in sleeps of fifty milliseconds.
abbrev pub poll_fuel : ℕ
poll_fuel = 402

unfoldable pub receive_message :
    Env → (ℕ → Service → Service) → String → ℤ → ℤ → Service → Option (Reply (List Message))
receive_message env others queue_name max_messages wait s =
    let name = trim queue_name in
    let wait_time = clamp_wait_time wait in
    if name == ""
    then some (s, err queue_name_required)
    else poll_loop env others name (clamp_max_messages max_messages) wait_time
        (env.clock 0 + wait_time) poll_fuel 0 s
