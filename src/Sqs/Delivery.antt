-- ===== src/Sqs/Delivery.antt =====
-- core/internal/resources/sqs/application/delivery_state.go: what a message's fields say about
-- its delivery at a given time.
pub mod Laws
use mildstack.Prelude.{
  ℕ, ◌+◌, ◌*◌, String, ◌==◌, Bool, true, false, not, ◌&&◌, ◌||◌, Option, none, some, List, [], ◌∷◌,
  Map, ltb, leb, if◌then◌else◌, trim, equal_fold, get_text,
}
use mildstack.Prelude.Numeral.{ℤ, pos, negsuc, atoi, is_positive, is_negative, wrap64, pos_part}
use mildstack.Sqs.Domain.{Time, is_zero, zero_time, second, Queue, Message}

abbrev pub lease_timeout_metadata_key : String
lease_timeout_metadata_key = "visibility_timeout_seconds"

abbrev pub default_visibility_timeout_seconds : ℕ
default_visibility_timeout_seconds = 30

unfoldable pub is_delayed : Message → Time → Bool
is_delayed message now = not (is_zero message.available_at) && ltb now message.available_at

-- `time.Duration(seconds) * time.Second`, an `int64` that may wrap.
unfoldable pub seconds_of : Option ℤ → ℤ
unfolding second
seconds_of none = pos 0
seconds_of (some (negsuc n)) = pos 0
seconds_of (some (pos n)) = wrap64 (n * second)

unfoldable pub parse_timeout_seconds : String → ℤ
unfolding seconds_of
parse_timeout_seconds raw = seconds_of (atoi (trim raw))

-- The result is positive on every branch, so it is kept as a natural number.
unfoldable pub visibility_timeout : Queue → Message → ℕ
unfolding second
visibility_timeout queue message =
    let leased = parse_timeout_seconds (get_text lease_timeout_metadata_key message.metadata) in
    let configured = parse_timeout_seconds (get_text "VisibilityTimeout" queue.attributes) in
    if is_positive leased
    then pos_part leased
    else if is_positive configured
    then pos_part configured
    else default_visibility_timeout_seconds * second

unfoldable pub lease_deadline : Message → Queue → Time
lease_deadline message queue =
    let timeout = visibility_timeout queue message in
    if leb timeout 0 || is_zero message.received_at
    then zero_time
    else message.received_at + timeout

unfoldable pub is_visible : Message → Queue → Time → Bool
unfolding is_delayed
is_visible message queue now =
    if is_delayed message now
    then false
    else if is_zero message.received_at
    then true
    else not (ltb now (lease_deadline message queue))

unfoldable pub is_invisible : Message → Queue → Time → Bool
unfolding is_visible
is_invisible message queue now = not (is_delayed message now) && not (is_visible message queue now)

last_or_empty : List String → String
last_or_empty [] = ""
last_or_empty (key ∷ []) = key
last_or_empty (key ∷ next ∷ keys) = last_or_empty (next ∷ keys)

unfoldable pub current_receipt_handle : Message → String
unfolding last_or_empty
current_receipt_handle message = last_or_empty message.receipt_keys

unfoldable pub can_redeliver : Message → Queue → Time → Bool
unfolding is_delayed
can_redeliver message queue now =
    let deadline = lease_deadline message queue in
    if is_delayed message now
    then false
    else not (is_zero message.received_at) && not (is_zero deadline) && not (ltb now deadline)

unfoldable pub is_fifo_queue : Queue → Bool
is_fifo_queue queue =
    equal_fold (trim queue.ordering_hint) "fifo"
    || equal_fold (trim (get_text "FifoQueue" queue.attributes)) "true"

-- A threshold that is missing, malformed or not positive is 0.
unfoldable pub threshold_of : Option ℤ → ℕ
threshold_of none = 0
threshold_of (some z) = if is_positive z then pos_part z else 0

unfoldable pub dead_letter_threshold : Queue → ℕ
unfolding threshold_of
dead_letter_threshold queue =
    threshold_of (atoi (trim (get_text "max_receive_count" queue.recovery.policy)))

unfoldable pub is_dead_letter_eligible : Message → Queue → Time → Bool
is_dead_letter_eligible message queue now =
    let threshold = dead_letter_threshold queue in
    if not (trim message.dead_letter_queue == "")
    then false
    else if leb threshold 0 || ltb message.recovery.attempts threshold
    then false
    else can_redeliver message queue now || is_visible message queue now
