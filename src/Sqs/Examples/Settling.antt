-- ===== src/Sqs/Examples/Settling.antt =====
-- The theorems on dead letters, acknowledgement and visibility, on concrete queues.
use mildstack.Prelude.{
  ◌≡◌, ◌≢◌, ◌↔◌, refl, [], ◌∷◌, true, false, ℕ, ap, arith, ◌+◌, ◌*◌, eq_iff, some, trim, length,
  get_elem?, leb, get_text,
}
use mildstack.Prelude.Numeral.{pos, int64_bound, is_negative, atoi, is_positive}
use mildstack.Sqs.Domain.{second, Message}
use mildstack.Sqs.Service.{
  Env, Service, ok, Result, active_queue_by_name, message_visible_in_queue, commit,
}
use mildstack.Sqs.Delivery.{
  is_dead_letter_eligible, is_delayed, is_visible, current_receipt_handle, dead_letter_threshold,
  can_redeliver, lease_deadline, visibility_timeout, parse_timeout_seconds,
}
use mildstack.Sqs.DeadLetter.{sweep_dead_letters}
use mildstack.Sqs.DeadLetter.Placement.{Marked}
use mildstack.Sqs.DeadLetter.Sweeps.{sweep_moves, sweep_moves_eligible, SweptAt, sweep_idempotent}
use mildstack.Sqs.Acknowledge.{delete_message, find_message_by_receipt, index_from, holds_receipt}
use mildstack.Sqs.Acknowledge.Laws.{delete_message_removes, Removed}
use mildstack.Sqs.Acknowledge.Refusal.{delete_message-Refused, Refused, AnsweredWithError}
use mildstack.Sqs.Visibility.{change_message_visibility, set_visibility}
use mildstack.Sqs.Visibility.Laws.{change_message_visibility_sets, set_visibility_window, Changed}
use mildstack.Sqs.Examples.{env_from, plain, guarded, in_queue, service_of}

abbrev here : Env
here = env_from 100

-- A message that was received twice and whose lease has run out, and a fresh one.
abbrev tried : Message
tried = record (in_queue "q" "a") {
  received_at = 1;
  receipt_keys = "h" ∷ [];
  recovery = record { attempts = 2; detail = [] };
}

abbrev pair : Service
pair = service_of (guarded ∷ plain "d" ∷ []) (tried ∷ in_queue "q" "b" ∷ [])

abbrev later : ℕ
later = 100_000_000_000

sweep_moves_example :
    (length (sweep_dead_letters here 0 later pair).0.state.messages ≡ 2)
    × SweptAt later pair 0 tried (sweep_dead_letters here 0 later pair).0.state.messages
sweep_moves_example = sweep_moves here 0 later pair 0 tried refl

found_active : active_queue_by_name "q" pair.state.queues ≡ some guarded
unfolding active_queue_by_name
found_active = refl

is_eligible : is_dead_letter_eligible tried guarded later ≡ true
unfolding is_dead_letter_eligible trim dead_letter_threshold atoi get_text is_positive can_redeliver
    lease_deadline visibility_timeout parse_timeout_seconds
is_eligible = refl

names_one : trim guarded.recovery.dead_letter_queue ≢ ""
unfolding trim
names_one = λ e. ground (arith, eq_iff "d" "")

dlq_active :
    active_queue_by_name (trim guarded.recovery.dead_letter_queue) pair.state.queues
    ≡ some (plain "d")
unfolding active_queue_by_name trim
dlq_active = refl

sweep_moves_eligible_example :
    (m' : Message) × (get_elem? (sweep_dead_letters here 0 later pair).0.state.messages 0 ≡ some m')
    × (m'.queue ≡ trim guarded.recovery.dead_letter_queue)
    × Marked later guarded (trim guarded.recovery.dead_letter_queue) tried m'
sweep_moves_eligible_example =
    sweep_moves_eligible here 0 later pair 0 tried guarded (plain "d") refl found_active is_eligible
      names_one dlq_active

sweep_idempotent_example :
    sweep_dead_letters here 1 later (sweep_dead_letters here 0 later pair).0
    ≡ ((sweep_dead_letters here 0 later pair).0, 0)
sweep_idempotent_example = sweep_idempotent here 0 1 later pair

abbrev deleted : Service
deleted = (delete_message here "q" "h" pair).0

accepted : (delete_message here "q" "h" pair).1 ≡ ok tt
unfolding delete_message trim find_message_by_receipt active_queue_by_name index_from holds_receipt
    message_visible_in_queue current_receipt_handle commit
accepted = refl

delete_message_removes_example : Removed (trim "q") (trim "h") pair deleted
delete_message_removes_example =
    delete_message_removes here "q" "h" pair deleted
      (ap (λ (r : Result (Unit {0})). (deleted, r)) accepted)

delete_message-Refused_example :
    Refused (trim "q") (trim "other") pair ↔ AnsweredWithError here "q" "other" pair
delete_message-Refused_example = delete_message-Refused here "q" "other" pair

abbrev changed : Service
changed = (change_message_visibility here "q" "h" (pos 5_000_000_000) pair).0

allowed : (change_message_visibility here "q" "h" (pos 5_000_000_000) pair).1 ≡ ok tt
unfolding change_message_visibility trim is_negative find_message_by_receipt active_queue_by_name
    index_from holds_receipt message_visible_in_queue current_receipt_handle commit
allowed = refl

change_message_visibility_sets_example :
    Changed here (trim "q") (trim "h") (pos 5_000_000_000) pair changed
change_message_visibility_sets_example =
    change_message_visibility_sets here "q" "h" (pos 5_000_000_000) pair changed
      (ap (λ (r : Result (Unit {0})). (changed, r)) allowed)

not_delayed : is_delayed tried later ≡ false
unfolding is_delayed
not_delayed = refl

set_visibility_window_example :
    is_visible (set_visibility later (5 * second) tried) guarded (later + 5 * second)
    ≡ leb (later + 5 * second) (later + 5 * second)
set_visibility_window_example =
    set_visibility_window guarded later tried 5 (later + 5 * second)
      (unfold second int64_bound in omega arith) (omega arith) not_delayed (omega arith)

-- A message that is leased for thirty seconds from the time of the poll on.
abbrev held : Message
held = record (in_queue "q" "c") {
  received_at = later;
  receipt_keys = "k" ∷ [];
  recovery = record { attempts = 1; detail = [] };
}

abbrev waiting : Service
waiting = service_of (plain "q" ∷ []) (held ∷ [])
