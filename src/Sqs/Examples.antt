-- ===== src/Sqs/Examples.antt =====
-- Concrete queues, messages and environments on which the theorems are applied.
pub mod Receiving
pub mod Sending
pub mod Settling
pub mod Naming
use mildstack.Prelude.{
  ℕ, ◌+◌, ◌*◌, String, ◌==◌, true, some, none, List, [], ◌∷◌, if◌then◌else◌, Map,
}
use mildstack.Prelude.Numeral.{itoa}
use mildstack.Sqs.Domain.{Time, second, Queue, QueueRecovery, Message, State, new_state, no_message}
use mildstack.Sqs.Service.{Env, Service}

-- A clock that gains ten seconds with each reading, from second `start` on.
abbrev pub env_from : ℕ → Env
env_from start = record {
  clock = λ k. (start + 10 * k) * 1_000_000_000;
  fresh_id = λ k. itoa k;
  save_ok = λ k. true;
  md5_hex = λ text. text;
  format_time = λ t. "";
  decode_object = λ text. some [];
  to_lower = λ text. text;
}

abbrev pub plain : String → Queue
plain name = record {
  name = name;
  url = "";
  attributes = [];
  ordering_hint = "";
  recovery = record { dead_letter_queue = ""; policy = [] };
  created_at = 0;
  updated_at = 0;
  deleted_at = 0;
  purged_at = 0;
}

-- A queue that dead-letters to `d` what was received twice.
abbrev pub guarded : Queue
guarded = record (plain "q") {
  recovery = record { dead_letter_queue = "d"; policy = ("max_receive_count", "2") ∷ [] };
}

abbrev pub fifo : Queue
fifo = record (plain "f") { attributes = ("FifoQueue", "true") ∷ [] }

abbrev pub in_queue : String → String → Message
in_queue queue id = record no_message { queue = queue; message_id = id; body = "b"; sent_at = 1 }

abbrev pub grouped : String → ℕ → Message
grouped id sequence = record (in_queue "f" id) {
  message_group_id = "g";
  sequence_number = sequence;
}

abbrev pub service_of : List Queue → List Message → Service
service_of queues messages = record {
  state = record new_state { queues = queues; messages = messages };
  repo = some new_state;
  hook = none;
}
