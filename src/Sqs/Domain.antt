-- ===== src/Sqs/Domain.antt =====
-- core/internal/resources/sqs/domain/state.go: the state that the service keeps.
use mildstack.Prelude.{ℕ, String, List, [], Map}
use mildstack.Prelude.Numeral.{ℤ}
pub use mildstack.Prelude.Time.{Time, is_zero}

abbrev pub zero_time : Time
zero_time = 0

-- `time.Second`
unfoldable pub second : ℕ
second = 1_000_000_000

pub record QueueRecovery : Type 0 where
  pub dead_letter_queue : String
  pub policy : Map String

pub record Queue : Type 0 where
  pub name : String
  pub url : String
  pub attributes : Map String
  pub ordering_hint : String
  pub recovery : QueueRecovery
  pub created_at : Time
  pub updated_at : Time
  pub deleted_at : Time
  pub purged_at : Time

pub record QueuePermission : Type 0 where
  pub label : String
  pub aws_account_ids : List String
  pub actions : List String
  pub created_at : Time
  pub updated_at : Time

pub record MessageMoveTask : Type 0 where
  pub task_handle : String
  pub source_queue : String
  pub source_arn : String
  pub destination_arn : String
  pub max_number_of_messages_per_second : ℤ
  pub approximate_number_of_messages_moved : ℤ
  pub status : String
  pub started_at : Time
  pub updated_at : Time
  pub cancelled_at : Time

pub record MessageRecovery : Type 0 where
  pub attempts : ℕ
  pub detail : Map String

pub record Message : Type 0 where
  pub queue : String
  pub message_id : String
  pub body : String
  pub attributes : Map String
  pub metadata : Map String
  pub tags : List String
  pub receipt_keys : List String
  pub message_group_id : String
  pub sequence_number : ℕ
  pub batch_id : String
  pub batch_entry_id : String
  pub batch_entry_index : ℕ
  pub batch_entry_count : ℕ
  pub dead_letter_queue : String
  pub dead_letter_source_queue : String
  pub dead_lettered_at : Time
  pub sent_at : Time
  pub available_at : Time
  pub received_at : Time
  pub recovery : MessageRecovery

pub record RecoveryMetadata : Type 0 where
  pub queue : String
  pub message : String
  pub detail : Map String

pub record State : Type 0 where
  pub service : String
  pub queues : List Queue
  pub messages : List Message
  pub recovery_metadata : Map RecoveryMetadata
  pub queue_tags : Map (Map String)
  pub queue_permissions : Map (Map QueuePermission)
  pub move_tasks : Map (Map MessageMoveTask)

abbrev pub new_state : State
new_state = record {
  service = "sqs";
  queues = [];
  messages = [];
  recovery_metadata = [];
  queue_tags = [];
  queue_permissions = [];
  move_tasks = [];
}

-- The zero value of `domain.Message`.
abbrev pub no_message : Message
no_message = record {
  queue = "";
  message_id = "";
  body = "";
  attributes = [];
  metadata = [];
  tags = [];
  receipt_keys = [];
  message_group_id = "";
  sequence_number = 0;
  batch_id = "";
  batch_entry_id = "";
  batch_entry_index = 0;
  batch_entry_count = 0;
  dead_letter_queue = "";
  dead_letter_source_queue = "";
  dead_lettered_at = 0;
  sent_at = 0;
  available_at = 0;
  received_at = 0;
  recovery = record { attempts = 0; detail = [] };
}
