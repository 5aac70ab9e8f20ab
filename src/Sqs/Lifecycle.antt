-- ===== src/Sqs/Lifecycle.antt =====
-- core/internal/resources/sqs/application/service.go: CreateQueue, DeleteQueue, PurgeQueue and
-- SetQueueAttributes.
pub mod Records
pub mod Names
pub mod Deletion
use Prim.Native.String.{◌++◌}
use mathlib.Core.List.{◌++◌ as append}
use text.Mathlib.Text.{starts_with}
use mildstack.Prelude.{
  ℕ, ◌+◌, ◌*◌, String, ◌==◌, Bool, true, false, not, ◌&&◌, ◌||◌, Option, none, some, List, [], ◌∷◌,
  Map, if◌then◌else◌, trim, ltb, eqb, get_text, insert, retain, length, set, filter_if,
}
use mildstack.Sqs.Domain.{Time, is_zero, zero_time, second, Queue, Message, RecoveryMetadata, State}
use mildstack.Sqs.Names.{
  queue_url_for_account, queue_recovery_from_attributes, ordering_hint_from_attributes,
  queue_arn_for_account,
}
use mildstack.Sqs.Service.{
  Env, queue_name_required, queue_not_found, different_attributes, delete_cooldown, purge_cooldown,
  Result, ok, err, Service, Reply, commit, queue_record_by_name,
}

-- `queueLifecycleCooldown`, sixty seconds.
unfoldable pub queue_lifecycle_cooldown : ℕ
unfolding second
queue_lifecycle_cooldown = 60 * second

-- `now.Sub(since) < queueLifecycleCooldown`
unfoldable pub in_cooldown : Time → Time → Bool
in_cooldown since now = ltb now (since + queue_lifecycle_cooldown)

all_read_in : Map String → Map String → Bool
all_read_in [] right = true
all_read_in ((key, value) ∷ left) right = get_text key right == value && all_read_in left right

unfoldable pub equal_string_maps : Map String → Map String → Bool
unfolding all_read_in
equal_string_maps left right =
    if not (eqb (length left) (length right)) then false else all_read_in left right

-- `queueResponse`
unfoldable pub queue_response : String → Queue → Map String → Queue
queue_response queue_name queue attributes =
    let name = if trim queue.name == "" then trim queue_name else trim queue.name in
    record queue { name = name; url = queue_url_for_account name ""; attributes = attributes }

abbrev pub with_queues : Service → List Queue → Service
with_queues s queues = record s { state = record (s.state) { queues = queues } }

-- A queue that was deleted is made anew under its old record.
unfoldable pub revived : Env → String → Map String → Queue → Queue
revived env queue_name attributes queue = record queue {
  url = queue_url_for_account queue_name "";
  attributes = attributes;
  recovery = queue_recovery_from_attributes env attributes;
  ordering_hint = ordering_hint_from_attributes attributes queue.ordering_hint;
  created_at = env.clock 0;
  updated_at = env.clock 0;
  deleted_at = zero_time;
  purged_at = zero_time;
}

unfoldable pub new_queue : Env → String → Map String → Queue
new_queue env queue_name attributes = record {
  name = queue_name;
  url = queue_url_for_account queue_name "";
  attributes = attributes;
  recovery = queue_recovery_from_attributes env attributes;
  ordering_hint = ordering_hint_from_attributes attributes "";
  created_at = env.clock 0;
  updated_at = env.clock 0;
  deleted_at = zero_time;
  purged_at = zero_time;
}

unfoldable pub create_queue : Env → String → Map String → Service → Reply Queue
create_queue env raw_name attributes s =
    let name = trim raw_name in
    let queues = s.state.queues in
    if name == "" then (s, err queue_name_required) else elim (queue_record_by_name name queues) [
      | none ↦
          commit env 0 (with_queues s (append queues (new_queue env name attributes ∷ [])))
            (queue_response name (new_queue env name attributes) attributes)
      | some (index, queue) ↦
          if is_zero queue.deleted_at
          then (if equal_string_maps queue.attributes attributes
              then (s, ok (queue_response name queue attributes))
              else (s, err different_attributes))
          else if in_cooldown queue.deleted_at (env.clock 0)
          then (s, err delete_cooldown)
          else commit env 0 (with_queues s (set queues index (revived env name attributes queue)))
              (queue_response name (revived env name attributes queue) attributes)
    ]

unfoldable pub remains : String → Message → Bool
remains queue_name message = not (trim message.queue == queue_name)

unfoldable pub metadata_remains : String → String → RecoveryMetadata → Bool
metadata_remains queue_name key metadata =
    not (metadata.queue == queue_name || starts_with key (queue_name ++ "/"))

-- `removeMessagesForQueueLocked`
unfoldable pub remove_messages_for_queue : String → State → State
unfolding remains metadata_remains
remove_messages_for_queue queue_name state = record state {
  messages = filter_if (remains queue_name) state.messages;
  recovery_metadata = retain (metadata_remains queue_name) state.recovery_metadata;
}

unfoldable pub delete_queue : Env → String → Service → Reply (Unit {0})
delete_queue env raw_name s =
    let name = trim raw_name in
    let now = env.clock 0 in
    if name == ""
    then (s, err queue_name_required)
    else elim (queue_record_by_name name s.state.queues) [
      | none ↦ (s, err queue_not_found)
      | some (index, queue) ↦
          if not (is_zero queue.deleted_at)
          then (if in_cooldown queue.deleted_at now
              then (s, err delete_cooldown)
              else (s, err queue_not_found))
          else let gone = record queue {
            deleted_at = now;
            updated_at = now;
            purged_at = zero_time;
          } in
            let marked = with_queues s (set s.state.queues index gone) in
            commit env 0 (record marked { state = remove_messages_for_queue name marked.state }) tt
    ]

unfoldable pub purge_queue : Env → String → Service → Reply (Unit {0})
purge_queue env raw_name s =
    let name = trim raw_name in
    let now = env.clock 0 in
    if name == ""
    then (s, err queue_name_required)
    else elim (queue_record_by_name name s.state.queues) [
      | none ↦ (s, err queue_not_found)
      | some (index, queue) ↦
          if not (is_zero queue.deleted_at)
          then (s, err queue_not_found)
          else if not (is_zero queue.purged_at) && in_cooldown queue.purged_at now
          then (s, err purge_cooldown)
          else let emptied = record s { state = remove_messages_for_queue name s.state } in
            let purged = record queue { purged_at = now; updated_at = now } in
            commit env 0 (with_queues emptied (set s.state.queues index purged)) tt
    ]

-- `QueueAttributesView`
pub record QueueAttributesView : Type 0 where
  pub queue_name : String
  pub queue_url : String
  pub queue_arn : String
  pub attributes : Map String

-- The keys are trimmed; a later value for a key replaces an earlier one.
unfoldable pub merge_trimmed : Map String → Map String → Map String
merge_trimmed current [] = current
merge_trimmed current ((key, value) ∷ rest) = merge_trimmed (insert (trim key) value current) rest

unfoldable pub set_queue_attributes :
    Env → String → Map String → Service → Reply QueueAttributesView
set_queue_attributes env raw_name attributes s =
    let name = trim raw_name in
    if name == ""
    then (s, err queue_name_required)
    else elim (queue_record_by_name name s.state.queues) [
      | none ↦ (s, err queue_not_found)
      | some (index, queue) ↦
          if not (is_zero queue.deleted_at)
          then (s, err queue_not_found)
          else let merged = merge_trimmed queue.attributes attributes in
            let updated = record queue {
              attributes = merged;
              recovery = queue_recovery_from_attributes env merged;
              ordering_hint = ordering_hint_from_attributes merged queue.ordering_hint;
              updated_at = env.clock 0;
            } in
            commit env 0 (with_queues s (set s.state.queues index updated)) (record {
              queue_name = name;
              queue_url = queue_url_for_account name "";
              queue_arn = queue_arn_for_account name "";
              attributes = merged;
            })
    ]
