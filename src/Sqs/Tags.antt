-- ===== src/Sqs/Tags.antt =====
-- core/internal/resources/sqs/application/service.go: TagQueue, UntagQueue and ListQueueTags.
pub mod Laws
pub mod Entries
use mildstack.Prelude.{
  ℕ, String, ◌==◌, Bool, true, false, Option, none, some, List, [], ◌∷◌, Map, if◌then◌else◌, trim,
  insert, delete, lookup, set,
}
use mildstack.Sqs.Domain.{Time, Queue, State}
use mildstack.Sqs.Service.{
  Env, Service, Reply, Result, ok, err, commit, queue_name_required, queue_not_found,
  active_queue_by_name, queue_record_by_name,
}

-- A queue with no tags reads as one with an empty map of them.
unfoldable pub tags_of : String → Map (Map String) → Map String
tags_of queue_name tags = elim (lookup queue_name tags) [ none ↦ [] | some current ↦ current ]

-- The tags that are given are walked in the order of the list. Go walks its map in no fixed order,
-- which matters only where two keys trim to one.
unfoldable pub add_tags : Map String → Map String → Map String
add_tags current [] = current
add_tags current ((key, value) ∷ rest) =
    add_tags (if trim key == "" then current else insert (trim key) value current) rest

unfoldable pub remove_tags : Map String → List String → Map String
remove_tags current [] = current
remove_tags current (key ∷ rest) =
    remove_tags (if trim key == "" then current else delete (trim key) current) rest

-- `if index, _, ok := s.queueRecordByNameLocked(queueName); ok { s.state.Queues[index] = queue }`
unfoldable pub replace_record : String → Queue → List Queue → List Queue
replace_record queue_name queue queues = elim (queue_record_by_name queue_name queues) [
  | none ↦ queues
  | some (index, old) ↦ set queues index queue
]

unfoldable pub store_tags : Env → String → Service → Queue → Map String → Reply (Unit {0})
unfolding replace_record
store_tags env queue_name s queue tags =
    commit env 0
      (record s {
        state = record (s.state) {
          queue_tags = insert queue.name tags s.state.queue_tags;
          queues =
              replace_record queue_name (record queue { updated_at = env.clock 0 }) s.state.queues;
        };
      })
      tt

unfoldable pub tag_queue : Env → String → Map String → Service → Reply (Unit {0})
unfolding add_tags
tag_queue env raw_name tags s =
    let name = trim raw_name in
    if name == ""
    then (s, err queue_name_required)
    else elim (active_queue_by_name name s.state.queues) [
      | none ↦ (s, err queue_not_found)
      | some queue ↦ store_tags env name s queue (add_tags (tags_of name s.state.queue_tags) tags)
    ]

unfoldable pub untag_queue : Env → String → List String → Service → Reply (Unit {0})
unfolding remove_tags
untag_queue env raw_name keys s =
    let name = trim raw_name in
    if name == ""
    then (s, err queue_name_required)
    else elim (active_queue_by_name name s.state.queues) [
      | none ↦ (s, err queue_not_found)
      | some queue ↦
          store_tags env name s queue (remove_tags (tags_of name s.state.queue_tags) keys)
    ]

unfoldable pub list_queue_tags : String → Service → Result (Map String)
list_queue_tags raw_name s =
    let name = trim raw_name in
    if name == ""
    then err queue_name_required
    else elim (active_queue_by_name name s.state.queues) [
      | none ↦ err queue_not_found
      | some queue ↦ ok (tags_of name s.state.queue_tags)
    ]
