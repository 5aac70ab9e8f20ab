-- ===== src/Sqs/Permissions.antt =====
-- core/internal/resources/sqs/application/service.go: AddPermission and RemovePermission.
pub mod Laws
pub mod Tidied
use mildstack.Prelude.{
  ℕ, String, ◌==◌, Bool, true, false, ◌||◌, Option, none, some, List, [], ◌∷◌, Map, if◌then◌else◌,
  trim, insert, delete, lookup, string_lt,
}
use mildstack.Prelude.Sort.{stable_sort}
use mildstack.Sqs.Batch.{contains}
use mildstack.Sqs.Domain.{Time, Queue, QueuePermission, State}
use mildstack.Sqs.Service.{
  Env, Service, Reply, ok, err, commit, queue_name_required, queue_not_found,
  permission_label_required, active_queue_by_name,
}
use mildstack.Sqs.Tags.{replace_record}

-- The keys of `seen`: each value that is not blank, trimmed, once.
unfoldable pub trimmed_once : List String → List String
trimmed_once [] = []
trimmed_once (value ∷ values) =
    let rest = trimmed_once values in
    if trim value == "" || contains (trim value) rest then rest else trim value ∷ rest

unfoldable pub unique_sorted_trimmed_strings : List String → List String
unfolding trimmed_once
unique_sorted_trimmed_strings values = stable_sort string_lt (trimmed_once values)

unfoldable pub permissions_of : String → Map (Map QueuePermission) → Map QueuePermission
permissions_of queue_name all = elim (lookup queue_name all) [ none ↦ [] | some current ↦ current ]

-- What both calls do with a queue that they found.
unfoldable pub store_permissions :
    Env → String → Service → Queue → Map QueuePermission → Reply (Unit {0})
store_permissions env queue_name s queue permissions =
    commit env 0
      (record s {
        state = record (s.state) {
          queue_permissions = insert queue.name permissions s.state.queue_permissions;
          queues =
              replace_record queue_name (record queue { updated_at = env.clock 0 }) s.state.queues;
        };
      })
      tt

unfoldable pub granted : Env → String → List String → List String → QueuePermission
unfolding unique_sorted_trimmed_strings
granted env label accounts actions = record {
  label = label;
  aws_account_ids = unique_sorted_trimmed_strings accounts;
  actions = unique_sorted_trimmed_strings actions;
  created_at = env.clock 0;
  updated_at = env.clock 0;
}

unfoldable pub add_permission :
    Env → String → String → List String → List String → Service → Reply (Unit {0})
add_permission env raw_name raw_label accounts actions s =
    let name = trim raw_name in
    let label = trim raw_label in
    if name == ""
    then (s, err queue_name_required)
    else if label == ""
    then (s, err permission_label_required)
    else elim (active_queue_by_name name s.state.queues) [
      | none ↦ (s, err queue_not_found)
      | some queue ↦ store_permissions env name s queue (
          insert label (granted env label accounts actions)
            (permissions_of name s.state.queue_permissions))
    ]

unfoldable pub remove_permission : Env → String → String → Service → Reply (Unit {0})
remove_permission env raw_name raw_label s =
    let name = trim raw_name in
    let label = trim raw_label in
    if name == ""
    then (s, err queue_name_required)
    else if label == ""
    then (s, err permission_label_required)
    else elim (active_queue_by_name name s.state.queues) [
      | none ↦ (s, err queue_not_found)
      | some queue ↦
          store_permissions env name s queue
            (delete label (permissions_of name s.state.queue_permissions))
    ]
