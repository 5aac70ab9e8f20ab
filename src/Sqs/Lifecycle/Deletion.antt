-- ===== src/Sqs/Lifecycle/Deletion.antt =====
-- DeleteQueue of core/internal/resources/sqs/application/service.go: the messages after it, and
-- the creation of a queue of that name.
use mildstack.Sqs.Lifecycle.Records.{find_record_found}
use mildstack.Prelude.{
  ℕ, suc, zero, ◌+◌, ◌≡◌, ◌≢◌, String, ◌==◌, eq_iff, inl, inr, true, false, some, List, [], ◌∷◌,
  arith, trim, set, Bool-cases, Option-cases, Map, All, filter_if, ◌<◌,
}
use mildstack.Sqs.Domain.{Queue, Message, zero_time}
use mildstack.Sqs.Service.{
  Env, delete_cooldown, ok, err, Service, commit, find_record, queue_record_by_name,
}
use mildstack.Sqs.Service.Commit.{IsDurable, commit_ok}
use mildstack.Sqs.Lifecycle.{
  create_queue, delete_queue, in_cooldown, remove_messages_for_queue, remains, with_queues,
}

-- The record that takes the place of the one found is found in its stead.
find_record-set :
    (i k : ℕ) (name : String) (qs : List Queue) (j : ℕ) (old new : Queue)
    → k ≡ i + j
    → find_record i name qs ≡ some (k, old)
    → new.name ≡ name
    → find_record i name (set qs j new) ≡ some (k, new)
unfolding find_record
find_record-set i k name [] j old new at e same = cc
find_record-set i k name (q ∷ qs) zero old new at e same = ground (arith, eq_iff new.name name)
find_record-set i k name (q ∷ qs) (suc j) old new at e same = elim (Bool-cases (q.name == name)) [
  | inl h ↦ absurd (ground arith)
  | inr h ↦ rw h (find_record-set (suc i) k name qs j old new (omega arith) (rw h at e) same)
]

none_remains :
    (name : String) (messages : List Message)
    → All (λ m. trim m.queue ≢ name) (filter_if (remains name) messages)
unfolding filter_if remains
none_remains name [] = tt
none_remains name (m ∷ ms) = elim (Bool-cases (trim m.queue == name)) [
  | inl e ↦ rw e (none_remains name ms)
  | inr e ↦ rw e ((λ same. ground (arith, eq_iff (trim m.queue) name)), none_remains name ms)
]

abbrev gone : Env → Queue → Queue
gone env queue = record queue {
  deleted_at = env.clock 0;
  updated_at = env.clock 0;
  purged_at = zero_time;
}

abbrev cleared : Env → String → Service → ℕ → Queue → Service
cleared env name s index queue =
    let marked = with_queues s (set s.state.queues index (gone env queue)) in
    record marked { state = remove_messages_for_queue name marked.state }

module _ (env : Env) (raw_name : String) (s s' : Service)
    (deleted : delete_queue env raw_name s ≡ (s', ok tt)) where
  opened :
      (index : ℕ) × (queue : Queue) × (queue_record_by_name (trim raw_name) s.state.queues
        ≡ some (index, queue))
      × ((trim raw_name == "") ≡ false)
      × (commit env 0 (cleared env (trim raw_name) s index queue) tt ≡ (s', ok tt))
  unfolding delete_queue
  opened = elim (Option-cases (queue_record_by_name (trim raw_name) s.state.queues)) [
    | inl missing ↦ absurd (ground arith)
    | inr ((index, queue), there) ↦ (index, queue, there, ground arith, ground arith)
  ]

  deleted_state :
      (index : ℕ) × (queue : Queue) × (queue_record_by_name (trim raw_name) s.state.queues
        ≡ some (index, queue))
      × ((trim raw_name == "") ≡ false)
      × (s'.state ≡ (cleared env (trim raw_name) s index queue).state)
  deleted_state =
      let (index, queue, there, named, committed) = opened in
      let done = commit_ok env 0 (cleared env (trim raw_name) s index queue) tt s' tt committed in
      (index, queue, there, named, done.0)

  same_record :
      (index : ℕ) (queue : Queue)
      → queue_record_by_name (trim raw_name) s.state.queues ≡ some (index, queue)
      → s'.state ≡ (cleared env (trim raw_name) s index queue).state
      → queue_record_by_name (trim raw_name) s'.state.queues ≡ some (index, gone env queue)
  unfolding queue_record_by_name remove_messages_for_queue
  same_record index queue there same =
      let (j, at, found, named) =
        find_record_found 0 (trim raw_name) s.state.queues index queue there in
      rw same (
        find_record-set 0 index (trim raw_name) s.state.queues index queue (gone env queue)
          (omega arith) there named)

  -- After a queue is deleted, no message that is left stands in it, and what was saved and published
  -- is the state after the deletion.
  pub delete_queue_clears : All (λ m. trim m.queue ≢ trim raw_name) s'.state.messages × IsDurable s'
  unfolding remove_messages_for_queue
  delete_queue_clears =
      let (index, queue, there, named, committed) = opened in
      let (same, x, durable) =
        commit_ok env 0 (cleared env (trim raw_name) s index queue) tt s' tt committed in
      (rw same (none_remains (trim raw_name) s.state.messages), durable)

  -- A queue that was deleted cannot be created again, with any attributes, until a minute has passed
  -- since its deletion at a time that is not zero: the call answers with the cooldown error and changes nothing.
  pub create_queue-delete_queue :
      (later : Env) (attributes : Map String)
      → 0 < env.clock 0
      → in_cooldown (env.clock 0) (later.clock 0) ≡ true
      → create_queue later raw_name attributes s' ≡ (s', err delete_cooldown)
  unfolding create_queue
  create_queue-delete_queue later attributes h cool =
      let (index, queue, there, named, same) = deleted_state in
      rw (named, same_record index queue there same, cool) (ground arith)
