-- ===== src/Sqs/Tags/Laws.antt =====
-- ListQueueTags after TagQueue and UntagQueue of
-- core/internal/resources/sqs/application/service.go.
use mildstack.Sqs.Lifecycle.Records.{find_record_found}
use mildstack.Prelude.{
  ℕ, zero, suc, ◌+◌, ◌≡◌, ◌≢◌, ap, String, ◌==◌, eq_iff, false, none, some, List, [], ◌∷◌, arith,
  Map, trim, insert, lookup-insert, set, Bool-cases, Option-cases, inl, inr, ◌&&◌,
}
use mildstack.Sqs.Domain.{Queue, is_zero}
use mildstack.Sqs.Service.{
  Env, Service, ok, find_record, queue_record_by_name, active_queue_by_name,
}
use mildstack.Sqs.Service.Commit.{commit_ok}
use mildstack.Sqs.Tags.{tags_of, replace_record, store_tags, list_queue_tags}

pub active_found :
    (name : String) (qs : List Queue) (q : Queue)
    → active_queue_by_name name qs ≡ some q
    → (q.name ≡ name) × (q.deleted_at ≡ 0)
unfolding active_queue_by_name
active_found name [] q e = cc
active_found name (x ∷ qs) q e = elim (Bool-cases (x.name == name && is_zero x.deleted_at)) [
  | inl h ↦ (ground (arith, eq_iff x.name name), ground arith)
  | inr h ↦ active_found name qs q (rw h at e)
]

-- An active queue that takes the place of the first record of its name is the one found.
active-replace :
    (i : ℕ) (name : String) (qs : List Queue) (j k : ℕ) (old new : Queue)
    → k ≡ i + j
    → find_record i name qs ≡ some (k, old)
    → new.name ≡ name
    → new.deleted_at ≡ 0
    → active_queue_by_name name (set qs j new) ≡ some new
unfolding find_record active_queue_by_name
active-replace i name [] j k old new at e same live = cc
active-replace i name (q ∷ qs) zero k old new at e same live = ground (arith, eq_iff new.name name)
active-replace i name (q ∷ qs) (suc j) k old new at e same live =
    elim (Bool-cases (q.name == name)) [
      | inl h ↦ absurd (ground arith)
      | inr h ↦
          rw h (active-replace (suc i) name qs j k old new (omega arith) (rw h at e) same live)
    ]

record_index :
    (i : ℕ) (name : String) (qs : List Queue) (k : ℕ) (old : Queue)
    → find_record i name qs ≡ some (k, old)
    → (j : ℕ) × (k ≡ i + j)
record_index i name qs k old e =
    let (j, at, found, named) = find_record_found i name qs k old e in (j, at)

record_exists :
    (i : ℕ) (name : String) (qs : List Queue) (q : Queue)
    → active_queue_by_name name qs ≡ some q
    → find_record i name qs ≢ none
unfolding active_queue_by_name find_record
record_exists i name [] q e = λ h. cc
record_exists i name (x ∷ qs) q e = elim (Bool-cases (x.name == name)) [
  | inl h ↦ λ n. ground arith
  | inr h ↦ rw h (record_exists (suc i) name qs q (rw h at e))
]

replace_record_found :
    (name : String) (qs : List Queue) (k : ℕ) (old new : Queue)
    → queue_record_by_name name qs ≡ some (k, old)
    → replace_record name new qs ≡ set qs k new
unfolding replace_record
replace_record_found name qs k old new e = rw (replace_record, e)

active-replace_record :
    (name : String) (qs : List Queue) (q new : Queue)
    → active_queue_by_name name qs ≡ some q
    → new.name ≡ name
    → new.deleted_at ≡ 0
    → active_queue_by_name name (replace_record name new qs) ≡ some new
active-replace_record name qs q new e same live = elim (Option-cases (find_record 0 name qs)) [
  | inl missing ↦ absurd (record_exists 0 name qs q e missing)
  | inr ((k, old), there) ↦
      let (j, at) = record_index 0 name qs k old there in
      let here : j ≡ k = omega arith in
      rw (replace_record_found name qs k old new (unfold queue_record_by_name in there))
        (active-replace 0 name qs k k old new (omega arith) there same live)
]

tags_of-insert :
    (name : String) (tags : Map String) (all : Map (Map String))
    → tags_of name (insert name tags all) ≡ tags
unfolding tags_of
tags_of-insert name tags all =
    rw (tags_of, lookup-insert name name tags all) (ground (arith, eq_iff name name))

module _ (env : Env) (raw_name : String) (s s' : Service) where
  -- What both calls do with a queue that they found.
  pub store_tags-list :
      (queue : Queue) (tags : Map String)
      → (trim raw_name == "") ≡ false
      → active_queue_by_name (trim raw_name) s.state.queues ≡ some queue
      → store_tags env (trim raw_name) s queue tags ≡ (s', ok tt)
      → list_queue_tags raw_name s' ≡ ok tags
  unfolding store_tags list_queue_tags
  store_tags-list queue tags named found stored =
      let (state, u, durable) = commit_ok env 0 _ tt s' tt stored in
      let (same, live) = active_found (trim raw_name) s.state.queues queue found in
      let now_found =
        active-replace_record (trim raw_name) s.state.queues queue
          (record queue { updated_at = env.clock 0 }) found same live in
      let tags_now = tags_of-insert (trim raw_name) tags s.state.queue_tags in
      rw (named, state, now_found) (rw (state, same) (ap ok tags_now))
