-- ===== src/Sqs/Lifecycle/Names.antt =====
-- The names of the queue records over a history of the calls in
-- core/internal/resources/sqs/application/service.go that create, delete, purge and configure.
use mathlib.Core.List.{◌++◌, map-append}
use mildstack.Prelude.{
  ℕ, ◌≡◌, refl, String, ◌==◌, inl, inr, none, some, List, [], ◌∷◌, arith, trim, set, Bool-cases,
  Option-cases, Map, not, ◌&&◌,
}
use mildstack.Prelude.Distinct.{Distinct}
use mildstack.Sqs.Domain.{Queue, is_zero}
use mildstack.Sqs.Service.{Env, Service, commit, queue_record_by_name}
use mildstack.Sqs.Service.Commit.{state-commit}
use mildstack.Sqs.Lifecycle.{
  create_queue, delete_queue, purge_queue, set_queue_attributes, revived, new_queue, in_cooldown,
  equal_string_maps, remove_messages_for_queue,
}
use mildstack.Sqs.Lifecycle.Records.{
  names, find_record-none, find_record_found, names-set, Distinct-append,
}

-- No two records have one name.
abbrev pub HasUniqueNames : Service → Type 0
HasUniqueNames s = Distinct (names s.state.queues)

-- A commit keeps the names of the state that it is given.
commit-HasUniqueNames :
    {A : Type 0} (env : Env) (k : ℕ) (s : Service) (a : A)
    → HasUniqueNames s
    → HasUniqueNames (commit env k s a).0
commit-HasUniqueNames env k s a h = rw (state-commit env k s a) h

-- A record that takes the place of the one found has its name.
set-HasUniqueNames :
    (s : Service) (name : String) (index : ℕ) (queue new : Queue)
    → queue_record_by_name name s.state.queues ≡ some (index, queue)
    → new.name ≡ queue.name
    → HasUniqueNames s
    → Distinct (names (set s.state.queues index new))
unfolding queue_record_by_name
set-HasUniqueNames s name index queue new found same h =
    let (j, at, there, named) = find_record_found 0 name s.state.queues index queue found in
    let here : j ≡ index = omega arith in
    rw (names-set s.state.queues index queue new (rw here at there) same) h

append-HasUniqueNames :
    (s : Service) (new : Queue)
    → queue_record_by_name new.name s.state.queues ≡ none
    → HasUniqueNames s
    → Distinct (names (s.state.queues ++ new ∷ []))
unfolding queue_record_by_name
append-HasUniqueNames s new missing h =
    rw (map-append (λ (q : Queue). q.name) s.state.queues (new ∷ [])) (
      Distinct-append (names s.state.queues) new.name
        (find_record-none 0 new.name s.state.queues missing) h)

-- A call that replaces the record that it found keeps the invariant.
replace-HasUniqueNames :
    {A : Type 0} (env : Env) (name : String) (s s' : Service) (index : ℕ) (queue new : Queue)
    (a : A)
    → HasUniqueNames s
    → queue_record_by_name name s.state.queues ≡ some (index, queue)
    → new.name ≡ queue.name
    → s'.state.queues ≡ set s.state.queues index new
    → HasUniqueNames (commit env 0 s' a).0
replace-HasUniqueNames env name s s' index queue new a h there same e =
    commit-HasUniqueNames env 0 s' a (rw e (set-HasUniqueNames s name index queue new there same h))

module _ (env : Env) (raw_name : String) (s : Service) (h : HasUniqueNames s) where
  create_queue-HasUniqueNames :
      (attributes : Map String) → HasUniqueNames (create_queue env raw_name attributes s).0
  unfolding create_queue
  create_queue-HasUniqueNames attributes = elim (Bool-cases (trim raw_name == "")) [
    | inl e ↦ rw e h
    | inr e ↦ elim (Option-cases (queue_record_by_name (trim raw_name) s.state.queues)) [
      | inl missing ↦
          rw (e, missing)
            (commit-HasUniqueNames env 0 _ _ (
              append-HasUniqueNames s (new_queue env (trim raw_name) attributes)
                (unfold new_queue in missing) h))
      | inr ((index, queue), there) ↦
          rw (e, there)
            (elim (Bool-cases (is_zero queue.deleted_at)) [
              | inl live ↦
                  rw live (elim (Bool-cases (equal_string_maps queue.attributes attributes)) [
                    | inl f ↦ rw f h
                    | inr f ↦ rw f h
                  ])
              | inr gone ↦ rw gone (elim (Bool-cases (in_cooldown queue.deleted_at (env.clock 0))) [
                | inl f ↦ rw f h
                | inr f ↦ rw f (
                    replace-HasUniqueNames env (trim raw_name) s _ index queue
                      (revived env (trim raw_name) attributes queue) _ h there
                      (unfold revived in refl) refl)
              ])
            ])
    ]
  ]

  delete_queue-HasUniqueNames : HasUniqueNames (delete_queue env raw_name s).0
  unfolding delete_queue remove_messages_for_queue
  delete_queue-HasUniqueNames = elim (Bool-cases (trim raw_name == "")) [
    | inl e ↦ rw e h
    | inr e ↦ elim (Option-cases (queue_record_by_name (trim raw_name) s.state.queues)) [
      | inl missing ↦ rw (e, missing) h
      | inr ((index, queue), there) ↦
          rw (e, there)
            (elim (Bool-cases (is_zero queue.deleted_at)) [
              | inl live ↦
                  rw live (
                    replace-HasUniqueNames env (trim raw_name) s _ index queue _ _ h there refl
                      refl)
              | inr gone ↦ rw gone (elim (Bool-cases (in_cooldown queue.deleted_at (env.clock 0))) [
                | inl f ↦ rw f h
                | inr f ↦ rw f h
              ])
            ])
    ]
  ]

  purge_queue-HasUniqueNames : HasUniqueNames (purge_queue env raw_name s).0
  unfolding purge_queue remove_messages_for_queue
  purge_queue-HasUniqueNames = elim (Bool-cases (trim raw_name == "")) [
    | inl e ↦ rw e h
    | inr e ↦ elim (Option-cases (queue_record_by_name (trim raw_name) s.state.queues)) [
      | inl missing ↦ rw (e, missing) h
      | inr ((index, queue), there) ↦
          rw (e, there)
            (elim (Bool-cases (is_zero queue.deleted_at)) [
              | inl live ↦
                  rw live
                    (elim (Bool-cases (
                      not (is_zero queue.purged_at) && in_cooldown queue.purged_at (env.clock 0))) [
                        | inl f ↦ rw f h
                        | inr f ↦ rw f (
                            replace-HasUniqueNames env (trim raw_name) s _ index queue _ _ h there
                              refl refl)
                      ])
              | inr gone ↦ rw gone h
            ])
    ]
  ]

  set_queue_attributes-HasUniqueNames :
      (attributes : Map String) → HasUniqueNames (set_queue_attributes env raw_name attributes s).0
  unfolding set_queue_attributes
  set_queue_attributes-HasUniqueNames attributes = elim (Bool-cases (trim raw_name == "")) [
    | inl e ↦ rw e h
    | inr e ↦ elim (Option-cases (queue_record_by_name (trim raw_name) s.state.queues)) [
      | inl missing ↦ rw (e, missing) h
      | inr ((index, queue), there) ↦
          rw (e, there)
            (elim (Bool-cases (is_zero queue.deleted_at)) [
              | inl live ↦
                  rw live (
                    replace-HasUniqueNames env (trim raw_name) s _ index queue _ _ h there refl
                      refl)
              | inr gone ↦ rw gone h
            ])
    ]
  ]

-- The calls that change the records of queues.
pub data Call : Type 0 where
  create configure : String → Map String → Call
  delete purge : String → Call

unfoldable pub run : Env → Call → Service → Service
run env (create name attributes) s = (create_queue env name attributes s).0
run env (configure name attributes) s = (set_queue_attributes env name attributes s).0
run env (delete name) s = (delete_queue env name s).0
run env (purge name) s = (purge_queue env name s).0

-- The calls of a history one after the other, each in its own environment.
unfoldable pub run_all : List (Env × Call) → Service → Service
run_all [] s = s
run_all ((env, call) ∷ calls) s = run_all calls (run env call s)

run-HasUniqueNames :
    (env : Env) (call : Call) (s : Service) → HasUniqueNames s → HasUniqueNames (run env call s)
unfolding run
run-HasUniqueNames env (create name attributes) s h =
    create_queue-HasUniqueNames env name s h attributes
run-HasUniqueNames env (configure name attributes) s h =
    set_queue_attributes-HasUniqueNames env name s h attributes
run-HasUniqueNames env (delete name) s h = delete_queue-HasUniqueNames env name s h
run-HasUniqueNames env (purge name) s h = purge_queue-HasUniqueNames env name s h

-- Where no two records of queues have one name, the same holds after every history of calls that
-- create, configure, delete and purge queues, whether they succeed or fail.
pub run_all-HasUniqueNames :
    (calls : List (Env × Call)) (s : Service) → HasUniqueNames s → HasUniqueNames (run_all calls s)
unfolding run_all
run_all-HasUniqueNames [] s h = h
run_all-HasUniqueNames ((env, call) ∷ calls) s h =
    run_all-HasUniqueNames calls (run env call s) (run-HasUniqueNames env call s h)
