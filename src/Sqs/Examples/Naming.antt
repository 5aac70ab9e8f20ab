-- ===== src/Sqs/Examples/Naming.antt =====
-- The theorems on the records of queues, on concrete queues.
use mildstack.Sqs.Permissions.Laws.{add_permission_grants, remove_permission_revokes}
use mildstack.Sqs.Permissions.Tidied.{Tidied}
use mildstack.Sqs.Domain.{QueuePermission}
use mildstack.Sqs.Permissions.{add_permission, remove_permission, permissions_of, store_permissions}
use mildstack.Sqs.Tags.Entries.{
  Added, Removed, list_queue_tags-tag_queue, list_queue_tags-untag_queue,
}
use mildstack.Sqs.Tags.{tag_queue, untag_queue, list_queue_tags, store_tags, replace_record}
use mildstack.Prelude.{
  ◌≡◌, ◌≢◌, ◌⊎◌, Map, String, refl, [], ◌∷◌, true, List, ap, arith, eq_iff, trim, All, lookup, some,
  none, if◌then◌else◌, ◌==◌,
}
use mildstack.Sqs.Service.{
  Env, Service, ok, err, delete_cooldown, Result, queue_record_by_name, commit,
  active_queue_by_name,
}
use mildstack.Sqs.Service.Commit.{IsDurable}
use mildstack.Sqs.Lifecycle.{create_queue, delete_queue, in_cooldown, queue_lifecycle_cooldown}
use mildstack.Sqs.Lifecycle.Names.{
  HasUniqueNames, Call, create, configure, delete, purge, run_all, run_all-HasUniqueNames,
}
use mildstack.Sqs.Lifecycle.Deletion.{delete_queue_clears, create_queue-delete_queue}
use mildstack.Sqs.Examples.{env_from, plain, in_queue, service_of}

abbrev here : Env
here = env_from 100

abbrev pair : Service
pair = service_of (plain "q" ∷ plain "d" ∷ []) (in_queue "q" "a" ∷ in_queue "d" "b" ∷ [])

abbrev history : List (Env × Call)
history =
    (here, create "new" [])
    ∷ (here, delete "q")
    ∷ (env_from 200, create "q" [])
    ∷ (env_from 300, purge "q")
    ∷ (env_from 300, configure "q" [])
    ∷ []

other_name : (plain "q").name ≢ (plain "d").name
other_name = λ e. ground (arith, eq_iff (plain "q").name (plain "d").name)

apart : HasUniqueNames pair
apart = ((other_name, tt), (tt, tt))

run_all-HasUniqueNames_example : HasUniqueNames (run_all history pair)
run_all-HasUniqueNames_example = run_all-HasUniqueNames history pair apart

abbrev after : Service
after = (delete_queue here "q" pair).0

answered : (delete_queue here "q" pair).1 ≡ ok tt
unfolding delete_queue trim queue_record_by_name commit
answered = refl

was_deleted : delete_queue here "q" pair ≡ (after, ok tt)
was_deleted = ap (λ (r : Result (Unit {0})). (after, r)) answered

delete_queue_clears_example :
    All (λ m. trim m.queue ≢ trim "q") after.state.messages × IsDurable after
delete_queue_clears_example = delete_queue_clears here "q" pair after was_deleted

still_cooling : in_cooldown (here.clock 0) ((env_from 130).clock 0) ≡ true
unfolding in_cooldown queue_lifecycle_cooldown
still_cooling = refl

create_queue-delete_queue_example :
    create_queue (env_from 130) "q" [] after ≡ (after, err delete_cooldown)
create_queue-delete_queue_example =
    create_queue-delete_queue here "q" pair after was_deleted (env_from 130) [] (omega arith)
      still_cooling

abbrev tagged : Service
tagged = (tag_queue here "q" (("team", "blue") ∷ []) pair).0

tags_answered : (tag_queue here "q" (("team", "blue") ∷ []) pair).1 ≡ ok tt
unfolding tag_queue trim active_queue_by_name store_tags commit
tags_answered = refl

list_queue_tags-tag_queue_example :
    (old : Map String) × (new : Map String) × (list_queue_tags "q" pair ≡ ok old)
    × (list_queue_tags "q" tagged ≡ ok new)
    × Added old (("team", "blue") ∷ []) new "team"
list_queue_tags-tag_queue_example =
    list_queue_tags-tag_queue here "q" pair tagged (("team", "blue") ∷ []) "team"
      (ap (λ (r : Result (Unit {0})). (tagged, r)) tags_answered)

abbrev untagged : Service
untagged = (untag_queue here "q" ("team" ∷ []) tagged).0

untags_answered : (untag_queue here "q" ("team" ∷ []) tagged).1 ≡ ok tt
unfolding untag_queue trim active_queue_by_name tag_queue store_tags commit queue_record_by_name
untags_answered = refl

list_queue_tags-untag_queue_example :
    (old : Map String) × (new : Map String) × (list_queue_tags "q" tagged ≡ ok old)
    × (list_queue_tags "q" untagged ≡ ok new)
    × Removed old ("team" ∷ []) new "team"
list_queue_tags-untag_queue_example =
    list_queue_tags-untag_queue here "q" tagged untagged ("team" ∷ []) "team"
      (ap (λ (r : Result (Unit {0})). (untagged, r)) untags_answered)

abbrev permitted : Service
permitted = (add_permission here "q" "read" ("1" ∷ []) ("receive" ∷ []) pair).0

permission_answered : (add_permission here "q" "read" ("1" ∷ []) ("receive" ∷ []) pair).1 ≡ ok tt
unfolding add_permission trim active_queue_by_name store_permissions commit
permission_answered = refl

add_permission_grants_example :
    ((trim "read" ≡ "read")
      × (p : QueuePermission) × (lookup "read"
            (permissions_of (trim "q") permitted.state.queue_permissions)
          ≡ some p)
      × (p.label ≡ "read")
      × Tidied ("1" ∷ []) p.aws_account_ids
      × Tidied ("receive" ∷ []) p.actions)
    ⊎ ((trim "read" ≢ "read")
        × (lookup "read" (permissions_of (trim "q") permitted.state.queue_permissions)
            ≡ lookup "read" (permissions_of (trim "q") pair.state.queue_permissions)))
add_permission_grants_example =
    add_permission_grants here "q" "read" pair permitted ("1" ∷ []) ("receive" ∷ []) "read"
      (ap (λ (r : Result (Unit {0})). (permitted, r)) permission_answered)

abbrev revoked : Service
revoked = (remove_permission here "q" "read" permitted).0

revoke_answered : (remove_permission here "q" "read" permitted).1 ≡ ok tt
unfolding remove_permission trim active_queue_by_name add_permission store_permissions commit
    replace_record queue_record_by_name
revoke_answered = refl

remove_permission_revokes_example :
    lookup "read" (permissions_of (trim "q") revoked.state.queue_permissions) ≡ (
      if trim "read" == "read"
      then none
      else lookup "read" (permissions_of (trim "q") permitted.state.queue_permissions))
remove_permission_revokes_example =
    remove_permission_revokes here "q" "read" permitted revoked "read"
      (ap (λ (r : Result (Unit {0})). (revoked, r)) revoke_answered)
