-- ===== src/Sqs/Permissions/Laws.antt =====
-- The permissions of a queue after AddPermission and RemovePermission of
-- core/internal/resources/sqs/application/service.go.
use mildstack.Prelude.{
  ◌≡◌, ◌≢◌, ◌⊎◌, refl, Bool-cases, ◌∙◌, ap, String, ◌==◌, eq_iff, none, some, List, arith, Map,
  trim, lookup, insert, lookup-insert, lookup-delete, Option-cases, inl, inr, if◌then◌else◌,
}
use mildstack.Sqs.Domain.{Queue, QueuePermission}
use mildstack.Sqs.Service.{Env, Service, ok, active_queue_by_name}
use mildstack.Sqs.Service.Commit.{commit_ok}
use mildstack.Sqs.Permissions.Tidied.{Tidied, unique_sorted_trimmed_strings-Tidied}
use mildstack.Sqs.Tags.Laws.{active_found}
use mildstack.Sqs.Permissions.{
  permissions_of, store_permissions, granted, add_permission, remove_permission,
}

permissions_of-insert :
    (name : String) (new : Map QueuePermission) (all : Map (Map QueuePermission))
    → permissions_of name (insert name new all) ≡ new
unfolding permissions_of
permissions_of-insert name new all =
    rw (permissions_of, lookup-insert name name new all) (ground (arith, eq_iff name name))

module _ (env : Env) (raw_name raw_label : String) (s s' : Service) where
  stored :
      (queue : Queue) (new : Map QueuePermission)
      → active_queue_by_name (trim raw_name) s.state.queues ≡ some queue
      → store_permissions env (trim raw_name) s queue new ≡ (s', ok tt)
      → permissions_of (trim raw_name) s'.state.queue_permissions ≡ new
  unfolding store_permissions
  stored queue new found e =
      let (state, u, durable) = commit_ok env 0 _ tt s' tt e in
      let (same, live) = active_found (trim raw_name) s.state.queues queue found in
      rw (state, same) (permissions_of-insert (trim raw_name) new s.state.queue_permissions)

  lookup-granted :
      (accounts actions : List String) (label : String)
      → add_permission env raw_name raw_label accounts actions s ≡ (s', ok tt)
      → lookup label (permissions_of (trim raw_name) s'.state.queue_permissions) ≡ (
          if trim raw_label == label
          then some (granted env (trim raw_label) accounts actions)
          else lookup label (permissions_of (trim raw_name) s.state.queue_permissions))
  unfolding add_permission
  lookup-granted accounts actions label e =
      elim (Option-cases (active_queue_by_name (trim raw_name) s.state.queues)) [
        | inl missing ↦ absurd (ground arith)
        | inr (queue, found) ↦
            ap (lookup label) (stored queue _ found (ground arith))
            ∙ lookup-insert (trim raw_label) label _ _
      ]

  label-granted :
      (accounts actions : List String)
      → (granted env (trim raw_label) accounts actions).label ≡ trim raw_label
  unfolding granted
  label-granted accounts actions = refl

  accounts-granted :
      (accounts actions : List String)
      → Tidied accounts (granted env (trim raw_label) accounts actions).aws_account_ids
  unfolding granted
  accounts-granted accounts actions = unique_sorted_trimmed_strings-Tidied accounts

  actions-granted :
      (accounts actions : List String)
      → Tidied actions (granted env (trim raw_label) accounts actions).actions
  unfolding granted
  actions-granted accounts actions = unique_sorted_trimmed_strings-Tidied actions

  -- After a permission is added, its trimmed label leads to one with that label, whose accounts and
  -- actions are those that were given: trimmed, in order, none twice and none blank. Every other label
  -- of the queue leads to what it did.
  pub add_permission_grants :
      (accounts actions : List String) (label : String)
      → add_permission env raw_name raw_label accounts actions s ≡ (s', ok tt)
      → ((trim raw_label ≡ label)
          × (p : QueuePermission) × (lookup label
                (permissions_of (trim raw_name) s'.state.queue_permissions)
              ≡ some p)
          × (p.label ≡ label)
          × Tidied accounts p.aws_account_ids
          × Tidied actions p.actions)
        ⊎ ((trim raw_label ≢ label)
            × (lookup label (permissions_of (trim raw_name) s'.state.queue_permissions)
                ≡ lookup label (permissions_of (trim raw_name) s.state.queue_permissions)))
  add_permission_grants accounts actions label e = elim (Bool-cases (trim raw_label == label)) [
    | inl h ↦
        let same : trim raw_label ≡ label = ground (arith, eq_iff (trim raw_label) label) in
        inl (
          same,
          granted env (trim raw_label) accounts actions,
          lookup-granted accounts actions label e ∙ rw h refl,
          label-granted accounts actions ∙ same,
          accounts-granted accounts actions,
          actions-granted accounts actions,
        )
    | inr h ↦ inr (
      λ e'. ground (arith, e', eq_iff (trim raw_label) label),
      lookup-granted accounts actions label e ∙ rw h refl,
    )
  ]

  -- After a permission is removed, its trimmed label leads to nothing, and every other label of the
  -- queue leads to what it did.
  pub remove_permission_revokes :
      (label : String)
      → remove_permission env raw_name raw_label s ≡ (s', ok tt)
      → lookup label (permissions_of (trim raw_name) s'.state.queue_permissions) ≡ (
          if trim raw_label == label
          then none
          else lookup label (permissions_of (trim raw_name) s.state.queue_permissions))
  unfolding remove_permission
  remove_permission_revokes label e =
      elim (Option-cases (active_queue_by_name (trim raw_name) s.state.queues)) [
        | inl missing ↦ absurd (ground arith)
        | inr (queue, found) ↦
            ap (lookup label) (stored queue _ found (ground arith))
            ∙ lookup-delete (trim raw_label) label _
      ]
