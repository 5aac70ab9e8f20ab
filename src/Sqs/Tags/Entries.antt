-- ===== src/Sqs/Tags/Entries.antt =====
-- What ListQueueTags answers for each key after TagQueue and UntagQueue of
-- core/internal/resources/sqs/application/service.go. Go walks the map of the tags that are given in
-- no fixed order, so where two of its keys trim to one, either may be the last: the theorem says that
-- the key has the value of one of them.
use mildstack.Prelude.{
  ℕ, suc, ◌≡◌, ◌≢◌, ◌∙◌, ◌⊎◌, refl, String, ◌==◌, eq_iff, false, none, some, List, [], ◌∷◌, arith,
  Map, trim, insert, delete, lookup, lookup-insert, lookup-delete, All, get_elem?, Bool-cases,
  Option-cases, inl, inr,
}
use mildstack.Sqs.Domain.{Queue}
use mildstack.Sqs.Service.{Env, Service, ok, active_queue_by_name}
use mildstack.Sqs.Tags.{tags_of, add_tags, remove_tags, tag_queue, untag_queue, list_queue_tags}
use mildstack.Sqs.Tags.Laws.{store_tags-list}

-- A tag that is given under `key`, spaces around it left out, with this value.
abbrev pub Given : Map String → String → String → Type 0
Given tags key value =
    (j : ℕ) × (raw : String) × (get_elem? tags j ≡ some (raw, value))
    × (trim raw ≡ key)
    × (key ≢ "")

-- No tag is given under `key`; a blank key gives none.
abbrev pub NoneGiven : Map String → String → Type 0
NoneGiven tags key = All (λ (tag : String × String). (trim tag.0 ≡ key) → key ≡ "") tags

-- The value of a key before and after the tags are added.
abbrev pub Added : Map String → Map String → Map String → String → Type 0
Added old tags new key =
    ((value : String) × Given tags key value × (lookup key new ≡ some value))
    ⊎ (NoneGiven tags key × (lookup key new ≡ lookup key old))

abbrev pub Removed : Map String → List String → Map String → String → Type 0
Removed old keys new key =
    ((j : ℕ) × (raw : String) × (get_elem? keys j ≡ some raw)
      × (trim raw ≡ key)
      × (key ≢ "")
      × (lookup key new ≡ none))
    ⊎ (All (λ raw. (trim raw ≡ key) → key ≡ "") keys × (lookup key new ≡ lookup key old))

module _ (key : String) where
  -- One more tag in front, whose key trims to another or to nothing.
  Added-cons_other :
      (old now new tags : Map String) (raw value : String)
      → ((trim raw ≡ key) → key ≡ "")
      → lookup key now ≡ lookup key old
      → Added now tags new key
      → Added old ((raw, value) ∷ tags) new key
  Added-cons_other old now new tags raw value other same (inl (v, (j, r, at, e, ne), found)) =
      inl (v, (suc j, r, at, e, ne), found)
  Added-cons_other old now new tags raw value other same (inr (outside, kept)) =
      inr ((other, outside), kept ∙ same)

  Added-cons_same :
      (old now new tags : Map String) (raw value : String)
      → trim raw ≡ key
      → key ≢ ""
      → lookup key now ≡ some value
      → Added now tags new key
      → Added old ((raw, value) ∷ tags) new key
  Added-cons_same old now new tags raw value e ne is (inl (v, (j, r, at, e', ne'), found)) =
      inl (v, (suc j, r, at, e', ne'), found)
  Added-cons_same old now new tags raw value e ne is (inr (outside, kept)) =
      inl (value, (0, raw, refl, e, ne), kept ∙ is)

  add_tags-Added : (old tags : Map String) → Added old tags (add_tags old tags) key
  unfolding add_tags
  add_tags-Added old [] = inr (tt, refl)
  add_tags-Added old ((raw, value) ∷ tags) = elim (Bool-cases (trim raw == "")) [
    | inl blank ↦ rw blank (
        Added-cons_other old old (add_tags old tags) tags raw value
          (λ e. ground (arith, e, eq_iff (trim raw) "")) refl (add_tags-Added old tags))
    | inr named ↦ rw named (later named (add_tags-Added (insert (trim raw) value old) tags))
  ]
    where
      now : Map String
      now = insert (trim raw) value old

      later :
          (trim raw == "") ≡ false
          → Added now tags (add_tags now tags) key
          → Added old ((raw, value) ∷ tags) (add_tags now tags) key
      later named rest = elim (Bool-cases (trim raw == key)) [
        | inl h ↦
            Added-cons_same old now (add_tags now tags) tags raw value
              (ground (arith, eq_iff (trim raw) key))
              (λ e. ground (arith, e, eq_iff (trim raw) key, eq_iff (trim raw) ""))
              (lookup-insert (trim raw) key value old ∙ rw h refl) rest
        | inr h ↦
            Added-cons_other old now (add_tags now tags) tags raw value
              (λ e. ground (arith, e, eq_iff (trim raw) key))
              (lookup-insert (trim raw) key value old ∙ rw h refl) rest
      ]

  Removed-cons_other :
      (old now new : Map String) (keys : List String) (raw : String)
      → ((trim raw ≡ key) → key ≡ "")
      → lookup key now ≡ lookup key old
      → Removed now keys new key
      → Removed old (raw ∷ keys) new key
  Removed-cons_other old now new keys raw other same (inl (j, r, at, e, ne, gone)) =
      inl (suc j, r, at, e, ne, gone)
  Removed-cons_other old now new keys raw other same (inr (outside, kept)) =
      inr ((other, outside), kept ∙ same)

  Removed-cons_same :
      (old now new : Map String) (keys : List String) (raw : String)
      → trim raw ≡ key
      → key ≢ ""
      → lookup key now ≡ none
      → Removed now keys new key
      → Removed old (raw ∷ keys) new key
  Removed-cons_same old now new keys raw e ne is (inl (j, r, at, e', ne', gone)) =
      inl (suc j, r, at, e', ne', gone)
  Removed-cons_same old now new keys raw e ne is (inr (outside, kept)) =
      inl (0, raw, refl, e, ne, kept ∙ is)

  remove_tags-Removed :
      (old : Map String) (keys : List String) → Removed old keys (remove_tags old keys) key
  unfolding remove_tags
  remove_tags-Removed old [] = inr (tt, refl)
  remove_tags-Removed old (raw ∷ keys) = elim (Bool-cases (trim raw == "")) [
    | inl blank ↦ rw blank (
        Removed-cons_other old old (remove_tags old keys) keys raw
          (λ e. ground (arith, e, eq_iff (trim raw) "")) refl (remove_tags-Removed old keys))
    | inr named ↦ rw named (later named (remove_tags-Removed (delete (trim raw) old) keys))
  ]
    where
      now : Map String
      now = delete (trim raw) old

      later :
          (trim raw == "") ≡ false
          → Removed now keys (remove_tags now keys) key
          → Removed old (raw ∷ keys) (remove_tags now keys) key
      later named rest = elim (Bool-cases (trim raw == key)) [
        | inl h ↦
            Removed-cons_same old now (remove_tags now keys) keys raw
              (ground (arith, eq_iff (trim raw) key))
              (λ e. ground (arith, e, eq_iff (trim raw) key, eq_iff (trim raw) ""))
              (lookup-delete (trim raw) key old ∙ rw h refl) rest
        | inr h ↦
            Removed-cons_other old now (remove_tags now keys) keys raw
              (λ e. ground (arith, e, eq_iff (trim raw) key))
              (lookup-delete (trim raw) key old ∙ rw h refl) rest
      ]

module _ (env : Env) (raw_name : String) (s s' : Service) where
  list_queue_tags_found :
      (queue : Queue)
      → (trim raw_name == "") ≡ false
      → active_queue_by_name (trim raw_name) s.state.queues ≡ some queue
      → list_queue_tags raw_name s ≡ ok (tags_of (trim raw_name) s.state.queue_tags)
  unfolding list_queue_tags
  list_queue_tags_found queue named found = rw (named, found) refl

  -- A TagQueue that succeeds is one whose queue is listed before and after it. For every key the list
  -- afterwards gives the value of a tag that was given under it, spaces around the key left out, or,
  -- where none was, what the list before gave; a tag under a blank key leaves nothing.
  pub list_queue_tags-tag_queue :
      (tags : Map String) (key : String)
      → tag_queue env raw_name tags s ≡ (s', ok tt)
      → (old : Map String) × (new : Map String) × (list_queue_tags raw_name s ≡ ok old)
        × (list_queue_tags raw_name s' ≡ ok new)
        × Added old tags new key
  unfolding tag_queue
  list_queue_tags-tag_queue tags key e =
      elim (Option-cases (active_queue_by_name (trim raw_name) s.state.queues)) [
        | inl missing ↦ absurd (ground arith)
        | inr (queue, found) ↦ (
          tags_of (trim raw_name) s.state.queue_tags,
          add_tags (tags_of (trim raw_name) s.state.queue_tags) tags,
          list_queue_tags_found queue (ground arith) found,
          store_tags-list env raw_name s s' queue _ (ground arith) found (ground arith),
          add_tags-Added key (tags_of (trim raw_name) s.state.queue_tags) tags,
        )
      ]

  -- An UntagQueue that succeeds is one whose queue is listed before and after it. The list afterwards
  -- gives nothing for a key that was given, spaces around it left out, and what the list before gave
  -- for every other key; a blank key removes nothing.
  pub list_queue_tags-untag_queue :
      (keys : List String) (key : String)
      → untag_queue env raw_name keys s ≡ (s', ok tt)
      → (old : Map String) × (new : Map String) × (list_queue_tags raw_name s ≡ ok old)
        × (list_queue_tags raw_name s' ≡ ok new)
        × Removed old keys new key
  unfolding untag_queue
  list_queue_tags-untag_queue keys key e =
      elim (Option-cases (active_queue_by_name (trim raw_name) s.state.queues)) [
        | inl missing ↦ absurd (ground arith)
        | inr (queue, found) ↦ (
          tags_of (trim raw_name) s.state.queue_tags,
          remove_tags (tags_of (trim raw_name) s.state.queue_tags) keys,
          list_queue_tags_found queue (ground arith) found,
          store_tags-list env raw_name s s' queue _ (ground arith) found (ground arith),
          remove_tags-Removed key (tags_of (trim raw_name) s.state.queue_tags) keys,
        )
      ]
