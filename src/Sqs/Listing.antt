-- ===== src/Sqs/Listing.antt =====
-- core/internal/resources/sqs/application/service.go: GetQueueUrl, ListQueues,
-- GetQueueAttributes and ListDeadLetterSourceQueues; with ListQueues of domain/state.go.
use text.Mathlib.Text.{starts_with}
use mildstack.Prelude.{
  ℕ, ◌+◌, ◌-◌, String, ◌==◌, Bool, false, not, ◌&&◌, ◌||◌, Option, none, some, List, [], ◌∷◌, Map,
  map, if◌then◌else◌, trim, equal_fold, ltb, eqb, insert, retain, length, filter_if, get_elem?,
  take, drop, string_lt,
}
use mildstack.Prelude.Sort.{stable_sort}
use mildstack.Prelude.Numeral.{ℤ, itoa, pos_part}
use mildstack.Sqs.Batch.{contains}
use mildstack.Sqs.Domain.{Time, is_zero, Queue, Message}
use mildstack.Sqs.Delivery.{is_delayed, is_invisible}
use mildstack.Sqs.Names.{queue_url_for_account, queue_arn_for_account, owner_account_matches}
use mildstack.Sqs.Lifecycle.{QueueAttributesView}
use mildstack.Sqs.Service.{
  Env, Service, Result, ok, err, queue_name_required, queue_not_found, active_queue_by_name,
  message_visible_in_queue,
}

unfoldable pub url_found : String → String → Option Queue → Result String
url_found queue_name owner none = err queue_not_found
url_found queue_name owner (some queue) =
    if not (owner_account_matches owner)
    then err queue_not_found
    else if queue.url == ""
    then ok (queue_url_for_account queue_name owner)
    else ok queue.url

unfoldable pub get_queue_url : String → String → Service → Result String
unfolding url_found
get_queue_url raw_name owner s =
    if trim raw_name == ""
    then err queue_name_required
    else url_found (trim raw_name) owner (active_queue_by_name (trim raw_name) s.state.queues)

name_lt : Queue → Queue → Bool
name_lt left right = string_lt left.name right.name

-- `State.ListQueues`
unfoldable pub sorted_queues : List Queue → List Queue
unfolding name_lt
sorted_queues queues = stable_sort name_lt queues

-- The tests of the loop that gathers `activeQueues`.
unfoldable pub is_listed : String → Queue → Bool
is_listed prefix queue = is_zero queue.deleted_at && (prefix == "" || starts_with queue.name prefix)

unfoldable pub with_url : Queue → Queue
with_url queue =
    if queue.url == "" then record queue { url = queue_url_for_account queue.name "" } else queue

unfoldable pub active_queues : String → List Queue → List Queue
unfolding sorted_queues is_listed with_url
active_queues prefix queues = map with_url (filter_if (is_listed prefix) (sorted_queues queues))

-- The loop that looks for the token, from index `i` on; `start` is `startIndex`.
unfoldable pub start_after : String → ℕ → ℕ → List Queue → ℕ
start_after token i start [] = start
start_after token i start (q ∷ qs) =
    let rest = start_after token (i + 1) (if q.name == token then i + 1 else start) qs in
    if string_lt token q.name then i else rest

unfoldable pub start_index : String → List Queue → ℕ
unfolding start_after
start_index token queues = if token == "" then 0 else start_after token 0 (length queues) queues

unfoldable pub end_index : ℕ → ℕ → ℕ → ℕ
end_index max_results start total =
    if ltb 0 max_results && ltb (start + max_results) total then start + max_results else total

unfoldable pub name_at : Option Queue → String
name_at none = ""
name_at (some queue) = queue.name

abbrev clamped : ℕ → ℕ → ℕ
clamped start total = if ltb total start then total else start

-- The page that starts at index `start`, and the token of the next one.
unfoldable pub page_from : ℕ → ℕ → List Queue → List Queue × String
unfolding end_index name_at
page_from max_results start queues =
    let last = end_index max_results start (length queues) in
    (
      take (last - start) (drop start queues),
      if ltb last (length queues) then name_at (get_elem? queues (last - 1)) else "",
    )

unfoldable pub list_queues : String → ℤ → String → String → Service → Result (List Queue × String)
unfolding active_queues start_index page_from
list_queues prefix max_results token owner s =
    if not (owner_account_matches (trim owner))
    then err queue_not_found
    else let queues = active_queues (trim prefix) s.state.queues in
      ok (
        page_from (pos_part max_results) (clamped (start_index (trim token) queues) (length queues))
          queues)

unfoldable pub counts : Queue → Time → Message → Bool
counts queue now message =
    if not (message_visible_in_queue message queue.name)
    then false
    else not (is_delayed message now || is_invisible message queue now)

-- `approximateVisibleMessages`
unfoldable pub approximate_visible_messages : Queue → List Message → Time → ℕ
unfolding counts
approximate_visible_messages queue messages now = length (filter_if (counts queue now) messages)

unfoldable pub has_all : List String → Bool
has_all [] = false
has_all (n ∷ ns) = equal_fold (trim n) "All" || has_all ns

unfoldable pub select_queue_attributes :
    Map String → List String → String → Queue → List Message → Time → Map String
unfolding has_all
select_queue_attributes attributes names arn queue messages now =
    let visible = itoa (approximate_visible_messages queue messages now) in
    if eqb (length attributes) 0 && eqb (length names) 0
    then ("QueueArn", arn) ∷ ("ApproximateNumberOfMessages", visible) ∷ []
    else let selected : Map String =
        if eqb (length names) 0 || has_all names
        then attributes
        else retain (λ key value. contains key (map trim names)) attributes in
      insert "ApproximateNumberOfMessages" visible (insert "QueueArn" arn selected)

unfoldable pub attributes_found :
    Env → String → List String → String → Service → Option Queue → Result QueueAttributesView
unfolding select_queue_attributes
attributes_found env queue_name names owner s none = err queue_not_found
attributes_found env queue_name names owner s (some queue) =
    if not (owner_account_matches owner)
    then err queue_not_found
    else ok (record {
      queue_name = queue_name;
      queue_url = queue_url_for_account queue_name owner;
      queue_arn = queue_arn_for_account queue_name owner;
      attributes =
          select_queue_attributes queue.attributes names (queue_arn_for_account queue_name "") queue
            s.state.messages (env.clock 0);
    })

unfoldable pub get_queue_attributes :
    Env → String → List String → String → Service → Result QueueAttributesView
unfolding attributes_found
get_queue_attributes env raw_name names owner s =
    if trim raw_name == ""
    then err queue_name_required
    else attributes_found env (trim raw_name) names (trim owner) s
        (active_queue_by_name (trim raw_name) s.state.queues)

unfoldable pub feeds : String → Queue → Bool
feeds queue_name queue = is_zero queue.deleted_at && queue.recovery.dead_letter_queue == queue_name

unfoldable pub list_dead_letter_source_queues : String → Service → Result (List String)
unfolding feeds sorted_queues
list_dead_letter_source_queues raw_name s =
    let name = trim raw_name in
    if name == ""
    then err queue_name_required
    else elim (active_queue_by_name name s.state.queues) [
      | none ↦ err queue_not_found
      | some queue ↦ ok (
          stable_sort string_lt
            (map (λ q. q.name) (filter_if (feeds name) (sorted_queues s.state.queues))))
    ]
