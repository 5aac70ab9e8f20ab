-- ===== src/Sqs/Receive/Selection.antt =====
-- The indices that the first loop of receiveReadyMessagesLocked collects, in sorted order
-- (core/internal/resources/sqs/application/service.go).
use mildstack.Prelude.{
  ℕ, suc, ◌+◌, ◌≤◌, ◌≡◌, ◌≢◌, refl, inl, inr, String, true, some, List, [], ◌∷◌, arith, All,
  All-map, get_elem?, Bool-cases,
}
use mildstack.Prelude.Sort.{All-stable_sort}
use mildstack.Prelude.Distinct.{Distinct, Distinct-stable_sort}
use mildstack.Sqs.Domain.{Time, Queue, Message}
use mildstack.Sqs.Receive.{is_ready, ready_from, sort_messages_by_delivery}

-- A message that the first loop of a receive accepts at an index.
pub record ReadyAt (messages : List Message) (name : String) (queue : Queue) (now : Time) (idx : ℕ)
    : Type 0 where
  pub message : Message
  pub found : get_elem? messages idx ≡ some message
  pub ready : is_ready messages name queue now idx message ≡ true

module _ (messages : List Message) (name : String) (queue : Queue) (now : Time) where
  -- `rest` is what the list of all messages holds from index `k` on.
  ready_from-ReadyAt :
      (k : ℕ) (rest : List Message)
      → ((j : ℕ) (m : Message) → get_elem? rest j ≡ some m → get_elem? messages (k + j) ≡ some m)
      → All (ReadyAt messages name queue now) (ready_from messages name queue now k rest)
  unfolding ready_from
  ready_from-ReadyAt k [] h = tt
  ready_from-ReadyAt k (m ∷ ms) h =
      let tail_ready = ready_from-ReadyAt (suc k) ms later in
      elim (Bool-cases (is_ready messages name queue now k m)) [
        | inl e ↦ rw e (record { message = m; found = here; ready = e }, tail_ready)
        | inr e ↦ rw e tail_ready
      ]
    where
      here : get_elem? messages k ≡ some m
      here = let at_k : k + 0 ≡ k = omega arith in rw at_k at (h 0 m refl)

      later :
          (j : ℕ) (x : Message) → get_elem? ms j ≡ some x → get_elem? messages (suc k + j) ≡ some x
      later j x e = let moved : suc k + j ≡ k + suc j = omega arith in rw moved (h (suc j) x e)

  ready_from-le :
      (k : ℕ) (rest : List Message) → All (λ j. k ≤ j) (ready_from messages name queue now k rest)
  unfolding ready_from
  ready_from-le k [] = tt
  ready_from-le k (m ∷ ms) =
      let above =
        All-map (λ j. suc k ≤ j) (λ j. k ≤ j) (λ j h. omega arith) _ (ready_from-le (suc k) ms) in
      elim (Bool-cases (is_ready messages name queue now k m)) [
        | inl e ↦ rw e (omega arith, above)
        | inr e ↦ rw e above
      ]

  ready_from-Distinct :
      (k : ℕ) (rest : List Message) → Distinct (ready_from messages name queue now k rest)
  unfolding ready_from
  ready_from-Distinct k [] = tt
  ready_from-Distinct k (m ∷ ms) =
      let apart =
        All-map (λ j. suc k ≤ j) (λ j. k ≢ j) (λ j h. omega arith) _ (ready_from-le (suc k) ms) in
      elim (Bool-cases (is_ready messages name queue now k m)) [
        | inl e ↦ rw e (apart, ready_from-Distinct (suc k) ms)
        | inr e ↦ rw e (ready_from-Distinct (suc k) ms)
      ]

  -- The indices of the messages that a receive may take, in the order in which it takes them.
  unfoldable pub delivery_order : List ℕ
  delivery_order =
      sort_messages_by_delivery messages (ready_from messages name queue now 0 messages) queue

  pub delivery_order-ReadyAt : All (ReadyAt messages name queue now) delivery_order
  unfolding delivery_order sort_messages_by_delivery
  delivery_order-ReadyAt =
      All-stable_sort _ (ReadyAt messages name queue now) _
        (ready_from-ReadyAt 0 messages (λ j m e. let same : 0 + j ≡ j = omega arith in rw same e))

  pub delivery_order-Distinct : Distinct delivery_order
  unfolding delivery_order sort_messages_by_delivery
  delivery_order-Distinct = Distinct-stable_sort _ _ (ready_from-Distinct 0 messages)
