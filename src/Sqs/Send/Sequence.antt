-- ===== src/Sqs/Send/Sequence.antt =====
-- nextSequenceNumberLocked of core/internal/resources/sqs/application/service.go, and the order of
-- a message group.
use mildstack.Prelude.{
  ℕ, suc, zero, refl, ◌≢◌, ◌⊎◌, inl, inr, ◌+◌, ◌≡◌, ◌≤◌, ◌<◌, sym, ◌∙◌, trim_idem, String, eq_iff,
  true, some, List, [], ◌∷◌, arith, trim, get_elem?,
}
use mildstack.Sqs.Domain.{Queue, Message, State}
use mildstack.Sqs.Service.{Env}
use mildstack.Sqs.Delivery.{is_fifo_queue}
use mildstack.Sqs.Receive.{compare_fifo_message_order, before}
use mildstack.Sqs.Send.{
  better_sequence, max_sequence, next_sequence_number, new_message, SendMessageRequest,
}

better_sequence-ge_best :
    (name group : String) (best : ℕ) (m : Message) → best ≤ better_sequence name group best m
unfolding better_sequence
better_sequence-ge_best name group best m = ground arith

better_sequence-ge :
    (name group : String) (best : ℕ) (m : Message)
    → trim m.queue ≡ name
    → trim m.message_group_id ≡ trim group
    → m.sequence_number ≤ better_sequence name group best m
unfolding better_sequence
better_sequence-ge name group best m q g =
    ground (arith, eq_iff (trim m.queue) name, eq_iff (trim m.message_group_id) (trim group))

max_sequence-ge_best :
    (name group : String) (best : ℕ) (ms : List Message) → best ≤ max_sequence name group best ms
unfolding max_sequence
max_sequence-ge_best name group best [] = omega arith
max_sequence-ge_best name group best (m ∷ ms) = omega (
  arith,
  better_sequence-ge_best name group best m,
  max_sequence-ge_best name group (better_sequence name group best m) ms,
)

max_sequence-ge :
    (name group : String) (ms : List Message) (best j : ℕ) (m : Message)
    → get_elem? ms j ≡ some m
    → trim m.queue ≡ name
    → trim m.message_group_id ≡ trim group
    → m.sequence_number ≤ max_sequence name group best ms
unfolding max_sequence
max_sequence-ge name group [] best j m e q g = cc
max_sequence-ge name group (x ∷ ms) best zero m e q g =
    let same : x ≡ m = cc in
    rw same (
      omega (
        arith,
        better_sequence-ge name group best m q g,
        max_sequence-ge_best name group (better_sequence name group best m) ms,
      ))
max_sequence-ge name group (x ∷ ms) best (suc j) m e q g =
    max_sequence-ge name group ms (better_sequence name group best x) j m e q g

-- The next sequence number of a group is above those of all the group's messages in the queue.
pub next_sequence_number-gt :
    (messages : List Message) (name group : String) (j : ℕ) (m : Message)
    → get_elem? messages j ≡ some m
    → trim m.queue ≡ name
    → trim m.message_group_id ≡ trim group
    → m.sequence_number < next_sequence_number messages name group
unfolding next_sequence_number
next_sequence_number-gt messages name group j m e q g =
    omega (arith, max_sequence-ge name group messages 0 j m e q g)

-- A message of the list that counts for the numbers of a group.
abbrev pub IsOf : String → String → List Message → Message → Type 0
IsOf name group messages m =
    (j : ℕ) × (get_elem? messages j ≡ some m)
    × (trim m.queue ≡ name)
    × (trim m.message_group_id ≡ trim group)

better_sequence_cases :
    (name group : String) (best : ℕ) (m : Message)
    → trim group ≢ ""
    → (better_sequence name group best m ≡ best)
      ⊎ ((trim m.queue ≡ name)
          × (trim m.message_group_id ≡ trim group)
          × (better_sequence name group best m ≡ m.sequence_number))
unfolding better_sequence
better_sequence_cases name group best m ne = ground (
  arith,
  eq_iff (trim group) "",
  eq_iff (trim m.queue) name,
  eq_iff (trim m.message_group_id) (trim group),
)

-- The maximum is the start, or the number of a message of the group.
max_sequence_reached :
    (name group : String) (best : ℕ) (ms : List Message)
    → trim group ≢ ""
    → (max_sequence name group best ms ≡ best)
      ⊎ ((m : Message) × IsOf name group ms m
          × (m.sequence_number ≡ max_sequence name group best ms))
unfolding max_sequence
max_sequence_reached name group best [] ne = inl refl
max_sequence_reached name group best (x ∷ ms) ne =
    go (max_sequence_reached name group (better_sequence name group best x) ms ne)
      (better_sequence_cases name group best x ne)
  where
    go :
        (max_sequence name group (better_sequence name group best x) ms
            ≡ better_sequence name group best x)
          ⊎ ((m : Message) × IsOf name group ms m
              × (m.sequence_number
                  ≡ max_sequence name group (better_sequence name group best x) ms))
        → (better_sequence name group best x ≡ best)
          ⊎ ((trim x.queue ≡ name)
              × (trim x.message_group_id ≡ trim group)
              × (better_sequence name group best x ≡ x.sequence_number))
        → (max_sequence name group (better_sequence name group best x) ms ≡ best)
          ⊎ ((m : Message) × IsOf name group (x ∷ ms) m
              × (m.sequence_number
                  ≡ max_sequence name group (better_sequence name group best x) ms))
    go (inr (m, (j, at, q, g), e)) k = inr (m, (suc j, at, q, g), e)
    go (inl e) (inl k) = inl (e ∙ k)
    go (inl e) (inr (q, g, k)) = inr (x, (0, refl, q, g), sym (e ∙ k))

-- The next number of a group that has a name is 1, or one more than that of some message of it.
next_sequence_number_reached :
    (messages : List Message) (name group : String)
    → trim group ≢ ""
    → (next_sequence_number messages name group ≡ 1)
      ⊎ ((m : Message) × IsOf name group messages m
          × (m.sequence_number + 1 ≡ next_sequence_number messages name group))
unfolding next_sequence_number
next_sequence_number_reached messages name group ne =
    go (max_sequence_reached name group 0 messages ne)
  where
    go :
        (max_sequence name group 0 messages ≡ 0)
          ⊎ ((m : Message) × IsOf name group messages m
              × (m.sequence_number ≡ max_sequence name group 0 messages))
        → (max_sequence name group 0 messages + 1 ≡ 1)
          ⊎ ((m : Message) × IsOf name group messages m
              × (m.sequence_number + 1 ≡ max_sequence name group 0 messages + 1))
    go (inl e) = inl (omega arith)
    go (inr (m, is, e)) = inr (m, is, omega arith)

-- The number that follows those of a group: above all of them, and 1 or one more than one of them.
abbrev pub Follows : String → String → List Message → ℕ → Type 0
Follows name group messages n =
    ((m : Message) → IsOf name group messages m → m.sequence_number < n)
    × ((n ≡ 1) ⊎ ((m : Message) × IsOf name group messages m × (m.sequence_number + 1 ≡ n)))

pub next_sequence_number-Follows :
    (messages : List Message) (name group : String)
    → trim group ≢ ""
    → Follows name group messages (next_sequence_number messages name group)
next_sequence_number-Follows messages name group ne = (
  λ m is. next_sequence_number-gt messages name group is.0 m is.1 is.2 is.3,
  next_sequence_number_reached messages name group ne,
)

-- A message that is sent to a FIFO queue stands behind every message of its group that has a
-- sequence number and waits in the queue.
pub new_message-behind :
    (env : Env) (k : ℕ) (state : State) (name : String) (queue : Queue)
    (request : SendMessageRequest) (entry_id : String) (index count j : ℕ) (m : Message)
    → is_fifo_queue queue ≡ true
    → get_elem? state.messages j ≡ some m
    → trim m.queue ≡ name
    → trim m.message_group_id ≡ trim request.message_group_id
    → 0 < m.sequence_number
    → compare_fifo_message_order m (new_message env k state name queue request entry_id index count)
      ≡ before
unfolding new_message compare_fifo_message_order
new_message-behind env k state name queue request entry_id index count j m fifo e q g positive =
    rw fifo (
      ground (
        arith,
        next_sequence_number-gt state.messages name (trim request.message_group_id) j m e q
            (g ∙ sym (trim_idem request.message_group_id)),
      ))
