-- ===== src/Sqs/Receive/Fifo.antt =====
-- fifoDeliveryBlocked and compareFIFOMessageOrder of
-- core/internal/resources/sqs/application/service.go: the messages of one group.
use mildstack.Prelude.{
  ℕ, suc, zero, ◌+◌, ◌≡◌, ◌≢◌, sym, String, true, false, some, List, [], ◌∷◌, arith, get_elem?,
  trim, eq_iff,
}
use mildstack.Prelude.Text.Order.{string_lt_total}
use mildstack.Sqs.Domain.{Time, Queue, Message}
use mildstack.Sqs.Delivery.{is_fifo_queue}
use mildstack.Sqs.Service.{message_visible_in_queue}
use mildstack.Sqs.Receive.{
  compare_fifo_message_order, is_before, blocks, blocked_from, fifo_delivery_blocked, is_ready,
}
use mildstack.Sqs.Receive.Selection.{ReadyAt}

-- Where no message holds the candidate back, none of the others comes before it.
blocked_from-false :
    (name group : String) (candidate other : Message) (skip idx j : ℕ) (rest : List Message)
    → blocked_from name group candidate skip idx rest ≡ false
    → get_elem? rest j ≡ some other
    → idx + j ≢ skip
    → blocks name group candidate other ≡ false
unfolding blocked_from
blocked_from-false name group candidate other skip idx j [] b e ne = cc
blocked_from-false name group candidate other skip idx zero (m ∷ ms) b e ne = ground arith
blocked_from-false name group candidate other skip idx (suc j) (m ∷ ms) b e ne =
    blocked_from-false name group candidate other skip (suc idx) j ms (ground arith) e
      (λ h. ne (omega arith))

blocks_free :
    (name group : String) (candidate other : Message)
    → blocks name group candidate other ≡ false
    → message_visible_in_queue other name ≡ true
    → trim other.message_group_id ≡ group
    → is_before (compare_fifo_message_order other candidate) ≡ false
unfolding blocks
blocks_free name group candidate other h there e =
    ground (arith, eq_iff (trim other.message_group_id) group)

-- Neither of two messages comes before the other only if they have one identifier.
not-before_both :
    (left right : Message)
    → is_before (compare_fifo_message_order left right) ≡ false
    → is_before (compare_fifo_message_order right left) ≡ false
    → left.message_id ≡ right.message_id
unfolding is_before compare_fifo_message_order
not-before_both left right h k =
    string_lt_total left.message_id right.message_id (ground arith) (ground arith)

module _ (messages : List Message) (name : String) (queue : Queue) (now : Time) (i : ℕ)
    (m : Message) (ready : is_ready messages name queue now i m ≡ true) where
  is_ready-visible : message_visible_in_queue m name ≡ true
  unfolding is_ready
  is_ready-visible = ground arith

  is_ready-unblocked : is_fifo_queue queue ≡ true → fifo_delivery_blocked messages i m name ≡ false
  unfolding is_ready
  is_ready-unblocked fifo = ground arith

unblocked-blocks :
    (messages : List Message) (name : String) (i j : ℕ) (m other : Message)
    → fifo_delivery_blocked messages i m name ≡ false
    → trim m.message_group_id ≢ ""
    → j ≢ i
    → get_elem? messages j ≡ some other
    → blocks name (trim m.message_group_id) m other ≡ false
unfolding fifo_delivery_blocked
unblocked-blocks messages name i j m other free grouped ne found =
    blocked_from-false name (trim m.message_group_id) m other i 0 j messages
      (ground (arith, eq_iff (trim m.message_group_id) "")) found (λ h. ne (omega arith))

-- In a FIFO queue a ready message whose group is not blank has no other message of its group, visible
-- in the queue, before it.
pub fifo_first :
    (messages : List Message) (name : String) (queue : Queue) (now : Time) (i j : ℕ)
    (r : ReadyAt messages name queue now i) (other : Message)
    → is_fifo_queue queue ≡ true
    → trim r.message.message_group_id ≢ ""
    → j ≢ i
    → get_elem? messages j ≡ some other
    → message_visible_in_queue other name ≡ true
    → trim other.message_group_id ≡ trim r.message.message_group_id
    → is_before (compare_fifo_message_order other r.message) ≡ false
fifo_first messages name queue now i j r other fifo grouped ne found there group =
    blocks_free name (trim r.message.message_group_id) r.message other
      (unblocked-blocks messages name i j r.message other
        (is_ready-unblocked messages name queue now i r.message r.ready fifo) grouped ne found)
      there group

-- Two messages of one group of a FIFO queue, which is not blank, are ready at once only if they have
-- one identifier.
pub fifo_one_per_group :
    (messages : List Message) (name : String) (queue : Queue) (now : Time) (i j : ℕ)
    (r : ReadyAt messages name queue now i) (q : ReadyAt messages name queue now j)
    → is_fifo_queue queue ≡ true
    → trim r.message.message_group_id ≢ ""
    → i ≢ j
    → trim q.message.message_group_id ≡ trim r.message.message_group_id
    → q.message.message_id ≡ r.message.message_id
fifo_one_per_group messages name queue now i j r q fifo grouped ne group =
    not-before_both q.message r.message
      (fifo_first messages name queue now i j r q.message fifo grouped (λ e. ne (sym e)) q.found
        (is_ready-visible messages name queue now j q.message q.ready) group)
      (fifo_first messages name queue now j i q r.message fifo (rw group grouped) ne r.found
        (is_ready-visible messages name queue now i r.message r.ready) (sym group))
