-- ===== src/Sqs/Delivery/Laws.antt =====
-- The delivery states of core/internal/resources/sqs/application/delivery_state.go: delayed,
-- visible and invisible.
use mildstack.Prelude.{◌<◌, ◌≡◌, ◌⊎◌, true, false, arith}
use mildstack.Sqs.Domain.{Time, second, Queue, Message}
use mildstack.Sqs.Delivery.{second, is_delayed, is_visible, is_invisible, visibility_timeout}
use mildstack.Prelude.Numeral.{is_positive}

pub visibility_timeout-pos : (q : Queue) (m : Message) → 0 < visibility_timeout q m
unfolding visibility_timeout second is_positive
visibility_timeout-pos q m = ground arith

-- A message is in exactly one of the states delayed, visible and invisible.
pub delivery_states :
    (m : Message) (q : Queue) (now : Time)
    → ((is_delayed m now ≡ true) × (is_visible m q now ≡ false) × (is_invisible m q now ≡ false))
      ⊎ ((is_delayed m now ≡ false) × (is_visible m q now ≡ true) × (is_invisible m q now ≡ false))
      ⊎ ((is_delayed m now ≡ false) × (is_visible m q now ≡ false) × (is_invisible m q now ≡ true))
unfolding is_invisible
delivery_states m q now = ground arith
