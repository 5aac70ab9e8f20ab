-- ===== src/Sqs/DeadLetter/Sweep.antt =====
-- One round of sweepDeadLettersLocked of core/internal/resources/sqs/application/service.go.
use mildstack.Prelude.{
  ◌≡◌, ◌≢◌, refl, sym, ap, ◌∙◌, inl, inr, ◌==◌, ◌||◌, Bool, true, false, Option, none, some, List,
  [], Map, arith, trim, trim_idem, eq_iff, Bool-cases, Option-cases,
}
use mildstack.Sqs.Domain.{Time, Queue, Message, RecoveryMetadata}
use mildstack.Sqs.Delivery.{is_dead_letter_eligible}
use mildstack.Sqs.Service.{Env, active_queue_by_name}
use mildstack.Sqs.DeadLetter.{
  dead_lettered, move_message_to_dead_letter, sweep_found, sweep_message,
}

-- A message that no round moves: its queue is missing, it is not eligible, or has nowhere to go.
abbrev pub IsSettled : Env → List Queue → Time → Message → Type 0
IsSettled env queues now m =
    (metadata : Map RecoveryMetadata)
    → sweep_message env queues now m metadata ≡ (m, metadata, false)

-- A round leaves its message alone, or dead-letters it out of its queue because it was eligible.
pub data Swept (env : Env) (queues : List Queue) (now : Time) (m m' : Message) (b : Bool)
    : Type 0 where
  left : m' ≡ m → b ≡ false → IsSettled env queues now m → Swept env queues now m m' b
  moved :
      (source : Queue)
      → active_queue_by_name m.queue queues ≡ some source
      → is_dead_letter_eligible m source now ≡ true
      → trim source.recovery.dead_letter_queue ≢ ""
      → m' ≡ dead_lettered env queues now source (trim source.recovery.dead_letter_queue) m
      → b ≡ true
      → Swept env queues now m m' b

module _ (env : Env) (queues : List Queue) (now : Time) where
  nowhere : Queue → Message → Bool
  nowhere source m =
      trim source.recovery.dead_letter_queue == ""
      || trim m.dead_letter_queue == trim source.recovery.dead_letter_queue

  move-left :
      (m : Message) (metadata : Map RecoveryMetadata) (source : Queue)
      → nowhere source m ≡ true
      → move_message_to_dead_letter env queues now source m metadata ≡ (m, metadata, false)
  unfolding move_message_to_dead_letter nowhere
  move-left m metadata source h = rw h

  move-moved :
      (m : Message) (metadata : Map RecoveryMetadata) (source : Queue)
      → nowhere source m ≡ false
      → ((move_message_to_dead_letter env queues now source m metadata).0
          ≡ dead_lettered env queues now source (trim source.recovery.dead_letter_queue) m)
        × ((move_message_to_dead_letter env queues now source m metadata).2 ≡ true)
        × (trim source.recovery.dead_letter_queue ≢ "")
  unfolding move_message_to_dead_letter nowhere
  move-moved m metadata source h =
      (rw h, rw h, λ e. ground (arith, eq_iff (trim source.recovery.dead_letter_queue) ""))

  sweep_found-eq :
      (m : Message) (metadata : Map RecoveryMetadata) (found : Option Queue)
      → active_queue_by_name m.queue queues ≡ found
      → sweep_message env queues now m metadata ≡ sweep_found env queues now m metadata found
  unfolding sweep_message
  sweep_found-eq m metadata found e = rw e

  sweep_found-Swept :
      (m : Message) (metadata : Map RecoveryMetadata) (found : Option Queue)
      → active_queue_by_name m.queue queues ≡ found
      → Swept env queues now m
          (sweep_found env queues now m metadata found).0
          (sweep_found env queues now m metadata found).2
  unfolding sweep_found
  sweep_found-Swept m metadata none e = left refl refl (λ md. sweep_found-eq m md none e)
  sweep_found-Swept m metadata (some source) e =
      elim (Bool-cases (is_dead_letter_eligible m source now)) [
        | inr h ↦
            rw h (left refl refl (λ md. sweep_found-eq m md (some source) e ∙ rw (h, sweep_found)))
        | inl h ↦ elim (Bool-cases (nowhere source m)) [
          | inl n ↦
              rw (h, move-left m metadata source n)
                (left refl refl (λ md.
                  sweep_found-eq m md (some source) e
                  ∙ rw (h, sweep_found) (move-left m md source n)))
          | inr n ↦
              let (is, flag, ne) = move-moved m metadata source n in
              rw h (moved source e h ne is flag)
        ]
      ]

  -- One round of a sweep.
  pub sweep_message-Swept :
      (m : Message) (metadata : Map RecoveryMetadata)
      → Swept env queues now m
          (sweep_message env queues now m metadata).0
          (sweep_message env queues now m metadata).2
  unfolding sweep_message
  sweep_message-Swept m metadata = sweep_found-Swept m metadata _ refl

  -- What was moved is not eligible again.
  dead_lettered-not_eligible :
      (source queue : Queue) (m : Message)
      → trim source.recovery.dead_letter_queue ≢ ""
      → is_dead_letter_eligible
          (dead_lettered env queues now source (trim source.recovery.dead_letter_queue) m)
          queue
          now
        ≡ false
  unfolding is_dead_letter_eligible dead_lettered
  dead_lettered-not_eligible source queue m ne =
      rw (trim_idem source.recovery.dead_letter_queue)
        (ground (arith, eq_iff (trim source.recovery.dead_letter_queue) ""))

  not_eligible-IsSettled :
      (m : Message)
      → ((q : Queue) → is_dead_letter_eligible m q now ≡ false)
      → IsSettled env queues now m
  unfolding sweep_message sweep_found
  not_eligible-IsSettled m h metadata = elim (Option-cases (active_queue_by_name m.queue queues)) [
    | inl e ↦ rw (e, sweep_found)
    | inr (q, e) ↦ rw (e, sweep_found) (rw (h q))
  ]

  pub Swept-IsSettled :
      {m m' : Message} {b : Bool} → Swept env queues now m m' b → IsSettled env queues now m'
  Swept-IsSettled (left e f settled) = rw e settled
  Swept-IsSettled {m} (moved source found eligible ne e f) =
      rw e (not_eligible-IsSettled _ (λ q. dead_lettered-not_eligible source q m ne))

  -- A message that is eligible and has somewhere to go is not settled.
  pub eligible-moves :
      (m : Message) (source : Queue)
      → active_queue_by_name m.queue queues ≡ some source
      → is_dead_letter_eligible m source now ≡ true
      → trim source.recovery.dead_letter_queue ≢ ""
      → IsSettled env queues now m
      → ⊥
  unfolding sweep_found nowhere is_dead_letter_eligible
  eligible-moves m source e h ne settled =
      let somewhere : nowhere source m ≡ false = ground (
        arith,
        eq_iff (trim source.recovery.dead_letter_queue) "",
        eq_iff (trim m.dead_letter_queue) "",
        eq_iff (trim m.dead_letter_queue) (trim source.recovery.dead_letter_queue),
      ) in
      let (is, flag, there) = move-moved m [] source somewhere in
      let round : sweep_message env queues now m []
          ≡ move_message_to_dead_letter env queues now source m [] =
        sweep_found-eq m [] (some source) e ∙ rw (h, sweep_found) in
      let still : (move_message_to_dead_letter env queues now source m []).2 ≡ false =
        ap (λ (r : Message × Map RecoveryMetadata × Bool). r.2) (sym round ∙ settled []) in
      ground arith
