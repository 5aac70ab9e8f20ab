-- ===== src/Sqs/Worker.antt =====
-- core/internal/resources/sqs/application/worker.go: the worker that waits for leases to end and
-- sweeps for dead letters.
pub mod Wakes
use mildstack.Prelude.{
  ℕ, zero, suc, ◌-◌, String, Bool, true, false, not, ◌&&◌, ◌||◌, Option, none, some, List, [], ◌∷◌,
  if◌then◌else◌, ltb, leb, eqb,
}
use mildstack.Sqs.Domain.{Time, Queue, Message}
use mildstack.Sqs.Delivery.{
  is_delayed, is_invisible, can_redeliver, is_dead_letter_eligible, lease_deadline,
}
use mildstack.Sqs.Service.{Env, Service, active_queue_by_name}
use mildstack.Sqs.DeadLetter.{sweep_dead_letters}
use mildstack.Sqs.Receive.{worker_poll_interval}

-- `wait >= 0 && wait < next`, where `wait` is the time from `now` to `due`.
unfoldable pub sooner : Time → Time → ℕ → ℕ
sooner due now next = if leb now due && ltb (due - now) next then due - now else next

unfoldable pub poll_found : Time → Message → Option Queue → ℕ → ℕ
poll_found now message none next = next
poll_found now message (some queue) next =
    if is_delayed message now
    then sooner message.available_at now next
    else if is_invisible message queue now
    then sooner (lease_deadline message queue) now next
    else next

unfoldable pub poll_from : List Queue → Time → ℕ → List Message → ℕ
unfolding poll_found
poll_from queues now next [] = next
poll_from queues now next (m ∷ ms) =
    poll_from queues now (poll_found now m (active_queue_by_name m.queue queues) next) ms

-- `poll`: the `tick` of a worker is the poll interval.
unfoldable pub poll : Service → Time → ℕ
unfolding poll_from
poll s now = poll_from s.state.queues now worker_poll_interval s.state.messages

-- `leaseSnapshot`
pub record LeaseSnapshot : Type 0 where
  pub queue : String
  pub message : String
  pub ready_in : ℕ

unfoldable pub lease_found : Time → Message → Option Queue → List LeaseSnapshot → List LeaseSnapshot
lease_found now message none rest = rest
lease_found now message (some queue) rest =
    if not (is_invisible message queue now)
    then rest
    else record {
      queue = message.queue;
      message = message.message_id;
      ready_in = lease_deadline message queue - now;
    }
      ∷ rest

-- The loop of `lease`.
unfoldable pub leases : List Queue → Time → List Message → List LeaseSnapshot
unfolding lease_found
leases queues now [] = []
leases queues now (m ∷ ms) =
    lease_found now m (active_queue_by_name m.queue queues) (leases queues now ms)

unfoldable pub redeliver_found : Time → Message → Option Queue → List Message → List Message
redeliver_found now message none rest = rest
redeliver_found now message (some queue) rest =
    if can_redeliver message queue now && not (is_dead_letter_eligible message queue now)
    then message ∷ rest
    else rest

-- The loop of `redeliver`.
unfoldable pub redeliver : List Queue → Time → List Message → List Message
unfolding redeliver_found
redeliver queues now [] = []
redeliver queues now (m ∷ ms) =
    redeliver_found now m (active_queue_by_name m.queue queues) (redeliver queues now ms)

-- `advance`
unfoldable pub advance : Env → ℕ → Time → Service → Service × ℕ
advance env k now s = sweep_dead_letters env k now s

-- The time for which `run` sets its timer.
unfoldable pub next_wait : Service → Time → ℕ
next_wait s now =
    if eqb (poll s now) 0 || ltb worker_poll_interval (poll s now)
    then worker_poll_interval
    else poll s now

-- `rounds` turns of the loop of `run`, until the context ends: `others k` is what other calls do
-- while the `k`th timer runs.
unfoldable pub run_rounds : Env → (ℕ → Service → Service) → ℕ → ℕ → Service → Service
run_rounds env others zero k s = s
run_rounds env others (suc rounds) k s =
    run_rounds env others rounds (suc k) (advance env k (env.clock (suc k)) (others k s)).0
