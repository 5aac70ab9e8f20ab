-- ===== src/Sqs/Receive/Polling.antt =====
-- The long poll of ReceiveMessage of core/internal/resources/sqs/application/service.go, and the
-- fuel of `receive_message`.
use Prim.Native.Nat.{min}
use mildstack.Prelude.{
  ℕ, suc, zero, ◌+◌, ◌*◌, ◌≡◌, ◌≤◌, refl, String, ◌==◌, Option, some, List, [], ◌∷◌, arith, trim,
  Bool-cases, inl, inr, eqb, Bool, true, false,
}
use mildstack.Prelude.Numeral.{ℤ}
use mildstack.Sqs.Domain.{Time, Message, second}
use mildstack.Sqs.Service.{Env, Service, Reply, Result, ok, err, queue_name_required}
use mildstack.Sqs.Receive.{
  receive_message, after_round, poll_loop, clamp_wait_time, max_long_poll_wait,
  worker_poll_interval, clamp_max_messages,
}

-- `Sleep` pauses for at least the duration that it is given, and the clock does not run backwards:
-- between two rounds the clock gains the poll interval, or reaches the deadline.
abbrev pub SleepsOn : Env → Time → Type 0
SleepsOn env deadline =
    (k : ℕ) → min (env.clock (suc k) + worker_poll_interval) deadline ≤ env.clock (suc (suc k))

abbrev Returns : Option (Reply (List Message)) → Type 0
Returns o = (r : Reply (List Message)) × (o ≡ some r)

after_round-Returns :
    (wait : ℕ) (early : Bool) (s : Service) (outcome : Result (List Message))
    (rest : Option (Reply (List Message)))
    → (early ≡ true → Returns rest)
    → Returns (after_round wait early s outcome rest)
unfolding after_round
after_round-Returns wait early s (err e) rest h = (_, refl)
after_round-Returns wait early s (ok (m ∷ ms)) rest h = (_, refl)
after_round-Returns wait false s (ok []) rest h = ((s, ok []), ground arith)
after_round-Returns wait true s (ok []) rest h = elim (Bool-cases (eqb wait 0)) [
  | inl e ↦ ((s, ok []), ground arith)
  | inr e ↦ let (r, found) = h refl in (r, ground arith)
]

module _ (env : Env) (others : ℕ → Service → Service) (name : String) (room wait : ℕ)
    (deadline : Time) (sleeps : SleepsOn env deadline) where
  -- With `fuel` rounds left the deadline is at most `fuel - 1` intervals away.
  poll_loop-Returns :
      (fuel k : ℕ) (s : Service)
      → deadline ≤ env.clock (suc k) + fuel * worker_poll_interval
      → Returns (poll_loop env others name room wait deadline (suc fuel) k s)
  unfolding poll_loop worker_poll_interval
  poll_loop-Returns zero k s h = after_round-Returns wait _ _ _ _ (λ early. absurd (ground arith))
  poll_loop-Returns (suc fuel) k s h =
      after_round-Returns wait _ _ _ _
        (λ early. poll_loop-Returns fuel (suc k) _ (ground (arith, sleeps k)))

clamp_wait_time-le : (wait : ℤ) → clamp_wait_time wait ≤ 400 * worker_poll_interval
unfolding clamp_wait_time max_long_poll_wait worker_poll_interval second
clamp_wait_time-le wait = ground arith

-- A call of ReceiveMessage returns, whatever other calls do while it sleeps, where the clock does
-- not run backwards between its first two readings, and each sleep lasts for the poll interval or
-- reaches the deadline.
pub receive_message_returns :
    (env : Env) (others : ℕ → Service → Service) (raw_name : String) (max_messages wait : ℤ)
    (s : Service)
    → env.clock 0 ≤ env.clock 1
    → SleepsOn env (env.clock 0 + clamp_wait_time wait)
    → (r : Reply (List Message)) × (receive_message env others raw_name max_messages wait s
        ≡ some r)
unfolding receive_message
receive_message_returns env others raw_name max_messages wait s starts sleeps =
    elim (Bool-cases (trim raw_name == "")) [
      | inl e ↦ ((s, err queue_name_required), rw e)
      | inr e ↦ rw e (
          poll_loop-Returns env others (trim raw_name) (clamp_max_messages max_messages)
            (clamp_wait_time wait) _ sleeps 401 0 s (omega (arith, clamp_wait_time-le wait)))
    ]
