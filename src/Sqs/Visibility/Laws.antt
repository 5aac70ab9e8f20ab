-- ===== src/Sqs/Visibility/Laws.antt =====
-- ChangeMessageVisibility of core/internal/resources/sqs/application/service.go, and when the
-- message is visible again.
use Prim.Native.Nat.{min}
use mildstack.Prelude.{
  ℕ, suc, zero, ◌+◌, ◌*◌, ◌/◌, ◌≡◌, ◌≤◌, ◌<◌, refl, ap, ◌∙◌, String, true, false, some, List, arith,
  leb, get_text-insert, trim, get_elem?, set,
}
use mildstack.Prelude.Numeral.{ℤ, itoa, int64_bound, pos_part}
use mildstack.Sqs.Domain.{Time, second, Queue, Message}
use mildstack.Sqs.Delivery.{
  is_delayed, is_visible, lease_deadline, visibility_timeout, lease_timeout_metadata_key,
}
use mildstack.Sqs.Receive.Lease.{visibility_timeout-of-text}
use mildstack.Sqs.Service.{Env, Service, ok, commit}
use mildstack.Sqs.Service.Commit.{commit_ok, IsDurable}
use mildstack.Sqs.Send.{with_messages}
use mildstack.Sqs.Acknowledge.{find_message_by_receipt, holds_receipt}
use mildstack.Sqs.Acknowledge.Laws.{FirstAt, find_found}
use mildstack.Sqs.Visibility.{
  set_visibility, change_at, change_message_visibility, max_visibility, cap_visibility,
}

-- A visibility of zero gives the message back at once.
pub set_visibility_zero :
    (q : Queue) (now : Time) (m : Message) (t : Time)
    → now ≤ t
    → is_visible (set_visibility now 0 m) q t ≡ true
unfolding set_visibility is_visible is_delayed
set_visibility_zero q now m t h = ground arith

module _ (q : Queue) (now : Time) (m : Message) (n : ℕ) (fits : suc n * second < int64_bound) where
  whole_seconds : (d : ℕ) → suc d ≡ suc n * second → suc d / second ≡ suc n
  whole_seconds d e = rw e (unfold second in omega arith)

  visibility_timeout-set_visibility :
      (d : ℕ)
      → suc d ≡ suc n * second
      → visibility_timeout q (set_visibility now (suc d) m) ≡ suc n * second
  unfolding set_visibility
  visibility_timeout-set_visibility d e =
      visibility_timeout-of-text q (set_visibility now (suc d) m) (suc n)
        (get_text-insert lease_timeout_metadata_key lease_timeout_metadata_key
            (itoa (suc d / second)) m.metadata
          ∙ ap itoa (whole_seconds d e))
        (unfold second in omega arith) fits

  -- A visibility of whole seconds hides the message until they have passed from now on.
  set_visibility_window_suc :
      (d : ℕ)
      → suc d ≡ suc n * second
      → 0 < now
      → is_delayed m now ≡ false
      → (t : Time) → now ≤ t
      → is_visible (set_visibility now (suc d) m) q t ≡ leb (now + suc n * second) t
  unfolding is_visible is_delayed lease_deadline
  set_visibility_window_suc d e h dl t le =
      rw (visibility_timeout-set_visibility d e) (unfold set_visibility second in ground arith)

cap_visibility-eq-min : (z : ℤ) → cap_visibility z ≡ min (pos_part z) max_visibility
unfolding cap_visibility
cap_visibility-eq-min z = ground arith

change_at_found :
    (now : Time) (d idx : ℕ) (messages : List Message) (m : Message)
    → get_elem? messages idx ≡ some m
    → change_at now d idx messages ≡ set messages idx (set_visibility now d m)
unfolding change_at
change_at_found now d idx messages m e = rw (e, change_at)

change_message_visibility_opened :
    (env : Env) (raw_name raw_handle : String) (visibility : ℤ) (s s' : Service)
    → change_message_visibility env raw_name raw_handle visibility s ≡ (s', ok tt)
    → (idx : ℕ) × (find_message_by_receipt s (trim raw_name) (trim raw_handle) ≡ some idx)
      × (commit env 0
            (with_messages s
              (change_at (env.clock 0) (cap_visibility visibility) idx s.state.messages))
            tt
          ≡ (s', ok tt))
unfolding change_message_visibility
change_message_visibility_opened env raw_name raw_handle visibility s s' e = ground arith

-- What a change of visibility does that succeeds: `idx` is the index of the message.
abbrev pub Changed : Env → String → String → ℤ → Service → Service → Type 0
Changed env name handle visibility s s' =
    (idx : ℕ) × (r : FirstAt (holds_receipt name handle) s.state.messages idx) × (s'.state
      ≡ record (s.state) {
        messages =
            set s.state.messages idx
              (set_visibility (env.clock 0) (min (pos_part visibility) max_visibility) r.message);
      })
    × IsDurable s'

-- A change of visibility that succeeds rewrites the message that holds the receipt, and no other;
-- the visibility is cut at twelve hours, and what the call leaves is saved.
pub change_message_visibility_sets :
    (env : Env) (raw_name raw_handle : String) (visibility : ℤ) (s s' : Service)
    → change_message_visibility env raw_name raw_handle visibility s ≡ (s', ok tt)
    → Changed env (trim raw_name) (trim raw_handle) visibility s s'
change_message_visibility_sets env raw_name raw_handle visibility s s' e =
    let (idx, found, done) =
      change_message_visibility_opened env raw_name raw_handle visibility s s' e in
    let r = find_found s (trim raw_name) (trim raw_handle) idx found in
    let (same, u, durable) = commit_ok env 0 _ tt s' tt done in
    (
      idx,
      r,
      same
          ∙ ap (λ (ms : List Message). record (s.state) { messages = ms })
              (change_at_found (env.clock 0) (cap_visibility visibility) idx s.state.messages
                  r.message r.found
                ∙ ap
                    (λ (d : ℕ). set s.state.messages idx (set_visibility (env.clock 0) d r.message))
                    (cap_visibility-eq-min visibility)),
      durable,
    )

set_visibility_for :
    (v : ℕ) (q : Queue) (now : Time) (m : Message) (n : ℕ) (t : Time)
    → v ≡ n * second
    → n * second < int64_bound
    → 0 < now
    → is_delayed m now ≡ false
    → now ≤ t
    → is_visible (set_visibility now v m) q t ≡ leb (now + n * second) t
set_visibility_for zero q now m n t e fits h dl le = set_visibility_zero q now m t le ∙ ground arith
set_visibility_for (suc d) q now m zero t e fits h dl le = absurd (omega arith)
set_visibility_for (suc d) q now m (suc n) t e fits h dl le =
    set_visibility_window_suc q now m n fits d e h dl t le

-- From the time of the change on, a message with a visibility of `n` seconds is visible exactly
-- when they have passed; the message was not delayed, the time is not
-- zero, and the seconds fit an `int64` of nanoseconds.
pub set_visibility_window :
    (q : Queue) (now : Time) (m : Message) (n : ℕ) (t : Time)
    → n * second < int64_bound
    → 0 < now
    → is_delayed m now ≡ false
    → now ≤ t
    → is_visible (set_visibility now (n * second) m) q t ≡ leb (now + n * second) t
set_visibility_window q now m n t = set_visibility_for (n * second) q now m n t refl
