-- ===== src/Sqs/Acknowledge/Laws.antt =====
-- DeleteMessage of core/internal/resources/sqs/application/service.go, accepted and refused.
use mildstack.Prelude.{
  ℕ, suc, zero, ◌+◌, ◌≡◌, refl, ◌<◌, String, Bool, true, false, some, List, [], ◌∷◌, arith, trim,
  get_elem?, erase_idx, length, length-erase_idx, Bool-cases, inl, inr, lt-length_of_found,
}
use mildstack.Sqs.Domain.{Message}
use mildstack.Sqs.Service.{Env, commit, Service, ok}
use mildstack.Sqs.Service.Commit.{commit_ok, IsDurable}
use mildstack.Sqs.Send.{with_messages}
use mildstack.Sqs.Acknowledge.{holds_receipt, index_from, find_message_by_receipt, delete_message}

-- The search finds the first message that passes the test.
pub record FirstAt (test : Message → Bool) (messages : List Message) (j : ℕ) : Type 0 where
  pub message : Message
  pub found : get_elem? messages j ≡ some message
  pub passes : test message ≡ true
  pub earlier : (i : ℕ) (m : Message) → i < j → get_elem? messages i ≡ some m → test m ≡ false

index_from_found :
    (test : Message → Bool) (k i : ℕ) (messages : List Message)
    → index_from test k messages ≡ some i
    → (j : ℕ) × (i ≡ k + j) × FirstAt test messages j
unfolding index_from
index_from_found test k i [] e = cc
index_from_found test k i (m ∷ ms) e = elim (Bool-cases (test m)) [
  | inl h ↦ (
    0,
    ground arith,
    record { message = m; found = refl; passes = h; earlier = λ i' x lt f. absurd (omega arith) },
  )
  | inr h ↦ later h (index_from_found test (suc k) i ms (rw h at e))
]
  where
    later :
        test m ≡ false
        → (j : ℕ) × (i ≡ suc k + j) × FirstAt test ms j
        → (j : ℕ) × (i ≡ k + j) × FirstAt test (m ∷ ms) j
    later h (j, same, first) = (
      suc j,
      omega arith,
      record {
        message = first.message;
        found = first.found;
        passes = first.passes;
        earlier = before first;
      },
    )
      where
        before :
            FirstAt test ms j
            → (i' : ℕ) (x : Message) → i' < suc j
            → get_elem? (m ∷ ms) i' ≡ some x
            → test x ≡ false
        before f zero x lt found = cc (h, found)
        before f (suc i') x lt found = f.earlier i' x (omega arith) found

pub find_found :
    (s : Service) (name handle : String) (idx : ℕ)
    → find_message_by_receipt s name handle ≡ some idx
    → FirstAt (holds_receipt name handle) s.state.messages idx
unfolding find_message_by_receipt
find_found s name handle idx e =
    let (j, same, first) =
      index_from_found (holds_receipt name handle) 0 idx s.state.messages (ground arith) in
    let at : j ≡ idx = omega arith in rw at at first

delete_message_opened :
    (env : Env) (raw_name raw_handle : String) (s s' : Service)
    → delete_message env raw_name raw_handle s ≡ (s', ok tt)
    → (idx : ℕ) × (find_message_by_receipt s (trim raw_name) (trim raw_handle) ≡ some idx)
      × (commit env 0 (with_messages s (erase_idx s.state.messages idx)) tt ≡ (s', ok tt))
unfolding delete_message
delete_message_opened env raw_name raw_handle s s' e = ground arith

-- What a deletion does that succeeds: `idx` is the index of the message that it takes out.
abbrev pub Removed : String → String → Service → Service → Type 0
Removed name handle s s' =
    (idx : ℕ) × FirstAt (holds_receipt name handle) s.state.messages idx
    × (s'.state ≡ record (s.state) { messages = erase_idx s.state.messages idx })
    × (length s'.state.messages + 1 ≡ length s.state.messages)
    × IsDurable s'

-- A deletion that succeeds takes out one message, the first of the queue whose current receipt
-- handle is the one given, and changes nothing else of the state; what it leaves is saved.
pub delete_message_removes :
    (env : Env) (raw_name raw_handle : String) (s s' : Service)
    → delete_message env raw_name raw_handle s ≡ (s', ok tt)
    → Removed (trim raw_name) (trim raw_handle) s s'
delete_message_removes env raw_name raw_handle s s' e =
    let (idx, found, done) = delete_message_opened env raw_name raw_handle s s' e in
    let first = find_found s (trim raw_name) (trim raw_handle) idx found in
    let (same, r, durable) = commit_ok env 0 _ tt s' tt done in
    (
      idx,
      first,
      same,
      rw same (
          length-erase_idx s.state.messages idx
            (lt-length_of_found s.state.messages idx first.message first.found)),
      durable,
    )
