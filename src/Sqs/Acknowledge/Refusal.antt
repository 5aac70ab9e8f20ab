-- ===== src/Sqs/Acknowledge/Refusal.antt =====
-- When DeleteMessage of core/internal/resources/sqs/application/service.go is refused.
use mildstack.Prelude.{
  ℕ, suc, ◌≡◌, ◌≢◌, ◌↔◌, ◌⊎◌, refl, String, ◌==◌, Bool, false, none, List, [], ◌∷◌, arith, trim,
  All, Bool-cases, Option-cases, inl, inr, eq_iff,
}
use mildstack.Sqs.Domain.{Message}
use mildstack.Sqs.Service.{
  Env, Error, Service, err, save_failed, queue_name_required, receipt_handle_required,
  receipt_handle_mismatch, active_queue_by_name, commit,
}
use mildstack.Sqs.Service.Lookup.{NoneActive, active_none, none-active}
use mildstack.Sqs.Acknowledge.{holds_receipt, index_from, find_message_by_receipt, delete_message}

-- A reason to refuse: no name, no receipt, no active queue of the name, or no message of it whose
-- current receipt handle this is.
abbrev pub Refused : String → String → Service → Type 0
Refused name handle s =
    (name ≡ "")
    ⊎ (handle ≡ "")
    ⊎ NoneActive name s.state.queues
    ⊎ All (λ m. holds_receipt name handle m ≡ false) s.state.messages

-- The answer is an error that is not that of a save, and the service is what it was.
abbrev pub AnsweredWithError : Env → String → String → Service → Type 0
AnsweredWithError env raw_name raw_handle s =
    (e : Error) × (e ≢ save_failed) × (delete_message env raw_name raw_handle s ≡ (s, err e))

module _ (test : Message → Bool) where
  index_from-none :
      (k : ℕ) (ms : List Message) → All (λ m. test m ≡ false) ms → index_from test k ms ≡ none
  unfolding index_from
  index_from-none k [] h = refl
  index_from-none k (m ∷ ms) h = rw (h.0) (index_from-none (suc k) ms h.1)

  index_from-none' :
      (k : ℕ) (ms : List Message) → index_from test k ms ≡ none → All (λ m. test m ≡ false) ms
  unfolding index_from
  index_from-none' k [] e = tt
  index_from-none' k (m ∷ ms) e = elim (Bool-cases (test m)) [
    | inl h ↦ absurd (ground arith)
    | inr h ↦ (h, index_from-none' (suc k) ms (rw h at e))
  ]

module _ (s : Service) (name handle : String) where
  find-inactive : NoneActive name s.state.queues → find_message_by_receipt s name handle ≡ none
  unfolding find_message_by_receipt
  find-inactive h = rw (find_message_by_receipt, none-active name s.state.queues h) refl

  find-unheld :
      All (λ m. holds_receipt name handle m ≡ false) s.state.messages
      → find_message_by_receipt s name handle ≡ none
  unfolding find_message_by_receipt
  find-unheld h = elim (Option-cases (active_queue_by_name name s.state.queues)) [
    | inl e ↦ rw (find_message_by_receipt, e) refl
    | inr (q, e) ↦
        rw (find_message_by_receipt, e)
          (index_from-none (holds_receipt name handle) 0 s.state.messages h)
  ]

  not_found-Refused : find_message_by_receipt s name handle ≡ none → Refused name handle s
  unfolding find_message_by_receipt
  not_found-Refused missing = elim (Option-cases (active_queue_by_name name s.state.queues)) [
    | inl e ↦ inr (inr (inl (active_none name s.state.queues e)))
    | inr (q, e) ↦ inr (
        inr (
          inr (
            index_from-none' (holds_receipt name handle) 0 s.state.messages
              (rw (find_message_by_receipt, e) at missing))))
  ]

module _ (env : Env) (raw_name raw_handle : String) (s : Service) where
  name_error : trim raw_name ≡ "" → AnsweredWithError env raw_name raw_handle s
  unfolding delete_message
  name_error h = (queue_name_required, λ e. ground arith, ground (arith, eq_iff (trim raw_name) ""))

  handle_error : trim raw_handle ≡ "" → AnsweredWithError env raw_name raw_handle s
  unfolding delete_message
  handle_error h = elim (Bool-cases (trim raw_name == "")) [
    | inl e ↦ name_error (ground (arith, eq_iff (trim raw_name) ""))
    | inr e ↦
        (receipt_handle_required, λ e'. ground arith, ground (arith, eq_iff (trim raw_handle) ""))
  ]

  missing_error :
      find_message_by_receipt s (trim raw_name) (trim raw_handle) ≡ none
      → AnsweredWithError env raw_name raw_handle s
  unfolding delete_message
  missing_error h = elim (Bool-cases (trim raw_name == "")) [
    | inl e ↦ name_error (ground (arith, eq_iff (trim raw_name) ""))
    | inr e ↦ elim (Bool-cases (trim raw_handle == "")) [
      | inl k ↦ handle_error (ground (arith, eq_iff (trim raw_handle) ""))
      | inr k ↦ (receipt_handle_mismatch, λ e'. ground arith, ground arith)
    ]
  ]

  Refused-AnsweredWithError :
      Refused (trim raw_name) (trim raw_handle) s → AnsweredWithError env raw_name raw_handle s
  Refused-AnsweredWithError (inl h) = name_error h
  Refused-AnsweredWithError (inr (inl h)) = handle_error h
  Refused-AnsweredWithError (inr (inr (inl h))) =
      missing_error (find-inactive s (trim raw_name) (trim raw_handle) h)
  Refused-AnsweredWithError (inr (inr (inr h))) =
      missing_error (find-unheld s (trim raw_name) (trim raw_handle) h)

  AnsweredWithError-cases :
      AnsweredWithError env raw_name raw_handle s
      → (trim raw_name ≡ "")
        ⊎ (trim raw_handle ≡ "")
        ⊎ (find_message_by_receipt s (trim raw_name) (trim raw_handle) ≡ none)
  unfolding delete_message commit
  AnsweredWithError-cases (e, ne, is) =
      elim (Option-cases (find_message_by_receipt s (trim raw_name) (trim raw_handle))) [
        | inl h ↦ inr (inr h)
        | inr (idx, h) ↦ elim (Bool-cases (trim raw_name == "")) [
          | inl n ↦ inl (ground (arith, eq_iff (trim raw_name) ""))
          | inr n ↦ elim (Bool-cases (trim raw_handle == "")) [
            | inl k ↦ inr (inl (ground (arith, eq_iff (trim raw_handle) "")))
            | inr k ↦ absurd (ground arith)
          ]
        ]
      ]

  AnsweredWithError-Refused :
      (trim raw_name ≡ "")
        ⊎ (trim raw_handle ≡ "")
        ⊎ (find_message_by_receipt s (trim raw_name) (trim raw_handle) ≡ none)
      → Refused (trim raw_name) (trim raw_handle) s
  AnsweredWithError-Refused (inl h) = inl h
  AnsweredWithError-Refused (inr (inl h)) = inr (inl h)
  AnsweredWithError-Refused (inr (inr h)) = not_found-Refused s (trim raw_name) (trim raw_handle) h

-- DeleteMessage answers with an error other than that of a save, and leaves the service as it was,
-- exactly when the trimmed name or receipt handle is blank, no queue of the name is active, or no
-- message that shows in the queue has the handle as its current one.
pub delete_message-Refused :
    (env : Env) (raw_name raw_handle : String) (s : Service)
    → Refused (trim raw_name) (trim raw_handle) s ↔ AnsweredWithError env raw_name raw_handle s
delete_message-Refused env raw_name raw_handle s = (
  Refused-AnsweredWithError env raw_name raw_handle s,
  λ answer.
      AnsweredWithError-Refused env raw_name raw_handle s
        (AnsweredWithError-cases env raw_name raw_handle s answer),
)
