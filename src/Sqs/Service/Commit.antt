-- ===== src/Sqs/Service/Commit.antt =====
-- commitStateLocked of core/internal/resources/sqs/application/service.go: the states before and
-- after it, and what it saves.
use mildstack.Prelude.{◌≡◌, refl, ◌⊎◌, inl, inr, ℕ, none, some, arith}
use mildstack.Sqs.Service.{Env, Error, save_failed, Service, Result, ok, err, commit, saved}

-- What was saved last and published last is the state that the service holds.
pub record IsDurable (s : Service) : Type 0 where
  pub repo_holds : (s.repo ≡ none) ⊎ (s.repo ≡ some s.state)
  pub hook_holds : (s.hook ≡ none) ⊎ (s.hook ≡ some s.state)

saved-IsDurable : (s : Service) → IsDurable (saved s)
unfolding saved
saved-IsDurable s = record { repo_holds = ground arith; hook_holds = ground arith }

state-saved : (s : Service) → (saved s).state ≡ s.state
unfolding saved
state-saved s = refl

module _ {A : Type 0} (env : Env) (k : ℕ) (s : Service) (a : A) where
  pub state-commit : (commit env k s a).0.state ≡ s.state
  unfolding commit saved
  state-commit = ground arith

  commit_cases :
      (s' : Service) (r : Result A)
      → commit env k s a ≡ (s', r)
      → ((s' ≡ saved s) × (r ≡ ok a)) ⊎ ((s' ≡ s) × (r ≡ err save_failed))
  unfolding commit
  commit_cases s' r e = ground arith

  -- A commit that succeeds has saved and published the state.
  pub commit_ok :
      (s' : Service) (b : A)
      → commit env k s a ≡ (s', ok b)
      → (s'.state ≡ s.state) × (b ≡ a) × IsDurable s'
  commit_ok s' b e = elim (commit_cases s' (ok b) e) [
    | inl (same, r) ↦ (rw same (state-saved s), cc, rw same (saved-IsDurable s))
    | inr (same, r) ↦ absurd (ground arith)
  ]

  -- A commit fails only in saving.
  pub commit_err :
      (s' : Service) (e : Error) → commit env k s a ≡ (s', err e) → (s' ≡ s) × (e ≡ save_failed)
  commit_err s' e h = elim (commit_cases s' (err e) h) [
    | inl (same, r) ↦ absurd (ground arith)
    | inr (same, r) ↦ (same, cc)
  ]
