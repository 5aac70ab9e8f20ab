-- ===== src/S3/Invariant.antt =====
-- core/internal/resources/s3/application: the shapes that the calls are built of, their guards, their
-- look-ups and their saves, and a predicate of the service that goes through them.
pub mod Calls
use mildstack.Prelude.{
  arith, ℕ, Bool, true, false, ◌≡◌, refl, Option, none, some, if◌then◌else◌, Bool-cases, inl, inr,
  ◌⊎◌,
}
use mildstack.S3.Domain.{State}
use mildstack.S3.Service.{Env, Service, Reply, Result, ok, err, Error, persist, persist_succeeds}

-- A save, or its failure, leaves the state in memory.
pub persist-state :
    {A : Type 0} (env : Env) (i : ℕ) (s : Service) (r : Result A)
    → (persist env i s r).0.state ≡ s.state
unfolding persist
persist-state env i s r = elim (Bool-cases (persist_succeeds env i s.repo)) [
  | inl e ↦ rw e refl
  | inr e ↦ rw e refl
]

module _ (P : State → Type 0) {A : Type 0} where
  pub Holds-persist :
      (env : Env) (i : ℕ) (s : Service) (r : Result A) → P s.state → P (persist env i s r).0.state
  Holds-persist env i s r h = rw (persist-state env i s r) h

  pub Holds-save :
      (env : Env) (i : ℕ) (s : Service) (after : State) (r : Result A)
      → P after
      → P (persist env i (record s { state = after }) r).0.state
  Holds-save env i s after r h = Holds-persist env i (record s { state = after }) r h

  -- `if err != nil { return err }`
  pub Holds-guard :
      (guard : Option Error) (s : Service) (call : Reply A)
      → P s.state
      → P call.0.state
      → P (elim guard as (λ x. Reply A) [ none ↦ call | some e ↦ (s, err e) ]).0.state
  Holds-guard none s call h hc = hc
  Holds-guard (some e) s call h hc = h

  -- A test that is true, or behind which the predicate holds.
  pub Holds-if :
      (test : Bool) (s : Service) (answer : Result A) (call : Reply A)
      → P s.state
      → (test ≡ true) ⊎ P call.0.state
      → P (if test then (s, answer) else call).0.state
  Holds-if true s answer call h hc = h
  Holds-if false s answer call h (inl e) = ground arith
  Holds-if false s answer call h (inr hc) = hc

  pub Holds-found :
      {B : Type 0} (found : Option B) (s : Service) (answer : Result A) (call : B → Reply A)
      → P s.state
      → ((b : B) → found ≡ some b → P (call b).0.state)
      → P (elim found as (λ x. Reply A) [ none ↦ (s, answer) | some b ↦ call b ]).0.state
  Holds-found none s answer call h hc = h
  Holds-found (some b) s answer call h hc = hc b refl

  pub Holds-result :
      {B : Type 0} (result : Result B) (s : Service) (call : B → Reply A)
      → P s.state
      → ((b : B) → result ≡ ok b → P (call b).0.state)
      → P (elim result as (λ x. Reply A) [ ok b ↦ call b | err e ↦ (s, err e) ]).0.state
  Holds-result (err e) s call h hc = h
  Holds-result (ok b) s call h hc = hc b refl
