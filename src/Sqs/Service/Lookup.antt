-- ===== src/Sqs/Service/Lookup.antt =====
-- queueByNameLocked of core/internal/resources/sqs/application/service.go where it finds nothing.
use mildstack.Prelude.{
  refl, Bool-cases, inl, inr, ◌==◌, ◌&&◌, ◌≡◌, String, none, List, [], ◌∷◌, arith, All, eq_iff,
}
use mildstack.Sqs.Domain.{Queue, zero_time, is_zero}
use mildstack.Sqs.Service.{active_queue_by_name}

-- No record of the list is an active queue of that name.
abbrev pub NoneActive : String → List Queue → Type 0
NoneActive name queues = All (λ q. ¬ ((q.name ≡ name) × (q.deleted_at ≡ zero_time))) queues

pub active_none :
    (name : String) (qs : List Queue) → active_queue_by_name name qs ≡ none → NoneActive name qs
unfolding active_queue_by_name
active_none name [] e = tt
active_none name (q ∷ qs) e =
    (λ both. ground (arith, eq_iff q.name name, both.0, both.1), active_none name qs (ground arith))

pub none-active :
    (name : String) (qs : List Queue) → NoneActive name qs → active_queue_by_name name qs ≡ none
unfolding active_queue_by_name
none-active name [] h = refl
none-active name (q ∷ qs) h = elim (Bool-cases (q.name == name && is_zero q.deleted_at)) [
  | inl e ↦ absurd (h.0 (ground (arith, eq_iff q.name name), ground arith))
  | inr e ↦ rw e (none-active name qs h.1)
]
