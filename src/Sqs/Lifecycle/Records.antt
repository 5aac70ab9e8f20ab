-- ===== src/Sqs/Lifecycle/Records.antt =====
-- The look-up of a queue's record by its name, and the names of the records.
use mathlib.Core.List.{◌++◌}
use mildstack.Prelude.{
  ℕ, suc, zero, ◌+◌, ◌≡◌, ◌≢◌, refl, ap, String, ◌==◌, eq_iff, inl, inr, none, some, List, [], ◌∷◌,
  map, arith, All, All-append, get_elem?, set, Bool-cases,
}
use mildstack.Prelude.Distinct.{Distinct}
use mildstack.Sqs.Domain.{Queue}
use mildstack.Sqs.Service.{find_record}

abbrev pub names : List Queue → List String
names = map λ q. q.name

pub find_record-none :
    (i : ℕ) (name : String) (qs : List Queue)
    → find_record i name qs ≡ none
    → All (λ n. n ≢ name) (names qs)
unfolding find_record
find_record-none i name [] e = tt
find_record-none i name (q ∷ qs) e =
    (λ same. ground (arith, eq_iff q.name name), find_record-none (suc i) name qs (ground arith))

-- A record that is found stands at its index and has the name.
pub find_record_found :
    (i : ℕ) (name : String) (qs : List Queue) (index : ℕ) (queue : Queue)
    → find_record i name qs ≡ some (index, queue)
    → (j : ℕ) × (index ≡ i + j) × (get_elem? qs j ≡ some queue) × (queue.name ≡ name)
unfolding find_record
find_record_found i name [] index queue e = cc
find_record_found i name (q ∷ qs) index queue e = elim (Bool-cases (q.name == name)) [
  | inl h ↦ (0, ground arith, ground arith, ground (arith, eq_iff q.name name))
  | inr h ↦
      let (j, at, found, named) = find_record_found (suc i) name qs index queue (rw h at e) in
      (suc j, omega arith, found, named)
]

pub names-set :
    (qs : List Queue) (j : ℕ) (old new : Queue)
    → get_elem? qs j ≡ some old
    → new.name ≡ old.name
    → names (set qs j new) ≡ names qs
names-set [] j old new e h = refl
names-set (q ∷ qs) zero old new e h = ground arith
names-set (q ∷ qs) (suc j) old new e h = ap (◌∷◌ q.name) (names-set qs j old new e h)

pub Distinct-append :
    (xs : List String) (x : String) → All (λ n. n ≢ x) xs → Distinct xs → Distinct (xs ++ x ∷ [])
Distinct-append [] x h d = (tt, tt)
Distinct-append (y ∷ ys) x h d =
    (All-append (λ n. y ≢ n) ys (x ∷ []) d.0 (h.0, tt), Distinct-append ys x h.1 d.1)
