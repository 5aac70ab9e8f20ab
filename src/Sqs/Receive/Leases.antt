-- ===== src/Sqs/Receive/Leases.antt =====
-- The second loop of receiveReadyMessagesLocked, over the indices in the order of delivery
-- (core/internal/resources/sqs/application/service.go).
use Prim.Native.Nat.{min}
use mildstack.Prelude.{
  ℕ, suc, zero, ◌≡◌, ◌≢◌, refl, inl, inr, ◌∙◌, String, some, List, [], ◌∷◌, arith, All, get_elem?,
  set, length, length-set, get_elem?-set_self, get_elem?-set_ne, Option-cases, lt-length_of_found,
  sym,
}
use native.Mathlib.Decide.{ℕ_discrete}
use mildstack.Prelude.Distinct.{Distinct}
use mildstack.Sqs.Domain.{Time, Queue, Message}
use mildstack.Sqs.Receive.{lease_message, lease_loop}
use mildstack.Sqs.Receive.Selection.{ReadyAt}

-- An index at which the list still holds what the messages before the loop hold there.
abbrev pub Untouched : List Message → List Message → ℕ → Type 0
Untouched messages current i = get_elem? current i ≡ get_elem? messages i

Untouched-set :
    (messages current : List Message) (i : ℕ) (v : Message) (is : List ℕ)
    → All (λ j. i ≢ j) is
    → All (Untouched messages current) is
    → All (Untouched messages (set current i v)) is
Untouched-set messages current i v [] d h = tt
Untouched-set messages current i v (j ∷ js) d h =
    (get_elem?-set_ne current v d.0 ∙ h.0, Untouched-set messages current i v js d.1 h.1)

module _ (name : String) (queue : Queue) (now : Time) where
  -- At an index that is not in the order the loop changes nothing.
  lease_loop_outside :
      (current : List Message) (is : List ℕ) (room j : ℕ)
      → All (λ i. j ≢ i) is
      → get_elem? (lease_loop name queue now is room current).0 j ≡ get_elem? current j
  unfolding lease_loop
  lease_loop_outside current [] room j d = refl
  lease_loop_outside current (i ∷ is) zero j d = refl
  lease_loop_outside current (i ∷ is) (suc room) j d = elim (Option-cases (get_elem? current i)) [
    | inl e ↦ rw (e, lease_loop)
    | inr (m, e) ↦
        rw (e, lease_loop)
          (lease_loop_outside (set current i (lease_message name queue now m)) is room j d.1
            ∙ get_elem?-set_ne current _ (λ same. d.0 (sym same)))
  ]

  -- A received message is the lease of a message that was ready when the receive began, and stands
  -- at the index of that message afterwards.
  pub record Delivered (messages after : List Message) (received : Message) : Type 0 where
    pub index : ℕ
    pub origin : ReadyAt messages name queue now index
    pub leased : received ≡ lease_message name queue now origin.message
    pub stored : get_elem? after index ≡ some received

  pub lease_loop-Delivered :
      (messages current : List Message) (is : List ℕ) (room : ℕ)
      → Distinct is
      → All (ReadyAt messages name queue now) is
      → All (Untouched messages current) is
      → All
          (Delivered messages (lease_loop name queue now is room current).0)
          (lease_loop name queue now is room current).1
  unfolding lease_loop
  lease_loop-Delivered messages current [] room d r u = tt
  lease_loop-Delivered messages current (i ∷ is) zero d r u = tt
  lease_loop-Delivered messages current (i ∷ is) (suc room) d r u =
      let there : get_elem? current i ≡ some r.0.message = u.0 ∙ r.0.found in
      let leased = lease_message name queue now r.0.message in
      rw (there, lease_loop)
        (
          record {
            index = i;
            origin = r.0;
            leased = refl;
            stored =
                lease_loop_outside (set current i leased) is room i d.0
                ∙ get_elem?-set_self current i leased
                    (lt-length_of_found current i r.0.message there);
          },
          lease_loop-Delivered messages (set current i leased) is room d.1 r.1
              (Untouched-set messages current i leased is d.0 u.1),
        )

  -- It takes as many as there are, up to the room.
  pub length-lease_loop :
      (messages current : List Message) (is : List ℕ) (room : ℕ)
      → Distinct is
      → All (ReadyAt messages name queue now) is
      → All (Untouched messages current) is
      → length (lease_loop name queue now is room current).1 ≡ min room (length is)
  unfolding lease_loop
  length-lease_loop messages current [] room d r u = omega arith
  length-lease_loop messages current (i ∷ is) zero d r u = omega arith
  length-lease_loop messages current (i ∷ is) (suc room) d r u =
      rw (u.0 ∙ r.0.found, lease_loop)
        (omega (
          arith,
          length-lease_loop messages (set current i (lease_message name queue now r.0.message)) is
              room d.1 r.1 (Untouched-set messages current i _ is d.0 u.1),
        ))

  -- At an index the list afterwards holds the same message, or its lease.
  pub data Kept (messages after : List Message) (j : ℕ) : Type 0 where
    untouched : get_elem? after j ≡ get_elem? messages j → Kept messages after j
    leased_at :
        (m : Message)
        → get_elem? messages j ≡ some m
        → get_elem? after j ≡ some (lease_message name queue now m)
        → Kept messages after j

  Kept-set :
      (messages current : List Message) (i j : ℕ) (m : Message)
      → get_elem? messages i ≡ some m
      → get_elem? current i ≡ some m
      → Kept messages current j
      → Kept messages (set current i (lease_message name queue now m)) j
  Kept-set messages current i j m found there kept = elim (ℕ_discrete i j) [
    | yes e ↦
        leased_at m (rw (← e) found)
          (rw (← e) (get_elem?-set_self current i _ (lt-length_of_found current i m there)))
    | no ne ↦ carry kept (get_elem?-set_ne current _ ne)
  ]
    where
      carry :
          Kept messages current j
          → get_elem? (set current i (lease_message name queue now m)) j ≡ get_elem? current j
          → Kept messages (set current i (lease_message name queue now m)) j
      carry (untouched e) same = untouched (same ∙ e)
      carry (leased_at n e e') same = leased_at n e (same ∙ e')

  pub lease_loop-Kept :
      (messages current : List Message) (is : List ℕ) (room : ℕ)
      → Distinct is
      → All (ReadyAt messages name queue now) is
      → All (Untouched messages current) is
      → (j : ℕ) → Kept messages current j
      → Kept messages (lease_loop name queue now is room current).0 j
  unfolding lease_loop
  lease_loop-Kept messages current [] room d r u j k = k
  lease_loop-Kept messages current (i ∷ is) zero d r u j k = k
  lease_loop-Kept messages current (i ∷ is) (suc room) d r u j k =
      rw (u.0 ∙ r.0.found, lease_loop)
        (lease_loop-Kept messages (set current i (lease_message name queue now r.0.message)) is room
          d.1 r.1 (Untouched-set messages current i _ is d.0 u.1) j
          (Kept-set messages current i j r.0.message r.0.found (u.0 ∙ r.0.found) k))

  -- No message is dropped and none is made up.
  pub length-lease_loop_kept :
      (is : List ℕ) (room : ℕ) (current : List Message)
      → length (lease_loop name queue now is room current).0 ≡ length current
  unfolding lease_loop
  length-lease_loop_kept [] room current = refl
  length-lease_loop_kept (i ∷ is) zero current = refl
  length-lease_loop_kept (i ∷ is) (suc room) current = elim (Option-cases (get_elem? current i)) [
    | inl e ↦ rw (e, lease_loop)
    | inr (m, e) ↦
        rw (e, lease_loop)
          (length-lease_loop_kept is room (set current i (lease_message name queue now m))
            ∙ length-set current i _)
  ]
