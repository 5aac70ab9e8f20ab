-- ===== src/Prelude/Sort.antt =====
-- Go's `sort.SliceStable`: on at most 20 entries it is this insertion sort; on longer slices it
-- has the same result wherever the test is a strict weak order.
pub mod Sorted
use mathlib.Core.List.{reverse, reverse-cons, Perm, perm_middle, ◌++◌, append-nil, reverse_perm}
use mathlib.Core.List.Perm
use mildstack.Prelude.Tests.{if◌then◌else◌, Bool-cases}
use mildstack.Prelude.Lists.{All, All-append}
use mathlib.Core.Bool.{Bool}
use mathlib.Core.Logic.{inl, inr}
use mathlib.Core.List.{List, [], ◌∷◌}

module _ {ℓ} {A : Type ℓ} (less : A → A → Bool) where
  -- The new entry moves left while it is less than its neighbour; the sorted part is kept with
  -- its last entry first.
  unfoldable pub sift : A → List A → List A
  sift x [] = x ∷ []
  sift x (p ∷ ps) = if less x p then p ∷ sift x ps else x ∷ p ∷ ps

  unfoldable pub insertion_rounds : List A → List A → List A
  unfolding sift
  insertion_rounds sorted [] = sorted
  insertion_rounds sorted (x ∷ xs) = insertion_rounds (sift x sorted) xs

  unfoldable pub stable_sort : List A → List A
  unfolding insertion_rounds
  stable_sort xs = reverse (insertion_rounds [] xs)

module _ {ℓ κ} {A : Type ℓ} (P : A → Type κ) where
  pub All-reverse : (xs : List A) → All P xs → All P (reverse xs)
  All-reverse [] h = tt
  All-reverse (x ∷ xs) h =
      rw (reverse-cons x xs) (All-append P (reverse xs) (x ∷ []) (All-reverse xs h.1) (h.0, tt))

module _ {ℓ κ} {A : Type ℓ} (less : A → A → Bool) (P : A → Type κ) where
  pub All-sift : (x : A) (ps : List A) → P x → All P ps → All P (sift less x ps)
  unfolding sift
  All-sift x [] h hs = (h, tt)
  All-sift x (p ∷ ps) h hs = elim (Bool-cases (less x p)) [
    | inl e ↦ rw e (hs.0, All-sift x ps h hs.1)
    | inr e ↦ rw e (h, hs)
  ]

  All-insertion_rounds :
      (sorted xs : List A) → All P sorted → All P xs → All P (insertion_rounds less sorted xs)
  unfolding insertion_rounds
  All-insertion_rounds sorted [] hs h = hs
  All-insertion_rounds sorted (x ∷ xs) hs h =
      All-insertion_rounds (sift less x sorted) xs (All-sift x sorted h.0 hs) h.1

  -- Sorting invents no entry.
  pub All-stable_sort : (xs : List A) → All P xs → All P (stable_sort less xs)
  unfolding stable_sort
  All-stable_sort xs h =
      All-reverse P (insertion_rounds less [] xs) (All-insertion_rounds [] xs tt h)

module _ {ℓ} {A : Type ℓ} (less : A → A → Bool) where
  sift-perm : (x : A) (ps : List A) → Perm (sift less x ps) (x ∷ ps)
  unfolding sift
  sift-perm x [] = Perm.refl (x ∷ [])
  sift-perm x (p ∷ ps) = elim (Bool-cases (less x p)) [
    | inl e ↦ rw e (Perm.trans (Perm.cons p (sift-perm x ps)) (Perm.swap x p ps))
    | inr e ↦ rw e (Perm.refl (x ∷ p ∷ ps))
  ]

  insertion_rounds-perm :
      (sorted xs : List A) → Perm (insertion_rounds less sorted xs) (sorted ++ xs)
  unfolding insertion_rounds
  insertion_rounds-perm sorted [] = rw append-nil (Perm.refl sorted)
  insertion_rounds-perm sorted (x ∷ xs) =
      Perm.trans (insertion_rounds-perm (sift less x sorted) xs) (
        Perm.trans (Perm.append (sift-perm x sorted) (Perm.refl xs))
          (Perm.symm (perm_middle sorted xs)))

  -- Sorting keeps every entry, as often as it was there.
  pub stable_sort-perm : (xs : List A) → Perm (stable_sort less xs) xs
  unfolding stable_sort
  stable_sort-perm xs =
      Perm.trans (reverse_perm (insertion_rounds less [] xs)) (insertion_rounds-perm [] xs)
