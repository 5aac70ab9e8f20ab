-- ===== src/Prelude/Sort/Sorted.antt =====
-- The order of what the stable sort gives.
use mathlib.Core.Path.{◌≡◌}
use mathlib.Core.List.{List, [], ◌∷◌, ◌++◌, reverse, reverse-cons}
use mathlib.Core.Bool.{Bool, true, false}
use mathlib.Core.Logic.{inl, inr}
use mildstack.Prelude.Tests.{Bool-cases}
use mildstack.Prelude.Lists.{All, All-append, All-map}
use mildstack.Prelude.Sort.{sift, insertion_rounds, stable_sort, All-sift, All-reverse}

module _ {ℓ} {A : Type ℓ} (less : A → A → Bool) where
  -- No entry is less than one in front of it.
  abbrev pub IsSorted : List A → Type ℓ
  IsSorted [] = Unit
  IsSorted (x ∷ xs) = All (λ y. less y x ≡ false) xs × IsSorted xs

  -- The same from the last entry on.
  abbrev IsSortedBack : List A → Type ℓ
  IsSortedBack [] = Unit
  IsSortedBack (p ∷ ps) = All (λ q. less p q ≡ false) ps × IsSortedBack ps

  IsSorted-append :
      (xs : List A) (p : A)
      → IsSorted xs
      → All (λ q. less p q ≡ false) xs
      → IsSorted (xs ++ (p ∷ []))
  IsSorted-append [] p h hp = (tt, tt)
  IsSorted-append (x ∷ xs) p h hp =
      (All-append (λ y. less y x ≡ false) xs (p ∷ []) h.0 (hp.0, tt), IsSorted-append xs p h.1 hp.1)

  IsSorted-reverse : (ps : List A) → IsSortedBack ps → IsSorted (reverse ps)
  IsSorted-reverse [] h = tt
  IsSorted-reverse (p ∷ ps) h = rw (reverse-cons p ps) (
      IsSorted-append (reverse ps) p (IsSorted-reverse ps h.1)
        (All-reverse (λ q. less p q ≡ false) ps h.0))

  module _ (asymmetric : (x y : A) → less x y ≡ true → less y x ≡ false)
      (transitive : (x y z : A) → less x y ≡ false → less y z ≡ false → less x z ≡ false) where
    IsSortedBack-sift : (x : A) (ps : List A) → IsSortedBack ps → IsSortedBack (sift less x ps)
    unfolding sift
    IsSortedBack-sift x [] h = (tt, tt)
    IsSortedBack-sift x (p ∷ ps) h = elim (Bool-cases (less x p)) [
      | inl e ↦ rw e (
        All-sift less (λ q. less p q ≡ false) x ps (asymmetric x p e) h.0,
        IsSortedBack-sift x ps h.1,
      )
      | inr e ↦ rw e (
        (
          e,
          All-map (λ q. less p q ≡ false) (λ q. less x q ≡ false) (λ q hq. transitive x p q e hq) ps
              h.0,
        ),
        h,
      )
    ]

    IsSortedBack-insertion_rounds :
        (sorted xs : List A) → IsSortedBack sorted → IsSortedBack (insertion_rounds less sorted xs)
    unfolding insertion_rounds
    IsSortedBack-insertion_rounds sorted [] h = h
    IsSortedBack-insertion_rounds sorted (x ∷ xs) h =
        IsSortedBack-insertion_rounds (sift less x sorted) xs (IsSortedBack-sift x sorted h)

    pub stable_sort-IsSorted : (xs : List A) → IsSorted (stable_sort less xs)
    unfolding stable_sort
    stable_sort-IsSorted xs =
        IsSorted-reverse (insertion_rounds less [] xs) (IsSortedBack-insertion_rounds [] xs tt)
