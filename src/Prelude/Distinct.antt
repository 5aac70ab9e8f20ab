-- ===== src/Prelude/Distinct.antt =====
-- Lists without repetition, as a predicate by recursion, from the library's `Nodup`.
use mathlib.Core.List.{Nodup, Nodup-cons, Nodup-nil, mem-cons, Mem, not-mem-nil}
use mathlib.Core.List.Perm
use mathlib.Core.Logic.Or
use mathlib.Core.HLevel.{⊥_prop}
use mildstack.Prelude.{◌≢◌, List, [], ◌∷◌, All}
use mildstack.Prelude.Sort.{stable_sort, stable_sort-perm}
use mathlib.Core.Bool.{Bool}

module _ {ℓ} {A : Type ℓ} where
  abbrev pub Distinct : List A → Type ℓ
  Distinct [] = Unit
  Distinct (x ∷ xs) = All (λ y. x ≢ y) xs × Distinct xs

  All-ne : (x : A) (xs : List A) → ¬ Mem x xs → All (λ y. x ≢ y) xs
  All-ne x [] h = tt
  All-ne x (y ∷ ys) h =
      (λ e. h (mem-cons.1 (Or.inl e)), All-ne x ys (λ m. h (mem-cons.1 (Or.inr m))))

  not-Mem : (x : A) (xs : List A) → All (λ y. x ≢ y) xs → ¬ Mem x xs
  not-Mem x [] h m = not-mem-nil m
  not-Mem x (y ∷ ys) h m = Or.elim ⊥_prop (mem-cons.0 m) h.0 (not-Mem x ys h.1)

  Distinct-Nodup : (xs : List A) → Nodup xs → Distinct xs
  Distinct-Nodup [] n = tt
  Distinct-Nodup (x ∷ xs) n = (All-ne x xs (Nodup-cons.0 n).0, Distinct-Nodup xs (Nodup-cons.0 n).1)

  Nodup-Distinct : (xs : List A) → Distinct xs → Nodup xs
  Nodup-Distinct [] d = Nodup-nil
  Nodup-Distinct (x ∷ xs) d = Nodup-cons.1 (not-Mem x xs d.0, Nodup-Distinct xs d.1)

  -- Sorting repeats no entry.
  pub Distinct-stable_sort :
      (less : A → A → Bool) (xs : List A) → Distinct xs → Distinct (stable_sort less xs)
  Distinct-stable_sort less xs d =
      Distinct-Nodup _ (Perm.nodup (Perm.symm (stable_sort-perm less xs)) (Nodup-Distinct xs d))
