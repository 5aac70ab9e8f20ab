-- ===== src/Sqs/Permissions/Tidied.antt =====
-- uniqueSortedTrimmedStrings of core/internal/resources/sqs/application/service.go, apart from how it
-- is computed.
use mathlib.Core.List.{Mem, mem-cons}
use mathlib.Core.List.Perm
use mathlib.Core.Path.{sym, subst}
use mathlib.Core.Logic.Or
use mildstack.Prelude.{
  ℕ, suc, ◌≡◌, ◌≢◌, ◌⊎◌, refl, String, ◌==◌, ◌||◌, true, false, eq_iff, some, List, [], ◌∷◌, arith,
  trim, All, All-map, get_elem?, Bool-cases, inl, inr, string_lt,
}
use mildstack.Prelude.Sort.{stable_sort, stable_sort-perm, All-stable_sort}
use mildstack.Prelude.Sort.Sorted.{IsSorted, stable_sort-IsSorted}
use mildstack.Prelude.Distinct.{Distinct, Distinct-stable_sort}
use mildstack.Prelude.Text.Order.{string_lt_asymm, string_ge_trans}
use mildstack.Sqs.Batch.{contains}
use mildstack.Sqs.Permissions.{trimmed_once, unique_sorted_trimmed_strings}

-- A text that is one of the values with the spaces around it left out, and not blank.
abbrev pub IsFrom : List String → String → Type 0
IsFrom values text =
    (text ≢ "") × (j : ℕ) × (raw : String) × (get_elem? values j ≡ some raw) × (trim raw ≡ text)

-- Just the values that are not blank, trimmed, in order and none twice.
abbrev pub Tidied : List String → List String → Type 0
Tidied values kept =
    All (IsFrom values) kept
    × All (λ raw. (trim raw ≡ "") ⊎ Mem (trim raw) kept) values
    × Distinct kept
    × IsSorted string_lt kept

contains-Mem : (text : String) (xs : List String) → contains text xs ≡ true → Mem text xs
unfolding contains
contains-Mem text [] h = cc
contains-Mem text (x ∷ xs) h = elim (Bool-cases (x == text)) [
  | inl e ↦ mem-cons.1 (Or.inl (ground (arith, eq_iff x text)))
  | inr e ↦ mem-cons.1 (Or.inr (contains-Mem text xs (ground arith)))
]

contains-All :
    (text : String) (xs : List String) → contains text xs ≡ false → All (λ y. text ≢ y) xs
unfolding contains
contains-All text [] h = tt
contains-All text (x ∷ xs) h =
    (λ e. ground (arith, e, eq_iff x text), contains-All text xs (ground arith))

IsFrom-cons :
    (raw : String) (values : List String) (text : String)
    → IsFrom values text
    → IsFrom (raw ∷ values) text
IsFrom-cons raw values text (ne, j, r, at, e) = (ne, suc j, r, at, e)

trimmed_once-IsFrom : (values : List String) → All (IsFrom values) (trimmed_once values)
unfolding trimmed_once
trimmed_once-IsFrom [] = tt
trimmed_once-IsFrom (v ∷ vs) =
    let later =
      All-map (IsFrom vs) (IsFrom (v ∷ vs)) (IsFrom-cons v vs) (trimmed_once vs)
        (trimmed_once-IsFrom vs) in
    elim (Bool-cases (trim v == "" || contains (trim v) (trimmed_once vs))) [
      | inl h ↦ rw h later
      | inr h ↦ rw h ((λ e. ground (arith, e, eq_iff (trim v) ""), 0, v, refl, refl), later)
    ]

-- Each value that is not blank is kept.
abbrev Kept : List String → String → Type 0
Kept kept raw = (trim raw ≡ "") ⊎ Mem (trim raw) kept

Kept-cons : (x : String) (kept : List String) (raw : String) → Kept kept raw → Kept (x ∷ kept) raw
Kept-cons x kept raw (inl e) = inl e
Kept-cons x kept raw (inr m) = inr (mem-cons.1 (Or.inr m))

trimmed_once_blank :
    (v : String) (vs : List String)
    → (trim v == "") ≡ true
    → trimmed_once (v ∷ vs) ≡ trimmed_once vs
unfolding trimmed_once
trimmed_once_blank v vs h = rw h refl

trimmed_once_again :
    (v : String) (vs : List String)
    → contains (trim v) (trimmed_once vs) ≡ true
    → trimmed_once (v ∷ vs) ≡ trimmed_once vs
unfolding trimmed_once
trimmed_once_again v vs h = ground arith

trimmed_once_new :
    (v : String) (vs : List String)
    → (trim v == "") ≡ false
    → contains (trim v) (trimmed_once vs) ≡ false
    → trimmed_once (v ∷ vs) ≡ trim v ∷ trimmed_once vs
unfolding trimmed_once
trimmed_once_new v vs h k = rw (h, k) refl

Kept-All :
    (v : String) (vs kept kept' : List String)
    → kept' ≡ kept
    → Kept kept v
    → All (Kept kept) vs
    → All (Kept kept') (v ∷ vs)
Kept-All v vs kept kept' e here later = subst (λ k. All (Kept k) (v ∷ vs)) (sym e) (here, later)

trimmed_once-Kept : (values : List String) → All (Kept (trimmed_once values)) values
trimmed_once-Kept [] = tt
trimmed_once-Kept (v ∷ vs) = elim (Bool-cases (trim v == "")) [
  | inl h ↦
      Kept-All v vs (trimmed_once vs) (trimmed_once (v ∷ vs)) (trimmed_once_blank v vs h)
        (inl (ground (arith, eq_iff (trim v) ""))) (trimmed_once-Kept vs)
  | inr h ↦ elim (Bool-cases (contains (trim v) (trimmed_once vs))) [
    | inl k ↦
        Kept-All v vs (trimmed_once vs) (trimmed_once (v ∷ vs)) (trimmed_once_again v vs k)
          (inr (contains-Mem (trim v) (trimmed_once vs) k)) (trimmed_once-Kept vs)
    | inr k ↦
        Kept-All v vs (trim v ∷ trimmed_once vs) (trimmed_once (v ∷ vs)) (trimmed_once_new v vs h k)
          (inr (mem-cons.1 (Or.inl refl)))
          (All-map (Kept (trimmed_once vs)) (Kept (trim v ∷ trimmed_once vs))
            (Kept-cons (trim v) (trimmed_once vs)) vs (trimmed_once-Kept vs))
  ]
]

trimmed_once-Distinct : (values : List String) → Distinct (trimmed_once values)
unfolding trimmed_once
trimmed_once-Distinct [] = tt
trimmed_once-Distinct (v ∷ vs) =
    elim (Bool-cases (trim v == "" || contains (trim v) (trimmed_once vs))) [
      | inl h ↦ rw h (trimmed_once-Distinct vs)
      | inr h ↦
          rw h (contains-All (trim v) (trimmed_once vs) (ground arith), trimmed_once-Distinct vs)
    ]

Kept-sort : (xs : List String) (raw : String) → Kept xs raw → Kept (stable_sort string_lt xs) raw
Kept-sort xs raw (inl e) = inl e
Kept-sort xs raw (inr m) = inr ((Perm.mem_iff (stable_sort-perm string_lt xs)).1 m)

pub unique_sorted_trimmed_strings-Tidied :
    (values : List String) → Tidied values (unique_sorted_trimmed_strings values)
unfolding unique_sorted_trimmed_strings
unique_sorted_trimmed_strings-Tidied values = (
  All-stable_sort string_lt (IsFrom values) (trimmed_once values) (trimmed_once-IsFrom values),
  All-map (Kept (trimmed_once values)) (Kept (stable_sort string_lt (trimmed_once values)))
      (Kept-sort (trimmed_once values)) values (trimmed_once-Kept values),
  Distinct-stable_sort string_lt (trimmed_once values) (trimmed_once-Distinct values),
  stable_sort-IsSorted string_lt string_lt_asymm string_ge_trans (trimmed_once values),
)
