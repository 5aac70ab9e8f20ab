-- ===== src/Prelude/Text.antt =====
-- Go's `strings.TrimSpace`, `strings.EqualFold` against ASCII text, and `<` on strings.
pub mod Order
use Prim.Native.Nat.{ℕ, ◌+◌}
use Prim.Native.Char.{Char, code}
use Prim.Native.String.{String, compare}
use mathlib.Core.Path.{◌≡◌, refl}
use mathlib.Core.Bool.{Bool, true, false, ◌&&◌, ◌||◌}
use native.Mathlib.Omega.{arith}
use text.Mathlib.Text.{is_lt}
use mildstack.Prelude.Tests.{leb, eqb, if◌then◌else◌, Bool-cases}
use mathlib.Core.Logic.{inl, inr}

-- `unicode.IsSpace`
unfoldable pub is_space : Char → Bool
is_space c =
    let n = code c in
    (leb 9 n && leb n 13)
    || eqb n 32
    || eqb n 0x85
    || eqb n 0xa0
    || eqb n 0x1680
    || (leb 0x2000 n && leb n 0x200a)
    || eqb n 0x2028
    || eqb n 0x2029
    || eqb n 0x202f
    || eqb n 0x205f
    || eqb n 0x3000

unfoldable pub trim_left : String → String
trim_left String.[] = String.[]
trim_left (String.◌∷◌ c s) = if is_space c then trim_left s else String.◌∷◌ c s

-- A space goes where all behind it has gone.
unfoldable pub drop_space : Char → String → String
drop_space c String.[] = if is_space c then String.[] else String.◌∷◌ c String.[]
drop_space c (String.◌∷◌ d s) = String.◌∷◌ c (String.◌∷◌ d s)

unfoldable pub trim_right : String → String
trim_right String.[] = String.[]
trim_right (String.◌∷◌ c s) = drop_space c (trim_right s)

-- `strings.TrimSpace`
unfoldable pub trim : String → String
unfolding trim_left trim_right is_space drop_space
trim s = trim_right (trim_left s)

drop_space_idem :
    (c : Char) (r : String) → trim_right r ≡ r → trim_right (drop_space c r) ≡ drop_space c r
unfolding trim_right drop_space
drop_space_idem c String.[] h = elim (Bool-cases (is_space c)) [
  | inl e ↦ rw e
  | inr e ↦ rw e (rw e)
]
drop_space_idem c (String.◌∷◌ d s) h = rw h

pub drop_space_lem : (c : Char) (s : String) → is_space c ≡ false → drop_space c s ≡ String.◌∷◌ c s
unfolding drop_space
drop_space_lem c String.[] h = rw h
drop_space_lem c (String.◌∷◌ d s) h = refl

trim_right_idem : (s : String) → trim_right (trim_right s) ≡ trim_right s
unfolding trim_right
trim_right_idem String.[] = refl
trim_right_idem (String.◌∷◌ c s) = drop_space_idem c (trim_right s) (trim_right_idem s)

trim_left-drop_space :
    (c : Char) (r : String) → is_space c ≡ false → trim_left (drop_space c r) ≡ drop_space c r
unfolding trim_left drop_space
trim_left-drop_space c String.[] h = ground arith
trim_left-drop_space c (String.◌∷◌ d s) h = ground arith

-- What `trim_left` returns is empty or begins with no space, and `trim_right` keeps that.
trim_left-trim_right-trim_left :
    (s : String) → trim_left (trim_right (trim_left s)) ≡ trim_right (trim_left s)
unfolding trim_left trim_right
trim_left-trim_right-trim_left String.[] = refl
trim_left-trim_right-trim_left (String.◌∷◌ c s) =
    ground (arith, trim_left-trim_right-trim_left s, trim_left-drop_space c (trim_right s))

pub trim_idem : (s : String) → trim (trim s) ≡ trim s
unfolding trim
trim_idem s = ground (arith, trim_left-trim_right-trim_left s, trim_right_idem (trim_left s))

pub trim-empty : trim "" ≡ ""
unfolding trim
trim-empty = refl

-- A name that the code has normalised.
abbrev pub IsTrimmed : String → Type 0
IsTrimmed s = trim s ≡ s

-- Simple case folding onto ASCII: the Kelvin sign and the long s fold to letters.
unfoldable pub fold_code : ℕ → ℕ
fold_code n =
    if leb b'A' n && leb n b'Z'
    then n + 32
    else if eqb n 0x212a
    then b'k'
    else if eqb n 0x17f
    then b's'
    else n

-- `strings.EqualFold`, whose second argument is an ASCII literal at every call.
unfoldable pub equal_fold : String → String → Bool
unfolding fold_code
equal_fold String.[] String.[] = true
equal_fold String.[] (String.◌∷◌ d t) = false
equal_fold (String.◌∷◌ c s) String.[] = false
equal_fold (String.◌∷◌ c s) (String.◌∷◌ d t) =
    eqb (fold_code (code c)) (fold_code (code d)) && equal_fold s t

-- Go compares bytes; UTF-8 orders texts as their code points are ordered.
abbrev pub string_lt : String → String → Bool
string_lt s t = is_lt (compare s t)
