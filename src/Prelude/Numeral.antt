-- ===== src/Prelude/Numeral.antt =====
-- `strconv.FormatInt` of what is not negative, `strconv.Atoi`, and the wrap-around of `int64`.
pub mod RoundTrip
use Prim.Native.Char.{Char, code}
use Prim.Native.String.{String, ◌++◌}
use mathlib.Core.Logic.{dite}
use mathlib.Core.WellFounded.{Acc, WellFounded}
use native.Mathlib.Decide.{dec_lt}
use Prim.Native.Nat.{ℕ, zero, suc, ◌+◌, ◌-◌, ◌*◌, ◌/◌, ◌%◌, ◌^◌, ◌<◌}
use mathlib.Core.Path.{◌≡◌, refl}
use mathlib.Core.Bool.{Bool, true, false, ◌&&◌}
use mathlib.Core.Option.{Option, none, some}
use native.Mathlib.Omega.{arith}
use mildstack.Prelude.Tests.{ltb, leb, eqb, if◌then◌else◌}

-- `negsuc n` is -(n + 1).
pub data ℤ : Type 0 where
  pos : ℕ → ℤ
  negsuc : ℕ → ℤ

abbrev pub neg : ℕ → ℤ
neg zero = pos 0
neg (suc n) = negsuc n

unfoldable pub is_positive : ℤ → Bool
is_positive (pos n) = ltb 0 n
is_positive (negsuc n) = false

unfoldable pub is_negative : ℤ → Bool
is_negative (pos n) = false
is_negative (negsuc n) = true

abbrev pub pos_part : ℤ → ℕ
pos_part (pos n) = n
pos_part (negsuc n) = 0

unfoldable pub int64_bound : ℕ
int64_bound = 2 ^ 63

-- The `int64` that a product of naturals leaves in 64 bits.
unfoldable pub wrap64 : ℕ → ℤ
wrap64 n = let m = n % 2 ^ 64 in if ltb m (2 ^ 63) then pos m else neg (2 ^ 64 - m)

-- One decimal digit.
unfoldable pub digit : ℕ → String
digit zero = "0"
digit (suc zero) = "1"
digit (suc (suc zero)) = "2"
digit (suc (suc (suc zero))) = "3"
digit (suc (suc (suc (suc zero)))) = "4"
digit (suc (suc (suc (suc (suc zero))))) = "5"
digit (suc (suc (suc (suc (suc (suc zero)))))) = "6"
digit (suc (suc (suc (suc (suc (suc (suc zero))))))) = "7"
digit (suc (suc (suc (suc (suc (suc (suc (suc zero)))))))) = "8"
digit _ = "9"

acc_below : (k n : ℕ) → n < k → Acc ◌<◌ n
acc_below zero n h = elim h [ ]
acc_below (suc k) n h = Acc.intro n (λ m lt. acc_below k m (omega arith))

render : (n : ℕ) → Acc ◌<◌ n → String
unfolding digit
render n (Acc.intro _ smaller) =
    dite (dec_lt n 10) (λ _. digit n)
      (λ h. render (n / 10) (smaller (n / 10) (omega arith)) ++ digit (n % 10))

-- `strconv.Itoa`, `strconv.FormatInt(n, 10)` and `%d`
unfoldable pub itoa : ℕ → String
unfolding render acc_below dec_lt
itoa n = render n (acc_below (suc n) n (omega arith))

unfoldable pub is_digit : Char → Bool
is_digit c = leb b'0' (code c) && leb (code c) b'9'

unfoldable pub scan : String → ℕ → Option ℕ
unfolding is_digit
scan String.[] n = some n
scan (String.◌∷◌ c s) n = if is_digit c then scan s (n * 10 + (code c - b'0')) else none

unfoldable pub unsigned : String → Option ℕ
unfolding scan
unsigned String.[] = none
unsigned (String.◌∷◌ c s) = scan (String.◌∷◌ c s) 0

-- A number out of the range of `int` is an error.
unfoldable pub in_range : Option ℕ → Option ℤ
unfolding int64_bound
in_range none = none
in_range (some n) = if ltb n int64_bound then some (pos n) else none

unfoldable pub in_negative_range : Option ℕ → Option ℤ
unfolding int64_bound
in_negative_range none = none
in_negative_range (some n) = if leb n int64_bound then some (neg n) else none

-- `strconv.Atoi`; an error is `none`.
unfoldable pub atoi : String → Option ℤ
unfolding unsigned in_range in_negative_range
atoi String.[] = none
atoi (String.◌∷◌ c s) =
    if eqb (code c) b'-'
    then in_negative_range (unsigned s)
    else if eqb (code c) b'+'
    then in_range (unsigned s)
    else in_range (unsigned (String.◌∷◌ c s))
