-- ===== src/Prelude/Numeral/RoundTrip.antt =====
-- Itoa followed by Atoi.
use Prim.Native.Char.{code}
use Prim.Native.String.{String, ◌++◌}
use text.Mathlib.TextLemmas.{nil-append, cons-append}
use mathlib.Core.WellFounded.{Acc}
use mathlib.Core.Logic.{◌≢◌, dif_pos, dif_neg}
use native.Mathlib.Decide.{dec_lt}
use native.Mathlib.Bridge.{le_prop}
use Prim.Native.Nat.{ℕ, zero, suc, ◌-◌, ◌+◌, ◌*◌, ◌/◌, ◌%◌, ◌<◌}
use mathlib.Core.Path.{◌≡◌, refl, ap, ◌∙◌}
use mathlib.Core.Option.{Option, none, some}
use native.Mathlib.Omega.{arith}
use mathlib.Core.Bool.{true, false}
use mathlib.Core.Logic.{inl, inr}
use Prim.Native.Char.{Char}
use mildstack.Prelude.Tests.{Bool-cases}
use mildstack.Prelude.Text.{trim, trim_left, trim_right, is_space, drop_space_lem}
use mildstack.Prelude.Numeral.{
  is_digit, pos, digit, render, acc_below, itoa, scan, atoi, int64_bound,
}

scan_then : Option ℕ → String → Option ℕ
scan_then none t = none
scan_then (some m) t = scan t m

scan-append : (s t : String) (n : ℕ) → scan (s ++ t) n ≡ scan_then (scan s n) t
unfolding scan scan_then
scan-append String.[] t n = rw nil-append
scan-append (String.◌∷◌ c s) t n =
    rw cons-append (ground (arith, scan-append s t (n * 10 + (code c - b'0'))))

scan-digit : (d n : ℕ) → d < 10 → scan (digit d) n ≡ some (n * 10 + d)
unfolding scan digit
scan-digit zero n h = refl
scan-digit (suc zero) n h = refl
scan-digit (suc (suc zero)) n h = refl
scan-digit (suc (suc (suc zero))) n h = refl
scan-digit (suc (suc (suc (suc zero)))) n h = refl
scan-digit (suc (suc (suc (suc (suc zero))))) n h = refl
scan-digit (suc (suc (suc (suc (suc (suc zero)))))) n h = refl
scan-digit (suc (suc (suc (suc (suc (suc (suc zero))))))) n h = refl
scan-digit (suc (suc (suc (suc (suc (suc (suc (suc zero)))))))) n h = refl
scan-digit (suc (suc (suc (suc (suc (suc (suc (suc (suc zero))))))))) n h = refl
scan-digit (suc (suc (suc (suc (suc (suc (suc (suc (suc (suc d)))))))))) n h = absurd (omega arith)

scan-render : (n : ℕ) (w : Acc ◌<◌ n) → scan (render n w) 0 ≡ some n
unfolding render scan_then scan
scan-render n (Acc.intro _ smaller) = elim (dec_lt n 10) [
  | yes h ↦ rw (dif_pos _ le_prop h _ _) (scan-digit n 0 h ∙ ap some (omega arith))
  | no h ↦ rw (dif_neg _ h _ _) (
      rw scan-append (
        rw (scan-render (n / 10) (smaller (n / 10) (omega arith)), scan_then)
          (scan-digit (n % 10) (n / 10) (omega arith) ∙ ap some (omega arith))))
]

-- What reads as a number from the first digit on has no sign, so `atoi` reads it too.
atoi-of-scan :
    (s : String) (n : ℕ) → s ≢ "" → scan s 0 ≡ some n → n < int64_bound → atoi s ≡ some (pos n)
unfolding atoi
atoi-of-scan String.[] n ne h lt = absurd (ne refl)
atoi-of-scan (String.◌∷◌ c s) n ne h lt = ground arith

scan-itoa : (n : ℕ) → scan (itoa n) 0 ≡ some n
unfolding itoa
scan-itoa n = scan-render n (acc_below (suc n) n (omega arith))

itoa-ne-empty : (n : ℕ) → itoa n ≢ ""
unfolding scan itoa
itoa-ne-empty zero e = cc
itoa-ne-empty (suc n) e = cc (scan-itoa (suc n), ap (λ s. scan s 0) e)

-- A number in the range of `int` that is printed is read back.
pub atoi-itoa : (n : ℕ) → n < int64_bound → atoi (itoa n) ≡ some (pos n)
atoi-itoa n h = atoi-of-scan (itoa n) n (itoa-ne-empty n) (scan-itoa n) h

digit-not-space : (c : Char) → is_digit c ≡ true → is_space c ≡ false
unfolding is_digit is_space
digit-not-space c h = ground arith

trim_right-of-scan : (s : String) (k n : ℕ) → scan s k ≡ some n → trim_right s ≡ s
unfolding trim_right scan
trim_right-of-scan String.[] k n h = refl
trim_right-of-scan (String.◌∷◌ c s) k n h = elim (Bool-cases (is_digit c)) [
  | inl e ↦
      rw (trim_right-of-scan s (k * 10 + (code c - b'0')) n (rw e at h))
        (drop_space_lem c s (digit-not-space c e))
  | inr e ↦ cc (e, h)
]

trim_left-of-scan : (s : String) (k n : ℕ) → scan s k ≡ some n → trim_left s ≡ s
unfolding trim_left scan
trim_left-of-scan String.[] k n h = refl
trim_left-of-scan (String.◌∷◌ c s) k n h = elim (Bool-cases (is_digit c)) [
  | inl e ↦ rw (digit-not-space c e)
  | inr e ↦ cc (e, h)
]

-- A number is printed with no space around it.
pub trim-itoa : (n : ℕ) → trim (itoa n) ≡ itoa n
unfolding trim
trim-itoa n =
    rw (trim_left-of-scan (itoa n) 0 n (scan-itoa n))
      (trim_right-of-scan (itoa n) 0 n (scan-itoa n))
