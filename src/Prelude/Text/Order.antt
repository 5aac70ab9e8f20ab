-- ===== src/Prelude/Text/Order.antt =====
-- The order `<` on strings.
use Prim.Native.Char.{Char, code}
use Prim.Native.String.{String}
use Prim.Native.String.compare
use mathlib.Core.Path.{◌≡◌, refl, ap₂}
use mathlib.Core.Bool.{true, false}
use native.Mathlib.Omega.{arith}
use text.Mathlib.TextEquality.{Char-path}
use mildstack.Prelude.Tests.{ltb, if◌then◌else◌}
use mildstack.Prelude.Text.{string_lt}

string_lt-cons :
    (c d : Char) (s t : String)
    → string_lt (String.◌∷◌ c s) (String.◌∷◌ d t) ≡ (
        if ltb (code c) (code d)
        then true
        else if ltb (code d) (code c)
        then false
        else string_lt s t)
string_lt-cons c d s t = rw (compare.cons-cons c d s t) (ground arith)

-- Of two texts that are not equal one is less.
pub string_lt_total : (s t : String) → string_lt s t ≡ false → string_lt t s ≡ false → s ≡ t
string_lt_total String.[] String.[] h k = refl
string_lt_total String.[] (String.◌∷◌ d t) h k = cc (compare.nil-cons d t)
string_lt_total (String.◌∷◌ c s) String.[] h k = cc (compare.nil-cons c s)
string_lt_total (String.◌∷◌ c s) (String.◌∷◌ d t) h k =
    let h' = rw (string_lt-cons c d s t) at h in
    let k' = rw (string_lt-cons d c t s) at k in
    ap₂ String.◌∷◌ (Char-path c d (ground arith))
      (string_lt_total s t (ground arith) (ground arith))

pub string_lt_asymm : (s t : String) → string_lt s t ≡ true → string_lt t s ≡ false
string_lt_asymm String.[] String.[] h = refl
string_lt_asymm String.[] (String.◌∷◌ d t) h = rw (compare.cons-nil d t) refl
string_lt_asymm (String.◌∷◌ c s) String.[] h = absurd (cc (compare.cons-nil c s))
string_lt_asymm (String.◌∷◌ c s) (String.◌∷◌ d t) h =
    let h' = rw (string_lt-cons c d s t) at h in
    rw (string_lt-cons d c t s) (ground (arith, string_lt_asymm s t))

pub string_ge_trans :
    (s t u : String) → string_lt s t ≡ false → string_lt t u ≡ false → string_lt s u ≡ false
string_ge_trans String.[] t String.[] h k = refl
string_ge_trans (String.◌∷◌ c s) t String.[] h k = rw (compare.cons-nil c s) refl
string_ge_trans String.[] String.[] (String.◌∷◌ e u) h k = k
string_ge_trans String.[] (String.◌∷◌ d t) (String.◌∷◌ e u) h k = absurd (cc (compare.nil-cons d t))
string_ge_trans (String.◌∷◌ c s) String.[] (String.◌∷◌ e u) h k = absurd (cc (compare.nil-cons e u))
string_ge_trans (String.◌∷◌ c s) (String.◌∷◌ d t) (String.◌∷◌ e u) h k =
    let h' = rw (string_lt-cons c d s t) at h in
    let k' = rw (string_lt-cons d e t u) at k in
    rw (string_lt-cons c e s u) (ground (arith, string_ge_trans s t u))
