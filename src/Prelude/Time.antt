-- ===== src/Prelude/Time.antt =====
-- `time.Time`, which the records of every service hold.
use Prim.Native.Nat.{ℕ}
use mathlib.Core.Bool.{Bool}
use mildstack.Prelude.Tests.{eqb}

-- Nanoseconds since Go's zero time, so 0 is the time for which `IsZero` holds.
abbrev pub Time : Type 0
Time = ℕ

abbrev pub is_zero : Time → Bool
is_zero t = eqb t 0
