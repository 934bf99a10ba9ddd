-- ===== src/Prelude/Js.antt =====
-- JavaScript values that the source guards against: a `number` that may be NaN or infinite, and a
-- time that may be missing or unreadable. Finite numbers are the integers.
use mathlib.Core.Bool.{Bool, true, false}
use Prim.Native.Nat.{ℕ}

-- `neg n` is -(n + 1).
pub data Number : Type 0 where
  nan infinity neg_infinity : Number
  nat neg : ℕ → Number

-- `Number.isFinite(x)`
abbrev pub is_finite : Number → Bool
is_finite (nat n) = true
is_finite (neg n) = true
is_finite _ = false

-- `Number.isFinite(x) ? Math.max(0, x) : 0`
abbrev pub clamp : Number → ℕ
clamp (nat n) = n
clamp _ = 0

-- A value of type `Date | string | null | undefined`; `at` is one with a finite `getTime()` or
-- `Date.parse`, in epoch milliseconds, and `unreadable` is any other date or non-empty string.
pub data TimeValue : Type 0 where
  missing empty unreadable : TimeValue
  at : ℕ → TimeValue

-- 24 * 60 * 60 * 1000
abbrev pub day_ms : ℕ
day_ms = 86400000
