-- ===== src/Prelude/Numbers.antt =====
-- The numbers of the source where it asks whether a value is a safe integer, finite or negative.
use Prim.Native.Nat.{ℕ}
use mathlib.Core.Bool.{Bool, false, not, ◌&&◌, ◌||◌}
use mathlib.Core.Option.{Option, none, some}
use pi_multi_orchestrator.Prelude.Tests.{if◌then◌else◌, ltb, leb}

-- A finite number by its sign, its integer part and whether a fraction follows; NaN and the
-- infinities are `not_finite`.
pub data Number : Type 0 where
  finite : (negative : Bool) (whole : ℕ) (fraction : Bool) → Number
  not_finite : Number

abbrev pub nat : ℕ → Number
nat n = finite false n false

-- `Number.MAX_SAFE_INTEGER`.
abbrev pub max_safe_integer : ℕ
max_safe_integer = 9007199254740991

-- `Number.isSafeInteger(x)`.
abbrev pub is_safe_integer : Number → Bool
is_safe_integer (finite negative whole fraction) = not fraction && leb whole max_safe_integer
is_safe_integer not_finite = false

-- `x < 0`, for a finite x.
abbrev pub is_negative : Number → Bool
is_negative (finite negative whole fraction) = negative && (ltb 0 whole || fraction)
is_negative not_finite = false

-- `Math.trunc(x)` of a number that is finite and not negative.
abbrev pub trunc : Number → ℕ
trunc (finite negative whole fraction) = whole
trunc not_finite = 0

-- A non-negative safe integer, as a natural number.
abbrev pub safe_nat? : Number → Option ℕ
safe_nat? x = if is_safe_integer x && not (is_negative x) then some (trunc x) else none
