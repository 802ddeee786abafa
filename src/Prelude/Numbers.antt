-- ===== src/Prelude/Numbers.antt =====
-- A JavaScript number, as far as the program's checks tell numbers apart.
use Prim.Native.Nat.{ℕ, ◌+◌, ◌^◌, ◌≤◌, ◌<◌}
use mathlib.Core.Bool.{Bool, true, false, ◌&&◌}
use mathlib.Core.Path.{◌≡◌}
use native.Mathlib.Omega.{arith}
use wrap_link.Prelude.Tests.{ltb, leb}
use wrap_link.Prelude.Strings.{Text}
use wrap_link.Prelude.Results.{ℤ, pos, negsuc}

-- An integer, or NaN, an infinity or a number with a fraction.
pub data JsNumber : Type 0 where
  integer : ℤ → JsNumber
  other : JsNumber

-- `Number.isSafeInteger(n)`
unfoldable pub is_safe_integer : JsNumber → Bool
is_safe_integer (integer (pos n)) = ltb n (2 ^ 53)
is_safe_integer (integer (negsuc n)) = ltb (n + 1) (2 ^ 53)
is_safe_integer other = false

-- `n >= k`, for a natural number `k`
unfoldable pub at_least : ℕ → JsNumber → Bool
at_least k (integer (pos n)) = leb k n
at_least k (integer (negsuc n)) = false
at_least k other = false

-- `Number.isSafeInteger(n) && n >= 1`, the test that the program's options take.
unfoldable pub is_positive : JsNumber → Bool
unfolding is_safe_integer at_least
is_positive n = is_safe_integer n && at_least 1 n

-- The natural number that a checked number stands for.
unfoldable pub nat_value : JsNumber → ℕ
nat_value (integer (pos n)) = n
nat_value _ = 0

pub is_positive_bounds :
    (n : JsNumber) → is_positive n ≡ true → (1 ≤ nat_value n) × (nat_value n < 2 ^ 53)
unfolding is_positive nat_value
is_positive_bounds (integer (pos n)) h = ground arith
is_positive_bounds (integer (negsuc n)) h = ground arith
is_positive_bounds other h = ground arith

-- A value of a request whose type is not known: what `typeof` and the program's checks tell apart.
pub data JsValue : Type 0 where
  text : Text → JsValue
  number : JsNumber → JsValue
  undefined : JsValue
  other_value : JsValue
