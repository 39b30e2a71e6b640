-- ===== src/Base/Decimal.antt =====
-- Python's str(n) of a natural number.
use Prim.Native.Nat.{ℕ, zero, suc, ◌+◌, ◌/◌, ◌%◌, ◌<◌}
use Prim.Native.String.{String, slice, ◌++◌}
use mathlib.Core.Path.{◌≡◌, refl}
use native.Mathlib.Omega.{arith}
use mcp_session_router.Base.Tests.{ltb, if◌then◌else◌}

abbrev digit : ℕ → String
digit d = slice "0123456789" d (d + 1)

-- With as many rounds as there are digits, at most n + 1.
digits : ℕ → ℕ → String
digits zero n = ""
digits (suc rounds) n =
    let front = digits rounds (n / 10) in if ltb n 10 then digit n else front ++ digit (n % 10)

unfoldable pub decimal : ℕ → String
unfolding digits
decimal n = digits (suc n) n

-- More rounds than n change nothing: the digits have come to their end.
digits_enough : (f n : ℕ) → n < f → digits (suc f) n ≡ digits f n
unfolding digits
digits_enough zero n h = absurd (omega arith)
digits_enough (suc f) n h = ground (arith, digits_enough f (n / 10))

decimal_1205 : decimal 1205 ≡ "1205"
unfolding decimal
decimal_1205 = refl
