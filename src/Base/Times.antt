-- ===== src/Base/Times.antt =====
-- Times that datetime.fromisoformat reads, in microseconds: with a time zone or without one.
use Prim.Native.Nat.{ℕ}
use mathlib.Core.Option.{Option, none, some}
use mathlib.Core.Bool.{Bool}
use mcp_session_router.Base.Tests.{ltb}
use mcp_session_router.Base.Results.{Result, ok, err, bad_type}

pub data Time : Type 0 where
  naive : ℕ → Time
  aware : ℕ → Time

-- a < b, a TypeError between a naive and an aware time
abbrev pub is_before : Time → Time → Result Bool
is_before (naive a) (naive b) = ok (ltb a b)
is_before (aware a) (aware b) = ok (ltb a b)
is_before (naive a) (aware b) = err bad_type
is_before (aware a) (naive b) = err bad_type

-- A text that is malformed, or has a time zone.
abbrev pub IsZoned : Option Time → Type 0
IsZoned none = Unit {0}
IsZoned (some (naive t)) = ⊥
IsZoned (some (aware t)) = Unit {0}
