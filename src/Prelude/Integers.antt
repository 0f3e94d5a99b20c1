-- ===== src/Prelude/Integers.antt =====
-- The integers over the native numbers, for a difference of two times.
use Prim.Native.Nat.{ℕ, zero, ◌-◌}
use mathlib.Core.Option.{Option, none, some}
use strata_documentai_api_en.Prelude.Tests.{leb, if◌then◌else◌}

pub data ℤ : Type 0 where
  pos : ℕ → ℤ
  negsuc : ℕ → ℤ

abbrev pub minus : ℕ → ℕ → ℤ
minus a b = if leb b a then pos (a - b) else negsuc (b - a - 1)

-- Python's truth of an optional number: neither `None` nor zero.
abbrev pub nonzero : Option ℤ → Option ℤ
nonzero none = none
nonzero (some (pos zero)) = none
nonzero (some n) = some n
