-- ===== src/Prelude/Int.antt =====
-- Python's `int`, over the native numbers.
use Prim.Native.Nat.{ℕ, suc}
use mathlib.Core.Bool.{Bool, true, false, not}
use homeassistant_2gig_gc.Prelude.Tests.{nat_eq}

-- `negsuc n` is -(n + 1).
pub data ℤ : Type 0 where
  pos : ℕ → ℤ
  negsuc : ℕ → ℤ

-- An integer with its sign and its absolute value.
abbrev pub signed : Bool → ℕ → ℤ
signed false n = pos n
signed true ℕ.zero = pos 0
signed true (suc n) = negsuc n

-- `n != 0`
abbrev pub is_nonzero : ℤ → Bool
is_nonzero (pos n) = not (nat_eq n 0)
is_nonzero (negsuc n) = true
