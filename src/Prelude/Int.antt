-- ===== src/Prelude/Int.antt =====
-- Signed machine integers: `negsuc n` is -(n + 1).
use Prim.Native.Nat.{ℕ, zero, suc}
use mathlib.Core.Bool.{Bool, true, false}
use rclonewatch.Prelude.Tests.{◌==◌}

pub data ℤ : Type 0 where
  pos : ℕ → ℤ
  negsuc : ℕ → ℤ

abbrev pub is_negative : ℤ → Bool
is_negative (pos _) = false
is_negative (negsuc _) = true

-- Whether the number is at most zero.
abbrev pub is_nonpositive : ℤ → Bool
is_nonpositive (pos zero) = true
is_nonpositive (pos (suc _)) = false
is_nonpositive (negsuc _) = true

abbrev pub int_eq : ℤ → ℤ → Bool
int_eq (pos a) (pos b) = a == b
int_eq (negsuc a) (negsuc b) = a == b
int_eq _ _ = false
