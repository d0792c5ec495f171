-- ===== src/Common/Decimal.antt =====
-- The length of printed numbers.
use Prim.Native.Nat.{ℕ, zero, suc, ◌+◌, ◌/◌, ◌%◌, ◌^◌, ◌≤◌, ◌<◌}
use mathlib.Core.Logic.{inl, inr}
use mathlib.Core.List.{[], ◌∷◌}
use native.Mathlib.Omega.{arith}
use native.Mathlib.Nat.{pow-suc}
use transaction_models_minin.Common.Tests.{ltb, Bool-cases}
use transaction_models_minin.Common.Lists.{length}
use transaction_models_minin.Common.Int.{ℤ, pos, negsuc, FitsInt}
use transaction_models_minin.Common.Text.{Text, digits, decimal, decimal_int}

-- A number below 10 ^ k, with k at least 1, has at most k digits.
length-digits :
    (fuel k n : ℕ) (acc : Text) → n < 10 ^ suc k → length (digits fuel n acc) ≤ length acc + suc k
unfolding digits
length-digits zero k n acc h = omega arith
length-digits (suc fuel) zero n acc h = elim (Bool-cases (ltb n 10)) [
  | inl small ↦ rw small (omega arith)
  | inr large ↦ absurd (ground arith)
]
length-digits (suc fuel) (suc k) n acc h =
    let shorter : n / 10 < 10 ^ suc k = omega (arith, pow-suc 10 (suc k)) in
    ground (arith, length-digits fuel k (n / 10) ((b'0' + n % 10) ∷ acc) shorter)

pub length-decimal : (k n : ℕ) → n < 10 ^ suc k → length (decimal n) ≤ suc k
unfolding decimal
length-decimal k n h = omega (arith, length-digits (suc n) k n [] h)

-- An `int` is printed in at most eleven characters.
pub length-decimal_int : (z : ℤ) → FitsInt z → length (decimal_int z) ≤ 11
unfolding decimal_int
length-decimal_int (pos n) h = omega (arith, length-decimal 9 n (omega arith))
length-decimal_int (negsuc n) h = omega (arith, length-decimal 9 (suc n) (omega arith))
