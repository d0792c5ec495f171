-- ===== src/Difficulty.antt =====
-- mining.c: the test of a hash against the difficulty.
use transaction_models_minin.Common.{
  ℕ, zero, suc, Bool, true, false, ◌&&◌, [], ◌∷◌, ◌==◌, if◌then◌else◌,
}
use transaction_models_minin.Common.Int.{ℤ, pos, pos_part, ltb_ℤ}
use transaction_models_minin.Common.Text.{Text}

-- The loop reads the characters in turn; the NUL at the end is no `'0'`.
unfoldable pub leading_zeros : Text → ℕ → Bool
leading_zeros hash zero = true
leading_zeros [] (suc n) = false
leading_zeros (c ∷ cs) (suc n) = c == b'0' && leading_zeros cs n

unfoldable pub hash_meets_difficulty : Text → ℤ → Bool
hash_meets_difficulty hash difficulty =
    if ltb_ℤ difficulty (pos 1) then false else leading_zeros hash (pos_part difficulty)
