-- ===== src/Blockchain/Easier.antt =====
-- A chain that `blockchain_validate` (blockchain.c) accepts at one difficulty, at a lower one.
use transaction_models_minin.Common.{
  ℕ, zero, suc, ◌≤◌, ◌≡◌, refl, true, inl, inr, [], ◌∷◌, Option, none, some, arith, Bool-cases,
  Option-cases,
}
use transaction_models_minin.Common.Int.{ℤ, pos, negsuc, ◌≤ℤ◌}
use transaction_models_minin.Common.Text.{Text}
use transaction_models_minin.Attendance.{Block, Chain}
use transaction_models_minin.Env.{Env}
use transaction_models_minin.Crypto.{compute_block_hash}
use transaction_models_minin.Difficulty.{leading_zeros, hash_meets_difficulty}
use transaction_models_minin.Blockchain.{
  meets_difficulty, validate_block, validate_from, blockchain_validate,
}

leading_zeros-fewer :
    (h : Text) (m n : ℕ) → m ≤ n → leading_zeros h n ≡ true → leading_zeros h m ≡ true
unfolding leading_zeros
leading_zeros-fewer h zero n le z = refl
leading_zeros-fewer [] (suc m) zero le z = absurd (omega arith)
leading_zeros-fewer [] (suc m) (suc n) le z = z
leading_zeros-fewer (c ∷ cs) (suc m) zero le z = absurd (omega arith)
leading_zeros-fewer (c ∷ cs) (suc m) (suc n) le z =
    ground (arith, leading_zeros-fewer cs m n (omega arith))

hash_meets_difficulty-easier :
    (h : Text) (d' d : ℤ)
    → pos 1 ≤ℤ d'
    → d' ≤ℤ d
    → hash_meets_difficulty h d ≡ true
    → hash_meets_difficulty h d' ≡ true
unfolding hash_meets_difficulty
hash_meets_difficulty-easier h (negsuc m) d low le z = absurd (omega arith)
hash_meets_difficulty-easier h (pos m) (negsuc n) low le z = absurd (omega arith)
hash_meets_difficulty-easier h (pos m) (pos n) low le z =
    ground (arith, leading_zeros-fewer h m n (omega arith))

meets_difficulty-easier :
    (d' d : ℤ) (previous : Option Block) (b : Block)
    → pos 1 ≤ℤ d'
    → d' ≤ℤ d
    → meets_difficulty d previous b ≡ true
    → meets_difficulty d' previous b ≡ true
unfolding meets_difficulty
meets_difficulty-easier d' d none b low le z = refl
meets_difficulty-easier d' d (some p) b low le z = hash_meets_difficulty-easier b.hash d' d low le z

validate_block-easier :
    (e : Env) (d' d : ℤ) (previous : Option Block) (b : Block)
    → pos 1 ≤ℤ d'
    → d' ≤ℤ d
    → validate_block e d previous b ≡ true
    → validate_block e d' previous b ≡ true
unfolding validate_block
validate_block-easier e d' d previous b low le v = elim (Option-cases (compute_block_hash e b)) [
  | inl failed ↦ absurd (ground arith)
  | inr (h, made) ↦ ground (arith, meets_difficulty-easier d' d previous b low le)
]

validate_from-easier :
    (e : Env) (d' d : ℤ) (previous : Option Block) (chain : Chain)
    → pos 1 ≤ℤ d'
    → d' ≤ℤ d
    → validate_from e d previous chain ≡ true
    → validate_from e d' previous chain ≡ true
unfolding validate_from
validate_from-easier e d' d previous [] low le v = refl
validate_from-easier e d' d previous (b ∷ chain) low le v =
    elim (Bool-cases (validate_block e d previous b)) [
      | inr bad ↦ absurd (ground arith)
      | inl good ↦
          rw (validate_block-easier e d' d previous b low le good)
            (validate_from-easier e d' d (some b) chain low le (ground arith))
    ]

pub blockchain_validate-easier :
    (e : Env) (chain : Chain) (d' d : ℤ)
    → pos 1 ≤ℤ d'
    → d' ≤ℤ d
    → blockchain_validate e chain d ≡ true
    → blockchain_validate e chain d' ≡ true
unfolding blockchain_validate
blockchain_validate-easier e [] d' d low le v = absurd (cc)
blockchain_validate-easier e (b ∷ chain) d' d low le v =
    validate_from-easier e d' d none (b ∷ chain) low le v
