-- ===== src/Mining/Pool/Shares.antt =====
-- The arithmetic of `mining_pool` (mining.c): fee, shares, bounds.
use native.Mathlib.Nat.{div-add-mod, le_of_mul-le-mul_right}
use transaction_models_minin.Common.{
  ℕ, zero, suc, ◌+◌, ◌*◌, ◌≤◌, ◌≡◌, refl, ap, List, [], ◌∷◌, arith, length, All,
}
use transaction_models_minin.Common.Int.{ℤ, int_max}
use transaction_models_minin.Attendance.{max_pending, max_pool_miners, pool_fee_percent}
use transaction_models_minin.Env.{Env}
use transaction_models_minin.Mining.Pool.{
  miners_for, draw_attempts, sum_attempts, gross_reward, pool_fee, distributable, miner_reward,
}

pub miners_for_bounds : (n : ℤ) → (1 ≤ miners_for n) × (miners_for n ≤ max_pool_miners)
unfolding miners_for
miners_for_bounds n = ground arith

-- All that the pool pays to its miners.
abbrev pub paid_out : ℕ → ℕ → List ℕ → ℕ
paid_out amount total [] = 0
paid_out amount total (a ∷ rest) = miner_reward amount total a + paid_out amount total rest

share-le : (amount total a : ℕ) → miner_reward amount total a * total ≤ a * amount
unfolding miner_reward
share-le amount zero a = omega arith
share-le amount (suc t) a = ground (arith, div-add-mod (a * amount) (suc t))

paid_out-scaled :
    (amount total : ℕ) (attempts : List ℕ)
    → paid_out amount total attempts * total ≤ sum_attempts attempts * amount
unfolding sum_attempts
paid_out-scaled amount total [] = omega arith
paid_out-scaled amount total (a ∷ rest) =
    omega (arith, share-le amount total a, paid_out-scaled amount total rest)

paid_out-no_attempts : (amount : ℕ) (attempts : List ℕ) → paid_out amount 0 attempts ≡ 0
unfolding miner_reward
paid_out-no_attempts amount [] = refl
paid_out-no_attempts amount (a ∷ rest) = omega (arith, paid_out-no_attempts amount rest)

paid_out-le :
    (amount total : ℕ) (attempts : List ℕ)
    → sum_attempts attempts ≡ total
    → paid_out amount total attempts ≤ amount
paid_out-le amount zero attempts all = omega (arith, paid_out-no_attempts amount attempts)
paid_out-le amount (suc t) attempts all =
    le_of_mul-le-mul_right {k = suc t}
      (omega (arith, paid_out-scaled amount (suc t) attempts, ap (λ (s : ℕ). s * amount) all))
      (omega arith)

-- The pool never pays its miners more than the mining rewards of the pending blocks less the pool's
-- fee, whatever the hash rates.
pub pool_payments-le :
    (blocks_to_mine : ℕ) (attempts : List ℕ)
    → paid_out (distributable blocks_to_mine) (sum_attempts attempts) attempts
        + pool_fee (gross_reward blocks_to_mine)
      ≤ blocks_to_mine * 20
unfolding distributable gross_reward pool_fee
pool_payments-le n attempts =
    omega (arith, paid_out-le (distributable n) (sum_attempts attempts) attempts refl)

abbrev pub InRange : ℕ → Type 0
InRange a = (50 ≤ a) × (a ≤ 200)

draw_attempts-InRange :
    (e : Env) (i n : ℕ)
    → All InRange (draw_attempts e i n)
      × (length (draw_attempts e i n) ≡ n)
      × (sum_attempts (draw_attempts e i n) ≤ n * 200)
unfolding draw_attempts sum_attempts
draw_attempts-InRange e i zero = (tt, refl, omega arith)
draw_attempts-InRange e i (suc n) =
    let (ranges, size, total) = draw_attempts-InRange e (suc i) n in
    ((omega arith, ranges), ap suc size, omega (arith, total))

product_bound : (a b : ℕ) → a ≤ 200 → b ≤ 5120 → a * b ≤ int_max
product_bound a b h k = let p : a * b ≤ 200 * b = grind arith in omega (arith, p)

-- No product of the pool's arithmetic leaves the range of `int`: a full pool of pending blocks, the
-- most miners and the highest hash rates give at most these values, and every hash rate is in range.
pub pool-no_overflow :
    (e : Env) (blocks_to_mine : ℕ) (miner_count : ℤ) (a : ℕ)
    → blocks_to_mine ≤ max_pending
    → a ≤ 200
    → (gross_reward blocks_to_mine * pool_fee_percent ≤ int_max)
      × (a * distributable blocks_to_mine ≤ int_max)
      × (sum_attempts (draw_attempts e 0 (miners_for miner_count)) ≤ 1600)
      × All InRange (draw_attempts e 0 (miners_for miner_count))
unfolding distributable gross_reward
pool-no_overflow e n count a few rate =
    let (ranges, size, total) = draw_attempts-InRange e 0 (miners_for count) in
    let most : distributable n ≤ 5120 = omega arith in
    (
      omega arith,
      product_bound a (distributable n) rate most,
      omega (arith, total, (miners_for_bounds count).1),
      ranges,
    )
