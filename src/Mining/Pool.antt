-- ===== src/Mining/Pool.antt =====
-- mining.c, `mining_pool`: a reward is shared out by simulated hash rates, and paid before the
-- blocks are mined. Its amounts are small and not negative, so plain numbers stand for `int`.
pub mod Shares
use transaction_models_minin.Common.{
  ℕ, zero, suc, ◌+◌, ◌*◌, ◌-◌, ◌/◌, ◌%◌, Bool, true, false, List, [], ◌∷◌, ◌++◌, ltb, leb, ◌==◌,
  if◌then◌else◌,
}
use transaction_models_minin.Common.Int.{ℤ, pos, pos_part, ltb_ℤ}
use transaction_models_minin.Common.Text.{Text, codes, decimal}
use transaction_models_minin.Attendance.{Ledger, mining_reward, pool_fee_percent, max_pool_miners}
use transaction_models_minin.Env.{Env}
use transaction_models_minin.Pending.{pending_is_empty, pending_count}
use transaction_models_minin.Ledger.{ledger_credit_miner}
use transaction_models_minin.Mining.{
  MiningState, with_ledger, confirm_unchecked, Outcome, finished, aborted,
}

unfoldable pub miners_for : ℤ → ℕ
miners_for miner_count =
    let miners = if ltb_ℤ (pos 0) miner_count then pos_part miner_count else 4 in
    if ltb max_pool_miners miners then max_pool_miners else miners

-- `50 + (rand() % 151)` for miner `i` and those behind it
unfoldable pub draw_attempts : Env → ℕ → ℕ → List ℕ
draw_attempts e i zero = []
draw_attempts e i (suc n) = (50 + e.rand i % 151) ∷ draw_attempts e (suc i) n

unfoldable pub sum_attempts : List ℕ → ℕ
sum_attempts [] = 0
sum_attempts (a ∷ rest) = a + sum_attempts rest

unfoldable pub gross_reward : ℕ → ℕ
gross_reward blocks_to_mine = blocks_to_mine * pos_part mining_reward

unfoldable pub pool_fee : ℕ → ℕ
pool_fee gross = (gross * pool_fee_percent) / 100

unfoldable pub distributable : ℕ → ℕ
distributable blocks_to_mine = gross_reward blocks_to_mine - pool_fee (gross_reward blocks_to_mine)

unfoldable pub miner_reward : ℕ → ℕ → ℕ → ℕ
miner_reward amount total a = if total == 0 then 0 else (a * amount) / total

-- `POOL%03d`
unfoldable pub pool_miner_id : ℕ → Text
pool_miner_id n =
    codes "POOL"
    ++ ((if ltb n 10 then codes "00" else if ltb n 100 then codes "0" else []) ++ decimal n)

-- The payments to miner `i` and those behind it; a payment that fails is passed over.
unfoldable pub pay_pool : Env → Ledger → ℕ → ℕ → ℕ → List ℕ → Ledger
pay_pool e ledger amount total i [] = ledger
pay_pool e ledger amount total i (a ∷ rest) =
    let reward = miner_reward amount total a in
    pay_pool e
      (if ltb 0 reward
        then (ledger_credit_miner e ledger (pool_miner_id (i + 1)) (pos reward)).1
        else ledger)
      amount total (i + 1) rest

-- `for (b = 0; b < blocks_to_mine; b++)`
unfoldable pub confirm_blocks : ℕ → Env → MiningState → ℤ → Outcome × MiningState
confirm_blocks zero e st difficulty = (finished, st)
confirm_blocks (suc n) e st difficulty =
    let (confirmed, st') = confirm_unchecked e st difficulty in
    let rest = confirm_blocks n e st' difficulty in if confirmed then rest else (aborted, st')

unfoldable pub mining_pool : Env → MiningState → ℤ → ℤ → Outcome × MiningState
mining_pool e st difficulty miner_count =
    if pending_is_empty st.pool
    then (aborted, st)
    else (let blocks_to_mine = pending_count st.pool in
        let attempts = draw_attempts e 0 (miners_for miner_count) in
        let ledger' =
          pay_pool e st.ledger (distributable blocks_to_mine) (sum_attempts attempts) 0 attempts in
        confirm_blocks blocks_to_mine e (with_ledger st ledger') difficulty)
