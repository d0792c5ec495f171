-- ===== src/Mining/Cloud.antt =====
-- mining.c, `mining_cloud`: the accounts of the rented rounds, then the blocks, then the profit.
pub mod Profit
use transaction_models_minin.Common.{
  ℕ, zero, suc, Bool, true, false, ◌||◌, List, [], ◌∷◌, if◌then◌else◌,
}
use transaction_models_minin.Common.Int.{ℤ, pos, pos_part, add_int, sub_int, mul_int, ltb_ℤ}
use transaction_models_minin.Common.Text.{Text, codes}
use transaction_models_minin.Attendance.{Ledger, mining_reward, cloud_min_rounds, cloud_max_rounds}
use transaction_models_minin.Env.{Env}
use transaction_models_minin.Pending.{pending_is_empty, pending_count}
use transaction_models_minin.Ledger.{ledger_credit_miner}
use transaction_models_minin.Mining.{
  MiningState, with_ledger, confirm_unchecked, Outcome, finished, aborted, no_fuel,
}

-- The running sums of the rounds, and whether the last round left the fees above the rewards.
pub record CloudSums : Type 0 where
  pub gross_earnings : ℤ
  pub total_fees : ℤ
  pub net_profit : ℤ
  pub warned : Bool

abbrev pub no_rounds : CloudSums
no_rounds = record {
  gross_earnings = pos 0;
  total_fees = pos 0;
  net_profit = pos 0;
  warned = false;
}

unfoldable pub cloud_round : ℤ → ℤ → CloudSums → CloudSums
cloud_round round_reward round_fees s =
    let gross = add_int s.gross_earnings round_reward in
    let fees = add_int s.total_fees round_fees in
    record {
      gross_earnings = gross;
      total_fees = fees;
      net_profit = add_int s.net_profit (sub_int round_reward round_fees);
      warned = s.warned || ltb_ℤ gross fees;
    }

unfoldable pub cloud_rounds : ℕ → ℤ → ℤ → CloudSums → CloudSums
cloud_rounds zero round_reward round_fees s = s
cloud_rounds (suc r) round_reward round_fees s =
    cloud_rounds r round_reward round_fees (cloud_round round_reward round_fees s)

unfoldable pub cloud_sums : ℕ → ℕ → ℤ → ℤ → CloudSums
cloud_sums rounds blocks_to_mine rental_fee maintenance_fee =
    cloud_rounds rounds (mul_int mining_reward (pos blocks_to_mine))
      (add_int rental_fee maintenance_fee) no_rounds

-- `while (!pending_is_empty(pool))`
unfoldable pub cloud_loop : ℕ → Env → MiningState → ℤ → Outcome × MiningState
cloud_loop zero e st difficulty = if pending_is_empty st.pool then (finished, st) else (no_fuel, st)
cloud_loop (suc fuel) e st difficulty =
    let (confirmed, st') = confirm_unchecked e st difficulty in
    let rest = cloud_loop fuel e st' difficulty in
    if pending_is_empty st.pool then (finished, st) else if confirmed then rest else (aborted, st')

-- The payment of a profit; its outcome is not looked at.
unfoldable pub pay_profit : Env → ℤ → MiningState → MiningState
pay_profit e net_profit st =
    if ltb_ℤ (pos 0) net_profit
    then with_ledger st (ledger_credit_miner e st.ledger (codes "CLOUD_USER") net_profit).1
    else st

abbrev pub if_finished : Outcome → MiningState → MiningState → MiningState
if_finished finished paid st = paid
if_finished aborted paid st = st
if_finished no_fuel paid st = st

unfoldable pub mining_cloud : Env → MiningState → ℤ → ℤ → ℤ → ℤ → Outcome × MiningState
mining_cloud e st difficulty rounds rental_fee maintenance_fee =
    if ltb_ℤ rounds cloud_min_rounds || ltb_ℤ cloud_max_rounds rounds
    then (aborted, st)
    else if pending_is_empty st.pool
    then (aborted, st)
    else (let blocks_to_mine = pending_count st.pool in
        let sums = cloud_sums (pos_part rounds) blocks_to_mine rental_fee maintenance_fee in
        let (o, st') = cloud_loop blocks_to_mine e st difficulty in
        (o, if_finished o (pay_profit e sums.net_profit st') st'))
