-- ===== src/Ledger/Confirmed.antt =====
-- What a confirmed attendance block does to the balances, in either model.
use transaction_models_minin.Common.{
  ◌≤◌, ◌≡◌, inl, inr, [], ◌∷◌, some, arith, length, take_all, Option-cases,
}
use transaction_models_minin.Common.Int.{ℤ, pos, ◌<ℤ◌, sub_int, FitsInt}
use transaction_models_minin.Common.Text.{Text, codes}
use transaction_models_minin.Attendance.{
  Ledger, Block, Transaction, AccountLedger, student_id_max, tx_fee,
}
use transaction_models_minin.Env.{Env}
use transaction_models_minin.Transactions.{create_reward_transaction, reward_transaction}
use transaction_models_minin.Transactions.Rewards.{create_reward_transaction-eq_some}
use transaction_models_minin.Utxos.{utxo_apply_reward}
use transaction_models_minin.Accounts.{
  find_or_create_account, account_apply_reward, account_balance,
}
use transaction_models_minin.Accounts.Lookup.{find_or_create_account-none}
use transaction_models_minin.Accounts.Credit.{opened_credit-balance}
use transaction_models_minin.Ledger.{ledger_apply_confirmed_block, ledger_balance}
use transaction_models_minin.Ledger.Credits.{single_output-balance, if_paid}

single_reward-balance :
    (e : Env) (l : AccountLedger) (owner k : Text) (x fee : ℤ)
    → length owner ≤ student_id_max
    → let (paid, l') = account_apply_reward e l (record { owner = owner; amount = x } ∷ []) fee in
      account_balance l' k ≡ if_paid paid owner x k (account_balance l k)
unfolding account_apply_reward
single_reward-balance e l owner k x fee fits =
    elim (Option-cases (find_or_create_account l owner).0) [
      | inl missing ↦ ground (arith, find_or_create_account-none l owner missing)
      | inr (i, there) ↦ ground (
        arith,
        opened_credit-balance e l (find_or_create_account l owner).1 i (codes "SYSTEM") owner k x
            fee fits (ground arith),
      )
    ]

reward_outputs :
    (student_id : Text) (reward : ℤ)
    → length student_id ≤ student_id_max
    → (reward_transaction student_id reward).outputs
      ≡ record { owner = student_id; amount = sub_int reward tx_fee } ∷ []
unfolding reward_transaction
reward_outputs student_id reward fits = rw (take_all student_id_max student_id fits)

-- A confirmed block with a reward above the fee pays the student the reward less the fee, and
-- nobody else; where that fails no balance changes. So it is in either model, for a student id of at
-- most 19 characters, with the transaction that the block's reward makes.
pub ledger_apply_confirmed_block-balance :
    (e : Env) (ledger : Ledger) (b : Block) (tx : Transaction) (k : Text)
    → length b.student_id ≤ student_id_max
    → pos 1 <ℤ b.token_reward
    → FitsInt b.token_reward
    → create_reward_transaction e b ≡ some tx
    → let (paid, ledger') = ledger_apply_confirmed_block e ledger b tx in
      ledger_balance ledger' k
      ≡ if_paid paid b.student_id (sub_int b.token_reward tx_fee) k (ledger_balance ledger k)
unfolding ledger_apply_confirmed_block ledger_balance utxo_apply_reward
ledger_apply_confirmed_block-balance e ledger b tx k fits above int made =
    let (id, shape) = create_reward_transaction-eq_some e b tx above int made in
    let outputs = reward_outputs b.student_id b.token_reward fits in
    let net = sub_int b.token_reward tx_fee in
    ground (
      arith,
      single_output-balance ledger.utxo_set tx.tx_id b.student_id k net fits,
      take_all student_id_max b.student_id fits,
      outputs,
      single_reward-balance e ledger.account_ledger b.student_id k net tx.fee fits,
    )
