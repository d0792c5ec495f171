-- ===== src/Ledger/Credits.antt =====
-- What a reward and a miner's payment do to the balances, in either model.
use transaction_models_minin.Common.{
  ◌≤◌, ◌≡◌, inl, inr, Bool, [], ◌∷◌, arith, if◌then◌else◌, length, take_all, Option-cases,
  Bool-cases,
}
use transaction_models_minin.Common.Int.{ℤ, pos}
use transaction_models_minin.Common.Text.{Text, codes, strncpy}
use transaction_models_minin.Attendance.{Ledger, UtxoSet, AccountLedger, student_id_max}
use transaction_models_minin.Env.{Env}
use transaction_models_minin.Transactions.{compute_transaction_id}
use transaction_models_minin.Utxos.{utxo_add, add_outputs, utxo_apply_reward, utxo_balance}
use transaction_models_minin.Utxos.Balance.{utxo_balance-add, utxo_add-refused}
use transaction_models_minin.Accounts.{find_or_create_account, account_balance}
use transaction_models_minin.Accounts.Lookup.{find_or_create_account-none}
use transaction_models_minin.Accounts.Credit.{credited, opened_credit-balance}
use transaction_models_minin.Ledger.{
  ledger_balance, ledger_credit_miner, credit_miner_account, miner_transaction,
}

abbrev pub if_paid : Bool → Text → ℤ → Text → ℤ → ℤ
if_paid paid owner x k old = if paid then credited owner x k old else old

credit_miner_account-balance :
    (e : Env) (l : AccountLedger) (owner k : Text) (x : ℤ)
    → length owner ≤ student_id_max
    → let (paid, l') = credit_miner_account e l owner x in
      account_balance l' k ≡ if_paid paid owner x k (account_balance l k)
unfolding credit_miner_account
credit_miner_account-balance e l owner k x fits =
    elim (Option-cases (find_or_create_account l owner).0) [
      | inl missing ↦ ground (arith, find_or_create_account-none l owner missing)
      | inr (i, there) ↦ ground (
        arith,
        opened_credit-balance e l (find_or_create_account l owner).1 i (codes "MINER") owner k x
            (pos 0) fits (ground arith),
      )
    ]

pub single_output-balance :
    (set : UtxoSet) (id owner k : Text) (x : ℤ)
    → length owner ≤ student_id_max
    → let (paid, set') =
        add_outputs set id 0 (record { owner = strncpy student_id_max owner; amount = x } ∷ []) in
      utxo_balance set' k ≡ if_paid paid owner x k (utxo_balance set k)
unfolding add_outputs
single_output-balance set id owner k x fits =
    rw (take_all student_id_max owner fits) (elim (Bool-cases (utxo_add set id (pos 0) owner x).0) [
      | inl added ↦ ground (
        arith,
        utxo_balance-add set id (pos 0) owner k x added,
        take_all student_id_max owner fits,
      )
      | inr refused ↦ ground (arith, utxo_add-refused set id (pos 0) owner x refused)
    ])

-- A paid miner has the amount more, and nobody else has anything more or less; a payment that
-- fails changes no balance. So it is in either model, for a miner id of at most 19 characters.
pub ledger_credit_miner-balance :
    (e : Env) (ledger : Ledger) (owner k : Text) (x : ℤ)
    → length owner ≤ student_id_max
    → let (paid, ledger') = ledger_credit_miner e ledger owner x in
      ledger_balance ledger' k
      ≡ (if paid then credited owner x k (ledger_balance ledger k) else ledger_balance ledger k)
unfolding ledger_credit_miner ledger_balance utxo_apply_reward miner_transaction
ledger_credit_miner-balance e ledger owner k x fits =
    elim (Option-cases (compute_transaction_id e (miner_transaction owner x))) [
      | inl failed ↦ ground arith
      | inr (id, made) ↦ ground (
        arith,
        credit_miner_account-balance e ledger.account_ledger owner k x fits,
        single_output-balance ledger.utxo_set id owner k x fits,
      )
    ]
