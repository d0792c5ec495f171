-- ===== src/Ledger.antt =====
-- ledger.c, the interface: the operations of either model behind one ledger. Pointers are values
-- here, so the tests for NULL have nothing to test.
pub mod Credits
pub mod Confirmed
pub mod Negative
pub mod Init
pub mod Bounds
pub mod Nonces
pub mod Freed
pub mod Print
use transaction_models_minin.Common.{
  ℕ, Bool, true, false, not, ◌||◌, List, [], ◌∷◌, Option, none, some, if◌then◌else◌, length, ◌+◌,
}
use transaction_models_minin.Common.Int.{ℤ, pos, leb_ℤ}
use transaction_models_minin.Common.Text.{Text, codes, strcmp_eq, strncpy}
use transaction_models_minin.Attendance.{
  LedgerModel, ledger_utxo, ledger_account, Ledger, StudentRegistry, Block, Transaction, Account,
  AccountLedger, UtxoSet, student_id_max,
}
use transaction_models_minin.Env.{Env}
use transaction_models_minin.Transactions.{zero_transaction, compute_transaction_id}
use transaction_models_minin.Utxos.{utxo_apply_reward, utxo_transfer, utxo_balance}
use transaction_models_minin.Accounts.{
  find_or_create_account, credit_account, account_apply_reward, account_transfer, account_balance,
  account_at,
}

-- `memset(ledger, 0, sizeof(*ledger))`, and the model.
abbrev pub empty_ledger : LedgerModel → Ledger
empty_ledger m = record { model = m; utxo_set = []; account_ledger = [] }

-- The loop of `ledger_init` in the account model.
unfoldable pub open_accounts : AccountLedger → StudentRegistry → Bool × AccountLedger
open_accounts l [] = (true, l)
open_accounts l (s ∷ ss) =
    let (account, l') = find_or_create_account l s.student_id in
    let rest = open_accounts l' ss in elim account [ none ↦ (false, l') | some i ↦ rest ]

abbrev pub with_accounts : Ledger → Bool × AccountLedger → Bool × Ledger
with_accounts ledger (done, l) = (done, record ledger { account_ledger = l })

unfoldable pub ledger_init : LedgerModel → StudentRegistry → Bool × Ledger
ledger_init ledger_utxo registry = (true, empty_ledger ledger_utxo)
ledger_init ledger_account registry =
    with_accounts (empty_ledger ledger_account) (open_accounts [] registry)

-- `ledger_cleanup` frees the histories of the account model.
unfoldable pub free_histories : AccountLedger → AccountLedger
free_histories [] = []
free_histories (a ∷ l) = record a { history = [] } ∷ free_histories l

unfoldable pub ledger_cleanup : Ledger → Ledger
ledger_cleanup ledger = elim ledger.model [
  | ledger_utxo ↦ ledger
  | ledger_account ↦ record ledger { account_ledger = free_histories ledger.account_ledger }
]

-- The history nodes that are allocated.
unfoldable pub live_nodes : AccountLedger → ℕ
live_nodes [] = 0
live_nodes (a ∷ l) = length a.history + live_nodes l

-- `ledger_init` overwrites the cleaned ledger, and its outcome is not looked at: the nodes that the cleaned
-- ledger still held, to which no pointer is left, and the new ledger.
unfoldable pub ledger_set_model : Ledger → LedgerModel → StudentRegistry → ℕ × Ledger
ledger_set_model ledger m registry =
    let cleaned = ledger_cleanup ledger in
    (live_nodes cleaned.account_ledger, (ledger_init m registry).1)

unfoldable pub ledger_get_model : Ledger → LedgerModel
ledger_get_model ledger = ledger.model

abbrev pub with_utxos : Ledger → Bool × UtxoSet → Bool × Ledger
with_utxos ledger (done, set) = (done, record ledger { utxo_set = set })

unfoldable pub ledger_apply_confirmed_block : Env → Ledger → Block → Transaction → Bool × Ledger
ledger_apply_confirmed_block e ledger block tx =
    if leb_ℤ block.token_reward (pos 0) then (true, ledger) else elim ledger.model [
      | ledger_utxo ↦ with_utxos ledger (utxo_apply_reward ledger.utxo_set tx)
      | ledger_account ↦
          with_accounts ledger (account_apply_reward e ledger.account_ledger tx.outputs tx.fee)
    ]

-- The account branch of `ledger_transfer`: it looks the sender's nonce up itself.
unfoldable pub transfer_with_own_nonce :
    Env → AccountLedger → Text → Text → ℤ → Bool × AccountLedger
transfer_with_own_nonce e l sender recipient amount =
    let (account, l') = find_or_create_account l sender in
    elim account [
      | none ↦ (false, l')
      | some i ↦ account_transfer e l' sender recipient amount (account_at l' i).nonce
    ]

unfoldable pub ledger_transfer : Env → Ledger → Text → Text → ℤ → Bool × Ledger
ledger_transfer e ledger sender recipient amount =
    if leb_ℤ amount (pos 0)
    then (false, ledger)
    else if strcmp_eq sender recipient
    then (false, ledger)
    else elim ledger.model [
      | ledger_utxo ↦ with_utxos ledger (utxo_transfer e ledger.utxo_set sender recipient amount)
      | ledger_account ↦
          with_accounts ledger
            (transfer_with_own_nonce e ledger.account_ledger sender recipient amount)
    ]

unfoldable pub ledger_transfer_with_nonce : Env → Ledger → Text → Text → ℤ → ℤ → Bool × Ledger
ledger_transfer_with_nonce e ledger sender recipient amount nonce = elim ledger.model [
  | ledger_utxo ↦ (false, ledger)
  | ledger_account ↦
      with_accounts ledger (account_transfer e ledger.account_ledger sender recipient amount nonce)
]

unfoldable pub ledger_balance : Ledger → Text → ℤ
ledger_balance ledger student_id = elim ledger.model [
  | ledger_utxo ↦ utxo_balance ledger.utxo_set student_id
  | ledger_account ↦ account_balance ledger.account_ledger student_id
]

-- The transaction of a miner's reward, before its id.
unfoldable pub miner_transaction : Text → ℤ → Transaction
miner_transaction miner_id amount = record zero_transaction {
  is_reward = true;
  outputs = record { owner = strncpy student_id_max miner_id; amount = amount } ∷ [];
}

unfoldable pub credit_miner_account : Env → AccountLedger → Text → ℤ → Bool × AccountLedger
credit_miner_account e l miner_id amount =
    let (account, l') = find_or_create_account l miner_id in
    elim account [
      | none ↦ (false, l')
      | some i ↦ (true, credit_account e l' i (codes "MINER") miner_id amount (pos 0))
    ]

unfoldable pub ledger_credit_miner : Env → Ledger → Text → ℤ → Bool × Ledger
ledger_credit_miner e ledger miner_id amount =
    if leb_ℤ amount (pos 0)
    then (false, ledger)
    else elim (compute_transaction_id e (miner_transaction miner_id amount)) [
      | none ↦ (false, ledger)
      | some id ↦ elim ledger.model [
        | ledger_utxo ↦ with_utxos ledger (
            utxo_apply_reward ledger.utxo_set
              (record (miner_transaction miner_id amount) { tx_id = id }))
        | ledger_account ↦
            with_accounts ledger (credit_miner_account e ledger.account_ledger miner_id amount)
      ]
    ]
