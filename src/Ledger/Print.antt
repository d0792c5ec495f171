-- ===== src/Ledger/Print.antt =====
-- ledger.c: what the screens of the ledger print.
pub mod Unspent
pub mod History
use transaction_models_minin.Common.{
  ℕ, zero, suc, ◌+◌, Bool, true, false, List, [], ◌∷◌, ◌++◌, Option, none, some, ◌==◌,
  if◌then◌else◌,
}
use transaction_models_minin.Common.Int.{ℤ, pos}
use transaction_models_minin.Common.Text.{Text, codes, strcmp_eq, decimal, decimal_int}
use transaction_models_minin.Attendance.{
  LedgerModel, ledger_utxo, ledger_account, Ledger, Student, StudentRegistry, Utxo, UtxoSet,
  Account, AccountLedger, TxHistoryNode,
}
use transaction_models_minin.Ledger.{ledger_balance}

unfoldable pub model_name : LedgerModel → Text
model_name ledger_utxo = codes "UTXO"
model_name ledger_account = codes "Account"

-- The line of a student, and the lines of the loop of `ledger_print_balances`.
unfoldable pub balance_line : Ledger → Student → Text
balance_line ledger s =
    codes "  "
    ++ s.full_name
    ++ codes " ("
    ++ s.student_id
    ++ codes "): "
    ++ decimal_int (ledger_balance ledger s.student_id)
    ++ codes " coin(s)\n"

unfoldable pub balance_lines : Ledger → StudentRegistry → Text
balance_lines ledger [] = []
balance_lines ledger (s ∷ ss) = balance_line ledger s ++ balance_lines ledger ss

unfoldable pub ledger_print_balances : Ledger → StudentRegistry → Text
ledger_print_balances ledger registry =
    codes "\n=== Student Token Balances ("
    ++ model_name ledger.model
    ++ codes " model) ===\n"
    ++ balance_lines ledger registry
    ++ codes "=========================================\n\n"

unfoldable pub utxo_line : Utxo → Text
utxo_line u =
    codes "  UTXO "
    ++ u.tx_id
    ++ codes ":"
    ++ decimal_int u.output_index
    ++ codes " | owner="
    ++ u.owner
    ++ codes " | amount="
    ++ decimal_int u.amount
    ++ codes "\n"

-- The loop of `ledger_print_utxo_set`: the lines, and `unspent` behind the loop.
unfoldable pub utxo_lines : UtxoSet → ℕ → Text × ℕ
utxo_lines [] unspent = ([], unspent)
utxo_lines (u ∷ us) unspent =
    let (skipped, n) = utxo_lines us unspent in
    let (more, n') = utxo_lines us (unspent + 1) in
    if u.spent then (skipped, n) else (utxo_line u ++ more, n')

unfoldable pub utxo_screen : UtxoSet → Text
utxo_screen set =
    let (lines, unspent) = utxo_lines set 0 in
    codes "\n=== Full UTXO Set ===\n"
    ++ lines
    ++ (if unspent == 0 then codes "  (no unspent outputs)\n" else [])
    ++ codes "=====================\n\n"

unfoldable pub ledger_print_utxo_set : Ledger → Text
ledger_print_utxo_set ledger = elim ledger.model [
  | ledger_utxo ↦ utxo_screen ledger.utxo_set
  | ledger_account ↦ codes "UTXO set display is only available in UTXO model.\n"
]

unfoldable pub history_line : ℕ → TxHistoryNode → Text
history_line entry node =
    codes "  #"
    ++ decimal entry
    ++ codes " sender="
    ++ node.sender
    ++ codes " recipient="
    ++ node.recipient
    ++ codes " amount="
    ++ decimal_int node.amount
    ++ codes " fee="
    ++ decimal_int node.fee
    ++ codes " nonce="
    ++ decimal_int node.nonce
    ++ codes "\n"

-- The loop along the list, which counts the entries.
unfoldable pub history_lines : ℕ → List TxHistoryNode → Text
history_lines entry [] = []
history_lines entry (node ∷ nodes) = history_line entry node ++ history_lines (entry + 1) nodes

unfoldable pub history_screen : Text → List TxHistoryNode → Text
history_screen student_id history =
    codes "\n=== Transaction History for "
    ++ student_id
    ++ codes " ===\n"
    ++ elim history [ [] ↦ codes "  (empty)\n" | node ∷ nodes ↦ [] ]
    ++ history_lines 1 history
    ++ codes "====================================\n\n"

-- The first account of this id.
unfoldable pub printed_account : AccountLedger → Text → Option Account
printed_account [] student_id = none
printed_account (a ∷ l) student_id =
    if strcmp_eq a.student_id student_id then some a else printed_account l student_id

unfoldable pub account_history : AccountLedger → Text → Text
account_history l student_id = elim (printed_account l student_id) [
  | none ↦ codes "No account found for student ID " ++ student_id ++ codes ".\n"
  | some a ↦ history_screen student_id a.history
]

unfoldable pub ledger_print_history : Ledger → Text → Text
ledger_print_history ledger student_id = elim ledger.model [
  | ledger_utxo ↦ codes "Transaction history is only available in account model.\n"
  | ledger_account ↦ account_history ledger.account_ledger student_id
]
