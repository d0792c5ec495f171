-- ===== src/Ledger/Init.antt =====
-- The ledger that `ledger_init` and `ledger_set_model` (ledger.c) make.
use transaction_models_minin.Common.{
  ℕ, ◌+◌, ◌≤◌, ◌≡◌, refl, sym, ap, ◌∙◌, inl, true, [], ◌∷◌, some, arith, length, All,
}
use transaction_models_minin.Common.Int.{pos}
use transaction_models_minin.Common.Text.{Text}
use transaction_models_minin.Attendance.{
  LedgerModel, ledger_utxo, ledger_account, Ledger, AccountLedger, Student, StudentRegistry,
  max_students,
}
use transaction_models_minin.Students.Loading.{HasId}
use transaction_models_minin.Utxos.{utxo_balance, balance_from}
use transaction_models_minin.Accounts.{find_or_create_account, account_balance}
use transaction_models_minin.Accounts.Lookup.{
  account_balance-account_of, Found, find_or_create_account-Found, find_or_create_account-opens,
  length-find_or_create_account,
}
use transaction_models_minin.Ledger.{open_accounts, ledger_init, ledger_set_model, ledger_balance}

-- Opening an account keeps every balance.
opened-balance :
    (l m : AccountLedger) (id k : Text) (i : ℕ)
    → Found l id i m
    → account_balance m k ≡ account_balance l k
opened-balance l m id k i f =
    account_balance-account_of m k ∙ f.balance_kept k ∙ sym (account_balance-account_of l k)

open_accounts-step :
    (l m : AccountLedger) (s : Student) (ss : StudentRegistry) (i : ℕ)
    → find_or_create_account l s.student_id ≡ (some i, m)
    → open_accounts l (s ∷ ss) ≡ open_accounts m ss
unfolding open_accounts
open_accounts-step l m s ss i h = rw (h, open_accounts) (ap (λ r. open_accounts r.1 ss) h)

open_accounts-opens :
    (l : AccountLedger) (registry : StudentRegistry) (k : Text)
    → All HasId registry
    → length l + length registry ≤ max_students
    → ((open_accounts l registry).0 ≡ true)
      × (account_balance (open_accounts l registry).1 k ≡ account_balance l k)
unfolding open_accounts
open_accounts-opens l [] k ids room = (refl, refl)
open_accounts-opens l (s ∷ ss) k ids room =
    let (i, opened) = find_or_create_account-opens l s.student_id (inl (omega arith)) in
    let m = (find_or_create_account l s.student_id).1 in
    let f = find_or_create_account-Found l s.student_id i m ids.0.1 opened in
    let (done, same) =
      open_accounts-opens m ss k ids.1
        (omega (arith, length-find_or_create_account l s.student_id)) in
    let step = open_accounts-step l m s ss i opened in
    (
      ap (λ r. r.0) step ∙ done,
      ap (λ r. account_balance r.1 k) step ∙ same ∙ opened-balance l m s.student_id k i f,
    )

-- With a registry of at most 256 students, each with an id, the ledger of either model is made, and a
-- change of the model leaves a ledger of that model in which every balance is zero.
pub ledger_set_model-resets :
    (ledger : Ledger) (m : LedgerModel) (registry : StudentRegistry) (k : Text)
    → All HasId registry
    → length registry ≤ max_students
    → ((ledger_init m registry).0 ≡ true)
      × ((ledger_set_model ledger m registry).1.model ≡ m)
      × (ledger_balance (ledger_set_model ledger m registry).1 k ≡ pos 0)
unfolding ledger_set_model ledger_init ledger_balance utxo_balance balance_from account_balance
ledger_set_model-resets ledger ledger_utxo registry k ids room = (refl, refl, refl)
ledger_set_model-resets ledger ledger_account registry k ids room =
    let (done, same) = open_accounts-opens [] registry k ids (omega arith) in (done, refl, same)
