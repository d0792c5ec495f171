-- ===== src/Ledger/Bounds.antt =====
-- Every operation of the ledger (ledger.c) keeps both of its arrays within their capacity.
use transaction_models_minin.Common.{
  ◌≤◌, inl, inr, Bool, false, [], ◌∷◌, arith, length, Bool-cases, Option-cases,
}
use transaction_models_minin.Common.Int.{ℤ, pos, leb_ℤ}
use transaction_models_minin.Common.Text.{Text, codes, strcmp_eq}
use transaction_models_minin.Attendance.{
  LedgerModel, ledger_utxo, ledger_account, Ledger, StudentRegistry, Block, Transaction, UtxoSet,
  AccountLedger, max_utxos, max_students,
}
use transaction_models_minin.Env.{Env}
use transaction_models_minin.Transactions.{compute_transaction_id}
use transaction_models_minin.Utxos.{utxo_apply_reward}
use transaction_models_minin.Utxos.Bounds.{add_outputs-bounded, utxo_transfer-bounded}
use transaction_models_minin.Accounts.{find_or_create_account, account_at}
use transaction_models_minin.Accounts.Bounds.{
  find_or_create_account-bounded, length-credit_account, account_apply_reward-bounded,
  account_transfer-bounded,
}
use transaction_models_minin.Ledger.{
  open_accounts, with_accounts, ledger_init, with_utxos, ledger_apply_confirmed_block,
  transfer_with_own_nonce, ledger_transfer, ledger_transfer_with_nonce, miner_transaction,
  credit_miner_account, ledger_credit_miner,
}

-- Both arrays are within their capacity.
pub record IsBounded (ledger : Ledger) : Type 0 where
  pub utxos : length ledger.utxo_set ≤ max_utxos
  pub accounts : length ledger.account_ledger ≤ max_students

with_utxos-IsBounded :
    (ledger : Ledger) (r : Bool × UtxoSet)
    → IsBounded ledger
    → length r.1 ≤ max_utxos
    → IsBounded (with_utxos ledger r).1
with_utxos-IsBounded ledger r h fits = record { utxos = fits; accounts = h.accounts }

with_accounts-IsBounded :
    (ledger : Ledger) (r : Bool × AccountLedger)
    → IsBounded ledger
    → length r.1 ≤ max_students
    → IsBounded (with_accounts ledger r).1
with_accounts-IsBounded ledger r h fits = record { utxos = h.utxos; accounts = fits }

open_accounts-bounded :
    (l : AccountLedger) (registry : StudentRegistry)
    → length l ≤ max_students
    → length (open_accounts l registry).1 ≤ max_students
unfolding open_accounts
open_accounts-bounded l [] h = h
open_accounts-bounded l (s ∷ ss) h =
    let first = find_or_create_account-bounded l s.student_id h in
    let l' = (find_or_create_account l s.student_id).1 in
    elim (Option-cases (find_or_create_account l s.student_id).0) [
      | inl full ↦ rw (full, open_accounts) first
      | inr (i, there) ↦ rw (there, open_accounts) (open_accounts-bounded l' ss first)
    ]

pub ledger_init-IsBounded :
    (m : LedgerModel) (registry : StudentRegistry) → IsBounded (ledger_init m registry).1
unfolding ledger_init
ledger_init-IsBounded ledger_utxo registry = record { utxos = omega arith; accounts = omega arith }
ledger_init-IsBounded ledger_account registry = record {
  utxos = omega arith;
  accounts = open_accounts-bounded [] registry (omega arith);
}

-- An operation that has a branch for each model.
by_model-IsBounded :
    (ledger : Ledger) (m : LedgerModel) (r : Bool × UtxoSet) (q : Bool × AccountLedger)
    → IsBounded ledger
    → length r.1 ≤ max_utxos
    → length q.1 ≤ max_students
    → IsBounded
        (elim m as (λ _. Bool × Ledger) [
          | ledger_utxo ↦ with_utxos ledger r
          | ledger_account ↦ with_accounts ledger q
        ]).1
by_model-IsBounded ledger ledger_utxo r q h fits fits' = with_utxos-IsBounded ledger r h fits
by_model-IsBounded ledger ledger_account r q h fits fits' = with_accounts-IsBounded ledger q h fits'

pub ledger_apply_confirmed_block-IsBounded :
    (e : Env) (ledger : Ledger) (b : Block) (tx : Transaction)
    → IsBounded ledger
    → IsBounded (ledger_apply_confirmed_block e ledger b tx).1
unfolding ledger_apply_confirmed_block utxo_apply_reward
ledger_apply_confirmed_block-IsBounded e ledger b tx h =
    elim (Bool-cases (leb_ℤ b.token_reward (pos 0))) [
      | inl nothing ↦ rw nothing h
      | inr due ↦ rw due (
          by_model-IsBounded ledger ledger.model _ _ h
            (add_outputs-bounded ledger.utxo_set tx.tx_id 0 tx.outputs h.utxos)
            (account_apply_reward-bounded e ledger.account_ledger tx.outputs tx.fee h.accounts))
    ]

own_nonce-bounded :
    (e : Env) (l : AccountLedger) (s r : Text) (x : ℤ)
    → length l ≤ max_students
    → length (transfer_with_own_nonce e l s r x).1 ≤ max_students
unfolding transfer_with_own_nonce
own_nonce-bounded e l s r x h =
    let h' = find_or_create_account-bounded l s h in
    let l' = (find_or_create_account l s).1 in
    elim (Option-cases (find_or_create_account l s).0) [
      | inl full ↦ rw (full, transfer_with_own_nonce) h'
      | inr (i, there) ↦
          rw (there, transfer_with_own_nonce)
            (account_transfer-bounded e l' s r x (account_at l' i).nonce h')
    ]

pub ledger_transfer-IsBounded :
    (e : Env) (ledger : Ledger) (s r : Text) (x : ℤ)
    → IsBounded ledger
    → IsBounded (ledger_transfer e ledger s r x).1
unfolding ledger_transfer
ledger_transfer-IsBounded e ledger s r x h = elim (Bool-cases (leb_ℤ x (pos 0))) [
  | inl nothing ↦ rw nothing h
  | inr positive ↦ rw positive (elim (Bool-cases (strcmp_eq s r)) [
    | inl same ↦ rw same h
    | inr apart ↦ rw apart (
        by_model-IsBounded ledger ledger.model _ _ h
          (utxo_transfer-bounded e ledger.utxo_set s r x h.utxos)
          (own_nonce-bounded e ledger.account_ledger s r x h.accounts))
  ])
]

pub ledger_transfer_with_nonce-IsBounded :
    (e : Env) (ledger : Ledger) (s r : Text) (x n : ℤ)
    → IsBounded ledger
    → IsBounded (ledger_transfer_with_nonce e ledger s r x n).1
unfolding ledger_transfer_with_nonce
ledger_transfer_with_nonce-IsBounded e ledger s r x n h =
    by_model-IsBounded ledger ledger.model (false, ledger.utxo_set) _ h h.utxos
      (account_transfer-bounded e ledger.account_ledger s r x n h.accounts)

credit_miner_account-bounded :
    (e : Env) (l : AccountLedger) (id : Text) (x : ℤ)
    → length l ≤ max_students
    → length (credit_miner_account e l id x).1 ≤ max_students
unfolding credit_miner_account
credit_miner_account-bounded e l id x h =
    let h' = find_or_create_account-bounded l id h in
    let l' = (find_or_create_account l id).1 in
    elim (Option-cases (find_or_create_account l id).0) [
      | inl full ↦ rw (full, credit_miner_account) h'
      | inr (i, there) ↦
          rw (there, credit_miner_account)
            (omega (arith, length-credit_account e l' i (codes "MINER") id x (pos 0)))
    ]

pub ledger_credit_miner-IsBounded :
    (e : Env) (ledger : Ledger) (id : Text) (x : ℤ)
    → IsBounded ledger
    → IsBounded (ledger_credit_miner e ledger id x).1
unfolding ledger_credit_miner utxo_apply_reward
ledger_credit_miner-IsBounded e ledger id x h = elim (Bool-cases (leb_ℤ x (pos 0))) [
  | inl nothing ↦ rw nothing h
  | inr positive ↦
      rw positive (elim (Option-cases (compute_transaction_id e (miner_transaction id x))) [
        | inl failed ↦ rw failed h
        | inr (tx_id, made) ↦ rw made (
            by_model-IsBounded ledger ledger.model _ _ h
              (add_outputs-bounded ledger.utxo_set tx_id 0 (miner_transaction id x).outputs h.utxos)
              (credit_miner_account-bounded e ledger.account_ledger id x h.accounts))
      ])
]
