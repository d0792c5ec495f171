-- ===== src/Ledger/Freed.antt =====
-- The history nodes of the ledger (ledger.c), which `ledger_cleanup` frees in the account model alone.
use transaction_models_minin.Common.{
  ◌≡◌, refl, inl, inr, Bool, false, [], ◌∷◌, arith, Bool-cases, Option-cases,
}
use transaction_models_minin.Common.Int.{ℤ, pos, leb_ℤ}
use transaction_models_minin.Common.Text.{Text, strcmp_eq}
use transaction_models_minin.Attendance.{
  LedgerModel, ledger_utxo, ledger_account, Ledger, StudentRegistry, Block, Transaction,
  AccountLedger, UtxoSet,
}
use transaction_models_minin.Env.{Env}
use transaction_models_minin.Transactions.{compute_transaction_id}
use transaction_models_minin.Ledger.{
  live_nodes, with_accounts, with_utxos, free_histories, ledger_cleanup, ledger_init,
  ledger_apply_confirmed_block, ledger_transfer, ledger_transfer_with_nonce, miner_transaction,
  ledger_credit_miner,
}

-- In the UTXO model no node is allocated.
abbrev pub IsTidy : Ledger → Type 0
IsTidy ledger = ledger.model ≡ ledger_utxo → live_nodes ledger.account_ledger ≡ 0

live_nodes-free_histories : (l : AccountLedger) → live_nodes (free_histories l) ≡ 0
unfolding live_nodes free_histories
live_nodes-free_histories [] = refl
live_nodes-free_histories (a ∷ l) = omega (arith, live_nodes-free_histories l)

-- Cleaning up frees every node.
pub ledger_cleanup-frees :
    (ledger : Ledger) → IsTidy ledger → live_nodes (ledger_cleanup ledger).account_ledger ≡ 0
unfolding ledger_cleanup
ledger_cleanup-frees ledger tidy = by_model ledger.model refl
  where
    by_model :
        (m : LedgerModel) → ledger.model ≡ m → live_nodes (ledger_cleanup ledger).account_ledger ≡ 0
    by_model ledger_utxo same = rw (same, ledger_cleanup) (tidy same)
    by_model ledger_account same =
        rw (same, ledger_cleanup) (live_nodes-free_histories ledger.account_ledger)

pub ledger_init-IsTidy :
    (m : LedgerModel) (registry : StudentRegistry) → IsTidy (ledger_init m registry).1
unfolding ledger_init live_nodes
ledger_init-IsTidy ledger_utxo registry same = refl
ledger_init-IsTidy ledger_account registry same = absurd (cc)

by_model-IsTidy :
    (ledger : Ledger) (m : LedgerModel) (r : Bool × UtxoSet) (q : Bool × AccountLedger)
    → ledger.model ≡ m
    → IsTidy ledger
    → IsTidy
        (elim m as (λ _. Bool × Ledger) [
          | ledger_utxo ↦ with_utxos ledger r
          | ledger_account ↦ with_accounts ledger q
        ]).1
by_model-IsTidy ledger ledger_utxo r q same tidy = tidy
by_model-IsTidy ledger ledger_account r q same tidy = λ utxo. absurd (cc)

pub ledger_apply_confirmed_block-IsTidy :
    (e : Env) (ledger : Ledger) (b : Block) (tx : Transaction)
    → IsTidy ledger
    → IsTidy (ledger_apply_confirmed_block e ledger b tx).1
unfolding ledger_apply_confirmed_block
ledger_apply_confirmed_block-IsTidy e ledger b tx tidy =
    elim (Bool-cases (leb_ℤ b.token_reward (pos 0))) [
      | inl nothing ↦ rw nothing tidy
      | inr due ↦ rw due (by_model-IsTidy ledger ledger.model _ _ refl tidy)
    ]

pub ledger_transfer-IsTidy :
    (e : Env) (ledger : Ledger) (s r : Text) (x : ℤ)
    → IsTidy ledger
    → IsTidy (ledger_transfer e ledger s r x).1
unfolding ledger_transfer
ledger_transfer-IsTidy e ledger s r x tidy = elim (Bool-cases (leb_ℤ x (pos 0))) [
  | inl nothing ↦ rw nothing tidy
  | inr positive ↦ rw positive (elim (Bool-cases (strcmp_eq s r)) [
    | inl same ↦ rw same tidy
    | inr apart ↦ rw apart (by_model-IsTidy ledger ledger.model _ _ refl tidy)
  ])
]

pub ledger_transfer_with_nonce-IsTidy :
    (e : Env) (ledger : Ledger) (s r : Text) (x n : ℤ)
    → IsTidy ledger
    → IsTidy (ledger_transfer_with_nonce e ledger s r x n).1
unfolding ledger_transfer_with_nonce
ledger_transfer_with_nonce-IsTidy e ledger s r x n tidy =
    by_model-IsTidy ledger ledger.model (false, ledger.utxo_set) _ refl tidy

pub ledger_credit_miner-IsTidy :
    (e : Env) (ledger : Ledger) (id : Text) (x : ℤ)
    → IsTidy ledger
    → IsTidy (ledger_credit_miner e ledger id x).1
unfolding ledger_credit_miner
ledger_credit_miner-IsTidy e ledger id x tidy = elim (Bool-cases (leb_ℤ x (pos 0))) [
  | inl nothing ↦ rw nothing tidy
  | inr positive ↦
      rw positive (elim (Option-cases (compute_transaction_id e (miner_transaction id x))) [
        | inl failed ↦ rw failed tidy
        | inr (tx_id, made) ↦ rw made (by_model-IsTidy ledger ledger.model _ _ refl tidy)
      ])
]
