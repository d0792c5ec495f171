-- ===== src/Ledger/Nonces.antt =====
-- What the operations of the ledger (ledger.c) do to its model and to the nonces of its accounts.
use transaction_models_minin.Common.{
  ◌≤◌, ◌≡◌, refl, ◌∙◌, inl, inr, Bool, true, false, length, Bool-cases, Option-cases,
}
use transaction_models_minin.Common.Int.{ℤ, pos, leb_ℤ, add_int}
use transaction_models_minin.Common.Text.{Text, codes, strcmp_eq}
use transaction_models_minin.Attendance.{
  LedgerModel, ledger_utxo, ledger_account, Ledger, Block, Transaction, UtxoSet, AccountLedger,
  student_id_max,
}
use transaction_models_minin.Env.{Env}
use transaction_models_minin.Transactions.{compute_transaction_id}
use transaction_models_minin.Accounts.{find_or_create_account, account_transfer, account_at}
use transaction_models_minin.Accounts.Nonces.{
  nonce_of, IsStepped, step_after, nonce-find_or_create_account, nonce-credit_account,
  nonce-account_apply_reward, nonce-account_transfer,
}
use transaction_models_minin.Accounts.Safety.{account_transfer-nonce}
use transaction_models_minin.Ledger.{
  with_accounts, with_utxos, ledger_apply_confirmed_block, transfer_with_own_nonce, ledger_transfer,
  ledger_transfer_with_nonce, miner_transaction, credit_miner_account, ledger_credit_miner,
}

-- The nonce under a student id.
abbrev pub nonce_in : Ledger → Text → ℤ
nonce_in ledger k = nonce_of ledger.account_ledger k

-- The model and the nonce of `k` are as before.
pub record Keeps (k : Text) (ledger ledger' : Ledger) : Type 0 where
  pub model : ledger'.model ≡ ledger.model
  pub nonce : nonce_in ledger' k ≡ nonce_in ledger k

-- The model is as before, the nonce of `k` at most one further.
pub record Advances (k : Text) (ledger ledger' : Ledger) : Type 0 where
  pub model : ledger'.model ≡ ledger.model
  pub nonce : IsStepped (nonce_in ledger k) (nonce_in ledger' k)

pub Keeps-refl : (k : Text) (ledger : Ledger) → Keeps k ledger ledger
Keeps-refl k ledger = record { model = refl; nonce = refl }

pub Keeps-trans : (k : Text) (a b c : Ledger) → Keeps k a b → Keeps k b c → Keeps k a c
Keeps-trans k a b c h h' = record { model = h'.model ∙ h.model; nonce = h'.nonce ∙ h.nonce }

pub Keeps-Advances : (k : Text) (a b : Ledger) → Keeps k a b → Advances k a b
Keeps-Advances k a b h = record { model = h.model; nonce = inl h.nonce }

-- An operation that has a branch for each model.
by_model-Keeps :
    (k : Text) (ledger : Ledger) (m : LedgerModel) (r : Bool × UtxoSet) (q : Bool × AccountLedger)
    → nonce_of q.1 k ≡ nonce_in ledger k
    → Keeps k ledger
        (elim m as (λ _. Bool × Ledger) [
          | ledger_utxo ↦ with_utxos ledger r
          | ledger_account ↦ with_accounts ledger q
        ]).1
by_model-Keeps k ledger ledger_utxo r q same = record { model = refl; nonce = refl }
by_model-Keeps k ledger ledger_account r q same = record { model = refl; nonce = same }

by_model-Advances :
    (k : Text) (ledger : Ledger) (m : LedgerModel) (r : Bool × UtxoSet) (q : Bool × AccountLedger)
    → IsStepped (nonce_in ledger k) (nonce_of q.1 k)
    → Advances k ledger
        (elim m as (λ _. Bool × Ledger) [
          | ledger_utxo ↦ with_utxos ledger r
          | ledger_account ↦ with_accounts ledger q
        ]).1
by_model-Advances k ledger ledger_utxo r q step = record { model = refl; nonce = inl refl }
by_model-Advances k ledger ledger_account r q step = record { model = refl; nonce = step }

pub ledger_apply_confirmed_block-Keeps :
    (e : Env) (k : Text) (ledger : Ledger) (b : Block) (tx : Transaction)
    → Keeps k ledger (ledger_apply_confirmed_block e ledger b tx).1
unfolding ledger_apply_confirmed_block
ledger_apply_confirmed_block-Keeps e k ledger b tx =
    elim (Bool-cases (leb_ℤ b.token_reward (pos 0))) [
      | inl nothing ↦ rw nothing (Keeps-refl k ledger)
      | inr due ↦ rw due (
          by_model-Keeps k ledger ledger.model _ _
            (nonce-account_apply_reward e ledger.account_ledger tx.outputs tx.fee k))
    ]

credit_miner_account-nonce :
    (e : Env) (l : AccountLedger) (id k : Text) (x : ℤ)
    → nonce_of (credit_miner_account e l id x).1 k ≡ nonce_of l k
unfolding credit_miner_account
credit_miner_account-nonce e l id k x =
    let l' = (find_or_create_account l id).1 in
    let opened = nonce-find_or_create_account l id k in
    elim (Option-cases (find_or_create_account l id).0) [
      | inl full ↦ rw (full, credit_miner_account) opened
      | inr (i, there) ↦
          rw (there, credit_miner_account)
            (nonce-credit_account e l' i (codes "MINER") id k x (pos 0) ∙ opened)
    ]

pub ledger_credit_miner-Keeps :
    (e : Env) (k : Text) (ledger : Ledger) (id : Text) (x : ℤ)
    → Keeps k ledger (ledger_credit_miner e ledger id x).1
unfolding ledger_credit_miner
ledger_credit_miner-Keeps e k ledger id x = elim (Bool-cases (leb_ℤ x (pos 0))) [
  | inl nothing ↦ rw nothing (Keeps-refl k ledger)
  | inr positive ↦
      rw positive (elim (Option-cases (compute_transaction_id e (miner_transaction id x))) [
        | inl failed ↦ rw failed (Keeps-refl k ledger)
        | inr (tx_id, made) ↦ rw made (
            by_model-Keeps k ledger ledger.model _ _
              (credit_miner_account-nonce e ledger.account_ledger id k x))
      ])
]

own_nonce-IsStepped :
    (e : Env) (l : AccountLedger) (s r k : Text) (x : ℤ)
    → IsStepped (nonce_of l k) (nonce_of (transfer_with_own_nonce e l s r x).1 k)
unfolding transfer_with_own_nonce
own_nonce-IsStepped e l s r k x =
    let l' = (find_or_create_account l s).1 in
    let opened = nonce-find_or_create_account l s k in
    elim (Option-cases (find_or_create_account l s).0) [
      | inl full ↦ rw (full, transfer_with_own_nonce) (inl opened)
      | inr (i, there) ↦
          rw (there, transfer_with_own_nonce)
            (step_after opened (nonce-account_transfer e l' s r x (account_at l' i).nonce k))
    ]

pub ledger_transfer-Advances :
    (e : Env) (k : Text) (ledger : Ledger) (s r : Text) (x : ℤ)
    → Advances k ledger (ledger_transfer e ledger s r x).1
unfolding ledger_transfer
ledger_transfer-Advances e k ledger s r x =
    let still = Keeps-Advances k ledger ledger (Keeps-refl k ledger) in
    elim (Bool-cases (leb_ℤ x (pos 0))) [
      | inl nothing ↦ rw nothing still
      | inr positive ↦ rw positive (elim (Bool-cases (strcmp_eq s r)) [
        | inl same ↦ rw same still
        | inr apart ↦ rw apart (
            by_model-Advances k ledger ledger.model _ _
              (own_nonce-IsStepped e ledger.account_ledger s r k x))
      ])
    ]

pub ledger_transfer_with_nonce-Advances :
    (e : Env) (k : Text) (ledger : Ledger) (s r : Text) (x n : ℤ)
    → Advances k ledger (ledger_transfer_with_nonce e ledger s r x n).1
unfolding ledger_transfer_with_nonce
ledger_transfer_with_nonce-Advances e k ledger s r x n =
    by_model-Advances k ledger ledger.model (false, ledger.utxo_set) _
      (nonce-account_transfer e ledger.account_ledger s r x n k)

accepted_by_model :
    (ledger : Ledger) (m : LedgerModel) (q : Bool × AccountLedger) (k : Text)
    → let done = elim m as (λ _. Bool × Ledger) [
      | ledger_utxo ↦ (false, ledger)
      | ledger_account ↦ with_accounts ledger q
    ] in
      done.0 ≡ true → (q.0 ≡ true) × (nonce_in done.1 k ≡ nonce_of q.1 k)
accepted_by_model ledger ledger_utxo q k h = absurd (cc)
accepted_by_model ledger ledger_account q k h = (h, refl)

-- An accepted transfer named the nonce of its sender, and stepped it.
pub ledger_transfer_with_nonce-accepted :
    (e : Env) (ledger : Ledger) (s r : Text) (x n : ℤ)
    → length s ≤ student_id_max
    → length r ≤ student_id_max
    → (ledger_transfer_with_nonce e ledger s r x n).0 ≡ true
    → (nonce_in ledger s ≡ n)
      × (nonce_in (ledger_transfer_with_nonce e ledger s r x n).1 s ≡ add_int n (pos 1))
unfolding ledger_transfer_with_nonce
ledger_transfer_with_nonce-accepted e ledger s r x n fs fr done =
    let q = account_transfer e ledger.account_ledger s r x n in
    let (ok, after) = accepted_by_model ledger ledger.model q s done in
    let (named, stepped) = account_transfer-nonce e ledger.account_ledger s r x n fs fr ok in
    (named, after ∙ stepped)
