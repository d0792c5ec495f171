-- ===== src/Accounts/Credit.antt =====
-- Credits in the account model: rewards and miner payments.
use transaction_models_minin.Common.{ℕ, ◌≤◌, ◌≡◌, some, if◌then◌else◌, length}
use transaction_models_minin.Common.Int.{ℤ, add_int}
use transaction_models_minin.Common.Text.{Text, strcmp_eq}
use transaction_models_minin.Attendance.{AccountLedger, student_id_max}
use transaction_models_minin.Env.{Env}
use transaction_models_minin.Accounts.{
  find_account, find_or_create_account, credit_account, add_balance, account_balance,
}
use transaction_models_minin.Accounts.Lookup.{
  account_of, account_balance-account_of, find_or_create_account-Found,
}
use transaction_models_minin.Accounts.Transfer.{balance-modify, logged_id, logged_balance}

-- The balances after a credit of `x` to `owner`.
abbrev pub credited : Text → ℤ → Text → ℤ → ℤ
credited owner x k old = if strcmp_eq owner k then add_int old x else old

pub credit_account-balance :
    (e : Env) (l : AccountLedger) (i : ℕ) (from owner k : Text) (x fee : ℤ)
    → find_account l owner ≡ some i
    → (account_of (credit_account e l i from owner x fee) k).balance
      ≡ credited owner x k (account_of l k).balance
unfolding credit_account
credit_account-balance e l i from owner k x fee h =
    balance-modify _ (λ a. logged_id e from owner x fee a.nonce (add_balance x a)) l owner k i h
      (λ b. add_int b x) (λ a. logged_balance e from owner x fee a.nonce (add_balance x a))

-- The credit of an account that is found or created.
pub opened_credit-balance :
    (e : Env) (l m : AccountLedger) (i : ℕ) (from owner k : Text) (x fee : ℤ)
    → length owner ≤ student_id_max
    → find_or_create_account l owner ≡ (some i, m)
    → account_balance (credit_account e m i from owner x fee) k
      ≡ credited owner x k (account_balance l k)
opened_credit-balance e l m i from owner k x fee fits opened =
    let f = find_or_create_account-Found l owner i m fits opened in
    rw (
      account_balance-account_of (credit_account e m i from owner x fee) k,
      account_balance-account_of l k,
      credit_account-balance e m i from owner k x fee f.found,
      f.balance_kept k,
    )
