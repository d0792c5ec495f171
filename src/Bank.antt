-- ===== src/Bank.antt =====
-- What the account model promises: a bank that knows a balance and a nonce for every student id,
-- and nothing of accounts, their order or their number.
use transaction_models_minin.Common.{Bool, true, false, not, if◌then◌else◌}
use transaction_models_minin.Common.Int.{ℤ, pos, add_int, sub_int, ltb_ℤ, eqb_ℤ}
use transaction_models_minin.Common.Text.{Text, strcmp_eq}
use transaction_models_minin.Attendance.{tx_fee}

pub record Bank : Type 0 where
  pub balance : Text → ℤ
  pub nonce : Text → ℤ

-- The balance under `k` after a transfer: the debit comes first, so the rule also covers a
-- transfer from an account to itself.
abbrev pub moved_balance : Text → Text → Text → ℤ → ℤ → ℤ
moved_balance s r k x old =
    let debited = if strcmp_eq s k then sub_int old (add_int x tx_fee) else old in
    if strcmp_eq r k then add_int debited x else debited

abbrev pub moved_nonce : Text → Text → ℤ → ℤ
moved_nonce s k old = if strcmp_eq s k then add_int old (pos 1) else old

-- A transfer is accepted if it carries the sender's nonce and the sender can pay it and the fee.
abbrev pub accepts : Bank → Text → ℤ → ℤ → Bool
accepts bank s x n =
    if not (eqb_ℤ n (bank.nonce s)) then false else not (ltb_ℤ (bank.balance s) (add_int x tx_fee))

abbrev pub moved : Bank → Text → Text → ℤ → Bank
moved bank s r x = record {
  balance = λ k. moved_balance s r k x (bank.balance k);
  nonce = λ k. moved_nonce s k (bank.nonce k);
}

abbrev pub transfer : Bank → Text → Text → ℤ → ℤ → Bool × Bank
transfer bank s r x n = if accepts bank s x n then (true, moved bank s r x) else (false, bank)
