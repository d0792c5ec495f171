-- ===== src/Ledger/Negative.antt =====
-- `ledger_transfer_with_nonce` with a negative amount.
use transaction_models_minin.Common.{
  ℕ, suc, ◌≤◌, ◌≡◌, ◌≢◌, refl, sym, ap, ◌∙◌, true, false, arith, length,
}
use transaction_models_minin.Common.Int.{
  ℤ, pos, negsuc, ◌+ℤ◌, ◌-ℤ◌, ◌≤ℤ◌, add_int, sub_int, ltb_ℤ, eqb_ℤ, int_max, int_laws, -ℤ_parts,
  add_int_bounds, sub_int_bounds, eq_of_parts,
}
use transaction_models_minin.Common.Text.{Text, strcmp_eq_self, strcmp_eq_ne}
use transaction_models_minin.Attendance.{
  Ledger, ledger_account, AccountLedger, student_id_max, tx_fee,
}
use transaction_models_minin.Env.{Env}
use transaction_models_minin.Bank
use transaction_models_minin.Bank.{Bank}
use transaction_models_minin.Accounts.{account_balance, account_transfer}
use transaction_models_minin.Accounts.Lookup.{account_of}
use transaction_models_minin.Accounts.Refine.{view, observed, HasRoom, account_transfer-refines}
use transaction_models_minin.Ledger.{ledger_transfer_with_nonce, with_accounts}

eqb_ℤ_self : (n : ℤ) → eqb_ℤ n n ≡ true
eqb_ℤ_self n = ground arith

negative_debit : (x : ℕ) → suc x ≤ int_max → add_int (negsuc x) tx_fee ≡ pos 0 -ℤ pos x
negative_debit x h =
    add_int_bounds (negsuc x) tx_fee (omega int_laws) (omega int_laws)
    ∙ eq_of_parts (negsuc x +ℤ tx_fee) (pos 0 -ℤ pos x) (omega int_laws)

covered : (b : ℤ) (x : ℕ) → pos 0 ≤ℤ b → ltb_ℤ b (pos 0 -ℤ pos x) ≡ false
covered b x h = ground (arith, -ℤ_parts (pos 0) (pos x))

gained :
    (b : ℤ) (x : ℕ)
    → pos 0 ≤ℤ b
    → b +ℤ pos x ≤ℤ pos int_max
    → sub_int b (pos 0 -ℤ pos x) ≡ b +ℤ pos x
gained b x h k =
    sub_int_bounds b (pos 0 -ℤ pos x) (omega int_laws) (omega int_laws)
    ∙ eq_of_parts (b -ℤ (pos 0 -ℤ pos x)) (b +ℤ pos x) (omega int_laws)

lost :
    (b : ℤ) (x : ℕ)
    → pos 0 ≤ℤ b
    → b ≤ℤ pos int_max
    → suc x ≤ int_max
    → add_int b (negsuc x) ≡ b -ℤ pos (suc x)
lost b x h k small =
    add_int_bounds b (negsuc x) (omega int_laws) (omega int_laws)
    ∙ eq_of_parts (b +ℤ negsuc x) (b -ℤ pos (suc x)) (omega int_laws)

negative-accepts :
    (bank : Bank) (s : Text) (x : ℕ)
    → pos 0 ≤ℤ bank.balance s
    → suc x ≤ int_max
    → Bank.accepts bank s (negsuc x) (bank.nonce s) ≡ true
negative-accepts bank s x rich small =
    rw (eqb_ℤ_self (bank.nonce s), negative_debit x small, covered (bank.balance s) x rich) refl

negative-sender :
    (s r : Text) (x : ℕ) (b : ℤ)
    → s ≢ r
    → pos 0 ≤ℤ b
    → b +ℤ pos x ≤ℤ pos int_max
    → suc x ≤ int_max
    → Bank.moved_balance s r s (negsuc x) b ≡ b +ℤ pos x
negative-sender s r x b other rich fits small =
    rw (strcmp_eq_ne r s (λ h. other (sym h)), strcmp_eq_self s, negative_debit x small)
      (gained b x rich fits)

negative-recipient :
    (s r : Text) (x : ℕ) (b : ℤ)
    → s ≢ r
    → pos 0 ≤ℤ b
    → b ≤ℤ pos int_max
    → suc x ≤ int_max
    → Bank.moved_balance s r r (negsuc x) b ≡ b -ℤ pos (suc x)
negative-recipient s r x b other solvent fits small =
    rw (strcmp_eq_self r, strcmp_eq_ne s r other) (lost b x solvent fits small)

negative-accepted :
    (e : Env) (l : AccountLedger) (s r : Text) (x : ℕ)
    → length s ≤ student_id_max
    → length r ≤ student_id_max
    → HasRoom l s r
    → pos 0 ≤ℤ account_balance l s
    → suc x ≤ int_max
    → observed (account_transfer e l s r (negsuc x) (account_of l s).nonce)
      ≡ (true, Bank.moved (view l) s r (negsuc x))
negative-accepted e l s r x fs fr room rich small =
    account_transfer-refines e l s r (negsuc x) (account_of l s).nonce fs fr room
    ∙ rw (negative-accepts (view l) s x rich small) refl

ledger_transfer_with_nonce-account_transfer :
    (e : Env) (ledger : Ledger) (s r : Text) (x n : ℤ)
    → ledger.model ≡ ledger_account
    → ledger_transfer_with_nonce e ledger s r x n
      ≡ with_accounts ledger (account_transfer e ledger.account_ledger s r x n)
unfolding ledger_transfer_with_nonce
ledger_transfer_with_nonce-account_transfer e ledger s r x n model = rw model refl

-- A negative amount is accepted in the account model, and its money goes the other way: whoever
-- sends the amount `-(x + 1)` with the right nonce gains `x`, and the recipient loses `x + 1`. The
-- balances are not negative and stay representable, and there is room for both accounts.
pub ledger_transfer_with_nonce-negative :
    (e : Env) (ledger : Ledger) (s r : Text) (x : ℕ)
    → ledger.model ≡ ledger_account
    → length s ≤ student_id_max
    → length r ≤ student_id_max
    → HasRoom ledger.account_ledger s r
    → s ≢ r
    → pos 0 ≤ℤ account_balance ledger.account_ledger s
    → account_balance ledger.account_ledger s +ℤ pos x ≤ℤ pos int_max
    → pos 0 ≤ℤ account_balance ledger.account_ledger r
    → account_balance ledger.account_ledger r ≤ℤ pos int_max
    → suc x ≤ int_max
    → let l = ledger.account_ledger in
      let (accepted, ledger') =
        ledger_transfer_with_nonce e ledger s r (negsuc x) (account_of l s).nonce in
      (accepted ≡ true)
      × (account_balance ledger'.account_ledger s ≡ account_balance l s +ℤ pos x)
      × (account_balance ledger'.account_ledger r ≡ account_balance l r -ℤ pos (suc x))
ledger_transfer_with_nonce-negative e ledger s r x model fs fr room other rich fits solvent held
      small =
    let l = ledger.account_ledger in
    let done = negative-accepted e l s r x fs fr room rich small in
    rw
      (ledger_transfer_with_nonce-account_transfer e ledger s r (negsuc x) (account_of l s).nonce
        model)
      (
        ap (λ o. o.0) done,
        ap (λ o. o.1.balance s) done
            ∙ negative-sender s r x (account_balance l s) other rich fits small,
        ap (λ o. o.1.balance r) done
            ∙ negative-recipient s r x (account_balance l r) other solvent held small,
      )
