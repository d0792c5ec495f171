-- ===== src/Tests/Accounts.antt =====
-- The account model at concrete inputs.
use transaction_models_minin.Common.Text.{strcmp_eq, Text}
use transaction_models_minin.Accounts.{
  transfer_between, find_account, find_or_create_account, account_balance, account_transfer,
}
use transaction_models_minin.Common.{
  ◌≡◌, ◌≢◌, refl, sym, true, inl, [], ◌∷◌, arith, ap, if◌then◌else◌, get_or,
}
use transaction_models_minin.Common.Int.{pos, negsuc, ◌-ℤ◌, ◌+ℤ◌, ◌≤ℤ◌, add_int}
use transaction_models_minin.Attendance.{AccountLedger, Ledger, ledger_account, tx_fee}
use transaction_models_minin.Bank
use transaction_models_minin.Accounts.Lookup.{account_of}
use transaction_models_minin.Accounts.Refine.{view, observed, account_transfer-refines}
use transaction_models_minin.Accounts.Safety.{account_transfer-moves}
use transaction_models_minin.Accounts.Conservation.{total, account_transfer-total}
use transaction_models_minin.Ledger.{ledger_transfer_with_nonce}
use transaction_models_minin.Ledger.Negative.{ledger_transfer_with_nonce-negative}
use transaction_models_minin.Tests.World.{world, alice, bob}

abbrev pub accounts : AccountLedger
accounts =
    record { student_id = alice; balance = pos 50; nonce = pos 3; history = [] }
    ∷ record { student_id = bob; balance = pos 7; nonce = pos 0; history = [] }
    ∷ []

pub alice-ne-bob : alice ≢ bob
alice-ne-bob h = absurd (omega (arith, ap (λ t. get_or t 3 0) h))

-- Alice pays five coins, the fee is one.
pub payment_accepted : (account_transfer world accounts alice bob (pos 5) (pos 3)).0 ≡ true
unfolding account_transfer find_or_create_account find_account strcmp_eq transfer_between add_int
payment_accepted = refl

account_transfer-refines_example :
    observed (account_transfer world accounts alice bob (pos 5) (pos 3))
    ≡ Bank.transfer (view accounts) alice bob (pos 5) (pos 3)
account_transfer-refines_example =
    account_transfer-refines world accounts alice bob (pos 5) (pos 3) (omega arith) (omega arith)
      (inl (omega arith))

account_transfer-moves_example :
    let l' = (account_transfer world accounts alice bob (pos 5) (pos 3)).1 in
    (account_balance l' alice ≡ account_balance accounts alice -ℤ (pos 5 +ℤ tx_fee))
    × (pos 0 ≤ℤ account_balance l' alice)
    × (account_balance l' bob ≡ account_balance accounts bob +ℤ pos 5)
    × ((k : Text) → k ≢ alice → k ≢ bob → account_balance l' k ≡ account_balance accounts k)
    × ((account_of accounts alice).nonce ≡ pos 3)
    × ((account_of l' alice).nonce ≡ add_int (pos 3) (pos 1))
    × ((k : Text) → k ≢ alice → (account_of l' k).nonce ≡ (account_of accounts k).nonce)
unfolding account_balance ◌+ℤ◌ strcmp_eq
account_transfer-moves_example =
    account_transfer-moves world accounts alice bob (pos 5) (pos 3) (omega arith) (omega arith)
      alice-ne-bob (omega arith) (omega arith) (omega arith, omega arith) (omega arith, omega arith)
      payment_accepted

account_transfer-total_example :
    let (accepted, l') = account_transfer world accounts alice bob (pos 5) (pos 3) in
    total l' ≡ (if accepted then total accounts -ℤ tx_fee else total accounts)
unfolding account_balance ◌+ℤ◌ strcmp_eq
account_transfer-total_example =
    account_transfer-total world accounts alice bob (pos 5) (pos 3) (omega arith) (omega arith)
      (omega arith) (omega arith) (omega arith, omega arith) (omega arith, omega arith)

abbrev pub account_model : Ledger
account_model = record { model = ledger_account; utxo_set = []; account_ledger = accounts }

-- Bob takes three coins from Alice.
ledger_transfer_with_nonce-negative_example :
    let (accepted, ledger') =
      ledger_transfer_with_nonce world account_model bob alice
        (negsuc 2)
        (account_of accounts bob).nonce in
    (accepted ≡ true)
    × (account_balance ledger'.account_ledger bob ≡ account_balance accounts bob +ℤ pos 2)
    × (account_balance ledger'.account_ledger alice ≡ account_balance accounts alice -ℤ pos 3)
unfolding account_balance ◌+ℤ◌ strcmp_eq
ledger_transfer_with_nonce-negative_example =
    ledger_transfer_with_nonce-negative world account_model bob alice 2 refl (omega arith)
      (omega arith) (inl (omega arith)) (λ h. alice-ne-bob (sym h)) (omega arith) (omega arith)
      (omega arith) (omega arith) (omega arith)
