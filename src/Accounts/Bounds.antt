-- ===== src/Accounts/Bounds.antt =====
-- The account model (ledger.c) stays within its array.
use transaction_models_minin.Common.{
  ℕ, ◌≤◌, ◌≡◌, ◌∙◌, inl, inr, List, [], ◌∷◌, arith, length, length-append, length-modify,
  Option-cases,
}
use transaction_models_minin.Common.Int.{ℤ}
use transaction_models_minin.Common.Text.{Text, codes}
use transaction_models_minin.Attendance.{AccountLedger, TxOutput, max_students}
use transaction_models_minin.Env.{Env}
use transaction_models_minin.Accounts.{
  find_or_create_account, new_account, credit_account, account_apply_reward, move_funds,
  transfer_between, account_transfer,
}

pub find_or_create_account-bounded :
    (l : AccountLedger) (id : Text)
    → length l ≤ max_students
    → length (find_or_create_account l id).1 ≤ max_students
unfolding find_or_create_account
find_or_create_account-bounded l id h = ground (arith, length-append l (new_account id ∷ []))

pub length-credit_account :
    (e : Env) (l : AccountLedger) (i : ℕ) (from owner : Text) (x fee : ℤ)
    → length (credit_account e l i from owner x fee) ≡ length l
unfolding credit_account
length-credit_account e l i from owner x fee = length-modify l i _

pub account_apply_reward-bounded :
    (e : Env) (l : AccountLedger) (os : List TxOutput) (fee : ℤ)
    → length l ≤ max_students
    → length (account_apply_reward e l os fee).1 ≤ max_students
unfolding account_apply_reward
account_apply_reward-bounded e l [] fee h = h
account_apply_reward-bounded e l (o ∷ os) fee h =
    let l' = (find_or_create_account l o.owner).1 in
    let h' = find_or_create_account-bounded l o.owner h in
    elim (Option-cases (find_or_create_account l o.owner).0) [
      | inl full ↦ rw (full, account_apply_reward) h'
      | inr (i, there) ↦
          rw (there, account_apply_reward)
            (account_apply_reward-bounded e
              (credit_account e l' i (codes "SYSTEM") o.owner o.amount fee) os fee
              (omega (arith, length-credit_account e l' i (codes "SYSTEM") o.owner o.amount fee)))
    ]

length-move_funds :
    (e : Env) (l : AccountLedger) (i j : ℕ) (s r : Text) (x n : ℤ)
    → length (move_funds e l i j s r x n) ≡ length l
unfolding move_funds
length-move_funds e l i j s r x n =
    length-modify _ i _
    ∙ length-modify _ j _
    ∙ length-modify _ i _
    ∙ length-modify _ j _
    ∙ length-modify l i _

transfer_between-bounded :
    (e : Env) (l : AccountLedger) (i j : ℕ) (s r : Text) (x n : ℤ)
    → length l ≤ max_students
    → length (transfer_between e l i j s r x n).1 ≤ max_students
unfolding transfer_between
transfer_between-bounded e l i j s r x n h = ground (arith, length-move_funds e l i j s r x n)

pub account_transfer-bounded :
    (e : Env) (l : AccountLedger) (s r : Text) (x n : ℤ)
    → length l ≤ max_students
    → length (account_transfer e l s r x n).1 ≤ max_students
unfolding account_transfer
account_transfer-bounded e l s r x n h =
    let l' = (find_or_create_account l s).1 in
    let l'' = (find_or_create_account l' r).1 in
    let h'' = find_or_create_account-bounded l' r (find_or_create_account-bounded l s h) in
    elim (Option-cases (find_or_create_account l s).0) [
      | inl full ↦ rw (full, account_transfer) h''
      | inr (i, first) ↦
          rw (first, account_transfer)
            (elim (Option-cases (find_or_create_account l' r).0) [
              | inl full ↦ rw (full, account_transfer) h''
              | inr (j, second) ↦ rw second (transfer_between-bounded e l'' i j s r x n h'')
            ])
    ]
