-- ===== src/Accounts/Conservation.antt =====
-- The sum of all balances of the account model (ledger.c) under `account_transfer`.
use transaction_models_minin.Common.{
  ℕ, zero, suc, ◌≤◌, ◌≡◌, refl, sym, subst, ap, ◌∙◌, inl, inr, Bool, true, false, [], ◌∷◌, ◌++◌,
  some, arith, if◌then◌else◌, length, modify, Option-cases, Bool-cases,
}
use transaction_models_minin.Common.Int.{
  ℤ, pos, ◌+ℤ◌, ◌-ℤ◌, ◌≤ℤ◌, ◌<ℤ◌, add_int, sub_int, add_int_fits, FitsInt, add_int_bounds, ltb_ℤ,
  int_laws, int_max, parts_of_eq,
}
use transaction_models_minin.Common.Text.{Text, strcmp_eq, strcmp_eq→eq}
use transaction_models_minin.Attendance.{Account, AccountLedger, student_id_max, tx_fee}
use transaction_models_minin.Env.{Env}
use transaction_models_minin.Accounts.{
  find_account, find_or_create_account, new_account, add_balance, take_balance, next_nonce,
  move_funds, transfer_between, account_transfer, account_balance,
}
use transaction_models_minin.Accounts.Lookup.{
  account_of, account_balance-account_of, account_at-found,
}
use transaction_models_minin.Accounts.Safety.{debit_fits, no_account}
use transaction_models_minin.Accounts.Refine.{after_first, Found-first, account_transfer-opened}
use transaction_models_minin.Accounts.Transfer.{
  logged_balance, balance-modify, find-debited, debited, paid, logged_once, logged_twice, log,
}

-- The sum of the balances, in unbounded integers.
unfoldable pub total : AccountLedger → ℤ
total [] = pos 0
total (a ∷ l) = a.balance +ℤ total l

total-modify :
    (f : Account → Account) (l : AccountLedger) (id : Text) (i : ℕ)
    → find_account l id ≡ some i
    → total (modify l i f) +ℤ (account_of l id).balance ≡ total l +ℤ (f (account_of l id)).balance
unfolding total find_account account_of
total-modify f [] id i h = absurd (ground arith)
total-modify f (a ∷ l) id zero h = grind int_laws
total-modify f (a ∷ l) id (suc i) h = grind (int_laws, total-modify f l id i)

total-modify_same :
    (f : Account → Account)
    → ((a : Account) → (f a).balance ≡ a.balance)
    → (l : AccountLedger) (i : ℕ) → total (modify l i f) ≡ total l
unfolding total
total-modify_same f same [] i = refl
total-modify_same f same (a ∷ l) zero = rw (same a)
total-modify_same f same (a ∷ l) (suc i) = rw (total-modify_same f same l i)

total-append : (l : AccountLedger) (a : Account) → total (l ++ a ∷ []) ≡ total l +ℤ a.balance
unfolding total
total-append [] a = omega int_laws
total-append (b ∷ l) a = rw (total-append l a) (omega int_laws)

total-find_or_create_account :
    (l : AccountLedger) (id : Text) → total (find_or_create_account l id).1 ≡ total l
unfolding find_or_create_account
total-find_or_create_account l id = grind (int_laws, total-append l (new_account id))

fee_burnt :
    (after between before b c x : ℤ)
    → between +ℤ b ≡ before +ℤ (b -ℤ (x +ℤ tx_fee))
    → after +ℤ c ≡ between +ℤ (c +ℤ x)
    → after ≡ before -ℤ tx_fee
fee_burnt after between before b c x h k = omega (int_laws, parts_of_eq h, parts_of_eq k)

module _ (e : Env) (l : AccountLedger) (s r : Text) (i j : ℕ) (x n : ℤ)
    (hs : find_account l s ≡ some i) (hr : find_account l r ≡ some j) where
  -- With no overflow the writes of a transfer burn the fee.
  total-move_funds :
      sub_int (account_of l s).balance (add_int x tx_fee)
        ≡ (account_of l s).balance -ℤ (x +ℤ tx_fee)
      → add_int (account_of (debited e l s r i j x n hs hr) r).balance x
        ≡ (account_of (debited e l s r i j x n hs hr) r).balance +ℤ x
      → total (move_funds e l i j s r x n) ≡ total l -ℤ tx_fee
  unfolding move_funds
  total-move_funds no_overflow no_overflow' =
      let first = total-modify (take_balance (add_int x tx_fee)) l s i hs in
      let d = debited e l s r i j x n hs hr in
      let second = total-modify (add_balance x) d r j (find-debited e l s r i j x n hs hr r ∙ hr) in
      let write = log e l s r i j x n hs hr in
      rw
        (
          total-modify_same next_nonce (λ a. refl) (logged_twice e l s r i j x n hs hr) i,
          total-modify_same write (logged_balance e s r x tx_fee n)
              (logged_once e l s r i j x n hs hr) j,
          total-modify_same write (logged_balance e s r x tx_fee n) (paid e l s r i j x n hs hr) i,
        )
        (fee_burnt _ _ (total l) _ _ x (first ∙ ap (λ z. total l +ℤ z) no_overflow)
          (second ∙ ap (λ z. total d +ℤ z) no_overflow'))

-- The credit does not overflow either, also where the accounts are one.
credit_fits :
    (same : Bool) (b c x : ℤ)
    → (same ≡ true → b ≡ c)
    → pos 0 ≤ℤ x
    → x <ℤ pos int_max
    → FitsInt b
    → FitsInt (c +ℤ x)
    → ltb_ℤ b (add_int x tx_fee) ≡ false
    → let d = if same then sub_int c (add_int x tx_fee) else c in add_int d x ≡ d +ℤ x
credit_fits false b c x one h top fit_b fit_c covered = add_int_fits c x fit_c
credit_fits true b c x one h top fit_b fit_c covered =
    let e = one refl in
    let (debit, kept) = debit_fits b x h top fit_b covered in
    subst (λ z. add_int (sub_int z (add_int x tx_fee)) x ≡ sub_int z (add_int x tx_fee) +ℤ x) e
      (rw debit (add_int_bounds (b -ℤ (x +ℤ tx_fee)) x (omega int_laws) (omega int_laws)))

total-transfer_between :
    (e : Env) (l : AccountLedger) (s r : Text) (i j : ℕ) (x n : ℤ)
    → find_account l s ≡ some i
    → find_account l r ≡ some j
    → pos 0 ≤ℤ x
    → x <ℤ pos int_max
    → FitsInt (account_of l s).balance
    → FitsInt ((account_of l r).balance +ℤ x)
    → let (accepted, l') = transfer_between e l i j s r x n in
      total l' ≡ (if accepted then total l -ℤ tx_fee else total l)
unfolding transfer_between
total-transfer_between e l s r i j x n hs hr h top fit_s fit_r =
    elim (Bool-cases (ltb_ℤ (account_of l s).balance (add_int x tx_fee))) [
      | inl short ↦ ground (arith, account_at-found l s i hs)
      | inr covered ↦
          let (debit, kept) = debit_fits (account_of l s).balance x h top fit_s covered in
          let seen =
            balance-modify (take_balance (add_int x tx_fee)) (λ a. refl) l s r i hs
              (λ b. sub_int b (add_int x tx_fee)) (λ a. refl) in
          let credit : add_int (account_of (debited e l s r i j x n hs hr) r).balance x
              ≡ (account_of (debited e l s r i j x n hs hr) r).balance +ℤ x =
            rw seen (
              credit_fits (strcmp_eq s r) (account_of l s).balance _ x
                (λ same. ap (λ k. (account_of l k).balance) (strcmp_eq→eq s r same)) h top fit_s
                fit_r covered) in
          ground
            (arith, account_at-found l s i hs, total-move_funds e l s r i j x n hs hr debit credit)
    ]

-- An accepted transfer of an amount from 0 to below INT_MAX lowers the sum of all balances by the
-- fee, and a refused one does not change it. The two ids, of at most 19 characters, may be equal; the
-- sender's balance, and the recipient's with the amount, are representable.
pub account_transfer-total :
    (e : Env) (l : AccountLedger) (s r : Text) (x n : ℤ)
    → length s ≤ student_id_max
    → length r ≤ student_id_max
    → pos 0 ≤ℤ x
    → x <ℤ pos int_max
    → FitsInt (account_balance l s)
    → FitsInt (account_balance l r +ℤ x)
    → let (accepted, l') = account_transfer e l s r x n in
      total l' ≡ (if accepted then total l -ℤ tx_fee else total l)
account_transfer-total e l s r x n fs fr h top fit_s fit_r =
    let l' = after_first l s in
    let l'' = after_first l' r in
    let same_total : total l'' ≡ total l =
      total-find_or_create_account l' r ∙ total-find_or_create_account l s in
    elim (Option-cases (find_or_create_account l s).0) [
      | inl missing ↦ rw (no_account e l s r x n (inl missing)) same_total
      | inr (i, first) ↦ elim (Option-cases (find_or_create_account l' r).0) [
        | inl missing ↦ rw (no_account e l s r x n (inr missing)) same_total
        | inr (j, second) ↦
            let f = Found-first l s i fs first in
            let g = Found-first l' r j fr second in
            let b_s : (account_of l'' s).balance ≡ account_balance l s =
              g.balance_kept s ∙ f.balance_kept s ∙ sym (account_balance-account_of l s) in
            let b_r : (account_of l'' r).balance ≡ account_balance l r =
              g.balance_kept r ∙ f.balance_kept r ∙ sym (account_balance-account_of l r) in
            rw (account_transfer-opened e l s r i j x n first second, ← same_total)
              (total-transfer_between e l'' s r i j x n (g.keeps s i f.found) g.found h top
                (subst FitsInt (sym b_s) fit_s) (subst (λ b. FitsInt (b +ℤ x)) (sym b_r) fit_r))
      ]
    ]
