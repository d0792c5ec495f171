-- ===== src/Accounts/Safety.antt =====
-- The checks of `account_transfer` (ledger.c): nonce, balance, fee.
use transaction_models_minin.Common.{
  ◌≤◌, ◌≡◌, ◌≢◌, refl, sym, subst, ap, ◌∙◌, ◌⊎◌, inl, inr, Bool, true, false, none, arith,
  if◌then◌else◌, length, Option-cases,
}
use transaction_models_minin.Common.Int.{
  ℤ, pos, ◌+ℤ◌, ◌-ℤ◌, ◌≤ℤ◌, ◌<ℤ◌, add_int, sub_int, add_int_fits, add_int_bounds, sub_int_bounds,
  add_int_one_ne, FitsInt, int_laws, int_max, ltb_ℤ, eqb_ℤ_iff,
}
use transaction_models_minin.Common.Text.{Text, strcmp_eq_self, strcmp_eq_ne}
use transaction_models_minin.Attendance.{AccountLedger, student_id_max, tx_fee}
use transaction_models_minin.Env.{Env}
use transaction_models_minin.Bank
use transaction_models_minin.Bank.{Bank}
use transaction_models_minin.Accounts.{find_or_create_account, account_transfer, account_balance}
use transaction_models_minin.Accounts.Lookup.{account_of, find_or_create_account-none}
use transaction_models_minin.Accounts.Refine.{
  view, view-Found, observed, after_first, Found-first, opened_transfer-refines,
}

view-find_or_create_account :
    (l : AccountLedger) (id : Text) → length id ≤ student_id_max → view (after_first l id) ≡ view l
view-find_or_create_account l id fits = elim (Option-cases (find_or_create_account l id).0) [
  | inl missing ↦ ap view (find_or_create_account-none l id missing)
  | inr (i, there) ↦ view-Found (Found-first l id i fits there)
]

pub no_account :
    (e : Env) (l : AccountLedger) (s r : Text) (x n : ℤ)
    → let l' = after_first l s in
      ((find_or_create_account l s).0 ≡ none) ⊎ ((find_or_create_account l' r).0 ≡ none)
      → account_transfer e l s r x n ≡ (false, after_first l' r)
unfolding account_transfer
no_account e l s r x n (inl missing) = ground arith
no_account e l s r x n (inr missing) = ground arith

-- A transfer does what the bank does, or is refused for want of an account.
account_transfer-cases :
    (e : Env) (l : AccountLedger) (s r : Text) (x n : ℤ)
    → length s ≤ student_id_max
    → length r ≤ student_id_max
    → (observed (account_transfer e l s r x n) ≡ Bank.transfer (view l) s r x n)
      ⊎ (observed (account_transfer e l s r x n) ≡ (false, view l))
account_transfer-cases e l s r x n fs fr =
    let l' = after_first l s in
    let l'' = after_first l' r in
    let same : view l'' ≡ view l =
      view-find_or_create_account l' r fr ∙ view-find_or_create_account l s fs in
    let refused : ((find_or_create_account l s).0 ≡ none) ⊎ ((find_or_create_account l' r).0 ≡ none)
        → (observed (account_transfer e l s r x n) ≡ Bank.transfer (view l) s r x n)
          ⊎ (observed (account_transfer e l s r x n) ≡ (false, view l)) =
      λ h. inr (ap observed (no_account e l s r x n h) ∙ ap (λ b. (false, b)) same) in
    elim (Option-cases (find_or_create_account l s).0) [
      | inl missing ↦ refused (inl missing)
      | inr (i, first) ↦ elim (Option-cases (find_or_create_account l' r).0) [
        | inl missing ↦ refused (inr missing)
        | inr (j, second) ↦ inl (opened_transfer-refines e l s r i j x n fs fr first second)
      ]
    ]

accepted_pair :
    (a b : Bool) (v m w : Bank)
    → a ≡ true
    → ◌≡◌ {A = Bool × Bank} (a, v) (if b then (true, m) else (false, w))
    → (b ≡ true) × (v ≡ m)
accepted_pair a true v m w h p = (refl, ap (λ q. q.1) p)
accepted_pair a false v m w h p = absurd (cc (ap (λ q. q.0) p))

-- An accepted transfer met the bank's checks and left the bank's state.
pub account_transfer-accepted :
    (e : Env) (l : AccountLedger) (s r : Text) (x n : ℤ)
    → length s ≤ student_id_max
    → length r ≤ student_id_max
    → (account_transfer e l s r x n).0 ≡ true
    → (Bank.accepts (view l) s x n ≡ true)
      × (view (account_transfer e l s r x n).1 ≡ Bank.moved (view l) s r x)
account_transfer-accepted e l s r x n fs fr done = elim (account_transfer-cases e l s r x n fs fr) [
  | inl same ↦
      accepted_pair (account_transfer e l s r x n).0 (Bank.accepts (view l) s x n)
        (view (account_transfer e l s r x n).1) (Bank.moved (view l) s r x) (view l) done same
  | inr refused ↦ absurd (cc (ap (λ q. q.0) refused))
]

-- An accepted transfer named the nonce of its sender, and stepped it.
pub account_transfer-nonce :
    (e : Env) (l : AccountLedger) (s r : Text) (x n : ℤ)
    → length s ≤ student_id_max
    → length r ≤ student_id_max
    → (account_transfer e l s r x n).0 ≡ true
    → ((account_of l s).nonce ≡ n)
      × ((account_of (account_transfer e l s r x n).1 s).nonce ≡ add_int n (pos 1))
account_transfer-nonce e l s r x n fs fr done =
    let (ok, after) = account_transfer-accepted e l s r x n fs fr done in
    let nonce = ap (λ (b : Bank). b.nonce s) after in
    let self = strcmp_eq_self s in
    (
      ground (arith, eqb_ℤ_iff n (account_of l s).nonce),
      ground (arith, eqb_ℤ_iff n (account_of l s).nonce, nonce),
    )

stale_nonce :
    (bank : Bank) (s r : Text) (x y n : ℤ)
    → FitsInt n
    → Bank.accepts bank s x n ≡ true
    → Bank.accepts (Bank.moved bank s r x) s y n ≡ false
stale_nonce bank s r x y n fits h = ground (
  arith,
  strcmp_eq_self s,
  eqb_ℤ_iff n (bank.nonce s),
  add_int_one_ne n fits,
  eqb_ℤ_iff n (add_int n (pos 1)),
)

refused_pair :
    (a : Bool) (v : Bank) (b : Bool) (m w : Bank)
    → b ≡ false
    → ◌≡◌ {A = Bool × Bank} (a, v) (if b then (true, m) else (false, w))
    → a ≡ false
refused_pair a v true m w h p = absurd (cc)
refused_pair a v false m w h p = ap (λ q. q.0) p

-- No replay: once a transfer with a nonce was accepted, another transfer of that sender with the
-- same nonce is refused, whatever its recipient and its amount. The ids have at most 19 characters.
pub account_transfer-no_replay :
    (e e' : Env) (l : AccountLedger) (s r r' : Text) (x y n : ℤ)
    → length s ≤ student_id_max
    → length r ≤ student_id_max
    → length r' ≤ student_id_max
    → FitsInt n
    → (account_transfer e l s r x n).0 ≡ true
    → (account_transfer e' (account_transfer e l s r x n).1 s r' y n).0 ≡ false
account_transfer-no_replay e e' l s r r' x y n fs fr fr' fits done =
    let l' = (account_transfer e l s r x n).1 in
    let (ok, after) = account_transfer-accepted e l s r x n fs fr done in
    elim (account_transfer-cases e' l' s r' y n fs fr') [
      | inr refused ↦ ap (λ q. q.0) refused
      | inl same ↦
          refused_pair _ _ (Bank.accepts (view l') s y n) (Bank.moved (view l') s r' y) (view l')
            (subst (λ v. Bank.accepts v s y n ≡ false) (sym after)
              (stale_nonce (view l) s r x y n fits ok))
            same
    ]

pub debit_fits :
    (old x : ℤ)
    → pos 0 ≤ℤ x
    → x <ℤ pos int_max
    → FitsInt old
    → ltb_ℤ old (add_int x tx_fee) ≡ false
    → (sub_int old (add_int x tx_fee) ≡ old -ℤ (x +ℤ tx_fee)) × (pos 0 ≤ℤ old -ℤ (x +ℤ tx_fee))
debit_fits old x h top fits covered =
    let total : add_int x tx_fee ≡ x +ℤ tx_fee =
      add_int_bounds x tx_fee (omega int_laws) (omega int_laws) in
    let enough : x +ℤ tx_fee ≤ℤ old = ground (arith, total) in
    (rw total (sub_int_bounds old (x +ℤ tx_fee) (omega int_laws) (omega int_laws)), omega int_laws)

-- An accepted transfer of an amount from 0 to below INT_MAX between two students, with ids of at most
-- 19 characters and representable balances, takes the amount and the fee
-- from the sender, who keeps no less than zero, gives the amount to the recipient if that balance
-- is representable, changes no third balance, and steps the sender's nonce alone.
pub account_transfer-moves :
    (e : Env) (l : AccountLedger) (s r : Text) (x n : ℤ)
    → length s ≤ student_id_max
    → length r ≤ student_id_max
    → s ≢ r
    → pos 0 ≤ℤ x
    → x <ℤ pos int_max
    → FitsInt (account_balance l s)
    → FitsInt (account_balance l r +ℤ x)
    → (account_transfer e l s r x n).0 ≡ true
    → let l' = (account_transfer e l s r x n).1 in
      (account_balance l' s ≡ account_balance l s -ℤ (x +ℤ tx_fee))
      × (pos 0 ≤ℤ account_balance l' s)
      × (account_balance l' r ≡ account_balance l r +ℤ x)
      × ((k : Text) → k ≢ s → k ≢ r → account_balance l' k ≡ account_balance l k)
      × ((account_of l s).nonce ≡ n)
      × ((account_of l' s).nonce ≡ add_int n (pos 1))
      × ((k : Text) → k ≢ s → (account_of l' k).nonce ≡ (account_of l k).nonce)
account_transfer-moves e l s r x n fs fr ne h top fit_s fit_r done =
    let l' = (account_transfer e l s r x n).1 in
    let (ok, after) = account_transfer-accepted e l s r x n fs fr done in
    let balance = λ (k : Text). ap (λ (b : Bank). b.balance k) after in
    let nonce = λ (k : Text). ap (λ (b : Bank). b.nonce k) after in
    let self = strcmp_eq_self s in
    let self_r = strcmp_eq_self r in
    let (debit, kept) = debit_fits (account_balance l s) x h top fit_s (ground arith) in
    let credit = add_int_fits (account_balance l r) x fit_r in
    let apart = strcmp_eq_ne s r ne in
    let apart' = strcmp_eq_ne r s (λ q. ne (sym q)) in
    let paid : account_balance l' s ≡ account_balance l s -ℤ (x +ℤ tx_fee) =
      ground (arith, balance s) in
    (
      paid,
      rw paid kept,
      ground (arith, balance r),
      (λ k ns nr. ground (
        arith,
        balance k,
        strcmp_eq_ne s k (λ q. ns (sym q)),
        strcmp_eq_ne r k (λ q. nr (sym q)),
      )),
      (account_transfer-nonce e l s r x n fs fr done).0,
      (account_transfer-nonce e l s r x n fs fr done).1,
      (λ k ns. ground (arith, nonce k, strcmp_eq_ne s k (λ q. ns (sym q)))),
    )
