-- ===== src/Accounts/Nonces.antt =====
-- What the account model (ledger.c) does to the nonces: a transfer that is accepted steps one of them
-- by one, everything else leaves them all alone.
use transaction_models_minin.Common.{
  ℕ, zero, suc, ◌≡◌, refl, ap, subst, ◌∙◌, ◌⊎◌, inl, inr, List, [], ◌∷◌, arith, modify, not,
  Bool-cases, Option-cases,
}
use transaction_models_minin.Common.Int.{ℤ, pos, add_int, ltb_ℤ, eqb_ℤ}
use transaction_models_minin.Common.Text.{Text, codes, strcmp_eq}
use transaction_models_minin.Attendance.{Account, AccountLedger, TxOutput, tx_fee}
use transaction_models_minin.Env.{Env}
use transaction_models_minin.Accounts.{
  find_or_create_account, new_account, account_append_history, credit_account, account_apply_reward,
  move_funds, transfer_between, account_transfer, account_at, next_nonce, add_balance, take_balance,
}
use transaction_models_minin.Accounts.Lookup.{account_of, nonce-append_new}

-- The nonce under a student id.
abbrev pub nonce_of : AccountLedger → Text → ℤ
nonce_of l k = (account_of l k).nonce

-- At most one step further.
abbrev pub IsStepped : ℤ → ℤ → Type 0
IsStepped old new = (new ≡ old) ⊎ (new ≡ add_int old (pos 1))

-- An update that keeps ids reaches the account under an id, or does not.
account_of-modify_any :
    (f : Account → Account)
    → ((a : Account) → (f a).student_id ≡ a.student_id)
    → (l : AccountLedger) (i : ℕ) (k : Text)
    → (account_of (modify l i f) k ≡ account_of l k)
      ⊎ (account_of (modify l i f) k ≡ f (account_of l k))
unfolding account_of
account_of-modify_any f keep [] i k = inl refl
account_of-modify_any f keep (a ∷ l) zero k = elim (Bool-cases (strcmp_eq a.student_id k)) [
  | inl found ↦ inr (ground (arith, keep a))
  | inr other ↦ inl (ground (arith, keep a))
]
account_of-modify_any f keep (a ∷ l) (suc i) k = elim (Bool-cases (strcmp_eq a.student_id k)) [
  | inl found ↦ inl (rw found refl)
  | inr other ↦ rw other (account_of-modify_any f keep l i k)
]

nonce-modify :
    (f : Account → Account)
    → ((a : Account) → (f a).student_id ≡ a.student_id)
    → ((a : Account) → (f a).nonce ≡ a.nonce)
    → (l : AccountLedger) (i : ℕ) (k : Text) → nonce_of (modify l i f) k ≡ nonce_of l k
nonce-modify f keep same l i k = elim (account_of-modify_any f keep l i k) [
  | inl missed ↦ ap (λ (a : Account). a.nonce) missed
  | inr reached ↦ ap (λ (a : Account). a.nonce) reached ∙ same (account_of l k)
]

nonce-modify_next :
    (l : AccountLedger) (i : ℕ) (k : Text)
    → IsStepped (nonce_of l k) (nonce_of (modify l i next_nonce) k)
nonce-modify_next l i k = elim (account_of-modify_any next_nonce (λ a. refl) l i k) [
  | inl missed ↦ inl (ap (λ (a : Account). a.nonce) missed)
  | inr reached ↦ inr (ap (λ (a : Account). a.nonce) reached)
]

append_history-kept :
    (e : Env) (a : Account) (s r : Text) (x fee n : ℤ)
    → ((account_append_history e a s r x fee n).student_id ≡ a.student_id)
      × ((account_append_history e a s r x fee n).nonce ≡ a.nonce)
unfolding account_append_history
append_history-kept e a s r x fee n = elim (Bool-cases (e.calloc a)) [
  | inl there ↦ rw there (refl, refl)
  | inr full ↦ rw full (refl, refl)
]

pub nonce-find_or_create_account :
    (l : AccountLedger) (id k : Text) → nonce_of (find_or_create_account l id).1 k ≡ nonce_of l k
unfolding find_or_create_account
nonce-find_or_create_account l id k = ground (arith, nonce-append_new l (new_account id) k refl)

pub nonce-credit_account :
    (e : Env) (l : AccountLedger) (i : ℕ) (from owner k : Text) (x fee : ℤ)
    → nonce_of (credit_account e l i from owner x fee) k ≡ nonce_of l k
unfolding credit_account
nonce-credit_account e l i from owner k x fee =
    nonce-modify _ (λ a. (append_history-kept e (add_balance x a) from owner x fee a.nonce).0)
      (λ a. (append_history-kept e (add_balance x a) from owner x fee a.nonce).1) l i k

pub nonce-account_apply_reward :
    (e : Env) (l : AccountLedger) (os : List TxOutput) (fee : ℤ) (k : Text)
    → nonce_of (account_apply_reward e l os fee).1 k ≡ nonce_of l k
unfolding account_apply_reward
nonce-account_apply_reward e l [] fee k = refl
nonce-account_apply_reward e l (o ∷ os) fee k =
    let l' = (find_or_create_account l o.owner).1 in
    let opened = nonce-find_or_create_account l o.owner k in
    elim (Option-cases (find_or_create_account l o.owner).0) [
      | inl full ↦ rw (full, account_apply_reward) opened
      | inr (i, there) ↦
          rw (there, account_apply_reward)
            (nonce-account_apply_reward e
                (credit_account e l' i (codes "SYSTEM") o.owner o.amount fee) os fee k
              ∙ nonce-credit_account e l' i (codes "SYSTEM") o.owner k o.amount fee
              ∙ opened)
    ]

pub step_after : {a b c : ℤ} → b ≡ a → IsStepped b c → IsStepped a c
step_after {c = c} same step = subst (λ z. IsStepped z c) same step

nonce-move_funds :
    (e : Env) (l : AccountLedger) (i j : ℕ) (s r : Text) (x n : ℤ) (k : Text)
    → IsStepped (nonce_of l k) (nonce_of (move_funds e l i j s r x n) k)
unfolding move_funds
nonce-move_funds e l i j s r x n k =
    let id_kept = λ (a : Account). (append_history-kept e a s r x tx_fee n).0 in
    let nonce_kept = λ (a : Account). (append_history-kept e a s r x tx_fee n).1 in
    step_after
      (nonce-modify _ id_kept nonce_kept _ j k
        ∙ nonce-modify _ id_kept nonce_kept _ i k
        ∙ nonce-modify (add_balance x) (λ a. refl) (λ a. refl) _ j k
        ∙ nonce-modify (take_balance (add_int x tx_fee)) (λ a. refl) (λ a. refl) l i k)
      (nonce-modify_next _ i k)

nonce-transfer_between :
    (e : Env) (l : AccountLedger) (i j : ℕ) (s r : Text) (x n : ℤ) (k : Text)
    → IsStepped (nonce_of l k) (nonce_of (transfer_between e l i j s r x n).1 k)
unfolding transfer_between
nonce-transfer_between e l i j s r x n k =
    elim (Bool-cases (not (eqb_ℤ n (account_at l i).nonce))) [
      | inl stale ↦ rw stale (inl refl)
      | inr current ↦
          rw current (elim (Bool-cases (ltb_ℤ (account_at l i).balance (add_int x tx_fee))) [
            | inl short ↦ rw short (inl refl)
            | inr covered ↦ rw covered (nonce-move_funds e l i j s r x n k)
          ])
    ]

pub nonce-account_transfer :
    (e : Env) (l : AccountLedger) (s r : Text) (x n : ℤ) (k : Text)
    → IsStepped (nonce_of l k) (nonce_of (account_transfer e l s r x n).1 k)
unfolding account_transfer
nonce-account_transfer e l s r x n k =
    let l' = (find_or_create_account l s).1 in
    let l'' = (find_or_create_account l' r).1 in
    let opened : nonce_of l'' k ≡ nonce_of l k =
      nonce-find_or_create_account l' r k ∙ nonce-find_or_create_account l s k in
    elim (Option-cases (find_or_create_account l s).0) [
      | inl full ↦ rw (full, account_transfer) (inl opened)
      | inr (i, first) ↦
          rw (first, account_transfer)
            (elim (Option-cases (find_or_create_account l' r).0) [
              | inl full ↦ rw (full, account_transfer) (inl opened)
              | inr (j, second) ↦
                  rw second (step_after opened (nonce-transfer_between e l'' i j s r x n k))
            ])
    ]
