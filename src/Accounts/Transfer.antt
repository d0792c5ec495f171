-- ===== src/Accounts/Transfer.antt =====
-- `account_transfer` against a bank that is a function from student ids to balances and nonces.
use transaction_models_minin.Common.{ℕ, ◌≡◌, refl, ◌∙◌, some, arith, if◌then◌else◌, modify}
use transaction_models_minin.Common.Int.{ℤ, pos, add_int, sub_int}
use transaction_models_minin.Common.Text.{Text, strcmp_eq}
use transaction_models_minin.Attendance.{Account, AccountLedger, tx_fee}
use transaction_models_minin.Env.{Env}
use transaction_models_minin.Bank.{moved_balance, moved_nonce}
use transaction_models_minin.Accounts.{
  find_account, account_append_history, add_balance, take_balance, next_nonce, move_funds,
}
use transaction_models_minin.Accounts.Lookup.{account_of, account_of-modify, find_account-modify}

module _ (e : Env) (s r : Text) (x fee n : ℤ) where
  abbrev pub logged : Account → Account
  logged a = account_append_history e a s r x fee n

  pub logged_id : (a : Account) → (logged a).student_id ≡ a.student_id
  unfolding account_append_history
  logged_id a = ground arith

  pub logged_balance : (a : Account) → (logged a).balance ≡ a.balance
  unfolding account_append_history
  logged_balance a = ground arith

  pub logged_nonce : (a : Account) → (logged a).nonce ≡ a.nonce
  unfolding account_append_history
  logged_nonce a = ground arith

module _ (f : Account → Account) (keep : (a : Account) → (f a).student_id ≡ a.student_id)
    (l : AccountLedger) (id k : Text) (i : ℕ) (h : find_account l id ≡ some i) where
  -- A write that acts on the balance by `g`, or leaves it alone.
  pub balance-modify :
      (g : ℤ → ℤ)
      → ((a : Account) → (f a).balance ≡ g a.balance)
      → (account_of (modify l i f) k).balance
        ≡ (if strcmp_eq id k then g (account_of l k).balance else (account_of l k).balance)
  balance-modify g acts =
      rw (account_of-modify f keep l id k i h) (ground (arith, acts (account_of l k)))

  pub balance-modify_same :
      ((a : Account) → (f a).balance ≡ a.balance)
      → (account_of (modify l i f) k).balance ≡ (account_of l k).balance
  balance-modify_same acts =
      rw (account_of-modify f keep l id k i h) (ground (arith, acts (account_of l k)))

  pub nonce-modify :
      (g : ℤ → ℤ)
      → ((a : Account) → (f a).nonce ≡ g a.nonce)
      → (account_of (modify l i f) k).nonce
        ≡ (if strcmp_eq id k then g (account_of l k).nonce else (account_of l k).nonce)
  nonce-modify g acts =
      rw (account_of-modify f keep l id k i h) (ground (arith, acts (account_of l k)))

  pub nonce-modify_same :
      ((a : Account) → (f a).nonce ≡ a.nonce)
      → (account_of (modify l i f) k).nonce ≡ (account_of l k).nonce
  nonce-modify_same acts =
      rw (account_of-modify f keep l id k i h) (ground (arith, acts (account_of l k)))

-- The ledger between the writes of `move_funds`, where both pointers stay good.
module _ (e : Env) (l : AccountLedger) (s r : Text) (i j : ℕ) (x n : ℤ)
    (hs : find_account l s ≡ some i) (hr : find_account l r ≡ some j) where
  abbrev pub debit : Account → Account
  debit = take_balance (add_int x tx_fee)

  abbrev pub log : Account → Account
  log = logged e s r x tx_fee n

  abbrev pub debited : AccountLedger
  debited = modify l i debit

  abbrev pub paid : AccountLedger
  paid = modify debited j (add_balance x)

  abbrev pub logged_once : AccountLedger
  logged_once = modify paid i log

  abbrev pub logged_twice : AccountLedger
  logged_twice = modify logged_once j log

  pub find-debited : (q : Text) → find_account debited q ≡ find_account l q
  find-debited q = find_account-modify debit (λ a. refl) l q i

  pub find-paid : (q : Text) → find_account paid q ≡ find_account l q
  find-paid q = find_account-modify (add_balance x) (λ a. refl) debited q j ∙ find-debited q

  pub find-logged_once : (q : Text) → find_account logged_once q ≡ find_account l q
  find-logged_once q = find_account-modify log (logged_id e s r x tx_fee n) paid q i ∙ find-paid q

  pub find-logged_twice : (q : Text) → find_account logged_twice q ≡ find_account l q
  find-logged_twice q =
      find_account-modify log (logged_id e s r x tx_fee n) logged_once q j ∙ find-logged_once q

  pub move_funds-balance :
      (k : Text)
      → (account_of (move_funds e l i j s r x n) k).balance
        ≡ moved_balance s r k x (account_of l k).balance
  unfolding move_funds
  move_funds-balance k = rw (
    balance-modify_same next_nonce (λ a. refl) logged_twice s k i (find-logged_twice s ∙ hs)
        (λ a. refl),
    balance-modify_same log (logged_id e s r x tx_fee n) logged_once r k j (find-logged_once r ∙ hr)
        (logged_balance e s r x tx_fee n),
    balance-modify_same log (logged_id e s r x tx_fee n) paid s k i (find-paid s ∙ hs)
        (logged_balance e s r x tx_fee n),
    balance-modify (add_balance x) (λ a. refl) debited r k j (find-debited r ∙ hr)
        (λ b. add_int b x) (λ a. refl),
    balance-modify debit (λ a. refl) l s k i hs (λ b. sub_int b (add_int x tx_fee)) (λ a. refl),
  )

  pub move_funds-nonce :
      (k : Text)
      → (account_of (move_funds e l i j s r x n) k).nonce ≡ moved_nonce s k (account_of l k).nonce
  unfolding move_funds
  move_funds-nonce k = rw (
    nonce-modify next_nonce (λ a. refl) logged_twice s k i (find-logged_twice s ∙ hs)
        (λ m. add_int m (pos 1)) (λ a. refl),
    nonce-modify_same log (logged_id e s r x tx_fee n) logged_once r k j (find-logged_once r ∙ hr)
        (logged_nonce e s r x tx_fee n),
    nonce-modify_same log (logged_id e s r x tx_fee n) paid s k i (find-paid s ∙ hs)
        (logged_nonce e s r x tx_fee n),
    nonce-modify_same (add_balance x) (λ a. refl) debited r k j (find-debited r ∙ hr) (λ a. refl),
    nonce-modify_same debit (λ a. refl) l s k i hs (λ a. refl),
  )
