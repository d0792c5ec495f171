-- ===== src/Accounts/Refine.antt =====
-- The account model of ledger.c against the abstract `Bank`.
use transaction_models_minin.Common.{
  ℕ, ◌+◌, ◌≤◌, ◌<◌, ◌≡◌, refl, ap, ◌∙◌, ◌⊎◌, inl, inr, Bool, true, false, not, some, arith,
  if◌then◌else◌, length,
}
use transaction_models_minin.Common.Int.{ℤ}
use transaction_models_minin.Common.Text.{Text}
use transaction_models_minin.Attendance.{AccountLedger, max_students, student_id_max}
use transaction_models_minin.Env.{Env}
use transaction_models_minin.Bank
use transaction_models_minin.Bank.{Bank}
use transaction_models_minin.Accounts.{
  find_account, find_or_create_account, move_funds, transfer_between, account_transfer,
  account_balance,
}
use transaction_models_minin.Accounts.Lookup.{
  account_of, account_balance-account_of, account_at-found, Found, find_or_create_account-Found,
  find_or_create_account-opens, length-find_or_create_account,
}
use transaction_models_minin.Accounts.Transfer.{move_funds-balance, move_funds-nonce}

-- The bank that a ledger stands for.
abbrev pub view : AccountLedger → Bank
view l = record { balance = account_balance l; nonce = λ k. (account_of l k).nonce }

Bank_path :
    (a b : Bank)
    → ((k : Text) → a.balance k ≡ b.balance k)
    → ((k : Text) → a.nonce k ≡ b.nonce k)
    → a ≡ b
Bank_path a b p q = λ i. record { balance = λ k. p k i; nonce = λ k. q k i }

pub view-Found : {l m : AccountLedger} {id : Text} {i : ℕ} → Found l id i m → view m ≡ view l
view-Found {l} {m} f =
    Bank_path (view m) (view l)
      (λ k. rw (account_balance-account_of m k, account_balance-account_of l k) (f.balance_kept k))
      f.nonce_kept

view-move_funds :
    (e : Env) (l : AccountLedger) (s r : Text) (i j : ℕ) (x n : ℤ)
    → find_account l s ≡ some i
    → find_account l r ≡ some j
    → view (move_funds e l i j s r x n) ≡ Bank.moved (view l) s r x
view-move_funds e l s r i j x n hs hr =
    Bank_path _ _
      (λ k.
        rw
          (
            account_balance-account_of (move_funds e l i j s r x n) k,
            account_balance-account_of l k,
          )
          (move_funds-balance e l s r i j x n hs hr k))
      (move_funds-nonce e l s r i j x n hs hr)

-- The outcome and the bank behind the ledger that is left.
abbrev pub observed : Bool × AccountLedger → Bool × Bank
observed (accepted, l) = (accepted, view l)

observed-tests :
    (fresh short : Bool) (l m : AccountLedger) (b : Bank)
    → view m ≡ b
    → observed (if not fresh then (false, l) else if short then (false, l) else (true, m))
      ≡ (if (if not fresh then false else not short) then (true, b) else (false, view l))
observed-tests false short l m b h = refl
observed-tests true true l m b h = refl
observed-tests true false l m b h = ap (λ v. (true, v)) h

transfer_between-refines :
    (e : Env) (l : AccountLedger) (s r : Text) (i j : ℕ) (x n : ℤ)
    → find_account l s ≡ some i
    → find_account l r ≡ some j
    → observed (transfer_between e l i j s r x n) ≡ Bank.transfer (view l) s r x n
unfolding transfer_between
transfer_between-refines e l s r i j x n hs hr =
    rw (account_at-found l s i hs, account_balance-account_of l s)
      (observed-tests _ _ l (move_funds e l i j s r x n) _ (view-move_funds e l s r i j x n hs hr))

abbrev pub after_first : AccountLedger → Text → AccountLedger
after_first l s = (find_or_create_account l s).1

pub account_transfer-opened :
    (e : Env) (l : AccountLedger) (s r : Text) (i j : ℕ) (x n : ℤ)
    → (find_or_create_account l s).0 ≡ some i
    → (find_or_create_account (after_first l s) r).0 ≡ some j
    → account_transfer e l s r x n
      ≡ transfer_between e (after_first (after_first l s) r) i j s r x n
unfolding account_transfer
account_transfer-opened e l s r i j x n a b = ground arith

pub Found-first :
    (l : AccountLedger) (s : Text) (i : ℕ)
    → length s ≤ student_id_max
    → (find_or_create_account l s).0 ≡ some i
    → Found l s i (after_first l s)
Found-first l s i fits h =
    find_or_create_account-Found l s i (after_first l s) fits (λ d. (h d, after_first l s))

-- Where both pointers exist, a transfer is the bank's.
pub opened_transfer-refines :
    (e : Env) (l : AccountLedger) (s r : Text) (i j : ℕ) (x n : ℤ)
    → length s ≤ student_id_max
    → length r ≤ student_id_max
    → (find_or_create_account l s).0 ≡ some i
    → (find_or_create_account (after_first l s) r).0 ≡ some j
    → observed (account_transfer e l s r x n) ≡ Bank.transfer (view l) s r x n
opened_transfer-refines e l s r i j x n fs fr a b =
    let l' = after_first l s in
    let l'' = after_first l' r in
    let f = Found-first l s i fs a in
    let g = Found-first l' r j fr b in
    ap observed (account_transfer-opened e l s r i j x n a b)
    ∙ transfer_between-refines e l'' s r i j x n (g.keeps s i f.found) g.found
    ∙ ap (λ v. Bank.transfer v s r x n) (view-Found g ∙ view-Found f)

-- There is a place for both accounts: they exist, or there is room to create them.
abbrev pub HasRoom : AccountLedger → Text → Text → Type 0
HasRoom l s r =
    (length l + 2 ≤ max_students)
    ⊎ (((i : ℕ) × (find_account l s ≡ some i)) × ((j : ℕ) × (find_account l r ≡ some j)))

room_for_first :
    (l : AccountLedger) (s r : Text)
    → HasRoom l s r
    → (length l < max_students) ⊎ ((i : ℕ) × (find_account l s ≡ some i))
room_for_first l s r (inl h) = inl (omega arith)
room_for_first l s r (inr h) = inr h.0

room_for_second :
    (l : AccountLedger) (s r : Text) (i : ℕ)
    → Found l s i (after_first l s)
    → HasRoom l s r
    → (length (after_first l s) < max_students)
      ⊎ ((j : ℕ) × (find_account (after_first l s) r ≡ some j))
room_for_second l s r i f (inl h) = inl (omega (arith, length-find_or_create_account l s))
room_for_second l s r i f (inr (_, (j, h))) = inr (j, f.keeps r j h)

-- A transfer in the account model is the transfer of the bank, in its outcome and in every balance
-- and nonce that it leaves; a refused one changes no balance and no nonce. The ids have at most 19
-- characters, and there is room for both accounts.
pub account_transfer-refines :
    (e : Env) (l : AccountLedger) (s r : Text) (x n : ℤ)
    → length s ≤ student_id_max
    → length r ≤ student_id_max
    → HasRoom l s r
    → observed (account_transfer e l s r x n) ≡ Bank.transfer (view l) s r x n
account_transfer-refines e l s r x n fs fr room =
    let (i, a) = find_or_create_account-opens l s (room_for_first l s r room) in
    let f = Found-first l s i fs (ap (λ p. p.0) a) in
    let (j, b) =
      find_or_create_account-opens (after_first l s) r (room_for_second l s r i f room) in
    opened_transfer-refines e l s r i j x n fs fr (ap (λ p. p.0) a) (ap (λ p. p.0) b)
