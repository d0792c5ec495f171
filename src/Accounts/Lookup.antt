-- ===== src/Accounts/Lookup.antt =====
-- What is found under a student id, and how the operations of the account model change it.
use transaction_models_minin.Common.{
  ℕ, zero, suc, ◌+◌, ◌≤◌, ◌<◌, ◌≡◌, refl, ◌⊎◌, inl, inr, [], ◌∷◌, ◌++◌, none, some, arith,
  if◌then◌else◌, length, length-append, modify, take_all, Option-cases,
}
use transaction_models_minin.Common.Int.{pos}
use transaction_models_minin.Common.Text.{Text, strcmp_eq, strcmp_eq_iff}
use transaction_models_minin.Attendance.{Account, AccountLedger, max_students, student_id_max}
use transaction_models_minin.Accounts.{
  find_account, find_or_create_account, new_account, account_at, account_balance,
}

-- The account of a student: the first with the id, or an empty one.
unfoldable pub account_of : AccountLedger → Text → Account
account_of [] id = new_account []
account_of (a ∷ l) id = if strcmp_eq a.student_id id then a else account_of l id

pub account_balance-account_of :
    (l : AccountLedger) (id : Text) → account_balance l id ≡ (account_of l id).balance
unfolding account_balance account_of
account_balance-account_of [] id = refl
account_balance-account_of (a ∷ l) id = ground (arith, account_balance-account_of l id)

-- An update through a pointer that was found changes the account of that student alone.
pub account_of-modify :
    (f : Account → Account)
    → ((a : Account) → (f a).student_id ≡ a.student_id)
    → (l : AccountLedger) (id k : Text) (i : ℕ) → find_account l id ≡ some i
    → account_of (modify l i f) k ≡ (if strcmp_eq id k then f (account_of l k) else account_of l k)
unfolding find_account account_of
account_of-modify f keep [] id k i h = absurd (ground arith)
account_of-modify f keep (a ∷ l) id k zero h =
    ground (
      arith,
      keep a,
      strcmp_eq_iff a.student_id id,
      strcmp_eq_iff a.student_id k,
      strcmp_eq_iff id k,
    )
account_of-modify f keep (a ∷ l) id k (suc i) h = ground (
  arith,
  strcmp_eq_iff a.student_id id,
  strcmp_eq_iff a.student_id k,
  strcmp_eq_iff id k,
  account_of-modify f keep l id k i,
)

pub find_account-modify :
    (f : Account → Account)
    → ((a : Account) → (f a).student_id ≡ a.student_id)
    → (l : AccountLedger) (k : Text) (i : ℕ) → find_account (modify l i f) k ≡ find_account l k
unfolding find_account
find_account-modify f keep [] k i = refl
find_account-modify f keep (a ∷ l) k zero = rw (keep a)
find_account-modify f keep (a ∷ l) k (suc i) = rw (find_account-modify f keep l k i)

-- A pointer that was found leads to the account.
pub account_at-found :
    (l : AccountLedger) (id : Text) (i : ℕ)
    → find_account l id ≡ some i
    → account_at l i ≡ account_of l id
unfolding find_account account_of
account_at-found [] id i h = absurd (ground arith)
account_at-found (a ∷ l) id zero h = ground arith
account_at-found (a ∷ l) id (suc i) h = ground (arith, account_at-found l id i)

find_account-append_some :
    (l m : AccountLedger) (k : Text) (i : ℕ)
    → find_account l k ≡ some i
    → find_account (l ++ m) k ≡ some i
unfolding find_account
find_account-append_some [] m k i h = absurd (ground arith)
find_account-append_some (a ∷ l) m k i h = elim (Option-cases (find_account l k)) [
  | inl missing ↦ ground arith
  | inr (j, found) ↦ ground (arith, find_account-append_some l m k j found)
]

find_account-append_new :
    (l : AccountLedger) (b : Account) (k : Text)
    → b.student_id ≡ k
    → find_account l k ≡ none
    → find_account (l ++ b ∷ []) k ≡ some (length l)
unfolding find_account
find_account-append_new [] b k e h = ground (arith, strcmp_eq_iff b.student_id k)
find_account-append_new (a ∷ l) b k e h = ground (arith, find_account-append_new l b k e)

balance-append_new :
    (l : AccountLedger) (b : Account) (k : Text)
    → b.balance ≡ pos 0
    → (account_of (l ++ b ∷ []) k).balance ≡ (account_of l k).balance
unfolding account_of
balance-append_new [] b k z = ground arith
balance-append_new (a ∷ l) b k z = ground (arith, balance-append_new l b k z)

pub nonce-append_new :
    (l : AccountLedger) (b : Account) (k : Text)
    → b.nonce ≡ pos 0
    → (account_of (l ++ b ∷ []) k).nonce ≡ (account_of l k).nonce
unfolding account_of
nonce-append_new [] b k z = ground arith
nonce-append_new (a ∷ l) b k z = ground (arith, nonce-append_new l b k z)

-- What `find_or_create_account` does to a ledger `l`, when it gives pointer `p` and ledger `m`.
pub record Found (l : AccountLedger) (id : Text) (i : ℕ) (m : AccountLedger) : Type 0 where
  pub found : find_account m id ≡ some i
  pub keeps : (k : Text) (j : ℕ) → find_account l k ≡ some j → find_account m k ≡ some j
  pub balance_kept : (k : Text) → (account_of m k).balance ≡ (account_of l k).balance
  pub nonce_kept : (k : Text) → (account_of m k).nonce ≡ (account_of l k).nonce

pub find_or_create_account-Found :
    (l : AccountLedger) (id : Text) (i : ℕ) (m : AccountLedger)
    → length id ≤ student_id_max
    → find_or_create_account l id ≡ (some i, m)
    → Found l id i m
unfolding find_or_create_account
find_or_create_account-Found l id i m fits e = elim (Option-cases (find_account l id)) [
  | inr (j, old) ↦
      let same : m ≡ l = ground arith in
      record {
        found = ground arith;
        keeps = λ k n h. rw same h;
        balance_kept = λ k. rw same refl;
        nonce_kept = λ k. rw same refl;
      }
  | inl missing ↦
      let whole : (new_account id).student_id ≡ id = take_all student_id_max id fits in
      let grown : m ≡ l ++ new_account id ∷ [] = ground arith in
      record {
        found =
            rw grown (ground (arith, find_account-append_new l (new_account id) id whole missing));
        keeps = λ k n h. rw grown (find_account-append_some l _ k n h);
        balance_kept = λ k. rw grown (balance-append_new l (new_account id) k refl);
        nonce_kept = λ k. rw grown (nonce-append_new l (new_account id) k refl);
      }
]

-- There is a pointer if the account exists or there is room for one more.
pub find_or_create_account-opens :
    (l : AccountLedger) (id : Text)
    → (length l < max_students) ⊎ ((i : ℕ) × (find_account l id ≡ some i))
    → (i : ℕ) × (find_or_create_account l id ≡ (some i, (find_or_create_account l id).1))
unfolding find_or_create_account
find_or_create_account-opens l id (inr (i, old)) = (i, ground arith)
find_or_create_account-opens l id (inl room) = elim (Option-cases (find_account l id)) [
  | inr (j, old) ↦ (j, ground arith)
  | inl missing ↦ (length l, ground arith)
]

pub length-find_or_create_account :
    (l : AccountLedger) (id : Text) → length (find_or_create_account l id).1 ≤ length l + 1
unfolding find_or_create_account
length-find_or_create_account l id = ground (arith, length-append l (new_account id ∷ []))

-- Where no account is given, none was made.
pub find_or_create_account-none :
    (l : AccountLedger) (id : Text)
    → (find_or_create_account l id).0 ≡ none
    → (find_or_create_account l id).1 ≡ l
unfolding find_or_create_account
find_or_create_account-none l id h = ground arith
