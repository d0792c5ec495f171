-- ===== src/Accounts.antt =====
-- ledger.c, the account model: accounts are found or created by student id, a pointer to one is
-- its index.
pub mod Lookup
pub mod Transfer
pub mod Credit
pub mod Refine
pub mod Safety
pub mod History
pub mod Bounds
pub mod Nonces
pub mod Conservation
use transaction_models_minin.Common.{
  ℕ, zero, suc, ◌+◌, Bool, true, false, not, List, [], ◌∷◌, ◌++◌, Option, none, some, leb,
  if◌then◌else◌, length, get_or, modify,
}
use transaction_models_minin.Common.Int.{ℤ, pos, add_int, sub_int, ltb_ℤ, eqb_ℤ}
use transaction_models_minin.Common.Text.{Text, codes, strcmp_eq, strncpy}
use transaction_models_minin.Attendance.{
  Account, AccountLedger, TxHistoryNode, TxOutput, max_students, student_id_max, tx_fee,
}
use transaction_models_minin.Env.{Env}

-- The search loop of `find_or_create_account`.
unfoldable pub find_account : AccountLedger → Text → Option ℕ
find_account [] student_id = none
find_account (a ∷ l) student_id =
    if strcmp_eq a.student_id student_id
    then some 0
    else elim (find_account l student_id) [ none ↦ none | some i ↦ some (suc i) ]

abbrev pub new_account : Text → Account
new_account student_id = record {
  student_id = strncpy student_id_max student_id;
  balance = pos 0;
  nonce = pos 0;
  history = [];
}

-- The pointer that is returned, and the ledger.
unfoldable pub find_or_create_account : AccountLedger → Text → Option ℕ × AccountLedger
find_or_create_account ledger student_id = elim (find_account ledger student_id) [
  | some i ↦ (some i, ledger)
  | none ↦
      if leb max_students (length ledger)
      then (none, ledger)
      else (some (length ledger), ledger ++ new_account student_id ∷ [])
]

unfoldable pub history_node : Text → Text → ℤ → ℤ → ℤ → TxHistoryNode
history_node sender recipient amount fee nonce = record {
  sender = strncpy student_id_max sender;
  recipient = strncpy student_id_max recipient;
  amount = amount;
  fee = fee;
  nonce = nonce;
}

-- Where calloc() fails the account stays as it is.
unfoldable pub account_append_history : Env → Account → Text → Text → ℤ → ℤ → ℤ → Account
account_append_history e a sender recipient amount fee nonce =
    if e.calloc a
    then record a { history = history_node sender recipient amount fee nonce ∷ a.history }
    else a

abbrev pub add_balance : ℤ → Account → Account
add_balance amount a = record a { balance = add_int a.balance amount }

abbrev pub take_balance : ℤ → Account → Account
take_balance amount a = record a { balance = sub_int a.balance amount }

abbrev pub next_nonce : Account → Account
next_nonce a = record a { nonce = add_int a.nonce (pos 1) }

-- The account behind a pointer.
abbrev pub account_at : AccountLedger → ℕ → Account
account_at ledger i = get_or ledger i (new_account [])

-- A credit through a pointer, with its history node.
unfoldable pub credit_account : Env → AccountLedger → ℕ → Text → Text → ℤ → ℤ → AccountLedger
credit_account e ledger i from owner amount fee = modify ledger i λ a.
    let paid = add_balance amount a in
    account_append_history e paid from owner amount fee paid.nonce

unfoldable pub account_apply_reward : Env → AccountLedger → List TxOutput → ℤ → Bool × AccountLedger
account_apply_reward e ledger [] fee = (true, ledger)
account_apply_reward e ledger (o ∷ os) fee =
    let (account, ledger') = find_or_create_account ledger o.owner in
    elim account [
      | none ↦ (false, ledger')
      | some i ↦
          account_apply_reward e (credit_account e ledger' i (codes "SYSTEM") o.owner o.amount fee)
            os fee
    ]

-- The five writes of a transfer that passed its checks; the two pointers may be equal.
unfoldable pub move_funds : Env → AccountLedger → ℕ → ℕ → Text → Text → ℤ → ℤ → AccountLedger
move_funds e ledger i j sender recipient amount nonce =
    let total_debit = add_int amount tx_fee in
    let debited = modify ledger i (take_balance total_debit) in
    let credited = modify debited j (add_balance amount) in
    let log = λ (a : Account). account_append_history e a sender recipient amount tx_fee nonce in
    let logged = modify credited i log in
    let logged_twice = modify logged j log in modify logged_twice i next_nonce

-- The checks of `account_transfer` behind its NULL test.
unfoldable pub transfer_between :
    Env → AccountLedger → ℕ → ℕ → Text → Text → ℤ → ℤ → Bool × AccountLedger
transfer_between e ledger i j sender recipient amount nonce =
    if not (eqb_ℤ nonce (account_at ledger i).nonce)
    then (false, ledger)
    else if ltb_ℤ (account_at ledger i).balance (add_int amount tx_fee)
    then (false, ledger)
    else (true, move_funds e ledger i j sender recipient amount nonce)

unfoldable pub account_transfer : Env → AccountLedger → Text → Text → ℤ → ℤ → Bool × AccountLedger
account_transfer e ledger sender recipient amount nonce =
    let (s, ledger') = find_or_create_account ledger sender in
    let (r, ledger'') = find_or_create_account ledger' recipient in
    elim s [
      | none ↦ (false, ledger'')
      | some i ↦ elim r [
        | none ↦ (false, ledger'')
        | some j ↦ transfer_between e ledger'' i j sender recipient amount nonce
      ]
    ]

-- The account branch of `ledger_balance`.
unfoldable pub account_balance : AccountLedger → Text → ℤ
account_balance [] student_id = pos 0
account_balance (a ∷ l) student_id =
    if strcmp_eq a.student_id student_id then a.balance else account_balance l student_id
