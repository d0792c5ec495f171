-- ===== src/Accounts/History.antt =====
-- The histories of the account model (ledger.c) under a transfer.
use transaction_models_minin.Common.{
  ℕ, ◌≤◌, ◌≡◌, refl, sym, ap, subst, ◌∙◌, inl, inr, true, List, [], ◌∷◌, ◌++◌, some, arith,
  if◌then◌else◌, length, modify, Option-cases,
}
use transaction_models_minin.Common.Int.{ℤ}
use transaction_models_minin.Common.Text.{Text, strcmp_eq}
use transaction_models_minin.Attendance.{
  Account, AccountLedger, TxHistoryNode, student_id_max, tx_fee,
}
use transaction_models_minin.Env.{Env}
use transaction_models_minin.Accounts.{
  find_account, find_or_create_account, new_account, history_node, account_append_history,
  add_balance, next_nonce, move_funds, transfer_between, account_transfer,
}
use transaction_models_minin.Accounts.Lookup.{account_of, account_of-modify, find_account-modify}
use transaction_models_minin.Accounts.Transfer.{
  logged, logged_id, debit, log, debited, paid, logged_once, logged_twice, find-debited, find-paid,
  find-logged_once, find-logged_twice,
}
use transaction_models_minin.Accounts.Refine.{after_first, account_transfer-opened, Found-first}
use transaction_models_minin.Accounts.Safety.{no_account}

-- calloc() gives every node.
abbrev pub HasMemory : Env → Type 0
HasMemory e = (a : Account) → e.calloc a ≡ true

history-append_new :
    (l : AccountLedger) (b : Account) (k : Text)
    → b.history ≡ []
    → (account_of (l ++ b ∷ []) k).history ≡ (account_of l k).history
unfolding account_of
history-append_new [] b k z = ground arith
history-append_new (a ∷ l) b k z = ground (arith, history-append_new l b k z)

-- A new account has an empty history, as a missing one.
history-after_first :
    (l : AccountLedger) (id k : Text)
    → (account_of (after_first l id) k).history ≡ (account_of l k).history
unfolding find_or_create_account
history-after_first l id k = elim (Option-cases (find_account l id)) [
  | inr (j, old) ↦ ground arith
  | inl missing ↦ ground (arith, history-append_new l (new_account id) k refl)
]

-- A write through a pointer that acts on the history by `g`.
history-modify :
    (f : Account → Account) (g : List TxHistoryNode → List TxHistoryNode) (l : AccountLedger)
    (id k : Text) (i : ℕ)
    → ((a : Account) → (f a).student_id ≡ a.student_id)
    → ((a : Account) → (f a).history ≡ g a.history)
    → find_account l id ≡ some i
    → (account_of (modify l i f) k).history
      ≡ (if strcmp_eq id k then g (account_of l k).history else (account_of l k).history)
history-modify f g l id k i keep acts h =
    rw (account_of-modify f keep l id k i h) (ground (arith, acts (account_of l k)))

history-modify_same :
    (f : Account → Account) (l : AccountLedger) (id k : Text) (i : ℕ)
    → ((a : Account) → (f a).student_id ≡ a.student_id)
    → ((a : Account) → (f a).history ≡ a.history)
    → find_account l id ≡ some i
    → (account_of (modify l i f) k).history ≡ (account_of l k).history
history-modify_same f l id k i keep acts h =
    rw (account_of-modify f keep l id k i h) (ground (arith, acts (account_of l k)))

-- The node that a transfer writes, in front of the history of `id`.
unfoldable pub noted : Text → TxHistoryNode → Text → List TxHistoryNode → List TxHistoryNode
noted id node k history = if strcmp_eq id k then node ∷ history else history

module _ (e : Env) (l : AccountLedger) (s r : Text) (i j : ℕ) (x n : ℤ) where
  logged_history :
      HasMemory e
      → (a : Account)
      → (logged e s r x tx_fee n a).history ≡ history_node s r x tx_fee n ∷ a.history
  unfolding account_append_history
  logged_history memory a = ground (arith, memory a)

  move_funds-history :
      (k : Text)
      → HasMemory e
      → find_account l s ≡ some i
      → find_account l r ≡ some j
      → (account_of (move_funds e l i j s r x n) k).history ≡ (
          let node = history_node s r x tx_fee n in
          noted r node k (noted s node k (account_of l k).history))
  unfolding move_funds noted
  move_funds-history k memory hs hr =
      let node = history_node s r x tx_fee n in
      let write = log e l s r i j x n hs hr in
      rw
        (
          history-modify_same next_nonce (logged_twice e l s r i j x n hs hr) s k i (λ a. refl)
              (λ a. refl) (find-logged_twice e l s r i j x n hs hr s ∙ hs),
          history-modify write (λ h. node ∷ h) (logged_once e l s r i j x n hs hr) r k j
              (logged_id e s r x tx_fee n) (logged_history memory)
              (find-logged_once e l s r i j x n hs hr r ∙ hr),
          history-modify write (λ h. node ∷ h) (paid e l s r i j x n hs hr) s k i
              (logged_id e s r x tx_fee n) (logged_history memory)
              (find-paid e l s r i j x n hs hr s ∙ hs),
          history-modify_same (add_balance x) (debited e l s r i j x n hs hr) r k j (λ a. refl)
              (λ a. refl) (find-debited e l s r i j x n hs hr r ∙ hr),
          history-modify_same (debit e l s r i j x n hs hr) l s k i (λ a. refl) (λ a. refl) hs,
        )
        refl

  transfer_between-accepted :
      (transfer_between e l i j s r x n).0 ≡ true
      → (transfer_between e l i j s r x n).1 ≡ move_funds e l i j s r x n
  unfolding transfer_between
  transfer_between-accepted done = ground arith

  find-move_funds :
      (q : Text)
      → find_account l s ≡ some i
      → find_account l r ≡ some j
      → find_account (move_funds e l i j s r x n) q ≡ find_account l q
  unfolding move_funds
  find-move_funds q hs hr =
      find_account-modify next_nonce (λ a. refl) (logged_twice e l s r i j x n hs hr) q i
      ∙ find-logged_twice e l s r i j x n hs hr q

-- What an accepted transfer leaves of the histories: the node in front of the sender's and of the
-- recipient's, both of whom have an account.
pub record IsNoted (l l' : AccountLedger) (s r : Text) (node : TxHistoryNode) : Type 0 where
  pub sender_there : (i : ℕ) × (find_account l' s ≡ some i)
  pub recipient_there : (j : ℕ) × (find_account l' r ≡ some j)
  pub histories :
      (k : Text)
      → (account_of l' k).history ≡ noted r node k (noted s node k (account_of l k).history)

opened_transfer-IsNoted :
    (e : Env) (l : AccountLedger) (s r : Text) (i j : ℕ) (x n : ℤ)
    → HasMemory e
    → length s ≤ student_id_max
    → length r ≤ student_id_max
    → (find_or_create_account l s).0 ≡ some i
    → (find_or_create_account (after_first l s) r).0 ≡ some j
    → (account_transfer e l s r x n).0 ≡ true
    → IsNoted l (account_transfer e l s r x n).1 s r (history_node s r x tx_fee n)
opened_transfer-IsNoted e l s r i j x n memory fs fr first second done =
    let l1 = after_first l s in
    let l2 = after_first l1 r in
    let f = Found-first l s i fs first in
    let g = Found-first l1 r j fr second in
    let hs = g.keeps s i f.found in
    let node = history_node s r x tx_fee n in
    let opened = account_transfer-opened e l s r i j x n first second in
    let moved : (account_transfer e l s r x n).1 ≡ move_funds e l2 i j s r x n =
      ap (λ p. p.1) opened
      ∙ transfer_between-accepted e l2 s r i j x n (ap (λ p. p.0) (sym opened) ∙ done) in
    subst (λ m. IsNoted l m s r node) (sym moved)
      (record {
        sender_there = (i, find-move_funds e l2 s r i j x n s hs g.found ∙ hs);
        recipient_there = (j, find-move_funds e l2 s r i j x n r hs g.found ∙ g.found);
        histories = λ k.
            move_funds-history e l2 s r i j x n k memory hs g.found
            ∙ ap (λ h. noted r node k (noted s node k h))
                (history-after_first l1 r k ∙ history-after_first l s k);
      })

pub account_transfer-IsNoted :
    (e : Env) (l : AccountLedger) (s r : Text) (x n : ℤ)
    → HasMemory e
    → length s ≤ student_id_max
    → length r ≤ student_id_max
    → (account_transfer e l s r x n).0 ≡ true
    → IsNoted l (account_transfer e l s r x n).1 s r (history_node s r x tx_fee n)
account_transfer-IsNoted e l s r x n memory fs fr done =
    elim (Option-cases (find_or_create_account l s).0) [
      | inl missing ↦ absurd (cc (done, no_account e l s r x n (inl missing)))
      | inr (i, first) ↦ elim (Option-cases (find_or_create_account (after_first l s) r).0) [
        | inl missing ↦ absurd (cc (done, no_account e l s r x n (inr missing)))
        | inr (j, second) ↦ opened_transfer-IsNoted e l s r i j x n memory fs fr first second done
      ]
    ]
