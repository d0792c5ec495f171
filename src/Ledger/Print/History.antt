-- ===== src/Ledger/Print/History.antt =====
-- The history screen behind a transfer (ledger.c).
use transaction_models_minin.Common.{
  ℕ, ◌+◌, ◌++◌, append-nil, ◌≤◌, ◌≡◌, ◌≢◌, refl, sym, ap, subst, ◌∙◌, inl, inr, true, List, [], ◌∷◌,
  some, arith, length, take_all, Option-cases,
}
use transaction_models_minin.Common.Int.{ℤ, pos}
use transaction_models_minin.Common.Text.{
  Text, codes, decimal, decimal_int, strcmp_eq_self, strcmp_eq_ne,
}
use transaction_models_minin.Attendance.{
  AccountLedger, Ledger, ledger_account, TxHistoryNode, student_id_max, tx_fee,
}
use transaction_models_minin.Env.{Env}
use transaction_models_minin.Accounts.{find_account, history_node, account_transfer}
use transaction_models_minin.Accounts.Lookup.{account_of}
use transaction_models_minin.Accounts.History.{HasMemory, noted, IsNoted, account_transfer-IsNoted}
use transaction_models_minin.Ledger.{with_accounts, ledger_transfer_with_nonce}
use transaction_models_minin.Ledger.Print.{
  history_line, history_lines, printed_account, history_screen, account_history,
  ledger_print_history,
}

-- The entry with this number, and the entries from a number on.
abbrev pub entry_of : ℕ → Text → Text → ℤ → ℤ → ℤ → Text
entry_of number sender recipient amount fee nonce =
    codes "  #"
    ++ decimal number
    ++ codes " sender="
    ++ sender
    ++ codes " recipient="
    ++ recipient
    ++ codes " amount="
    ++ decimal_int amount
    ++ codes " fee="
    ++ decimal_int fee
    ++ codes " nonce="
    ++ decimal_int nonce
    ++ codes "\n"

unfoldable pub entries_from : ℕ → List TxHistoryNode → Text
entries_from number [] = []
entries_from number (t ∷ ts) =
    entry_of number t.sender t.recipient t.amount t.fee t.nonce ++ entries_from (number + 1) ts

-- The screen of a student with these entries.
abbrev pub history_screen_of : Text → Text → Text
history_screen_of student_id entries =
    codes "\n=== Transaction History for "
    ++ student_id
    ++ codes " ===\n"
    ++ entries
    ++ codes "====================================\n\n"

history_lines-entries :
    (number : ℕ) (ts : List TxHistoryNode) → history_lines number ts ≡ entries_from number ts
unfolding history_lines history_line entries_from
history_lines-entries number [] = refl
history_lines-entries number (t ∷ ts) =
    ap (λ rest. entry_of number t.sender t.recipient t.amount t.fee t.nonce ++ rest)
      (history_lines-entries (number + 1) ts)

history_screen-first :
    (k : Text) (t : TxHistoryNode) (ts : List TxHistoryNode)
    → history_screen k (t ∷ ts)
      ≡ history_screen_of k
          (entry_of 1 t.sender t.recipient t.amount t.fee t.nonce ++ entries_from 2 ts)
unfolding history_screen entries_from
history_screen-first k t ts =
    ap
      (λ head. head ++ history_lines 1 (t ∷ ts) ++ codes "====================================\n\n")
      (append-nil (codes "\n=== Transaction History for " ++ k ++ codes " ===\n"))
    ∙ ap (history_screen_of k) (history_lines-entries 1 (t ∷ ts))

printed_account-found :
    (l : AccountLedger) (id : Text) (i : ℕ)
    → find_account l id ≡ some i
    → printed_account l id ≡ some (account_of l id)
unfolding printed_account find_account account_of
printed_account-found [] id i h = absurd (ground arith)
printed_account-found (a ∷ l) id i h = elim (Option-cases (find_account l id)) [
  | inl missing ↦ ground arith
  | inr (j, found) ↦ ground (arith, printed_account-found l id j found)
]

account_history-found :
    (l : AccountLedger) (id : Text) (i : ℕ)
    → find_account l id ≡ some i
    → account_history l id ≡ history_screen id (account_of l id).history
unfolding account_history
account_history-found l id i h = rw (printed_account-found l id i h, account_history) refl

history_node-whole :
    (s r : Text) (x fee n : ℤ)
    → length s ≤ student_id_max
    → length r ≤ student_id_max
    → history_node s r x fee n
      ≡ record { sender = s; recipient = r; amount = x; fee = fee; nonce = n }
unfolding history_node
history_node-whole s r x fee n fs fr = λ i. record {
  sender = take_all student_id_max s fs i;
  recipient = take_all student_id_max r fr i;
  amount = x;
  fee = fee;
  nonce = n;
}

noted_once :
    (s r : Text) (node : TxHistoryNode) (h : List TxHistoryNode)
    → s ≢ r
    → (noted r node s (noted s node s h) ≡ node ∷ h)
      × (noted r node r (noted s node r h) ≡ node ∷ h)
unfolding noted
noted_once s r node h ne = (
  ground (arith, strcmp_eq_self s, strcmp_eq_ne r s (λ q. ne (sym q))),
  ground (arith, strcmp_eq_self r, strcmp_eq_ne s r ne),
)

noted_never :
    (s r k : Text) (node : TxHistoryNode) (h : List TxHistoryNode)
    → k ≢ s
    → k ≢ r
    → noted r node k (noted s node k h) ≡ h
unfolding noted
noted_never s r k node h ns nr =
    ground (arith, strcmp_eq_ne s k (λ q. ns (sym q)), strcmp_eq_ne r k (λ q. nr (sym q)))

account_history-noted :
    (l l' : AccountLedger) (s r : Text) (node : TxHistoryNode)
    → s ≢ r
    → IsNoted l l' s r node
    → (account_history l' s ≡ history_screen s (node ∷ (account_of l s).history))
      × (account_history l' r ≡ history_screen r (node ∷ (account_of l r).history))
      × ((k : Text) → k ≢ s → k ≢ r → (account_of l' k).history ≡ (account_of l k).history)
account_history-noted l l' s r node ne h =
    let (i, hs) = h.sender_there in
    let (j, hr) = h.recipient_there in
    (
      account_history-found l' s i hs
          ∙ ap (history_screen s)
              (h.histories s ∙ (noted_once s r node (account_of l s).history ne).0),
      account_history-found l' r j hr
          ∙ ap (history_screen r)
              (h.histories r ∙ (noted_once s r node (account_of l r).history ne).1),
      λ k ns nr. h.histories k ∙ noted_never s r k node (account_of l k).history ns nr,
    )

in_account_model :
    (e : Env) (ledger : Ledger) (s r : Text) (x n : ℤ)
    → ledger.model ≡ ledger_account
    → ledger_transfer_with_nonce e ledger s r x n
      ≡ with_accounts ledger (account_transfer e ledger.account_ledger s r x n)
unfolding ledger_transfer_with_nonce
in_account_model e ledger s r x n model = ground arith

ledger_print_history-account :
    (ledger : Ledger) (k : Text)
    → ledger.model ≡ ledger_account
    → ledger_print_history ledger k ≡ account_history ledger.account_ledger k
unfolding ledger_print_history
ledger_print_history-account ledger k model = rw (model, ledger_print_history) refl

-- An accepted transfer between two students, with ids of at most 19 characters and memory for the
-- nodes, stands as entry 1 on both history screens, with its sender, recipient, amount, a fee of 1 and its
-- nonce; what stood in the histories follows from entry 2 on, and no other history changes.
pub account_transfer-printed :
    (e : Env) (ledger : Ledger) (s r : Text) (x n : ℤ)
    → HasMemory e
    → ledger.model ≡ ledger_account
    → length s ≤ student_id_max
    → length r ≤ student_id_max
    → s ≢ r
    → (ledger_transfer_with_nonce e ledger s r x n).0 ≡ true
    → let ledger' = (ledger_transfer_with_nonce e ledger s r x n).1 in
      let entry = entry_of 1 s r x (pos 1) n in
      let history = λ (k : Text). (account_of ledger.account_ledger k).history in
      (ledger_print_history ledger' s ≡ history_screen_of s (entry ++ entries_from 2 (history s)))
      × (ledger_print_history ledger' r ≡ history_screen_of r (entry ++ entries_from 2 (history r)))
      × ((k : Text) → k ≢ s → k ≢ r → (account_of ledger'.account_ledger k).history ≡ history k)
account_transfer-printed e ledger s r x n memory model fs fr ne done =
    let l = ledger.account_ledger in
    let same = in_account_model e ledger s r x n model in
    let l' = (account_transfer e l s r x n).1 in
    let node = history_node s r x tx_fee n in
    let accepted = ap (λ p. p.0) (sym same) ∙ done in
    let whole = history_node-whole s r x tx_fee n fs fr in
    let screens = account_history-noted l l' s r _ ne (
      subst (IsNoted l l' s r) whole
        (account_transfer-IsNoted e l s r x n memory fs fr accepted)) in
    rw same (
      ledger_print_history-account (record ledger { account_ledger = l' }) s model
          ∙ screens.0
          ∙ history_screen-first s _ (account_of l s).history,
      ledger_print_history-account (record ledger { account_ledger = l' }) r model
          ∙ screens.1
          ∙ history_screen-first r _ (account_of l r).history,
      screens.2,
    )
