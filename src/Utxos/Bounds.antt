-- ===== src/Utxos/Bounds.antt =====
-- The UTXO model (ledger.c) stays within its array.
use transaction_models_minin.Common.{
  ℕ, ◌+◌, ◌≤◌, ◌≡◌, refl, inl, inr, List, [], ◌∷◌, arith, length, length-append, Bool-cases,
  Option-cases,
}
use transaction_models_minin.Common.Int.{ℤ, pos, add_int, ltb_ℤ}
use transaction_models_minin.Common.Text.{Text}
use transaction_models_minin.Attendance.{UtxoSet, TxInput, TxOutput, Transaction, max_utxos, tx_fee}
use transaction_models_minin.Env.{Env}
use transaction_models_minin.Transactions.{zero_transaction, compute_transaction_id}
use transaction_models_minin.Utxos.{
  utxo_add, add_outputs, utxo_mark_spent, select_inputs, mark_all_spent, transfer_outputs,
  utxo_transfer, new_utxo,
}

utxo_add-bounded :
    (set : UtxoSet) (id : Text) (i : ℤ) (owner : Text) (amount : ℤ)
    → length set ≤ max_utxos
    → length (utxo_add set id i owner amount).1 ≤ max_utxos
unfolding utxo_add
utxo_add-bounded set id i owner amount h =
    ground (arith, length-append set (new_utxo id i owner amount ∷ []))

pub add_outputs-bounded :
    (set : UtxoSet) (id : Text) (i : ℕ) (os : List TxOutput)
    → length set ≤ max_utxos
    → length (add_outputs set id i os).1 ≤ max_utxos
unfolding add_outputs
add_outputs-bounded set id i [] h = h
add_outputs-bounded set id i (o ∷ os) h =
    let first = utxo_add-bounded set id (pos i) o.owner o.amount h in
    let set' = (utxo_add set id (pos i) o.owner o.amount).1 in
    elim (Bool-cases (utxo_add set id (pos i) o.owner o.amount).0) [
      | inl added ↦ rw added (add_outputs-bounded set' id (i + 1) os first)
      | inr full ↦ rw full first
    ]

length-utxo_mark_spent :
    (set : UtxoSet) (ref : Text) → length (utxo_mark_spent set ref).1 ≡ length set
unfolding utxo_mark_spent
length-utxo_mark_spent [] ref = refl
length-utxo_mark_spent (u ∷ us) ref = ground (arith, length-utxo_mark_spent us ref)

length-mark_all_spent :
    (set : UtxoSet) (is : List TxInput) → length (mark_all_spent set is).1 ≡ length set
unfolding mark_all_spent
length-mark_all_spent set [] = refl
length-mark_all_spent set (i ∷ is) = ground (
  arith,
  length-utxo_mark_spent set i.utxo_ref,
  length-mark_all_spent (utxo_mark_spent set i.utxo_ref).1 is,
)

pub utxo_transfer-bounded :
    (e : Env) (set : UtxoSet) (s r : Text) (x : ℤ)
    → length set ≤ max_utxos
    → length (utxo_transfer e set s r x).1 ≤ max_utxos
unfolding utxo_transfer
utxo_transfer-bounded e set s r x h =
    let needed = add_int x tx_fee in
    let (inputs, total) = select_inputs set s needed [] (pos 0) in
    let outputs = transfer_outputs s r x needed total in
    let tx : Transaction = record zero_transaction {
      fee = tx_fee;
      inputs = inputs;
      outputs = outputs;
    } in
    let (marked, set') = mark_all_spent set inputs in
    let h' : length set' ≤ max_utxos = omega (arith, length-mark_all_spent set inputs) in
    elim (Bool-cases (ltb_ℤ total needed)) [
      | inl short ↦ rw short h
      | inr enough ↦ rw enough (elim (Option-cases (compute_transaction_id e tx)) [
        | inl failed ↦ rw failed h
        | inr (id, made) ↦ rw made (elim (Bool-cases marked) [
          | inl all ↦ rw all (add_outputs-bounded set' id 0 outputs h')
          | inr missing ↦ rw missing h'
        ])
      ])
    ]
