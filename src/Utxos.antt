-- ===== src/Utxos.antt =====
-- ledger.c, the UTXO model: outputs in the order of their creation, spent ones included.
pub mod Balance
pub mod Refused
pub mod Bounds
use transaction_models_minin.Common.{
  ℕ, zero, suc, ◌+◌, Bool, true, false, not, ◌||◌, ◌&&◌, List, [], ◌∷◌, ◌++◌, Option, none, some,
  leb, if◌then◌else◌, length,
}
use transaction_models_minin.Common.Int.{ℤ, pos, add_int, sub_int, ltb_ℤ, leb_ℤ}
use transaction_models_minin.Common.Text.{Text, codes, strcmp_eq, strncpy, decimal_int}
use transaction_models_minin.Attendance.{
  Utxo, UtxoSet, TxInput, TxOutput, Transaction, max_utxos, max_tx_inputs, student_id_max, hash_max,
  tx_fee,
}
use transaction_models_minin.Env.{Env}
use transaction_models_minin.Transactions.{zero_transaction, compute_transaction_id}

abbrev pub new_utxo : Text → ℤ → Text → ℤ → Utxo
new_utxo tx_id output_index owner amount = record {
  tx_id = strncpy hash_max tx_id;
  output_index = output_index;
  owner = strncpy student_id_max owner;
  amount = amount;
  spent = false;
}

unfoldable pub utxo_add : UtxoSet → Text → ℤ → Text → ℤ → Bool × UtxoSet
utxo_add set tx_id output_index owner amount =
    if leb max_utxos (length set)
    then (false, set)
    else (true, set ++ new_utxo tx_id output_index owner amount ∷ [])

-- The loop of `utxo_balance`, with its running total.
unfoldable pub balance_from : UtxoSet → Text → ℤ → ℤ
balance_from [] owner total = total
balance_from (u ∷ us) owner total =
    balance_from us owner
      (if not u.spent && strcmp_eq u.owner owner then add_int total u.amount else total)

unfoldable pub utxo_balance : UtxoSet → Text → ℤ
utxo_balance set owner = balance_from set owner (pos 0)

-- The outputs of a transaction from number `i` on, added one after the other.
unfoldable pub add_outputs : UtxoSet → Text → ℕ → List TxOutput → Bool × UtxoSet
add_outputs set tx_id i [] = (true, set)
add_outputs set tx_id i (o ∷ os) =
    let (added, set') = utxo_add set tx_id (pos i) o.owner o.amount in
    let rest = add_outputs set' tx_id (i + 1) os in if added then rest else (false, set')

unfoldable pub utxo_apply_reward : UtxoSet → Transaction → Bool × UtxoSet
utxo_apply_reward set tx = add_outputs set tx.tx_id 0 tx.outputs

-- `"%s:%d"` of the transaction and the output number
unfoldable pub utxo_ref : Utxo → Text
utxo_ref u = u.tx_id ++ (b':' ∷ decimal_int u.output_index)

unfoldable pub utxo_mark_spent : UtxoSet → Text → Bool × UtxoSet
utxo_mark_spent [] ref = (false, [])
utxo_mark_spent (u ∷ us) ref =
    let (found, us') = utxo_mark_spent us ref in
    if not u.spent && strcmp_eq (utxo_ref u) ref
    then (true, record u { spent = true } ∷ us)
    else (found, u ∷ us')

-- The inputs that `utxo_transfer` selects, behind those selected before, and their total.
unfoldable pub select_inputs : UtxoSet → Text → ℤ → List TxInput → ℤ → List TxInput × ℤ
select_inputs [] sender needed inputs total = (inputs, total)
select_inputs (u ∷ us) sender needed inputs total =
    let input : TxInput = record {
      utxo_ref = strncpy hash_max (utxo_ref u);
      owner = strncpy student_id_max sender;
      amount = u.amount;
    } in
    let total' = add_int total u.amount in
    let skipped = select_inputs us sender needed inputs total in
    let more = select_inputs us sender needed (inputs ++ input ∷ []) total' in
    if u.spent || not (strcmp_eq u.owner sender)
    then skipped
    else if leb max_tx_inputs (length inputs)
    then (inputs, total)
    else if leb_ℤ needed total'
    then (inputs ++ input ∷ [], total')
    else more

unfoldable pub mark_all_spent : UtxoSet → List TxInput → Bool × UtxoSet
mark_all_spent set [] = (true, set)
mark_all_spent set (i ∷ is) =
    let (marked, set') = utxo_mark_spent set i.utxo_ref in
    let rest = mark_all_spent set' is in if marked then rest else (false, set')

-- The recipient's output, and the change if there is any; two outputs always fit.
unfoldable pub transfer_outputs : Text → Text → ℤ → ℤ → ℤ → List TxOutput
transfer_outputs sender recipient amount needed selected_total =
    record { owner = strncpy student_id_max recipient; amount = amount }
    ∷ (if ltb_ℤ needed selected_total
        then record {
          owner = strncpy student_id_max sender;
          amount = sub_int selected_total needed;
        }
          ∷ []
        else [])

unfoldable pub utxo_transfer : Env → UtxoSet → Text → Text → ℤ → Bool × UtxoSet
utxo_transfer e set sender recipient amount =
    let needed = add_int amount tx_fee in
    let (inputs, selected_total) = select_inputs set sender needed [] (pos 0) in
    if ltb_ℤ selected_total needed
    then (false, set)
    else (let outputs = transfer_outputs sender recipient amount needed selected_total in
        let tx = record zero_transaction { fee = tx_fee; inputs = inputs; outputs = outputs } in
        elim (compute_transaction_id e tx) [
          | none ↦ (false, set)
          | some id ↦
              let (marked, set') = mark_all_spent set inputs in
              let added = add_outputs set' id 0 outputs in if marked then added else (false, set')
        ])
