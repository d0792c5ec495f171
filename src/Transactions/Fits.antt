-- ===== src/Transactions/Fits.antt =====
-- Transactions with one output and no input against the buffer of `compute_transaction_id`
-- (transactions.c).
use transaction_models_minin.Common.{
  ◌+◌, ◌≤◌, ◌<◌, ◌≡◌, ap, Bool, List, [], ◌∷◌, ◌++◌, some, arith, lt→leb-false, length,
  length-append, if◌then◌else◌,
}
use transaction_models_minin.Common.Int.{ℤ, pos, FitsInt}
use transaction_models_minin.Common.Text.{Text, codes, decimal_int}
use transaction_models_minin.Common.Decimal.{length-decimal_int}
use transaction_models_minin.Attendance.{
  Transaction, TxInput, TxOutput, student_id_max, max_tx_inputs, max_tx_outputs,
}
use transaction_models_minin.Env.{Env}
use transaction_models_minin.Crypto.{sha256_hex}
use transaction_models_minin.Transactions.{
  buffer_size, append_text, output_text, write_inputs, write_outputs, header_text,
  serialize_transaction, compute_transaction_id, ◌>>=◌,
}

-- A header takes at most 73 characters.
length-header_text :
    (tx : Transaction)
    → length tx.inputs ≤ max_tx_inputs
    → length tx.outputs ≤ max_tx_outputs
    → FitsInt tx.fee
    → length (header_text tx) ≤ 73
unfolding header_text
length-header_text tx ins outs fee =
    let flag : ℤ = if tx.is_reward then pos 1 else pos 0 in
    omega (
      arith,
      length-append {0},
      length-decimal_int flag (flag_fits tx.is_reward),
      length-decimal_int tx.fee fee,
      length-decimal_int (pos (length tx.inputs)) (omega arith),
      length-decimal_int (pos (length tx.outputs)) (omega arith),
    )
  where
    flag_fits : (b : Bool) → FitsInt (if b then pos 1 else pos 0)
    flag_fits b = ground arith

length-output_text :
    (o : TxOutput)
    → length o.owner ≤ student_id_max
    → FitsInt o.amount
    → length (output_text o) ≤ 36
unfolding output_text
length-output_text o owner amount = omega (
  arith,
  length-append o.owner (codes ":" ++ decimal_int o.amount),
  length-decimal_int o.amount amount,
)

append_text-fits :
    (buffer piece : Text)
    → length buffer + length piece < buffer_size
    → append_text buffer piece ≡ some (buffer ++ piece)
unfolding append_text
append_text-fits buffer piece h = rw (lt→leb-false buffer_size _ h)

write_single :
    (ins : List TxInput) (outs : List TxOutput) (o : TxOutput) (buffer : Text)
    → ins ≡ []
    → outs ≡ o ∷ []
    → length buffer + length (output_text o) < buffer_size
    → (write_inputs ins buffer >>= λ b. write_outputs outs b) ≡ some (buffer ++ output_text o)
unfolding write_inputs write_outputs
write_single ins outs o buffer no_inputs one room =
    rw (no_inputs, one, append_text-fits buffer (output_text o) room)

-- A transaction without inputs that pays one owner, with an id of at most 19 characters and with
-- representable numbers, fits the buffer and has its text.
pub single_output-serializes :
    (tx : Transaction) (o : TxOutput)
    → tx.inputs ≡ []
    → tx.outputs ≡ o ∷ []
    → FitsInt tx.fee
    → length o.owner ≤ student_id_max
    → FitsInt o.amount
    → serialize_transaction tx ≡ some (header_text tx ++ output_text o)
unfolding serialize_transaction
single_output-serializes tx o no_inputs one fee owner amount =
    let h =
      length-header_text tx (omega (arith, ap length no_inputs)) (omega (arith, ap length one))
        fee in
    let room : length (header_text tx) + length (output_text o) < buffer_size =
      omega (arith, h, length-output_text o owner amount) in
    rw (append_text-fits [] (header_text tx) (omega (arith, h)))
      (write_single tx.inputs tx.outputs o (header_text tx) no_inputs one room)

-- What pays one owner has an id whenever SHA-256 gives a digest of its text.
pub single_output-id :
    (e : Env) (tx : Transaction) (o : TxOutput)
    → tx.inputs ≡ []
    → tx.outputs ≡ o ∷ []
    → FitsInt tx.fee
    → length o.owner ≤ student_id_max
    → FitsInt o.amount
    → compute_transaction_id e tx ≡ sha256_hex e (header_text tx ++ output_text o)
unfolding compute_transaction_id
single_output-id e tx o no_inputs one fee owner amount =
    rw (single_output-serializes tx o no_inputs one fee owner amount)
