-- ===== src/Transactions.antt =====
-- transactions.c: the reward of a status, the text of a transaction and its id.
pub mod Rewards
pub mod Fits
use transaction_models_minin.Common.{
  ℕ, zero, suc, ◌+◌, Bool, true, false, List, [], ◌∷◌, ◌++◌, Option, none, some, leb, if◌then◌else◌,
  length,
}
use transaction_models_minin.Common.Int.{ℤ, pos, sub_int, leb_ℤ}
use transaction_models_minin.Common.Text.{Text, codes, strcmp_eq, strncpy, decimal_int}
use transaction_models_minin.Attendance.{
  Block, TxInput, TxOutput, Transaction, reward_present, reward_late, reward_absent, tx_fee,
  student_id_max,
}
use transaction_models_minin.Env.{Env}
use transaction_models_minin.Crypto.{sha256_hex}

unfoldable pub token_reward_for_status : Text → ℤ
token_reward_for_status status =
    if strcmp_eq status (codes "PRESENT")
    then reward_present
    else if strcmp_eq status (codes "LATE")
    then reward_late
    else reward_absent

-- The buffer of `compute_transaction_id`.
abbrev pub buffer_size : ℕ
buffer_size = 1024

-- One `snprintf` behind what is written; it fails where the text and its NUL do not fit.
unfoldable pub append_text : Text → Text → Option Text
append_text buffer piece =
    if leb buffer_size (length buffer + length piece) then none else some (buffer ++ piece)

infixl 5 ◌>>=◌
abbrev pub ◌>>=◌ : {A B : Type 0} → Option A → (A → Option B) → Option B
none >>= f = none
some a >>= f = f a

unfoldable pub input_text : TxInput → Text
input_text i =
    codes "|in:" ++ (i.utxo_ref ++ (codes ":" ++ (i.owner ++ (codes ":" ++ decimal_int i.amount))))

unfoldable pub output_text : TxOutput → Text
output_text o = codes "|out:" ++ (o.owner ++ (codes ":" ++ decimal_int o.amount))

unfoldable pub write_inputs : List TxInput → Text → Option Text
write_inputs [] buffer = some buffer
write_inputs (i ∷ is) buffer = append_text buffer (input_text i) >>= write_inputs is

unfoldable pub write_outputs : List TxOutput → Text → Option Text
write_outputs [] buffer = some buffer
write_outputs (o ∷ os) buffer = append_text buffer (output_text o) >>= write_outputs os

unfoldable pub header_text : Transaction → Text
header_text tx =
    codes "reward="
    ++ (decimal_int (if tx.is_reward then pos 1 else pos 0)
        ++ (codes "|fee="
            ++ (decimal_int tx.fee
                ++ (codes "|inputs="
                    ++ (decimal_int (pos (length tx.inputs))
                        ++ (codes "|outputs=" ++ decimal_int (pos (length tx.outputs))))))))

unfoldable pub serialize_transaction : Transaction → Option Text
serialize_transaction tx = do
  header ← append_text [] (header_text tx)
  with_inputs ← write_inputs tx.inputs header
  write_outputs tx.outputs with_inputs

unfoldable pub compute_transaction_id : Env → Transaction → Option Text
compute_transaction_id e tx = serialize_transaction tx >>= sha256_hex e

-- `memset(tx, 0, sizeof(*tx))`
abbrev pub zero_transaction : Transaction
zero_transaction = record { tx_id = []; inputs = []; outputs = []; fee = pos 0; is_reward = false }

-- The transaction before its id.
unfoldable pub reward_transaction : Text → ℤ → Transaction
reward_transaction student_id token_reward = record zero_transaction {
  is_reward = true;
  fee = tx_fee;
  outputs =
      record { owner = strncpy student_id_max student_id; amount = sub_int token_reward tx_fee }
      ∷ [];
}

unfoldable pub create_reward_transaction : Env → Block → Option Transaction
create_reward_transaction e b =
    if leb_ℤ b.token_reward (pos 0)
    then some zero_transaction
    else (let tx = reward_transaction b.student_id b.token_reward in
        if leb_ℤ (sub_int b.token_reward tx_fee) (pos 0)
        then none
        else (compute_transaction_id e tx >>= λ id. some (record tx { tx_id = id })))
