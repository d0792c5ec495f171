-- ===== src/Blockchain/Print.antt =====
-- blockchain.c: the screen of the confirmed records.
pub mod Valid
use transaction_models_minin.Common.{
  ◌≡◌, refl, ap, Bool, true, [], ◌∷◌, ◌++◌, Option, none, some, arith, if◌then◌else◌, Bool-cases,
  inl, inr,
}
use transaction_models_minin.Common.Int.{ℤ}
use transaction_models_minin.Common.Text.{Text, codes, decimal, decimal_int}
use transaction_models_minin.Attendance.{Block, Chain}
use transaction_models_minin.Env.{Env}
use transaction_models_minin.Crypto.{verify_block_signature}
use transaction_models_minin.Blockchain.{validate_block, validate_from, blockchain_validate}

-- A label with its value on a line.
abbrev pub labelled : Text → Text → Text
labelled label value = codes "  " ++ label ++ codes " : " ++ value ++ codes "\n"

unfoldable pub id_or_none : Text → Text
id_or_none [] = codes "(none)"
id_or_none (c ∷ cs) = c ∷ cs

-- The fields that both screens of blocks show.
unfoldable pub block_fields : Env → Block → Text
block_fields e b =
    labelled (codes "Student ID    ") b.student_id
    ++ labelled (codes "Name          ") b.full_name
    ++ labelled (codes "Course        ") b.course_code
    ++ labelled (codes "Status        ") b.status
    ++ labelled (codes "Timestamp     ") (e.local_time b.timestamp)
    ++ labelled (codes "Token Reward  ") (decimal_int b.token_reward)
    ++ labelled (codes "Transaction ID") (id_or_none b.transaction_id)

-- A record with this outcome of the test of its signature.
unfoldable pub record_text : Env → Bool → Block → Text
record_text e signature_ok b =
    codes "\nBlock #"
    ++ decimal_int b.index
    ++ codes "\n"
    ++ block_fields e b
    ++ labelled (codes "Nonce         ") (decimal b.nonce)
    ++ labelled (codes "Hash          ") b.hash
    ++ labelled (codes "Prev Hash     ") b.previous_hash
    ++ labelled (codes "Signature     ") (if signature_ok then codes "VALID" else codes "INVALID")

unfoldable pub record_texts : Env → Chain → Text
record_texts e [] = []
record_texts e (b ∷ chain) = record_text e (verify_block_signature e b) b ++ record_texts e chain

unfoldable pub blockchain_print_records : Env → Chain → Text
blockchain_print_records e [] = codes "No attendance records found.\n"
blockchain_print_records e (b ∷ chain) =
    codes "\n=== Confirmed Attendance Records ===\n"
    ++ record_texts e (b ∷ chain)
    ++ codes "\n====================================\n"
