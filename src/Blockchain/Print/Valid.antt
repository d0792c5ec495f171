-- ===== src/Blockchain/Print/Valid.antt =====
-- The screen of the confirmed records (blockchain.c) for a chain that validates.
use transaction_models_minin.Common.{
  ◌≡◌, refl, ap, true, [], ◌∷◌, ◌++◌, Option, none, some, arith, Bool-cases, inl, inr,
}
use transaction_models_minin.Common.Int.{ℤ}
use transaction_models_minin.Common.Text.{Text, codes, decimal, decimal_int}
use transaction_models_minin.Attendance.{Block, Chain}
use transaction_models_minin.Env.{Env}
use transaction_models_minin.Crypto.{verify_block_signature}
use transaction_models_minin.Blockchain.{validate_block, validate_from, blockchain_validate}
use transaction_models_minin.Blockchain.Print.{
  id_or_none, block_fields, record_text, record_texts, blockchain_print_records,
}

-- The text of a block that is shown with a valid signature.
abbrev pub valid_record : Env → Block → Text
valid_record e b =
    codes "\nBlock #"
    ++ decimal_int b.index
    ++ codes "\n"
    ++ ((codes "  Student ID     : " ++ b.student_id ++ codes "\n")
        ++ (codes "  Name           : " ++ b.full_name ++ codes "\n")
        ++ (codes "  Course         : " ++ b.course_code ++ codes "\n")
        ++ (codes "  Status         : " ++ b.status ++ codes "\n")
        ++ (codes "  Timestamp      : " ++ e.local_time b.timestamp ++ codes "\n")
        ++ (codes "  Token Reward   : " ++ decimal_int b.token_reward ++ codes "\n")
        ++ (codes "  Transaction ID : " ++ id_or_none b.transaction_id ++ codes "\n"))
    ++ (codes "  Nonce          : " ++ decimal b.nonce ++ codes "\n")
    ++ (codes "  Hash           : " ++ b.hash ++ codes "\n")
    ++ (codes "  Prev Hash      : " ++ b.previous_hash ++ codes "\n")
    ++ codes "  Signature      : VALID\n"

-- Every block of the chain, oldest first.
unfoldable pub valid_records : Env → Chain → Text
valid_records e [] = []
valid_records e (b ∷ chain) = valid_record e b ++ valid_records e chain

record_text-valid : (e : Env) (b : Block) → record_text e true b ≡ valid_record e b
unfolding record_text block_fields
record_text-valid e b = refl

validate_block-signature :
    (e : Env) (d : ℤ) (previous : Option Block) (b : Block)
    → validate_block e d previous b ≡ true
    → verify_block_signature e b ≡ true
unfolding validate_block
validate_block-signature e d previous b v = ground arith

record_texts-valid :
    (e : Env) (d : ℤ) (previous : Option Block) (chain : Chain)
    → validate_from e d previous chain ≡ true
    → record_texts e chain ≡ valid_records e chain
unfolding record_texts valid_records validate_from
record_texts-valid e d previous [] v = refl
record_texts-valid e d previous (b ∷ chain) v = elim (Bool-cases (validate_block e d previous b)) [
  | inr bad ↦ absurd (ground arith)
  | inl good ↦
      rw
        (
          validate_block-signature e d previous b good,
          record_texts-valid e d (some b) chain (ground arith),
          record_text-valid e b,
        )
        refl
]

-- The screen of a chain that validates, at any difficulty, shows every block of the chain, oldest
-- first, each with a valid signature.
pub blockchain_print_records-valid :
    (e : Env) (chain : Chain) (d : ℤ)
    → blockchain_validate e chain d ≡ true
    → blockchain_print_records e chain
      ≡ codes "\n=== Confirmed Attendance Records ===\n"
        ++ valid_records e chain
        ++ codes "\n====================================\n"
unfolding blockchain_validate blockchain_print_records
blockchain_print_records-valid e [] d v = absurd (cc)
blockchain_print_records-valid e (b ∷ chain) d v =
    ap
      (λ t.
        codes "\n=== Confirmed Attendance Records ===\n"
        ++ t
        ++ codes "\n====================================\n")
      (record_texts-valid e d none (b ∷ chain) v)
