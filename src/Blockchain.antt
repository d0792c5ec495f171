-- ===== src/Blockchain.antt =====
-- blockchain.c: the confirmed chain, oldest block first, and its file.
pub mod Easier
pub mod Genesis
pub mod Append
pub mod Tamper
pub mod Print
use transaction_models_minin.Common.{
  ℕ, zero, suc, Bool, true, false, not, ◌||◌, List, [], ◌∷◌, ◌++◌, Option, none, some, leb, ltb,
  ◌==◌, if◌then◌else◌, length, take, get_elem?, set,
}
use transaction_models_minin.Common.Int.{ℤ, pos, negsuc, pos_part, ltb_ℤ}
use transaction_models_minin.Common.Text.{Text, codes, strcmp_eq, strncpy}
use transaction_models_minin.Attendance.{
  Block, Chain, max_blocks, genesis_prev_hash, student_id_max, full_name_max, course_code_max,
  status_max, hash_max,
}
use transaction_models_minin.Env.{Env}
use transaction_models_minin.Crypto.{compute_block_hash, sign_block, verify_block_signature}
use transaction_models_minin.Difficulty.{hash_meets_difficulty}

-- `memset(block, 0, sizeof(*block))`
abbrev pub zero_block : Block
zero_block = record {
  index = pos 0;
  timestamp = pos 0;
  student_id = [];
  full_name = [];
  course_code = [];
  status = [];
  token_reward = pos 0;
  transaction_id = [];
  nonce = 0;
  previous_hash = [];
  signature = [];
  hash = [];
}

unfoldable pub init_block_fields : Env → ℤ → Text → Block
init_block_fields e index previous_hash = record zero_block {
  index = index;
  timestamp = e.now;
  previous_hash = strncpy hash_max previous_hash;
}

unfoldable pub finalize_genesis_block : Env → Block → Option Block
finalize_genesis_block e b = elim (sign_block e b) [
  | none ↦ none
  | some s ↦ elim (compute_block_hash e s) [ none ↦ none | some h ↦ some (record s { hash = h }) ]
]

unfoldable pub create_genesis_block : Env → Option Block
create_genesis_block e =
    finalize_genesis_block e (record (init_block_fields e (pos 0) genesis_prev_hash) {
      student_id = strncpy student_id_max (codes "GENESIS");
      full_name = strncpy full_name_max (codes "Genesis Block");
      course_code = strncpy course_code_max (codes "SYSTEM");
      status = strncpy status_max (codes "PRESENT");
    })

unfoldable pub blockchain_init : Env → Option Chain
blockchain_init e = elim (create_genesis_block e) [ none ↦ none | some b ↦ some (b ∷ []) ]

-- The chain file: a count, and blocks.
abbrev pub ChainFile : Type 0
ChainFile = ℕ × List Block

abbrev pub saved_file : Chain → ChainFile
saved_file chain = (length chain, chain)

unfoldable pub blockchain_load : Option ChainFile → Option Chain
blockchain_load none = none
blockchain_load (some (count, blocks)) =
    if count == 0 || ltb max_blocks count
    then none
    else if ltb (length blocks) count
    then none
    else some (take count blocks)

-- What is written, if the writing works.
unfoldable pub blockchain_save : Env → Chain → Bool
blockchain_save e [] = false
blockchain_save e (b ∷ chain) = e.write_chain (b ∷ chain)

unfoldable pub blockchain_tip : Chain → Option Block
blockchain_tip [] = none
blockchain_tip (b ∷ []) = some b
blockchain_tip (b ∷ c ∷ chain) = blockchain_tip (c ∷ chain)

-- Where the chain cannot be saved the block is taken off again.
unfoldable pub blockchain_append_mined_block : Env → Chain → Block → Bool × Chain
blockchain_append_mined_block e chain b =
    if leb max_blocks (length chain)
    then (false, chain)
    else if blockchain_save e (chain ++ b ∷ [])
    then (true, chain ++ b ∷ [])
    else (false, chain)

-- The tests of `blockchain_validate` on one block; the genesis block has no previous one.
unfoldable pub is_linked : Option Block → Block → Bool
is_linked none b = strcmp_eq b.previous_hash genesis_prev_hash
is_linked (some previous) b = strcmp_eq b.previous_hash previous.hash

unfoldable pub meets_difficulty : ℤ → Option Block → Block → Bool
meets_difficulty difficulty none b = true
meets_difficulty difficulty (some previous) b = hash_meets_difficulty b.hash difficulty

unfoldable pub validate_block : Env → ℤ → Option Block → Block → Bool
validate_block e difficulty previous b = elim (compute_block_hash e b) [
  | none ↦ false
  | some expected_hash ↦
      if not (strcmp_eq expected_hash b.hash)
      then false
      else if not (meets_difficulty difficulty previous b)
      then false
      else if not (is_linked previous b)
      then false
      else verify_block_signature e b
]

-- The loop of `blockchain_validate`, which hands on the block before.
unfoldable pub validate_from : Env → ℤ → Option Block → Chain → Bool
validate_from e difficulty previous [] = true
validate_from e difficulty previous (b ∷ chain) =
    let rest = validate_from e difficulty (some b) chain in
    if validate_block e difficulty previous b then rest else false

unfoldable pub blockchain_validate : Env → Chain → ℤ → Bool
blockchain_validate e [] difficulty = false
blockchain_validate e (b ∷ chain) difficulty = validate_from e difficulty none (b ∷ chain)

abbrev pub tampered_block : Block → Block
tampered_block b =
    if strcmp_eq b.status (codes "ABSENT")
    then record b { status = strncpy status_max (codes "PRESENT") }
    else record b { status = strncpy status_max (codes "ABSENT") }

-- A tampered chain stays in memory also where it cannot be saved.
unfoldable pub blockchain_tamper_demo : Env → Chain → ℤ → Bool × Chain
blockchain_tamper_demo e chain (negsuc n) = (false, chain)
blockchain_tamper_demo e chain (pos zero) = (false, chain)
blockchain_tamper_demo e chain (pos (suc i)) = elim (get_elem? chain (suc i)) [
  | none ↦ (false, chain)
  | some b ↦ let chain' = set chain (suc i) (tampered_block b) in (blockchain_save e chain', chain')
]
