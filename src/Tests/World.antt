-- ===== src/Tests/World.antt =====
-- A concrete world for the tests: the digest of a text is its length modulo 16 in every byte.
use transaction_models_minin.Crypto.{
  hex_digit, hex, store_signature, sha256_hex, serialize_block_for_hash, compute_block_hash,
  payload_tail, payload_head, serialize_block_payload, serialize_block_for_signature, sign_block,
}
use transaction_models_minin.Blockchain.{
  init_block_fields, finalize_genesis_block, create_genesis_block, blockchain_init, zero_block,
}
use transaction_models_minin.Common.Text.{decimal_int, Text, codes}
use transaction_models_minin.Common.{
  ℕ, ◌%◌, ◌≡◌, refl, sym, subst, zero, suc, ◌≢◌, true, List, [], ◌∷◌, some, arith, length,
  replicate, All, ◌<◌,
}
use transaction_models_minin.Common.Int.{pos}
use transaction_models_minin.Attendance.{
  Block, StudentRegistry, Transaction, PendingPool, genesis_prev_hash,
}
use transaction_models_minin.Env.{Env, DigestLaws, SignatureLaws}
use transaction_models_minin.Crypto.Signature.{EndsNonzero, last_byte}
use transaction_models_minin.Pending.Queue.{IsValid}

abbrev pub world : Env
world = record {
  sha256 = λ p. some (replicate 32 (length p % 16));
  sign = λ p. some (1 ∷ []);
  verify = λ s p. true;
  write_chain = λ c. true;
  now = pos 0;
  rand = λ i. i;
  calloc = λ a. true;
  local_time = decimal_int;
}

repeated-All : (n b : ℕ) → b < 256 → All (λ c. c < 256) (replicate n b)
repeated-All zero b h = tt
repeated-All (suc n) b h = (h, repeated-All n b h)

digest_of : (p : Text) (d : List ℕ) → world.sha256 p ≡ some d → replicate 32 (length p % 16) ≡ d
digest_of p d h = cc

pub world-DigestLaws : DigestLaws world
world-DigestLaws = record {
  digest_length = λ p d h. subst (λ x. length x ≡ 32) (digest_of p d h) refl;
  digest_bytes = λ p d h.
      subst (All (λ b. b < 256)) (digest_of p d h) (repeated-All 32 (length p % 16) (omega arith));
}

pub world-SignatureLaws : SignatureLaws world
world-SignatureLaws = record { signed_verifies = λ p s h. refl }

signature_of : (p : Text) (s : List ℕ) → world.sign p ≡ some s → 1 ∷ [] ≡ s
signature_of p s h = cc

ends_with : {s : List ℕ} → s ≡ 1 ∷ [] → (0 < length s) × (last_byte s ≢ 0)
ends_with {s} h = rw h (omega arith, λ z. absurd (omega arith))

pub world-EndsNonzero : EndsNonzero world
world-EndsNonzero = record { ends = λ p s h. ends_with (sym (signature_of p s h)) }

abbrev pub alice : Text
alice = codes "S001"

abbrev pub bob : Text
bob = codes "S002"

-- The genesis block of this world.
abbrev pub genesis : Block
genesis = record zero_block {
  student_id = codes "GENESIS";
  full_name = codes "Genesis Block";
  course_code = codes "SYSTEM";
  status = codes "PRESENT";
  previous_hash = genesis_prev_hash;
  signature = 1 ∷ replicate 71 0;
  hash = codes "0e0e0e0e0e0e0e0e0e0e0e0e0e0e0e0e0e0e0e0e0e0e0e0e0e0e0e0e0e0e0e0e";
}

pub genesis_chain : blockchain_init world ≡ some (genesis ∷ [])
unfolding blockchain_init create_genesis_block finalize_genesis_block sign_block
    serialize_block_for_signature serialize_block_payload payload_head decimal_int init_block_fields
    payload_tail compute_block_hash serialize_block_for_hash sha256_hex store_signature hex
    hex_digit
genesis_chain = refl

abbrev pub registry : StudentRegistry
registry = record { student_id = alice; full_name = codes "Ada"; course_code = codes "CS1" } ∷ []

-- Alice's attendance as it is marked on the genesis block, which is also how it is prepared.
abbrev pub marked : Block
marked = record {
  index = pos 1;
  timestamp = pos 0;
  student_id = alice;
  full_name = codes "Ada";
  course_code = codes "CS1";
  status = codes "PRESENT";
  token_reward = pos 10;
  transaction_id = codes "0c0c0c0c0c0c0c0c0c0c0c0c0c0c0c0c0c0c0c0c0c0c0c0c0c0c0c0c0c0c0c0c";
  nonce = 0;
  previous_hash = genesis.hash;
  signature = 1 ∷ replicate 71 0;
  hash = genesis_prev_hash;
}

abbrev pub mined : Block
mined = record marked {
  hash = codes "0f0f0f0f0f0f0f0f0f0f0f0f0f0f0f0f0f0f0f0f0f0f0f0f0f0f0f0f0f0f0f0f";
}

abbrev pub full_id : Text
full_id = marked.transaction_id

-- The transaction of the reward in `marked`.
abbrev pub reward : Transaction
reward = record {
  tx_id = full_id;
  inputs = [];
  outputs = record { owner = alice; amount = pos 9 } ∷ [];
  fee = pos 1;
  is_reward = true;
}

abbrev pub one_pending : PendingPool
one_pending = record { blocks = marked ∷ replicate 255 zero_block; count = 1 }

pub one_pending-IsValid : IsValid one_pending
one_pending-IsValid = record { size = refl; room = omega arith }
