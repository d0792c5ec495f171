-- ===== src/Crypto/Payload.antt =====
-- What the payloads leave out.
use transaction_models_minin.Common.{ℕ, ◌≡◌, refl, List}
use transaction_models_minin.Common.Text.{Text}
use transaction_models_minin.Attendance.{Block}
use transaction_models_minin.Env.{Env}
use transaction_models_minin.Crypto.{
  payload_head, payload_tail, serialize_block_payload, serialize_block_for_hash,
  serialize_block_for_signature, compute_block_hash, verify_block_signature,
}

-- The signed payload has no nonce, signature or hash in it.
pub signed_payload :
    (b : Block) (n : ℕ) (s : List ℕ) (h : Text)
    → serialize_block_for_signature (record b { nonce = n; signature = s; hash = h })
      ≡ serialize_block_for_signature b
unfolding serialize_block_for_signature serialize_block_payload payload_head payload_tail
signed_payload b n s h = refl

-- The hash does not depend on the signature or on the stored hash.
pub hashed_payload :
    (e : Env) (b : Block) (s : List ℕ) (h : Text)
    → compute_block_hash e (record b { signature = s; hash = h }) ≡ compute_block_hash e b
unfolding compute_block_hash serialize_block_for_hash serialize_block_payload payload_head
    payload_tail
hashed_payload e b s h = refl

-- A signature is checked without the nonce and the stored hash.
pub verify_block_signature-mined :
    (e : Env) (b : Block) (n : ℕ) (h : Text)
    → verify_block_signature e (record b { nonce = n; hash = h }) ≡ verify_block_signature e b
unfolding verify_block_signature serialize_block_for_signature serialize_block_payload payload_head
    payload_tail
verify_block_signature-mined e b n h = refl
