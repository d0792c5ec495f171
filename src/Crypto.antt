-- ===== src/Crypto.antt =====
-- crypto.c: the payload of a block, its hash, its signature. The buffers of 768 bytes are kept as
-- bounds on the payload.
pub mod Payload
pub mod Hex
pub mod Signature
pub mod Keys
pub mod Fits
use transaction_models_minin.Common.{
  ℕ, zero, suc, ◌+◌, ◌-◌, ◌/◌, ◌%◌, Bool, true, false, List, [], ◌∷◌, ◌++◌, Option, none, some, leb,
  ltb, ◌==◌, if◌then◌else◌, length, get_or, take, replicate,
}
use transaction_models_minin.Common.Text.{Text, codes, decimal, decimal_int}
use transaction_models_minin.Attendance.{Block, signature_len}
use transaction_models_minin.Env.{Env}

abbrev pub payload_size : ℕ
payload_size = 768

abbrev pub bar : Text → Text
bar rest = b'|' ∷ rest

-- The payload's fields up to the status, and those behind it.
unfoldable pub payload_head : Block → Text
payload_head b =
    decimal_int b.index
    ++ bar (
        decimal_int b.timestamp
        ++ bar (b.student_id ++ bar (b.full_name ++ bar (b.course_code ++ bar []))))

unfoldable pub payload_tail : Block → Bool → Text
payload_tail b include_nonce = bar (
    decimal_int b.token_reward
    ++ bar (
        b.transaction_id
        ++ bar (b.previous_hash ++ (if include_nonce then bar (decimal b.nonce) else []))))

unfoldable pub serialize_block_payload : Block → Bool → Text
serialize_block_payload b include_nonce =
    payload_head b ++ (b.status ++ payload_tail b include_nonce)

unfoldable pub serialize_block_for_hash : Block → Text
serialize_block_for_hash b = serialize_block_payload b true

unfoldable pub serialize_block_for_signature : Block → Text
serialize_block_for_signature b = serialize_block_payload b false

unfoldable pub hex_digit : ℕ → ℕ
hex_digit n = if ltb n 10 then b'0' + n else b'a' + (n - 10)

-- `%02x` of each byte
unfoldable pub hex : List ℕ → Text
hex [] = []
hex (b ∷ bs) = hex_digit (b / 16) ∷ hex_digit (b % 16) ∷ hex bs

-- The buffer ends behind the first 64 characters.
unfoldable pub sha256_hex : Env → Text → Option Text
sha256_hex e payload = elim (e.sha256 payload) [ none ↦ none | some d ↦ some (take 64 (hex d)) ]

unfoldable pub compute_block_hash : Env → Block → Option Text
compute_block_hash e b =
    let payload = serialize_block_for_hash b in
    if leb payload_size (length payload) then none else sha256_hex e payload

-- The signature, filled up with zero bytes.
unfoldable pub store_signature : List ℕ → List ℕ
store_signature s = s ++ replicate (signature_len - length s) 0

-- The signed block. Every caller drops a block that could not be signed.
unfoldable pub sign_block : Env → Block → Option Block
sign_block e b =
    let payload = serialize_block_for_signature b in
    if leb payload_size (length payload) then none else elim (e.sign payload) [
      | none ↦ none
      | some s ↦
          if ltb signature_len (length s)
          then none
          else some (record b { signature = store_signature s })
    ]

-- The loop of `signature_length` from index `i` down.
unfoldable pub trim_from : List ℕ → ℕ → ℕ
trim_from s zero = 0
trim_from s (suc i) = let rest = trim_from s i in if get_or s i 0 == 0 then rest else suc i

unfoldable pub signature_length : List ℕ → ℕ → ℕ
signature_length s max_len = trim_from s max_len

unfoldable pub verify_block_signature : Env → Block → Bool
verify_block_signature e b =
    let sig_len = signature_length b.signature signature_len in
    let payload = serialize_block_for_signature b in
    if sig_len == 0
    then false
    else if leb payload_size (length payload)
    then false
    else e.verify (take sig_len b.signature) payload
