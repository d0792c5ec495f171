-- ===== src/Crypto/Fits.antt =====
-- The payload of a block (crypto.c) against the buffer of 768 bytes.
use transaction_models_minin.Common.{
  suc, ◌^◌, ◌≤◌, ◌<◌, ◌≡◌, Bool, true, false, ◌++◌, arith, leb, lt→leb-false, length, length-append,
}
use transaction_models_minin.Common.Int.{ℤ, pos, negsuc, FitsInt}
use transaction_models_minin.Common.Text.{decimal_int}
use transaction_models_minin.Common.Decimal.{length-decimal, length-decimal_int}
use transaction_models_minin.Attendance.{
  Block, student_id_max, full_name_max, course_code_max, status_max, hash_max, ulong_mod,
}
use transaction_models_minin.Crypto.{
  payload_size, payload_head, payload_tail, serialize_block_payload,
}

-- The values of `time_t`.
abbrev pub FitsLong : ℤ → Type 0
FitsLong (pos n) = n < 2 ^ 63
FitsLong (negsuc n) = n < 2 ^ 63

-- A block whose fields fit their types and arrays.
pub record IsSized (b : Block) : Type 0 where
  pub index : FitsInt b.index
  pub timestamp : FitsLong b.timestamp
  pub student_id : length b.student_id ≤ student_id_max
  pub full_name : length b.full_name ≤ full_name_max
  pub course_code : length b.course_code ≤ course_code_max
  pub status : length b.status ≤ status_max
  pub token_reward : FitsInt b.token_reward
  pub transaction_id : length b.transaction_id ≤ hash_max
  pub nonce : b.nonce < ulong_mod
  pub previous_hash : length b.previous_hash ≤ hash_max

length-decimal_long : (z : ℤ) → FitsLong z → length (decimal_int z) ≤ 20
unfolding decimal_int
length-decimal_long (pos n) h = omega (arith, length-decimal 18 n (omega arith))
length-decimal_long (negsuc n) h = omega (arith, length-decimal 18 (suc n) (omega arith))

payload_head-le : (b : Block) → IsSized b → length (payload_head b) ≤ 113
unfolding payload_head
payload_head-le b h = omega (
  arith,
  length-append {0},
  length-decimal_int b.index h.index,
  length-decimal_long b.timestamp h.timestamp,
  h.student_id,
  h.full_name,
  h.course_code,
)

payload_tail-le : (b : Block) (nonce : Bool) → IsSized b → length (payload_tail b nonce) ≤ 163
unfolding payload_tail
payload_tail-le b false h = omega (
  arith,
  length-append {0},
  length-decimal_int b.token_reward h.token_reward,
  h.transaction_id,
  h.previous_hash,
)
payload_tail-le b true h = omega (
  arith,
  length-append {0},
  length-decimal_int b.token_reward h.token_reward,
  h.transaction_id,
  h.previous_hash,
  length-decimal 19 b.nonce (omega (arith, h.nonce)),
)

-- Where the fields of a block fit their types and arrays, its payload has at most 285 characters, with or
-- without the nonce, and so fits the buffer.
pub serialize_block_payload-fits :
    (b : Block) (nonce : Bool)
    → IsSized b
    → (length (serialize_block_payload b nonce) ≤ 285)
      × (leb payload_size (length (serialize_block_payload b nonce)) ≡ false)
unfolding serialize_block_payload
serialize_block_payload-fits b nonce h =
    let fits : length (payload_head b ++ (b.status ++ payload_tail b nonce)) ≤ 285 =
      omega (arith, length-append {0}, payload_head-le b h, payload_tail-le b nonce h, h.status) in
    (fits, lt→leb-false payload_size _ (omega (arith, fits)))
