-- ===== src/Tests/Chain.antt =====
-- Blocks, the chain and the search for a nonce at concrete inputs.
use transaction_models_minin.Difficulty.{leading_zeros, hash_meets_difficulty}
use transaction_models_minin.Mining.{
  pow_decide, pow_round, pow_loop, pow_result, linked_block, mine_block_pow,
  prepare_block_for_mining,
}
use transaction_models_minin.Common.Int.{add_int, pos}
use transaction_models_minin.Blockchain.{
  blockchain_tip, blockchain_validate, blockchain_tamper_demo, tampered_block,
}
use transaction_models_minin.Crypto.{
  serialize_block_for_signature, compute_block_hash, hex, hex_digit, serialize_block_payload,
  payload_head, payload_tail, sha256_hex, sign_block, serialize_block_for_hash, store_signature,
  signature_length,
}
use transaction_models_minin.Common.{
  ℕ, ◌≡◌, ◌≢◌, ◌<◌, ◌≤◌, refl, sym, subst, ap, ◌∙◌, true, false, List, [], ◌∷◌, ◌++◌, Option, none,
  some, arith, length, get_or,
}
use transaction_models_minin.Common.Text.{Text, codes, decimal_int, decimal, digits, strcmp_eq}
use transaction_models_minin.Attendance.{Block, signature_len}
use transaction_models_minin.Blockchain.Genesis.{blockchain_init-validates}
use transaction_models_minin.Blockchain.Tamper.{NoCollision, blockchain_tamper_demo-detected}
use transaction_models_minin.Crypto.Signature.{signature_length_lem, last_byte}
use transaction_models_minin.Mining.Work.{
  IsMined, hash_at, meets, mine_block_pow-found, mine_block_pow_complete,
}
use transaction_models_minin.Mining.Confirm.{mined_block-validates}
use transaction_models_minin.Tests.World.{
  world, world-SignatureLaws, world-EndsNonzero, genesis, marked, mined, alice, genesis_chain,
}

some-ne-none : {a : Text} → some a ≢ none
some-ne-none h = absurd (cc)

genesis-valid : blockchain_validate world (genesis ∷ []) (pos 1) ≡ true
genesis-valid =
    (blockchain_init-validates world (pos 1) (genesis ∷ []) world-SignatureLaws world-EndsNonzero
      genesis_chain).1

marked-prepared : prepare_block_for_mining world marked (genesis ∷ []) ≡ some marked
unfolding prepare_block_for_mining sign_block serialize_block_for_signature serialize_block_payload
    payload_head decimal_int linked_block blockchain_tip add_int payload_tail store_signature
marked-prepared = refl

marked-mined : mine_block_pow world marked (pos 1) ≡ some (mined, 1)
unfolding mine_block_pow pow_result pow_loop pow_round compute_block_hash serialize_block_for_hash
    serialize_block_payload payload_head decimal_int payload_tail sha256_hex pow_decide
    hash_meets_difficulty leading_zeros hex hex_digit
marked-mined = refl

mined_block-validates_example :
    blockchain_validate world ((genesis ∷ []) ++ mined ∷ []) (pos 1) ≡ true
mined_block-validates_example =
    mined_block-validates world (pos 1) (genesis ∷ []) marked marked mined 1 world-SignatureLaws
      (world-EndsNonzero.ends (serialize_block_for_signature marked)) genesis-valid marked-prepared
      marked-mined

mined_chain-valid : blockchain_validate world (genesis ∷ mined ∷ []) (pos 1) ≡ true
mined_chain-valid =
    mined_block-validates world (pos 1) (genesis ∷ []) marked marked mined 1 world-SignatureLaws
      (world-EndsNonzero.ends (serialize_block_for_signature marked)) genesis-valid marked-prepared
      marked-mined

mine_block_pow-found_example : IsMined world (pos 1) marked mined
mine_block_pow-found_example = mine_block_pow-found world marked mined (pos 1) 1 marked-mined

first_hash : hash_at world marked 0 ≡ some mined.hash
unfolding compute_block_hash serialize_block_for_hash serialize_block_payload payload_head
    decimal_int payload_tail sha256_hex hex hex_digit
first_hash = refl

first_nonce_works : meets (pos 1) (some mined.hash) ≡ true
unfolding hash_meets_difficulty leading_zeros
first_nonce_works = refl

hashes_exist : (k : ℕ) → k ≤ 0 → hash_at world marked k ≢ none
hashes_exist k h z =
    let first : k ≡ 0 = omega arith in
    some-ne-none (sym first_hash ∙ subst (λ n. hash_at world marked n ≡ none) first z)

mine_block_pow_complete_example : (r : Block × ℕ) × (mine_block_pow world marked (pos 1) ≡ some r)
mine_block_pow_complete_example =
    mine_block_pow_complete world marked (pos 1) 0 (omega arith) (omega arith) (omega arith)
      (ap (meets (pos 1)) first_hash ∙ first_nonce_works) hashes_exist

blockchain_init-validates_example :
    (length (genesis ∷ []) ≡ 1) × (blockchain_validate world (genesis ∷ []) (pos 4) ≡ true)
blockchain_init-validates_example =
    blockchain_init-validates world (pos 4) (genesis ∷ []) world-SignatureLaws world-EndsNonzero
      genesis_chain

hash_after : sha256_hex world (serialize_block_for_hash (tampered_block mined)) ≡ some genesis.hash
unfolding sha256_hex hex hex_digit serialize_block_for_hash serialize_block_payload payload_head
    payload_tail decimal_int decimal digits strcmp_eq
hash_after = refl

hash_before : sha256_hex world (serialize_block_for_hash mined) ≡ some mined.hash
unfolding sha256_hex hex hex_digit serialize_block_for_hash serialize_block_payload payload_head
    payload_tail decimal_int decimal digits strcmp_eq
hash_before = refl

abbrev second_of : Option Text → ℕ
second_of none = 0
second_of (some h) = get_or h 1 0

no_collision : NoCollision world mined (tampered_block mined)
no_collision h = absurd (omega (arith, ap second_of (sym hash_before ∙ h ∙ hash_after)))

blockchain_tamper_demo-detected_example :
    blockchain_validate world
      (blockchain_tamper_demo world (genesis ∷ mined ∷ []) (pos 1)).1
      (pos 1)
    ≡ false
blockchain_tamper_demo-detected_example =
    blockchain_tamper_demo-detected world (pos 1) (pos 1) (genesis ∷ mined ∷ []) 0 mined
      mined_chain-valid refl no_collision

marked-signed : sign_block world marked ≡ some marked
unfolding sign_block serialize_block_for_signature serialize_block_payload payload_head decimal_int
    payload_tail store_signature
marked-signed = refl

signature_length_lem_example :
    let s : List ℕ = 7 ∷ 0 ∷ [] in
    (last_byte s ≢ 0 → signature_length (store_signature s) signature_len ≡ length s)
    × (last_byte s ≡ 0 → signature_length (store_signature s) signature_len < length s)
signature_length_lem_example = signature_length_lem (7 ∷ 0 ∷ []) (omega arith) (omega arith)

alice_digest :
    sha256_hex world alice
    ≡ some (codes "0404040404040404040404040404040404040404040404040404040404040404")
unfolding sha256_hex hex hex_digit
alice_digest = refl
