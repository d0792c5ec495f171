-- ===== src/Blockchain/Genesis.antt =====
-- The chain that `blockchain_init` makes and its file.
use transaction_models_minin.Common.{
  ◌≤◌, ◌<◌, ◌≡◌, refl, subst, ◌∙◌, inl, inr, true, [], ◌∷◌, none, some, arith, length, take_all,
  Option-cases,
}
use transaction_models_minin.Common.Int.{ℤ, pos}
use transaction_models_minin.Common.Text.{codes, strncpy, strcmp_eq}
use transaction_models_minin.Attendance.{
  Block, Chain, max_blocks, student_id_max, full_name_max, course_code_max, status_max,
  genesis_prev_hash,
}
use transaction_models_minin.Env.{Env, SignatureLaws}
use transaction_models_minin.Crypto.{compute_block_hash, sign_block}
use transaction_models_minin.Crypto.Payload.{hashed_payload, verify_block_signature-mined}
use transaction_models_minin.Crypto.Signature.{EndsNonzero, sign_block-eq_some, verify-sign_block}
use transaction_models_minin.Blockchain.{
  saved_file, finalize_genesis_block, create_genesis_block, blockchain_init, blockchain_load,
  blockchain_validate, is_linked, meets_difficulty, validate_from, init_block_fields,
}
use transaction_models_minin.Blockchain.Append.{IsGood, IsGood-validate_block}

genesis-IsGood :
    (e : Env) (d : ℤ) (b b' : Block)
    → SignatureLaws e
    → EndsNonzero e
    → is_linked none b ≡ true
    → finalize_genesis_block e b ≡ some b'
    → IsGood e d none b'
unfolding finalize_genesis_block is_linked meets_difficulty
genesis-IsGood e d b b' laws tidy link made = elim (Option-cases (sign_block e b)) [
  | inl failed ↦ absurd (ground arith)
  | inr (s, signed) ↦ elim (Option-cases (compute_block_hash e s)) [
    | inl failed ↦ absurd (ground arith)
    | inr (h, found) ↦
        let shape : record s { hash = h } ≡ b' = ground arith in
        let (_, _, _, shape', _) = sign_block-eq_some e b s signed in
        subst (IsGood e d none) shape (record {
          hashed = hashed_payload e s s.signature h ∙ found;
          worked = refl;
          linked = rw shape' link;
          signed =
              verify_block_signature-mined e s s.nonce h ∙ verify-sign_block e b s laws tidy signed;
        })
  ]
]

-- A new chain is its genesis block, and it is valid at every difficulty, where signatures verify and
-- none ends in a zero byte.
pub blockchain_init-validates :
    (e : Env) (d : ℤ) (chain : Chain)
    → SignatureLaws e
    → EndsNonzero e
    → blockchain_init e ≡ some chain
    → (length chain ≡ 1) × (blockchain_validate e chain d ≡ true)
unfolding blockchain_init create_genesis_block blockchain_validate validate_from is_linked
    init_block_fields strcmp_eq
blockchain_init-validates e d chain laws tidy made = elim (Option-cases (create_genesis_block e)) [
  | inl failed ↦ absurd (ground arith)
  | inr (b, found) ↦
      let shape : b ∷ [] ≡ chain = ground arith in
      subst (λ c. (length c ≡ 1) × (blockchain_validate e c d ≡ true)) shape
        (
          refl,
          rw
              (IsGood-validate_block e d none b (
                genesis-IsGood e d
                  (record (init_block_fields e (pos 0) genesis_prev_hash) {
                    student_id = strncpy student_id_max (codes "GENESIS");
                    full_name = strncpy full_name_max (codes "Genesis Block");
                    course_code = strncpy course_code_max (codes "SYSTEM");
                    status = strncpy status_max (codes "PRESENT");
                  })
                  b laws tidy refl found))
              refl,
        )
]

-- A chain of at least one block that fits the memory is read back from its file as it was written.
pub blockchain_load-saved_file :
    (chain : Chain)
    → 0 < length chain
    → length chain ≤ max_blocks
    → blockchain_load (some (saved_file chain)) ≡ some chain
unfolding blockchain_load
blockchain_load-saved_file chain h k = ground (arith, take_all (length chain) chain)
