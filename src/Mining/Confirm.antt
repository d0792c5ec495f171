-- ===== src/Mining/Confirm.antt =====
-- Mined blocks (mining.c) against `blockchain_validate`.
use transaction_models_minin.Common.{
  ℕ, ◌+◌, ◌-◌, ◌≤◌, ◌<◌, ◌≡◌, refl, ap, ◌∙◌, ◌⊎◌, inl, inr, Bool, true, false, [], ◌∷◌, ◌++◌,
  Option, none, some, arith, leb, length, length-append, take_all, Bool-cases, Option-cases,
}
use transaction_models_minin.Common.Int.{ℤ}
use transaction_models_minin.Common.Text.{strcmp_eq_self}
use transaction_models_minin.Attendance.{Block, Chain, PendingPool, max_blocks}
use transaction_models_minin.Env.{Env, SignatureLaws}
use transaction_models_minin.Crypto.{sign_block, serialize_block_for_signature, store_signature}
use transaction_models_minin.Crypto.Payload.{
  signed_payload, hashed_payload, verify_block_signature-mined,
}
use transaction_models_minin.Crypto.Signature.{
  EndsNonzero, IsMeasured, verify-sign_block_measured, sign_block-eq_some,
}
use transaction_models_minin.Blockchain.{
  blockchain_tip, is_linked, meets_difficulty, blockchain_save, blockchain_validate,
  blockchain_append_mined_block,
}
use transaction_models_minin.Blockchain.Append.{
  IsGood, IsGood-validate_block, blockchain_validate-append, tip_hash-le, valid_has_tip,
}
use transaction_models_minin.Pending.{pending_remove_front}
use transaction_models_minin.Mining.{
  mine_block_pow, linked_block, prepare_block_for_mining, MiningState, append_mined, append_found,
  mine_prepared, mine_taken, mine_front,
}
use transaction_models_minin.Mining.Work.{IsMined, mine_block_pow-found}

-- The link of a prepared block is the hash of the tip, whole.
linked_block-is_linked :
    (t b : Block) → length t.hash ≤ 64 → is_linked (some t) (linked_block (some t) b) ≡ true
unfolding linked_block is_linked
linked_block-is_linked t b fits = rw (take_all 64 t.hash fits) (strcmp_eq_self t.hash)

-- Signing leaves the signed payload alone.
sign_block-payload :
    (e : Env) (b b' : Block)
    → sign_block e b ≡ some b'
    → serialize_block_for_signature b' ≡ serialize_block_for_signature b
sign_block-payload e b b' made =
    let (s, _, _, shape, _) = sign_block-eq_some e b b' made in
    rw shape (signed_payload b b.nonce (store_signature s) b.hash)

-- Proof of work on a signed block that is linked to `t` makes a block that passes every test.
mined_block-IsGood :
    (e : Env) (d : ℤ) (t linked signed b : Block)
    → SignatureLaws e
    → IsMeasured e (serialize_block_for_signature linked)
    → sign_block e linked ≡ some signed
    → is_linked (some t) linked ≡ true
    → IsMined e d signed b
    → IsGood e d (some t) b
unfolding is_linked meets_difficulty
mined_block-IsGood e d t linked signed b laws measured made link
      (n, h, small, found, shape, first) =
    let (s, done, fits, shape', room) = sign_block-eq_some e linked signed made in
    rw shape (record {
      hashed = hashed_payload e (record signed { nonce = n }) signed.signature h ∙ found;
      worked = rw found at first.target;
      linked = rw shape' link;
      signed =
          verify_block_signature-mined e signed n h
          ∙ verify-sign_block_measured e linked signed laws measured made;
    })

-- Whatever valid chain a block is prepared for, once it is mined the chain with it is valid at the
-- difficulty that it was mined at, where signatures verify and that of the prepared block is neither empty
-- nor ends in a zero byte.
pub mined_block-validates :
    (e : Env) (d : ℤ) (chain : Chain) (front prepared b : Block) (tries : ℕ)
    → SignatureLaws e
    → IsMeasured e (serialize_block_for_signature prepared)
    → blockchain_validate e chain d ≡ true
    → prepare_block_for_mining e front chain ≡ some prepared
    → mine_block_pow e prepared d ≡ some (b, tries)
    → blockchain_validate e (chain ++ b ∷ []) d ≡ true
unfolding prepare_block_for_mining
mined_block-validates e d chain front prepared b tries laws measured valid made found =
    elim (Option-cases (blockchain_tip chain)) [
      | inl empty ↦ absurd (valid_has_tip e d chain valid empty)
      | inr (t, at_end) ↦ blockchain_validate-append e d chain b valid (
          rw at_end (
            IsGood-validate_block e d (some t) b (
              mined_block-IsGood e d t (linked_block (some t) front) prepared b laws
                (λ s h. measured s (
                  ap e.sign (
                    sign_block-payload e (linked_block (some t) front) prepared (rw at_end at made))
                  ∙ h))
                (rw at_end at made)
                (linked_block-is_linked t front (tip_hash-le e d chain t valid at_end))
                (mine_block_pow-found e prepared b d tries found))))
    ]

-- What the shared steps do to a state, whether they found a block or not.
pub record Advances (e : Env) (d : ℤ) (st : MiningState) (ok : Bool) (st' : MiningState)
    : Type 0 where
  pub popped : st'.pool.count ≡ st.pool.count - 1
  pub kept : blockchain_validate e st.chain d ≡ true → blockchain_validate e st'.chain d ≡ true
  pub grown : ok ≡ true → (0 < st.pool.count) × (length st'.chain ≡ length st.chain + 1)

abbrev pub is_some : {A : Type 0} → Option A → Bool
is_some none = false
is_some (some a) = true

pub count-pending_remove_front :
    (pool : PendingPool)
    → ((pending_remove_front pool).1.count ≡ pool.count - 1)
      × (is_some (pending_remove_front pool).0 ≡ true → 0 < pool.count)
unfolding pending_remove_front
count-pending_remove_front pool = (ground arith, ground arith)

pub append-cases :
    (e : Env) (chain : Chain) (b : Block)
    → (blockchain_append_mined_block e chain b ≡ (true, chain ++ b ∷ []))
      ⊎ (blockchain_append_mined_block e chain b ≡ (false, chain))
unfolding blockchain_append_mined_block
append-cases e chain b = elim (Bool-cases (leb max_blocks (length chain))) [
  | inl full ↦ inr (rw full)
  | inr room ↦ elim (Bool-cases (blockchain_save e (chain ++ b ∷ []))) [
    | inl saved ↦ inl (rw (room, saved))
    | inr lost ↦ inr (rw (room, lost))
  ]
]

-- The state behind the removal of the front block.
abbrev pub popped_state : MiningState → MiningState
popped_state st = record st { pool = (pending_remove_front st.pool).1 }

append_mined-Advances :
    (e : Env) (d : ℤ) (st : MiningState) (b : Block) (tries : ℕ)
    → 0 < st.pool.count
    → (blockchain_validate e st.chain d ≡ true
        → blockchain_validate e (st.chain ++ b ∷ []) d ≡ true)
    → let (r, st') = append_mined e (popped_state st) (b, tries) in Advances e d st (is_some r) st'
unfolding append_mined
append_mined-Advances e d st b tries some_block extends = elim (append-cases e st.chain b) [
  | inl saved ↦ rw saved (record {
    popped = (count-pending_remove_front st.pool).0;
    kept = extends;
    grown = λ _. (some_block, length-append st.chain (b ∷ []));
  })
  | inr lost ↦ rw lost (record {
    popped = (count-pending_remove_front st.pool).0;
    kept = λ v. v;
    grown = λ h. absurd (cc);
  })
]

stays-Advances : (e : Env) (d : ℤ) (st : MiningState) → Advances e d st false (popped_state st)
stays-Advances e d st = record {
  popped = (count-pending_remove_front st.pool).0;
  kept = λ v. v;
  grown = λ h. absurd (cc);
}

module _ (e : Env) (d : ℤ) (laws : SignatureLaws e) (tidy : EndsNonzero e) where
  append_found-Advances :
      (st : MiningState) (b prepared : Block) (r : Option (Block × ℕ))
      → 0 < st.pool.count
      → prepare_block_for_mining e b st.chain ≡ some prepared
      → mine_block_pow e prepared d ≡ r
      → let (o, st') = append_found e (popped_state st) r in Advances e d st (is_some o) st'
  unfolding append_found
  append_found-Advances st b prepared none some_block made found = stays-Advances e d st
  append_found-Advances st b prepared (some (b', tries)) some_block made found =
      append_mined-Advances e d st b' tries some_block (λ valid.
        mined_block-validates e d st.chain b prepared b' tries laws (tidy.ends _) valid made found)

  mine_prepared-Advances :
      (st : MiningState) (b : Block) (p : Option Block)
      → 0 < st.pool.count
      → prepare_block_for_mining e b st.chain ≡ p
      → let (o, st') = mine_prepared e (popped_state st) d p in Advances e d st (is_some o) st'
  unfolding mine_prepared
  mine_prepared-Advances st b none some_block made = stays-Advances e d st
  mine_prepared-Advances st b (some prepared) some_block made =
      append_found-Advances st b prepared _ some_block made refl

  mine_taken-Advances :
      (st : MiningState) (front : Option Block)
      → (pending_remove_front st.pool).0 ≡ front
      → let (o, st') = mine_taken e (popped_state st) d front in Advances e d st (is_some o) st'
  unfolding mine_taken
  mine_taken-Advances st none taken = stays-Advances e d st
  mine_taken-Advances st (some b) taken =
      mine_prepared-Advances st b _ ((count-pending_remove_front st.pool).1 (rw taken refl)) refl

  -- The shared steps take one block from the pool, if there is one, whether they succeed or not.
  -- They keep a valid chain valid, and where they succeed it has grown by one block.
  pub mine_front-Advances :
      (st : MiningState) → let (r, st') = mine_front e st d in Advances e d st (is_some r) st'
  unfolding mine_front
  mine_front-Advances st = mine_taken-Advances st _ refl
