-- ===== src/Mining/Progress.antt =====
-- Mining (mining.c) that gets through: where hashing, signing and saving work and a nonce can be found,
-- every pending block is confirmed.
pub mod Pool
use transaction_models_minin.Common.{
  ℕ, zero, suc, ◌+◌, ◌-◌, ◌≤◌, ◌<◌, ◌≡◌, ◌≢◌, refl, sym, ap, subst, ◌∙◌, inl, inr, Bool, true,
  false, List, [], ◌∷◌, ◌++◌, Option, none, some, arith, leb, ltb, ◌==◌, length, length-append,
  length-take, take, map, append-nil, append_assoc, if◌then◌else◌, Bool-cases, Option-cases, All,
  lt→leb-false, replicate,
}
use transaction_models_minin.Common.Int.{ℤ, pos, ◌≤ℤ◌, FitsInt, add_int, add_int-FitsInt}
use transaction_models_minin.Common.Text.{Text, strncpy, length-strncpy}
use transaction_models_minin.Attendance.{
  Block, Chain, Ledger, PendingPool, min_difficulty, max_difficulty, max_blocks, hash_max,
  signature_len, ulong_mod, genesis_prev_hash,
}
use transaction_models_minin.Env.{Env}
use transaction_models_minin.Crypto.{
  payload_size, serialize_block_for_signature, serialize_block_for_hash, serialize_block_payload,
  store_signature, sign_block, sha256_hex, compute_block_hash,
}
use transaction_models_minin.Crypto.Signature.{sign_block-eq_some}
use transaction_models_minin.Crypto.Fits.{IsSized, serialize_block_payload-fits}
use transaction_models_minin.Blockchain.{
  blockchain_tip, blockchain_save, blockchain_append_mined_block,
}
use transaction_models_minin.Pending.{pending_remove_front, pending_is_empty, pending_count}
use transaction_models_minin.Pending.Queue.{
  IsValid, contents, dequeue, seen, pending_remove_front-IsValid, pending_remove_front-refines,
  length-contents,
}
use transaction_models_minin.Mining.{
  MiningState, with_ledger, mine_block_pow, linked_block, prepare_block_for_mining, append_mined,
  append_found, mine_prepared, mine_taken, mine_front, unchecked_reward, settle_unchecked,
  confirm_unchecked, Outcome, finished, aborted,
}
use transaction_models_minin.Mining.Pool.{
  miners_for, draw_attempts, sum_attempts, distributable, pay_pool, confirm_blocks, mining_pool,
}
use transaction_models_minin.Mining.Work.{
  mine_block_pow-found, hash_at, meets, mine_block_pow_complete,
}

-- What a run needs to confirm every block at difficulty `d`: hashes and signatures are made, the
-- chain file is written, and every sized block has a nonce that reaches the target.
pub record CanMine (e : Env) (d : ℤ) : Type 0 where
  pub low : min_difficulty ≤ℤ d
  pub high : d ≤ℤ max_difficulty
  pub digests : (p : Text) → (h : List ℕ) × (e.sha256 p ≡ some h)
  pub signs : (p : Text) → (s : List ℕ) × (e.sign p ≡ some s) × (length s ≤ signature_len)
  pub saves : (chain : Chain) → e.write_chain chain ≡ true
  pub solvable :
      (b : Block) → IsSized b → (n : ℕ) × (n < ulong_mod) × (meets d (hash_at e b n) ≡ true)

-- A sized block stays sized when it is linked to the tip and signed.
linked_block-IsSized : (tip : Option Block) (b : Block) → IsSized b → IsSized (linked_block tip b)
unfolding linked_block
linked_block-IsSized none b h = record {
  index = omega arith;
  timestamp = h.timestamp;
  student_id = h.student_id;
  full_name = h.full_name;
  course_code = h.course_code;
  status = h.status;
  token_reward = h.token_reward;
  transaction_id = h.transaction_id;
  nonce = omega arith;
  previous_hash = length-strncpy hash_max genesis_prev_hash;
}
linked_block-IsSized (some tip) b h = record {
  index = add_int-FitsInt tip.index (pos 1);
  timestamp = h.timestamp;
  student_id = h.student_id;
  full_name = h.full_name;
  course_code = h.course_code;
  status = h.status;
  token_reward = h.token_reward;
  transaction_id = h.transaction_id;
  nonce = omega arith;
  previous_hash = length-strncpy hash_max tip.hash;
}

-- A sized block under another nonce and signature.
pub renonced-IsSized :
    (b : Block) (n : ℕ) (s : List ℕ)
    → IsSized b
    → n < ulong_mod
    → IsSized (record b { nonce = n; signature = s })
renonced-IsSized b n s h small = record {
  index = h.index;
  timestamp = h.timestamp;
  student_id = h.student_id;
  full_name = h.full_name;
  course_code = h.course_code;
  status = h.status;
  token_reward = h.token_reward;
  transaction_id = h.transaction_id;
  nonce = small;
  previous_hash = h.previous_hash;
}

-- What a block records, without its place in the chain.
abbrev pub attendance : Block → Block
attendance b = record b { index = pos 0; nonce = 0; previous_hash = []; signature = []; hash = [] }

linked_block-attendance :
    (tip : Option Block) (b : Block) → attendance (linked_block tip b) ≡ attendance b
unfolding linked_block
linked_block-attendance none b = refl
linked_block-attendance (some tip) b = refl

-- What the block on the chain is made of.
pub mined-attendance :
    (e : Env) (d : ℤ) (chain : Chain) (b p : Block) (r : Block × ℕ)
    → prepare_block_for_mining e b chain ≡ some p
    → mine_block_pow e p d ≡ some r
    → attendance r.0 ≡ attendance b
unfolding prepare_block_for_mining
mined-attendance e d chain b p (b', tries) prepared found =
    let (s, _, _, signed, _) =
      sign_block-eq_some e (linked_block (blockchain_tip chain) b) p prepared in
    let (n, h, _, _, shape, _) = mine_block_pow-found e p b' d tries found in
    ap attendance shape ∙ ap attendance signed ∙ linked_block-attendance (blockchain_tip chain) b

module _ (e : Env) (d : ℤ) (can : CanMine e d) where
  sign_block-made :
      (b : Block) → IsSized b → (s : List ℕ) × (sign_block e b ≡ some (record b { signature = s }))
  unfolding sign_block serialize_block_for_signature
  sign_block-made b h =
      let payload = serialize_block_payload b false in
      let (s, made, fits) = can.signs payload in
      let room = (serialize_block_payload-fits b false h).1 in
      (store_signature s, ground (arith, made, fits, room))

  hash_at-made : (b : Block) (n : ℕ) → IsSized b → n < ulong_mod → hash_at e b n ≢ none
  unfolding compute_block_hash serialize_block_for_hash sha256_hex
  hash_at-made b n h small gone =
      let b' = record b { nonce = n } in
      let (digest, made) = can.digests (serialize_block_payload b' true) in
      let room =
        (serialize_block_payload-fits b' true (renonced-IsSized b n b.signature h small)).1 in
      ground (arith, made, room)

  mine_block_pow-made : (b : Block) → IsSized b → (r : Block × ℕ) × (mine_block_pow e b d ≡ some r)
  mine_block_pow-made b h =
      let (n, small, hit) = can.solvable b h in
      mine_block_pow_complete e b d n can.low can.high small hit
        (λ k le. hash_at-made b k h (omega arith))

  prepare-made :
      (b : Block) (chain : Chain)
      → IsSized b
      → (p : Block) × (prepare_block_for_mining e b chain ≡ some p) × IsSized p
  unfolding prepare_block_for_mining
  prepare-made b chain h =
      let linked = linked_block (blockchain_tip chain) b in
      let h' = linked_block-IsSized (blockchain_tip chain) b h in
      let (s, made) = sign_block-made linked h' in
      (record linked { signature = s }, made, renonced-IsSized linked linked.nonce s h' h'.nonce)

  save-made : (chain : Chain) (b : Block) → blockchain_save e (chain ++ b ∷ []) ≡ true
  unfolding blockchain_save
  save-made [] b = can.saves _
  save-made (c ∷ chain) b = can.saves _

  append-made :
      (chain : Chain) (b : Block)
      → length chain < max_blocks
      → blockchain_append_mined_block e chain b ≡ (true, chain ++ b ∷ [])
  unfolding blockchain_append_mined_block
  append-made chain b room =
      rw (lt→leb-false max_blocks (length chain) room, save-made chain b) refl

  pub mine_taken-made :
      (st : MiningState) (b : Block)
      → IsSized b
      → length st.chain < max_blocks
      → (r : Block × ℕ) × (mine_taken e st d (some b)
          ≡ (some r, record st { chain = st.chain ++ r.0 ∷ [] }))
        × (attendance r.0 ≡ attendance b)
  unfolding mine_taken mine_prepared append_found append_mined
  mine_taken-made st b h room =
      let (p, prepared, h') = prepare-made b st.chain h in
      let (r, found) = mine_block_pow-made p h' in
      (
        r,
        rw (prepared, found, append-made st.chain r.0 room) refl,
        mined-attendance e d st.chain b p r prepared found,
      )
