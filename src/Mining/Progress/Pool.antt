-- ===== src/Mining/Progress/Pool.antt =====
-- `mining_pool` (mining.c) where nothing fails.
use transaction_models_minin.Common.{
  ℕ, zero, suc, ◌+◌, ◌≤◌, ◌<◌, ◌≡◌, refl, sym, ap, subst, ◌∙◌, true, false, List, [], ◌∷◌, ◌++◌,
  some, arith, ◌==◌, length, length-append, map, append-nil, append_assoc, All,
}
use transaction_models_minin.Common.Int.{ℤ}
use transaction_models_minin.Attendance.{Block, Ledger, PendingPool, max_blocks}
use transaction_models_minin.Env.{Env}
use transaction_models_minin.Crypto.Fits.{IsSized}
use transaction_models_minin.Pending.{pending_remove_front, pending_is_empty, pending_count}
use transaction_models_minin.Pending.Queue.{
  IsValid, contents, dequeue, seen, pending_remove_front-IsValid, pending_remove_front-refines,
  length-contents,
}
use transaction_models_minin.Mining.{
  MiningState, with_ledger, mine_front, unchecked_reward, settle_unchecked, confirm_unchecked,
  finished,
}
use transaction_models_minin.Mining.Pool.{
  miners_for, draw_attempts, sum_attempts, distributable, pay_pool, confirm_blocks, mining_pool,
}
use transaction_models_minin.Mining.Progress.{CanMine, attendance, mine_taken-made}

-- The front of a queue that is not empty, and the pool without it.
pub record Front (pool : PendingPool) : Type 0 where
  pub b : Block
  pub queue : List Block
  pub front : contents pool ≡ b ∷ queue
  pub taken : (pending_remove_front pool).0 ≡ some b
  pub rest : contents (pending_remove_front pool).1 ≡ queue

contents-Front :
    (pool : PendingPool) (q : List Block)
    → contents pool ≡ q
    → seen (pending_remove_front pool) ≡ dequeue q
    → 0 < length q
    → Front pool
unfolding dequeue
contents-Front pool [] same removed h = absurd (omega arith)
contents-Front pool (b ∷ queue) same removed h = record {
  b = b;
  queue = queue;
  front = same;
  taken = ap (λ r. r.0) removed;
  rest = ap (λ r. r.1) removed;
}

pub pool-Front : (pool : PendingPool) → IsValid pool → 0 < pool.count → Front pool
pool-Front pool v h =
    contents-Front pool (contents pool) refl (pending_remove_front-refines pool v)
      (omega (arith, length-contents pool v))

pub length-zero : (bs : List Block) → length bs ≡ 0 → bs ≡ []
length-zero [] h = refl
length-zero (b ∷ bs) h = absurd (omega arith)

-- The state from which every block can be confirmed.
pub record IsReady (st : MiningState) : Type 0 where
  pub pool : IsValid st.pool
  pub sized : All IsSized (contents st.pool)
  pub room : length st.chain + st.pool.count ≤ max_blocks

-- One block confirmed: the front of the queue, at the end of the chain.
record Confirmed (st st' : MiningState) : Type 0 where
  ready : IsReady st'
  b : Block
  b' : Block
  queue : List Block
  front : contents st.pool ≡ b ∷ queue
  rest : contents st'.pool ≡ queue
  chain : st'.chain ≡ st.chain ++ b' ∷ []
  same : attendance b' ≡ attendance b
  counted : suc st'.pool.count ≡ st.pool.count

-- Blocks that were confirmed: they stand behind the old chain, in the order of the queue, and each
-- records what the pending block recorded.
abbrev pub AllConfirmed : MiningState → MiningState → Type 0
AllConfirmed st st' =
    (blocks : List Block) × (st'.chain ≡ st.chain ++ blocks)
    × (map attendance blocks ≡ map attendance (contents st.pool))
    × (contents st'.pool ≡ [])

AllConfirmed-next :
    (st st' st'' : MiningState) → Confirmed st st' → AllConfirmed st' st'' → AllConfirmed st st''
AllConfirmed-next st st' st'' c (blocks, chain, same, empty) = (
  c.b' ∷ blocks,
  chain ∙ ap (λ l. l ++ blocks) c.chain ∙ append_assoc st.chain (c.b' ∷ []) blocks,
  ap (λ l. attendance c.b' ∷ l) (same ∙ ap (map attendance) c.rest)
      ∙ ap (λ b. b ∷ map attendance c.queue) c.same
      ∙ sym (ap (map attendance) c.front),
  empty,
)

nothing_left : (st : MiningState) → IsReady st → st.pool.count ≡ 0 → AllConfirmed st st
nothing_left st h count =
    let empty = length-zero (contents st.pool) (length-contents st.pool h.pool ∙ count) in
    ([], sym (append-nil st.chain), ap (map attendance) (sym empty), empty)

-- Payments change neither chain nor pool.
paid-IsReady : (st : MiningState) (l : Ledger) → IsReady st → IsReady (with_ledger st l)
paid-IsReady st l h = record { pool = h.pool; sized = h.sized; room = h.room }

module _ (e : Env) (d : ℤ) (can : CanMine e d) where
  confirm_unchecked-made :
      (st : MiningState)
      → IsReady st
      → 0 < st.pool.count
      → (st' : MiningState) × (confirm_unchecked e st d ≡ (true, st')) × Confirmed st st'
  unfolding confirm_unchecked mine_front settle_unchecked
  confirm_unchecked-made st h some_block =
      let f = pool-Front st.pool h.pool some_block in
      let valid = pending_remove_front-IsValid st.pool h.pool in
      let (small, smalls) : All IsSized (f.b ∷ f.queue) = subst (All IsSized) f.front h.sized in
      let popped : MiningState = record st { pool = (pending_remove_front st.pool).1 } in
      let counted : suc popped.pool.count ≡ st.pool.count =
        sym (ap (λ n. suc n) (sym (ap length f.rest) ∙ length-contents popped.pool valid))
        ∙ sym (ap length f.front)
        ∙ length-contents st.pool h.pool in
      let (r, made, same) = mine_taken-made e d can popped f.b small (omega (arith, h.room)) in
      let chain = st.chain ++ r.0 ∷ [] in
      (
        with_ledger (record popped { chain = chain }) (unchecked_reward e st.ledger r.0),
        rw (f.taken, made) refl,
        record {
          ready = record {
            pool = valid;
            sized = subst (All IsSized) (sym f.rest) smalls;
            room = omega (arith, h.room, length-append st.chain (r.0 ∷ []), counted);
          };
          b = f.b;
          b' = r.0;
          queue = f.queue;
          front = f.front;
          rest = f.rest;
          chain = refl;
          same = same;
          counted = counted;
        },
      )

  confirm_blocks-AllConfirmed :
      (n : ℕ) (st : MiningState)
      → IsReady st
      → st.pool.count ≡ n
      → (st' : MiningState) × (confirm_blocks n e st d ≡ (finished, st')) × AllConfirmed st st'
  unfolding confirm_blocks
  confirm_blocks-AllConfirmed zero st h count = (st, refl, nothing_left st h count)
  confirm_blocks-AllConfirmed (suc n) st h count =
      let (st', made, c) = confirm_unchecked-made st h (omega (arith, count)) in
      let (st'', all, confirmed) =
        confirm_blocks-AllConfirmed n st' c.ready (omega (arith, c.counted, count)) in
      (st'', rw (made, all) refl, AllConfirmed-next st st' st'' c confirmed)

  -- Every pending block gets onto the chain: pool mining at a difficulty from 1 to 4 finishes with an
  -- empty pool, and behind the old chain stand the pending blocks in the order of the queue, with what
  -- they recorded. This holds for a pool that is in order and not empty, of blocks whose fields fit, with
  -- room on the chain for all of them, where hashes and signatures are made, the chain file can be
  -- written, and every block has a nonce that reaches the target.
  pub mining_pool-confirms :
      (st : MiningState) (miner_count : ℤ)
      → IsReady st
      → 0 < st.pool.count
      → (st' : MiningState) × (mining_pool e st d miner_count ≡ (finished, st'))
        × AllConfirmed st st'
  unfolding mining_pool pending_is_empty pending_count
  mining_pool-confirms st miner_count h some_block =
      let attempts = draw_attempts e 0 (miners_for miner_count) in
      let paid =
        pay_pool e st.ledger (distributable st.pool.count) (sum_attempts attempts) 0 attempts in
      let (st', made, all) =
        confirm_blocks-AllConfirmed st.pool.count (with_ledger st paid) (paid-IsReady st paid h)
          refl in
      let more : (st.pool.count == 0) ≡ false = ground arith in (st', rw more made, all)
