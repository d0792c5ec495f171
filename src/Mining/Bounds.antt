-- ===== src/Mining/Bounds.antt =====
-- Chain, pool and ledger stay within their arrays while blocks are mined (mining.c).
use transaction_models_minin.Common.{◌≤◌, ◌<◌, [], ◌∷◌, arith, length, length-append}
use transaction_models_minin.Attendance.{Block, Chain, max_blocks}
use transaction_models_minin.Env.{Env}
use transaction_models_minin.Blockchain.{blockchain_append_mined_block}
use transaction_models_minin.Pending.Queue.{IsValid, pending_remove_front-IsValid}
use transaction_models_minin.Ledger.Bounds.{
  IsBounded, ledger_apply_confirmed_block-IsBounded, ledger_credit_miner-IsBounded,
}
use transaction_models_minin.Mining.{MiningState}
use transaction_models_minin.Mining.Steps.{
  Step, take_front, put_block, book_reward, pay, Steps, Steps-preserve,
}

-- The pool is in order, the chain has a block and no more than fit, the ledger is within its arrays.
pub record InBounds (st : MiningState) : Type 0 where
  pub pool : IsValid st.pool
  pub rooted : 0 < length st.chain
  pub blocks : length st.chain ≤ max_blocks
  pub ledger : IsBounded st.ledger

append-bounded :
    (e : Env) (chain : Chain) (b : Block)
    → 0 < length chain
    → length chain ≤ max_blocks
    → (0 < length (blockchain_append_mined_block e chain b).1)
      × (length (blockchain_append_mined_block e chain b).1 ≤ max_blocks)
unfolding blockchain_append_mined_block
append-bounded e chain b some_block h = ground (arith, length-append chain (b ∷ []))

Step-InBounds : (st st' : MiningState) → Step st st' → InBounds st → InBounds st'
Step-InBounds _ _ (take_front st) h = record {
  pool = pending_remove_front-IsValid st.pool h.pool;
  rooted = h.rooted;
  blocks = h.blocks;
  ledger = h.ledger;
}
Step-InBounds _ _ (put_block e b st) h =
    let (rooted, fits) = append-bounded e st.chain b h.rooted h.blocks in
    record { pool = h.pool; rooted = rooted; blocks = fits; ledger = h.ledger }
Step-InBounds _ _ (book_reward e b tx st) h = record {
  pool = h.pool;
  rooted = h.rooted;
  blocks = h.blocks;
  ledger = ledger_apply_confirmed_block-IsBounded e st.ledger b tx h.ledger;
}
Step-InBounds _ _ (pay e id amount st) h = record {
  pool = h.pool;
  rooted = h.rooted;
  blocks = h.blocks;
  ledger = ledger_credit_miner-IsBounded e st.ledger id amount h.ledger;
}

pub Steps-InBounds : (st st' : MiningState) → Steps st st' → InBounds st → InBounds st'
Steps-InBounds = Steps-preserve InBounds Step-InBounds
