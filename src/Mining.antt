-- ===== src/Mining.antt =====
-- mining.c: proof of work and the three ways to mine what is pending.
pub mod Work
pub mod Confirm
pub mod Solo
pub mod Pool
pub mod Cloud
pub mod Drains
pub mod Lost
pub mod Steps
pub mod Progress
pub mod Bounds
pub mod Recorded
pub mod Nonces
use transaction_models_minin.Common.{
  ℕ, zero, suc, ◌+◌, ◌*◌, ◌-◌, ◌/◌, ◌%◌, ◌^◌, Bool, true, false, not, ◌||◌, List, [], ◌∷◌, ◌++◌,
  Option, none, some, leb, ltb, ◌==◌, if◌then◌else◌, length,
}
use transaction_models_minin.Common.Int.{
  ℤ, pos, negsuc, pos_part, add_int, sub_int, mul_int, ltb_ℤ, leb_ℤ,
}
use transaction_models_minin.Common.Text.{Text, codes, strncpy, decimal}
use transaction_models_minin.Attendance.{
  Block, Chain, PendingPool, Ledger, Transaction, min_difficulty, max_difficulty, genesis_prev_hash,
  hash_max, mining_reward, pool_fee_percent, max_pool_miners, cloud_min_rounds, cloud_max_rounds,
  ulong_mod,
}
use transaction_models_minin.Env.{Env}
use transaction_models_minin.Crypto.{compute_block_hash, sign_block}
use transaction_models_minin.Transactions.{reward_transaction, create_reward_transaction}
use transaction_models_minin.Difficulty.{hash_meets_difficulty}
use transaction_models_minin.Blockchain.{blockchain_tip, blockchain_append_mined_block}
use transaction_models_minin.Pending.{pending_is_empty, pending_count, pending_remove_front}
use transaction_models_minin.Ledger.{ledger_apply_confirmed_block, ledger_credit_miner}

-- How the search for a nonce ends: with the block and the number of attempts, with a hash that
-- could not be computed, with the nonce back at 0, or, in the model alone, without fuel.
pub data Pow : Type 0 where
  mined : Block → ℕ → Pow
  hash_failed : Pow
  nonce_overflow : Pow
  out_of_fuel : Pow

-- The end of a round: is the target reached, and is the nonce back at 0? If neither, it goes on.
unfoldable pub pow_decide : Bool → Bool → Block → ℕ → (Block → Pow) → Pow
pow_decide true wrapped b tries go_on = mined b tries
pow_decide false true b tries go_on = nonce_overflow
pow_decide false false b tries go_on = go_on b

-- A round behind the computation of the hash.
unfoldable pub pow_round : Option Text → ℤ → Block → ℕ → (Block → Pow) → Pow
pow_round none difficulty b tries go_on = hash_failed
pow_round (some h) difficulty b tries go_on =
    pow_decide (hash_meets_difficulty h difficulty) ((b.nonce + 1) % ulong_mod == 0)
      (record b { hash = h }) tries (λ b'. go_on (record b' { nonce = (b'.nonce + 1) % ulong_mod }))

unfoldable pub pow_loop : ℕ → Env → ℤ → Block → ℕ → Pow
pow_loop zero e difficulty b tries = out_of_fuel
pow_loop (suc fuel) e difficulty b tries =
    let tries' = (tries + 1) % ulong_mod in
    pow_round (compute_block_hash e b) difficulty b tries'
      (λ b'. pow_loop fuel e difficulty b' tries')

unfoldable pub pow_result : Pow → Option (Block × ℕ)
pow_result (mined b tries) = some (b, tries)
pow_result hash_failed = none
pow_result nonce_overflow = none
pow_result out_of_fuel = none

unfoldable pub mine_block_pow : Env → Block → ℤ → Option (Block × ℕ)
mine_block_pow e b difficulty =
    if ltb_ℤ difficulty min_difficulty || ltb_ℤ max_difficulty difficulty
    then none
    else pow_result (pow_loop ulong_mod e difficulty (record b { nonce = 0 }) 0)

-- Link and number at the tip of the chain, and the signature over both.
unfoldable pub linked_block : Option Block → Block → Block
linked_block none b = record b {
  index = pos 0;
  previous_hash = strncpy hash_max genesis_prev_hash;
  nonce = 0;
}
linked_block (some tip) b = record b {
  index = add_int tip.index (pos 1);
  previous_hash = strncpy hash_max tip.hash;
  nonce = 0;
}

unfoldable pub prepare_block_for_mining : Env → Block → Chain → Option Block
prepare_block_for_mining e b chain = sign_block e (linked_block (blockchain_tip chain) b)

-- What mining works on.
pub record MiningState : Type 0 where
  pub chain : Chain
  pub pool : PendingPool
  pub ledger : Ledger

abbrev pub with_ledger : MiningState → Ledger → MiningState
with_ledger st ledger = record st { ledger = ledger }

-- The mined block goes on the chain.
unfoldable pub append_mined : Env → MiningState → Block × ℕ → Option (Block × ℕ) × MiningState
append_mined e st (b, attempts) =
    let (saved, chain') = blockchain_append_mined_block e st.chain b in
    let st' : MiningState = record st { chain = chain' } in
    if saved then (some (b, attempts), st') else (none, st')

-- The same behind the search for a nonce, behind the signature, and behind the pool: each step
-- that fails ends the attempt.
unfoldable pub append_found :
    Env → MiningState → Option (Block × ℕ) → Option (Block × ℕ) × MiningState
append_found e st none = (none, st)
append_found e st (some found) = append_mined e st found

unfoldable pub mine_prepared :
    Env → MiningState → ℤ → Option Block → Option (Block × ℕ) × MiningState
mine_prepared e st difficulty none = (none, st)
mine_prepared e st difficulty (some prepared) =
    append_found e st (mine_block_pow e prepared difficulty)

unfoldable pub mine_taken : Env → MiningState → ℤ → Option Block → Option (Block × ℕ) × MiningState
mine_taken e st difficulty none = (none, st)
mine_taken e st difficulty (some b) =
    mine_prepared e st difficulty (prepare_block_for_mining e b st.chain)

-- The steps that the three ways of mining share: take the front block, link and sign it, find a
-- nonce, append it. A block that fails on the way has left the pool.
unfoldable pub mine_front : Env → MiningState → ℤ → Option (Block × ℕ) × MiningState
mine_front e st difficulty =
    let (front, pool') = pending_remove_front st.pool in
    mine_taken e (record st { pool = pool' }) difficulty front

-- The reward of a confirmed block, where a failure is reported.
unfoldable pub confirm_reward : Env → Ledger → Block → Bool × Ledger
confirm_reward e ledger b =
    if ltb_ℤ (pos 0) b.token_reward
    then elim (create_reward_transaction e b) [
      | none ↦ (false, ledger)
      | some tx ↦ ledger_apply_confirmed_block e ledger b tx
    ]
    else (true, ledger)

unfoldable pub pay_miner : Env → Ledger → Option Text → Bool × Ledger
pay_miner e ledger none = (true, ledger)
pay_miner e ledger (some miner_id) = ledger_credit_miner e ledger miner_id mining_reward

-- The part of `confirm_pending_block` behind the mined block: the student's reward, then the
-- miner's, then the count of hash attempts.
unfoldable pub settle :
    Env → MiningState → Option Text → ℕ → Option (Block × ℕ) → Bool × MiningState × ℕ
settle e st miner_id attempts_out none = (false, st, attempts_out)
settle e st miner_id attempts_out (some (b, attempts)) =
    let (rewarded, ledger') = confirm_reward e st.ledger b in
    let (paid, ledger'') = pay_miner e ledger' miner_id in
    if rewarded
    then (if paid
        then (true, with_ledger st ledger'', (attempts_out + attempts) % ulong_mod)
        else (false, with_ledger st ledger'', attempts_out))
    else (false, with_ledger st ledger', attempts_out)

-- The outcome, the state, and the hash attempts counted so far.
unfoldable pub confirm_pending_block :
    Env → MiningState → ℤ → Option Text → ℕ → Bool × MiningState × ℕ
confirm_pending_block e st difficulty miner_id attempts_out =
    let (found, st') = mine_front e st difficulty in settle e st' miner_id attempts_out found

-- How a mining command ends; the fuel is the model's.
pub data Outcome : Type 0 where
  finished : Outcome
  aborted : Outcome
  no_fuel : Outcome

-- `while (!pending_is_empty(pool))`; what a round that failed leaves ends the loop.
unfoldable pub solo_loop : ℕ → Env → MiningState → ℤ → Text → ℕ → Outcome × MiningState × ℕ
solo_loop zero e st difficulty miner attempts =
    if pending_is_empty st.pool then (finished, st, attempts) else (no_fuel, st, attempts)
solo_loop (suc fuel) e st difficulty miner attempts =
    let (confirmed, st', attempts') = confirm_pending_block e st difficulty (some miner) attempts in
    let rest = solo_loop fuel e st' difficulty miner attempts' in
    if pending_is_empty st.pool
    then (finished, st, attempts)
    else if confirmed
    then rest
    else (aborted, st', attempts')

abbrev pub miner_or_default : Option Text → Text
miner_or_default none = codes "SOLO_MINER"
miner_or_default (some m) = m

-- Each round takes a block out of the pool.
unfoldable pub mining_solo : Env → MiningState → ℤ → Option Text → Outcome × MiningState
mining_solo e st difficulty miner_id =
    if pending_is_empty st.pool
    then (aborted, st)
    else (let (o, st', attempts) =
          solo_loop (pending_count st.pool) e st difficulty (miner_or_default miner_id) 0 in
        (o, st'))

-- The transaction that a failed `create_reward_transaction` leaves behind has no id.
unfoldable pub reward_left : Env → Block → Transaction
reward_left e b = elim (create_reward_transaction e b) [
  | none ↦ reward_transaction b.student_id b.token_reward
  | some tx ↦ tx
]

-- Pool and cloud mining do not look at the outcome of a reward.
unfoldable pub unchecked_reward : Env → Ledger → Block → Ledger
unchecked_reward e ledger b =
    if ltb_ℤ (pos 0) b.token_reward
    then (ledger_apply_confirmed_block e ledger b (reward_left e b)).1
    else ledger

unfoldable pub settle_unchecked : Env → MiningState → Option (Block × ℕ) → Bool × MiningState
settle_unchecked e st none = (false, st)
settle_unchecked e st (some (b, attempts)) = (true, with_ledger st (unchecked_reward e st.ledger b))

-- One block of pool or cloud mining.
unfoldable pub confirm_unchecked : Env → MiningState → ℤ → Bool × MiningState
confirm_unchecked e st difficulty =
    let (found, st') = mine_front e st difficulty in settle_unchecked e st' found
