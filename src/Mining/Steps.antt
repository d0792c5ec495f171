-- ===== src/Mining/Steps.antt =====
-- Mining (mining.c) as steps: what any of its commands does to the state, one write after the other.
pub mod Commands
use transaction_models_minin.Common.{
  ℕ, zero, suc, inl, inr, Option, none, some, List, [], ◌∷◌, ◌||◌, ltb, Bool-cases, Option-cases,
  ◌+◌,
}
use transaction_models_minin.Common.Int.{ℤ, pos, ltb_ℤ}
use transaction_models_minin.Common.Text.{Text, codes}
use transaction_models_minin.Attendance.{
  Block, Transaction, mining_reward, cloud_min_rounds, cloud_max_rounds,
}
use transaction_models_minin.Env.{Env}
use transaction_models_minin.Transactions.{create_reward_transaction}
use transaction_models_minin.Blockchain.{blockchain_append_mined_block}
use transaction_models_minin.Pending.{pending_remove_front, pending_is_empty, pending_count}
use transaction_models_minin.Ledger.{ledger_apply_confirmed_block, ledger_credit_miner}
use transaction_models_minin.Mining.{
  MiningState, with_ledger, append_mined, append_found, mine_prepared, mine_taken, mine_front,
  prepare_block_for_mining, mine_block_pow, confirm_reward, pay_miner, settle,
  confirm_pending_block, Outcome, finished, aborted, no_fuel, solo_loop, mining_solo, reward_left,
  unchecked_reward, settle_unchecked, confirm_unchecked,
}
use transaction_models_minin.Mining.Pool.{
  pool_miner_id, miner_reward, pay_pool, confirm_blocks, mining_pool,
}
use transaction_models_minin.Mining.Cloud.{cloud_loop, pay_profit, if_finished, mining_cloud}

-- One write: a block taken from the pool, a block put on the chain, a reward booked, a miner paid.
pub data Step : MiningState → MiningState → Type 0 where
  take_front : (st : MiningState) → Step st (record st { pool = (pending_remove_front st.pool).1 })
  put_block :
      (e : Env) (b : Block) (st : MiningState)
      → Step st (record st { chain = (blockchain_append_mined_block e st.chain b).1 })
  book_reward :
      (e : Env) (b : Block) (tx : Transaction) (st : MiningState)
      → Step st (with_ledger st (ledger_apply_confirmed_block e st.ledger b tx).1)
  pay :
      (e : Env) (id : Text) (amount : ℤ) (st : MiningState)
      → Step st (with_ledger st (ledger_credit_miner e st.ledger id amount).1)

pub data Steps : MiningState → MiningState → Type 0 where
  done : {st : MiningState} → Steps st st
  next : {st st' st'' : MiningState} → Step st st' → Steps st' st'' → Steps st st''

-- What every step keeps, any number of steps keep.
pub Steps-preserve {ℓ} :
    (P : MiningState → Type ℓ)
    → ((st st' : MiningState) → Step st st' → P st → P st')
    → (st st' : MiningState) → Steps st st'
    → P st
    → P st'
Steps-preserve P keep st st' done p = p
Steps-preserve P keep st st'' (next {st' = st'} s more) p =
    Steps-preserve P keep st' st'' more (keep st st' s p)

pub Steps-trans : {st st' st'' : MiningState} → Steps st st' → Steps st' st'' → Steps st st''
Steps-trans done more = more
Steps-trans (next s before) more = next s (Steps-trans before more)

pub one : {st st' : MiningState} → Step st st' → Steps st st'
one s = next s done

append_found-Steps :
    (e : Env) (st : MiningState) (r : Option (Block × ℕ)) → Steps st (append_found e st r).1
unfolding append_found append_mined
append_found-Steps e st none = done
append_found-Steps e st (some (b, tries)) =
    elim (Bool-cases (blockchain_append_mined_block e st.chain b).0) [
      | inl saved ↦ rw saved (one (put_block e b st))
      | inr lost ↦ rw lost (one (put_block e b st))
    ]

mine_taken-Steps :
    (e : Env) (st : MiningState) (d : ℤ) (front : Option Block)
    → Steps st (mine_taken e st d front).1
unfolding mine_taken mine_prepared
mine_taken-Steps e st d none = done
mine_taken-Steps e st d (some b) = elim (Option-cases (prepare_block_for_mining e b st.chain)) [
  | inl failed ↦ rw failed done
  | inr (prepared, made) ↦ rw made (append_found-Steps e st (mine_block_pow e prepared d))
]

mine_front-Steps : (e : Env) (st : MiningState) (d : ℤ) → Steps st (mine_front e st d).1
unfolding mine_front
mine_front-Steps e st d =
    next (take_front st) (mine_taken-Steps e _ d (pending_remove_front st.pool).0)

confirm_reward-Steps :
    (e : Env) (st : MiningState) (b : Block)
    → Steps st (with_ledger st (confirm_reward e st.ledger b).1)
unfolding confirm_reward
confirm_reward-Steps e st b = elim (Bool-cases (ltb_ℤ (pos 0) b.token_reward)) [
  | inr no_reward ↦ rw no_reward done
  | inl due ↦ elim (Option-cases (create_reward_transaction e b)) [
    | inl failed ↦ rw (due, failed) done
    | inr (tx, made) ↦ rw (due, made) (one (book_reward e b tx st))
  ]
]

unchecked_reward-Steps :
    (e : Env) (st : MiningState) (b : Block)
    → Steps st (with_ledger st (unchecked_reward e st.ledger b))
unfolding unchecked_reward
unchecked_reward-Steps e st b = elim (Bool-cases (ltb_ℤ (pos 0) b.token_reward)) [
  | inr no_reward ↦ rw no_reward done
  | inl due ↦ rw due (one (book_reward e b (reward_left e b) st))
]

pay_miner-Steps :
    (e : Env) (st : MiningState) (miner : Option Text)
    → Steps st (with_ledger st (pay_miner e st.ledger miner).1)
unfolding pay_miner
pay_miner-Steps e st none = done
pay_miner-Steps e st (some id) = one (pay e id mining_reward st)

settle-Steps :
    (e : Env) (st : MiningState) (miner : Option Text) (n : ℕ) (r : Option (Block × ℕ))
    → Steps st (settle e st miner n r).1
unfolding settle
settle-Steps e st miner n none = done
settle-Steps e st miner n (some (b, attempts)) =
    let rewarded = confirm_reward e st.ledger b in
    let first = confirm_reward-Steps e st b in
    let both = Steps-trans first (pay_miner-Steps e (with_ledger st rewarded.1) miner) in
    elim (Bool-cases rewarded.0) [
      | inr lost ↦ rw lost first
      | inl booked ↦ rw booked (elim (Bool-cases (pay_miner e rewarded.1 miner).0) [
        | inr lost ↦ rw lost both
        | inl paid ↦ rw paid both
      ])
    ]

settle_unchecked-Steps :
    (e : Env) (st : MiningState) (r : Option (Block × ℕ)) → Steps st (settle_unchecked e st r).1
unfolding settle_unchecked
settle_unchecked-Steps e st none = done
settle_unchecked-Steps e st (some (b, attempts)) = unchecked_reward-Steps e st b

pub confirm_pending_block-Steps :
    (e : Env) (st : MiningState) (d : ℤ) (miner : Option Text) (n : ℕ)
    → Steps st (confirm_pending_block e st d miner n).1
unfolding confirm_pending_block
confirm_pending_block-Steps e st d miner n =
    Steps-trans (mine_front-Steps e st d) (settle-Steps e _ miner n (mine_front e st d).0)

pub confirm_unchecked-Steps :
    (e : Env) (st : MiningState) (d : ℤ) → Steps st (confirm_unchecked e st d).1
unfolding confirm_unchecked
confirm_unchecked-Steps e st d =
    Steps-trans (mine_front-Steps e st d)
      (settle_unchecked-Steps e (mine_front e st d).1 (mine_front e st d).0)
