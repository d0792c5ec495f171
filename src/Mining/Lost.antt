-- ===== src/Mining/Lost.antt =====
-- Mining (mining.c) at a difficulty that proof of work does not accept, which the command
-- `difficulty` (main.c) can set.
use transaction_models_minin.Common.{
  ℕ, zero, suc, ◌<◌, ◌≡◌, refl, Bool, true, false, ◌||◌, Option, none, some, arith, ◌==◌,
}
use transaction_models_minin.Common.Int.{ℤ, ltb_ℤ}
use transaction_models_minin.Common.Text.{Text}
use transaction_models_minin.Attendance.{Block, min_difficulty, max_difficulty}
use transaction_models_minin.Env.{Env}
use transaction_models_minin.Pending.{pending_is_empty, pending_count, pending_remove_front}
use transaction_models_minin.Mining.{
  MiningState, mine_block_pow, append_found, mine_prepared, mine_taken, mine_front, settle,
  confirm_pending_block, aborted, solo_loop, mining_solo, miner_or_default,
  prepare_block_for_mining,
}

abbrev pub is_illegal : ℤ → Bool
is_illegal d = ltb_ℤ d min_difficulty || ltb_ℤ max_difficulty d

abbrev pub without_front : MiningState → MiningState
without_front st = record st { pool = (pending_remove_front st.pool).1 }

no_work : (e : Env) (b : Block) (d : ℤ) → is_illegal d ≡ true → mine_block_pow e b d ≡ none
unfolding mine_block_pow
no_work e b d h = rw h refl

no_mined :
    (e : Env) (st : MiningState) (d : ℤ) (p : Option Block)
    → is_illegal d ≡ true
    → mine_prepared e st d p ≡ (none, st)
unfolding mine_prepared append_found
no_mined e st d none h = refl
no_mined e st d (some p) h = rw (no_work e p d h) refl

none_taken :
    (e : Env) (st : MiningState) (d : ℤ) (p : Option Block)
    → is_illegal d ≡ true
    → mine_taken e st d p ≡ (none, st)
unfolding mine_taken
none_taken e st d none h = refl
none_taken e st d (some p) h = no_mined e st d (prepare_block_for_mining e p st.chain) h

mine_front-lost :
    (e : Env) (st : MiningState) (d : ℤ)
    → is_illegal d ≡ true
    → mine_front e st d ≡ (none, without_front st)
unfolding mine_front
mine_front-lost e st d h = none_taken e (without_front st) d (pending_remove_front st.pool).0 h

confirm-lost :
    (e : Env) (st : MiningState) (d : ℤ) (m : Option Text) (n : ℕ)
    → is_illegal d ≡ true
    → confirm_pending_block e st d m n ≡ (false, without_front st, n)
unfolding confirm_pending_block settle
confirm-lost e st d m n h = rw (mine_front-lost e st d h) refl

solo_loop-lost :
    (fuel : ℕ) (e : Env) (st : MiningState) (d : ℤ) (m : Text) (n : ℕ)
    → is_illegal d ≡ true
    → pending_is_empty st.pool ≡ false
    → 0 < fuel
    → solo_loop fuel e st d m n ≡ (aborted, without_front st, n)
unfolding solo_loop
solo_loop-lost zero e st d m n h more some_fuel = absurd (omega arith)
solo_loop-lost (suc fuel) e st d m n h more some_fuel =
    rw (more, confirm-lost e st d (some m) n h) refl

-- At a difficulty below 1 or above 4, solo mining of a pool that is not empty fails, and the front
-- block is gone: it is neither in the pool nor on the chain.
pub mining_solo_loses_block :
    (e : Env) (st : MiningState) (d : ℤ) (m : Option Text)
    → is_illegal d ≡ true
    → 0 < st.pool.count
    → mining_solo e st d m ≡ (aborted, record st { pool = (pending_remove_front st.pool).1 })
unfolding mining_solo pending_is_empty pending_count
mining_solo_loses_block e st d m h more =
    let e0 : (st.pool.count == 0) ≡ false = ground arith in
    rw (e0, solo_loop-lost st.pool.count e st d (miner_or_default m) 0 h e0 more) refl
