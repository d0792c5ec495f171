-- ===== src/Mining/Steps/Commands.antt =====
-- The three mining commands (mining.c) as steps.
use transaction_models_minin.Common.{
  ℕ, zero, suc, inl, inr, Option, some, List, [], ◌∷◌, ◌||◌, ltb, Bool-cases, ◌+◌,
}
use transaction_models_minin.Common.Int.{ℤ, pos, ltb_ℤ}
use transaction_models_minin.Common.Text.{Text, codes}
use transaction_models_minin.Attendance.{cloud_min_rounds, cloud_max_rounds}
use transaction_models_minin.Env.{Env}
use transaction_models_minin.Pending.{pending_is_empty, pending_count}
use transaction_models_minin.Ledger.{ledger_credit_miner}
use transaction_models_minin.Mining.{
  MiningState, with_ledger, confirm_pending_block, Outcome, finished, aborted, no_fuel, solo_loop,
  mining_solo, confirm_unchecked,
}
use transaction_models_minin.Mining.Pool.{
  pool_miner_id, miner_reward, pay_pool, confirm_blocks, mining_pool,
}
use transaction_models_minin.Mining.Cloud.{cloud_loop, pay_profit, if_finished, mining_cloud}
use transaction_models_minin.Mining.Steps.{
  pay, Steps, done, next, one, Steps-trans, confirm_pending_block-Steps, confirm_unchecked-Steps,
}

solo_loop-Steps :
    (fuel : ℕ) (e : Env) (st : MiningState) (d : ℤ) (miner : Text) (n : ℕ)
    → Steps st (solo_loop fuel e st d miner n).1
unfolding solo_loop
solo_loop-Steps zero e st d miner n = elim (Bool-cases (pending_is_empty st.pool)) [
  | inl empty ↦ rw empty done
  | inr more ↦ rw more done
]
solo_loop-Steps (suc fuel) e st d miner n =
    let (ok, st', n') = confirm_pending_block e st d (some miner) n in
    let first = confirm_pending_block-Steps e st d (some miner) n in
    elim (Bool-cases (pending_is_empty st.pool)) [
      | inl empty ↦ rw empty done
      | inr more ↦ rw more (elim (Bool-cases ok) [
        | inr failed ↦ rw failed first
        | inl confirmed ↦ rw confirmed (Steps-trans first (solo_loop-Steps fuel e st' d miner n'))
      ])
    ]

pub mining_solo-Steps :
    (e : Env) (st : MiningState) (d : ℤ) (miner : Option Text)
    → Steps st (mining_solo e st d miner).1
unfolding mining_solo
mining_solo-Steps e st d miner = elim (Bool-cases (pending_is_empty st.pool)) [
  | inl empty ↦ rw empty done
  | inr more ↦ rw more (solo_loop-Steps _ e st d _ 0)
]

pay_pool-Steps :
    (e : Env) (st : MiningState) (amount total i : ℕ) (attempts : List ℕ)
    → Steps st (with_ledger st (pay_pool e st.ledger amount total i attempts))
unfolding pay_pool
pay_pool-Steps e st amount total i [] = done
pay_pool-Steps e st amount total i (a ∷ rest) =
    elim (Bool-cases (ltb 0 (miner_reward amount total a))) [
      | inl due ↦
          let reward = pos (miner_reward amount total a) in
          let l = (ledger_credit_miner e st.ledger (pool_miner_id (i + 1)) reward).1 in
          let paid = pay e (pool_miner_id (i + 1)) reward st in
          rw due (next paid (pay_pool-Steps e (with_ledger st l) amount total (i + 1) rest))
      | inr nothing ↦ rw nothing (pay_pool-Steps e st amount total (i + 1) rest)
    ]

confirm_blocks-Steps :
    (n : ℕ) (e : Env) (st : MiningState) (d : ℤ) → Steps st (confirm_blocks n e st d).1
unfolding confirm_blocks
confirm_blocks-Steps zero e st d = done
confirm_blocks-Steps (suc n) e st d =
    let (ok, st') = confirm_unchecked e st d in
    let first = confirm_unchecked-Steps e st d in
    elim (Bool-cases ok) [
      | inr failed ↦ rw failed first
      | inl confirmed ↦ rw confirmed (Steps-trans first (confirm_blocks-Steps n e st' d))
    ]

pub mining_pool-Steps :
    (e : Env) (st : MiningState) (d miner_count : ℤ) → Steps st (mining_pool e st d miner_count).1
unfolding mining_pool
mining_pool-Steps e st d miner_count = elim (Bool-cases (pending_is_empty st.pool)) [
  | inl empty ↦ rw empty done
  | inr more ↦
      rw more
        (Steps-trans (pay_pool-Steps e st _ _ 0 _) (confirm_blocks-Steps _ e (with_ledger st _) d))
]

cloud_loop-Steps :
    (fuel : ℕ) (e : Env) (st : MiningState) (d : ℤ) → Steps st (cloud_loop fuel e st d).1
unfolding cloud_loop
cloud_loop-Steps zero e st d = elim (Bool-cases (pending_is_empty st.pool)) [
  | inl empty ↦ rw empty done
  | inr more ↦ rw more done
]
cloud_loop-Steps (suc fuel) e st d =
    let (ok, st') = confirm_unchecked e st d in
    let first = confirm_unchecked-Steps e st d in
    elim (Bool-cases (pending_is_empty st.pool)) [
      | inl empty ↦ rw empty done
      | inr more ↦ rw more (elim (Bool-cases ok) [
        | inr failed ↦ rw failed first
        | inl confirmed ↦ rw confirmed (Steps-trans first (cloud_loop-Steps fuel e st' d))
      ])
    ]

paid_after-Steps :
    (e : Env) (st st' : MiningState) (profit : ℤ) (o : Outcome)
    → Steps st st'
    → Steps st (if_finished o (pay_profit e profit st') st')
unfolding pay_profit
paid_after-Steps e st st' profit aborted s = s
paid_after-Steps e st st' profit no_fuel s = s
paid_after-Steps e st st' profit finished s = elim (Bool-cases (ltb_ℤ (pos 0) profit)) [
  | inl gain ↦ rw gain (Steps-trans s (one (pay e (codes "CLOUD_USER") profit st')))
  | inr no_gain ↦ rw no_gain s
]

pub mining_cloud-Steps :
    (e : Env) (st : MiningState) (d rounds rental_fee maintenance_fee : ℤ)
    → Steps st (mining_cloud e st d rounds rental_fee maintenance_fee).1
unfolding mining_cloud
mining_cloud-Steps e st d rounds rental_fee maintenance_fee =
    elim (Bool-cases (ltb_ℤ rounds cloud_min_rounds || ltb_ℤ cloud_max_rounds rounds)) [
      | inl outside ↦ rw outside done
      | inr inside ↦ rw inside (elim (Bool-cases (pending_is_empty st.pool)) [
        | inl empty ↦ rw empty done
        | inr more ↦
            rw more (paid_after-Steps e st _ _ _ (cloud_loop-Steps (pending_count st.pool) e st d))
      ])
    ]
