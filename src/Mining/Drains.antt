-- ===== src/Mining/Drains.antt =====
-- The loops of pool and cloud mining (mining.c) over the pending blocks.
use transaction_models_minin.Common.{
  ℕ, zero, suc, ◌≤◌, ◌≡◌, refl, sym, ◌∙◌, true, inl, inr, ◌||◌, ◌++◌, map, arith, ◌==◌, Bool-cases,
}
use transaction_models_minin.Common.Int.{ℤ, ltb_ℤ}
use transaction_models_minin.Attendance.{Ledger, cloud_min_rounds, cloud_max_rounds}
use transaction_models_minin.Env.{Env, SignatureLaws}
use transaction_models_minin.Crypto.Signature.{EndsNonzero}
use transaction_models_minin.Pending.{pending_is_empty, pending_count}
use transaction_models_minin.Mining.{
  MiningState, with_ledger, confirm_unchecked, Outcome, finished, aborted, no_fuel,
}
use transaction_models_minin.Mining.Solo.{
  Drained, finished-Drained, aborted-Drained, refused-Drained, next-Drained,
  confirm_unchecked-Advances,
}
use transaction_models_minin.Pending.Queue.{IsValid, contents}
use transaction_models_minin.Mining.Progress.{attendance}
use transaction_models_minin.Mining.Recorded.{Carries, confirm_unchecked-Carries, recorded-empty}
use transaction_models_minin.Mining.Pool.{
  miners_for, draw_attempts, sum_attempts, distributable, pay_pool, confirm_blocks, mining_pool,
}
use transaction_models_minin.Mining.Cloud.{cloud_loop, pay_profit, if_finished, mining_cloud}

-- Payments before or after the blocks leave chain and pool alone.
paid_before-Drained :
    (e : Env) (d : ℤ) (st st' : MiningState) (l : Ledger) (o : Outcome)
    → Drained e d (with_ledger st l) o st'
    → Drained e d st o st'
paid_before-Drained e d st st' l o a = record { ends = a.ends; kept = a.kept; moved = a.moved }

paid_after-Drained :
    (e e' : Env) (d profit : ℤ) (st st' : MiningState) (o : Outcome)
    → Drained e d st o st'
    → Drained e d st o (if_finished o (pay_profit e' profit st') st')
unfolding pay_profit
paid_after-Drained e e' d profit st st' aborted a = a
paid_after-Drained e e' d profit st st' no_fuel a = a
paid_after-Drained e e' d profit st st' finished a = ground (arith, a.ends, a.kept, a.moved)

-- Where the loop finished, the chain records what it recorded before and then what the pending blocks
-- recorded, in the order of the queue.
abbrev pub IsConfirmed : MiningState → Outcome → MiningState → Type 0
IsConfirmed st o st' =
    o ≡ finished
    → map attendance st'.chain ≡ map attendance st.chain ++ map attendance (contents st.pool)

aborted-IsConfirmed : (st st' : MiningState) → IsConfirmed st aborted st'
aborted-IsConfirmed st st' h = absurd (cc)

finished-IsConfirmed :
    (st : MiningState) → IsValid st.pool → st.pool.count ≡ 0 → IsConfirmed st finished st
finished-IsConfirmed st v empty _ = sym (recorded-empty st v empty)

next-IsConfirmed :
    (st st' st'' : MiningState) (o : Outcome)
    → Carries st true st'
    → IsConfirmed st' o st''
    → IsConfirmed st o st''
next-IsConfirmed st st' st'' o c later h = later h ∙ c.carried refl

paid_after-IsConfirmed :
    (e : Env) (profit : ℤ) (st st' : MiningState) (o : Outcome)
    → IsConfirmed st o st'
    → IsConfirmed st o (if_finished o (pay_profit e profit st') st')
unfolding pay_profit
paid_after-IsConfirmed e profit st st' aborted c = c
paid_after-IsConfirmed e profit st st' no_fuel c = c
paid_after-IsConfirmed e profit st st' finished c = ground (arith, c)

module _ (e : Env) (d : ℤ) (laws : SignatureLaws e) (tidy : EndsNonzero e) where
  confirm_blocks-Drained :
      (n : ℕ) (st : MiningState)
      → st.pool.count ≡ n
      → let (o, st') = confirm_blocks n e st d in Drained e d st o st'
  unfolding confirm_blocks
  confirm_blocks-Drained zero st count = finished-Drained e d st count
  confirm_blocks-Drained (suc n) st count =
      let (ok, st') = confirm_unchecked e st d in
      let a = confirm_unchecked-Advances e d laws tidy st in
      elim (Bool-cases ok) [
        | inr failed ↦ rw failed (aborted-Drained e d st st' (rw failed at a))
        | inl done ↦ rw done (
            next-Drained e d st st' _ _ (rw done at a)
              (confirm_blocks-Drained n st' (omega (arith, a.popped))))
      ]

  confirm_blocks-IsConfirmed :
      (n : ℕ) (st : MiningState)
      → IsValid st.pool
      → st.pool.count ≡ n
      → let (o, st') = confirm_blocks n e st d in IsConfirmed st o st'
  unfolding confirm_blocks
  confirm_blocks-IsConfirmed zero st v count = finished-IsConfirmed st v count
  confirm_blocks-IsConfirmed (suc n) st v count =
      let (ok, st') = confirm_unchecked e st d in
      let a = confirm_unchecked-Advances e d laws tidy st in
      let c = confirm_unchecked-Carries e d st v in
      elim (Bool-cases ok) [
        | inr failed ↦ rw failed (aborted-IsConfirmed st st')
        | inl done ↦ rw done (
            next-IsConfirmed st st' (confirm_blocks n e st' d).1 _ (rw done at c)
              (confirm_blocks-IsConfirmed n st' c.pool (omega (arith, a.popped))))
      ]

  pub mining_pool-Drained :
      (st : MiningState) (miner_count : ℤ)
      → let (o, st') = mining_pool e st d miner_count in Drained e d st o st'
  unfolding mining_pool pending_is_empty pending_count
  mining_pool-Drained st miner_count = elim (Bool-cases (st.pool.count == 0)) [
    | inl empty ↦ rw empty (refused-Drained e d st)
    | inr more ↦ rw more (
        paid_before-Drained e d st _ _ _
          (confirm_blocks-Drained st.pool.count (with_ledger st _) refl))
  ]

  -- Pool mining always ends. It keeps a valid chain valid, and where it finishes the pool is empty
  -- and every pending block stands behind the old chain, in the order of the queue and with what it
  -- recorded, and nothing else is added. This holds for a valid pool, where signatures verify and none
  -- ends in a zero byte.
  pub mining_pool-drains :
      (st : MiningState) (miner_count : ℤ)
      → IsValid st.pool
      → let (o, st') = mining_pool e st d miner_count in Drained e d st o st' × IsConfirmed st o st'
  unfolding mining_pool pending_is_empty pending_count
  mining_pool-drains st miner_count v =
      let attempts = draw_attempts e 0 (miners_for miner_count) in
      let paid =
        pay_pool e st.ledger (distributable st.pool.count) (sum_attempts attempts) 0 attempts in
      (
        mining_pool-Drained st miner_count,
        elim (Bool-cases (st.pool.count == 0)) [
          | inl empty ↦ rw empty (aborted-IsConfirmed st st)
          | inr more ↦
              rw more (confirm_blocks-IsConfirmed st.pool.count (with_ledger st paid) v refl)
        ],
      )

  cloud_loop-Drained :
      (fuel : ℕ) (st : MiningState)
      → st.pool.count ≤ fuel
      → let (o, st') = cloud_loop fuel e st d in Drained e d st o st'
  unfolding cloud_loop pending_is_empty
  cloud_loop-Drained zero st enough = ground (arith, finished-Drained e d st)
  cloud_loop-Drained (suc fuel) st enough =
      let (ok, st') = confirm_unchecked e st d in
      let a = confirm_unchecked-Advances e d laws tidy st in
      elim (Bool-cases (st.pool.count == 0)) [
        | inl empty ↦ rw empty (finished-Drained e d st (ground arith))
        | inr more ↦ rw more (elim (Bool-cases ok) [
          | inr failed ↦ rw failed (aborted-Drained e d st st' (rw failed at a))
          | inl done ↦ rw done (
              next-Drained e d st st' _ _ (rw done at a)
                (cloud_loop-Drained fuel st' (ground (arith, a.popped))))
        ])
      ]

  cloud_loop-IsConfirmed :
      (fuel : ℕ) (st : MiningState)
      → IsValid st.pool
      → st.pool.count ≤ fuel
      → let (o, st') = cloud_loop fuel e st d in IsConfirmed st o st'
  unfolding cloud_loop pending_is_empty
  cloud_loop-IsConfirmed zero st v enough = ground (arith, finished-IsConfirmed st v)
  cloud_loop-IsConfirmed (suc fuel) st v enough =
      let (ok, st') = confirm_unchecked e st d in
      let a = confirm_unchecked-Advances e d laws tidy st in
      let c = confirm_unchecked-Carries e d st v in
      elim (Bool-cases (st.pool.count == 0)) [
        | inl empty ↦ rw empty (finished-IsConfirmed st v (ground arith))
        | inr more ↦ rw more (elim (Bool-cases ok) [
          | inr failed ↦ rw failed (aborted-IsConfirmed st st')
          | inl done ↦ rw done (
              next-IsConfirmed st st' (cloud_loop fuel e st' d).1 _ (rw done at c)
                (cloud_loop-IsConfirmed fuel st' c.pool (ground (arith, a.popped))))
        ])
      ]

  pub mining_cloud-Drained :
      (st : MiningState) (rounds rental_fee maintenance_fee : ℤ)
      → let (o, st') = mining_cloud e st d rounds rental_fee maintenance_fee in Drained e d st o st'
  unfolding mining_cloud pending_is_empty pending_count
  mining_cloud-Drained st rounds rental_fee maintenance_fee =
      elim (Bool-cases (ltb_ℤ rounds cloud_min_rounds || ltb_ℤ cloud_max_rounds rounds)) [
        | inl outside ↦ rw outside (refused-Drained e d st)
        | inr inside ↦ rw inside (elim (Bool-cases (st.pool.count == 0)) [
          | inl empty ↦ rw empty (refused-Drained e d st)
          | inr more ↦ rw more (
              paid_after-Drained e e d _ st _ _ (cloud_loop-Drained st.pool.count st (omega arith)))
        ])
      ]

  -- Cloud mining always ends. It keeps a valid chain valid, and where it finishes the pool is empty
  -- and every pending block stands behind the old chain, in the order of the queue and with what it
  -- recorded, and nothing else is added. This holds for a valid pool, where signatures verify and none
  -- ends in a zero byte.
  pub mining_cloud-drains :
      (st : MiningState) (rounds rental_fee maintenance_fee : ℤ)
      → IsValid st.pool
      → let (o, st') = mining_cloud e st d rounds rental_fee maintenance_fee in
        Drained e d st o st' × IsConfirmed st o st'
  unfolding mining_cloud pending_is_empty pending_count
  mining_cloud-drains st rounds rental_fee maintenance_fee v = (
    mining_cloud-Drained st rounds rental_fee maintenance_fee,
    elim (Bool-cases (ltb_ℤ rounds cloud_min_rounds || ltb_ℤ cloud_max_rounds rounds)) [
      | inl outside ↦ rw outside (aborted-IsConfirmed st st)
      | inr inside ↦ rw inside (elim (Bool-cases (st.pool.count == 0)) [
        | inl empty ↦ rw empty (aborted-IsConfirmed st st)
        | inr more ↦ rw more (
            paid_after-IsConfirmed e _ st (cloud_loop st.pool.count e st d).1 _
              (cloud_loop-IsConfirmed st.pool.count st v (omega arith)))
      ])
    ],
  )
