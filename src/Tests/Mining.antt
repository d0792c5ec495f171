-- ===== src/Tests/Mining.antt =====
-- The pool of pending blocks and the three ways of mining at concrete inputs.
use transaction_models_minin.Common.Int.{◌+ℤ◌}
use transaction_models_minin.Common.{◌≡◌, ◌+◌, ◌*◌, ◌≤◌, true, false, [], ◌∷◌, some, arith, All}
use transaction_models_minin.Common.Int.{pos, negsuc, ◌-ℤ◌, int_max}
use transaction_models_minin.Common.Text.{codes}
use transaction_models_minin.Attendance.{ledger_account, pool_fee_percent}
use transaction_models_minin.Blockchain.{blockchain_tip}
use transaction_models_minin.Ledger.{empty_ledger}
use transaction_models_minin.Pending.{
  pending_add, pending_remove_front, mark_attendance, attendance_block,
}
use transaction_models_minin.Pending.Queue.{
  contents, seen, enqueue, dequeue, pending_add-refines, pending_remove_front-refines,
}
use transaction_models_minin.Pending.Mark.{Enqueued, mark_attendance-enqueues}
use transaction_models_minin.Mining.{MiningState, mining_solo}
use transaction_models_minin.Mining.Solo.{Drained, mining_solo-drains}
use transaction_models_minin.Mining.Pool.{
  mining_pool, sum_attempts, draw_attempts, gross_reward, pool_fee, distributable, miners_for,
}
use transaction_models_minin.Mining.Pool.Shares.{
  paid_out, InRange, pool_payments-le, pool-no_overflow,
}
use transaction_models_minin.Mining.Cloud.{mining_cloud, cloud_sums}
use transaction_models_minin.Mining.Cloud.Profit.{cloud_sums-profit}
use transaction_models_minin.Mining.Drains.{IsConfirmed, mining_pool-drains, mining_cloud-drains}
use transaction_models_minin.Tests.World.{
  world, world-SignatureLaws, world-EndsNonzero, genesis, mined, alice, bob, registry, one_pending,
  one_pending-IsValid,
}

pending_add-refines_example :
    seen (pending_add one_pending mined) ≡ enqueue (contents one_pending) mined
pending_add-refines_example = pending_add-refines one_pending mined one_pending-IsValid

pending_remove_front-refines_example :
    seen (pending_remove_front one_pending) ≡ dequeue (contents one_pending)
pending_remove_front-refines_example = pending_remove_front-refines one_pending one_pending-IsValid

mark_attendance-enqueues_example :
    let (accepted, pool') =
      mark_attendance world one_pending (genesis ∷ []) registry alice (codes "LATE") in
    (accepted ≡ false → pool' ≡ one_pending)
    × (accepted ≡ true
        → Enqueued world one_pending registry alice
            (codes "LATE")
            (λ s. attendance_block world (blockchain_tip (genesis ∷ [])) 1 s (codes "LATE"))
            pool')
mark_attendance-enqueues_example =
    mark_attendance-enqueues world one_pending (genesis ∷ []) registry alice (codes "LATE")
      world-SignatureLaws world-EndsNonzero one_pending-IsValid

-- One block is pending on the genesis block.
abbrev start : MiningState
start = record { chain = genesis ∷ []; pool = one_pending; ledger = empty_ledger ledger_account }

mining_solo-drains_example :
    let (o, st') = mining_solo world start (pos 1) (some bob) in Drained world (pos 1) start o st'
mining_solo-drains_example =
    mining_solo-drains world (pos 1) world-SignatureLaws world-EndsNonzero start (some bob)

mining_pool-drains_example :
    let (o, st') = mining_pool world start (pos 1) (pos 3) in
    Drained world (pos 1) start o st' × IsConfirmed start o st'
mining_pool-drains_example =
    mining_pool-drains world (pos 1) world-SignatureLaws world-EndsNonzero start (pos 3)
      one_pending-IsValid

mining_cloud-drains_example :
    let (o, st') = mining_cloud world start (pos 1) (pos 2) (pos 4) (pos 1) in
    Drained world (pos 1) start o st' × IsConfirmed start o st'
mining_cloud-drains_example =
    mining_cloud-drains world (pos 1) world-SignatureLaws world-EndsNonzero start (pos 2) (pos 4)
      (pos 1) one_pending-IsValid

pool_payments-le_example :
    paid_out (distributable 3) (sum_attempts (60 ∷ 120 ∷ [])) (60 ∷ 120 ∷ [])
      + pool_fee (gross_reward 3)
    ≤ 3 * 20
pool_payments-le_example = pool_payments-le 3 (60 ∷ 120 ∷ [])

pool-no_overflow_example :
    (gross_reward 256 * pool_fee_percent ≤ int_max)
    × (200 * distributable 256 ≤ int_max)
    × (sum_attempts (draw_attempts world 0 (miners_for (pos 8))) ≤ 1600)
    × All InRange (draw_attempts world 0 (miners_for (pos 8)))
pool-no_overflow_example = pool-no_overflow world 256 (pos 8) 200 (omega arith) (omega arith)

-- Two rounds of one block, with a rent of five coins and a maintenance that gives thirty back.
cloud_sums-profit_example :
    let s = cloud_sums 2 1 (pos 5) (negsuc 29) in
    (s.gross_earnings ≡ pos (2 * (1 * 20)))
    × (s.total_fees ≡ pos (2 * 0) -ℤ pos (2 * 25))
    × (s.net_profit ≡ pos (2 * (1 * 20 + 25)) -ℤ pos (2 * 0))
unfolding ◌+ℤ◌
cloud_sums-profit_example =
    cloud_sums-profit 2 1 (pos 5) (negsuc 29) (omega arith) (omega arith, omega arith) (omega arith)
      (omega arith)
