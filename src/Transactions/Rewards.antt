-- ===== src/Transactions/Rewards.antt =====
-- Rewards by status, and the id of a reward transaction.
use transaction_models_minin.Common.{◌≡◌, inl, inr, false, some, arith, Option-cases}
use transaction_models_minin.Common.Int.{
  ℤ, pos, ◌-ℤ◌, ◌<ℤ◌, leb_ℤ, sub_int, sub_int_fits, -ℤ_parts, parts_disjoint, FitsInt,
}
use transaction_models_minin.Common.Text.{Text}
use transaction_models_minin.Attendance.{Block, Transaction, tx_fee}
use transaction_models_minin.Env.{Env}
use transaction_models_minin.Transactions.{
  reward_transaction, create_reward_transaction, compute_transaction_id,
}

-- The id of a reward transaction is fixed by the student and the reward: the time, the index and
-- the course of the block do not enter, so equal rewards of one student have one id.
pub create_reward_transaction_repeats :
    (e : Env) (b c : Block)
    → b.student_id ≡ c.student_id
    → b.token_reward ≡ c.token_reward
    → create_reward_transaction e b ≡ create_reward_transaction e c
unfolding create_reward_transaction
create_reward_transaction_repeats e b c s r = rw (s, r)

net_positive : (r : ℤ) → pos 1 <ℤ r → FitsInt r → leb_ℤ (sub_int r tx_fee) (pos 0) ≡ false
net_positive r above fits =
    let parts = -ℤ_parts r tx_fee in
    rw
      (sub_int_fits r tx_fee
        (ground (arith, parts, parts_disjoint (r -ℤ tx_fee), parts_disjoint r)))
      (ground (arith, parts))

-- What a transaction of a reward above the fee is, whenever there is one.
pub create_reward_transaction-eq_some :
    (e : Env) (b : Block) (tx : Transaction)
    → pos 1 <ℤ b.token_reward
    → FitsInt b.token_reward
    → create_reward_transaction e b ≡ some tx
    → (id : Text) × (tx ≡ record (reward_transaction b.student_id b.token_reward) { tx_id = id })
unfolding create_reward_transaction
create_reward_transaction-eq_some e b tx above fits made =
    elim (Option-cases
      (compute_transaction_id e (reward_transaction b.student_id b.token_reward))) [
        | inl failed ↦ absurd (ground (arith, net_positive b.token_reward above fits))
        | inr (id, done) ↦ (id, ground (arith, net_positive b.token_reward above fits))
      ]
