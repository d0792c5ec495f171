-- ===== src/Pending.antt =====
-- pending.c: the pool of unconfirmed blocks, an array of `max_pending` blocks, and how attendance
-- enters it.
pub mod Queue
pub mod Mark
pub mod Sized
pub mod Print
use transaction_models_minin.Common.{
  ℕ, zero, suc, ◌+◌, ◌-◌, Bool, true, false, not, List, [], ◌∷◌, Option, none, some, leb, ◌==◌,
  if◌then◌else◌, length, get_or, set, replicate,
}
use transaction_models_minin.Common.Int.{ℤ, pos, add_int, ltb_ℤ}
use transaction_models_minin.Common.Text.{Text, codes, strncpy}
use transaction_models_minin.Attendance.{
  Block, Chain, PendingPool, StudentRegistry, Student, Transaction, max_pending, genesis_prev_hash,
  student_id_max, full_name_max, course_code_max, status_max, hash_max,
}
use transaction_models_minin.Env.{Env}
use transaction_models_minin.Crypto.{sign_block}
use transaction_models_minin.Students.{find_student, is_valid_status}
use transaction_models_minin.Transactions.{token_reward_for_status, create_reward_transaction}
use transaction_models_minin.Blockchain.{zero_block, blockchain_tip}

unfoldable pub pending_init : PendingPool
pending_init = record { blocks = replicate max_pending zero_block; count = 0 }

unfoldable pub pending_add : PendingPool → Block → Bool × PendingPool
pending_add pool b =
    if leb max_pending pool.count
    then (false, pool)
    else (true, record { blocks = set pool.blocks pool.count b; count = pool.count + 1 })

unfoldable pub pending_is_empty : PendingPool → Bool
pending_is_empty pool = pool.count == 0

unfoldable pub pending_count : PendingPool → ℕ
pending_count pool = pool.count

unfoldable pub pending_get : PendingPool → ℕ → Option Block
pending_get pool index =
    if leb pool.count index then none else some (get_or pool.blocks index zero_block)

unfoldable pub pending_clear : PendingPool → PendingPool
pending_clear pool = record pool { count = 0 }

-- `blocks[i - 1] = blocks[i]` for `rounds` values of `i`, from `i = j + 1` on.
unfoldable pub shift_from : List Block → ℕ → ℕ → List Block
shift_from blocks j zero = blocks
shift_from blocks j (suc rounds) =
    shift_from (set blocks j (get_or blocks (suc j) zero_block)) (suc j) rounds

-- The block that goes out, and the pool.
unfoldable pub pending_remove_front : PendingPool → Option Block × PendingPool
pending_remove_front pool = if pool.count == 0 then (none, pool) else (
  some (get_or pool.blocks 0 zero_block),
  record { blocks = shift_from pool.blocks 0 (pool.count - 1); count = pool.count - 1 },
)

unfoldable pub init_pending_block_fields : Env → ℤ → Text → Block
init_pending_block_fields e index previous_hash = record zero_block {
  index = index;
  timestamp = e.now;
  previous_hash = strncpy hash_max previous_hash;
}

-- The hash of a pending block is a place holder.
unfoldable pub sign_pending : Env → Block → Option Block
sign_pending e b = elim (sign_block e b) [
  | none ↦ none
  | some s ↦ some (record s { hash = replicate 64 b'0' })
]

unfoldable pub finalize_pending_block : Env → Block → Option Block
finalize_pending_block e b =
    if ltb_ℤ (pos 0) b.token_reward
    then elim (create_reward_transaction e b) [
      | none ↦ none
      | some tx ↦ sign_pending e (record b { transaction_id = strncpy hash_max tx.tx_id })
    ]
    else sign_pending e (record b { transaction_id = [] })

-- The index and the link are final only when the block is mined.
unfoldable pub placed_block : Env → Option Block → ℕ → Block
placed_block e none count = init_pending_block_fields e (pos 0) genesis_prev_hash
placed_block e (some tip) count =
    init_pending_block_fields e (add_int (add_int tip.index (pos 1)) (pos count)) tip.hash

-- The block of a student at the tip of the chain, before it is finished.
unfoldable pub attendance_block : Env → Option Block → ℕ → Student → Text → Block
attendance_block e tip count student status = record (placed_block e tip count) {
  student_id = strncpy student_id_max student.student_id;
  full_name = strncpy full_name_max student.full_name;
  course_code = strncpy course_code_max student.course_code;
  status = strncpy status_max status;
  token_reward = token_reward_for_status status;
}

unfoldable pub mark_attendance :
    Env → PendingPool → Chain → StudentRegistry → Text → Text → Bool × PendingPool
mark_attendance e pool chain registry student_id status =
    if not (is_valid_status status)
    then (false, pool)
    else elim (find_student registry student_id) [
      | none ↦ (false, pool)
      | some student ↦
          if leb max_pending pool.count
          then (false, pool)
          else elim (finalize_pending_block e
              (attendance_block e (blockchain_tip chain) pool.count student status)) [
                | none ↦ (false, pool)
                | some b ↦ pending_add pool b
              ]
    ]
