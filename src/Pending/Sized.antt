-- ===== src/Pending/Sized.antt =====
-- The blocks that marking attendance makes (pending.c) fit their types and arrays.
use transaction_models_minin.Common.{
  ℕ, ◌≤◌, ◌≡◌, refl, sym, ap, subst, ◌∙◌, inl, inr, List, [], ◌∷◌, Option, none, some, arith, leb,
  length, All, All-append, replicate, Bool-cases, Option-cases,
}
use transaction_models_minin.Common.Int.{pos, ltb_ℤ, FitsInt, add_int, add_int-FitsInt}
use transaction_models_minin.Common.Text.{Text, strncpy, length-strncpy}
use transaction_models_minin.Attendance.{
  Block, Chain, PendingPool, Student, StudentRegistry, max_pending, genesis_prev_hash,
  student_id_max, full_name_max, course_code_max, status_max, hash_max,
}
use transaction_models_minin.Env.{Env}
use transaction_models_minin.Crypto.{sign_block}
use transaction_models_minin.Crypto.Signature.{sign_block-eq_some}
use transaction_models_minin.Crypto.Fits.{FitsLong, IsSized}
use transaction_models_minin.Students.{find_student, is_valid_status}
use transaction_models_minin.Transactions.{token_reward_for_status, create_reward_transaction}
use transaction_models_minin.Blockchain.{blockchain_tip}
use transaction_models_minin.Pending.{
  pending_add, sign_pending, finalize_pending_block, placed_block, init_pending_block_fields,
  attendance_block, mark_attendance,
}
use transaction_models_minin.Pending.Queue.{IsValid, contents, take-set_end}

token_reward_for_status-FitsInt : (status : Text) → FitsInt (token_reward_for_status status)
unfolding token_reward_for_status
token_reward_for_status-FitsInt status = ground arith

placed_block-FitsInt :
    (e : Env) (tip : Option Block) (count : ℕ) → FitsInt (placed_block e tip count).index
unfolding placed_block init_pending_block_fields
placed_block-FitsInt e none count = omega arith
placed_block-FitsInt e (some tip) count = add_int-FitsInt (add_int tip.index (pos 1)) (pos count)

placed_block-previous :
    (e : Env) (tip : Option Block) (count : ℕ)
    → (length (placed_block e tip count).previous_hash ≤ hash_max)
      × ((placed_block e tip count).timestamp ≡ e.now)
      × ((placed_block e tip count).transaction_id ≡ [])
      × ((placed_block e tip count).nonce ≡ 0)
unfolding placed_block init_pending_block_fields
placed_block-previous e none count = (length-strncpy hash_max genesis_prev_hash, refl, refl, refl)
placed_block-previous e (some tip) count = (length-strncpy hash_max tip.hash, refl, refl, refl)

attendance_block-IsSized :
    (e : Env) (tip : Option Block) (count : ℕ) (student : Student) (status : Text)
    → FitsLong e.now
    → IsSized (attendance_block e tip count student status)
unfolding attendance_block
attendance_block-IsSized e tip count student status clock =
    let (previous, at, no_id, zero_nonce) = placed_block-previous e tip count in
    record {
      index = placed_block-FitsInt e tip count;
      timestamp = subst FitsLong (sym at) clock;
      student_id = length-strncpy student_id_max student.student_id;
      full_name = length-strncpy full_name_max student.full_name;
      course_code = length-strncpy course_code_max student.course_code;
      status = length-strncpy status_max status;
      token_reward = token_reward_for_status-FitsInt status;
      transaction_id = rw no_id (omega arith);
      nonce = rw zero_nonce (omega arith);
      previous_hash = previous;
    }

-- The id, the signature and the hash are the last fields to be set.
identified-IsSized :
    (b : Block) (id : Text) (s : List ℕ) (h : Text)
    → IsSized b
    → length id ≤ hash_max
    → IsSized (record b { transaction_id = id; signature = s; hash = h })
identified-IsSized b id s h z fits = record {
  index = z.index;
  timestamp = z.timestamp;
  student_id = z.student_id;
  full_name = z.full_name;
  course_code = z.course_code;
  status = z.status;
  token_reward = z.token_reward;
  transaction_id = fits;
  nonce = z.nonce;
  previous_hash = z.previous_hash;
}

sign_pending-IsSized :
    (e : Env) (b b' : Block) → IsSized b → sign_pending e b ≡ some b' → IsSized b'
unfolding sign_pending
sign_pending-IsSized e b b' z made = elim (Option-cases (sign_block e b)) [
  | inl failed ↦ absurd (ground arith)
  | inr (s, signed) ↦
      let shape : record s { hash = replicate 64 b'0' } ≡ b' = ground arith in
      let (sig, _, _, shape', _) = sign_block-eq_some e b s signed in
      subst IsSized (ap (λ (x : Block). record x { hash = replicate 64 b'0' }) (sym shape') ∙ shape)
        (identified-IsSized b b.transaction_id _ (replicate 64 b'0') z z.transaction_id)
]

finalize_pending_block-IsSized :
    (e : Env) (b b' : Block) → IsSized b → finalize_pending_block e b ≡ some b' → IsSized b'
unfolding finalize_pending_block
finalize_pending_block-IsSized e b b' z made = elim (Bool-cases (ltb_ℤ (pos 0) b.token_reward)) [
  | inr nothing ↦
      sign_pending-IsSized e (record b { transaction_id = [] }) b'
        (identified-IsSized b [] b.signature b.hash z (omega arith)) (ground arith)
  | inl due ↦ elim (Option-cases (create_reward_transaction e b)) [
    | inl failed ↦ absurd (ground arith)
    | inr (tx, found) ↦
        sign_pending-IsSized e (record b { transaction_id = strncpy hash_max tx.tx_id }) b'
          (identified-IsSized b (strncpy hash_max tx.tx_id) b.signature b.hash z
            (length-strncpy hash_max tx.tx_id))
          (ground arith)
  ]
]

added-IsSized :
    (pool : PendingPool) (b : Block)
    → IsValid pool
    → All IsSized (contents pool)
    → IsSized b
    → All IsSized (contents (pending_add pool b).1)
unfolding pending_add
added-IsSized pool b v h z = elim (Bool-cases (leb max_pending pool.count)) [
  | inl full ↦ rw full h
  | inr room ↦
      rw (room, take-set_end pool.blocks pool.count b (ground arith))
        (All-append IsSized (contents pool) (b ∷ []) h (z, tt))
]

-- Marking attendance keeps the pool sized, for any student and status and whatever it returns, where the
-- clock fits a `time_t`.
pub mark_attendance-IsSized :
    (e : Env) (pool : PendingPool) (chain : Chain) (registry : StudentRegistry) (id status : Text)
    → FitsLong e.now
    → IsValid pool
    → All IsSized (contents pool)
    → All IsSized (contents (mark_attendance e pool chain registry id status).1)
unfolding mark_attendance
mark_attendance-IsSized e pool chain registry id status clock v h =
    elim (Bool-cases (is_valid_status status)) [
      | inr bad ↦ rw bad h
      | inl good ↦ rw good (elim (Option-cases (find_student registry id)) [
        | inl missing ↦ rw missing h
        | inr (student, found) ↦ rw found (elim (Bool-cases (leb max_pending pool.count)) [
          | inl full ↦ rw full h
          | inr room ↦ rw room (
              let draft = attendance_block e (blockchain_tip chain) pool.count student status in
              elim (Option-cases (finalize_pending_block e draft)) [
                | inl failed ↦ rw failed h
                | inr (b, made) ↦ rw made (
                    added-IsSized pool b v h (
                      finalize_pending_block-IsSized e draft b
                        (attendance_block-IsSized e (blockchain_tip chain) pool.count student status
                          clock)
                        made))
              ])
        ])
      ])
    ]
