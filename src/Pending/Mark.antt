-- ===== src/Pending/Mark.antt =====
-- What marking attendance puts into the pool.
use transaction_models_minin.Common.{
  ℕ, ◌≡◌, refl, subst, ◌∙◌, inl, inr, true, false, [], ◌∷◌, ◌++◌, Option, some, arith, leb,
  if◌then◌else◌, replicate, set, ◌+◌, Bool-cases, Option-cases,
}
use transaction_models_minin.Common.Int.{pos, ltb_ℤ}
use transaction_models_minin.Common.Text.{Text, strncpy}
use transaction_models_minin.Attendance.{
  Block, Chain, Student, StudentRegistry, PendingPool, max_pending, student_id_max, status_max,
  hash_max, Transaction,
}
use transaction_models_minin.Env.{Env, SignatureLaws}
use transaction_models_minin.Students.{find_student, is_valid_status}
use transaction_models_minin.Transactions.{token_reward_for_status, create_reward_transaction}
use transaction_models_minin.Crypto.{sign_block, verify_block_signature}
use transaction_models_minin.Crypto.Payload.{verify_block_signature-mined}
use transaction_models_minin.Crypto.Signature.{EndsNonzero, sign_block-eq_some, verify-sign_block}
use transaction_models_minin.Blockchain.{blockchain_tip}
use transaction_models_minin.Pending.{
  pending_add, sign_pending, finalize_pending_block, attendance_block, mark_attendance,
}
use transaction_models_minin.Pending.Queue.{IsValid, pending_add-IsValid, contents, take-set_end}

-- A block that was finished for the pool: the fields of the draft, and a signature that verifies.
record IsFinished (e : Env) (draft b : Block) : Type 0 where
  student_kept : b.student_id ≡ draft.student_id
  status_kept : b.status ≡ draft.status
  reward_kept : b.token_reward ≡ draft.token_reward
  id_kept : b.transaction_id ≡ draft.transaction_id
  verifies : verify_block_signature e b ≡ true

sign_pending-IsFinished :
    (e : Env) (b b' : Block)
    → SignatureLaws e
    → EndsNonzero e
    → sign_pending e b ≡ some b'
    → IsFinished e b b'
unfolding sign_pending
sign_pending-IsFinished e b b' laws tidy made = elim (Option-cases (sign_block e b)) [
  | inl failed ↦ absurd (ground arith)
  | inr (s, signed) ↦
      let shape : record s { hash = replicate 64 b'0' } ≡ b' = ground arith in
      let (_, _, _, shape', _) = sign_block-eq_some e b s signed in
      subst (IsFinished e b) shape (record {
        student_kept = rw shape' refl;
        status_kept = rw shape' refl;
        reward_kept = rw shape' refl;
        id_kept = rw shape' refl;
        verifies =
            verify_block_signature-mined e s s.nonce (replicate 64 b'0')
            ∙ verify-sign_block e b s laws tidy signed;
      })
]

-- The id that a block carries: that of its reward transaction, and none without a reward.
abbrev pub HasRewardId : Env → Block → Text → Type 0
HasRewardId e draft id =
    if ltb_ℤ (pos 0) draft.token_reward
    then ((tx : Transaction) × (create_reward_transaction e draft ≡ some tx)
        × (id ≡ strncpy hash_max tx.tx_id))
    else (id ≡ [])

-- What is marked: the student's id, the status, its reward with the id of its transaction, and a
-- signature that verifies.
pub record IsMark (e : Env) (student : Student) (st : Text) (draft b : Block) : Type 0 where
  pub student_id : b.student_id ≡ strncpy student_id_max student.student_id
  pub status : b.status ≡ strncpy status_max st
  pub reward : b.token_reward ≡ token_reward_for_status st
  pub identified : HasRewardId e draft b.transaction_id
  pub signed : verify_block_signature e b ≡ true

finalize-IsFinished :
    (e : Env) (b b' : Block)
    → SignatureLaws e
    → EndsNonzero e
    → finalize_pending_block e b ≡ some b'
    → (id : Text) × IsFinished e (record b { transaction_id = id }) b' × HasRewardId e b id
unfolding finalize_pending_block
finalize-IsFinished e b b' laws tidy made = elim (Bool-cases (ltb_ℤ (pos 0) b.token_reward)) [
  | inl more ↦ elim (Option-cases (create_reward_transaction e b)) [
    | inl failed ↦ absurd (ground arith)
    | inr (tx, found) ↦ (
      strncpy hash_max tx.tx_id,
      sign_pending-IsFinished e (record b { transaction_id = strncpy hash_max tx.tx_id }) b' laws
          tidy (ground arith),
      rw more (tx, found, refl),
    )
  ]
  | inr none_due ↦ (
    [],
    sign_pending-IsFinished e (record b { transaction_id = [] }) b' laws tidy (ground arith),
    rw none_due refl,
  )
]

-- A block that is finished from the draft of a student's attendance is the mark.
finished-IsMark :
    (e : Env) (tip : Option Block) (count : ℕ) (student : Student) (status : Text) (b : Block)
    → SignatureLaws e
    → EndsNonzero e
    → finalize_pending_block e (attendance_block e tip count student status) ≡ some b
    → IsMark e student status (attendance_block e tip count student status) b
unfolding attendance_block
finished-IsMark e tip count student status b laws tidy made =
    let (id, f, due) = finalize-IsFinished e _ b laws tidy made in
    record {
      student_id = f.student_kept;
      status = f.status_kept;
      reward = f.reward_kept;
      identified = rw f.id_kept due;
      signed = f.verifies;
    }

-- A mark of a draft, by a registered student with a valid status, stands last in the queue.
abbrev pub Enqueued :
    Env → PendingPool → StudentRegistry → Text → Text → (Student → Block) → PendingPool → Type 0
Enqueued e pool registry id status draft pool' =
    (student : Student) × (b : Block) × (is_valid_status status ≡ true)
    × (find_student registry id ≡ some student)
    × IsMark e student status (draft student) b
    × (contents pool' ≡ contents pool ++ b ∷ [])

pending_add-room :
    (pool : PendingPool) (b : Block)
    → leb max_pending pool.count ≡ false
    → pending_add pool b
      ≡ (true, record { blocks = set pool.blocks pool.count b; count = pool.count + 1 })
unfolding pending_add
pending_add-room pool b room = rw room refl

-- Attendance that is marked stands last in the queue, as a block of a registered student with a
-- valid status, its reward and a signature that verifies; attendance that is refused leaves the
-- pool as it was. This holds for a valid pool, where signatures verify and none ends in a zero byte.
pub mark_attendance-enqueues :
    (e : Env) (pool : PendingPool) (chain : Chain) (registry : StudentRegistry) (id status : Text)
    → SignatureLaws e
    → EndsNonzero e
    → IsValid pool
    → let (marked, pool') = mark_attendance e pool chain registry id status in
      (marked ≡ false → pool' ≡ pool)
      × (marked ≡ true
          → Enqueued e pool registry id status
              (λ s. attendance_block e (blockchain_tip chain) pool.count s status)
              pool')
unfolding mark_attendance
mark_attendance-enqueues e pool chain registry id status laws tidy v =
    elim (Bool-cases (is_valid_status status)) [
      | inr bad ↦ rw bad (λ _. refl, λ h. absurd (cc))
      | inl good ↦ elim (Option-cases (find_student registry id)) [
        | inl missing ↦ rw (good, missing) (λ _. refl, λ h. absurd (cc))
        | inr (student, found) ↦ elim (Bool-cases (leb max_pending pool.count)) [
          | inl full ↦ rw (good, found, full) (λ _. refl, λ h. absurd (cc))
          | inr room ↦
              elim (Option-cases (
                finalize_pending_block e
                  (attendance_block e (blockchain_tip chain) pool.count student status))) [
                    | inl failed ↦ rw (good, found, room, failed) (λ _. refl, λ h. absurd (cc))
                    | inr (b, made) ↦
                        rw (good, found, room, made, pending_add-room pool b room)
                          (
                            λ h. absurd (cc),
                            λ h. (
                              student,
                              b,
                              refl,
                              refl,
                              finished-IsMark e (blockchain_tip chain) pool.count student status b
                                  laws tidy made,
                              take-set_end pool.blocks pool.count b (ground arith),
                            ),
                          )
                  ]
        ]
      ]
    ]

-- Marking attendance keeps the pool in order, whatever it returns.
pub mark_attendance-IsValid :
    (e : Env) (pool : PendingPool) (chain : Chain) (registry : StudentRegistry) (id status : Text)
    → IsValid pool
    → IsValid (mark_attendance e pool chain registry id status).1
unfolding mark_attendance
mark_attendance-IsValid e pool chain registry id status v =
    elim (Bool-cases (is_valid_status status)) [
      | inr bad ↦ rw bad v
      | inl good ↦ rw good (elim (Option-cases (find_student registry id)) [
        | inl missing ↦ rw missing v
        | inr (student, found) ↦ rw found (elim (Bool-cases (leb max_pending pool.count)) [
          | inl full ↦ rw full v
          | inr room ↦ rw room (
              let draft = attendance_block e (blockchain_tip chain) pool.count student status in
              elim (Option-cases (finalize_pending_block e draft)) [
                | inl failed ↦ rw failed v
                | inr (b, made) ↦ rw made (pending_add-IsValid pool b v)
              ])
        ])
      ])
    ]
