-- ===== src/Tests/Progress.antt =====
-- Sessions at concrete inputs that reach their end: what they leave fits, and can be mined.
use transaction_models_minin.Common.Int.{add_int, sub_int, pos}
use transaction_models_minin.Transactions.{
  output_text, write_outputs, write_inputs, reward_transaction, header_text, append_text,
  serialize_transaction, compute_transaction_id, token_reward_for_status, create_reward_transaction,
}
use transaction_models_minin.Cli.Parsing.{
  mark_of, word_of, scan, command_of, mark, parse_command, trim_input,
}
use transaction_models_minin.Common.Text.{
  trim_end, skip_spaces, Text, codes, decimal, decimal_int, digits, strcmp_eq,
}
use transaction_models_minin.Common.{
  ℕ, ◌/◌, ◌%◌, ◌≤◌, ◌<◌, ◌≡◌, refl, true, false, List, [], ◌∷◌, none, some, arith, leb, length,
  replicate,
}
use transaction_models_minin.Env.{Env}
use transaction_models_minin.Attendance.{Block, ledger_utxo, Student}
use transaction_models_minin.Crypto.{
  payload_size, serialize_block_payload, compute_block_hash, hex, hex_digit, sha256_hex,
  serialize_block_for_hash, sign_block, serialize_block_for_signature, payload_head, payload_tail,
  store_signature,
}
use transaction_models_minin.Crypto.Fits.{IsSized, serialize_block_payload-fits}
use transaction_models_minin.Students.{find_student, is_valid_status}
use transaction_models_minin.Blockchain.{blockchain_tip}
use transaction_models_minin.Pending.{
  pending_init, pending_add, mark_attendance, attendance_block, placed_block,
  init_pending_block_fields, finalize_pending_block, sign_pending,
}
use transaction_models_minin.Cli.{
  execute, Options, App, default_options, session, startup, ledger_at_start,
}
use transaction_models_minin.Difficulty.{leading_zeros, hash_meets_difficulty}
use transaction_models_minin.Ledger.{ledger_init}
use transaction_models_minin.Mining.{MiningState, finished}
use transaction_models_minin.Mining.Pool.{mining_pool}
use transaction_models_minin.Mining.Work.{hash_at, meets}
use transaction_models_minin.Mining.Bounds.{InBounds}
use transaction_models_minin.Mining.Progress.{CanMine, renonced-IsSized}
use transaction_models_minin.Mining.Progress.Pool.{AllConfirmed}
use transaction_models_minin.Cli.Bounds.{startup-session-InBounds}
use transaction_models_minin.Cli.Progress.{startup-session-confirms}
use transaction_models_minin.Tests.Sessions.{
  registry_file, registry_loaded, new_app, lines, new_app-started, starts, chain_started,
}
use transaction_models_minin.Tests.World.{alice, world, registry, genesis, marked, one_pending}

startup-session-InBounds_example : InBounds (session new_app lines).mining
startup-session-InBounds_example =
    startup-session-InBounds world default_options (some registry_file) true none new_app lines
      new_app-started

marked-IsSized : IsSized marked
marked-IsSized = record {
  index = omega arith;
  timestamp = omega arith;
  student_id = omega arith;
  full_name = omega arith;
  course_code = omega arith;
  status = omega arith;
  token_reward = omega arith;
  transaction_id = omega arith;
  nonce = omega arith;
  previous_hash = omega arith;
}

serialize_block_payload-fits_example :
    (length (serialize_block_payload marked true) ≤ 285)
    × (leb payload_size (length (serialize_block_payload marked true)) ≡ false)
serialize_block_payload-fits_example = serialize_block_payload-fits marked true marked-IsSized

-- In this world every hash begins with a zero.
zero_first : (n : ℕ) → n < 16 → leading_zeros (hex (replicate 32 n)) 1 ≡ true
unfolding leading_zeros hex hex_digit
zero_first n h = let z : n / 16 ≡ 0 = omega arith in rw z refl

hash-meets : (b : Block) → IsSized b → meets (pos 1) (hash_at world b 0) ≡ true
unfolding compute_block_hash sha256_hex serialize_block_for_hash hash_meets_difficulty leading_zeros
    hex hex_digit
hash-meets b h =
    let b' = record b { nonce = 0 } in
    let n = length (serialize_block_payload b' true) in
    let sized = renonced-IsSized b 0 b.signature h (omega arith) in
    let room = (serialize_block_payload-fits b' true sized).1 in
    let z : n % 16 / 16 ≡ 0 = omega arith in rw (room, z) refl

world-CanMine : CanMine world (pos 1)
world-CanMine = record {
  low = omega arith;
  high = omega arith;
  digests = λ p. (replicate 32 (length p % 16), refl);
  signs = λ p. (1 ∷ [], refl, omega arith);
  saves = λ chain. refl;
  solvable = λ b h. (0, omega arith, hash-meets b h);
}

abbrev easy_options : Options
easy_options = record { g_model = ledger_utxo; g_difficulty = pos 1 }

abbrev easy_app : App
easy_app = record new_app { options = easy_options }

easy_app-started : startup world easy_options (some registry_file) true none ≡ some easy_app
unfolding ledger_at_start ledger_init
easy_app-started =
    starts world easy_options (some registry_file) none registry (genesis ∷ []) registry_loaded
      chain_started

abbrev mark_line : List (Env × Text)
mark_line = (world, codes "mark S001 PRESENT") ∷ []

abbrev marked_app : App
marked_app = record easy_app { mining = record easy_app.mining { pool = one_pending } }

mark_parsed : parse_command (trim_input (codes "mark S001 PRESENT")) ≡ mark alice (codes "PRESENT")
unfolding parse_command command_of scan word_of skip_spaces trim_input trim_end strcmp_eq mark_of
mark_parsed = refl

abbrev ada : Student
ada = record { student_id = alice; full_name = codes "Ada"; course_code = codes "CS1" }

mark_finalized :
    finalize_pending_block world (attendance_block world (some genesis) 0 ada (codes "PRESENT"))
    ≡ some marked
unfolding attendance_block placed_block init_pending_block_fields finalize_pending_block
    token_reward_for_status sign_pending sign_block serialize_block_for_signature
    serialize_block_payload payload_head payload_tail decimal_int decimal digits store_signature
    create_reward_transaction strcmp_eq sub_int compute_transaction_id serialize_transaction
    append_text header_text reward_transaction write_inputs write_outputs output_text sha256_hex
    add_int hex hex_digit
mark_finalized = refl

mark_queued :
    mark_attendance world pending_init (genesis ∷ []) registry alice (codes "PRESENT")
    ≡ (true, one_pending)
unfolding mark_attendance is_valid_status find_student strcmp_eq pending_init blockchain_tip
    pending_add
mark_queued = rw mark_finalized refl

marked_session : session easy_app mark_line ≡ marked_app
unfolding session execute
marked_session = rw (mark_parsed, mark_queued) refl

startup-session-confirms_example :
    let app = session easy_app mark_line in
    (st : MiningState) × (mining_pool world app.mining app.options.g_difficulty (pos 3)
      ≡ (finished, st))
    × AllConfirmed app.mining st
startup-session-confirms_example =
    startup-session-confirms world world easy_options (some registry_file) true none easy_app
      mark_line (pos 3) easy_app-started (omega arith, tt) (rw marked_session world-CanMine)
      (rw marked_session (omega arith)) (rw marked_session (omega arith))
