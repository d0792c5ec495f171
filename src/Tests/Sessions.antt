-- ===== src/Tests/Sessions.antt =====
-- The registry file, the options and a session at concrete inputs.
use transaction_models_minin.Crypto.{
  sha256_hex, serialize_block_for_hash, compute_block_hash, payload_tail, payload_head,
  serialize_block_payload, serialize_block_for_signature, sign_block,
}
use transaction_models_minin.Blockchain.{
  init_block_fields, finalize_genesis_block, create_genesis_block, blockchain_init, ChainFile,
  blockchain_load, blockchain_save,
}
use transaction_models_minin.Common.Text.{
  decimal_int, skip_spaces, strcmp_eq, trim_end, Text, codes,
}
use transaction_models_minin.Common.Int.{wrap32, pos}
use transaction_models_minin.Cli.Parsing.{
  digits_value, int_of, signed_value, atoi, mine_of, word_of, scan, command_of, mark_of,
  parse_command, trim_input,
}
use transaction_models_minin.Cli.{
  clamp_difficulty, Options, default_options, parse_cli_args, App, session, startup, chain_at_start,
  ledger_at_start,
}
use transaction_models_minin.Students.Loading.{
  nonempty_registry, make_student, pieces, nonempty, tokens, student_of, parse_student_line,
  trim_newline, is_skipped, load_lines, load_student_registry, HasId, load_student_registry-IsValid,
}
use transaction_models_minin.Common.{
  ◌≡◌, ◌<◌, ◌≤◌, refl, true, List, [], ◌∷◌, Option, none, some, arith, length, All,
}
use transaction_models_minin.Attendance.{
  ledger_utxo, ledger_account, max_students, Chain, StudentRegistry,
}
use transaction_models_minin.Env.{Env}
use transaction_models_minin.Ledger.{empty_ledger, ledger_init}
use transaction_models_minin.Pending.{pending_init, pending_remove_front}
use transaction_models_minin.Blockchain.Genesis.{blockchain_init-validates}
use transaction_models_minin.Mining.{MiningState, mining_solo, aborted}
use transaction_models_minin.Mining.Lost.{mining_solo_loses_block}
use transaction_models_minin.Cli.Session.{
  is_harmless, IsHarmless, HasValidChain, session-keeps_chain, startup-session-valid,
}
use transaction_models_minin.Tests.World.{
  world, world-SignatureLaws, world-EndsNonzero, genesis, genesis_chain, registry, one_pending,
}

abbrev pub registry_file : List Text
registry_file = codes "# id,name,course" ∷ codes "S001, Ada,CS1" ∷ codes "S002" ∷ []

pub registry_loaded : load_student_registry (some registry_file) ≡ some registry
unfolding load_student_registry load_lines is_skipped trim_newline trim_end parse_student_line
    student_of tokens nonempty pieces make_student skip_spaces nonempty_registry
registry_loaded = refl

registry_ids : (0 < length registry) × (length registry ≤ max_students) × All HasId registry
registry_ids = load_student_registry-IsValid (some registry_file) registry registry_loaded

load_student_registry-IsValid_example :
    (0 < length registry) × (length registry ≤ max_students) × All HasId registry
load_student_registry-IsValid_example =
    load_student_registry-IsValid (some registry_file) registry registry_loaded

abbrev pub new_app : App
new_app = record {
  options = default_options;
  registry = registry;
  mining = record { chain = genesis ∷ []; pool = pending_init; ledger = empty_ledger ledger_utxo };
  leaked = 0;
}

new_app-valid : HasValidChain world new_app
new_app-valid =
    (blockchain_init-validates world (pos 2) (genesis ∷ []) world-SignatureLaws world-EndsNonzero
      genesis_chain).1

pub mark-is_harmless : is_harmless (parse_command (trim_input (codes "mark S001 PRESENT"))) ≡ true
unfolding parse_command command_of scan word_of skip_spaces trim_input trim_end strcmp_eq mark_of
mark-is_harmless = refl

pub mine-is_harmless : is_harmless (parse_command (trim_input (codes "mine solo"))) ≡ true
unfolding parse_command command_of scan word_of skip_spaces trim_input trim_end strcmp_eq mine_of
mine-is_harmless = refl

abbrev pub lines : List (Env × Text)
lines = (world, codes "mark S001 PRESENT") ∷ (world, codes "mine solo") ∷ []

IsHarmless-in_world :
    (line : Text)
    → is_harmless (parse_command (trim_input line)) ≡ true
    → IsHarmless world (world, line)
IsHarmless-in_world line h = record {
  world = record { same_hash = refl; same_verify = refl };
  laws = world-SignatureLaws;
  tidy = world-EndsNonzero;
  harmless = h;
}

pub lines-IsHarmless : All (IsHarmless world) lines
lines-IsHarmless = (
  IsHarmless-in_world (codes "mark S001 PRESENT") mark-is_harmless,
  (IsHarmless-in_world (codes "mine solo") mine-is_harmless, tt),
)

session-keeps_chain_example : HasValidChain world (session new_app lines)
session-keeps_chain_example = session-keeps_chain world new_app lines lines-IsHarmless new_app-valid

pub chain_started : chain_at_start world none ≡ some (genesis ∷ [])
unfolding chain_at_start blockchain_load blockchain_save blockchain_init create_genesis_block
    finalize_genesis_block sign_block serialize_block_for_signature serialize_block_payload
    payload_head decimal_int init_block_fields payload_tail compute_block_hash
    serialize_block_for_hash sha256_hex
chain_started = rw genesis_chain refl

pub starts :
    (e : Env) (o : Options) (lines : Option (List Text)) (file : Option ChainFile)
    (students : StudentRegistry) (chain : Chain)
    → load_student_registry lines ≡ some students
    → chain_at_start e file ≡ some chain
    → startup e o lines true file ≡ ledger_at_start o students chain
unfolding startup
starts e o file_lines file students chain loaded made = rw (loaded, made, startup) refl

pub new_app-started : startup world default_options (some registry_file) true none ≡ some new_app
unfolding ledger_at_start ledger_init
new_app-started =
    starts world default_options (some registry_file) none registry (genesis ∷ []) registry_loaded
      chain_started

pub nothing_loaded : blockchain_load none ≡ none
unfolding blockchain_load
nothing_loaded = refl

startup-session-valid_example : HasValidChain world (session new_app lines)
startup-session-valid_example =
    startup-session-valid world default_options (some registry_file) true none new_app lines
      world-SignatureLaws world-EndsNonzero nothing_loaded new_app-started lines-IsHarmless

difficulty_clamped :
    parse_cli_args default_options (codes "--difficulty" ∷ codes "9" ∷ [])
    ≡ some (record default_options { g_difficulty = pos 4 })
unfolding parse_cli_args strcmp_eq clamp_difficulty atoi signed_value skip_spaces int_of
    digits_value wrap32
difficulty_clamped = refl

abbrev start : MiningState
start = record { chain = genesis ∷ []; pool = one_pending; ledger = empty_ledger ledger_account }

mining_solo_loses_block_example :
    mining_solo world start (pos 9) none
    ≡ (aborted, record start { pool = (pending_remove_front one_pending).1 })
mining_solo_loses_block_example =
    mining_solo_loses_block world start (pos 9) none refl (omega arith)
