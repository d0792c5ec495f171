-- ===== src/Cli.antt =====
-- main.c: the options, and the commands of a session on the state that `main` keeps. The screen is
-- left out, and so is what is written behind the end of `arg1` and `arg2` where a word is too long.
pub mod Parsing
pub mod Session
pub mod Numbers
pub mod Restart
pub mod Bounds
pub mod Replay
pub mod Arguments
pub mod Progress
pub mod Screens
pub mod Main
use transaction_models_minin.Common.{
  ◌+◌, ℕ, zero, suc, Bool, true, false, ◌||◌, not, List, [], ◌∷◌, Option, none, some, if◌then◌else◌,
}
use transaction_models_minin.Common.Int.{ℤ, pos, ltb_ℤ}
use transaction_models_minin.Common.Text.{Text, codes, strcmp_eq}
use transaction_models_minin.Attendance.{
  LedgerModel, ledger_utxo, ledger_account, Ledger, Chain, PendingPool, StudentRegistry, Student,
  min_difficulty, max_difficulty, default_difficulty,
}
use transaction_models_minin.Env.{Env}
use transaction_models_minin.Crypto.Keys.{
  Files, KeyCalls, Keys, no_keys, crypto_init_keys, crypto_cleanup, with_keys,
}
use transaction_models_minin.Students.{find_student}
use transaction_models_minin.Students.Loading.{load_student_registry}
use transaction_models_minin.Blockchain.{
  ChainFile, blockchain_init, blockchain_load, blockchain_save, blockchain_tamper_demo,
}
use transaction_models_minin.Pending.{pending_init, mark_attendance}
use transaction_models_minin.Ledger.{
  ledger_init, ledger_set_model, ledger_transfer, ledger_transfer_with_nonce,
}
use transaction_models_minin.Mining.{MiningState, mining_solo}
use transaction_models_minin.Mining.Pool.{mining_pool}
use transaction_models_minin.Mining.Cloud.{mining_cloud}
use transaction_models_minin.Cli.Parsing.{
  Command, stop, show, usage, mark, transfer, transfer_nonce, model, difficulty, mine_solo,
  mine_pool, mine_cloud, tamper, parse_command, trim_input, atoi,
}

-- The two globals.
pub record Options : Type 0 where
  pub g_model : LedgerModel
  pub g_difficulty : ℤ

abbrev pub default_options : Options
default_options = record { g_model = ledger_utxo; g_difficulty = default_difficulty }

unfoldable pub parse_model_arg : LedgerModel → Text → LedgerModel
parse_model_arg g_model arg =
    if strcmp_eq arg (codes "utxo") || strcmp_eq arg (codes "UTXO")
    then ledger_utxo
    else if strcmp_eq arg (codes "account") || strcmp_eq arg (codes "ACCOUNT")
    then ledger_account
    else g_model

unfoldable pub clamp_difficulty : ℤ → ℤ
clamp_difficulty d =
    if ltb_ℤ d min_difficulty
    then min_difficulty
    else if ltb_ℤ max_difficulty d
    then max_difficulty
    else d

-- The arguments behind the program's name; none where the help ends the program.
unfoldable pub parse_cli_args : Options → List Text → Option Options
parse_cli_args o [] = some o
parse_cli_args o (a ∷ []) =
    if strcmp_eq a (codes "--help") || strcmp_eq a (codes "-h") then none else some o
parse_cli_args o (a ∷ b ∷ args) =
    let with_model = parse_cli_args (record o { g_model = parse_model_arg o.g_model b }) args in
    let with_difficulty =
      parse_cli_args (record o { g_difficulty = clamp_difficulty (atoi b) }) args in
    let rest = parse_cli_args o (b ∷ args) in
    if strcmp_eq a (codes "--model")
    then with_model
    else if strcmp_eq a (codes "--difficulty")
    then with_difficulty
    else if strcmp_eq a (codes "--help") || strcmp_eq a (codes "-h")
    then none
    else rest

-- The variables of `main` that outlive a command, and the history nodes that were allocated and to which
-- no pointer is left.
pub record App : Type 0 where
  pub options : Options
  pub registry : StudentRegistry
  pub mining : MiningState
  pub leaked : ℕ

abbrev pub with_pool : App → Bool × PendingPool → App
with_pool app (marked, pool) = record app { mining = record app.mining { pool = pool } }

abbrev pub with_money : App → Bool × Ledger → App
with_money app (done, ledger) = record app { mining = record app.mining { ledger = ledger } }

abbrev pub with_chain : App → Bool × Chain → App
with_chain app (done, chain) = record app { mining = record app.mining { chain = chain } }

unfoldable pub is_student : StudentRegistry → Text → Bool
is_student registry id = elim (find_student registry id) [ none ↦ false | some s ↦ true ]

-- One command on the state, but for `quit`.
unfoldable pub execute : Env → App → Command → App
execute e app stop = app
execute e app (show screen) = app
execute e app (usage text) = app
execute e app (mark id status) =
    with_pool app (mark_attendance e app.mining.pool app.mining.chain app.registry id status)
execute e app (transfer sender recipient amount) =
    if not (is_student app.registry sender) || not (is_student app.registry recipient)
    then app
    else with_money app (ledger_transfer e app.mining.ledger sender recipient amount)
execute e app (transfer_nonce sender recipient amount nonce) =
    with_money app (ledger_transfer_with_nonce e app.mining.ledger sender recipient amount nonce)
execute e app (model arg) =
    let m = parse_model_arg app.options.g_model arg in
    let (lost, ledger) = ledger_set_model app.mining.ledger m app.registry in
    record app {
      options = record app.options { g_model = m };
      mining = record app.mining { ledger = ledger };
      leaked = app.leaked + lost;
    }
execute e app (difficulty d) = record app { options = record app.options { g_difficulty = d } }
execute e app mine_solo = record app {
  mining = (mining_solo e app.mining app.options.g_difficulty (some (codes "SOLO_MINER"))).1;
}
execute e app (mine_pool miners) = record app {
  mining = (mining_pool e app.mining app.options.g_difficulty miners).1;
}
execute e app (mine_cloud rounds rental maintenance) = record app {
  mining = (mining_cloud e app.mining app.options.g_difficulty rounds rental maintenance).1;
}
execute e app (tamper i) = with_chain app (blockchain_tamper_demo e app.mining.chain i)

-- `main` up to the command loop: the lines of the registry file, whether the keys are there, and the
-- chain file. None where the program ends.
unfoldable pub chain_at_start : Env → Option ChainFile → Option Chain
chain_at_start e file = elim (blockchain_load file) [
  | some chain ↦ some chain
  | none ↦ elim (blockchain_init e) [
    | none ↦ none
    | some chain ↦ if blockchain_save e chain then some chain else none
  ]
]

unfoldable pub ledger_at_start : Options → StudentRegistry → Chain → Option App
ledger_at_start o registry chain =
    let (done, ledger) = ledger_init o.g_model registry in
    if done
    then some (record {
      options = o;
      registry = registry;
      mining = record { chain = chain; pool = pending_init; ledger = ledger };
      leaked = 0;
    })
    else none

unfoldable pub startup : Env → Options → Option (List Text) → Bool → Option ChainFile → Option App
startup e o registry_file keys chain_file = elim (load_student_registry registry_file) [
  | none ↦ none
  | some registry ↦
      if keys
      then elim (chain_at_start e chain_file) [
        | none ↦ none
        | some chain ↦ ledger_at_start o registry chain
      ]
      else none
]

-- A start that fails gives its keys back: the keys that were freed, and the pointers.
unfoldable pub kept_keys : {Key : Type 0} → Option App → Keys Key → List Key × Keys Key
kept_keys none keys = crypto_cleanup keys
kept_keys (some app) keys = ([], keys)

-- The start with the keys of `crypto_init_keys`, which comes behind the registry: with the keys that were
-- freed and those that are left, and the key files.
unfoldable pub start_with_keys :
    {Key : Type 0}
    → KeyCalls Key
    → Files
    → Env
    → Options
    → Option (List Text)
    → Option ChainFile
    → Option App × ((List Key × Keys Key) × Files)
start_with_keys calls files e o registry_file chain_file =
    elim (load_student_registry registry_file) [
      | none ↦ (none, (([], no_keys), files))
      | some registry ↦
          let (keys_there, (keys, files')) = crypto_init_keys calls files no_keys in
          let started = startup (with_keys calls keys e) o registry_file keys_there chain_file in
          (started, (kept_keys started keys, files'))
    ]

abbrev pub is_stop : Command → Bool
is_stop c = elim c [ stop ↦ true | _ ↦ false ]

-- The command loop over the lines that `fgets` gives, each with the world as it then is.
unfoldable pub session : App → List (Env × Text) → App
session app [] = app
session app ((e, line) ∷ lines) =
    let command = parse_command (trim_input line) in
    let rest = session (execute e app command) lines in if is_stop command then app else rest
