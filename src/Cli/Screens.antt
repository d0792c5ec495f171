-- ===== src/Cli/Screens.antt =====
-- What the commands of main.c print. What the components print while they mark, transfer, mine or tamper
-- is left out, and so is standard error.
pub mod Shown
use transaction_models_minin.Common.{
  ℕ, Bool, true, false, not, ◌||◌, List, [], ◌∷◌, ◌++◌, if◌then◌else◌, length,
}
use transaction_models_minin.Common.Int.{ℤ, ltb_ℤ}
use transaction_models_minin.Common.Text.{Text, codes, decimal, decimal_int}
use transaction_models_minin.Attendance.{Chain, min_difficulty, max_difficulty}
use transaction_models_minin.Env.{Env}
use transaction_models_minin.Blockchain.{blockchain_validate}
use transaction_models_minin.Blockchain.Print.{blockchain_print_records}
use transaction_models_minin.Pending.Print.{pending_print}
use transaction_models_minin.Ledger.{ledger_balance}
use transaction_models_minin.Ledger.Print.{
  model_name, ledger_print_balances, ledger_print_utxo_set, ledger_print_history,
}
use transaction_models_minin.Cli.{App, parse_model_arg, is_student}
use transaction_models_minin.Cli.Parsing.{
  Screen, help, view, pending, validate, balances, utxos, balance, history, unknown_mode,
  unknown_command, nothing, Command, stop, show, usage, mark, transfer, transfer_nonce, model,
  difficulty, mine_solo, mine_pool, mine_cloud, tamper,
}

unfoldable pub print_help : Text
print_help =
    codes "\nCommands:\n"
    ++ codes
        "  mark <id> <PRESENT|ABSENT|LATE>     Queue attendance (creates token tx if applicable)\n"
    ++ codes "  pending                             Show unconfirmed blocks\n"
    ++ codes "  mine solo                           Solo PoW mining\n"
    ++ codes "  mine pool [miners]                  Pool mining simulation\n"
    ++ codes "  mine cloud <rounds> <rental> <maint> Cloud mining simulation (1-5 rounds)\n"
    ++ codes "  view                                Show confirmed records\n"
    ++ codes "  validate                            Verify blockchain integrity\n"
    ++ codes "  balance <student_id>                Show student token balance\n"
    ++ codes "  balances                            Show all student balances\n"
    ++ codes "  utxos                               Print full UTXO set (UTXO model)\n"
    ++ codes "  transfer <from> <to> <amount>       Manual token transfer\n"
    ++ codes "  transfer_nonce <from> <to> <amt> <n> Transfer with explicit nonce (account)\n"
    ++ codes "  history <student_id>                Account tx history (account model)\n"
    ++ codes "  model <utxo|account>                Switch ledger model (resets ledger)\n"
    ++ codes "  difficulty <1-4>                    Set PoW difficulty\n"
    ++ codes "  tamper <block_index>                Demo tamper detection\n"
    ++ codes "  help                                Show this help\n"
    ++ codes "  quit                                Exit\n\n"

-- `blockchain_validate` reports a chain that passes, the command one that does not.
unfoldable pub passed : Chain → Text
passed chain =
    codes "Chain validation PASSED (" ++ decimal (length chain) ++ codes " block(s) verified).\n"

unfoldable pub screen_of : Env → App → Screen → Text
screen_of e app help = print_help
screen_of e app view = blockchain_print_records e app.mining.chain
screen_of e app pending = pending_print e app.mining.pool
screen_of e app validate =
    if blockchain_validate e app.mining.chain app.options.g_difficulty
    then passed app.mining.chain
    else codes "Chain validation FAILED.\n"
screen_of e app balances = ledger_print_balances app.mining.ledger app.registry
screen_of e app utxos = ledger_print_utxo_set app.mining.ledger
screen_of e app (balance id) =
    codes "Balance for "
    ++ id
    ++ codes ": "
    ++ decimal_int (ledger_balance app.mining.ledger id)
    ++ codes " coin(s)\n"
screen_of e app (history id) = ledger_print_history app.mining.ledger id
screen_of e app (unknown_mode mode) = codes "Unknown mining mode: " ++ mode ++ codes "\n"
screen_of e app (unknown_command command) =
    codes "Unknown command: " ++ command ++ codes " (type 'help' for options)\n"
screen_of e app nothing = []

-- The answer to a difficulty, which is in force by then, whatever the answer.
unfoldable pub difficulty_answer : ℤ → Text
difficulty_answer d =
    if ltb_ℤ d min_difficulty || ltb_ℤ max_difficulty d
    then codes "Difficulty must be between "
      ++ decimal_int min_difficulty
      ++ codes " and "
      ++ decimal_int max_difficulty
      ++ codes ".\n"
    else codes "PoW difficulty set to " ++ decimal_int d ++ codes " leading zero(s).\n"

-- What `main` itself prints for a command.
unfoldable pub printed : Env → App → Command → Text
printed e app stop = []
printed e app (show screen) = screen_of e app screen
printed e app (usage text) = text
printed e app (mark id status) = []
printed e app (transfer sender recipient amount) =
    if not (is_student app.registry sender) || not (is_student app.registry recipient)
    then codes "ERROR: Sender or recipient not in student registry.\n"
    else []
printed e app (transfer_nonce sender recipient amount nonce) = []
printed e app (model arg) =
    codes "Switched to "
    ++ model_name (parse_model_arg app.options.g_model arg)
    ++ codes " model (ledger reset).\n"
printed e app (difficulty d) = difficulty_answer d
printed e app mine_solo = []
printed e app (mine_pool miners) = []
printed e app (mine_cloud rounds rental maintenance) = []
printed e app (tamper i) = []
