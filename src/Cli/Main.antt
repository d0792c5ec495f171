-- ===== src/Cli/Main.antt =====
-- The whole of `main` (main.c): the start, the command loop, and what is released at the end.
pub mod Released
use transaction_models_minin.Common.{
  ℕ, Bool, true, false, List, [], ◌∷◌, ◌++◌, map, Option, none, some,
}
use transaction_models_minin.Common.Text.{Text, codes, decimal_int}
use transaction_models_minin.Env.{Env}
use transaction_models_minin.Crypto.Keys.{Files, KeyCalls, Keys, no_keys, crypto_cleanup, with_keys}
use transaction_models_minin.Blockchain.{ChainFile}
use transaction_models_minin.Ledger.{ledger_cleanup}
use transaction_models_minin.Ledger.Print.{model_name}
use transaction_models_minin.Cli.{
  Options, default_options, parse_cli_args, App, start_with_keys, session,
}
use transaction_models_minin.Cli.Screens.{print_help}

-- What the program leaves: its exit code, the state of a run that reached the command loop, the keys that
-- were freed and those in memory, and the key files.
pub record Exit (Key : Type 0) : Type 0 where
  pub code : ℕ
  pub app : Option App
  pub freed : List Key
  pub keys : Keys Key
  pub files : Files

-- Behind the command loop.
unfoldable pub clean_app : App → App
clean_app app = record app {
  mining = record app.mining { ledger = ledger_cleanup app.mining.ledger };
}

module _ {Key : Type 0} (calls : KeyCalls Key) where
  -- The lines of a run, in worlds that have its keys.
  unfoldable pub keyed_lines : Keys Key → List (Env × Text) → List (Env × Text)
  keyed_lines keys [] = []
  keyed_lines keys ((e, line) ∷ lines) = (with_keys calls keys e, line) ∷ keyed_lines keys lines

  unfoldable pub finish : Option App → List Key × Keys Key → Files → List (Env × Text) → Exit Key
  finish none (freed, keys) files lines = record {
    code = 1;
    app = none;
    freed = freed;
    keys = keys;
    files = files;
  }
  finish (some app) (freed, keys) files lines =
      let (freed', left) = crypto_cleanup keys in
      record {
        code = 0;
        app = some (clean_app (session app (keyed_lines keys lines)));
        freed = freed ++ freed';
        keys = left;
        files = files;
      }

  unfoldable pub run_main :
      Files → Env → List Text → Option (List Text) → Option ChainFile → List (Env × Text) → Exit Key
  run_main files e args registry_file chain_file lines =
      elim (parse_cli_args default_options args) [
        | none ↦ record { code = 0; app = none; freed = []; keys = no_keys; files = files }
        | some o ↦
            let (started, (keys, files')) =
              start_with_keys calls files e o registry_file chain_file in
            finish started keys files' lines
      ]

-- What the start prints in front of the help, and what comes last.
unfoldable pub banner : Text
banner =
    codes "Blockchain Attendance & Mining System \n"
    ++ codes "====================================================\n"

unfoldable pub start_report : Options → Text
start_report o =
    codes "Ledger model : "
    ++ model_name o.g_model
    ++ codes "\nPoW difficulty: "
    ++ decimal_int o.g_difficulty
    ++ codes " leading zero(s)\n"
    ++ print_help

unfoldable pub goodbye : Text
goodbye = codes "Goodbye.\n"
