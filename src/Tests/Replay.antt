-- ===== src/Tests/Replay.antt =====
-- A session at a concrete input in which a nonce is offered again.
use transaction_models_minin.Common.Int.{◌+ℤ◌, pos}
use transaction_models_minin.Cli.Parsing.{
  transfer_of, word_of, scan, command_of, pool_of, mine_of, transfer_nonce, parse_command,
  trim_input,
}
use transaction_models_minin.Common.Text.{strcmp_eq, trim_end, skip_spaces, Text, codes}
use transaction_models_minin.Common.{◌≡◌, refl, true, false, List, [], ◌∷◌, arith, All}
use transaction_models_minin.Env.{Env}
use transaction_models_minin.Ledger.{ledger_transfer_with_nonce}
use transaction_models_minin.Cli.{App, default_options, execute, session}
use transaction_models_minin.Cli.Replay.{keeps_ledger, KeepsLedger, session-no_replay}
use transaction_models_minin.Tests.World.{world, alice, bob, genesis, registry, one_pending}
use transaction_models_minin.Tests.Accounts.{account_model, payment_accepted}

abbrev bank_app : App
bank_app = record {
  options = default_options;
  registry = registry;
  mining = record { chain = genesis ∷ []; pool = one_pending; ledger = account_model };
  leaked = 0;
}

abbrev later_lines : List (Env × Text)
later_lines =
    (world, codes "mine pool")
    ∷ (world, codes "transfer S002 S001 1")
    ∷ (world, codes "transfer S001 S002 5 4")
    ∷ []

mine-keeps_ledger : keeps_ledger (parse_command (trim_input (codes "mine pool"))) ≡ true
unfolding parse_command command_of scan word_of skip_spaces trim_input trim_end strcmp_eq mine_of
    pool_of
mine-keeps_ledger = refl

transfer-keeps_ledger :
    keeps_ledger (parse_command (trim_input (codes "transfer S002 S001 1"))) ≡ true
unfolding parse_command command_of scan word_of skip_spaces trim_input trim_end strcmp_eq
    transfer_of
transfer-keeps_ledger = refl

transfer_nonce-keeps_ledger :
    keeps_ledger (parse_command (trim_input (codes "transfer S001 S002 5 4"))) ≡ true
unfolding parse_command command_of scan word_of skip_spaces trim_input trim_end strcmp_eq
    transfer_of
transfer_nonce-keeps_ledger = refl

later_lines-KeepsLedger : All KeepsLedger later_lines
later_lines-KeepsLedger =
    (mine-keeps_ledger, (transfer-keeps_ledger, (transfer_nonce-keeps_ledger, tt)))

first_accepted : (ledger_transfer_with_nonce world account_model alice bob (pos 5) (pos 3)).0 ≡ true
unfolding ledger_transfer_with_nonce
first_accepted = payment_accepted

session-no_replay_example :
    let later =
      session (execute world bank_app (transfer_nonce alice bob (pos 5) (pos 3))) later_lines in
    (ledger_transfer_with_nonce world later.mining.ledger alice bob (pos 2) (pos 3)).0 ≡ false
unfolding ◌+ℤ◌
session-no_replay_example =
    session-no_replay world world bank_app later_lines alice bob bob (pos 5) (pos 2) (pos 3)
      (omega arith) (omega arith) (omega arith) (omega arith) (omega arith) later_lines-KeepsLedger
      first_accepted
