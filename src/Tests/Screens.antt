-- ===== src/Tests/Screens.antt =====
-- The screens at concrete states.
use transaction_models_minin.Blockchain.Print.{id_or_none, block_fields, record_text}
use transaction_models_minin.Common.Text.{decimal_int, Text, codes}
use transaction_models_minin.Common.{◌≡◌, ◌≢◌, refl, true, false, [], ◌∷◌, ◌++◌, arith, All}
use transaction_models_minin.Common.Int.{pos}
use transaction_models_minin.Attendance.{Ledger, ledger_utxo}
use transaction_models_minin.Accounts.Lookup.{account_of}
use transaction_models_minin.Ledger.{ledger_balance, ledger_transfer_with_nonce}
use transaction_models_minin.Ledger.Print.{
  utxo_line, utxo_lines, utxo_screen, ledger_print_utxo_set, ledger_print_history,
}
use transaction_models_minin.Ledger.Print.Unspent.{
  IsUnspent, unspent, owned_from, utxo_screen_of, ledger_print_utxo_set-balance,
}
use transaction_models_minin.Ledger.Print.History.{
  entry_of, entries_from, history_screen_of, account_transfer-printed,
}
use transaction_models_minin.Tests.Accounts.{account_model, alice-ne-bob, payment_accepted}
use transaction_models_minin.Tests.World.{world, alice, bob, genesis}

-- An output of Alice's that is spent, and one that is not.
abbrev two_outputs : Ledger
two_outputs = record {
  model = ledger_utxo;
  utxo_set =
      record {
        tx_id = codes "ab";
        output_index = pos 0;
        owner = alice;
        amount = pos 9;
        spent = true;
      }
      ∷ record {
        tx_id = codes "cd";
        output_index = pos 1;
        owner = alice;
        amount = pos 4;
        spent = false;
      }
      ∷ [];
  account_ledger = [];
}

one_line :
    ledger_print_utxo_set two_outputs
    ≡ codes
        "\n=== Full UTXO Set ===\n  UTXO cd:1 | owner=S001 | amount=4\n=====================\n\n"
unfolding ledger_print_utxo_set utxo_screen utxo_lines utxo_line decimal_int
one_line = refl

ledger_print_utxo_set-balance_example :
    let shown = unspent two_outputs.utxo_set in
    (ledger_print_utxo_set two_outputs ≡ utxo_screen_of shown)
    × All IsUnspent shown
    × ((owner : Text) → ledger_balance two_outputs owner ≡ owned_from shown owner (pos 0))
ledger_print_utxo_set-balance_example = ledger_print_utxo_set-balance two_outputs refl

genesis_text :
    record_text world true genesis
    ≡ codes "\nBlock #0\n  Student ID     : GENESIS\n  Name           : Genesis Block\n"
      ++ codes "  Course         : SYSTEM\n  Status         : PRESENT\n  Timestamp      : 0\n"
      ++ codes "  Token Reward   : 0\n  Transaction ID : (none)\n  Nonce          : 0\n"
      ++ codes "  Hash           : "
      ++ genesis.hash
      ++ codes "\n  Prev Hash      : "
      ++ genesis.previous_hash
      ++ codes "\n  Signature      : VALID\n"
unfolding record_text decimal_int block_fields id_or_none
genesis_text = refl

account_transfer-printed_example :
    let ledger' = (ledger_transfer_with_nonce world account_model alice bob (pos 5) (pos 3)).1 in
    let entry = entry_of 1 alice bob (pos 5) (pos 1) (pos 3) in
    let history = λ (k : Text). (account_of account_model.account_ledger k).history in
    (ledger_print_history ledger' alice
      ≡ history_screen_of alice (entry ++ entries_from 2 (history alice)))
    × (ledger_print_history ledger' bob
        ≡ history_screen_of bob (entry ++ entries_from 2 (history bob)))
    × ((k : Text) → k ≢ alice → k ≢ bob → (account_of ledger'.account_ledger k).history ≡ history k)
unfolding ledger_transfer_with_nonce
account_transfer-printed_example =
    account_transfer-printed world account_model alice bob (pos 5) (pos 3) (λ a. refl) refl
      (omega arith) (omega arith) alice-ne-bob payment_accepted
