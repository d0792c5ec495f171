-- ===== src/Tests/Ledgers.antt =====
-- Reward transactions, the UTXO set and the ledger at concrete inputs.
use transaction_models_minin.Crypto.{hex_digit, hex, sha256_hex}
use transaction_models_minin.Transactions.{
  write_outputs, write_inputs, reward_transaction, append_text, compute_transaction_id,
  create_reward_transaction, serialize_transaction, header_text, output_text,
}
use transaction_models_minin.Common.Text.{decimal_int, codes}
use transaction_models_minin.Common.{
  ◌≡◌, ◌+◌, refl, true, false, [], ◌∷◌, ◌++◌, some, arith, if◌then◌else◌,
}
use transaction_models_minin.Common.Int.{pos, sub_int}
use transaction_models_minin.Attendance.{UtxoSet, ledger_account, ledger_utxo, tx_fee}
use transaction_models_minin.Transactions.Rewards.{create_reward_transaction_repeats}
use transaction_models_minin.Transactions.Fits.{single_output-serializes}
use transaction_models_minin.Utxos.{utxo_mark_spent, utxo_transfer, utxo_ref}
use transaction_models_minin.Utxos.Balance.{unspent_with, utxo_mark_spent-unspent_with}
use transaction_models_minin.Utxos.Refused.{utxo_transfer-refused}
use transaction_models_minin.Accounts.Credit.{credited}
use transaction_models_minin.Ledger.{
  empty_ledger, ledger_apply_confirmed_block, ledger_balance, ledger_credit_miner,
}
use transaction_models_minin.Ledger.Credits.{if_paid, ledger_credit_miner-balance}
use transaction_models_minin.Ledger.Confirmed.{ledger_apply_confirmed_block-balance}
use transaction_models_minin.Tests.World.{world, alice, bob, marked, reward, full_id}

create_reward_transaction_repeats_example :
    create_reward_transaction world marked
    ≡ create_reward_transaction world
        (record marked { index = pos 9; timestamp = pos 77; course_code = codes "CS2" })
create_reward_transaction_repeats_example =
    create_reward_transaction_repeats world marked
      (record marked { index = pos 9; timestamp = pos 77; course_code = codes "CS2" }) refl refl

single_output-serializes_example :
    serialize_transaction reward
    ≡ some (header_text reward ++ output_text (record { owner = alice; amount = pos 9 }))
single_output-serializes_example =
    single_output-serializes reward (record { owner = alice; amount = pos 9 }) refl refl
      (omega arith, omega arith) (omega arith) (omega arith, omega arith)

-- Alice has one unspent output of nine coins.
abbrev outputs : UtxoSet
outputs =
    record { tx_id = full_id; output_index = pos 0; owner = alice; amount = pos 9; spent = false }
    ∷ []

utxo_mark_spent-unspent_with_example :
    let ref = utxo_ref (record {
      tx_id = full_id;
      output_index = pos 0;
      owner = alice;
      amount = pos 9;
      spent = false;
    }) in
    let (found, set') = utxo_mark_spent outputs ref in
    (found ≡ false → (unspent_with outputs ref ≡ 0) × (set' ≡ outputs))
    × (found ≡ true → unspent_with set' ref + 1 ≡ unspent_with outputs ref)
utxo_mark_spent-unspent_with_example = utxo_mark_spent-unspent_with outputs (
    utxo_ref (record {
      tx_id = full_id;
      output_index = pos 0;
      owner = alice;
      amount = pos 9;
      spent = false;
    }))

utxo_transfer-refused_example : utxo_transfer world outputs alice bob (pos 5) ≡ (false, outputs)
utxo_transfer-refused_example =
    utxo_transfer-refused world outputs alice bob (pos 5) (refl, tt) (omega arith) (omega arith)

marked-rewarded : create_reward_transaction world marked ≡ some reward
unfolding create_reward_transaction sub_int compute_transaction_id serialize_transaction append_text
    header_text decimal_int reward_transaction write_inputs write_outputs output_text sha256_hex hex
    hex_digit
marked-rewarded = refl

ledger_apply_confirmed_block-balance_example :
    let (paid, ledger') =
      ledger_apply_confirmed_block world (empty_ledger ledger_utxo) marked reward in
    ledger_balance ledger' alice
    ≡ if_paid paid alice
        (sub_int (pos 10) tx_fee)
        alice
        (ledger_balance (empty_ledger ledger_utxo) alice)
ledger_apply_confirmed_block-balance_example =
    ledger_apply_confirmed_block-balance world (empty_ledger ledger_utxo) marked reward alice
      (omega arith) (omega arith) (omega arith, omega arith) marked-rewarded

ledger_credit_miner-balance_example :
    let (paid, ledger') = ledger_credit_miner world (empty_ledger ledger_account) bob (pos 20) in
    ledger_balance ledger' bob ≡ (
      if paid
      then credited bob (pos 20) bob (ledger_balance (empty_ledger ledger_account) bob)
      else ledger_balance (empty_ledger ledger_account) bob)
ledger_credit_miner-balance_example =
    ledger_credit_miner-balance world (empty_ledger ledger_account) bob bob (pos 20) (omega arith)
