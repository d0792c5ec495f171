-- ===== src/Attendance.antt =====
-- attendance.h: the limits and the shared types. A `char` array is the text before its NUL, an
-- array with a count beside it is the list of its first `count` elements where the program never
-- reads past them.
use transaction_models_minin.Common.{ℕ, ◌^◌, Bool, List}
use transaction_models_minin.Common.Int.{ℤ, pos}
use transaction_models_minin.Common.Text.{Text, codes}

abbrev pub max_students : ℕ
max_students = 256

abbrev pub max_blocks : ℕ
max_blocks = 4096

abbrev pub max_pending : ℕ
max_pending = 256

abbrev pub max_utxos : ℕ
max_utxos = 8192

abbrev pub max_tx_inputs : ℕ
max_tx_inputs = 16

abbrev pub max_tx_outputs : ℕ
max_tx_outputs = 16

-- The longest texts that the buffers hold: one byte less than their sizes.
abbrev pub student_id_max : ℕ
student_id_max = 19

abbrev pub full_name_max : ℕ
full_name_max = 49

abbrev pub course_code_max : ℕ
course_code_max = 9

abbrev pub status_max : ℕ
status_max = 9

abbrev pub hash_max : ℕ
hash_max = 64

abbrev pub signature_len : ℕ
signature_len = 72

abbrev pub genesis_prev_hash : Text
genesis_prev_hash = codes "0000000000000000000000000000000000000000000000000000000000000000"

abbrev pub reward_present : ℤ
reward_present = pos 10

abbrev pub reward_late : ℤ
reward_late = pos 5

abbrev pub reward_absent : ℤ
reward_absent = pos 0

abbrev pub tx_fee : ℤ
tx_fee = pos 1

abbrev pub mining_reward : ℤ
mining_reward = pos 20

abbrev pub pool_fee_percent : ℕ
pool_fee_percent = 2

abbrev pub default_difficulty : ℤ
default_difficulty = pos 2

abbrev pub min_difficulty : ℤ
min_difficulty = pos 1

abbrev pub max_difficulty : ℤ
max_difficulty = pos 4

abbrev pub max_pool_miners : ℕ
max_pool_miners = 8

abbrev pub cloud_min_rounds : ℤ
cloud_min_rounds = pos 1

abbrev pub cloud_max_rounds : ℤ
cloud_max_rounds = pos 5

-- The values of `unsigned long`.
abbrev pub ulong_mod : ℕ
ulong_mod = 2 ^ 64

pub data LedgerModel : Type 0 where
  ledger_utxo ledger_account : LedgerModel

pub record Student : Type 0 where
  pub student_id : Text
  pub full_name : Text
  pub course_code : Text

pub record Block : Type 0 where
  pub index : ℤ
  pub timestamp : ℤ
  pub student_id : Text
  pub full_name : Text
  pub course_code : Text
  pub status : Text
  pub token_reward : ℤ
  pub transaction_id : Text
  pub nonce : ℕ
  pub previous_hash : Text
  pub signature : List ℕ
  pub hash : Text

abbrev pub Chain : Type 0
Chain = List Block

-- Here the array matters: `pending_remove_front` moves its elements, and leaves a stale one.
pub record PendingPool : Type 0 where
  pub blocks : List Block
  pub count : ℕ

pub record TxInput : Type 0 where
  pub utxo_ref : Text
  pub owner : Text
  pub amount : ℤ

pub record TxOutput : Type 0 where
  pub owner : Text
  pub amount : ℤ

pub record Transaction : Type 0 where
  pub tx_id : Text
  pub inputs : List TxInput
  pub outputs : List TxOutput
  pub fee : ℤ
  pub is_reward : Bool

pub record Utxo : Type 0 where
  pub tx_id : Text
  pub output_index : ℤ
  pub owner : Text
  pub amount : ℤ
  pub spent : Bool

abbrev pub UtxoSet : Type 0
UtxoSet = List Utxo

-- A history is the linked list from its newest node.
pub record TxHistoryNode : Type 0 where
  pub sender : Text
  pub recipient : Text
  pub amount : ℤ
  pub fee : ℤ
  pub nonce : ℤ

pub record Account : Type 0 where
  pub student_id : Text
  pub balance : ℤ
  pub nonce : ℤ
  pub history : List TxHistoryNode

abbrev pub AccountLedger : Type 0
AccountLedger = List Account

pub record Ledger : Type 0 where
  pub model : LedgerModel
  pub utxo_set : UtxoSet
  pub account_ledger : AccountLedger

abbrev pub StudentRegistry : Type 0
StudentRegistry = List Student
