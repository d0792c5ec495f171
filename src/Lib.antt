-- ===== src/Lib.antt =====
-- A model of the attendance blockchain, a C program that queues attendance as signed blocks, mines
-- them into a chain of blocks, and pays rewards in one of two ledgers.
--
-- Parts and files. The source files stand in the root of the repository.
--   attendance.h     Attendance     limits, records, enums
--   crypto.c         Crypto         payload, hash, signature of a block
--                    Crypto/Keys    the keys and the key files
--   transactions.c   Transactions   reward transactions, their text and id
--   ledger.c         Utxos          the UTXO model (`utxo_*`)
--                    Accounts       the account model (`find_or_create_account`, `account_*`)
--                    Ledger         the interface (`ledger_*`) over both
--                    Ledger/Print   its screens
--   students.c       Students       `find_student`, `is_valid_status`
--                    Students/Loading  the registry file
--   blockchain.c     Blockchain     genesis, file, append, validation, tampering
--                    Blockchain/Print  the screen of the records
--   pending.c        Pending        the pool and `mark_attendance`
--                    Pending/Print  the screen of the pool
--   mining.c         Difficulty     `hash_meets_difficulty`
--                    Mining         proof of work, confirmation, solo mining
--                    Mining/Pool    `mining_pool`
--                    Mining/Cloud   `mining_cloud`
--   main.c           Cli            options, start, commands on the state of `main`
--                    Cli/Parsing    a line of input as a command
--                    Cli/Screens    what `main` prints for a command
--                    Cli/Main       `main` from the arguments to the exit
-- Each of these files holds definitions; the files below it hold lemmas and theorems, named for their
-- subject. Common holds numbers, lists and texts, Bank the abstract account book, Tests concrete runs.
--
-- How the parts interact. `mark_attendance` looks a student up, makes the reward transaction, signs the
-- block and adds it to the pool. Mining takes the front block from the pool, links and signs it again at
-- the tip of the chain, searches the nonce, appends it, applies the reward to the ledger and credits the
-- miner. Mining/Steps tells what mining does as a relation of single writes, from which invariants of
-- whole sessions follow. The command line calls these on the one state that `main` keeps. A function of
-- the source is a function of the same name; what it writes through pointers it returns, mostly with the
-- Boolean or the result of the call.
--
-- External code. OpenSSL, the clock, `rand`, the files and the allocator are the fields of the record
-- `Env`, an argument of what uses them; the calls on keys and key files are the fields of `KeyCalls`,
-- for any type of keys and one run: theorems on two runs take two of them, so that a later run may make
-- another key and find another disk. `DigestLaws`, `SignatureLaws`, `EndsNonzero` and `KeyLaws` say what is assumed of
-- them, where a theorem needs it, and `CanMine` what a run needs to confirm every block.
--
-- Memory. `crypto_cleanup` gives the keys that it frees; `ledger_set_model` gives the number of history
-- nodes that are still allocated when `ledger_init` overwrites the ledger, and `App` adds them up.
--
-- Numbers. `int` is an integer with the 32-bit wrap-around written out (`add_int`, `sub_int`, `mul_int`),
-- also where C leaves signed overflow open; `unsigned long` is taken modulo 2^64. A `char` array is the
-- text before its NUL; copies cut it as `strncpy` does with the last byte kept for the NUL.
--
-- Fuel. The search for a nonce has 2^64 rounds, as many as there are nonces. The mining loops have one
-- round for each pending block, since each takes one from the pool.
--
-- Not modelled: NULL arguments, messages to standard error, what the components report while they mark,
-- transfer, mine and tamper (the tables of pool and cloud mining among it), the prompt,
-- and what the command line writes behind the end of `arg1` and `arg2` where a word is too long.
-- Screens are texts. An output buffer of the source that is too small for its text makes an error
-- result, as in the source.
pub mod Common
pub mod Attendance
pub mod Env
pub mod Crypto
pub mod Transactions
pub mod Utxos
pub mod Bank
pub mod Accounts
pub mod Ledger
pub mod Difficulty
pub mod Students
pub mod Blockchain
pub mod Pending
pub mod Mining
pub mod Cli
pub mod Tests
