-- ===== src/Tests/Keys.antt =====
-- A concrete key pair, and runs of the program with it (crypto.c, main.c). A key is a number, its file
-- holds the number, and a signature is the number as a byte.
use transaction_models_minin.Cli.Main.Released.{held_keys}
use transaction_models_minin.Cli.{parse_cli_args}
use transaction_models_minin.Cli.{execute}
use transaction_models_minin.Cli.Parsing.{mine_of}
use transaction_models_minin.Cli.Parsing.{mark_of}
use transaction_models_minin.Common.Text.{trim_end}
use transaction_models_minin.Common.Text.{skip_spaces}
use transaction_models_minin.Cli.Parsing.{word_of}
use transaction_models_minin.Cli.Parsing.{scan}
use transaction_models_minin.Cli.Parsing.{command_of}
use transaction_models_minin.Crypto.{
  store_signature, payload_tail, payload_head, serialize_block_payload,
  serialize_block_for_signature, compute_block_hash, serialize_block_for_hash, sha256_hex, hex,
  hex_digit, sign_block, verify_block_signature,
}
use transaction_models_minin.Common.Text.{decimal_int, Text, codes, strcmp_eq}
use transaction_models_minin.Common.{
  ℕ, ◌≡◌, ◌≢◌, ◌<◌, refl, ap, subst, inl, true, false, ◌==◌, List, [], ◌∷◌, Option, none, some,
  arith, length, get_or, replicate,
}
use transaction_models_minin.Common.Int.{pos, ◌≤ℤ◌}
use transaction_models_minin.Env.{Env, SignatureLaws}
use transaction_models_minin.Attendance.{Block, ledger_account}
use transaction_models_minin.Ledger.{ledger_init}
use transaction_models_minin.Blockchain.{
  create_genesis_block, finalize_genesis_block, init_block_fields, blockchain_init, blockchain_load,
  blockchain_save, saved_file,
}
use transaction_models_minin.Crypto.Signature.{EndsNonzero, last_byte}
use transaction_models_minin.Crypto.Keys.{
  Files, KeyCalls, Keys, no_keys, put_file, private_key_file, public_key_file, write_pem_key,
  write_pair, create_keys, load_or_create_keys, crypto_init_keys, sign_with, with_keys,
}
use transaction_models_minin.Crypto.Keys.Reload.{KeyLaws, IsFirstStart}
use transaction_models_minin.Crypto.Keys.Restart.{pair-SignatureLaws, sign_block-verifies_later}
use transaction_models_minin.Crypto.Keys.Stuck.{crypto_init_keys-stuck}
use transaction_models_minin.Cli.{
  Options, App, default_options, session, chain_at_start, ledger_at_start, kept_keys,
  start_with_keys, startup,
}
use transaction_models_minin.Cli.Main.{run_main}
use transaction_models_minin.Cli.Main.Released.{IsReleased, keys_of_run, run_main-IsReleased}
use transaction_models_minin.Cli.Restart.{start_with_keys-restart-valid}
use transaction_models_minin.Cli.Parsing.{parse_command, trim_input}
use transaction_models_minin.Pending.{pending_init}
use transaction_models_minin.Tests.Sessions.{
  starts, registry_file, registry_loaded, new_app, mark-is_harmless, mine-is_harmless,
  nothing_loaded,
}
use transaction_models_minin.Cli.Session.{is_harmless, IsHarmless, HasValidChain}
use transaction_models_minin.Tests.World.{registry, world, genesis, marked}

abbrev head_byte : Text → Option ℕ
head_byte [] = none
head_byte (k ∷ rest) = some k

abbrev calls : KeyCalls ℕ
calls = record {
  can_write = λ p. true;
  write_private = λ k. (true, k ∷ []);
  write_public = λ k. (true, k ∷ []);
  read_private = head_byte;
  read_public = head_byte;
  ec_gen = some 1;
  pkey_dup = λ k. some k;
  digest_sign = λ k p. some (k ∷ []);
  digest_verify = λ k s p. get_or s 0 0 == k;
}

-- The calls of a later run, in which a start would make another key.
abbrev later : KeyCalls ℕ
later = record calls { ec_gen = some 2 }

-- A disk on which the public key cannot be written to its end.
abbrev full_disk : KeyCalls ℕ
full_disk = record calls { write_public = λ k. (false, []) }

abbrev no_files : Files
no_files p = none

abbrev pair : Keys ℕ
pair = record { private_key = some 1; public_key = some 1 }

abbrev key_files : Files
key_files = put_file (put_file no_files private_key_file (1 ∷ [])) public_key_file (1 ∷ [])

first : IsFirstStart calls no_files
first = inl refl

made : crypto_init_keys calls no_files no_keys ≡ (true, (pair, key_files))
unfolding crypto_init_keys load_or_create_keys create_keys write_pair write_pem_key
made = refl

eq_self : (k : ℕ) → (k == k) ≡ true
eq_self k = ground arith

signed_by : (k k' : ℕ) (s : List ℕ) → k ≡ k' → k ∷ [] ≡ s → (get_or s 0 0 == k') ≡ true
signed_by k k' s same bytes = subst (λ x. (get_or x 0 0 == k') ≡ true) bytes (rw same (eq_self k'))

read_back : (k : ℕ) (t : Text) → k ∷ [] ≡ t → head_byte t ≡ some k
read_back k t bytes = subst (λ x. head_byte x ≡ some k) bytes refl

calls-KeyLaws : KeyLaws calls later
calls-KeyLaws = record {
  pair = λ private public p s gen dup signed. signed_by private public s (cc dup) (cc signed);
  private_back = λ k t wrote. read_back k t (ap (λ r. r.1) wrote);
  public_back = λ k t wrote. (k, read_back k t (ap (λ r. r.1) wrote), λ s p. refl);
}

abbrev keyed : Env
keyed = with_keys calls pair world

signature_of : (p : Text) (s : List ℕ) → keyed.sign p ≡ some s → 1 ∷ [] ≡ s
unfolding sign_with
signature_of p s h = cc h

ends_with : (s : List ℕ) → 1 ∷ [] ≡ s → (0 < length s) × (last_byte s ≢ 0)
ends_with s bytes =
    subst (λ x. (0 < length x) × (last_byte x ≢ 0)) bytes (omega arith, λ z. absurd (omega arith))

keyed-EndsNonzero : EndsNonzero keyed
keyed-EndsNonzero = record { ends = λ p s h. ends_with s (signature_of p s h) }

abbrev signed_block : Block
signed_block = record marked { signature = 1 ∷ replicate 71 0 }

block_signed : sign_block keyed marked ≡ some signed_block
unfolding sign_block serialize_block_for_signature serialize_block_payload payload_head decimal_int
    payload_tail sign_with store_signature
block_signed = refl

sign_block-verifies_later_example :
    (verify_block_signature keyed signed_block ≡ true)
    × (keys : Keys ℕ) × (crypto_init_keys later key_files no_keys ≡ (true, (keys, key_files)))
    × (verify_block_signature (with_keys later keys world) signed_block ≡ true)
sign_block-verifies_later_example =
    sign_block-verifies_later calls later no_files key_files no_keys pair world world marked
      signed_block calls-KeyLaws first made keyed-EndsNonzero block_signed

abbrev half_files : Files
half_files = put_file (put_file no_files private_key_file (1 ∷ [])) public_key_file []

crypto_init_keys-stuck_example :
    let (done, (keys, files)) = crypto_init_keys full_disk no_files no_keys in
    let (done', (keys', files')) = crypto_init_keys later files no_keys in
    (done ≡ false) × (done' ≡ false) × (files' ≡ files)
crypto_init_keys-stuck_example =
    crypto_init_keys-stuck full_disk later no_files no_keys no_keys 1 1 (1 ∷ []) [] (inl refl) refl
      refl refl refl refl refl refl

keyed-SignatureLaws : SignatureLaws keyed
keyed-SignatureLaws =
    pair-SignatureLaws calls world 1 1 λ p s signed. signed_by 1 1 s refl (cc signed)

IsHarmless-keyed :
    (line : Text)
    → is_harmless (parse_command (trim_input line)) ≡ true
    → IsHarmless keyed (keyed, line)
IsHarmless-keyed line h = record {
  world = record { same_hash = refl; same_verify = refl };
  laws = keyed-SignatureLaws;
  tidy = keyed-EndsNonzero;
  harmless = h;
}

abbrev keyed_lines : List (Env × Text)
keyed_lines = (keyed, codes "mark S001 PRESENT") ∷ (keyed, codes "mine solo") ∷ []

keyed_chain : chain_at_start keyed none ≡ some (genesis ∷ [])
unfolding chain_at_start blockchain_load blockchain_save blockchain_init create_genesis_block
    finalize_genesis_block sign_block serialize_block_for_signature serialize_block_payload
    payload_head decimal_int init_block_fields payload_tail compute_block_hash
    serialize_block_for_hash sha256_hex store_signature hex hex_digit sign_with
keyed_chain = refl

startup-keyed : startup keyed default_options (some registry_file) true none ≡ some new_app
unfolding ledger_at_start ledger_init
startup-keyed =
    starts keyed default_options (some registry_file) none registry (genesis ∷ []) registry_loaded
      keyed_chain

keyed_start :
    start_with_keys calls no_files world default_options (some registry_file) none
    ≡ (some new_app, (([], pair), key_files))
unfolding start_with_keys kept_keys pending_init strcmp_eq
keyed_start =
    rw (registry_loaded, start_with_keys, made)
      (ap (λ a. (a, (kept_keys a pair, key_files))) startup-keyed)

-- In the later run the difficulty is lower and the model is another.
abbrev later_options : Options
later_options = record default_options { g_model = ledger_account; g_difficulty = pos 1 }

-- Neither line changes the difficulty of the first run.
first_difficulty : (session new_app keyed_lines).options.g_difficulty ≡ pos 2
unfolding session parse_command command_of scan word_of skip_spaces trim_input trim_end strcmp_eq
    mark_of mine_of execute
first_difficulty = refl

no_higher : pos 1 ≤ℤ (session new_app keyed_lines).options.g_difficulty
no_higher = rw first_difficulty (omega arith)

start_with_keys-restart-valid_example :
    let chain = (session new_app keyed_lines).mining.chain in
    (keys : Keys ℕ) × (app : App) × (start_with_keys later key_files world later_options
        (some registry_file)
        (some (saved_file chain))
      ≡ (some app, (([], keys), key_files)))
    × (app.mining.chain ≡ chain)
    × HasValidChain (with_keys later keys world) app
start_with_keys-restart-valid_example =
    start_with_keys-restart-valid calls later no_files key_files [] pair world world default_options
      later_options (some registry_file) (some registry_file) none new_app registry keyed_lines
      calls-KeyLaws first nothing_loaded keyed_start keyed-EndsNonzero
      (
        IsHarmless-keyed (codes "mark S001 PRESENT") mark-is_harmless,
        (IsHarmless-keyed (codes "mine solo") mine-is_harmless, tt),
      )
      refl registry_loaded (omega arith) no_higher

run_main-IsReleased_example :
    IsReleased calls (keys_of_run calls no_files [] (some registry_file)) (
      run_main calls no_files world []
        (some registry_file)
        none
        ((world, codes "mark S001 PRESENT") ∷ []))
run_main-IsReleased_example =
    run_main-IsReleased calls no_files world [] (some registry_file) none
      ((world, codes "mark S001 PRESENT") ∷ [])

-- The keys of that run are a pair.
pair_of_run : keys_of_run calls no_files [] (some registry_file) ≡ 1 ∷ 1 ∷ []
unfolding keys_of_run parse_cli_args held_keys
pair_of_run = rw (registry_loaded, keys_of_run, made) refl
