-- ===== src/Crypto/Keys/Stuck.antt =====
-- What a public key file that was not written to its end does to later starts (crypto.c).
use transaction_models_minin.Common.{◌≡◌, refl, ap, ◌∙◌, true, false, none, some, arith}
use transaction_models_minin.Common.Text.{Text, strcmp_eq}
use transaction_models_minin.Crypto.Keys.{
  Files, KeyCalls, Keys, put_file, private_key_file, public_key_file, write_pem_key, write_pair,
  create_keys, is_loaded, have_both, load_keys, load_or_create_keys, crypto_init_keys,
}
use transaction_models_minin.Crypto.Keys.Reload.{IsFirstStart, first_start-creates, both_keys}

module _ {Key : Type 0} (calls : KeyCalls Key) where
  create_keys-with :
      (files : Files) (keys : Keys Key) (private public : Key)
      → calls.ec_gen ≡ some private
      → calls.pkey_dup private ≡ some public
      → create_keys calls files keys
        ≡ both_keys calls private public (write_pair calls files private public)
  unfolding create_keys
  create_keys-with files keys private public made copied = ground arith

  write_pair-half :
      (files : Files) (private public : Key) (t u : Text)
      → calls.can_write private_key_file ≡ true
      → calls.can_write public_key_file ≡ true
      → calls.write_private private ≡ (true, t)
      → calls.write_public public ≡ (false, u)
      → write_pair calls files private public
        ≡ (false, put_file (put_file files private_key_file t) public_key_file u)
  unfolding write_pair write_pem_key
  write_pair-half files private public t u may may' wrote half = rw (may, wrote, may', half) refl

  damaged-fails :
      (files : Files) (keys : Keys Key) (t u : Text)
      → files private_key_file ≡ some t
      → files public_key_file ≡ some u
      → calls.read_public u ≡ none
      → ((crypto_init_keys calls files keys).0 ≡ false)
        × ((crypto_init_keys calls files keys).1.1 ≡ files)
  unfolding crypto_init_keys load_or_create_keys load_keys have_both is_loaded
  damaged-fails files keys t u file file' damaged =
      rw (file, file', damaged, crypto_init_keys, load_or_create_keys) (ground arith, refl)

module _ {Key : Type 0} (calls later : KeyCalls Key) where
  -- A start that misses a key file and cannot write the public key to its end fails and leaves a public
  -- file that is no key. Every later start then fails as well, and changes no file, also where keys could
  -- by then be made and written again.
  pub crypto_init_keys-stuck :
      (files : Files) (keys before : Keys Key) (private public : Key) (t u : Text)
      → IsFirstStart calls files
      → calls.ec_gen ≡ some private
      → calls.pkey_dup private ≡ some public
      → calls.can_write private_key_file ≡ true
      → calls.can_write public_key_file ≡ true
      → calls.write_private private ≡ (true, t)
      → calls.write_public public ≡ (false, u)
      → later.read_public u ≡ none
      → let (done, (keys', files')) = crypto_init_keys calls files keys in
        let (done', (keys'', files'')) = crypto_init_keys later files' before in
        (done ≡ false) × (done' ≡ false) × (files'' ≡ files')
  unfolding strcmp_eq
  crypto_init_keys-stuck files keys before private public t u first made copied may may' wrote half
        damaged =
      let w = write_pair-half calls files private public t u may may' wrote half in
      let start =
        first_start-creates calls files keys first
        ∙ create_keys-with calls files keys private public made copied
        ∙ ap (both_keys calls private public) w in
      let files' = put_file (put_file files private_key_file t) public_key_file u in
      let (fails, kept) = damaged-fails later files' before t u refl refl damaged in
      rw start (refl, fails, kept)
