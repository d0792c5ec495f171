-- ===== src/Crypto/Keys.antt =====
-- crypto.c, the keys: the two pointers, the two key files, and how a start finds or makes them.
-- Messages are left out.
pub mod Reload
pub mod Restart
pub mod Stuck
use transaction_models_minin.Common.{
  ℕ, Bool, true, false, not, List, [], ◌∷◌, ◌++◌, Option, none, some, if◌then◌else◌,
}
use transaction_models_minin.Common.Text.{Text, codes, strcmp_eq}
use transaction_models_minin.Env.{Env}

abbrev pub private_key_file : Text
private_key_file = codes "attendance_private.pem"

abbrev pub public_key_file : Text
public_key_file = codes "attendance_public.pem"

-- What fopen(path, "rb") finds: the content, or none.
abbrev pub Files : Type 0
Files = Text → Option Text

-- The calls on keys and key files as they go in one run of the program, for any representation of an
-- EVP_PKEY. None is NULL. Another run has other calls: another new key, and a disk in another state.
pub record KeyCalls (Key : Type 0) : Type 0 where
  -- fopen(path, "wb")
  pub can_write : Text → Bool
  -- PEM_write_*: whether it succeeds, and what the file then holds
  pub write_private : Key → Bool × Text
  pub write_public : Key → Bool × Text
  -- PEM_read_*: the key in a file of this content
  pub read_private : Text → Option Key
  pub read_public : Text → Option Key
  -- EVP_EC_gen("P-256") and EVP_PKEY_dup()
  pub ec_gen : Option Key
  pub pkey_dup : Key → Option Key
  -- EVP_DigestSign() and EVP_DigestVerify(): the signature, then the payload
  pub digest_sign : Key → Text → Option (List ℕ)
  pub digest_verify : Key → List ℕ → Text → Bool

-- The two static pointers.
pub record Keys (Key : Type 0) : Type 0 where
  pub private_key : Option Key
  pub public_key : Option Key

abbrev pub no_keys : {Key : Type 0} → Keys Key
no_keys = record { private_key = none; public_key = none }

-- A file that is opened for writing holds what is written, the other files stay.
abbrev pub put_file : Files → Text → Text → Files
put_file files path content = λ p. if strcmp_eq p path then some content else files p

unfoldable pub is_loaded : {Key : Type 0} → Option Key → Bool
is_loaded none = false
is_loaded (some k) = true

unfoldable pub have_both : {Key : Type 0} → Keys Key → Bool
have_both keys = if is_loaded keys.private_key then is_loaded keys.public_key else false

module _ {Key : Type 0} (calls : KeyCalls Key) where
  unfoldable pub write_pem_key : Files → Text → Key → Bool → Bool × Files
  write_pem_key files path key is_private =
      if not (calls.can_write path)
      then (false, files)
      else (let (written, content) =
            if is_private then calls.write_private key else calls.write_public key in
          (written, put_file files path content))

  -- The two writes of a new pair; the second one only behind a first that succeeded.
  unfoldable pub write_pair : Files → Key → Key → Bool × Files
  write_pair files private public =
      let (written, files') = write_pem_key files private_key_file private true in
      if not written then (false, files') else write_pem_key files' public_key_file public false

  -- The branch of `load_or_create_keys` where a key file is missing.
  unfoldable pub create_keys : Files → Keys Key → Bool × (Keys Key × Files)
  create_keys files keys = elim calls.ec_gen [
    | none ↦ (false, (record keys { private_key = none }, files))
    | some private ↦ elim (calls.pkey_dup private) [
      | none ↦ (false, (record { private_key = some private; public_key = none }, files))
      | some public ↦
          let (written, files') = write_pair files private public in
          (written, (record { private_key = some private; public_key = some public }, files'))
    ]
  ]

  -- The branch where both key files are there.
  unfoldable pub load_keys : Text → Text → Keys Key
  load_keys private_pem public_pem = record {
    private_key = calls.read_private private_pem;
    public_key = calls.read_public public_pem;
  }

  unfoldable pub load_or_create_keys : Files → Keys Key → Bool × (Keys Key × Files)
  load_or_create_keys files keys = elim (files private_key_file) [
    | none ↦ create_keys files keys
    | some private_pem ↦ elim (files public_key_file) [
      | none ↦ create_keys files keys
      | some public_pem ↦
          let loaded = load_keys private_pem public_pem in (have_both loaded, (loaded, files))
    ]
  ]

  unfoldable pub crypto_init_keys : Files → Keys Key → Bool × (Keys Key × Files)
  crypto_init_keys files keys = load_or_create_keys files keys

  -- The tests of `sign_block` and `verify_block_signature` for a missing key, in front of the calls.
  unfoldable pub sign_with : Option Key → Text → Option (List ℕ)
  sign_with none payload = none
  sign_with (some k) payload = calls.digest_sign k payload

  unfoldable pub verify_with : Option Key → List ℕ → Text → Bool
  verify_with none signature payload = false
  verify_with (some k) signature payload = calls.digest_verify k signature payload

-- One half of `crypto_cleanup`: the keys that EVP_PKEY_free() is given, and the pointer behind it.
unfoldable pub free_key : {Key : Type 0} → Option Key → List Key × Option Key
free_key none = ([], none)
free_key (some k) = (k ∷ [], none)

unfoldable pub crypto_cleanup : {Key : Type 0} → Keys Key → List Key × Keys Key
crypto_cleanup keys =
    let (freed, private) = free_key keys.private_key in
    let (freed', public) = free_key keys.public_key in
    (freed ++ freed', record { private_key = private; public_key = public })

-- The world of a run whose keys these are.
abbrev pub with_keys : {Key : Type 0} → KeyCalls Key → Keys Key → Env → Env
with_keys calls keys e = record e {
  sign = sign_with calls keys.private_key;
  verify = verify_with calls keys.public_key;
}
