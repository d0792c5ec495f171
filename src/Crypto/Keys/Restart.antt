-- ===== src/Crypto/Keys/Restart.antt =====
-- A block that was signed in one run, in the eyes of the next one (crypto.c).
use transaction_models_minin.Common.{◌≡◌, sym, subst, ◌∙◌, true, List, ℕ, some}
use transaction_models_minin.Common.Text.{Text}
use transaction_models_minin.Attendance.{Block}
use transaction_models_minin.Env.{Env, SignatureLaws}
use transaction_models_minin.Crypto.{sign_block, verify_block_signature}
use transaction_models_minin.Crypto.Signature.{EndsNonzero, verify-sign_block}
use transaction_models_minin.Crypto.Keys.{
  Files, KeyCalls, Keys, no_keys, crypto_init_keys, sign_with, verify_with, with_keys,
}
use transaction_models_minin.Crypto.Keys.Reload.{KeyLaws, IsFirstStart, crypto_init_keys-reloads}

-- A block that one world signed verifies in another one whose test accepts these signatures.
verifies_in :
    (e e' : Env) (b b' : Block)
    → ((p : Text) (s : List ℕ) → e.sign p ≡ some s → e'.verify s p ≡ true)
    → EndsNonzero e
    → sign_block e b ≡ some b'
    → verify_block_signature e' b' ≡ true
unfolding sign_block verify_block_signature
verifies_in e e' b b' accepts tidy signed =
    verify-sign_block (record e' { sign = e.sign }) b b' (record { signed_verifies = accepts })
      (record { ends = tidy.ends }) signed

pub pair-SignatureLaws :
    {Key : Type 0} (calls : KeyCalls Key) (e : Env) (private public : Key)
    → ((p : Text) (s : List ℕ)
        → calls.digest_sign private p ≡ some s
        → calls.digest_verify public s p ≡ true)
    → SignatureLaws
        (with_keys calls (record { private_key = some private; public_key = some public }) e)
unfolding sign_with verify_with
pair-SignatureLaws calls e private public h = record { signed_verifies = h }

module _ {Key : Type 0} (calls later : KeyCalls Key) where
  -- A block that was signed in the run that made the keys verifies in this run and in a later one, whose
  -- start succeeds and changes no file, whatever new key the later run could have made, where no signature
  -- is empty or ends in a zero byte.
  pub sign_block-verifies_later :
      (files files' : Files) (keys keys' : Keys Key) (e e' : Env) (b b' : Block)
      → KeyLaws calls later
      → IsFirstStart calls files
      → crypto_init_keys calls files keys ≡ (true, (keys', files'))
      → EndsNonzero (with_keys calls keys' e)
      → sign_block (with_keys calls keys' e) b ≡ some b'
      → (verify_block_signature (with_keys calls keys' e) b' ≡ true)
        × (keys'' : Keys Key) × (crypto_init_keys later files' no_keys ≡ (true, (keys'', files')))
        × (verify_block_signature (with_keys later keys'' e') b' ≡ true)
  unfolding sign_with verify_with
  sign_block-verifies_later files files' keys keys' e e' b b' laws first done tidy signed =
      let (private, public, public', made, copied, kept, again, same) =
        crypto_init_keys-reloads calls later files files' keys keys' no_keys laws first done in
      let made_keys : Keys Key = record { private_key = some private; public_key = some public } in
      let keys'' : Keys Key = record { private_key = some private; public_key = some public' } in
      let pair : (p : Text) (s : List ℕ)
          → calls.digest_sign private p ≡ some s
          → calls.digest_verify public s p ≡ true =
        λ p s h. laws.pair private public p s made copied h in
      let tidy' = subst (λ k. EndsNonzero (with_keys calls k e)) (sym kept) tidy in
      let signed' = subst (λ k. sign_block (with_keys calls k e) b ≡ some b') (sym kept) signed in
      (
        subst (λ k. verify_block_signature (with_keys calls k e) b' ≡ true) kept
            (verifies_in (with_keys calls made_keys e) (with_keys calls made_keys e) b b' pair tidy'
              signed'),
        keys'',
        again,
        verifies_in (with_keys calls made_keys e) (with_keys later keys'' e') b b'
            (λ p s h. same s p ∙ pair p s h) tidy' signed',
      )
