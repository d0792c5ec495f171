-- ===== src/Env.antt =====
-- What the program calls and does not implement: OpenSSL, the clock, `rand`, the file system and
-- the allocator, as they answer during one operation. An operation that asks twice asks about
-- different arguments, so a function of the argument is no restriction.
use transaction_models_minin.Common.{ℕ, ◌≡◌, ◌<◌, Bool, true, List, Option, some, length, All}
use transaction_models_minin.Common.Int.{ℤ}
use transaction_models_minin.Common.Text.{Text}
use transaction_models_minin.Attendance.{Account, Chain}

pub record Env : Type 0 where
  -- SHA256(): the digest, or NULL
  pub sha256 : Text → Option (List ℕ)
  -- EVP_DigestSign() with the private key; none also where no key is loaded
  pub sign : Text → Option (List ℕ)
  -- EVP_DigestVerify() with the public key: the signature, then the payload
  pub verify : List ℕ → Text → Bool
  -- fopen() and fwrite() of the chain file
  pub write_chain : Chain → Bool
  -- time(NULL)
  pub now : ℤ
  -- the results of rand(), by the number of earlier calls
  pub rand : ℕ → ℕ
  -- whether calloc() gives a history node for this account
  pub calloc : Account → Bool
  -- strftime() with "%Y-%m-%d %H:%M:%S" of localtime()
  pub local_time : ℤ → Text

-- The documented behaviour of SHA256(): it gives 32 bytes.
pub record DigestLaws (e : Env) : Type 0 where
  pub digest_length : (p : Text) (d : List ℕ) → e.sha256 p ≡ some d → length d ≡ 32
  pub digest_bytes : (p : Text) (d : List ℕ) → e.sha256 p ≡ some d → All (λ b. b < 256) d

-- The documented behaviour of the key pair: a signature that was made verifies.
pub record SignatureLaws (e : Env) : Type 0 where
  pub signed_verifies : (p : Text) (s : List ℕ) → e.sign p ≡ some s → e.verify s p ≡ true
