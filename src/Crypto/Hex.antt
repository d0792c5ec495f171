-- ===== src/Crypto/Hex.antt =====
-- The shape of a printed digest.
use transaction_models_minin.Common.{
  ℕ, ◌*◌, ◌≤◌, ◌<◌, ◌≡◌, refl, ◌⊎◌, inl, inr, List, [], ◌∷◌, some, arith, All, length, length-take,
  Option-cases,
}
use transaction_models_minin.Common.Text.{Text}
use transaction_models_minin.Attendance.{Block}
use transaction_models_minin.Env.{Env, DigestLaws}
use transaction_models_minin.Crypto.{
  hex_digit, hex, sha256_hex, serialize_block_for_hash, compute_block_hash,
}

-- `0` to `9` and `a` to `f`
abbrev pub IsHexDigit : ℕ → Type 0
IsHexDigit c = ((b'0' ≤ c) × (c ≤ b'9')) ⊎ ((b'a' ≤ c) × (c ≤ b'f'))

pub hex_digit-IsHexDigit : (n : ℕ) → n < 16 → IsHexDigit (hex_digit n)
unfolding hex_digit
hex_digit-IsHexDigit n h = ground arith

pub length-hex : (d : List ℕ) → length (hex d) ≡ 2 * length d
unfolding hex
length-hex [] = refl
length-hex (b ∷ d) = omega (arith, length-hex d)

pub hex-IsHexDigit : (d : List ℕ) → All (λ b. b < 256) d → All IsHexDigit (hex d)
unfolding hex
hex-IsHexDigit [] h = tt
hex-IsHexDigit (b ∷ d) h = (
  hex_digit-IsHexDigit _ (omega (arith, h.0)),
  (hex_digit-IsHexDigit _ (omega arith), hex-IsHexDigit d h.1),
)

module _ (e : Env) (laws : DigestLaws e) where
  -- A hash that is made has 64 characters, where SHA-256 gives digests of 32 bytes.
  pub sha256_hex-length : (p h : Text) → sha256_hex e p ≡ some h → length h ≡ 64
  unfolding sha256_hex
  sha256_hex-length p h eq = elim (Option-cases (e.sha256 p)) [
    | inl failed ↦ ground arith
    | inr (d, made) ↦
        ground (arith, length-hex d, laws.digest_length p d made, length-take 64 (hex d))
  ]

-- Whatever SHA256() gives, at most 64 characters are kept of its digest.
pub sha256_hex-le : (e : Env) (p h : Text) → sha256_hex e p ≡ some h → length h ≤ 64
unfolding sha256_hex
sha256_hex-le e p h eq = elim (Option-cases (e.sha256 p)) [
  | inl failed ↦ absurd (ground arith)
  | inr (d, made) ↦ ground (arith, length-take 64 (hex d))
]

pub compute_block_hash-le :
    (e : Env) (b : Block) (h : Text) → compute_block_hash e b ≡ some h → length h ≤ 64
unfolding compute_block_hash
compute_block_hash-le e b h eq = ground (arith, sha256_hex-le e (serialize_block_for_hash b) h)
