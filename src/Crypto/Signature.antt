-- ===== src/Crypto/Signature.antt =====
-- `sign_block` against `verify_block_signature`, through the zero bytes behind the signature.
use transaction_models_minin.Common.{
  ℕ, zero, suc, ◌+◌, ◌-◌, ◌≤◌, ◌<◌, ◌≡◌, ◌≢◌, refl, ap, inl, inr, true, false, List, [], ◌∷◌, ◌++◌,
  some, arith, length, get_or, take, replicate, leb, Option-cases,
}
use transaction_models_minin.Common.Text.{Text}
use transaction_models_minin.Attendance.{Block, signature_len}
use transaction_models_minin.Env.{Env, SignatureLaws}
use transaction_models_minin.Crypto.Payload.{signed_payload}
use transaction_models_minin.Crypto.{
  payload_size, serialize_block_for_signature, store_signature, sign_block, trim_from,
  signature_length, verify_block_signature,
}

get_or-pad : (s : List ℕ) (m i : ℕ) → length s ≤ i → get_or (s ++ replicate m 0) i 0 ≡ 0
get_or-pad [] zero i h = refl
get_or-pad [] (suc m) zero h = refl
get_or-pad [] (suc m) (suc i) h = get_or-pad [] m i (omega arith)
get_or-pad (x ∷ s) m zero h = absurd (omega arith)
get_or-pad (x ∷ s) m (suc i) h = get_or-pad s m i (omega arith)

get_or-append_left : (s t : List ℕ) (i : ℕ) → i < length s → get_or (s ++ t) i 0 ≡ get_or s i 0
get_or-append_left [] t i h = absurd (omega arith)
get_or-append_left (x ∷ s) t zero h = refl
get_or-append_left (x ∷ s) t (suc i) h = get_or-append_left s t i (omega arith)

take-append_left : (s t : List ℕ) → take (length s) (s ++ t) ≡ s
take-append_left [] t = refl
take-append_left (x ∷ s) t = ap (λ r. x ∷ r) (take-append_left s t)

-- The trailing zero bytes go, however many there are.
trim_from-pad :
    (s : List ℕ) (m k n : ℕ)
    → n ≡ k + length s
    → trim_from (s ++ replicate m 0) n ≡ trim_from (s ++ replicate m 0) (length s)
unfolding trim_from
trim_from-pad s m zero n e = ap (trim_from (s ++ replicate m 0)) (omega arith)
trim_from-pad s m (suc k) zero e = absurd (omega arith)
trim_from-pad s m (suc k) (suc n) e =
    ground (arith, get_or-pad s m n (omega arith), trim_from-pad s m k n (omega arith))

trim_from-stop : (t : List ℕ) (i : ℕ) → get_or t i 0 ≢ 0 → trim_from t (suc i) ≡ suc i
unfolding trim_from
trim_from-stop t i h = ground arith

trim_from-le : (t : List ℕ) (i : ℕ) → trim_from t i ≤ i
unfolding trim_from
trim_from-le t zero = omega arith
trim_from-le t (suc i) = ground (arith, trim_from-le t i)

trim_from-drop : (t : List ℕ) (i : ℕ) → get_or t i 0 ≡ 0 → trim_from t (suc i) ≤ i
unfolding trim_from
trim_from-drop t i h = ground (arith, trim_from-le t i)

abbrev pub last_byte : List ℕ → ℕ
last_byte s = get_or s (length s - 1) 0

signature_length-store :
    (s : List ℕ)
    → length s ≤ signature_len
    → signature_length (store_signature s) signature_len ≡ trim_from (store_signature s) (length s)
unfolding signature_length store_signature
signature_length-store s h =
    trim_from-pad s (signature_len - length s) (signature_len - length s) signature_len
      (omega arith)

stored_last :
    (s : List ℕ) → 0 < length s → get_or (store_signature s) (length s - 1) 0 ≡ last_byte s
unfolding store_signature
stored_last s h = get_or-append_left s (replicate _ 0) (length s - 1) (omega arith)

stored_prefix : (s : List ℕ) → take (length s) (store_signature s) ≡ s
unfolding store_signature
stored_prefix s = take-append_left s (replicate _ 0)

trim_from_ends :
    (t : List ℕ) (n : ℕ)
    → 0 < n
    → (get_or t (n - 1) 0 ≢ 0 → trim_from t n ≡ n) × (get_or t (n - 1) 0 ≡ 0 → trim_from t n < n)
trim_from_ends t zero h = absurd (omega arith)
trim_from_ends t (suc i) h =
    let e : suc i - 1 ≡ i = omega arith in
    (λ ne. trim_from-stop t i (rw e at ne), λ z. omega (arith, trim_from-drop t i (rw e at z)))

-- The length of a stored signature, of 1 to 72 bytes, is found again exactly when its last byte is not zero; of a
-- signature that ends in a zero byte a shorter one is found.
pub signature_length_lem :
    (s : List ℕ)
    → 0 < length s
    → length s ≤ signature_len
    → (last_byte s ≢ 0 → signature_length (store_signature s) signature_len ≡ length s)
      × (last_byte s ≡ 0 → signature_length (store_signature s) signature_len < length s)
signature_length_lem s h k =
    rw (signature_length-store s k, ← stored_last s h)
      (trim_from_ends (store_signature s) (length s) h)

pub sign_block-eq_some :
    (e : Env) (b b' : Block)
    → sign_block e b ≡ some b'
    → (s : List ℕ) × (e.sign (serialize_block_for_signature b) ≡ some s)
      × (length s ≤ signature_len)
      × (b' ≡ record b { signature = store_signature s })
      × (leb payload_size (length (serialize_block_for_signature b)) ≡ false)
unfolding sign_block
sign_block-eq_some e b b' made = elim (Option-cases (e.sign (serialize_block_for_signature b))) [
  | inl failed ↦ absurd (ground arith)
  | inr (s, done) ↦ (s, done, ground arith, ground arith, ground arith)
]

verify_stored :
    (e : Env) (b : Block) (s : List ℕ)
    → SignatureLaws e
    → e.sign (serialize_block_for_signature b) ≡ some s
    → length s ≤ signature_len
    → leb payload_size (length (serialize_block_for_signature b)) ≡ false
    → 0 < length s
    → last_byte s ≢ 0
    → verify_block_signature e (record b { signature = store_signature s }) ≡ true
unfolding verify_block_signature
verify_stored e b s laws made fits room some_bytes ends =
    let n : signature_length (store_signature s) signature_len ≡ length s =
      (signature_length_lem s some_bytes fits).0 ends in
    rw (n, signed_payload b b.nonce (store_signature s) b.hash, room)
      (ground (arith, laws.signed_verifies _ s made, stored_prefix s))

-- Signatures that `signature_length` measures rightly: none is empty or ends in a zero byte.
pub record EndsNonzero (e : Env) : Type 0 where
  pub ends : (p : Text) (s : List ℕ) → e.sign p ≡ some s → (0 < length s) × (last_byte s ≢ 0)

-- The signature of this payload is measured rightly, if one is made.
abbrev pub IsMeasured : Env → Text → Type 0
IsMeasured e p = (s : List ℕ) → e.sign p ≡ some s → (0 < length s) × (last_byte s ≢ 0)

-- A block that was signed verifies, where made signatures verify and its own is measured rightly.
pub verify-sign_block_measured :
    (e : Env) (b b' : Block)
    → SignatureLaws e
    → IsMeasured e (serialize_block_for_signature b)
    → sign_block e b ≡ some b'
    → verify_block_signature e b' ≡ true
verify-sign_block_measured e b b' laws measured made =
    let (s, done, fits, e', room) = sign_block-eq_some e b b' made in
    rw e' (verify_stored e b s laws done fits room (measured s done).0 (measured s done).1)

-- A block that was signed verifies, where made signatures verify and none ends in a zero byte.
pub verify-sign_block :
    (e : Env) (b b' : Block)
    → SignatureLaws e
    → EndsNonzero e
    → sign_block e b ≡ some b'
    → verify_block_signature e b' ≡ true
verify-sign_block e b b' laws tidy made =
    verify-sign_block_measured e b b' laws (tidy.ends (serialize_block_for_signature b)) made
