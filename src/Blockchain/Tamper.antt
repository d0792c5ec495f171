-- ===== src/Blockchain/Tamper.antt =====
-- The chain that `blockchain_tamper_demo` leaves, against `blockchain_validate`.
use transaction_models_minin.Common.{
  ℕ, zero, suc, ◌≡◌, ◌≢◌, refl, sym, ap, subst, ◌∙◌, inl, inr, true, false, [], ◌∷◌, ◌++◌, Option,
  none, some, arith, if◌then◌else◌, get_elem?, set, length, length-append, append-cancel_left,
  Bool-cases,
}
use transaction_models_minin.Common.Int.{ℤ, pos}
use transaction_models_minin.Common.Text.{Text, codes, strcmp_eq, strcmp_eq_self, strcmp_eq→eq}
use transaction_models_minin.Attendance.{Block, Chain}
use transaction_models_minin.Env.{Env}
use transaction_models_minin.Crypto.{
  payload_head, payload_tail, serialize_block_payload, serialize_block_for_hash, sha256_hex,
  compute_block_hash,
}
use transaction_models_minin.Blockchain.{
  tampered_block, validate_block, validate_from, blockchain_validate, blockchain_tamper_demo,
}
use transaction_models_minin.Blockchain.Append.{validate_block-IsGood}

append-cancel_right : (xs ys t : Text) → xs ++ t ≡ ys ++ t → xs ≡ ys
append-cancel_right [] [] t h = refl
append-cancel_right [] (y ∷ ys) t h = absurd (omega (arith, ap length h, length-append ys t))
append-cancel_right (x ∷ xs) [] t h = absurd (omega (arith, ap length h, length-append xs t))
append-cancel_right (x ∷ xs) (y ∷ ys) t h =
    let same : xs ++ t ≡ ys ++ t = cc in
    let first : x ≡ y = cc in let rest = append-cancel_right xs ys t same in cc

-- The status that takes the place of the block's.
abbrev flipped : Text → Text
flipped status = if strcmp_eq status (codes "ABSENT") then codes "PRESENT" else codes "ABSENT"

tampered_block-flipped : (b : Block) → tampered_block b ≡ record b { status = flipped b.status }
tampered_block-flipped b = elim (Bool-cases (strcmp_eq b.status (codes "ABSENT"))) [
  | inl absent ↦ rw absent refl
  | inr present ↦ rw present refl
]

codes-ne : codes "ABSENT" ≢ codes "PRESENT"
codes-ne h = absurd (omega (arith, ap length h))

flipped-ne : (s : Text) → s ≢ flipped s
flipped-ne s h = elim (Bool-cases (strcmp_eq s (codes "ABSENT"))) [
  | inl absent ↦ codes-ne (sym (strcmp_eq→eq s (codes "ABSENT") absent) ∙ h ∙ rw absent refl)
  | inr present ↦
      let same : s ≡ codes "ABSENT" = h ∙ rw present refl in
      absurd (
        ground (
          arith,
          present,
          strcmp_eq_self (codes "ABSENT"),
          ap (λ u. strcmp_eq u (codes "ABSENT")) same,
        ))
]

-- Another status makes another payload.
payload-ne :
    (b : Block) (s : Text)
    → b.status ≢ s
    → serialize_block_for_hash b ≢ serialize_block_for_hash (record b { status = s })
unfolding serialize_block_for_hash serialize_block_payload payload_head payload_tail
payload-ne b s other h =
    other
      (append-cancel_right b.status s (payload_tail b true) (append-cancel_left (payload_head b) h))

-- The payloads of these blocks do not collide.
abbrev pub NoCollision : Env → Block → Block → Type 0
NoCollision e b c =
    sha256_hex e (serialize_block_for_hash b) ≡ sha256_hex e (serialize_block_for_hash c)
    → serialize_block_for_hash b ≡ serialize_block_for_hash c

hash_of_payload :
    (e : Env) (b : Block) (h : Text)
    → compute_block_hash e b ≡ some h
    → sha256_hex e (serialize_block_for_hash b) ≡ some h
unfolding compute_block_hash
hash_of_payload e b h made = ground arith

other_status-refused :
    (e : Env) (d : ℤ) (b : Block) (s : Text) (previous : Option Block)
    → NoCollision e b (record b { status = s })
    → b.status ≢ s
    → compute_block_hash e b ≡ some b.hash
    → validate_block e d previous (record b { status = s }) ≡ false
other_status-refused e d b s previous apart other hashed =
    elim (Bool-cases (validate_block e d previous (record b { status = s }))) [
      | inr refused ↦ refused
      | inl passed ↦
          let good = validate_block-IsGood e d previous (record b { status = s }) passed in
          absurd (
            payload-ne b s other (
              apart (
                hash_of_payload e b b.hash hashed
                ∙ sym (hash_of_payload e (record b { status = s }) b.hash good.hashed))))
    ]

tampered-refused :
    (e : Env) (d : ℤ) (b : Block) (previous : Option Block)
    → NoCollision e b (tampered_block b)
    → compute_block_hash e b ≡ some b.hash
    → validate_block e d previous (tampered_block b) ≡ false
tampered-refused e d b previous apart hashed =
    subst (λ c. NoCollision e b c → validate_block e d previous c ≡ false)
      (sym (tampered_block-flipped b))
      (λ h. other_status-refused e d b (flipped b.status) previous h (flipped-ne b.status) hashed)
      apart

-- Every block of a valid chain has its own hash.
valid-hashed :
    (e : Env) (d : ℤ) (previous : Option Block) (chain : Chain) (i : ℕ) (b : Block)
    → validate_from e d previous chain ≡ true
    → get_elem? chain i ≡ some b
    → compute_block_hash e b ≡ some b.hash
unfolding validate_from
valid-hashed e d previous [] i b valid at = absurd (cc)
valid-hashed e d previous (c ∷ chain) zero b valid at =
    let good = validate_block-IsGood e d previous c (ground arith) in
    let same : c ≡ b = cc in subst (λ x. compute_block_hash e x ≡ some x.hash) same good.hashed
valid-hashed e d previous (c ∷ chain) (suc i) b valid at =
    valid-hashed e d (some c) chain i b (ground arith) at

-- One block that fails in any place fails the chain.
refused-fails :
    (e : Env) (d : ℤ) (previous : Option Block) (chain : Chain) (i : ℕ) (b c : Block)
    → ((p : Option Block) → validate_block e d p c ≡ false)
    → get_elem? chain i ≡ some b
    → validate_from e d previous (set chain i c) ≡ false
unfolding validate_from
refused-fails e d previous [] i b c refused at = absurd (cc)
refused-fails e d previous (x ∷ chain) zero b c refused at = rw (refused previous) refl
refused-fails e d previous (x ∷ chain) (suc i) b c refused at =
    elim (Bool-cases (validate_block e d previous x)) [
      | inl passed ↦ rw passed (refused-fails e d (some x) chain i b c refused at)
      | inr failed ↦ rw failed refl
    ]

tampered_chain :
    (e : Env) (chain : Chain) (i : ℕ) (b : Block)
    → get_elem? chain (suc i) ≡ some b
    → (blockchain_tamper_demo e chain (pos (suc i))).1 ≡ set chain (suc i) (tampered_block b)
unfolding blockchain_tamper_demo
tampered_chain e chain i b at = rw (at, blockchain_tamper_demo) refl

set-validate :
    (e : Env) (d d' : ℤ) (chain : Chain) (i : ℕ) (b : Block)
    → blockchain_validate e chain d ≡ true
    → get_elem? chain (suc i) ≡ some b
    → NoCollision e b (tampered_block b)
    → blockchain_validate e (set chain (suc i) (tampered_block b)) d' ≡ false
unfolding blockchain_validate
set-validate e d d' [] i b valid at apart = refl
set-validate e d d' (x ∷ chain) i b valid at apart =
    refused-fails e d' none (x ∷ chain) (suc i) b (tampered_block b)
      (λ p. tampered-refused e d' b p apart (valid-hashed e d none (x ∷ chain) (suc i) b valid at))
      at

-- Tampering is found: a valid chain in which the demonstration changed a block is no longer valid,
-- at any difficulty, unless SHA-256 collides on the payloads of the block before and after.
pub blockchain_tamper_demo-detected :
    (e : Env) (d d' : ℤ) (chain : Chain) (i : ℕ) (b : Block)
    → blockchain_validate e chain d ≡ true
    → get_elem? chain (suc i) ≡ some b
    → NoCollision e b (tampered_block b)
    → blockchain_validate e (blockchain_tamper_demo e chain (pos (suc i))).1 d' ≡ false
blockchain_tamper_demo-detected e d d' chain i b valid at apart =
    subst (λ c. blockchain_validate e c d' ≡ false) (sym (tampered_chain e chain i b at))
      (set-validate e d d' chain i b valid at apart)
