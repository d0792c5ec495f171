-- ===== src/Blockchain/Append.antt =====
-- `blockchain_validate` on a chain that grows at its end.
use transaction_models_minin.Common.{
  ◌≤◌, ◌≡◌, ◌≢◌, refl, ap, ◌∙◌, inl, inr, true, [], ◌∷◌, ◌++◌, Option, none, some, arith, length,
  Option-cases,
}
use transaction_models_minin.Common.Int.{ℤ}
use transaction_models_minin.Common.Text.{strcmp_eq, strcmp_eq_self, strcmp_eq→eq}
use transaction_models_minin.Attendance.{Block, Chain}
use transaction_models_minin.Env.{Env}
use transaction_models_minin.Crypto.{compute_block_hash, verify_block_signature}
use transaction_models_minin.Crypto.Hex.{compute_block_hash-le}
use transaction_models_minin.Blockchain.{
  blockchain_tip, is_linked, meets_difficulty, validate_block, validate_from, blockchain_validate,
}

-- The block before what is appended, if there is any.
abbrev pub last_or : Option Block → Chain → Option Block
last_or previous [] = previous
last_or previous (b ∷ chain) = last_or (some b) chain

blockchain_tip-cons :
    (b : Block) (chain : Chain) → blockchain_tip (b ∷ chain) ≡ last_or (some b) chain
unfolding blockchain_tip
blockchain_tip-cons b [] = refl
blockchain_tip-cons b (c ∷ chain) = blockchain_tip-cons c chain

pub blockchain_tip-last_or : (chain : Chain) → blockchain_tip chain ≡ last_or none chain
unfolding blockchain_tip
blockchain_tip-last_or [] = refl
blockchain_tip-last_or (b ∷ chain) = blockchain_tip-cons b chain

validate_from-append :
    (e : Env) (d : ℤ) (previous : Option Block) (chain : Chain) (b : Block)
    → validate_from e d previous chain ≡ true
    → validate_block e d (last_or previous chain) b ≡ true
    → validate_from e d previous (chain ++ b ∷ []) ≡ true
unfolding validate_from
validate_from-append e d previous [] b old new = rw new
validate_from-append e d previous (c ∷ chain) b old new =
    ground (arith, validate_from-append e d (some c) chain b)

pub blockchain_validate-append :
    (e : Env) (d : ℤ) (chain : Chain) (b : Block)
    → blockchain_validate e chain d ≡ true
    → validate_block e d (blockchain_tip chain) b ≡ true
    → blockchain_validate e (chain ++ b ∷ []) d ≡ true
unfolding blockchain_validate
blockchain_validate-append e d [] b old new = absurd (cc)
blockchain_validate-append e d (c ∷ chain) b old new =
    validate_from-append e d none (c ∷ chain) b old (rw (← blockchain_tip-last_or (c ∷ chain)) new)

-- What the tests on one block ask, as propositions.
pub record IsGood (e : Env) (d : ℤ) (previous : Option Block) (b : Block) : Type 0 where
  pub hashed : compute_block_hash e b ≡ some b.hash
  pub worked : meets_difficulty d previous b ≡ true
  pub linked : is_linked previous b ≡ true
  pub signed : verify_block_signature e b ≡ true

pub validate_block-IsGood :
    (e : Env) (d : ℤ) (previous : Option Block) (b : Block)
    → validate_block e d previous b ≡ true
    → IsGood e d previous b
unfolding validate_block
validate_block-IsGood e d previous b h = elim (Option-cases (compute_block_hash e b)) [
  | inl failed ↦ absurd (ground arith)
  | inr (x, made) ↦
      let same : strcmp_eq x b.hash ≡ true = ground arith in
      record {
        hashed = made ∙ ap some (strcmp_eq→eq x b.hash same);
        worked = ground arith;
        linked = ground arith;
        signed = ground arith;
      }
]

pub IsGood-validate_block :
    (e : Env) (d : ℤ) (previous : Option Block) (b : Block)
    → IsGood e d previous b
    → validate_block e d previous b ≡ true
unfolding validate_block
IsGood-validate_block e d previous b g =
    ground (arith, g.hashed, g.worked, g.linked, g.signed, strcmp_eq_self b.hash)

last_hash-le :
    (e : Env) (d : ℤ) (previous : Option Block) (chain : Chain) (t : Block)
    → (previous ≡ some t → length t.hash ≤ 64)
    → validate_from e d previous chain ≡ true
    → last_or previous chain ≡ some t
    → length t.hash ≤ 64
unfolding validate_from
last_hash-le e d previous [] t old h at_end = old at_end
last_hash-le e d previous (b ∷ chain) t old h at_end =
    let good = validate_block-IsGood e d previous b (ground arith) in
    last_hash-le e d (some b) chain t
      (λ same. ground (arith, compute_block_hash-le e b b.hash good.hashed)) (ground arith) at_end

-- The tip of a valid chain has a hash of at most 64 characters.
pub tip_hash-le :
    (e : Env) (d : ℤ) (chain : Chain) (t : Block)
    → blockchain_validate e chain d ≡ true
    → blockchain_tip chain ≡ some t
    → length t.hash ≤ 64
unfolding blockchain_validate
tip_hash-le e d [] t h at_end = absurd (cc)
tip_hash-le e d (b ∷ chain) t h at_end =
    last_hash-le e d none (b ∷ chain) t (λ z. absurd (cc)) h
      (rw (← blockchain_tip-last_or (b ∷ chain)) at_end)

some_tip : (b : Block) (chain : Chain) → blockchain_tip (b ∷ chain) ≢ none
unfolding blockchain_tip
some_tip b [] z = absurd (cc)
some_tip b (c ∷ chain) z = some_tip c chain z

-- An empty chain is not valid, so a valid one has a tip.
pub valid_has_tip :
    (e : Env) (d : ℤ) (chain : Chain)
    → blockchain_validate e chain d ≡ true
    → blockchain_tip chain ≢ none
unfolding blockchain_validate
valid_has_tip e d [] h z = absurd (cc)
valid_has_tip e d (b ∷ chain) h z = some_tip b chain z
