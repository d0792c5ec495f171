-- ===== src/Mining/Work.antt =====
-- The loop of `mine_block_pow` (mining.c).
use native.Mathlib.Decide.{ℕ_discrete, dec_le}
use transaction_models_minin.Common.{
  ℕ, zero, suc, ◌+◌, ◌%◌, ◌≤◌, ◌<◌, ◌≡◌, ◌≢◌, refl, sym, subst, Bool, true, false, Option, none,
  some, arith, ◌==◌,
}
use transaction_models_minin.Common.Int.{ℤ, ◌≤ℤ◌}
use transaction_models_minin.Common.Text.{Text}
use transaction_models_minin.Attendance.{Block, ulong_mod, min_difficulty, max_difficulty}
use transaction_models_minin.Env.{Env}
use transaction_models_minin.Crypto.{compute_block_hash}
use transaction_models_minin.Crypto.Payload.{hashed_payload}
use transaction_models_minin.Difficulty.{hash_meets_difficulty}
use transaction_models_minin.Mining.{
  Pow, mined, hash_failed, nonce_overflow, out_of_fuel, pow_decide, pow_round, pow_loop, pow_result,
  mine_block_pow,
}

-- The hash of a block under a nonce, and whether it reaches the target.
abbrev pub hash_at : Env → Block → ℕ → Option Text
hash_at e b n = compute_block_hash e (record b { nonce = n })

abbrev pub meets : ℤ → Option Text → Bool
meets d none = false
meets d (some h) = hash_meets_difficulty h d

-- `n` is the first nonce from `m` on whose hash reaches the target, and every hash before it could
-- be computed.
pub record IsFirst (e : Env) (d : ℤ) (b : Block) (m n : ℕ) : Type 0 where
  pub target : meets d (hash_at e b n) ≡ true
  pub before : (k : ℕ) → m ≤ k → k < n → (hash_at e b k ≢ none) × (meets d (hash_at e b k) ≡ false)

-- What the loop may end with, started at nonce `m`.
abbrev Ends : Env → ℤ → Block → ℕ → ℕ → Pow → Type 0
Ends e d b m tries (mined b' tries') =
    (n : ℕ) × (h : Text) × (m ≤ n)
    × (n < ulong_mod)
    × (hash_at e b n ≡ some h)
    × (b' ≡ record b { nonce = n; hash = h })
    × IsFirst e d b m n
Ends e d b m tries hash_failed =
    (n : ℕ) × (m ≤ n)
    × (hash_at e b n ≡ none)
    × ((k : ℕ) → m ≤ k → k < n → (hash_at e b k ≢ none) × (meets d (hash_at e b k) ≡ false))
Ends e d b m tries nonce_overflow =
    (k : ℕ) → m ≤ k → k < ulong_mod → (hash_at e b k ≢ none) × (meets d (hash_at e b k) ≡ false)
Ends e d b m tries out_of_fuel = ⊥

before_from_next :
    (e : Env) (d : ℤ) (b : Block) (m bound : ℕ)
    → hash_at e b m ≢ none
    → meets d (hash_at e b m) ≡ false
    → ((k : ℕ) → m + 1 ≤ k → k < bound → (hash_at e b k ≢ none) × (meets d (hash_at e b k) ≡ false))
    → (k : ℕ) → m ≤ k
    → k < bound
    → (hash_at e b k ≢ none) × (meets d (hash_at e b k) ≡ false)
before_from_next e d b m bound made miss later k low high = elim (ℕ_discrete m k) [
  | yes same ↦
      subst (λ j. (hash_at e b j ≢ none) × (meets d (hash_at e b j) ≡ false)) same (made, miss)
  | no other ↦ later k (omega arith) high
]

Ends-from_next :
    (p : Pow) (e : Env) (d : ℤ) (b : Block) (m tries tries' : ℕ)
    → hash_at e b m ≢ none
    → meets d (hash_at e b m) ≡ false
    → Ends e d b (m + 1) tries' p
    → Ends e d b m tries p
Ends-from_next (mined b' t) e d b m tries tries' made miss (n, h, low, high, found, shape, first) =
    (
      n,
      h,
      omega arith,
      high,
      found,
      shape,
      record { target = first.target; before = before_from_next e d b m n made miss first.before },
    )
Ends-from_next hash_failed e d b m tries tries' made miss (n, low, failed, before) =
    (n, omega arith, failed, before_from_next e d b m n made miss before)
Ends-from_next nonce_overflow e d b m tries tries' made miss ends =
    before_from_next e d b m ulong_mod made miss ends
Ends-from_next out_of_fuel e d b m tries tries' made miss ends = ends

pow_decide-Ends :
    (hit wrapped : Bool) (e : Env) (d : ℤ) (b : Block) (m tries : ℕ) (h : Text)
    (go_on : Block → Pow)
    → m < ulong_mod
    → hash_at e b m ≡ some h
    → hash_meets_difficulty h d ≡ hit
    → ((m + 1) % ulong_mod == 0) ≡ wrapped
    → (m + 1 < ulong_mod → Ends e d b (m + 1) tries (go_on (record b { nonce = m; hash = h })))
    → Ends e d b m tries (pow_decide hit wrapped (record b { nonce = m; hash = h }) tries go_on)
unfolding pow_decide
pow_decide-Ends true wrapped e d b m tries h go_on small found hit last later = (
  m,
  h,
  omega arith,
  small,
  found,
  refl,
  record { target = rw found hit; before = λ k low high. absurd (omega arith) },
)
pow_decide-Ends false true e d b m tries h go_on small found miss last later =
    before_from_next e d b m ulong_mod (λ z. ground arith) (rw found miss)
      (λ k low high. absurd (ground arith))
pow_decide-Ends false false e d b m tries h go_on small found miss last later =
    Ends-from_next (go_on (record b { nonce = m; hash = h })) e d b m tries tries
      (λ z. ground arith) (rw found miss) (later (ground arith))

pow_round-Ends :
    (o : Option Text) (e : Env) (d : ℤ) (b : Block) (m tries : ℕ) (h : Text) (go_on : Block → Pow)
    → m < ulong_mod
    → hash_at e b m ≡ o
    → ((h' : Text)
        → m + 1 < ulong_mod
        → Ends e d b (m + 1) tries (go_on (record b { nonce = m + 1; hash = h' })))
    → Ends e d b m tries (pow_round o d (record b { nonce = m; hash = h }) tries go_on)
unfolding pow_round
pow_round-Ends none e d b m tries h go_on small found later =
    (m, omega arith, found, λ k low high. absurd (omega arith))
pow_round-Ends (some h') e d b m tries h go_on small found later =
    pow_decide-Ends _ _ e d b m tries h'
      (λ b'. go_on (record b' { nonce = (b'.nonce + 1) % ulong_mod })) small found refl refl
      (λ more.
        subst (λ j. Ends e d b (m + 1) tries (go_on (record b { nonce = j; hash = h' })))
          (omega arith) (later h' more))

Ends-tries :
    (p : Pow) (e : Env) (d : ℤ) (b : Block) (m t t' : ℕ) → Ends e d b m t p → Ends e d b m t' p
Ends-tries (mined b' t) e d b m _ _ ends = ends
Ends-tries hash_failed e d b m _ _ ends = ends
Ends-tries nonce_overflow e d b m _ _ ends = ends
Ends-tries out_of_fuel e d b m _ _ ends = ends

pow_loop-Ends :
    (fuel : ℕ) (e : Env) (d : ℤ) (b : Block) (m tries : ℕ) (h : Text)
    → m + fuel ≡ ulong_mod
    → 0 < fuel
    → Ends e d b m tries (pow_loop fuel e d (record b { nonce = m; hash = h }) tries)
unfolding pow_loop
pow_loop-Ends zero e d b m tries h bound some_fuel = absurd (omega arith)
pow_loop-Ends (suc fuel) e d b m tries h bound some_fuel =
    let t = (tries + 1) % ulong_mod in
    Ends-tries _ e d b m t tries (
      pow_round-Ends _ e d b m t h (λ b'. pow_loop fuel e d b' t) (omega arith)
        (sym (hashed_payload e (record b { nonce = m }) b.signature h))
        (λ h' more. pow_loop-Ends fuel e d b (m + 1) t h' (omega arith) (omega arith)))

-- What the whole search may end with.
search-Ends :
    (e : Env) (d : ℤ) (b : Block) (p : Pow)
    → pow_loop ulong_mod e d (record b { nonce = 0 }) 0 ≡ p
    → Ends e d b 0 0 p
search-Ends e d b p eq =
    subst (Ends e d b 0 0) eq (pow_loop-Ends ulong_mod e d b 0 0 b.hash (omega arith) (omega arith))

abbrev pub IsMined : Env → ℤ → Block → Block → Type 0
IsMined e d b b' =
    (n : ℕ) × (h : Text) × (n < ulong_mod)
    × (hash_at e b n ≡ some h)
    × (b' ≡ record b { nonce = n; hash = h })
    × IsFirst e d b 0 n

IsMined-by :
    (p : Pow) (e : Env) (d : ℤ) (b b' : Block) (tries : ℕ)
    → Ends e d b 0 0 p
    → pow_result p ≡ some (b', tries)
    → IsMined e d b b'
unfolding pow_result
IsMined-by (mined c t) e d b b' tries (n, h, low, high, found, shape, first) made =
    (n, h, high, found, (ground arith), first)
IsMined-by hash_failed e d b b' tries ends made = absurd (cc)
IsMined-by nonce_overflow e d b b' tries ends made = absurd (cc)
IsMined-by out_of_fuel e d b b' tries ends made = absurd ends

finds :
    (p : Pow) (e : Env) (d : ℤ) (b : Block) (n : ℕ)
    → n < ulong_mod
    → meets d (hash_at e b n) ≡ true
    → ((k : ℕ) → k ≤ n → hash_at e b k ≢ none)
    → Ends e d b 0 0 p
    → (r : Block × ℕ) × (pow_result p ≡ some r)
unfolding pow_result
finds (mined c t) e d b n small hit computable ends = ((c, t), refl)
finds hash_failed e d b n small hit computable (k, low, failed, before) = elim (dec_le k n) [
  | yes early ↦ absurd (computable k early failed)
  | no late ↦ absurd (ground (arith, (before n (omega arith) (omega arith)).1))
]
finds nonce_overflow e d b n small hit computable ends =
    absurd (ground (arith, (ends n (omega arith) small).1))
finds out_of_fuel e d b n small hit computable ends = absurd ends

-- A nonce that is found is the first that works: the block is as it was but for this nonce and the
-- hash under it, the hash reaches the target, and no smaller nonce does.
pub mine_block_pow-found :
    (e : Env) (b b' : Block) (d : ℤ) (tries : ℕ)
    → mine_block_pow e b d ≡ some (b', tries)
    → IsMined e d b b'
unfolding mine_block_pow
mine_block_pow-found e b b' d tries done =
    IsMined-by _ e d b b' tries (search-Ends e d b _ refl) (ground arith)

-- The search finds a block whenever there is one to find: for a difficulty from 1 to 4, if some
-- nonce reaches the target and the hash can be computed up to it.
pub mine_block_pow_complete :
    (e : Env) (b : Block) (d : ℤ) (n : ℕ)
    → min_difficulty ≤ℤ d
    → d ≤ℤ max_difficulty
    → n < ulong_mod
    → meets d (hash_at e b n) ≡ true
    → ((k : ℕ) → k ≤ n → hash_at e b k ≢ none)
    → (r : Block × ℕ) × (mine_block_pow e b d ≡ some r)
unfolding mine_block_pow
mine_block_pow_complete e b d n low high small hit computable =
    let (r, eq) = finds _ e d b n small hit computable (search-Ends e d b _ refl) in
    (r, ground arith)
