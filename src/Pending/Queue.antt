-- ===== src/Pending/Queue.antt =====
-- The pool against a queue of at most `max_pending` blocks.
use transaction_models_minin.Common.{
  ℕ, zero, suc, ◌+◌, ◌-◌, ◌≤◌, ◌<◌, ◌≡◌, refl, ap, ◌∙◌, Bool, true, false, List, [], ◌∷◌, ◌++◌,
  Option, none, some, arith, leb, ◌==◌, if◌then◌else◌, length, length-set, length-take, get_or, set,
  take, length-replicate, sym, get_elem?, Bool-cases, inl, inr,
}
use transaction_models_minin.Attendance.{Block, PendingPool, max_pending}
use transaction_models_minin.Blockchain.{zero_block}
use transaction_models_minin.Pending.{
  pending_get, pending_clear, pending_init, pending_add, shift_from, pending_remove_front,
}

-- The array has its full size, and the count does not run past it.
pub record IsValid (pool : PendingPool) : Type 0 where
  pub size : length pool.blocks ≡ max_pending
  pub room : pool.count ≤ max_pending

-- The pending blocks, oldest first.
abbrev pub contents : PendingPool → List Block
contents pool = take pool.count pool.blocks

pub take-set_end :
    (xs : List Block) (n : ℕ) (b : Block)
    → n < length xs
    → take (n + 1) (set xs n b) ≡ take n xs ++ b ∷ []
take-set_end [] n b h = absurd (omega arith)
take-set_end (x ∷ xs) zero b h = refl
take-set_end (x ∷ xs) (suc n) b h =
    let e : suc n + 1 ≡ suc (n + 1) = omega arith in
    rw e (ap (λ t. x ∷ t) (take-set_end xs n b (omega arith)))

shift_from-cons :
    (x : Block) (xs : List Block) (j n : ℕ) → shift_from (x ∷ xs) (suc j) n ≡ x ∷ shift_from xs j n
unfolding shift_from
shift_from-cons x xs j zero = refl
shift_from-cons x xs j (suc n) =
    shift_from-cons x (set xs j (get_or xs (suc j) zero_block)) (suc j) n

-- The shift moves each of the next `n` elements one place to the front.
take-shift_from :
    (x : Block) (xs : List Block) (n : ℕ)
    → n ≤ length xs
    → take n (shift_from (x ∷ xs) 0 n) ≡ take n xs
unfolding shift_from
take-shift_from x xs zero h = refl
take-shift_from x [] (suc n) h = absurd (omega arith)
take-shift_from x (y ∷ xs) (suc n) h =
    rw (shift_from-cons y (y ∷ xs) 0 n) (ap (λ t. y ∷ t) (take-shift_from y xs n (omega arith)))

length-shift_from : (xs : List Block) (j n : ℕ) → length (shift_from xs j n) ≡ length xs
unfolding shift_from
length-shift_from xs j zero = refl
length-shift_from xs j (suc n) =
    length-shift_from (set xs j (get_or xs (suc j) zero_block)) (suc j) n
    ∙ length-set xs j (get_or xs (suc j) zero_block)

pub pending_add-IsValid :
    (pool : PendingPool) (b : Block) → IsValid pool → IsValid (pending_add pool b).1
unfolding pending_add
pending_add-IsValid pool b v = ground (arith, length-set pool.blocks pool.count b)

pub pending_remove_front-IsValid :
    (pool : PendingPool) → IsValid pool → IsValid (pending_remove_front pool).1
unfolding pending_remove_front
pending_remove_front-IsValid pool v =
    ground (arith, length-shift_from pool.blocks 0 (pool.count - 1))

pub pending_init-IsValid : IsValid pending_init × (contents pending_init ≡ [])
unfolding pending_init
pending_init-IsValid =
    (record { size = length-replicate max_pending zero_block; room = omega arith }, refl)

-- The queue's side.
unfoldable pub enqueue : List Block → Block → Bool × List Block
enqueue q b = if leb max_pending (length q) then (false, q) else (true, q ++ b ∷ [])

unfoldable pub dequeue : List Block → Option Block × List Block
dequeue [] = (none, [])
dequeue (b ∷ q) = (some b, q)

abbrev pub seen : {A : Type 0} → A × PendingPool → A × List Block
seen (a, pool) = (a, contents pool)

pub length-contents : (pool : PendingPool) → IsValid pool → length (contents pool) ≡ pool.count
length-contents pool v = omega (arith, length-take pool.count pool.blocks)

-- Adding to a valid pool is adding to the end of the queue, refused exactly when it is full.
pub pending_add-refines :
    (pool : PendingPool) (b : Block)
    → IsValid pool
    → seen (pending_add pool b) ≡ enqueue (contents pool) b
unfolding pending_add enqueue
pending_add-refines pool b v =
    rw (length-contents pool v) (ground (arith, take-set_end pool.blocks pool.count b))

remove_front-cons :
    (xs : List Block) (n : ℕ)
    → n < length xs
    → ◌≡◌ {A = Option Block × List Block}
        (some (get_or xs 0 zero_block), take n (shift_from xs 0 n))
        (dequeue (take (suc n) xs))
unfolding dequeue
remove_front-cons [] n h = absurd (omega arith)
remove_front-cons (x ∷ xs) n h = ap (λ t. (some x, t)) (take-shift_from x xs n (omega arith))

remove_front-by_count :
    (xs : List Block) (n : ℕ)
    → n ≤ length xs
    → seen (pending_remove_front (record { blocks = xs; count = n })) ≡ dequeue (take n xs)
unfolding pending_remove_front dequeue
remove_front-by_count xs zero h = refl
remove_front-by_count xs (suc n) h =
    let e : suc n - 1 ≡ n = omega arith in
    let z : (suc n == 0) ≡ false = ground arith in rw (e, z) (remove_front-cons xs n h)

-- Taking from a valid pool is taking the oldest block of the queue, if there is one.
pub pending_remove_front-refines :
    (pool : PendingPool) → IsValid pool → seen (pending_remove_front pool) ≡ dequeue (contents pool)
pending_remove_front-refines pool v = remove_front-by_count pool.blocks pool.count (omega arith)

get_or-take :
    (xs : List Block) (n i : ℕ)
    → i < n
    → n ≤ length xs
    → get_elem? (take n xs) i ≡ some (get_or xs i zero_block)
get_or-take [] zero i h k = absurd (omega arith)
get_or-take [] (suc n) i h k = absurd (omega arith)
get_or-take (x ∷ xs) zero i h k = absurd (omega arith)
get_or-take (x ∷ xs) (suc n) zero h k = refl
get_or-take (x ∷ xs) (suc n) (suc i) h k = get_or-take xs n i (omega arith) (omega arith)

get_elem?_end : (xs : List Block) (i : ℕ) → length xs ≤ i → get_elem? xs i ≡ none
get_elem?_end [] i h = refl
get_elem?_end (x ∷ xs) zero h = absurd (omega arith)
get_elem?_end (x ∷ xs) (suc i) h = get_elem?_end xs i (omega arith)

-- Reading a valid pool at an index is reading the queue there, and clearing it leaves no block.
pub pending_get-refines :
    (pool : PendingPool) (i : ℕ)
    → IsValid pool
    → (pending_get pool i ≡ get_elem? (contents pool) i) × (contents (pending_clear pool) ≡ [])
unfolding pending_get pending_clear
pending_get-refines pool i v = elim (Bool-cases (leb pool.count i)) [
  | inl outside ↦ (
    rw outside (sym (get_elem?_end (contents pool) i (ground (arith, length-contents pool v)))),
    refl,
  )
  | inr inside ↦
      (rw inside (sym (get_or-take pool.blocks pool.count i (ground arith) (omega arith))), refl)
]
