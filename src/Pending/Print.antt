-- ===== src/Pending/Print.antt =====
-- pending.c: the screen of the pool.
use transaction_models_minin.Common.{
  ℕ, zero, suc, ◌+◌, ◌≤◌, ◌<◌, ◌≡◌, refl, sym, ap, subst, ◌∙◌, List, [], ◌∷◌, ◌++◌, arith, ◌==◌,
  if◌then◌else◌, length, get_or, take, drop,
}
use transaction_models_minin.Common.Text.{Text, codes, decimal}
use transaction_models_minin.Attendance.{Block, PendingPool}
use transaction_models_minin.Env.{Env}
use transaction_models_minin.Blockchain.{zero_block}
use transaction_models_minin.Blockchain.Print.{block_fields}
use transaction_models_minin.Pending.Queue.{IsValid, contents, length-contents}

unfoldable pub pending_text : Env → ℕ → Block → Text
pending_text e i b = codes "\nPending #" ++ decimal i ++ codes "\n" ++ block_fields e b

-- The loop of `pending_print` from index `i` on, for that many rounds.
unfoldable pub pending_texts : Env → List Block → ℕ → ℕ → Text
pending_texts e blocks i zero = []
pending_texts e blocks i (suc rounds) =
    pending_text e i (get_or blocks i zero_block) ++ pending_texts e blocks (suc i) rounds

unfoldable pub pending_title : ℕ → Text
pending_title count =
    codes "\n=== Pending Pool (" ++ decimal count ++ codes " unconfirmed block(s)) ===\n"

unfoldable pub pending_print : Env → PendingPool → Text
pending_print e pool =
    pending_title pool.count
    ++ (if pool.count == 0
        then codes "No blocks waiting for mining.\n"
        else pending_texts e pool.blocks 0 pool.count
          ++ codes "\n=============================================\n\n")

-- The texts of a queue, numbered from `i` on.
unfoldable pub numbered : Env → ℕ → List Block → Text
numbered e i [] = []
numbered e i (b ∷ q) = pending_text e i b ++ numbered e (suc i) q

-- What the screen says of a queue.
unfoldable pub queue_screen : Env → List Block → Text
queue_screen e [] = codes "No blocks waiting for mining.\n"
queue_screen e (b ∷ q) =
    numbered e 0 (b ∷ q) ++ codes "\n=============================================\n\n"

take-drop_next :
    (blocks : List Block) (i n : ℕ)
    → i < length blocks
    → take (suc n) (drop i blocks) ≡ get_or blocks i zero_block ∷ take n (drop (suc i) blocks)
take-drop_next [] i n h = absurd (omega arith)
take-drop_next (b ∷ blocks) zero n h = refl
take-drop_next (b ∷ blocks) (suc i) n h = take-drop_next blocks i n (omega arith)

pending_texts-numbered :
    (e : Env) (blocks : List Block) (i n : ℕ)
    → i + n ≤ length blocks
    → pending_texts e blocks i n ≡ numbered e i (take n (drop i blocks))
unfolding pending_texts numbered
pending_texts-numbered e blocks i zero h = refl
pending_texts-numbered e blocks i (suc n) h =
    ap (λ t. pending_text e i (get_or blocks i zero_block) ++ t)
      (pending_texts-numbered e blocks (suc i) n (omega arith))
    ∙ sym (ap (numbered e i) (take-drop_next blocks i n (omega arith)))

queue_screen-texts :
    (e : Env) (q : List Block)
    → (if length q == 0
        then codes "No blocks waiting for mining.\n"
        else numbered e 0 q ++ codes "\n=============================================\n\n")
      ≡ queue_screen e q
unfolding queue_screen
queue_screen-texts e [] = ground arith
queue_screen-texts e (b ∷ q) = ground arith

-- The screen of a pool in order shows the queue: its length, and its blocks from the oldest on, numbered
-- from 0, or that none is waiting.
pub pending_print-contents :
    (e : Env) (pool : PendingPool)
    → IsValid pool
    → pending_print e pool
      ≡ pending_title (length (contents pool)) ++ queue_screen e (contents pool)
unfolding pending_print
pending_print-contents e pool v =
    let texts = pending_texts-numbered e pool.blocks 0 pool.count (omega (arith, v.size, v.room)) in
    let q = contents pool in
    rw texts (
      subst
        (λ n.
          pending_title n
            ++ (if n == 0
                then codes "No blocks waiting for mining.\n"
                else numbered e 0 q ++ codes "\n=============================================\n\n")
          ≡ pending_title (length q) ++ queue_screen e q)
        (length-contents pool v) (ap (λ t. pending_title (length q) ++ t) (queue_screen-texts e q)))
