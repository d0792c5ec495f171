-- ===== src/Mining/Recorded.antt =====
-- What chain and pool record together while blocks are mined (mining.c): nothing is lost and nothing
-- changes its place as long as mining succeeds.
use transaction_models_minin.Common.{
  ℕ, ◌≡◌, refl, sym, ap, ◌∙◌, inl, inr, Bool, true, false, List, [], ◌∷◌, ◌++◌, Option, none, some,
  map, append-nil,
}
use transaction_models_minin.Common.Int.{ℤ}
use transaction_models_minin.Attendance.{Block, Chain}
use transaction_models_minin.Env.{Env}
use transaction_models_minin.Pending.{pending_remove_front}
use transaction_models_minin.Pending.Queue.{
  IsValid, contents, pending_remove_front-IsValid, length-contents,
}
use transaction_models_minin.Mining.{
  MiningState, mine_block_pow, prepare_block_for_mining, append_mined, append_found, mine_prepared,
  mine_taken, mine_front, settle_unchecked, confirm_unchecked,
}
use transaction_models_minin.Mining.Confirm.{
  append-cases, is_some, popped_state, count-pending_remove_front,
}
use transaction_models_minin.Mining.Progress.{attendance, mined-attendance}
use transaction_models_minin.Mining.Progress.Pool.{pool-Front, length-zero}

-- What the blocks of the chain record, oldest first, and behind it what the pending blocks record, in
-- the order of the queue.
abbrev pub recorded : MiningState → List Block
recorded st = map attendance st.chain ++ map attendance (contents st.pool)

-- The pool stays in order, and where the step succeeds the records are the same.
pub record Carries (st : MiningState) (ok : Bool) (st' : MiningState) : Type 0 where
  pub pool : IsValid st'.pool
  pub carried : ok ≡ true → recorded st' ≡ recorded st

recorded-moved :
    (chain : Chain) (b b' : Block) (q : List Block)
    → attendance b' ≡ attendance b
    → map attendance (chain ++ b' ∷ []) ++ map attendance q
      ≡ map attendance chain ++ map attendance (b ∷ q)
recorded-moved [] b b' q same = ap (λ a. a ∷ map attendance q) same
recorded-moved (c ∷ chain) b b' q same =
    ap (λ l. attendance c ∷ l) (recorded-moved chain b b' q same)

stays-Carries : (st : MiningState) → IsValid st.pool → Carries st false (popped_state st)
stays-Carries st v = record {
  pool = pending_remove_front-IsValid st.pool v;
  carried = λ h. absurd (cc);
}

append_mined-Carries :
    (e : Env) (st : MiningState) (b b' : Block) (tries : ℕ)
    → IsValid st.pool
    → contents st.pool ≡ b ∷ contents (pending_remove_front st.pool).1
    → attendance b' ≡ attendance b
    → let (r, st') = append_mined e (popped_state st) (b', tries) in Carries st (is_some r) st'
unfolding append_mined
append_mined-Carries e st b b' tries v front same = elim (append-cases e st.chain b') [
  | inl saved ↦ rw saved (record {
    pool = pending_remove_front-IsValid st.pool v;
    carried = λ _.
        recorded-moved st.chain b b' (contents (pending_remove_front st.pool).1) same
        ∙ ap (λ q. map attendance st.chain ++ map attendance q) (sym front);
  })
  | inr lost ↦ rw lost (stays-Carries st v)
]

module _ (e : Env) (d : ℤ) where
  append_found-Carries :
      (st : MiningState) (b prepared : Block) (r : Option (Block × ℕ))
      → IsValid st.pool
      → contents st.pool ≡ b ∷ contents (pending_remove_front st.pool).1
      → prepare_block_for_mining e b st.chain ≡ some prepared
      → mine_block_pow e prepared d ≡ r
      → let (o, st') = append_found e (popped_state st) r in Carries st (is_some o) st'
  unfolding append_found
  append_found-Carries st b prepared none v front made found = stays-Carries st v
  append_found-Carries st b prepared (some (b', tries)) v front made found =
      append_mined-Carries e st b b' tries v front
        (mined-attendance e d st.chain b prepared (b', tries) made found)

  mine_prepared-Carries :
      (st : MiningState) (b : Block) (p : Option Block)
      → IsValid st.pool
      → contents st.pool ≡ b ∷ contents (pending_remove_front st.pool).1
      → prepare_block_for_mining e b st.chain ≡ p
      → let (o, st') = mine_prepared e (popped_state st) d p in Carries st (is_some o) st'
  unfolding mine_prepared
  mine_prepared-Carries st b none v front made = stays-Carries st v
  mine_prepared-Carries st b (some prepared) v front made =
      append_found-Carries st b prepared _ v front made refl

  front_is :
      (st : MiningState) (b : Block)
      → IsValid st.pool
      → (pending_remove_front st.pool).0 ≡ some b
      → contents st.pool ≡ b ∷ contents (pending_remove_front st.pool).1
  front_is st b v taken =
      let f = pool-Front st.pool v ((count-pending_remove_front st.pool).1 (rw taken refl)) in
      let same : f.b ≡ b = cc (f.taken, taken) in
      f.front
      ∙ ap (λ q. f.b ∷ q) (sym f.rest)
      ∙ ap (λ x. x ∷ contents (pending_remove_front st.pool).1) same

  mine_taken-Carries :
      (st : MiningState) (front : Option Block)
      → IsValid st.pool
      → (pending_remove_front st.pool).0 ≡ front
      → let (o, st') = mine_taken e (popped_state st) d front in Carries st (is_some o) st'
  unfolding mine_taken
  mine_taken-Carries st none v taken = stays-Carries st v
  mine_taken-Carries st (some b) v taken =
      mine_prepared-Carries st b _ v (front_is st b v taken) refl

  mine_front-Carries :
      (st : MiningState)
      → IsValid st.pool
      → let (r, st') = mine_front e st d in Carries st (is_some r) st'
  unfolding mine_front
  mine_front-Carries st v = mine_taken-Carries st _ v refl

  settle_unchecked-Carries :
      (st st' : MiningState) (r : Option (Block × ℕ))
      → Carries st (is_some r) st'
      → let (ok, st'') = settle_unchecked e st' r in Carries st ok st''
  unfolding settle_unchecked
  settle_unchecked-Carries st st' none c = c
  settle_unchecked-Carries st st' (some (b, attempts)) c = record {
    pool = c.pool;
    carried = c.carried;
  }

  pub confirm_unchecked-Carries :
      (st : MiningState)
      → IsValid st.pool
      → let (ok, st') = confirm_unchecked e st d in Carries st ok st'
  unfolding confirm_unchecked
  confirm_unchecked-Carries st v =
      settle_unchecked-Carries st (mine_front e st d).1 (mine_front e st d).0
        (mine_front-Carries st v)

-- An empty pool records nothing.
pub recorded-empty :
    (st : MiningState) → IsValid st.pool → st.pool.count ≡ 0 → recorded st ≡ map attendance st.chain
recorded-empty st v empty =
    ap (λ q. map attendance st.chain ++ map attendance q)
      (length-zero (contents st.pool) (length-contents st.pool v ∙ empty))
    ∙ append-nil (map attendance st.chain)
