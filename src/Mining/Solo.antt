-- ===== src/Mining/Solo.antt =====
-- The loop of solo mining (mining.c) over the pending blocks.
use transaction_models_minin.Common.{
  ℕ, zero, suc, ◌+◌, ◌≤◌, ◌≡◌, ◌≢◌, refl, inl, inr, Bool, true, false, Option, none, some, arith,
  ◌==◌, length, Bool-cases,
}
use transaction_models_minin.Common.Int.{ℤ}
use transaction_models_minin.Common.Text.{Text}
use transaction_models_minin.Attendance.{Block, Ledger}
use transaction_models_minin.Env.{Env, SignatureLaws}
use transaction_models_minin.Crypto.Signature.{EndsNonzero}
use transaction_models_minin.Blockchain.{blockchain_validate}
use transaction_models_minin.Pending.{pending_is_empty, pending_count}
use transaction_models_minin.Mining.{
  MiningState, with_ledger, mine_front, confirm_reward, pay_miner, unchecked_reward, settle,
  confirm_pending_block, Outcome, finished, aborted, no_fuel, solo_loop, mining_solo,
  miner_or_default, settle_unchecked, confirm_unchecked,
}
use transaction_models_minin.Mining.Confirm.{Advances, is_some, mine_front-Advances}

-- The ledger plays no part in the advance of chain and pool, and an attempt may still fail at it.
ledger-Advances :
    (e : Env) (d : ℤ) (st st' : MiningState) (ok ok' : Bool) (l : Ledger)
    → (ok' ≡ true → ok ≡ true)
    → Advances e d st ok st'
    → Advances e d st ok' (with_ledger st' l)
ledger-Advances e d st st' ok ok' l weaker a = record {
  popped = a.popped;
  kept = a.kept;
  grown = λ h. a.grown (weaker h);
}

settle-Advances :
    (e : Env) (d : ℤ) (st st' : MiningState) (r : Option (Block × ℕ)) (miner : Option Text) (n : ℕ)
    → Advances e d st (is_some r) st'
    → let (ok, st'', _) = settle e st' miner n r in Advances e d st ok st''
unfolding settle
settle-Advances e d st st' none miner n a = a
settle-Advances e d st st' (some (b, attempts)) miner n a =
    let reward = confirm_reward e st'.ledger b in
    let payment = pay_miner e reward.1 miner in
    let failed = λ (l : Ledger). ledger-Advances e d st st' true false l (λ h. cc) a in
    elim (Bool-cases reward.0) [
      | inr lost ↦ rw lost (failed reward.1)
      | inl rewarded ↦ rw rewarded (elim (Bool-cases payment.0) [
        | inr lost ↦ rw lost (failed payment.1)
        | inl paid ↦ rw paid (ledger-Advances e d st st' true true payment.1 (λ h. h) a)
      ])
    ]

settle_unchecked-Advances :
    (e : Env) (d : ℤ) (st st' : MiningState) (r : Option (Block × ℕ))
    → Advances e d st (is_some r) st'
    → let (ok, st'') = settle_unchecked e st' r in Advances e d st ok st''
unfolding settle_unchecked
settle_unchecked-Advances e d st st' none a = a
settle_unchecked-Advances e d st st' (some (b, attempts)) a =
    ledger-Advances e d st st' true true (unchecked_reward e st'.ledger b) (λ h. h) a

-- What a loop over the pending blocks leaves: it has not run out of fuel, a valid chain has stayed
-- valid, and a loop that finished has moved every pending block to the chain.
pub record Drained (e : Env) (d : ℤ) (st : MiningState) (o : Outcome) (st' : MiningState)
    : Type 0 where
  pub ends : o ≢ no_fuel
  pub kept : blockchain_validate e st.chain d ≡ true → blockchain_validate e st'.chain d ≡ true
  pub moved :
      o ≡ finished → (st'.pool.count ≡ 0) × (length st'.chain ≡ length st.chain + st.pool.count)

pub finished-Drained :
    (e : Env) (d : ℤ) (st : MiningState) → st.pool.count ≡ 0 → Drained e d st finished st
finished-Drained e d st empty = record {
  ends = λ h. cc;
  kept = λ v. v;
  moved = λ _. (empty, omega arith);
}

pub aborted-Drained :
    (e : Env) (d : ℤ) (st st' : MiningState)
    → Advances e d st false st'
    → Drained e d st aborted st'
aborted-Drained e d st st' a = record { ends = λ h. cc; kept = a.kept; moved = λ h. absurd (cc) }

-- A command that does nothing.
pub refused-Drained : (e : Env) (d : ℤ) (st : MiningState) → Drained e d st aborted st
refused-Drained e d st = record { ends = λ h. cc; kept = λ v. v; moved = λ h. absurd (cc) }

pub next-Drained :
    (e : Env) (d : ℤ) (st st' st'' : MiningState) (o : Outcome)
    → Advances e d st true st'
    → Drained e d st' o st''
    → Drained e d st o st''
next-Drained e d st st' st'' o a later = record {
  ends = later.ends;
  kept = λ v. later.kept (a.kept v);
  moved = λ h. (
    (later.moved h).0,
    omega (arith, (later.moved h).1, a.popped, (a.grown refl).0, (a.grown refl).1),
  );
}

module _ (e : Env) (d : ℤ) (laws : SignatureLaws e) (tidy : EndsNonzero e) where
  pub confirm_pending_block-Advances :
      (st : MiningState) (miner : Option Text) (n : ℕ)
      → let (ok, st', _) = confirm_pending_block e st d miner n in Advances e d st ok st'
  unfolding confirm_pending_block
  confirm_pending_block-Advances st miner n =
      settle-Advances e d st _ (mine_front e st d).0 miner n (mine_front-Advances e d laws tidy st)

  pub confirm_unchecked-Advances :
      (st : MiningState) → let (ok, st') = confirm_unchecked e st d in Advances e d st ok st'
  unfolding confirm_unchecked
  confirm_unchecked-Advances st =
      settle_unchecked-Advances e d st _ (mine_front e st d).0
        (mine_front-Advances e d laws tidy st)

  solo_loop-Drained :
      (fuel : ℕ) (st : MiningState) (miner : Text) (n : ℕ)
      → st.pool.count ≤ fuel
      → let (o, st', _) = solo_loop fuel e st d miner n in Drained e d st o st'
  unfolding solo_loop pending_is_empty
  solo_loop-Drained zero st miner n enough = ground (arith, finished-Drained e d st)
  solo_loop-Drained (suc fuel) st miner n enough =
      let (ok, st', n') = confirm_pending_block e st d (some miner) n in
      let a = confirm_pending_block-Advances st (some miner) n in
      elim (Bool-cases (st.pool.count == 0)) [
        | inl empty ↦ rw empty (finished-Drained e d st (ground arith))
        | inr more ↦ rw more (elim (Bool-cases ok) [
          | inr failed ↦ rw failed (aborted-Drained e d st st' (rw failed at a))
          | inl done ↦ rw done (
              next-Drained e d st st' _ _ (rw done at a)
                (solo_loop-Drained fuel st' miner n' (ground arith)))
        ])
      ]

  -- Solo mining always ends. It keeps a valid chain valid, and where it finishes the pool is empty
  -- and the chain has grown by one block for each that was pending. This holds where signatures
  -- verify and none ends in a zero byte.
  pub mining_solo-drains :
      (st : MiningState) (miner : Option Text)
      → let (o, st') = mining_solo e st d miner in Drained e d st o st'
  unfolding mining_solo pending_is_empty pending_count
  mining_solo-drains st miner = elim (Bool-cases (st.pool.count == 0)) [
    | inl empty ↦ rw empty (refused-Drained e d st)
    | inr more ↦
        rw more (solo_loop-Drained st.pool.count st (miner_or_default miner) 0 (omega arith))
  ]
