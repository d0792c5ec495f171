-- ===== src/Cli/Progress.antt =====
-- Sessions (main.c) at whose end every pending block can still be confirmed.
use transaction_models_minin.Common.{
  ◌+◌, ◌≤◌, ◌<◌, ◌≡◌, sym, ap, subst, inl, inr, Bool, not, ◌||◌, List, [], ◌∷◌, Option, some, arith,
  length, All, Bool-cases, Option-cases,
}
use transaction_models_minin.Common.Text.{Text, codes}
use transaction_models_minin.Common.Int.{ℤ}
use transaction_models_minin.Attendance.{Block, Chain, StudentRegistry, max_blocks}
use transaction_models_minin.Env.{Env}
use transaction_models_minin.Crypto.Fits.{FitsLong, IsSized}
use transaction_models_minin.Students.Loading.{load_student_registry}
use transaction_models_minin.Blockchain.{ChainFile}
use transaction_models_minin.Pending.{pending_init, pending_remove_front}
use transaction_models_minin.Pending.Queue.{
  IsValid, contents, dequeue, pending_init-IsValid, pending_remove_front-IsValid,
  pending_remove_front-refines,
}
use transaction_models_minin.Pending.Mark.{mark_attendance-IsValid}
use transaction_models_minin.Pending.Sized.{mark_attendance-IsSized}
use transaction_models_minin.Ledger.{ledger_init}
use transaction_models_minin.Mining.Steps.Commands.{
  mining_solo-Steps, mining_pool-Steps, mining_cloud-Steps,
}
use transaction_models_minin.Mining.{MiningState, finished}
use transaction_models_minin.Mining.Pool.{mining_pool}
use transaction_models_minin.Mining.Steps.{
  Step, take_front, put_block, book_reward, pay, Steps, Steps-preserve,
}
use transaction_models_minin.Mining.Progress.{CanMine}
use transaction_models_minin.Mining.Progress.Pool.{AllConfirmed, mining_pool-confirms}
use transaction_models_minin.Cli.{
  Options, App, execute, session, chain_at_start, ledger_at_start, startup, is_student, is_stop,
}
use transaction_models_minin.Cli.Parsing.{
  Command, stop, show, usage, mark, transfer, transfer_nonce, model, difficulty, mine_solo,
  mine_pool, mine_cloud, tamper, parse_command, trim_input,
}

-- A pool in order, whose blocks fit their types and arrays.
abbrev pub HasSizedPool : MiningState → Type 0
HasSizedPool st = IsValid st.pool × All IsSized (contents st.pool)

dequeue-All :
    (q q' : List Block) (r : Option Block) → (r, q') ≡ dequeue q → All IsSized q → All IsSized q'
unfolding dequeue
dequeue-All [] q' r e h = subst (All IsSized) (sym (ap (λ p. p.1) e)) h
dequeue-All (b ∷ q) q' r e h = subst (All IsSized) (sym (ap (λ p. p.1) e)) h.1

Step-HasSizedPool : (st st' : MiningState) → Step st st' → HasSizedPool st → HasSizedPool st'
Step-HasSizedPool _ _ (take_front st) (v, h) = (
  pending_remove_front-IsValid st.pool v,
  dequeue-All (contents st.pool) _ (pending_remove_front st.pool).0
      (pending_remove_front-refines st.pool v) h,
)
Step-HasSizedPool _ _ (put_block e b st) h = h
Step-HasSizedPool _ _ (book_reward e b tx st) h = h
Step-HasSizedPool _ _ (pay e id amount st) h = h

Steps-HasSizedPool : (st st' : MiningState) → Steps st st' → HasSizedPool st → HasSizedPool st'
Steps-HasSizedPool = Steps-preserve HasSizedPool Step-HasSizedPool

-- A line that comes while the clock fits a `time_t`.
abbrev pub HasClock : Env × Text → Type 0
HasClock (e, line) = FitsLong e.now

execute-HasSizedPool :
    (e : Env) (app : App) (c : Command)
    → FitsLong e.now
    → HasSizedPool app.mining
    → HasSizedPool (execute e app c).mining
unfolding execute
execute-HasSizedPool e app stop clock h = h
execute-HasSizedPool e app (show screen) clock h = h
execute-HasSizedPool e app (usage text) clock h = h
execute-HasSizedPool e app (mark id status) clock (v, h) =
    let st = app.mining in
    (
      mark_attendance-IsValid e st.pool st.chain app.registry id status v,
      mark_attendance-IsSized e st.pool st.chain app.registry id status clock v h,
    )
execute-HasSizedPool e app (transfer s r x) clock h =
    elim (Bool-cases (not (is_student app.registry s) || not (is_student app.registry r))) [
      | inl strangers ↦ rw strangers h
      | inr known ↦ rw known h
    ]
execute-HasSizedPool e app (transfer_nonce s r x n) clock h = h
execute-HasSizedPool e app (model arg) clock h = h
execute-HasSizedPool e app (difficulty d) clock h = h
execute-HasSizedPool e app mine_solo clock h =
    Steps-HasSizedPool app.mining _
      (mining_solo-Steps e app.mining app.options.g_difficulty (some (codes "SOLO_MINER"))) h
execute-HasSizedPool e app (mine_pool n) clock h =
    Steps-HasSizedPool app.mining _ (mining_pool-Steps e app.mining app.options.g_difficulty n) h
execute-HasSizedPool e app (mine_cloud r x y) clock h =
    Steps-HasSizedPool app.mining _ (mining_cloud-Steps e app.mining app.options.g_difficulty r x y)
      h
execute-HasSizedPool e app (tamper i) clock h = h

session-HasSizedPool :
    (app : App) (lines : List (Env × Text))
    → All HasClock lines
    → HasSizedPool app.mining
    → HasSizedPool (session app lines).mining
unfolding session
session-HasSizedPool app [] clocks h = h
session-HasSizedPool app ((e, line) ∷ lines) (clock, clocks) h =
    let c = parse_command (trim_input line) in
    elim (Bool-cases (is_stop c)) [
      | inl stopped ↦ rw stopped h
      | inr running ↦ rw running (
          session-HasSizedPool (execute e app c) lines clocks
            (execute-HasSizedPool e app c clock h))
    ]

ledger_at_start-pool :
    (o : Options) (registry : StudentRegistry) (chain : Chain) (app : App)
    → ledger_at_start o registry chain ≡ some app
    → app.mining.pool ≡ pending_init
unfolding ledger_at_start
ledger_at_start-pool o registry chain app made =
    elim (Bool-cases (ledger_init o.g_model registry).0) [
      | inr failed ↦ absurd (ground arith)
      | inl done ↦ ground arith
    ]

startup-pool :
    (e : Env) (o : Options) (registry_file : Option (List Text)) (keys : Bool)
    (chain_file : Option ChainFile) (app : App)
    → startup e o registry_file keys chain_file ≡ some app
    → app.mining.pool ≡ pending_init
unfolding startup
startup-pool e o registry_file keys chain_file app made =
    elim (Option-cases (load_student_registry registry_file)) [
      | inl missing ↦ absurd (ground arith)
      | inr (registry, loaded) ↦ elim (Option-cases (chain_at_start e chain_file)) [
        | inl failed ↦ absurd (ground arith)
        | inr (chain, found) ↦ ledger_at_start-pool o registry chain app (ground arith)
      ]
    ]

-- Whatever a session has done, as long as the clock fitted a `time_t`, its pending blocks can be
-- confirmed: `mine pool` then finishes with an empty pool, and the chain has grown by the pending blocks,
-- in the order of the queue and with what they recorded. This holds if some block is pending, the chain
-- has room for all of them, the difficulty in force is from 1 to 4, hashes and signatures are made, the
-- chain file can be written, and every block has a nonce that reaches the target.
pub startup-session-confirms :
    (e e' : Env) (o : Options) (registry_file : Option (List Text)) (keys : Bool)
    (chain_file : Option ChainFile) (app : App) (lines : List (Env × Text)) (miner_count : ℤ)
    → startup e o registry_file keys chain_file ≡ some app
    → All HasClock lines
    → CanMine e' (session app lines).options.g_difficulty
    → 0 < (session app lines).mining.pool.count
    → length (session app lines).mining.chain + (session app lines).mining.pool.count ≤ max_blocks
    → let app' = session app lines in
      (st : MiningState) × (mining_pool e' app'.mining app'.options.g_difficulty miner_count
        ≡ (finished, st))
      × AllConfirmed app'.mining st
startup-session-confirms e e' o registry_file keys chain_file app lines miner_count made clocks can
      some_block room =
    let (v, no_blocks) = pending_init-IsValid in
    let first : HasSizedPool app.mining =
      rw (startup-pool e o registry_file keys chain_file app made) (v, rw no_blocks tt) in
    let (valid, sized) = session-HasSizedPool app lines clocks first in
    mining_pool-confirms e' _ can (session app lines).mining miner_count
      (record { pool = valid; sized = sized; room = room }) some_block
