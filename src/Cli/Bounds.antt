-- ===== src/Cli/Bounds.antt =====
-- No array of the program's state runs over, in any session (main.c).
use transaction_models_minin.Common.{
  zero, suc, ◌≤◌, ◌<◌, ◌≡◌, refl, subst, inl, inr, Bool, not, ◌||◌, List, [], ◌∷◌, Option, none,
  some, arith, ltb, ◌==◌, length, length-take, length-set, get_elem?, take, Bool-cases,
  Option-cases,
}
use transaction_models_minin.Common.Int.{ℤ, pos, negsuc}
use transaction_models_minin.Common.Text.{Text, codes}
use transaction_models_minin.Attendance.{Chain, StudentRegistry, max_blocks}
use transaction_models_minin.Env.{Env}
use transaction_models_minin.Students.Loading.{load_student_registry}
use transaction_models_minin.Blockchain.{
  ChainFile, blockchain_init, create_genesis_block, blockchain_load, blockchain_tamper_demo,
  tampered_block,
}
use transaction_models_minin.Pending.{pending_init}
use transaction_models_minin.Pending.Mark.{mark_attendance-IsValid}
use transaction_models_minin.Pending.Queue.{pending_init-IsValid}
use transaction_models_minin.Ledger.{ledger_init, ledger_set_model}
use transaction_models_minin.Ledger.Bounds.{
  ledger_init-IsBounded, ledger_transfer-IsBounded, ledger_transfer_with_nonce-IsBounded,
}
use transaction_models_minin.Mining.Steps.Commands.{
  mining_solo-Steps, mining_pool-Steps, mining_cloud-Steps,
}
use transaction_models_minin.Mining.{MiningState}
use transaction_models_minin.Mining.Bounds.{InBounds, Steps-InBounds}
use transaction_models_minin.Cli.{
  Options, App, execute, session, chain_at_start, ledger_at_start, startup, is_student, is_stop,
}
use transaction_models_minin.Cli.Parsing.{
  Command, stop, show, usage, mark, transfer, transfer_nonce, model, difficulty, mine_solo,
  mine_pool, mine_cloud, tamper, parse_command, trim_input,
}

length-blockchain_tamper_demo :
    (e : Env) (chain : Chain) (i : ℤ) → length (blockchain_tamper_demo e chain i).1 ≡ length chain
unfolding blockchain_tamper_demo
length-blockchain_tamper_demo e chain (negsuc n) = refl
length-blockchain_tamper_demo e chain (pos zero) = refl
length-blockchain_tamper_demo e chain (pos (suc i)) =
    elim (Option-cases (get_elem? chain (suc i))) [
      | inl missing ↦ rw (missing, blockchain_tamper_demo) refl
      | inr (b, found) ↦
          rw (found, blockchain_tamper_demo) (length-set chain (suc i) (tampered_block b))
    ]

execute-InBounds :
    (e : Env) (app : App) (c : Command) → InBounds app.mining → InBounds (execute e app c).mining
unfolding execute ledger_set_model
execute-InBounds e app stop h = h
execute-InBounds e app (show screen) h = h
execute-InBounds e app (usage text) h = h
execute-InBounds e app (mark id status) h = record {
  pool = mark_attendance-IsValid e app.mining.pool app.mining.chain app.registry id status h.pool;
  rooted = h.rooted;
  blocks = h.blocks;
  ledger = h.ledger;
}
execute-InBounds e app (transfer s r x) h =
    elim (Bool-cases (not (is_student app.registry s) || not (is_student app.registry r))) [
      | inl strangers ↦ rw strangers h
      | inr known ↦ rw known (record {
        pool = h.pool;
        rooted = h.rooted;
        blocks = h.blocks;
        ledger = ledger_transfer-IsBounded e app.mining.ledger s r x h.ledger;
      })
    ]
execute-InBounds e app (transfer_nonce s r x n) h = record {
  pool = h.pool;
  rooted = h.rooted;
  blocks = h.blocks;
  ledger = ledger_transfer_with_nonce-IsBounded e app.mining.ledger s r x n h.ledger;
}
execute-InBounds e app (model arg) h = record {
  pool = h.pool;
  rooted = h.rooted;
  blocks = h.blocks;
  ledger = ledger_init-IsBounded _ app.registry;
}
execute-InBounds e app (difficulty d) h = h
execute-InBounds e app mine_solo h =
    Steps-InBounds app.mining _
      (mining_solo-Steps e app.mining app.options.g_difficulty (some (codes "SOLO_MINER"))) h
execute-InBounds e app (mine_pool n) h =
    Steps-InBounds app.mining _ (mining_pool-Steps e app.mining app.options.g_difficulty n) h
execute-InBounds e app (mine_cloud r x y) h =
    Steps-InBounds app.mining _ (mining_cloud-Steps e app.mining app.options.g_difficulty r x y) h
execute-InBounds e app (tamper i) h =
    let same = length-blockchain_tamper_demo e app.mining.chain i in
    record {
      pool = h.pool;
      rooted = rw same h.rooted;
      blocks = rw same h.blocks;
      ledger = h.ledger;
    }

session-InBounds :
    (app : App) (lines : List (Env × Text))
    → InBounds app.mining
    → InBounds (session app lines).mining
unfolding session
session-InBounds app [] h = h
session-InBounds app ((e, line) ∷ lines) h =
    let c = parse_command (trim_input line) in
    elim (Bool-cases (is_stop c)) [
      | inl stopped ↦ rw stopped h
      | inr running ↦
          rw running (session-InBounds (execute e app c) lines (execute-InBounds e app c h))
    ]

blockchain_load-bounded :
    (file : Option ChainFile) (chain : Chain)
    → blockchain_load file ≡ some chain
    → (0 < length chain) × (length chain ≤ max_blocks)
unfolding blockchain_load
blockchain_load-bounded none chain made = absurd (cc)
blockchain_load-bounded (some (count, blocks)) chain made =
    elim (Bool-cases (count == 0 || ltb max_blocks count)) [
      | inl refused ↦ absurd (ground arith)
      | inr sized ↦ elim (Bool-cases (ltb (length blocks) count)) [
        | inl short ↦ absurd (ground arith)
        | inr there ↦
            let same : take count blocks ≡ chain = ground arith in
            subst (λ (c : Chain). (0 < length c) × (length c ≤ max_blocks)) same
              (ground (arith, length-take count blocks))
      ]
    ]

blockchain_init-bounded :
    (e : Env) (chain : Chain)
    → blockchain_init e ≡ some chain
    → (0 < length chain) × (length chain ≤ max_blocks)
unfolding blockchain_init
blockchain_init-bounded e chain made = elim (Option-cases (create_genesis_block e)) [
  | inl failed ↦ absurd (ground arith)
  | inr (b, done) ↦
      let same : b ∷ [] ≡ chain = ground arith in
      subst (λ (c : Chain). (0 < length c) × (length c ≤ max_blocks)) same
        (omega arith, omega arith)
]

chain_at_start-bounded :
    (e : Env) (file : Option ChainFile) (chain : Chain)
    → chain_at_start e file ≡ some chain
    → (0 < length chain) × (length chain ≤ max_blocks)
unfolding chain_at_start
chain_at_start-bounded e file chain made = elim (Option-cases (blockchain_load file)) [
  | inr (loaded, found) ↦ blockchain_load-bounded file chain (ground arith)
  | inl fresh ↦ elim (Option-cases (blockchain_init e)) [
    | inl failed ↦ absurd (ground arith)
    | inr (first, done) ↦ blockchain_init-bounded e chain (ground arith)
  ]
]

ledger_at_start-InBounds :
    (o : Options) (registry : StudentRegistry) (chain : Chain) (app : App)
    → (0 < length chain) × (length chain ≤ max_blocks)
    → ledger_at_start o registry chain ≡ some app
    → InBounds app.mining
unfolding ledger_at_start
ledger_at_start-InBounds o registry chain app h made =
    elim (Bool-cases (ledger_init o.g_model registry).0) [
      | inr failed ↦ absurd (ground arith)
      | inl done ↦
          let start : MiningState = record {
            chain = chain;
            pool = pending_init;
            ledger = (ledger_init o.g_model registry).1;
          } in
          let same : start ≡ app.mining = ground arith in
          subst InBounds same (record {
            pool = pending_init-IsValid.0;
            rooted = h.0;
            blocks = h.1;
            ledger = ledger_init-IsBounded o.g_model registry;
          })
    ]

-- Whatever the registry file, the chain file and the lines of input are, and however the world behaves
-- from line to line, a session that starts keeps its arrays within their capacity: the chain has from 1
-- to 4096 blocks, the pool at most 256 in an array of its full size, the UTXO set at most 8192 outputs,
-- the account ledger at most 256 accounts.
pub startup-session-InBounds :
    (e : Env) (o : Options) (registry_file : Option (List Text)) (keys : Bool)
    (chain_file : Option ChainFile) (app : App) (lines : List (Env × Text))
    → startup e o registry_file keys chain_file ≡ some app
    → InBounds (session app lines).mining
unfolding startup
startup-session-InBounds e o registry_file keys chain_file app lines made =
    elim (Option-cases (load_student_registry registry_file)) [
      | inl missing ↦ absurd (ground arith)
      | inr (registry, loaded) ↦ elim (Option-cases (chain_at_start e chain_file)) [
        | inl failed ↦ absurd (ground arith)
        | inr (chain, found) ↦ session-InBounds app lines (
            ledger_at_start-InBounds o registry chain app
              (chain_at_start-bounded e chain_file chain found) (ground arith))
      ]
    ]
