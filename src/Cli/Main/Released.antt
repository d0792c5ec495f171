-- ===== src/Cli/Main/Released.antt =====
-- What `main` (main.c) holds when it returns.
use transaction_models_minin.Common.{
  ℕ, ◌+◌, ◌≡◌, refl, subst, inl, inr, Bool, not, ◌||◌, List, [], ◌∷◌, Option, none, some, arith,
  Bool-cases, Option-cases,
}
use transaction_models_minin.Common.Text.{Text, codes}
use transaction_models_minin.Attendance.{Chain, StudentRegistry}
use transaction_models_minin.Env.{Env}
use transaction_models_minin.Crypto.Keys.{
  Files, KeyCalls, Keys, no_keys, crypto_init_keys, free_key, crypto_cleanup, with_keys,
}
use transaction_models_minin.Students.Loading.{load_student_registry}
use transaction_models_minin.Blockchain.{ChainFile}
use transaction_models_minin.Ledger.{live_nodes, ledger_init, ledger_set_model}
use transaction_models_minin.Ledger.Freed.{
  IsTidy, ledger_cleanup-frees, ledger_init-IsTidy, ledger_apply_confirmed_block-IsTidy,
  ledger_transfer-IsTidy, ledger_transfer_with_nonce-IsTidy, ledger_credit_miner-IsTidy,
}
use transaction_models_minin.Pending.{pending_init}
use transaction_models_minin.Mining.{MiningState}
use transaction_models_minin.Mining.Steps.{
  Step, take_front, put_block, book_reward, pay, Steps, Steps-preserve,
}
use transaction_models_minin.Mining.Steps.Commands.{
  mining_solo-Steps, mining_pool-Steps, mining_cloud-Steps,
}
use transaction_models_minin.Cli.{
  Options, default_options, parse_cli_args, App, execute, session, chain_at_start, ledger_at_start,
  startup, kept_keys, start_with_keys, is_student, is_stop,
}
use transaction_models_minin.Cli.Parsing.{
  Command, stop, show, usage, mark, transfer, transfer_nonce, model, difficulty, mine_solo,
  mine_pool, mine_cloud, tamper, parse_command, trim_input,
}
use transaction_models_minin.Cli.Main.{Exit, clean_app, keyed_lines, finish, run_main}

abbrev HasTidyLedger : MiningState → Type 0
HasTidyLedger st = IsTidy st.ledger

Step-HasTidyLedger : (st st' : MiningState) → Step st st' → HasTidyLedger st → HasTidyLedger st'
Step-HasTidyLedger _ _ (take_front st) h = h
Step-HasTidyLedger _ _ (put_block e b st) h = h
Step-HasTidyLedger _ _ (book_reward e b tx st) h =
    ledger_apply_confirmed_block-IsTidy e st.ledger b tx h
Step-HasTidyLedger _ _ (pay e id amount st) h = ledger_credit_miner-IsTidy e st.ledger id amount h

Steps-HasTidyLedger : (st st' : MiningState) → Steps st st' → HasTidyLedger st → HasTidyLedger st'
Steps-HasTidyLedger = Steps-preserve HasTidyLedger Step-HasTidyLedger

-- No node is lost, and none is allocated in the UTXO model.
abbrev IsTidyApp : App → Type 0
IsTidyApp app = IsTidy app.mining.ledger × (app.leaked ≡ 0)

execute-IsTidy : (e : Env) (app : App) (c : Command) → IsTidyApp app → IsTidyApp (execute e app c)
unfolding execute ledger_set_model
execute-IsTidy e app stop h = h
execute-IsTidy e app (show screen) h = h
execute-IsTidy e app (usage text) h = h
execute-IsTidy e app (mark id status) h = h
execute-IsTidy e app (transfer s r x) h =
    elim (Bool-cases (not (is_student app.registry s) || not (is_student app.registry r))) [
      | inl strangers ↦ rw strangers h
      | inr known ↦ rw known (ledger_transfer-IsTidy e app.mining.ledger s r x h.0, h.1)
    ]
execute-IsTidy e app (transfer_nonce s r x n) h =
    (ledger_transfer_with_nonce-IsTidy e app.mining.ledger s r x n h.0, h.1)
execute-IsTidy e app (model arg) h = (
  ledger_init-IsTidy _ app.registry,
  omega (arith, h.1, ledger_cleanup-frees app.mining.ledger h.0),
)
execute-IsTidy e app (difficulty d) h = h
execute-IsTidy e app mine_solo h = (
  Steps-HasTidyLedger app.mining _
      (mining_solo-Steps e app.mining app.options.g_difficulty (some (codes "SOLO_MINER"))) h.0,
  h.1,
)
execute-IsTidy e app (mine_pool n) h = (
  Steps-HasTidyLedger app.mining _ (mining_pool-Steps e app.mining app.options.g_difficulty n) h.0,
  h.1,
)
execute-IsTidy e app (mine_cloud r x y) h = (
  Steps-HasTidyLedger app.mining _ (mining_cloud-Steps e app.mining app.options.g_difficulty r x y)
      h.0,
  h.1,
)
execute-IsTidy e app (tamper i) h = h

session-IsTidy :
    (app : App) (lines : List (Env × Text)) → IsTidyApp app → IsTidyApp (session app lines)
unfolding session
session-IsTidy app [] h = h
session-IsTidy app ((e, line) ∷ lines) h =
    let c = parse_command (trim_input line) in
    elim (Bool-cases (is_stop c)) [
      | inl stopped ↦ rw stopped h
      | inr running ↦ rw running (session-IsTidy (execute e app c) lines (execute-IsTidy e app c h))
    ]

ledger_at_start-IsTidy :
    (o : Options) (registry : StudentRegistry) (chain : Chain) (app : App)
    → ledger_at_start o registry chain ≡ some app
    → IsTidyApp app
unfolding ledger_at_start
ledger_at_start-IsTidy o registry chain app made =
    elim (Bool-cases (ledger_init o.g_model registry).0) [
      | inr failed ↦ absurd (ground arith)
      | inl done ↦
          let start : App = record {
            options = o;
            registry = registry;
            mining = record {
              chain = chain;
              pool = pending_init;
              ledger = (ledger_init o.g_model registry).1;
            };
            leaked = 0;
          } in
          let same : start ≡ app = ground arith in
          subst IsTidyApp same (ledger_init-IsTidy o.g_model registry, refl)
    ]

startup-IsTidy :
    (e : Env) (o : Options) (registry_file : Option (List Text)) (keys : Bool)
    (chain_file : Option ChainFile) (app : App)
    → startup e o registry_file keys chain_file ≡ some app
    → IsTidyApp app
unfolding startup
startup-IsTidy e o registry_file keys chain_file app made =
    elim (Option-cases (load_student_registry registry_file)) [
      | inl missing ↦ absurd (ground arith)
      | inr (registry, loaded) ↦ elim (Option-cases (chain_at_start e chain_file)) [
        | inl failed ↦ absurd (ground arith)
        | inr (chain, found) ↦ ledger_at_start-IsTidy o registry chain app (ground arith)
      ]
    ]

-- The history nodes that are still allocated, with or without a pointer to them.
unfoldable pub nodes_left : Option App → ℕ
nodes_left none = 0
nodes_left (some app) = app.leaked + live_nodes app.mining.ledger.account_ledger

-- The keys behind the two pointers.
unfoldable pub held_keys : {Key : Type 0} → Keys Key → List Key
held_keys keys = elim keys.private_key [
  | none ↦ elim keys.public_key [ none ↦ [] | some q ↦ q ∷ [] ]
  | some p ↦ elim keys.public_key [ none ↦ p ∷ [] | some q ↦ p ∷ q ∷ [] ]
]

crypto_cleanup-frees :
    {Key : Type 0} (keys : Keys Key) → crypto_cleanup keys ≡ (held_keys keys, no_keys)
unfolding crypto_cleanup free_key held_keys
crypto_cleanup-frees keys = elim (Option-cases keys.private_key) [
  | inl gone ↦ elim (Option-cases keys.public_key) [
    | inl gone' ↦ rw (gone, gone', crypto_cleanup, held_keys) refl
    | inr (q, there') ↦ rw (gone, there', crypto_cleanup, held_keys) refl
  ]
  | inr (p, there) ↦ elim (Option-cases keys.public_key) [
    | inl gone' ↦ rw (there, gone', crypto_cleanup, held_keys) refl
    | inr (q, there') ↦ rw (there, there', crypto_cleanup, held_keys) refl
  ]
]

module _ {Key : Type 0} (calls : KeyCalls Key) where
  -- These keys were freed, each once, no pointer to a key is left, and no history node is allocated.
  pub record IsReleased (made : List Key) (x : Exit Key) : Type 0 where
    pub freed : x.freed ≡ made
    pub cleared : x.keys ≡ no_keys
    pub nodes : nodes_left x.app ≡ 0

  -- The keys that the start makes or loads, if it comes so far.
  unfoldable pub keys_of_run : Files → List Text → Option (List Text) → List Key
  keys_of_run files args registry_file = elim (parse_cli_args default_options args) [
    | none ↦ []
    | some o ↦ elim (load_student_registry registry_file) [
      | none ↦ []
      | some registry ↦ held_keys (crypto_init_keys calls files no_keys).1.0
    ]
  ]

  finish-IsReleased :
      (started : Option App) (keys : Keys Key) (files : Files) (lines : List (Env × Text))
      → ((app : App) → started ≡ some app → IsTidyApp app)
      → IsReleased (held_keys keys) (finish calls started (kept_keys started keys) files lines)
  unfolding finish kept_keys nodes_left clean_app
  finish-IsReleased none keys files lines tidy =
      rw (crypto_cleanup-frees keys) (record { freed = refl; cleared = refl; nodes = refl })
  finish-IsReleased (some app) keys files lines tidy =
      let kept = session-IsTidy app (keyed_lines calls keys lines) (tidy app refl) in
      let later = session app (keyed_lines calls keys lines) in
      rw (crypto_cleanup-frees keys) (record {
        freed = refl;
        cleared = refl;
        nodes = omega (arith, kept.1, ledger_cleanup-frees later.mining.ledger kept.0);
      })

  -- Whatever the arguments, the files and the lines of input are, and however the world behaves, `main`
  -- returns with every key freed once that its start made or loaded, both pointers cleared, and no history
  -- node left, on every path: after the help, after a start that failed, and after the command loop. No
  -- change of the model leaves a node behind to which no pointer is left.
  pub run_main-IsReleased :
      (files : Files) (e : Env) (args : List Text) (registry_file : Option (List Text))
      (chain_file : Option ChainFile) (lines : List (Env × Text))
      → IsReleased
          (keys_of_run files args registry_file)
          (run_main calls files e args registry_file chain_file lines)
  unfolding run_main start_with_keys nodes_left finish keys_of_run
  run_main-IsReleased files e args registry_file chain_file lines =
      let nothing : (x : Exit Key)
          → x.freed ≡ []
          → x.keys ≡ no_keys
          → x.app ≡ none
          → IsReleased [] x =
        λ x f k a. record { freed = f; cleared = k; nodes = rw a refl } in
      elim (Option-cases (parse_cli_args default_options args)) [
        | inl helped ↦ rw (helped, run_main, keys_of_run) (nothing _ refl refl refl)
        | inr (o, parsed) ↦
            rw (parsed, run_main, keys_of_run)
              (elim (Option-cases (load_student_registry registry_file)) [
                | inl missing ↦ rw (missing, start_with_keys) (nothing _ refl refl refl)
                | inr (registry, loaded) ↦
                    let (there, (keys, files')) = crypto_init_keys calls files no_keys in
                    rw (loaded, start_with_keys)
                      (finish-IsReleased _ keys files' lines (λ app made.
                        startup-IsTidy (with_keys calls keys e) o registry_file there chain_file app
                          made))
              ])
      ]
