-- ===== src/Cli/Session.antt =====
-- Whole sessions of the program (main.c).
use transaction_models_minin.Common.{
  ◌≡◌, refl, sym, ap, subst, ◌∙◌, inl, inr, Bool, true, false, not, ◌||◌, List, [], ◌∷◌, Option,
  none, some, arith, if◌then◌else◌, Bool-cases, Option-cases, All,
}
use transaction_models_minin.Common.Int.{ℤ}
use transaction_models_minin.Common.Text.{Text, codes}
use transaction_models_minin.Attendance.{Block, Chain, StudentRegistry}
use transaction_models_minin.Env.{Env, SignatureLaws}
use transaction_models_minin.Crypto.{compute_block_hash, sha256_hex, verify_block_signature}
use transaction_models_minin.Crypto.Signature.{EndsNonzero}
use transaction_models_minin.Blockchain.{
  ChainFile, blockchain_init, blockchain_load, validate_block, validate_from, blockchain_validate,
}
use transaction_models_minin.Blockchain.Genesis.{blockchain_init-validates}
use transaction_models_minin.Students.Loading.{load_student_registry}
use transaction_models_minin.Pending.{pending_init}
use transaction_models_minin.Ledger.{ledger_init}
use transaction_models_minin.Mining.Solo.{mining_solo-drains}
use transaction_models_minin.Mining.Drains.{mining_pool-Drained, mining_cloud-Drained}
use transaction_models_minin.Cli.{
  Options, App, execute, session, chain_at_start, ledger_at_start, startup, is_student, is_stop,
}
use transaction_models_minin.Cli.Parsing.{
  Command, stop, show, usage, mark, transfer, transfer_nonce, model, difficulty, mine_solo,
  mine_pool, mine_cloud, tamper, parse_command, trim_input,
}

-- Neither the demonstration of tampering nor a change of the difficulty.
abbrev pub is_harmless : Command → Bool
is_harmless c = elim c [ tamper _ ↦ false | difficulty _ ↦ false | _ ↦ true ]

-- What validation asks of the world stays the same: the hash, and the test of a signature.
pub record IsSameWorld (e e' : Env) : Type 0 where
  pub same_hash : e.sha256 ≡ e'.sha256
  pub same_verify : e.verify ≡ e'.verify

validate_block-same :
    (e e' : Env) (d : ℤ) (previous : Option Block) (b : Block)
    → IsSameWorld e e'
    → validate_block e d previous b ≡ validate_block e' d previous b
unfolding validate_block compute_block_hash sha256_hex verify_block_signature
validate_block-same e e' d previous b w = rw (w.same_hash, w.same_verify) refl

validate_from-same :
    (e e' : Env) (d : ℤ) (previous : Option Block) (chain : Chain)
    → IsSameWorld e e'
    → validate_from e d previous chain ≡ validate_from e' d previous chain
unfolding validate_from
validate_from-same e e' d previous [] w = refl
validate_from-same e e' d previous (b ∷ chain) w = rw (validate_block-same e e' d previous b w) (
    ap (λ rest. if validate_block e' d previous b then rest else false)
      (validate_from-same e e' d (some b) chain w))

pub blockchain_validate-same :
    (e e' : Env) (chain : Chain) (d : ℤ)
    → IsSameWorld e e'
    → blockchain_validate e chain d ≡ blockchain_validate e' chain d
unfolding blockchain_validate
blockchain_validate-same e e' [] d w = refl
blockchain_validate-same e e' (b ∷ chain) d w = validate_from-same e e' d none (b ∷ chain) w

-- A line with a harmless command, in a world with the hash and the keys of `e`, whose signatures
-- verify and do not end in a zero byte.
pub record IsHarmless (e : Env) (input : Env × Text) : Type 0 where
  pub world : IsSameWorld e input.0
  pub laws : SignatureLaws input.0
  pub tidy : EndsNonzero input.0
  pub harmless : is_harmless (parse_command (trim_input input.1)) ≡ true

-- The chain is valid at the difficulty in force.
abbrev pub HasValidChain : Env → App → Type 0
HasValidChain e app = blockchain_validate e app.mining.chain app.options.g_difficulty ≡ true

execute-valid :
    (e : Env) (app : App) (c : Command)
    → SignatureLaws e
    → EndsNonzero e
    → is_harmless c ≡ true
    → HasValidChain e app
    → HasValidChain e (execute e app c)
unfolding execute
execute-valid e app stop laws tidy h v = v
execute-valid e app (show screen) laws tidy h v = v
execute-valid e app (usage text) laws tidy h v = v
execute-valid e app (mark id status) laws tidy h v = v
execute-valid e app (transfer s r x) laws tidy h v =
    elim (Bool-cases (not (is_student app.registry s) || not (is_student app.registry r))) [
      | inl strangers ↦ rw strangers v
      | inr known ↦ rw known v
    ]
execute-valid e app (transfer_nonce s r x n) laws tidy h v = v
execute-valid e app (model arg) laws tidy h v = v
execute-valid e app (difficulty d) laws tidy h v = absurd (cc)
execute-valid e app mine_solo laws tidy h v =
    (mining_solo-drains e app.options.g_difficulty laws tidy app.mining
        (some (codes "SOLO_MINER"))).kept
      v
execute-valid e app (mine_pool n) laws tidy h v =
    (mining_pool-Drained e app.options.g_difficulty laws tidy app.mining n).kept v
execute-valid e app (mine_cloud r x y) laws tidy h v =
    (mining_cloud-Drained e app.options.g_difficulty laws tidy app.mining r x y).kept v
execute-valid e app (tamper i) laws tidy h v = absurd (cc)

harmless_line :
    (e e' : Env) (app : App) (line : Text)
    → IsHarmless e (e', line)
    → HasValidChain e app
    → HasValidChain e (execute e' app (parse_command (trim_input line)))
harmless_line e e' app line h v =
    let c = parse_command (trim_input line) in
    blockchain_validate-same e e' _ _ h.world
    ∙ execute-valid e' app c h.laws h.tidy h.harmless
        (sym (blockchain_validate-same e e' _ _ h.world) ∙ v)

-- Unless a command tampers with the chain or changes the difficulty, every session that starts with a
-- valid chain leaves a valid chain, whatever the commands and however the clock, `rand`, the files and
-- the allocator behave from line to line, where signatures verify and none ends in a zero byte.
pub session-keeps_chain :
    (e : Env) (app : App) (lines : List (Env × Text))
    → All (IsHarmless e) lines
    → HasValidChain e app
    → HasValidChain e (session app lines)
unfolding session
session-keeps_chain e app [] h v = v
session-keeps_chain e app ((e', line) ∷ lines) h v =
    elim (Bool-cases (is_stop (parse_command (trim_input line)))) [
      | inl stopped ↦ rw stopped v
      | inr running ↦ rw running (
          session-keeps_chain e (execute e' app (parse_command (trim_input line))) lines h.1
            (harmless_line e e' app line h.0 v))
    ]

new_chain-valid :
    (e : Env) (d : ℤ) (file : Option ChainFile) (chain : Chain)
    → SignatureLaws e
    → EndsNonzero e
    → blockchain_load file ≡ none
    → chain_at_start e file ≡ some chain
    → blockchain_validate e chain d ≡ true
unfolding chain_at_start
new_chain-valid e d file chain laws tidy fresh made = elim (Option-cases (blockchain_init e)) [
  | inl failed ↦ absurd (ground arith)
  | inr (first, done) ↦ (blockchain_init-validates e d chain laws tidy (done ∙ ground arith)).1
]

started-valid :
    (o : Options) (e : Env) (registry : StudentRegistry) (chain : Chain) (app : App)
    → blockchain_validate e chain o.g_difficulty ≡ true
    → ledger_at_start o registry chain ≡ some app
    → HasValidChain e app
unfolding ledger_at_start
started-valid o e registry chain app v made = elim (Bool-cases (ledger_init o.g_model registry).0) [
  | inr failed ↦ absurd (ground arith)
  | inl done ↦
      let same : record {
        options = o;
        registry = registry;
        mining = record {
          chain = chain;
          pool = pending_init;
          ledger = (ledger_init o.g_model registry).1;
        };
        leaked = 0;
      }
          ≡ app =
        ground arith in
      subst (HasValidChain e) same v
]

-- A session that starts without a chain file, in which no command tampers with the chain or changes
-- the difficulty, leaves a valid chain, where signatures verify and none ends in a zero byte.
pub startup-session-valid :
    (e : Env) (o : Options) (registry_file : Option (List Text)) (keys : Bool)
    (chain_file : Option ChainFile) (app : App) (lines : List (Env × Text))
    → SignatureLaws e
    → EndsNonzero e
    → blockchain_load chain_file ≡ none
    → startup e o registry_file keys chain_file ≡ some app
    → All (IsHarmless e) lines
    → HasValidChain e (session app lines)
unfolding startup
startup-session-valid e o registry_file keys chain_file app lines laws tidy fresh made h =
    elim (Option-cases (load_student_registry registry_file)) [
      | inl missing ↦ absurd (ground arith)
      | inr (registry, loaded) ↦ elim (Option-cases (chain_at_start e chain_file)) [
        | inl failed ↦ absurd (ground arith)
        | inr (chain, found) ↦ session-keeps_chain e app lines h (
            started-valid o e registry chain app
              (new_chain-valid e o.g_difficulty chain_file chain laws tidy fresh found)
              (ground arith))
      ]
    ]
