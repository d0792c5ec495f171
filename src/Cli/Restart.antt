-- ===== src/Cli/Restart.antt =====
-- Two runs of the program (main.c): the chain of the first one in the eyes of the second one.
use transaction_models_minin.Common.{
  ℕ, ◌≡◌, ◌≢◌, refl, sym, ap, subst, ◌∙◌, inl, inr, true, false, List, [], Option, none, some,
  arith, Bool-cases, Option-cases, All,
}
use transaction_models_minin.Common.Text.{Text}
use transaction_models_minin.Env.{Env, SignatureLaws}
use transaction_models_minin.Crypto.Signature.{EndsNonzero}
use transaction_models_minin.Crypto.Keys.{
  Files, KeyCalls, Keys, no_keys, crypto_init_keys, verify_with, with_keys,
}
use transaction_models_minin.Crypto.Keys.Reload.{KeyLaws, IsFirstStart, crypto_init_keys-reloads}
use transaction_models_minin.Crypto.Keys.Restart.{pair-SignatureLaws}
use transaction_models_minin.Students.Loading.{load_student_registry, load_student_registry-IsValid}
use transaction_models_minin.Attendance.{Chain, StudentRegistry}
use transaction_models_minin.Blockchain.{ChainFile, saved_file, blockchain_load}
use transaction_models_minin.Common.Int.{pos, ◌≤ℤ◌}
use transaction_models_minin.Blockchain.Easier.{blockchain_validate-easier}
use transaction_models_minin.Blockchain.Genesis.{blockchain_load-saved_file}
use transaction_models_minin.Pending.{pending_init}
use transaction_models_minin.Ledger.{empty_ledger, ledger_init}
use transaction_models_minin.Ledger.Init.{ledger_set_model-resets}
use transaction_models_minin.Cli.Bounds.{startup-session-InBounds}
use transaction_models_minin.Cli.{
  Options, App, session, chain_at_start, ledger_at_start, startup, kept_keys, start_with_keys,
}
use transaction_models_minin.Cli.Session.{
  IsSameWorld, IsHarmless, HasValidChain, blockchain_validate-same, startup-session-valid,
}

startup-no_keys :
    (e : Env) (o : Options) (registry_file : Option (List Text)) (chain_file : Option ChainFile)
    → startup e o registry_file false chain_file ≡ none
unfolding startup
startup-no_keys e o registry_file chain_file =
    elim (Option-cases (load_student_registry registry_file)) [
      | inl missing ↦ rw (missing, startup) refl
      | inr (registry, loaded) ↦ rw (loaded, startup) refl
    ]

some_from_none : {x : Option App} {app : App} → x ≡ none → x ≢ some app
some_from_none gone there = cc

chain_at_start-loaded :
    (e : Env) (file : Option ChainFile) (chain : Chain)
    → blockchain_load file ≡ some chain
    → chain_at_start e file ≡ some chain
unfolding chain_at_start
chain_at_start-loaded e file chain found = rw (found, chain_at_start) refl

-- The state in front of the first command.
abbrev first_app : Options → StudentRegistry → Chain → App
first_app o registry chain = record {
  options = o;
  registry = registry;
  mining = record {
    chain = chain;
    pool = pending_init;
    ledger = (ledger_init o.g_model registry).1;
  };
  leaked = 0;
}

startup-loaded :
    (e : Env) (o : Options) (registry_file : Option (List Text)) (file : Option ChainFile)
    (registry : StudentRegistry) (chain : Chain)
    → load_student_registry registry_file ≡ some registry
    → blockchain_load file ≡ some chain
    → startup e o registry_file true file ≡ some (first_app o registry chain)
unfolding startup ledger_at_start
startup-loaded e o registry_file file registry chain loaded found =
    let (_, room, ids) = load_student_registry-IsValid registry_file registry loaded in
    let opened =
      (ledger_set_model-resets (empty_ledger o.g_model) o.g_model registry [] ids room).0 in
    rw (loaded, startup, chain_at_start-loaded e file chain found, opened) refl

module _ {Key : Type 0} (calls : KeyCalls Key) where
  -- A start that reached the command loop had its keys.
  started-keys :
      (files files' : Files) (freed : List Key) (keys : Keys Key) (e : Env) (o : Options)
      (registry_file : Option (List Text)) (chain_file : Option ChainFile) (app : App)
      → start_with_keys calls files e o registry_file chain_file
        ≡ (some app, ((freed, keys), files'))
      → (crypto_init_keys calls files no_keys ≡ (true, (keys, files')))
        × (startup (with_keys calls keys e) o registry_file true chain_file ≡ some app)
  unfolding start_with_keys kept_keys
  started-keys files files' freed keys e o registry_file chain_file app made =
      elim (Option-cases (load_student_registry registry_file)) [
        | inl missing ↦ absurd (ground arith)
        | inr (registry, loaded) ↦
            let i = crypto_init_keys calls files no_keys in
            let started = startup (with_keys calls i.1.0 e) o registry_file i.0 chain_file in
            let made' : (started, (kept_keys started i.1.0, i.1.1))
                ≡ (some app, ((freed, keys), files')) =
              rw (loaded, start_with_keys) at made in
            let begun : started ≡ some app = ap (λ r. r.0) made' in
            let kept : i.1 ≡ (keys, files') = λ j. (
              (sym (ap (λ s. (kept_keys s i.1.0).1) begun) ∙ ap (λ r. r.1.0.1) made') j,
              ap (λ r. r.1.1) made' j,
            ) in
            elim (Bool-cases i.0) [
              | inl there ↦ (
                λ j. (there j, kept j),
                sym (λ j.
                      startup (with_keys calls (kept j).0 e) o registry_file (there j) chain_file)
                    ∙ begun,
              )
              | inr failed ↦ absurd (
                  some_from_none
                    (startup-no_keys (with_keys calls i.1.0 e) o registry_file chain_file)
                    ((λ j.
                        startup (with_keys calls i.1.0 e) o registry_file (sym failed j) chain_file)
                      ∙ begun))
            ]
      ]

  -- A start that has its keys and finds a registry and a chain reaches the command loop.
  start_with_keys-loaded :
      (files files' : Files) (keys : Keys Key) (e : Env) (o : Options)
      (registry_file : Option (List Text)) (file : Option ChainFile) (registry : StudentRegistry)
      (chain : Chain)
      → crypto_init_keys calls files no_keys ≡ (true, (keys, files'))
      → load_student_registry registry_file ≡ some registry
      → blockchain_load file ≡ some chain
      → start_with_keys calls files e o registry_file file
        ≡ (some (first_app o registry chain), (([], keys), files'))
  unfolding start_with_keys kept_keys
  start_with_keys-loaded files files' keys e o registry_file file registry chain init loaded found =
      rw (loaded, start_with_keys, init)
        (ap (λ a. (a, (kept_keys a keys, files')))
          (startup-loaded (with_keys calls keys e) o registry_file file registry chain loaded
            found))

module _ {Key : Type 0} (calls later : KeyCalls Key) where
  same_world :
      (e e' : Env) (keys keys' : Keys Key)
      → e.sha256 ≡ e'.sha256
      → ((s : List ℕ) (p : Text)
          → verify_with later keys'.public_key s p ≡ verify_with calls keys.public_key s p)
      → IsSameWorld (with_keys later keys' e') (with_keys calls keys e)
  same_world e e' keys keys' hash h = record {
    same_hash = sym hash;
    same_verify = λ i s p. h s p i;
  }

  -- A run that starts without key files and without a chain file, in which no command tampers with the
  -- chain or changes the difficulty, leaves key files and a chain such that a later run that finds them,
  -- with the chain file as `blockchain_save` writes it and any registry file that loads, reaches its command
  -- loop with the same chain, frees no key and changes no key file, and there the chain is valid at the
  -- difficulty of the later run. That run may make another new key, and have other options but no higher
  -- difficulty, and at least 1; no signature of the first run is empty or ends in a zero byte, and the hash
  -- is the same in both runs.
  pub start_with_keys-restart-valid :
      (files files' : Files) (freed : List Key) (keys : Keys Key) (e e' : Env) (o o' : Options)
      (registry_file registry_file' : Option (List Text)) (chain_file : Option ChainFile)
      (app : App) (registry' : StudentRegistry) (lines : List (Env × Text))
      → KeyLaws calls later
      → IsFirstStart calls files
      → blockchain_load chain_file ≡ none
      → start_with_keys calls files e o registry_file chain_file
        ≡ (some app, ((freed, keys), files'))
      → EndsNonzero (with_keys calls keys e)
      → All (IsHarmless (with_keys calls keys e)) lines
      → e.sha256 ≡ e'.sha256
      → load_student_registry registry_file' ≡ some registry'
      → pos 1 ≤ℤ o'.g_difficulty
      → o'.g_difficulty ≤ℤ (session app lines).options.g_difficulty
      → let chain = (session app lines).mining.chain in
        (keys' : Keys Key) × (app' : App) × (start_with_keys later files' e' o' registry_file'
            (some (saved_file chain))
          ≡ (some app', (([], keys'), files')))
        × (app'.mining.chain ≡ chain)
        × HasValidChain (with_keys later keys' e') app'
  unfolding verify_with
  start_with_keys-restart-valid files files' freed keys e e' o o' registry_file registry_file'
        chain_file app registry' lines laws first fresh made tidy h hash loaded low no_higher =
      let (init, begun) =
        started-keys calls files files' freed keys e o registry_file chain_file app made in
      let (private, public, public', gen, copied, kept, again, same) =
        crypto_init_keys-reloads calls later files files' no_keys keys no_keys laws first init in
      let keys' : Keys Key = record { private_key = some private; public_key = some public' } in
      let chain = (session app lines).mining.chain in
      let bounds =
        startup-session-InBounds (with_keys calls keys e) o registry_file true chain_file app lines
          begun in
      let laws' =
        subst (λ k. SignatureLaws (with_keys calls k e)) kept
          (pair-SignatureLaws calls e private public
            λ p s signed. laws.pair private public p s gen copied signed) in
      let world =
        same_world e e' keys keys' hash
          λ s p. same s p ∙ ap (λ k. verify_with calls k.public_key s p) kept in
      let valid =
        blockchain_validate-same (with_keys later keys' e') (with_keys calls keys e) _ _ world
        ∙ startup-session-valid (with_keys calls keys e) o registry_file true chain_file app lines
            laws' tidy fresh begun h in
      (
        keys',
        first_app o' registry' chain,
        start_with_keys-loaded later files' files' keys' e' o' registry_file'
            (some (saved_file chain)) registry' chain again loaded
            (blockchain_load-saved_file chain bounds.rooted bounds.blocks),
        refl,
        blockchain_validate-easier (with_keys later keys' e') chain o'.g_difficulty _ low no_higher
            valid,
      )
