-- ===== src/Cli/Replay.antt =====
-- A nonce is good for one transfer in a whole session (main.c).
use transaction_models_minin.Common.{
  ℕ, suc, ◌≤◌, ◌≡◌, refl, subst, ◌∙◌, inl, inr, Bool, true, false, not, ◌||◌, List, [], ◌∷◌, some,
  length, Bool-cases, All,
}
use transaction_models_minin.Common.Int.{
  ℤ, pos, negsuc, ◌+ℤ◌, ◌≤ℤ◌, add_int, add_int_bounds, int_max, int_laws,
}
use transaction_models_minin.Common.Text.{Text, codes}
use transaction_models_minin.Attendance.{student_id_max}
use transaction_models_minin.Env.{Env}
use transaction_models_minin.Accounts.Nonces.{IsStepped}
use transaction_models_minin.Ledger.{ledger_transfer_with_nonce}
use transaction_models_minin.Ledger.Nonces.{
  nonce_in, Advances, Keeps-refl, Keeps-Advances, ledger_transfer-Advances,
  ledger_transfer_with_nonce-Advances, ledger_transfer_with_nonce-accepted,
}
use transaction_models_minin.Mining.Steps.Commands.{
  mining_solo-Steps, mining_pool-Steps, mining_cloud-Steps,
}
use transaction_models_minin.Mining.Nonces.{Steps-Keeps}
use transaction_models_minin.Cli.{App, execute, session, is_student, is_stop}
use transaction_models_minin.Cli.Parsing.{
  Command, stop, show, usage, mark, transfer, transfer_nonce, model, difficulty, mine_solo,
  mine_pool, mine_cloud, tamper, parse_command, trim_input,
}

-- The command does not empty the ledger.
abbrev pub keeps_ledger : Command → Bool
keeps_ledger c = elim c [ model _ ↦ false | _ ↦ true ]

-- No command but `model` changes the model, or moves a nonce by more than one.
execute-Advances :
    (e : Env) (k : Text) (app : App) (c : Command)
    → keeps_ledger c ≡ true
    → Advances k app.mining.ledger (execute e app c).mining.ledger
unfolding execute
execute-Advances e k app stop h = Keeps-Advances k _ _ (Keeps-refl k _)
execute-Advances e k app (show screen) h = Keeps-Advances k _ _ (Keeps-refl k _)
execute-Advances e k app (usage text) h = Keeps-Advances k _ _ (Keeps-refl k _)
execute-Advances e k app (mark id status) h = Keeps-Advances k _ _ (Keeps-refl k _)
execute-Advances e k app (transfer s r x) h =
    elim (Bool-cases (not (is_student app.registry s) || not (is_student app.registry r))) [
      | inl strangers ↦ rw strangers (Keeps-Advances k _ _ (Keeps-refl k app.mining.ledger))
      | inr known ↦ rw known (ledger_transfer-Advances e k app.mining.ledger s r x)
    ]
execute-Advances e k app (transfer_nonce s r x n) h =
    ledger_transfer_with_nonce-Advances e k app.mining.ledger s r x n
execute-Advances e k app (model arg) h = absurd (cc)
execute-Advances e k app (difficulty d) h = Keeps-Advances k _ _ (Keeps-refl k _)
execute-Advances e k app mine_solo h = Keeps-Advances k _ _ (
    Steps-Keeps k app.mining _
      (mining_solo-Steps e app.mining app.options.g_difficulty (some (codes "SOLO_MINER"))))
execute-Advances e k app (mine_pool n) h =
    Keeps-Advances k _ _
      (Steps-Keeps k app.mining _ (mining_pool-Steps e app.mining app.options.g_difficulty n))
execute-Advances e k app (mine_cloud r x y) h =
    Keeps-Advances k _ _
      (Steps-Keeps k app.mining _ (mining_cloud-Steps e app.mining app.options.g_difficulty r x y))
execute-Advances e k app (tamper i) h = Keeps-Advances k _ _ (Keeps-refl k _)

stepped_le :
    (p q : ℤ) (m : ℕ)
    → negsuc int_max ≤ℤ p
    → p +ℤ pos (suc m) ≤ℤ pos int_max
    → IsStepped p q
    → (p ≤ℤ q) × (q +ℤ pos m ≤ℤ pos int_max)
stepped_le p q m low room (inl same) = rw same (omega int_laws, omega int_laws)
stepped_le p q m low room (inr step) =
    let next : q ≡ p +ℤ pos 1 = step ∙ add_int_bounds p (pos 1) (omega int_laws) (omega int_laws) in
    rw next (omega int_laws, omega int_laws)

-- A line of input with such a command.
abbrev pub KeepsLedger : Env × Text → Type 0
KeepsLedger line = keeps_ledger (parse_command (trim_input line.1)) ≡ true

-- The model stays, and no nonce ever falls, while none can pass INT_MAX.
session-nonce :
    (k : Text) (app : App) (lines : List (Env × Text))
    → All KeepsLedger lines
    → negsuc int_max ≤ℤ nonce_in app.mining.ledger k
    → nonce_in app.mining.ledger k +ℤ pos (length lines) ≤ℤ pos int_max
    → ((session app lines).mining.ledger.model ≡ app.mining.ledger.model)
      × (nonce_in app.mining.ledger k ≤ℤ nonce_in (session app lines).mining.ledger k)
unfolding session
session-nonce k app [] h low room = (refl, omega int_laws)
session-nonce k app ((e, line) ∷ lines) h low room =
    let c = parse_command (trim_input line) in
    let app' = execute e app c in
    elim (Bool-cases (is_stop c)) [
      | inl stopped ↦ rw stopped (refl, omega int_laws)
      | inr running ↦
          let step = execute-Advances e k app c h.0 in
          let (up, room') =
            stepped_le (nonce_in app.mining.ledger k) (nonce_in app'.mining.ledger k) (length lines)
              low room step.nonce in
          let (same, more) = session-nonce k app' lines h.1 (omega int_laws) room' in
          rw running (same ∙ step.model, omega int_laws)
    ]

room_after :
    (n p : ℤ) (m : ℕ)
    → negsuc int_max ≤ℤ n
    → n +ℤ pos (suc m) ≤ℤ pos int_max
    → p ≡ add_int n (pos 1)
    → (p ≡ n +ℤ pos 1) × (negsuc int_max ≤ℤ p) × (p +ℤ pos m ≤ℤ pos int_max)
room_after n p m low room step =
    let next : p ≡ n +ℤ pos 1 = step ∙ add_int_bounds n (pos 1) (omega int_laws) (omega int_laws) in
    rw next (refl, omega int_laws, omega int_laws)

past_nonce : (n p q : ℤ) → p ≡ n +ℤ pos 1 → p ≤ℤ q → q ≡ n → ⊥
past_nonce n p q next above named =
    let far : n +ℤ pos 1 ≤ℤ n = subst (λ z. z ≤ℤ n) next (subst (λ z. p ≤ℤ z) named above) in
    omega int_laws

-- Once the command `transfer_nonce` moved money with a nonce, no later transfer of that sender with
-- the nonce is accepted: not after any further lines of input other than `model` commands, whoever is
-- paid and however much, and however the world behaves. The ids have at most 19 characters, and the
-- nonce leaves room below INT_MAX for as many steps as there are lines and one.
pub session-no_replay :
    (e e' : Env) (app : App) (lines : List (Env × Text)) (s r r' : Text) (x y n : ℤ)
    → length s ≤ student_id_max
    → length r ≤ student_id_max
    → length r' ≤ student_id_max
    → negsuc int_max ≤ℤ n
    → n +ℤ pos (suc (length lines)) ≤ℤ pos int_max
    → All KeepsLedger lines
    → (ledger_transfer_with_nonce e app.mining.ledger s r x n).0 ≡ true
    → let later = session (execute e app (transfer_nonce s r x n)) lines in
      (ledger_transfer_with_nonce e' later.mining.ledger s r' y n).0 ≡ false
unfolding execute
session-no_replay e e' app lines s r r' x y n fs fr fr' low room h done =
    let app' = execute e app (transfer_nonce s r x n) in
    let later = session app' lines in
    let (_, stepped) = ledger_transfer_with_nonce-accepted e app.mining.ledger s r x n fs fr done in
    let (next, low', room') = room_after n _ (length lines) low room stepped in
    let (_, above) = session-nonce s app' lines h low' room' in
    elim (Bool-cases (ledger_transfer_with_nonce e' later.mining.ledger s r' y n).0) [
      | inr refused ↦ refused
      | inl replayed ↦
          let (named, _) =
            ledger_transfer_with_nonce-accepted e' later.mining.ledger s r' y n fs fr' replayed in
          absurd (past_nonce n _ _ next above named)
    ]
