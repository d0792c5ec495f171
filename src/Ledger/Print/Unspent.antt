-- ===== src/Ledger/Print/Unspent.antt =====
-- The UTXO screen against the balances (ledger.c).
use transaction_models_minin.Common.{
  ℕ, ◌+◌, ◌≡◌, refl, ap, false, List, [], ◌∷◌, ◌++◌, arith, length, ◌==◌, if◌then◌else◌, Bool-cases,
  inl, inr, All,
}
use transaction_models_minin.Common.Int.{ℤ, pos, add_int}
use transaction_models_minin.Common.Text.{Text, codes, strcmp_eq, decimal_int}
use transaction_models_minin.Attendance.{Ledger, ledger_utxo, Utxo, UtxoSet}
use transaction_models_minin.Utxos.{balance_from, utxo_balance}
use transaction_models_minin.Ledger.Print.{
  utxo_line, utxo_lines, utxo_screen, ledger_print_utxo_set,
}
use transaction_models_minin.Ledger.{ledger_balance}

-- The amounts of the owner among these outputs, added to a total.
unfoldable pub owned_from : List Utxo → Text → ℤ → ℤ
owned_from [] owner total = total
owned_from (u ∷ us) owner total =
    owned_from us owner (if strcmp_eq u.owner owner then add_int total u.amount else total)

-- The text that names an output: its transaction, its place in it, its owner and its amount.
abbrev pub line_of : Text → ℤ → Text → ℤ → Text
line_of tx_id output_index owner amount =
    codes "  UTXO "
    ++ tx_id
    ++ codes ":"
    ++ decimal_int output_index
    ++ codes " | owner="
    ++ owner
    ++ codes " | amount="
    ++ decimal_int amount
    ++ codes "\n"

-- The lines of these outputs, one after the other.
unfoldable pub all_lines : List Utxo → Text
all_lines [] = []
all_lines (u ∷ us) = line_of u.tx_id u.output_index u.owner u.amount ++ all_lines us

-- What stands there for no outputs.
unfoldable pub empty_note : List Utxo → Text
empty_note [] = codes "  (no unspent outputs)\n"
empty_note (u ∷ us) = []

-- The screen with the lines of these outputs.
unfoldable pub utxo_screen_of : List Utxo → Text
utxo_screen_of shown =
    codes "\n=== Full UTXO Set ===\n"
    ++ all_lines shown
    ++ empty_note shown
    ++ codes "=====================\n\n"

-- The outputs that are not spent, in their order.
unfoldable pub unspent : UtxoSet → List Utxo
unspent [] = []
unspent (u ∷ us) = let rest = unspent us in if u.spent then rest else u ∷ rest

abbrev pub IsUnspent : Utxo → Type 0
IsUnspent u = u.spent ≡ false

unspent-IsUnspent : (set : UtxoSet) → All IsUnspent (unspent set)
unfolding unspent
unspent-IsUnspent [] = tt
unspent-IsUnspent (u ∷ us) = elim (Bool-cases u.spent) [
  | inl spent ↦ rw spent (unspent-IsUnspent us)
  | inr kept ↦ rw kept (refl, unspent-IsUnspent us)
]

utxo_lines-unspent :
    (set : UtxoSet) (n : ℕ) → utxo_lines set n ≡ (all_lines (unspent set), n + length (unspent set))
unfolding utxo_lines utxo_line unspent all_lines
utxo_lines-unspent [] n = ap (λ m. ([], m)) (omega arith)
utxo_lines-unspent (u ∷ us) n = elim (Bool-cases u.spent) [
  | inl spent ↦ rw spent (utxo_lines-unspent us n)
  | inr kept ↦
      rw (kept, utxo_lines-unspent us (n + 1))
        (ap (λ m. (line_of u.tx_id u.output_index u.owner u.amount ++ all_lines (unspent us), m))
          (omega arith))
]

balance_from-unspent :
    (set : UtxoSet) (owner : Text) (total : ℤ)
    → balance_from set owner total ≡ owned_from (unspent set) owner total
unfolding balance_from owned_from unspent
balance_from-unspent [] owner total = refl
balance_from-unspent (u ∷ us) owner total = elim (Bool-cases u.spent) [
  | inl spent ↦ rw spent (balance_from-unspent us owner total)
  | inr kept ↦ rw kept (balance_from-unspent us owner _)
]

empty_note-length :
    (shown : List Utxo)
    → (if 0 + length shown == 0 then codes "  (no unspent outputs)\n" else []) ≡ empty_note shown
unfolding empty_note
empty_note-length [] = ground arith
empty_note-length (u ∷ us) = ground arith

utxo_screen-unspent : (set : UtxoSet) → utxo_screen set ≡ utxo_screen_of (unspent set)
unfolding utxo_screen utxo_screen_of
utxo_screen-unspent set = rw (utxo_lines-unspent set 0, empty_note-length (unspent set)) refl

-- In the UTXO model the screen shows the outputs of the set that are unspent and no others, in the order
-- of the set, each on a line of its own with its transaction, place, owner and amount, and says so where
-- there is none; the balance of an owner is the sum, as an int, of the amounts on the owner's lines.
pub ledger_print_utxo_set-balance :
    (ledger : Ledger)
    → ledger.model ≡ ledger_utxo
    → let shown = unspent ledger.utxo_set in
      (ledger_print_utxo_set ledger ≡ utxo_screen_of shown)
      × All IsUnspent shown
      × ((owner : Text) → ledger_balance ledger owner ≡ owned_from shown owner (pos 0))
unfolding ledger_print_utxo_set ledger_balance utxo_balance
ledger_print_utxo_set-balance ledger utxo =
    let set = ledger.utxo_set in
    rw utxo (
      utxo_screen-unspent set,
      unspent-IsUnspent set,
      λ owner. balance_from-unspent set owner (pos 0),
    )
