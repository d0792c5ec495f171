-- ===== src/Utxos/Balance.antt =====
-- `utxo_balance` under each write of the UTXO model.
use transaction_models_minin.Common.{
  ℕ, suc, ◌+◌, ◌≡◌, refl, true, false, not, ◌&&◌, [], ◌∷◌, ◌++◌, arith, if◌then◌else◌,
}
use transaction_models_minin.Common.Int.{ℤ, pos, add_int}
use transaction_models_minin.Common.Text.{Text, strcmp_eq, strncpy}
use transaction_models_minin.Attendance.{Utxo, UtxoSet, student_id_max}
use transaction_models_minin.Utxos.{
  utxo_add, balance_from, utxo_balance, utxo_ref, utxo_mark_spent, new_utxo,
}

balance_from-append :
    (set : UtxoSet) (u : Utxo) (k : Text) (total : ℤ)
    → balance_from (set ++ u ∷ []) k total ≡ (
        if not u.spent && strcmp_eq u.owner k
        then add_int (balance_from set k total) u.amount
        else balance_from set k total)
unfolding balance_from
balance_from-append [] u k total = refl
balance_from-append (v ∷ set) u k total = balance_from-append set u k _

-- An output that was added counts for its owner alone.
pub utxo_balance-add :
    (set : UtxoSet) (id : Text) (i : ℤ) (owner k : Text) (amount : ℤ)
    → (utxo_add set id i owner amount).0 ≡ true
    → utxo_balance (utxo_add set id i owner amount).1 k ≡ (
        if strcmp_eq (strncpy student_id_max owner) k
        then add_int (utxo_balance set k) amount
        else utxo_balance set k)
unfolding utxo_balance utxo_add
utxo_balance-add set id i owner k amount h =
    ground (arith, balance_from-append set (new_utxo id i owner amount) k (pos 0))

-- The unspent outputs under a reference.
unfoldable pub unspent_with : UtxoSet → Text → ℕ
unspent_with [] ref = 0
unspent_with (u ∷ set) ref =
    if not u.spent && strcmp_eq (utxo_ref u) ref
    then suc (unspent_with set ref)
    else unspent_with set ref

-- A mark uses up exactly one unspent output under its reference. It fails only where there is none,
-- and then leaves the set alone.
pub utxo_mark_spent-unspent_with :
    (set : UtxoSet) (ref : Text)
    → let (marked, set') = utxo_mark_spent set ref in
      (marked ≡ false → (unspent_with set ref ≡ 0) × (set' ≡ set))
      × (marked ≡ true → unspent_with set' ref + 1 ≡ unspent_with set ref)
unfolding utxo_mark_spent unspent_with
utxo_mark_spent-unspent_with [] ref = (λ _. (refl, refl), λ h. absurd (ground arith))
utxo_mark_spent-unspent_with (u ∷ set) ref = ground (arith, utxo_mark_spent-unspent_with set ref)

pub utxo_add-refused :
    (set : UtxoSet) (id : Text) (i : ℤ) (owner : Text) (amount : ℤ)
    → (utxo_add set id i owner amount).0 ≡ false
    → (utxo_add set id i owner amount).1 ≡ set
unfolding utxo_add
utxo_add-refused set id i owner amount h = ground arith
