-- ===== src/Utxos/Refused.antt =====
-- The references of the selected inputs against those that `utxo_mark_spent` compares.
use transaction_models_minin.Common.{
  ◌+◌, ◌≤◌, ◌<◌, ◌≡◌, refl, ap, inl, inr, false, List, [], ◌∷◌, ◌++◌, arith, length, length-append,
  length-take, All, All-append, Bool-cases,
}
use transaction_models_minin.Common.Int.{
  ℤ, pos, ◌+ℤ◌, add_int, add_int_fits, ltb_ℤ, ◌<ℤ◌, int_max, +ℤ_parts, parts_disjoint,
}
use transaction_models_minin.Common.Text.{Text, strcmp_eq, strcmp_eq→eq, strncpy, decimal_int}
use transaction_models_minin.Attendance.{Utxo, UtxoSet, TxInput, hash_max, student_id_max, tx_fee}
use transaction_models_minin.Env.{Env}
use transaction_models_minin.Utxos.{
  utxo_ref, utxo_mark_spent, select_inputs, mark_all_spent, utxo_transfer,
}

-- The transactions of the set have ids of 64 characters, as `sha256_hex` makes them.
abbrev pub HasFullIds : UtxoSet → Type 0
HasFullIds set = All (λ u. length u.tx_id ≡ 64) set

length-utxo_ref : (u : Utxo) → length u.tx_id ≡ 64 → 64 < length (utxo_ref u)
unfolding utxo_ref
length-utxo_ref u h = omega (arith, length-append u.tx_id (b':' ∷ decimal_int u.output_index))

not_same_length : (s t : Text) → length t < length s → strcmp_eq s t ≡ false
not_same_length s t h = elim (Bool-cases (strcmp_eq s t)) [
  | inr ne ↦ ne
  | inl eq ↦ absurd (omega (arith, ap length (strcmp_eq→eq s t eq)))
]

-- A reference that was cut to 64 characters marks nothing.
utxo_mark_spent-short :
    (set : UtxoSet) (ref : Text)
    → HasFullIds set
    → length ref ≤ 64
    → utxo_mark_spent set ref ≡ (false, set)
unfolding utxo_mark_spent
utxo_mark_spent-short [] ref h fits = refl
utxo_mark_spent-short (u ∷ set) ref h fits = ground (
  arith,
  utxo_mark_spent-short set ref h.1 fits,
  not_same_length (utxo_ref u) ref (omega (arith, length-utxo_ref u h.0)),
)

abbrev HasShortRefs : List TxInput → Type 0
HasShortRefs inputs = All (λ i. length i.utxo_ref ≤ 64) inputs

abbrev input_for : Utxo → Text → TxInput
input_for u sender = record {
  utxo_ref = strncpy hash_max (utxo_ref u);
  owner = strncpy student_id_max sender;
  amount = u.amount;
}

select_inputs-HasShortRefs :
    (set : UtxoSet) (sender : Text) (needed : ℤ) (inputs : List TxInput) (total : ℤ)
    → HasShortRefs inputs
    → HasShortRefs (select_inputs set sender needed inputs total).0
unfolding select_inputs
select_inputs-HasShortRefs [] sender needed inputs total h = h
select_inputs-HasShortRefs (u ∷ set) sender needed inputs total h =
    let grown = inputs ++ input_for u sender ∷ [] in
    let g : HasShortRefs grown =
      All-append _ inputs _ h (omega (arith, length-take hash_max (utxo_ref u)), tt) in
    ground (
      arith,
      select_inputs-HasShortRefs set sender needed inputs total h,
      select_inputs-HasShortRefs set sender needed grown (add_int total u.amount) g,
    )

-- Where nothing was selected, the total is what it was.
select_inputs-length :
    (set : UtxoSet) (sender : Text) (needed : ℤ) (inputs : List TxInput) (total : ℤ)
    → let (chosen, sum) = select_inputs set sender needed inputs total in
      (length inputs ≤ length chosen) × (length chosen ≡ 0 → sum ≡ total)
unfolding select_inputs
select_inputs-length [] sender needed inputs total = (omega arith, λ _. refl)
select_inputs-length (u ∷ set) sender needed inputs total =
    let grown = inputs ++ input_for u sender ∷ [] in
    let longer : length grown ≡ length inputs + 1 =
      length-append inputs (input_for u sender ∷ []) in
    ground (
      arith,
      longer,
      select_inputs-length set sender needed inputs total,
      select_inputs-length set sender needed grown (add_int total u.amount),
    )

mark_all_spent-short :
    (set : UtxoSet) (inputs : List TxInput)
    → HasFullIds set
    → HasShortRefs inputs
    → 0 < length inputs
    → mark_all_spent set inputs ≡ (false, set)
unfolding mark_all_spent
mark_all_spent-short set [] h short some_input = absurd (omega arith)
mark_all_spent-short set (i ∷ is) h short some_input =
    ground (arith, utxo_mark_spent-short set i.utxo_ref h short.0)

needed_positive :
    (amount : ℤ) → pos 0 <ℤ amount → amount <ℤ pos int_max → pos 0 <ℤ add_int amount tx_fee
needed_positive amount positive bounded =
    let sums = +ℤ_parts amount tx_fee in
    rw (add_int_fits amount tx_fee (ground (arith, sums, parts_disjoint (amount +ℤ tx_fee))))
      (omega (arith, sums))

nonempty :
    (chosen : List TxInput) (sum needed : ℤ)
    → pos 0 <ℤ needed
    → ltb_ℤ sum needed ≡ false
    → (length chosen ≡ 0 → sum ≡ pos 0)
    → 0 < length chosen
nonempty [] sum needed covered enough kept = absurd (ground (arith, kept refl))
nonempty (i ∷ is) sum needed covered enough kept = omega arith

-- With the ids that the program makes, no transfer of a representable amount ever goes through in
-- the UTXO model: what covers it is cut to 64 characters as a reference, and so is not found again.
-- The set stays as it was.
pub utxo_transfer-refused :
    (e : Env) (set : UtxoSet) (sender recipient : Text) (amount : ℤ)
    → HasFullIds set
    → pos 0 <ℤ amount
    → amount <ℤ pos int_max
    → utxo_transfer e set sender recipient amount ≡ (false, set)
unfolding utxo_transfer
utxo_transfer-refused e set sender recipient amount ids positive bounded =
    let needed = add_int amount tx_fee in
    let covered : pos 0 <ℤ needed = needed_positive amount positive bounded in
    let (chosen, sum) = select_inputs set sender needed [] (pos 0) in
    let (_, kept) = select_inputs-length set sender needed [] (pos 0) in
    elim (Bool-cases (ltb_ℤ sum needed)) [
      | inl short ↦ rw short refl
      | inr enough ↦
          let some_input : 0 < length chosen = nonempty chosen sum needed covered enough kept in
          ground (
            arith,
            mark_all_spent-short set chosen ids
                (select_inputs-HasShortRefs set sender needed [] (pos 0) tt) some_input,
          )
    ]
