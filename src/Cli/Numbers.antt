-- ===== src/Cli/Numbers.antt =====
-- `atoi` (main.c) on numbers as `%d` prints them.
use transaction_models_minin.Common.{
  ℕ, zero, suc, ◌+◌, ◌-◌, ◌*◌, ◌/◌, ◌%◌, ◌^◌, ◌<◌, ◌≡◌, refl, sym, ap, ◌∙◌, inl, inr, true, false,
  [], ◌∷◌, arith, ltb, ◌==◌, min, Bool-cases,
}
use transaction_models_minin.Common.Int.{ℤ, pos, negsuc, FitsInt, wrap32_of_FitsInt}
use transaction_models_minin.Common.Text.{Text, digits, decimal, decimal_int, skip_spaces, is_space}
use transaction_models_minin.Cli.Parsing.{digits_value, is_digit, int_of, signed_value, atoi}

digits_value-cons :
    (m d : ℕ) (acc : Text)
    → d < 10
    → digits_value m ((b'0' + d) ∷ acc) ≡ digits_value (m * 10 + d) acc
unfolding digits_value
digits_value-cons m d acc h =
    let digit : is_digit (b'0' + d) ≡ true = ground arith in
    let value : b'0' + d - b'0' ≡ d = omega arith in rw (digit, value) refl

-- Reading goes through the digits that were written.
digits_value-digits :
    (fuel n : ℕ) (acc : Text) → n < fuel → digits_value 0 (digits fuel n acc) ≡ digits_value n acc
unfolding digits
digits_value-digits zero n acc h = absurd (omega arith)
digits_value-digits (suc fuel) n acc h = elim (Bool-cases (ltb n 10)) [
  | inl small ↦
      rw small
        (digits_value-cons 0 n acc (ground arith) ∙ ap (λ k. digits_value k acc) (omega arith))
  | inr large ↦ rw large (
      digits_value-digits fuel (n / 10) ((b'0' + n % 10) ∷ acc) (ground arith)
      ∙ digits_value-cons (n / 10) (n % 10) acc (omega arith)
      ∙ ap (λ k. digits_value k acc) (omega arith))
]

digits_value-decimal : (n : ℕ) → digits_value 0 (decimal n) ≡ n
unfolding decimal digits_value
digits_value-decimal n = digits_value-digits (suc n) n [] (omega arith)

-- The text starts with a digit.
abbrev StartsWithDigit : Text → Type 0
StartsWithDigit s = (c : ℕ) × (rest : Text) × (s ≡ c ∷ rest) × (is_digit c ≡ true)

digits-StartsWithDigit : (fuel n : ℕ) (acc : Text) → n < fuel → StartsWithDigit (digits fuel n acc)
unfolding digits
digits-StartsWithDigit zero n acc h = absurd (omega arith)
digits-StartsWithDigit (suc fuel) n acc h = elim (Bool-cases (ltb n 10)) [
  | inl small ↦ rw small (b'0' + n, acc, refl, ground arith)
  | inr large ↦
      rw large (digits-StartsWithDigit fuel (n / 10) ((b'0' + n % 10) ∷ acc) (ground arith))
]

decimal-StartsWithDigit : (n : ℕ) → StartsWithDigit (decimal n)
unfolding decimal
decimal-StartsWithDigit n = digits-StartsWithDigit (suc n) n [] (omega arith)

atoi-unsigned :
    (c : ℕ) (rest : Text)
    → is_digit c ≡ true
    → atoi (c ∷ rest) ≡ int_of false (digits_value 0 (c ∷ rest))
unfolding atoi skip_spaces signed_value
atoi-unsigned c rest digit =
    let no_space : is_space c ≡ false = ground arith in
    let no_minus : (c == b'-') ≡ false = ground arith in
    let no_plus : (c == b'+') ≡ false = ground arith in rw (no_space, no_minus, no_plus) refl

atoi-minus : (rest : Text) → atoi (b'-' ∷ rest) ≡ int_of true (digits_value 0 rest)
unfolding atoi skip_spaces signed_value
atoi-minus rest = refl

int_of-pos : (n : ℕ) → FitsInt (pos n) → int_of false n ≡ pos n
unfolding int_of
int_of-pos zero h = refl
int_of-pos (suc n) h =
    let small : min (suc n) (2 ^ 63 - 1) ≡ suc n = omega arith in
    rw small (wrap32_of_FitsInt (pos (suc n)) h)

int_of-negsuc : (n : ℕ) → FitsInt (negsuc n) → int_of true (suc n) ≡ negsuc n
unfolding int_of
int_of-negsuc n h =
    let small : min n (2 ^ 63 - 1) ≡ n = omega arith in rw small (wrap32_of_FitsInt (negsuc n) h)

-- An `int` that is printed is read back.
pub atoi-decimal_int : (z : ℤ) → FitsInt z → atoi (decimal_int z) ≡ z
unfolding decimal_int
atoi-decimal_int (pos n) h =
    let (c, rest, shape, digit) = decimal-StartsWithDigit n in
    ap atoi shape
    ∙ atoi-unsigned c rest digit
    ∙ ap (λ s. int_of false (digits_value 0 s)) (sym shape)
    ∙ ap (int_of false) (digits_value-decimal n)
    ∙ int_of-pos n h
atoi-decimal_int (negsuc n) h =
    atoi-minus (decimal (suc n))
    ∙ ap (int_of true) (digits_value-decimal (suc n))
    ∙ int_of-negsuc n h
