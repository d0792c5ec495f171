-- ===== src/Common/Text.antt =====
-- C strings: the bytes before the NUL, and the library calls that the program makes on them.
use Prim.Native.Char.{code}
use Prim.Native.String.{String}
use Prim.Native.Nat.{ℕ, zero, suc, ◌+◌, ◌/◌, ◌%◌, ◌≤◌}
use mathlib.Core.Path.{◌≡◌, refl}
use mathlib.Core.Logic.{◌↔◌, ◌≢◌}
use mathlib.Core.Bool.{Bool, true, false, ◌&&◌, ◌||◌}
use mathlib.Core.List.{List, [], ◌∷◌}
use native.Mathlib.Omega.{arith}
use transaction_models_minin.Common.Tests.{ltb, leb, ◌==◌, if◌then◌else◌}
use transaction_models_minin.Common.Lists.{length, length-take, take}
use transaction_models_minin.Common.Int.{ℤ, pos, negsuc}

abbrev pub Text : Type 0
Text = List ℕ

-- The bytes of a literal.
abbrev pub codes : String → Text
codes String.[] = []
codes (String.◌∷◌ c s) = code c ∷ codes s

-- `strcmp(a, b) == 0`
unfoldable pub strcmp_eq : Text → Text → Bool
strcmp_eq [] [] = true
strcmp_eq [] (y ∷ ys) = false
strcmp_eq (x ∷ xs) [] = false
strcmp_eq (x ∷ xs) (y ∷ ys) = (x == y) && strcmp_eq xs ys

-- `strncpy(dst, src, n)` into a buffer whose byte `n` is NUL.
abbrev pub strncpy : ℕ → Text → Text
strncpy n src = take n src

-- A copy fits the buffer.
pub length-strncpy : (n : ℕ) (src : Text) → length (strncpy n src) ≤ n
length-strncpy n src = omega (arith, length-take n src)

-- The decimal digits of `n`, in front of `acc`; each round of the loop makes one digit.
unfoldable pub digits : ℕ → ℕ → Text → Text
digits zero n acc = acc
digits (suc fuel) n acc =
    let rest = digits fuel (n / 10) ((b'0' + n % 10) ∷ acc) in
    if ltb n 10 then (b'0' + n) ∷ acc else rest

-- `%lu`
unfoldable pub decimal : ℕ → Text
unfolding digits
decimal n = digits (suc n) n []

-- `%d` and `%lld`
unfoldable pub decimal_int : ℤ → Text
unfolding decimal
decimal_int (pos n) = decimal n
decimal_int (negsuc n) = b'-' ∷ decimal (suc n)

pub strcmp_eq_self : (s : Text) → strcmp_eq s s ≡ true
unfolding strcmp_eq
strcmp_eq_self [] = refl
strcmp_eq_self (x ∷ xs) = ground (arith, strcmp_eq_self xs)

pub strcmp_eq→eq : (s t : Text) → strcmp_eq s t ≡ true → s ≡ t
unfolding strcmp_eq
strcmp_eq→eq [] [] h = refl
strcmp_eq→eq [] (y ∷ ys) h = cc
strcmp_eq→eq (x ∷ xs) [] h = cc
strcmp_eq→eq (x ∷ xs) (y ∷ ys) h = ground (arith, strcmp_eq→eq xs ys)

pub strcmp_eq_iff : (s t : Text) → (strcmp_eq s t ≡ true) ↔ (s ≡ t)
strcmp_eq_iff s t = (strcmp_eq→eq s t, λ e. cc (strcmp_eq_self s, e))

pub strcmp_eq_ne : (s t : Text) → s ≢ t → strcmp_eq s t ≡ false
strcmp_eq_ne s t h = ground (arith, strcmp_eq→eq s t)

-- `isspace`
abbrev pub is_space : ℕ → Bool
is_space c = c == 32 || (leb 9 c && leb c 13)

unfoldable pub skip_spaces : Text → Text
skip_spaces [] = []
skip_spaces (c ∷ cs) = if is_space c then skip_spaces cs else c ∷ cs

-- The text without the last characters that pass the test.
unfoldable pub trim_end : (ℕ → Bool) → Text → Text
trim_end p [] = []
trim_end p (c ∷ cs) = elim (trim_end p cs) [ [] ↦ if p c then [] else c ∷ [] | d ∷ ds ↦ c ∷ d ∷ ds ]
