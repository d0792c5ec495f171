-- ===== src/Cli/Arguments.antt =====
-- The difficulty that the arguments of the program set (main.c).
use transaction_models_minin.Common.{
  ◌≡◌, subst, inl, inr, ◌||◌, List, [], ◌∷◌, some, arith, Bool-cases,
}
use transaction_models_minin.Common.Int.{ℤ, ◌≤ℤ◌}
use transaction_models_minin.Common.Text.{Text, codes, strcmp_eq}
use transaction_models_minin.Attendance.{min_difficulty, max_difficulty}
use transaction_models_minin.Cli.{Options, clamp_difficulty, parse_cli_args, parse_model_arg}
use transaction_models_minin.Cli.Parsing.{atoi}

-- A difficulty that mining accepts.
abbrev pub HasLegalDifficulty : Options → Type 0
HasLegalDifficulty o = (min_difficulty ≤ℤ o.g_difficulty) × (o.g_difficulty ≤ℤ max_difficulty)

clamp_difficulty_bounds :
    (d : ℤ) → (min_difficulty ≤ℤ clamp_difficulty d) × (clamp_difficulty d ≤ℤ max_difficulty)
unfolding clamp_difficulty
clamp_difficulty_bounds d = ground arith

-- The difficulty that the options leave is from 1 to 4 if it was so before, whatever the arguments.
pub parse_cli_args-HasLegalDifficulty :
    (o o' : Options) (args : List Text)
    → HasLegalDifficulty o
    → parse_cli_args o args ≡ some o'
    → HasLegalDifficulty o'
unfolding parse_cli_args
parse_cli_args-HasLegalDifficulty o o' [] legal made =
    let same : o ≡ o' = cc in subst HasLegalDifficulty same legal
parse_cli_args-HasLegalDifficulty o o' (a ∷ []) legal made =
    elim (Bool-cases (strcmp_eq a (codes "--help") || strcmp_eq a (codes "-h"))) [
      | inl help ↦ absurd (ground arith)
      | inr other ↦ let same : o ≡ o' = ground arith in subst HasLegalDifficulty same legal
    ]
parse_cli_args-HasLegalDifficulty o o' (a ∷ b ∷ args) legal made =
    elim (Bool-cases (strcmp_eq a (codes "--model"))) [
      | inl named ↦
          parse_cli_args-HasLegalDifficulty (record o { g_model = parse_model_arg o.g_model b }) o'
            args legal (ground arith)
      | inr no_model ↦ elim (Bool-cases (strcmp_eq a (codes "--difficulty"))) [
        | inl set ↦
            parse_cli_args-HasLegalDifficulty
              (record o { g_difficulty = clamp_difficulty (atoi b) }) o' args
              (clamp_difficulty_bounds (atoi b)) (ground arith)
        | inr no_difficulty ↦
            elim (Bool-cases (strcmp_eq a (codes "--help") || strcmp_eq a (codes "-h"))) [
              | inl help ↦ absurd (ground arith)
              | inr other ↦ parse_cli_args-HasLegalDifficulty o o' (b ∷ args) legal (ground arith)
            ]
      ]
    ]
