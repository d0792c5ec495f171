-- ===== src/Cli/Parsing.antt =====
-- main.c: a line of input as a command. `sscanf` reads words up to a width, and a longer word goes on
-- in the next conversion.
use transaction_models_minin.Common.{
  ℕ, zero, suc, ◌+◌, ◌-◌, ◌*◌, Bool, true, false, ◌||◌, ◌&&◌, List, [], ◌∷◌, not, leb, ◌==◌, ◌^◌,
  min, length, get_or, if◌then◌else◌,
}
use transaction_models_minin.Common.Int.{ℤ, pos, negsuc, wrap32}
use transaction_models_minin.Common.Text.{Text, codes, strcmp_eq, is_space, skip_spaces, trim_end}

unfoldable pub trim_input : Text → Text
trim_input line = trim_end (λ c. c == b'\n' || (c == b'\r' || c == b' ')) line

-- At most `n` characters that are no spaces, and the text behind them.
unfoldable pub word_of : ℕ → Text → Text × Text
word_of zero s = ([], s)
word_of (suc n) [] = ([], [])
word_of (suc n) (c ∷ cs) =
    let (w, rest) = word_of n cs in if is_space c then ([], c ∷ cs) else (c ∷ w, rest)

-- The words that `sscanf` converts with these widths, up to the first that is missing.
unfoldable pub scan : List ℕ → Text → List Text
scan [] s = []
scan (n ∷ ns) s =
    let (w, rest) = word_of n (skip_spaces s) in
    let words = scan ns rest in elim w [ [] ↦ [] | c ∷ cs ↦ (c ∷ cs) ∷ words ]

abbrev pub is_digit : ℕ → Bool
is_digit c = leb b'0' c && leb c b'9'

-- The value of the digits in front, behind those read before.
unfoldable pub digits_value : ℕ → Text → ℕ
digits_value n [] = n
digits_value n (c ∷ cs) =
    let more = digits_value (n * 10 + (c - b'0')) cs in if is_digit c then more else n

-- `strtol` stops at the ends of `long`, and the conversion to `int` keeps the low 32 bits.
unfoldable pub int_of : Bool → ℕ → ℤ
int_of negative zero = pos 0
int_of false (suc n) = wrap32 (pos (min (suc n) (2 ^ 63 - 1)))
int_of true (suc n) = wrap32 (negsuc (min n (2 ^ 63 - 1)))

unfoldable pub signed_value : Text → ℤ
signed_value [] = pos 0
signed_value (c ∷ cs) =
    if c == b'-'
    then int_of true (digits_value 0 cs)
    else if c == b'+'
    then int_of false (digits_value 0 cs)
    else int_of false (digits_value 0 (c ∷ cs))

unfoldable pub atoi : Text → ℤ
atoi s = signed_value (skip_spaces s)

-- Whether `%d` converts: a digit, or a sign and a digit.
unfoldable pub has_digit : Text → Bool
has_digit [] = false
has_digit (c ∷ cs) = is_digit c

unfoldable pub is_number : Text → Bool
is_number [] = false
is_number (c ∷ cs) = if c == b'-' || c == b'+' then has_digit cs else is_digit c

-- What only prints: the screens, the answers to an unknown mining mode and to an unknown command, and
-- the empty line.
pub data Screen : Type 0 where
  help view pending validate balances utxos : Screen
  balance : Text → Screen
  history : Text → Screen
  unknown_mode : Text → Screen
  unknown_command : Text → Screen
  nothing : Screen

pub data Command : Type 0 where
  -- `quit` and `exit`
  stop : Command
  show : Screen → Command
  -- a command with words that are missing, and what it prints
  usage : Text → Command
  mark : Text → Text → Command
  transfer : Text → Text → ℤ → Command
  transfer_nonce : Text → Text → ℤ → ℤ → Command
  model : Text → Command
  difficulty : ℤ → Command
  mine_solo : Command
  mine_pool : ℤ → Command
  mine_cloud : ℤ → ℤ → ℤ → Command
  tamper : ℤ → Command

-- The `i`-th word, which is there where the count is right.
abbrev pub word : List Text → ℕ → Text
word words i = get_or words i []

unfoldable pub mark_of : List Text → Command
mark_of ws =
    if length ws == 3
    then mark (word ws 1) (word ws 2)
    else usage (codes "Usage: mark <student_id> <PRESENT|ABSENT|LATE>\n")

unfoldable pub balance_of : List Text → Command
balance_of ws =
    if length ws == 2
    then show (balance (word ws 1))
    else usage (codes "Usage: balance <student_id>\n")

unfoldable pub history_of : List Text → Command
history_of ws =
    if length ws == 2
    then show (history (word ws 1))
    else usage (codes "Usage: history <student_id>\n")

unfoldable pub transfer_of : List Text → Command
transfer_of ws =
    if length ws == 4
    then transfer (word ws 1) (word ws 2) (atoi (word ws 3))
    else usage (codes "Usage: transfer <from> <to> <amount>\n")

unfoldable pub transfer_nonce_of : List Text → Command
transfer_nonce_of ws =
    if length ws == 5
    then transfer_nonce (word ws 1) (word ws 2) (atoi (word ws 3)) (atoi (word ws 4))
    else usage (codes "Usage: transfer_nonce <from> <to> <amount> <nonce>\n")

unfoldable pub model_of : List Text → Command
model_of ws =
    if length ws == 2 then model (word ws 1) else usage (codes "Usage: model <utxo|account>\n")

unfoldable pub difficulty_of : List Text → Command
difficulty_of ws =
    if length ws == 2
    then difficulty (atoi (word ws 1))
    else usage (codes "Usage: difficulty <1-4>\n")

unfoldable pub pool_of : List Text → Command
pool_of ws = if length ws == 3 then mine_pool (atoi (word ws 2)) else mine_pool (pos 4)

unfoldable pub cloud_of : List Text → Command
cloud_of ws =
    if length ws == 5
    then mine_cloud (atoi (word ws 2)) (atoi (word ws 3)) (atoi (word ws 4))
    else usage (codes "Usage: mine cloud <rounds 1-5> <rental_fee> <maintenance_fee>\n")

unfoldable pub mine_of : Text → List Text → Command
mine_of line ws =
    if not (length ws == 2)
    then usage
        (codes "Usage: mine solo | mine pool [miners] | mine cloud <rounds> <rental> <maint>\n")
    else if strcmp_eq (word ws 1) (codes "solo")
    then mine_solo
    else if strcmp_eq (word ws 1) (codes "pool")
    then pool_of (scan (31 ∷ 31 ∷ 31 ∷ []) line)
    else if strcmp_eq (word ws 1) (codes "cloud")
    then cloud_of (scan (31 ∷ 31 ∷ 31 ∷ 31 ∷ 31 ∷ []) line)
    else show (unknown_mode (word ws 1))

-- `"%31s %d"`, where the first word is there.
unfoldable pub tamper_of : Text → Command
tamper_of rest =
    if is_number (skip_spaces rest)
    then tamper (atoi rest)
    else usage (codes "Usage: tamper <block_index>\n")

unfoldable pub command_of : Text → List Text → Command
command_of line [] = show nothing
command_of line (c ∷ more) =
    if strcmp_eq c (codes "quit") || strcmp_eq c (codes "exit")
    then stop
    else if strcmp_eq c (codes "help")
    then show help
    else if strcmp_eq c (codes "view")
    then show view
    else if strcmp_eq c (codes "pending")
    then show pending
    else if strcmp_eq c (codes "validate")
    then show validate
    else if strcmp_eq c (codes "balances")
    then show balances
    else if strcmp_eq c (codes "utxos")
    then show utxos
    else if strcmp_eq c (codes "mark")
    then mark_of (scan (31 ∷ 19 ∷ 9 ∷ []) line)
    else if strcmp_eq c (codes "balance")
    then balance_of (scan (31 ∷ 19 ∷ []) line)
    else if strcmp_eq c (codes "transfer")
    then transfer_of (scan (31 ∷ 19 ∷ 19 ∷ 31 ∷ []) line)
    else if strcmp_eq c (codes "transfer_nonce")
    then transfer_nonce_of (scan (31 ∷ 19 ∷ 19 ∷ 31 ∷ 31 ∷ []) line)
    else if strcmp_eq c (codes "history")
    then history_of (scan (31 ∷ 19 ∷ []) line)
    else if strcmp_eq c (codes "model")
    then model_of (scan (31 ∷ 31 ∷ []) line)
    else if strcmp_eq c (codes "difficulty")
    then difficulty_of (scan (31 ∷ 31 ∷ []) line)
    else if strcmp_eq c (codes "mine")
    then mine_of line (scan (31 ∷ 31 ∷ []) line)
    else if strcmp_eq c (codes "tamper")
    then tamper_of (word_of 31 (skip_spaces line)).1
    else show (unknown_command c)

unfoldable pub parse_command : Text → Command
parse_command line = command_of line (scan (31 ∷ []) line)
