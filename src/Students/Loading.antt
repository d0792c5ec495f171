-- ===== src/Students/Loading.antt =====
-- students.c: the registry file, read line by line.
use transaction_models_minin.Common.{
  ◌≤◌, ◌<◌, ◌≡◌, subst, inl, inr, Bool, true, ◌||◌, List, [], ◌∷◌, ◌++◌, Option, none, some, arith,
  leb, ◌==◌, if◌then◌else◌, length, length-append, length-take, All, All-append, Bool-cases,
  Option-cases,
}
use transaction_models_minin.Common.Text.{Text, trim_end, skip_spaces, strncpy}
use transaction_models_minin.Attendance.{
  Student, StudentRegistry, max_students, student_id_max, full_name_max, course_code_max,
}

unfoldable pub trim_newline : Text → Text
trim_newline line = trim_end (λ c. c == b'\n' || c == b'\r') line

-- The text up to the first comma, and the pieces behind it.
unfoldable pub pieces : Text → Text × List Text
pieces [] = ([], [])
pieces (c ∷ cs) = let (p, ps) = pieces cs in if c == b',' then ([], p ∷ ps) else (c ∷ p, ps)

-- `strtok_r` passes over empty pieces.
unfoldable pub nonempty : List Text → List Text
nonempty [] = []
nonempty ([] ∷ ps) = nonempty ps
nonempty ((c ∷ p) ∷ ps) = (c ∷ p) ∷ nonempty ps

unfoldable pub tokens : Text → List Text
tokens line = let (p, ps) = pieces line in nonempty (p ∷ ps)

-- A student needs an id.
unfoldable pub make_student : Text → Text → Text → Option Student
make_student [] full_name course_code = none
make_student (c ∷ id) full_name course_code =
    some (record { student_id = c ∷ id; full_name = full_name; course_code = course_code })

-- The first three tokens, each without the spaces in front.
unfoldable pub student_of : List Text → Option Student
student_of [] = none
student_of (a ∷ []) = none
student_of (a ∷ b ∷ []) = none
student_of (a ∷ b ∷ c ∷ rest) =
    make_student (strncpy student_id_max (skip_spaces a)) (strncpy full_name_max (skip_spaces b))
      (strncpy course_code_max (skip_spaces c))

unfoldable pub parse_student_line : Text → Option Student
parse_student_line line = student_of (tokens (strncpy 255 line))

unfoldable pub is_skipped : Text → Bool
is_skipped [] = true
is_skipped (c ∷ line) = c == b'#'

-- The loop over the lines, which fails when one student too many is read.
unfoldable pub load_lines : List Text → StudentRegistry → Option StudentRegistry
load_lines [] registry = some registry
load_lines (l ∷ lines) registry =
    let line = trim_newline l in
    let same = load_lines lines registry in
    if is_skipped line then same else elim (parse_student_line line) [
      | none ↦ same
      | some s ↦
          let more = load_lines lines (registry ++ s ∷ []) in
          if leb max_students (length registry) then none else more
    ]

unfoldable pub nonempty_registry : StudentRegistry → Option StudentRegistry
nonempty_registry [] = none
nonempty_registry (s ∷ registry) = some (s ∷ registry)

-- The lines of the file, or none where it cannot be opened.
unfoldable pub load_student_registry : Option (List Text) → Option StudentRegistry
load_student_registry none = none
load_student_registry (some lines) = elim (load_lines lines []) [
  | none ↦ none
  | some registry ↦ nonempty_registry registry
]

-- A student with an id that fits its field.
abbrev pub HasId : Student → Type 0
HasId s = (0 < length s.student_id) × (length s.student_id ≤ student_id_max)

make_student-HasId :
    (id name course : Text) (s : Student)
    → length id ≤ student_id_max
    → make_student id name course ≡ some s
    → HasId s
unfolding make_student
make_student-HasId [] name course s h made = absurd (cc)
make_student-HasId (c ∷ id) name course s h made =
    let same : c ∷ id ≡ s.student_id = cc in
    (subst (λ t. 0 < length t) same (omega arith), subst (λ t. length t ≤ student_id_max) same h)

student_of-HasId : (ts : List Text) (s : Student) → student_of ts ≡ some s → HasId s
unfolding student_of
student_of-HasId [] s made = absurd (cc)
student_of-HasId (a ∷ []) s made = absurd (cc)
student_of-HasId (a ∷ b ∷ []) s made = absurd (cc)
student_of-HasId (a ∷ b ∷ c ∷ rest) s made =
    make_student-HasId _ _ _ s (omega (arith, length-take student_id_max (skip_spaces a))) made

parse_student_line-HasId : (line : Text) (s : Student) → parse_student_line line ≡ some s → HasId s
unfolding parse_student_line
parse_student_line-HasId line s made = student_of-HasId (tokens (strncpy 255 line)) s made

load_lines-IsValid :
    (lines : List Text) (registry loaded : StudentRegistry)
    → All HasId registry
    → length registry ≤ max_students
    → load_lines lines registry ≡ some loaded
    → All HasId loaded × (length loaded ≤ max_students)
unfolding load_lines
load_lines-IsValid [] registry loaded ids fits made =
    let same : registry ≡ loaded = cc in
    subst (λ r. All HasId r × (length r ≤ max_students)) same (ids, fits)
load_lines-IsValid (l ∷ lines) registry loaded ids fits made =
    elim (Bool-cases (is_skipped (trim_newline l))) [
      | inl skipped ↦ load_lines-IsValid lines registry loaded ids fits (ground arith)
      | inr taken ↦ elim (Option-cases (parse_student_line (trim_newline l))) [
        | inl malformed ↦ load_lines-IsValid lines registry loaded ids fits (ground arith)
        | inr (s, parsed) ↦ elim (Bool-cases (leb max_students (length registry))) [
          | inl full ↦ absurd (ground arith)
          | inr room ↦
              load_lines-IsValid lines (registry ++ s ∷ []) loaded
                (All-append HasId registry (s ∷ []) ids (parse_student_line-HasId _ s parsed, tt))
                (ground (arith, length-append registry (s ∷ []))) (ground arith)
        ]
      ]
    ]

nonempty_registry-eq_some :
    (registry loaded : StudentRegistry)
    → nonempty_registry registry ≡ some loaded
    → (registry ≡ loaded) × (0 < length loaded)
unfolding nonempty_registry
nonempty_registry-eq_some [] loaded made = absurd (cc)
nonempty_registry-eq_some (s ∷ registry) loaded made =
    let same : s ∷ registry ≡ loaded = cc in (same, subst (λ r. 0 < length r) same (omega arith))

-- A registry that is loaded has from 1 to 256 students, and every one has an id that is not empty and
-- fits its field, whatever lines the file has.
pub load_student_registry-IsValid :
    (file : Option (List Text)) (registry : StudentRegistry)
    → load_student_registry file ≡ some registry
    → (0 < length registry) × (length registry ≤ max_students) × All HasId registry
unfolding load_student_registry
load_student_registry-IsValid none registry made = absurd (cc)
load_student_registry-IsValid (some lines) registry made =
    elim (Option-cases (load_lines lines [])) [
      | inl failed ↦ absurd (ground arith)
      | inr (loaded, found) ↦
          let (same, some_student) = nonempty_registry-eq_some loaded registry (ground arith) in
          let (ids, fits) = load_lines-IsValid lines [] loaded tt (omega arith) found in
          (some_student, rw (← same) fits, rw (← same) ids)
    ]
