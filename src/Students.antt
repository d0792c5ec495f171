-- ===== src/Students.antt =====
-- students.c: the search of the registry and the test of a status.
pub mod Loading
use transaction_models_minin.Common.{Bool, ◌||◌, [], ◌∷◌, Option, none, some, if◌then◌else◌}
use transaction_models_minin.Common.Text.{Text, codes, strcmp_eq}
use transaction_models_minin.Attendance.{Student, StudentRegistry}

unfoldable pub find_student : StudentRegistry → Text → Option Student
find_student [] student_id = none
find_student (s ∷ registry) student_id =
    if strcmp_eq s.student_id student_id then some s else find_student registry student_id

unfoldable pub is_valid_status : Text → Bool
is_valid_status status =
    strcmp_eq status (codes "PRESENT")
    || (strcmp_eq status (codes "ABSENT") || strcmp_eq status (codes "LATE"))
