-- ===== src/Cbt/Rows.antt =====
-- Exams and their questions (`createExam`, `publishExam` and `validateExamBody` of
-- web-server/src/cbt/cbt.service.ts). Numbers of a request are whole and not negative. The JSON
-- columns hold their values.
use multi_academy_backend.Prelude.{
  ℕ, suc, String, Bool, true, false, ◌||◌, Option, none, some, List, [], ◌∷◌, ◌++◌, ◌==◌, eqb, ltb,
  leb, if◌then◌else◌, update_where, length, or_null, is_blank, trim,
}
use multi_academy_backend.Prelude.Dict.{Dict}
use multi_academy_backend.Http.{Result, ok, bad_request}
use multi_academy_backend.Http.Checked.{◌>>◌, refuse}
use multi_academy_backend.Tenant.{User}
use multi_academy_backend.Timetable.{Enrollment}

pub data ExamStatus : Type 0 where
  draft published : ExamStatus

pub data AttemptStatus : Type 0 where
  in_progress submitted : AttemptStatus

pub record Exam : Type 0 where
  pub id : String
  pub title : String
  pub subject_id : Option String
  pub class_id : Option String
  pub duration_minutes : ℕ
  pub status : ExamStatus
  pub created_by : String
  pub created_at : ℕ

pub record Question : Type 0 where
  pub id : String
  pub exam_id : String
  pub prompt : String
  pub options : List String
  pub correct_index : ℕ
  pub points : ℕ

pub record Attempt : Type 0 where
  pub id : String
  pub exam_id : String
  pub student_id : String
  pub status : AttemptStatus
  pub answers : Dict ℕ
  pub score : ℕ
  pub max_score : ℕ
  pub started_at : ℕ
  pub submitted_at : Option ℕ

pub record CbtDb : Type 0 where
  pub users : List User
  pub enrollments : List Enrollment
  pub exams : List Exam
  pub questions : List Question
  pub attempts : List Attempt

pub record QuestionBody : Type 0 where
  pub prompt : String
  pub options : List String
  pub correct_index : ℕ
  pub points : Option ℕ

pub record ExamBody : Type 0 where
  pub title : String
  pub subject_id : Option String
  pub class_id : Option String
  pub duration_minutes : Option ℕ
  pub questions : List QuestionBody

-- A question as a student sees it, and with its answer.
pub record QuestionView : Type 0 where
  pub id : String
  pub prompt : String
  pub options : List String
  pub points : ℕ
  pub correct_index : Option ℕ

pub record ExamView : Type 0 where
  pub exam : Exam
  pub question_count : ℕ

pub record Started : Type 0 where
  pub attempt_id : String
  pub exam : Exam
  pub questions : List QuestionView

pub record Scored : Type 0 where
  pub attempt_id : String
  pub exam_id : String
  pub student_id : String
  pub score : ℕ
  pub max_score : ℕ
  pub percent : ℕ

abbrev pub is_published : ExamStatus → Bool
is_published draft = false
is_published published = true

abbrev pub is_in_progress : AttemptStatus → Bool
is_in_progress in_progress = true
is_in_progress submitted = false

abbrev pub is_exam : String → Exam → Bool
is_exam id e = e.id == id

abbrev pub is_attempt : String → Attempt → Bool
is_attempt id a = a.id == id

abbrev pub or_else : {A : Type 0} → Option A → A → A
or_else none d = d
or_else (some a) d = a

-- `n || d`.
abbrev pub or_if_zero : Option ℕ → ℕ → ℕ
or_if_zero none d = d
or_if_zero (some n) d = if eqb n 0 then d else n

abbrev pub is_zero : Option ℕ → Bool
is_zero none = false
is_zero (some n) = ltb n 1

-- `validateExamBody`, for one question and for all.
unfoldable pub check_question : QuestionBody → Result (Unit {0})
check_question q = do
  refuse (is_blank q.prompt || ltb (length q.options) 2)
      (bad_request "Every question needs a prompt and at least two options")
  refuse (leb (length q.options) q.correct_index)
      (bad_request "Every question needs a valid correct answer")
  refuse (is_zero q.points) (bad_request "Question points must be positive")
  ok tt

unfoldable pub check_questions : List QuestionBody → Result (Unit {0})
check_questions [] = ok tt
check_questions (q ∷ qs) = check_question q >> check_questions qs

unfoldable pub validate_exam_body : ExamBody → Result (Unit {0})
validate_exam_body body = do
  refuse (is_blank body.title) (bad_request "Exam title is required")
  refuse (ltb (or_else body.duration_minutes 60) 1 || ltb 480 (or_else body.duration_minutes 60))
      (bad_request "Exam duration must be between 1 and 480 minutes")
  check_questions body.questions

abbrev pub new_exam : String → String → ℕ → ExamBody → Exam
new_exam id user_id now body = record {
  id = id;
  title = trim body.title;
  subject_id = or_null body.subject_id;
  class_id = or_null body.class_id;
  duration_minutes = or_if_zero body.duration_minutes 60;
  status = draft;
  created_by = user_id;
  created_at = now;
}

abbrev pub new_question : String → String → QuestionBody → Question
new_question id exam_id q = record {
  id = id;
  exam_id = exam_id;
  prompt = q.prompt;
  options = q.options;
  correct_index = q.correct_index;
  points = or_else q.points 1;
}

-- The loop over the questions: the n-th gets the n-th new id.
abbrev pub insert_questions :
    (ℕ → String) → ℕ → String → List QuestionBody → List Question → List Question
insert_questions fresh n exam_id [] rows = rows
insert_questions fresh n exam_id (q ∷ qs) rows =
    insert_questions fresh (suc n) exam_id qs (rows ++ new_question (fresh n) exam_id q ∷ [])

abbrev pub store_exam : String → (ℕ → String) → String → ℕ → ExamBody → Unit {0} → CbtDb → CbtDb
store_exam id fresh user_id now body _ db = record db {
  exams = db.exams ++ new_exam id user_id now body ∷ [];
  questions = insert_questions fresh 0 id body.questions db.questions;
}

abbrev pub set_published : Exam → Exam
set_published e = record e { status = published }

abbrev pub publish : String → Unit {0} → CbtDb → CbtDb
publish exam_id _ db = record db { exams = update_where (is_exam exam_id) set_published db.exams }

abbrev pub publisher_roles : List String
publisher_roles = "director" ∷ "school_admin" ∷ "principal" ∷ "head_teacher" ∷ []
