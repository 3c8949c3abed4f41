-- ===== src/Cbt/Tests.antt =====
-- Runs of the computer-based tests.
use multi_academy_backend.Prelude.{
  ℕ, String, ◌≡◌, refl, none, some, [], ◌∷◌, trim, find_first, eqb, if◌then◌else◌,
}
use multi_academy_backend.Http.{ok, err, bad_request, Fails}
use multi_academy_backend.Http.Checked.{
  checked, after_checks, ◌>>=◌, ◌>>◌, require, refuse, or_throw, enabled, tenant_found,
}
use multi_academy_backend.Tenant.{array, open_school, get_user_roles}
use multi_academy_backend.Cbt.Rows.{
  CbtDb, ExamBody, Attempt, Scored, check_question, check_questions, validate_exam_body, is_attempt,
}
use multi_academy_backend.Cbt.Sittings.{new_attempt, questions_of}
use multi_academy_backend.Cbt.Service.{
  may_create_exam, create_exam, may_publish, publish_exam, get_exam_questions, may_start,
  start_attempt, may_score, score_attempt, may_submit, submit_answers,
}
use multi_academy_backend.Cbt.Questions.{IsSound, create_exam-IsSound}
use multi_academy_backend.Cbt.Scores.{IsMarked, submit_answers-IsMarked, submit_answers_accepted}
use multi_academy_backend.Cbt.Attempts.{HasOneRunning, Served, Served-HasOneRunning}
use multi_academy_backend.Cbt.Finality.{submitted_once}

abbrev school : CbtDb
school = record {
  users =
      record { id = "ms"; roles = array ("subject_teacher" ∷ []) }
      ∷ record { id = "ada"; roles = array ("student" ∷ []) }
      ∷ [];
  enrollments = record { student_id = "ada"; class_id = "c1" } ∷ [];
  exams = [];
  questions = [];
  attempts = [];
}

abbrev maths : ExamBody
maths = record {
  title = "Maths";
  subject_id = none;
  class_id = some "c1";
  duration_minutes = some 30;
  questions =
      record { prompt = "1 + 1"; options = "1" ∷ "2" ∷ []; correct_index = 1; points = none }
      ∷ record { prompt = "2 + 2"; options = "4" ∷ "5" ∷ []; correct_index = 0; points = some 3 }
      ∷ [];
}

abbrev new_id : ℕ → String
new_id n = if eqb n 0 then "q1" else "q2"

abbrev set : CbtDb
set = (create_exam open_school "t1" "ms" "e1" new_id 0 maths school).1

abbrev open_exam : CbtDb
open_exam = (publish_exam open_school "t1" "ms" "e1" set).1

abbrev sitting : CbtDb
sitting = (start_attempt open_school "t1" "ada" "e1" "a1" 1000 open_exam).1

abbrev done : CbtDb
done = (submit_answers open_school "t1" "ada" "a1" (("q2", 0) ∷ ("q1", 0) ∷ []) 2000 sitting).1

start_run :
    (start_attempt open_school "t1" "ada" "e1" "a1" 1000 set).0
    ≡ err (bad_request "This exam is not published")
unfolding create_exam may_create_exam validate_exam_body check_questions check_question
    start_attempt may_start get_exam_questions checked ◌>>=◌ ◌>>◌ require refuse or_throw enabled
    tenant_found trim get_user_roles
start_run = refl

submit_run :
    (submit_answers open_school "t1" "ada" "a1" (("q2", 0) ∷ ("q1", 0) ∷ []) 2000 sitting).0
    ≡ ok (record {
      attempt_id = "a1";
      exam_id = "e1";
      student_id = "ada";
      score = 3;
      max_score = 4;
      percent = 75;
    })
unfolding create_exam may_create_exam validate_exam_body check_questions check_question publish_exam
    may_publish start_attempt may_start get_exam_questions submit_answers may_submit score_attempt
    may_score checked after_checks ◌>>=◌ ◌>>◌ require refuse or_throw enabled tenant_found trim
    get_user_roles
submit_run = refl

late_run :
    (submit_answers open_school "t1" "ada" "a1" [] 1801001 sitting).0
    ≡ err (bad_request "Exam time has expired")
unfolding create_exam may_create_exam validate_exam_body check_questions check_question publish_exam
    may_publish start_attempt may_start get_exam_questions submit_answers may_submit score_attempt
    may_score checked after_checks ◌>>=◌ ◌>>◌ require refuse or_throw enabled tenant_found trim
    get_user_roles
late_run = refl

create_exam-IsSound_example :
    IsSound (create_exam open_school "t1" "ms" "e1" new_id 0 maths school).1
create_exam-IsSound_example =
    create_exam-IsSound open_school "t1" "ms" "e1" new_id 0 maths school (tt, tt)

submit_answers-IsMarked_example :
    IsMarked (("q2", 0) ∷ ("q1", 0) ∷ []) (questions_of sitting "e1") (record {
      attempt_id = "a1";
      exam_id = "e1";
      student_id = "ada";
      score = 3;
      max_score = 4;
      percent = 75;
    })
submit_answers-IsMarked_example =
    submit_answers-IsMarked open_school "t1" "ada" "a1" (("q2", 0) ∷ ("q1", 0) ∷ []) 2000 sitting
      submit_run

Served-HasOneRunning_example : HasOneRunning sitting
unfolding publish_exam checked may_publish ◌>>◌ enabled tenant_found ◌>>=◌ or_throw create_exam
    may_create_exam validate_exam_body refuse trim check_questions check_question
Served-HasOneRunning_example =
    Served-HasOneRunning open_school "t1" {start = open_exam} tt
      (Served.attempt_started "ada" "e1" "a1" 1000 Served.none_yet)

submitted_once_example :
    let again = submit_answers open_school "t1" "ada" "a1" (("q1", 1) ∷ []) 3000 done in
    Fails again.0
    × (again.1 ≡ done)
    × ((a : Attempt) × (find_first (is_attempt "a1") done.attempts ≡ some a)
        × (a.score ≡ 3)
        × (a.max_score ≡ 4)
        × (a.answers ≡ ("q2", 0) ∷ ("q1", 0) ∷ []))
submitted_once_example =
    submitted_once open_school "t1" "ada" "ada" "a1" (("q2", 0) ∷ ("q1", 0) ∷ []) (("q1", 1) ∷ [])
      2000 3000 sitting done submit_run Served.none_yet

abbrev first_attempt : Attempt
first_attempt = new_attempt "a1" "e1" "ada" 1000

submit_answers_accepted_example :
    (r : Scored) × ((submit_answers open_school "t1" "ada" "a1" [] 1801000 sitting).0 ≡ ok r)
unfolding create_exam may_create_exam validate_exam_body check_questions check_question publish_exam
    may_publish start_attempt may_start get_exam_questions checked ◌>>=◌ ◌>>◌ require refuse
    or_throw enabled tenant_found trim get_user_roles
submit_answers_accepted_example =
    submit_answers_accepted open_school "t1" "ada" "a1" [] 1801000 sitting first_attempt refl refl
      refl refl refl refl
