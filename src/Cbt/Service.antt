-- ===== src/Cbt/Service.antt =====
-- The methods of web-server/src/cbt/cbt.service.ts.
use multi_academy_backend.Prelude.{
  ℕ, String, Bool, true, false, ◌||◌, Option, List, ◌==◌, includes, find_first, length, map,
}
use multi_academy_backend.Prelude.Dict.{Dict}
use multi_academy_backend.Http.{Action, Result, ok, bad_request, not_found}
use multi_academy_backend.Http.Checked.{
  ◌>>=◌, ◌>>◌, require, refuse, or_throw, enabled, tenant_found, checked, after_checks,
}
use multi_academy_backend.Tenant.{Environment, get_user_roles, has_any_role}
use multi_academy_backend.Cbt.Rows.{
  is_published, is_in_progress, is_exam, is_attempt, validate_exam_body, store_exam, publish,
  publisher_roles, Exam, Attempt, CbtDb, ExamBody, QuestionView, ExamView, Started, Scored,
}
use multi_academy_backend.Cbt.Sittings.{
  questions_of, view_question, may_sit, exams_for, is_running, open_attempt, started, is_late,
  save_answers, score_of, scored, store_score,
}

module _ (env : Environment) (tenant_id : String) where
  unfoldable pub may_list : String → CbtDb → Result (List String)
  may_list actor db = do
    enabled env tenant_id "academic.cbt"
    tenant_found env tenant_id
    ok (get_user_roles env db.users actor)

  unfoldable pub list_exams : String → CbtDb → Result (List ExamView)
  list_exams actor db = do roles ← may_list actor db; ok (exams_for db roles actor)

  unfoldable pub may_create_exam : ExamBody → CbtDb → Result (Unit {0})
  may_create_exam body db = do
    enabled env tenant_id "academic.cbt"
    tenant_found env tenant_id
    validate_exam_body body

  -- The answer is the exam's id and the number of its questions.
  unfoldable pub create_exam :
      String → String → (ℕ → String) → ℕ → ExamBody → Action CbtDb (String × ℕ)
  create_exam user_id id fresh now body =
      checked (λ db. may_create_exam body db) (λ _. (id, length body.questions))
        (store_exam id fresh user_id now body)

  unfoldable pub may_publish : String → String → CbtDb → Result (Unit {0})
  may_publish actor exam_id db = do
    enabled env tenant_id "academic.cbt"
    tenant_found env tenant_id
    e ← or_throw (find_first (is_exam exam_id) db.exams) (not_found "Exam not found")
    require
        (e.created_by == actor || has_any_role (get_user_roles env db.users actor) publisher_roles)
        (bad_request "Only the author or school leadership may publish this exam")
    ok tt

  unfoldable pub publish_exam : String → String → Action CbtDb String
  publish_exam actor exam_id = checked (may_publish actor exam_id) (λ _. exam_id) (publish exam_id)

  unfoldable pub get_exam_questions : String → Bool → CbtDb → Result (List QuestionView)
  get_exam_questions exam_id include_answers db = do
    enabled env tenant_id "academic.cbt"
    tenant_found env tenant_id
    ok (map (view_question include_answers) (questions_of db exam_id))

  unfoldable pub may_start :
      String → String → CbtDb → Result (Exam × Option Attempt × List QuestionView)
  may_start student_id exam_id db = do
    enabled env tenant_id "academic.cbt"
    tenant_found env tenant_id
    e ← or_throw (find_first (is_exam exam_id) db.exams) (not_found "Exam not found")
    require (includes (get_user_roles env db.users student_id) "student")
        (bad_request "Only student accounts may start a CBT attempt")
    require (is_published e.status) (bad_request "This exam is not published")
    require (may_sit db student_id e.class_id)
        (bad_request "Student is not enrolled in this exam class")
    questions ← get_exam_questions exam_id false db
    ok (e, find_first (is_running exam_id student_id) db.attempts, questions)

  unfoldable pub start_attempt : String → String → String → ℕ → Action CbtDb Started
  start_attempt student_id exam_id id now =
      checked (may_start student_id exam_id) (started id) (open_attempt id exam_id student_id now)

  unfoldable pub may_score : String → CbtDb → Result (Attempt × (ℕ × ℕ))
  may_score attempt_id db = do
    tenant_found env tenant_id
    a ← or_throw (find_first (is_attempt attempt_id) db.attempts) (not_found "Attempt not found")
    _ ← get_exam_questions a.exam_id true db
    ok (a, score_of db a)

  unfoldable pub score_attempt : String → ℕ → Action CbtDb Scored
  score_attempt attempt_id now = checked (may_score attempt_id) scored (store_score attempt_id now)

  unfoldable pub may_submit : String → String → ℕ → CbtDb → Result Attempt
  may_submit student_id attempt_id now db = do
    enabled env tenant_id "academic.cbt"
    tenant_found env tenant_id
    a ← or_throw (find_first (is_attempt attempt_id) db.attempts) (not_found "Attempt not found")
    require (a.student_id == student_id) (bad_request "Attempt does not belong to this student")
    require (is_in_progress a.status) (bad_request "Attempt already submitted")
    refuse (is_late (find_first (is_exam a.exam_id) db.exams) a now)
        (bad_request "Exam time has expired")
    ok a

  unfoldable pub submit_answers : String → String → Dict ℕ → ℕ → Action CbtDb Scored
  submit_answers student_id attempt_id answers now =
      after_checks (may_submit student_id attempt_id now)
        λ _ db. score_attempt attempt_id now (save_answers attempt_id answers db)
