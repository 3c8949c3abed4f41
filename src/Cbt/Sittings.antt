-- ===== src/Cbt/Sittings.antt =====
-- What a student is shown, and attempts with their scores (`listExams`, `startAttempt` and
-- `scoreAttempt` of web-server/src/cbt/cbt.service.ts).
use multi_academy_backend.Prelude.{
  ℕ, ◌+◌, ◌*◌, ◌/◌, String, Bool, true, false, ◌&&◌, ◌||◌, Option, none, some, List, [], ◌∷◌, ◌++◌,
  ◌==◌, eqb, ltb, leb, if◌then◌else◌, any, includes, filter_by, update_where, sort_by, take,
  count_where, map, text_le,
}
use multi_academy_backend.Prelude.Dict.{Dict, lookup}
use multi_academy_backend.Cbt.Rows.{
  is_published, is_in_progress, is_attempt, Exam, Question, Attempt, CbtDb, QuestionView, ExamView,
  Started, Scored, in_progress, submitted,
}

-- The questions of an exam, in the order of the query.
abbrev pub questions_of : CbtDb → String → List Question
questions_of db exam_id =
    sort_by (λ a b. text_le a.id b.id) (filter_by (λ q. q.exam_id == exam_id) db.questions)

abbrev pub view_question : Bool → Question → QuestionView
view_question include_answers q = record {
  id = q.id;
  prompt = q.prompt;
  options = q.options;
  points = q.points;
  correct_index = if include_answers then some q.correct_index else none;
}

abbrev pub is_enrolled : CbtDb → String → String → Bool
is_enrolled db student_id class_id =
    any (λ e. e.student_id == student_id && e.class_id == class_id) db.enrollments

-- An exam of no class is for every student.
abbrev pub may_sit : CbtDb → String → Option String → Bool
may_sit db student_id none = true
may_sit db student_id (some class_id) = class_id == "" || is_enrolled db student_id class_id

-- The condition of the list's query, where `class_id IS NULL` alone stands for every class.
abbrev pub in_class : CbtDb → String → Option String → Bool
in_class db student_id none = true
in_class db student_id (some class_id) = is_enrolled db student_id class_id

abbrev pub exam_shown : CbtDb → List String → String → Exam → Bool
exam_shown db roles actor e =
    if includes roles "student" then is_published e.status && in_class db actor e.class_id else true

abbrev pub view_exam : CbtDb → Exam → ExamView
view_exam db e = record {
  exam = e;
  question_count = count_where (λ q. q.exam_id == e.id) db.questions;
}

unfoldable pub exams_for : CbtDb → List String → String → List ExamView
exams_for db roles actor =
    if includes roles "parent"
    then []
    else map (view_exam db) (
        take 100 (
          sort_by (λ a b. leb b.created_at a.created_at)
            (filter_by (exam_shown db roles actor) db.exams)))

abbrev pub is_running : String → String → Attempt → Bool
is_running exam_id student_id a =
    a.exam_id == exam_id && a.student_id == student_id && is_in_progress a.status

abbrev pub new_attempt : String → String → String → ℕ → Attempt
new_attempt id exam_id student_id now = record {
  id = id;
  exam_id = exam_id;
  student_id = student_id;
  status = in_progress;
  answers = [];
  score = 0;
  max_score = 0;
  started_at = now;
  submitted_at = none;
}

-- The attempt that was found is resumed; otherwise a new one is stored.
abbrev pub open_attempt :
    String → String → String → ℕ → Exam × Option Attempt × List QuestionView → CbtDb → CbtDb
open_attempt id exam_id student_id now (e, some _, _) db = db
open_attempt id exam_id student_id now (e, none, _) db = record db {
  attempts = db.attempts ++ new_attempt id exam_id student_id now ∷ [];
}

abbrev pub started : String → Exam × Option Attempt × List QuestionView → Started
started id (e, some a, qs) = record { attempt_id = a.id; exam = e; questions = qs }
started id (e, none, qs) = record { attempt_id = id; exam = e; questions = qs }

-- `examRows[0]?.durationMinutes || 60`.
abbrev pub duration_of : Option Exam → ℕ
duration_of none = 60
duration_of (some e) = if eqb e.duration_minutes 0 then 60 else e.duration_minutes

abbrev pub is_late : Option Exam → Attempt → ℕ → Bool
is_late e a now = ltb (a.started_at + duration_of e * 60000) now

abbrev pub save_answers : String → Dict ℕ → CbtDb → CbtDb
save_answers id answers db = record db {
  attempts = update_where (is_attempt id) (λ a. record a { answers = answers }) db.attempts;
}

-- `Number(q.points || 1)`.
abbrev pub points_of : Question → ℕ
points_of q = if eqb q.points 0 then 1 else q.points

-- `chosen !== undefined && chosen === q.correctIndex`.
abbrev pub is_right : Dict ℕ → Question → Bool
is_right answers q = elim (lookup q.id answers) [ none ↦ false | some n ↦ eqb n q.correct_index ]

-- The loop of `scoreAttempt`, with its two sums.
abbrev pub tally : Dict ℕ → ℕ → ℕ → List Question → ℕ × ℕ
tally answers score max_score [] = (score, max_score)
tally answers score max_score (q ∷ qs) =
    tally answers (if is_right answers q then score + points_of q else score)
      (max_score + points_of q) qs

-- `Math.round((score / maxScore) * 100)`, of the exact quotient.
abbrev pub percent_of : ℕ → ℕ → ℕ
percent_of score max_score =
    if ltb 0 max_score then (200 * score + max_score) / (2 * max_score) else 0

abbrev pub score_of : CbtDb → Attempt → ℕ × ℕ
score_of db a = tally a.answers 0 0 (questions_of db a.exam_id)

abbrev pub scored : Attempt × (ℕ × ℕ) → Scored
scored (a, (score, max_score)) = record {
  attempt_id = a.id;
  exam_id = a.exam_id;
  student_id = a.student_id;
  score = score;
  max_score = max_score;
  percent = percent_of score max_score;
}

abbrev pub close_attempt : ℕ → ℕ → ℕ → Attempt → Attempt
close_attempt score max_score now a = record a {
  status = submitted;
  score = score;
  max_score = max_score;
  submitted_at = some now;
}

abbrev pub store_score : String → ℕ → Attempt × (ℕ × ℕ) → CbtDb → CbtDb
store_score id now (a, (score, max_score)) db = record db {
  attempts = update_where (is_attempt id) (close_attempt score max_score now) db.attempts;
}
