-- ===== src/Cbt/Questions.antt =====
-- The questions of exams
-- (`createExam` and `validateExamBody` of web-server/src/cbt/cbt.service.ts).
use multi_academy_backend.Prelude.{
  ℕ, suc, ◌≤◌, ◌<◌, String, ◌≡◌, Bool, false, ◌||◌, Option, none, some, List, [], ◌∷◌, arith, ltb,
  length, is_blank, All, All-append,
}
use multi_academy_backend.Http.{ok}
use multi_academy_backend.Http.Checked.{checked-state, refused, passed}
use multi_academy_backend.Tenant.{Environment}
use multi_academy_backend.Cbt.Rows.{
  Question, Exam, CbtDb, ExamBody, QuestionBody, is_zero, or_else, or_if_zero, check_question,
  check_questions, validate_exam_body, new_question, insert_questions,
}
use multi_academy_backend.Cbt.Service.{may_create_exam, create_exam}

-- A choice of at least two, one of them right, that is worth something.
abbrev pub IsAnswerable : Question → Type 0
IsAnswerable q = (2 ≤ length q.options) × (q.correct_index < length q.options) × (1 ≤ q.points)

abbrev pub IsTimed : Exam → Type 0
IsTimed e = (1 ≤ e.duration_minutes) × (e.duration_minutes ≤ 480)

abbrev pub IsSound : CbtDb → Type 0
IsSound db = All IsAnswerable db.questions × All IsTimed db.exams

IsAnswerable-new_question :
    (id exam_id : String) (q : QuestionBody)
    → check_question q ≡ ok tt
    → IsAnswerable (new_question id exam_id q)
unfolding check_question
IsAnswerable-new_question id exam_id q h =
    let (two, h1) = refused _ _ _ h in
    let (index, h2) = refused _ _ _ h1 in
    let (worth, _) = refused _ _ _ h2 in
    (at_least (is_blank q.prompt) (length q.options) two, ground arith, points q.points worth)
  where
    at_least : (b : Bool) (n : ℕ) → (b || ltb n 2) ≡ false → 2 ≤ n
    at_least b n h = ground arith

    points : (p : Option ℕ) → is_zero p ≡ false → 1 ≤ or_else p 1
    points none h = omega arith
    points (some n) h = ground arith

All-insert_questions :
    (fresh : ℕ → String) (n : ℕ) (exam_id : String) (qs : List QuestionBody) (rows : List Question)
    → check_questions qs ≡ ok tt
    → All IsAnswerable rows
    → All IsAnswerable (insert_questions fresh n exam_id qs rows)
unfolding check_questions
All-insert_questions fresh n exam_id [] rows h k = k
All-insert_questions fresh n exam_id (q ∷ qs) rows h k =
    let (first, rest) = passed _ _ h in
    All-insert_questions fresh (suc n) exam_id qs _ rest
      (All-append IsAnswerable rows _ k (IsAnswerable-new_question (fresh n) exam_id q first, tt))

duration-bounds :
    (d : Option ℕ)
    → (ltb (or_else d 60) 1 || ltb 480 (or_else d 60)) ≡ false
    → (1 ≤ or_if_zero d 60) × (or_if_zero d 60 ≤ 480)
duration-bounds none h = (omega arith, omega arith)
duration-bounds (some n) h = (ground arith, ground arith)

-- Creating an exam, accepted or refused, keeps that every question has at least two options, an answer
-- among them and at least one point, and every exam a duration of 1 to 480 minutes.
pub create_exam-IsSound :
    (env : Environment) (tenant_id user_id id : String) (fresh : ℕ → String) (now : ℕ)
    (body : ExamBody) (db : CbtDb)
    → IsSound db
    → IsSound (create_exam env tenant_id user_id id fresh now body db).1
unfolding create_exam may_create_exam validate_exam_body
create_exam-IsSound env tenant_id user_id id fresh now body db (questions, exams) =
    checked-state IsSound _ _ _ db (questions, exams)
      λ _ passes.
        let (_, h1) = passed _ _ passes in
        let (_, h2) = passed _ _ h1 in
        let (_, h3) = refused _ _ _ h2 in
        let (minutes, h4) = refused _ _ _ h3 in
        (
          All-insert_questions fresh 0 id body.questions db.questions h4 questions,
          All-append IsTimed db.exams _ exams (duration-bounds body.duration_minutes minutes, tt),
        )
