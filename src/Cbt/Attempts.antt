-- ===== src/Cbt/Attempts.antt =====
-- The course of attempts
-- (`startAttempt` and `submitAnswers` of web-server/src/cbt/cbt.service.ts).
use multi_academy_backend.Prelude.{
  ℕ, String, ◌≡◌, refl, ap, inl, inr, Bool, false, ◌&&◌, Option, none, some, List, [], ◌∷◌, ◌==◌,
  arith, if◌then◌else◌, Bool-cases, find_first, All,
}
use multi_academy_backend.Prelude.Dict.{Dict}
use multi_academy_backend.Prelude.Pairwise.{Pairwise, Pairwise-append, Pairwise-update_where}
use multi_academy_backend.Http.Checked.{checked-state, required, thrown, passed, bound, returned}
use multi_academy_backend.Tenant.{Environment}
use multi_academy_backend.Cbt.Rows.{
  QuestionView, Exam, Attempt, CbtDb, ExamBody, is_in_progress, is_attempt,
}
use multi_academy_backend.Cbt.Sittings.{is_running, new_attempt, open_attempt, close_attempt}
use multi_academy_backend.Cbt.Service.{
  may_start, start_attempt, submit_answers, create_exam, publish_exam,
}
use multi_academy_backend.Cbt.Scores.{submit_answers-cases}

-- Two attempts of one student at one exam are not both in progress.
abbrev pub NotBoth : Attempt → Attempt → Type 0
NotBoth a b =
    (a.exam_id == b.exam_id
      && a.student_id == b.student_id
      && is_in_progress a.status
      && is_in_progress b.status)
    ≡ false

abbrev pub HasOneRunning : CbtDb → Type 0
HasOneRunning db = Pairwise NotBoth db.attempts

none_running :
    (exam_id student_id : String) (attempts : List Attempt) (new : Attempt)
    → find_first (is_running exam_id student_id) attempts ≡ none
    → new.exam_id ≡ exam_id
    → new.student_id ≡ student_id
    → All (λ a. NotBoth a new) attempts
none_running exam_id student_id [] new h e s = tt
none_running exam_id student_id (a ∷ attempts) new h e s =
    elim (Bool-cases (is_running exam_id student_id a)) [
      | inl found ↦ absurd (ground arith)
      | inr other ↦ (
        rw (e, s)
            (still (a.exam_id == exam_id) (a.student_id == student_id) (is_in_progress a.status)
              (is_in_progress new.status) other),
        none_running exam_id student_id attempts new (rw other at h) e s,
      )
    ]
  where
    still : (p q r n : Bool) → (p && q && r) ≡ false → (p && q && r && n) ≡ false
    still p q r n h = ground arith

NotBoth-save :
    (id : String) (answers : Dict ℕ) (x y : Attempt)
    → NotBoth x y
    → NotBoth
        (if is_attempt id x then record x { answers = answers } else x)
        (if is_attempt id y then record y { answers = answers } else y)
NotBoth-save id answers x y h = elim (Bool-cases (is_attempt id x)) [
  | inl e ↦ elim (Bool-cases (is_attempt id y)) [ inl f ↦ rw (e, f) h | inr f ↦ rw (e, f) h ]
  | inr e ↦ elim (Bool-cases (is_attempt id y)) [ inl f ↦ rw (e, f) h | inr f ↦ rw (e, f) h ]
]

NotBoth-close :
    (id : String) (score max_score now : ℕ) (x y : Attempt)
    → NotBoth x y
    → NotBoth
        (if is_attempt id x then close_attempt score max_score now x else x)
        (if is_attempt id y then close_attempt score max_score now y else y)
NotBoth-close id score max_score now x y h = elim (Bool-cases (is_attempt id x)) [
  | inl e ↦ elim (Bool-cases (is_attempt id y)) [
    | inl f ↦ rw (e, f) (ground arith)
    | inr f ↦ rw (e, f) (ground arith)
  ]
  | inr e ↦ elim (Bool-cases (is_attempt id y)) [
    | inl f ↦ rw (e, f) (ground arith)
    | inr f ↦ rw (e, f) h
  ]
]

module _ (env : Environment) (tenant_id : String) where
  start_attempt-HasOneRunning :
      (student_id exam_id id : String) (now : ℕ) (db : CbtDb)
      → HasOneRunning db
      → HasOneRunning (start_attempt env tenant_id student_id exam_id id now db).1
  unfolding start_attempt may_start
  start_attempt-HasOneRunning student_id exam_id id now db h =
      checked-state HasOneRunning _ _ _ db h λ (e, existing, qs) passes.
        let (_, h1) = passed _ _ passes in
        let (_, h2) = passed _ _ h1 in
        let (f, _, h3) = thrown _ _ _ h2 in
        let (_, h4) = required _ _ _ h3 in
        let (_, h5) = required _ _ _ h4 in
        let (_, h6) = required _ _ _ h5 in
        let (views, _, h7) = bound _ _ h6 in opened e existing qs (ap (λ p. p.1) (returned h7))
    where
      opened :
          (e : Exam) (existing : Option Attempt) (qs : List QuestionView)
          → find_first (is_running exam_id student_id) db.attempts ≡ existing
          → HasOneRunning (open_attempt id exam_id student_id now (e, existing, qs) db)
      opened e (some a) qs found = h
      opened e none qs found =
          Pairwise-append NotBoth db.attempts (new_attempt id exam_id student_id now) h (
            none_running exam_id student_id db.attempts (new_attempt id exam_id student_id now)
              found refl refl)

  submit_answers-HasOneRunning :
      (student_id attempt_id : String) (answers : Dict ℕ) (now : ℕ) (db : CbtDb)
      → HasOneRunning db
      → HasOneRunning (submit_answers env tenant_id student_id attempt_id answers now db).1
  submit_answers-HasOneRunning student_id attempt_id answers now db h =
      elim (submit_answers-cases env tenant_id student_id attempt_id answers now db) [
        | inl (_, same) ↦ rw same h
        | inr (a, _, _, _, _, run) ↦ rw run (
            Pairwise-update_where NotBoth (is_attempt attempt_id) _ _
              (NotBoth-close attempt_id _ _ now)
              (Pairwise-update_where NotBoth (is_attempt attempt_id) _ db.attempts
                (NotBoth-save attempt_id answers) h))
      ]

  -- The requests that write, one after another.
  pub data Served (start : CbtDb) : CbtDb → Type 0 where
    none_yet : Served start start
    exam_created :
        {db : CbtDb} (user_id id : String) (fresh : ℕ → String) (now : ℕ) (body : ExamBody)
        → Served start db
        → Served start (create_exam env tenant_id user_id id fresh now body db).1
    exam_published :
        {db : CbtDb} (actor exam_id : String)
        → Served start db
        → Served start (publish_exam env tenant_id actor exam_id db).1
    attempt_started :
        {db : CbtDb} (student_id exam_id id : String) (now : ℕ)
        → Served start db
        → Served start (start_attempt env tenant_id student_id exam_id id now db).1
    answers_submitted :
        {db : CbtDb} (student_id attempt_id : String) (answers : Dict ℕ) (now : ℕ)
        → Served start db
        → Served start (submit_answers env tenant_id student_id attempt_id answers now db).1

  pub create_exam_attempts :
      (user_id id : String) (fresh : ℕ → String) (now : ℕ) (body : ExamBody) (db : CbtDb)
      → (create_exam env tenant_id user_id id fresh now body db).1.attempts ≡ db.attempts
  unfolding create_exam
  create_exam_attempts user_id id fresh now body db =
      checked-state (λ s. s.attempts ≡ db.attempts) _ _ _ db refl (λ _ _. refl)

  pub publish_exam_attempts :
      (actor exam_id : String) (db : CbtDb)
      → (publish_exam env tenant_id actor exam_id db).1.attempts ≡ db.attempts
  unfolding publish_exam
  publish_exam_attempts actor exam_id db =
      checked-state (λ s. s.attempts ≡ db.attempts) _ _ _ db refl (λ _ _. refl)

  -- Whatever requests were served since a start with at most one attempt in progress for each student
  -- and exam, there is at most one.
  pub Served-HasOneRunning :
      {start db : CbtDb} → HasOneRunning start → Served start db → HasOneRunning db
  Served-HasOneRunning h none_yet = h
  Served-HasOneRunning h (exam_created {db} user_id id fresh now body r) =
      rw (create_exam_attempts user_id id fresh now body db) (Served-HasOneRunning h r)
  Served-HasOneRunning h (exam_published {db} actor exam_id r) =
      rw (publish_exam_attempts actor exam_id db) (Served-HasOneRunning h r)
  Served-HasOneRunning h (attempt_started {db} student_id exam_id id now r) =
      start_attempt-HasOneRunning student_id exam_id id now db (Served-HasOneRunning h r)
  Served-HasOneRunning h (answers_submitted {db} student_id attempt_id answers now r) =
      submit_answers-HasOneRunning student_id attempt_id answers now db (Served-HasOneRunning h r)
