-- ===== src/Cbt/Finality.antt =====
-- Attempts that were submitted (`submitAnswers` of web-server/src/cbt/cbt.service.ts).
use multi_academy_backend.Prelude.{
  ℕ, String, ◌≡◌, refl, sym, ap, ◌∙◌, inl, inr, true, false, Option, none, some, List, ◌==◌,
  Bool-cases, eq_iff, find_first, find_first-passes, update_where, find_first-update_where,
}
use multi_academy_backend.Prelude.Dict.{Dict}
use multi_academy_backend.Prelude.Keyed.{keyed-update, keyed-append}
use multi_academy_backend.Http.{ok, Fails}
use multi_academy_backend.Http.Checked.{checked-state, returned}
use multi_academy_backend.Tenant.{Environment}
use multi_academy_backend.Cbt.Rows.{
  QuestionView, Exam, Attempt, CbtDb, Scored, is_in_progress, is_attempt,
}
use multi_academy_backend.Cbt.Sittings.{
  new_attempt, open_attempt, save_answers, close_attempt, score_of,
}
use multi_academy_backend.Cbt.Service.{start_attempt, submit_answers}
use multi_academy_backend.Cbt.Scores.{submit_answers-cases}
use multi_academy_backend.Cbt.Attempts.{Served, create_exam_attempts, publish_exam_attempts}

-- The attempt of an id is this one, and it was submitted.
abbrev pub IsClosed : String → Attempt → CbtDb → Type 0
IsClosed id a db =
    (find_first (is_attempt id) db.attempts ≡ some a) × (is_in_progress a.status ≡ false)

other_update :
    (f : Attempt → Attempt) (k j : String) (rows : List Attempt)
    → ((a : Attempt) → (f a).id ≡ a.id)
    → (k == j) ≡ false
    → find_first (is_attempt j) (update_where (is_attempt k) f rows)
      ≡ find_first (is_attempt j) rows
other_update f k j rows keeps e = keyed-update (λ a. a.id) f k j rows keeps ∙ rw e refl

same_row : {a b : Attempt} → some a ≡ some b → a ≡ b
same_row e = cc

module _ (env : Environment) (tenant_id : String) where
  start_attempt-IsClosed :
      (student_id exam_id id : String) (now : ℕ) (k : String) (a : Attempt) (db : CbtDb)
      → IsClosed k a db
      → IsClosed k a (start_attempt env tenant_id student_id exam_id id now db).1
  unfolding start_attempt
  start_attempt-IsClosed student_id exam_id id now k a db (found, closed) =
      checked-state (IsClosed k a) _ _ _ db (found, closed) (λ opened _. kept opened)
    where
      kept :
          (opened : Exam × Option Attempt × List QuestionView)
          → IsClosed k a (open_attempt id exam_id student_id now opened db)
      kept (e, some b, qs) = (found, closed)
      kept (e, none, qs) = (
        keyed-append (λ a. a.id) k db.attempts (new_attempt id exam_id student_id now)
            ∙ rw found refl,
        closed,
      )

  submit_answers-IsClosed :
      (student_id attempt_id : String) (answers : Dict ℕ) (now : ℕ) (k : String) (a : Attempt)
      (db : CbtDb)
      → IsClosed k a db
      → IsClosed k a (submit_answers env tenant_id student_id attempt_id answers now db).1
  submit_answers-IsClosed student_id attempt_id answers now k a db (found, closed) =
      elim (submit_answers-cases env tenant_id student_id attempt_id answers now db) [
        | inl (_, same) ↦ rw same (found, closed)
        | inr (b, running, unclosed, _, _, run) ↦ elim (Bool-cases (attempt_id == k)) [
          | inl e ↦
              let key : attempt_id ≡ k = (eq_iff attempt_id k).0 e in
              let same : b ≡ a = same_row (sym running ∙ rw key found) in
              let open_too : is_in_progress a.status ≡ true = rw (← same) unclosed in absurd (cc)
          | inr e ↦ rw run (
            other_update _ attempt_id k _ (λ x. refl) e
                ∙ other_update _ attempt_id k db.attempts (λ x. refl) e
                ∙ found,
            closed,
          )
        ]
      ]

  submitted_refused :
      (student_id attempt_id : String) (answers : Dict ℕ) (now : ℕ) (a : Attempt) (db : CbtDb)
      → IsClosed attempt_id a db
      → let run = submit_answers env tenant_id student_id attempt_id answers now db in
        Fails run.0 × (run.1 ≡ db)
  submitted_refused student_id attempt_id answers now a db (found, closed) =
      elim (submit_answers-cases env tenant_id student_id attempt_id answers now db) [
        | inl stopped ↦ stopped
        | inr (b, running, unclosed, _, _, _) ↦
            let same : b ≡ a = same_row (sym running ∙ found) in
            let open_too : is_in_progress a.status ≡ true = rw (← same) unclosed in absurd (cc)
      ]

  Served-IsClosed :
      {start db : CbtDb} (k : String) (a : Attempt)
      → IsClosed k a start
      → Served env tenant_id start db
      → IsClosed k a db
  Served-IsClosed k a h Served.none_yet = h
  Served-IsClosed k a h (Served.exam_created {db} user_id id fresh now body r) =
      rw (create_exam_attempts env tenant_id user_id id fresh now body db) (Served-IsClosed k a h r)
  Served-IsClosed k a h (Served.exam_published {db} actor exam_id r) =
      rw (publish_exam_attempts env tenant_id actor exam_id db) (Served-IsClosed k a h r)
  Served-IsClosed k a h (Served.attempt_started {db} student_id exam_id id now r) =
      start_attempt-IsClosed student_id exam_id id now k a db (Served-IsClosed k a h r)
  Served-IsClosed k a h (Served.answers_submitted {db} student_id attempt_id answers now r) =
      submit_answers-IsClosed student_id attempt_id answers now k a db (Served-IsClosed k a h r)

  -- An accepted submission closes its attempt with the scores of the answer.
  accepted-IsClosed :
      (student_id attempt_id : String) (answers : Dict ℕ) (now : ℕ) (db : CbtDb) {r : Scored}
      → let run = submit_answers env tenant_id student_id attempt_id answers now db in
        run.0 ≡ ok r
        → (a : Attempt) × IsClosed attempt_id a run.1
          × (a.score ≡ r.score)
          × (a.max_score ≡ r.max_score)
          × (a.answers ≡ answers)
  accepted-IsClosed student_id attempt_id answers now db {r} h =
      elim (submit_answers-cases env tenant_id student_id attempt_id answers now db) [
        | inl (fails, _) ↦ absurd (rw h at fails)
        | inr (a, found, _, _, _, run) ↦
            let same = returned (rw run at h) in
            let hit = find_first-passes (is_attempt attempt_id) db.attempts found in
            let saved =
              find_first-update_where (is_attempt attempt_id) (is_attempt attempt_id)
                (λ a. record a { answers = answers }) db.attempts (λ x. refl) found hit in
            let stored =
              find_first-update_where (is_attempt attempt_id) (is_attempt attempt_id)
                (close_attempt _ _ now) _ (λ x. refl) saved hit in
            let given = record a { answers = answers } in
            let marks = score_of (save_answers attempt_id answers db) given in
            (
              close_attempt marks.0 marks.1 now given,
              rw run (stored, refl),
              ap (λ r. r.score) same,
              ap (λ r. r.max_score) same,
              refl,
            )
      ]

  -- After an accepted submission, whatever requests follow, the attempt keeps its answers and the
  -- scores that were answered, and every further submission of it is refused and changes nothing.
  pub submitted_once :
      (student_id student_id' attempt_id : String) (answers answers' : Dict ℕ) (now now' : ℕ)
      (db later : CbtDb) {r : Scored}
      → (submit_answers env tenant_id student_id attempt_id answers now db).0 ≡ ok r
      → Served env tenant_id
          (submit_answers env tenant_id student_id attempt_id answers now db).1
          later
      → let again = submit_answers env tenant_id student_id' attempt_id answers' now' later in
        Fails again.0
        × (again.1 ≡ later)
        × ((a : Attempt) × (find_first (is_attempt attempt_id) later.attempts ≡ some a)
            × (a.score ≡ r.score)
            × (a.max_score ≡ r.max_score)
            × (a.answers ≡ answers))
  submitted_once student_id student_id' attempt_id answers answers' now now' db later h r =
      let (a, closed, score, max_score, given) =
        accepted-IsClosed student_id attempt_id answers now db h in
      let still = Served-IsClosed attempt_id a closed r in
      let (fails, same) = submitted_refused student_id' attempt_id answers' now' a later still in
      (fails, same, (a, still.0, score, max_score, given))
