-- ===== src/Cbt/Scores.antt =====
-- Marks of an attempt
-- (`submitAnswers` and `scoreAttempt` of web-server/src/cbt/cbt.service.ts).
use multi_academy_backend.Prelude.{
  ℕ, ◌+◌, ◌*◌, ◌≤◌, ◌<◌, String, ◌≡◌, refl, ◌∙◌, ◌↔◌, ◌⊎◌, inl, inr, true, false, ◌==◌, some, List,
  [], ◌∷◌, arith, ltb, if◌then◌else◌, Bool-cases, find_first, find_first-passes, sum_of, All,
  find_first-update_where,
}
use multi_academy_backend.Prelude.Dict.{Dict}
use native.Mathlib.Nat.{div-lt_iff_lt-mul}
use multi_academy_backend.Http.{ok, Fails}
use multi_academy_backend.Http.Checked.{
  ◌>>=◌, ◌>>◌, or_throw, require, refuse, checked, after_checks, enabled, tenant_found, required,
  refused, thrown, passed, returned, after_checks-cases, checked-passes,
}
use multi_academy_backend.Tenant.{Environment}
use multi_academy_backend.Cbt.Rows.{
  Question, Attempt, CbtDb, Scored, is_in_progress, is_attempt, is_exam,
}
use multi_academy_backend.Cbt.Sittings.{
  questions_of, is_late, save_answers, points_of, is_right, tally, percent_of, score_of, scored,
  store_score,
}
use multi_academy_backend.Cbt.Service.{
  may_submit, submit_answers, may_score, score_attempt, get_exam_questions,
}

-- What one question earns.
abbrev pub earned : Dict ℕ → Question → ℕ
earned answers q = if is_right answers q then points_of q else 0

pair_eq : {a b c d : ℕ} → a ≡ c → b ≡ d → ◌≡◌ {A = ℕ × ℕ} (a, b) (c, d)
pair_eq e f = rw (e, f) refl

tally_sums :
    (answers : Dict ℕ) (s m : ℕ) (qs : List Question)
    → tally answers s m qs ≡ (s + sum_of (earned answers) qs, m + sum_of points_of qs)
tally_sums answers s m [] = pair_eq (omega arith) (omega arith)
tally_sums answers s m (q ∷ qs) = elim (Bool-cases (is_right answers q)) [
  | inl e ↦
      rw (e, tally_sums answers (s + points_of q) (m + points_of q) qs)
        (pair_eq (omega arith) (omega arith))
  | inr e ↦ rw (e, tally_sums answers s (m + points_of q) qs) (pair_eq (omega arith) (omega arith))
]

earned_le :
    (answers : Dict ℕ) (qs : List Question) → sum_of (earned answers) qs ≤ sum_of points_of qs
earned_le answers [] = omega arith
earned_le answers (q ∷ qs) = ground (arith, earned_le answers qs)

full_iff :
    (answers : Dict ℕ) (qs : List Question)
    → (sum_of (earned answers) qs ≡ sum_of points_of qs) ↔ All (λ q. is_right answers q ≡ true) qs
full_iff answers [] = (λ _. tt, λ _. refl)
full_iff answers (q ∷ qs) =
    let (there, back) = full_iff answers qs in
    (
      λ h. (ground (arith, earned_le answers qs), there (ground (arith, earned_le answers qs))),
      λ (e, h). rw (e, back h) refl,
    )

percent-le : (s m : ℕ) → s ≤ m → percent_of s m ≤ 100
percent-le s m h = elim (Bool-cases (ltb 0 m)) [
  | inl e ↦
      let some_points : 0 < m = ground arith in
      let divides : 0 < 2 * m = omega (arith, some_points) in
      let below : 200 * s + m < 101 * (2 * m) = omega (arith, some_points) in
      rw e (at_most _ ((div-lt_iff_lt-mul divides).1 below))
  | inr e ↦ rw e (omega arith)
]
  where
    at_most : (n : ℕ) → n < 101 → n ≤ 100
    at_most n h = omega arith

may_score-passes :
    (env : Environment) (tenant_id attempt_id : String) (db : CbtDb) (a : Attempt)
    → enabled env tenant_id "academic.cbt" ≡ ok tt
    → tenant_found env tenant_id ≡ ok tt
    → find_first (is_attempt attempt_id) db.attempts ≡ some a
    → may_score env tenant_id attempt_id db ≡ ok (a, score_of db a)
unfolding may_score get_exam_questions ◌>>=◌ ◌>>◌ or_throw
may_score-passes env tenant_id attempt_id db a on tenant found = rw (tenant, found, on) refl

-- A submission that is refused changes nothing; otherwise it scores the attempt with its answers.
pub submit_answers-cases :
    (env : Environment) (tenant_id student_id attempt_id : String) (answers : Dict ℕ) (now : ℕ)
    (db : CbtDb)
    → let run = submit_answers env tenant_id student_id attempt_id answers now db in
      (Fails run.0 × (run.1 ≡ db))
      ⊎ ((a : Attempt) × (find_first (is_attempt attempt_id) db.attempts ≡ some a)
          × (is_in_progress a.status ≡ true)
          × ((a.student_id == student_id) ≡ true)
          × (is_late (find_first (is_exam a.exam_id) db.exams) a now ≡ false)
          × (let saved = save_answers attempt_id answers db in
              let marked : Attempt × (ℕ × ℕ) =
                (record a { answers = answers }, score_of saved (record a { answers = answers })) in
              run ≡ (ok (scored marked), store_score attempt_id now marked saved)))
unfolding submit_answers may_submit score_attempt may_score get_exam_questions
submit_answers-cases env tenant_id student_id attempt_id answers now db =
    elim (after_checks-cases (may_submit env tenant_id student_id attempt_id now)
      (λ _ s. score_attempt env tenant_id attempt_id now (save_answers attempt_id answers s)) db) [
        | inl stopped ↦ inl stopped
        | inr (a, passes, same) ↦
            let (on, h1) = passed _ _ passes in
            let (tenant, h2) = passed _ _ h1 in
            let (b, found, h3) = thrown _ _ _ h2 in
            let (mine, h4) = required _ _ _ h3 in
            let (running, h5) = required _ _ _ h4 in
            let (in_time, h6) = refused _ _ _ h5 in
            let stays : find_first (is_attempt attempt_id)
                  (save_answers attempt_id answers db).attempts
                ≡ some (record b { answers = answers }) =
              find_first-update_where (is_attempt attempt_id) (is_attempt attempt_id) _ db.attempts
                (λ x. refl) found (find_first-passes (is_attempt attempt_id) db.attempts found) in
            inr (
              b,
              found,
              running,
              mine,
              in_time,
              same
                  ∙ checked-passes _ _ _ _ _ (
                      may_score-passes env tenant_id attempt_id (save_answers attempt_id answers db)
                        (record b { answers = answers }) on tenant stays),
            )
      ]

-- The marks of an exam's questions for some answers: the points of the questions answered right, of
-- all points, all of them exactly when every question is answered right, and the percentage.
abbrev pub IsMarked : Dict ℕ → List Question → Scored → Type 0
IsMarked answers qs r =
    (r.score ≡ sum_of (earned answers) qs)
    × (r.max_score ≡ sum_of points_of qs)
    × (r.score ≤ r.max_score)
    × (r.percent ≤ 100)
    × ((r.score ≡ r.max_score) ↔ All (λ q. is_right answers q ≡ true) qs)

scored-IsMarked :
    (a : Attempt) (answers : Dict ℕ) (qs : List Question)
    → IsMarked answers qs (scored (a, tally answers 0 0 qs))
scored-IsMarked a answers qs =
    rw (whole)
      (refl, refl, earned_le answers qs, percent-le _ _ (earned_le answers qs), full_iff answers qs)
  where
    whole : tally answers 0 0 qs ≡ (sum_of (earned answers) qs, sum_of points_of qs)
    whole = tally_sums answers 0 0 qs ∙ pair_eq (omega arith) (omega arith)

-- A submission that is accepted is marked by the questions of its exam: it scores the points of the
-- questions answered right, of all points, at most 100 percent, and all of them exactly when every
-- question is answered right.
pub submit_answers-IsMarked :
    (env : Environment) (tenant_id student_id attempt_id : String) (answers : Dict ℕ) (now : ℕ)
    (db : CbtDb) {r : Scored}
    → (submit_answers env tenant_id student_id attempt_id answers now db).0 ≡ ok r
    → IsMarked answers (questions_of db r.exam_id) r
submit_answers-IsMarked env tenant_id student_id attempt_id answers now db {r} h =
    elim (submit_answers-cases env tenant_id student_id attempt_id answers now db) [
      | inl (fails, _) ↦ absurd (rw h at fails)
      | inr (a, _, _, _, _, run) ↦
          let same = returned (rw run at h) in
          rw (← same) (scored-IsMarked a answers (questions_of db a.exam_id))
    ]

-- A student's own attempt that is in progress and in time can be submitted, with any answers, where the
-- feature is on and the tenant exists.
pub submit_answers_accepted :
    (env : Environment) (tenant_id student_id attempt_id : String) (answers : Dict ℕ) (now : ℕ)
    (db : CbtDb) (a : Attempt)
    → env.resolve tenant_id "academic.cbt" ≡ true
    → env.tenant_exists tenant_id ≡ true
    → find_first (is_attempt attempt_id) db.attempts ≡ some a
    → (a.student_id == student_id) ≡ true
    → is_in_progress a.status ≡ true
    → is_late (find_first (is_exam a.exam_id) db.exams) a now ≡ false
    → (r : Scored) × ((submit_answers env tenant_id student_id attempt_id answers now db).0 ≡ ok r)
unfolding submit_answers may_submit score_attempt may_score get_exam_questions enabled tenant_found
    after_checks checked ◌>>=◌ ◌>>◌ or_throw require refuse
submit_answers_accepted env tenant_id student_id attempt_id answers now db a on tenant found mine
      running in_time =
    let saved =
      find_first-update_where (is_attempt attempt_id) (is_attempt attempt_id)
        (λ x. record x { answers = answers }) db.attempts (λ x. refl) found
        (find_first-passes (is_attempt attempt_id) db.attempts found) in
    let given = record a { answers = answers } in
    (
      scored (given, score_of (save_answers attempt_id answers db) given),
      rw (on, tenant, found, mine, running, in_time, saved) refl,
    )
