-- ===== src/Timetable/Swaps.antt =====
-- The solver on the timetable that the service keeps (`suggestSwaps` and `applySwaps` of
-- web-server/src/ai/timetable-solver.service.ts).
use multi_academy_backend.Prelude.{
  ℕ, ◌+◌, String, ◌≡◌, refl, inl, inr, Bool, true, false, not, ◌&&◌, ◌||◌, Option, none, some, List,
  [], ◌∷◌, ◌==◌, arith, length, length-append, Bool-cases, eq_iff, eq_refl, All, All-mono,
  All-filter_by, All-sort_by, map, sort_by, text_lt,
}
use multi_academy_backend.Prelude.Pairwise.{Pairwise, Pairwise-square, All-take, filter_by-none}
use multi_academy_backend.Http.{Result, ok, err}
use multi_academy_backend.Http.Checked.{after_checks-cases, returned}
use multi_academy_backend.Tenant.{Environment}
use multi_academy_backend.Timetable.{Slot, TimetableDb, MoveBody, same_day, teaches, before}
use multi_academy_backend.Timetable.Overlap.{Apart, Apart-symm, same_teacher}
use multi_academy_backend.Timetable.Clashes.{IsTimetable, reschedule-IsTimetable}
use multi_academy_backend.Timetable.Solver.{
  Move, Outcome, heuristic, class_slots, all_slots, clashes_with, clashes_of, heuristic_swaps,
  swaps, note_move, make_move, take_move, make_moves, slot_in, period, apply_swaps, suggest_swaps,
  skip, message_of, none_made, may_apply, may_suggest, Swaps,
}

-- No clash of one slot with another, as the heuristic looks for it.
abbrev Quiet : Slot → Slot → Type 0
Quiet s other =
    (t : String) → s.teacher_id ≡ some t → (t == "") ≡ false → clashes_with s t other ≡ false

Quiet-same : (s : Slot) → Quiet s s
Quiet-same s t e named = rw (eq_refl s.id) refl

same_named :
    (u : Option String) (t : String)
    → teaches u t ≡ true
    → (t == "") ≡ false
    → same_teacher u (some t) ≡ true
same_named none t h named = cc
same_named (some u) t h named = ground (arith, eq_iff u t, eq_iff u "", eq_iff t "")

Quiet-Apart : (a b : Slot) → Apart b a → Quiet a b
Quiet-Apart a b (_, apart) t e named = elim (Bool-cases (teaches b.teacher_id t)) [
  | inl hit ↦
      let taught = rw (e, same_named b.teacher_id t hit named) at apart in
      rw hit (
        there (b.class_id == a.class_id) (same_day b.day_of_week a.day_of_week)
          (text_lt b.start_time a.end_time) (text_lt a.start_time b.end_time) (not (b.id == a.id))
          taught)
  | inr miss ↦ rw miss (
      nowhere (same_day b.day_of_week a.day_of_week) (text_lt b.start_time a.end_time)
        (text_lt a.start_time b.end_time) (not (b.id == a.id)))
]
  where
    there :
        (c d p q i : Bool)
        → ((c || true) && d && p && q) ≡ false
        → (i && true && d && p && q) ≡ false
    there c d p q i h = ground arith

    nowhere : (d p q i : Bool) → (i && false && d && p && q) ≡ false
    nowhere d p q i = ground arith

Quiet-timetable : (slots : List Slot) → Pairwise Apart slots → All (λ s. All (Quiet s) slots) slots
Quiet-timetable slots h =
    Pairwise-square Apart Quiet slots Quiet-same (λ a b r. Quiet-Apart a b (Apart-symm a b r))
      (λ a b r. Quiet-Apart b a r) h

clashes_of-none :
    (slots : List Slot) (s : Slot) (t : Option String)
    → s.teacher_id ≡ t
    → All (Quiet s) slots
    → clashes_of slots s t ≡ []
clashes_of-none slots s none e h = refl
clashes_of-none slots s (some t) e h = elim (Bool-cases (t == "")) [
  | inl unnamed ↦ rw unnamed refl
  | inr named ↦ rw named (
      filter_by-none (clashes_with s t) slots
        (All-mono (Quiet s) _ slots (λ other q. q t e named) h))
]

heuristic_swaps-none :
    (rest slots : List Slot) → All (λ s. All (Quiet s) slots) rest → heuristic_swaps rest slots ≡ []
heuristic_swaps-none [] slots h = refl
heuristic_swaps-none (s ∷ rest) slots (q, h) =
    rw (clashes_of-none slots s s.teacher_id refl q, heuristic_swaps-none rest slots h) refl

swaps_quiet :
    (db : TimetableDb) (class_id : String)
    → IsTimetable db
    → heuristic_swaps (class_slots db class_id) (all_slots db) ≡ []
swaps_quiet db class_id (apart, _) = heuristic_swaps-none (class_slots db class_id) (all_slots db) (
    All-sort_by _ before _ (
      All-filter_by _ (λ s. s.class_id == class_id) db.slots
        (All-mono _ (λ s. All (Quiet s) (all_slots db)) db.slots
          (λ s h.
            All-take _ 2000 (sort_by before db.slots) (All-sort_by (Quiet s) before db.slots h))
          (Quiet-timetable db.slots apart))))

-- On a timetable that the timetable service keeps, the suggestions for any class are empty where the AI
-- service gives no answer.
pub suggest_swaps_quiet :
    (env : Environment) (tenant_id class_id : String) (db : TimetableDb) {r : Swaps}
    → IsTimetable db
    → (suggest_swaps env tenant_id (λ _ _. none) class_id db).0 ≡ ok r
    → r ≡ heuristic []
unfolding suggest_swaps
suggest_swaps_quiet env tenant_id class_id db {r} h answered =
    elim (after_checks-cases (may_suggest env tenant_id class_id)
      (λ _ s. (ok (swaps env tenant_id none s class_id), s)) db) [
        | inl (fails, _) ↦ absurd (rw answered at fails)
        | inr (_, _, run) ↦
            let same = returned (rw run at answered) in rw (← same, swaps_quiet db class_id h) refl
      ]

-- How many moves an outcome accounts for.
abbrev pub accounted : Outcome → ℕ
accounted o = length o.applied + length o.skipped + length o.failed

accounted-note_move :
    (slot_id : String) (r : Result Slot) (o : Outcome)
    → accounted (note_move slot_id r o) ≡ accounted o + 1
accounted-note_move slot_id (ok s) o = omega (arith, length-append o.applied (slot_id ∷ []))
accounted-note_move slot_id (err e) o =
    omega (arith, length-append o.failed (record { slot_id = slot_id; reason = message_of e } ∷ []))

accounted-skip :
    (slot_id reason : String) (o : Outcome) → accounted (skip slot_id reason o) ≡ accounted o + 1
accounted-skip slot_id reason o =
    omega (arith, length-append o.skipped (record { slot_id = slot_id; reason = reason } ∷ []))

module _ (env : Environment) (tenant_id : String) (actor : String) where
  -- A turn of the loop accounts for one move and keeps the timetable.
  take_move-IsTimetable :
      (m : Move) (slot_id : Option String) (o : Outcome) (db : TimetableDb)
      → IsTimetable db
      → let (o', db') = take_move env tenant_id actor m slot_id o db in
        (accounted o' ≡ accounted o + 1) × IsTimetable db'
  take_move-IsTimetable m none o db h = (accounted-skip _ _ o, h)
  take_move-IsTimetable m (some slot_id) o db h =
      made (period m.proposed_day m.proposed_start m.proposed_end)
    where
      made :
          (body : Option MoveBody)
          → let (o', db') = make_move env tenant_id actor slot_id body o db in
            (accounted o' ≡ accounted o + 1) × IsTimetable db'
      made none = (accounted-skip slot_id _ o, h)
      made (some body) = (
        accounted-note_move slot_id _ o,
        reschedule-IsTimetable env tenant_id actor slot_id body db h,
      )

  make_moves-IsTimetable :
      (ids : List String) (moves : List Move) (o : Outcome) (db : TimetableDb)
      → IsTimetable db
      → let (o', db') = make_moves env tenant_id actor ids moves o db in
        (accounted o' ≡ accounted o + length moves) × IsTimetable db'
  make_moves-IsTimetable ids [] o db h = (omega arith, h)
  make_moves-IsTimetable ids (m ∷ moves) o db h =
      let (one, kept) = take_move-IsTimetable m (slot_in ids m.slot_id) o db h in
      let (rest, still) = make_moves-IsTimetable ids moves _ _ kept in
      (omega (arith, one, rest), still)

  -- Whatever moves are asked for, of a timetable that the timetable service keeps, the timetable that
  -- is left has no clash either, and each move is applied, skipped or failed.
  pub apply_swaps-IsTimetable :
      (class_id : String) (moves : List Move) (db : TimetableDb)
      → IsTimetable db
      → let (r, db') = apply_swaps env tenant_id actor class_id moves db in
        IsTimetable db' × ((o : Outcome) → r ≡ ok o → accounted o ≡ length moves)
  unfolding apply_swaps
  apply_swaps-IsTimetable class_id moves db h =
      elim (after_checks-cases (may_apply env tenant_id class_id moves)
        (λ _ s.
          let (o, s') =
            make_moves env tenant_id actor (map (λ s. s.id) (class_slots s class_id)) moves
              none_made s in
          (ok o, s'))
        db) [
          | inl (fails, same) ↦ (rw same h, λ o e. absurd (rw e at fails))
          | inr (_, _, run) ↦
              let (count, kept) =
                make_moves-IsTimetable (map (λ s. s.id) (class_slots db class_id)) moves none_made
                  db h in
              (rw run kept, λ o e. rw (← returned (rw run at e)) (omega (arith, count)))
        ]
