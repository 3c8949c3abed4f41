-- ===== src/Timetable/Clashes.antt =====
-- Clashes of the timetable's slots
-- (`create`, `reschedule` and `remove` of web-server/src/timetable/timetable.service.ts).
use multi_academy_backend.Prelude.{
  String, ◌≡◌, refl, true, false, not, ◌||◌, some, ◌==◌, arith, find_first, find_first-passes, All,
  All-mono, All-append, All-filter_by, eq_iff, text_le, or_null,
}
use multi_academy_backend.Prelude.Pairwise.{
  Pairwise, All-both, All-always, Pairwise-append, Pairwise-filter_by, Pairwise-update,
  All-update_where,
}
use multi_academy_backend.Prelude.Int.{ℤ}
use multi_academy_backend.Http.{ok}
use multi_academy_backend.Http.Checked.{checked-state, refused, thrown, passed, returned}
use multi_academy_backend.Tenant.{Environment}
use multi_academy_backend.Timetable.{
  Slot, TimetableDb, SlotBody, MoveBody, no_weekday, bad_times, is_slot, slot_of, move_slot,
  may_create, create, may_reschedule, reschedule, remove,
}
use multi_academy_backend.Timetable.Overlap.{
  Apart, Apart-symm, one_slot, class_apart, teacher_apart, stored, no_clash,
}

create-Apart :
    (env : Environment) (tenant_id actor id : String) (body : SlotBody) (db : TimetableDb)
    → All (λ s. is_slot id s ≡ false) db.slots
    → may_create env tenant_id actor body db ≡ ok tt
    → All (λ s. Apart s (slot_of id body)) db.slots
unfolding may_create
create-Apart env tenant_id actor id body db fresh h =
    let (_, h1) = passed _ _ h in
    let (_, h2) = refused _ _ _ h1 in
    let (_, h3) = passed _ _ h2 in
    let (_, h4) = passed _ _ h3 in
    let (_, h5) = refused _ _ _ h4 in
    let (no_class, h6) = refused _ _ _ h5 in
    let (no_teacher, _) = refused _ _ _ h6 in
    let new = slot_of id body in
    let classes = class_apart _ db.slots _ _ _ _ no_class in
    let teachers =
      teacher_apart _ db.slots (or_null body.teacher_id) _ _ _
        (stored (λ _. true) db.slots body.teacher_id _ _ _ no_teacher) in
    All-mono _ _ db.slots (λ s (other, (c, t)). (other, no_clash (λ _. true) s new refl c t))
      (All-both _ _ db.slots fresh (All-both _ _ db.slots classes teachers))

elsewhere : (k i j : String) → (j == k) ≡ true → (i == k) ≡ false → (i == j) ≡ false
elsewhere k i j e f = ground (arith, eq_iff j k, eq_iff i k, eq_iff i j)

reschedule-Apart :
    (env : Environment) (tenant_id actor slot_id : String) (body : MoveBody) (db : TimetableDb)
    (slot : Slot)
    → may_reschedule env tenant_id actor slot_id body db ≡ ok slot
    → (find_first (is_slot slot_id) db.slots ≡ some slot)
      × All (λ s. is_slot slot_id s ≡ false → Apart s (move_slot body slot)) db.slots
unfolding may_reschedule
reschedule-Apart env tenant_id actor slot_id body db slot h =
    let (_, h1) = passed _ _ h in
    let (_, h2) = refused _ _ _ h1 in
    let (_, h3) = refused _ _ _ h2 in
    let (_, h4) = passed _ _ h3 in
    let (_, h5) = passed _ _ h4 in
    let (found, is_found, h6) = thrown _ _ _ h5 in
    let (no_class, h7) = refused _ _ _ h6 in
    let (no_teacher, h8) = refused _ _ _ h7 in
    let same : found ≡ slot = returned h8 in
    let classes = class_apart _ db.slots _ _ _ _ no_class in
    let teachers = teacher_apart _ db.slots found.teacher_id _ _ _ no_teacher in
    (
      rw same at is_found,
      rw (← same) (
          All-mono _ _ db.slots
            (λ s (c, t) other. (
              elsewhere slot_id s.id found.id
                  (find_first-passes (is_slot slot_id) db.slots is_found) other,
              no_clash (λ s. not (is_slot slot_id s)) s (move_slot body found) (rw other refl) c t,
            ))
            (All-both _ _ db.slots classes teachers)),
    )

-- A slot of a weekday whose end is after its start, as texts.
abbrev pub IsTimed : Slot → Type 0
IsTimed s = (no_weekday s.day_of_week ≡ false) × (text_le s.end_time s.start_time ≡ false)

abbrev pub IsTimetable : TimetableDb → Type 0
IsTimetable db = Pairwise Apart db.slots × All IsTimed db.slots

timed : (d : ℤ) (start end : String) → bad_times start end ≡ false → text_le end start ≡ false
timed d start end h = ground arith

timed_body :
    (d : ℤ) (c start end : String)
    → (c == "" || bad_times start end) ≡ false
    → text_le end start ≡ false
timed_body d c start end h = ground arith

create-IsTimed :
    (env : Environment) (tenant_id actor id : String) (body : SlotBody) (db : TimetableDb)
    → may_create env tenant_id actor body db ≡ ok tt
    → IsTimed (slot_of id body)
unfolding may_create
create-IsTimed env tenant_id actor id body db h =
    let (_, h1) = passed _ _ h in
    let (day, h2) = refused _ _ _ h1 in
    let (_, h3) = passed _ _ h2 in
    let (_, h4) = passed _ _ h3 in
    let (times, _) = refused _ _ _ h4 in
    (day, timed_body body.day_of_week body.class_id body.start_time body.end_time times)

reschedule-IsTimed :
    (env : Environment) (tenant_id actor slot_id : String) (body : MoveBody) (db : TimetableDb)
    (slot : Slot)
    → may_reschedule env tenant_id actor slot_id body db ≡ ok slot
    → (s : Slot) → IsTimed (move_slot body s)
unfolding may_reschedule
reschedule-IsTimed env tenant_id actor slot_id body db slot h s =
    let (_, h1) = passed _ _ h in
    let (day, h2) = refused _ _ _ h1 in
    let (times, _) = refused _ _ _ h2 in
    (day, timed body.day_of_week body.start_time body.end_time times)

module _ (env : Environment) (tenant_id : String) where
  create-IsTimetable :
      (actor id : String) (body : SlotBody) (db : TimetableDb)
      → All (λ s. is_slot id s ≡ false) db.slots
      → IsTimetable db
      → IsTimetable (create env tenant_id actor id body db).1
  unfolding create
  create-IsTimetable actor id body db fresh (apart, times) =
      checked-state IsTimetable _ _ _ db (apart, times)
        λ _ passes. (
          Pairwise-append Apart db.slots (slot_of id body) apart
              (create-Apart env tenant_id actor id body db fresh passes),
          All-append IsTimed db.slots _ times
              (create-IsTimed env tenant_id actor id body db passes, tt),
        )

  pub reschedule-IsTimetable :
      (actor slot_id : String) (body : MoveBody) (db : TimetableDb)
      → IsTimetable db
      → IsTimetable (reschedule env tenant_id actor slot_id body db).1
  unfolding reschedule
  reschedule-IsTimetable actor slot_id body db (apart, times) =
      checked-state IsTimetable _ _ _ db (apart, times)
        λ slot passes.
          let (found, fits) = reschedule-Apart env tenant_id actor slot_id body db slot passes in
          (
            Pairwise-update Apart (is_slot slot_id) (one_slot slot_id) Apart-symm (move_slot body)
                db.slots apart found fits,
            All-update_where IsTimed (is_slot slot_id) (move_slot body) db.slots times (
                All-always _ db.slots
                  λ s _. reschedule-IsTimed env tenant_id actor slot_id body db slot passes s),
          )

  remove-IsTimetable :
      (actor id : String) (db : TimetableDb)
      → IsTimetable db
      → IsTimetable (remove env tenant_id actor id db).1
  unfolding remove
  remove-IsTimetable actor id db (apart, times) =
      checked-state IsTimetable _ _ _ db (apart, times)
        λ _ _. (Pairwise-filter_by Apart _ db.slots apart, All-filter_by IsTimed _ db.slots times)

  -- The requests that write, one after another; a new id is used by no earlier row.
  pub data Served (start : TimetableDb) : TimetableDb → Type 0 where
    none_yet : Served start start
    created :
        {db : TimetableDb} (actor id : String) (body : SlotBody)
        → Served start db
        → All (λ s. is_slot id s ≡ false) db.slots
        → Served start (create env tenant_id actor id body db).1
    rescheduled :
        {db : TimetableDb} (actor slot_id : String) (body : MoveBody)
        → Served start db
        → Served start (reschedule env tenant_id actor slot_id body db).1
    removed :
        {db : TimetableDb} (actor id : String)
        → Served start db
        → Served start (remove env tenant_id actor id db).1

  -- Whatever requests were served since a timetable of this kind, when a new id is used by no earlier
  -- row: each slot is on a weekday, ids are unique, and with the times compared as texts, as the
  -- service compares them and whatever times they denote, each end is after its start, and no class
  -- and no named teacher has two slots of one day that overlap.
  pub Served-IsTimetable :
      {start db : TimetableDb} → IsTimetable start → Served start db → IsTimetable db
  Served-IsTimetable h none_yet = h
  Served-IsTimetable h (created {db} actor id body r fresh) =
      create-IsTimetable actor id body db fresh (Served-IsTimetable h r)
  Served-IsTimetable h (rescheduled {db} actor slot_id body r) =
      reschedule-IsTimetable actor slot_id body db (Served-IsTimetable h r)
  Served-IsTimetable h (removed {db} actor id r) =
      remove-IsTimetable actor id db (Served-IsTimetable h r)
