-- ===== src/Timetable/Tests.antt =====
-- Runs of the timetable service on a small school.
use multi_academy_backend.Prelude.{String, ◌≡◌, refl, none, some, List, [], ◌∷◌, trim}
use multi_academy_backend.Prelude.Int.{pos}
use multi_academy_backend.Http.{ok, err, bad_request}
use multi_academy_backend.Http.Checked.{
  checked, after_checks, ◌>>=◌, ◌>>◌, require, refuse, or_throw, enabled, tenant_found,
}
use multi_academy_backend.Tenant.{array, open_school, get_user_roles}
use multi_academy_backend.Timetable.{
  TimetableDb, SlotBody, MoveBody, slot_of, create, may_create, reschedule, may_reschedule, manager,
  class_taken, teacher_taken, in_window, list, may_list, shown, is_related,
}
use multi_academy_backend.Timetable.Solver.{
  Move, Outcome, heuristic, may_suggest, suggest_swaps, may_apply, apply_swaps,
}
use multi_academy_backend.Timetable.Swaps.{accounted, apply_swaps-IsTimetable}
use multi_academy_backend.Timetable.Clashes.{IsTimetable, Served, Served-IsTimetable}

abbrev school : TimetableDb
school = record {
  users =
      record { id = "boss"; roles = array ("principal" ∷ []) }
      ∷ record { id = "mum"; roles = array ("parent" ∷ []) }
      ∷ [];
  links = record { parent_id = "mum"; student_id = "ada" } ∷ [];
  enrollments = record { student_id = "ada"; class_id = "c1" } ∷ [];
  slots = [];
}

abbrev lesson : String → String → String → SlotBody
lesson class_id start end = record {
  class_id = class_id;
  subject_id = none;
  teacher_id = some "t";
  day_of_week = pos 1;
  start_time = start;
  end_time = end;
  room = none;
}

abbrev first_lesson : SlotBody
first_lesson = lesson "c1" "08:00" "09:00"

abbrev next_lesson : SlotBody
next_lesson = lesson "c2" "09:00" "10:00"

abbrev after_one : TimetableDb
after_one = (create open_school "t1" "boss" "s1" first_lesson school).1

abbrev after_two : TimetableDb
after_two = (create open_school "t1" "boss" "s2" next_lesson after_one).1

abbrev earlier : MoveBody
earlier = record { day_of_week = pos 1; start_time = "08:30"; end_time = "09:30" }

create_run :
    (create open_school "t1" "boss" "s2" (lesson "c2" "08:30" "09:30") after_one).0
    ≡ err (bad_request "Timetable clash: teacher already assigned in this window")
unfolding create may_create manager class_taken teacher_taken in_window checked ◌>>=◌ ◌>>◌ require
    refuse or_throw enabled tenant_found get_user_roles
create_run = refl

reschedule_run :
    (reschedule open_school "t1" "boss" "s2" earlier after_two).0
    ≡ err (bad_request "Timetable clash: teacher already assigned in this window")
unfolding create may_create reschedule may_reschedule manager class_taken teacher_taken in_window
    checked ◌>>=◌ ◌>>◌ require refuse or_throw enabled tenant_found get_user_roles
reschedule_run = refl

list_run : list open_school "t1" "mum" none after_two ≡ ok (slot_of "s1" first_lesson ∷ [])
unfolding create may_create list may_list shown is_related manager class_taken teacher_taken
    in_window checked ◌>>=◌ ◌>>◌ require refuse or_throw enabled tenant_found get_user_roles
list_run = refl

Served-IsTimetable_example :
    IsTimetable (reschedule open_school "t1" "boss" "s1" earlier after_one).1
unfolding create may_create manager class_taken teacher_taken in_window checked ◌>>=◌ ◌>>◌ require
    refuse or_throw enabled tenant_found get_user_roles
Served-IsTimetable_example =
    Served-IsTimetable open_school "t1" {start = school} (tt, tt)
      (Served.rescheduled "boss" "s1" earlier
        (Served.created "boss" "s1" first_lesson Served.none_yet tt))

abbrev moves : List Move
moves =
    record {
      slot_id = some "s2";
      proposed_day = some (pos 1);
      proposed_start = some "08:30";
      proposed_end = some "09:30";
    }
    ∷ record {
      slot_id = some "s2";
      proposed_day = some (pos 2);
      proposed_start = some "08:30";
      proposed_end = some "09:30";
    }
    ∷ record { slot_id = none; proposed_day = none; proposed_start = none; proposed_end = none }
    ∷ []

after_two-IsTimetable : IsTimetable after_two
unfolding create may_create manager class_taken teacher_taken in_window checked ◌>>=◌ ◌>>◌ require
    refuse or_throw enabled tenant_found get_user_roles
after_two-IsTimetable =
    Served-IsTimetable open_school "t1" {start = school} (tt, tt)
      (Served.created "boss" "s2" next_lesson
        (Served.created "boss" "s1" first_lesson Served.none_yet tt) (refl, tt))

apply_swaps-IsTimetable_example :
    let (r, db') = apply_swaps open_school "t1" "boss" "c2" moves after_two in
    IsTimetable db' × ((o : Outcome) → r ≡ ok o → accounted o ≡ 3)
apply_swaps-IsTimetable_example =
    apply_swaps-IsTimetable open_school "t1" "boss" "c2" moves after_two after_two-IsTimetable

suggest_run : (suggest_swaps open_school "t1" (λ _ _. none) "c1" after_two).0 ≡ ok (heuristic [])
unfolding suggest_swaps may_suggest trim create may_create manager class_taken teacher_taken
    in_window checked after_checks ◌>>=◌ ◌>>◌ require refuse or_throw enabled tenant_found
    get_user_roles
suggest_run = refl

apply_run :
    (apply_swaps open_school "t1" "boss" "c2" moves after_two).0
    ≡ ok (record {
      applied = "s2" ∷ [];
      skipped = record { slot_id = "unknown"; reason = "slot_not_in_class" } ∷ [];
      failed =
          record {
            slot_id = "s2";
            reason = "Timetable clash: teacher already assigned in this window";
          }
          ∷ [];
    })
unfolding apply_swaps may_apply reschedule may_reschedule trim create may_create manager class_taken
    teacher_taken in_window checked after_checks ◌>>=◌ ◌>>◌ require refuse or_throw enabled
    tenant_found get_user_roles
apply_run = refl
