-- ===== src/Sync/Tests.antt =====
-- Runs of the synchronisation.
use multi_academy_backend.Prelude.{◌≡◌, refl, none, some, [], trim}
use multi_academy_backend.Prelude.Int.{pos}
use multi_academy_backend.Http.{ok, err, conflict}
use multi_academy_backend.Http.Checked.{
  checked, ◌>>=◌, ◌>>◌, require, or_throw, enabled, tenant_found,
}
use multi_academy_backend.Tenant.{open_school}
use multi_academy_backend.Sync.{
  SyncDb, SyncBody, Payload, applied, already_applied, apply, may_apply, once, apply_supported,
}
use multi_academy_backend.Sync.Replay.{apply_again, Later}

abbrev empty : SyncDb
empty = record { operations = []; notes = []; slots = [] }

abbrev monday : Payload
monday = record {
  id = none;
  class_id = some "c1";
  subject_id = none;
  term_id = none;
  title = none;
  content = none;
  week_label = none;
  teacher_id = none;
  day_of_week = some (pos 1);
  start_time = some "08:00";
  end_time = some "09:00";
  room = none;
}

abbrev slot_body : SyncBody
slot_body = record {
  operation_id = "op1";
  entity = "timetable_slot";
  action = "create";
  payload = some monday;
}

abbrev other_body : SyncBody
other_body = record slot_body { operation_id = "op2" }

abbrev note_body : SyncBody
note_body = record slot_body { entity = "lesson_note" }

abbrev after_one : SyncDb
after_one = (apply open_school "t1" "u1" "n1" slot_body empty).1

abbrev after_two : SyncDb
after_two = (apply open_school "t1" "u2" "n2" other_body after_one).1

apply_run : (apply open_school "t1" "u1" "n1" slot_body empty).0 ≡ ok (applied "n1")
unfolding apply may_apply once apply_supported checked ◌>>=◌ ◌>>◌ require or_throw enabled
    tenant_found trim
apply_run = refl

-- A second slot of the same class and time is taken as well.
clash_run : (apply open_school "t1" "u2" "n2" other_body after_one).0 ≡ ok (applied "n2")
unfolding apply may_apply once apply_supported checked ◌>>=◌ ◌>>◌ require or_throw enabled
    tenant_found trim
clash_run = refl

again_run : (apply open_school "t1" "u1" "n3" note_body after_two).0 ≡ ok already_applied
unfolding apply may_apply once apply_supported checked ◌>>=◌ ◌>>◌ require or_throw enabled
    tenant_found trim
again_run = refl

note_run :
    (apply open_school "t1" "u1" "n1" note_body empty).0
    ≡ err (conflict "Unsupported offline entity or invalid payload")
unfolding apply may_apply once apply_supported checked ◌>>=◌ ◌>>◌ require or_throw enabled
    tenant_found trim
note_run = refl

apply_again_example : (apply open_school "t1" "u1" "n3" note_body after_two).1 ≡ after_two
apply_again_example =
    apply_again open_school "t1" "u1" "u1" "n1" "n3" slot_body note_body empty after_two apply_run
      (Later.after "u2" "n2" other_body Later.at_once) refl
