-- ===== src/Timetable.antt =====
-- The timetable of a school (web-server/src/timetable/timetable.service.ts). The rows leave out
-- `created_at`, which no method reads; ids come from `randomToken` and are arguments.
pub mod Overlap
pub mod Clashes
pub mod Solver
pub mod Swaps
mod Tests
use multi_academy_backend.Prelude.{
  String, Bool, true, false, not, ◌&&◌, ◌||◌, Option, none, some, List, [], ◌∷◌, ◌++◌, ◌==◌, eqb,
  if◌then◌else◌, any, includes, find_first, filter_by, update_where, sort_by, take, truthy, or_null,
  text_lt, text_le,
}
use multi_academy_backend.Prelude.Int.{ℤ, pos, pos_part, neg_part, ltb_ℤ}
use multi_academy_backend.Http.{Action, Result, ok, bad_request, not_found}
use multi_academy_backend.Http.Checked.{
  ◌>>=◌, ◌>>◌, require, refuse, or_throw, enabled, tenant_found, checked,
}
use multi_academy_backend.Tenant.{Environment, User, ParentLink, get_user_roles, has_any_role}

pub record Slot : Type 0 where
  pub id : String
  pub class_id : String
  pub subject_id : Option String
  pub teacher_id : Option String
  pub day_of_week : ℤ
  pub start_time : String
  pub end_time : String
  pub room : Option String

-- A row of `student_class_enrollments`.
pub record Enrollment : Type 0 where
  pub student_id : String
  pub class_id : String

pub record TimetableDb : Type 0 where
  pub users : List User
  pub links : List ParentLink
  pub enrollments : List Enrollment
  pub slots : List Slot

pub record SlotBody : Type 0 where
  pub class_id : String
  pub subject_id : Option String
  pub teacher_id : Option String
  pub day_of_week : ℤ
  pub start_time : String
  pub end_time : String
  pub room : Option String

pub record MoveBody : Type 0 where
  pub day_of_week : ℤ
  pub start_time : String
  pub end_time : String

abbrev pub manager_roles : List String
manager_roles =
    "director" ∷ "school_admin" ∷ "it_admin" ∷ "principal" ∷ "head_teacher" ∷ "administrative_staff"
    ∷ []

abbrev pub viewer_roles : List String
viewer_roles =
    "director" ∷ "school_admin" ∷ "it_admin" ∷ "principal" ∷ "head_teacher" ∷ "administrative_staff"
    ∷ "class_teacher" ∷ "subject_teacher" ∷ "parent" ∷ "student" ∷ []

-- `day_of_week = ?`.
abbrev pub same_day : ℤ → ℤ → Bool
same_day a b = eqb (pos_part a) (pos_part b) && eqb (neg_part a) (neg_part b)

abbrev pub no_weekday : ℤ → Bool
no_weekday d = ltb_ℤ d (pos 0) || ltb_ℤ (pos 6) d

abbrev pub bad_times : String → String → Bool
bad_times start end = start == "" || end == "" || text_le end start

-- `day_of_week = ? AND start_time < ? AND end_time > ?`.
unfoldable pub in_window : ℤ → String → String → Slot → Bool
in_window day start end s =
    same_day s.day_of_week day && text_lt s.start_time end && text_lt start s.end_time

-- `classClash`, over the rows that the query admits.
unfoldable pub class_taken : (Slot → Bool) → List Slot → String → ℤ → String → String → Bool
class_taken admits slots class_id day start end =
    any (λ s. s.class_id == class_id && admits s && in_window day start end s) slots

-- `teacher_id = ?`: NULL is nobody's.
abbrev pub teaches : Option String → String → Bool
teaches none t = false
teaches (some u) t = u == t

-- `teacherClash`, asked only where there is a teacher.
unfoldable pub teacher_taken :
    (Slot → Bool) → List Slot → Option String → ℤ → String → String → Bool
teacher_taken admits slots none day start end = false
teacher_taken admits slots (some t) day start end =
    not (t == "")
    && any (λ s. teaches s.teacher_id t && admits s && in_window day start end s) slots

abbrev pub is_slot : String → Slot → Bool
is_slot id s = s.id == id

abbrev pub slot_of : String → SlotBody → Slot
slot_of id body = record {
  id = id;
  class_id = body.class_id;
  subject_id = or_null body.subject_id;
  teacher_id = or_null body.teacher_id;
  day_of_week = body.day_of_week;
  start_time = body.start_time;
  end_time = body.end_time;
  room = or_null body.room;
}

abbrev pub move_slot : MoveBody → Slot → Slot
move_slot body s = record s {
  day_of_week = body.day_of_week;
  start_time = body.start_time;
  end_time = body.end_time;
}

abbrev pub add_slot : String → SlotBody → Unit {0} → TimetableDb → TimetableDb
add_slot id body _ db = record db { slots = db.slots ++ slot_of id body ∷ [] }

abbrev pub set_slot : String → MoveBody → Slot → TimetableDb → TimetableDb
set_slot slot_id body _ db = record db {
  slots = update_where (is_slot slot_id) (move_slot body) db.slots;
}

abbrev pub drop_slot : String → Unit {0} → TimetableDb → TimetableDb
drop_slot id _ db = record db { slots = filter_by (λ s. not (is_slot id s)) db.slots }

-- The classes of a student, and of a parent's children.
abbrev pub attends : TimetableDb → String → String → Bool
attends db student class_id =
    any (λ e. e.student_id == student && e.class_id == class_id) db.enrollments

abbrev pub has_child_in : TimetableDb → String → String → Bool
has_child_in db parent class_id =
    any (λ l. l.parent_id == parent && attends db l.student_id class_id) db.links

-- `relationship`: which slots the actor may see.
unfoldable pub is_related : TimetableDb → List String → String → Slot → Bool
is_related db roles actor s =
    if includes roles "parent"
    then has_child_in db actor s.class_id
    else if includes roles "student"
    then attends db actor s.class_id
    else if includes roles "subject_teacher" || includes roles "class_teacher"
    then teaches s.teacher_id actor
    else true

-- `ORDER BY day_of_week, start_time`.
abbrev pub before : Slot → Slot → Bool
before a b =
    if same_day a.day_of_week b.day_of_week
    then text_le a.start_time b.start_time
    else ltb_ℤ a.day_of_week b.day_of_week

-- The query with a class, and the one without, which ends after 500 rows.
unfoldable pub shown : TimetableDb → List String → String → Option String → List Slot
shown db roles actor none =
    take 500 (sort_by before (filter_by (is_related db roles actor) db.slots))
shown db roles actor (some class_id) =
    if class_id == ""
    then take 500 (sort_by before (filter_by (is_related db roles actor) db.slots))
    else sort_by before
        (filter_by (λ s. s.class_id == class_id && is_related db roles actor s) db.slots)

module _ (env : Environment) (tenant_id : String) where
  -- `assertManager`.
  unfoldable pub manager : TimetableDb → String → Result (Unit {0})
  manager db actor =
      require (has_any_role (get_user_roles env db.users actor) manager_roles)
        (not_found "Timetable management is restricted")

  unfoldable pub may_list : String → TimetableDb → Result (List String)
  may_list actor db = do
    enabled env tenant_id "academic.timetable"
    tenant_found env tenant_id
    require (has_any_role (get_user_roles env db.users actor) viewer_roles)
        (not_found "Timetable access is restricted")
    ok (get_user_roles env db.users actor)

  -- `list`.
  unfoldable pub list : String → Option String → TimetableDb → Result (List Slot)
  list actor class_id db = do roles ← may_list actor db; ok (shown db roles actor class_id)

  unfoldable pub may_create : String → SlotBody → TimetableDb → Result (Unit {0})
  may_create actor body db = do
    enabled env tenant_id "academic.timetable"
    refuse (no_weekday body.day_of_week) (bad_request "dayOfWeek must be 0–6")
    tenant_found env tenant_id
    manager db actor
    refuse (body.class_id == "" || bad_times body.start_time body.end_time)
        (bad_request "Timetable slot values are invalid")
    refuse
        (class_taken (λ _. true) db.slots body.class_id body.day_of_week body.start_time
          body.end_time)
        (bad_request "Timetable clash: class already has a slot in this window")
    refuse
        (teacher_taken (λ _. true) db.slots body.teacher_id body.day_of_week body.start_time
          body.end_time)
        (bad_request "Timetable clash: teacher already assigned in this window")
    ok tt

  unfoldable pub create : String → String → SlotBody → Action TimetableDb String
  create actor id body = checked (may_create actor body) (λ _. id) (add_slot id body)

  unfoldable pub may_reschedule : String → String → MoveBody → TimetableDb → Result Slot
  may_reschedule actor slot_id body db = do
    enabled env tenant_id "academic.timetable"
    refuse (no_weekday body.day_of_week) (bad_request "dayOfWeek must be 0–6")
    refuse (bad_times body.start_time body.end_time)
        (bad_request "Timetable slot times are invalid")
    tenant_found env tenant_id
    manager db actor
    slot ← or_throw (find_first (is_slot slot_id) db.slots) (not_found "Timetable slot not found")
    refuse
        (class_taken (λ s. not (is_slot slot_id s)) db.slots slot.class_id body.day_of_week
          body.start_time body.end_time)
        (bad_request "Timetable clash: class already has a slot in this window")
    refuse
        (teacher_taken (λ s. not (is_slot slot_id s)) db.slots slot.teacher_id body.day_of_week
          body.start_time body.end_time)
        (bad_request "Timetable clash: teacher already assigned in this window")
    ok slot

  -- The answer is the moved slot's id, class and times.
  unfoldable pub reschedule : String → String → MoveBody → Action TimetableDb Slot
  reschedule actor slot_id body =
      checked (may_reschedule actor slot_id body) (move_slot body) (set_slot slot_id body)

  unfoldable pub may_remove : String → TimetableDb → Result (Unit {0})
  may_remove actor db = do
    enabled env tenant_id "academic.timetable"
    tenant_found env tenant_id
    manager db actor
    ok tt

  unfoldable pub remove : String → String → Action TimetableDb String
  remove actor id = checked (may_remove actor) (λ _. id) (drop_slot id)
