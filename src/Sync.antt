-- ===== src/Sync.antt =====
-- Operations of clients that were offline (web-server/src/sync/sync.service.ts). The rows leave out
-- the times that no method reads; ids come from `randomToken` and are arguments. A field of the
-- payload is its text, or missing; the stored payload is the payload itself, not its JSON.
-- That an id which the client chose is in use already, so that the insertion fails on its primary
-- key, is left out.
pub mod Replay
mod Tests
use multi_academy_backend.Prelude.{
  ℕ, suc, zero, String, Bool, true, false, not, ◌&&◌, ◌||◌, Option, none, some, List, [], ◌∷◌, ◌++◌,
  ◌==◌, if◌then◌else◌, any, includes, update_where, truthy, or_null, or_default, is_blank,
}
use multi_academy_backend.Prelude.Int.{ℤ}
use multi_academy_backend.Http.{Action, Result, ok, conflict}
use multi_academy_backend.Http.Checked.{
  ◌>>◌, ◌>>=◌, require, or_throw, enabled, tenant_found, checked,
}
use multi_academy_backend.Tenant.{Environment}
use multi_academy_backend.Timetable.{Slot}
use Prim.Native.String

pub record Payload : Type 0 where
  pub id : Option String
  pub class_id : Option String
  pub subject_id : Option String
  pub term_id : Option String
  pub title : Option String
  pub content : Option String
  pub week_label : Option String
  pub teacher_id : Option String
  pub day_of_week : Option ℤ
  pub start_time : Option String
  pub end_time : Option String
  pub room : Option String

pub record SyncBody : Type 0 where
  pub operation_id : String
  pub entity : String
  pub action : String
  pub payload : Option Payload

-- A row of `sync_operations`.
pub record Operation : Type 0 where
  pub operation_id : String
  pub user_id : String
  pub entity : String
  pub action : String
  pub payload : Payload

-- A row of `academic_lesson_notes`.
pub record Note : Type 0 where
  pub id : String
  pub class_id : String
  pub subject_id : Option String
  pub term_id : Option String
  pub title : String
  pub content : String
  pub week_label : Option String
  pub created_by : String

pub record SyncDb : Type 0 where
  pub operations : List Operation
  pub notes : List Note
  pub slots : List Slot

pub data Status : Type 0 where
  already_applied : Status
  applied : String → Status

-- What `applySupported` writes, with the id that it answers.
pub data Change : Type 0 where
  note_created : Note → Change
  note_updated : String → Payload → Change
  slot_created : Slot → Change

abbrev pub has_payload : Option Payload → Bool
has_payload none = false
has_payload (some _) = true

-- `isSafeSyncOperation`.
abbrev pub is_safe_sync_operation : SyncBody → Bool
is_safe_sync_operation body =
    not (is_blank body.operation_id)
    && not (is_blank body.entity)
    && includes ("create" ∷ "update" ∷ []) body.action
    && has_payload body.payload

-- `s.slice(0, n)`.
abbrev pub slice : ℕ → String → String
slice zero s = ""
slice (suc n) String.[] = ""
slice (suc n) (String.◌∷◌ c s) = String.◌∷◌ c (slice n s)

abbrev pub text_of : Option String → String
text_of none = ""
text_of (some s) = s

abbrev pub note_of : String → String → Payload → Note
note_of fresh user_id p = record {
  id = or_default p.id fresh;
  class_id = text_of p.class_id;
  subject_id = or_null p.subject_id;
  term_id = or_null p.term_id;
  title = text_of p.title;
  content = text_of p.content;
  week_label = or_null p.week_label;
  created_by = user_id;
}

abbrev pub offline_slot : String → String → Payload → ℤ → Slot
offline_slot fresh user_id p day = record {
  id = or_default p.id fresh;
  class_id = text_of p.class_id;
  subject_id = or_null p.subject_id;
  teacher_id = some (or_default p.teacher_id user_id);
  day_of_week = day;
  start_time = text_of p.start_time;
  end_time = text_of p.end_time;
  room = or_null p.room;
}

-- `applySupported`, for a lesson note.
abbrev pub note_change : String → String → String → Payload → Option Change
note_change fresh user_id action p =
    if action == "create"
    then if truthy p.class_id && truthy p.title && truthy p.content
      then some (note_created (note_of fresh user_id p))
      else none
    else if truthy p.id && (truthy p.title || truthy p.content || truthy p.week_label)
    then some (note_updated (text_of p.id) p)
    else none

abbrev pub slot_on : String → String → Payload → Option ℤ → Option Change
slot_on fresh user_id p none = none
slot_on fresh user_id p (some day) =
    if truthy p.class_id && truthy p.start_time && truthy p.end_time
    then some (slot_created (offline_slot fresh user_id p day))
    else none

abbrev pub supported : String → String → String → String → Payload → Option Change
supported fresh user_id entity action p =
    if entity == "lesson_note"
    then note_change fresh user_id action p
    else if entity == "timetable_slot" && action == "create"
    then slot_on fresh user_id p p.day_of_week
    else none

unfoldable pub apply_supported :
    String → String → SyncBody → Option Payload → Option (Payload × Change)
apply_supported fresh user_id body none = none
apply_supported fresh user_id body (some p) =
    elim (supported fresh user_id body.entity body.action p) [ none ↦ none | some c ↦ some (p, c) ]

abbrev pub coalesce : Option String → Option String → Option String
coalesce none old = old
coalesce (some s) old = some s

abbrev pub rewrite : Payload → Note → Note
rewrite p n = record n {
  title = or_default p.title n.title;
  content = or_default p.content n.content;
  week_label = coalesce (or_null p.week_label) n.week_label;
}

abbrev pub is_note_of : String → String → Note → Bool
is_note_of id user_id n = n.id == id && n.created_by == user_id

abbrev pub change_rows : String → Change → SyncDb → SyncDb
change_rows user_id (note_created n) db = record db { notes = db.notes ++ n ∷ [] }
change_rows user_id (note_updated id p) db = record db {
  notes = update_where (is_note_of id user_id) (rewrite p) db.notes;
}
change_rows user_id (slot_created s) db = record db { slots = db.slots ++ s ∷ [] }

abbrev pub change_id : Change → String
change_id (note_created n) = n.id
change_id (note_updated id p) = id
change_id (slot_created s) = s.id

abbrev pub operation_of : String → SyncBody → Payload → Operation
operation_of user_id body p = record {
  operation_id = body.operation_id;
  user_id = user_id;
  entity = slice 128 body.entity;
  action = body.action;
  payload = p;
}

-- What is written: nothing, or the change and then the operation.
abbrev pub write_operation : String → SyncBody → Option (Payload × Change) → SyncDb → SyncDb
write_operation user_id body none db = db
write_operation user_id body (some (p, c)) db =
    let changed = change_rows user_id c db in
    record changed { operations = changed.operations ++ operation_of user_id body p ∷ [] }

abbrev pub status_of : Option (Payload × Change) → Status
status_of none = already_applied
status_of (some (p, c)) = applied (change_id c)

abbrev pub is_recorded : String → SyncDb → Bool
is_recorded operation_id db = any (λ o. o.operation_id == operation_id) db.operations

-- An operation that is recorded is not applied again.
unfoldable pub once : Bool → Option (Payload × Change) → Result (Option (Payload × Change))
once true change = ok none
once false change = do
  c ← or_throw change (conflict "Unsupported offline entity or invalid payload")
  ok (some c)

module _ (env : Environment) (tenant_id : String) where
  unfoldable pub may_apply :
      String → String → SyncBody → SyncDb → Result (Option (Payload × Change))
  may_apply user_id fresh body db = do
    enabled env tenant_id "comms.offline_sync"
    require (is_safe_sync_operation body) (conflict "Invalid offline operation")
    tenant_found env tenant_id
    once (is_recorded body.operation_id db) (apply_supported fresh user_id body body.payload)

  unfoldable pub apply : String → String → SyncBody → Action SyncDb Status
  apply user_id fresh body =
      checked (may_apply user_id fresh body) status_of (write_operation user_id body)
