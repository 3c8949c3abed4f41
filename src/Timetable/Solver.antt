-- ===== src/Timetable/Solver.antt =====
-- Suggestions of the timetable solver and the moves it applies
-- (web-server/src/ai/timetable-solver.service.ts). The AI service is a parameter: its answer, or
-- none where it is off or fails. The texts of suggestions are left out.
use multi_academy_backend.Prelude.{
  ℕ, String, Bool, true, false, not, ◌&&◌, ◌||◌, Option, none, some, List, [], ◌∷◌, ◌++◌, ◌==◌,
  if◌then◌else◌, includes, filter_by, sort_by, take, map, length, is_blank, text_lt,
}
use multi_academy_backend.Prelude.Int.{ℤ}
use multi_academy_backend.Http.{
  Action, Result, ok, err, HttpError, bad_request, not_found, forbidden, unauthorized, conflict,
}
use multi_academy_backend.Http.Checked.{◌>>◌, refuse, enabled, tenant_found, after_checks}
use multi_academy_backend.Tenant.{Environment}
use multi_academy_backend.Timetable.{
  Slot, TimetableDb, MoveBody, no_weekday, same_day, teaches, before, reschedule,
}

pub record Suggestion : Type 0 where
  pub slot_id : String
  pub clash_count : ℕ
  pub current_day : ℤ
  pub current_start : String
  pub current_end : String

pub data Swaps : Type 0 where
  solved : String → Swaps
  heuristic : List Suggestion → Swaps

pub record Move : Type 0 where
  pub slot_id : Option String
  pub proposed_day : Option ℤ
  pub proposed_start : Option String
  pub proposed_end : Option String

-- A move that was not made, with the reason.
pub record Refusal : Type 0 where
  pub slot_id : String
  pub reason : String

pub record Outcome : Type 0 where
  pub applied : List String
  pub skipped : List Refusal
  pub failed : List Refusal

-- `loadSlots`, for a class and for all.
abbrev pub class_slots : TimetableDb → String → List Slot
class_slots db class_id = sort_by before (filter_by (λ s. s.class_id == class_id) db.slots)

abbrev pub all_slots : TimetableDb → List Slot
all_slots db = take 2000 (sort_by before db.slots)

abbrev pub clashes_with : Slot → String → Slot → Bool
clashes_with s t other =
    not (other.id == s.id)
    && teaches other.teacher_id t
    && same_day other.day_of_week s.day_of_week
    && text_lt other.start_time s.end_time
    && text_lt s.start_time other.end_time

-- `!slot.teacherId` leaves a slot out.
abbrev pub clashes_of : List Slot → Slot → Option String → List Slot
clashes_of slots s none = []
clashes_of slots s (some t) = if t == "" then [] else filter_by (clashes_with s t) slots

abbrev pub suggestion : Slot → ℕ → Suggestion
suggestion s n = record {
  slot_id = s.id;
  clash_count = n;
  current_day = s.day_of_week;
  current_start = s.start_time;
  current_end = s.end_time;
}

abbrev pub suggest_if : Slot → List Slot → List Suggestion → List Suggestion
suggest_if s [] rest = rest
suggest_if s (c ∷ cs) rest = suggestion s (length (c ∷ cs)) ∷ rest

abbrev pub heuristic_swaps : List Slot → List Slot → List Suggestion
heuristic_swaps [] slots = []
heuristic_swaps (s ∷ rest) slots =
    suggest_if s (clashes_of slots s s.teacher_id) (heuristic_swaps rest slots)

abbrev pub message_of : HttpError → String
message_of (bad_request m) = m
message_of (not_found m) = m
message_of (forbidden m) = m
message_of (unauthorized m) = m
message_of (conflict m) = m

abbrev pub none_made : Outcome
none_made = record { applied = []; skipped = []; failed = [] }

abbrev pub skip : String → String → Outcome → Outcome
skip slot_id reason o = record o {
  skipped = o.skipped ++ record { slot_id = slot_id; reason = reason } ∷ [];
}

abbrev pub note_move : String → Result Slot → Outcome → Outcome
note_move slot_id (ok _) o = record o { applied = o.applied ++ slot_id ∷ [] }
note_move slot_id (err e) o = record o {
  failed = o.failed ++ record { slot_id = slot_id; reason = message_of e } ∷ [];
}

-- The period that a move proposes, if it is one.
abbrev pub period : Option ℤ → Option String → Option String → Option MoveBody
period (some day) (some start) (some end) =
    if no_weekday day || start == "" || end == ""
    then none
    else some (record { day_of_week = day; start_time = start; end_time = end })
period none start end = none
period (some day) none end = none
period (some day) (some start) none = none

-- The slot that a move is about, if it is one of the class.
abbrev pub slot_in : List String → Option String → Option String
slot_in ids none = none
slot_in ids (some id) = if id == "" then none else if includes ids id then some id else none

abbrev pub or_unknown : Option String → String
or_unknown none = "unknown"
or_unknown (some id) = if id == "" then "unknown" else id

abbrev pub is_empty : List Move → Bool
is_empty [] = true
is_empty (m ∷ moves) = false

module _ (env : Environment) (tenant_id : String) where
  unfoldable pub may_suggest : String → TimetableDb → Result (Unit {0})
  may_suggest class_id db = do
    enabled env tenant_id "ai.timetable_solver"
    refuse (is_blank class_id) (not_found "classId is required")
    tenant_found env tenant_id

  abbrev pub swaps : Option String → TimetableDb → String → Swaps
  swaps (some answer) db class_id = solved answer
  swaps none db class_id = heuristic (heuristic_swaps (class_slots db class_id) (all_slots db))

  -- `suggestSwaps`.
  unfoldable pub suggest_swaps :
      (List Slot → List Slot → Option String) → String → Action TimetableDb Swaps
  suggest_swaps solve class_id =
      after_checks (may_suggest class_id)
        λ _ db. (ok (swaps (solve (class_slots db class_id) (all_slots db)) db class_id), db)

  -- One turn of the loop of `applySwaps`.
  abbrev pub make_move :
      String → String → Option MoveBody → Outcome → TimetableDb → Outcome × TimetableDb
  make_move actor slot_id none o db = (skip slot_id "no_proposed_period" o, db)
  make_move actor slot_id (some body) o db =
      let (r, db') = reschedule env tenant_id actor slot_id body db in (note_move slot_id r o, db')

  abbrev pub take_move :
      String → Move → Option String → Outcome → TimetableDb → Outcome × TimetableDb
  take_move actor m none o db = (skip (or_unknown m.slot_id) "slot_not_in_class" o, db)
  take_move actor m (some slot_id) o db =
      make_move actor slot_id (period m.proposed_day m.proposed_start m.proposed_end) o db

  abbrev pub make_moves :
      String → List String → List Move → Outcome → TimetableDb → Outcome × TimetableDb
  make_moves actor ids [] o db = (o, db)
  make_moves actor ids (m ∷ moves) o db =
      let (o', db') = take_move actor m (slot_in ids m.slot_id) o db in
      make_moves actor ids moves o' db'

  unfoldable pub may_apply : String → List Move → TimetableDb → Result (Unit {0})
  may_apply class_id moves db = do
    enabled env tenant_id "ai.timetable_solver"
    refuse (is_blank class_id) (bad_request "classId is required")
    refuse (is_empty moves) (bad_request "moves array is required")
    tenant_found env tenant_id

  -- `applySwaps`: the class's slots are those before the first move.
  unfoldable pub apply_swaps : String → String → List Move → Action TimetableDb Outcome
  apply_swaps actor class_id moves = after_checks (may_apply class_id moves) λ _ db.
      let (o, db') =
        make_moves actor (map (λ s. s.id) (class_slots db class_id)) moves none_made db in
      (ok o, db')
