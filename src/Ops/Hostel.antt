-- ===== src/Ops/Hostel.antt =====
-- Hostel houses, beds and allocations (web-server/src/ops/hostel/hostel.service.ts). The rows leave
-- out `created_at`, which no method reads; ids come from `randomToken` and are arguments.
pub mod Occupancy
pub mod Visibility
mod Tests
use multi_academy_backend.Prelude.{
  ℕ, String, Bool, true, false, not, ◌&&◌, ◌||◌, Option, none, some, List, [], ◌∷◌, ◌++◌, ◌==◌, map,
  if◌then◌else◌, any, includes, find_first, filter_by, update_where, sort_by, truthy, or_null,
  text_lt, text_le, is_blank,
}
use multi_academy_backend.Prelude.Int.{ℤ, pos, negsuc, ltb_ℤ}
use multi_academy_backend.Http.{
  Action, bad_request, not_found, pure, gets, or_throw, throw_if, require, modify, ◌>>=◌, ◌>>◌,
}
use multi_academy_backend.Tenant.{
  Environment, User, ParentLink, is_linked, enter, get_user_roles, has_any_role,
}

pub record House : Type 0 where
  pub id : String
  pub name : String
  pub gender : Option String
  pub capacity : ℤ

pub record Bed : Type 0 where
  pub id : String
  pub house_id : String
  pub label : String
  pub status : String

pub record Allocation : Type 0 where
  pub id : String
  pub bed_id : String
  pub student_id : String
  pub from_date : Option String
  pub to_date : Option String

pub record HostelDb : Type 0 where
  pub users : List User
  pub links : List ParentLink
  pub houses : List House
  pub beds : List Bed
  pub allocations : List Allocation

abbrev pub manager_roles : List String
manager_roles =
    "director" ∷ "school_admin" ∷ "it_admin" ∷ "principal" ∷ "head_teacher" ∷ "administrative_staff"
    ∷ []

abbrev pub viewer_roles : List String
viewer_roles =
    "director" ∷ "school_admin" ∷ "it_admin" ∷ "principal" ∷ "head_teacher" ∷ "administrative_staff"
    ∷ "parent" ∷ "student" ∷ []

pub can_view_hostel_role : List String → Bool
can_view_hostel_role roles = has_any_role roles viewer_roles

pub record HouseBody : Type 0 where
  pub name : String
  pub gender : Option String
  pub capacity : Option ℤ

pub record BedBody : Type 0 where
  pub house_id : String
  pub label : String

pub record AllocateBody : Type 0 where
  pub bed_id : String
  pub student_id : String
  pub from_date : Option String
  pub to_date : Option String

-- A house of the answer, with the beds that the actor may see.
pub record HouseView : Type 0 where
  pub house : House
  pub beds : List Bed

abbrev pub capacity_of : Option ℤ → ℤ
capacity_of none = pos 0
capacity_of (some n) = n

-- `body.toDate && body.fromDate && body.toDate < body.fromDate`
abbrev pub ends_before_start : Option String → Option String → Bool
ends_before_start (some from) (some to) = not (to == "") && not (from == "") && text_lt to from
ends_before_start from to = false

abbrev pub is_house : String → House → Bool
is_house id h = h.id == id

abbrev pub is_bed : String → Bed → Bool
is_bed id b = b.id == id

abbrev pub occupy : Bed → Bed
occupy b = record b { status = "occupied" }

abbrev pub bed_of : String → BedBody → Bed
bed_of id body = record {
  id = id;
  house_id = body.house_id;
  label = body.label;
  status = "available";
}

abbrev pub allocation_of : String → AllocateBody → Allocation
allocation_of id body = record {
  id = id;
  bed_id = body.bed_id;
  student_id = body.student_id;
  from_date = or_null body.from_date;
  to_date = or_null body.to_date;
}

-- The subquery on `hostel_allocations` for a parent, and for a student.
abbrev pub allotted_to_child : HostelDb → String → Bed → Bool
allotted_to_child db actor b =
    any (λ a. a.bed_id == b.id && is_linked db.links actor a.student_id) db.allocations

abbrev pub allotted_to : HostelDb → String → Bed → Bool
allotted_to db actor b = any (λ a. a.bed_id == b.id && a.student_id == actor) db.allocations

pub visible_bed : HostelDb → List String → String → Bed → Bool
visible_bed db roles actor b =
    if any (includes ("parent" ∷ "student" ∷ [])) roles
    then (if includes roles "parent" then allotted_to_child db actor b else allotted_to db actor b)
    else true

-- `bedsByHouse`, for one house, over the beds in the order of the query.
abbrev pub view_house : List Bed → House → HouseView
view_house beds h = record { house = h; beds = filter_by (λ b. b.house_id == h.id) beds }

abbrev pub in_houses : List House → Bed → Bool
in_houses houses b = any (λ h. h.id == b.house_id) houses

pub views : HostelDb → List String → String → List HouseView
unfolding visible_bed
views db roles actor =
    let houses = sort_by (λ x y. text_le x.name y.name) db.houses in
    let beds =
      sort_by (λ x y. text_le x.label y.label)
        (filter_by (λ b. in_houses houses b && visible_bed db roles actor b) db.beds) in
    map (view_house beds) houses

module _ (env : Environment) (tenant_id : String) where
  pub assert_manager : String → Action HostelDb (Unit {0})
  assert_manager actor = do
    roles ← gets (λ db. get_user_roles env db.users actor)
    require (has_any_role roles manager_roles) (not_found "Hostel management is restricted")

  pub list_houses : String → Action HostelDb (List HouseView)
  unfolding can_view_hostel_role
  list_houses actor = do
    enter env tenant_id "ops.hostel"
    roles ← gets (λ db. get_user_roles env db.users actor)
    require (can_view_hostel_role roles) (not_found "Hostel access is restricted")
    gets (λ db. views db roles actor)

  pub create_house : String → String → HouseBody → Action HostelDb String
  unfolding assert_manager
  create_house actor id body = do
    enter env tenant_id "ops.hostel"
    assert_manager actor
    throw_if (is_blank body.name || ltb_ℤ (capacity_of body.capacity) (pos 0))
        (bad_request "House values are invalid")
    modify (λ db. record db {
      houses =
          db.houses
          ++ record {
            id = id;
            name = body.name;
            gender = or_null body.gender;
            capacity = capacity_of body.capacity;
          }
            ∷ [];
    })
    pure id

  pub add_bed : String → String → BedBody → Action HostelDb String
  unfolding assert_manager
  add_bed actor id body = do
    enter env tenant_id "ops.hostel"
    assert_manager actor
    throw_if (body.house_id == "" || is_blank body.label) (bad_request "Bed values are invalid")
    found ← gets (λ db. find_first (is_house body.house_id) db.houses)
    house ← or_throw found (not_found "House not found")
    modify (λ db. record db { beds = db.beds ++ bed_of id body ∷ [] })
    pure id

  pub allocate : String → String → AllocateBody → Action HostelDb String
  unfolding assert_manager
  allocate actor id body = do
    enter env tenant_id "ops.hostel"
    assert_manager actor
    throw_if
        (body.bed_id == ""
          || body.student_id == ""
          || ends_before_start body.from_date body.to_date)
        (bad_request "Allocation values are invalid")
    found ← gets (λ db. find_first (is_bed body.bed_id) db.beds)
    bed ← or_throw found (not_found "Bed not found")
    throw_if (not (bed.status == "available")) (bad_request "Bed is not available")
    modify (λ db. record db { allocations = db.allocations ++ allocation_of id body ∷ [] })
    modify (λ db. record db { beds = update_where (is_bed body.bed_id) occupy db.beds })
    pure id
