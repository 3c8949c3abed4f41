-- ===== src/Ops/Hostel/Tests.antt =====
-- Runs of the hostel service on a small database.
use multi_academy_backend.Prelude.{◌≡◌, refl, none, [], ◌∷◌, All}
use multi_academy_backend.Http.{ok, bad_request, err}
use multi_academy_backend.Prelude.Int.{pos}
use multi_academy_backend.Tenant.{array, open_school, enter, get_user_roles, is_linked}
use multi_academy_backend.Ops.Hostel.{
  HostelDb, House, Bed, AllocateBody, allocate, list_houses, views,
}
use multi_academy_backend.Ops.Hostel.Occupancy.{IsConsistent, Served, Served-IsConsistent}
use multi_academy_backend.Ops.Hostel.Visibility.{ShowsOwnBeds, list_houses-ShowsOwnBeds}

abbrev north : House
north = record { id = "h1"; name = "North"; gender = none; capacity = pos 2 }

abbrev bed_1 : Bed
bed_1 = record { id = "b1"; house_id = "h1"; label = "1"; status = "available" }

abbrev bed_2 : Bed
bed_2 = record { id = "b2"; house_id = "h1"; label = "2"; status = "available" }

abbrev school : HostelDb
school = record {
  users =
      record { id = "boss"; roles = array ("principal" ∷ []) }
      ∷ record { id = "mum"; roles = array ("parent" ∷ []) }
      ∷ [];
  links = record { parent_id = "mum"; student_id = "ada" } ∷ [];
  houses = north ∷ [];
  beds = bed_2 ∷ bed_1 ∷ [];
  allocations = [];
}

abbrev for_ada : AllocateBody
for_ada = record { bed_id = "b1"; student_id = "ada"; from_date = none; to_date = none }

abbrev for_bola : AllocateBody
for_bola = record { bed_id = "b1"; student_id = "bola"; from_date = none; to_date = none }

abbrev after_ada : HostelDb
after_ada = (allocate open_school "t1" "boss" "a1" for_ada school).1

allocate_run : (allocate open_school "t1" "boss" "a1" for_ada school).0 ≡ ok "a1"
unfolding allocate enter get_user_roles
allocate_run = refl

second_run :
    (allocate open_school "t1" "boss" "a2" for_bola after_ada).0
    ≡ err (bad_request "Bed is not available")
unfolding allocate enter get_user_roles
second_run = refl

list_run :
    (list_houses open_school "t1" "mum" after_ada).0
    ≡ ok (record { house = north; beds = record bed_1 { status = "occupied" } ∷ [] } ∷ [])
unfolding allocate list_houses enter get_user_roles is_linked views
list_run = refl

Served-IsConsistent_example : IsConsistent (allocate open_school "t1" "boss" "a1" for_ada school).1
Served-IsConsistent_example =
    Served-IsConsistent open_school "t1" (refl, (refl, tt))
      (Served.bed_allocated "boss" "a1" for_ada Served.none_yet)

list_houses-ShowsOwnBeds_example :
    All
      (ShowsOwnBeds after_ada ("parent" ∷ []) "mum")
      (record { house = north; beds = record bed_1 { status = "occupied" } ∷ [] } ∷ [])
unfolding get_user_roles allocate enter
list_houses-ShowsOwnBeds_example =
    list_houses-ShowsOwnBeds open_school "t1" "mum" after_ada list_run
