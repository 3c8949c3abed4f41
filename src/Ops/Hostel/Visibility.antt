-- ===== src/Ops/Hostel/Visibility.antt =====
-- What a parent or a student sees of the hostel (`listHouses` of
-- web-server/src/ops/hostel/hostel.service.ts).
use multi_academy_backend.Prelude.{
  String, ◌≡◌, true, false, ◌&&◌, List, arith, ◌==◌, any, includes, [], ◌∷◌, eq_iff, All, All-mono,
  All-map, All-filter_by, All-filter_by_self, All-sort_by, text_le,
}
use multi_academy_backend.Http.{ok}
use multi_academy_backend.Tenant.{Environment, enter, get_user_roles}
use multi_academy_backend.Ops.Hostel.{
  HostelDb, House, HouseView, Bed, allotted_to, allotted_to_child, visible_bed, in_houses,
  view_house, views, list_houses,
}

-- May the actor see the bed, being a parent or a student?
abbrev pub IsOwnBed : HostelDb → List String → String → Bed → Type 0
IsOwnBed db roles actor b =
    (includes roles "parent" ≡ true → allotted_to_child db actor b ≡ true)
    × (includes roles "parent" ≡ false
        → includes roles "student" ≡ true
        → allotted_to db actor b ≡ true)

abbrev pub ShowsOwnBeds : HostelDb → List String → String → HouseView → Type 0
ShowsOwnBeds db roles actor v =
    All (IsOwnBed db roles actor) v.beds × All (λ b. (b.house_id == v.house.id) ≡ true) v.beds

any_parent :
    (roles : List String)
    → includes roles "parent" ≡ true
    → any (includes ("parent" ∷ "student" ∷ [])) roles ≡ true
any_parent [] h = cc
any_parent (r ∷ roles) h = ground (arith, any_parent roles, eq_iff "parent" r, eq_iff r "parent")

any_student :
    (roles : List String)
    → includes roles "student" ≡ true
    → any (includes ("parent" ∷ "student" ∷ [])) roles ≡ true
any_student [] h = cc
any_student (r ∷ roles) h =
    ground (arith, any_student roles, eq_iff "student" r, eq_iff r "student")

visible_bed-IsOwnBed :
    (db : HostelDb) (roles : List String) (actor : String) (houses : List House) (b : Bed)
    → (in_houses houses b && visible_bed db roles actor b) ≡ true
    → IsOwnBed db roles actor b
unfolding visible_bed
visible_bed-IsOwnBed db roles actor houses b h = (
  λ parent. ground (arith, any_parent roles parent),
  λ other student. ground (arith, any_student roles student),
)

views-ShowsOwnBeds :
    (db : HostelDb) (roles : List String) (actor : String)
    → All (ShowsOwnBeds db roles actor) (views db roles actor)
unfolding views
views-ShowsOwnBeds db roles actor = All-map (ShowsOwnBeds db roles actor) (view_house _) _ λ house.
    (
      All-filter_by (IsOwnBed db roles actor) (λ b. b.house_id == house.id) _
          (All-sort_by (IsOwnBed db roles actor) (λ x y. text_le x.label y.label) _
            (All-mono _ (IsOwnBed db roles actor) _ (visible_bed-IsOwnBed db roles actor _)
              (All-filter_by_self _ db.beds))),
      All-filter_by_self (λ b. b.house_id == house.id) _,
    )

-- When `listHouses` answers, each bed stands under its own house; a parent is shown only beds that
-- are allocated to a student linked to the parent, and a student who is no parent only beds that
-- are allocated to that student.
pub list_houses-ShowsOwnBeds :
    (env : Environment) (tenant_id actor : String) (db : HostelDb) {answer : List HouseView}
    → (list_houses env tenant_id actor db).0 ≡ ok answer
    → All (ShowsOwnBeds db (get_user_roles env db.users actor) actor) answer
unfolding list_houses enter
list_houses-ShowsOwnBeds env tenant_id actor db e =
    ground (arith, views-ShowsOwnBeds db (get_user_roles env db.users actor) actor)
