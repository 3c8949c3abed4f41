-- ===== src/Ops/Hostel/Occupancy.antt =====
-- Beds and their allocations
-- (`addBed` and `allocate` of web-server/src/ops/hostel/hostel.service.ts).
use multi_academy_backend.Prelude.{
  ◌<◌, String, ◌≡◌, ◌⊎◌, inl, inr, Bool, true, some, List, [], ◌∷◌, ◌++◌, arith, ◌==◌,
  if◌then◌else◌, Bool-cases, Option-cases, text-cases, count_where, find_first, update_where, All,
  All-append, count_where-append, find_first-passes, eq_iff, eq_refl,
}
use multi_academy_backend.Http.{ok, Fails}
use multi_academy_backend.Tenant.{Environment, enter}
use multi_academy_backend.Ops.Hostel.{
  HostelDb, Bed, Allocation, HouseBody, BedBody, AllocateBody, bed_of, allocation_of, is_bed,
  occupy, create_house, add_bed, allocate,
}

abbrev pub for_bed : String → Allocation → Bool
for_bed bed_id a = a.bed_id == bed_id

-- A bed that is available has no allocation, and any other has one.
abbrev pub IsAllotted : List Allocation → Bed → Type 0
IsAllotted allocations b =
    count_where (for_bed b.id) allocations ≡ (if b.status == "available" then 0 else 1)

abbrev pub IsConsistent : HostelDb → Type 0
IsConsistent db = All (IsAllotted db.allocations) db.beds

-- Occupying every bed of an id that had no allocation matches one allocation more.
IsAllotted-occupy :
    (x : Allocation) (allocations : List Allocation) (beds : List Bed)
    → count_where (for_bed x.bed_id) allocations ≡ 0
    → All (IsAllotted allocations) beds
    → All (IsAllotted (allocations ++ x ∷ [])) (update_where (is_bed x.bed_id) occupy beds)
IsAllotted-occupy x allocations [] none_yet h = tt
IsAllotted-occupy x allocations (b ∷ beds) none_yet (here, later) =
    let rest = IsAllotted-occupy x allocations beds none_yet later in
    elim (text-cases b.id x.bed_id) [
      | inl (e, same) ↦ (
        rw (e, count_where-append (for_bed b.id) allocations (x ∷ []))
            (ground (arith, eq_iff x.bed_id b.id, ap_count b.id x.bed_id same)),
        rest,
      )
      | inr (e, differ) ↦ (
        rw (e, count_where-append (for_bed b.id) allocations (x ∷ []))
            (ground (arith, eq_iff x.bed_id b.id)),
        rest,
      )
    ]
  where
    ap_count :
        (i j : String)
        → i ≡ j
        → count_where (for_bed i) allocations ≡ count_where (for_bed j) allocations
    ap_count i j same = rw same

first-IsAllotted :
    (id : String) (allocations : List Allocation) (beds : List Bed) {b : Bed}
    → All (IsAllotted allocations) beds
    → find_first (is_bed id) beds ≡ some b
    → IsAllotted allocations b
first-IsAllotted id allocations [] h e = cc
first-IsAllotted id allocations (x ∷ beds) h e = elim (Bool-cases (x.id == id)) [
  | inl same ↦ ground arith
  | inr differ ↦ first-IsAllotted id allocations beds h.1 (rw differ at e)
]

-- A bed whose first row is available has no allocation.
first_available :
    (id : String) (db : HostelDb) {b : Bed}
    → IsConsistent db
    → find_first (is_bed id) db.beds ≡ some b
    → (b.status == "available") ≡ true
    → count_where (for_bed id) db.allocations ≡ 0
first_available id db {b} h e free =
    let same : b.id ≡ id = (eq_iff b.id id).0 (find_first-passes (is_bed id) db.beds e) in
    let here = first-IsAllotted id db.allocations db.beds h e in rw (← same) (rw free at here)

-- The database after a bed was given out.
abbrev allocated : String → AllocateBody → HostelDb → HostelDb
allocated id body db = record db {
  allocations = db.allocations ++ allocation_of id body ∷ [];
  beds = update_where (is_bed body.bed_id) occupy db.beds;
}

module _ (env : Environment) (tenant_id actor id : String) where
  -- `allocate` changes nothing, or it found the bed available and records who has it.
  allocate_cases :
      (body : AllocateBody) (db : HostelDb)
      → let (r, db') = allocate env tenant_id actor id body db in
        (Fails r × (db' ≡ db))
        ⊎ ((b : Bed) × (find_first (is_bed body.bed_id) db.beds ≡ some b)
            × ((b.status == "available") ≡ true)
            × (r ≡ ok id)
            × (db' ≡ allocated id body db))
  unfolding allocate enter
  allocate_cases body db = elim (Option-cases (find_first (is_bed body.bed_id) db.beds)) [
    | inl missing ↦ ground arith
    | inr (b, found) ↦ ground arith
  ]

  -- A bed is given to a student only while it is available, so that afterwards, too, an available
  -- bed has no allocation and any other bed has exactly one; a refused call changes nothing.
  pub allocate-IsConsistent :
      (body : AllocateBody) (db : HostelDb)
      → IsConsistent db
      → IsConsistent (allocate env tenant_id actor id body db).1
  allocate-IsConsistent body db h = elim (allocate_cases body db) [
    | inl (_, same) ↦ rw same h
    | inr (b, found, free, _, changed) ↦ rw changed (
        IsAllotted-occupy (allocation_of id body) db.allocations db.beds
          (first_available body.bed_id db h found free) h)
  ]

  pub add_bed-IsConsistent :
      (body : BedBody) (db : HostelDb)
      → count_where (for_bed id) db.allocations ≡ 0
      → IsConsistent db
      → IsConsistent (add_bed env tenant_id actor id body db).1
  unfolding add_bed enter
  add_bed-IsConsistent body db fresh h =
      ground
        (arith, All-append (IsAllotted db.allocations) db.beds (bed_of id body ∷ []) h (fresh, tt))

  -- A bed that has an allocation is refused, whoever asks, and nothing changes.
  pub allocate_allotted-Fails :
      (body : AllocateBody) (db : HostelDb)
      → IsConsistent db
      → 0 < count_where (for_bed body.bed_id) db.allocations
      → let (r, db') = allocate env tenant_id actor id body db in Fails r × (db' ≡ db)
  allocate_allotted-Fails body db h taken = elim (allocate_cases body db) [
    | inl refused ↦ refused
    | inr (b, found, free, _, _) ↦
        absurd (omega (arith, first_available body.bed_id db h found free))
  ]

  -- What was given out counts as an allocation of the bed.
  allocated_counts :
      (body : AllocateBody) (db : HostelDb)
      → (allocate env tenant_id actor id body db).0 ≡ ok id
      → 0
        < count_where (for_bed body.bed_id) (allocate env tenant_id actor id body db).1.allocations
  allocated_counts body db e = elim (allocate_cases body db) [
    | inl (fails, _) ↦ absurd (rw e at fails)
    | inr (b, found, free, _, changed) ↦ rw (changed, count_where-append, eq_refl) (omega arith)
  ]

-- After a successful allocation, a second one of the same bed is refused, for any actor, student
-- and dates, and changes nothing.
pub allocate_twice-Fails :
    (env : Environment) (tenant_id actor actor' id id' : String) (body body' : AllocateBody)
    (db : HostelDb)
    → IsConsistent db
    → body'.bed_id ≡ body.bed_id
    → (allocate env tenant_id actor id body db).0 ≡ ok id
    → let first = (allocate env tenant_id actor id body db).1 in
      let (r, db') = allocate env tenant_id actor' id' body' first in Fails r × (db' ≡ first)
allocate_twice-Fails env tenant_id actor actor' id id' body body' db h same e =
    allocate_allotted-Fails env tenant_id actor' id' body' _
      (allocate-IsConsistent env tenant_id actor id body db h)
      (rw same (allocated_counts env tenant_id actor id body db e))

-- The requests that write, one after another; a new id is used by no earlier row.
module _ (env : Environment) (tenant_id : String) where
  pub data Served (start : HostelDb) : HostelDb → Type 0 where
    none_yet : Served start start
    house_created :
        {db : HostelDb} (actor id : String) (body : HouseBody)
        → Served start db
        → Served start (create_house env tenant_id actor id body db).1
    bed_added :
        {db : HostelDb} (actor id : String) (body : BedBody)
        → Served start db
        → count_where (for_bed id) db.allocations ≡ 0
        → Served start (add_bed env tenant_id actor id body db).1
    bed_allocated :
        {db : HostelDb} (actor id : String) (body : AllocateBody)
        → Served start db
        → Served start (allocate env tenant_id actor id body db).1

  create_house-IsConsistent :
      (actor id : String) (body : HouseBody) (db : HostelDb)
      → IsConsistent db
      → IsConsistent (create_house env tenant_id actor id body db).1
  unfolding create_house enter
  create_house-IsConsistent actor id body db h = ground arith

  -- Whatever requests were served since a consistent start, an available bed has no allocation
  -- and every other bed exactly one.
  pub Served-IsConsistent :
      {start db : HostelDb} → IsConsistent start → Served start db → IsConsistent db
  Served-IsConsistent h none_yet = h
  Served-IsConsistent h (house_created {db} actor id body r) =
      create_house-IsConsistent actor id body db (Served-IsConsistent h r)
  Served-IsConsistent h (bed_added {db} actor id body r fresh) =
      add_bed-IsConsistent env tenant_id actor id body db fresh (Served-IsConsistent h r)
  Served-IsConsistent h (bed_allocated {db} actor id body r) =
      allocate-IsConsistent env tenant_id actor id body db (Served-IsConsistent h r)
