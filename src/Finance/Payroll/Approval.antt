-- ===== src/Finance/Payroll/Approval.antt =====
-- The approval of a payroll run (web-server/src/finance/payroll/payroll.service.ts).
use multi_academy_backend.Prelude.{
  String, ◌≡◌, ◌≢◌, inl, inr, refl, true, ◌||◌, Option, none, some, [], ◌==◌, find_first,
  Bool-cases, Option-cases, eq_iff, truthy, any, is_blank, text_lt,
}
use multi_academy_backend.Prelude.Keyed.{keyed-update, keyed-append}
use multi_academy_backend.Tenant.{Environment, enter, get_user_roles, has_any_role}
use multi_academy_backend.Finance.Payroll.{
  Run, PayrollDb, RunBody, is_run, is_invalid, approve, make_ready, allowed_roles, new_run,
  store_run, create_run, set_run, approve_run, mark_payout_ready,
}

-- A run that is approved was approved by somebody, and one that is ready for the payout was
-- approved and names the account that pays the salaries.
pub record IsSigned (r : Run) : Type 0 where
  pub approved : r.status ≡ "approved" → r.approved_by ≢ none
  pub ready :
      r.status ≡ "payout_ready" → (r.approved_by ≢ none) × (truthy r.salary_account_ref ≡ true)

-- The run of each id, where there is one.
abbrev pub IsSignedRun : Option Run → Type 0
IsSignedRun none = Unit
IsSignedRun (some r) = IsSigned r

abbrev pub AllSigned : PayrollDb → Type 0
AllSigned db = (id : String) → IsSignedRun (find_first (is_run id) db.runs)

module _ (env : Environment) (tenant_id : String) where
  set_run-AllSigned :
      (id : String) (f : Run → Run) (db : PayrollDb) (r : Run)
      → AllSigned db
      → ((x : Run) → (f x).id ≡ x.id)
      → find_first (is_run id) db.runs ≡ some r
      → IsSigned (f r)
      → AllSigned (set_run env tenant_id id f db)
  set_run-AllSigned id f db r h keeps found signed j =
      let changed = keyed-update Run.id f id j db.runs keeps in
      elim (Bool-cases (id == j)) [
        | inr other ↦ rw (changed, other) (h j)
        | inl this ↦
            let e : id ≡ j = (eq_iff id j).0 this in
            let found_j : find_first (is_run j) db.runs ≡ some r = rw e at found in
            rw (changed, this, found_j) signed
      ]

  store_run-AllSigned :
      (id : String) (body : RunBody) (db : PayrollDb)
      → AllSigned db
      → AllSigned (store_run env tenant_id id body db)
  store_run-AllSigned id body db h j =
      let added = keyed-append Run.id j db.runs (new_run env tenant_id id body) in
      let draft : IsSigned (new_run env tenant_id id body) = record {
        approved = λ e. cc;
        ready = λ e. cc;
      } in
      elim (Option-cases (find_first (is_run j) db.runs)) [
        | inr (r, found) ↦ let before = h j in rw (added, found) (rw found at before)
        | inl absent ↦ elim (Bool-cases (id == j)) [
          | inl this ↦ rw (added, absent, this) draft
          | inr other ↦ rw (added, absent, other) tt
        ]
      ]

  create_run-AllSigned :
      (id actor_id : String) (body : RunBody) (db : PayrollDb)
      → AllSigned db
      → AllSigned (create_run env tenant_id id actor_id body db).1
  unfolding create_run enter get_user_roles
  create_run-AllSigned id actor_id body db h =
      let roles = get_user_roles env db.users actor_id in
      let no_period =
        is_blank body.title
        || body.period_start == ""
        || body.period_end == ""
        || text_lt body.period_end body.period_start in
      elim (Bool-cases (env.resolve tenant_id "finance.payroll_paye")) [
        | inr off ↦ rw off h
        | inl on ↦ elim (Bool-cases (env.tenant_exists tenant_id)) [
          | inr absent ↦ rw (on, absent) h
          | inl present ↦ elim (Bool-cases (has_any_role roles allowed_roles)) [
            | inr stranger ↦ rw (on, present, stranger) h
            | inl staff ↦ elim (Bool-cases no_period) [
              | inl bad ↦ rw (on, present, staff, bad) h
              | inr period ↦ elim (Bool-cases (any is_invalid body.lines)) [
                | inl bad ↦ rw (on, present, staff, period, bad) h
                | inr valid ↦
                    rw (on, present, staff, period, valid) (store_run-AllSigned id body db h)
              ]
            ]
          ]
        ]
      ]

  approve_run-AllSigned :
      (actor_id run_id : String) (db : PayrollDb)
      → AllSigned db
      → AllSigned (approve_run env tenant_id actor_id run_id db).1
  unfolding approve_run enter get_user_roles
  approve_run-AllSigned actor_id run_id db h =
      let roles = get_user_roles env db.users actor_id in
      elim (Bool-cases (env.resolve tenant_id "finance.payroll_paye")) [
        | inr off ↦ rw off h
        | inl on ↦ elim (Bool-cases (env.tenant_exists tenant_id)) [
          | inr absent ↦ rw (on, absent) h
          | inl present ↦ elim (Bool-cases (has_any_role roles allowed_roles)) [
            | inr stranger ↦ rw (on, present, stranger) h
            | inl staff ↦ elim (Option-cases (find_first (is_run run_id) db.runs)) [
              | inl missing ↦ rw (on, present, staff, missing) h
              | inr (r, found) ↦ elim (Bool-cases (r.status == "draft")) [
                | inr late ↦ rw (on, present, staff, found, late) h
                | inl draft ↦
                    rw (on, present, staff, found, draft)
                      (set_run-AllSigned run_id (approve actor_id) db r h (λ x. refl) found
                        (record { approved = λ e k. cc; ready = λ e. cc }))
              ]
            ]
          ]
        ]
      ]

  mark_payout_ready-AllSigned :
      (actor_id run_id : String) (db : PayrollDb)
      → AllSigned db
      → AllSigned (mark_payout_ready env tenant_id actor_id run_id db).1
  unfolding mark_payout_ready enter get_user_roles
  mark_payout_ready-AllSigned actor_id run_id db h =
      let roles = get_user_roles env db.users actor_id in
      elim (Bool-cases (env.resolve tenant_id "finance.payroll_paye")) [
        | inr off ↦ rw off h
        | inl on ↦ elim (Bool-cases (env.tenant_exists tenant_id)) [
          | inr absent ↦ rw (on, absent) h
          | inl present ↦ elim (Bool-cases (has_any_role roles allowed_roles)) [
            | inr stranger ↦ rw (on, present, stranger) h
            | inl staff ↦ elim (Option-cases (find_first (is_run run_id) db.runs)) [
              | inl missing ↦ rw (on, present, staff, missing) h
              | inr (r, found) ↦ elim (Bool-cases (r.status == "approved")) [
                | inr early ↦ rw (on, present, staff, found, early) h
                | inl approved ↦ elim (Bool-cases (truthy r.salary_account_ref)) [
                  | inr nameless ↦ rw (on, present, staff, found, approved, nameless) h
                  | inl named ↦
                      let before : IsSigned r = (let k = h run_id in rw found at k) in
                      let by = before.approved ((eq_iff r.status "approved").0 approved) in
                      rw (on, present, staff, found, approved, named)
                        (set_run-AllSigned run_id make_ready db r h (λ x. refl) found
                          (record { approved = λ e. cc; ready = λ e. (by, named) }))
                ]
              ]
            ]
          ]
        ]
      ]

-- The states that the service reaches from a payroll without runs.
pub data Served (env : Environment) (tenant_id : String) : PayrollDb → Type 0 where
  start : (db : PayrollDb) → db.runs ≡ [] → Served env tenant_id db
  creates :
      {db : PayrollDb} (id actor_id : String) (body : RunBody)
      → Served env tenant_id db
      → Served env tenant_id (create_run env tenant_id id actor_id body db).1
  approves :
      {db : PayrollDb} (actor_id run_id : String)
      → Served env tenant_id db
      → Served env tenant_id (approve_run env tenant_id actor_id run_id db).1
  readies :
      {db : PayrollDb} (actor_id run_id : String)
      → Served env tenant_id db
      → Served env tenant_id (mark_payout_ready env tenant_id actor_id run_id db).1

-- In every state that the service reaches from a payroll without runs, by any sequence of its
-- calls, refused ones included: the run of an id that is approved was approved by somebody, and the
-- one that is ready for the payout was approved by somebody and names a salary account.
pub Served-AllSigned :
    (env : Environment) (tenant_id : String) (db : PayrollDb)
    → Served env tenant_id db
    → AllSigned db
Served-AllSigned env tenant_id db (start _ no_runs) = λ id. rw no_runs tt
Served-AllSigned env tenant_id _ (creates {db} id actor_id body s) =
    create_run-AllSigned env tenant_id id actor_id body db (Served-AllSigned env tenant_id db s)
Served-AllSigned env tenant_id _ (approves {db} actor_id run_id s) =
    approve_run-AllSigned env tenant_id actor_id run_id db (Served-AllSigned env tenant_id db s)
Served-AllSigned env tenant_id _ (readies {db} actor_id run_id s) =
    mark_payout_ready-AllSigned env tenant_id actor_id run_id db
      (Served-AllSigned env tenant_id db s)
