-- ===== src/Finance/Payroll.antt =====
-- The payroll of a school (web-server/src/finance/payroll/payroll.service.ts). The amounts of a
-- request are whole numbers; tax and net pay, which the default rate of 10% divides, are kept in
-- tenths. Periods are texts, compared as texts.
pub mod Approval
mod Tests
use multi_academy_backend.Prelude.{
  ℕ, ◌*◌, String, Bool, true, false, not, ◌&&◌, ◌||◌, Option, none, some, List, [], ◌∷◌, ◌++◌, map,
  ◌==◌, if◌then◌else◌, any, find_first, update_where, is_blank, trim, truthy, or_null, text_lt,
}
use multi_academy_backend.Prelude.Int.{ℤ, pos, negsuc, ◌+ℤ◌, ◌-ℤ◌, ltb_ℤ, pos_part, neg_part, sub_ℕ}
use multi_academy_backend.Http.{
  Action, not_found, pure, gets, or_throw, throw_if, require, modify, ◌>>=◌, ◌>>◌,
}
use multi_academy_backend.Tenant.{Environment, User, get_user_roles, has_any_role, enter}

-- A row of `payroll_runs`; the totals are in tenths.
pub record Run : Type 0 where
  pub id : String
  pub title : String
  pub period_start : String
  pub period_end : String
  pub status : String
  pub total_gross : ℤ
  pub total_net : ℤ
  pub salary_account_ref : Option String
  pub operating_account_ref : Option String
  pub approved_by : Option String

-- A row of `payroll_paye_lines`; tax and net pay are in tenths.
pub record PayeLine : Type 0 where
  pub run_id : String
  pub staff_id : String
  pub gross : ℤ
  pub paye : ℤ
  pub allowances : ℤ
  pub deductions : ℤ
  pub net : ℤ

pub record PayrollDb : Type 0 where
  pub users : List User
  pub runs : List Run
  pub lines : List PayeLine

pub record LineBody : Type 0 where
  pub staff_id : String
  pub gross : ℤ
  pub paye : Option ℤ
  pub allowances : Option ℤ
  pub deductions : Option ℤ

pub record RunBody : Type 0 where
  pub title : String
  pub period_start : String
  pub period_end : String
  pub lines : List LineBody
  pub salary_account_ref : Option String
  pub operating_account_ref : Option String

abbrev pub or_zero : Option ℤ → ℤ
or_zero none = pos 0
or_zero (some n) = n

-- Ten times an integer: the amount in tenths.
abbrev pub in_tenths : ℤ → ℤ
in_tenths n = sub_ℕ (10 * pos_part n) (10 * neg_part n)

-- `Math.max(0, n)`.
abbrev pub max_zero : ℤ → ℤ
max_zero n = pos (pos_part n)

abbrev pub taxable : LineBody → ℤ
taxable l = l.gross +ℤ or_zero l.allowances -ℤ or_zero l.deductions

-- `payrollNet`: the tax that is given, or a tenth of what is taxable, and the net pay, in tenths.
unfoldable pub payroll_tax : LineBody → ℤ
payroll_tax l = elim l.paye [ none ↦ max_zero (taxable l) | some paye ↦ in_tenths paye ]

unfoldable pub payroll_net : LineBody → ℤ
payroll_net l = in_tenths (taxable l) -ℤ payroll_tax l

-- `canAdvancePayrollStatus`.
abbrev pub can_advance_payroll_status : String → String → Bool
can_advance_payroll_status status next =
    if next == "approved" then status == "draft" else status == "approved"

abbrev pub allowed_roles : List String
allowed_roles =
    "director" ∷ "school_admin" ∷ "it_admin" ∷ "principal" ∷ "bursar" ∷ "administrative_staff" ∷ []

abbrev pub is_run : String → Run → Bool
is_run id r = r.id == id

abbrev pub is_invalid : LineBody → Bool
is_invalid l =
    l.staff_id == ""
    || not (ltb_ℤ (pos 0) l.gross)
    || ltb_ℤ (or_zero l.allowances) (pos 0)
    || ltb_ℤ (or_zero l.deductions) (pos 0)
    || ltb_ℤ (payroll_tax l) (pos 0)

abbrev pub gross_of : LineBody → ℤ
gross_of l = in_tenths (l.gross +ℤ or_zero l.allowances)

abbrev pub total : (LineBody → ℤ) → List LineBody → ℤ
total f [] = pos 0
total f (l ∷ ls) = f l +ℤ total f ls

abbrev pub approve : String → Run → Run
approve actor_id r = record r { status = "approved"; approved_by = some actor_id }

abbrev pub make_ready : Run → Run
make_ready r = record r { status = "payout_ready" }

module _ (env : Environment) (tenant_id : String) where
  unfoldable pub assert_access : String → Action PayrollDb (Unit {0})
  assert_access actor_id db =
      require (has_any_role (get_user_roles env db.users actor_id) allowed_roles)
        (not_found "Payroll access is restricted to authorized finance staff") db

  abbrev pub new_run : String → RunBody → Run
  new_run id body = record {
    id = id;
    title = trim body.title;
    period_start = body.period_start;
    period_end = body.period_end;
    status = "draft";
    total_gross = total gross_of body.lines;
    total_net = total payroll_net body.lines;
    salary_account_ref = or_null body.salary_account_ref;
    operating_account_ref = or_null body.operating_account_ref;
    approved_by = none;
  }

  abbrev pub paye_line : String → LineBody → PayeLine
  paye_line id l = record {
    run_id = id;
    staff_id = l.staff_id;
    gross = l.gross;
    paye = payroll_tax l;
    allowances = or_zero l.allowances;
    deductions = or_zero l.deductions;
    net = payroll_net l;
  }

  abbrev pub store_run : String → RunBody → PayrollDb → PayrollDb
  store_run id body db = record db {
    runs = db.runs ++ new_run id body ∷ [];
    lines = db.lines ++ map (paye_line id) body.lines;
  }

  unfoldable pub create_run : String → String → RunBody → Action PayrollDb ℤ
  unfolding assert_access
  create_run id actor_id body = do
    enter env tenant_id "finance.payroll_paye"
    assert_access actor_id
    throw_if
        (is_blank body.title
          || body.period_start == ""
          || body.period_end == ""
          || text_lt body.period_end body.period_start)
        (not_found "Payroll period is invalid")
    throw_if (any is_invalid body.lines) (not_found "Payroll employee line is invalid")
    modify (store_run id body)
    pure (total gross_of body.lines)

  abbrev pub set_run : String → (Run → Run) → PayrollDb → PayrollDb
  set_run id f db = record db { runs = update_where (is_run id) f db.runs }

  unfoldable pub approve_run : String → String → Action PayrollDb String
  unfolding assert_access
  approve_run actor_id run_id = do
    enter env tenant_id "finance.payroll_paye"
    assert_access actor_id
    found ← gets (λ db. find_first (is_run run_id) db.runs)
    r ← or_throw found (not_found "Payroll run not found")
    throw_if (not (can_advance_payroll_status r.status "approved"))
        (not_found "Only draft payroll runs can be approved")
    modify (set_run run_id (approve actor_id))
    pure "approved"

  unfoldable pub mark_payout_ready : String → String → Action PayrollDb String
  unfolding assert_access
  mark_payout_ready actor_id run_id = do
    enter env tenant_id "finance.payroll_paye"
    assert_access actor_id
    found ← gets (λ db. find_first (is_run run_id) db.runs)
    r ← or_throw found (not_found "Payroll run not found")
    throw_if (not (can_advance_payroll_status r.status "payout_ready"))
        (not_found "Payroll must be approved first")
    throw_if (not (truthy r.salary_account_ref)) (not_found "Salary account reference is required")
    modify (set_run run_id make_ready)
    pure "payout_ready"
