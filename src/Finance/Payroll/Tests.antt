-- ===== src/Finance/Payroll/Tests.antt =====
-- Runs of the payroll service on a small database.
use multi_academy_backend.Prelude.{◌≡◌, refl, none, some, [], ◌∷◌}
use multi_academy_backend.Prelude.Int.{pos, ◌+ℤ◌, ◌-ℤ◌}
use multi_academy_backend.Tenant.{open_school, array}
use multi_academy_backend.Finance.Payroll.{
  PayrollDb, RunBody, LineBody, create_run, approve_run, mark_payout_ready, payroll_net,
  payroll_tax,
}
use multi_academy_backend.Finance.Payroll.Approval.{
  start, creates, approves, readies, AllSigned, Served-AllSigned,
}

abbrev office : PayrollDb
office = record {
  users = record { id = "bea"; roles = array ("bursar" ∷ []) } ∷ [];
  runs = [];
  lines = [];
}

abbrev line : LineBody
line = record {
  staff_id = "tom";
  gross = pos 1000;
  paye = none;
  allowances = some (pos 100);
  deductions = some (pos 50);
}

abbrev may : RunBody
may = record {
  title = "May";
  period_start = "2026-05-01";
  period_end = "2026-05-31";
  lines = line ∷ [];
  salary_account_ref = some "acc";
  operating_account_ref = none;
}

abbrev drafted : PayrollDb
drafted = (create_run open_school "t1" "r1" "bea" may office).1

abbrev approved : PayrollDb
approved = (approve_run open_school "t1" "bea" "r1" drafted).1

-- 1050 less a tenth: 945.
net_run : payroll_net line ≡ pos 9450
unfolding payroll_net payroll_tax ◌+ℤ◌ ◌-ℤ◌
net_run = refl

Served-AllSigned_example : AllSigned (mark_payout_ready open_school "t1" "bea" "r1" approved).1
Served-AllSigned_example =
    Served-AllSigned open_school "t1" (mark_payout_ready open_school "t1" "bea" "r1" approved).1
      (readies "bea" "r1" (approves "bea" "r1" (creates "r1" "bea" may (start office refl))))
