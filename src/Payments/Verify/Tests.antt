-- ===== src/Payments/Verify/Tests.antt =====
-- Runs of verification and of installment plans.
use multi_academy_backend.Prelude.{◌+◌, ◌*◌, ◌≤◌, ◌≡◌, refl, false, none, some, List, [], ◌∷◌}
use multi_academy_backend.Http.{ok, err, bad_request}
use multi_academy_backend.Http.Checked.{
  checked, after_checks, ◌>>=◌, ◌>>◌, require, refuse, or_throw, enabled, tenant_found,
}
use multi_academy_backend.Tenant.{open_school}
use multi_academy_backend.Payments.Tables.{PaymentsDb}
use multi_academy_backend.Payments.Verify.{
  Part, PlanBody, Verification, local, may_verify, verify, may_plan, create_installment_plan,
}
use multi_academy_backend.Payments.Verify.Plans.{planned, create_installment_plan-total}

abbrev fees_db : PaymentsDb
fees_db = record {
  sessions = [];
  invoices =
      record {
        id = "i1";
        student_id = "ada";
        amount = 1000;
        status = "unpaid";
        payment_plan_type = none;
      }
      ∷ [];
  payments = [];
  plans = [];
  installments = [];
  reminders = [];
  credits = [];
  events = [];
}

abbrev in_two : List Part → PlanBody
in_two parts = record {
  student_id = "ada";
  invoice_id = some "i1";
  title = "Fees";
  total_amount = 1000;
  surcharge_percent = some 10;
  installments = parts;
}

abbrev halves : List Part
halves =
    record { amount = 600; due_date = none }
    ∷ record { amount = 500; due_date = some "2025-01-31" }
    ∷ []

abbrev pending : Verification
pending = record {
  status = "pending";
  amount_minor = 0;
  currency = "NGN";
  provider_reference = none;
  provider_id = "paystack";
}

plan_run :
    (create_installment_plan open_school "t1" "p1" (λ _. "x") none (in_two halves) fees_db).0
    ≡ ok "p1"
unfolding create_installment_plan may_plan checked ◌>>=◌ ◌>>◌ require refuse or_throw tenant_found
plan_run = refl

plan_refused_run :
    (create_installment_plan open_school "t1" "p1" (λ _. "x") none (in_two []) fees_db).0
    ≡ err (bad_request "Installment amounts must equal the total including surcharge")
unfolding create_installment_plan may_plan checked ◌>>=◌ ◌>>◌ require refuse or_throw tenant_found
plan_refused_run = refl

verify_run :
    (verify open_school "t1"
      (record { is_configured = false; refusal = none; number = λ _. none })
      (record { payment_id = "p1"; credit_id = "c1" })
      (local "paystack" (ok pending))
      "ref"
      fees_db).0
    ≡ ok (record { status = "pending"; settled = none })
unfolding verify may_verify after_checks ◌>>=◌ ◌>>◌ require enabled tenant_found
verify_run = refl

create_installment_plan-total_example :
    let after =
      (create_installment_plan open_school "t1" "p1" (λ _. "x") none (in_two halves) fees_db).1 in
    (100 * planned after.installments ≤ 100 * planned [] + 110000 + 500)
    × (100 * planned [] + 110000 ≤ 100 * planned after.installments + 500)
create_installment_plan-total_example =
    create_installment_plan-total open_school "t1" "p1" (λ _. "x") none (in_two halves) fees_db
      plan_run
