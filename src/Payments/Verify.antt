-- ===== src/Payments/Verify.antt =====
-- Payments that a client asks to verify, and installment plans (`verify` and `createInstallmentPlan`
-- of web-server/src/financial/gateway-payments.service.ts). A surcharge is a whole percentage.
pub mod Plans
mod Tests
use multi_academy_backend.Prelude.{
  ℕ, suc, ◌+◌, ◌*◌, String, Bool, true, false, not, ◌&&◌, ◌||◌, Option, none, some, List, [], ◌∷◌,
  ◌++◌, ◌==◌, ltb, if◌then◌else◌, includes, any, find_first, filter_by, update_where, take, sum_of,
  truthy, or_null, or_default, length,
}
use multi_academy_backend.Http.{Action, Result, ok, err, bad_request, forbidden, not_found}
use multi_academy_backend.Http.Checked.{
  ◌>>=◌, ◌>>◌, require, refuse, or_throw, enabled, tenant_found, checked, after_checks,
}
use multi_academy_backend.Tenant.{Environment}
use multi_academy_backend.Payments.Tables.{
  PaymentsDb, CheckoutSession, Invoice, InstallmentPlan, Installment, FeeReminder, has_reference,
  is_invoice,
}
use multi_academy_backend.Payments.Settle.{
  SettleInput, Control, FreshIds, Settled, session_id, payment_id, saas_invoice, settle_success,
  settle_saas,
}
use multi_academy_backend.Payments.Checkout.{checkout_features}

-- What a provider says of a reference.
pub record Verification : Type 0 where
  pub status : String
  pub amount_minor : ℕ
  pub currency : String
  pub provider_reference : Option String
  pub provider_id : String

-- The payment service, which is told the tenant's features, or the tenant's own gateway with its id.
pub data Verifier : Type 0 where
  remote : (List String → Result Verification) → Verifier
  local : String → Result Verification → Verifier

pub record Verified : Type 0 where
  pub status : String
  pub settled : Option Settled

abbrev pub kind_of : Option CheckoutSession → String
kind_of none = "invoice"
kind_of (some s) = if s.kind == "" then "invoice" else s.kind

abbrev pub is_saas : Option CheckoutSession → Bool
is_saas none = false
is_saas (some s) = s.kind == "saas_subscription"

abbrev pub has_installment : Option CheckoutSession → Bool
has_installment none = false
has_installment (some s) = truthy s.installment_id

abbrev pub provider_of : String → Option CheckoutSession → String
provider_of id none = id
provider_of id (some s) = if id == "" then s.provider_id else id

abbrev pub input_of : String → Option CheckoutSession → Verification → SettleInput
input_of reference session v = record {
  reference = reference;
  amount_minor = v.amount_minor;
  currency = v.currency;
  provider_id = provider_of v.provider_id session;
  provider_reference = or_default v.provider_reference reference;
}

-- An amount of a plan and the date it is due.
pub record Part : Type 0 where
  pub amount : ℕ
  pub due_date : Option String

pub record PlanBody : Type 0 where
  pub student_id : String
  pub invoice_id : Option String
  pub title : String
  pub total_amount : ℕ
  pub surcharge_percent : Option ℕ
  pub installments : List Part

abbrev pub or_zero : Option ℕ → ℕ
or_zero none = 0
or_zero (some n) = n

-- A hundred times the total with its surcharge, and whether two of these are more than 0.05 apart.
abbrev pub expected : PlanBody → ℕ
expected body = body.total_amount * (100 + or_zero body.surcharge_percent)

abbrev pub apart : ℕ → ℕ → Bool
apart a b = ltb (a + 500) b || ltb (b + 500) a

abbrev pub sum_of_parts : List Part → ℕ
sum_of_parts = sum_of (λ p. p.amount)

abbrev pub plan_of : String → Option String → PlanBody → String → InstallmentPlan
plan_of id created_by body invoice_id = record {
  id = id;
  student_id = body.student_id;
  invoice_id = invoice_id;
  title = body.title;
  total_amount = body.total_amount;
  surcharge_percent = or_zero body.surcharge_percent;
  created_by = or_null created_by;
}

abbrev pub installment_of : (ℕ → String) → String → ℕ → Part → Installment
installment_of fresh plan_id sequence part = record {
  id = fresh sequence;
  plan_id = plan_id;
  sequence = sequence;
  amount = part.amount;
  due_date = or_null part.due_date;
  status = "pending";
}

-- The loop over the parts, which are numbered from 1.
abbrev pub add_installments :
    (ℕ → String) → String → ℕ → List Part → List Installment → List Installment
add_installments fresh plan_id sequence [] rows = rows
add_installments fresh plan_id sequence (p ∷ parts) rows =
    add_installments fresh plan_id (suc sequence) parts
      (rows ++ installment_of fresh plan_id sequence p ∷ [])

abbrev pub by_installments : Invoice → Invoice
by_installments i = record i { payment_plan_type = some "installment" }

abbrev pub store_plan :
    String → (ℕ → String) → Option String → PlanBody → String → PaymentsDb → PaymentsDb
store_plan id fresh created_by body invoice_id db = record db {
  plans = db.plans ++ plan_of id created_by body invoice_id ∷ [];
  invoices = update_where (is_invoice invoice_id) by_installments db.invoices;
  installments = add_installments fresh id 1 body.installments db.installments;
}

abbrev pub given_id : Option String → String
given_id none = ""
given_id (some id) = id

module _ (env : Environment) (tenant_id : String) where
  -- The part of `verify` that asks the provider.
  abbrev pub ask : Verifier → Option CheckoutSession → Result Verification
  ask (remote answer) session =
      answer (checkout_features env tenant_id (kind_of session) (has_installment session))
  ask (local id answer) session =
      if id == "disabled" then err (forbidden "Payment gateway unavailable") else answer

  abbrev pub unless_saas : Option CheckoutSession → Result (Unit {0})
  unless_saas session = if is_saas session then ok tt else enabled env tenant_id "fees.gateway"

  unfoldable pub may_verify :
      Verifier → String → PaymentsDb → Result (Option CheckoutSession × Verification)
  may_verify verifier reference db = do
    tenant_found env tenant_id
    unless_saas (find_first (has_reference reference) db.sessions)
    v ← ask verifier (find_first (has_reference reference) db.sessions)
    ok (find_first (has_reference reference) db.sessions, v)

  -- `createInstallmentPlan`, its checks; the answer is the invoice's id.
  unfoldable pub may_plan : PlanBody → PaymentsDb → Result String
  may_plan body db = do
    tenant_found env tenant_id
    refuse (given_id body.invoice_id == "")
        (bad_request "Invoice id is required for an installment plan")
    i ←
        or_throw (find_first (is_invoice (given_id body.invoice_id)) db.invoices)
          (not_found "Invoice not found for student")
    require (i.student_id == body.student_id) (not_found "Invoice not found for student")
    refuse (includes ("paid" ∷ "cancelled" ∷ []) (env.to_lower_case i.status))
        (bad_request "An installment plan cannot be created for this invoice")
    refuse (apart (100 * sum_of_parts body.installments) (expected body))
        (bad_request "Installment amounts must equal the total including surcharge")
    ok (given_id body.invoice_id)

  unfoldable pub create_installment_plan :
      String → (ℕ → String) → Option String → PlanBody → Action PaymentsDb String
  create_installment_plan id fresh created_by body =
      checked (may_plan body) (λ _. id) (store_plan id fresh created_by body)

module _ (env : Environment) (tenant_id : String) (control : Control) (ids : FreshIds) where
  abbrev pub verified : Result Settled → Result Verified
  verified (ok s) = ok (record { status = "success"; settled = some s })
  verified (err e) = err e

  -- A SaaS invoice is settled here, whatever the state of its session.
  abbrev pub settle_verified :
      String → Option CheckoutSession → Verification → Action PaymentsDb Settled
  settle_verified reference none v =
      settle_success env tenant_id control ids (input_of reference none v)
  settle_verified reference (some s) v =
      if s.kind == "saas_subscription"
      then settle_saas control s (input_of reference (some s) v)
      else settle_success env tenant_id control ids (input_of reference (some s) v)

  abbrev pub conclude : String → Option CheckoutSession × Verification → Action PaymentsDb Verified
  conclude reference (session, v) db =
      if v.status == "success"
      then (let (r, db') = settle_verified reference session v db in (verified r, db'))
      else (ok (record { status = v.status; settled = none }), db)

  unfoldable pub verify : Verifier → String → Action PaymentsDb Verified
  verify verifier reference =
      after_checks (may_verify env tenant_id verifier reference) (conclude reference)
