-- ===== src/Payments/Tables.antt =====
-- The rows that online payments read and write
-- (web-server/src/financial/gateway-payments.service.ts). Amounts are whole hundredths of the
-- currency unit, so that `Math.round(Number(amount) * 100)` is the amount itself. Dates, receipt
-- numbers and texts for display are left out.
use multi_academy_backend.Prelude.{
  ℕ, String, Bool, false, ◌||◌, Option, none, some, List, ◌==◌, if◌then◌else◌, sum_of,
}

pub record CheckoutSession : Type 0 where
  pub id : String
  pub student_id : String
  pub invoice_id : Option String
  pub installment_id : Option String
  pub amount : ℕ
  pub currency : String
  pub reference : String
  pub provider_id : String
  pub status : String
  pub kind : String
  -- The parts of the column `metadata`.
  pub term : Option String
  pub session_label : Option String
  pub provider_reference : Option String
  pub created_by : Option String

pub record Invoice : Type 0 where
  pub id : String
  pub student_id : String
  pub amount : ℕ
  pub status : String
  pub payment_plan_type : Option String

pub record Payment : Type 0 where
  pub id : String
  pub student_id : String
  pub invoice_id : Option String
  pub installment_id : Option String
  pub amount : ℕ
  pub reference : String
  pub status : String
  pub provider_id : String
  pub provider_reference : String

pub record InstallmentPlan : Type 0 where
  pub id : String
  pub student_id : String
  pub invoice_id : String
  pub title : String
  pub total_amount : ℕ
  pub surcharge_percent : ℕ
  pub created_by : Option String

pub record Installment : Type 0 where
  pub id : String
  pub plan_id : String
  pub sequence : ℕ
  pub amount : ℕ
  pub due_date : Option String
  pub status : String

pub record FeeReminder : Type 0 where
  pub id : String
  pub invoice_id : String
  pub student_id : String
  pub status : String

pub record AdvanceCredit : Type 0 where
  pub id : String
  pub student_id : String
  pub amount : ℕ
  pub currency : String
  pub term : Option String
  pub session_label : Option String
  pub payment_id : String
  pub reference : String

-- What a method tells other parts of the server. Their failures are caught or not awaited.
pub data Event : Type 0 where
  -- `recordAutoSplit`, by reference and gross amount.
  auto_split : String → ℕ → Event
  -- `notifications.create` and `realtime.notifyUser` for the creator of the session.
  creator_notified : String → Event
  -- `comms.notifyPaymentSafe` and `realtime.notifyTenant`, by reference.
  payment_announced : String → Event
  -- `controlApi.postUsage`, by meter and event id.
  usage : String → String → Event
  -- `controlApi.settleTenantInvoice`, by invoice and amount.
  saas_settled : ℕ → ℕ → Event

pub record PaymentsDb : Type 0 where
  pub sessions : List CheckoutSession
  pub invoices : List Invoice
  pub payments : List Payment
  pub plans : List InstallmentPlan
  pub installments : List Installment
  pub reminders : List FeeReminder
  pub credits : List AdvanceCredit
  pub events : List Event

-- `status IN ('settled', 'success')`.
abbrev pub is_settled : CheckoutSession → Bool
is_settled s = s.status == "settled" || s.status == "success"

-- Is the optional column equal to the value?
abbrev pub refers_to : Option String → String → Bool
refers_to none id = false
refers_to (some x) id = x == id

-- `SELECT SUM(s.amount) … WHERE s.invoice_id = i.id AND s.status IN ('settled', 'success')`.
abbrev pub settled_amount : String → CheckoutSession → ℕ
settled_amount invoice_id s =
    if refers_to s.invoice_id invoice_id then (if is_settled s then s.amount else 0) else 0

abbrev pub paid_amount : String → List CheckoutSession → ℕ
paid_amount invoice_id = sum_of (settled_amount invoice_id)

abbrev pub is_invoice : String → Invoice → Bool
is_invoice id i = i.id == id

abbrev pub has_reference : String → CheckoutSession → Bool
has_reference reference s = s.reference == reference
