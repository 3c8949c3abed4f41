-- ===== src/Payments/Settle.antt =====
-- The settlement of a payment that a provider reports as successful (`settleSuccess` of
-- web-server/src/financial/gateway-payments.service.ts). Fresh ids are arguments, and so is
-- whether the control plane is configured, and whether it takes the settlement of a SaaS invoice.
pub mod Idempotence
pub mod Matching
use multi_academy_backend.Prelude.{
  ℕ, zero, suc, String, Bool, true, false, not, ◌&&◌, ◌||◌, Option, none, some, List, [], ◌∷◌, ◌++◌,
  ◌==◌, eqb, ltb, leb, if◌then◌else◌, find_first, update_where, truthy, or_null, or_default,
}
use multi_academy_backend.Http.{
  Action, Result, ok, err, bad_request, not_found, HttpError, pure, throw, gets, or_throw, throw_if,
  modify, when_so, ◌>>=◌, ◌>>◌,
}
use multi_academy_backend.Tenant.{Environment, get_tenant_ds}
use multi_academy_backend.Payments.Tables.{
  CheckoutSession, Invoice, Payment, Installment, FeeReminder, AdvanceCredit, Event, auto_split,
  creator_notified, payment_announced, usage, saas_settled, PaymentsDb, is_settled, refers_to,
  paid_amount, is_invoice, has_reference,
}

-- What a provider reports. An amount that is negative or no finite number is refused as 0 is.
pub record SettleInput : Type 0 where
  pub reference : String
  pub amount_minor : ℕ
  pub currency : String
  pub provider_id : String
  pub provider_reference : String

pub record FreshIds : Type 0 where
  pub payment_id : String
  pub credit_id : String

-- The control plane, as far as a settlement depends on it.
pub record Control : Type 0 where
  pub is_configured : Bool
  -- `settleTenantInvoice`: the exception that it throws, if it does.
  pub refusal : Option HttpError
  -- `Number` of a text, where that is a natural number.
  pub number : String → Option ℕ

abbrev pub is_session : String → CheckoutSession → Bool
is_session id s = s.id == id

abbrev pub settle_row : String → CheckoutSession → CheckoutSession
settle_row provider_reference s = record s {
  status = "settled";
  provider_reference = some provider_reference;
}

-- `UPDATE financial_checkout_sessions SET status = 'settled' … WHERE id = ?`.
abbrev pub mark_settled : CheckoutSession → String → PaymentsDb → PaymentsDb
mark_settled session provider_reference db = record db {
  sessions = update_where (is_session session.id) (settle_row provider_reference) db.sessions;
}

abbrev pub emit : Event → PaymentsDb → PaymentsDb
emit e db = record db { events = db.events ++ e ∷ [] }

abbrev pub payment_of : FreshIds → CheckoutSession → SettleInput → Payment
payment_of ids session input = record {
  id = ids.payment_id;
  student_id = session.student_id;
  invoice_id = or_null session.invoice_id;
  installment_id = or_null session.installment_id;
  amount = session.amount;
  reference = input.reference;
  status = "completed";
  provider_id = input.provider_id;
  provider_reference = input.provider_reference;
}

abbrev pub add_payment : Payment → PaymentsDb → PaymentsDb
add_payment p db = record db { payments = db.payments ++ p ∷ [] }

abbrev pub mark_paid : Invoice → Invoice
mark_paid i = record i { status = "paid" }

abbrev pub is_pending_reminder : String → FeeReminder → Bool
is_pending_reminder invoice_id r = r.invoice_id == invoice_id && r.status == "pending"

abbrev pub stop_reminder : FeeReminder → FeeReminder
stop_reminder r = record r { status = "stopped" }

-- Does what was settled for the invoice cover it? An invoice that is not found is not marked.
abbrev pub is_covered : String → PaymentsDb → Bool
is_covered invoice_id db = elim (find_first (is_invoice invoice_id) db.invoices) [
  | none ↦ false
  | some i ↦ leb i.amount (paid_amount invoice_id db.sessions)
]

-- The invoice of the session: marked as paid once it is covered, its reminders stopped.
unfoldable pub settle_invoice : Option String → PaymentsDb → PaymentsDb
settle_invoice none db = db
settle_invoice (some id) db = if id == "" then db else record db {
  invoices =
      if is_covered id db then update_where (is_invoice id) mark_paid db.invoices else db.invoices;
  reminders = update_where (is_pending_reminder id) stop_reminder db.reminders;
}

abbrev pub pay_installment : Installment → Installment
pay_installment i = record i { status = "paid" }

unfoldable pub settle_installment : Option String → PaymentsDb → PaymentsDb
settle_installment none db = db
settle_installment (some id) db =
    if id == ""
    then db
    else record db { installments = update_where (λ i. i.id == id) pay_installment db.installments }

unfoldable pub credit_advance : FreshIds → CheckoutSession → SettleInput → PaymentsDb → PaymentsDb
credit_advance ids session input db =
    if session.kind == "advance"
    then record db {
      credits =
          db.credits
          ++ record {
            id = ids.credit_id;
            student_id = session.student_id;
            amount = session.amount;
            currency = or_default (some input.currency) "NGN";
            term = or_null session.term;
            session_label = or_null session.session_label;
            payment_id = ids.payment_id;
            reference = input.reference;
          }
            ∷ [];
    }
    else db

abbrev pub notify_creator : Option String → PaymentsDb → PaymentsDb
notify_creator none db = db
notify_creator (some user) db = if user == "" then db else emit (creator_notified user) db

unfoldable pub announce : Control → CheckoutSession → SettleInput → PaymentsDb → PaymentsDb
announce control session input db =
    let told = emit (payment_announced input.reference) (notify_creator session.created_by db) in
    let metered =
      if control.is_configured
      then emit (usage "gateway_settlements" input.reference) told
      else told in
    emit (auto_split input.reference input.amount_minor) metered

-- The writes of a settlement that no earlier payment stands for, in their order.
unfoldable pub record_payment :
    Control → FreshIds → CheckoutSession → SettleInput → PaymentsDb → PaymentsDb
record_payment control ids session input db = announce control session input (
    credit_advance ids session input (
      settle_installment session.installment_id (
        settle_invoice session.invoice_id (
          mark_settled session input.provider_reference
            (add_payment (payment_of ids session input) db)))))

-- What `settleSuccess` answers: the id of the session, of a payment, or of a SaaS invoice.
pub data Settled : Type 0 where
  session_id payment_id : String → Settled
  saas_invoice : ℕ → Settled

abbrev pub saas_number : Control → Option String → Option ℕ
saas_number control none = none
saas_number control (some id) = elim (control.number id) [
  | none ↦ none
  | some n ↦ if eqb n 0 then none else some n
]

abbrev pub throw_refusal : Option HttpError → Action PaymentsDb (Unit {0})
throw_refusal none = pure tt
throw_refusal (some e) = throw e

unfoldable pub settle_saas : Control → CheckoutSession → SettleInput → Action PaymentsDb Settled
settle_saas control session input = do
  n ←
      or_throw (saas_number control session.invoice_id)
        (bad_request "SaaS invoice reference is invalid")
  throw_refusal control.refusal
  modify (emit (saas_settled n input.amount_minor))
  modify (mark_settled session input.provider_reference)
  pure (saas_invoice n)

abbrev pub find_payment : String → PaymentsDb → Option Payment
find_payment provider_reference db =
    find_first (λ p. p.provider_reference == provider_reference) db.payments

-- A payment with the provider's reference exists: only the session is brought up to date.
abbrev pub join_payment : CheckoutSession → SettleInput → Payment → Action PaymentsDb Settled
join_payment session input p = do
  modify (mark_settled session input.provider_reference)
  modify (emit (auto_split input.reference input.amount_minor))
  pure (payment_id p.id)

abbrev pub settle_payment :
    Control → FreshIds → CheckoutSession → SettleInput → Option Payment → Action PaymentsDb Settled
settle_payment control ids session input (some p) = join_payment session input p
settle_payment control ids session input none = do
  modify (record_payment control ids session input)
  pure (payment_id ids.payment_id)

module _ (env : Environment) (tenant_id : String) (control : Control) (ids : FreshIds) where
  abbrev pub same_currency : CheckoutSession → SettleInput → Bool
  same_currency session input =
      env.to_upper_case input.currency
      == env.to_upper_case (or_default (some session.currency) "NGN")

  unfoldable pub settle_open : CheckoutSession → SettleInput → Action PaymentsDb Settled
  settle_open session input = do
    throw_if (eqb input.amount_minor 0 || not (eqb input.amount_minor session.amount))
        (bad_request "Payment amount does not match checkout session")
    throw_if (not (same_currency session input))
        (bad_request "Payment currency does not match checkout session")
    existing ← gets (find_payment input.provider_reference)
    if session.kind == "saas_subscription"
        then settle_saas control session input
        else settle_payment control ids session input existing

  unfoldable pub settle_success : SettleInput → Action PaymentsDb Settled
  settle_success input = do
    get_tenant_ds env tenant_id
    found ← gets (λ db. find_first (has_reference input.reference) db.sessions)
    session ← or_throw found (not_found "Checkout session not found")
    if is_settled session then pure (session_id session.id) else settle_open session input
