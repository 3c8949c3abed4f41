-- ===== src/Payments/Checkout.antt =====
-- The start of a payment (`createCheckout` of
-- web-server/src/financial/gateway-payments.service.ts). The reference and the id that the code
-- draws are arguments, and so is what the payment service or the provider answers. An amount that
-- is negative or no finite number is refused as 0 is.
pub mod Balance
use multi_academy_backend.Prelude.{
  ℕ, ◌+◌, String, Bool, true, false, not, ◌&&◌, ◌||◌, Option, none, some, List, [], ◌∷◌, ◌++◌, ◌==◌,
  eqb, ltb, leb, if◌then◌else◌, find_first, truthy, or_null, or_default,
}
use multi_academy_backend.Http.{
  Action, Result, ok, err, HttpError, bad_request, not_found, forbidden, pure, modify, attempt,
  refuse_if, and_then, ◌>>=◌, ◌>>◌,
}
use multi_academy_backend.Tenant.{Environment}
use multi_academy_backend.Payments.Tables.{
  CheckoutSession, Invoice, Installment, InstallmentPlan, PaymentsDb, usage, paid_amount,
  is_invoice,
}
use multi_academy_backend.Payments.Settle.{Control}
use Prim.Native.String

pub record CheckoutBody : Type 0 where
  pub student_id : String
  pub invoice_id : Option String
  pub installment_id : Option String
  pub amount : ℕ
  pub currency : Option String
  pub kind : Option String
  pub term : Option String
  pub session_label : Option String

-- What a provider answers to a new checkout.
pub record Opened : Type 0 where
  pub provider_id : String
  pub checkout_url : String

-- The payment service, where it is enabled, which is told the tenant's features, or the tenant's
-- own gateway: its id, and its answer.
pub data Gateway : Type 0 where
  remote : (List String → Result Opened) → Gateway
  local : String → Result Opened → Gateway

abbrev pub kind_is : CheckoutBody → String → Bool
kind_is body kind = elim body.kind [ none ↦ false | some k ↦ k == kind ]

-- `body.kind || 'invoice'`.
abbrev pub kind_of : CheckoutBody → String
kind_of body = or_default body.kind "invoice"

-- Do two amounts differ by more than one hundredth?
abbrev pub differs : ℕ → ℕ → Bool
differs a b = ltb (a + 1) b || ltb (b + 1) a

module _ (env : Environment) (tenant_id : String) where
  abbrev pub add_feature : Bool → String → List String
  add_feature wanted feature = if wanted && env.resolve tenant_id feature then feature ∷ [] else []

  unfoldable pub checkout_features : String → Bool → List String
  checkout_features kind has_installment =
      add_feature (not (kind == "saas_subscription")) "fees.gateway"
      ++ add_feature (kind == "advance") "fees.advance_payment"
      ++ add_feature (kind == "installment" || has_installment) "fees.installments"

  -- `if (c) await this.flags.assertEnabled(tenantId, feature);`
  abbrev pub needs : Bool → String → Result (Unit {0}) → Result (Unit {0})
  needs c feature rest =
      refuse_if (c && not (env.resolve tenant_id feature))
        (forbidden (Prim.Native.String.◌++◌ "Feature disabled: " feature)) rest

  abbrev pub invoice_allows : CheckoutBody → PaymentsDb → Invoice → Result (Unit {0})
  invoice_allows body db i =
      let paid = paid_amount i.id db.sessions in
      refuse_if (not (i.student_id == body.student_id)) (not_found "Invoice not found for student")
        (refuse_if (env.to_lower_case i.status == "paid") (bad_request "Invoice is already paid") (
          refuse_if (leb i.amount paid) (bad_request "Invoice is already fully paid") (
            refuse_if (ltb i.amount (paid + body.amount))
              (bad_request "Payment exceeds invoice balance") (ok tt))))

  abbrev pub found_invoice : CheckoutBody → PaymentsDb → Option Invoice → Result (Unit {0})
  found_invoice body db none = err (not_found "Invoice not found for student")
  found_invoice body db (some i) = invoice_allows body db i

  abbrev pub asked_invoice : CheckoutBody → PaymentsDb → Option String → Result (Unit {0})
  asked_invoice body db none = err (bad_request "Invoice id is required for invoice payments")
  asked_invoice body db (some id) = found_invoice body db (find_first (is_invoice id) db.invoices)

  abbrev pub check_invoice : CheckoutBody → PaymentsDb → Result (Unit {0})
  check_invoice body db =
      if kind_of body == "invoice" then asked_invoice body db (or_null body.invoice_id) else ok tt

  -- `body.invoiceId && String(installment.invoiceId) !== String(body.invoiceId)`.
  abbrev pub other_invoice : Option String → InstallmentPlan → Bool
  other_invoice none p = false
  other_invoice (some id) p = not (p.invoice_id == id)

  abbrev pub installment_allows :
      CheckoutBody → Installment → Option InstallmentPlan → Result (Unit {0})
  installment_allows body i none = err (not_found "Installment not found for student")
  installment_allows body i (some p) =
      refuse_if (not (p.student_id == body.student_id) || other_invoice (or_null body.invoice_id) p)
        (not_found "Installment not found for student")
        (refuse_if (not (env.to_lower_case i.status == "pending"))
          (bad_request "Installment is no longer payable")
          (refuse_if (differs body.amount i.amount)
            (bad_request "Payment amount does not match the installment") (ok tt)))

  abbrev pub found_installment : CheckoutBody → PaymentsDb → Option Installment → Result (Unit {0})
  found_installment body db none = err (not_found "Installment not found for student")
  found_installment body db (some i) =
      installment_allows body i (find_first (λ p. p.id == i.plan_id) db.plans)

  abbrev pub check_installment : CheckoutBody → PaymentsDb → Option String → Result (Unit {0})
  check_installment body db none = ok tt
  check_installment body db (some id) =
      found_installment body db (find_first (λ i. i.id == id) db.installments)

  -- The checks of `createCheckout`, in their order.
  unfoldable pub admit : CheckoutBody → PaymentsDb → Result (Unit {0})
  admit body db = needs (not (kind_is body "saas_subscription")) "fees.gateway" (
      needs (kind_is body "advance") "fees.advance_payment" (
        needs (kind_is body "installment" || truthy body.installment_id) "fees.installments" (
          refuse_if (eqb body.amount 0) (bad_request "Invalid amount") (
            refuse_if (not (env.tenant_exists tenant_id)) (not_found "Tenant not found") (
              and_then (check_invoice body db)
                (check_installment body db (or_null body.installment_id)))))))

  -- The provider's answer.
  unfoldable pub open_gateway : Gateway → CheckoutBody → Result Opened
  open_gateway (remote answer) body =
      answer (checkout_features (kind_of body) (truthy body.installment_id))
  open_gateway (local id answer) body =
      if id == "disabled" then err (forbidden "Payment gateway unavailable") else answer

  abbrev pub new_session : String → String → CheckoutBody → Option String → Opened → CheckoutSession
  new_session id reference body created_by opened = record {
    id = id;
    student_id = body.student_id;
    invoice_id = or_null body.invoice_id;
    installment_id = or_null body.installment_id;
    amount = body.amount;
    currency = env.to_upper_case (or_default body.currency "NGN");
    reference = reference;
    provider_id = opened.provider_id;
    status = "pending";
    kind = kind_of body;
    term = body.term;
    session_label = body.session_label;
    provider_reference = none;
    created_by = or_null created_by;
  }

  abbrev pub store_session : Control → CheckoutSession → PaymentsDb → PaymentsDb
  store_session control s db = record db {
    sessions = db.sessions ++ s ∷ [];
    events =
        if control.is_configured
        then db.events ++ usage "gateway_checkouts" s.reference ∷ []
        else db.events;
  }

  unfoldable pub create_checkout :
      Control
      → Gateway
      → String
      → String
      → CheckoutBody
      → Option String
      → Action PaymentsDb CheckoutSession
  create_checkout control gateway id reference body created_by = do
    _ ← attempt (admit body)
    opened ← attempt (λ db. open_gateway gateway body)
    modify (store_session control (new_session id reference body created_by opened))
    pure (new_session id reference body created_by opened)
