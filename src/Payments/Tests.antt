-- ===== src/Payments/Tests.antt =====
-- Runs of the payments on a small database.
use multi_academy_backend.Prelude.{◌≡◌, refl, true, none, some, [], ◌∷◌}
use multi_academy_backend.Http.{ok, err, bad_request, refuse_if, and_then}
use multi_academy_backend.Tenant.{open_school, get_tenant_ds}
use multi_academy_backend.Payments.Tables.{PaymentsDb, CheckoutSession, Invoice}
use multi_academy_backend.Payments.Settle.{
  SettleInput, FreshIds, Control, session_id, payment_id, settle_success, settle_open,
  record_payment, settle_invoice, settle_installment, credit_advance, announce,
}
use multi_academy_backend.Payments.Settle.Idempotence.{settle_twice, settle_success-Fails_unchanged}
use multi_academy_backend.Payments.Settle.Matching.{Matches, settle_success-Matches}
use multi_academy_backend.Payments.Checkout.{
  CheckoutBody, Gateway, local, admit, create_checkout, open_gateway, new_session,
}
use multi_academy_backend.Payments.Checkout.Balance.{
  CanTake, create_checkout-CanTake, create_checkout-Fails_unchanged, create_checkout_again,
}

abbrev control : Control
control = record { is_configured = true; refusal = none; number = λ _. none }

abbrev invoice : Invoice
invoice = record {
  id = "i1";
  student_id = "ada";
  amount = 500;
  status = "unpaid";
  payment_plan_type = none;
}

abbrev fees_db : PaymentsDb
fees_db = record {
  sessions = [];
  invoices = invoice ∷ [];
  payments = [];
  plans = [];
  installments = [];
  reminders = record { id = "r1"; invoice_id = "i1"; student_id = "ada"; status = "pending" } ∷ [];
  credits = [];
  events = [];
}

abbrev gateway : Gateway
gateway = local "paystack" (ok (record { provider_id = "paystack"; checkout_url = "u" }))

abbrev body : CheckoutBody
body = record {
  student_id = "ada";
  invoice_id = some "i1";
  installment_id = none;
  amount = 500;
  currency = none;
  kind = none;
  term = none;
  session_label = none;
}

abbrev too_much : CheckoutBody
too_much = record body { amount = 501 }

abbrev session : CheckoutSession
session =
    new_session open_school "t1" "s1" "ref1" body none
      (record { provider_id = "paystack"; checkout_url = "u" })

abbrev waiting : PaymentsDb
waiting = record fees_db { sessions = session ∷ [] }

abbrev input : SettleInput
input = record {
  reference = "ref1";
  amount_minor = 500;
  currency = "NGN";
  provider_id = "paystack";
  provider_reference = "p1";
}

abbrev ids : FreshIds
ids = record { payment_id = "pay1"; credit_id = "c1" }

abbrev settled : PaymentsDb
settled = (settle_success open_school "t1" control ids input waiting).1

too_much_run :
    (create_checkout open_school "t1" control gateway "s1" "ref1" too_much none fees_db).0
    ≡ err (bad_request "Payment exceeds invoice balance")
unfolding create_checkout admit refuse_if and_then
too_much_run = refl

settle_run : (settle_success open_school "t1" control ids input waiting).0 ≡ ok (payment_id "pay1")
unfolding settle_success settle_open get_tenant_ds
settle_run = refl

invoice_run : settled.invoices ≡ record invoice { status = "paid" } ∷ []
unfolding settle_success settle_open get_tenant_ds record_payment settle_invoice settle_installment
    credit_advance announce
invoice_run = refl

settle_twice_example :
    (s : CheckoutSession) × (s.reference ≡ "ref1")
    × (settle_success open_school "t1" control ids (record input { amount_minor = 1 }) settled
        ≡ (ok (session_id s.id), settled))
unfolding settle_success settle_open get_tenant_ds
settle_twice_example =
    settle_twice open_school "t1" control control ids ids input (record input { amount_minor = 1 })
      waiting (payment_id "pay1") refl refl refl

settle_success-Fails_unchanged_example :
    (settle_success open_school "t1" control ids (record input { amount_minor = 1 }) waiting).1
    ≡ waiting
unfolding settle_success settle_open get_tenant_ds
settle_success-Fails_unchanged_example =
    settle_success-Fails_unchanged open_school "t1" control ids (record input { amount_minor = 1 })
      waiting tt

settle_success-Matches_example : Matches open_school session ids input waiting settled
unfolding settle_success settle_open get_tenant_ds
settle_success-Matches_example =
    settle_success-Matches open_school "t1" control ids session input waiting (payment_id "pay1")
      refl refl refl

create_checkout-CanTake_example : (i : Invoice) × CanTake open_school body fees_db i
unfolding create_checkout admit refuse_if and_then open_gateway
create_checkout-CanTake_example =
    create_checkout-CanTake open_school "t1" control gateway "s1" "ref1" body none fees_db session
      refl refl

create_checkout-Fails_unchanged_example :
    (create_checkout open_school "t1" control gateway "s1" "ref1" too_much none fees_db).1 ≡ fees_db
unfolding create_checkout admit refuse_if and_then
create_checkout-Fails_unchanged_example =
    create_checkout-Fails_unchanged open_school "t1" control gateway "s1" "ref1" too_much none
      fees_db tt

create_checkout_again_example :
    (create_checkout open_school "t1" control gateway "s2" "ref2" body none
      (create_checkout open_school "t1" control gateway "s1" "ref1" body none fees_db).1).0
    ≡ ok (record session { id = "s2"; reference = "ref2" })
unfolding create_checkout admit refuse_if and_then open_gateway
create_checkout_again_example =
    create_checkout_again open_school "t1" control gateway "s1" "ref1" "s2" "ref2" body none fees_db
      session (record { provider_id = "paystack"; checkout_url = "u" }) refl refl
