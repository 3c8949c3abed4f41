-- ===== src/Payments/Webhook/Tests.antt =====
-- Webhooks on a small database.
use multi_academy_backend.Prelude.{String, Option, ◌≡◌, refl, false, none, some, [], ◌∷◌}
use multi_academy_backend.Http.{ok, err, forbidden}
use multi_academy_backend.Http.Checked.{after_checks, ◌>>=◌, ◌>>◌, require, or_throw, returned}
use multi_academy_backend.Tenant.{open_school, get_tenant_ds}
use multi_academy_backend.Payments.Tables.{PaymentsDb, CheckoutSession}
use multi_academy_backend.Payments.Settle.{
  Control, FreshIds, settle_success, settle_open, record_payment,
}
use multi_academy_backend.Payments.Webhook.{
  Metadata, Platform, Request, Vault, ResolvedGateway, MomoPayload, momo_webhook, check_signature,
  check_paystack, by_gateway, read_webhook, settle_from_webhook,
}
use multi_academy_backend.Payments.Webhook.Signed.{
  unsigned_webhook, with_headers, momo_webhook-ignores_headers,
}

abbrev control : Control
control = record { is_configured = false; refusal = none; number = λ _. none }

abbrev ids : FreshIds
ids = record { payment_id = "p1"; credit_id = "c1" }

abbrev open_session : CheckoutSession
open_session = record {
  id = "s1";
  student_id = "ada";
  invoice_id = none;
  installment_id = none;
  amount = 500;
  currency = "NGN";
  reference = "ref1";
  provider_id = "momo";
  status = "pending";
  kind = "invoice";
  term = none;
  session_label = none;
  provider_reference = none;
  created_by = none;
}

abbrev fees_db : PaymentsDb
fees_db = record {
  sessions = open_session ∷ [];
  invoices = [];
  payments = [];
  plans = [];
  installments = [];
  reminders = [];
  credits = [];
  events = [];
}

abbrev metadata : Metadata
metadata = record { tenant_id = some "t1"; tenant_id_snake = none; kind = none }

abbrev vault : Vault
vault = record {
  secret_key = some "key";
  secret_key_camel = none;
  secret_key_upper = none;
  secret_hash = some "hash";
  secret_hash_camel = none;
  webhook_secret = none;
}

abbrev forged : MomoPayload
forged = record {
  external_id = some "ref1";
  reference = none;
  status = some "SUCCESSFUL";
  amount = some 500;
  currency = none;
}

abbrev momo : ResolvedGateway
momo = record { id = "momo"; handle_webhook = λ headers _. ok (momo_webhook headers (some forged)) }

abbrev platform : Platform
platform = record {
  parse_body = λ _. some metadata;
  hmac = λ _ _. "digest";
  vault = λ _. vault;
  resolve_payment = λ _. ok momo;
  flutterwave_secret = none;
}

abbrev from : String → Request
from provider_id = record { provider_id = provider_id; headers = λ _. none; raw_body = "{}" }

unsigned_run :
    (settle_from_webhook open_school control ids platform (from "paystack") fees_db).0
    ≡ err (forbidden "Invalid Paystack signature")
unfolding settle_from_webhook read_webhook by_gateway check_signature check_paystack after_checks
    ◌>>=◌ ◌>>◌ require or_throw
unsigned_run = refl

forged_run :
    (settle_from_webhook open_school control ids platform (from "momo") fees_db).0
    ≡ ok (record { status = "success"; tenant_id = some "t1" })
unfolding settle_from_webhook read_webhook by_gateway check_signature after_checks ◌>>=◌ ◌>>◌
    or_throw settle_success settle_open get_tenant_ds record_payment
forged_run = refl

reads_as_momo :
    (g : ResolvedGateway) (headers : String → Option String) (body : String)
    → ok momo ≡ ok g
    → g.handle_webhook headers body ≡ ok (momo_webhook headers (some forged))
reads_as_momo g headers body found = let same = returned found in rw (← same) refl

unsigned_webhook_example :
    (settle_from_webhook open_school control ids platform (from "flutterwave") fees_db).1 ≡ fees_db
unsigned_webhook_example =
    unsigned_webhook open_school control ids platform (from "flutterwave") metadata fees_db refl
      refl refl

momo_webhook-ignores_headers_example :
    settle_from_webhook open_school control ids platform
      (with_headers (λ _. some "forged") (from "momo"))
      fees_db
    ≡ settle_from_webhook open_school control ids platform (from "momo") fees_db
momo_webhook-ignores_headers_example =
    momo_webhook-ignores_headers open_school control ids platform (λ _. some forged) (from "momo")
      (λ _. some "forged") fees_db (λ _ g headers body found _. reads_as_momo g headers body found)
      refl
