-- ===== src/Payments/Webhook.antt =====
-- Payments that a provider reports by itself (`settleFromWebhook` of
-- web-server/src/financial/gateway-payments.service.ts, and `verifySignature` of
-- web-server/src/platform-config/providers/paystack.gateway.ts, with `handleWebhook` of
-- momo.gateway.ts beside it). `JSON.parse`, the digest of node:crypto, the vault's secrets and the
-- tenant's gateway are parameters.
pub mod Signed
mod Tests
use multi_academy_backend.Prelude.{
  ℕ, String, Bool, true, false, not, ◌&&◌, ◌||◌, Option, none, some, List, [], ◌∷◌, ◌==◌, eqb,
  if◌then◌else◌, or_default,
}
use multi_academy_backend.Http.{Action, Result, ok, err, bad_request, forbidden, pure}
use multi_academy_backend.Http.Checked.{
  ◌>>=◌, ◌>>◌, require, refuse, or_throw, after_checks, checked,
}
use multi_academy_backend.Tenant.{Environment}
use multi_academy_backend.Payments.Tables.{PaymentsDb}
use multi_academy_backend.Payments.Settle.{SettleInput, Control, FreshIds, Settled, settle_success}

-- `payload.data.metadata`: the tenant under either key, and the kind.
pub record Metadata : Type 0 where
  pub tenant_id : Option String
  pub tenant_id_snake : Option String
  pub kind : Option String

-- The vault of a scope, by the names under which a secret may stand.
pub record Vault : Type 0 where
  pub secret_key : Option String
  pub secret_key_camel : Option String
  pub secret_key_upper : Option String
  pub secret_hash : Option String
  pub secret_hash_camel : Option String
  pub webhook_secret : Option String

pub record WebhookResult : Type 0 where
  pub status : String
  pub reference : String
  pub amount_minor : Option ℕ
  pub currency : Option String

-- The gateway that a tenant has configured.
pub record ResolvedGateway : Type 0 where
  pub id : String
  pub handle_webhook : (String → Option String) → String → Result WebhookResult

pub record Platform : Type 0 where
  -- `JSON.parse` of the body; none where it throws.
  pub parse_body : String → Option Metadata
  -- The hexadecimal HMAC with SHA-512, of a secret and a text.
  pub hmac : String → String → String
  pub vault : String → Vault
  pub resolve_payment : String → Result ResolvedGateway
  -- `process.env.FLUTTERWAVE_WEBHOOK_SECRET`.
  pub flutterwave_secret : Option String

pub record Request : Type 0 where
  pub provider_id : String
  pub headers : String → Option String
  pub raw_body : String

pub record Answer : Type 0 where
  pub status : String
  pub tenant_id : Option String

-- What the checks decide: an answer, or a settlement for a tenant.
pub data Step : Type 0 where
  answer : Answer → Step
  settle : String → SettleInput → Step

-- `a || b || … || ''`.
abbrev pub first_text : List (Option String) → String
first_text [] = ""
first_text (none ∷ rest) = first_text rest
first_text (some s ∷ rest) = if s == "" then first_text rest else s

abbrev pub tenant_of : Metadata → String
tenant_of m = first_text (m.tenant_id ∷ m.tenant_id_snake ∷ [])

abbrev pub is_saas : Option String → Bool
is_saas none = false
is_saas (some k) = k == "saas_subscription"

abbrev pub secret_scope : Metadata → String
secret_scope m = if is_saas m.kind then "__platform__" else tenant_of m

abbrev pub paystack_secret : Vault → String
paystack_secret v = first_text (v.secret_key ∷ v.secret_key_camel ∷ v.secret_key_upper ∷ [])

abbrev pub flutterwave_secret_of : Platform → Vault → String
flutterwave_secret_of p v = first_text (
    v.secret_hash ∷ v.secret_hash_camel ∷ v.webhook_secret ∷ v.secret_key ∷ p.flutterwave_secret
    ∷ [])

abbrev pub verify_signature : Platform → String → String → String → Bool
verify_signature p raw_body signature secret = p.hmac secret raw_body == signature

abbrev pub paystack_signature : Request → String
paystack_signature r =
    first_text (r.headers "x-paystack-signature" ∷ r.headers "X-Paystack-Signature" ∷ [])

abbrev pub flutterwave_signature : Request → String
flutterwave_signature r = first_text (r.headers "verif-hash" ∷ r.headers "Verif-Hash" ∷ [])

unfoldable pub check_paystack : Platform → Request → Metadata → Result (Unit {0})
check_paystack p r m =
    let secret = paystack_secret (p.vault (secret_scope m)) in
    require (not (secret == "") && verify_signature p r.raw_body (paystack_signature r) secret)
      (forbidden "Invalid Paystack signature")

unfoldable pub check_flutterwave : Platform → Request → Metadata → Result (Unit {0})
check_flutterwave p r m = do
  refuse (flutterwave_secret_of p (p.vault (secret_scope m)) == "")
      (forbidden "Flutterwave webhook secret is not configured in the control vault")
  refuse
      (flutterwave_signature r == ""
        || not (flutterwave_signature r == flutterwave_secret_of p (p.vault (secret_scope m))))
      (forbidden "Invalid Flutterwave signature")
  ok tt

-- The checks of the two providers that sign; others are not checked here.
unfoldable pub check_signature : Platform → Request → Metadata → Result (Unit {0})
check_signature p r m =
    if r.provider_id == "paystack"
    then check_paystack p r m
    else if r.provider_id == "flutterwave"
    then check_flutterwave p r m
    else ok tt

-- `handleWebhook` of the momo gateway, by what `JSON.parse` makes of the body; the amount is in
-- hundredths.
pub record MomoPayload : Type 0 where
  pub external_id : Option String
  pub reference : Option String
  pub status : Option String
  pub amount : Option ℕ
  pub currency : Option String

abbrev pub if_not_zero : Option ℕ → Option ℕ
if_not_zero none = none
if_not_zero (some n) = if eqb n 0 then none else some n

-- The headers are an argument that is not looked at.
abbrev pub momo_webhook : (String → Option String) → Option MomoPayload → WebhookResult
momo_webhook headers none = record {
  status = "ignored";
  reference = "";
  amount_minor = none;
  currency = none;
}
momo_webhook headers (some m) = record {
  status = if or_default m.status "" == "SUCCESSFUL" then "success" else "ignored";
  reference = first_text (m.external_id ∷ m.reference ∷ []);
  amount_minor = if_not_zero m.amount;
  currency = some (or_default m.currency "NGN");
}

abbrev pub or_zero : Option ℕ → ℕ
or_zero none = 0
or_zero (some n) = n

abbrev pub input_of : Request → WebhookResult → SettleInput
input_of r w = record {
  reference = w.reference;
  amount_minor = or_zero w.amount_minor;
  currency = or_default w.currency "NGN";
  provider_id = r.provider_id;
  provider_reference = w.reference;
}

abbrev pub answered : String → Option String → Step
answered status tenant_id = answer (record { status = status; tenant_id = tenant_id })

abbrev pub outcome : Request → String → WebhookResult → Step
outcome r tenant_id w =
    if not (w.status == "success") || w.reference == ""
    then answered w.status (some tenant_id)
    else settle tenant_id (input_of r w)

-- Another provider's webhook is ignored; the gateway reads its own.
abbrev pub handled : Request → String → ResolvedGateway → Result Step
handled r tenant_id g =
    if g.id == r.provider_id
    then (g.handle_webhook r.headers r.raw_body >>= λ w. ok (outcome r tenant_id w))
    else ok (answered "ignored" (some tenant_id))

unfoldable pub by_gateway : Platform → Request → Metadata → Result Step
by_gateway p r m = do
  check_signature p r m
  g ← p.resolve_payment (tenant_of m)
  handled r (tenant_of m) g

unfoldable pub read_webhook : Platform → Request → Result Step
read_webhook p r = do
  m ← or_throw (p.parse_body r.raw_body) (bad_request "Invalid webhook body")
  if tenant_of m == "" then ok (answered "ignored" none) else by_gateway p r m

module _ (env : Environment) (control : Control) (ids : FreshIds) where
  abbrev pub settled : String → Result Settled → Result Answer
  settled tenant_id (ok _) = ok (record { status = "success"; tenant_id = some tenant_id })
  settled tenant_id (err e) = err e

  abbrev pub carry_out : Step → Action PaymentsDb Answer
  carry_out (answer a) db = (ok a, db)
  carry_out (settle tenant_id input) db =
      let (r, db') = settle_success env tenant_id control ids input db in (settled tenant_id r, db')

  unfoldable pub settle_from_webhook : Platform → Request → Action PaymentsDb Answer
  settle_from_webhook p r = after_checks (λ _. read_webhook p r) carry_out
