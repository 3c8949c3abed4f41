-- ===== src/Payments/Webhook/Signed.antt =====
-- Signatures of webhooks
-- (`settleFromWebhook` of web-server/src/financial/gateway-payments.service.ts).
use multi_academy_backend.Prelude.{
  String, ◌≡◌, refl, sym, ◌∙◌, inl, inr, Bool, true, false, not, ◌&&◌, ◌||◌, some, ◌==◌, arith,
  if◌then◌else◌, Bool-cases, Option, none, eq_iff,
}
use multi_academy_backend.Http.{Result, HttpError, ok, err}
use multi_academy_backend.Http.Checked.{
  ◌>>=◌, ◌>>◌, require, or_throw, refused, passed, thrown, returned, after_checks-cases,
}
use multi_academy_backend.Tenant.{Environment}
use multi_academy_backend.Payments.Tables.{PaymentsDb}
use multi_academy_backend.Payments.Settle.{SettleInput, Control, FreshIds}
use multi_academy_backend.Payments.Webhook.{
  Metadata, Platform, Request, Answer, Step, ResolvedGateway, answer, settle, tenant_of,
  secret_scope, paystack_secret, paystack_signature, flutterwave_secret_of, flutterwave_signature,
  check_paystack, check_flutterwave, check_signature, by_gateway, read_webhook, carry_out,
  settle_from_webhook, MomoPayload, momo_webhook, handled,
}

-- Does a request carry what its provider signs with: Paystack the digest of the body under the secret,
-- Flutterwave the secret itself? There must be a secret.
abbrev pub is_signed : Platform → Request → Metadata → Bool
is_signed p r m =
    let vault = p.vault (secret_scope m) in
    if r.provider_id == "paystack"
    then not (paystack_secret vault == "")
      && p.hmac (paystack_secret vault) r.raw_body == paystack_signature r
    else not (flutterwave_secret_of p vault == "")
      && flutterwave_signature r == flutterwave_secret_of p vault

abbrev pub signs : Request → Bool
signs r = r.provider_id == "paystack" || r.provider_id == "flutterwave"

passed_flutterwave :
    (p : Platform) (r : Request) (m : Metadata)
    → check_flutterwave p r m ≡ ok tt
    → (not (flutterwave_secret_of p (p.vault (secret_scope m)) == "")
        && flutterwave_signature r == flutterwave_secret_of p (p.vault (secret_scope m)))
      ≡ true
unfolding check_flutterwave
passed_flutterwave p r m h =
    let (secret, h1) = refused _ _ _ h in let (same, _) = refused _ _ _ h1 in both _ _ _ secret same
  where
    both : (s e q : Bool) → s ≡ false → (e || not q) ≡ false → (not s && q) ≡ true
    both s e q h k = ground arith

passed_signature :
    (p : Platform) (r : Request) (m : Metadata)
    → signs r ≡ true
    → check_signature p r m ≡ ok tt
    → is_signed p r m ≡ true
unfolding check_signature check_paystack require
passed_signature p r m known h = elim (Bool-cases (r.provider_id == "paystack")) [
  | inl paystack ↦ rw paystack (let k = rw paystack at h in if_ok _ _ k)
  | inr other ↦
      let flutterwave : (r.provider_id == "flutterwave") ≡ true = rw other at known in
      rw other (passed_flutterwave p r m (rw (other, flutterwave) at h))
]
  where
    if_ok :
        (c : Bool) (e : HttpError)
        → ◌≡◌ {A = Result (Unit {0})} (if c then ok tt else err e) (ok tt)
        → c ≡ true
    if_ok true e h = refl
    if_ok false e h = cc

-- A webhook that comes to a settlement has passed the check of its signature.
settles_signed :
    (p : Platform) (r : Request) (m : Metadata) {t : String} {input : SettleInput}
    → p.parse_body r.raw_body ≡ some m
    → read_webhook p r ≡ ok (settle t input)
    → check_signature p r m ≡ ok tt
unfolding read_webhook by_gateway
settles_signed p r m parsed h =
    let (n, found, h1) = thrown _ _ _ h in
    let same : n ≡ m = same_body (sym found ∙ parsed) in
    elim (Bool-cases (tenant_of n == "")) [
      | inl blank ↦ let bad = returned (rw blank at h1) in absurd (no_step bad)
      | inr named ↦ rw (← same) (passed _ _ (rw named at h1)).0
    ]
  where
    no_step : {a : Answer} {t : String} {i : SettleInput} → answer a ≡ settle t i → ⊥
    no_step e = cc

    same_body : {a b : Metadata} → some a ≡ some b → a ≡ b
    same_body e = cc

-- The same request under other headers.
abbrev pub with_headers : (String → Option String) → Request → Request
with_headers headers r = record r { headers = headers }

-- Every gateway of the kind momo reads its webhooks as momo.gateway.ts does, which looks at the body
-- alone, by what the parser makes of it; none where the parser throws.
abbrev pub ReadsAsMomo : Platform → (String → Option MomoPayload) → Type 0
ReadsAsMomo p parse =
    (tenant_id : String) (g : ResolvedGateway) (headers : String → Option String) (body : String)
    → p.resolve_payment tenant_id ≡ ok g
    → g.id ≡ "momo"
    → g.handle_webhook headers body ≡ ok (momo_webhook headers (parse body))

handled-headers :
    (p : Platform) (parse : String → Option MomoPayload) (r : Request)
    (headers : String → Option String) (tenant_id : String) (g : ResolvedGateway)
    → ReadsAsMomo p parse
    → r.provider_id ≡ "momo"
    → p.resolve_payment tenant_id ≡ ok g
    → handled (with_headers headers r) tenant_id g ≡ handled r tenant_id g
handled-headers p parse r headers tenant_id g reads momo resolved =
    elim (Bool-cases (g.id == r.provider_id)) [
      | inl same ↦
          let is_momo : g.id ≡ "momo" = ground (arith, eq_iff g.id r.provider_id) in
          rw
            (
              same,
              reads tenant_id g headers r.raw_body resolved is_momo,
              reads tenant_id g r.headers r.raw_body resolved is_momo,
            )
            refl
      | inr other ↦ rw other refl
    ]

read_webhook-headers :
    (p : Platform) (parse : String → Option MomoPayload) (r : Request)
    (headers : String → Option String)
    → ReadsAsMomo p parse
    → r.provider_id ≡ "momo"
    → read_webhook p (with_headers headers r) ≡ read_webhook p r
unfolding read_webhook by_gateway check_signature or_throw ◌>>=◌ ◌>>◌
read_webhook-headers p parse r headers reads momo = by_body (p.parse_body r.raw_body) refl
  where
    by_tenant :
        (t : String) (g : Result ResolvedGateway)
        → p.resolve_payment t ≡ g
        → (g >>= handled (with_headers headers r) t) ≡ (g >>= handled r t)
    by_tenant t (ok g) e = handled-headers p parse r headers t g reads momo e
    by_tenant t (err x) e = refl

    by_body :
        (o : Option Metadata)
        → p.parse_body r.raw_body ≡ o
        → read_webhook p (with_headers headers r) ≡ read_webhook p r
    by_body none e = rw e refl
    by_body (some m) e = elim (Bool-cases (tenant_of m == "")) [
      | inl blank ↦ rw (e, blank) refl
      | inr named ↦
          let no_paystack : (r.provider_id == "paystack") ≡ false = rw momo refl in
          let no_flutterwave : (r.provider_id == "flutterwave") ≡ false = rw momo refl in
          rw (e, named, no_paystack, no_flutterwave) (by_tenant (tenant_of m) _ refl)
    ]

module _ (env : Environment) (control : Control) (ids : FreshIds) where
  -- A webhook of Paystack or Flutterwave that is not signed as its provider signs changes nothing.
  -- The secret is that of the vault which the body's metadata selects, the platform's when the kind is
  -- saas_subscription and the tenant's otherwise, or for Flutterwave the server's own where that vault
  -- has none.
  pub unsigned_webhook :
      (p : Platform) (r : Request) (m : Metadata) (db : PaymentsDb)
      → p.parse_body r.raw_body ≡ some m
      → signs r ≡ true
      → is_signed p r m ≡ false
      → (settle_from_webhook env control ids p r db).1 ≡ db
  unfolding settle_from_webhook
  unsigned_webhook p r m db parsed known unsigned =
      elim (after_checks-cases (λ _. read_webhook p r) (carry_out env control ids) db) [
        | inl (_, same) ↦ same
        | inr (step, passes, run) ↦ rw run (kept step passes)
      ]
    where
      kept : (step : Step) → read_webhook p r ≡ ok step → (carry_out env control ids step db).1 ≡ db
      kept (answer a) h = refl
      kept (settle t input) h =
          let signed = passed_signature p r m known (settles_signed p r m parsed h) in absurd (cc)

  -- Where every gateway of the kind momo reads its webhooks as momo.gateway.ts does, a momo webhook with
  -- any headers does what the same body does under any other headers: the answer and the database are
  -- the same, so that no signature or secret in a header has a part in the settlement.
  pub momo_webhook-ignores_headers :
      (p : Platform) (parse : String → Option MomoPayload) (r : Request)
      (headers : String → Option String) (db : PaymentsDb)
      → ReadsAsMomo p parse
      → r.provider_id ≡ "momo"
      → settle_from_webhook env control ids p (with_headers headers r) db
        ≡ settle_from_webhook env control ids p r db
  unfolding settle_from_webhook
  momo_webhook-ignores_headers p parse r headers db reads momo =
      rw (read_webhook-headers p parse r headers reads momo) refl
