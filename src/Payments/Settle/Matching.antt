-- ===== src/Payments/Settle/Matching.antt =====
-- What a settlement checks and which payment it adds (`settleSuccess` of
-- web-server/src/financial/gateway-payments.service.ts).
use multi_academy_backend.Prelude.{
  ◌<◌, String, ◌≡◌, ◌⊎◌, inl, inr, refl, false, not, ◌||◌, Option, none, some, [], ◌∷◌, ◌++◌, arith,
  eqb, ◌==◌, find_first, Option-cases, Bool-cases, eq_iff, or_default,
}
use multi_academy_backend.Http.{ok}
use multi_academy_backend.Tenant.{Environment, get_tenant_ds}
use multi_academy_backend.Payments.Tables.{
  CheckoutSession, Payment, PaymentsDb, is_settled, has_reference,
}
use multi_academy_backend.Payments.Settle.{
  SettleInput, FreshIds, Control, Settled, settle_open, settle_success, same_currency,
  settle_payment, settle_saas, payment_of, find_payment, saas_number,
}
use multi_academy_backend.Payments.Settle.Idempotence.{record_payment-Keeps}

-- A payment of the session for the reported amount and currency, and the payments that are left:
-- one new payment, of the session's amount, or none for a payment that another call recorded or a
-- SaaS subscription.
pub record Matches (env : Environment) (session : CheckoutSession) (ids : FreshIds)
    (input : SettleInput) (db db' : PaymentsDb) : Type 0 where
  pub some_amount : 0 < input.amount_minor
  pub amount : input.amount_minor ≡ session.amount
  pub currency :
      env.to_upper_case input.currency
      ≡ env.to_upper_case (or_default (some session.currency) "NGN")
  pub payments :
      (db'.payments ≡ db.payments)
      ⊎ ((db'.payments ≡ db.payments ++ payment_of ids session input ∷ [])
          × (find_payment input.provider_reference db ≡ none))

settle_saas-payments :
    (control : Control) (session : CheckoutSession) (input : SettleInput) (db : PaymentsDb)
    → (settle_saas control session input db).1.payments ≡ db.payments
unfolding settle_saas
settle_saas-payments control session input db =
    elim (Option-cases (saas_number control session.invoice_id)) [
      | inl bad ↦ rw bad refl
      | inr (n, good) ↦ elim (Option-cases control.refusal) [
        | inl taken ↦ rw (good, taken) refl
        | inr (e, thrown) ↦ rw (good, thrown) refl
      ]
    ]

settle_payment-payments :
    (control : Control) (ids : FreshIds) (session : CheckoutSession) (input : SettleInput)
    (existing : Option Payment) (db : PaymentsDb)
    → ((settle_payment control ids session input existing db).1.payments ≡ db.payments)
      ⊎ (((settle_payment control ids session input existing db).1.payments
            ≡ db.payments ++ payment_of ids session input ∷ [])
          × (existing ≡ none))
settle_payment-payments control ids session input (some p) db = inl refl
settle_payment-payments control ids session input none db =
    inr ((record_payment-Keeps control ids session input db).payments, refl)

module _ (env : Environment) (tenant_id : String) (control : Control) (ids : FreshIds) where
  settle_open-Matches :
      (session : CheckoutSession) (input : SettleInput) (db : PaymentsDb) (answer : Settled)
      → (settle_open env tenant_id control ids session input db).0 ≡ ok answer
      → Matches env session ids input db (settle_open env tenant_id control ids session input db).1
  unfolding settle_open
  settle_open-Matches session input db answer h =
      elim (Bool-cases (eqb input.amount_minor 0 || not (eqb input.amount_minor session.amount))) [
        | inl wrong ↦ let bad = rw wrong at h in cc
        | inr right ↦ elim (Bool-cases (same_currency env tenant_id control ids session input)) [
          | inr other ↦ let bad = rw (right, other) at h in cc
          | inl same ↦ record {
            some_amount = ground (arith, right);
            amount = ground (arith, right);
            currency = (eq_iff _ _).0 same;
            payments = elim (Bool-cases (session.kind == "saas_subscription")) [
              | inl saas ↦
                  rw (right, same, saas) (inl (settle_saas-payments control session input db))
              | inr fees ↦
                  rw (right, same, fees)
                    (settle_payment-payments control ids session input
                      (find_payment input.provider_reference db) db)
            ];
          }
        ]
      ]

  -- A settlement that succeeds on a session that was not settled: the reported amount is the
  -- session's and not 0, the currencies are the same up to case, and at most one payment is added,
  -- of the session's student, invoice and amount, only where no payment has the provider's reference.
  pub settle_success-Matches :
      (session : CheckoutSession) (input : SettleInput) (db : PaymentsDb) (answer : Settled)
      → find_first (has_reference input.reference) db.sessions ≡ some session
      → is_settled session ≡ false
      → (settle_success env tenant_id control ids input db).0 ≡ ok answer
      → Matches env session ids input db (settle_success env tenant_id control ids input db).1
  unfolding settle_success get_tenant_ds
  settle_success-Matches session input db answer found unsettled h =
      elim (Bool-cases (env.tenant_exists tenant_id)) [
        | inr absent ↦ let bad = rw absent at h in cc
        | inl present ↦
            rw (present, found, unsettled)
              (settle_open-Matches session input db answer (rw (present, found, unsettled) at h))
      ]
