-- ===== src/Payments/Settle/Idempotence.antt =====
-- Repeated settlements and refused ones (`settleSuccess` of
-- web-server/src/financial/gateway-payments.service.ts).
use multi_academy_backend.Prelude.{
  String, ◌≡◌, inl, inr, refl, true, not, ◌||◌, Option, none, some, List, arith, eqb, ◌==◌, ◌∙◌,
  find_first, update_where, find_first-update_where, find_first-passes, eq_iff, eq_refl,
  Option-cases, Bool-cases,
}
use multi_academy_backend.Http.{Result, ok, err, HttpError, Fails}
use multi_academy_backend.Tenant.{Environment, get_tenant_ds}
use multi_academy_backend.Payments.Tables.{
  CheckoutSession, Payment, PaymentsDb, is_settled, has_reference,
}
use multi_academy_backend.Payments.Settle.{
  SettleInput, FreshIds, Control, Settled, session_id, is_session, settle_row, mark_settled,
  record_payment, settle_invoice, settle_installment, credit_advance, announce, settle_saas,
  settle_payment, settle_open, settle_success, find_payment, payment_of, add_payment, same_currency,
  saas_number,
}

-- The sessions after the settlement of one.
abbrev pub settled_sessions : CheckoutSession → String → PaymentsDb → List CheckoutSession
settled_sessions session provider_reference db =
    update_where (is_session session.id) (settle_row provider_reference) db.sessions

-- Between two databases the sessions and the payments are the same.
pub record Keeps (db db' : PaymentsDb) : Type 0 where
  pub sessions : db'.sessions ≡ db.sessions
  pub payments : db'.payments ≡ db.payments

announce-Keeps :
    (control : Control) (session : CheckoutSession) (input : SettleInput) (db : PaymentsDb)
    → Keeps db (announce control session input db)
unfolding announce
announce-Keeps control session input db = ground arith

credit_advance-Keeps :
    (ids : FreshIds) (session : CheckoutSession) (input : SettleInput) (db : PaymentsDb)
    → Keeps db (credit_advance ids session input db)
unfolding credit_advance
credit_advance-Keeps ids session input db = ground arith

settle_installment-Keeps :
    (id : Option String) (db : PaymentsDb) → Keeps db (settle_installment id db)
unfolding settle_installment
settle_installment-Keeps none db = record { sessions = refl; payments = refl }
settle_installment-Keeps (some id) db = ground arith

settle_invoice-Keeps : (id : Option String) (db : PaymentsDb) → Keeps db (settle_invoice id db)
unfolding settle_invoice
settle_invoice-Keeps none db = record { sessions = refl; payments = refl }
settle_invoice-Keeps (some id) db = ground arith

Keeps-trans : {a b c : PaymentsDb} → Keeps a b → Keeps b c → Keeps a c
Keeps-trans h k = record { sessions = k.sessions ∙ h.sessions; payments = k.payments ∙ h.payments }

-- The later steps of a settlement leave the session and the payment that it wrote.
pub record_payment-Keeps :
    (control : Control) (ids : FreshIds) (session : CheckoutSession) (input : SettleInput)
    (db : PaymentsDb)
    → Keeps
        (mark_settled session input.provider_reference
          (add_payment (payment_of ids session input) db))
        (record_payment control ids session input db)
unfolding record_payment
record_payment-Keeps control ids session input db =
    Keeps-trans (settle_invoice-Keeps session.invoice_id _) (
      Keeps-trans (settle_installment-Keeps session.installment_id _) (
        Keeps-trans (credit_advance-Keeps ids session input _)
          (announce-Keeps control session input _)))

-- What an open session's settlement leaves behind: nothing changed and an exception, or the
-- session marked as settled.
pub data Outcome (session : CheckoutSession) (input : SettleInput) (db : PaymentsDb)
    : Result Settled × PaymentsDb → Type 0 where
  refused : (e : HttpError) → Outcome session input db (err e, db)
  done :
      (answer : Settled) (db' : PaymentsDb)
      → db'.sessions ≡ settled_sessions session input.provider_reference db
      → Outcome session input db (ok answer, db')

settle_saas-Outcome :
    (control : Control) (session : CheckoutSession) (input : SettleInput) (db : PaymentsDb)
    → Outcome session input db (settle_saas control session input db)
unfolding settle_saas
settle_saas-Outcome control session input db =
    elim (Option-cases (saas_number control session.invoice_id)) [
      | inl bad ↦ rw bad (refused _)
      | inr (n, good) ↦ elim (Option-cases control.refusal) [
        | inl taken ↦ rw (good, taken) (done _ _ refl)
        | inr (e, thrown) ↦ rw (good, thrown) (refused e)
      ]
    ]

settle_payment-Outcome :
    (control : Control) (ids : FreshIds) (session : CheckoutSession) (input : SettleInput)
    (existing : Option Payment) (db : PaymentsDb)
    → Outcome session input db (settle_payment control ids session input existing db)
settle_payment-Outcome control ids session input none db =
    done _ _ (record_payment-Keeps control ids session input db).sessions
settle_payment-Outcome control ids session input (some p) db = done _ _ refl

module _ (env : Environment) (tenant_id : String) (control : Control) (ids : FreshIds) where
  settle_open-Outcome :
      (session : CheckoutSession) (input : SettleInput) (db : PaymentsDb)
      → Outcome session input db (settle_open env tenant_id control ids session input db)
  unfolding settle_open
  settle_open-Outcome session input db =
      elim (Bool-cases (eqb input.amount_minor 0 || not (eqb input.amount_minor session.amount))) [
        | inl wrong ↦ rw wrong (refused _)
        | inr right ↦ elim (Bool-cases (same_currency env tenant_id control ids session input)) [
          | inr other ↦ rw (right, other) (refused _)
          | inl same ↦ elim (Bool-cases (session.kind == "saas_subscription")) [
            | inl saas ↦ rw (right, same, saas) (settle_saas-Outcome control session input db)
            | inr fees ↦
                rw (right, same, fees)
                  (settle_payment-Outcome control ids session input
                    (find_payment input.provider_reference db) db)
          ]
        ]
      ]

  -- The ways a settlement can go: the call is refused, or the session of the reference was
  -- settled before, or it is open and the outcome is that of `settle_open`.
  pub data Course (input : SettleInput) (db : PaymentsDb)
      : Result Settled × PaymentsDb → Type 0 where
    turned_away : (e : HttpError) → Course input db (err e, db)
    repeated :
        (session : CheckoutSession)
        → find_first (has_reference input.reference) db.sessions ≡ some session
        → is_settled session ≡ true
        → Course input db (ok (session_id session.id), db)
    fresh :
        (session : CheckoutSession) (answer : Settled) (db' : PaymentsDb)
        → find_first (has_reference input.reference) db.sessions ≡ some session
        → db'.sessions ≡ settled_sessions session input.provider_reference db
        → Course input db (ok answer, db')

  Outcome-Course :
      {session : CheckoutSession} {input : SettleInput} {db : PaymentsDb}
      {r : Result Settled × PaymentsDb}
      → find_first (has_reference input.reference) db.sessions ≡ some session
      → Outcome session input db r
      → Course input db r
  Outcome-Course found (refused e) = turned_away e
  Outcome-Course found (done answer db' marked) = fresh _ answer db' found marked

  settle_success-Course :
      (input : SettleInput) (db : PaymentsDb)
      → Course input db (settle_success env tenant_id control ids input db)
  unfolding settle_success get_tenant_ds
  settle_success-Course input db = elim (Bool-cases (env.tenant_exists tenant_id)) [
    | inr absent ↦ rw absent (turned_away _)
    | inl present ↦ elim (Option-cases (find_first (has_reference input.reference) db.sessions)) [
      | inl missing ↦ rw (present, missing) (turned_away _)
      | inr (session, found) ↦ elim (Bool-cases (is_settled session)) [
        | inl before ↦ rw (present, found, before) (repeated session found before)
        | inr unsettled ↦
            rw (present, found, unsettled)
              (Outcome-Course found (settle_open-Outcome session input db))
      ]
    ]
  ]

  Course-unchanged :
      {input : SettleInput} {db : PaymentsDb} {r : Result Settled × PaymentsDb}
      → Course input db r
      → Fails r.0
      → r.1 ≡ db
  Course-unchanged (turned_away e) h = refl
  Course-unchanged (repeated session found before) h = refl
  Course-unchanged (fresh session answer db' found marked) h = elim h [ ]

  Course-settled :
      {input : SettleInput} {db : PaymentsDb} {r : Result Settled × PaymentsDb} {answer : Settled}
      → Course input db r
      → r.0 ≡ ok answer
      → (session : CheckoutSession) × (find_first (has_reference input.reference) r.1.sessions
          ≡ some session)
        × (is_settled session ≡ true)
  Course-settled (turned_away e) h = cc
  Course-settled (repeated session found before) h = (session, found, before)
  Course-settled {input} {db} (fresh session answer db' found marked) h =
      let hit =
        find_first-update_where (has_reference input.reference) (is_session session.id)
          (settle_row input.provider_reference) db.sessions (λ x. refl) found
          (eq_refl session.id) in
      (settle_row input.provider_reference session, rw marked hit, refl)

  -- A settlement that throws has written nothing.
  pub settle_success-Fails_unchanged :
      (input : SettleInput) (db : PaymentsDb)
      → Fails (settle_success env tenant_id control ids input db).0
      → (settle_success env tenant_id control ids input db).1 ≡ db
  settle_success-Fails_unchanged input db h = Course-unchanged (settle_success-Course input db) h

  -- Where the session of a reference is settled, a settlement answers its id and writes nothing.
  settle_success-repeated :
      (input : SettleInput) (db : PaymentsDb) (session : CheckoutSession)
      → env.tenant_exists tenant_id ≡ true
      → find_first (has_reference input.reference) db.sessions ≡ some session
      → is_settled session ≡ true
      → settle_success env tenant_id control ids input db ≡ (ok (session_id session.id), db)
  unfolding settle_success get_tenant_ds
  settle_success-repeated input db session present found before = rw (present, found, before)

  -- The session that a successful settlement left settled.
  settle_success-settled :
      (input : SettleInput) (db : PaymentsDb) (answer : Settled)
      → (settle_success env tenant_id control ids input db).0 ≡ ok answer
      → (session : CheckoutSession) × (find_first
            (has_reference input.reference)
            (settle_success env tenant_id control ids input db).1.sessions
          ≡ some session)
        × (is_settled session ≡ true)
  settle_success-settled input db answer h = Course-settled (settle_success-Course input db) h

-- For a tenant that exists: once a settlement of a reference has answered, each further call with
-- the same reference, whatever amount, currency, provider or provider's reference it reports and
-- whatever the control plane does then, answers with the id of a session of that reference and
-- leaves the database as it was.
pub settle_twice :
    (env : Environment) (tenant_id : String) (control again : Control) (ids fresh_ids : FreshIds)
    (input repeat : SettleInput) (db : PaymentsDb) (answer : Settled)
    → env.tenant_exists tenant_id ≡ true
    → repeat.reference ≡ input.reference
    → (settle_success env tenant_id control ids input db).0 ≡ ok answer
    → let after = (settle_success env tenant_id control ids input db).1 in
      (session : CheckoutSession) × (session.reference ≡ input.reference)
      × (settle_success env tenant_id again fresh_ids repeat after
          ≡ (ok (session_id session.id), after))
settle_twice env tenant_id control again ids fresh_ids input repeat db answer present same h =
    let (session, found, settled) =
      settle_success-settled env tenant_id control ids input db answer h in
    let passes = find_first-passes (has_reference input.reference) _ found in
    let after = (settle_success env tenant_id control ids input db).1 in
    let refound : find_first (has_reference repeat.reference) after.sessions ≡ some session =
      rw same found in
    (
      session,
      (eq_iff session.reference input.reference).0 passes,
      settle_success-repeated env tenant_id again fresh_ids repeat _ session present refound
          settled,
    )
