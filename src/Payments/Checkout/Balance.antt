-- ===== src/Payments/Checkout/Balance.antt =====
-- What an accepted checkout may ask for (`createCheckout` of
-- web-server/src/financial/gateway-payments.service.ts).
use multi_academy_backend.Prelude.{
  ◌+◌, ◌<◌, ◌≤◌, String, ◌≡◌, ◌≢◌, inl, inr, refl, Bool, true, false, Option, none, some, [], ◌∷◌,
  arith, ◌==◌, find_first, sum_of-append, Option-cases, eq_iff, ◌∙◌, or_null,
}
use multi_academy_backend.Http.{
  Result, ok, err, HttpError, Result-cases, ◌>>=◌, attempt, refuse_if, and_then, Fails,
}
use multi_academy_backend.Tenant.{Environment}
use multi_academy_backend.Payments.Tables.{
  CheckoutSession, Invoice, PaymentsDb, settled_amount, paid_amount, is_invoice,
}
use multi_academy_backend.Payments.Settle.{Control}
use multi_academy_backend.Payments.Checkout.{
  CheckoutBody, Gateway, Opened, kind_of, admit, check_invoice, invoice_allows, found_invoice,
  asked_invoice, check_installment, open_gateway, new_session, store_session, create_checkout,
}

-- The invoice that a body names can take the amount of the body.
pub record CanTake (env : Environment) (body : CheckoutBody) (db : PaymentsDb) (i : Invoice)
    : Type 0 where
  pub found :
      (id : String) × (or_null body.invoice_id ≡ some id)
      × (find_first (is_invoice id) db.invoices ≡ some i)
  pub same_student : i.student_id ≡ body.student_id
  pub unpaid : env.to_lower_case i.status ≢ "paid"
  pub some_amount : 0 < body.amount
  pub fits : paid_amount i.id db.sessions + body.amount ≤ i.amount

-- A check that was passed, and the rest of the checks.
passed :
    (c : Bool) (e : HttpError) (rest : Result (Unit {0}))
    → refuse_if c e rest ≡ ok tt
    → (c ≡ false) × (rest ≡ ok tt)
unfolding refuse_if
passed true e rest h = cc
passed false e rest h = (refl, h)

passed_first : (a b : Result (Unit {0})) → and_then a b ≡ ok tt → a ≡ ok tt
unfolding and_then
passed_first (ok tt) b h = refl
passed_first (err e) b h = cc

module _ (env : Environment) (tenant_id : String) where
  invoice_allows-CanTake :
      (body : CheckoutBody) (db : PaymentsDb) (id : String) (i : Invoice)
      → or_null body.invoice_id ≡ some id
      → find_first (is_invoice id) db.invoices ≡ some i
      → 0 < body.amount
      → invoice_allows env tenant_id body db i ≡ ok tt
      → CanTake env body db i
  invoice_allows-CanTake body db id i named found some_amount h =
      let (student, h1) = passed _ _ _ h in
      let (unpaid, h2) = passed _ _ _ h1 in
      let (open_balance, h3) = passed _ _ _ h2 in
      let (fits, _) = passed _ _ _ h3 in
      record {
        found = (id, named, found);
        same_student = (eq_iff i.student_id body.student_id).0 (ground (arith, student));
        unpaid =
            λ paid. ground (arith, unpaid, (eq_iff (env.to_lower_case i.status) "paid").1 paid);
        some_amount = some_amount;
        fits = ground (arith, fits);
      }

  check_invoice-CanTake :
      (body : CheckoutBody) (db : PaymentsDb)
      → kind_of body ≡ "invoice"
      → 0 < body.amount
      → check_invoice env tenant_id body db ≡ ok tt
      → (i : Invoice) × CanTake env body db i
  check_invoice-CanTake body db kind some_amount h = elim (Option-cases (or_null body.invoice_id)) [
    | inl nameless ↦ let bad = rw (kind, nameless) at h in cc
    | inr (id, named) ↦ elim (Option-cases (find_first (is_invoice id) db.invoices)) [
      | inl missing ↦ let bad = rw (kind, named, missing) at h in cc
      | inr (i, found) ↦ (
        i,
        invoice_allows-CanTake body db id i named found some_amount (rw (kind, named, found) at h),
      )
    ]
  ]

  -- The checks, as far as an invoice payment depends on them.
  admit-CanTake :
      (body : CheckoutBody) (db : PaymentsDb)
      → kind_of body ≡ "invoice"
      → admit env tenant_id body db ≡ ok tt
      → (i : Invoice) × CanTake env body db i
  unfolding admit
  admit-CanTake body db kind h =
      let (_, h1) = passed _ _ _ h in
      let (_, h2) = passed _ _ _ h1 in
      let (_, h3) = passed _ _ _ h2 in
      let (some_amount, h4) = passed _ _ _ h3 in
      let (_, h5) = passed _ _ _ h4 in
      check_invoice-CanTake body db kind (ground (arith, some_amount)) (passed_first _ _ h5)

  -- What a checkout does: it is refused and changes nothing, or its checks were passed and the
  -- session is stored as pending.
  pub data Course (control : Control) (gateway : Gateway) (id reference : String)
      (body : CheckoutBody) (created_by : Option String) (db : PaymentsDb)
      : Result CheckoutSession × PaymentsDb → Type 0 where
    turned_away :
        (e : HttpError) → Course control gateway id reference body created_by db (err e, db)
    stored :
        (opened : Opened)
        → admit env tenant_id body db ≡ ok tt
        → Course control gateway id reference body created_by db (
          ok (new_session env tenant_id id reference body created_by opened),
          store_session env tenant_id control
              (new_session env tenant_id id reference body created_by opened)
              db,
        )

  create_checkout-Course :
      (control : Control) (gateway : Gateway) (id reference : String) (body : CheckoutBody)
      (created_by : Option String) (db : PaymentsDb)
      → Course control gateway id reference body created_by db
          (create_checkout env tenant_id control gateway id reference body created_by db)
  unfolding create_checkout
  create_checkout-Course control gateway id reference body created_by db =
      elim (Result-cases (admit env tenant_id body db)) [
        | inr (e, refused) ↦ rw (◌>>=◌, attempt, refused) (turned_away e)
        | inl (_, admitted) ↦ elim (Result-cases (open_gateway env tenant_id gateway body)) [
          | inr (e, closed) ↦ rw (◌>>=◌, attempt, admitted, closed) (turned_away e)
          | inl (opened, answered) ↦
              rw (◌>>=◌, attempt, admitted, answered) (stored opened admitted)
        ]
      ]

  Course-Fails :
      {control : Control} {gateway : Gateway} {id reference : String} {body : CheckoutBody}
      {created_by : Option String} {db : PaymentsDb} {r : Result CheckoutSession × PaymentsDb}
      → Course control gateway id reference body created_by db r
      → Fails r.0
      → r.1 ≡ db
  Course-Fails (turned_away e) h = refl
  Course-Fails (stored opened admitted) h = elim h [ ]

  Course-admitted :
      {control : Control} {gateway : Gateway} {id reference : String} {body : CheckoutBody}
      {created_by : Option String} {db : PaymentsDb} {r : Result CheckoutSession × PaymentsDb}
      {s : CheckoutSession}
      → Course control gateway id reference body created_by db r
      → r.0 ≡ ok s
      → admit env tenant_id body db ≡ ok tt
  Course-admitted (turned_away e) h = cc
  Course-admitted (stored opened admitted) h = admitted

  -- A new session is pending, so that it pays no invoice.
  store_session-paid :
      (control : Control) (id reference : String) (body : CheckoutBody) (created_by : Option String)
      (opened : Opened) (invoice_id : String) (db : PaymentsDb)
      → paid_amount invoice_id
          (store_session env tenant_id control
            (new_session env tenant_id id reference body created_by opened)
            db).sessions
        ≡ paid_amount invoice_id db.sessions
  store_session-paid control id reference body created_by opened invoice_id db =
      let added =
        sum_of-append (settled_amount invoice_id) db.sessions
          (new_session env tenant_id id reference body created_by opened ∷ []) in
      rw added (ground arith)

  found-again :
      (control : Control) (id reference : String) (body : CheckoutBody) (created_by : Option String)
      (opened : Opened) (db : PaymentsDb) (o : Option Invoice)
      → found_invoice env tenant_id body
          (store_session env tenant_id control
            (new_session env tenant_id id reference body created_by opened)
            db)
          o
        ≡ found_invoice env tenant_id body db o
  found-again control id reference body created_by opened db none = refl
  found-again control id reference body created_by opened db (some i) =
      rw (store_session-paid control id reference body created_by opened i.id db) refl

  asked-again :
      (control : Control) (id reference : String) (body : CheckoutBody) (created_by : Option String)
      (opened : Opened) (db : PaymentsDb) (o : Option String)
      → asked_invoice env tenant_id body
          (store_session env tenant_id control
            (new_session env tenant_id id reference body created_by opened)
            db)
          o
        ≡ asked_invoice env tenant_id body db o
  asked-again control id reference body created_by opened db none = refl
  asked-again control id reference body created_by opened db (some invoice_id) =
      found-again control id reference body created_by opened db
        (find_first (is_invoice invoice_id) db.invoices)

  installment-again :
      (control : Control) (s : CheckoutSession) (body : CheckoutBody) (db : PaymentsDb)
      (o : Option String)
      → check_installment env tenant_id body (store_session env tenant_id control s db) o
        ≡ check_installment env tenant_id body db o
  installment-again control s body db none = refl
  installment-again control s body db (some id) =
      elim (Option-cases (find_first (λ i. i.id == id) db.installments)) [
        | inl missing ↦ rw missing refl
        | inr (i, found) ↦ rw found refl
      ]

  admit-again :
      (control : Control) (id reference : String) (body : CheckoutBody) (created_by : Option String)
      (opened : Opened) (db : PaymentsDb)
      → admit env tenant_id body (
          store_session env tenant_id control
            (new_session env tenant_id id reference body created_by opened)
            db)
        ≡ admit env tenant_id body db
  unfolding admit
  admit-again control id reference body created_by opened db =
      rw
        (
          asked-again control id reference body created_by opened db (or_null body.invoice_id),
          installment-again control _ body db (or_null body.installment_id),
        )
        refl

  Course-again :
      {control : Control} {gateway : Gateway} {id reference : String} {body : CheckoutBody}
      {created_by : Option String} {db : PaymentsDb} {r : Result CheckoutSession × PaymentsDb}
      {s : CheckoutSession}
      → Course control gateway id reference body created_by db r
      → r.0 ≡ ok s
      → admit env tenant_id body r.1 ≡ ok tt
  Course-again (turned_away e) h = cc
  Course-again {control} {gateway} {id} {reference} {body} {created_by} {db}
        (stored opened admitted) h =
      admit-again control id reference body created_by opened db ∙ admitted

  accepted :
      (control : Control) (gateway : Gateway) (id reference : String) (body : CheckoutBody)
      (created_by : Option String) (db : PaymentsDb) (opened : Opened)
      → admit env tenant_id body db ≡ ok tt
      → open_gateway env tenant_id gateway body ≡ ok opened
      → (create_checkout env tenant_id control gateway id reference body created_by db).0
        ≡ ok (new_session env tenant_id id reference body created_by opened)
  unfolding create_checkout
  accepted control gateway id reference body created_by db opened admitted answered =
      rw (◌>>=◌, attempt, admitted, answered) refl

-- A checkout of an invoice that is accepted, whatever the gateway and the control plane: the
-- invoice exists and belongs to the student, is not marked as paid, the amount is not 0, and
-- together with what was settled before it does not exceed the amount of the invoice.
pub create_checkout-CanTake :
    (env : Environment) (tenant_id : String) (control : Control) (gateway : Gateway)
    (id reference : String) (body : CheckoutBody) (created_by : Option String) (db : PaymentsDb)
    (s : CheckoutSession)
    → kind_of body ≡ "invoice"
    → (create_checkout env tenant_id control gateway id reference body created_by db).0 ≡ ok s
    → (i : Invoice) × CanTake env body db i
create_checkout-CanTake env tenant_id control gateway id reference body created_by db s kind h =
    admit-CanTake env tenant_id body db kind (
      Course-admitted env tenant_id
        (create_checkout-Course env tenant_id control gateway id reference body created_by db) h)

-- A checkout that throws has changed nothing.
pub create_checkout-Fails_unchanged :
    (env : Environment) (tenant_id : String) (control : Control) (gateway : Gateway)
    (id reference : String) (body : CheckoutBody) (created_by : Option String) (db : PaymentsDb)
    → Fails (create_checkout env tenant_id control gateway id reference body created_by db).0
    → (create_checkout env tenant_id control gateway id reference body created_by db).1 ≡ db
create_checkout-Fails_unchanged env tenant_id control gateway id reference body created_by db h =
    Course-Fails env tenant_id
      (create_checkout-Course env tenant_id control gateway id reference body created_by db) h

-- Only settled sessions count against an invoice: once a checkout was accepted, the same request,
-- with any other id and reference, is accepted again while the first payment is pending, if the
-- gateway answers. Both payments together may exceed the balance that each one respects.
pub create_checkout_again :
    (env : Environment) (tenant_id : String) (control : Control) (gateway : Gateway)
    (id reference id' reference' : String) (body : CheckoutBody) (created_by : Option String)
    (db : PaymentsDb) (s : CheckoutSession) (opened : Opened)
    → (create_checkout env tenant_id control gateway id reference body created_by db).0 ≡ ok s
    → open_gateway env tenant_id gateway body ≡ ok opened
    → let after =
        (create_checkout env tenant_id control gateway id reference body created_by db).1 in
      (create_checkout env tenant_id control gateway id' reference' body created_by after).0
      ≡ ok (new_session env tenant_id id' reference' body created_by opened)
create_checkout_again env tenant_id control gateway id reference id' reference' body created_by db s
      opened h answered =
    accepted env tenant_id control gateway id' reference' body created_by _ opened
      (Course-again env tenant_id
        (create_checkout-Course env tenant_id control gateway id reference body created_by db) h)
      answered
