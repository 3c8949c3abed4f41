-- ===== src/Payments/Verify/Plans.antt =====
-- Installment plans (`createInstallmentPlan` of
-- web-server/src/financial/gateway-payments.service.ts).
use multi_academy_backend.Prelude.{
  ℕ, suc, ◌+◌, ◌*◌, ◌≤◌, String, ◌≡◌, false, Option, List, [], ◌∷◌, ◌++◌, arith, sum_of,
  sum_of-append,
}
use multi_academy_backend.Http.{ok}
use multi_academy_backend.Http.Checked.{checked-ok, passed, refused, required, thrown}
use multi_academy_backend.Tenant.{Environment}
use multi_academy_backend.Payments.Tables.{PaymentsDb, Installment}
use multi_academy_backend.Payments.Verify.{
  Part, PlanBody, expected, apart, sum_of_parts, add_installments, installment_of, may_plan,
  create_installment_plan,
}

-- The amounts of all installments.
abbrev pub planned : List Installment → ℕ
planned = sum_of (λ i. i.amount)

planned-add_installments :
    (fresh : ℕ → String) (id : String) (n : ℕ) (parts : List Part) (rows : List Installment)
    → planned (add_installments fresh id n parts rows) ≡ planned rows + sum_of_parts parts
planned-add_installments fresh id n [] rows = omega arith
planned-add_installments fresh id n (p ∷ parts) rows = omega (
  arith,
  planned-add_installments fresh id (suc n) parts (rows ++ installment_of fresh id n p ∷ []),
  sum_of-append (λ i. i.amount) rows (installment_of fresh id n p ∷ []),
)

near : (a b : ℕ) → apart a b ≡ false → (a ≤ b + 500) × (b ≤ a + 500)
near a b h = (ground arith, ground arith)

may_plan-near :
    (env : Environment) (tenant_id : String) (body : PlanBody) (db : PaymentsDb) {i : String}
    → may_plan env tenant_id body db ≡ ok i
    → apart (100 * sum_of_parts body.installments) (expected body) ≡ false
unfolding may_plan
may_plan-near env tenant_id body db h =
    let (_, h1) = passed _ _ h in
    let (_, h2) = refused _ _ _ h1 in
    let (_, _, h3) = thrown _ _ _ h2 in
    let (_, h4) = required _ _ _ h3 in
    let (_, h5) = refused _ _ _ h4 in let (close, _) = refused _ _ _ h5 in close

-- A plan that is accepted adds installments whose amounts together are the total with its surcharge, up
-- to 5 hundredths.
pub create_installment_plan-total :
    (env : Environment) (tenant_id id : String) (fresh : ℕ → String) (created_by : Option String)
    (body : PlanBody) (db : PaymentsDb) {r : String}
    → (create_installment_plan env tenant_id id fresh created_by body db).0 ≡ ok r
    → let after = (create_installment_plan env tenant_id id fresh created_by body db).1 in
      (100 * planned after.installments ≤ 100 * planned db.installments + expected body + 500)
      × (100 * planned db.installments + expected body ≤ 100 * planned after.installments + 500)
unfolding create_installment_plan
create_installment_plan-total env tenant_id id fresh created_by body db h =
    let (i, passes, _, state) = checked-ok _ _ _ db h in
    let (at_most, at_least) =
      near (100 * sum_of_parts body.installments) (expected body)
        (may_plan-near env tenant_id body db passes) in
    let sum = planned-add_installments fresh id 1 body.installments db.installments in
    rw state (omega (arith, sum, at_most, at_least), omega (arith, sum, at_most, at_least))
