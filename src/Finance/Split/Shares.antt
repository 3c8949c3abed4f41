-- ===== src/Finance/Split/Shares.antt =====
-- The shares of a split (web-server/src/fees-ops/fees-ops.service.ts).
use multi_academy_backend.Prelude.{
  ℕ, ◌+◌, ◌-◌, ◌*◌, ◌≤◌, String, ◌≡◌, inl, inr, refl, Option, none, List, [], ◌∷◌, arith, ◌==◌,
  find_first, count_where, count_where-append, Bool-cases, Option-cases, eq_iff,
}
use native.Mathlib.Nat.{mul-le-mul_left}
use multi_academy_backend.Prelude.Int.{pos}
use multi_academy_backend.Tenant.{Environment}
use multi_academy_backend.Finance.Split.{
  Split, SplitsDb, SplitInput, FeeSplit, saas_share, split_of, rule_for, platform_bps,
  for_reference, record_once, maybe_record_auto_split,
}

none_counted :
    (reference : String) (splits : List Split)
    → find_first (for_reference reference) splits ≡ none
    → count_where (for_reference reference) splits ≡ 0
none_counted reference [] h = refl
none_counted reference (s ∷ splits) h = ground (arith, none_counted reference splits)

-- For a share of at most 100%: the two shares are natural numbers that add up to the gross amount,
-- and the platform's is the exact share rounded to the nearest hundredth.
pub split_of-shares :
    (reference : String) (gross bps : ℕ) (currency : Option String)
    → bps ≤ 10000
    → let s = split_of reference gross bps currency in
      (school : ℕ) × (s.school_share_minor ≡ pos school)
      × (school + s.saas_share_minor ≡ gross)
      × (10000 * s.saas_share_minor ≤ gross * bps + 5000)
      × (gross * bps ≤ 10000 * s.saas_share_minor + 4999)
split_of-shares reference gross bps currency h =
    let below = mul-le-mul_left gross h in
    let fits : saas_share gross bps ≤ gross = omega (arith, below) in
    (
      gross - saas_share gross bps,
      ground (arith, fits),
      omega (arith, fits),
      omega arith,
      omega arith,
    )

-- Each payment reference has at most one split.
abbrev pub HasOneSplitEach : SplitsDb → Type 0
HasOneSplitEach db = (reference : String) → count_where (for_reference reference) db.splits ≤ 1

record_once-HasOneSplitEach :
    (input : SplitInput) (bps : ℕ) (db : SplitsDb)
    → HasOneSplitEach db
    → HasOneSplitEach (record_once input bps db)
record_once-HasOneSplitEach input bps db h reference =
    elim (Option-cases (find_first (for_reference input.payment_reference) db.splits)) [
      | inr (s, found) ↦ rw found (h reference)
      | inl absent ↦
          let none_yet = none_counted input.payment_reference db.splits absent in
          let added =
            count_where-append (for_reference reference) db.splits
              (split_of input.payment_reference input.gross_minor bps input.currency ∷ []) in
          elim (Bool-cases (input.payment_reference == reference)) [
            | inl this ↦
                let e : input.payment_reference ≡ reference =
                  (eq_iff input.payment_reference reference).0 this in
                let none_here : count_where (for_reference reference) db.splits ≡ 0 =
                  rw e at none_yet in
                rw (absent, added, this) (omega (arith, none_here))
            | inr other ↦ rw (absent, added, other) (omega (arith, h reference))
          ]
    ]

-- The automatic split of a payment is recorded at most once: where each payment reference has at
-- most one split, it is so after any automatic split, with any rules.
pub maybe_record_auto_split-HasOneSplitEach :
    (env : Environment) (tenant_id : String) (rules : List FeeSplit) (input : SplitInput)
    (db : SplitsDb)
    → HasOneSplitEach db
    → HasOneSplitEach (maybe_record_auto_split env tenant_id rules input db)
unfolding maybe_record_auto_split
maybe_record_auto_split-HasOneSplitEach env tenant_id rules input db h =
    elim (Bool-cases (input.session_kind == "saas_subscription")) [
      | inl saas ↦ rw saas h
      | inr fees ↦ elim (Bool-cases (env.resolve tenant_id "fees.split_settlement")) [
        | inr off ↦ rw (fees, off) h
        | inl on ↦ elim (Bool-cases (env.tenant_exists tenant_id)) [
          | inr absent ↦ rw (fees, on, absent) h
          | inl present ↦ elim (Option-cases (platform_bps (rule_for rules input.provider_id))) [
            | inl none_set ↦ rw (fees, on, present, none_set) h
            | inr (bps, set) ↦
                rw (fees, on, present, set) (record_once-HasOneSplitEach input bps db h)
          ]
        ]
      ]
    ]
