-- ===== src/Finance/Split.antt =====
-- The split of a fee between the school and the platform
-- (web-server/src/fees-ops/fees-ops.service.ts). Amounts are hundredths, shares basis points.
pub mod Shares
mod Tests
use multi_academy_backend.Prelude.{
  ℕ, ◌+◌, ◌-◌, ◌*◌, ◌/◌, String, Bool, true, false, not, ◌&&◌, ◌||◌, Option, none, some, List, [],
  ◌∷◌, ◌++◌, ◌==◌, eqb, if◌then◌else◌, find_first, or_default,
}
use multi_academy_backend.Prelude.Int.{ℤ, pos, negsuc, sub_ℕ}
use multi_academy_backend.Http.{Action, pure, modify, ◌>>=◌, ◌>>◌}
use multi_academy_backend.Tenant.{Environment, enter}

-- An allocation of a rule; `percentage_bps` where it is a natural number.
pub record Allocation : Type 0 where
  pub destination : String
  pub percentage_bps : Option ℕ

-- A rule of the control plane's `feeSplits`.
pub record FeeSplit : Type 0 where
  pub fee_type : String
  pub provider_id : String
  pub allocations : List Allocation

-- A row of `fee_split_settlements`.
pub record Split : Type 0 where
  pub payment_reference : String
  pub gross_minor : ℕ
  pub school_share_minor : ℤ
  pub saas_share_minor : ℕ
  pub currency : String

pub record SplitsDb : Type 0 where
  pub splits : List Split

pub record SplitInput : Type 0 where
  pub payment_reference : String
  pub gross_minor : ℕ
  pub currency : Option String
  pub provider_id : String
  pub session_kind : String

-- `Math.round((gross * bps) / 10_000)`: halves round up.
abbrev pub saas_share : ℕ → ℕ → ℕ
saas_share gross bps = (gross * bps + 5000) / 10000

abbrev pub split_of : String → ℕ → ℕ → Option String → Split
split_of reference gross bps currency = record {
  payment_reference = reference;
  gross_minor = gross;
  school_share_minor = sub_ℕ gross (saas_share gross bps);
  saas_share_minor = saas_share gross bps;
  currency = or_default currency "NGN";
}

abbrev pub is_for_provider : String → FeeSplit → Bool
is_for_provider provider_id r = r.fee_type == "school_fees" && r.provider_id == provider_id

abbrev pub or_else : Option FeeSplit → Option FeeSplit → Option FeeSplit
or_else none r = r
or_else (some r) _ = some r

-- The provider's own rule, else the first rule for school fees.
abbrev pub rule_for : List FeeSplit → String → Option FeeSplit
rule_for rules provider_id =
    or_else (find_first (is_for_provider provider_id) rules)
      (find_first (λ r. r.fee_type == "school_fees") rules)

-- The platform's share of a rule; none where there is no positive one.
abbrev pub bps_of_allocation : Option Allocation → Option ℕ
bps_of_allocation none = none
bps_of_allocation (some a) = elim a.percentage_bps [
  | none ↦ none
  | some n ↦ if eqb n 0 then none else some n
]

abbrev pub platform_bps : Option FeeSplit → Option ℕ
platform_bps none = none
platform_bps (some r) =
    bps_of_allocation (find_first (λ a. a.destination == "platform") r.allocations)

abbrev pub for_reference : String → Split → Bool
for_reference reference s = s.payment_reference == reference

abbrev pub add_split : Split → SplitsDb → SplitsDb
add_split s db = record db { splits = db.splits ++ s ∷ [] }

-- The insert, where no split of the payment is there.
abbrev pub add_unless : Option Split → Split → SplitsDb → SplitsDb
add_unless none s db = add_split s db
add_unless (some _) s db = db

abbrev pub record_once : SplitInput → ℕ → SplitsDb → SplitsDb
record_once input bps db =
    add_unless (find_first (for_reference input.payment_reference) db.splits)
      (split_of input.payment_reference input.gross_minor bps input.currency) db

abbrev pub split_by : SplitInput → Option ℕ → SplitsDb → SplitsDb
split_by input none db = db
split_by input (some bps) db = record_once input bps db

module _ (env : Environment) (tenant_id : String) where
  -- The exceptions of the steps are caught, so that what is left is the state.
  unfoldable pub maybe_record_auto_split : List FeeSplit → SplitInput → SplitsDb → SplitsDb
  maybe_record_auto_split rules input db =
      if input.session_kind == "saas_subscription"
      then db
      else if not (env.resolve tenant_id "fees.split_settlement")
      then db
      else if not (env.tenant_exists tenant_id)
      then db
      else split_by input (platform_bps (rule_for rules input.provider_id)) db

  -- `createSplit`, for a share that is a natural number.
  unfoldable pub create_split : String → ℕ → Option ℕ → Option String → Action SplitsDb Split
  create_split reference gross bps currency = do
    enter env tenant_id "fees.split_settlement"
    let s = split_of reference gross (elim bps [ none ↦ 250 | some n ↦ n ]) currency in
        (modify (add_split s) >> pure s)
