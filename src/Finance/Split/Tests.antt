-- ===== src/Finance/Split/Tests.antt =====
-- Runs of the split of fees.
use multi_academy_backend.Prelude.{ℕ, ◌≡◌, ◌≤◌, ◌+◌, ◌*◌, refl, none, some, [], ◌∷◌, arith}
use multi_academy_backend.Prelude.Int.{pos}
use multi_academy_backend.Tenant.{open_school}
use multi_academy_backend.Finance.Split.{
  SplitsDb, SplitInput, FeeSplit, split_of, saas_share, maybe_record_auto_split,
}
use multi_academy_backend.Finance.Split.Shares.{
  HasOneSplitEach, split_of-shares, maybe_record_auto_split-HasOneSplitEach,
}

abbrev rule : FeeSplit
rule = record {
  fee_type = "school_fees";
  provider_id = "flutterwave";
  allocations = record { destination = "platform"; percentage_bps = some 250 } ∷ [];
}

abbrev input : SplitInput
input = record {
  payment_reference = "ref1";
  gross_minor = 1000;
  currency = none;
  provider_id = "paystack";
  session_kind = "invoice";
}

abbrev no_splits : SplitsDb
no_splits = record { splits = [] }

auto_run :
    (maybe_record_auto_split open_school "t1" (rule ∷ []) input no_splits).splits
    ≡ record {
      payment_reference = "ref1";
      gross_minor = 1000;
      school_share_minor = pos 975;
      saas_share_minor = 25;
      currency = "NGN";
    }
      ∷ []
unfolding maybe_record_auto_split
auto_run = refl

split_of-shares_example :
    (school : ℕ) × ((split_of "ref1" 1000 250 none).school_share_minor ≡ pos school)
    × (school + saas_share 1000 250 ≡ 1000)
    × (10000 * saas_share 1000 250 ≤ 1000 * 250 + 5000)
    × (1000 * 250 ≤ 10000 * saas_share 1000 250 + 4999)
split_of-shares_example = split_of-shares "ref1" 1000 250 none (omega arith)

maybe_record_auto_split-HasOneSplitEach_example :
    HasOneSplitEach (maybe_record_auto_split open_school "t1" (rule ∷ []) input no_splits)
maybe_record_auto_split-HasOneSplitEach_example =
    maybe_record_auto_split-HasOneSplitEach open_school "t1" (rule ∷ []) input no_splits
      (λ reference. omega arith)
