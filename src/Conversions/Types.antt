-- ===== src/Conversions/Types.antt =====
-- packages/contracts/src/conversions.ts, the rows of `conversions`, `clicks` and
-- `fraud_evaluations` (apps/api/prisma/schema.prisma), and what an adapter returns
-- (apps/api/src/modules/providers/contracts/normalized.ts).
use gemone.Prelude.{ℕ, Bool, Option, Text, List, ℤ, ◌==◌}
use gemone.Rewards.Store.{Ledger}
use gemone.Fraud.Rules.{FraudAction, Detail}
use gemone.Fraud.Engine.{FraudEvaluationResult}
use gemone.Postbacks.Types.{ProviderPostback}

pub data ConversionStatus : Type 0 where
  pending attributed credited held reversed rejected : ConversionStatus

abbrev status_tag : ConversionStatus → ℕ
status_tag pending = 0
status_tag attributed = 1
status_tag credited = 2
status_tag held = 3
status_tag reversed = 4
status_tag rejected = 5

abbrev pub same_conversion_status : ConversionStatus → ConversionStatus → Bool
same_conversion_status a b = status_tag a == status_tag b

pub data ConversionType : Type 0 where
  conversion reversal : ConversionType

abbrev type_tag : ConversionType → ℕ
type_tag conversion = 0
type_tag reversal = 1

abbrev pub same_conversion_type : ConversionType → ConversionType → Bool
same_conversion_type a b = type_tag a == type_tag b

pub data QuarantineReason : Type 0 where
  sub_id_invalid click_not_found attribution_expired provider_mismatch : QuarantineReason
  currency_mismatch reversal_original_not_found reversal_ambiguous : QuarantineReason
  payload_unreadable provider_unavailable : QuarantineReason

-- `ConversionStatus` of the adapter contract: what the network says.
pub data ProviderStatus : Type 0 where
  confirmed pending rejected : ProviderStatus

pub record NormalizedConversion : Type 0 where
  pub sub_id : Text
  pub external_transaction_id : Text
  pub payout_amount_minor : ℤ
  pub payout_currency : Text
  pub status : ProviderStatus
  pub is_reversal : Bool
  pub external_offer_id : Option Text
  pub occurred_at : Option ℕ

pub record Click : Type 0 where
  pub id : ℕ
  pub user_id : ℕ
  pub offer_id : ℕ
  pub provider_id : ℕ
  pub sub_id : Text
  pub offer_title_snapshot : Text
  pub reward_points_snapshot : ℤ
  pub ip_address : Option Text
  pub user_agent : Option Text
  pub device_fingerprint : Option Text
  pub referrer : Option Text
  pub attribution_expires_at : ℕ
  pub created_at : ℕ

pub record RewardRates : Type 0 where
  pub points_per_minor_unit : ℕ
  pub reward_share_percent : ℕ
  pub accounting_currency : Text

-- A stored reason: a sentence, or the details of the fraud rules that fired, joined by `; `.
pub data ReviewReason : Type 0 where
  words : Text → ReviewReason
  rule_details : List Detail → ReviewReason

pub record Conversion : Type 0 where
  pub id : ℕ
  pub click_id : ℕ
  pub user_id : ℕ
  pub provider_id : ℕ
  pub offer_id : ℕ
  pub postback_id : ℕ
  pub kind : ConversionType
  pub status : ConversionStatus
  pub external_transaction_id : Text
  pub external_offer_id : Option Text
  pub payout_amount_minor : ℤ
  pub payout_currency : Text
  pub provider_status : ProviderStatus
  pub occurred_at : Option ℕ
  pub reward_points : ℤ
  pub points_per_minor_unit : ℕ
  pub reward_share_percent : ℕ
  pub reversal_of_id : Option ℕ
  pub review_reason : Option ReviewReason
  pub fraud_evaluation_id : Option ℕ
  pub reviewed_by_admin_id : Option ℕ
  pub reviewed_at : Option ℕ
  pub created_at : ℕ

pub record FraudEvaluation : Type 0 where
  pub id : ℕ
  pub user_id : ℕ
  pub result : FraudEvaluationResult
  pub applied_action : FraudAction

-- The tables that processing reads and writes.
pub record Tables : Type 0 where
  pub ledger : Ledger
  pub postbacks : List ProviderPostback
  pub clicks : List Click
  pub conversions : List Conversion
  pub evaluations : List FraudEvaluation
