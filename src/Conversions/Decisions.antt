-- ===== src/Conversions/Decisions.antt =====
-- The pure decisions of apps/api/src/modules/conversions/conversions.service.ts (`resolveStatus`,
-- `planCredit`, `appliedActionOf`), and the price of a conversion
-- (apps/api/src/modules/offers/rates.service.ts, internal/offer-normalizer.ts).
use gemone.Prelude.{
  ℕ, suc, ◌*◌, ◌/◌, Bool, true, false, Option, none, some, Text, codes, ℤ, pos, negsuc, leb_ℤ, neg,
  if◌then◌else◌, ◌&&◌, not, [],
}
use gemone.Fraud.Rules.{FraudAction, allow, hold, review, block}
use gemone.Conversions.Types.{
  ConversionStatus, pending, attributed, credited, held, reversed, rejected, ProviderStatus,
  confirmed, RewardRates, ReviewReason, words,
}

-- A product with a whole number that is not negative.
abbrev scale : ℤ → ℕ → ℤ
scale (pos n) k = pos (n * k)
scale (negsuc n) k = neg (pos (suc n * k))

-- `Math.floor(x / 100)`
abbrev floor_percent : ℤ → ℤ
floor_percent (pos n) = pos (n / 100)
floor_percent (negsuc n) = negsuc (n / 100)

-- `toRewardPoints`
unfoldable pub to_reward_points : ℤ → RewardRates → ℤ
to_reward_points payout rates =
    floor_percent (scale (scale payout rates.points_per_minor_unit) rates.reward_share_percent)

pub record Resolved : Type 0 where
  pub status : ConversionStatus
  pub review_reason : Option ReviewReason

-- `x ?? y`
abbrev or_words : Option ReviewReason → Text → ReviewReason
or_words none fallback = words fallback
or_words (some s) fallback = s

-- The rule's reason, where the engine gave one.
unfoldable pub resolve_fraud : Option FraudAction → Option ReviewReason → Resolved
resolve_fraud (some block) reason = record {
  status = rejected;
  review_reason = some (or_words reason (codes "blocked by a fraud rule"));
}
resolve_fraud (some hold) reason = record {
  status = held;
  review_reason = some (or_words reason (codes "held for review by a fraud rule"));
}
resolve_fraud (some review) reason = record {
  status = held;
  review_reason = some (or_words reason (codes "held for review by a fraud rule"));
}
resolve_fraud (some allow) reason = record { status = attributed; review_reason = none }
resolve_fraud none reason = record { status = attributed; review_reason = none }

unfoldable pub resolve_status :
    ProviderStatus → Bool → Option FraudAction → Option ReviewReason → Resolved
unfolding resolve_fraud
resolve_status ProviderStatus.rejected active action reason = record {
  status = rejected;
  review_reason = some (words (codes "the provider reported this conversion as rejected"));
}
resolve_status ProviderStatus.pending active action reason = record {
  status = pending;
  review_reason = none;
}
resolve_status confirmed active action reason =
    if active then resolve_fraud action reason else record {
      status = held;
      review_reason =
          some (words (codes "the account was not active when this conversion arrived"));
    }

pub record CreditPlan : Type 0 where
  pub credits : Bool
  pub hold_indefinitely : Bool
  pub reason : Text

abbrev no_credit : CreditPlan
no_credit = record { credits = false; hold_indefinitely = false; reason = [] }

abbrev plan_of : ConversionStatus → CreditPlan
plan_of attributed = record {
  credits = true;
  hold_indefinitely = false;
  reason = codes "conversion attributed";
}
plan_of held = record {
  credits = true;
  hold_indefinitely = true;
  reason = codes "conversion held for review";
}
plan_of pending = no_credit
plan_of credited = no_credit
plan_of reversed = no_credit
plan_of rejected = no_credit

-- A reversal grants nothing, and neither does a conversion that is worth nothing.
unfoldable pub plan_credit : ConversionStatus → ℤ → Bool → CreditPlan
plan_credit status reward_points is_reversal =
    if is_reversal
    then no_credit
    else if leb_ℤ reward_points (pos 0)
    then no_credit
    else plan_of status

-- `storedStatus`
unfoldable pub stored_status : CreditPlan → ConversionStatus → ConversionStatus
stored_status plan status = if plan.credits && not plan.hold_indefinitely then credited else status

abbrev is_rejected : ConversionStatus → Bool
is_rejected rejected = true
is_rejected pending = false
is_rejected attributed = false
is_rejected credited = false
is_rejected held = false
is_rejected reversed = false

abbrev block_or_allow : FraudAction → FraudAction
block_or_allow block = block
block_or_allow allow = allow
block_or_allow hold = allow
block_or_allow review = allow

abbrev review_or_hold : FraudAction → FraudAction
review_or_hold review = review
review_or_hold allow = hold
review_or_hold hold = hold
review_or_hold block = hold

-- `appliedActionOf`
unfoldable pub applied_action_of : FraudAction → CreditPlan → ConversionStatus → FraudAction
applied_action_of recommended plan stored =
    if is_rejected stored
    then block_or_allow recommended
    else if plan.credits
    then if plan.hold_indefinitely then review_or_hold recommended else allow
    else allow
