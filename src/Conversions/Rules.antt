-- ===== src/Conversions/Rules.antt =====
-- What `resolveStatus`, `planCredit` and `appliedActionOf` of conversions.service.ts decide together.
use gemone.Prelude.{
  ◌≡◌, ◌↔◌, ◌⊎◌, Bool, true, false, ◌&&◌, ◌||◌, not, Option, none, some, ℤ, pos, ltb_ℤ, arith,
}
use gemone.Fraud.Rules.{FraudAction, allow, hold, review, block}
use gemone.Conversions.Types.{
  ConversionStatus, credited, rejected, ProviderStatus, confirmed, ReviewReason,
  same_conversion_status,
}
use gemone.Conversions.Decisions.{
  resolve_status, resolve_fraud, CreditPlan, plan_credit, stored_status, applied_action_of,
}

abbrev is_confirmed : ProviderStatus → Bool
is_confirmed confirmed = true
is_confirmed ProviderStatus.pending = false
is_confirmed ProviderStatus.rejected = false

abbrev lets_through : Option FraudAction → Bool
lets_through none = true
lets_through (some allow) = true
lets_through (some hold) = false
lets_through (some review) = false
lets_through (some block) = false

abbrev blocks : Option FraudAction → Bool
blocks none = false
blocks (some allow) = false
blocks (some hold) = false
blocks (some review) = false
blocks (some block) = true

-- A confirmed conversion that is worth something and takes nothing back.
abbrev earns : ProviderStatus → ℤ → Bool → Bool
earns said points is_reversal = is_confirmed said && ltb_ℤ (pos 0) points && not is_reversal

-- A conversion is credited to mature exactly when the network confirmed it, it is worth something, it
-- is no reversal, the account is active, and no rule holds or blocks it; its points are held exactly
-- when it earns and either the account is not active or a rule holds it; and otherwise no points move.
pub plan_credit_lem :
    (said : ProviderStatus) (active : Bool) (action : Option FraudAction)
    (reason : Option ReviewReason) (points : ℤ) (is_reversal : Bool)
    → let status = (resolve_status said active action reason).status in
      let plan = plan_credit status points is_reversal in
      (same_conversion_status (stored_status plan status) credited
        ≡ (earns said points is_reversal && active && lets_through action))
      × ((plan.credits && plan.hold_indefinitely) ≡ (
          earns said points is_reversal && not (active && (lets_through action || blocks action))))
      × (plan.credits ≡ (earns said points is_reversal && not (active && blocks action)))
unfolding resolve_status resolve_fraud plan_credit stored_status
plan_credit_lem said active action reason points is_reversal = ground arith

-- What is recorded as applied: a block only where one was asked for and the conversion is rejected, a
-- hold or a review exactly where points are held, and a review only where one was asked for.
applied_action_of_lem :
    (recommended : FraudAction) (plan : CreditPlan) (stored : ConversionStatus)
    → let applied = applied_action_of recommended plan stored in
      (applied ≡ block ↔ ((recommended ≡ block) × (stored ≡ rejected)))
      × (applied ≡ review → recommended ≡ review)
      × (((applied ≡ hold) ⊎ (applied ≡ review)) ↔ (
          (plan.credits ≡ true)
          × (plan.hold_indefinitely ≡ true)
          × (same_conversion_status stored rejected ≡ false)))
unfolding applied_action_of
applied_action_of_lem recommended plan stored = ground arith
