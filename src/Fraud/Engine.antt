-- ===== src/Fraud/Engine.antt =====
-- `evaluateRules` and `combineActions` of apps/api/src/modules/fraud/internal/rule-engine.ts.
use gemone.Prelude.{ℕ, ◌+◌, Bool, ◌&&◌, List, [], ◌∷◌, ltb, if◌then◌else◌, map}
use gemone.Fraud.Rules.{
  FraudAction, allow, severity, FraudRuleId, FraudRuleSetting, RuleSettings, FraudEvaluationContext,
  SkipReason, scoring_disabled, rule_disabled, Detail, RuleOutcome, fired, quiet, skip, evaluate,
  rules_in_order,
}

pub record TriggeredRule : Type 0 where
  pub rule : FraudRuleId
  pub observed : ℕ
  pub threshold : ℕ
  pub weight : ℕ
  pub action : FraudAction
  pub detail : Detail

pub record FraudRuleSnapshot : Type 0 where
  pub rule : FraudRuleId
  pub enabled : Bool
  pub threshold : ℕ
  pub weight : ℕ
  pub action : FraudAction

pub record SkippedRule : Type 0 where
  pub rule : FraudRuleId
  pub reason : SkipReason

pub record FraudEvaluationResult : Type 0 where
  pub score : ℕ
  pub action : FraudAction
  pub triggered : List TriggeredRule
  pub snapshot : List FraudRuleSnapshot
  pub skipped : List SkippedRule

-- The more severe of two actions, the earlier where they are equal.
unfoldable pub worse : FraudAction → FraudAction → FraudAction
worse worst a = if ltb (severity worst) (severity a) then a else worst

unfoldable pub combine_from : FraudAction → List TriggeredRule → FraudAction
combine_from worst [] = worst
combine_from worst (t ∷ ts) = combine_from (worse worst t.action) ts

unfoldable pub combine_actions : List TriggeredRule → FraudAction
combine_actions ts = combine_from allow ts

unfoldable pub total_weight : List TriggeredRule → ℕ
total_weight [] = 0
total_weight (t ∷ ts) = t.weight + total_weight ts

unfoldable pub snapshot_of : RuleSettings → FraudRuleId → FraudRuleSnapshot
snapshot_of settings r =
    let setting = settings.rules r in
    record {
      rule = r;
      enabled = setting.enabled && settings.enabled;
      threshold = setting.threshold;
      weight = setting.weight;
      action = setting.action;
    }

unfoldable pub triggered_of : FraudRuleId → FraudRuleSetting → ℕ → Detail → TriggeredRule
triggered_of r setting observed detail = record {
  rule = r;
  observed = observed;
  threshold = setting.threshold;
  weight = setting.weight;
  action = setting.action;
  detail = detail;
}

-- What a round pushes to `triggered` and to `skipped`, in front of what the later rounds push.
unfoldable pub push_triggered :
    FraudRuleId → FraudRuleSetting → RuleOutcome → List TriggeredRule → List TriggeredRule
push_triggered r setting (fired observed detail) rest =
    triggered_of r setting observed detail ∷ rest
push_triggered r setting (quiet observed) rest = rest
push_triggered r setting (skip reason) rest = rest

unfoldable pub push_skipped : FraudRuleId → RuleOutcome → List SkippedRule → List SkippedRule
push_skipped r (fired observed detail) rest = rest
push_skipped r (quiet observed) rest = rest
push_skipped r (skip reason) rest = record { rule = r; reason = reason } ∷ rest

module _ (percent : ℕ → ℕ → ℕ) where
  -- What one round of the loop decides, the two `continue`s for a disabled rule included.
  unfoldable pub outcome_of : FraudEvaluationContext → RuleSettings → FraudRuleId → RuleOutcome
  outcome_of context settings r =
      if settings.enabled
      then if (settings.rules r).enabled
        then evaluate percent r context (settings.rules r) settings
        else skip rule_disabled
      else skip scoring_disabled

  unfoldable pub triggered_from :
      FraudEvaluationContext → RuleSettings → List FraudRuleId → List TriggeredRule
  unfolding push_triggered
  triggered_from context settings [] = []
  triggered_from context settings (r ∷ rs) =
      push_triggered r (settings.rules r) (outcome_of context settings r)
        (triggered_from context settings rs)

  unfoldable pub skipped_from :
      FraudEvaluationContext → RuleSettings → List FraudRuleId → List SkippedRule
  unfolding push_skipped
  skipped_from context settings [] = []
  skipped_from context settings (r ∷ rs) =
      push_skipped r (outcome_of context settings r) (skipped_from context settings rs)

  unfoldable pub evaluate_rules : FraudEvaluationContext → RuleSettings → FraudEvaluationResult
  evaluate_rules context settings =
      let triggered = triggered_from context settings rules_in_order in
      record {
        score = total_weight triggered;
        action = combine_actions triggered;
        triggered = triggered;
        snapshot = map (snapshot_of settings) rules_in_order;
        skipped = skipped_from context settings rules_in_order;
      }
