-- ===== src/Fraud/Rules.antt =====
-- The seven rules of apps/api/src/modules/fraud/internal/rule-engine.ts, with the types of
-- packages/contracts/src/fraud.ts, fraud.config.ts and contracts/fraud-context.ts that they read.
-- Times are milliseconds. A threshold is in thousandths, since the schema allows fractions.
use gemone.Prelude.{
  ℕ, ◌-◌, ◌*◌, ◌/◌, Bool, Option, none, some, List, [], ◌∷◌, any, Text, text_eq, ltb, if◌then◌else◌,
}

pub data FraudAction : Type 0 where
  allow hold review block : FraudAction

-- `FRAUD_ACTION_SEVERITY`
abbrev pub severity : FraudAction → ℕ
severity allow = 0
severity hold = 1
severity review = 2
severity block = 3

pub data FraudRuleId : Type 0 where
  user_conversion_velocity ip_conversion_velocity shared_ip_accounts : FraudRuleId
  shared_device_accounts impossible_timing chargeback_rate disposable_email : FraudRuleId

pub record FraudRuleSetting : Type 0 where
  pub enabled : Bool
  pub threshold : ℕ
  pub weight : ℕ
  pub action : FraudAction

pub record RuleSettings : Type 0 where
  pub rules : FraudRuleId → FraudRuleSetting
  pub chargeback_minimum_conversions : ℕ
  pub disposable_email_domains : List Text
  pub enabled : Bool

-- The fields of `FraudEvaluationContext` that a rule reads.
pub record FraudEvaluationContext : Type 0 where
  pub email_domain : Option Text
  pub click_at : ℕ
  pub conversion_at : ℕ
  pub user_conversions_in_window : ℕ
  pub ip_conversions_in_window : Option ℕ
  pub accounts_sharing_ip : Option ℕ
  pub accounts_sharing_device : Option ℕ
  pub lifetime_conversions : ℕ
  pub lifetime_chargebacks : ℕ

-- The sentences that a skipped rule records, by what they say.
pub data SkipReason : Type 0 where
  scoring_disabled rule_disabled no_ip_address no_device_fingerprint : SkipReason
  before_its_click no_email_domain empty_blocklist : SkipReason
  too_few_conversions : ℕ → ℕ → SkipReason

-- The detail of a fired rule is a sentence about the rule, what was observed and the threshold; the
-- blocklist's is about the domain and the chargeback rate's also about the number of conversions.
pub data Detail : Type 0 where
  count_above seconds_under : ℕ → ℕ → Detail
  rate_above : ℕ → ℕ → ℕ → Detail
  on_blocklist : Text → Detail

pub data RuleOutcome : Type 0 where
  fired : ℕ → Detail → RuleOutcome
  quiet : ℕ → RuleOutcome
  skip : SkipReason → RuleOutcome

-- `observed > setting.threshold`
abbrev pub exceeds : ℕ → FraudRuleSetting → Bool
exceeds n setting = ltb setting.threshold (n * 1000)

unfoldable pub count_rule : ℕ → FraudRuleSetting → RuleOutcome
count_rule n setting =
    if exceeds n setting then fired n (count_above n setting.threshold) else quiet n

-- A count that the click may lack.
unfoldable pub optional_count_rule : Option ℕ → SkipReason → FraudRuleSetting → RuleOutcome
unfolding count_rule
optional_count_rule none reason setting = skip reason
optional_count_rule (some n) reason setting = count_rule n setting

unfoldable pub timing_rule : FraudEvaluationContext → FraudRuleSetting → RuleOutcome
timing_rule context setting =
    let elapsed = context.conversion_at - context.click_at in
    if ltb context.conversion_at context.click_at
    then skip before_its_click
    else if ltb elapsed setting.threshold
    then fired (elapsed / 1000) (seconds_under (elapsed / 1000) setting.threshold)
    else quiet (elapsed / 1000)

unfoldable pub email_rule : FraudEvaluationContext → RuleSettings → RuleOutcome
email_rule context settings = elim context.email_domain [
  | none ↦ skip no_email_domain
  | some domain ↦ elim settings.disposable_email_domains [
    | [] ↦ skip empty_blocklist
    | d ∷ ds ↦ if any (text_eq domain) (d ∷ ds) then fired 1 (on_blocklist domain) else quiet 0
  ]
]

-- `percent a b` is `Math.round((a / b) * 100)`, in floating point.
module _ (percent : ℕ → ℕ → ℕ) where
  unfoldable pub chargeback_rule :
      FraudEvaluationContext → FraudRuleSetting → RuleSettings → RuleOutcome
  chargeback_rule context setting settings =
      let rate = percent context.lifetime_chargebacks context.lifetime_conversions in
      if ltb context.lifetime_conversions settings.chargeback_minimum_conversions
      then skip
          (too_few_conversions context.lifetime_conversions settings.chargeback_minimum_conversions)
      else if exceeds rate setting
      then fired rate (rate_above rate context.lifetime_conversions setting.threshold)
      else quiet rate

  unfoldable pub evaluate :
      FraudRuleId → FraudEvaluationContext → FraudRuleSetting → RuleSettings → RuleOutcome
  unfolding count_rule optional_count_rule timing_rule email_rule chargeback_rule
  evaluate user_conversion_velocity c s settings = count_rule c.user_conversions_in_window s
  evaluate ip_conversion_velocity c s settings =
      optional_count_rule c.ip_conversions_in_window no_ip_address s
  evaluate shared_ip_accounts c s settings =
      optional_count_rule c.accounts_sharing_ip no_ip_address s
  evaluate shared_device_accounts c s settings =
      optional_count_rule c.accounts_sharing_device no_device_fingerprint s
  evaluate impossible_timing c s settings = timing_rule c s
  evaluate chargeback_rate c s settings = chargeback_rule c s settings
  evaluate disposable_email c s settings = email_rule c settings

-- The ids of `RULES`, in its order.
abbrev pub rules_in_order : List FraudRuleId
rules_in_order =
    user_conversion_velocity ∷ ip_conversion_velocity ∷ shared_ip_accounts ∷ shared_device_accounts
    ∷ impossible_timing ∷ chargeback_rate ∷ disposable_email ∷ []
