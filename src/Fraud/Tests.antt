-- ===== src/Fraud/Tests.antt =====
-- The theorems of the rule engine at one conversion.
use gemone.Prelude.{ℕ, ◌*◌, ◌/◌, ◌≡◌, ◌≤◌, ◌⊎◌, Bool, true, false, none, some, codes, []}
use gemone.Fraud.Rules.{
  allow, hold, review, block, severity, FraudRuleId, FraudRuleSetting, RuleSettings,
  FraudEvaluationContext, Detail, fired, user_conversion_velocity, ip_conversion_velocity,
  shared_ip_accounts, shared_device_accounts, impossible_timing, chargeback_rate, disposable_email,
}
use gemone.Fraud.Engine.{evaluate_rules, outcome_of}
use gemone.Fraud.Severity.{evaluate_rules-worst}

abbrev whole_percent : ℕ → ℕ → ℕ
whole_percent a b = a * 100 / b

-- A conversion two seconds after the click, from an address that three accounts share.
abbrev conversion : FraudEvaluationContext
conversion = record {
  email_domain = some (codes "mail.test");
  click_at = 1000;
  conversion_at = 3000;
  user_conversions_in_window = 2;
  ip_conversions_in_window = some 4;
  accounts_sharing_ip = some 3;
  accounts_sharing_device = none;
  lifetime_conversions = 3;
  lifetime_chargebacks = 1;
}

abbrev rule_of : FraudRuleId → FraudRuleSetting
rule_of user_conversion_velocity = record {
  enabled = true;
  threshold = 10_000;
  weight = 20;
  action = hold;
}
rule_of ip_conversion_velocity = record {
  enabled = true;
  threshold = 20_000;
  weight = 20;
  action = hold;
}
rule_of shared_ip_accounts = record {
  enabled = true;
  threshold = 2_000;
  weight = 30;
  action = review;
}
rule_of shared_device_accounts = record {
  enabled = true;
  threshold = 1_000;
  weight = 40;
  action = review;
}
rule_of impossible_timing = record { enabled = true; threshold = 5_000; weight = 50; action = hold }
rule_of chargeback_rate = record {
  enabled = true;
  threshold = 30_000;
  weight = 30;
  action = review;
}
rule_of disposable_email = record { enabled = false; threshold = 0; weight = 10; action = block }

abbrev switched : Bool → RuleSettings
switched on = record {
  rules = rule_of;
  chargeback_minimum_conversions = 5;
  disposable_email_domains = [];
  enabled = on;
}

evaluate_rules-worst_example :
    let action = (evaluate_rules whole_percent conversion (switched true)).action in
    ((r : FraudRuleId)
      → ((o : ℕ) × (d : Detail) × (outcome_of whole_percent conversion (switched true) r
            ≡ fired o d))
      → severity (rule_of r).action ≤ severity action)
    × ((action ≡ allow)
        ⊎ ((r : FraudRuleId) × ((o : ℕ) × (d : Detail) × (outcome_of whole_percent conversion
                  (switched true)
                  r
                ≡ fired o d))
            × ((rule_of r).action ≡ action)))
evaluate_rules-worst_example = evaluate_rules-worst whole_percent conversion (switched true)
