-- ===== src/Fraud/Severity.antt =====
-- What `combineActions` and `evaluateRules` of rule-engine.ts decide: the most severe action that a
-- fired rule asks for, and nothing while scoring is switched off.
use gemone.Prelude.{
  ℕ, ◌≤◌, ◌≡◌, ◌⊎◌, inl, inr, refl, ap, sym, ◌∙◌, false, List, [], ◌∷◌, All, map, arith,
}
use gemone.Fraud.Rules.{
  FraudAction, allow, severity, FraudRuleId, FraudRuleSetting, RuleSettings,
  user_conversion_velocity, ip_conversion_velocity, shared_ip_accounts, shared_device_accounts,
  impossible_timing, chargeback_rate, disposable_email, FraudEvaluationContext, Detail, RuleOutcome,
  fired, quiet, skip, scoring_disabled, rules_in_order,
}
use gemone.Fraud.Engine.{
  TriggeredRule, worse, combine_from, combine_actions, total_weight, triggered_of, push_triggered,
  push_skipped, outcome_of, triggered_from, skipped_from, evaluate_rules, snapshot_of,
}

-- Some entry of a list meets a predicate.
abbrev Has : {A : Type 0} → (A → Type 0) → List A → Type 0
Has P [] = ⊥
Has P (x ∷ xs) = P x ⊎ Has P xs

worse-le-left : (w a : FraudAction) → severity w ≤ severity (worse w a)
unfolding worse
worse-le-left w a = ground arith

worse-le-right : (w a : FraudAction) → severity a ≤ severity (worse w a)
unfolding worse
worse-le-right w a = ground arith

worse-cases : (w a : FraudAction) → (worse w a ≡ w) ⊎ (worse w a ≡ a)
unfolding worse
worse-cases w a = ground arith

combine_from-ge :
    (w : FraudAction) (ts : List TriggeredRule) → severity w ≤ severity (combine_from w ts)
unfolding combine_from
combine_from-ge w [] = omega arith
combine_from-ge w (t ∷ ts) =
    omega (arith, worse-le-left w t.action, combine_from-ge (worse w t.action) ts)

combine_from-bound :
    (w : FraudAction) (ts : List TriggeredRule) (a : FraudAction)
    → Has (λ t. t.action ≡ a) ts
    → severity a ≤ severity (combine_from w ts)
unfolding combine_from
combine_from-bound w [] a h = absurd h
combine_from-bound w (t ∷ ts) a (inl e) =
    rw (← e) (omega (arith, worse-le-right w t.action, combine_from-ge (worse w t.action) ts))
combine_from-bound w (t ∷ ts) a (inr h) = combine_from-bound (worse w t.action) ts a h

combine_from-asked :
    (w : FraudAction) (ts : List TriggeredRule)
    → (combine_from w ts ≡ w) ⊎ Has (λ t. t.action ≡ combine_from w ts) ts
unfolding combine_from
combine_from-asked w [] = inl refl
combine_from-asked w (t ∷ ts) = elim (combine_from-asked (worse w t.action) ts) [
  | inr later ↦ inr (inr later)
  | inl e ↦ elim (worse-cases w t.action) [
    | inl kept ↦ inl (e ∙ kept)
    | inr took ↦ inr (inl (sym (e ∙ took)))
  ]
]

Has-push :
    (P : TriggeredRule → Type 0) (r : FraudRuleId) (setting : FraudRuleSetting) (o : RuleOutcome)
    (rest : List TriggeredRule)
    → Has P rest
    → Has P (push_triggered r setting o rest)
unfolding push_triggered
Has-push P r setting (fired n d) rest h = inr h
Has-push P r setting (quiet n) rest h = h
Has-push P r setting (skip s) rest h = h

push-Has :
    (a : FraudAction) (r : FraudRuleId) (setting : FraudRuleSetting) (o : RuleOutcome)
    (rest : List TriggeredRule)
    → Has (λ t. t.action ≡ a) (push_triggered r setting o rest)
    → ((n : ℕ) × (d : Detail) × (o ≡ fired n d) × (setting.action ≡ a))
      ⊎ Has (λ t. t.action ≡ a) rest
unfolding push_triggered triggered_of
push-Has a r setting (fired n d) rest (inl e) = inl (n, d, refl, e)
push-Has a r setting (fired n d) rest (inr h) = inr h
push-Has a r setting (quiet n) rest h = inr h
push-Has a r setting (skip s) rest h = inr h

module _ (percent : ℕ → ℕ → ℕ) (context : FraudEvaluationContext) (settings : RuleSettings) where
  -- The rule `r` is switched on, and fires.
  abbrev pub Fires : FraudRuleId → Type 0
  Fires r =
      (observed : ℕ) × (detail : Detail) × (outcome_of percent context settings r
        ≡ fired observed detail)

  triggered_from_complete :
      (r : FraudRuleId) (rs : List FraudRuleId)
      → Fires r
      → Has (λ x. x ≡ r) rs
      → Has (λ t. t.action ≡ (settings.rules r).action) (triggered_from percent context settings rs)
  unfolding triggered_from triggered_of
  triggered_from_complete r [] f h = absurd h
  triggered_from_complete r (q ∷ qs) (o, d, e) (inl same) =
      rw (ap (outcome_of percent context settings) same ∙ e)
        (inl (ap (λ x. (settings.rules x).action) same))
  triggered_from_complete r (q ∷ qs) f (inr later) =
      Has-push _ q (settings.rules q) (outcome_of percent context settings q) _
        (triggered_from_complete r qs f later)

  triggered_from_sound :
      (a : FraudAction) (rs : List FraudRuleId)
      → Has (λ t. t.action ≡ a) (triggered_from percent context settings rs)
      → (r : FraudRuleId) × Fires r × ((settings.rules r).action ≡ a)
  unfolding triggered_from
  triggered_from_sound a [] h = absurd h
  triggered_from_sound a (q ∷ qs) h =
      elim (push-Has a q (settings.rules q) (outcome_of percent context settings q) _ h) [
        | inl (o, d, e, same) ↦ (q, (o, d, e), same)
        | inr later ↦ triggered_from_sound a qs later
      ]

  in_order : (r : FraudRuleId) → Has (λ x. x ≡ r) rules_in_order
  in_order user_conversion_velocity = inl refl
  in_order ip_conversion_velocity = inr (inl refl)
  in_order shared_ip_accounts = inr (inr (inl refl))
  in_order shared_device_accounts = inr (inr (inr (inl refl)))
  in_order impossible_timing = inr (inr (inr (inr (inl refl))))
  in_order chargeback_rate = inr (inr (inr (inr (inr (inl refl)))))
  in_order disposable_email = inr (inr (inr (inr (inr (inr (inl refl))))))

  -- The action of an evaluation is at least as severe as that of every rule that is switched on and
  -- fires, and it is `ALLOW` or the action of such a rule.
  pub evaluate_rules-worst :
      let action = (evaluate_rules percent context settings).action in
      ((r : FraudRuleId) → Fires r → severity (settings.rules r).action ≤ severity action)
      × ((action ≡ allow) ⊎ ((r : FraudRuleId) × Fires r × ((settings.rules r).action ≡ action)))
  unfolding evaluate_rules combine_actions
  evaluate_rules-worst =
      let ts = triggered_from percent context settings rules_in_order in
      (
        λ r f.
            combine_from-bound allow ts _ (triggered_from_complete r rules_in_order f (in_order r)),
        elim (combine_from-asked allow ts) [
          | inl none_asked ↦ inl none_asked
          | inr asked ↦ inr (triggered_from_sound _ rules_in_order asked)
        ],
      )

  outcome_of-off :
      settings.enabled ≡ false
      → (r : FraudRuleId) → outcome_of percent context settings r ≡ skip scoring_disabled
  unfolding outcome_of
  outcome_of-off off r = simp off

  disabled_from :
      (rs : List FraudRuleId)
      → settings.enabled ≡ false
      → (triggered_from percent context settings rs ≡ [])
        × (skipped_from percent context settings rs
            ≡ map (λ r. record { rule = r; reason = scoring_disabled }) rs)
  unfolding triggered_from skipped_from
  disabled_from [] off = (refl, refl)
  disabled_from (r ∷ rs) off =
      let (t, s) = disabled_from rs off in
      (rw (outcome_of-off off r) t, rw (outcome_of-off off r) (unfold push_skipped in rw s))

  -- With scoring switched off nothing fires: the score is 0, the action `ALLOW`, all seven rules are
  -- recorded as skipped for that reason, and the snapshot shows every rule as disabled.
  evaluate_rules-disabled :
      settings.enabled ≡ false
      → let result = evaluate_rules percent context settings in
        (result.score ≡ 0)
        × (result.action ≡ allow)
        × (result.triggered ≡ [])
        × (result.skipped
            ≡ map (λ r. record { rule = r; reason = scoring_disabled }) rules_in_order)
        × All (λ s. s.enabled ≡ false) result.snapshot
  unfolding evaluate_rules snapshot_of
  evaluate_rules-disabled off =
      let (t, s) = disabled_from rules_in_order off in
      (
        rw t (unfold total_weight in refl),
        rw t (unfold combine_actions combine_from in refl),
        t,
        s,
        ground arith,
      )
