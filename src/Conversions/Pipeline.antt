-- ===== src/Conversions/Pipeline.antt =====
-- `attribute` of apps/api/src/modules/conversions/conversions.service.ts with its steps `reparse`,
-- `resolveClick`, `findReversalTarget` and `score`: what a postback meant, before anything is written.
use gemone.Prelude.{
  ℕ, Bool, true, false, ◌&&◌, not, Option, none, some, Text, text_eq, List, [], ◌∷◌, map, filter_by,
  eq_ℤ, ◌==◌, if◌then◌else◌, Result, AppError, ok, err, click_sub_id_invalid, click_not_found,
  click_attribution_expired,
}
use gemone.Fraud.Rules.{FraudAction, FraudEvaluationContext, RuleSettings}
use gemone.Fraud.Engine.{FraudEvaluationResult, TriggeredRule, evaluate_rules}
use gemone.Postbacks.Types.{ProviderPostback}
use gemone.Postbacks.Replay.{RawPostbackRequest, to_raw_request}
use gemone.Clicks.SubId.{verify}
use gemone.Clicks.Attribution.{resolve_sub_id}
use gemone.Conversions.Types.{
  reversed, conversion, QuarantineReason, provider_mismatch, currency_mismatch,
  reversal_original_not_found, reversal_ambiguous, payload_unreadable, NormalizedConversion, Click,
  RewardRates, ReviewReason, rule_details, Conversion, Tables, same_conversion_status,
  same_conversion_type,
}
use gemone.Conversions.Decisions.{Resolved, resolve_status}

pub data UserStatus : Type 0 where
  active suspended banned closed : UserStatus

pub record User : Type 0 where
  pub id : ℕ
  pub status : UserStatus

abbrev pub is_active : User → Bool
is_active u = elim u.status [ active ↦ true | suspended ↦ false | banned ↦ false | closed ↦ false ]

pub record Provider : Type 0 where
  pub id : ℕ
  pub slug : Text

-- What the pipeline asks of the other services: an adapter parses or throws, a read of the
-- configuration returns or fails, and a fraud context can or cannot be built. `mark_failure` is what
-- the write of a postback's mark outside the transaction throws, if it fails.
pub record Services : Type 0 where
  pub find_provider : ℕ → Option Provider
  pub registry : Text → Option (RawPostbackRequest → Option NormalizedConversion)
  pub reloaded_registry : Text → Option (RawPostbackRequest → Option NormalizedConversion)
  pub sign : Text → Text
  pub rates_of : ℕ → Result RewardRates
  pub find_user : ℕ → Option User
  pub fraud_context : User → Click → ProviderPostback → ℕ → ℕ → Option FraudEvaluationContext
  pub fraud_settings : ℕ → Option RuleSettings
  pub percent : ℕ → ℕ → ℕ
  pub hold_period_of : Option ℕ → ℕ
  pub describe_failure : AppError → Text
  pub mark_failure : Option AppError

-- `Quarantine`, any other throw, or a result.
pub data Attempt (A : Type 0) : Type 0 where
  done : A → Attempt A
  quarantine : QuarantineReason → Attempt A
  failure : AppError → Attempt A

pub record Scoring : Type 0 where
  pub result : FraudEvaluationResult
  pub reason : Option ReviewReason

unfoldable pub parse_with :
    (RawPostbackRequest → Option NormalizedConversion)
    → ProviderPostback
    → Attempt NormalizedConversion
parse_with adapter postback =
    elim (adapter (to_raw_request postback.payload postback.headers postback.source_ip)) [
      | none ↦ quarantine payload_unreadable
      | some parsed ↦ done parsed
    ]

-- The registry is reloaded once if the slug is unknown.
unfoldable pub registered :
    Services → Text → Option (RawPostbackRequest → Option NormalizedConversion)
registered s slug = elim (s.registry slug) [
  | none ↦ s.reloaded_registry slug
  | some adapter ↦ some adapter
]

unfoldable pub reparse : Services → ProviderPostback → Attempt NormalizedConversion
reparse s postback = elim (s.find_provider postback.provider_id) [
  | none ↦ quarantine QuarantineReason.provider_unavailable
  | some provider ↦ elim (registered s provider.slug) [
    | none ↦ quarantine QuarantineReason.provider_unavailable
    | some adapter ↦ parse_with adapter postback
  ]
]

-- The reason for each way in which `resolveSubId` refuses; another error is thrown on.
unfoldable pub click_refusal : AppError → Attempt Click
click_refusal click_sub_id_invalid = quarantine QuarantineReason.sub_id_invalid
click_refusal click_not_found = quarantine QuarantineReason.click_not_found
click_refusal click_attribution_expired = quarantine QuarantineReason.attribution_expired
click_refusal e = failure e

unfoldable pub resolve_click : Services → ℕ → Text → List Click → Attempt Click
unfolding click_refusal
resolve_click s now sub_id clicks = elim (resolve_sub_id (verify s.sign) now sub_id clicks) [
  | ok click ↦ done click
  | err e ↦ click_refusal e
]

unfoldable pub is_candidate : ℕ → NormalizedConversion → Conversion → Bool
is_candidate click_id parsed c =
    c.click_id == click_id
    && same_conversion_type c.kind conversion
    && not (same_conversion_status c.status reversed)
    && eq_ℤ c.payout_amount_minor parsed.payout_amount_minor
    && text_eq c.payout_currency parsed.payout_currency

abbrev only : List Conversion → Attempt Conversion
only [] = quarantine reversal_original_not_found
only (c ∷ []) = done c
only (c ∷ c' ∷ cs) = quarantine reversal_ambiguous

unfoldable pub find_reversal_target :
    Click → NormalizedConversion → List Conversion → Attempt Conversion
find_reversal_target click parsed cs = only (filter_by (is_candidate click.id parsed) cs)

-- The details of the rules that fired, if any did.
abbrev reason_of : List TriggeredRule → Option ReviewReason
reason_of [] = none
reason_of (t ∷ ts) = some (rule_details (map (λ r. r.detail) (t ∷ ts)))

abbrev or_now : Option ℕ → ℕ → ℕ
or_now none now = now
or_now (some at) now = at

-- A failure to score leaves the conversion unscored.
unfoldable pub score :
    Services → ℕ → User → Click → ProviderPostback → NormalizedConversion → Option Scoring
score s now user click postback parsed =
    elim (s.fraud_context user click postback (or_now parsed.occurred_at now) now) [
      | none ↦ none
      | some context ↦ elim (s.fraud_settings postback.provider_id) [
        | none ↦ none
        | some settings ↦
            let result = evaluate_rules s.percent context settings in
            some (record { result = result; reason = reason_of result.triggered })
      ]
    ]

-- What `persist` is given, besides the postback.
pub record Work : Type 0 where
  pub click : Click
  pub parsed : NormalizedConversion
  pub rates : RewardRates
  pub resolved : Resolved
  pub reversal_of : Option Conversion
  pub scoring : Option Scoring

abbrev action_of : Option Scoring → Option FraudAction
action_of none = none
action_of (some x) = some x.result.action

abbrev reason_in : Option Scoring → Option ReviewReason
reason_in none = none
reason_in (some x) = x.reason

unfoldable pub work_of :
    Click → NormalizedConversion → RewardRates → User → Option Conversion → Option Scoring → Work
work_of click parsed rates user target scoring = record {
  click = click;
  parsed = parsed;
  rates = rates;
  resolved = resolve_status parsed.status (is_active user) (action_of scoring) (reason_in scoring);
  reversal_of = target;
  scoring = scoring;
}

-- A reversal is matched with its original and not scored; a conversion is scored.
unfoldable pub weigh :
    Services
    → ℕ
    → ProviderPostback
    → Tables
    → NormalizedConversion
    → Click
    → RewardRates
    → User
    → Attempt Work
weigh s now postback d parsed click rates user =
    if parsed.is_reversal
    then elim (find_reversal_target click parsed d.conversions) [
      | done target ↦ done (work_of click parsed rates user (some target) none)
      | quarantine r ↦ quarantine r
      | failure e ↦ failure e
    ]
    else done (work_of click parsed rates user none (score s now user click postback parsed))

unfoldable pub price :
    Services → ℕ → ProviderPostback → Tables → NormalizedConversion → Click → Attempt Work
unfolding weigh
price s now postback d parsed click =
    if click.provider_id == postback.provider_id
    then elim (s.rates_of postback.provider_id) [
      | err e ↦ failure e
      | ok rates ↦
          if text_eq parsed.payout_currency rates.accounting_currency
          then elim (s.find_user click.user_id) [
            | none ↦ quarantine QuarantineReason.click_not_found
            | some user ↦ weigh s now postback d parsed click rates user
          ]
          else quarantine currency_mismatch
    ]
    else quarantine provider_mismatch

-- `attribute` up to `persist`.
unfoldable pub attribute : Services → ℕ → ProviderPostback → Tables → Attempt Work
unfolding price
attribute s now postback d = elim (reparse s postback) [
  | quarantine r ↦ quarantine r
  | failure e ↦ failure e
  | done parsed ↦ elim (resolve_click s now parsed.sub_id d.clicks) [
    | quarantine r ↦ quarantine r
    | failure e ↦ failure e
    | done click ↦ price s now postback d parsed click
  ]
]
