-- ===== src/Conversions/Persist.antt =====
-- `persist` and `reverseRewardFor` of apps/api/src/modules/conversions/conversions.service.ts: the
-- transaction that writes the evaluation, moves the points, creates the conversion and settles the
-- postback. Generated ids are arguments.
use gemone.Prelude.{
  ℕ, Bool, true, false, ◌||◌, Option, none, some, codes, List, ◌∷◌, any, ℤ, ◌==◌, is_some,
  if◌then◌else◌, AppError, ok, err, unique_violation, Tx, ◌>>=◌, ◌>>◌, pure, find_first,
  update_first,
}
use gemone.Rewards.Types.{
  RewardSourceType, conversion_credit, RewardTransaction, integer, RewardSource,
}
use gemone.Rewards.Store.{Ledger}
use gemone.Rewards.Operations.{Context, CreditInput, credit, reverse}
use gemone.Rewards.Reads.{find_by_source}
use gemone.Postbacks.Types.{ProviderPostback}
use gemone.Postbacks.Lifecycle.{mark_processed}
use gemone.Conversions.Types.{
  ConversionStatus, reversed, ConversionType, Conversion, FraudEvaluation, Tables,
}
use gemone.Conversions.Decisions.{
  to_reward_points, CreditPlan, plan_credit, stored_status, applied_action_of,
}
use gemone.Conversions.Pipeline.{Services, Work, Scoring}

-- The ids that `uuidv7()` returns, and the time. A run writes one movement of points at most.
pub record Ids : Type 0 where
  pub conversion_id : ℕ
  pub evaluation_id : ℕ
  pub movement_id : ℕ
  pub now : ℕ

abbrev pub on_ledger : {A : Type 0} → Tx Ledger A → Tx Tables A
on_ledger m d = elim (m d.ledger) [ ok (a, l) ↦ ok (a, record d { ledger = l }) | err e ↦ err e ]

-- `fraud.record`
unfoldable pub record_evaluation : FraudEvaluation → Tx Tables (Option ℕ)
record_evaluation x d =
    if any (λ e. x.id == e.id) d.evaluations
    then err unique_violation
    else ok (some x.id, record d { evaluations = x ∷ d.evaluations })

unfoldable pub record_scoring :
    Ids → ℕ → Option Scoring → CreditPlan → ConversionStatus → Tx Tables (Option ℕ)
record_scoring c user_id none plan stored d = ok (none, d)
record_scoring c user_id (some x) plan stored d =
    record_evaluation
      (record {
        id = c.evaluation_id;
        user_id = user_id;
        result = x.result;
        applied_action = applied_action_of x.result.action plan stored;
      })
      d

abbrev pub movement_context : Ids → Context
movement_context c = record { new_id = c.movement_id; now = c.now }

unfoldable pub credit_input : Ids → ℕ → Work → CreditPlan → ℤ → CreditInput
credit_input c provider_id w plan reward_points = record {
  user_id = w.click.user_id;
  amount_points = integer reward_points;
  source = record {
    kind = RewardSourceType.conversion;
    id = some c.conversion_id;
    label = some w.click.offer_title_snapshot;
  };
  actor = none;
  reason = some plan.reason;
  hold_scope_provider_id = some provider_id;
  hold_indefinitely = plan.hold_indefinitely;
  kind = none;
}

abbrev pub crediting : Services → Ids → ℕ → Work → CreditPlan → ℤ → Tx Ledger RewardTransaction
crediting s c provider_id w plan reward_points =
    credit s.hold_period_of (movement_context c) (credit_input c provider_id w plan reward_points)

unfoldable pub credit_reward : Services → Ids → ℕ → Work → CreditPlan → ℤ → Tx Tables (Unit {0})
credit_reward s c provider_id w plan reward_points =
    if plan.credits
    then (on_ledger (crediting s c provider_id w plan reward_points) >>= λ _. pure tt)
    else pure tt

abbrev pub credit_of : ℕ → Ledger → Option RewardTransaction
credit_of conversion_id l =
    find_by_source RewardSourceType.conversion conversion_id (some conversion_credit) l.transactions

abbrev pub chargeback_source : ℕ → RewardSource
chargeback_source i = record { kind = RewardSourceType.conversion; id = some i; label = none }

abbrev pub reversing : Ids → RewardTransaction → Tx Ledger RewardTransaction
reversing c credited =
    reverse (movement_context c) credited.id (codes "provider reported a chargeback")
      (record { actor = none; source = some (chargeback_source c.conversion_id) })

-- `reverseRewardFor`, for the conversion that a reversal takes back.
unfoldable pub reverse_reward_for : Ids → Option Conversion → Tx Tables (Unit {0})
reverse_reward_for c none d = ok (tt, d)
reverse_reward_for c (some original) d = elim (credit_of original.id d.ledger) [
  | none ↦ ok (tt, d)
  | some credited ↦ (on_ledger (reversing c credited) >>= λ _. pure tt) d
]

-- `conversion.create`, under the unique keys of the table.
abbrev same_evaluation : Option ℕ → Option ℕ → Bool
same_evaluation (some i) (some j) = i == j
same_evaluation (some i) none = false
same_evaluation none x = false

unfoldable pub clashes : Conversion → Conversion → Bool
clashes x c =
    x.id == c.id
    || x.postback_id == c.postback_id
    || same_evaluation x.fraud_evaluation_id c.fraud_evaluation_id

unfoldable pub create_conversion : Conversion → Tx Tables Conversion
create_conversion x d =
    if any (clashes x) d.conversions
    then err unique_violation
    else ok (x, record d { conversions = x ∷ d.conversions })

abbrev id_of : Option Conversion → Option ℕ
id_of none = none
id_of (some c) = some c.id

unfoldable pub new_conversion :
    Ids → ProviderPostback → Work → ℤ → ConversionStatus → Option ℕ → Conversion
new_conversion c postback w reward_points stored evaluation_id = record {
  id = c.conversion_id;
  click_id = w.click.id;
  user_id = w.click.user_id;
  provider_id = postback.provider_id;
  offer_id = w.click.offer_id;
  postback_id = postback.id;
  kind = if is_some w.reversal_of then ConversionType.reversal else ConversionType.conversion;
  status = stored;
  external_transaction_id = w.parsed.external_transaction_id;
  external_offer_id = w.parsed.external_offer_id;
  payout_amount_minor = w.parsed.payout_amount_minor;
  payout_currency = w.parsed.payout_currency;
  provider_status = w.parsed.status;
  occurred_at = w.parsed.occurred_at;
  reward_points = reward_points;
  points_per_minor_unit = w.rates.points_per_minor_unit;
  reward_share_percent = w.rates.reward_share_percent;
  reversal_of_id = id_of w.reversal_of;
  review_reason = w.resolved.review_reason;
  fraud_evaluation_id = evaluation_id;
  reviewed_by_admin_id = none;
  reviewed_at = none;
  created_at = c.now;
}

abbrev pub set_status : ConversionStatus → Conversion → Conversion
set_status s c = record c { status = s }

unfoldable pub mark_reversed : Option Conversion → Tx Tables (Unit {0})
mark_reversed none d = ok (tt, d)
mark_reversed (some original) d = ok (
  tt,
  record d {
    conversions = update_first (λ x. original.id == x.id) (set_status reversed) d.conversions;
  },
)

abbrev pub settle_postback_row : ℕ → Tx Tables (Unit {0})
settle_postback_row i d = ok (tt, record d { postbacks = mark_processed i d.postbacks })

-- The last steps of the transaction: the reversed original and the postback.
unfoldable pub settle_rows : ℕ → Work → Conversion → Tx Tables Conversion
settle_rows i w created = do mark_reversed w.reversal_of; settle_postback_row i; pure created

unfoldable pub move_points : Services → Ids → ℕ → Work → ℤ → CreditPlan → Tx Tables (Unit {0})
move_points s c provider_id w reward_points plan = do
  credit_reward s c provider_id w plan reward_points
  reverse_reward_for c w.reversal_of

unfoldable pub write_rows :
    Services
    → Ids
    → ProviderPostback
    → Work
    → ℤ
    → CreditPlan
    → ConversionStatus
    → Option ℕ
    → Tx Tables Conversion
write_rows s c postback w reward_points plan stored evaluation_id = do
  move_points s c postback.provider_id w reward_points plan
  created ← create_conversion (new_conversion c postback w reward_points stored evaluation_id)
  settle_rows postback.id w created

-- The body of the transaction: all of it commits, or none.
unfoldable pub transaction :
    Services
    → Ids
    → ProviderPostback
    → Work
    → ℤ
    → CreditPlan
    → ConversionStatus
    → Tx Tables Conversion
transaction s c postback w reward_points plan stored = do
  evaluation_id ← record_scoring c w.click.user_id w.scoring plan stored
  write_rows s c postback w reward_points plan stored evaluation_id

abbrev pub find_by_postback_id : ℕ → List Conversion → Option Conversion
find_by_postback_id i = find_first (λ x. i == x.postback_id)

abbrev pub points_of : Work → ℤ
points_of w = to_reward_points w.parsed.payout_amount_minor w.rates

abbrev pub plan_for : Work → CreditPlan
plan_for w = plan_credit w.resolved.status (points_of w) (is_some w.reversal_of)

abbrev pub is_unique_violation : AppError → Bool
is_unique_violation unique_violation = true
is_unique_violation _ = false

abbrev found_or : Option Conversion → AppError → Tx Tables Conversion
found_or (some existing) e d = ok (existing, d)
found_or none e d = err e

-- A duplicate key means that another worker was first: its row is reported.
unfoldable pub winner_or : AppError → ℕ → Tx Tables Conversion
winner_or e i d =
    if is_unique_violation e then found_or (find_by_postback_id i d.conversions) e d else err e

unfoldable pub persist : Services → Ids → ProviderPostback → Work → Tx Tables Conversion
persist s c postback w d =
    let plan = plan_for w in
    elim (transaction s c postback w (points_of w) plan (stored_status plan w.resolved.status) d) [
      | ok (created, d') ↦ ok (created, d')
      | err e ↦ winner_or e postback.id d
    ]
