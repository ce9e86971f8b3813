-- ===== src/Conversions/Tests.antt =====
-- The theorems of the conversion pipeline at one postback.
use gemone.Prelude.{
  ◌⊎◌, AppError, ℕ, ◌+◌, ◌≡◌, refl, Bool, true, false, ◌&&◌, Option, none, some, codes, List, [],
  ◌∷◌, ok, err, Result, pos, find_first, update_first, reward_invalid_operation, ◌+ℤ◌,
}
use gemone.Rewards.Types.{
  RewardTransaction, RewardTransactionType, RewardActorType, RewardSourceType, same_type,
  same_source,
}
use gemone.Rewards.Store.{
  find_balance, find_transaction, find_acting, bump, update_balance, row_of, lock_balance, write,
}
use gemone.Rewards.Operations.{
  open_account, credit, require_positive, mutate, credit_movement, reverse, reverse_check,
  reverse_apply, reverse_movement,
}
use gemone.Rewards.Reads.{find_by_source, is_from}
use gemone.Rewards.Machine.{opens, run, step, empty}
use gemone.Fraud.Rules.{hold}
use gemone.Postbacks.Types.{ProviderPostback, PostbackState, null}
use gemone.Postbacks.Replay.{to_raw_request}
use gemone.Postbacks.Lifecycle.{find_postback, settle_postback, mark_processed}
use gemone.Clicks.SubId.{is_part, cut, verify}
use gemone.Clicks.Attribution.{resolve_sub_id, find_by_sub_id, is_expired}
use gemone.Conversions.Types.{
  ConversionType, Conversion, Click, Tables, NormalizedConversion, confirmed, rejected, held,
  credited, same_conversion_status, RewardRates,
}
use gemone.Conversions.Decisions.{plan_credit, resolve_status, stored_status, to_reward_points}
use gemone.Conversions.Pipeline.{
  Services, Work, suspended, attribute, price, weigh, work_of, resolve_click, reparse, parse_with,
  registered, score, is_candidate,
}
use gemone.Conversions.Persist.{
  Ids, persist, transaction, credit_of, record_scoring, write_rows, move_points, credit_reward,
  credit_input, reverse_reward_for, create_conversion, clashes, new_conversion, settle_rows,
  mark_reversed,
}
use gemone.Conversions.Process.{skipped, threw, process, process_received, finish}
use gemone.Conversions.Linked.{IsLinked}
use gemone.Conversions.Once.{Job, run_jobs, process-IsLinked, run_jobs-IsLinked, process_once}
use gemone.Conversions.Review.{HoldReview, confirm, resolve_hold, resolve_credit, find_conversion}
use gemone.Conversions.Rules.{plan_credit_lem}
use gemone.Conversions.Stuck.{resolve_hold-persist}

abbrev a_click : Click
a_click = record {
  id = 5;
  user_id = 7;
  offer_id = 2;
  provider_id = 4;
  sub_id = codes "abc.sig";
  offer_title_snapshot = codes "Survey";
  reward_points_snapshot = pos 50;
  ip_address = none;
  user_agent = none;
  device_fingerprint = none;
  referrer = none;
  attribution_expires_at = 1000;
  created_at = 0;
}

abbrev said : Bool → NormalizedConversion
said is_reversal = record {
  sub_id = codes "abc.sig";
  external_transaction_id = codes "t1";
  payout_amount_minor = pos 100;
  payout_currency = codes "USD";
  status = confirmed;
  is_reversal = is_reversal;
  external_offer_id = none;
  occurred_at = none;
}

-- The account of the click is suspended.
abbrev answers : Services
answers = record {
  find_provider = λ i. some (record { id = i; slug = codes "acme" });
  registry = λ slug. some (λ raw. some (said false));
  reloaded_registry = λ slug. none;
  sign = λ t. codes "sig";
  rates_of = λ i. ok (record {
    points_per_minor_unit = 1;
    reward_share_percent = 50;
    accounting_currency = codes "USD";
  });
  find_user = λ i. some (record { id = i; status = suspended });
  fraud_context = λ u k p i j. none;
  fraud_settings = λ i. none;
  percent = λ i j. 0;
  hold_period_of = λ i. 7;
  describe_failure = λ x. codes "lost";
  mark_failure = none;
}

abbrev postback : ℕ → ProviderPostback
postback i = record {
  id = i;
  provider_id = 4;
  external_transaction_id = some (codes "t1");
  payload = null;
  headers = null;
  source_ip = none;
  state = PostbackState.received;
  processing_attempts = 0;
  error_detail = none;
  duplicate_count = 0;
  last_duplicate_at = none;
  received_at = 1;
}

abbrev arrived : Tables
arrived = record {
  ledger = run empty (opens 1 7 ∷ []);
  postbacks = postback 1 ∷ postback 2 ∷ [];
  clicks = a_click ∷ [];
  conversions = [];
  evaluations = [];
}

arrived-IsLinked : IsLinked arrived
arrived-IsLinked = record { settled = tt; apart = tt }

abbrev ids : ℕ → Ids
ids n = record { conversion_id = n; evaluation_id = n; movement_id = 10 + n; now = 100 }

abbrev jobs : List Job
jobs = record { services = answers; ids = ids 4; postback_id = 2 } ∷ []

process-IsLinked_example : IsLinked (process answers (ids 3) 1 arrived).1
process-IsLinked_example = process-IsLinked answers (ids 3) 1 arrived arrived-IsLinked

abbrev later : Tables
later = run_jobs (process answers (ids 3) 1 arrived).1 jobs

run_jobs-IsLinked_example : IsLinked (run_jobs arrived jobs)
run_jobs-IsLinked_example = run_jobs-IsLinked arrived jobs arrived-IsLinked

process_once_example :
    (process answers (ids 8) 1 later ≡ (skipped, later))
    ⊎ ((x : AppError) × (y : AppError) × (answers.mark_failure ≡ some x)
        × (process answers (ids 3) 1 arrived ≡ (threw y, arrived)))
process_once_example = process_once answers answers (ids 3) (ids 8) 1 arrived jobs arrived-IsLinked

-- The suspended account's conversion is held, with its points.
abbrev waiting : Tables
waiting = (process answers (ids 3) 1 arrived).1

abbrev review_of : HoldReview
review_of = record {
  conversion_id = 3;
  decision = confirm;
  reason = codes "fraud";
  admin_id = 1;
  now = 200;
}

abbrev decision : Result (Conversion × Tables)
decision = resolve_hold 30 review_of waiting

abbrev a_conversion : Conversion
a_conversion = record {
  id = 0;
  click_id = 0;
  user_id = 0;
  provider_id = 0;
  offer_id = 0;
  postback_id = 0;
  kind = ConversionType.conversion;
  status = held;
  external_transaction_id = [];
  external_offer_id = none;
  payout_amount_minor = pos 0;
  payout_currency = [];
  provider_status = confirmed;
  occurred_at = none;
  reward_points = pos 0;
  points_per_minor_unit = 0;
  reward_share_percent = 0;
  reversal_of_id = none;
  review_reason = none;
  fraud_evaluation_id = none;
  reviewed_by_admin_id = none;
  reviewed_at = none;
  created_at = 0;
}

abbrev conversion_of : Result (Conversion × Tables) → Conversion
conversion_of (ok (c, d)) = c
conversion_of (err e) = a_conversion

abbrev tables_of : Result (Conversion × Tables) → Tables
tables_of (ok (c, d)) = d
tables_of (err e) = arrived

abbrev no_row : RewardTransaction
no_row = record {
  id = 0;
  user_id = 7;
  kind = RewardTransactionType.bonus;
  amount_points = pos 0;
  pending_delta = pos 0;
  available_delta = pos 0;
  locked_delta = pos 0;
  source_type = RewardSourceType.system;
  source_id = none;
  source_label = none;
  source_transaction_id = none;
  actor_type = RewardActorType.system;
  actor_id = none;
  reason = none;
  matures_at = none;
  hold_period_days = none;
  created_at = 0;
}

abbrev held_credit : Option RewardTransaction → RewardTransaction
held_credit (some t) = t
held_credit none = no_row

decision_ok : decision ≡ ok (conversion_of decision, tables_of decision)
unfolding run step open_account credit require_positive mutate credit_movement reverse reverse_check
    reverse_apply reverse_movement find_balance find_transaction find_acting bump update_balance
    row_of lock_balance write same_type same_source ◌+ℤ◌ find_by_source is_from find_first
    update_first find_postback settle_postback mark_processed to_raw_request is_part cut verify
    resolve_sub_id find_by_sub_id is_expired resolve_status plan_credit stored_status
    to_reward_points attribute price weigh work_of resolve_click reparse parse_with registered score
    persist transaction record_scoring write_rows move_points credit_reward credit_input
    reverse_reward_for create_conversion clashes new_conversion settle_rows mark_reversed process
    process_received finish resolve_hold resolve_credit find_conversion
decision_ok = refl

credit_found : credit_of 3 waiting.ledger ≡ some (held_credit (credit_of 3 waiting.ledger))
unfolding run step open_account credit require_positive mutate credit_movement reverse reverse_check
    reverse_apply reverse_movement find_balance find_transaction find_acting bump update_balance
    row_of lock_balance write same_type same_source ◌+ℤ◌ find_by_source is_from find_first
    update_first find_postback settle_postback mark_processed to_raw_request is_part cut verify
    resolve_sub_id find_by_sub_id is_expired resolve_status plan_credit stored_status
    to_reward_points attribute price weigh work_of resolve_click reparse parse_with registered score
    persist transaction record_scoring write_rows move_points credit_reward credit_input
    reverse_reward_for create_conversion clashes new_conversion settle_rows mark_reversed process
    process_received finish resolve_hold resolve_credit find_conversion
credit_found = refl

abbrev us_rates : RewardRates
us_rates = record {
  points_per_minor_unit = 1;
  reward_share_percent = 50;
  accounting_currency = codes "USD";
}

-- The chargeback of the conversion that was rejected.
abbrev chargeback : Work
chargeback =
    work_of a_click (said true) us_rates (record { id = 7; status = suspended })
      (some (conversion_of decision)) none

resolve_hold-persist_example :
    ((conversion_of decision).status ≡ rejected)
    × ((y : Conversion) × (find_conversion 3 waiting.conversions ≡ some y)
        × (is_candidate chargeback.click.id chargeback.parsed (conversion_of decision)
            ≡ is_candidate chargeback.click.id chargeback.parsed y))
    × (persist answers (ids 9) (postback 2) chargeback (tables_of decision)
        ≡ err reward_invalid_operation)
unfolding work_of
resolve_hold-persist_example =
    resolve_hold-persist 30 review_of waiting (tables_of decision) (conversion_of decision)
      (held_credit (credit_of 3 waiting.ledger)) answers (ids 9) (postback 2) chargeback refl
      credit_found decision_ok refl refl

-- A confirmed conversion of 50 points that a rule holds.
plan_credit_lem_example :
    let status = (resolve_status confirmed true (some hold) none).status in
    let plan = plan_credit status (pos 50) false in
    (same_conversion_status (stored_status plan status) credited ≡ false)
    × ((plan.credits && plan.hold_indefinitely) ≡ true)
    × (plan.credits ≡ true)
plan_credit_lem_example = plan_credit_lem confirmed true (some hold) none (pos 50) false

-- Its evaluation records the hold.
