-- ===== src/Payouts/Tests.antt =====
-- The theorems of withdrawals at small inputs.
use gemone.Prelude.{
  ◌≢◌, ◌*◌, ◌/◌, ◌≡◌, ◌≤◌, refl, ◌==◌, ltb, codes, any, ok, true, none, some, pos, neg, ◌+ℤ◌, List,
  [], ◌∷◌, ℕ, ◌<◌, ◌≤ℤ◌, Text, text_eq,
}
use gemone.Rewards.Types.{integer, CreditType, RewardSourceType, same_type, UserBalance}
use gemone.Rewards.Store.{
  find_transaction, find_balance, find_acting, bump, update_balance, row_of, lock_balance, write,
}
use gemone.Rewards.Operations.{
  CreditInput, open_account, credit, require_positive, mutate, credit_movement, mature,
  mature_check, mature_apply, mature_movement, lock, lock_movement,
}
use gemone.Rewards.Machine.{opens, credits, matures, step as step_ledger}
use gemone.Payouts.Provider.{PayoutProvider, manual_provider}
use gemone.Payouts.Service.{
  PayoutRequest, Db, PayoutsConfig, SubmitPayoutInput, ReviewInput, find_payout, submit,
  submit_check, lock_and_create, create_payout, new_request, check_amount, recent_requests,
  assert_within_daily_cap, apply_transition, method_of, SubmitContext, to_cash_minor,
}
use gemone.Payouts.Invariant.{IsValid}
use gemone.Payouts.Machine.{
  DbCall, submits, transitions, moves, step_db, run_db, run_db-IsValid, empty_db, empty_db-IsValid,
}
use gemone.Payouts.Submission.{after_db}
use gemone.Payouts.Acceptance.{submit_accepts}
use gemone.Payouts.Progress.{apply_transition_succeeds}
use gemone.Payouts.StateMachine.{
  pending_review, approved, paid, History, step, here, resolutions, resolutions-terminal,
  can_transition, is_terminal, as_number,
}
use gemone.Payouts.Destination.{TextClasses, trim, trim_start, trim_end, normalize_destination}

abbrev ascii : TextClasses
ascii = record { to_lower_case = λ s. s; is_space = λ c. c == 32; is_control = λ c. ltb c 32 }

abbrev paid_out : History pending_review paid
paid_out =
    step pending_review approved (unfold can_transition in refl)
      (step approved paid (unfold can_transition in refl) here)

resolutions-terminal_example : resolutions paid_out ≡ as_number (is_terminal paid)
resolutions-terminal_example = resolutions-terminal paid_out (unfold is_terminal in refl)

normalizes : normalize_destination ascii (codes " 0xabcd ") ≡ ok (codes "0xabcd")
unfolding normalize_destination trim trim_start trim_end
normalizes = refl

abbrev manual : PayoutProvider
manual = manual_provider ascii

abbrev rules : PayoutsConfig
rules = record {
  minimum_points = 10;
  maximum_points = 5_000;
  enabled_methods = codes "iban" ∷ [];
  points_per_currency_unit = 100;
  currency = codes "EUR";
  max_requests_per_day = 3;
}

abbrev withdrawal : SubmitPayoutInput
withdrawal = record {
  user_id = 7;
  amount_points = integer (pos 60);
  method = codes "iban";
  destination = codes "DE02120300000000202051";
}

abbrev bonus_of_100 : CreditInput
bonus_of_100 = record {
  user_id = 7;
  amount_points = integer (pos 100);
  source = record { kind = RewardSourceType.system; id = none; label = none };
  actor = none;
  reason = none;
  hold_scope_provider_id = none;
  hold_indefinitely = true;
  kind = some CreditType.bonus;
}

abbrev approval : ReviewInput
approval = record { admin_id = 1; reason = none; external_reference = none }

-- A matured credit, a withdrawal of 60 points, and its approval.
abbrev funded : List DbCall
funded =
    moves (opens 1 7) refl
    ∷ moves (credits (λ provider. 0) (record { new_id = 10; now = 0 }) bonus_of_100) refl
    ∷ moves (matures (record { new_id = 11; now = 1 }) 10) refl
    ∷ submits rules (record { payout_id = 5; lock_id = 12; now = 2 }) withdrawal
    ∷ []

abbrev requested : Db
requested = run_db ascii manual empty_db funded

requested-IsValid : IsValid requested
requested-IsValid = run_db-IsValid ascii manual empty_db funded empty_db-IsValid

run_db-IsValid_example : IsValid (
    run_db ascii manual empty_db (
      submits rules (record { payout_id = 5; lock_id = 12; now = 2 }) withdrawal
      ∷ transitions (record { new_id = 13; now = 3 }) 5 approved approval
      ∷ []))
run_db-IsValid_example =
    run_db-IsValid ascii manual empty_db
      (submits rules (record { payout_id = 5; lock_id = 12; now = 2 }) withdrawal
        ∷ transitions (record { new_id = 13; now = 3 }) 5 approved approval
        ∷ [])
      empty_db-IsValid

abbrev request_of_60 : PayoutRequest
request_of_60 =
    new_request rules (record { payout_id = 5; lock_id = 12; now = 2 }) 7 60 (codes "iban")
      (codes "DE02120300000000202051") 12

requested_found : find_payout 5 requested.payouts ≡ some request_of_60
unfolding run_db step_db submit submit_check lock_and_create create_payout new_request find_payout
    check_amount recent_requests assert_within_daily_cap normalize_destination trim trim_start
    trim_end manual_provider step_ledger open_account credit require_positive mutate credit_movement
    mature mature_check mature_apply mature_movement lock lock_movement find_balance
    find_transaction find_acting bump update_balance row_of lock_balance write same_type ◌+ℤ◌ neg
requested_found = refl

approvable : can_transition request_of_60.status approved ≡ true
unfolding new_request can_transition
approvable = refl

unused_key : find_transaction 13 requested.ledger.transactions ≡ none
unfolding run_db step_db submit submit_check lock_and_create create_payout new_request find_payout
    check_amount recent_requests assert_within_daily_cap normalize_destination trim trim_start
    trim_end manual_provider step_ledger open_account credit require_positive mutate credit_movement
    mature mature_check mature_apply mature_movement lock lock_movement find_balance
    find_transaction find_acting bump update_balance row_of lock_balance write same_type ◌+ℤ◌ neg
unused_key = refl

apply_transition_succeeds_example :
    (q : PayoutRequest) × (d' : Db) × (apply_transition ascii
        (record { new_id = 13; now = 3 })
        5
        approved
        approval
        requested
      ≡ ok (q, d'))
    × (q ≡ record {
      id = 5;
      user_id = 7;
      status = approved;
      amount_points = 60;
      cash_amount_minor = 60;
      cash_currency = codes "EUR";
      points_per_currency_unit = 100;
      method = codes "iban";
      destination = codes "DE02120300000000202051";
      lock_transaction_id = 12;
      reviewed_by_admin_id = some 1;
      reviewed_at = some 3;
      review_reason = none;
      external_reference = none;
      settled_at = none;
      created_at = 2;
    })
    × (find_payout 5 d'.payouts ≡ some q)
    × ((j : ℕ) → 5 ≢ j → find_payout j d'.payouts ≡ find_payout j requested.payouts)
unfolding new_request to_cash_minor
apply_transition_succeeds_example =
    apply_transition_succeeds requested ascii (record { new_id = 13; now = 3 }) 5 approved approval
      request_of_60 requested-IsValid requested_found approvable refl unused_key

-- The tables of `funded` before the withdrawal.
abbrev rich : Db
rich = run_db ascii manual empty_db (
    moves (opens 1 7) refl
    ∷ moves (credits (λ provider. 0) (record { new_id = 10; now = 0 }) bonus_of_100) refl
    ∷ moves (matures (record { new_id = 11; now = 1 }) 10) refl
    ∷ [])

abbrev ids : SubmitContext
ids = record { payout_id = 5; lock_id = 12; now = 2 }

accepted :
    submit ascii manual rules ids withdrawal rich
    ≡ ok (request_of_60, after_db rich (submit ascii manual rules ids withdrawal rich))
unfolding run_db step_db submit submit_check lock_and_create create_payout new_request find_payout
    check_amount recent_requests assert_within_daily_cap normalize_destination trim trim_start
    trim_end manual_provider step_ledger open_account credit require_positive mutate credit_movement
    mature mature_check mature_apply mature_movement lock lock_movement find_balance
    find_transaction find_acting bump update_balance row_of lock_balance write same_type ◌+ℤ◌ neg
accepted = refl

submit_accepts_example :
    (n : ℕ) × (destination : Text) × (b : UserBalance) × (any
        (text_eq (method_of ascii withdrawal))
        rules.enabled_methods
      ≡ true)
    × (manual.supports (method_of ascii withdrawal) ≡ true)
    × (withdrawal.amount_points ≡ integer (pos n))
    × (rules.minimum_points ≤ n)
    × (n ≤ rules.maximum_points)
    × (normalize_destination ascii withdrawal.destination ≡ ok destination)
    × (recent_requests 7 2 rich.payouts < rules.max_requests_per_day)
    × (find_balance 7 rich.ledger.balances ≡ some b)
    × (pos n ≤ℤ b.available_points)
    × (request_of_60 ≡ record {
      id = 5;
      user_id = 7;
      status = pending_review;
      amount_points = n;
      cash_amount_minor = n * 100 / 100;
      cash_currency = codes "EUR";
      points_per_currency_unit = 100;
      method = codes "iban";
      destination = destination;
      lock_transaction_id = 12;
      reviewed_by_admin_id = none;
      reviewed_at = none;
      review_reason = none;
      external_reference = none;
      settled_at = none;
      created_at = 2;
    })
    × (find_payout 5 rich.payouts ≡ none)
    × ((after_db rich (submit ascii manual rules ids withdrawal rich)).payouts
        ≡ request_of_60 ∷ rich.payouts)
unfolding trim trim_start trim_end
submit_accepts_example =
    submit_accepts rich (after_db rich (submit ascii manual rules ids withdrawal rich)) ascii manual
      rules ids withdrawal request_of_60 accepted
