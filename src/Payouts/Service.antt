-- ===== src/Payouts/Service.antt =====
-- apps/api/src/modules/payouts/payouts.service.ts: submission, review and execution of withdrawals.
-- Configuration, generated ids and the clock are arguments; a call that throws rolls back.
use gemone.Prelude.{
  ℕ, ◌+◌, ◌*◌, ◌/◌, Bool, true, false, ◌&&◌, ◌||◌, Option, none, some, List, [], ◌∷◌, ◌++◌, any,
  Text, text_eq, codes, pos, negsuc, ◌==◌, ltb, leb, if◌then◌else◌, is_some, not, Result, ok, err,
  validation_error, unique_violation, payout_not_found, payout_invalid_transition,
  payout_method_unsupported, payout_amount_out_of_range, payout_daily_limit_reached, Tx, ◌>>=◌,
  ◌>>◌, pure, filter_by, length,
}
use gemone.Rewards.Types.{Number, integer, not_an_integer, RewardActor, RewardActorType}
use gemone.Rewards.Store.{Ledger}
use gemone.Rewards.Operations.{Context, lock, settle_lock, release_lock}
use gemone.Payouts.StateMachine.{
  PayoutStatus, pending_review, approved, paid, rejected, failed, same_status, LockEffect, nothing,
  settles, releases, lock_effect_of, assert_transition,
}
use gemone.Payouts.Destination.{TextClasses, trim, normalize_destination}
use gemone.Payouts.Provider.{PayoutProvider, settled, not_settled, trimmed}
pub mod Tables
unfoldable pub use Tables.*

-- `!Number.isInteger(n) || n < minimum || n > maximum`
unfoldable pub check_amount : ℕ → ℕ → Number → Result ℕ
check_amount minimum maximum (integer (pos n)) =
    if ltb n minimum || ltb maximum n then err payout_amount_out_of_range else ok n
check_amount minimum maximum (integer (negsuc n)) = err payout_amount_out_of_range
check_amount minimum maximum not_an_integer = err payout_amount_out_of_range

unfoldable pub assert_within_daily_cap : ℕ → ℕ → ℕ → List PayoutRequest → Result (Unit {0})
unfolding recent_requests
assert_within_daily_cap u now cap ps =
    if leb cap (recent_requests u now ps) then err payout_daily_limit_reached else ok tt

unfoldable pub new_request : PayoutsConfig → SubmitContext → ℕ → ℕ → Text → Text → ℕ → PayoutRequest
new_request config c u amount method destination lock_id = record {
  id = c.payout_id;
  user_id = u;
  status = pending_review;
  amount_points = amount;
  cash_amount_minor = to_cash_minor amount config.points_per_currency_unit;
  cash_currency = config.currency;
  points_per_currency_unit = config.points_per_currency_unit;
  method = method;
  destination = destination;
  lock_transaction_id = lock_id;
  reviewed_by_admin_id = none;
  reviewed_at = none;
  review_reason = none;
  external_reference = none;
  settled_at = none;
  created_at = c.now;
}

-- The transaction of `submit`: lock the points, then create the request.
unfoldable pub lock_and_create :
    PayoutsConfig → SubmitContext → ℕ → ℕ → Text → Text → Tx Db PayoutRequest
lock_and_create config c u amount method destination = do
  locked ← on_ledger (
      lock (record { new_id = c.lock_id; now = c.now }) u (integer (pos amount)) c.payout_id
        (some method))
  create_payout (new_request config c u amount method destination locked.id)

-- `input.method.trim().toLowerCase()`
abbrev pub method_of : TextClasses → SubmitPayoutInput → Text
method_of t input = t.to_lower_case (trim t.is_space input.method)

-- Everything that `submit` refuses before the transaction opens: the amount and the destination.
unfoldable pub submit_check :
    TextClasses
    → PayoutProvider
    → PayoutsConfig
    → SubmitContext
    → SubmitPayoutInput
    → List PayoutRequest
    → Result (ℕ × Text)
submit_check t provider config c input ps =
    if not (any (text_eq (method_of t input)) config.enabled_methods)
    then err payout_method_unsupported
    else if not (provider.supports (method_of t input))
    then err payout_method_unsupported
    else elim (check_amount config.minimum_points config.maximum_points input.amount_points) [
      | err e ↦ err e
      | ok amount ↦ elim (normalize_destination t input.destination) [
        | err e ↦ err e
        | ok destination ↦
            elim (assert_within_daily_cap input.user_id c.now config.max_requests_per_day ps) [
              | err e ↦ err e
              | ok _ ↦ ok (amount, destination)
            ]
      ]
    ]

unfoldable pub submit :
    TextClasses
    → PayoutProvider
    → PayoutsConfig
    → SubmitContext
    → SubmitPayoutInput
    → Tx Db PayoutRequest
submit t provider config c input d = elim (submit_check t provider config c input d.payouts) [
  | err e ↦ err e
  | ok (amount, destination) ↦
      lock_and_create config c input.user_id amount (method_of t input) destination d
]

-- `REASON_REQUIRED_FOR`
abbrev pub reason_required_for : PayoutStatus → Bool
reason_required_for to = same_status to rejected || same_status to failed

abbrev pub is_empty : Text → Bool
is_empty [] = true
is_empty (c ∷ s) = false

-- `reason || fallback`
abbrev pub or_text : Text → Text → Text
or_text [] fallback = fallback
or_text (c ∷ s) fallback = c ∷ s

abbrev pub lower_name : PayoutStatus → Text
lower_name pending_review = codes "pending_review"
lower_name approved = codes "approved"
lower_name paid = codes "paid"
lower_name rejected = codes "rejected"
lower_name failed = codes "failed"

abbrev pub reviewer : ℕ → Option RewardActor
reviewer admin_id = some (record { kind = RewardActorType.admin; id = some admin_id })

-- The points behind a transition.
unfoldable pub apply_effect :
    LockEffect → Context → PayoutStatus → Text → ℕ → ℕ → Tx Ledger (Unit {0})
apply_effect nothing c to reason admin_id lock_id = pure tt
apply_effect settles c to reason admin_id lock_id =
    settle_lock c lock_id (or_text reason (codes "withdrawal paid")) (reviewer admin_id) >>= λ _.
    pure tt
apply_effect releases c to reason admin_id lock_id =
    release_lock c lock_id (or_text reason (codes "withdrawal " ++ lower_name to))
      (reviewer admin_id)
    >>= λ _. pure tt

-- The columns that a transition writes.
unfoldable pub reviewed : ℕ → PayoutStatus → Text → ReviewInput → PayoutRequest → PayoutRequest
reviewed now to reason review p = record p {
  status = to;
  reviewed_by_admin_id = some review.admin_id;
  reviewed_at = some now;
  review_reason = if is_empty reason then p.review_reason else some reason;
  settled_at = if same_status to paid then some now else p.settled_at;
  external_reference =
      if same_status to paid then review.external_reference else p.external_reference;
}

-- `payoutRequest.update`, which returns the row as updated.
abbrev update_row : ℕ → (PayoutRequest → PayoutRequest) → PayoutRequest → Tx Db PayoutRequest
update_row i f p d = ok (f p, record d { payouts = update_payout i f d.payouts })

-- What `applyTransition` refuses before it touches points. The row is read under `FOR UPDATE`, so its
-- status is the current one.
unfoldable pub transition_check :
    ℕ → PayoutStatus → Text → List PayoutRequest → Result PayoutRequest
transition_check payout_id to reason ps =
    if reason_required_for to && is_empty reason
    then err validation_error
    else elim (find_payout payout_id ps) [
      | none ↦ err payout_not_found
      | some payout ↦ elim (assert_transition payout.status to) [ err e ↦ err e | ok _ ↦ ok payout ]
    ]

-- The points, then the row.
unfoldable pub move_and_update :
    Context → ℕ → PayoutStatus → Text → ReviewInput → PayoutRequest → Tx Db PayoutRequest
move_and_update c payout_id to reason review payout = do
  on_ledger (
      apply_effect (lock_effect_of payout.status to) c to reason review.admin_id
        payout.lock_transaction_id)
  update_row payout_id (reviewed c.now to reason review) payout

unfoldable pub apply_transition :
    TextClasses → Context → ℕ → PayoutStatus → ReviewInput → Tx Db PayoutRequest
apply_transition t c payout_id to review d =
    elim (transition_check payout_id to (trimmed t review.reason) d.payouts) [
      | err e ↦ err e
      | ok payout ↦ move_and_update c payout_id to (trimmed t review.reason) review payout d
    ]

-- `execute`: the provider runs outside any transaction, after the state is checked.
unfoldable pub execute : PayoutProvider → ℕ → Text → Db → Result Text
execute provider payout_id external_reference d = elim (find_payout payout_id d.payouts) [
  | none ↦ err payout_not_found
  | some p ↦ elim (assert_transition p.status paid) [
    | err e ↦ err e
    | ok _ ↦
        elim (provider.execute (record {
          payout_id = p.id;
          user_id = p.user_id;
          amount_minor = p.cash_amount_minor;
          currency = p.cash_currency;
          method = p.method;
          destination = p.destination;
          external_reference = some external_reference;
        })) [ settled reference ↦ ok reference | not_settled ↦ err payout_invalid_transition ]
  ]
]
