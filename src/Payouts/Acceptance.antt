-- ===== src/Payouts/Acceptance.antt =====
-- What `submit` of payouts.service.ts checks before and inside its transaction, read off a call that
-- returns.
use gemone.Prelude.{
  ◌*◌, ◌/◌, ℕ, ◌≡◌, refl, ap, ◌∙◌, ◌≤◌, ◌<◌, true, none, some, Text, List, ◌∷◌, any, text_eq, pos,
  ◌≤ℤ◌, ok, arith, Option-cases, Result-cases, inl, inr, ◌>>=◌, negsuc,
}
use gemone.Rewards.Types.{RewardTransaction, UserBalance, Number, integer, not_an_integer}
use gemone.Rewards.Store.{find_balance, row_of}
use gemone.Rewards.Operations.{lock}
use gemone.Rewards.Locking.{lock-ok}
use gemone.Payouts.Destination.{TextClasses, trim, normalize_destination}
use gemone.Payouts.Provider.{PayoutProvider}
use gemone.Payouts.Service.{
  PayoutRequest, Db, PayoutsConfig, SubmitContext, SubmitPayoutInput, find_payout, on_ledger,
  create_payout, new_request, lock_and_create, submit, submit_check, method_of, check_amount,
  recent_requests, assert_within_daily_cap, to_cash_minor,
}
use gemone.Payouts.StateMachine.{pending_review}
use gemone.Payouts.Submission.{context_of}

check_amount-ok :
    (minimum maximum : ℕ) (x : Number) (n : ℕ)
    → check_amount minimum maximum x ≡ ok n
    → (x ≡ integer (pos n)) × (minimum ≤ n) × (n ≤ maximum)
unfolding check_amount
check_amount-ok minimum maximum (integer (pos m)) n h = ground arith
check_amount-ok minimum maximum (integer (negsuc m)) n h = cc
check_amount-ok minimum maximum not_an_integer n h = cc

cap-ok :
    (u now cap : ℕ) (ps : List PayoutRequest) (o : Unit {0})
    → assert_within_daily_cap u now cap ps ≡ ok o
    → recent_requests u now ps < cap
unfolding assert_within_daily_cap
cap-ok u now cap ps o h = ground arith

submit_check-ok :
    (t : TextClasses) (provider : PayoutProvider) (config : PayoutsConfig) (c : SubmitContext)
    (input : SubmitPayoutInput) (ps : List PayoutRequest) (n : ℕ) (destination : Text)
    → submit_check t provider config c input ps ≡ ok (n, destination)
    → (any (text_eq (method_of t input)) config.enabled_methods ≡ true)
      × (provider.supports (method_of t input) ≡ true)
      × (check_amount config.minimum_points config.maximum_points input.amount_points ≡ ok n)
      × (normalize_destination t input.destination ≡ ok destination)
      × (assert_within_daily_cap input.user_id c.now config.max_requests_per_day ps ≡ ok tt)
unfolding submit_check
submit_check-ok t provider config c input ps n destination h = ground arith

-- The lock and the row behind a request that was created.
lock_and_create-ok :
    (d d' : Db) (config : PayoutsConfig) (c : SubmitContext) (u n : ℕ) (method destination : Text)
    (p : PayoutRequest)
    → lock_and_create config c u n method destination d ≡ ok (p, d')
    → (b : UserBalance) × (p ≡ new_request config c u n method destination c.lock_id)
      × (find_payout c.payout_id d.payouts ≡ none)
      × (d'.payouts ≡ p ∷ d.payouts)
      × (find_balance u d.ledger.balances ≡ some b)
      × (pos n ≤ℤ b.available_points)
unfolding lock_and_create create_payout new_request
lock_and_create-ok d d' config c u n method destination p h =
    elim (Result-cases
      (lock (context_of c) u (integer (pos n)) c.payout_id (some method) d.ledger)) [
        | inl (e, refused) ↦ let bad = rw (refused, lock_and_create, ◌>>=◌, on_ledger) at h in cc
        | inr ((t, l'), done) ↦
            let (b, found, enough, fresh, row, tables) =
              lock-ok d.ledger l' (context_of c) u (pos n) c.payout_id (some method) t done in
            let key : t.id ≡ c.lock_id =
              ap (λ (x : RewardTransaction). x.id) row ∙ (unfold row_of in refl) in
            let written = rw (done, lock_and_create, ◌>>=◌, on_ledger) at h in
            elim (Option-cases (find_payout c.payout_id d.payouts)) [
              | inr (q, taken) ↦ let bad = rw (taken, create_payout) at written in cc
              | inl free ↦
                  let made = rw (free, create_payout, key) at written in
                  (b, cc, free, cc, found, enough)
            ]
      ]

-- A submission that returns `p` asked for an enabled and supported method, an amount between the two
-- limits and no more than the user's `available`, and a destination that is well formed; the user
-- had fewer requests in the last day than the cap; and `p`, which is written in front of the other
-- requests under an unused key, is an unreviewed pending request of the user for that amount, its
-- worth in money by the configured rate, the method trimmed and in lower case, and the normalized
-- destination, made now for the points locked under the lock's key.
pub submit_accepts :
    (d d' : Db) (t : TextClasses) (provider : PayoutProvider) (config : PayoutsConfig)
    (c : SubmitContext) (input : SubmitPayoutInput) (p : PayoutRequest)
    → submit t provider config c input d ≡ ok (p, d')
    → (n : ℕ) × (destination : Text) × (b : UserBalance) × (any
          (text_eq (method_of t input))
          config.enabled_methods
        ≡ true)
      × (provider.supports (method_of t input) ≡ true)
      × (input.amount_points ≡ integer (pos n))
      × (config.minimum_points ≤ n)
      × (n ≤ config.maximum_points)
      × (normalize_destination t input.destination ≡ ok destination)
      × (recent_requests input.user_id c.now d.payouts < config.max_requests_per_day)
      × (find_balance input.user_id d.ledger.balances ≡ some b)
      × (pos n ≤ℤ b.available_points)
      × (p ≡ record {
        id = c.payout_id;
        user_id = input.user_id;
        status = pending_review;
        amount_points = n;
        cash_amount_minor = n * 100 / config.points_per_currency_unit;
        cash_currency = config.currency;
        points_per_currency_unit = config.points_per_currency_unit;
        method = t.to_lower_case (trim t.is_space input.method);
        destination = destination;
        lock_transaction_id = c.lock_id;
        reviewed_by_admin_id = none;
        reviewed_at = none;
        review_reason = none;
        external_reference = none;
        settled_at = none;
        created_at = c.now;
      })
      × (find_payout c.payout_id d.payouts ≡ none)
      × (d'.payouts ≡ p ∷ d.payouts)
unfolding submit
submit_accepts d d' t provider config c input p h =
    elim (Result-cases (submit_check t provider config c input d.payouts)) [
      | inl (e, refused) ↦ let bad = rw (refused, submit) at h in cc
      | inr ((n, destination), passed) ↦
          let (enabled, supported, amount, normal, cap) =
            submit_check-ok t provider config c input d.payouts n destination passed in
          let (integral, low, high) =
            check_amount-ok config.minimum_points config.maximum_points input.amount_points n
              amount in
          let (b, request, free, rows, found, enough) =
            lock_and_create-ok d d' config c input.user_id n (method_of t input) destination p
              (rw (passed, submit) at h) in
          (
            n,
            destination,
            b,
            enabled,
            supported,
            integral,
            low,
            high,
            normal,
            cap-ok input.user_id c.now config.max_requests_per_day d.payouts tt cap,
            found,
            enough,
            request ∙ (unfold new_request to_cash_minor in refl),
            free,
            rows,
          )
    ]
