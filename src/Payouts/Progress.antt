-- ===== src/Payouts/Progress.antt =====
-- `applyTransition` of payouts.service.ts on the transitions that the state machine permits: what it
-- needs of the lock that it settles or releases.
use gemone.Prelude.{
  if◌then◌else◌, ◌≢◌, ℕ, ◌≡◌, refl, ◌∙◌, true, false, ◌&&◌, Option, none, some, Text, List, ok,
  arith, Option-cases, is_some, inl, inr, ◌>>=◌, ◌>>◌, codes, ◌++◌,
}
use gemone.Rewards.Types.{RewardTransaction, RewardActor, UserBalance, same_type, payout_lock}
use gemone.Rewards.Store.{Ledger, find_transaction, find_acting, find_balance, row_of, write}
use gemone.Rewards.Operations.{
  Context, Resolution, settle, refund, is_resolution, resolve_check, resolve_apply, resolve_lock,
  resolve_movement, settle_lock, release_lock,
}
use gemone.Rewards.Machine.{written}
use gemone.Rewards.Refines.{lock_balance-some}
use gemone.Payouts.StateMachine.{
  PayoutStatus, can_transition, assert_transition, edge-resolves, same_status, paid, lock_effect_of,
  LockEffect, nothing, settles, releases,
}
use gemone.Payouts.Destination.{TextClasses}
use gemone.Payouts.Provider.{trimmed}
use gemone.Payouts.Service.{
  PayoutRequest, Db, ReviewInput, find_payout, on_ledger, update_payout, reviewer, or_text,
  lower_name, reason_required_for, is_empty, apply_effect, reviewed, transition_check,
  move_and_update, apply_transition,
}
use gemone.Payouts.Invariant.{Backed, IsValid}
use gemone.Payouts.Rows.{All-find, find_payout-update, find_payout-update_other}

resolve_check_open :
    (i : ℕ) (l : Ledger) (k : RewardTransaction)
    → find_transaction i l.transactions ≡ some k
    → same_type k.kind payout_lock ≡ true
    → is_some (find_acting k.id is_resolution l.transactions) ≡ false
    → resolve_check i l ≡ ok k
unfolding resolve_check
resolve_check_open i l k found kind live = ground arith

resolve_lock_open :
    (l : Ledger) (c : Context) (r : Resolution) (i : ℕ) (words : Text) (actor : Option RewardActor)
    (k : RewardTransaction) (b : UserBalance)
    → resolve_check i l ≡ ok k
    → find_balance k.user_id l.balances ≡ some b
    → find_transaction c.new_id l.transactions ≡ none
    → let m = resolve_movement c.now r words actor k in
      resolve_lock c r i words actor l ≡ ok (row_of c.new_id m, written c.new_id m b l)
unfolding resolve_lock resolve_apply write written
resolve_lock_open l c r i words actor k b checked found fresh =
    rw (checked, resolve_lock)
      (rw (lock_balance-some l k.user_id b found, ◌>>=◌) (rw (fresh, write)))

-- Whatever a transition does to a lock that is open, it returns.
apply_effect_open :
    (x : LockEffect) (l : Ledger) (c : Context) (to : PayoutStatus) (reason : Text) (admin_id i : ℕ)
    (k : RewardTransaction) (b : UserBalance)
    → resolve_check i l ≡ ok k
    → find_balance k.user_id l.balances ≡ some b
    → find_transaction c.new_id l.transactions ≡ none
    → (l' : Ledger) × (apply_effect x c to reason admin_id i l ≡ ok (tt, l'))
unfolding apply_effect settle_lock release_lock
apply_effect_open nothing l c to reason admin_id i k b checked found fresh = (l, refl)
apply_effect_open settles l c to reason admin_id i k b checked found fresh =
    let words = or_text reason (codes "withdrawal paid") in
    (
      written c.new_id (resolve_movement c.now settle words (reviewer admin_id) k) b l,
      rw (resolve_lock_open l c settle i words (reviewer admin_id) k b checked found fresh, ◌>>=◌)
          refl,
    )
apply_effect_open releases l c to reason admin_id i k b checked found fresh =
    let words = or_text reason (codes "withdrawal " ++ lower_name to) in
    (
      written c.new_id (resolve_movement c.now refund words (reviewer admin_id) k) b l,
      rw (resolve_lock_open l c refund i words (reviewer admin_id) k b checked found fresh, ◌>>=◌)
          refl,
    )

transition_check_passes :
    (i : ℕ) (to : PayoutStatus) (reason : Text) (ps : List PayoutRequest) (p : PayoutRequest)
    → find_payout i ps ≡ some p
    → can_transition p.status to ≡ true
    → (reason_required_for to && is_empty reason) ≡ false
    → transition_check i to reason ps ≡ ok p
unfolding transition_check assert_transition
transition_check_passes i to reason ps p found edge given =
    rw (given, transition_check) (rw (found, transition_check) (rw (edge, assert_transition)))

-- In valid tables, a transition that the state machine permits, with a reason where one is required
-- and an unused key for the ledger row, succeeds. The row of the request then has the new status, the
-- reviewer and the time; the reason where one was given; the settlement time and the reviewer's
-- reference where it is paid; and everything else of it, and every other request, is as before.
pub apply_transition_succeeds :
    (d : Db) (t : TextClasses) (c : Context) (i : ℕ) (to : PayoutStatus) (review : ReviewInput)
    (p : PayoutRequest)
    → IsValid d
    → find_payout i d.payouts ≡ some p
    → can_transition p.status to ≡ true
    → (reason_required_for to && is_empty (trimmed t review.reason)) ≡ false
    → find_transaction c.new_id d.ledger.transactions ≡ none
    → (q : PayoutRequest) × (d' : Db) × (apply_transition t c i to review d ≡ ok (q, d'))
      × (q ≡ record {
        id = p.id;
        user_id = p.user_id;
        status = to;
        amount_points = p.amount_points;
        cash_amount_minor = p.cash_amount_minor;
        cash_currency = p.cash_currency;
        points_per_currency_unit = p.points_per_currency_unit;
        method = p.method;
        destination = p.destination;
        lock_transaction_id = p.lock_transaction_id;
        reviewed_by_admin_id = some review.admin_id;
        reviewed_at = some c.now;
        review_reason =
            if is_empty (trimmed t review.reason)
            then p.review_reason
            else some (trimmed t review.reason);
        external_reference =
            if same_status to paid then review.external_reference else p.external_reference;
        settled_at = if same_status to paid then some c.now else p.settled_at;
        created_at = p.created_at;
      })
      × (find_payout i d'.payouts ≡ some q)
      × ((j : ℕ) → i ≢ j → find_payout j d'.payouts ≡ find_payout j d.payouts)
unfolding apply_transition move_and_update
apply_transition_succeeds d t c i to review p v found edge given fresh =
    let reason = trimmed t review.reason in
    let f = reviewed c.now to reason review in
    let h : Backed d.ledger p = All-find (Backed d.ledger) i p d.payouts found v.backed in
    let (live, count) = edge-resolves p.status to edge in
    let checked =
      resolve_check_open p.lock_transaction_id d.ledger h.row h.found h.is_lock
        (h.resolved ∙ live) in
    elim (Option-cases (find_balance h.row.user_id d.ledger.balances)) [
      | inl missing ↦ let owned = v.sound.owned p.lock_transaction_id h.row h.found in cc
      | inr (b, at_u) ↦
          let (l', done) =
            apply_effect_open (lock_effect_of p.status to) d.ledger c to reason review.admin_id
              p.lock_transaction_id h.row b checked at_u fresh in
          (
            f p,
            record { ledger = l'; payouts = update_payout i f d.payouts },
            rw (transition_check_passes i to reason d.payouts p found edge given, apply_transition)
                (rw (done, move_and_update, ◌>>=◌, ◌>>◌, on_ledger) refl),
            unfold reviewed in refl,
            find_payout-update i f p d.payouts (λ q. unfold reviewed in refl) found,
            λ j. find_payout-update_other i j f d.payouts (λ q. unfold reviewed in refl),
          )
    ]
