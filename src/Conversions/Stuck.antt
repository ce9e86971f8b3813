-- ===== src/Conversions/Stuck.antt =====
-- A chargeback of a conversion whose fraud an admin confirmed (apps/api/src/modules/conversions,
-- `findReversalTarget` and `reverseRewardFor` of conversions.service.ts).
use gemone.Prelude.{
  ℕ, ◌≡◌, refl, sym, ap, ◌∙◌, Bool, true, false, none, some, Text, codes, [], ℤ, arith, ◌==◌,
  ==_iff, AppError, ok, err, ◌>>=◌, pure, bind-err, bind_step, find_first-passes, ltb,
  reward_invalid_operation,
}
use gemone.Rewards.Types.{
  RewardTransaction, Movement, UserBalance, same_type, same_source, conversion_credit,
  RewardSourceType,
}
use gemone.Rewards.Reads.{find_by_source, is_from}
use gemone.Rewards.Machine.{written, run}
use gemone.Rewards.Store.{Ledger, row_of}
use gemone.Rewards.Operations.{Context, ReverseOptions, reverse, reverse_movement}
use gemone.Rewards.Reversal.{reverse_once, reverse-ok}
use gemone.Postbacks.Types.{ProviderPostback}
use gemone.Conversions.Types.{
  Conversion, Tables, NormalizedConversion, ConversionStatus, held, reversed, rejected,
  same_conversion_status,
}
use gemone.Conversions.Decisions.{CreditPlan, plan_credit, stored_status}
use gemone.Conversions.Pipeline.{Services, Work, is_candidate}
use gemone.Conversions.Persist.{
  Ids, on_ledger, credit_reward, credit_of, reversing, reverse_reward_for, record_scoring,
  create_conversion, new_conversion, settle_rows, move_points, write_rows, transaction, plan_for,
  points_of, winner_or, persist, movement_context, chargeback_source,
}
use gemone.Conversions.Review.{HoldReview, confirm, find_conversion, decided, resolve_hold}
use gemone.Conversions.Confirmed.{admin_options, resolve_hold-found, confirm-ok, never_newer}

-- The chargeback row that took a credit back is not itself a credit, so the credit is found as before.
credit_of-written :
    (i j : ℕ) (m : Movement) (b : UserBalance) (l : Ledger) (t : RewardTransaction)
    → same_type m.kind conversion_credit ≡ false
    → credit_of i l ≡ some t
    → credit_of i (written j m b l) ≡ some t
unfolding written find_by_source is_from row_of
credit_of-written i j m b l t other found = rw found (
    rw other (
      never_newer (same_source m.source.kind RewardSourceType.conversion)
        (elim m.source.id as (λ x. Bool) [ none ↦ false | some k ↦ k == i ]) (ltb m.at t.created_at)
        (some (row_of j m)) (some t)))

reverse-credit_of :
    (i j : ℕ) (c : Context) (reason : Text) (o : ReverseOptions) (t t' : RewardTransaction)
    (l l' : Ledger)
    → reverse c j reason o l ≡ ok (t', l')
    → credit_of i l ≡ some t
    → credit_of i l' ≡ some t
reverse-credit_of i j c reason o t t' l l' h found =
    let (k, b, checked, at_u, fresh, row, tables) = reverse-ok l l' c j reason o t' h in
    rw tables (
      credit_of-written i c.new_id (reverse_movement c.now reason o k b) b l t
        (unfold reverse_movement same_type in refl) found)

reverse_reward_for-stuck :
    (c : Ids) (y : Conversion) (t : RewardTransaction) (d : Tables) (e : AppError)
    → credit_of y.id d.ledger ≡ some t
    → reversing c t d.ledger ≡ err e
    → reverse_reward_for c (some y) d ≡ err e
unfolding reverse_reward_for
reverse_reward_for-stuck c y t d e found refused =
    rw (found, reverse_reward_for)
      (bind-err (on_ledger (reversing c t)) (λ _. pure tt) d e (rw (refused, on_ledger) refl))

-- A reversal grants no points, so the first thing that its transaction can refuse is the chargeback.
transaction-stuck :
    (s : Services) (c : Ids) (p : ProviderPostback) (w : Work) (y : Conversion) (n : ℤ)
    (plan : CreditPlan) (stored : ConversionStatus) (d : Tables) (e : AppError)
    → w.reversal_of ≡ some y
    → w.scoring ≡ none
    → plan.credits ≡ false
    → reverse_reward_for c (some y) d ≡ err e
    → transaction s c p w n plan stored d ≡ err e
unfolding transaction record_scoring write_rows move_points credit_reward
transaction-stuck s c p w y n plan stored d e target unscored grants_none refused =
    let moved : move_points s c p.provider_id w n plan d ≡ err e =
      bind_step (credit_reward s c p.provider_id w plan n) (λ _. reverse_reward_for c w.reversal_of)
        d d tt (rw grants_none refl)
      ∙ (ap (λ o. reverse_reward_for c o d) target ∙ refused) in
    bind_step (record_scoring c w.click.user_id w.scoring plan stored)
      (λ x. write_rows s c p w n plan stored x) d d none (rw unscored refl)
    ∙ bind-err (move_points s c p.provider_id w n plan)
        (λ _. create_conversion (new_conversion c p w n stored none) >>= λ x. settle_rows p.id w x)
        d e moved

plan_for-reversal :
    (w : Work) (y : Conversion) → w.reversal_of ≡ some y → (plan_for w).credits ≡ false
unfolding plan_credit
plan_for-reversal w y target = rw target refl

-- `persist` for a reversal whose original has a credit that cannot be reversed.
persist-stuck :
    (s : Services) (c : Ids) (p : ProviderPostback) (w : Work) (y : Conversion)
    (t : RewardTransaction) (d : Tables)
    → w.reversal_of ≡ some y
    → w.scoring ≡ none
    → credit_of y.id d.ledger ≡ some t
    → reversing c t d.ledger ≡ err reward_invalid_operation
    → persist s c p w d ≡ err reward_invalid_operation
unfolding persist winner_or
persist-stuck s c p w y t d target unscored found refused =
    let refuses = reverse_reward_for-stuck c y t d reward_invalid_operation found refused in
    let stops =
      transaction-stuck s c p w y (points_of w) (plan_for w)
        (stored_status (plan_for w) w.resolved.status) d reward_invalid_operation target unscored
        (plan_for-reversal w y target) refuses in
    rw (stops, persist) refl

held_unreversed :
    (st : ConversionStatus)
    → same_conversion_status st held ≡ true
    → same_conversion_status st reversed ≡ false
held_unreversed st h = ground arith

decided-is_candidate :
    (v : HoldReview) (y : Conversion) (click_id : ℕ) (parsed : NormalizedConversion)
    → v.decision ≡ confirm
    → same_conversion_status y.status held ≡ true
    → is_candidate click_id parsed (decided v y) ≡ is_candidate click_id parsed y
unfolding is_candidate
decided-is_candidate v y click_id parsed decision is_held =
    rw (decision, held_unreversed y.status is_held) refl

-- When an admin confirms the fraud of a held conversion that has a credit, the conversion is rejected,
-- and a chargeback is matched with it as it would have been before; and in the tables after the decision
-- every attempt to record a chargeback of it, which is not scored, throws an invalid operation.
pub resolve_hold-persist :
    (new_id : ℕ) (v : HoldReview) (d d' : Tables) (x : Conversion) (t : RewardTransaction)
    (s : Services) (c : Ids) (p : ProviderPostback) (w : Work)
    → v.decision ≡ confirm
    → credit_of v.conversion_id d.ledger ≡ some t
    → resolve_hold new_id v d ≡ ok (x, d')
    → w.reversal_of ≡ some x
    → w.scoring ≡ none
    → (x.status ≡ rejected)
      × ((y : Conversion) × (find_conversion v.conversion_id d.conversions ≡ some y)
          × (is_candidate w.click.id w.parsed x ≡ is_candidate w.click.id w.parsed y))
      × (persist s c p w d' ≡ err reward_invalid_operation)
unfolding run
resolve_hold-persist new_id v d d' x t s c p w decision found h target unscored =
    let (y, at_y, is_held, did) = resolve_hold-found new_id v d d' x h in
    let (t', made, back) = confirm-ok new_id v y x t d d' decision found did in
    let same_id : x.id ≡ v.conversion_id =
      ap (λ (z : Conversion). z.id) made
      ∙ sym (
          (==_iff v.conversion_id y.id).0 (
            unfold find_conversion in
            find_first-passes (λ z. v.conversion_id == z.id) y d.conversions at_y)) in
    let still : credit_of x.id d'.ledger ≡ some t = rw same_id (
      reverse-credit_of v.conversion_id t.id (record { new_id = new_id; now = v.now }) v.reason
        (admin_options v) t t' d.ledger d'.ledger back found) in
    (
      ap (λ (z : Conversion). z.status) made ∙ rw decision refl,
      (
        y,
        at_y,
        ap (is_candidate w.click.id w.parsed) made
            ∙ decided-is_candidate v y w.click.id w.parsed decision is_held,
      ),
      persist-stuck s c p w x t d' target unscored still (
          reverse_once d.ledger d'.ledger (record { new_id = new_id; now = v.now })
            (movement_context c) t.id v.reason (codes "provider reported a chargeback")
            (admin_options v)
            (record { actor = none; source = some (chargeback_source c.conversion_id) }) t' []
            back),
    )
