-- ===== src/Conversions/Review.antt =====
-- `resolveHold` of apps/api/src/modules/conversions/conversions.service.ts: an admin's decision on a
-- held conversion, inside the transaction that `admin` opens.
use gemone.Prelude.{
  ℕ, Option, none, some, Text, List, ◌==◌, if◌then◌else◌, ok, err, Tx, ◌>>=◌, pure, find_first,
  update_first, conversion_not_found, fraud_conversion_not_held,
}
use gemone.Rewards.Types.{RewardTransaction, RewardActor, RewardActorType}
use gemone.Rewards.Store.{Ledger}
use gemone.Rewards.Operations.{mature, reverse}
use gemone.Conversions.Types.{
  credited, held, rejected, words, Conversion, Tables, same_conversion_status,
}
use gemone.Conversions.Persist.{on_ledger, credit_of}

pub data FraudReviewDecision : Type 0 where
  clear confirm : FraudReviewDecision

pub record HoldReview : Type 0 where
  pub conversion_id : ℕ
  pub decision : FraudReviewDecision
  pub reason : Text
  pub admin_id : ℕ
  pub now : ℕ

unfoldable pub find_conversion : ℕ → List Conversion → Option Conversion
find_conversion i = find_first (λ c. i == c.id)

abbrev pub by_admin : ℕ → Option RewardActor
by_admin i = some (record { kind = RewardActorType.admin; id = some i })

abbrev pub releasing : ℕ → HoldReview → RewardTransaction → Tx Ledger (Unit {0})
releasing new_id v t = mature (record { new_id = new_id; now = v.now }) t.id >>= λ _. pure tt

abbrev pub taking_back : ℕ → HoldReview → RewardTransaction → Tx Ledger (Unit {0})
taking_back new_id v t =
    reverse (record { new_id = new_id; now = v.now }) t.id v.reason
      (record { actor = by_admin v.admin_id; source = none })
    >>= λ _. pure tt

-- What the decision does to the credit, if the conversion has one. `new_id` is the key of the movement.
unfoldable pub resolve_credit : ℕ → HoldReview → Option RewardTransaction → Tx Ledger (Unit {0})
resolve_credit new_id v none = pure tt
resolve_credit new_id v (some t) = elim v.decision [
  | clear ↦ releasing new_id v t
  | confirm ↦ taking_back new_id v t
]

abbrev pub decided : HoldReview → Conversion → Conversion
decided v c = record c {
  status = elim v.decision [ clear ↦ credited | confirm ↦ rejected ];
  review_reason = some (words v.reason);
  reviewed_by_admin_id = some v.admin_id;
  reviewed_at = some v.now;
}

abbrev pub write_decision : HoldReview → Conversion → Tx Tables Conversion
write_decision v c d = ok (
  decided v c,
  record d { conversions = update_first (λ x. v.conversion_id == x.id) (decided v) d.conversions },
)

-- The conversion is read under `FOR UPDATE`, so its status is the current one.
unfoldable pub resolve_hold : ℕ → HoldReview → Tx Tables Conversion
resolve_hold new_id v d = elim (find_conversion v.conversion_id d.conversions) [
  | none ↦ err conversion_not_found
  | some c ↦
      if same_conversion_status c.status held
      then (on_ledger (resolve_credit new_id v (credit_of v.conversion_id d.ledger)) >>= λ _.
            write_decision v c)
          d
      else err fraud_conversion_not_held
]
