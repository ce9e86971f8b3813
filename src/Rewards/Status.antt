-- ===== src/Rewards/Status.antt =====
-- The derived status of a movement: `REWARD_STATUS_RULES` and `rewardStatusOf` of
-- packages/contracts/src/rewards.ts, and `whereForStatus` of reward-accounting.service.ts, which
-- turns a rule into the `where` clause that the database evaluates.
use gemone.Prelude.{
  ◌≡◌, ◌↔◌, refl, ap, ◌∙◌, Bool, true, not, ◌&&◌, Option, none, some, List, [], ◌∷◌, any, ℤ, pos,
  ltb_ℤ, leb_ℤ, if◌then◌else◌, arith,
}
use gemone.Rewards.Types.{
  RewardTransactionType, conversion_credit, chargeback_debit, reward_maturation, payout_lock,
  payout_settle, payout_refund, manual_adjustment, bonus, same_type,
}

pub data RewardStatus : Type 0 where
  pending available cleared reversed in_review paid returned adjusted : RewardStatus

pub data PendingDelta : Type 0 where
  positive non_positive : PendingDelta

pub record RewardStatusRule : Type 0 where
  pub types : List RewardTransactionType
  pub pending_delta : Option PendingDelta

abbrev pub credit_types : List RewardTransactionType
credit_types = conversion_credit ∷ bonus ∷ []

abbrev pub reward_status_rules : RewardStatus → RewardStatusRule
reward_status_rules pending = record { types = credit_types; pending_delta = some positive }
reward_status_rules available = record { types = credit_types; pending_delta = some non_positive }
reward_status_rules cleared = record { types = reward_maturation ∷ []; pending_delta = none }
reward_status_rules reversed = record { types = chargeback_debit ∷ []; pending_delta = none }
reward_status_rules in_review = record { types = payout_lock ∷ []; pending_delta = none }
reward_status_rules paid = record { types = payout_settle ∷ []; pending_delta = none }
reward_status_rules returned = record { types = payout_refund ∷ []; pending_delta = none }
reward_status_rules adjusted = record { types = manual_adjustment ∷ []; pending_delta = none }

-- `Object.keys` of the rules, in the order in which they are written.
abbrev pub reward_statuses_in_order : List RewardStatus
reward_statuses_in_order =
    pending ∷ available ∷ cleared ∷ reversed ∷ in_review ∷ paid ∷ returned ∷ adjusted ∷ []

-- `rule.types.includes(type)`
abbrev pub includes : List RewardTransactionType → RewardTransactionType → Bool
includes ks k = any (same_type k) ks

-- One round of the loop: a movement that no `continue` passes over has this status.
unfoldable pub satisfies : RewardStatusRule → RewardTransactionType → ℤ → Bool
unfolding same_type
satisfies rule k d = includes rule.types k && elim rule.pending_delta [
  | none ↦ true
  | some positive ↦ ltb_ℤ (pos 0) d
  | some non_positive ↦ not (ltb_ℤ (pos 0) d)
]

unfoldable pub first_status : List RewardStatus → RewardTransactionType → ℤ → Option RewardStatus
unfolding satisfies
first_status [] k d = none
first_status (s ∷ ss) k d =
    if satisfies (reward_status_rules s) k d then some s else first_status ss k d

unfoldable pub reward_status_of : RewardTransactionType → ℤ → Option RewardStatus
unfolding first_status
reward_status_of k d = first_status reward_statuses_in_order k d

-- A comparison with 0 in a `where` clause.
pub data Comparison : Type 0 where
  gt_zero lte_zero : Comparison

pub record WhereStatus : Type 0 where
  pub type_in : List RewardTransactionType
  pub pending_delta : Option Comparison

unfoldable pub where_for_status : RewardStatus → WhereStatus
where_for_status s =
    let rule = reward_status_rules s in
    record {
      type_in = rule.types;
      pending_delta = elim rule.pending_delta [
        | none ↦ none
        | some positive ↦ some gt_zero
        | some non_positive ↦ some lte_zero
      ];
    }

-- Whether the database selects a row by such a clause.
unfoldable pub selects : WhereStatus → RewardTransactionType → ℤ → Bool
unfolding same_type
selects w k d = includes w.type_in k && elim w.pending_delta [
  | none ↦ true
  | some gt_zero ↦ ltb_ℤ (pos 0) d
  | some lte_zero ↦ leb_ℤ d (pos 0)
]

-- The sign that `rewardStatusOf` reads and the one that the clause reads agree, so a status is what
-- the type says, and for a credit what `pending` received.
abbrev expected_status : RewardTransactionType → Bool → RewardStatus
expected_status conversion_credit b = if b then pending else available
expected_status bonus b = if b then pending else available
expected_status chargeback_debit b = reversed
expected_status reward_maturation b = cleared
expected_status payout_lock b = in_review
expected_status payout_settle b = paid
expected_status payout_refund b = returned
expected_status manual_adjustment b = adjusted

status-eq-expected :
    (k : RewardTransactionType) (d : ℤ)
    → reward_status_of k d ≡ some (expected_status k (ltb_ℤ (pos 0) d))
unfolding reward_status_of
status-eq-expected conversion_credit d = ground arith
status-eq-expected bonus d = ground arith
status-eq-expected _ d = refl

selects-expected :
    (s : RewardStatus) (k : RewardTransactionType) (d : ℤ)
    → (selects (where_for_status s) k d ≡ true) ↔ (expected_status k (ltb_ℤ (pos 0) d) ≡ s)
unfolding selects where_for_status
selects-expected pending k d = (λ h. ground arith, λ h. ground arith)
selects-expected _ k d = (λ h. ground arith, λ h. ground arith)

-- Every movement has a status, and the rows that the database selects for a status are exactly those
-- that `rewardStatusOf` gives it: the statuses partition the history.
pub where_for_status-eq-status_of :
    (k : RewardTransactionType) (d : ℤ)
    → (found : RewardStatus) × (reward_status_of k d ≡ some found)
      × ((s : RewardStatus)
          → (selects (where_for_status s) k d ≡ true) ↔ (reward_status_of k d ≡ some s))
where_for_status-eq-status_of k d =
    let e = status-eq-expected k d in
    (
      expected_status k (ltb_ℤ (pos 0) d),
      e,
      λ s. (λ h. e ∙ ap some ((selects-expected s k d).0 h), λ h. (selects-expected s k d).1 (cc)),
    )
