-- ===== src/Rewards/Reads.antt =====
-- The reads of `RewardAccountingService` (reward-accounting.service.ts): the balance, the
-- reconciliation, the movement of a source, and the credits that are due.
use gemone.Prelude.{
  ℕ, ◌+◌, Bool, true, false, not, ◌&&◌, ◌||◌, Option, none, some, List, [], ◌∷◌, map, take,
  filter_by, ℤ, pos, ◌+ℤ◌, ◌-ℤ◌, eq_ℤ, ◌==◌, leb, ltb, if◌then◌else◌, is_some,
}
use gemone.Rewards.Types.{
  UserBalance, RewardTransaction, RewardTransactionType, RewardSourceType, conversion_credit, bonus,
  same_type, same_source,
}
use gemone.Rewards.Store.{Ledger, find_balance, find_acting}
use gemone.Rewards.Operations.{is_acted}

-- `Pick<Balance, 'pending' | 'available' | 'locked'>`
pub record Buckets : Type 0 where
  pub pending : ℤ
  pub available : ℤ
  pub locked : ℤ

pub record Balance : Type 0 where
  pub pending : ℤ
  pub available : ℤ
  pub locked : ℤ
  pub total : ℤ
  pub lifetime_earned : ℤ
  pub lifetime_withdrawn : ℤ
  pub lifetime_reversed : ℤ

-- `row?.pendingPoints ?? 0`, and so for each bucket.
abbrev pub recorded_of : Option UserBalance → Buckets
recorded_of none = record { pending = pos 0; available = pos 0; locked = pos 0 }
recorded_of (some b) = record {
  pending = b.pending_points;
  available = b.available_points;
  locked = b.locked_points;
}

unfoldable pub to_balance : Option UserBalance → Balance
to_balance none = record {
  pending = pos 0;
  available = pos 0;
  locked = pos 0;
  total = pos 0;
  lifetime_earned = pos 0;
  lifetime_withdrawn = pos 0;
  lifetime_reversed = pos 0;
}
to_balance (some b) = record {
  pending = b.pending_points;
  available = b.available_points;
  locked = b.locked_points;
  total = b.pending_points +ℤ b.available_points +ℤ b.locked_points;
  lifetime_earned = b.lifetime_earned_points;
  lifetime_withdrawn = b.lifetime_withdrawn_points;
  lifetime_reversed = b.lifetime_reversed_points;
}

unfoldable pub get_balance : ℕ → Ledger → Balance
get_balance u l = to_balance (find_balance u l.balances)

-- `_sum` of one delta over the rows of one user.
unfoldable pub sum_for : ℕ → (RewardTransaction → ℤ) → List RewardTransaction → ℤ
sum_for u f [] = pos 0
sum_for u f (t ∷ ts) = if u == t.user_id then f t +ℤ sum_for u f ts else sum_for u f ts

pub record BalanceReconciliation : Type 0 where
  pub user_id : ℕ
  pub balanced : Bool
  pub recorded : Buckets
  pub expected : Buckets
  pub drift : Buckets
  pub transaction_count : ℕ

unfoldable pub expected_of : ℕ → List RewardTransaction → Buckets
expected_of u ts = record {
  pending = sum_for u (λ t. t.pending_delta) ts;
  available = sum_for u (λ t. t.available_delta) ts;
  locked = sum_for u (λ t. t.locked_delta) ts;
}

-- `recorded - expected`, per bucket.
unfoldable pub drift_of : Buckets → Buckets → Buckets
drift_of r e = record {
  pending = r.pending -ℤ e.pending;
  available = r.available -ℤ e.available;
  locked = r.locked -ℤ e.locked;
}

abbrev is_zero : Buckets → Bool
is_zero d = eq_ℤ d.pending (pos 0) && eq_ℤ d.available (pos 0) && eq_ℤ d.locked (pos 0)

unfoldable pub count_for : ℕ → List RewardTransaction → ℕ
count_for u [] = 0
count_for u (t ∷ ts) = if u == t.user_id then count_for u ts + 1 else count_for u ts

-- `reconcile`: one snapshot of the row and of the sums of its history.
unfoldable pub reconcile : ℕ → Ledger → BalanceReconciliation
unfolding expected_of drift_of
reconcile u l =
    let recorded = recorded_of (find_balance u l.balances) in
    let expected = expected_of u l.transactions in
    record {
      user_id = u;
      balanced = is_zero (drift_of recorded expected);
      recorded = recorded;
      expected = expected;
      drift = drift_of recorded expected;
      transaction_count = count_for u l.transactions;
    }

-- A credit type that is due at `now` and that nothing has acted on.
unfoldable pub is_due : ℕ → List RewardTransaction → RewardTransaction → Bool
is_due now ts t =
    (same_type t.kind conversion_credit || same_type t.kind bonus)
    && elim t.matures_at [ none ↦ false | some m ↦ leb m now ]
    && not (is_some (find_acting t.id is_acted ts))

-- `orderBy: { maturesAt: 'asc' }`, among rows that have a date.
abbrev pub due_before : RewardTransaction → RewardTransaction → Bool
due_before a b = elim a.matures_at [
  | none ↦ false
  | some m ↦ elim b.matures_at [ none ↦ true | some n ↦ leb m n ]
]

unfoldable pub insert_due : RewardTransaction → List RewardTransaction → List RewardTransaction
insert_due t [] = t ∷ []
insert_due t (s ∷ ss) = if due_before t s then t ∷ s ∷ ss else s ∷ insert_due t ss

unfoldable pub sort_due : List RewardTransaction → List RewardTransaction
unfolding insert_due
sort_due [] = []
sort_due (t ∷ ts) = insert_due t (sort_due ts)

unfoldable pub find_maturable : ℕ → ℕ → Ledger → List ℕ
unfolding sort_due
find_maturable now limit l =
    map (λ t. t.id) (take limit (sort_due (filter_by (is_due now l.transactions) l.transactions)))

-- `{ sourceType, sourceId, ...(type ? { type } : {}) }`
unfoldable pub is_from :
    RewardSourceType → ℕ → Option RewardTransactionType → RewardTransaction → Bool
is_from s i k t =
    same_source t.source_type s
    && elim t.source_id [ none ↦ false | some j ↦ j == i ]
    && elim k [ none ↦ true | some k' ↦ same_type t.kind k' ]

-- `findFirst` with `orderBy: { createdAt: 'asc' }`; of equal times, the row written first.
unfoldable pub find_by_source :
    RewardSourceType
    → ℕ
    → Option RewardTransactionType
    → List RewardTransaction
    → Option RewardTransaction
find_by_source s i k [] = none
find_by_source s i k (t ∷ ts) = elim (find_by_source s i k ts) [
  | none ↦ if is_from s i k t then some t else none
  | some best ↦ if is_from s i k t && ltb t.created_at best.created_at then some t else some best
]
