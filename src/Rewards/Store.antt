-- ===== src/Rewards/Store.antt =====
-- The two tables of `RewardAccountingService`, and the two private methods through which every
-- mutation goes: `lockBalance` and `write`. A row of history is put in front of the older ones.
use gemone.Prelude.{
  ℕ, suc, Bool, false, ◌&&◌, Option, none, some, List, [], ◌∷◌, ℤ, pos, ◌+ℤ◌, ◌==◌, if◌then◌else◌,
  is_some, user_not_found, unique_violation, ok, err, Tx, lift, require,
}
use gemone.Rewards.Types.{UserBalance, RewardTransaction, RewardTransactionType, Movement}

pub record Ledger : Type 0 where
  pub balances : List UserBalance
  pub transactions : List RewardTransaction

-- `userBalance.findUnique({ where: { userId } })`
unfoldable pub find_balance : ℕ → List UserBalance → Option UserBalance
find_balance u [] = none
find_balance u (b ∷ bs) = if u == b.user_id then some b else find_balance u bs

-- `rewardTransaction.findUnique({ where: { id } })`
unfoldable pub find_transaction : ℕ → List RewardTransaction → Option RewardTransaction
find_transaction i [] = none
find_transaction i (t ∷ ts) = if i == t.id then some t else find_transaction i ts

abbrev pub points_at : ℕ → Option ℕ → Bool
points_at i none = false
points_at i (some j) = i == j

-- `rewardTransaction.findFirst({ where: { sourceTransactionId, type: { in } } })`
unfoldable pub find_acting :
    ℕ → (RewardTransactionType → Bool) → List RewardTransaction → Option RewardTransaction
find_acting i test [] = none
find_acting i test (t ∷ ts) =
    if points_at i t.source_transaction_id && test t.kind then some t else find_acting i test ts

-- `x ?? 0`
abbrev pub or_zero : Option ℤ → ℤ
or_zero none = pos 0
or_zero (some x) = x

unfoldable pub bump : Movement → UserBalance → UserBalance
bump m b = record b {
  pending_points = b.pending_points +ℤ m.pending_delta;
  available_points = b.available_points +ℤ m.available_delta;
  locked_points = b.locked_points +ℤ m.locked_delta;
  lifetime_earned_points = b.lifetime_earned_points +ℤ or_zero m.lifetime.earned;
  lifetime_withdrawn_points = b.lifetime_withdrawn_points +ℤ or_zero m.lifetime.withdrawn;
  lifetime_reversed_points = b.lifetime_reversed_points +ℤ or_zero m.lifetime.reversed;
  version = suc b.version;
}

-- `userBalance.update({ where: { id }, data })`
unfoldable pub update_balance : ℕ → Movement → List UserBalance → List UserBalance
update_balance i m [] = []
update_balance i m (b ∷ bs) = if i == b.id then bump m b ∷ bs else b ∷ update_balance i m bs

-- The row that `write` creates.
unfoldable pub row_of : ℕ → Movement → RewardTransaction
row_of i m = record {
  id = i;
  user_id = m.user_id;
  kind = m.kind;
  amount_points = m.amount_points;
  pending_delta = m.pending_delta;
  available_delta = m.available_delta;
  locked_delta = m.locked_delta;
  source_type = m.source.kind;
  source_id = m.source.id;
  source_label = m.source.label;
  source_transaction_id = m.source_transaction_id;
  actor_type = m.actor.kind;
  actor_id = m.actor.id;
  reason = m.reason;
  matures_at = m.matures_at;
  hold_period_days = m.hold_period_days;
  created_at = m.at;
}

-- `lockBalance`: the row is read under `FOR UPDATE`, and its absence is an error.
unfoldable pub lock_balance : ℕ → Tx Ledger UserBalance
lock_balance u l = lift (require (find_balance u l.balances) user_not_found) l

-- `write`: the history row and the balance update together. A key that is taken refuses the insert.
unfoldable pub write : ℕ → Movement → UserBalance → Tx Ledger RewardTransaction
write i m b l =
    if is_some (find_transaction i l.transactions)
    then err unique_violation
    else ok (
      row_of i m,
      record {
        balances = update_balance b.id m l.balances;
        transactions = row_of i m ∷ l.transactions;
      },
    )
