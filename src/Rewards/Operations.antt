-- ===== src/Rewards/Operations.antt =====
-- The mutations of `RewardAccountingService` (reward-accounting.service.ts). Each runs in one
-- database transaction, the caller's or its own: an error rolls it back, so it carries no state.
-- The generated id (`uuidv7()`), the clock and the resolved configuration are arguments.
use gemone.Prelude.{
  ℕ, ◌+◌, ◌*◌, Bool, ◌||◌, Option, none, some, Text, codes, ℤ, pos, ◌-ℤ◌, neg, min_ℤ, ltb_ℤ, leb_ℤ,
  if◌then◌else◌, is_some, validation_error, reward_transaction_not_found, reward_invalid_operation,
  reward_insufficient_balance, Result, ok, err, Tx, ◌>>=◌, ◌>>◌, pure, lift, refuse_if, any, ◌==◌,
  ◌∷◌,
}
use gemone.Rewards.Types.{
  RewardTransactionType, CreditType, credit_type, chargeback_debit, reward_maturation, payout_lock,
  payout_settle, payout_refund, manual_adjustment, RewardActor, RewardActorType, RewardSource,
  RewardSourceType, UserBalance, RewardTransaction, Lifetime, Movement, Number, integer,
  not_an_integer, same_type,
}
use gemone.Rewards.Store.{Ledger, find_balance, find_transaction, find_acting, lock_balance, write}
pub mod Movements
unfoldable pub use Movements.*

-- What a call to the service is given besides its own arguments: the id that `uuidv7()` returns
-- and the time that the clock shows.
pub record Context : Type 0 where
  pub new_id : ℕ
  pub now : ℕ

-- Only a positive integer is an amount.
unfoldable pub require_positive : Number → Result ℤ
require_positive (integer n) = if leb_ℤ n (pos 0) then err validation_error else ok n
require_positive not_an_integer = err validation_error

unfoldable pub mutate : ℕ → Movement → Tx Ledger RewardTransaction
mutate i m = do
  balance ← lock_balance m.user_id
  write i (record m { source_transaction_id = none }) balance

unfoldable pub credit : (Option ℕ → ℕ) → Context → CreditInput → Tx Ledger RewardTransaction
credit hold_period_of c input = do
  amount ← lift (require_positive input.amount_points)
  mutate c.new_id (credit_movement hold_period_of c.now amount input)

unfoldable pub debit : Context → DebitInput → Tx Ledger RewardTransaction
debit c input = do
  amount ← lift (require_positive input.amount_points)
  mutate c.new_id (debit_movement c.now amount input)

-- The reads of `reverse` that come before the balance row is locked.
unfoldable pub reverse_check : ℕ → Ledger → Result RewardTransaction
reverse_check i l = elim (find_transaction i l.transactions) [
  | none ↦ err reward_transaction_not_found
  | some original ↦
      if leb_ℤ original.amount_points (pos 0)
      then err reward_invalid_operation
      else if is_some (find_acting original.id is_chargeback l.transactions)
      then err reward_invalid_operation
      else ok original
]

-- What `reverse` does from `lockBalance` on.
unfoldable pub reverse_apply :
    Context → Text → ReverseOptions → RewardTransaction → Tx Ledger RewardTransaction
reverse_apply c reason options original = do
  balance ← lock_balance original.user_id
  write c.new_id (reverse_movement c.now reason options original balance) balance

unfoldable pub reverse : Context → ℕ → Text → ReverseOptions → Tx Ledger RewardTransaction
unfolding reverse_apply
reverse c i reason options l = elim (reverse_check i l) [
  | err e ↦ err e
  | ok original ↦ reverse_apply c reason options original l
]

-- The row to mature, if there is one and nothing has acted on it.
unfoldable pub mature_check : ℕ → Ledger → Option RewardTransaction
mature_check i l = elim (find_transaction i l.transactions) [
  | none ↦ none
  | some credited ↦
      if is_some (find_acting credited.id is_acted l.transactions) then none else some credited
]

-- What `mature` does from `lockBalance` on.
unfoldable pub mature_apply : Context → RewardTransaction → Tx Ledger RewardTransaction
mature_apply c credited = do
  balance ← lock_balance credited.user_id
  write c.new_id (mature_movement c.now credited) balance

unfoldable pub mature : Context → ℕ → Tx Ledger (Option RewardTransaction)
mature c i l = elim (mature_check i l) [
  | none ↦ ok (none, l)
  | some credited ↦ (mature_apply c credited >>= λ t. pure (some t)) l
]

-- Only `available` is lockable, and only this mutation refuses for want of points.
unfoldable pub lock : Context → ℕ → Number → ℕ → Option Text → Tx Ledger RewardTransaction
lock c u amount_points payout_id label = do
  amount ← lift (require_positive amount_points)
  balance ← lock_balance u
  refuse_if (ltb_ℤ balance.available_points amount) reward_insufficient_balance
  write c.new_id (lock_movement c.now u amount payout_id label) balance

-- The reads of `resolveLock`: the lock row, and that nothing has resolved it.
unfoldable pub resolve_check : ℕ → Ledger → Result RewardTransaction
resolve_check i l = elim (find_transaction i l.transactions) [
  | none ↦ err reward_transaction_not_found
  | some locked ↦
      if same_type locked.kind payout_lock
      then if is_some (find_acting locked.id is_resolution l.transactions)
        then err reward_invalid_operation
        else ok locked
      else err reward_transaction_not_found
]

unfoldable pub resolve_apply :
    Context
    → Resolution
    → Text
    → Option RewardActor
    → RewardTransaction
    → Tx Ledger RewardTransaction
resolve_apply c r reason actor locked = do
  balance ← lock_balance locked.user_id
  write c.new_id (resolve_movement c.now r reason actor locked) balance

-- `resolveLock`, by which `settleLock` and `releaseLock` differ only in the type.
unfoldable pub resolve_lock :
    Context → Resolution → ℕ → Text → Option RewardActor → Tx Ledger RewardTransaction
unfolding resolve_apply
resolve_lock c r i reason actor l = elim (resolve_check i l) [
  | err e ↦ err e
  | ok locked ↦ resolve_apply c r reason actor locked l
]

unfoldable pub settle_lock : Context → ℕ → Text → Option RewardActor → Tx Ledger RewardTransaction
settle_lock c = resolve_lock c settle

unfoldable pub release_lock : Context → ℕ → Text → Option RewardActor → Tx Ledger RewardTransaction
release_lock c = resolve_lock c refund

-- `openAccount`: `createMany` with `skipDuplicates`, so a user or an id that is taken is skipped.
abbrev pub has_balance_id : ℕ → Ledger → Bool
has_balance_id i l = any (λ b. i == b.id) l.balances

abbrev pub new_balance : ℕ → ℕ → UserBalance
new_balance i u = record {
  id = i;
  user_id = u;
  pending_points = pos 0;
  available_points = pos 0;
  locked_points = pos 0;
  lifetime_earned_points = pos 0;
  lifetime_withdrawn_points = pos 0;
  lifetime_reversed_points = pos 0;
  version = 0;
}

unfoldable pub open_account : ℕ → ℕ → Tx Ledger (Unit {0})
open_account i u l =
    if is_some (find_balance u l.balances) || has_balance_id i l
    then ok (tt, l)
    else ok (tt, record l { balances = new_balance i u ∷ l.balances })
