-- ===== src/Rewards/Operations/Movements.antt =====
-- The movements that the mutations of `RewardAccountingService` hand to `write`
-- (reward-accounting.service.ts), with the inputs they are made from and the sets of types that its
-- queries name. The clock and the resolved hold period are arguments.
use gemone.Prelude.{
  ℕ, ◌+◌, ◌*◌, Bool, ◌||◌, Option, none, some, Text, codes, ℤ, pos, ◌-ℤ◌, neg, min_ℤ, if◌then◌else◌,
}
use gemone.Rewards.Types.{
  RewardTransactionType, CreditType, credit_type, chargeback_debit, reward_maturation, payout_lock,
  payout_settle, payout_refund, manual_adjustment, RewardActor, RewardActorType, RewardSource,
  RewardSourceType, UserBalance, RewardTransaction, Lifetime, Movement, Number, same_type,
}

abbrev pub system_actor : RewardActor
system_actor = record { kind = RewardActorType.system; id = none }

abbrev pub admin_actor : RewardActor
admin_actor = record { kind = RewardActorType.admin; id = none }

abbrev pub no_lifetime : Lifetime
no_lifetime = record { earned = none; withdrawn = none; reversed = none }

-- `x ?? y`
abbrev pub or_else {ℓ} : {A : Type ℓ} → Option A → A → A
or_else none y = y
or_else (some x) y = x

pub record CreditInput : Type 0 where
  pub user_id : ℕ
  pub amount_points : Number
  pub source : RewardSource
  pub actor : Option RewardActor
  pub reason : Option Text
  pub hold_scope_provider_id : Option ℕ
  pub hold_indefinitely : Bool
  pub kind : Option CreditType

-- The movement of a credit, the hold period resolved by `configuration.get`.
unfoldable pub credit_movement : (Option ℕ → ℕ) → ℕ → ℤ → CreditInput → Movement
credit_movement hold_period_of now amount input = record {
  user_id = input.user_id;
  kind = credit_type (or_else input.kind CreditType.conversion);
  amount_points = amount;
  pending_delta = amount;
  available_delta = pos 0;
  locked_delta = pos 0;
  source = input.source;
  source_transaction_id = none;
  actor = or_else input.actor system_actor;
  reason = input.reason;
  matures_at =
      if input.hold_indefinitely
      then none
      else some (now + hold_period_of input.hold_scope_provider_id * 86_400_000);
  hold_period_days =
      if input.hold_indefinitely then none else some (hold_period_of input.hold_scope_provider_id);
  lifetime = record { earned = some amount; withdrawn = none; reversed = none };
  at = now;
}

pub record DebitInput : Type 0 where
  pub user_id : ℕ
  pub amount_points : Number
  pub source : RewardSource
  pub actor : Option RewardActor
  pub reason : Option Text

unfoldable pub debit_movement : ℕ → ℤ → DebitInput → Movement
debit_movement now amount input = record {
  user_id = input.user_id;
  kind = manual_adjustment;
  amount_points = neg amount;
  pending_delta = pos 0;
  available_delta = neg amount;
  locked_delta = pos 0;
  source = input.source;
  source_transaction_id = none;
  actor = or_else input.actor admin_actor;
  reason = input.reason;
  matures_at = none;
  hold_period_days = none;
  lifetime = no_lifetime;
  at = now;
}

abbrev pub is_chargeback : RewardTransactionType → Bool
is_chargeback k = same_type k chargeback_debit

-- The types that mean a credit's points are no longer waiting in `pending`.
abbrev pub is_acted : RewardTransactionType → Bool
is_acted k = same_type k reward_maturation || same_type k chargeback_debit

-- The types that resolve a payout lock.
abbrev pub is_resolution : RewardTransactionType → Bool
is_resolution k = same_type k payout_settle || same_type k payout_refund

pub record ReverseOptions : Type 0 where
  pub actor : Option RewardActor
  pub source : Option RewardSource

abbrev system_source : Option Text → RewardSource
system_source label = record { kind = RewardSourceType.system; id = none; label = label }

-- The caller's source, or the system's; the label falls back to the credit's.
unfoldable pub reverse_source : Option RewardSource → Option Text → RewardSource
reverse_source none label = system_source label
reverse_source (some s) label = record s { label = elim s.label [ none ↦ label | some t ↦ some t ] }

unfoldable pub reverse_movement :
    ℕ → Text → ReverseOptions → RewardTransaction → UserBalance → Movement
reverse_movement now reason options original balance =
    let from_pending = min_ℤ balance.pending_points original.amount_points in
    record {
      user_id = original.user_id;
      kind = chargeback_debit;
      amount_points = neg original.amount_points;
      pending_delta = neg from_pending;
      available_delta = neg (original.amount_points -ℤ from_pending);
      locked_delta = pos 0;
      source = reverse_source options.source original.source_label;
      source_transaction_id = some original.id;
      actor = or_else options.actor system_actor;
      reason = some reason;
      matures_at = none;
      hold_period_days = none;
      lifetime = record { earned = none; withdrawn = none; reversed = some original.amount_points };
      at = now;
    }

abbrev hold_elapsed : Text
hold_elapsed = codes "hold period elapsed"

unfoldable pub mature_movement : ℕ → RewardTransaction → Movement
mature_movement now credited = record {
  user_id = credited.user_id;
  kind = reward_maturation;
  amount_points = pos 0;
  pending_delta = neg credited.amount_points;
  available_delta = credited.amount_points;
  locked_delta = pos 0;
  source = system_source credited.source_label;
  source_transaction_id = some credited.id;
  actor = system_actor;
  reason = some hold_elapsed;
  matures_at = none;
  hold_period_days = none;
  lifetime = no_lifetime;
  at = now;
}

abbrev withdrawal_requested : Text
withdrawal_requested = codes "withdrawal requested"

unfoldable pub lock_movement : ℕ → ℕ → ℤ → ℕ → Option Text → Movement
lock_movement now u amount payout_id label = record {
  user_id = u;
  kind = payout_lock;
  amount_points = pos 0;
  pending_delta = pos 0;
  available_delta = neg amount;
  locked_delta = amount;
  source = record { kind = RewardSourceType.payout; id = some payout_id; label = label };
  source_transaction_id = none;
  actor = record { kind = RewardActorType.user; id = some u };
  reason = some withdrawal_requested;
  matures_at = none;
  hold_period_days = none;
  lifetime = no_lifetime;
  at = now;
}

-- `PAYOUT_SETTLE` or `PAYOUT_REFUND`
pub data Resolution : Type 0 where
  settle refund : Resolution

unfoldable pub resolve_movement :
    ℕ → Resolution → Text → Option RewardActor → RewardTransaction → Movement
resolve_movement now r reason actor locked = record {
  user_id = locked.user_id;
  kind = elim r [ settle ↦ payout_settle | refund ↦ payout_refund ];
  amount_points = elim r [ settle ↦ neg locked.locked_delta | refund ↦ pos 0 ];
  pending_delta = pos 0;
  available_delta = elim r [ settle ↦ pos 0 | refund ↦ locked.locked_delta ];
  locked_delta = neg locked.locked_delta;
  source = record {
    kind = RewardSourceType.payout;
    id = locked.source_id;
    label = locked.source_label;
  };
  source_transaction_id = some locked.id;
  actor = or_else actor system_actor;
  reason = some reason;
  matures_at = none;
  hold_period_days = none;
  lifetime = elim r [
    | settle ↦ record { earned = none; withdrawn = some locked.locked_delta; reversed = none }
    | refund ↦ no_lifetime
  ];
  at = now;
}
