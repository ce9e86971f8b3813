-- ===== src/Rewards/Tests.antt =====
-- The theorems of the reward ledger at small ledgers.
use gemone.Prelude.{
  ℕ, ◌+◌, ◌==◌, inl, ◌≡◌, ◌↔◌, refl, true, false, Option, none, some, Text, codes, List, [], ◌∷◌, ℤ,
  pos, negsuc, ◌+ℤ◌, ◌-ℤ◌, neg, pos_part, neg_part, ◌≤ℤ◌, is_some, Result, ok, err,
  reward_invalid_operation, arith, ◌≤◌,
}
use gemone.Rewards.Types.{
  RewardTransactionType, reward_maturation, RewardSourceType, RewardSource, RewardTransaction,
  UserBalance, RewardActorType, integer, same_type,
}
use gemone.Rewards.Store.{
  Ledger, find_balance, find_transaction, find_acting, bump, update_balance, row_of, lock_balance,
  write,
}
use gemone.Rewards.Operations.{
  Context, CreditInput, ReverseOptions, settle, refund, reverse, mature, lock, resolve_lock,
  open_account, new_balance, credit, require_positive, mutate, credit_movement, mature_check,
  mature_apply, mature_movement, reverse_check, reverse_apply, reverse_movement, lock_movement,
  is_acted, resolve_check, resolve_apply, resolve_movement,
}
use gemone.Rewards.Reads.{
  get_balance, reconcile, sum_for, find_maturable, is_due, sort_due, insert_due,
}
use gemone.Rewards.Machine.{
  after, Call, opens, credits, reverses, matures, locks, resolves, run, step, empty, Step,
}
use gemone.Rewards.Reconcile.{Keyed, reconcile-run}
use gemone.Rewards.Amounts.{total-run}
use gemone.Rewards.Refines.{step-Step}
use gemone.Rewards.History.{Extends, run-Extends}
use gemone.Rewards.Once.{resolve_lock_once}
use gemone.Rewards.Reversal.{reverse_once, mature_once}
use gemone.Rewards.Race.{total_of, interleaved_reverses, interleaved_reverses-double}
use gemone.Rewards.Overdraw.{reverse-mature_overdraw}
use gemone.Rewards.Status.{
  RewardStatus, reward_status_of, selects, where_for_status, where_for_status-eq-status_of,
}
use gemone.Rewards.Sweep.{In}
use gemone.Rewards.Maturation.{maturation_batch_size, sweep}
use gemone.Rewards.Matured.{sweep_lem}

abbrev at : ℕ → ℕ → Context
at i now = record { new_id = i; now = now }

abbrev offer : RewardSource
offer = record { kind = RewardSourceType.conversion; id = some 3; label = none }

-- A credit of `n` points to user 7.
abbrev earns : ℤ → CreditInput
earns n = record {
  user_id = 7;
  amount_points = integer n;
  source = offer;
  actor = none;
  reason = none;
  hold_scope_provider_id = none;
  hold_indefinitely = false;
  kind = none;
}

abbrev a_week : Option ℕ → ℕ
a_week provider = 7

-- The account of user 7 with a matured credit of 100 points, row 10.
abbrev earning : List Call
earning = opens 1 7 ∷ credits a_week (at 10 0) (earns (pos 100)) ∷ matures (at 11 1) 10 ∷ []

abbrev matured : Ledger
matured = run empty earning

abbrev plain : ReverseOptions
plain = record { actor = none; source = none }

abbrev label : Text
label = codes "fraud"

-- Every kind of call, with two that are refused.
abbrev busy : List Call
busy =
    opens 1 7
    ∷ credits a_week (at 10 0) (earns (pos 100))
    ∷ matures (at 11 1) 10
    ∷ locks (at 12 2) 7 (integer (pos 60)) 5 none
    ∷ locks (at 13 3) 7 (integer (pos 60)) 6 none
    ∷ resolves (at 14 4) settle 12 label none
    ∷ resolves (at 15 5) refund 12 label none
    ∷ reverses (at 16 6) 10 label plain
    ∷ []

reconcile-run_example : (reconcile 7 (run empty busy)).balanced ≡ true
reconcile-run_example = reconcile-run busy 7

total-run_example :
    (get_balance 7 (run empty busy)).total
    ≡ sum_for 7 (λ t. t.amount_points) (run empty busy).transactions
total-run_example = total-run busy 7

step-Step_example : Step false matured (step matured (reverses (at 16 6) 10 label plain))
step-Step_example = step-Step matured (reverses (at 16 6) 10 label plain)

run-Extends_example : Extends matured.transactions (run matured busy).transactions
run-Extends_example = run-Extends matured busy

-- A movement on user 7, for the case of `row_from` that the tests never reach.
abbrev no_row : RewardTransaction
no_row = record {
  id = 0;
  user_id = 7;
  kind = RewardTransactionType.bonus;
  amount_points = pos 0;
  pending_delta = pos 0;
  available_delta = pos 0;
  locked_delta = pos 0;
  source_type = RewardSourceType.system;
  source_id = none;
  source_label = none;
  source_transaction_id = none;
  actor_type = RewardActorType.system;
  actor_id = none;
  reason = none;
  matures_at = none;
  hold_period_days = none;
  created_at = 0;
}

abbrev row_from : Result (RewardTransaction × Ledger) → RewardTransaction
row_from (ok (t, l)) = t
row_from (err e) = no_row

abbrev reversed : Result (RewardTransaction × Ledger)
reversed = reverse (at 16 6) 10 label plain matured

-- The first reversal of the credit of 100 points.
reversed_ok : reversed ≡ ok (row_from reversed, after matured reversed)
unfolding run step open_account credit require_positive mutate credit_movement mature mature_check
    mature_apply mature_movement reverse reverse_check reverse_apply reverse_movement lock
    resolve_lock lock_movement resolve_check resolve_apply resolve_movement find_balance
    find_transaction find_acting bump update_balance row_of lock_balance write same_type ◌+ℤ◌
reversed_ok = refl

reverse_once_example :
    reverse (at 17 7) 10 label plain (run (after matured reversed) busy)
    ≡ err reward_invalid_operation
reverse_once_example =
    reverse_once matured (after matured reversed) (at 16 6) (at 17 7) 10 label label plain plain
      (row_from reversed) busy reversed_ok

-- The tables before the credit matures.
abbrev waiting : Ledger
waiting = run empty (opens 1 7 ∷ credits a_week (at 10 0) (earns (pos 100)) ∷ [])

abbrev row_of_some : Result (Option RewardTransaction × Ledger) → RewardTransaction
row_of_some (ok (some t, l)) = t
row_of_some (ok (none, l)) = no_row
row_of_some (err e) = no_row

abbrev maturing : Result (Option RewardTransaction × Ledger)
maturing = mature (at 11 1) 10 waiting

maturing_ok : maturing ≡ ok (some (row_of_some maturing), after waiting maturing)
unfolding run step open_account credit require_positive mutate credit_movement mature mature_check
    mature_apply mature_movement reverse reverse_check reverse_apply reverse_movement lock
    resolve_lock lock_movement resolve_check resolve_apply resolve_movement find_balance
    find_transaction find_acting bump update_balance row_of lock_balance write same_type ◌+ℤ◌
maturing_ok = refl

mature_once_example :
    let l = run (after waiting maturing) busy in mature (at 18 8) 10 l ≡ ok (none, l)
mature_once_example =
    mature_once waiting (after waiting maturing) (at 11 1) (at 18 8) 10 (row_of_some maturing) busy
      maturing_ok

-- The tables with a lock of 60 points, row 12.
abbrev held : Ledger
held = step matured (locks (at 12 2) 7 (integer (pos 60)) 5 none)

abbrev resolved : Result (RewardTransaction × Ledger)
resolved = resolve_lock (at 14 4) settle 12 label none held

resolved_ok : resolved ≡ ok (row_from resolved, after held resolved)
unfolding run step open_account credit require_positive mutate credit_movement mature mature_check
    mature_apply mature_movement reverse reverse_check reverse_apply reverse_movement lock
    resolve_lock lock_movement resolve_check resolve_apply resolve_movement find_balance
    find_transaction find_acting bump update_balance row_of lock_balance write same_type ◌+ℤ◌
resolved_ok = refl

resolve_lock_once_example :
    resolve_lock (at 15 5) refund 12 label none (run (after held resolved) busy)
    ≡ err reward_invalid_operation
resolve_lock_once_example =
    resolve_lock_once held (after held resolved) (at 14 4) (at 15 5) settle refund 12 label label
      none none (row_from resolved) busy resolved_ok

matured_Keyed : Keyed matured.balances
unfolding run step open_account credit require_positive mutate credit_movement mature mature_check
    mature_apply mature_movement reverse reverse_check reverse_apply reverse_movement lock
    resolve_lock lock_movement resolve_check resolve_apply resolve_movement find_balance
    find_transaction find_acting bump update_balance row_of lock_balance write same_type ◌+ℤ◌
matured_Keyed = (tt, tt)

matured_free : find_transaction 17 matured.transactions ≡ none
unfolding run step open_account credit require_positive mutate credit_movement mature mature_check
    mature_apply mature_movement reverse reverse_check reverse_apply reverse_movement lock
    resolve_lock lock_movement resolve_check resolve_apply resolve_movement find_balance
    find_transaction find_acting bump update_balance row_of lock_balance write same_type ◌+ℤ◌
matured_free = refl

interleaved_reverses-double_example :
    (k : RewardTransaction) × (b b'' : UserBalance) × (t' : RewardTransaction) × (l'' : Ledger)
    × (find_transaction 10 matured.transactions ≡ some k)
    × (interleaved_reverses (at 16 6) (at 17 6) 10 label plain matured
        ≡ ok ((row_from reversed, t'), l''))
    × ((row_from reversed).amount_points ≡ neg k.amount_points)
    × (t'.amount_points ≡ neg k.amount_points)
    × ((row_from reversed).source_transaction_id ≡ some k.id)
    × (t'.source_transaction_id ≡ some k.id)
    × (find_balance k.user_id matured.balances ≡ some b)
    × (find_balance k.user_id l''.balances ≡ some b'')
    × (total_of b'' ≡ total_of b -ℤ k.amount_points -ℤ k.amount_points)
interleaved_reverses-double_example =
    interleaved_reverses-double matured (after matured reversed) (at 16 6) (at 17 6) 10 label plain
      (row_from reversed) matured_Keyed matured_free (λ e. ground arith) reversed_ok

-- One credit of 100 points has matured and another is pending.
abbrev two_credits : Ledger
two_credits = step matured (credits a_week (at 20 2) (earns (pos 100)))

abbrev charged_back : Result (RewardTransaction × Ledger)
charged_back = reverse (at 21 3) 10 label plain two_credits

abbrev matures_late : Result (Option RewardTransaction × Ledger)
matures_late = mature (at 22 4) 20 (after two_credits charged_back)

abbrev found_in : ℕ → Ledger → RewardTransaction
found_in i l = elim (find_transaction i l.transactions) [ none ↦ no_row | some t ↦ t ]

abbrev account_of : ℕ → Ledger → UserBalance
account_of u l = elim (find_balance u l.balances) [ none ↦ new_balance 0 u | some b ↦ b ]

two_credits-covers :
    (found_in 10 two_credits).amount_points ≤ℤ (account_of 7 two_credits).pending_points
unfolding run step open_account credit require_positive mutate credit_movement mature mature_check
    mature_apply mature_movement reverse reverse_check reverse_apply reverse_movement lock
    resolve_lock lock_movement resolve_check resolve_apply resolve_movement find_balance
    find_transaction find_acting bump update_balance row_of lock_balance write same_type ◌+ℤ◌ neg
    pos_part neg_part
two_credits-covers = ground arith

reverse-mature_overdraw_example :
    (b' : UserBalance) × (find_balance
        (found_in 10 two_credits).user_id
        (after (after two_credits charged_back) matures_late).balances
      ≡ some b')
    × (b'.pending_points
        ≡ (account_of 7 two_credits).pending_points
          -ℤ (found_in 10 two_credits).amount_points
          -ℤ (found_in 20 two_credits).amount_points)
    × (b'.available_points
        ≡ (account_of 7 two_credits).available_points +ℤ (found_in 20 two_credits).amount_points)
unfolding run step open_account credit require_positive mutate credit_movement mature mature_check
    mature_apply mature_movement reverse reverse_check reverse_apply reverse_movement lock
    resolve_lock lock_movement resolve_check resolve_apply resolve_movement find_balance
    find_transaction find_acting bump update_balance row_of lock_balance write same_type ◌+ℤ◌
reverse-mature_overdraw_example =
    reverse-mature_overdraw two_credits (after two_credits charged_back)
      (after (after two_credits charged_back) matures_late) (at 21 3) (at 22 4) 10 20 label plain
      (found_in 10 two_credits) (found_in 20 two_credits) (row_from charged_back)
      (row_of_some matures_late) (account_of 7 two_credits) (tt, tt) refl refl refl refl
      two_credits-covers refl refl

where_for_status-eq-status_of_example :
    (found : RewardStatus) × (reward_status_of reward_maturation (negsuc 9) ≡ some found)
    × ((s : RewardStatus)
        → (selects (where_for_status s) reward_maturation (negsuc 9) ≡ true)
          ↔ (reward_status_of reward_maturation (negsuc 9) ≡ some s))
where_for_status-eq-status_of_example = where_for_status-eq-status_of reward_maturation (negsuc 9)

-- A credit that falls due after a week, with another of the same day.
abbrev two_waiting : Ledger
two_waiting = step waiting (credits a_week (at 20 2) (earns (pos 40)))

-- A credit of a week that has just ended.
abbrev first_or : List RewardTransaction → RewardTransaction
first_or [] = no_row
first_or (t ∷ ts) = t

abbrev due_calls : List Call
due_calls = opens 1 7 ∷ credits a_week (at 10 0) (earns (pos 100)) ∷ []

abbrev a_week_later : ℕ
a_week_later = 604_800_000

abbrev due_row : RewardTransaction
due_row = first_or (run empty due_calls).transactions

new_keys : (i : ℕ) → find_transaction (100 + i) (run empty due_calls).transactions ≡ none
unfolding run step open_account credit require_positive mutate credit_movement find_balance
    find_transaction find_acting bump update_balance row_of lock_balance write same_type ◌+ℤ◌
new_keys i = let other : (100 + i == 10) ≡ false = ground arith in rw other refl

one_due : find_maturable a_week_later maturation_batch_size (run empty due_calls) ≡ 10 ∷ []
unfolding run step open_account credit require_positive mutate credit_movement find_balance
    find_transaction find_acting bump update_balance row_of lock_balance write same_type ◌+ℤ◌
    find_maturable sort_due insert_due is_due
one_due = refl

is_there : In due_row (run empty due_calls).transactions
unfolding run step open_account credit require_positive mutate credit_movement find_balance
    find_transaction find_acting bump update_balance row_of lock_balance write same_type ◌+ℤ◌
is_there = inl refl

is_now_due : is_due a_week_later (run empty due_calls).transactions due_row ≡ true
unfolding run step open_account credit require_positive mutate credit_movement find_balance
    find_transaction find_acting bump update_balance row_of lock_balance write same_type ◌+ℤ◌ is_due
is_now_due = refl

sweep_lem_example :
    (is_some (
        find_acting due_row.id is_acted
          (sweep (λ i. 100 + i) a_week_later (run empty due_calls)).1.transactions)
      ≡ true)
    × ((sweep (λ i. 100 + i) a_week_later (run empty due_calls)).0.matured
        ≤ (sweep (λ i. 100 + i) a_week_later (run empty due_calls)).0.scanned)
sweep_lem_example =
    sweep_lem (λ i. 100 + i) a_week_later due_calls due_row (λ i j e. omega arith) new_keys
      (rw one_due (omega arith)) is_there is_now_due
