-- ===== src/Rewards/Once.antt =====
-- A lock is resolved once, a credit is reversed once and matures once, whatever is called in
-- between (`resolveLock`, `reverse` and `mature` of reward-accounting.service.ts).
use gemone.Prelude.{
  ℕ, ◌≡◌, refl, Bool, true, Option, none, some, Text, List, ==_refl, ok, err,
  reward_invalid_operation, arith, Result-cases, is_some, inl, inr,
}
use gemone.Rewards.Types.{
  RewardTransaction, RewardTransactionType, RewardActor, UserBalance, Movement, same_type,
  payout_lock,
}
use gemone.Rewards.Store.{Ledger, find_transaction, find_acting, find_balance, row_of}
use gemone.Rewards.Operations.{
  Context, Resolution, settle, refund, resolve_lock, is_resolution, resolve_check, resolve_movement,
}
use gemone.Rewards.Machine.{Call, run, written}
use gemone.Rewards.Refines.{write-ok, resolve_check-ok}
use gemone.Rewards.History.{Extends, more, run-Extends, find-Extends, acting-Extends}

-- The row that a resolution was found to act on, and the tables that it left.
pub resolve_lock-ok :
    (l l' : Ledger) (c : Context) (r : Resolution) (i : ℕ) (reason : Text)
    (actor : Option RewardActor) (t : RewardTransaction)
    → resolve_lock c r i reason actor l ≡ ok (t, l')
    → (k : RewardTransaction) × (b : UserBalance) × (resolve_check i l ≡ ok k)
      × (find_balance k.user_id l.balances ≡ some b)
      × (find_transaction c.new_id l.transactions ≡ none)
      × (t ≡ row_of c.new_id (resolve_movement c.now r reason actor k))
      × (l' ≡ written c.new_id (resolve_movement c.now r reason actor k) b l)
unfolding resolve_lock
resolve_lock-ok l l' c r i reason actor t h = elim (Result-cases (resolve_check i l)) [
  | inl (e, refused) ↦ let bad = rw (refused, resolve_lock) at h in cc
  | inr (k, e) ↦
      let (b, found, fresh, row, tables) =
        write-ok l l' c.new_id k.user_id (λ _. resolve_movement c.now r reason actor k) t
          (rw (e, resolve_lock) at h) in
      (k, b, e, found, fresh, row, tables)
]

-- A row written for a movement that acts on `k` is found as acting on `k`.
pub acting-written :
    (l : Ledger) (i j : ℕ) (m : Movement) (b : UserBalance) (test : RewardTransactionType → Bool)
    → m.source_transaction_id ≡ some j
    → test m.kind ≡ true
    → is_some (find_acting j test (written i m b l).transactions) ≡ true
unfolding written row_of find_acting
acting-written l i j m b test e h = rw (e, ==_refl, h)

-- The tables after a write extend the ones before it.
pub written-Extends :
    (l : Ledger) (i : ℕ) (m : Movement) (b : UserBalance)
    → find_transaction i l.transactions ≡ none
    → Extends l.transactions (written i m b l).transactions
unfolding written row_of
written-Extends l i m b fresh = more (row_of i m) fresh Extends.same

resolve_check-acted :
    (l : Ledger) (i : ℕ) (k : RewardTransaction)
    → find_transaction i l.transactions ≡ some k
    → same_type k.kind payout_lock ≡ true
    → is_some (find_acting k.id is_resolution l.transactions) ≡ true
    → resolve_check i l ≡ err reward_invalid_operation
unfolding resolve_check
resolve_check-acted l i k e kind h = ground arith

pub is_resolution-resolve :
    (now : ℕ) (r : Resolution) (reason : Text) (actor : Option RewardActor) (k : RewardTransaction)
    → is_resolution (resolve_movement now r reason actor k).kind ≡ true
unfolding resolve_movement same_type
is_resolution-resolve now settle reason actor k = refl
is_resolution-resolve now refund reason actor k = refl

-- What later calls find of a lock that has been resolved.
resolved_for_good :
    (l l' : Ledger) (c : Context) (r : Resolution) (i : ℕ) (reason : Text)
    (actor : Option RewardActor) (t : RewardTransaction) (cs : List Call)
    → resolve_lock c r i reason actor l ≡ ok (t, l')
    → resolve_check i (run l' cs) ≡ err reward_invalid_operation
resolved_for_good l l' c r i reason actor t cs h =
    let (k, b, e, found, fresh, row, tables) = resolve_lock-ok l l' c r i reason actor t h in
    let (at_i, kind, open_before) = resolve_check-ok i l k e in
    let m = resolve_movement c.now r reason actor k in
    let later = run-Extends l' cs in
    resolve_check-acted (run l' cs) i k
      (find-Extends i k later
        (rw tables (find-Extends i k (written-Extends l c.new_id m b fresh) at_i)))
      kind
      (acting-Extends k.id is_resolution later (
        rw tables (
          acting-written l c.new_id k.id m b is_resolution (unfold resolve_movement in refl)
            (is_resolution-resolve c.now r reason actor k))))

-- A payout lock that has been settled or released is never settled or released again: after any
-- further calls, either resolution of it is refused as an invalid operation.
pub resolve_lock_once :
    (l l' : Ledger) (c c' : Context) (r r' : Resolution) (i : ℕ) (reason reason' : Text)
    (actor actor' : Option RewardActor) (t : RewardTransaction) (cs : List Call)
    → resolve_lock c r i reason actor l ≡ ok (t, l')
    → resolve_lock c' r' i reason' actor' (run l' cs) ≡ err reward_invalid_operation
unfolding resolve_lock
resolve_lock_once l l' c c' r r' i reason reason' actor actor' t cs h =
    rw (resolved_for_good l l' c r i reason actor t cs h, resolve_lock)
