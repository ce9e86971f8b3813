-- ===== src/Rewards/Reversal.antt =====
-- `reverse` and `mature` of reward-accounting.service.ts: once in sequence, and what happens to the
-- reads that come before `lockBalance` when two calls interleave.
use gemone.Prelude.{
  ℕ, ◌≡◌, refl, true, none, some, Text, List, ok, err, reward_invalid_operation, arith,
  Option-cases, Result-cases, is_some, inl, inr, ◌>>=◌,
}
use gemone.Rewards.Types.{RewardTransaction, UserBalance, same_type}
use gemone.Rewards.Store.{Ledger, find_transaction, find_acting, find_balance, row_of}
use gemone.Rewards.Operations.{
  Context, ReverseOptions, reverse, mature, is_chargeback, is_acted, reverse_check, mature_check,
  mature_apply, reverse_movement, mature_movement,
}
use gemone.Rewards.Machine.{Call, run, written}
use gemone.Rewards.Refines.{write-ok, reverse_check-ok, mature_check-some}
use gemone.Rewards.History.{run-Extends, find-Extends, acting-Extends}
use gemone.Rewards.Once.{acting-written, written-Extends}

pub reverse-ok :
    (l l' : Ledger) (c : Context) (i : ℕ) (reason : Text) (o : ReverseOptions)
    (t : RewardTransaction)
    → reverse c i reason o l ≡ ok (t, l')
    → (k : RewardTransaction) × (b : UserBalance) × (reverse_check i l ≡ ok k)
      × (find_balance k.user_id l.balances ≡ some b)
      × (find_transaction c.new_id l.transactions ≡ none)
      × (t ≡ row_of c.new_id (reverse_movement c.now reason o k b))
      × (l' ≡ written c.new_id (reverse_movement c.now reason o k b) b l)
unfolding reverse
reverse-ok l l' c i reason o t h = elim (Result-cases (reverse_check i l)) [
  | inl (e, refused) ↦ let bad = rw (refused, reverse) at h in cc
  | inr (k, e) ↦
      let (b, found, fresh, row, tables) =
        write-ok l l' c.new_id k.user_id (reverse_movement c.now reason o k) t
          (rw (e, reverse) at h) in
      (k, b, e, found, fresh, row, tables)
]

reverse_check-acted :
    (l : Ledger) (i : ℕ) (k : RewardTransaction)
    → find_transaction i l.transactions ≡ some k
    → is_some (find_acting k.id is_chargeback l.transactions) ≡ true
    → reverse_check i l ≡ err reward_invalid_operation
unfolding reverse_check
reverse_check-acted l i k e h = ground arith

-- A credit that has been reversed is never reversed again by a later call: whatever is called in
-- between, `reverse` refuses it as an invalid operation.
pub reverse_once :
    (l l' : Ledger) (c c' : Context) (i : ℕ) (reason reason' : Text) (o o' : ReverseOptions)
    (t : RewardTransaction) (cs : List Call)
    → reverse c i reason o l ≡ ok (t, l')
    → reverse c' i reason' o' (run l' cs) ≡ err reward_invalid_operation
unfolding reverse
reverse_once l l' c c' i reason reason' o o' t cs h =
    let (k, b, e, found, fresh, row, tables) = reverse-ok l l' c i reason o t h in
    let (at_i, positive, open_before) = reverse_check-ok i l k e in
    let m = reverse_movement c.now reason o k b in
    let later = run-Extends l' cs in
    let refused =
      reverse_check-acted (run l' cs) i k
        (find-Extends i k later
          (rw tables (find-Extends i k (written-Extends l c.new_id m b fresh) at_i)))
        (acting-Extends k.id is_chargeback later (
          rw tables (
            acting-written l c.new_id k.id m b is_chargeback (unfold reverse_movement in refl)
              (unfold reverse_movement same_type in refl)))) in
    rw (refused, reverse)

pub mature-ok :
    (l l' : Ledger) (c : Context) (i : ℕ) (t : RewardTransaction)
    → mature c i l ≡ ok (some t, l')
    → (k : RewardTransaction) × (b : UserBalance) × (mature_check i l ≡ some k)
      × (find_balance k.user_id l.balances ≡ some b)
      × (find_transaction c.new_id l.transactions ≡ none)
      × (t ≡ row_of c.new_id (mature_movement c.now k))
      × (l' ≡ written c.new_id (mature_movement c.now k) b l)
unfolding mature
mature-ok l l' c i t h = elim (Option-cases (mature_check i l)) [
  | inl nothing ↦ let bad = rw (nothing, mature) at h in cc
  | inr (k, e) ↦ elim (Result-cases (mature_apply c k l)) [
    | inl (x, refused) ↦ let bad = rw (refused, ◌>>=◌) at (rw (e, mature) at h) in cc
    | inr ((t', l''), done) ↦
        let back = rw (done, ◌>>=◌) at (rw (e, mature) at h) in
        let (b, found, fresh, row, tables) =
          write-ok l l'' c.new_id k.user_id (λ _. mature_movement c.now k) t'
            (unfold mature_apply in done) in
        (k, b, e, found, fresh, cc, cc)
  ]
]

pub mature_check-acted :
    (l : Ledger) (i : ℕ) (k : RewardTransaction)
    → find_transaction i l.transactions ≡ some k
    → is_some (find_acting k.id is_acted l.transactions) ≡ true
    → mature_check i l ≡ none
unfolding mature_check
mature_check-acted l i k e h = ground arith

-- A credit that has matured is left alone by every later `mature`: whatever is called in between, it
-- returns null and writes nothing.
pub mature_once :
    (l l' : Ledger) (c c' : Context) (i : ℕ) (t : RewardTransaction) (cs : List Call)
    → mature c i l ≡ ok (some t, l')
    → mature c' i (run l' cs) ≡ ok (none, run l' cs)
unfolding mature
mature_once l l' c c' i t cs h =
    let (k, b, e, found, fresh, row, tables) = mature-ok l l' c i t h in
    let (at_i, open_before) = mature_check-some i l k e in
    let m = mature_movement c.now k in
    let later = run-Extends l' cs in
    let nothing =
      mature_check-acted (run l' cs) i k
        (find-Extends i k later
          (rw tables (find-Extends i k (written-Extends l c.new_id m b fresh) at_i)))
        (acting-Extends k.id is_acted later (
          rw tables (
            acting-written l c.new_id k.id m b is_acted (unfold mature_movement in refl)
              (unfold mature_movement same_type in refl)))) in
    rw (nothing, mature)
