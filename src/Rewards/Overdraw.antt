-- ===== src/Rewards/Overdraw.antt =====
-- A chargeback of a credit that has already matured, while another credit of the user is pending
-- (`reverse` and `mature` of reward-accounting.service.ts).
use gemone.Prelude.{
  ℕ, ◌≡◌, sym, ap, ◌∙◌, none, some, Text, ok, ◌+ℤ◌, ◌-ℤ◌, ◌≤ℤ◌, int_laws, min_ℤ-eq_right,
}
use gemone.Rewards.Types.{RewardTransaction, UserBalance}
use gemone.Rewards.Store.{Ledger, find_transaction, find_balance, bump}
use gemone.Rewards.Operations.{
  Context, ReverseOptions, reverse, mature, reverse_movement, mature_movement,
}
use gemone.Rewards.Machine.{written}
use gemone.Rewards.Refines.{reverse_check-ok, mature_check-some}
use gemone.Rewards.History.{find-Extends}
use gemone.Rewards.Once.{written-Extends}
use gemone.Rewards.Reconcile.{Keyed, find-written, written-Keyed}
use gemone.Rewards.Reversal.{reverse-ok, mature-ok}

-- What the two calls wrote, at the rows that they are known to read.
reverse-written :
    (l l' : Ledger) (c : Context) (i : ℕ) (reason : Text) (o : ReverseOptions)
    (k t : RewardTransaction) (b : UserBalance)
    → find_transaction i l.transactions ≡ some k
    → find_balance k.user_id l.balances ≡ some b
    → reverse c i reason o l ≡ ok (t, l')
    → (l' ≡ written c.new_id (reverse_movement c.now reason o k b) b l)
      × (find_transaction c.new_id l.transactions ≡ none)
reverse-written l l' c i reason o k t b at_i at_u h =
    let (k', b', e, found, fresh, row, tables) = reverse-ok l l' c i reason o t h in
    let (at_i', positive, open_before) = reverse_check-ok i l k' e in (cc, fresh)

mature-written :
    (l l' : Ledger) (c : Context) (i : ℕ) (k t : RewardTransaction) (b : UserBalance)
    → find_transaction i l.transactions ≡ some k
    → find_balance k.user_id l.balances ≡ some b
    → mature c i l ≡ ok (some t, l')
    → l' ≡ written c.new_id (mature_movement c.now k) b l
mature-written l l' c i k t b at_i at_u h =
    let (k', b', e, found, fresh, row, tables) = mature-ok l l' c i t h in
    let (at_i', open_before) = mature_check-some i l k' e in cc

-- What a covered reversal does to a row: `pending` pays, `available` does not.
reverse-buckets :
    (now : ℕ) (reason : Text) (o : ReverseOptions) (k : RewardTransaction) (b : UserBalance)
    → k.amount_points ≤ℤ b.pending_points
    → let b' = bump (reverse_movement now reason o k b) b in
      (b'.pending_points ≡ b.pending_points -ℤ k.amount_points)
      × (b'.available_points ≡ b.available_points)
unfolding bump reverse_movement
reverse-buckets now reason o k b h = rw (min_ℤ-eq_right _ _ h) (omega int_laws, omega int_laws)

mature-buckets :
    (now : ℕ) (j : RewardTransaction) (b : UserBalance)
    → let b' = bump (mature_movement now j) b in
      (b'.pending_points ≡ b.pending_points -ℤ j.amount_points)
      × (b'.available_points ≡ b.available_points +ℤ j.amount_points)
unfolding bump mature_movement
mature-buckets now j b = (omega int_laws, omega int_laws)

-- A chargeback that `pending` covers, followed by the maturation of a credit of the same user: whether or
-- not the credit that was charged back had matured, `pending` ends lower by the amounts of both, and
-- `available` higher by the amount of the credit that matured, so what the first one had put there
-- stays.
pub reverse-mature_overdraw :
    (l l' l'' : Ledger) (c c' : Context) (i j : ℕ) (reason : Text) (o : ReverseOptions)
    (k n t t' : RewardTransaction) (b : UserBalance)
    → Keyed l.balances
    → find_transaction i l.transactions ≡ some k
    → find_transaction j l.transactions ≡ some n
    → n.user_id ≡ k.user_id
    → find_balance k.user_id l.balances ≡ some b
    → k.amount_points ≤ℤ b.pending_points
    → reverse c i reason o l ≡ ok (t, l')
    → mature c' j l' ≡ ok (some t', l'')
    → (b' : UserBalance) × (find_balance k.user_id l''.balances ≡ some b')
      × (b'.pending_points ≡ b.pending_points -ℤ k.amount_points -ℤ n.amount_points)
      × (b'.available_points ≡ b.available_points +ℤ n.amount_points)
reverse-mature_overdraw l l' l'' c c' i j reason o k n t t' b keyed at_i at_j same at_u covers h
      h' =
    let (tables, fresh) = reverse-written l l' c i reason o k t b at_i at_u h in
    let m = reverse_movement c.now reason o k b in
    let at_u₁ : find_balance k.user_id (written c.new_id m b l).balances ≡ some (bump m b) =
      unfold reverse_movement in find-written l c.new_id m b keyed at_u in
    let at_n : find_transaction j l'.transactions ≡ some n =
      rw tables (find-Extends j n (written-Extends l c.new_id m b fresh) at_j) in
    let m' = mature_movement c'.now n in
    let tables' = mature-written l' l'' c' j n t' (bump m b) at_n (rw (same, tables) at_u₁) h' in
    let after = written c'.new_id m' (bump m b) l' in
    let covered = reverse-buckets c.now reason o k b covers in
    let matured = mature-buckets c'.now n (bump m b) in
    (
      bump m' (bump m b),
      ap (λ (x : Ledger). find_balance k.user_id x.balances) tables'
          ∙ (ap (λ (u : ℕ). find_balance u after.balances) (sym same)
              ∙ (unfold mature_movement in
                  find-written l' c'.new_id m' (bump m b)
                    (rw tables (written-Keyed l c.new_id m b keyed)) (rw (same, tables) at_u₁))),
      matured.0 ∙ ap (λ x. x -ℤ n.amount_points) covered.0,
      matured.1 ∙ ap (λ x. x +ℤ n.amount_points) covered.1,
    )
