-- ===== src/Rewards/Race.antt =====
-- Two chargebacks of one credit at once. `reverse` of reward-accounting.service.ts looks for an
-- earlier reversal before it takes the row lock, and READ COMMITTED does not repeat that read: both
-- transactions read, then one commits, then the other gets the lock and writes.
use gemone.Prelude.{
  ℕ, ◌≡◌, ◌≢◌, refl, none, some, Text, ok, err, arith, ◌>>=◌, pure, ℤ, ◌+ℤ◌, ◌-ℤ◌, neg, int_laws,
  Tx,
}
use gemone.Rewards.Types.{RewardTransaction, UserBalance, Movement}
use gemone.Rewards.Store.{Ledger, find_transaction, find_balance, row_of, bump, write}
use gemone.Rewards.Operations.{
  Context, ReverseOptions, reverse, reverse_check, reverse_apply, reverse_movement,
}
use gemone.Rewards.Machine.{written}
use gemone.Rewards.Refines.{lock_balance-some, reverse_check-ok}
use gemone.Rewards.Reconcile.{Keyed, find-written, written-Keyed}
use gemone.Rewards.Reversal.{reverse-ok}

-- The schedule: the reads of both calls, then the writes of the first, then those of the second.
unfoldable pub interleaved_reverses :
    Context
    → Context
    → ℕ
    → Text
    → ReverseOptions
    → Tx Ledger (RewardTransaction × RewardTransaction)
interleaved_reverses c c' i reason o l = elim (reverse_check i l) [
  | err e ↦ err e
  | ok k ↦ (do t ← reverse_apply c reason o k; t' ← reverse_apply c' reason o k; pure (t, t')) l
]

reverse_apply_ok :
    (l : Ledger) (c : Context) (reason : Text) (o : ReverseOptions) (k : RewardTransaction)
    (b : UserBalance)
    → find_balance k.user_id l.balances ≡ some b
    → find_transaction c.new_id l.transactions ≡ none
    → let m = reverse_movement c.now reason o k b in
      reverse_apply c reason o k l ≡ ok (row_of c.new_id m, written c.new_id m b l)
unfolding reverse_apply write written
reverse_apply_ok l c reason o k b e fresh =
    rw (lock_balance-some l k.user_id b e, ◌>>=◌) (rw (fresh, write))

abbrev pub total_of : UserBalance → ℤ
total_of b = b.pending_points +ℤ b.available_points +ℤ b.locked_points

-- A reversal takes its whole amount out of the row's total, however it is split.
total-reverse :
    (now : ℕ) (reason : Text) (o : ReverseOptions) (k : RewardTransaction) (b b' : UserBalance)
    → total_of (bump (reverse_movement now reason o k b) b') ≡ total_of b' -ℤ k.amount_points
unfolding bump reverse_movement
total-reverse now reason o k b b' = omega int_laws

find-written_ne :
    (l : Ledger) (i j : ℕ) (m : Movement) (b : UserBalance)
    → j ≢ i
    → find_transaction j l.transactions ≡ none
    → find_transaction j (written i m b l).transactions ≡ none
unfolding written row_of find_transaction
find-written_ne l i j m b ne e = ground arith

-- Wherever one `reverse` of a credit succeeds, two that interleave both succeed: both rows take the
-- whole credit back from the same transaction, and the user's total falls by twice its amount.
pub interleaved_reverses-double :
    (l l' : Ledger) (c c' : Context) (i : ℕ) (reason : Text) (o : ReverseOptions)
    (t : RewardTransaction)
    → Keyed l.balances
    → find_transaction c'.new_id l.transactions ≡ none
    → c'.new_id ≢ c.new_id
    → reverse c i reason o l ≡ ok (t, l')
    → (k : RewardTransaction) × (b b'' : UserBalance) × (t' : RewardTransaction) × (l'' : Ledger)
      × (find_transaction i l.transactions ≡ some k)
      × (interleaved_reverses c c' i reason o l ≡ ok ((t, t'), l''))
      × (t.amount_points ≡ neg k.amount_points)
      × (t'.amount_points ≡ neg k.amount_points)
      × (t.source_transaction_id ≡ some k.id)
      × (t'.source_transaction_id ≡ some k.id)
      × (find_balance k.user_id l.balances ≡ some b)
      × (find_balance k.user_id l''.balances ≡ some b'')
      × (total_of b'' ≡ total_of b -ℤ k.amount_points -ℤ k.amount_points)
unfolding interleaved_reverses
interleaved_reverses-double l l' c c' i reason o t keyed fresh' distinct h =
    let (k, b, e, found, fresh, row, tables) = reverse-ok l l' c i reason o t h in
    let (at_i, positive, open_before) = reverse_check-ok i l k e in
    let m = reverse_movement c.now reason o k b in
    let b' = bump m b in
    let m' = reverse_movement c'.now reason o k b' in
    let l₁ = written c.new_id m b l in
    let at₁ : find_balance k.user_id l₁.balances ≡ some b' =
      unfold reverse_movement in find-written l c.new_id m b keyed found in
    let free₁ : find_transaction c'.new_id l₁.transactions ≡ none =
      find-written_ne l c.new_id c'.new_id m b distinct fresh' in
    (
      k,
      b,
      bump m' b',
      row_of c'.new_id m',
      written c'.new_id m' b' l₁,
      at_i,
      rw (e, interleaved_reverses, ◌>>=◌)
          (rw (reverse_apply_ok l c reason o k b found fresh, ◌>>=◌)
            (rw (reverse_apply_ok l₁ c' reason o k b' at₁ free₁, ◌>>=◌) (rw row))),
      rw row (unfold row_of reverse_movement in refl),
      unfold row_of reverse_movement in refl,
      rw row (unfold row_of reverse_movement in refl),
      unfold row_of reverse_movement in refl,
      found,
      unfold reverse_movement in
          find-written l₁ c'.new_id m' b' (written-Keyed l c.new_id m b keyed) at₁,
      rw (total-reverse c'.now reason o k b' b', total-reverse c.now reason o k b b),
    )
