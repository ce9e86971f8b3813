-- ===== src/Rewards/Locking.antt =====
-- What `lock` of reward-accounting.service.ts does on each branch.
use gemone.Prelude.{
  ℕ, ◌≡◌, true, false, Option, none, some, Text, ℤ, pos, ◌≤ℤ◌, ◌<ℤ◌, ltb_ℤ, ok, err,
  reward_insufficient_balance, user_not_found, unique_violation, arith, Bool-cases, Option-cases,
  inl, inr, ◌>>=◌, refuse_if, is_some,
}
use gemone.Rewards.Types.{RewardTransaction, UserBalance, integer}
use gemone.Rewards.Store.{Ledger, find_balance, find_transaction, row_of, write}
use gemone.Rewards.Operations.{Context, lock, lock_movement, require_positive}
use gemone.Rewards.Machine.{written}
use gemone.Rewards.Refines.{lock_balance-some, lock_balance-none, require_positive-cases}

positive_amount : (a : ℤ) → pos 0 <ℤ a → require_positive (integer a) ≡ ok a
unfolding require_positive
positive_amount a p = ground arith

positive_value : (a n : ℤ) → require_positive (integer a) ≡ ok n → n ≡ a
unfolding require_positive
positive_value a n h = ground arith

-- For a positive amount: without a balance row the user is not found; with fewer points in
-- `available` than asked for the call is refused, whatever is in the other buckets; otherwise, if the
-- key is free, the row of the movement is written and the balance updated.
lock_lem :
    (l : Ledger) (c : Context) (u : ℕ) (a : ℤ) (payout_id : ℕ) (label : Option Text)
    → pos 0 <ℤ a
    → let m = lock_movement c.now u a payout_id label in
      let result = lock c u (integer a) payout_id label l in
      (find_balance u l.balances ≡ none → result ≡ err user_not_found)
      × ((b : UserBalance)
          → find_balance u l.balances ≡ some b
          → (b.available_points <ℤ a → result ≡ err reward_insufficient_balance)
            × (a ≤ℤ b.available_points
                → (is_some (find_transaction c.new_id l.transactions) ≡ true
                    → result ≡ err unique_violation)
                  × (find_transaction c.new_id l.transactions ≡ none
                      → result ≡ ok (row_of c.new_id m, written c.new_id m b l))))
unfolding lock write written
lock_lem l c u a payout_id label p = (
  λ missing. rw (positive_amount a p, lock) (rw (lock_balance-none l u missing, ◌>>=◌)),
  λ b found. (
    λ short.
        let test : ltb_ℤ b.available_points a ≡ true = ground arith in
        rw (positive_amount a p, lock)
          (rw (lock_balance-some l u b found, ◌>>=◌) (rw (test, refuse_if))),
    λ enough.
        let test : ltb_ℤ b.available_points a ≡ false = ground arith in
        (
          λ taken.
              rw (positive_amount a p, lock)
                (rw (lock_balance-some l u b found, ◌>>=◌)
                  (rw (test, refuse_if) (rw (taken, write)))),
          λ fresh.
              rw (positive_amount a p, lock)
                (rw (lock_balance-some l u b found, ◌>>=◌)
                  (rw (test, refuse_if) (rw (fresh, write)))),
        ),
  ),
)

pub lock-ok :
    (l l' : Ledger) (c : Context) (u : ℕ) (a : ℤ) (payout_id : ℕ) (label : Option Text)
    (t : RewardTransaction)
    → lock c u (integer a) payout_id label l ≡ ok (t, l')
    → let m = lock_movement c.now u a payout_id label in
      (b : UserBalance) × (find_balance u l.balances ≡ some b)
      × (a ≤ℤ b.available_points)
      × (find_transaction c.new_id l.transactions ≡ none)
      × (t ≡ row_of c.new_id m)
      × (l' ≡ written c.new_id m b l)
unfolding lock
lock-ok l l' c u a payout_id label t h = elim (require_positive-cases (integer a)) [
  | inl (e, refused) ↦ let bad = rw (refused, lock) at h in cc
  | inr (n, accepted, p) ↦
      let same : n ≡ a = positive_value a n accepted in
      let table = lock_lem l c u a payout_id label (rw (← same) p) in
      elim (Option-cases (find_balance u l.balances)) [
        | inl missing ↦ cc (table.0 missing)
        | inr (b, found) ↦ elim (Bool-cases (ltb_ℤ b.available_points a)) [
          | inl short ↦ cc ((table.1 b found).0 (ground arith))
          | inr enough ↦
              let covered : a ≤ℤ b.available_points = ground arith in
              elim (Option-cases (find_transaction c.new_id l.transactions)) [
                | inr (s, taken) ↦ cc (((table.1 b found).1 covered).0 (rw taken))
                | inl fresh ↦
                    let done = ((table.1 b found).1 covered).1 fresh in
                    (b, found, covered, fresh, cc, cc)
              ]
        ]
      ]
]
