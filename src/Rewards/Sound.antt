-- ===== src/Rewards/Sound.antt =====
-- References inside the ledger: every row belongs to a user with a balance, and acts, if at all, on
-- a row that exists; and what a call that resolves no lock leaves alone.
use gemone.Prelude.{
  ℕ, ◌≡◌, refl, ◌∙◌, Bool, true, false, some, List, [], ◌∷◌, ◌==◌, ==_iff, arith, is_some,
  Bool-cases, inl, inr,
}
use gemone.Rewards.Types.{UserBalance, RewardTransaction, RewardTransactionType, Movement}
use gemone.Rewards.Store.{
  Ledger, find_balance, find_transaction, find_acting, update_balance, bump, row_of, points_at,
}
use gemone.Rewards.Operations.{
  is_resolution, credit_movement, debit_movement, reverse_movement, mature_movement, lock_movement,
  resolve_movement,
}
use gemone.Rewards.Machine.{
  empty, Step, idle, opened, moved, written, Permitted, crediting, debiting, reversing, maturing,
  locking, resolving,
}
use gemone.Rewards.History.{find_transaction-id}

-- What the foreign keys and the first statement of every mutation keep.
pub record IsSound (l : Ledger) : Type 0 where
  pub owned :
      (i : ℕ) (t : RewardTransaction)
      → find_transaction i l.transactions ≡ some t
      → is_some (find_balance t.user_id l.balances) ≡ true
  pub sourced :
      (j : ℕ) (test : RewardTransactionType → Bool)
      → is_some (find_acting j test l.transactions) ≡ true
      → is_some (find_transaction j l.transactions) ≡ true

update-kept :
    (v i : ℕ) (m : Movement) (bs : List UserBalance)
    → is_some (find_balance v (update_balance i m bs)) ≡ is_some (find_balance v bs)
unfolding find_balance update_balance bump
update-kept v i m [] = refl
update-kept v i m (b ∷ bs) = ground (arith, update-kept v i m bs)

pub Step-kept :
    {r : Bool} {l l' : Ledger} (u : ℕ)
    → Step r l l'
    → is_some (find_balance u l.balances) ≡ true
    → is_some (find_balance u l'.balances) ≡ true
unfolding written find_balance
Step-kept u idle h = h
Step-kept u (opened i v missing free) h = ground arith
Step-kept {l} u (moved i m b found fresh p plain) h = rw (update-kept u b.id m l.balances) h

row_exists :
    (l : Ledger) (i j : ℕ) (t : RewardTransaction)
    → find_transaction i l.transactions ≡ some t
    → (j == t.id) ≡ true
    → is_some (find_transaction j l.transactions) ≡ true
row_exists l i j t found e =
    let same : j ≡ i = (==_iff j t.id).0 e ∙ find_transaction-id i t l.transactions found in
    rw (same, found)

-- The row that a movement acts on exists.
Permitted-sourced :
    (j : ℕ) {l : Ledger} {b : UserBalance} {m : Movement}
    → Permitted l b m
    → points_at j m.source_transaction_id ≡ true
    → is_some (find_transaction j l.transactions) ≡ true
unfolding credit_movement debit_movement reverse_movement mature_movement lock_movement
    resolve_movement
Permitted-sourced j (crediting h now a input p) e = cc
Permitted-sourced j (debiting now a input p) e = cc
Permitted-sourced j {l} (reversing now reason o t i found p free) e = row_exists l i j t found e
Permitted-sourced j {l} (maturing now t i found free) e = row_exists l i j t found e
Permitted-sourced j (locking now u a payout_id label p enough) e = cc
Permitted-sourced j {l} (resolving now r reason actor t i found kind free) e =
    row_exists l i j t found e

sourced-moved :
    (l : Ledger) (i j : ℕ) (m : Movement) (b : UserBalance) (test : RewardTransactionType → Bool)
    → IsSound l
    → (points_at j m.source_transaction_id ≡ true
        → is_some (find_transaction j l.transactions) ≡ true)
    → is_some (find_acting j test (written i m b l).transactions) ≡ true
    → is_some (find_transaction j (written i m b l).transactions) ≡ true
unfolding written row_of find_acting find_transaction
sourced-moved l i j m b test s acts h = ground (arith, s.sourced j test)

owned-moved :
    (l : Ledger) (i j : ℕ) (m : Movement) (b : UserBalance) (t : RewardTransaction)
    → IsSound l
    → find_balance m.user_id l.balances ≡ some b
    → find_transaction j (written i m b l).transactions ≡ some t
    → is_some (find_balance t.user_id l.balances) ≡ true
unfolding written row_of find_transaction
owned-moved l i j m b t s e h = elim (Bool-cases (j == i)) [
  | inl new ↦ let is_new = rw new at h in let same : t.user_id ≡ m.user_id = cc in rw (same, e)
  | inr old ↦ s.owned j t (rw old at h)
]

keep-IsSound :
    {r : Bool} {l l' : Ledger}
    → Step r l l'
    → ((u : ℕ)
        → is_some (find_balance u l.balances) ≡ true
        → is_some (find_balance u l'.balances) ≡ true)
    → IsSound l
    → IsSound l'
keep-IsSound idle kept s = s
keep-IsSound (opened i u missing free) kept s = record {
  owned = λ j t e. kept t.user_id (s.owned j t e);
  sourced = s.sourced;
}
keep-IsSound {l} (moved i m b found fresh p plain) kept s = record {
  owned = λ j t e. kept t.user_id (owned-moved l i j m b t s found e);
  sourced = λ j test. sourced-moved l i j m b test s (Permitted-sourced j p);
}

pub Step-IsSound : {r : Bool} {l l' : Ledger} → Step r l l' → IsSound l → IsSound l'
Step-IsSound st = keep-IsSound st (λ u. Step-kept u st)

-- A step that may resolve no lock leaves open every lock that is in the tables.
pub Step-open :
    {l l' : Ledger} (j : ℕ)
    → Step false l l'
    → is_some (find_acting j is_resolution l'.transactions)
      ≡ is_some (find_acting j is_resolution l.transactions)
unfolding written row_of find_acting
Step-open j idle = refl
Step-open j (opened i v missing free) = refl
Step-open j (moved i m b found fresh p plain) = elim (Bool-cases (is_resolution m.kind)) [
  | inl resolving_it ↦ let bad = plain resolving_it in cc
  | inr other ↦ ground arith
]

pub empty-IsSound : IsSound empty
unfolding find_transaction find_acting
empty-IsSound = record { owned = λ i t e. cc; sourced = λ j test e. cc }
