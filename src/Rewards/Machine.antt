-- ===== src/Rewards/Machine.antt =====
-- The ledger as a machine: the calls of `RewardAccountingService` as data, the tables after each
-- (an error rolls back), and the step relation that specifies what a mutation may do to the tables.
use gemone.Prelude.{
  Bool, ℕ, ◌≡◌, Bool, true, false, Option, none, some, Text, List, [], ◌∷◌, ℤ, pos, ◌≤ℤ◌, ◌<ℤ◌,
  Result, ok, err,
}
use gemone.Rewards.Types.{
  RewardTransaction, UserBalance, Movement, Number, RewardActor, payout_lock, same_type,
}
use gemone.Rewards.Store.{
  Ledger, find_balance, find_transaction, find_acting, update_balance, row_of,
}
use gemone.Rewards.Operations.{
  Context, CreditInput, DebitInput, ReverseOptions, Resolution, open_account, credit, debit,
  reverse, mature, lock, resolve_lock, credit_movement, debit_movement, reverse_movement,
  mature_movement, lock_movement, resolve_movement, new_balance, has_balance_id, is_chargeback,
  is_acted, is_resolution,
}

pub data Call : Type 0 where
  opens : ℕ → ℕ → Call
  credits : (Option ℕ → ℕ) → Context → CreditInput → Call
  debits : Context → DebitInput → Call
  reverses : Context → ℕ → Text → ReverseOptions → Call
  matures : Context → ℕ → Call
  locks : Context → ℕ → Number → ℕ → Option Text → Call
  resolves : Context → Resolution → ℕ → Text → Option RewardActor → Call

-- A call that throws leaves the tables as they were.
abbrev pub after : {A : Type 0} → Ledger → Result (A × Ledger) → Ledger
after l (ok (a, l')) = l'
after l (err e) = l

unfoldable pub step : Ledger → Call → Ledger
step l (opens i u) = after l (open_account i u l)
step l (credits h c input) = after l (credit h c input l)
step l (debits c input) = after l (debit c input l)
step l (reverses c i reason options) = after l (reverse c i reason options l)
step l (matures c i) = after l (mature c i l)
step l (locks c u n payout_id label) = after l (lock c u n payout_id label l)
step l (resolves c r i reason actor) = after l (resolve_lock c r i reason actor l)

unfoldable pub run : Ledger → List Call → Ledger
run l [] = l
run l (c ∷ cs) = run (step l c) cs

abbrev pub empty : Ledger
empty = record { balances = []; transactions = [] }

-- Whether a call settles or releases a lock.
abbrev pub resolves_locks : Call → Bool
resolves_locks (resolves c r i reason actor) = true
resolves_locks (opens i u) = false
resolves_locks (credits h c input) = false
resolves_locks (debits c input) = false
resolves_locks (reverses c i reason options) = false
resolves_locks (matures c i) = false
resolves_locks (locks c u n payout_id label) = false

-- The movements that the tables permit, with the reads that permit them: `b` is the user's row.
pub data Permitted (l : Ledger) (b : UserBalance) : Movement → Type 0 where
  crediting :
      (h : Option ℕ → ℕ) (now : ℕ) (a : ℤ) (input : CreditInput)
      → pos 0 <ℤ a
      → Permitted l b (credit_movement h now a input)
  debiting :
      (now : ℕ) (a : ℤ) (input : DebitInput)
      → pos 0 <ℤ a
      → Permitted l b (debit_movement now a input)
  reversing :
      (now : ℕ) (reason : Text) (options : ReverseOptions) (t : RewardTransaction) (i : ℕ)
      → find_transaction i l.transactions ≡ some t
      → pos 0 <ℤ t.amount_points
      → find_acting t.id is_chargeback l.transactions ≡ none
      → Permitted l b (reverse_movement now reason options t b)
  maturing :
      (now : ℕ) (t : RewardTransaction) (i : ℕ)
      → find_transaction i l.transactions ≡ some t
      → find_acting t.id is_acted l.transactions ≡ none
      → Permitted l b (mature_movement now t)
  locking :
      (now u : ℕ) (a : ℤ) (payout_id : ℕ) (label : Option Text)
      → pos 0 <ℤ a
      → a ≤ℤ b.available_points
      → Permitted l b (lock_movement now u a payout_id label)
  resolving :
      (now : ℕ) (r : Resolution) (reason : Text) (actor : Option RewardActor)
      (t : RewardTransaction) (i : ℕ)
      → find_transaction i l.transactions ≡ some t
      → same_type t.kind payout_lock ≡ true
      → find_acting t.id is_resolution l.transactions ≡ none
      → Permitted l b (resolve_movement now r reason actor t)

-- The tables after a row is written with the key `i`.
unfoldable pub written : ℕ → Movement → UserBalance → Ledger → Ledger
written i m b l = record {
  balances = update_balance b.id m l.balances;
  transactions = row_of i m ∷ l.transactions;
}

-- `r` says whether the step may resolve a payout lock.
pub data Step (r : Bool) (l : Ledger) : Ledger → Type 0 where
  idle : Step r l l
  opened :
      (i u : ℕ)
      → find_balance u l.balances ≡ none
      → has_balance_id i l ≡ false
      → Step r l (record l { balances = new_balance i u ∷ l.balances })
  moved :
      (i : ℕ) (m : Movement) (b : UserBalance)
      → find_balance m.user_id l.balances ≡ some b
      → find_transaction i l.transactions ≡ none
      → Permitted l b m
      → (is_resolution m.kind ≡ true → r ≡ true)
      → Step r l (written i m b l)
