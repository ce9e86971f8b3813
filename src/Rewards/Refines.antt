-- ===== src/Rewards/Refines.antt =====
-- Every call of `RewardAccountingService` refines the step relation of Rewards/Machine.antt.
use gemone.Prelude.{
  Bool, false, ℕ, ◌≡◌, refl, true, Option, none, some, Text, ℤ, pos, ◌<ℤ◌, Result, AppError, ok,
  err, user_not_found, validation_error, leb_ℤ, refuse_if, arith, Option-cases, Result-cases, ltb_ℤ,
  ◌>>=◌, ◌⊎◌, Bool-cases, inl, inr,
}
use gemone.Rewards.Types.{
  RewardTransaction, UserBalance, Movement, Number, integer, not_an_integer, RewardActor,
  payout_lock, same_type, CreditType, credit_type,
}
use gemone.Rewards.Store.{
  Ledger, find_balance, find_transaction, find_acting, write, lock_balance, row_of,
}
use gemone.Rewards.Operations.{
  Context, or_else, CreditInput, DebitInput, ReverseOptions, Resolution, open_account, credit,
  debit, reverse, mature, lock, resolve_lock, credit_movement, debit_movement, reverse_movement,
  mature_movement, lock_movement, resolve_movement, has_balance_id, is_chargeback, is_acted,
  is_resolution, require_positive, mutate, reverse_check, mature_check, mature_apply, resolve_check,
}
use gemone.Rewards.Machine.{
  Call, opens, credits, debits, reverses, matures, locks, resolves, after, step, resolves_locks,
  Permitted, crediting, debiting, reversing, maturing, locking, resolving, written, Step, idle,
  opened, moved,
}

-- A lock of the row and a write, at a movement that the row permits.
write-Step :
    (r : Bool) (l : Ledger) (i : ℕ) (m : Movement) (b : UserBalance)
    → find_balance m.user_id l.balances ≡ some b
    → Permitted l b m
    → (is_resolution m.kind ≡ true → r ≡ true)
    → Step r l (after l (write i m b l))
unfolding write written
write-Step r l i m b e p q = elim (Option-cases (find_transaction i l.transactions)) [
  | inl fresh ↦ rw (fresh, write) (moved i m b e fresh p q)
  | inr (t, taken) ↦ rw (taken, write) idle
]

pub lock_balance-some :
    (l : Ledger) (u : ℕ) (b : UserBalance)
    → find_balance u l.balances ≡ some b
    → lock_balance u l ≡ ok (b, l)
unfolding lock_balance
lock_balance-some l u b e = rw e

pub lock_balance-none :
    (l : Ledger) (u : ℕ) → find_balance u l.balances ≡ none → lock_balance u l ≡ err user_not_found
unfolding lock_balance
lock_balance-none l u e = rw e

-- What a locked write that returned has read and written.
pub write-ok :
    (l l' : Ledger) (i u : ℕ) (f : UserBalance → Movement) (t : RewardTransaction)
    → (lock_balance u >>= λ b. write i (f b) b) l ≡ ok (t, l')
    → (b : UserBalance) × (find_balance u l.balances ≡ some b)
      × (find_transaction i l.transactions ≡ none)
      × (t ≡ row_of i (f b))
      × (l' ≡ written i (f b) b l)
unfolding write written
write-ok l l' i u f t h = elim (Option-cases (find_balance u l.balances)) [
  | inl missing ↦ let refused = rw (lock_balance-none l u missing, ◌>>=◌) at h in cc
  | inr (b, e) ↦ elim (Option-cases (find_transaction i l.transactions)) [
    | inl fresh ↦
        let wrote = rw (fresh, write) at (rw (lock_balance-some l u b e, ◌>>=◌) at h) in
        (b, e, fresh, cc, cc)
    | inr (s, taken) ↦
        let refused = rw (taken, write) at (rw (lock_balance-some l u b e, ◌>>=◌) at h) in cc
  ]
]

lock_balance-Step :
    (r : Bool) (l : Ledger) (i u : ℕ) (f : UserBalance → Movement)
    → ((b : UserBalance) → find_balance u l.balances ≡ some b → (f b).user_id ≡ u)
    → ((b : UserBalance) → find_balance u l.balances ≡ some b → Permitted l b (f b))
    → ((b : UserBalance) → is_resolution (f b).kind ≡ true → r ≡ true)
    → Step r l (after l ((lock_balance u >>= λ b. write i (f b) b) l))
lock_balance-Step r l i u f same p q = elim (Option-cases (find_balance u l.balances)) [
  | inl missing ↦ rw (lock_balance-none l u missing, ◌>>=◌) idle
  | inr (b, e) ↦
      rw (lock_balance-some l u b e, ◌>>=◌)
        (write-Step r l i (f b) b (rw (same b e) e) (p b e) (q b))
]

pub require_positive-cases :
    (n : Number)
    → ((e : AppError) × (require_positive n ≡ err e))
      ⊎ ((a : ℤ) × (require_positive n ≡ ok a) × (pos 0 <ℤ a))
unfolding require_positive
require_positive-cases not_an_integer = inl (validation_error, refl)
require_positive-cases (integer a) = elim (Bool-cases (leb_ℤ a (pos 0))) [
  | inl h ↦ inl (validation_error, rw h)
  | inr h ↦ inr (a, rw h, ground arith)
]

credit-plain :
    (input : CreditInput)
    → is_resolution (credit_type (or_else input.kind CreditType.conversion)) ≡ true
    → false ≡ true
unfolding same_type
credit-plain input h = ground arith

pub credit-Step :
    (l : Ledger) (h : Option ℕ → ℕ) (c : Context) (input : CreditInput)
    → Step false l (after l (credit h c input l))
unfolding credit mutate credit_movement same_type
credit-Step l h c input = elim (require_positive-cases input.amount_points) [
  | inl (x, e) ↦ rw (e, credit) idle
  | inr (a, e, p) ↦
      rw (e, credit)
        (lock_balance-Step false l c.new_id input.user_id (λ b. credit_movement h c.now a input)
          (λ b _. refl) (λ b _. crediting h c.now a input p) (λ b h. credit-plain input h))
]

debit-Step :
    (l : Ledger) (c : Context) (input : DebitInput) → Step false l (after l (debit c input l))
unfolding debit mutate debit_movement same_type
debit-Step l c input = elim (require_positive-cases input.amount_points) [
  | inl (x, e) ↦ rw (e, debit) idle
  | inr (a, e, p) ↦
      rw (e, debit)
        (lock_balance-Step false l c.new_id input.user_id (λ b. debit_movement c.now a input)
          (λ b _. refl) (λ b _. debiting c.now a input p) (λ b h. h))
]

pub reverse_check-ok :
    (i : ℕ) (l : Ledger) (t : RewardTransaction)
    → reverse_check i l ≡ ok t
    → (find_transaction i l.transactions ≡ some t)
      × (pos 0 <ℤ t.amount_points)
      × (find_acting t.id is_chargeback l.transactions ≡ none)
unfolding reverse_check
reverse_check-ok i l t h = ground arith

reverse-Step :
    (l : Ledger) (c : Context) (i : ℕ) (reason : Text) (options : ReverseOptions)
    → Step false l (after l (reverse c i reason options l))
unfolding reverse reverse_movement same_type
reverse-Step l c i reason options = elim (Result-cases (reverse_check i l)) [
  | inl (x, e) ↦ rw (e, reverse) idle
  | inr (t, e) ↦
      let (found, p, fresh) = reverse_check-ok i l t e in
      rw (e, reverse)
        (lock_balance-Step false l c.new_id t.user_id (reverse_movement c.now reason options t)
          (λ b _. refl) (λ b _. reversing c.now reason options t i found p fresh) (λ b h. h))
]

pub mature_check-some :
    (i : ℕ) (l : Ledger) (t : RewardTransaction)
    → mature_check i l ≡ some t
    → (find_transaction i l.transactions ≡ some t)
      × (find_acting t.id is_acted l.transactions ≡ none)
unfolding mature_check
mature_check-some i l t h = ground arith

after-some :
    (l : Ledger) (r : Result (RewardTransaction × Ledger))
    → after l (elim r [ ok (t, l') ↦ ok (some t, l') | err e ↦ err e ]) ≡ after l r
after-some l (ok (t, l')) = refl
after-some l (err e) = refl

pub mature-Step : (l : Ledger) (c : Context) (i : ℕ) → Step false l (after l (mature c i l))
unfolding mature mature_apply mature_movement same_type
mature-Step l c i = elim (Option-cases (mature_check i l)) [
  | inl e ↦ rw (e, mature) idle
  | inr (t, e) ↦
      let (found, fresh) = mature_check-some i l t e in
      rw (e, mature)
        (rw (after-some l (mature_apply c t l)) (
          lock_balance-Step false l c.new_id t.user_id (λ b. mature_movement c.now t) (λ b _. refl)
            (λ b _. maturing c.now t i found fresh) (λ b h. h)))
]

pub lock-Step :
    (l : Ledger) (c : Context) (u : ℕ) (n : Number) (payout_id : ℕ) (label : Option Text)
    → Step false l (after l (lock c u n payout_id label l))
unfolding lock lock_movement same_type
lock-Step l c u n payout_id label = elim (require_positive-cases n) [
  | inl (x, e) ↦ rw (e, lock) idle
  | inr (a, e, p) ↦ elim (Option-cases (find_balance u l.balances)) [
    | inl missing ↦ rw (e, lock) (rw (lock_balance-none l u missing, ◌>>=◌) idle)
    | inr (b, found) ↦ elim (Bool-cases (ltb_ℤ b.available_points a)) [
      | inl short ↦
          rw (e, lock) (rw (lock_balance-some l u b found, ◌>>=◌) (rw (short, refuse_if) idle))
      | inr enough ↦
          rw (e, lock)
            (rw (lock_balance-some l u b found, ◌>>=◌)
              (rw (enough, refuse_if)
                (write-Step false l c.new_id (lock_movement c.now u a payout_id label) b found
                  (locking c.now u a payout_id label p (ground arith)) (λ h. h))))
    ]
  ]
]

pub resolve_check-ok :
    (i : ℕ) (l : Ledger) (t : RewardTransaction)
    → resolve_check i l ≡ ok t
    → (find_transaction i l.transactions ≡ some t)
      × (same_type t.kind payout_lock ≡ true)
      × (find_acting t.id is_resolution l.transactions ≡ none)
unfolding resolve_check
resolve_check-ok i l t h = ground arith

pub resolve_lock-Step :
    (l : Ledger) (c : Context) (r : Resolution) (i : ℕ) (reason : Text) (actor : Option RewardActor)
    → Step true l (after l (resolve_lock c r i reason actor l))
unfolding resolve_lock resolve_movement
resolve_lock-Step l c r i reason actor = elim (Result-cases (resolve_check i l)) [
  | inl (x, e) ↦ rw (e, resolve_lock) idle
  | inr (t, e) ↦
      let (found, k, fresh) = resolve_check-ok i l t e in
      rw (e, resolve_lock)
        (lock_balance-Step true l c.new_id t.user_id (λ b. resolve_movement c.now r reason actor t)
          (λ b _. refl) (λ b _. resolving c.now r reason actor t i found k fresh) (λ b h. refl))
]

open_account-Step : (l : Ledger) (i u : ℕ) → Step false l (after l (open_account i u l))
unfolding open_account
open_account-Step l i u = elim (Option-cases (find_balance u l.balances)) [
  | inr (b, e) ↦ rw (e, open_account) idle
  | inl e ↦ elim (Bool-cases (has_balance_id i l)) [
    | inl taken ↦ rw (e, taken) idle
    | inr free ↦ rw (e, free) (opened i u e free)
  ]
]

-- Every call, whether it returns or throws, takes a step that the specification permits.
pub step-Step : (l : Ledger) (c : Call) → Step (resolves_locks c) l (step l c)
unfolding step
step-Step l (opens i u) = open_account-Step l i u
step-Step l (credits h c input) = credit-Step l h c input
step-Step l (debits c input) = debit-Step l c input
step-Step l (reverses c i reason options) = reverse-Step l c i reason options
step-Step l (matures c i) = mature-Step l c i
step-Step l (locks c u n payout_id label) = lock-Step l c u n payout_id label
step-Step l (resolves c r i reason actor) = resolve_lock-Step l c r i reason actor
