-- ===== src/Rewards/History.antt =====
-- The history is append-only (reward-accounting.service.ts), and what that gives: a lock is resolved
-- once, a credit is reversed once and matures once, whatever is called in between.
use gemone.Prelude.{
  ℕ, ◌≡◌, ap, Bool, true, none, some, List, [], ◌∷◌, ◌==◌, arith, Bool-cases, is_some, inl, inr,
  ==_iff,
}
use gemone.Rewards.Types.{RewardTransaction, RewardTransactionType}
use gemone.Rewards.Store.{Ledger, find_transaction, find_acting, row_of}
use gemone.Rewards.Machine.{Call, step, run, Step, idle, opened, moved, written}
use gemone.Rewards.Refines.{step-Step}

-- `new` is `old` with younger rows in front, each under a key that was free.
pub data Extends (old : List RewardTransaction) : List RewardTransaction → Type 0 where
  same : Extends old old
  more :
      (t : RewardTransaction) {ts : List RewardTransaction}
      → find_transaction t.id ts ≡ none
      → Extends old ts
      → Extends old (t ∷ ts)

Extends-trans : {a b c : List RewardTransaction} → Extends a b → Extends b c → Extends a c
Extends-trans p same = p
Extends-trans p (more t fresh q) = more t fresh (Extends-trans p q)

pub Step-Extends : {r : Bool} {l l' : Ledger} → Step r l l' → Extends l.transactions l'.transactions
unfolding written row_of
Step-Extends idle = same
Step-Extends (opened i u missing free) = same
Step-Extends (moved i m b found fresh p plain) = more (row_of i m) fresh same

-- No call ever changes or removes a row of history, or reuses its key.
pub run-Extends : (l : Ledger) (cs : List Call) → Extends l.transactions (run l cs).transactions
unfolding run
run-Extends l [] = same
run-Extends l (c ∷ cs) = Extends-trans (Step-Extends (step-Step l c)) (run-Extends (step l c) cs)

pub find-Extends :
    (i : ℕ) (t : RewardTransaction) {a b : List RewardTransaction}
    → Extends a b
    → find_transaction i a ≡ some t
    → find_transaction i b ≡ some t
unfolding find_transaction
find-Extends i t same e = e
find-Extends i t (more r {ts} fresh p) e =
    let old : find_transaction i ts ≡ some t = find-Extends i t p e in
    elim (Bool-cases (i == r.id)) [
      | inl taken ↦ cc (ap (λ j. find_transaction j ts) ((==_iff i r.id).0 taken))
      | inr other ↦ rw other old
    ]

pub acting-Extends :
    (i : ℕ) (test : RewardTransactionType → Bool) {a b : List RewardTransaction}
    → Extends a b
    → is_some (find_acting i test a) ≡ true
    → is_some (find_acting i test b) ≡ true
unfolding find_acting
acting-Extends i test same e = e
acting-Extends i test (more r fresh p) e = ground (arith, acting-Extends i test p e)

pub find_transaction-id :
    (i : ℕ) (t : RewardTransaction) (ts : List RewardTransaction)
    → find_transaction i ts ≡ some t
    → t.id ≡ i
unfolding find_transaction
find_transaction-id i t [] e = cc
find_transaction-id i t (r ∷ rs) e = ground (arith, find_transaction-id i t rs)
