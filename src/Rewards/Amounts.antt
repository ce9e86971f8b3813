-- ===== src/Rewards/Amounts.antt =====
-- What the signed amount of a row means: it is what the row does to the three buckets together, so
-- the total of a balance (`toBalance` of reward-accounting.service.ts) is the sum of the amounts.
use gemone.Prelude.{
  ℕ, ◌≡◌, ap, ◌∙◌, Bool, List, [], ◌∷◌, All, ℤ, ◌+ℤ◌, int_laws, ◌==◌, Bool-cases, Option-cases, inl,
  inr,
}
use gemone.Rewards.Types.{RewardTransaction, UserBalance, Movement}
use gemone.Rewards.Store.{Ledger, find_balance, row_of}
use gemone.Rewards.Operations.{
  credit_movement, debit_movement, reverse_movement, mature_movement, lock_movement,
  resolve_movement, settle, refund,
}
use gemone.Rewards.Reads.{Buckets, sum_for, get_balance, to_balance, recorded_of, expected_of}
use gemone.Rewards.Machine.{
  Call, step, run, empty, Step, idle, opened, moved, written, Permitted, crediting, debiting,
  reversing, maturing, locking, resolving,
}
use gemone.Rewards.Refines.{step-Step}
use gemone.Rewards.Reconcile.{run-IsReconciled, empty-IsReconciled}

abbrev IsBalanced : RewardTransaction → Type 0
IsBalanced t = t.pending_delta +ℤ t.available_delta +ℤ t.locked_delta ≡ t.amount_points

Permitted-IsBalanced :
    (i : ℕ) {l : Ledger} {b : UserBalance} {m : Movement}
    → Permitted l b m
    → IsBalanced (row_of i m)
unfolding row_of credit_movement debit_movement reverse_movement mature_movement lock_movement
    resolve_movement
Permitted-IsBalanced i (crediting h now a input p) = omega int_laws
Permitted-IsBalanced i (debiting now a input p) = omega int_laws
Permitted-IsBalanced i (reversing now reason o t j found p free) = omega int_laws
Permitted-IsBalanced i (maturing now t j found free) = omega int_laws
Permitted-IsBalanced i (locking now u a payout_id label p enough) = omega int_laws
Permitted-IsBalanced i (resolving now settle reason actor t j found kind free) = omega int_laws
Permitted-IsBalanced i (resolving now refund reason actor t j found kind free) = omega int_laws

Step-IsBalanced :
    {r : Bool} {l l' : Ledger}
    → Step r l l'
    → All IsBalanced l.transactions
    → All IsBalanced l'.transactions
unfolding written
Step-IsBalanced idle h = h
Step-IsBalanced (opened i u missing free) h = h
Step-IsBalanced (moved i m b found fresh p plain) h = (Permitted-IsBalanced i p, h)

run-IsBalanced :
    (l : Ledger) (cs : List Call)
    → All IsBalanced l.transactions
    → All IsBalanced (run l cs).transactions
unfolding run
run-IsBalanced l [] h = h
run-IsBalanced l (c ∷ cs) h = run-IsBalanced (step l c) cs (Step-IsBalanced (step-Step l c) h)

add_row :
    (a b c x p q r s : ℤ)
    → a +ℤ b +ℤ c ≡ x
    → p +ℤ q +ℤ r ≡ s
    → a +ℤ p +ℤ (b +ℤ q) +ℤ (c +ℤ r) ≡ x +ℤ s
add_row a b c x p q r s h k = rw (← h, ← k) (omega int_laws)

sum-amounts :
    (u : ℕ) (ts : List RewardTransaction)
    → All IsBalanced ts
    → sum_for u (λ t. t.pending_delta) ts
        +ℤ sum_for u (λ t. t.available_delta) ts
        +ℤ sum_for u (λ t. t.locked_delta) ts
      ≡ sum_for u (λ t. t.amount_points) ts
unfolding sum_for
sum-amounts u [] h = omega int_laws
sum-amounts u (t ∷ ts) h = elim (Bool-cases (u == t.user_id)) [
  | inl mine ↦ rw mine (add_row _ _ _ _ _ _ _ _ h.0 (sum-amounts u ts h.1))
  | inr other ↦ rw other (sum-amounts u ts h.1)
]

total-recorded :
    (u : ℕ) (l : Ledger)
    → let r = recorded_of (find_balance u l.balances) in
      (get_balance u l).total ≡ r.pending +ℤ r.available +ℤ r.locked
unfolding get_balance to_balance
total-recorded u l = elim (Option-cases (find_balance u l.balances)) [
  | inl missing ↦ rw (missing, to_balance) (omega int_laws)
  | inr (b, e) ↦ rw (e, to_balance)
]

-- After any calls the total that `getBalance` reports is the sum of the signed amounts of the user's
-- rows: maturations, locks and refunds move points without making or losing any.
pub total-run :
    (cs : List Call) (u : ℕ)
    → let l = run empty cs in
      (get_balance u l).total ≡ sum_for u (λ t. t.amount_points) l.transactions
unfolding expected_of
total-run cs u =
    let l = run empty cs in
    let agrees = (run-IsReconciled empty cs empty-IsReconciled).agrees u in
    total-recorded u l
    ∙ (ap (λ (r : Buckets). r.pending +ℤ r.available +ℤ r.locked) agrees
        ∙ sum-amounts u l.transactions (run-IsBalanced empty cs tt))
