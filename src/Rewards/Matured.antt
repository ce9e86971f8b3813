-- ===== src/Rewards/Matured.antt =====
-- What a sweep of the maturation job leaves behind (apps/api/src/jobs/reward-maturation.processor.ts,
-- and `mature` of the reward ledger).
use gemone.Prelude.{
  ℕ, ◌≡◌, ◌≢◌, ◌≤◌, ◌<◌, ◌⊎◌, inl, inr, refl, sym, ap, ◌∙◌, true, false, Option, none, some, List,
  [], ◌∷◌, All, length, arith, All-weaken, ◌==◌, ==_refl, ==_iff, Bool-cases, Option-cases,
  Result-cases, is_some, Result, ok, err, ◌>>=◌,
}
use gemone.Rewards.Types.{RewardTransaction, UserBalance, Movement, same_type}
use gemone.Rewards.Store.{Ledger, find_balance, find_transaction, find_acting, row_of, write}
use gemone.Rewards.Operations.{
  Context, mature, mature_check, mature_apply, mature_movement, is_acted,
}
use gemone.Rewards.Reads.{is_due, find_maturable}
use gemone.Rewards.Machine.{after, Call, matures, empty, run, step, written}
use gemone.Rewards.Refines.{step-Step, mature-Step, lock_balance-some}
use gemone.Rewards.History.{
  Step-Extends, run-Extends, find-Extends, acting-Extends, find_transaction-id,
}
use gemone.Rewards.Once.{acting-written}
use gemone.Rewards.Reversal.{mature-ok, mature_check-acted}
use gemone.Rewards.Sound.{IsSound, Step-IsSound, empty-IsSound}
use gemone.Rewards.Sweep.{In, find_maturable_lem}
use gemone.Rewards.Maturation.{maturation_batch_size, maturing_at, sweep, calls, sweep_each-run}

abbrev IsActed : ℕ → Ledger → Type 0
IsActed i l = is_some (find_acting i is_acted l.transactions) ≡ true

mature_apply-ok :
    (l : Ledger) (c : Context) (k : RewardTransaction) (b : UserBalance)
    → find_balance k.user_id l.balances ≡ some b
    → find_transaction c.new_id l.transactions ≡ none
    → mature_apply c k l
      ≡ ok (
        row_of c.new_id (mature_movement c.now k),
        written c.new_id (mature_movement c.now k) b l,
      )
unfolding mature_apply write written
mature_apply-ok l c k b found fresh =
    rw (lock_balance-some l k.user_id b found, ◌>>=◌) (rw (fresh, write))

still_fresh :
    (l : Ledger) (c : Context) (i : ℕ)
    → is_some (find_acting i is_acted l.transactions) ≡ false
    → (find_transaction c.new_id l.transactions ≡ none) ⊎ IsActed i l
    → find_transaction c.new_id l.transactions ≡ none
still_fresh l c i waits (inl fresh) = fresh
still_fresh l c i waits (inr acted) = let clash = sym waits ∙ acted in cc

mature_check-open :
    (l : Ledger) (i : ℕ) (k : RewardTransaction)
    → find_transaction i l.transactions ≡ some k
    → is_some (find_acting k.id is_acted l.transactions) ≡ false
    → mature_check i l ≡ some k
unfolding mature_check
mature_check-open l i k e h = ground arith

-- A `mature` of a row of the history leaves it acted upon, if its movement can be written.
mature-IsActed :
    (l : Ledger) (c : Context) (i : ℕ) (k : RewardTransaction)
    → IsSound l
    → find_transaction i l.transactions ≡ some k
    → (find_transaction c.new_id l.transactions ≡ none) ⊎ IsActed i l
    → IsActed i (after l (mature c i l))
unfolding mature
mature-IsActed l c i k s at_i fresh_or =
    let same : k.id ≡ i = find_transaction-id i k l.transactions at_i in
    elim (Bool-cases (is_some (find_acting i is_acted l.transactions))) [
      | inl acted ↦ rw (mature_check-acted l i k at_i (rw same acted), mature) acted
      | inr waits ↦ elim (Option-cases (find_balance k.user_id l.balances)) [
        | inl missing ↦ let owned = rw missing at (s.owned i k at_i) in cc
        | inr (b, found) ↦
            let fresh = still_fresh l c i waits fresh_or in
            rw (mature_check-open l i k at_i (rw same waits), mature)
              (rw (mature_apply-ok l c k b found fresh, ◌>>=◌)
                (acting-written l c.new_id i (mature_movement c.now k) b is_acted
                  (unfold mature_movement in ap some same)
                  (unfold mature_movement same_type in refl)))
      ]
    ]

mature-none : (l l' : Ledger) (c : Context) (i : ℕ) → mature c i l ≡ ok (none, l') → l' ≡ l
unfolding mature
mature-none l l' c i h = elim (Option-cases (mature_check i l)) [
  | inl nothing ↦ let same = rw (nothing, mature) at h in cc
  | inr (k, e) ↦ elim (Result-cases (mature_apply c k l)) [
    | inl (x, refused) ↦ let bad = rw (refused, ◌>>=◌) at (rw (e, mature) at h) in cc
    | inr ((t', l''), wrote) ↦ let bad = rw (wrote, ◌>>=◌) at (rw (e, mature) at h) in cc
  ]
]

written-fresh :
    (l : Ledger) (i j : ℕ) (m : Movement) (b : UserBalance)
    → j ≢ i
    → find_transaction j l.transactions ≡ none
    → find_transaction j (written i m b l).transactions ≡ none
unfolding written row_of find_transaction
written-fresh l i j m b ne free = elim (Bool-cases (j == i)) [
  | inl same ↦ absurd (ne ((==_iff j i).0 same))
  | inr other ↦ rw other free
]

-- A `mature` writes under no other key than its own.
mature-fresh :
    (l : Ledger) (c : Context) (i j : ℕ)
    → j ≢ c.new_id
    → find_transaction j l.transactions ≡ none
    → find_transaction j (after l (mature c i l)).transactions ≡ none
mature-fresh l c i j ne free = go (mature c i l) refl
  where
    go :
        (r : Result (Option RewardTransaction × Ledger))
        → mature c i l ≡ r
        → find_transaction j (after l (mature c i l)).transactions ≡ none
    go (err e) h =
        ap
          (λ (r : Result (Option RewardTransaction × Ledger)).
            find_transaction j (after l r).transactions)
          h
        ∙ free
    go (ok (none, l')) h =
        ap
          (λ (r : Result (Option RewardTransaction × Ledger)).
            find_transaction j (after l r).transactions)
          h
        ∙ rw (mature-none l l' c i h) free
    go (ok (some t, l')) h =
        let (k, b, checked, found, fresh, row, tables) = mature-ok l l' c i t h in
        ap
          (λ (r : Result (Option RewardTransaction × Ledger)).
            find_transaction j (after l r).transactions)
          h
        ∙ rw tables (written-fresh l c.new_id j (mature_movement c.now k) b ne free)

-- The keys that will be generated are not taken, unless their credit has been acted upon already.
abbrev AreFresh : (ℕ → ℕ) → Ledger → Type 0
AreFresh ids l = (i : ℕ) → (find_transaction (ids i) l.transactions ≡ none) ⊎ IsActed i l

step-AreFresh :
    (ids : ℕ → ℕ) (now i : ℕ) (k : RewardTransaction) (l : Ledger)
    → ((i j : ℕ) → ids i ≡ ids j → i ≡ j)
    → IsSound l
    → find_transaction i l.transactions ≡ some k
    → AreFresh ids l
    → AreFresh ids (step l (matures (maturing_at ids now i) i))
unfolding step
step-AreFresh ids now i k l inj s at_i fresh j =
    let c = maturing_at ids now i in
    elim (Bool-cases (j == i)) [
      | inl same ↦ inr (rw ((==_iff j i).0 same) (mature-IsActed l c i k s at_i (fresh i)))
      | inr other ↦ elim (fresh j) [
        | inl free ↦ inl (
            mature-fresh l c i (ids j) (λ e. let clash = rw (inj j i e) at other in ground arith)
              free)
        | inr acted ↦ inr (acting-Extends j is_acted (Step-Extends (mature-Step l c i)) acted)
      ]
    ]

abbrev Found : ℕ → Ledger → Type 0
Found i l = (k : RewardTransaction) × (find_transaction i l.transactions ≡ some k)

calls-IsActed :
    (ids : ℕ → ℕ) (now : ℕ) (is : List ℕ) (l : Ledger)
    → ((i j : ℕ) → ids i ≡ ids j → i ≡ j)
    → IsSound l
    → All (λ i. Found i l) is
    → AreFresh ids l
    → All (λ i. IsActed i (run l (calls ids now is))) is
unfolding run
calls-IsActed ids now [] l inj s at_is fresh = tt
calls-IsActed ids now (i ∷ is) l inj s ((k, at_i), at_is) fresh =
    let c = maturing_at ids now i in
    let call = matures c i in
    let st = step-Step l call in
    let acted : IsActed i (step l call) = unfold step in mature-IsActed l c i k s at_i (fresh i) in
    (
      acting-Extends i is_acted (run-Extends (step l call) (calls ids now is)) acted,
      calls-IsActed ids now is (step l call) inj (Step-IsSound st s)
          (All-weaken (λ j. Found j l) (λ j. Found j (step l call)) is
            (λ j at_j. let (k', e) = at_j in (k', find-Extends j k' (Step-Extends st) e)) at_is)
          (step-AreFresh ids now i k l inj s at_i fresh),
    )

In-Found :
    (t : RewardTransaction) (ts : List RewardTransaction)
    → In t ts
    → (k : RewardTransaction) × (find_transaction t.id ts ≡ some k)
unfolding find_transaction
In-Found t [] h = absurd h
In-Found t (r ∷ rs) (inl same) =
    (r, rw (ap (λ (x : RewardTransaction). x.id) same) (rw (==_refl t.id) refl))
In-Found t (r ∷ rs) (inr h) = elim (Bool-cases (t.id == r.id)) [
  | inl here ↦ (r, rw here refl)
  | inr later ↦ let (k, e) = In-Found t rs h in (k, rw later e)
]

In-All : (P : ℕ → Type 0) (i : ℕ) (is : List ℕ) → All P is → In i is → P i
In-All P i [] h at_i = absurd at_i
In-All P i (j ∷ js) h (inl same) = rw (← same) h.0
In-All P i (j ∷ js) h (inr at_i) = In-All P i js h.1 at_i

run-IsSound : (l : Ledger) (cs : List Call) → IsSound l → IsSound (run l cs)
unfolding run
run-IsSound l [] s = s
run-IsSound l (c ∷ cs) s = run-IsSound (step l c) cs (Step-IsSound (step-Step l c) s)

-- When fewer credits are due than a batch holds, a sweep leaves every one of them acted upon, whatever
-- calls were made before, if the keys that it generates are new; and it matures no more than it scans.
pub sweep_lem :
    (ids : ℕ → ℕ) (now : ℕ) (cs : List Call) (t : RewardTransaction)
    → ((i j : ℕ) → ids i ≡ ids j → i ≡ j)
    → ((i : ℕ) → find_transaction (ids i) (run empty cs).transactions ≡ none)
    → length (find_maturable now maturation_batch_size (run empty cs)) < maturation_batch_size
    → In t (run empty cs).transactions
    → is_due now (run empty cs).transactions t ≡ true
    → let swept = sweep ids now (run empty cs) in
      (is_some (find_acting t.id is_acted swept.1.transactions) ≡ true)
      × (swept.0.matured ≤ swept.0.scanned)
unfolding sweep
sweep_lem ids now cs t inj new short at_t due =
    let l = run empty cs in
    let candidates = find_maturable now maturation_batch_size l in
    let (bounded, found, complete) = find_maturable_lem now maturation_batch_size l in
    let (rows, count) = sweep_each-run ids now candidates l in
    let all_found : All (λ i. Found i l) candidates =
      All-weaken _ (λ i. Found i l) candidates
        (λ i row.
          let (r, at_r, same) = row in
          let (k, e) = In-Found r l.transactions at_r.0 in (k, rw (← same) e))
        found in
    let acted =
      calls-IsActed ids now candidates l inj (run-IsSound empty cs empty-IsSound) all_found
        (λ i. inl (new i)) in
    let mine =
      In-All (λ i. IsActed i (run l (calls ids now candidates))) t.id candidates acted
        (complete short t at_t due) in
    (rw rows mine, count)
