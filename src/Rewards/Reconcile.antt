-- ===== src/Rewards/Reconcile.antt =====
-- The balances and their history agree: what `reconcile` of reward-accounting.service.ts checks.
use gemone.Prelude.{
  Bool, ℕ, ◌≡◌, ◌≢◌, refl, sym, ap, ◌∙◌, true, false, none, some, List, [], ◌∷◌, All, ◌+ℤ◌, +ℤ_comm,
  -ℤ_self, ◌==◌, ==_iff, ==_refl, if◌then◌else◌, arith, Bool-cases, any, inl, inr,
}
use gemone.Rewards.Types.{UserBalance, Movement}
use gemone.Rewards.Store.{Ledger, find_balance, update_balance, bump, row_of}
use gemone.Rewards.Operations.{new_balance}
use gemone.Rewards.Reads.{Buckets, recorded_of, expected_of, sum_for, reconcile}
use gemone.Rewards.Machine.{Call, step, run, empty, Step, idle, opened, moved, written}
use gemone.Rewards.Refines.{step-Step}

-- No row has the key `i`; the rows' keys are distinct, as the primary key makes them.
abbrev pub Absent : ℕ → List UserBalance → Type 0
Absent i = All (λ b. i ≢ b.id)

abbrev pub Keyed : List UserBalance → Type 0
Keyed [] = Unit
Keyed (b ∷ bs) = Absent b.id bs × Keyed bs

find-Absent :
    (u i : ℕ) (b : UserBalance) (bs : List UserBalance)
    → Absent i bs
    → find_balance u bs ≡ some b
    → i ≢ b.id
unfolding find_balance
find-Absent u i b [] h e = cc
find-Absent u i b (r ∷ bs) h e = ground (arith, find-Absent u i b bs h.1)

update-Absent :
    (i j : ℕ) (m : Movement) (bs : List UserBalance)
    → Absent i bs
    → Absent i (update_balance j m bs)
unfolding update_balance bump
update-Absent i j m [] h = tt
update-Absent i j m (r ∷ bs) h = ground (arith, update-Absent i j m bs h.1)

pub update-Keyed :
    (j : ℕ) (m : Movement) (bs : List UserBalance) → Keyed bs → Keyed (update_balance j m bs)
unfolding update_balance bump
update-Keyed j m [] h = tt
update-Keyed j m (r ∷ bs) h = ground (arith, update-Absent r.id j m bs h.0, update-Keyed j m bs h.1)

-- An update through the user's row is seen by that user alone.
pub find-update :
    (u v : ℕ) (m : Movement) (b : UserBalance) (bs : List UserBalance)
    → Keyed bs
    → find_balance u bs ≡ some b
    → find_balance v (update_balance b.id m bs)
      ≡ (if v == u then some (bump m b) else find_balance v bs)
unfolding find_balance update_balance bump
find-update u v m b [] k e = cc
find-update u v m b (r ∷ bs) k e =
    ground (arith, find-Absent u r.id b bs k.0, find-update u v m b bs k.1)

-- The user's row after a write, and the keys after it.
pub find-written :
    (l : Ledger) (i : ℕ) (m : Movement) (b : UserBalance)
    → Keyed l.balances
    → find_balance m.user_id l.balances ≡ some b
    → find_balance m.user_id (written i m b l).balances ≡ some (bump m b)
unfolding written
find-written l i m b k e =
    find-update m.user_id m.user_id m b l.balances k e ∙ rw (==_refl m.user_id)

pub written-Keyed :
    (l : Ledger) (i : ℕ) (m : Movement) (b : UserBalance)
    → Keyed l.balances
    → Keyed (written i m b l).balances
unfolding written
written-Keyed l i m b k = update-Keyed b.id m l.balances k

any-Absent : (i : ℕ) (bs : List UserBalance) → any (λ b. i == b.id) bs ≡ false → Absent i bs
any-Absent i [] h = tt
any-Absent i (b ∷ bs) h = ground (arith, any-Absent i bs)

-- Every user's row says what the user's history sums to.
pub record IsReconciled (l : Ledger) : Type 0 where
  pub keyed : Keyed l.balances
  pub agrees : (u : ℕ) → recorded_of (find_balance u l.balances) ≡ expected_of u l.transactions

-- A bucket that agreed still does once the same delta is added to the row and to the sum.
bumped-agrees :
    (m : Movement) (b : UserBalance) (x : Buckets)
    → recorded_of (some b) ≡ x
    → recorded_of (some (bump m b)) ≡ record {
      pending = m.pending_delta +ℤ x.pending;
      available = m.available_delta +ℤ x.available;
      locked = m.locked_delta +ℤ x.locked;
    }
unfolding bump
bumped-agrees m b x e = cc (
  +ℤ_comm b.pending_points m.pending_delta,
  +ℤ_comm b.available_points m.available_delta,
  +ℤ_comm b.locked_points m.locked_delta,
  ap (λ y. y.pending) e,
  ap (λ y. y.available) e,
  ap (λ y. y.locked) e,
)

moved-agrees :
    (l : Ledger) (i v : ℕ) (m : Movement) (b : UserBalance)
    → IsReconciled l
    → find_balance m.user_id l.balances ≡ some b
    → recorded_of (find_balance v (written i m b l).balances)
      ≡ expected_of v (written i m b l).transactions
unfolding written expected_of sum_for row_of
moved-agrees l i v m b h e = elim (Bool-cases (v == m.user_id)) [
  | inl mine ↦
      let at_v : find_balance v l.balances ≡ some b = rw ((==_iff v m.user_id).0 mine) e in
      rw (find-update m.user_id v m b l.balances h.keyed e)
        (rw mine (bumped-agrees m b _ (sym (ap recorded_of at_v) ∙ h.agrees v)))
  | inr other ↦ rw (find-update m.user_id v m b l.balances h.keyed e) (rw other (h.agrees v))
]

opened-agrees :
    (l : Ledger) (i u v : ℕ)
    → IsReconciled l
    → find_balance u l.balances ≡ none
    → recorded_of (find_balance v (new_balance i u ∷ l.balances)) ≡ expected_of v l.transactions
unfolding find_balance
opened-agrees l i u v h missing = elim (Bool-cases (v == u)) [
  | inl mine ↦
      let at_v : find_balance v l.balances ≡ none = rw ((==_iff v u).0 mine) missing in
      rw mine (sym (ap recorded_of at_v) ∙ h.agrees v)
  | inr other ↦ rw other (h.agrees v)
]

pub Step-IsReconciled : {r : Bool} {l l' : Ledger} → Step r l l' → IsReconciled l → IsReconciled l'
Step-IsReconciled idle h = h
Step-IsReconciled {l} (opened i u missing free) h = record {
  keyed = (any-Absent i l.balances free, h.keyed);
  agrees = λ v. opened-agrees l i u v h missing;
}
Step-IsReconciled {l} (moved i m b found fresh p plain) h = record {
  keyed = unfold written in update-Keyed b.id m l.balances h.keyed;
  agrees = λ v. moved-agrees l i v m b h found;
}

pub run-IsReconciled : (l : Ledger) (cs : List Call) → IsReconciled l → IsReconciled (run l cs)
unfolding run
run-IsReconciled l [] h = h
run-IsReconciled l (c ∷ cs) h = run-IsReconciled (step l c) cs (Step-IsReconciled (step-Step l c) h)

pub empty-IsReconciled : IsReconciled empty
unfolding find_balance expected_of sum_for
empty-IsReconciled = record { keyed = tt; agrees = λ u. refl }

balanced_of_agrees :
    (l : Ledger) (u : ℕ)
    → recorded_of (find_balance u l.balances) ≡ expected_of u l.transactions
    → (reconcile u l).balanced ≡ true
unfolding reconcile
balanced_of_agrees l u h = rw h (simp -ℤ_self)

-- Whatever calls are made, in any order and whether they return or throw, `reconcile` reports no
-- drift for any user: each bucket is the sum of its deltas over the user's history.
pub reconcile-run : (cs : List Call) (u : ℕ) → (reconcile u (run empty cs)).balanced ≡ true
reconcile-run cs u =
    balanced_of_agrees (run empty cs) u ((run-IsReconciled empty cs empty-IsReconciled).agrees u)
