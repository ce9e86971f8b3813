-- ===== src/Rewards/Maturation.antt =====
-- apps/api/src/jobs/reward-maturation.processor.ts, `sweep`: every credit that is due is matured in a
-- transaction of its own, and one that throws is passed over.
use gemone.Prelude.{
  ℕ, suc, ◌≡◌, ◌≤◌, refl, Option, none, some, List, [], ◌∷◌, map, length, arith, Result, ok, err,
}
use gemone.Rewards.Types.{RewardTransaction}
use gemone.Rewards.Store.{Ledger}
use gemone.Rewards.Operations.{Context, mature}
use gemone.Rewards.Reads.{find_maturable}
use gemone.Rewards.Machine.{Call, matures, run, step}

abbrev pub maturation_batch_size : ℕ
maturation_batch_size = 500

pub record Swept : Type 0 where
  pub matured : ℕ
  pub scanned : ℕ

abbrev count_one : ℕ × Ledger → ℕ × Ledger
count_one (n, l) = (suc n, l)

abbrev pub maturing_at : (ℕ → ℕ) → ℕ → ℕ → Context
maturing_at ids now i = record { new_id = ids i; now = now }

-- The loop; `ids` gives the id that is generated for the movement of each credit.
unfoldable pub sweep_each : (ℕ → ℕ) → ℕ → List ℕ → Ledger → ℕ × Ledger
sweep_each ids now [] l = (0, l)
sweep_each ids now (i ∷ is) l = elim (mature (maturing_at ids now i) i l) [
  | ok (some t, l') ↦ count_one (sweep_each ids now is l')
  | ok (none, l') ↦ sweep_each ids now is l'
  | err e ↦ sweep_each ids now is l
]

unfoldable pub sweep : (ℕ → ℕ) → ℕ → Ledger → Swept × Ledger
sweep ids now l =
    let candidates = find_maturable now maturation_batch_size l in
    let (matured, l') = sweep_each ids now candidates l in
    (record { matured = matured; scanned = length candidates }, l')

abbrev pub calls : (ℕ → ℕ) → ℕ → List ℕ → List Call
calls ids now = map (λ i. matures (maturing_at ids now i) i)

-- A sweep is so many calls of `mature`, and matures no more than it scans.
pub sweep_each-run :
    (ids : ℕ → ℕ) (now : ℕ) (is : List ℕ) (l : Ledger)
    → ((sweep_each ids now is l).1 ≡ run l (calls ids now is))
      × ((sweep_each ids now is l).0 ≤ length is)
unfolding sweep_each run step
sweep_each-run ids now [] l = (refl, omega arith)
sweep_each-run ids now (i ∷ is) l =
    go (λ l'. sweep_each-run ids now is l') (mature (maturing_at ids now i) i l) refl
  where
    go :
        ((l' : Ledger)
          → ((sweep_each ids now is l').1 ≡ run l' (calls ids now is))
            × ((sweep_each ids now is l').0 ≤ length is))
        → (r : Result (Option RewardTransaction × Ledger)) → mature (maturing_at ids now i) i l ≡ r
        → ((sweep_each ids now (i ∷ is) l).1 ≡ run l (calls ids now (i ∷ is)))
          × ((sweep_each ids now (i ∷ is) l).0 ≤ suc (length is))
    go rest (ok (some t, l')) h =
        let (rows, count) = rest l' in rw (h, sweep_each, run, step) (rows, omega arith)
    go rest (ok (none, l')) h =
        let (rows, count) = rest l' in rw (h, sweep_each, run, step) (rows, omega arith)
    go rest (err e) h =
        let (rows, count) = rest l in rw (h, sweep_each, run, step) (rows, omega arith)
