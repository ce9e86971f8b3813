-- ===== src/Payouts/Machine.antt =====
-- Withdrawals and the reward ledger together, as a machine: the calls of payouts.service.ts that
-- change state, and the calls of `RewardAccountingService` that other parts make.
use gemone.Prelude.{ℕ, ◌≡◌, false, List, [], ◌∷◌}
use gemone.Rewards.Operations.{Context}
use gemone.Rewards.Machine.{Call, step, resolves_locks, empty, Step}
use gemone.Rewards.Refines.{step-Step}
use gemone.Rewards.Sound.{empty-IsSound}
use gemone.Payouts.StateMachine.{PayoutStatus}
use gemone.Payouts.Destination.{TextClasses}
use gemone.Payouts.Provider.{PayoutProvider}
use gemone.Payouts.Service.{
  Db, PayoutsConfig, SubmitContext, SubmitPayoutInput, ReviewInput, submit, apply_transition,
}
use gemone.Payouts.Invariant.{IsValid, IsValid-Step}
use gemone.Payouts.Submission.{after_db, submit-IsValid}
use gemone.Payouts.Transition.{apply_transition-IsValid}

-- Only `applyTransition` calls `settleLock` and `releaseLock`.
pub data DbCall : Type 0 where
  submits : PayoutsConfig → SubmitContext → SubmitPayoutInput → DbCall
  transitions : Context → ℕ → PayoutStatus → ReviewInput → DbCall
  moves : (call : Call) → resolves_locks call ≡ false → DbCall

module _ (t : TextClasses) (provider : PayoutProvider) where
  unfoldable pub step_db : Db → DbCall → Db
  step_db d (submits config c input) = after_db d (submit t provider config c input d)
  step_db d (transitions c i to review) = after_db d (apply_transition t c i to review d)
  step_db d (moves call plain) = record d { ledger = step d.ledger call }

  unfoldable pub run_db : Db → List DbCall → Db
  run_db d [] = d
  run_db d (c ∷ cs) = run_db (step_db d c) cs

  step_db-IsValid : (d : Db) (c : DbCall) → IsValid d → IsValid (step_db d c)
  unfolding step_db
  step_db-IsValid d (submits config c input) v = submit-IsValid d t provider config c input v
  step_db-IsValid d (transitions c i to review) v = apply_transition-IsValid d t c i to review v
  step_db-IsValid d (moves call plain) v =
      let st : Step false d.ledger (step d.ledger call) = rw plain at (step-Step d.ledger call) in
      IsValid-Step d st v

  -- From valid tables, submissions, transitions and the ledger calls that resolve no lock, in any
  -- order and whether they return or throw, leave the tables valid: every withdrawal has a lock row
  -- for its user and its points, which is resolved if and only if the status is terminal, and no two
  -- withdrawals share a lock.
  pub run_db-IsValid : (d : Db) (cs : List DbCall) → IsValid d → IsValid (run_db d cs)
  unfolding run_db
  run_db-IsValid d [] v = v
  run_db-IsValid d (c ∷ cs) v = run_db-IsValid (step_db d c) cs (step_db-IsValid d c v)

abbrev pub empty_db : Db
empty_db = record { ledger = empty; payouts = [] }

pub empty_db-IsValid : IsValid empty_db
empty_db-IsValid = record { sound = empty-IsSound; backed = tt; separate = tt }
