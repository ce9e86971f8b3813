-- ===== src/Payouts/Submission.antt =====
-- `submit` of payouts.service.ts and the invariant of Payouts/Invariant.antt: a request and the lock
-- that backs it are created in one transaction.
use gemone.Prelude.{
  ℕ, ◌≡◌, refl, ap, ◌∙◌, false, some, Text, ◌∷◌, pos, is_some, Result, ok, err, Bool-cases,
  Result-cases, inl, inr, ◌>>=◌,
}
use gemone.Rewards.Types.{RewardTransaction, integer, same_type}
use gemone.Rewards.Store.{Ledger, row_of}
use gemone.Rewards.Operations.{Context, lock, lock_movement}
use gemone.Rewards.Machine.{Step}
use gemone.Rewards.Refines.{lock-Step}
use gemone.Rewards.Locking.{lock-ok}
use gemone.Rewards.Sound.{Step-IsSound}
use gemone.Payouts.StateMachine.{is_terminal}
use gemone.Payouts.Destination.{TextClasses}
use gemone.Payouts.Provider.{PayoutProvider}
use gemone.Payouts.Service.{
  Db, PayoutsConfig, SubmitContext, SubmitPayoutInput, find_payout, on_ledger, create_payout,
  new_request, lock_and_create, submit, submit_check, method_of,
}
use gemone.Payouts.Invariant.{IsValid, All-Backed-Step, fresh-Backed, fresh-Separate}

-- A call that throws leaves the tables as they were.
abbrev pub after_db : {A : Type 0} → Db → Result (A × Db) → Db
after_db d (ok (a, d')) = d'
after_db d (err e) = d

abbrev pub context_of : SubmitContext → Context
context_of c = record { new_id = c.lock_id; now = c.now }

-- The tables after both inserts.
created-IsValid :
    (d : Db) (l' : Ledger) (config : PayoutsConfig) (c : SubmitContext) (u n : ℕ)
    (method destination : Text) (t : RewardTransaction)
    → IsValid d
    → lock (context_of c) u (integer (pos n)) c.payout_id (some method) d.ledger ≡ ok (t, l')
    → IsValid (record d {
      ledger = l';
      payouts = new_request config c u n method destination t.id ∷ d.payouts;
    })
unfolding new_request
created-IsValid d l' config c u n method destination t v done =
    let (b, found, enough, fresh, row, tables) =
      lock-ok d.ledger l' (context_of c) u (pos n) c.payout_id (some method) t done in
    let m = lock_movement c.now u (pos n) c.payout_id (some method) in
    let key : t.id ≡ c.lock_id =
      ap (λ (x : RewardTransaction). x.id) row ∙ (unfold row_of in refl) in
    let st : Step false d.ledger l' =
      rw done at
        (lock-Step d.ledger (context_of c) u (integer (pos n)) c.payout_id (some method)) in
    record {
      sound = Step-IsSound st v.sound;
      backed = (
        rw tables (
            fresh-Backed d.ledger c.lock_id m b (new_request config c u n method destination t.id)
              v.sound fresh (unfold lock_movement in refl) (unfold lock_movement same_type in refl)
              (unfold lock_movement in refl) (unfold lock_movement in refl) key
              (unfold is_terminal in refl)),
        All-Backed-Step d.payouts st v.backed,
      );
      separate = (rw key (fresh-Separate d.ledger c.lock_id d.payouts fresh v.backed), v.separate);
    }

lock_and_create-IsValid :
    (d : Db) (config : PayoutsConfig) (c : SubmitContext) (u n : ℕ) (method destination : Text)
    → IsValid d
    → IsValid (after_db d (lock_and_create config c u n method destination d))
unfolding lock_and_create create_payout new_request
lock_and_create-IsValid d config c u n method destination v =
    elim (Result-cases
      (lock (context_of c) u (integer (pos n)) c.payout_id (some method) d.ledger)) [
        | inl (e, refused) ↦ rw (refused, lock_and_create, ◌>>=◌, on_ledger) v
        | inr ((t, l'), done) ↦ elim (Bool-cases (is_some (find_payout c.payout_id d.payouts))) [
          | inl taken ↦ rw (done, lock_and_create, ◌>>=◌, on_ledger) (rw (taken, create_payout) v)
          | inr free ↦
              rw (done, lock_and_create, ◌>>=◌, on_ledger)
                (rw (free, create_payout)
                  (created-IsValid d l' config c u n method destination t v done))
        ]
      ]

pub submit-IsValid :
    (d : Db) (t : TextClasses) (provider : PayoutProvider) (config : PayoutsConfig)
    (c : SubmitContext) (input : SubmitPayoutInput)
    → IsValid d
    → IsValid (after_db d (submit t provider config c input d))
unfolding submit
submit-IsValid d t provider config c input v =
    elim (Result-cases (submit_check t provider config c input d.payouts)) [
      | inl (e, refused) ↦ rw (refused, submit) v
      | inr ((n, destination), passed) ↦
          rw (passed, submit)
            (lock_and_create-IsValid d config c input.user_id n (method_of t input) destination v)
    ]
