-- ===== src/Payouts/Transition.antt =====
-- `applyTransition` of payouts.service.ts and the invariant of Payouts/Invariant.antt: the points and
-- the status move in one transaction.
use gemone.Prelude.{
  ℕ, ◌≡◌, refl, sym, ap, ◌∙◌, ◌⊎◌, true, Option, some, Text, List, ok, arith, Result-cases, inl,
  inr, ◌>>=◌, ◌>>◌, pure, codes, ◌++◌,
}
use gemone.Rewards.Types.{RewardTransaction, RewardActor}
use gemone.Rewards.Store.{Ledger}
use gemone.Rewards.Operations.{
  Context, Resolution, settle, refund, resolve_lock, resolve_movement, settle_lock, release_lock,
}
use gemone.Rewards.Machine.{Step, written}
use gemone.Rewards.Refines.{resolve_lock-Step, resolve_check-ok}
use gemone.Rewards.Once.{resolve_lock-ok, is_resolution-resolve}
use gemone.Rewards.History.{find_transaction-id}
use gemone.Rewards.Sound.{Step-IsSound}
use gemone.Payouts.StateMachine.{
  PayoutStatus, is_terminal, lock_effect_of, LockEffect, nothing, settles, releases, can_transition,
  assert_transition, edge-resolves, resolves_once,
}
use gemone.Payouts.Destination.{TextClasses}
use gemone.Payouts.Provider.{trimmed}
use gemone.Payouts.Service.{
  PayoutRequest, Db, ReviewInput, find_payout, update_payout, on_ledger, or_text, lower_name,
  reviewer, apply_effect, reviewed, apply_transition, transition_check, move_and_update,
}
use gemone.Payouts.Invariant.{Backed, IsValid, other-Backed, resolved-Backed}
use gemone.Payouts.Submission.{after_db}
use gemone.Payouts.Rows.{All-update, update-Separate}

resolving_ok :
    (c : Context) (r : Resolution) (lock_id : ℕ) (words : Text) (actor : Option RewardActor)
    (l l' : Ledger) (o : Unit {0})
    → (resolve_lock c r lock_id words actor >>= λ _. pure tt) l ≡ ok (o, l')
    → (t : RewardTransaction) × (resolve_lock c r lock_id words actor l ≡ ok (t, l'))
resolving_ok c r lock_id words actor l l' o h =
    elim (Result-cases (resolve_lock c r lock_id words actor l)) [
      | inl (e, refused) ↦ let bad = rw (refused, ◌>>=◌) at h in cc
      | inr ((t, l''), done) ↦ let same = rw (done, ◌>>=◌) at h in (t, cc)
    ]

-- What an effect that returned did to the ledger: nothing, or one resolution of the lock.
apply_effect-ok :
    (x : LockEffect) (c : Context) (to : PayoutStatus) (reason : Text) (admin_id lock_id : ℕ)
    (l l' : Ledger) (o : Unit {0})
    → apply_effect x c to reason admin_id lock_id l ≡ ok (o, l')
    → ((resolves_once x ≡ 0) × (l' ≡ l))
      ⊎ ((resolves_once x ≡ 1)
          × ((r : Resolution) × (words : Text) × (t : RewardTransaction) × (resolve_lock c r lock_id
                  words
                  (reviewer admin_id)
                  l
                ≡ ok (t, l'))))
unfolding apply_effect settle_lock release_lock
apply_effect-ok nothing c to reason admin_id lock_id l l' o h = inl (refl, cc)
apply_effect-ok settles c to reason admin_id lock_id l l' o h =
    let words = or_text reason (codes "withdrawal paid") in
    let (t, done) = resolving_ok c settle lock_id words (reviewer admin_id) l l' o h in
    inr (refl, (settle, words, t, done))
apply_effect-ok releases c to reason admin_id lock_id l l' o h =
    let words = or_text reason (codes "withdrawal " ++ lower_name to) in
    let (t, done) = resolving_ok c refund lock_id words (reviewer admin_id) l l' o h in
    inr (refl, (refund, words, t, done))

transition_check-ok :
    (i : ℕ) (to : PayoutStatus) (reason : Text) (ps : List PayoutRequest) (p : PayoutRequest)
    → transition_check i to reason ps ≡ ok p
    → (find_payout i ps ≡ some p) × (can_transition p.status to ≡ true)
unfolding transition_check assert_transition
transition_check-ok i to reason ps p h = ground arith

-- A request keeps its lock, its owner and its points, and takes the new status.
reviewed-Backed :
    (l : Ledger) (now : ℕ) (to : PayoutStatus) (reason : Text) (review : ReviewInput)
    (p : PayoutRequest)
    → is_terminal p.status ≡ is_terminal to
    → Backed l p
    → Backed l (reviewed now to reason review p)
unfolding reviewed
reviewed-Backed l now to reason review p same b = record {
  row = b.row;
  found = b.found;
  is_lock = b.is_lock;
  owner = b.owner;
  points = b.points;
  resolved = b.resolved ∙ same;
}

-- The tables after a transition that resolved no lock.
kept-IsValid :
    (d : Db) (now i : ℕ) (to : PayoutStatus) (reason : Text) (review : ReviewInput)
    (p : PayoutRequest)
    → IsValid d
    → find_payout i d.payouts ≡ some p
    → is_terminal p.status ≡ is_terminal to
    → IsValid (record d { payouts = update_payout i (reviewed now to reason review) d.payouts })
kept-IsValid d now i to reason review p v found same = record {
  sound = v.sound;
  backed =
      All-update (Backed d.ledger) (Backed d.ledger) i (reviewed now to reason review) p d.payouts
        found (reviewed-Backed d.ledger now to reason review p same) (λ q ne b. b) v.separate
        v.backed;
  separate =
      update-Separate i (reviewed now to reason review) d.payouts (λ q. unfold reviewed in refl)
        v.separate;
}

-- The tables after a transition that resolved the request's lock.
resolved-IsValid :
    (d : Db) (l' : Ledger) (c : Context) (i : ℕ) (to : PayoutStatus) (reason words : Text)
    (review : ReviewInput) (r : Resolution) (actor : Option RewardActor) (p : PayoutRequest)
    (t : RewardTransaction)
    → IsValid d
    → find_payout i d.payouts ≡ some p
    → is_terminal to ≡ true
    → resolve_lock c r p.lock_transaction_id words actor d.ledger ≡ ok (t, l')
    → IsValid (record d {
      ledger = l';
      payouts = update_payout i (reviewed c.now to reason review) d.payouts;
    })
resolved-IsValid d l' c i to reason words review r actor p t v found ended done =
    let (k, b, e, at_u, fresh, row, tables) =
      resolve_lock-ok d.ledger l' c r p.lock_transaction_id words actor t done in
    let (at_k, kind, open_before) = resolve_check-ok p.lock_transaction_id d.ledger k e in
    let key = find_transaction-id p.lock_transaction_id k d.ledger.transactions at_k in
    let m = resolve_movement c.now r words actor k in
    let f = reviewed c.now to reason review in
    let src : m.source_transaction_id ≡ some k.id = unfold resolve_movement in refl in
    let st : Step true d.ledger l' =
      rw done at (resolve_lock-Step d.ledger c r p.lock_transaction_id words actor) in
    record {
      sound = Step-IsSound st v.sound;
      backed = rw tables (
          All-update (Backed d.ledger) (Backed (written c.new_id m b d.ledger)) i f p d.payouts
            found
            (λ h.
              let same : h.row.id ≡ k.id =
                find_transaction-id p.lock_transaction_id h.row d.ledger.transactions h.found
                ∙ sym key in
              resolved-Backed d.ledger c.new_id m b p (f p) h fresh (src ∙ ap some (sym same))
                (is_resolution-resolve c.now r words actor k) (unfold reviewed in refl)
                (unfold reviewed in refl) (unfold reviewed in refl) (unfold reviewed in ended))
            (λ q ne h.
              other-Backed d.ledger c.new_id m b k q fresh src (λ x. ne (sym key ∙ sym x)) h)
            v.separate v.backed);
      separate = update-Separate i f d.payouts (λ q. unfold reviewed in refl) v.separate;
    }

moved-IsValid :
    (d : Db) (c : Context) (i : ℕ) (to : PayoutStatus) (reason : Text) (review : ReviewInput)
    (p : PayoutRequest)
    → IsValid d
    → find_payout i d.payouts ≡ some p
    → can_transition p.status to ≡ true
    → IsValid (after_db d (move_and_update c i to reason review p d))
unfolding move_and_update
moved-IsValid d c i to reason review p v found edge =
    let effect = lock_effect_of p.status to in
    let (live, count) = edge-resolves p.status to edge in
    elim (Result-cases
      (apply_effect effect c to reason review.admin_id p.lock_transaction_id d.ledger)) [
        | inl (e, refused) ↦ rw (refused, move_and_update, ◌>>=◌, ◌>>◌, on_ledger) v
        | inr ((o, l'), done) ↦
            rw (done, move_and_update, ◌>>=◌, ◌>>◌, on_ledger)
              (elim (apply_effect-ok effect c to reason review.admin_id p.lock_transaction_id
                d.ledger l' o done) [
                  | inl (none_resolved, same) ↦
                      rw same (kept-IsValid d c.now i to reason review p v found (ground arith))
                  | inr (one_resolved, (r, words, t, e)) ↦
                      resolved-IsValid d l' c i to reason words review r (reviewer review.admin_id)
                        p t v found (ground arith) e
                ])
      ]

pub apply_transition-IsValid :
    (d : Db) (t : TextClasses) (c : Context) (i : ℕ) (to : PayoutStatus) (review : ReviewInput)
    → IsValid d
    → IsValid (after_db d (apply_transition t c i to review d))
unfolding apply_transition
apply_transition-IsValid d t c i to review v =
    let reason = trimmed t review.reason in
    elim (Result-cases (transition_check i to reason d.payouts)) [
      | inl (e, refused) ↦ rw (refused, apply_transition) v
      | inr (p, passed) ↦
          let (found, edge) = transition_check-ok i to reason d.payouts p passed in
          rw (passed, apply_transition) (moved-IsValid d c i to reason review p v found edge)
    ]
