-- ===== src/Conversions/Settled.antt =====
-- `process` of apps/api/src/modules/conversions/conversions.service.ts as a step: nothing to do, or a
-- postback that was waiting is settled.
use gemone.Prelude.{
  ℕ, ◌≡◌, ◌≢◌, ◌⊎◌, refl, sym, ap, ◌∙◌, true, false, Option, none, some, Text, List, arith, ◌==◌,
  ==_iff, Bool-cases, Option-cases, Result-cases, inl, inr, AppError, ok, err, find_first-All,
  find_first-passes, take,
}
use gemone.Postbacks.Types.{ProviderPostback, PostbackState}
use gemone.Postbacks.Lifecycle.{find_postback, mark_quarantined, mark_failed}
use gemone.Conversions.Types.{Conversion, Tables, QuarantineReason}
use gemone.Conversions.Decisions.{stored_status}
use gemone.Conversions.Pipeline.{Services, Attempt, done, quarantine, failure, Work, attribute}
use gemone.Conversions.Persist.{
  Ids, persist, transaction, winner_or, is_unique_violation, find_by_postback_id, plan_for,
  points_of,
}
use gemone.Conversions.Process.{
  Outcome, converted, skipped, threw, reason_name, is_received, fail_with, quarantine_with, finish,
  process_received, process,
}
use gemone.Conversions.Linked.{state_of, state_in, IsLinked, settle_at}

-- What a job that found its postback `received` did: the transaction committed; or only the postback
-- was settled and the error or the reason reported; or that mark could not be written, and the job
-- threw without a trace.
pub data Settled (mark : Option AppError) (i : ℕ) (d : Tables) : Outcome × Tables → Type 0 where
  committed :
      (s : Services) (c : Ids) (p : ProviderPostback) (w : Work) (x : Conversion) (d' : Tables)
      → p.id ≡ i
      → transaction s c p w
          (points_of w)
          (plan_for w)
          (stored_status (plan_for w) w.resolved.status)
          d
        ≡ ok (x, d')
      → Settled mark i d (converted x.id, d')
  refused :
      (r : QuarantineReason)
      → Settled mark i d (
        Outcome.quarantined r,
        record d {
          postbacks = settle_at i PostbackState.quarantined (some (reason_name r)) d.postbacks;
        },
      )
  failed :
      (e : AppError) (detail : Text)
      → Settled mark i d (
        threw e,
        record d { postbacks = settle_at i PostbackState.failed (some detail) d.postbacks },
      )
  unmarked : (x e : AppError) → mark ≡ some x → Settled mark i d (threw e, d)

-- In linked tables no conversion stands for a postback that is still `received`.
no_winner :
    (i : ℕ) (d : Tables)
    → IsLinked d
    → state_of i d.postbacks ≡ some PostbackState.received
    → find_by_postback_id i d.conversions ≡ none
no_winner i d v e = elim (Option-cases (find_by_postback_id i d.conversions)) [
  | inl free ↦ free
  | inr (x, found) ↦
      let at_i = find_first-passes (λ y. i == y.postback_id) x d.conversions found in
      let processed =
        find_first-All (λ y. state_of y.postback_id d.postbacks ≡ some PostbackState.processed)
          (λ y. i == y.postback_id) x d.conversions found v.settled in
      let same : i ≡ x.postback_id = (==_iff i x.postback_id).0 at_i in
      let clash = rw (← same) at processed in cc
]

winner_none :
    (e : AppError) (i : ℕ) (d : Tables)
    → find_by_postback_id i d.conversions ≡ none
    → winner_or e i d ≡ err e
unfolding winner_or
winner_none e i d h = elim (Bool-cases (is_unique_violation e)) [
  | inl duplicate ↦ rw (duplicate, h) refl
  | inr other ↦ rw other refl
]

received_only : (st : PostbackState) → is_received st ≡ true → st ≡ PostbackState.received
received_only st h = ground arith

not_received :
    (st : PostbackState) → is_received st ≡ false → some st ≡ some PostbackState.received → ⊥
not_received st h e = ground arith

fail_with-Settled :
    (s : Services) (i : ℕ) (e : AppError) (d : Tables)
    → Settled s.mark_failure i d (fail_with s i e d)
unfolding fail_with mark_failed
fail_with-Settled s i e d = elim (Option-cases s.mark_failure) [
  | inl written ↦ rw (written, fail_with) (failed e (take 500 (s.describe_failure e)))
  | inr (x, lost) ↦ rw (lost, fail_with) (unmarked x e refl)
]

quarantine_with-Settled :
    (s : Services) (i : ℕ) (r : QuarantineReason) (d : Tables)
    → Settled s.mark_failure i d (quarantine_with s i r d)
unfolding quarantine_with mark_quarantined
quarantine_with-Settled s i r d = elim (Option-cases s.mark_failure) [
  | inl written ↦ rw (written, quarantine_with) (refused r)
  | inr (x, lost) ↦ rw (lost, quarantine_with) (unmarked x x refl)
]

finish-Settled :
    (s : Services) (c : Ids) (p : ProviderPostback) (w : Work) (d : Tables)
    → IsLinked d
    → state_of p.id d.postbacks ≡ some PostbackState.received
    → Settled s.mark_failure p.id d (finish s c p w d)
unfolding finish persist
finish-Settled s c p w d v e =
    elim (Result-cases (
      transaction s c p w (points_of w) (plan_for w) (stored_status (plan_for w) w.resolved.status)
        d)) [
          | inr ((x, d'), commits) ↦
              rw (commits, finish, persist) (committed s c p w x d' refl commits)
          | inl (x, thrown) ↦
              let lost = winner_none x p.id d (no_winner p.id d v e) in
              rw (thrown, finish, persist) (rw lost (fail_with-Settled s p.id x d))
        ]

received-Settled :
    (s : Services) (c : Ids) (p : ProviderPostback) (d : Tables)
    → IsLinked d
    → state_of p.id d.postbacks ≡ some PostbackState.received
    → Settled s.mark_failure p.id d (process_received s c p d)
unfolding process_received
received-Settled s c p d v e = go (attribute s c.now p d) refl
  where
    go :
        (a : Attempt Work)
        → attribute s c.now p d ≡ a
        → Settled s.mark_failure p.id d (process_received s c p d)
    go (done w) h = rw (h, process_received) (finish-Settled s c p w d v e)
    go (quarantine r) h = rw (h, process_received) (quarantine_with-Settled s p.id r d)
    go (failure x) h = rw (h, process_received) (fail_with-Settled s p.id x d)

state_of-found :
    (i : ℕ) (ps : List ProviderPostback) (p : ProviderPostback)
    → find_postback i ps ≡ some p
    → (p.id ≡ i) × (state_of i ps ≡ some p.state)
unfolding state_of find_postback
state_of-found i ps p e =
    let at_i = find_first-passes (λ q. i == q.id) p ps e in
    (sym ((==_iff i p.id).0 at_i), ap state_in e)

-- A job either finds nothing to do, or settles a postback that was `received`.
pub process-cases :
    (s : Services) (c : Ids) (i : ℕ) (d : Tables)
    → IsLinked d
    → ((process s c i d ≡ (skipped, d)) × (state_of i d.postbacks ≢ some PostbackState.received))
      ⊎ ((state_of i d.postbacks ≡ some PostbackState.received)
          × Settled s.mark_failure i d (process s c i d))
unfolding process state_of
process-cases s c i d v = elim (Option-cases (find_postback i d.postbacks)) [
  | inl missing ↦
      inl (rw (missing, process) refl, λ e. let none_there = rw (missing, state_of) at e in cc)
  | inr (p, found) ↦
      let (same, state) = state_of-found i d.postbacks p found in
      elim (Bool-cases (is_received p.state)) [
        | inl waits ↦
            let e = state ∙ ap some (received_only p.state waits) in
            inr (
              e,
              rw (found, process)
                  (rw (waits, process) (rw (← same) (received-Settled s c p d v (rw same e)))),
            )
        | inr over ↦ inl (
          rw (found, process) (rw over refl),
          λ e. let clash = sym state ∙ e in not_received p.state over clash,
        )
      ]
]
