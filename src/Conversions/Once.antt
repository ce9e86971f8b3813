-- ===== src/Conversions/Once.antt =====
-- Jobs on postbacks, one after another (`process` of
-- apps/api/src/modules/conversions/conversions.service.ts).
use gemone.Prelude.{
  ◌⊎◌, Option, AppError, refl, ℕ, ◌≡◌, ◌≢◌, sym, ap, ◌∙◌, none, some, List, [], ◌∷◌, All, arith,
  ◌==◌, ==_iff, Bool-cases, inl, inr, ok, All-weaken,
}
use gemone.Postbacks.Types.{ProviderPostback, PostbackState}
use gemone.Postbacks.Lifecycle.{mark_processed}
use gemone.Conversions.Types.{Conversion, Tables}
use gemone.Conversions.Decisions.{stored_status}
use gemone.Conversions.Pipeline.{Services, Work}
use gemone.Conversions.Persist.{Ids, transaction, plan_for, points_of, new_conversion}
use gemone.Conversions.Commit.{transaction-ok}
use gemone.Conversions.Process.{Outcome, skipped, threw, reason_name, process}
use gemone.Conversions.Linked.{
  state_of, settle-state_of, IsLinked, settle_at, state_of-settle_other, settled-settle,
  clashes-apart, marked-All, marked-Apart,
}
use gemone.Conversions.Settled.{Settled, committed, refused, failed, unmarked, process-cases}

commit-IsLinked :
    (i : ℕ) (d d' : Tables) (s : Services) (c : Ids) (p : ProviderPostback) (w : Work)
    (x : Conversion)
    → IsLinked d
    → state_of i d.postbacks ≡ some PostbackState.received
    → p.id ≡ i
    → transaction s c p w
        (points_of w)
        (plan_for w)
        (stored_status (plan_for w) w.resolved.status)
        d
      ≡ ok (x, d')
    → IsLinked d'
unfolding mark_processed
commit-IsLinked i d d' s c p w x v e same commits =
    let plan = plan_for w in
    let (evaluation, made, free, ps, cs) =
      transaction-ok s c p w (points_of w) plan (stored_status plan w.resolved.status) d d' x
        commits in
    let at_i : x.postback_id ≡ i =
      ap (λ (y : Conversion). y.postback_id) made ∙ (unfold new_conversion in same) in
    let rows : d'.postbacks ≡ settle_at i PostbackState.processed none d.postbacks =
      ps ∙ ap (λ j. settle_at j PostbackState.processed none d.postbacks) same in
    let P : Conversion → Type 0 =
      λ y. state_of y.postback_id d'.postbacks ≡ some PostbackState.processed in
    let mine : P x =
      rw (rows, at_i)
        (settle-state_of i PostbackState.processed PostbackState.received none d.postbacks e) in
    let others : All P d.conversions =
      All-weaken _ P d.conversions (λ y h. rw rows (h.1))
        (settled-settle i PostbackState.processed none d.postbacks d.conversions e v.settled) in
    record {
      settled = rw cs (marked-All P w.reversal_of (x ∷ d.conversions) (λ y h. h) (mine, others));
      apart = rw cs (
          marked-Apart w.reversal_of (x ∷ d.conversions)
            (clashes-apart x d.conversions free, v.apart));
    }

Settled-IsLinked :
    (mark : Option AppError) (i : ℕ) (d : Tables) (r : Outcome × Tables)
    → IsLinked d
    → state_of i d.postbacks ≡ some PostbackState.received
    → Settled mark i d r
    → IsLinked r.1
Settled-IsLinked mark i d r v e (unmarked x y lost) = v
Settled-IsLinked mark i d r v e (refused why) = record {
  settled =
      All-weaken _ _ d.conversions (λ x h. h.1)
        (settled-settle i PostbackState.quarantined (some (reason_name why)) d.postbacks
          d.conversions e v.settled);
  apart = v.apart;
}
Settled-IsLinked mark i d r v e (failed x detail) = record {
  settled =
      All-weaken _ _ d.conversions (λ x h. h.1)
        (settled-settle i PostbackState.failed (some detail) d.postbacks d.conversions e v.settled);
  apart = v.apart;
}
Settled-IsLinked mark i d r v e (committed s c p w x d' same commits) =
    commit-IsLinked i d d' s c p w x v e same commits

-- However a job ends, it leaves linked tables linked: every conversion belongs to a postback that is
-- `processed`, and no two belong to one.
pub process-IsLinked :
    (s : Services) (c : Ids) (i : ℕ) (d : Tables) → IsLinked d → IsLinked (process s c i d).1
process-IsLinked s c i d v = elim (process-cases s c i d v) [
  | inl (idle, other) ↦ rw idle v
  | inr (e, did) ↦ Settled-IsLinked s.mark_failure i d (process s c i d) v e did
]

-- A job in the queue: the services as they answer it, its ids, and its postback.
pub record Job : Type 0 where
  pub services : Services
  pub ids : Ids
  pub postback_id : ℕ

unfoldable pub run_jobs : Tables → List Job → Tables
run_jobs d [] = d
run_jobs d (j ∷ js) = run_jobs (process j.services j.ids j.postback_id d).1 js

pub run_jobs-IsLinked : (d : Tables) (js : List Job) → IsLinked d → IsLinked (run_jobs d js)
unfolding run_jobs
run_jobs-IsLinked d [] v = v
run_jobs-IsLinked d (j ∷ js) v =
    run_jobs-IsLinked (process j.services j.ids j.postback_id d).1 js
      (process-IsLinked j.services j.ids j.postback_id d v)

-- The job threw `y`, and changed nothing since its mark could not be written.
abbrev WithoutTrace : Option AppError → Tables → Outcome × Tables → Type 0
WithoutTrace mark d r = (x : AppError) × (y : AppError) × (mark ≡ some x) × (r ≡ (threw y, d))

Settled-state_of :
    (mark : Option AppError) (i : ℕ) (d : Tables) (r : Outcome × Tables)
    → state_of i d.postbacks ≡ some PostbackState.received
    → Settled mark i d r
    → ((state_of i r.1.postbacks ≢ some PostbackState.received) ⊎ WithoutTrace mark d r)
      × ((j : ℕ) → j ≢ i → state_of j r.1.postbacks ≡ state_of j d.postbacks)
unfolding mark_processed
Settled-state_of mark i d r e (unmarked x y lost) = (inr (x, y, lost, refl), λ j ne. refl)
Settled-state_of mark i d r e (refused why) = (
  inl (λ h.
      let now =
        settle-state_of i PostbackState.quarantined PostbackState.received (some (reason_name why))
          d.postbacks e in
      cc),
  λ j ne.
      state_of-settle_other i j PostbackState.quarantined (some (reason_name why)) d.postbacks ne,
)
Settled-state_of mark i d r e (failed x detail) = (
  inl (λ h.
      let now =
        settle-state_of i PostbackState.failed PostbackState.received (some detail) d.postbacks e in
      cc),
  λ j ne. state_of-settle_other i j PostbackState.failed (some detail) d.postbacks ne,
)
Settled-state_of mark i d r e (committed s c p w x d' same commits) =
    let plan = plan_for w in
    let (evaluation, made, free, ps, cs) =
      transaction-ok s c p w (points_of w) plan (stored_status plan w.resolved.status) d d' x
        commits in
    let rows : d'.postbacks ≡ settle_at i PostbackState.processed none d.postbacks =
      ps ∙ ap (λ j. settle_at j PostbackState.processed none d.postbacks) same in
    (
      inl (λ h.
          let now =
            settle-state_of i PostbackState.processed PostbackState.received none d.postbacks e in
          let h' = rw rows at h in cc),
      λ j ne. rw rows (state_of-settle_other i j PostbackState.processed none d.postbacks ne),
    )

process-stays :
    (s : Services) (c : Ids) (i j : ℕ) (d : Tables)
    → IsLinked d
    → state_of j d.postbacks ≢ some PostbackState.received
    → state_of j (process s c i d).1.postbacks ≢ some PostbackState.received
process-stays s c i j d v over = elim (process-cases s c i d v) [
  | inl (idle, other) ↦ rw idle over
  | inr (e, did) ↦
      let (mine, others) = Settled-state_of s.mark_failure i d (process s c i d) e did in
      λ h. elim (Bool-cases (j == i)) [
        | inl same ↦ over (rw ((==_iff j i).0 same) e)
        | inr ne ↦ over (sym (others j (λ q. let clash = rw q at ne in ground arith)) ∙ h)
      ]
]

run_jobs-stays :
    (j : ℕ) (d : Tables) (js : List Job)
    → IsLinked d
    → state_of j d.postbacks ≢ some PostbackState.received
    → state_of j (run_jobs d js).postbacks ≢ some PostbackState.received
unfolding run_jobs
run_jobs-stays j d [] v over = over
run_jobs-stays j d (k ∷ ks) v over =
    run_jobs-stays j (process k.services k.ids k.postback_id d).1 ks
      (process-IsLinked k.services k.ids k.postback_id d v)
      (process-stays k.services k.ids k.postback_id j d v over)

-- Where every conversion belongs to a processed postback of its own: once a job for a postback has run,
-- however it ended, every later job for that postback is skipped and changes nothing, whatever jobs
-- run in between; unless the job threw and the postback could not be marked either, and then the job
-- changed nothing at all.
pub process_once :
    (s s' : Services) (c c' : Ids) (i : ℕ) (d : Tables) (js : List Job)
    → IsLinked d
    → (let d' = run_jobs (process s c i d).1 js in process s' c' i d' ≡ (skipped, d'))
      ⊎ ((x : AppError) × (y : AppError) × (s.mark_failure ≡ some x)
          × (process s c i d ≡ (threw y, d)))
process_once s s' c c' i d js v =
    let first = (process s c i d).1 in
    let linked = process-IsLinked s c i d v in
    let again : state_of i first.postbacks ≢ some PostbackState.received
        → process s' c' i (run_jobs first js) ≡ (skipped, run_jobs first js) =
      λ over.
        let later = run_jobs-stays i first js linked over in
        elim (process-cases s' c' i (run_jobs first js) (run_jobs-IsLinked first js linked)) [
          | inl (idle, other) ↦ idle
          | inr (e, did) ↦ absurd (later e)
        ] in
    elim (process-cases s c i d v) [
      | inl (idle, other) ↦ inl (again (rw idle other))
      | inr (e, did) ↦ elim (Settled-state_of s.mark_failure i d (process s c i d) e did).0 [
        | inl over ↦ inl (again over)
        | inr trace ↦ inr trace
      ]
    ]
