-- ===== src/Payouts/Settlement.antt =====
-- `execute` of payouts.service.ts with the manual provider.
use gemone.Prelude.{
  ℕ, ◌≡◌, ◌≢◌, ◌↔◌, refl, sym, ap, ◌∙◌, true, some, Text, [], ◌∷◌, Result, ok, err, arith,
  payout_invalid_transition, Option-cases, Bool-cases, inl, inr,
}
use gemone.Payouts.StateMachine.{PayoutStatus, approved, paid, can_transition, assert_transition}
use gemone.Payouts.Destination.{TextClasses, trim}
use gemone.Payouts.Provider.{
  PayoutExecutionResult, settled, not_settled, settle_if_given, manual_provider,
}
use gemone.Payouts.Service.{PayoutRequest, Db, find_payout, execute}

payable_approved : (s : PayoutStatus) → can_transition s paid ≡ true → s ≡ approved
unfolding can_transition
payable_approved s h = ground arith

approved_payable : can_transition approved paid ≡ true
unfolding can_transition
approved_payable = refl

abbrev reference_of : PayoutExecutionResult → Result Text
reference_of (settled s) = ok s
reference_of not_settled = err payout_invalid_transition

given-ok : (r s : Text) → reference_of (settle_if_given r) ≡ ok s → (r ≡ s) × (s ≢ [])
given-ok [] s h = cc
given-ok (c ∷ r) s h = (cc, λ e. cc)

ok-given : (r s : Text) → r ≡ s → s ≢ [] → reference_of (settle_if_given r) ≡ ok s
ok-given [] s e h = absurd (h (sym e))
ok-given (c ∷ r) s e h = ap ok e

execute_approved :
    (t : TextClasses) (i : ℕ) (given : Text) (d : Db) (p : PayoutRequest)
    → find_payout i d.payouts ≡ some p
    → can_transition p.status paid ≡ true
    → execute (manual_provider t) i given d ≡ reference_of (settle_if_given (trim t.is_space given))
unfolding execute manual_provider assert_transition
execute_approved t i given d p found edge =
    rw (found, execute)
      (rw (edge, assert_transition)
        (elim (settle_if_given (trim t.is_space given))
          as (λ x.
            elim x [ settled r ↦ ok r | not_settled ↦ err payout_invalid_transition ]
            ≡ reference_of x) [ settled r ↦ refl | not_settled ↦ refl ]))

execute-ok :
    (t : TextClasses) (i : ℕ) (given s : Text) (d : Db)
    → execute (manual_provider t) i given d ≡ ok s
    → (p : PayoutRequest) × (find_payout i d.payouts ≡ some p)
      × (can_transition p.status paid ≡ true)
unfolding execute assert_transition
execute-ok t i given s d h = elim (Option-cases (find_payout i d.payouts)) [
  | inl missing ↦ let bad = rw (missing, execute) at h in cc
  | inr (p, found) ↦ elim (Bool-cases (can_transition p.status paid)) [
    | inl edge ↦ (p, found, edge)
    | inr closed ↦ let bad = rw (closed, assert_transition) at (rw (found, execute) at h) in cc
  ]
]

-- With the manual provider, `execute` returns a reference exactly where the request exists, is
-- approved, and the given reference is that one with the space around it trimmed, and is not empty.
execute-manual_provider :
    (t : TextClasses) (i : ℕ) (given s : Text) (d : Db)
    → (execute (manual_provider t) i given d ≡ ok s) ↔ (
        (p : PayoutRequest) × (find_payout i d.payouts ≡ some p)
        × (p.status ≡ approved)
        × (trim t.is_space given ≡ s)
        × (s ≢ []))
execute-manual_provider t i given s d = (
  λ h.
      let (p, found, edge) = execute-ok t i given s d h in
      let (same, filled) =
        given-ok (trim t.is_space given) s (sym (execute_approved t i given d p found edge) ∙ h) in
      (p, found, payable_approved p.status edge, same, filled),
  λ (p, found, status, same, filled).
      execute_approved t i given d p found
        (ap (λ x. can_transition x paid) status ∙ approved_payable)
      ∙ ok-given (trim t.is_space given) s same filled,
)
