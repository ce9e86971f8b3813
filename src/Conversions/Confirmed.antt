-- ===== src/Conversions/Confirmed.antt =====
-- An admin's confirmed decision on a held conversion (apps/api/src/modules/conversions,
-- `resolveHold` of conversions.service.ts).
use gemone.Prelude.{
  ℕ, ◌≡◌, refl, sym, ap, ◌∙◌, Bool, true, false, ◌&&◌, Option, none, some, Bool-cases, Option-cases,
  Result-cases, inl, inr, ok, Tx, ◌>>=◌, bind-ok, if◌then◌else◌,
}
use gemone.Rewards.Types.{RewardTransaction}
use gemone.Rewards.Operations.{ReverseOptions, reverse}
use gemone.Conversions.Types.{Conversion, Tables, held, same_conversion_status}
use gemone.Conversions.Persist.{on_ledger, credit_of}
use gemone.Conversions.Review.{
  HoldReview, confirm, find_conversion, resolve_credit, taking_back, decided, write_decision,
  resolve_hold, by_admin,
}

abbrev pub admin_options : HoldReview → ReverseOptions
admin_options v = record { actor = by_admin v.admin_id; source = none }

-- On the ledger, what a confirmed decision returned from.
reversed_ledger :
    (new_id : ℕ) (v : HoldReview) (t : RewardTransaction) (d d' : Tables) (o : Unit {0})
    → on_ledger (taking_back new_id v t) d ≡ ok (o, d')
    → (t' : RewardTransaction) × (reverse
          (record { new_id = new_id; now = v.now })
          t.id
          v.reason
          (admin_options v)
          d.ledger
        ≡ ok (t', d'.ledger))
reversed_ledger new_id v t d d' o h =
    elim (Result-cases (
      reverse (record { new_id = new_id; now = v.now }) t.id v.reason (admin_options v) d.ledger)) [
        | inl (e, refused) ↦ let bad = rw (refused, on_ledger, ◌>>=◌) at h in cc
        | inr ((t', l), took) ↦ let same = rw (took, on_ledger, ◌>>=◌) at h in (t', cc)
      ]

decided-ok :
    (m : Tx Tables (Unit {0})) (v : HoldReview) (y x : Conversion) (d d' : Tables)
    → (m >>= λ _. write_decision v y) d ≡ ok (x, d')
    → (o : Unit {0}) × (d1 : Tables) × (m d ≡ ok (o, d1))
      × (x ≡ decided v y)
      × (d'.ledger ≡ d1.ledger)
decided-ok m v y x d d' h =
    let (o, d1, first, wrote) = bind-ok m (λ _. write_decision v y) d d' x h in
    (o, d1, first, cc, cc)

pub resolve_hold-found :
    (new_id : ℕ) (v : HoldReview) (d d' : Tables) (x : Conversion)
    → resolve_hold new_id v d ≡ ok (x, d')
    → (y : Conversion) × (find_conversion v.conversion_id d.conversions ≡ some y)
      × (same_conversion_status y.status held ≡ true)
      × ((on_ledger (resolve_credit new_id v (credit_of v.conversion_id d.ledger)) >>= λ _.
              write_decision v y)
            d
          ≡ ok (x, d'))
unfolding resolve_hold
resolve_hold-found new_id v d d' x h =
    elim (Option-cases (find_conversion v.conversion_id d.conversions)) [
      | inl missing ↦ let bad = rw (missing, resolve_hold) at h in cc
      | inr (y, at_y) ↦ elim (Bool-cases (same_conversion_status y.status held)) [
        | inr other ↦ let bad = rw other at (rw (at_y, resolve_hold) at h) in cc
        | inl is_held ↦ (y, at_y, is_held, rw is_held at (rw (at_y, resolve_hold) at h))
      ]
    ]

-- A confirmed decision on a conversion with a credit reversed that credit.
pub confirm-ok :
    (new_id : ℕ) (v : HoldReview) (y x : Conversion) (t : RewardTransaction) (d d' : Tables)
    → v.decision ≡ confirm
    → credit_of v.conversion_id d.ledger ≡ some t
    → (on_ledger (resolve_credit new_id v (credit_of v.conversion_id d.ledger)) >>= λ _.
          write_decision v y)
        d
      ≡ ok (x, d')
    → (t' : RewardTransaction) × (x ≡ decided v y)
      × (reverse (record { new_id = new_id; now = v.now }) t.id v.reason (admin_options v) d.ledger
          ≡ ok (t', d'.ledger))
unfolding resolve_credit
confirm-ok new_id v y x t d d' decision found h =
    let (o, d1, moved, made, same) =
      decided-ok (on_ledger (resolve_credit new_id v (credit_of v.conversion_id d.ledger))) v y x d
        d' h in
    let (t', back) = reversed_ledger new_id v t d d1 o (rw (found, decision) at moved) in
    (t', made, back ∙ ap (λ l. ok (t', l)) (sym same))

pub never_newer :
    (p q r : Bool) (a b : Option RewardTransaction) → (if p && q && false && r then a else b) ≡ b
never_newer true true r a b = refl
never_newer true false r a b = refl
never_newer false q r a b = refl
