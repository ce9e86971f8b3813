-- ===== src/Conversions/Commit.antt =====
-- What the transaction of `persist` (conversions.service.ts) leaves in the tables when it commits.
use gemone.Prelude.{
  ℕ, ◌≡◌, ◌==◌, ap, ◌∙◌, Bool, true, false, Option, none, some, List, ◌∷◌, any, ℤ, ok, Tx, ◌>>=◌,
  ◌>>◌, pure, bind-ok, if◌then◌else◌, Bool-cases, Option-cases, Result-cases, inl, inr,
  update_first,
}
use gemone.Rewards.Types.{RewardTransaction}
use gemone.Rewards.Store.{Ledger}
use gemone.Postbacks.Types.{ProviderPostback}
use gemone.Postbacks.Lifecycle.{mark_processed}
use gemone.Conversions.Types.{ConversionStatus, reversed, Conversion, Tables}
use gemone.Conversions.Decisions.{CreditPlan}
use gemone.Conversions.Pipeline.{Services, Work, Scoring}
use gemone.Conversions.Persist.{
  Ids, on_ledger, record_evaluation, record_scoring, credit_reward, credit_of, crediting, reversing,
  set_status, settle_postback_row, reverse_reward_for, clashes, create_conversion, new_conversion,
  mark_reversed, settle_rows, move_points, write_rows, transaction,
}

-- The steps before the conversion is created touch neither postbacks nor conversions.
abbrev pub Untouched : Tables → Tables → Type 0
Untouched d d' = (d'.postbacks ≡ d.postbacks) × (d'.conversions ≡ d.conversions)

on_ledger-Untouched :
    {A : Type 0} (m : Tx Ledger A) (d d' : Tables) (a : A)
    → on_ledger m d ≡ ok (a, d')
    → Untouched d d'
on_ledger-Untouched m d d' a h = elim (Result-cases (m d.ledger)) [
  | inl (e, refused) ↦ let bad = rw (refused, on_ledger) at h in cc
  | inr ((b, l), done) ↦ let e = rw (done, on_ledger) at h in (cc, cc)
]

then_unit-Untouched :
    {A : Type 0} (m : Tx Ledger A) (d d' : Tables) (o : Unit {0})
    → (on_ledger m >>= λ _. pure tt) d ≡ ok (o, d')
    → Untouched d d'
then_unit-Untouched m d d' o h =
    let (a, d1, first, last) = bind-ok (on_ledger m) (λ _. pure tt) d d' o h in
    let (p, c) = on_ledger-Untouched m d d1 a first in (cc, cc)

record_scoring-Untouched :
    (c : Ids) (u : ℕ) (x : Option Scoring) (plan : CreditPlan) (s : ConversionStatus)
    (d d' : Tables) (e : Option ℕ)
    → record_scoring c u x plan s d ≡ ok (e, d')
    → Untouched d d'
unfolding record_scoring record_evaluation
record_scoring-Untouched c u none plan s d d' e h = (cc, cc)
record_scoring-Untouched c u (some x) plan s d d' e h =
    elim (Bool-cases (any (λ y. c.evaluation_id == y.id) d.evaluations)) [
      | inl taken ↦ let bad = rw taken at h in cc
      | inr free ↦ let made = rw free at h in (cc, cc)
    ]

guarded-Untouched :
    (b : Bool) (m : Tx Ledger RewardTransaction) (d d' : Tables) (o : Unit {0})
    → (if b then (on_ledger m >>= λ _. pure tt) else pure tt) d ≡ ok (o, d')
    → Untouched d d'
guarded-Untouched true m d d' o h = then_unit-Untouched m d d' o h
guarded-Untouched false m d d' o h = (cc, cc)

credit_reward-Untouched :
    (s : Services) (c : Ids) (provider_id : ℕ) (w : Work) (plan : CreditPlan) (n : ℤ)
    (d d' : Tables) (o : Unit {0})
    → credit_reward s c provider_id w plan n d ≡ ok (o, d')
    → Untouched d d'
unfolding credit_reward
credit_reward-Untouched s c provider_id w plan n d d' o h =
    guarded-Untouched plan.credits (crediting s c provider_id w plan n) d d' o h

reverse_reward_for-Untouched :
    (c : Ids) (x : Option Conversion) (d d' : Tables) (o : Unit {0})
    → reverse_reward_for c x d ≡ ok (o, d')
    → Untouched d d'
unfolding reverse_reward_for
reverse_reward_for-Untouched c none d d' o h = (cc, cc)
reverse_reward_for-Untouched c (some x) d d' o h = elim (Option-cases (credit_of x.id d.ledger)) [
  | inl none_found ↦ let same = rw (none_found, reverse_reward_for) at h in (cc, cc)
  | inr (t, found) ↦
      then_unit-Untouched (reversing c t) d d' o (rw (found, reverse_reward_for) at h)
]

-- The conversions after the one that a reversal takes back is marked.
abbrev pub marked : Option Conversion → List Conversion → List Conversion
marked none cs = cs
marked (some original) cs = update_first (λ x. original.id == x.id) (set_status reversed) cs

mark_reversed-ok :
    (x : Option Conversion) (d d' : Tables) (o : Unit {0})
    → mark_reversed x d ≡ ok (o, d')
    → (d'.postbacks ≡ d.postbacks) × (d'.conversions ≡ marked x d.conversions)
unfolding mark_reversed
mark_reversed-ok none d d' o h = (cc, cc)
mark_reversed-ok (some x) d d' o h = (cc, cc)

create_conversion-ok :
    (x y : Conversion) (d d' : Tables)
    → create_conversion x d ≡ ok (y, d')
    → (any (clashes x) d.conversions ≡ false)
      × (y ≡ x)
      × (d'.postbacks ≡ d.postbacks)
      × (d'.conversions ≡ x ∷ d.conversions)
unfolding create_conversion
create_conversion-ok x y d d' h = elim (Bool-cases (any (clashes x) d.conversions)) [
  | inl taken ↦ let bad = rw taken at h in cc
  | inr free ↦ let made = rw free at h in (free, cc, cc, cc)
]

settle_rows-ok :
    (i : ℕ) (w : Work) (d d' : Tables) (x y : Conversion)
    → settle_rows i w x d ≡ ok (y, d')
    → (y ≡ x)
      × (d'.postbacks ≡ mark_processed i d.postbacks)
      × (d'.conversions ≡ marked w.reversal_of d.conversions)
unfolding settle_rows
settle_rows-ok i w d d' x y h =
    let (o, d1, first, rest) =
      bind-ok (mark_reversed w.reversal_of) (λ _. settle_postback_row i >> pure x) d d' y h in
    let (p, c) = mark_reversed-ok w.reversal_of d d1 o first in
    let settled : d' ≡ record d1 { postbacks = mark_processed i d1.postbacks } = cc in
    (cc, rw (settled, p), rw (settled, c))

move_points-Untouched :
    (s : Services) (c : Ids) (provider_id : ℕ) (w : Work) (n : ℤ) (plan : CreditPlan)
    (d d' : Tables) (o : Unit {0})
    → move_points s c provider_id w n plan d ≡ ok (o, d')
    → Untouched d d'
unfolding move_points
move_points-Untouched s c provider_id w n plan d d' o h =
    let (o1, d1, first, rest) =
      bind-ok (credit_reward s c provider_id w plan n) (λ _. reverse_reward_for c w.reversal_of) d
        d' o h in
    let (p, q) = credit_reward-Untouched s c provider_id w plan n d d1 o1 first in
    let (p', q') = reverse_reward_for-Untouched c w.reversal_of d1 d' o rest in (p' ∙ p, q' ∙ q)

write_rows-ok :
    (s : Services) (c : Ids) (p : ProviderPostback) (w : Work) (n : ℤ) (plan : CreditPlan)
    (stored : ConversionStatus) (e : Option ℕ) (d d' : Tables) (x : Conversion)
    → write_rows s c p w n plan stored e d ≡ ok (x, d')
    → (x ≡ new_conversion c p w n stored e)
      × (any (clashes x) d.conversions ≡ false)
      × (d'.postbacks ≡ mark_processed p.id d.postbacks)
      × (d'.conversions ≡ marked w.reversal_of (x ∷ d.conversions))
unfolding write_rows
write_rows-ok s c p w n plan stored e d d' x h =
    let fresh = new_conversion c p w n stored e in
    let (o, d1, moved, rest) =
      bind-ok (move_points s c p.provider_id w n plan)
        (λ _. create_conversion fresh >>= λ y. settle_rows p.id w y) d d' x h in
    let (y, d2, made, last) =
      bind-ok (create_conversion fresh) (λ y. settle_rows p.id w y) d1 d' x rest in
    let (ps, cs) = move_points-Untouched s c p.provider_id w n plan d d1 o moved in
    let (free, same, ps', cs') = create_conversion-ok fresh y d1 d2 made in
    let (same', ps'', cs'') = settle_rows-ok p.id w d2 d' y x last in
    let is_fresh : x ≡ fresh = same' ∙ same in
    (
      is_fresh,
      rw is_fresh (rw (← cs) free),
      ps'' ∙ ap (mark_processed p.id) (ps' ∙ ps),
      cs'' ∙ ap (marked w.reversal_of) (cs' ∙ (rw (is_fresh, cs))),
    )

-- A commit settles the postback and creates one conversion that clashes with no other.
pub transaction-ok :
    (s : Services) (c : Ids) (p : ProviderPostback) (w : Work) (n : ℤ) (plan : CreditPlan)
    (stored : ConversionStatus) (d d' : Tables) (x : Conversion)
    → transaction s c p w n plan stored d ≡ ok (x, d')
    → (e : Option ℕ) × (x ≡ new_conversion c p w n stored e)
      × (any (clashes x) d.conversions ≡ false)
      × (d'.postbacks ≡ mark_processed p.id d.postbacks)
      × (d'.conversions ≡ marked w.reversal_of (x ∷ d.conversions))
unfolding transaction
transaction-ok s c p w n plan stored d d' x h =
    let (e, d1, first, rest) =
      bind-ok (record_scoring c w.click.user_id w.scoring plan stored)
        (λ e. write_rows s c p w n plan stored e) d d' x h in
    let (q, r) = record_scoring-Untouched c w.click.user_id w.scoring plan stored d d1 e first in
    let (made, free, ps, cs) = write_rows-ok s c p w n plan stored e d1 d' x rest in
    (e, made, rw (← r) free, rw (← q) ps, rw (← r) cs)
