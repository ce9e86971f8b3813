-- ===== src/Conversions/Linked.antt =====
-- How conversions and postbacks belong together (conversions.service.ts, and the unique key of
-- `conversions.postback_id`): one conversion per postback, and only for a processed one.
use gemone.Prelude.{
  ℕ, ◌≡◌, ◌≢◌, ap, ◌∙◌, Bool, false, Option, none, some, Text, List, [], ◌∷◌, any, All, arith, ◌==◌,
  Bool-cases, Option-cases, inl, inr, update_first, update_first-All, find_first-update_first,
  find_first-update_first_ne, find_first-passes,
}
use gemone.Postbacks.Types.{ProviderPostback, PostbackState}
use gemone.Postbacks.Lifecycle.{find_postback, settle_postback}
use gemone.Conversions.Types.{Conversion, Tables, reversed}
use gemone.Conversions.Persist.{clashes, set_status}
use gemone.Conversions.Commit.{marked}

abbrev pub state_in : Option ProviderPostback → Option PostbackState
state_in none = none
state_in (some p) = some p.state

unfoldable pub state_of : ℕ → List ProviderPostback → Option PostbackState
state_of i ps = state_in (find_postback i ps)

abbrev pub Apart : List Conversion → Type 0
Apart [] = Unit
Apart (x ∷ xs) = All (λ y. x.postback_id ≢ y.postback_id) xs × Apart xs

pub record IsLinked (d : Tables) : Type 0 where
  pub settled :
      All (λ x. state_of x.postback_id d.postbacks ≡ some PostbackState.processed) d.conversions
  pub apart : Apart d.conversions

abbrev pub settle_at :
    ℕ → PostbackState → Option Text → List ProviderPostback → List ProviderPostback
settle_at i st detail = update_first (λ p. i == p.id) (settle_postback st detail)

pub state_of-settle :
    (i : ℕ) (st : PostbackState) (detail : Option Text) (p : ProviderPostback)
    (ps : List ProviderPostback)
    → find_postback i ps ≡ some p
    → state_of i (settle_at i st detail ps) ≡ some st
unfolding state_of find_postback settle_postback
state_of-settle i st detail p ps e =
    let at_i = find_first-passes (λ q. i == q.id) p ps e in
    let found = find_first-update_first (λ q. i == q.id) (settle_postback st detail) p ps e at_i in
    ap state_in found

pub settle-state_of :
    (i : ℕ) (st old : PostbackState) (detail : Option Text) (ps : List ProviderPostback)
    → state_of i ps ≡ some old
    → state_of i (settle_at i st detail ps) ≡ some st
unfolding state_of
settle-state_of i st old detail ps e = elim (Option-cases (find_postback i ps)) [
  | inl missing ↦ let none_there = rw (missing, state_of) at e in cc
  | inr (p, found) ↦ state_of-settle i st detail p ps found
]

pub state_of-settle_other :
    (i j : ℕ) (st : PostbackState) (detail : Option Text) (ps : List ProviderPostback)
    → j ≢ i
    → state_of j (settle_at i st detail ps) ≡ state_of j ps
unfolding state_of find_postback settle_postback
state_of-settle_other i j st detail ps ne = ap state_in (
    find_first-update_first_ne (λ q. j == q.id) (λ q. i == q.id) (settle_postback st detail) ps
      (λ x here. (ground arith, ground arith)))

-- A postback that is settled leaves those of the conversions as they were, unless it is one of them.
pub settled-settle :
    (i : ℕ) (st : PostbackState) (detail : Option Text) (ps : List ProviderPostback)
    (cs : List Conversion)
    → state_of i ps ≡ some PostbackState.received
    → All (λ x. state_of x.postback_id ps ≡ some PostbackState.processed) cs
    → All
        (λ x.
          (x.postback_id ≢ i)
          × (state_of x.postback_id (settle_at i st detail ps) ≡ some PostbackState.processed))
        cs
settled-settle i st detail ps [] e h = tt
settled-settle i st detail ps (x ∷ xs) e h =
    let ne : x.postback_id ≢ i = λ same. let clash = rw same at (h.0) in cc in
    (
      (ne, state_of-settle_other i x.postback_id st detail ps ne ∙ h.0),
      settled-settle i st detail ps xs e h.1,
    )

pub clashes-apart :
    (x : Conversion) (cs : List Conversion)
    → any (clashes x) cs ≡ false
    → All (λ y. x.postback_id ≢ y.postback_id) cs
unfolding clashes
clashes-apart x [] h = tt
clashes-apart x (y ∷ ys) h =
    (λ same. let hit = rw same at h in ground arith, clashes-apart x ys (ground arith))

pub marked-All :
    (P : Conversion → Type 0) (o : Option Conversion) (cs : List Conversion)
    → ((x : Conversion) → P x → P (set_status reversed x))
    → All P cs
    → All P (marked o cs)
marked-All P none cs keep h = h
marked-All P (some x) cs keep h =
    update_first-All P (λ y. x.id == y.id) (set_status reversed) cs (λ y _ p. keep y p) h

update-Apart :
    (test : Conversion → Bool) (cs : List Conversion)
    → Apart cs
    → Apart (update_first test (set_status reversed) cs)
unfolding update_first
update-Apart test [] h = tt
update-Apart test (x ∷ xs) h = elim (Bool-cases (test x)) [
  | inl here ↦ rw here h
  | inr later ↦ rw later (
    update_first-All (λ y. x.postback_id ≢ y.postback_id) test (set_status reversed) xs (λ y _ p. p)
        h.0,
    update-Apart test xs h.1,
  )
]

pub marked-Apart : (o : Option Conversion) (cs : List Conversion) → Apart cs → Apart (marked o cs)
marked-Apart none cs h = h
marked-Apart (some x) cs h = update-Apart (λ y. x.id == y.id) cs h
