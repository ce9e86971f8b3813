-- ===== src/Prelude/Maps.antt =====
-- A JavaScript `Map` whose keys are strings, as a list of its entries: each key stands in it once, and
-- the order in which a `Map` lists its keys is not kept.
use mathlib.Core.Path.{◌≡◌, refl, ap}
use mathlib.Core.Logic.{inl, inr}
use mathlib.Core.Bool.{true, false}
use mathlib.Core.Option.{Option, none, some}
use mathlib.Core.List.{List, [], ◌∷◌}
use gemone.Prelude.Tests.{◌==◌, ==_iff, if◌then◌else◌, Bool-cases}
use gemone.Prelude.Lists.{Text, text_eq, text_eq_refl}

pub text_eq→eq : (t u : Text) → text_eq t u ≡ true → t ≡ u
text_eq→eq [] [] h = refl
text_eq→eq [] (d ∷ u) h = cc
text_eq→eq (c ∷ t) [] h = cc
text_eq→eq (c ∷ t) (d ∷ u) h = elim (Bool-cases (c == d)) [
  | inl same ↦ let head = (==_iff c d).0 same in let tail = text_eq→eq t u (rw same at h) in cc
  | inr apart ↦ let bad = rw apart at h in cc
]

module _ {A : Type 0} where
  -- `Map.get`, and `Map.has` as the result's being there
  unfoldable pub get_at : Text → List (Text × A) → Option A
  get_at key [] = none
  get_at key ((k, a) ∷ rest) = if text_eq key k then some a else get_at key rest

  -- `Map.delete`
  unfoldable pub delete_at : Text → List (Text × A) → List (Text × A)
  delete_at key [] = []
  delete_at key ((k, a) ∷ rest) =
      let others = delete_at key rest in if text_eq key k then others else (k, a) ∷ others

  -- `Map.set`
  unfoldable pub put_at : Text → A → List (Text × A) → List (Text × A)
  put_at key a entries = (key, a) ∷ delete_at key entries

  pub get_at-delete_at : (key : Text) (m : List (Text × A)) → get_at key (delete_at key m) ≡ none
  unfolding get_at delete_at
  get_at-delete_at key [] = refl
  get_at-delete_at key ((k, a) ∷ rest) = elim (Bool-cases (text_eq key k)) [
    | inl same ↦ rw same (get_at-delete_at key rest)
    | inr apart ↦ rw (apart, apart) (get_at-delete_at key rest)
  ]

  pub get_at-put_at :
      (key : Text) (a : A) (m : List (Text × A)) → get_at key (put_at key a m) ≡ some a
  unfolding get_at put_at
  get_at-put_at key a m = rw (text_eq_refl key) refl

  -- What one key does is not seen at another.
  pub get_at-delete_at_ne :
      (key other : Text) (m : List (Text × A))
      → text_eq key other ≡ false
      → get_at key (delete_at other m) ≡ get_at key m
  unfolding get_at delete_at
  get_at-delete_at_ne key other [] apart = refl
  get_at-delete_at_ne key other ((k, a) ∷ rest) apart = elim (Bool-cases (text_eq other k)) [
    | inl same ↦
        let here = text_eq→eq other k same in
        rw (same, ← here, apart) (get_at-delete_at_ne key other rest apart)
    | inr no_match ↦
        rw no_match
          (ap (λ r. if text_eq key k then some a else r) (get_at-delete_at_ne key other rest apart))
  ]

  pub get_at-put_at_ne :
      (key other : Text) (a : A) (m : List (Text × A))
      → text_eq key other ≡ false
      → get_at key (put_at other a m) ≡ get_at key m
  unfolding get_at put_at
  get_at-put_at_ne key other a m apart = rw apart (get_at-delete_at_ne key other m apart)
