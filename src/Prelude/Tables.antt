-- ===== src/Prelude/Tables.antt =====
-- A table as a list of rows, the newest in front: the row that a query on a unique column finds, and
-- the update of that row.
use mathlib.Core.Path.{◌≡◌, refl, ap}
use mathlib.Core.Logic.{inl, inr}
use mathlib.Core.Bool.{Bool, true, false}
use mathlib.Core.Option.{Option, none, some}
use mathlib.Core.List.{List, [], ◌∷◌}
use gemone.Prelude.Tests.{if◌then◌else◌, Bool-cases}
use gemone.Prelude.Lists.{All}

module _ {A : Type 0} where
  -- `findUnique` and `findFirst`
  unfoldable pub find_first : (A → Bool) → List A → Option A
  find_first test [] = none
  find_first test (x ∷ xs) = if test x then some x else find_first test xs

  -- `update` of the row that `find_first` finds.
  unfoldable pub update_first : (A → Bool) → (A → A) → List A → List A
  update_first test f [] = []
  update_first test f (x ∷ xs) = if test x then f x ∷ xs else x ∷ update_first test f xs

  pub some-inj : (x y : A) → some x ≡ some y → x ≡ y
  some-inj x y e = cc

  -- What a query finds passes its test, and whatever all rows have.
  pub find_first-passes :
      (test : A → Bool) (x : A) (xs : List A) → find_first test xs ≡ some x → test x ≡ true
  unfolding find_first
  find_first-passes test x [] e = cc
  find_first-passes test x (y ∷ ys) e = elim (Bool-cases (test y)) [
    | inl here ↦ rw (← some-inj y x (rw here at e)) here
    | inr later ↦ find_first-passes test x ys (rw later at e)
  ]

  pub find_first-All :
      (P : A → Type 0) (test : A → Bool) (x : A) (xs : List A)
      → find_first test xs ≡ some x
      → All P xs
      → P x
  unfolding find_first
  find_first-All P test x [] e h = cc
  find_first-All P test x (y ∷ ys) e h = elim (Bool-cases (test y)) [
    | inl here ↦ rw (← some-inj y x (rw here at e)) h.0
    | inr later ↦ find_first-All P test x ys (rw later at e) h.1
  ]

  -- The updated row is found in place of the old one, by a test that the update does not change.
  pub find_first-update_first :
      (test : A → Bool) (f : A → A) (x : A) (xs : List A)
      → find_first test xs ≡ some x
      → test (f x) ≡ true
      → find_first test (update_first test f xs) ≡ some (f x)
  unfolding find_first update_first
  find_first-update_first test f x [] e h = cc
  find_first-update_first test f x (y ∷ ys) e h = elim (Bool-cases (test y)) [
    | inl here ↦ let same = some-inj y x (rw here at e) in rw (here, same) (rw h)
    | inr later ↦ rw (later, later) (find_first-update_first test f x ys (rw later at e) h)
  ]

  -- An update that a query does not notice leaves its answer alone, when the query did not find the
  -- updated row and does not find it now.
  pub find_first-update_first_ne :
      (find test : A → Bool) (f : A → A) (xs : List A)
      → ((x : A) → test x ≡ true → (find x ≡ false) × (find (f x) ≡ false))
      → find_first find (update_first test f xs) ≡ find_first find xs
  unfolding find_first update_first
  find_first-update_first_ne find test f [] apart = refl
  find_first-update_first_ne find test f (y ∷ ys) apart = elim (Bool-cases (test y)) [
    | inl here ↦ let (before, now) = apart y here in rw (here, before, now) refl
    | inr later ↦
        rw later
          (ap (λ r. if find y then some y else r) (find_first-update_first_ne find test f ys apart))
  ]

  pub update_first-All :
      (P : A → Type 0) (test : A → Bool) (f : A → A) (xs : List A)
      → ((x : A) → test x ≡ true → P x → P (f x))
      → All P xs
      → All P (update_first test f xs)
  unfolding update_first
  update_first-All P test f [] keep h = tt
  update_first-All P test f (y ∷ ys) keep h = elim (Bool-cases (test y)) [
    | inl here ↦ rw here (keep y here h.0, h.1)
    | inr later ↦ rw later (h.0, update_first-All P test f ys keep h.1)
  ]

  pub All-weaken : (P Q : A → Type 0) (xs : List A) → ((x : A) → P x → Q x) → All P xs → All Q xs
  All-weaken P Q [] f h = tt
  All-weaken P Q (x ∷ xs) f h = (f x h.0, All-weaken P Q xs f h.1)
