-- ===== src/Rewards/Ascending.antt =====
-- Ascending lists of ids and their pages by cursor, for apps/api/src/jobs/reconciliation.processor.ts.
use gemone.Prelude.{
  ℕ, zero, suc, ◌≡◌, ◌≢◌, ◌≤◌, ◌<◌, inl, inr, refl, ap, Bool, true, false, Option, none, some, List,
  [], ◌∷◌, ◌++◌, take, drop, filter_by, length, All, All-weaken, arith, ltb, leb, Bool-cases,
  some-inj,
}
use gemone.Rewards.Reconciliation.{insert_id, sort_ids, is_after, last_of}

abbrev pub IsAscending : List ℕ → Type 0
IsAscending [] = Unit
IsAscending (i ∷ is) = All (λ j. i < j) is × IsAscending is

abbrev pub AreDistinct : List ℕ → Type 0
AreDistinct [] = Unit
AreDistinct (i ∷ is) = All (λ j. i ≢ j) is × AreDistinct is

below : (i j : ℕ) → leb i j ≡ true → i ≢ j → i < j
below i j h ne = ground arith

not_below : (i j : ℕ) → leb i j ≡ false → j < i
not_below i j h = ground arith

All-insert_id : (P : ℕ → Type 0) (i : ℕ) (is : List ℕ) → P i → All P is → All P (insert_id i is)
unfolding insert_id
All-insert_id P i [] p h = (p, tt)
All-insert_id P i (j ∷ js) p h = elim (Bool-cases (leb i j)) [
  | inl first ↦ rw first (p, h)
  | inr later ↦ rw later (h.0, All-insert_id P i js p h.1)
]

All-sort_ids : (P : ℕ → Type 0) (is : List ℕ) → All P is → All P (sort_ids is)
unfolding sort_ids
All-sort_ids P [] h = tt
All-sort_ids P (i ∷ is) h = All-insert_id P i (sort_ids is) h.0 (All-sort_ids P is h.1)

insert_id-IsAscending :
    (i : ℕ) (is : List ℕ) → All (λ j. i ≢ j) is → IsAscending is → IsAscending (insert_id i is)
unfolding insert_id
insert_id-IsAscending i [] ne h = (tt, tt)
insert_id-IsAscending i (j ∷ js) ne h = elim (Bool-cases (leb i j)) [
  | inl first ↦
      let less : i < j = below i j first ne.0 in
      rw first ((less, All-weaken (λ k. j < k) (λ k. i < k) js (λ k g. omega arith) h.0), h)
  | inr later ↦ rw later (
    All-insert_id (λ k. j < k) i js (not_below i j later) h.0,
    insert_id-IsAscending i js ne.1 h.1,
  )
]

pub sort_ids-IsAscending : (is : List ℕ) → AreDistinct is → IsAscending (sort_ids is)
unfolding sort_ids
sort_ids-IsAscending [] h = tt
sort_ids-IsAscending (i ∷ is) h =
    insert_id-IsAscending i (sort_ids is) (All-sort_ids (λ j. i ≢ j) is h.0)
      (sort_ids-IsAscending is h.1)

All-filter : (P : ℕ → Type 0) (test : ℕ → Bool) (is : List ℕ) → All P is → All P (filter_by test is)
All-filter P test [] h = tt
All-filter P test (i ∷ is) h = elim (Bool-cases (test i)) [
  | inl kept ↦ rw kept (h.0, All-filter P test is h.1)
  | inr left ↦ rw left (All-filter P test is h.1)
]

pub filtered : (test : ℕ → Bool) (is : List ℕ) → All (λ i. test i ≡ true) (filter_by test is)
filtered test [] = tt
filtered test (i ∷ is) = elim (Bool-cases (test i)) [
  | inl kept ↦ rw kept (kept, filtered test is)
  | inr left ↦ rw left (filtered test is)
]

pub filter-All :
    (test : ℕ → Bool) (is : List ℕ) → All (λ i. test i ≡ true) is → filter_by test is ≡ is
filter-All test [] h = refl
filter-All test (i ∷ is) h = rw (h.0) (ap (λ js. i ∷ js) (filter-All test is h.1))

pub filter-IsAscending :
    (test : ℕ → Bool) (is : List ℕ) → IsAscending is → IsAscending (filter_by test is)
filter-IsAscending test [] h = tt
filter-IsAscending test (i ∷ is) h = elim (Bool-cases (test i)) [
  | inl kept ↦ rw kept (All-filter (λ j. i < j) test is h.0, filter-IsAscending test is h.1)
  | inr left ↦ rw left (filter-IsAscending test is h.1)
]

pub last_of-All : (P : ℕ → Type 0) (z : ℕ) (is : List ℕ) → All P is → last_of is ≡ some z → P z
last_of-All P z [] h e = cc
last_of-All P z (i ∷ []) h e = rw (← some-inj i z e) h.0
last_of-All P z (i ∷ j ∷ is) h e = last_of-All P z (j ∷ is) h.1 e

pub All-take : (P : ℕ → Type 0) (n : ℕ) (is : List ℕ) → All P is → All P (take n is)
All-take P zero is h = tt
All-take P (suc n) [] h = tt
All-take P (suc n) (i ∷ is) h = (h.0, All-take P n is h.1)

less : (i j : ℕ) → i < j → ltb i j ≡ true
less i j h = ground arith

not_less : (i j : ℕ) → i ≤ j → ltb j i ≡ false
not_less i j h = ground arith

-- Past the last of the first `n`, an ascending list goes on with the others.
pub filter_past :
    (n z : ℕ) (is : List ℕ)
    → IsAscending is
    → last_of (take n is) ≡ some z
    → filter_by (is_after (some z)) is ≡ drop n is
filter_past zero z is h e = cc
filter_past (suc n) z [] h e = cc
filter_past (suc zero) z (i ∷ is) h e =
    let same = some-inj i z e in
    rw (not_less i z (omega arith)) (
      filter-All (is_after (some z)) is
        (All-weaken (λ j. i < j) (λ j. ltb z j ≡ true) is (λ j g. less z j (omega arith)) h.0))
filter_past (suc (suc n)) z (i ∷ []) h e =
    let same = some-inj i z e in rw (not_less i z (omega arith)) refl
filter_past (suc (suc n)) z (i ∷ j ∷ is) h e =
    let above =
      last_of-All (λ k. i < k) z (take (suc n) (j ∷ is))
        (All-take (λ k. i < k) (suc n) (j ∷ is) h.0) e in
    rw (not_less i z (omega arith)) (filter_past (suc n) z (j ∷ is) h.1 e)

after_after : (a : Option ℕ) (z i : ℕ) → is_after a z ≡ true → ltb z i ≡ true → is_after a i ≡ true
after_after none z i h e = refl
after_after (some a) z i h e = ground arith

pub filter_twice :
    (a : Option ℕ) (z : ℕ) (is : List ℕ)
    → is_after a z ≡ true
    → filter_by (is_after (some z)) (filter_by (is_after a) is) ≡ filter_by (is_after (some z)) is
filter_twice a z [] h = refl
filter_twice a z (i ∷ is) h = elim (Bool-cases (ltb z i)) [
  | inl more ↦ rw (after_after a z i h more) (rw more (ap (λ js. i ∷ js) (filter_twice a z is h)))
  | inr less_z ↦ elim (Bool-cases (is_after a i)) [
    | inl kept ↦ rw kept (rw less_z (filter_twice a z is h))
    | inr left ↦ rw left (rw less_z (filter_twice a z is h))
  ]
]

pub take_short : (n : ℕ) (is : List ℕ) → length (take n is) < n → take n is ≡ is
take_short zero is h = absurd (omega arith)
take_short (suc n) [] h = refl
take_short (suc n) (i ∷ is) h = ap (λ js. i ∷ js) (take_short n is (omega arith))

pub take-drop : (n : ℕ) (is : List ℕ) → take n is ++ drop n is ≡ is
take-drop zero is = refl
take-drop (suc n) [] = refl
take-drop (suc n) (i ∷ is) = ap (λ js. i ∷ js) (take-drop n is)

pub append_nothing : (is : List ℕ) → is ++ [] ≡ is
append_nothing [] = refl
append_nothing (i ∷ is) = ap (λ js. i ∷ js) (append_nothing is)

pub length-take : (n : ℕ) (is : List ℕ) → length (take n is) ≤ length is
length-take zero is = omega arith
length-take (suc n) [] = omega arith
length-take (suc n) (i ∷ is) = omega (arith, length-take n is)
