-- ===== src/Rewards/Visited.antt =====
-- The pages of the reconciliation job together (apps/api/src/jobs/reconciliation.processor.ts).
use gemone.Prelude.{
  ℕ, zero, suc, ◌≡◌, ◌≤◌, ◌<◌, inl, inr, refl, sym, ap, ◌∙◌, Bool, true, false, ◌||◌, Option, none,
  some, List, [], ◌∷◌, ◌++◌, take, drop, filter_by, length, length-drop, All, arith, ltb,
  Bool-cases, Option-cases,
}
use gemone.Rewards.Store.{Ledger}
use gemone.Rewards.Reconciliation.{
  reconciliation_batch_size, sort_ids, users_of, is_after, find_users_to_reconcile, last_of,
  is_complete, is_cursor, Page, reconcile_page, reconcile_pages, visited,
}
use gemone.Rewards.Ascending.{
  IsAscending, AreDistinct, sort_ids-IsAscending, filtered, filter-All, filter-IsAscending,
  last_of-All, All-take, filter_past, filter_twice, take_short, take-drop, append_nothing,
  length-take,
}

-- Whether the last page says that it is.
abbrev pub ends : List Page → Bool
ends [] = false
ends (p ∷ []) = p.complete
ends (p ∷ q ∷ ps) = ends (q ∷ ps)

ends_cons : (p : Page) (ps : List Page) → ends ps ≡ true → ends (p ∷ ps) ≡ true
ends_cons p [] h = cc
ends_cons p (q ∷ ps) h = h

-- The users past a cursor, in order.
abbrev remaining : Option ℕ → Ledger → List ℕ
remaining after l = filter_by (is_after after) (sort_ids (users_of l))

short_page : (n : ℕ) (users : List ℕ) → ltb (length users) n ≡ true → length users < n
short_page n users h = ground arith

full_page : (n : ℕ) (users : List ℕ) → ltb (length users) n ≡ false → n ≤ length users
full_page n users h = ground arith

or_false : (a b : Bool) → (a || b) ≡ false → (a ≡ false) × (b ≡ false)
or_false false b h = (refl, h)
or_false true b h = cc

no_last : (users : List ℕ) → 0 < length users → last_of users ≡ none → ⊥
no_last [] h e = omega arith
no_last (u ∷ []) h e = cc
no_last (u ∷ v ∷ us) h e = no_last (v ∷ us) (omega arith) e

apart : (after : Option ℕ) (z : ℕ) → is_after after z ≡ true → is_cursor (some z) after ≡ false
apart none z h = refl
apart (some a) z h = ground arith

positive :
    (users : List ℕ) → ltb (length users) reconciliation_batch_size ≡ false → 0 < length users
positive users h = let enough = full_page reconciliation_batch_size users h in omega arith

-- A full page ends with a user that is past its cursor.
full_page-last_of :
    (after : Option ℕ) (users : List ℕ)
    → All (λ u. is_after after u ≡ true) users
    → 0 < length users
    → is_cursor (last_of users) after ≡ false
full_page-last_of after users h some_there = elim (Option-cases (last_of users)) [
  | inl nothing ↦ absurd (no_last users some_there nothing)
  | inr (z, e) ↦ rw e (apart after z (last_of-All (λ u. is_after after u ≡ true) z users h e))
]

-- A page that is complete holds all that remains.
complete_page :
    (after : Option ℕ) (l : Ledger)
    → is_complete after (take reconciliation_batch_size (remaining after l)) ≡ true
    → take reconciliation_batch_size (remaining after l) ≡ remaining after l
complete_page after l h =
    let users = take reconciliation_batch_size (remaining after l) in
    elim (Bool-cases (ltb (length users) reconciliation_batch_size)) [
      | inl short ↦
          take_short reconciliation_batch_size (remaining after l)
            (short_page reconciliation_batch_size users short)
      | inr full ↦
          let past =
            full_page-last_of after users
              (All-take (λ u. is_after after u ≡ true) reconciliation_batch_size (remaining after l)
                (filtered (is_after after) (sort_ids (users_of l))))
              (positive users full) in
          let clash = rw (full, past) at h in cc
    ]

abbrev page_users : Option ℕ → Ledger → List ℕ
page_users after l = take reconciliation_batch_size (remaining after l)

pages-last :
    (fuel : ℕ) (fails : ℕ → Bool) (after : Option ℕ) (l : Ledger)
    → is_complete after (page_users after l) ≡ true
    → reconcile_pages (suc fuel) fails after l ≡ reconcile_page fails after l ∷ []
unfolding reconcile_pages reconcile_page find_users_to_reconcile
pages-last fuel fails after l h = rw h refl

pages-more :
    (fuel : ℕ) (fails : ℕ → Bool) (after : Option ℕ) (l : Ledger) (z : ℕ)
    → is_complete after (page_users after l) ≡ false
    → last_of (page_users after l) ≡ some z
    → reconcile_pages (suc fuel) fails after l
      ≡ reconcile_page fails after l ∷ reconcile_pages fuel fails (some z) l
unfolding reconcile_pages reconcile_page find_users_to_reconcile
pages-more fuel fails after l z h e = rw (h, e) refl

last_some :
    (after : Option ℕ) (users : List ℕ)
    → is_cursor (last_of users) after ≡ false
    → (z : ℕ) × (last_of users ≡ some z)
last_some after users h = elim (Option-cases (last_of users)) [
  | inl nothing ↦ let bad = rw nothing at h in cc
  | inr found ↦ found
]

past_page :
    (after : Option ℕ) (l : Ledger) (z : ℕ)
    → IsAscending (sort_ids (users_of l))
    → last_of (page_users after l) ≡ some z
    → remaining (some z) l ≡ drop reconciliation_batch_size (remaining after l)
past_page after l z sorted e =
    let all = sort_ids (users_of l) in
    let past =
      last_of-All (λ u. is_after after u ≡ true) z (page_users after l)
        (All-take (λ u. is_after after u ≡ true) reconciliation_batch_size (remaining after l)
          (filtered (is_after after) all))
        e in
    sym (filter_twice after z all past)
    ∙ filter_past reconciliation_batch_size z (remaining after l)
        (filter-IsAscending (is_after after) all sorted) e

positive_take : (n : ℕ) (is : List ℕ) → 0 < length (take n is) → 0 < n
positive_take zero is h = h
positive_take (suc n) is h = omega arith

fewer :
    (n fuel : ℕ) (is js : List ℕ)
    → js ≡ drop n is
    → 0 < length (take n is)
    → length is < suc fuel
    → length js < fuel
fewer n fuel is js e some_there room =
    let count = ap length e ∙ length-drop n is in
    let taken = length-take n is in let whole = positive_take n is some_there in omega arith

All-true : (is : List ℕ) → All (λ i. true ≡ true) is
All-true [] = tt
All-true (i ∷ is) = (refl, All-true is)

pages_from :
    (fuel : ℕ) (fails : ℕ → Bool) (after : Option ℕ) (l : Ledger)
    → IsAscending (sort_ids (users_of l))
    → length (remaining after l) < fuel
    → (visited (reconcile_pages fuel fails after l) ≡ remaining after l)
      × (ends (reconcile_pages fuel fails after l) ≡ true)
unfolding reconcile_page find_users_to_reconcile
pages_from zero fails after l sorted room = absurd (omega arith)
pages_from (suc fuel) fails after l sorted room =
    elim (Bool-cases (is_complete after (page_users after l))) [
      | inl over ↦
          rw (pages-last fuel fails after l over)
            (append_nothing (page_users after l) ∙ complete_page after l over, over)
      | inr more ↦
          let (full, other) =
            or_false (ltb (length (page_users after l)) reconciliation_batch_size)
              (is_cursor (last_of (page_users after l)) after) more in
          let (z, e) = last_some after (page_users after l) other in
          let rest = past_page after l z sorted e in
          let shorter : length (remaining (some z) l) < fuel =
            fewer reconciliation_batch_size fuel (remaining after l) (remaining (some z) l) rest
              (positive (page_users after l) full) room in
          let (seen, done) = pages_from fuel fails (some z) l sorted shorter in
          rw (pages-more fuel fails after l z more e) (
            ap (λ us. page_users after l ++ us) (seen ∙ rest)
                ∙ take-drop reconciliation_batch_size (remaining after l),
            ends_cons (reconcile_page fails after l) (reconcile_pages fuel fails (some z) l) done,
          )
    ]

-- If no two balances belong to one user, the jobs that follow one another from the first page end, after
-- at most one more than there are balances, and together they visit every user that has a balance
-- exactly once, in the order of the ids, whichever reads fail.
pub reconcile_pages_lem :
    (fuel : ℕ) (fails : ℕ → Bool) (l : Ledger)
    → AreDistinct (users_of l)
    → length (sort_ids (users_of l)) < fuel
    → (visited (reconcile_pages fuel fails none l) ≡ sort_ids (users_of l))
      × (ends (reconcile_pages fuel fails none l) ≡ true)
reconcile_pages_lem fuel fails l distinct room =
    let all = sort_ids (users_of l) in
    let same : remaining none l ≡ all = filter-All (is_after none) all (All-true all) in
    let (seen, done) =
      pages_from fuel fails none l (sort_ids-IsAscending (users_of l) distinct) (rw same room) in
    (seen ∙ same, done)
