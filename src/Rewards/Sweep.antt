-- ===== src/Rewards/Sweep.antt =====
-- `findMaturable` of reward-accounting.service.ts, the work list of the maturation job.
use gemone.Prelude.{
  ℕ, zero, suc, ◌≡◌, ◌≤◌, ◌<◌, refl, ap, ◌∙◌, Bool, true, ◌⊎◌, inl, inr, List, [], ◌∷◌, All, map,
  take, filter_by, length, arith, Bool-cases,
}
use gemone.Rewards.Types.{RewardTransaction}
use gemone.Rewards.Store.{Ledger}
use gemone.Rewards.Reads.{is_due, insert_due, sort_due, due_before, find_maturable}

module _ (P : RewardTransaction → Type 0) where
  All-filter :
      (test : RewardTransaction → Bool) (ts : List RewardTransaction)
      → All P ts
      → All (λ t. P t × (test t ≡ true)) (filter_by test ts)
  All-filter test [] h = tt
  All-filter test (t ∷ ts) h = elim (Bool-cases (test t)) [
    | inl passes ↦ rw passes ((h.0, passes), All-filter test ts h.1)
    | inr fails ↦ rw fails (All-filter test ts h.1)
  ]

  All-insert_due :
      (t : RewardTransaction) (ts : List RewardTransaction)
      → P t
      → All P ts
      → All P (insert_due t ts)
  unfolding insert_due
  All-insert_due t [] p h = (p, tt)
  All-insert_due t (s ∷ ss) p h = elim (Bool-cases (due_before t s)) [
    | inl sooner ↦ rw sooner (p, h)
    | inr later ↦ rw later (h.0, All-insert_due t ss p h.1)
  ]

  All-sort_due : (ts : List RewardTransaction) → All P ts → All P (sort_due ts)
  unfolding sort_due
  All-sort_due [] h = tt
  All-sort_due (t ∷ ts) h = All-insert_due t (sort_due ts) h.0 (All-sort_due ts h.1)

  All-take : (n : ℕ) (ts : List RewardTransaction) → All P ts → All P (take n ts)
  All-take zero ts h = tt
  All-take (suc n) [] h = tt
  All-take (suc n) (t ∷ ts) h = (h.0, All-take n ts h.1)

  All-map_id :
      (ts : List RewardTransaction)
      → All P ts
      → All (λ i. (t : RewardTransaction) × P t × (t.id ≡ i)) (map (λ t. t.id) ts)
  All-map_id [] h = tt
  All-map_id (t ∷ ts) h = ((t, h.0, refl), All-map_id ts h.1)

abbrev pub In : {A : Type 0} → A → List A → Type 0
In x [] = ⊥
In x (y ∷ ys) = (y ≡ x) ⊎ In x ys

All-weaken :
    (P Q : RewardTransaction → Type 0) (ts : List RewardTransaction)
    → ((t : RewardTransaction) → P t → Q t)
    → All P ts
    → All Q ts
All-weaken P Q [] f h = tt
All-weaken P Q (t ∷ ts) f h = (f t h.0, All-weaken P Q ts f h.1)

All-In : (ts : List RewardTransaction) → All (λ t. In t ts) ts
All-In [] = tt
All-In (t ∷ ts) =
    (inl refl, All-weaken (λ s. In s ts) (λ s. In s (t ∷ ts)) ts (λ s h. inr h) (All-In ts))

In-filter :
    (test : RewardTransaction → Bool) (t : RewardTransaction) (ts : List RewardTransaction)
    → In t ts
    → test t ≡ true
    → In t (filter_by test ts)
In-filter test t [] h passes = absurd h
In-filter test t (s ∷ ss) (inl same) passes = rw (ap test same ∙ passes) (inl same)
In-filter test t (s ∷ ss) (inr h) passes = elim (Bool-cases (test s)) [
  | inl kept ↦ rw kept (inr (In-filter test t ss h passes))
  | inr left ↦ rw left (In-filter test t ss h passes)
]

In-insert_due :
    (s t : RewardTransaction) (ts : List RewardTransaction)
    → (t ≡ s) ⊎ In s ts
    → In s (insert_due t ts)
unfolding insert_due
In-insert_due s t [] h = h
In-insert_due s t (r ∷ rs) h = elim (Bool-cases (due_before t r)) [
  | inl sooner ↦ rw sooner h
  | inr later ↦ rw later (elim h [
    | inl same ↦ inr (In-insert_due s t rs (inl same))
    | inr (inl first) ↦ inl first
    | inr (inr rest) ↦ inr (In-insert_due s t rs (inr rest))
  ])
]

In-sort_due : (s : RewardTransaction) (ts : List RewardTransaction) → In s ts → In s (sort_due ts)
unfolding sort_due
In-sort_due s [] h = h
In-sort_due s (t ∷ ts) (inl same) = In-insert_due s t (sort_due ts) (inl same)
In-sort_due s (t ∷ ts) (inr h) = In-insert_due s t (sort_due ts) (inr (In-sort_due s ts h))

-- A page that is not full holds every row.
In-page :
    (n : ℕ) (s : RewardTransaction) (ts : List RewardTransaction)
    → length (map (λ t. t.id) (take n ts)) < n
    → In s ts
    → In s.id (map (λ t. t.id) (take n ts))
In-page zero s ts short h = omega arith
In-page (suc n) s [] short h = absurd h
In-page (suc n) s (t ∷ ts) short (inl same) = inl (ap (λ (x : RewardTransaction). x.id) same)
In-page (suc n) s (t ∷ ts) short (inr h) = inr (In-page n s ts (omega arith) h)

length-page :
    (n : ℕ) (ts : List RewardTransaction)
    → length (map (λ (t : RewardTransaction). t.id) (take n ts)) ≤ n
length-page zero ts = omega arith
length-page (suc n) [] = omega arith
length-page (suc n) (t ∷ ts) = omega (arith, length-page n ts)

-- The list has at most `limit` keys, each of a row that is in the history and due; and if it has
-- fewer, every due row's key is in it.
pub find_maturable_lem :
    (now limit : ℕ) (l : Ledger)
    → let ids = find_maturable now limit l in
      let due = is_due now l.transactions in
      (length ids ≤ limit)
      × All (λ i. (t : RewardTransaction) × (In t l.transactions × (due t ≡ true)) × (t.id ≡ i)) ids
      × (length ids < limit
          → (t : RewardTransaction) → In t l.transactions
          → due t ≡ true
          → In t.id ids)
unfolding find_maturable
find_maturable_lem now limit l =
    let ts = l.transactions in
    let due = is_due now ts in
    let P : RewardTransaction → Type 0 = λ t. In t ts × (due t ≡ true) in
    let found = filter_by due ts in
    (
      length-page limit (sort_due found),
      All-map_id P (take limit (sort_due found)) (
          All-take P limit (sort_due found)
            (All-sort_due P found (All-filter (λ t. In t ts) due ts (All-In ts)))),
      λ short t h passes.
          In-page limit t (sort_due found) short
            (In-sort_due t found (In-filter due t ts h passes)),
    )
