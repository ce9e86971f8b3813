-- ===== src/Payouts/Rows.antt =====
-- One row of `payout_requests` updated among others with different locks.
use gemone.Prelude.{
  arith, refl, ap, true, false, ==_iff, ℕ, ◌≡◌, ◌≢◌, sym, ◌∙◌, some, List, [], ◌∷◌, All, Bool-cases,
  inl, inr, ◌==◌,
}
use gemone.Payouts.Service.{PayoutRequest, find_payout, update_payout}
use gemone.Payouts.Invariant.{Separate}

some_inj : (p q : PayoutRequest) → some p ≡ some q → p ≡ q
some_inj p q e = cc

pub All-find :
    (R : PayoutRequest → Type 0) (i : ℕ) (p : PayoutRequest) (ps : List PayoutRequest)
    → find_payout i ps ≡ some p
    → All R ps
    → R p
unfolding find_payout
All-find R i p [] e h = cc
All-find R i p (q ∷ qs) e h = elim (Bool-cases (i == q.id)) [
  | inl here ↦ let same : q ≡ p = some_inj q p (rw here at e) in rw (← same) h.0
  | inr later ↦ All-find R i p qs (rw later at e) h.1
]

All-others :
    (P Q : PayoutRequest → Type 0) (p : PayoutRequest) (ps : List PayoutRequest)
    → ((q : PayoutRequest) → p.lock_transaction_id ≢ q.lock_transaction_id → P q → Q q)
    → All (λ q. p.lock_transaction_id ≢ q.lock_transaction_id) ps
    → All P ps
    → All Q ps
All-others P Q p [] f r h = tt
All-others P Q p (q ∷ qs) f r h = (f q r.0 h.0, All-others P Q p qs f r.1 h.1)

-- The row that was found is updated, and the others meet the new predicate as they are.
pub All-update :
    (P Q : PayoutRequest → Type 0) (i : ℕ) (f : PayoutRequest → PayoutRequest) (p : PayoutRequest)
    (ps : List PayoutRequest)
    → find_payout i ps ≡ some p
    → (P p → Q (f p))
    → ((q : PayoutRequest) → p.lock_transaction_id ≢ q.lock_transaction_id → P q → Q q)
    → Separate ps
    → All P ps
    → All Q (update_payout i f ps)
unfolding find_payout update_payout
All-update P Q i f p [] e here others s h = cc
All-update P Q i f p (q ∷ qs) e here others s h = elim (Bool-cases (i == q.id)) [
  | inl found ↦
      let same : q ≡ p = some_inj q p (rw found at e) in
      rw (found, same) (here (rw same at (h.0)), All-others P Q p qs others (rw same at (s.0)) h.1)
  | inr later ↦
      let e' = rw later at e in
      rw later (
        others q
            (λ same.
              All-find (λ x. q.lock_transaction_id ≢ x.lock_transaction_id) i p qs e' s.0
                (sym same))
            h.0,
        All-update P Q i f p qs e' here others s.1 h.1,
      )
]

update-apart :
    (lock_id i : ℕ) (f : PayoutRequest → PayoutRequest) (ps : List PayoutRequest)
    → ((q : PayoutRequest) → (f q).lock_transaction_id ≡ q.lock_transaction_id)
    → All (λ q. lock_id ≢ q.lock_transaction_id) ps
    → All (λ q. lock_id ≢ q.lock_transaction_id) (update_payout i f ps)
unfolding update_payout
update-apart n i f [] keep h = tt
update-apart n i f (q ∷ qs) keep h = elim (Bool-cases (i == q.id)) [
  | inl found ↦ rw found ((λ e. h.0 (e ∙ keep q)), h.1)
  | inr later ↦ rw later (h.0, update-apart n i f qs keep h.1)
]

pub update-Separate :
    (i : ℕ) (f : PayoutRequest → PayoutRequest) (ps : List PayoutRequest)
    → ((q : PayoutRequest) → (f q).lock_transaction_id ≡ q.lock_transaction_id)
    → Separate ps
    → Separate (update_payout i f ps)
unfolding update_payout
update-Separate i f [] keep h = tt
update-Separate i f (q ∷ qs) keep h = elim (Bool-cases (i == q.id)) [
  | inl found ↦ rw found (rw (keep q) (h.0), h.1)
  | inr later ↦
      rw later (update-apart q.lock_transaction_id i f qs keep h.0, update-Separate i f qs keep h.1)
]

pub find_payout-update :
    (i : ℕ) (f : PayoutRequest → PayoutRequest) (p : PayoutRequest) (ps : List PayoutRequest)
    → ((q : PayoutRequest) → (f q).id ≡ q.id)
    → find_payout i ps ≡ some p
    → find_payout i (update_payout i f ps) ≡ some (f p)
unfolding find_payout update_payout
find_payout-update i f p [] keep e = cc
find_payout-update i f p (q ∷ qs) keep e = elim (Bool-cases (i == q.id)) [
  | inl found ↦
      let same : q ≡ p = some_inj q p (rw found at e) in
      let key : (i == (f q).id) ≡ true = ap (λ x. i == x) (keep q) ∙ found in
      rw found (rw key (ap (λ x. some (f x)) same))
  | inr later ↦ rw later (rw later (find_payout-update i f p qs keep (rw later at e)))
]

pub find_payout-update_other :
    (i j : ℕ) (f : PayoutRequest → PayoutRequest) (ps : List PayoutRequest)
    → ((q : PayoutRequest) → (f q).id ≡ q.id)
    → i ≢ j
    → find_payout j (update_payout i f ps) ≡ find_payout j ps
unfolding find_payout update_payout
find_payout-update_other i j f [] keep apart = refl
find_payout-update_other i j f (q ∷ qs) keep apart = elim (Bool-cases (i == q.id)) [
  | inl found ↦
      let at_i : i ≡ q.id = (==_iff i q.id).0 found in
      let miss : (j == q.id) ≡ false = ground arith in
      let miss' : (j == (f q).id) ≡ false = ap (λ x. j == x) (keep q) ∙ miss in
      rw (found, miss, miss') refl
  | inr later ↦ rw later (rw (find_payout-update_other i j f qs keep apart) refl)
]
