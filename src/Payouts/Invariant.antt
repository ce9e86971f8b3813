-- ===== src/Payouts/Invariant.antt =====
-- The invariant that payouts.service.ts states: a request that is not in a terminal status has
-- exactly one live lock, and one that is has had its lock resolved.
use gemone.Prelude.{
  ℕ, ◌≡◌, ◌≢◌, sym, ◌∙◌, true, false, none, some, List, [], ◌∷◌, All, pos, ==_refl, is_some, arith,
  Bool-cases, inl, inr,
}
use gemone.Rewards.Types.{RewardTransaction, Movement, UserBalance, same_type, payout_lock}
use gemone.Rewards.Store.{Ledger, find_transaction, find_acting, row_of}
use gemone.Rewards.Operations.{is_resolution}
use gemone.Rewards.Machine.{Step, written}
use gemone.Rewards.History.{Step-Extends, find-Extends, find_transaction-id}
use gemone.Rewards.Sound.{IsSound, Step-IsSound, Step-open}
use gemone.Rewards.Once.{acting-written, written-Extends}
use gemone.Payouts.StateMachine.{is_terminal}
use gemone.Payouts.Service.{PayoutRequest, Db}

-- The lock behind a request: a row for its user and its points, resolved if and only if the status
-- is terminal.
pub record Backed (l : Ledger) (p : PayoutRequest) : Type 0 where
  pub row : RewardTransaction
  pub found : find_transaction p.lock_transaction_id l.transactions ≡ some row
  pub is_lock : same_type row.kind payout_lock ≡ true
  pub owner : row.user_id ≡ p.user_id
  pub points : row.locked_delta ≡ pos p.amount_points
  pub resolved : is_some (find_acting row.id is_resolution l.transactions) ≡ is_terminal p.status

-- No two requests share a lock.
abbrev pub Separate : List PayoutRequest → Type 0
Separate [] = Unit
Separate (p ∷ ps) = All (λ q. p.lock_transaction_id ≢ q.lock_transaction_id) ps × Separate ps

pub record IsValid (d : Db) : Type 0 where
  pub sound : IsSound d.ledger
  pub backed : All (Backed d.ledger) d.payouts
  pub separate : Separate d.payouts

-- Requests stay backed across a step of the ledger that resolves no lock.
Backed-Step : {l l' : Ledger} {p : PayoutRequest} → Step false l l' → Backed l p → Backed l' p
Backed-Step {l} {l'} {p} st b = record {
  row = b.row;
  found = find-Extends p.lock_transaction_id b.row (Step-Extends st) b.found;
  is_lock = b.is_lock;
  owner = b.owner;
  points = b.points;
  resolved = Step-open b.row.id st ∙ b.resolved;
}

pub All-Backed-Step :
    {l l' : Ledger} (ps : List PayoutRequest)
    → Step false l l'
    → All (Backed l) ps
    → All (Backed l') ps
All-Backed-Step [] st h = tt
All-Backed-Step (p ∷ ps) st h = (Backed-Step st h.0, All-Backed-Step ps st h.1)

pub IsValid-Step :
    {l' : Ledger} (d : Db) → Step false d.ledger l' → IsValid d → IsValid (record d { ledger = l' })
IsValid-Step d st v = record {
  sound = Step-IsSound st v.sound;
  backed = All-Backed-Step d.payouts st v.backed;
  separate = v.separate;
}

-- A lock row that was just written, which nothing acts on yet.
pub fresh-Backed :
    (l : Ledger) (i : ℕ) (m : Movement) (b : UserBalance) (p : PayoutRequest)
    → IsSound l
    → find_transaction i l.transactions ≡ none
    → m.source_transaction_id ≡ none
    → same_type m.kind payout_lock ≡ true
    → m.user_id ≡ p.user_id
    → m.locked_delta ≡ pos p.amount_points
    → p.lock_transaction_id ≡ i
    → is_terminal p.status ≡ false
    → Backed (written i m b l) p
unfolding written row_of find_transaction find_acting
fresh-Backed l i m b p s fresh src kind owner points same live = record {
  row = row_of i m;
  found = rw (same, ==_refl i);
  is_lock = kind;
  owner = owner;
  points = points;
  resolved = elim (Bool-cases (is_some (find_acting i is_resolution l.transactions))) [
    | inl acted ↦ let exists = s.sourced i is_resolution acted in cc
    | inr free ↦ rw src (free ∙ sym live)
  ];
}

-- The key of a new lock differs from those of the locks that back requests.
pub fresh-Separate :
    (l : Ledger) (i : ℕ) (ps : List PayoutRequest)
    → find_transaction i l.transactions ≡ none
    → All (Backed l) ps
    → All (λ q. i ≢ q.lock_transaction_id) ps
fresh-Separate l i [] fresh h = tt
fresh-Separate l i (p ∷ ps) fresh (b, bs) =
    (λ same. let clash = rw same at fresh in cc (b.found), fresh-Separate l i ps fresh bs)

acting-other :
    (l : Ledger) (i j : ℕ) (m : Movement) (b : UserBalance) (k : RewardTransaction)
    → m.source_transaction_id ≡ some k.id
    → j ≢ k.id
    → is_some (find_acting j is_resolution (written i m b l).transactions)
      ≡ is_some (find_acting j is_resolution l.transactions)
unfolding written row_of find_acting
acting-other l i j m b k src ne = rw src (ground arith)

-- A resolution of one request's lock leaves the others backed as they were.
pub other-Backed :
    (l : Ledger) (i : ℕ) (m : Movement) (b : UserBalance) (k : RewardTransaction)
    (p : PayoutRequest)
    → find_transaction i l.transactions ≡ none
    → m.source_transaction_id ≡ some k.id
    → p.lock_transaction_id ≢ k.id
    → Backed l p
    → Backed (written i m b l) p
other-Backed l i m b k p fresh src ne h = record {
  row = h.row;
  found = find-Extends p.lock_transaction_id h.row (written-Extends l i m b fresh) h.found;
  is_lock = h.is_lock;
  owner = h.owner;
  points = h.points;
  resolved =
      acting-other l i h.row.id m b k src
        (λ e. ne (sym (find_transaction-id p.lock_transaction_id h.row l.transactions h.found) ∙ e))
      ∙ h.resolved;
}

-- The request whose lock is resolved is backed with a terminal status.
pub resolved-Backed :
    (l : Ledger) (i : ℕ) (m : Movement) (b : UserBalance) (p q : PayoutRequest) (h : Backed l p)
    → find_transaction i l.transactions ≡ none
    → m.source_transaction_id ≡ some h.row.id
    → is_resolution m.kind ≡ true
    → q.lock_transaction_id ≡ p.lock_transaction_id
    → q.user_id ≡ p.user_id
    → q.amount_points ≡ p.amount_points
    → is_terminal q.status ≡ true
    → Backed (written i m b l) q
resolved-Backed l i m b p q h fresh src res same user amount ended = record {
  row = h.row;
  found =
      rw same (find-Extends p.lock_transaction_id h.row (written-Extends l i m b fresh) h.found);
  is_lock = h.is_lock;
  owner = rw user h.owner;
  points = rw amount h.points;
  resolved = acting-written l i h.row.id m b is_resolution src res ∙ sym ended;
}
