-- ===== src/Payouts/StateMachine.antt =====
-- apps/api/src/modules/payouts/internal/payout-state-machine.ts, with the statuses of
-- packages/contracts/src/payouts.ts.
use gemone.Prelude.{
  ℕ, ◌+◌, ◌≡◌, inl, inr, refl, Bool, true, false, ◌&&◌, ◌||◌, List, [], ◌∷◌, any, ◌==◌,
  if◌then◌else◌, arith, Bool-cases, Result, ok, err, payout_invalid_transition,
}

pub data PayoutStatus : Type 0 where
  pending_review approved paid rejected failed : PayoutStatus

abbrev pub status_tag : PayoutStatus → ℕ
status_tag pending_review = 0
status_tag approved = 1
status_tag paid = 2
status_tag rejected = 3
status_tag failed = 4

abbrev pub same_status : PayoutStatus → PayoutStatus → Bool
same_status a b = status_tag a == status_tag b

-- `PAYOUT_TRANSITIONS`
abbrev pub payout_transitions : PayoutStatus → List PayoutStatus
payout_transitions pending_review = approved ∷ rejected ∷ []
payout_transitions approved = paid ∷ failed ∷ []
payout_transitions paid = []
payout_transitions rejected = []
payout_transitions failed = []

pub data LockEffect : Type 0 where
  nothing settles releases : LockEffect

unfoldable pub lock_effect_of : PayoutStatus → PayoutStatus → LockEffect
lock_effect_of from to =
    if same_status from pending_review && same_status to approved
    then nothing
    else if same_status to paid
    then settles
    else if same_status to rejected || same_status to failed
    then releases
    else nothing

unfoldable pub can_transition : PayoutStatus → PayoutStatus → Bool
can_transition from to = any (same_status to) (payout_transitions from)

abbrev pub is_empty : List PayoutStatus → Bool
is_empty [] = true
is_empty (s ∷ ss) = false

unfoldable pub is_terminal : PayoutStatus → Bool
is_terminal s = is_empty (payout_transitions s)

unfoldable pub assert_transition : PayoutStatus → PayoutStatus → Result (Unit {0})
unfolding can_transition
assert_transition from to = if can_transition from to then ok tt else err payout_invalid_transition

-- The statuses that a request goes through, each transition permitted.
pub data History : PayoutStatus → PayoutStatus → Type 0 where
  here : {s : PayoutStatus} → History s s
  step :
      (s t : PayoutStatus) {u : PayoutStatus}
      → can_transition s t ≡ true
      → History t u
      → History s u

abbrev pub resolves_once : LockEffect → ℕ
resolves_once nothing = 0
resolves_once settles = 1
resolves_once releases = 1

-- How often a history settles or releases the lock.
unfoldable pub resolutions : {s u : PayoutStatus} → History s u → ℕ
resolutions here = 0
resolutions (step s t h p) = resolves_once (lock_effect_of s t) + resolutions p

abbrev pub as_number : Bool → ℕ
as_number true = 1
as_number false = 0

pub edge-resolves :
    (s t : PayoutStatus)
    → can_transition s t ≡ true
    → (is_terminal s ≡ false) × (resolves_once (lock_effect_of s t) ≡ as_number (is_terminal t))
unfolding can_transition lock_effect_of is_terminal
edge-resolves s t h = ground arith

-- Nothing follows a terminal status.
terminal-History :
    {s u : PayoutStatus} (p : History s u)
    → is_terminal s ≡ true
    → (resolutions p ≡ 0) × (is_terminal u ≡ true)
unfolding resolutions
terminal-History here h = (refl, h)
terminal-History (step s t e p) h = let (live, r) = edge-resolves s t e in cc

-- From `PENDING_REVIEW` or `APPROVED`, every permitted history settles or releases the lock exactly
-- once if it ends in a terminal status, and never if it does not.
pub resolutions-terminal :
    {s u : PayoutStatus} (p : History s u)
    → is_terminal s ≡ false
    → resolutions p ≡ as_number (is_terminal u)
unfolding resolutions
resolutions-terminal here h = rw h
resolutions-terminal (step s t {u} e p) h =
    let (live, r) = edge-resolves s t e in
    elim (Bool-cases (is_terminal t)) [
      | inl ended ↦
          let (nothing_more, last) = terminal-History p ended in
          rw (r, ended, nothing_more, last) (omega arith)
      | inr going ↦ rw (r, going) (omega (arith, resolutions-terminal p going))
    ]
