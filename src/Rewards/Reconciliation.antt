-- ===== src/Rewards/Reconciliation.antt =====
-- apps/api/src/jobs/reconciliation.processor.ts, `sweep`, and `findUsersToReconcile` of
-- reward-accounting.service.ts: every balance is checked against its history, a page at a time. A user's
-- id is a number, so that ids have an order.
use gemone.Prelude.{
  ℕ, zero, suc, ◌+◌, Bool, true, false, ◌||◌, Option, none, some, List, [], ◌∷◌, ◌++◌, map, take,
  filter_by, length, ◌==◌, ltb, leb, if◌then◌else◌,
}
use gemone.Rewards.Store.{Ledger}
use gemone.Rewards.Reads.{reconcile}

abbrev pub reconciliation_batch_size : ℕ
reconciliation_batch_size = 200

-- `orderBy: { userId: 'asc' }`
unfoldable pub insert_id : ℕ → List ℕ → List ℕ
insert_id i [] = i ∷ []
insert_id i (j ∷ js) = let rest = insert_id i js in if leb i j then i ∷ j ∷ js else j ∷ rest

unfoldable pub sort_ids : List ℕ → List ℕ
sort_ids [] = []
sort_ids (i ∷ is) = insert_id i (sort_ids is)

abbrev pub users_of : Ledger → List ℕ
users_of l = map (λ b. b.user_id) l.balances

-- `after === null ? {} : { userId: { gt: after } }`
abbrev pub is_after : Option ℕ → ℕ → Bool
is_after none u = true
is_after (some a) u = ltb a u

unfoldable pub find_users_to_reconcile : Option ℕ → ℕ → Ledger → List ℕ
find_users_to_reconcile after limit l =
    take limit (filter_by (is_after after) (sort_ids (users_of l)))

-- `userIds.at(-1) ?? null`
abbrev pub last_of : List ℕ → Option ℕ
last_of [] = none
last_of (u ∷ []) = some u
last_of (u ∷ v ∷ us) = last_of (v ∷ us)

pub record Counts : Type 0 where
  pub checked : ℕ
  pub drifted : ℕ
  pub failed : ℕ

abbrev count_report : Bool → Bool → Counts → Counts
count_report true balanced n = record n { failed = n.failed + 1 }
count_report false true n = record n { checked = n.checked + 1 }
count_report false false n = record n { checked = n.checked + 1; drifted = n.drifted + 1 }

-- The loop over a page; `fails` says of which users the read throws.
unfoldable pub check_each : (ℕ → Bool) → List ℕ → Ledger → Counts
check_each fails [] l = record { checked = 0; drifted = 0; failed = 0 }
check_each fails (u ∷ us) l =
    let rest = check_each fails us l in count_report (fails u) (reconcile u l).balanced rest

abbrev pub is_cursor : Option ℕ → Option ℕ → Bool
is_cursor none after = true
is_cursor (some u) none = false
is_cursor (some u) (some a) = u == a

-- Whether this page is the last one.
abbrev pub is_complete : Option ℕ → List ℕ → Bool
is_complete after users =
    ltb (length users) reconciliation_batch_size || is_cursor (last_of users) after

-- The page of a job, and the cursor of the job that it adds to the queue.
pub record Page : Type 0 where
  pub users : List ℕ
  pub counts : Counts
  pub complete : Bool
  pub next : Option ℕ

unfoldable pub reconcile_page : (ℕ → Bool) → Option ℕ → Ledger → Page
reconcile_page fails after l =
    let users = find_users_to_reconcile after reconciliation_batch_size l in
    let complete = is_complete after users in
    record {
      users = users;
      counts = check_each fails users l;
      complete = complete;
      next = if complete then none else last_of users;
    }

-- The jobs that follow one another, with at most so many of them.
unfoldable pub reconcile_pages : ℕ → (ℕ → Bool) → Option ℕ → Ledger → List Page
reconcile_pages zero fails after l = []
reconcile_pages (suc fuel) fails after l =
    let page = reconcile_page fails after l in
    let rest = reconcile_pages fuel fails page.next l in
    if page.complete then page ∷ [] else page ∷ rest

abbrev pub visited : List Page → List ℕ
visited [] = []
visited (p ∷ ps) = p.users ++ visited ps
