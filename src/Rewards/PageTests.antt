-- ===== src/Rewards/PageTests.antt =====
-- The pages of the reconciliation job over two balances.
use gemone.Prelude.{ℕ, ◌≡◌, ◌==◌, refl, Bool, true, none, [], ◌∷◌, length, arith, ◌<◌}
use gemone.Rewards.Store.{Ledger}
use gemone.Rewards.Operations.{new_balance}
use gemone.Rewards.Reconciliation.{insert_id, sort_ids, users_of, reconcile_pages, visited}
use gemone.Rewards.Ascending.{AreDistinct}
use gemone.Rewards.Visited.{ends, reconcile_pages_lem}

abbrev two_users : Ledger
two_users = record { balances = new_balance 1 7 ∷ new_balance 2 3 ∷ []; transactions = [] }

-- The read of user 7 throws.
abbrev fails : ℕ → Bool
fails u = u == 7

sorted : sort_ids (users_of two_users) ≡ 3 ∷ 7 ∷ []
unfolding sort_ids insert_id new_balance
sorted = refl

distinct : AreDistinct (users_of two_users)
unfolding new_balance
distinct = ((λ e. omega arith, tt), (tt, tt))

few : length (sort_ids (users_of two_users)) < 3
few = rw sorted (omega arith)

reconcile_pages_lem_example :
    (visited (reconcile_pages 3 fails none two_users) ≡ sort_ids (users_of two_users))
    × (ends (reconcile_pages 3 fails none two_users) ≡ true)
reconcile_pages_lem_example = reconcile_pages_lem 3 fails two_users distinct few
