-- ===== src/Payouts/Service/Tables.antt =====
-- The rows, inputs and tables of apps/api/src/modules/payouts/payouts.service.ts, with the resolved
-- configuration of payouts.config.ts and the queries.
use gemone.Prelude.{
  ℕ, ◌+◌, ◌*◌, ◌/◌, ◌&&◌, Option, none, some, List, [], ◌∷◌, Text, ◌==◌, leb, if◌then◌else◌,
  is_some, ok, err, unique_violation, Tx, filter_by, length,
}
use gemone.Rewards.Types.{Number}
use gemone.Rewards.Store.{Ledger}
use gemone.Payouts.StateMachine.{PayoutStatus}

pub record PayoutRequest : Type 0 where
  pub id : ℕ
  pub user_id : ℕ
  pub status : PayoutStatus
  pub amount_points : ℕ
  pub cash_amount_minor : ℕ
  pub cash_currency : Text
  pub points_per_currency_unit : ℕ
  pub method : Text
  pub destination : Text
  pub lock_transaction_id : ℕ
  pub reviewed_by_admin_id : Option ℕ
  pub reviewed_at : Option ℕ
  pub review_reason : Option Text
  pub external_reference : Option Text
  pub settled_at : Option ℕ
  pub created_at : ℕ

-- The tables that a withdrawal touches.
pub record Db : Type 0 where
  pub ledger : Ledger
  pub payouts : List PayoutRequest

-- What `configuration.get` returns for the keys of payouts.config.ts.
pub record PayoutsConfig : Type 0 where
  pub minimum_points : ℕ
  pub maximum_points : ℕ
  pub enabled_methods : List Text
  pub points_per_currency_unit : ℕ
  pub currency : Text
  pub max_requests_per_day : ℕ

pub record SubmitPayoutInput : Type 0 where
  pub user_id : ℕ
  pub amount_points : Number
  pub method : Text
  pub destination : Text

pub record ReviewInput : Type 0 where
  pub admin_id : ℕ
  pub reason : Option Text
  pub external_reference : Option Text

abbrev pub day_ms : ℕ
day_ms = 86_400_000

-- Points to minor units of money, rounded down.
unfoldable pub to_cash_minor : ℕ → ℕ → ℕ
to_cash_minor amount_points points_per_unit = amount_points * 100 / points_per_unit

-- An operation of `RewardAccountingService` inside the caller's transaction.
abbrev pub on_ledger : {A : Type 0} → Tx Ledger A → Tx Db A
on_ledger m d = elim (m d.ledger) [ ok (a, l) ↦ ok (a, record d { ledger = l }) | err e ↦ err e ]

unfoldable pub find_payout : ℕ → List PayoutRequest → Option PayoutRequest
find_payout i [] = none
find_payout i (p ∷ ps) = if i == p.id then some p else find_payout i ps

unfoldable pub update_payout :
    ℕ → (PayoutRequest → PayoutRequest) → List PayoutRequest → List PayoutRequest
update_payout i f [] = []
update_payout i f (p ∷ ps) = if i == p.id then f p ∷ ps else p ∷ update_payout i f ps

-- The requests of the last 24 hours.
unfoldable pub recent_requests : ℕ → ℕ → List PayoutRequest → ℕ
recent_requests u now ps =
    length (filter_by (λ p. u == p.user_id && leb now (p.created_at + day_ms)) ps)

-- `payoutRequest.create`
unfoldable pub create_payout : PayoutRequest → Tx Db PayoutRequest
create_payout p d =
    if is_some (find_payout p.id d.payouts)
    then err unique_violation
    else ok (p, record d { payouts = p ∷ d.payouts })

-- The ids that `uuidv7()` returns for the request and for its lock, and the time.
pub record SubmitContext : Type 0 where
  pub payout_id : ℕ
  pub lock_id : ℕ
  pub now : ℕ
