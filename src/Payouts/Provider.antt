-- ===== src/Payouts/Provider.antt =====
-- The payout provider: the interface of apps/api/src/modules/payouts/contracts/payout-provider.ts and
-- its one implementation, providers/manual-payout.provider.ts.
use gemone.Prelude.{ℕ, Bool, true, Option, none, some, [], ◌∷◌, Text}
use gemone.Payouts.Destination.{TextClasses, trim}

pub record PayoutExecutionRequest : Type 0 where
  pub payout_id : ℕ
  pub user_id : ℕ
  pub amount_minor : ℕ
  pub currency : Text
  pub method : Text
  pub destination : Text
  pub external_reference : Option Text

-- `{ settled: true; externalReference }` or `{ settled: false; reason }`, its reason left out.
pub data PayoutExecutionResult : Type 0 where
  settled : Text → PayoutExecutionResult
  not_settled : PayoutExecutionResult

pub record PayoutProvider : Type 0 where
  pub supports : Text → Bool
  pub execute : PayoutExecutionRequest → PayoutExecutionResult

-- `value?.trim() ?? ''`
abbrev pub trimmed : TextClasses → Option Text → Text
trimmed u none = []
trimmed u (some s) = trim u.is_space s

abbrev pub settle_if_given : Text → PayoutExecutionResult
settle_if_given [] = not_settled
settle_if_given (c ∷ s) = settled (c ∷ s)

unfoldable pub manual_provider : TextClasses → PayoutProvider
manual_provider u = record {
  supports = λ method. true;
  execute = λ request. settle_if_given (trimmed u request.external_reference);
}
