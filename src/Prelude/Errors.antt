-- ===== src/Prelude/Errors.antt =====
-- Errors as values (apps/api/src/core/errors/app-error.ts, packages/contracts/src/errors.ts), and the
-- state-and-error monad of a database transaction: a throw carries no state, since it rolls back.

use mathlib.Core.Path.{◌≡◌, refl}
use mathlib.Core.Logic.{◌⊎◌, inl, inr}
use mathlib.Core.Bool.{Bool, true, false}
use mathlib.Core.Option.{Option, none, some}

-- The codes of the errors that the modelled code throws. `validation_error` is `ValidationError`,
-- and `unique_violation` is the database's refusal of a duplicate key (Prisma's P2002). A failure of
-- the infrastructure is `unavailable`.
pub data AppError : Type 0 where
  validation_error unique_violation unavailable user_not_found : AppError
  reward_transaction_not_found reward_invalid_operation reward_insufficient_balance : AppError
  config_unknown_key config_invalid_scope config_invalid_value config_already_registered : AppError
  auth_refresh_invalid auth_account_inactive rate_limited : AppError
  payout_not_found payout_invalid_transition payout_method_unsupported : AppError
  payout_amount_out_of_range payout_destination_invalid payout_daily_limit_reached : AppError
  click_sub_id_invalid click_not_found click_attribution_expired : AppError
  conversion_not_found fraud_conversion_not_held : AppError
  provider_not_found provider_disabled provider_unknown_slug : AppError
  postback_source_not_allowed postback_signature_invalid postback_payload_invalid : AppError

pub data Result {ℓ} (A : Type ℓ) : Type ℓ where
  ok : A → Result A
  err : AppError → Result A

abbrev pub Tx : Type 0 → Type 0 → Type 0
Tx S A = S → Result (A × S)

infixl 5 ◌>>=◌ ◌>>◌
abbrev pub ◌>>=◌ : {S A B : Type 0} → Tx S A → (A → Tx S B) → Tx S B
◌>>=◌ m f s = elim (m s) [ ok (a, s') ↦ f a s' | err e ↦ err e ]

abbrev pub ◌>>◌ : {S B : Type 0} → Tx S (Unit {0}) → Tx S B → Tx S B
m >> k = m >>= λ _. k

abbrev pub pure : {S A : Type 0} → A → Tx S A
pure a s = ok (a, s)

abbrev pub gets : {S A : Type 0} → (S → A) → Tx S A
gets f s = ok (f s, s)

abbrev pub lift : {S A : Type 0} → Result A → Tx S A
lift (ok a) s = ok (a, s)
lift (err e) s = err e

-- `if (test) throw error`
abbrev pub refuse_if : {S : Type 0} → Bool → AppError → Tx S (Unit {0})
refuse_if true e s = err e
refuse_if false e s = ok (tt, s)

-- `if (!found) throw error`
abbrev pub require : {A : Type 0} → Option A → AppError → Result A
require none e = err e
require (some a) e = ok a

pub Result-cases {ℓ} :
    {A : Type ℓ} (r : Result A) → ((e : AppError) × (r ≡ err e)) ⊎ ((a : A) × (r ≡ ok a))
Result-cases (ok a) = inr (a, refl)
Result-cases (err e) = inl (e, refl)

-- A sequence that returned returned at both steps.
pub bind-ok :
    {S A B : Type 0} (m : Tx S A) (f : A → Tx S B) (s s'' : S) (b : B)
    → (m >>= f) s ≡ ok (b, s'')
    → (a : A) × (s' : S) × (m s ≡ ok (a, s')) × (f a s' ≡ ok (b, s''))
bind-ok m f s s'' b h = elim (Result-cases (m s)) [
  | inl (e, refused) ↦ let bad = rw (refused, ◌>>=◌) at h in cc
  | inr ((a, s'), done) ↦ (a, s', done, rw (done, ◌>>=◌) at h)
]

pub bind-err :
    {S A B : Type 0} (m : Tx S A) (f : A → Tx S B) (s : S) (e : AppError)
    → m s ≡ err e
    → (m >>= f) s ≡ err e
bind-err m f s e h = rw (h, ◌>>=◌) refl

pub bind_step :
    {S A B : Type 0} (m : Tx S A) (f : A → Tx S B) (s s' : S) (a : A)
    → m s ≡ ok (a, s')
    → (m >>= f) s ≡ f a s'
bind_step m f s s' a h = rw (h, ◌>>=◌) refl
