-- ===== src/Postbacks/Lifecycle.antt =====
-- The transitions of an archived postback that processing drives
-- (apps/api/src/modules/conversions/postback-intake.service.ts).
use gemone.Prelude.{ℕ, ◌+◌, Option, none, some, Text, List, ◌==◌, take, update_first, find_first}
use gemone.Postbacks.Types.{ProviderPostback, PostbackState, processed, quarantined, failed}

unfoldable pub find_postback : ℕ → List ProviderPostback → Option ProviderPostback
find_postback i = find_first (λ p. i == p.id)

unfoldable pub settle_postback : PostbackState → Option Text → ProviderPostback → ProviderPostback
settle_postback state detail p = record p {
  state = state;
  processing_attempts = p.processing_attempts + 1;
  error_detail = detail;
}

unfoldable pub mark_processed : ℕ → List ProviderPostback → List ProviderPostback
mark_processed i = update_first (λ p. i == p.id) (settle_postback processed none)

unfoldable pub mark_quarantined : ℕ → Text → List ProviderPostback → List ProviderPostback
mark_quarantined i reason =
    update_first (λ p. i == p.id) (settle_postback quarantined (some reason))

unfoldable pub mark_failed : ℕ → Text → List ProviderPostback → List ProviderPostback
mark_failed i detail =
    update_first (λ p. i == p.id) (settle_postback failed (some (take 500 detail)))
