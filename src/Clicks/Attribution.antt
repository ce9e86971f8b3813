-- ===== src/Clicks/Attribution.antt =====
-- `resolveSubId` and `isExpired` of apps/api/src/modules/clicks/clicks.service.ts. The signer's
-- `verify` is an argument.
use gemone.Prelude.{
  ℕ, Bool, Option, none, some, Text, text_eq, List, leb, if◌then◌else◌, Result, ok, err, find_first,
  click_sub_id_invalid, click_not_found, click_attribution_expired,
}
use gemone.Conversions.Types.{Click}

unfoldable pub is_expired : ℕ → Click → Bool
is_expired now click = leb click.attribution_expires_at now

unfoldable pub find_by_sub_id : Text → List Click → Option Click
find_by_sub_id sub_id = find_first (λ c. text_eq sub_id c.sub_id)

unfoldable pub resolve_sub_id : (Text → Bool) → ℕ → Text → List Click → Result Click
resolve_sub_id verify now sub_id clicks =
    if verify sub_id
    then elim (find_by_sub_id sub_id clicks) [
      | none ↦ err click_not_found
      | some click ↦ if is_expired now click then err click_attribution_expired else ok click
    ]
    else err click_sub_id_invalid
