-- ===== src/Clicks/Tests.antt =====
-- The signer at one token.
use gemone.Prelude.{◌≡◌, ◌↔◌, true, Text, codes}
use gemone.Clicks.SubId.{is_part, issue, verify, verify-issue}

abbrev sign : Text → Text
sign token = codes "sig"

verify-issue_example : verify sign (codes "abc.sig") ≡ true ↔ (
    (token : Text) × (is_part token ≡ true)
    × (is_part (sign token) ≡ true)
    × (codes "abc.sig" ≡ issue sign token))
verify-issue_example = verify-issue sign (codes "abc.sig")
