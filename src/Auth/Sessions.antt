-- ===== src/Auth/Sessions.antt =====
-- apps/api/src/modules/auth/token.service.ts. The hash and the signature are arguments, and so are the
-- settings of the environment, the random values and the clock. The account of a token is there by the
-- foreign key, so the accounts are a function of their ids.
use gemone.Prelude.{
  ℕ, ◌+◌, ◌*◌, ◌==◌, leb, Bool, true, false, not, ◌&&◌, ◌||◌, Option, none, some, is_some, Text,
  text_eq, take, List, ◌∷◌, map, any, length, filter_by, if◌then◌else◌, Result, ok, err,
  unique_violation, auth_refresh_invalid, auth_account_inactive, find_first, update_first,
}
use gemone.Conversions.Pipeline.{UserStatus, active}
use gemone.Auth.Types.{
  UserRole, Account, RevocationReason, logout, rotated, reuse_detected, RefreshToken,
  SessionContext, IssuedSession,
}

pub record TokenServices : Type 0 where
  pub hash : Text → Text
  pub sign : ℕ → UserRole → Text
  pub access_ttl_seconds : ℕ
  pub refresh_ttl_days : ℕ
  pub account_of : ℕ → Account

-- What one call draws: the id of a new row, its random token, and the time.
pub record Drawn : Type 0 where
  pub id : ℕ
  pub token : Text
  pub now : ℕ

abbrev user_agent_of : SessionContext → Option Text
user_agent_of c = elim c.user_agent [ none ↦ none | some agent ↦ some (take 512 agent) ]

unfoldable pub new_token : TokenServices → Drawn → ℕ → ℕ → SessionContext → RefreshToken
new_token sv drawn user_id family_id c = record {
  id = drawn.id;
  user_id = user_id;
  family_id = family_id;
  token_hash = sv.hash drawn.token;
  issued_at = drawn.now;
  expires_at = drawn.now + sv.refresh_ttl_days * 86400000;
  used_at = none;
  revoked_at = none;
  revoked_reason = none;
  issued_ip = c.ip;
  issued_user_agent = user_agent_of c;
}

-- The primary key and the unique hash.
abbrev pub clashes_with : RefreshToken → RefreshToken → Bool
clashes_with t u = t.id == u.id || text_eq t.token_hash u.token_hash

unfoldable pub create_token : RefreshToken → List RefreshToken → Result (List RefreshToken)
create_token t ts = if any (clashes_with t) ts then err unique_violation else ok (t ∷ ts)

abbrev pub issued_session : TokenServices → Drawn → ℕ → UserRole → IssuedSession
issued_session sv drawn user_id role = record {
  access_token = sv.sign user_id role;
  expires_in = sv.access_ttl_seconds;
  refresh_token = drawn.token;
  refresh_expires_at = drawn.now + sv.refresh_ttl_days * 86400000;
}

unfoldable pub issue_in_family :
    TokenServices
    → Drawn
    → ℕ
    → UserRole
    → ℕ
    → SessionContext
    → List RefreshToken
    → Result (IssuedSession × List RefreshToken)
issue_in_family sv drawn user_id role family_id c ts =
    elim (create_token (new_token sv drawn user_id family_id c) ts) [
      | err x ↦ err x
      | ok ts' ↦ ok (issued_session sv drawn user_id role, ts')
    ]

-- A login opens a family of its own; `family_id` is the id that it draws for it.
abbrev pub issue_session :
    TokenServices
    → Drawn
    → ℕ
    → UserRole
    → ℕ
    → SessionContext
    → List RefreshToken
    → Result (IssuedSession × List RefreshToken)
issue_session sv drawn user_id role family_id c ts =
    issue_in_family sv drawn user_id role family_id c ts

abbrev pub is_unrevoked : RefreshToken → Bool
is_unrevoked t = not (is_some t.revoked_at)

abbrev pub revoke_token : ℕ → RevocationReason → RefreshToken → RefreshToken
revoke_token now reason t = record t { revoked_at = some now; revoked_reason = some reason }

-- `updateMany` of the unrevoked rows that a test picks.
unfoldable pub revoke_where :
    (RefreshToken → Bool) → ℕ → RevocationReason → List RefreshToken → List RefreshToken
revoke_where test now reason =
    map (λ t. if test t && is_unrevoked t then revoke_token now reason t else t)

abbrev pub in_family : ℕ → RefreshToken → Bool
in_family family_id t = t.family_id == family_id

abbrev pub of_user : ℕ → RefreshToken → Bool
of_user user_id t = t.user_id == user_id

abbrev pub revoke_family : ℕ → ℕ → RevocationReason → List RefreshToken → List RefreshToken
revoke_family family_id = revoke_where (in_family family_id)

-- With the number of rows that it revoked.
unfoldable pub revoke_all_for_user :
    ℕ → ℕ → RevocationReason → List RefreshToken → ℕ × List RefreshToken
revoke_all_for_user user_id now reason ts = (
  length (filter_by (λ t. of_user user_id t && is_unrevoked t) ts),
  revoke_where (of_user user_id) now reason ts,
)

abbrev pub has_hash : Text → RefreshToken → Bool
has_hash h t = text_eq t.token_hash h

unfoldable pub find_token : Text → List RefreshToken → Option RefreshToken
find_token h = find_first (has_hash h)

unfoldable pub revoke_by_token : TokenServices → ℕ → Text → List RefreshToken → List RefreshToken
revoke_by_token sv now token ts = elim (find_token (sv.hash token) ts) [
  | none ↦ ts
  | some stored ↦
      if is_some stored.revoked_at then ts else revoke_family stored.family_id now logout ts
]

abbrev pub is_active_status : UserStatus → Bool
is_active_status active = true
is_active_status _ = false

-- `rotate` up to its transaction: the token that may be rotated, or the refusal, with the rows as
-- the refusal leaves them.
unfoldable pub check_stored :
    TokenServices → ℕ → RefreshToken → List RefreshToken → Result RefreshToken × List RefreshToken
check_stored sv now stored ts =
    if is_some stored.used_at
    then (err auth_refresh_invalid, revoke_family stored.family_id now reuse_detected ts)
    else if is_some stored.revoked_at || leb stored.expires_at now
    then (err auth_refresh_invalid, ts)
    else if is_active_status (sv.account_of stored.user_id).status
    then (ok stored, ts)
    else (err auth_account_inactive, (revoke_all_for_user stored.user_id now reuse_detected ts).1)

unfoldable pub rotate_check :
    TokenServices → ℕ → Text → List RefreshToken → Result RefreshToken × List RefreshToken
rotate_check sv now token ts = elim (find_token (sv.hash token) ts) [
  | none ↦ (err auth_refresh_invalid, ts)
  | some stored ↦ check_stored sv now stored ts
]

abbrev pub spend : ℕ → RefreshToken → RefreshToken
spend now t = record t { used_at = some now; revoked_at = some now; revoked_reason = some rotated }

-- The transaction of `rotate`.
unfoldable pub rotate_write :
    TokenServices
    → Drawn
    → SessionContext
    → RefreshToken
    → List RefreshToken
    → Result (IssuedSession × List RefreshToken)
rotate_write sv drawn c stored ts =
    issue_in_family sv drawn stored.user_id (sv.account_of stored.user_id).role stored.family_id c
      (update_first (λ t. t.id == stored.id) (spend drawn.now) ts)

-- What a rolled back transaction leaves.
abbrev pub or_unchanged :
    ℕ
    → List RefreshToken
    → Result (IssuedSession × List RefreshToken)
    → Result (ℕ × IssuedSession) × List RefreshToken
or_unchanged user_id ts (err x) = (err x, ts)
or_unchanged user_id ts (ok (session, ts')) = (ok (user_id, session), ts')

abbrev pub rotate_if :
    TokenServices
    → Drawn
    → SessionContext
    → Result RefreshToken × List RefreshToken
    → Result (ℕ × IssuedSession) × List RefreshToken
rotate_if sv drawn c (err x, ts) = (err x, ts)
rotate_if sv drawn c (ok stored, ts) =
    or_unchanged stored.user_id ts (rotate_write sv drawn c stored ts)

unfoldable pub rotate :
    TokenServices
    → Drawn
    → Text
    → SessionContext
    → List RefreshToken
    → Result (ℕ × IssuedSession) × List RefreshToken
rotate sv drawn token c ts = rotate_if sv drawn c (rotate_check sv drawn.now token ts)

-- Two rotations of one token that check before either writes.
unfoldable pub interleaved_rotates :
    TokenServices
    → Drawn
    → Drawn
    → Text
    → SessionContext
    → List RefreshToken
    → Result (ℕ × IssuedSession) × Result (ℕ × IssuedSession) × List RefreshToken
interleaved_rotates sv first second token c ts =
    let (checked, _) = rotate_check sv first.now token ts in
    let (checked', _) = rotate_check sv second.now token ts in
    let (answer, ts') = rotate_if sv first c (checked, ts) in
    let (answer', ts'') = rotate_if sv second c (checked', ts') in (answer, answer', ts'')
