-- ===== src/Auth/Rotation.antt =====
-- The ways in which `rotate` ends (apps/api/src/modules/auth/token.service.ts).
use gemone.Prelude.{
  ℕ, ◌≡◌, inl, inr, Bool, true, false, not, ◌&&◌, ◌||◌, ◌==◌, some, is_some, Text, List, ◌∷◌, any,
  All, leb, arith, Bool-cases, Option-cases, Result-cases, Result, AppError, ok, err, update_first,
}
use gemone.Auth.Types.{UserRole, reuse_detected, RefreshToken, SessionContext, IssuedSession}
use gemone.Auth.Sessions.{
  TokenServices, Drawn, new_token, clashes_with, create_token, issued_session, issue_in_family,
  revoke_all_for_user, find_token, is_active_status, check_stored, rotate_check, spend,
  rotate_write, or_unchanged, rotate_if, rotate,
}
use gemone.Auth.Rows.{
  is_live, AreLater, AreLater-refl, update_first-AreLater, revoke_where-AreLater, IsDead,
  create_token-ok,
}
use gemone.Auth.Linear.{IsLinear, IsLinear-AreLater, joins, spent-IsDead}

module _ (sv : TokenServices) where
  -- A refused rotation only revokes; one that is let through presents a live row.
  pub data Checked (h : Text) (ts : List RefreshToken)
      : Result RefreshToken × List RefreshToken → Type 0 where
    refused : (x : AppError) (us : List RefreshToken) → AreLater us ts → Checked h ts (err x, us)
    allowed :
        (s : RefreshToken) → find_token h ts ≡ some s → is_live s ≡ true → Checked h ts (ok s, ts)

  check_stored-Checked :
      (h : Text) (now : ℕ) (s : RefreshToken) (ts : List RefreshToken)
      → find_token h ts ≡ some s
      → Checked h ts (check_stored sv now s ts)
  unfolding check_stored revoke_all_for_user
  check_stored-Checked h now s ts found = elim (Bool-cases (is_some s.used_at)) [
    | inl used ↦
        rw (used, check_stored) (refused _ _ (revoke_where-AreLater _ now reuse_detected ts))
    | inr fresh ↦ elim (Bool-cases (is_some s.revoked_at || leb s.expires_at now)) [
      | inl over ↦ rw (fresh, check_stored) (rw over (refused _ _ (AreLater-refl ts)))
      | inr valid ↦ elim (Bool-cases (is_active_status (sv.account_of s.user_id).status)) [
        | inl active_account ↦
            rw (fresh, check_stored)
              (rw valid (rw active_account (allowed s found (unspent _ _ _ fresh valid))))
        | inr inactive ↦
            rw (fresh, check_stored)
              (rw valid (rw inactive (refused _ _ (revoke_where-AreLater _ now reuse_detected ts))))
      ]
    ]
  ]
    where
      unspent : (a b c : Bool) → a ≡ false → b || c ≡ false → not a && not b ≡ true
      unspent a b c h k = ground arith

  pub rotate_check-Checked :
      (now : ℕ) (token : Text) (ts : List RefreshToken)
      → Checked (sv.hash token) ts (rotate_check sv now token ts)
  unfolding rotate_check
  rotate_check-Checked now token ts = elim (Option-cases (find_token (sv.hash token) ts)) [
    | inl unknown ↦ rw (unknown, rotate_check) (refused _ _ (AreLater-refl ts))
    | inr (s, found) ↦
        rw (found, rotate_check) (check_stored-Checked (sv.hash token) now s ts found)
  ]

  pub issue-ok :
      (drawn : Drawn) (user_id : ℕ) (role : UserRole) (family_id : ℕ) (c : SessionContext)
      (ts ts' : List RefreshToken) (session : IssuedSession)
      → issue_in_family sv drawn user_id role family_id c ts ≡ ok (session, ts')
      → (ts' ≡ new_token sv drawn user_id family_id c ∷ ts)
        × (any (clashes_with (new_token sv drawn user_id family_id c)) ts ≡ false)
        × (session ≡ issued_session sv drawn user_id role)
  unfolding issue_in_family
  issue-ok drawn user_id role family_id c ts ts' session h =
      let t = new_token sv drawn user_id family_id c in
      elim (Result-cases (create_token t ts)) [
        | inl (x, clash) ↦ let bad = rw (clash, issue_in_family) at h in cc
        | inr (rows, made) ↦
            let (is_rows, free) = create_token-ok t ts rows made in
            let same = rw (made, issue_in_family) at h in (cc, free, cc)
      ]

  pub issue-IsLinear :
      (drawn : Drawn) (user_id : ℕ) (role : UserRole) (family_id : ℕ) (c : SessionContext)
      (ts ts' : List RefreshToken) (session : IssuedSession)
      → All (IsDead family_id) ts
      → issue_in_family sv drawn user_id role family_id c ts ≡ ok (session, ts')
      → IsLinear ts
      → IsLinear ts'
  unfolding new_token
  issue-IsLinear drawn user_id role family_id c ts ts' session dead h linear =
      let (is_ts', free, _) = issue-ok drawn user_id role family_id c ts ts' session h in
      rw is_ts' (joins (new_token sv drawn user_id family_id c) ts free dead, linear)

  -- What a rotation leaves: what the check left, or the spent row and a new one of its family.
  pub data Rotated (drawn : Drawn) (token : Text) (c : SessionContext) (ts : List RefreshToken)
      : Result (ℕ × IssuedSession) × List RefreshToken → Type 0 where
    not_rotated :
        (x : AppError) (us : List RefreshToken)
        → AreLater us ts
        → Rotated drawn token c ts (err x, us)
    was_rotated :
        (s : RefreshToken) (session : IssuedSession) (us : List RefreshToken)
        → find_token (sv.hash token) ts ≡ some s
        → is_live s ≡ true
        → rotate_write sv drawn c s ts ≡ ok (session, us)
        → Rotated drawn token c ts (ok (s.user_id, session), us)

  pub rotate-Rotated :
      (drawn : Drawn) (token : Text) (c : SessionContext) (ts : List RefreshToken)
      → Rotated drawn token c ts (rotate sv drawn token c ts)
  unfolding rotate
  rotate-Rotated drawn token c ts =
      go (rotate_check sv drawn.now token ts) (rotate_check-Checked drawn.now token ts)
    where
      go :
          (r : Result RefreshToken × List RefreshToken)
          → Checked (sv.hash token) ts r
          → Rotated drawn token c ts (rotate_if sv drawn c r)
      go _ (refused x us later) = not_rotated x us later
      go _ (allowed s found live) = elim (Result-cases (rotate_write sv drawn c s ts)) [
        | inl (x, clash) ↦ rw (clash, or_unchanged) (not_rotated x ts (AreLater-refl ts))
        | inr ((session, us), wrote) ↦
            rw (wrote, or_unchanged) (was_rotated s session us found live wrote)
      ]

  pub Rotated-IsLinear :
      (drawn : Drawn) (token : Text) (c : SessionContext) (ts : List RefreshToken)
      (r : Result (ℕ × IssuedSession) × List RefreshToken)
      → Rotated drawn token c ts r
      → IsLinear ts
      → IsLinear r.1
  unfolding rotate_write
  Rotated-IsLinear drawn token c ts _ (not_rotated x us later) linear =
      IsLinear-AreLater us ts later linear
  Rotated-IsLinear drawn token c ts _ (was_rotated s session us found live wrote) linear =
      let spent = update_first (λ t. t.id == s.id) (spend drawn.now) ts in
      issue-IsLinear drawn s.user_id (sv.account_of s.user_id).role s.family_id c spent us session
        (spent-IsDead drawn.now (sv.hash token) s ts found live linear) wrote
        (IsLinear-AreLater spent ts (update_first-AreLater (λ t. t.id == s.id) drawn.now ts) linear)
