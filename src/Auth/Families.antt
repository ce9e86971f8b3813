-- ===== src/Auth/Families.antt =====
-- The calls of apps/api/src/modules/auth/token.service.ts in one sequence: a family has at most one live token.
use gemone.Prelude.{
  ℕ, ◌≡◌, inl, inr, Bool, false, ◌&&◌, ◌||◌, ◌==◌, is_some, Text, List, [], ◌∷◌, any, All, arith,
  Bool-cases, Option-cases, ok,
}
use gemone.Auth.Types.{
  UserRole, RevocationReason, logout, RefreshToken, SessionContext, IssuedSession,
}
use gemone.Auth.Sessions.{
  TokenServices, Drawn, issue_session, revoke_all_for_user, of_user, in_family, find_token,
  revoke_by_token, rotate,
}
use gemone.Auth.Rows.{is_live, AreLater, AreLater-refl, revoke_where-AreLater, IsDead}
use gemone.Auth.Linear.{IsLinear, IsLinear-AreLater}
use gemone.Auth.Rotation.{rotate-Rotated, Rotated-IsLinear, issue-IsLinear}

module _ (sv : TokenServices) where
  -- The calls of the service. A session is opened in a family that no row has, since its id is new.
  pub data Step (ts : List RefreshToken) : List RefreshToken → Type 0 where
    opened :
        (drawn : Drawn) (user_id family_id : ℕ) (role : UserRole) (c : SessionContext)
        (session : IssuedSession) (us : List RefreshToken)
        → any (in_family family_id) ts ≡ false
        → issue_session sv drawn user_id role family_id c ts ≡ ok (session, us)
        → Step ts us
    refreshed :
        (drawn : Drawn) (token : Text) (c : SessionContext) → Step ts (rotate sv drawn token c ts).1
    signed_out : (now : ℕ) (token : Text) → Step ts (revoke_by_token sv now token ts)
    shut_out :
        (user_id now : ℕ) (reason : RevocationReason)
        → Step ts (revoke_all_for_user user_id now reason ts).1

  pub data Run (ts : List RefreshToken) : List RefreshToken → Type 0 where
    idle : Run ts ts
    onward : (us vs : List RefreshToken) → Run ts us → Step us vs → Run ts vs

  absent-IsDead :
      (family_id : ℕ) (ts : List RefreshToken)
      → any (in_family family_id) ts ≡ false
      → All (IsDead family_id) ts
  absent-IsDead family_id [] h = tt
  absent-IsDead family_id (t ∷ ts) h = (
    not_here (t.family_id == family_id) (is_live t) (any (in_family family_id) ts) h,
    absent-IsDead family_id ts
        (right_of (t.family_id == family_id) (any (in_family family_id) ts) h),
  )
    where
      not_here : (a m b : Bool) → a || b ≡ false → a && m ≡ false
      not_here a m b h = ground arith

      right_of : (a b : Bool) → a || b ≡ false → b ≡ false
      right_of a b h = ground arith

  pub revoke_by_token-AreLater :
      (now : ℕ) (token : Text) (ts : List RefreshToken)
      → AreLater (revoke_by_token sv now token ts) ts
  unfolding revoke_by_token
  revoke_by_token-AreLater now token ts = elim (Option-cases (find_token (sv.hash token) ts)) [
    | inl unknown ↦ rw (unknown, revoke_by_token) (AreLater-refl ts)
    | inr (s, found) ↦ elim (Bool-cases (is_some s.revoked_at)) [
      | inl over ↦ rw (found, revoke_by_token) (rw over (AreLater-refl ts))
      | inr valid ↦ rw (found, revoke_by_token) (rw valid (revoke_where-AreLater _ now logout ts))
    ]
  ]

  Step-IsLinear : (ts us : List RefreshToken) → Step ts us → IsLinear ts → IsLinear us
  unfolding revoke_all_for_user
  Step-IsLinear ts _ (opened drawn user_id family_id role c session us new h) linear =
      issue-IsLinear sv drawn user_id role family_id c ts us session
        (absent-IsDead family_id ts new) h linear
  Step-IsLinear ts _ (refreshed drawn token c) linear =
      Rotated-IsLinear sv drawn token c ts _ (rotate-Rotated sv drawn token c ts) linear
  Step-IsLinear ts _ (signed_out now token) linear =
      IsLinear-AreLater _ ts (revoke_by_token-AreLater now token ts) linear
  Step-IsLinear ts _ (shut_out user_id now reason) linear =
      IsLinear-AreLater _ ts (revoke_where-AreLater (of_user user_id) now reason ts) linear

  -- Whatever sessions are opened, each in a family of its own, refreshed, signed out of and shut out, one
  -- call after another: rows that have different ids, and of each family at most one that is neither used
  -- nor revoked, still do.
  pub Run-IsLinear : (ts us : List RefreshToken) → Run ts us → IsLinear ts → IsLinear us
  Run-IsLinear ts _ idle linear = linear
  Run-IsLinear ts _ (onward us vs run step) linear =
      Step-IsLinear us vs step (Run-IsLinear ts us run linear)
