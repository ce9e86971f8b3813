-- ===== src/Auth/Reuse.antt =====
-- What presenting a refresh token twice does, one after the other: it ends the family
-- (apps/api/src/modules/auth/token.service.ts, `rotate`).
use gemone.Prelude.{
  ℕ, ◌≡◌, refl, inl, inr, Bool, true, false, ◌||◌, ◌==◌, ==_refl, some, some-inj, Text,
  text_eq_refl, text_eq→eq, find_first-All, List, [], ◌∷◌, any, All, arith, Bool-cases, Result, ok,
  err, update_first, find_first, find_first-passes, auth_refresh_invalid,
}
use gemone.Auth.Types.{reuse_detected, RefreshToken, SessionContext, IssuedSession}
use gemone.Auth.Sessions.{
  TokenServices, Drawn, clashes_with, revoke_all_for_user, of_user, has_hash, find_token,
  check_stored, rotate_check, spend, rotate_write, rotate,
}
use gemone.Auth.Rows.{
  IsSpent, IsSpent-AreLater, update_first-AreLater, revoke_where-AreLater, IsDead,
  revoke_where-IsDead,
}
use gemone.Auth.Linear.{IsApart, IsLinear}
use gemone.Auth.Rotation.{Rotated, not_rotated, was_rotated, rotate-Rotated, issue-ok}
use gemone.Auth.Families.{
  Step, opened, refreshed, signed_out, shut_out, Run, idle, onward, revoke_by_token-AreLater,
}

none_clash :
    (t : RefreshToken) (ts : List RefreshToken)
    → any (clashes_with t) ts ≡ false
    → All (λ u. clashes_with t u ≡ false) ts
none_clash t [] h = tt
none_clash t (u ∷ us) h = (left_of _ _ h, none_clash t us (right_of _ _ h))
  where
    left_of : (a b : Bool) → a || b ≡ false → a ≡ false
    left_of a b h = ground arith

    right_of : (a b : Bool) → a || b ≡ false → b ≡ false
    right_of a b h = ground arith

-- By ids that differ the row that is found is the row that is spent.
find_token-spent :
    (now : ℕ) (h : Text) (s : RefreshToken) (ts : List RefreshToken)
    → find_token h ts ≡ some s
    → IsLinear ts
    → find_token h (update_first (λ t. t.id == s.id) (spend now) ts) ≡ some (spend now s)
unfolding find_token find_first update_first
find_token-spent now h s [] found linear = cc
find_token-spent now h s (t ∷ ts) found linear = elim (Bool-cases (has_hash h t)) [
  | inl here ↦
      let same = some-inj t s (rw here at found) in rw (← same, ==_refl t.id) (rw here refl)
  | inr other ↦
      let found' = rw other at found in
      let apart = find_first-All (IsApart t) (has_hash h) s ts found' linear.0 in
      rw (apart.0) (rw other (find_token-spent now h s ts found' linear.1))
]

always : (a : Bool) → a || true ≡ false → ⊥
always a h = ground arith

-- A row with another hash is not the one that is found.
IsSpent-created :
    (h : Text) (f : ℕ) (t : RefreshToken) (ts : List RefreshToken)
    → any (clashes_with t) ts ≡ false
    → IsSpent h f ts
    → IsSpent h f (t ∷ ts)
unfolding find_token find_first
IsSpent-created h f t ts free (s, found, used, family) = elim (Bool-cases (has_hash h t)) [
  | inr other ↦ (s, rw other found, used, family)
  | inl same ↦
      let apart =
        find_first-All (λ u. clashes_with t u ≡ false) (has_hash h) s ts found
          (none_clash t ts free) in
      let mine = text_eq→eq t.token_hash h same in
      let yours = text_eq→eq s.token_hash h (find_first-passes (has_hash h) s ts found) in
      let bad = rw (mine, yours, text_eq_refl h) at apart in elim (always (t.id == s.id) bad) [ ]
]

module _ (sv : TokenServices) where
  Rotated-IsSpent :
      (drawn : Drawn) (token : Text) (c : SessionContext) (h : Text) (f : ℕ)
      (ts : List RefreshToken) (r : Result (ℕ × IssuedSession) × List RefreshToken)
      → Rotated sv drawn token c ts r
      → IsSpent h f ts
      → IsSpent h f r.1
  unfolding rotate_write
  Rotated-IsSpent drawn token c h f ts _ (not_rotated x us later) spent =
      IsSpent-AreLater h f us ts later spent
  Rotated-IsSpent drawn token c h f ts _ (was_rotated s session us found live wrote) spent =
      let rows = update_first (λ t. t.id == s.id) (spend drawn.now) ts in
      let (is_us, free, _) =
        issue-ok sv drawn s.user_id (sv.account_of s.user_id).role s.family_id c rows us session
          wrote in
      rw is_us (
        IsSpent-created h f _ rows free
          (IsSpent-AreLater h f rows ts (update_first-AreLater _ drawn.now ts) spent))

  Step-IsSpent :
      (h : Text) (f : ℕ) (ts us : List RefreshToken)
      → Step sv ts us
      → IsSpent h f ts
      → IsSpent h f us
  unfolding revoke_all_for_user
  Step-IsSpent h f ts _ (opened drawn user_id family_id role c session us new made) spent =
      let (is_us, free, _) = issue-ok sv drawn user_id role family_id c ts us session made in
      rw is_us (IsSpent-created h f _ ts free spent)
  Step-IsSpent h f ts _ (refreshed drawn token c) spent =
      Rotated-IsSpent drawn token c h f ts _ (rotate-Rotated sv drawn token c ts) spent
  Step-IsSpent h f ts _ (signed_out now token) spent =
      IsSpent-AreLater h f _ ts (revoke_by_token-AreLater sv now token ts) spent
  Step-IsSpent h f ts _ (shut_out user_id now reason) spent =
      IsSpent-AreLater h f _ ts (revoke_where-AreLater (of_user user_id) now reason ts) spent

  Run-IsSpent :
      (h : Text) (f : ℕ) (ts us : List RefreshToken)
      → Run sv ts us
      → IsSpent h f ts
      → IsSpent h f us
  Run-IsSpent h f ts _ idle spent = spent
  Run-IsSpent h f ts _ (onward us vs run step) spent =
      Step-IsSpent h f us vs step (Run-IsSpent h f ts us run spent)

  -- A spent token is refused, and none of its family is live after.
  rotate-IsSpent :
      (drawn : Drawn) (token : Text) (c : SessionContext) (f : ℕ) (ts : List RefreshToken)
      → IsSpent (sv.hash token) f ts
      → ((rotate sv drawn token c ts).0 ≡ err auth_refresh_invalid)
        × All (IsDead f) (rotate sv drawn token c ts).1
  unfolding rotate rotate_check check_stored
  rotate-IsSpent drawn token c f ts (s, found, used, family) =
      rw (found, rotate_check)
        (rw (used, check_stored)
          (refl, rw (← family) (revoke_where-IsDead s.family_id drawn.now reuse_detected ts)))

  written-IsSpent :
      (drawn : Drawn) (token : Text) (c : SessionContext) (session : IssuedSession)
      (ts us : List RefreshToken) (s : RefreshToken)
      → IsLinear ts
      → find_token (sv.hash token) ts ≡ some s
      → rotate_write sv drawn c s ts ≡ ok (session, us)
      → IsSpent (sv.hash token) s.family_id us
  unfolding rotate_write find_token
  written-IsSpent drawn token c session ts us s linear found wrote =
      let rows = update_first (λ t. t.id == s.id) (spend drawn.now) ts in
      let (is_us, free, _) =
        issue-ok sv drawn s.user_id (sv.account_of s.user_id).role s.family_id c rows us session
          wrote in
      rw is_us (
        IsSpent-created (sv.hash token) s.family_id _ rows free (
          spend drawn.now s,
          find_token-spent drawn.now (sv.hash token) s ts found linear,
          refl,
          refl,
        ))

  rotated-IsSpent :
      (drawn : Drawn) (token : Text) (c : SessionContext) (user_id : ℕ) (session : IssuedSession)
      (ts us : List RefreshToken) (s : RefreshToken)
      → IsLinear ts
      → find_token (sv.hash token) ts ≡ some s
      → rotate sv drawn token c ts ≡ (ok (user_id, session), us)
      → IsSpent (sv.hash token) s.family_id us
  rotated-IsSpent drawn token c user_id session ts us s linear found h =
      go (rotate sv drawn token c ts) (rotate-Rotated sv drawn token c ts) h
    where
      go :
          (r : Result (ℕ × IssuedSession) × List RefreshToken)
          → Rotated sv drawn token c ts r
          → r ≡ (ok (user_id, session), us)
          → IsSpent (sv.hash token) s.family_id us
      go _ (not_rotated x vs later) e = cc
      go _ (was_rotated s' session' vs found' live wrote) e =
          let one : s' ≡ s = some-inj s' s (rw found' at found) in
          let rows : vs ≡ us = cc in
          let done_ : rotate_write sv drawn c s ts ≡ ok (session', us) = rw (one, rows) at wrote in
          written-IsSpent drawn token c session' ts us s linear found done_

  -- Among rows that have different ids, and of each family at most one that is neither used nor
  -- revoked: once a rotation has handed out a session, then whatever sessions are opened, refreshed, signed out
  -- of and shut out, one call after another: presenting the token that it rotated again is
  -- refused, and none of the family of that token is live after it, the rotated session's included.
  pub rotate_again :
      (drawn : Drawn) (token : Text) (c : SessionContext) (user_id : ℕ) (session : IssuedSession)
      (ts us vs : List RefreshToken) (s : RefreshToken) (drawn' : Drawn) (c' : SessionContext)
      → IsLinear ts
      → find_token (sv.hash token) ts ≡ some s
      → rotate sv drawn token c ts ≡ (ok (user_id, session), us)
      → Run sv us vs
      → ((rotate sv drawn' token c' vs).0 ≡ err auth_refresh_invalid)
        × All (IsDead s.family_id) (rotate sv drawn' token c' vs).1
  rotate_again drawn token c user_id session ts us vs s drawn' c' linear found h run =
      rotate-IsSpent drawn' token c' s.family_id vs (
        Run-IsSpent (sv.hash token) s.family_id us vs run
          (rotated-IsSpent drawn token c user_id session ts us s linear found h))
