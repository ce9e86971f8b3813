-- ===== src/Auth/Race.antt =====
-- What presenting a refresh token twice at once does (apps/api/src/modules/auth/token.service.ts, `rotate`): the check
-- of both comes before the write of either.
use gemone.Prelude.{◌≡◌, refl, true, false, ◌&&◌, ◌==◌, Text, List, ◌∷◌, any, ok, update_first}
use gemone.Auth.Types.{RefreshToken, SessionContext}
use gemone.Auth.Sessions.{
  TokenServices, Drawn, new_token, clashes_with, create_token, issued_session, issue_in_family,
  rotate_check, spend, rotate_write, or_unchanged, rotate_if, interleaved_rotates,
}
use gemone.Auth.Rows.{is_live}

create_token-free :
    (t : RefreshToken) (ts : List RefreshToken)
    → any (clashes_with t) ts ≡ false
    → create_token t ts ≡ ok (t ∷ ts)
unfolding create_token
create_token-free t ts free = rw (free, create_token) refl

module _ (sv : TokenServices) where
  -- The rows in which a rotation looks for a clash: the presented row is spent among them.
  abbrev pub spent_rows : Drawn → RefreshToken → List RefreshToken → List RefreshToken
  spent_rows drawn s ts = update_first (λ t. t.id == s.id) (spend drawn.now) ts

  abbrev pub successor : Drawn → RefreshToken → SessionContext → RefreshToken
  successor drawn s c = new_token sv drawn s.user_id s.family_id c

  rotate_write-free :
      (drawn : Drawn) (s : RefreshToken) (c : SessionContext) (ts : List RefreshToken)
      → any (clashes_with (successor drawn s c)) (spent_rows drawn s ts) ≡ false
      → rotate_write sv drawn c s ts
        ≡ ok (
          issued_session sv drawn s.user_id (sv.account_of s.user_id).role,
          successor drawn s c ∷ spent_rows drawn s ts,
        )
  unfolding rotate_write issue_in_family
  rotate_write-free drawn s c ts free =
      rw (create_token-free (successor drawn s c) (spent_rows drawn s ts) free, issue_in_family)
        refl

  rotate_if-free :
      (drawn : Drawn) (s : RefreshToken) (c : SessionContext) (ts : List RefreshToken)
      → any (clashes_with (successor drawn s c)) (spent_rows drawn s ts) ≡ false
      → rotate_if sv drawn c (ok s, ts) ≡ (
        ok (s.user_id, issued_session sv drawn s.user_id (sv.account_of s.user_id).role),
        successor drawn s c ∷ spent_rows drawn s ts,
      )
  rotate_if-free drawn s c ts free = rw (rotate_write-free drawn s c ts free, or_unchanged) refl

  spent_rows-kept :
      (drawn : Drawn) (s t : RefreshToken) (ts : List RefreshToken)
      → (t.id == s.id) ≡ false
      → spent_rows drawn s (t ∷ ts) ≡ t ∷ spent_rows drawn s ts
  unfolding update_first
  spent_rows-kept drawn s t ts other = rw other refl

  -- Two rotations that present one token, and both check it before either writes, with new ids and random
  -- values: both hand out a session, and the two newest rows are live, in the family of the token.
  pub interleaved_rotates-two :
      (first second : Drawn) (token : Text) (c : SessionContext) (ts : List RefreshToken)
      (s : RefreshToken)
      → rotate_check sv first.now token ts ≡ (ok s, ts)
      → rotate_check sv second.now token ts ≡ (ok s, ts)
      → (first.id == s.id) ≡ false
      → any (clashes_with (successor first s c)) (spent_rows first s ts) ≡ false
      → any
          (clashes_with (successor second s c))
          (spent_rows second s (successor first s c ∷ spent_rows first s ts))
        ≡ false
      → (rest : List RefreshToken) × (interleaved_rotates sv first second token c ts ≡ (
        ok (s.user_id, issued_session sv first s.user_id (sv.account_of s.user_id).role),
        ok (s.user_id, issued_session sv second s.user_id (sv.account_of s.user_id).role),
        successor second s c ∷ successor first s c ∷ rest,
      ))
        × (is_live (successor second s c) && is_live (successor first s c) ≡ true)
        × ((successor second s c).family_id ≡ (successor first s c).family_id)
  unfolding interleaved_rotates new_token
  interleaved_rotates-two first second token c ts s checked checked' new free free' =
      let rows = spent_rows first s ts in
      let kept = spent_rows-kept second s (successor first s c) rows new in
      (
        spent_rows second s rows,
        rw (checked, checked', rotate_if-free first s c ts free)
            (rw (rotate_if-free second s c (successor first s c ∷ rows) free') (rw kept refl)),
        refl,
        refl,
      )
