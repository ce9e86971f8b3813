-- ===== src/Auth/Tests.antt =====
-- Runs of the sessions on concrete rows; the hash of the runs is the text itself.
use gemone.Prelude.{
  ℕ, ◌≡◌, refl, true, ◌&&◌, none, Text, codes, List, [], ◌∷◌, All, ok, err, auth_refresh_invalid,
  find_first, update_first,
}
use gemone.Conversions.Pipeline.{active}
use gemone.Auth.Types.{user, RefreshToken, SessionContext}
use gemone.Auth.Sessions.{
  TokenServices, Drawn, new_token, create_token, issued_session, issue_in_family, find_token,
  check_stored, rotate_check, rotate_write, rotate, interleaved_rotates,
}
use gemone.Auth.Rows.{is_live, IsDead}
use gemone.Auth.Linear.{IsLinear}
use gemone.Auth.Families.{Run, idle, onward, opened, refreshed, Run-IsLinear}
use gemone.Auth.Reuse.{rotate_again}
use gemone.Auth.Race.{successor, interleaved_rotates-two}

abbrev services : TokenServices
services = record {
  hash = λ t. t;
  sign = λ user_id role. codes "jwt";
  access_ttl_seconds = 900;
  refresh_ttl_days = 30;
  account_of = λ i. record { id = i; role = user; status = active };
}

abbrev nobody : SessionContext
nobody = record { ip = none; user_agent = none }

abbrev draw : ℕ → Text → Drawn
draw id token = record { id = id; token = token; now = 1000 }

abbrev at_login : Drawn
at_login = draw 1 (codes "a")

abbrev at_refresh : Drawn
at_refresh = draw 2 (codes "b")

abbrev at_replay : Drawn
at_replay = draw 3 (codes "c")

abbrev logged_in : List RefreshToken
logged_in = new_token services at_login 5 7 nobody ∷ []

abbrev after_refresh : List RefreshToken
after_refresh = (rotate services at_refresh (codes "a") nobody logged_in).1

login_and_refresh : Run services [] after_refresh
unfolding issue_in_family create_token new_token
login_and_refresh =
    onward logged_in after_refresh
      (onward [] logged_in idle (
        opened at_login 5 7 user nobody (issued_session services at_login 5 user) logged_in refl
          refl))
      (refreshed at_refresh (codes "a") nobody)

Run-IsLinear_example : IsLinear after_refresh
Run-IsLinear_example = Run-IsLinear services [] after_refresh login_and_refresh tt

rotate_again_example :
    ((rotate services at_replay (codes "a") nobody after_refresh).0 ≡ err auth_refresh_invalid)
    × All (IsDead 7) (rotate services at_replay (codes "a") nobody after_refresh).1
unfolding rotate rotate_check check_stored rotate_write issue_in_family create_token new_token
    find_token find_first update_first
rotate_again_example =
    rotate_again services at_refresh (codes "a") nobody 5
      (issued_session services at_refresh 5 user) logged_in after_refresh after_refresh
      (new_token services at_login 5 7 nobody) at_replay nobody (tt, tt) refl refl idle

interleaved_rotates-two_example :
    (rest : List RefreshToken) × (interleaved_rotates services at_refresh at_replay
        (codes "a")
        nobody
        logged_in
      ≡ (
        ok (5, issued_session services at_refresh 5 user),
        ok (5, issued_session services at_replay 5 user),
        successor services at_replay (new_token services at_login 5 7 nobody) nobody
            ∷ successor services at_refresh (new_token services at_login 5 7 nobody) nobody
            ∷ rest,
      ))
    × (is_live (successor services at_replay (new_token services at_login 5 7 nobody) nobody)
          && is_live (successor services at_refresh (new_token services at_login 5 7 nobody) nobody)
        ≡ true)
    × ((successor services at_replay (new_token services at_login 5 7 nobody) nobody).family_id
        ≡ (successor services at_refresh (new_token services at_login 5 7 nobody) nobody).family_id)
unfolding rotate_check check_stored new_token find_token find_first update_first
interleaved_rotates-two_example =
    interleaved_rotates-two services at_refresh at_replay (codes "a") nobody logged_in
      (new_token services at_login 5 7 nobody) refl refl refl refl refl
