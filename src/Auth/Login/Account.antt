-- ===== src/Auth/Login/Account.antt =====
-- refresh, logout and revoke of src/auth/auth.service.ts, which go on to the sessions. The reading of
-- a signed access token is an argument.
use truthbounty_api.Prelude.{
  ℕ, String, Option, none, some, Result, ok, err, Exception, string_eq, ◌===◌, if◌then◌else◌,
}
use truthbounty_api.Auth.Tokens as Tokens
use truthbounty_api.Auth.Tokens.{
  TokenPair, TokenPayload, Sessions, Draw, Config, refresh_access_token, revoke_all_user_tokens,
}
use truthbounty_api.Auth.Login.{Logins, LoginUser, LoginResult, Context, or_null}

abbrev pub with_sessions : Sessions → Logins → Logins
with_sessions t s = record s { sessions = t }

-- `a || b || null`
abbrev pub first_id : Option String → Option String → Option String
first_id none user_id = or_null user_id
first_id (some id) user_id = if id === "" then or_null user_id else some id

module _ (c : Config) (x : Context) (decode : String → TokenPayload) where
  abbrev pub refreshed_user : TokenPayload → LoginUser
  refreshed_user p = record { id = first_id (x.user_of p.address) p.user_id; address = p.address }

  abbrev pub refreshed : Result TokenPair → Result LoginResult
  refreshed (err e) = err e
  refreshed (ok pair) =
      ok (record { pair = pair; user = refreshed_user (decode pair.access_token) })

  unfoldable pub refresh : ℕ → String → Draw → Logins → Logins × Result LoginResult
  refresh now raw d s =
      let r = refresh_access_token c now raw d s.sessions in (with_sessions r.0 s, refreshed r.1)

module _ (c : Config) where
  unfoldable pub logout : ℕ → Option TokenPayload → Logins → Logins × Result (Unit {0})
  logout now none s = (s, err Exception.bad_request)
  logout now (some p) s =
      if p.address === ""
      then (s, err Exception.bad_request)
      else (with_sessions (Tokens.logout c now p s.sessions) s, ok tt)

  unfoldable pub revoke : ℕ → String → Logins → Logins
  revoke now address s = with_sessions (revoke_all_user_tokens c now address s.sessions) s
