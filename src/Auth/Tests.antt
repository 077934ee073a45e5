-- ===== src/Auth/Tests.antt =====
-- The sessions at concrete tokens: the hash puts a mark before a text, and a wallet is in lower case.
use Prim.Native.String.{◌++◌ as append_text}
use truthbounty_api.Prelude.{◌≡◌, ◌≢◌, refl, none, some, true, [], ok, err, Exception, arith}
use truthbounty_api.Auth.Tokens.{
  TokenPayload, access, Sessions, Draw, Config, blacklist_token, is_blacklisted, add_refresh,
  refresh_data, generate_token_pair, refresh_access_token, logout, new_pair,
}
use truthbounty_api.Auth.Login.{
  Logins, siwe, legacy, ChallengeOptions, LoginDto, LoginResult, Context, build_siwe_message,
  siwe_params, generate_challenge, login_result, login,
}
use truthbounty_api.Auth.Login.Challenges.{legacy_challenge_logs_in, siwe_challenge_refused}
use truthbounty_api.Auth.Login.Once.{challenges, here as at_once, next as and_then, login_once}
use truthbounty_api.Auth.Tokens.Rotation.{generates, here, next, refresh_once}
use truthbounty_api.Auth.Tokens.Revocation.{start, generated, refreshed, logout_refused}
use truthbounty_api.Auth.Tokens.Ttl.{parse_ttl_to_seconds}
use truthbounty_api.Auth.Tokens.Issue.{fresh_pair_refreshes}

abbrev config : Config
config = record {
  access_ttl = 900;
  refresh_ttl = 604800;
  lower = λ x. x;
  hash_token = λ x. append_text "#" x;
  sign = λ p. p.jti;
}

abbrev no_sessions : Sessions
no_sessions = record { refreshes = []; lists = []; blacklist = [] }

abbrev first : Draw
first = record { access_jti = "a1"; refresh_jti = "r1"; refresh_value = "v1" }

abbrev second : Draw
second = record { access_jti = "a2"; refresh_jti = "r2"; refresh_value = "v2" }

abbrev third : Draw
third = record { access_jti = "a3"; refresh_jti = "r3"; refresh_value = "v3" }

abbrev signed_in : Sessions
signed_in = (generate_token_pair config 1000 "0xa" (some "u") first no_sessions).0

abbrev rotated : Sessions
rotated = (refresh_access_token config 2000 "r1.v1" second signed_in).0

abbrev other_wallet : Sessions
other_wallet = (generate_token_pair config 2500 "0xb" none third rotated).0

fresh_pair_refreshes_example :
    (refresh_access_token config 5000
      (generate_token_pair config 1000 "0xa" (some "u") first no_sessions).1.refresh_token
      second
      (generate_token_pair config 1000 "0xa" (some "u") first no_sessions).0).1
    ≡ ok (new_pair config "0xa" (some "u") second)
unfolding is_blacklisted
fresh_pair_refreshes_example =
    fresh_pair_refreshes config 1000 5000 "0xa" (some "u") first second no_sessions refl refl refl
      refl refl

refresh_once_example :
    refresh_access_token config 3000 "r1.v1" third other_wallet
    ≡ (other_wallet, err Exception.unauthorized)
unfolding generate_token_pair add_refresh refresh_access_token blacklist_token is_blacklisted
refresh_once_example =
    refresh_once config "r1" 2000 3000 "r1.v1" "r1.v1" "v1" "v1" second third signed_in other_wallet
      (new_pair config "0xa" (some "u") second) refl refl (refl, tt) refl refl
      (next here (generates 2500 "0xb" none third refl))

abbrev token : TokenPayload
token = record {
  sub = "u";
  address = "0xa";
  user_id = some "u";
  jti = "a2";
  type = access;
  exp = some 902;
}

logout_refused_example :
    refresh_access_token config 5000 "r2.v2" third (logout config 4000 token rotated)
    ≡ (logout config 4000 token rotated, err Exception.unauthorized)
unfolding generate_token_pair add_refresh refresh_access_token blacklist_token is_blacklisted
logout_refused_example =
    logout_refused config (λ x. refl)
      (refreshed 2000 "r1.v1" second
        (generated 1000 "0xa" (some "u") first (start no_sessions refl refl) (omega arith))
        (omega arith))
      4000 5000 token "r2.v2" "r2" "v2"
      (record { value = refresh_data config 2000 "0xa" (some "u") second; until = some 604802000 })
      third (omega arith) (omega arith) refl refl refl

-- The signature is the wallet that signed.
abbrev context : Context
context = record {
  recover = λ message signature. some signature;
  user_of = λ address. some "u";
  iso = λ t. "2026-01-01T00:00:00.000Z";
  decimal = λ n. "1";
  siwe_domain = "truthbounty.com";
  siwe_origin = "https://app.truthbounty.com";
  nonce_ttl_ms = 300000;
}

abbrev nobody : Logins
nobody = record { nonces = []; sessions = no_sessions }

abbrev plain : ChallengeOptions
plain = record { chain_id = none; domain = none; uri = none }

abbrev on_polygon : ChallengeOptions
on_polygon = record { chain_id = some 137; domain = none; uri = none }

abbrev login_text : LoginDto
login_text = record { address = "0xa"; signature = "0xa"; message = "Sign in to TruthBounty: n1" }

abbrev challenged : Logins
challenged = (generate_challenge config context 1000 true "0xa" plain "n1" nobody).0

abbrev entered : Logins
entered = (login config context 2000 login_text first challenged).0

abbrev other_challenge : Logins
other_challenge = (generate_challenge config context 2500 true "0xb" plain "n2" entered).0

abbrev pair_of_first : LoginResult
pair_of_first =
    login_result config context "0xa" (some "u") (new_pair config "0xa" (some "u") first)

legacy_challenge_logs_in_example :
    (login config context 2000 login_text first challenged).1 ≡ ok pair_of_first
unfolding generate_challenge
legacy_challenge_logs_in_example =
    legacy_challenge_logs_in config context 1000 2000 "0xa" "0xa" "0xa" "0xa" "n1" plain first
      nobody (record { message = "Sign in to TruthBounty: n1"; format = legacy }) refl refl refl
      refl refl (omega arith)

siwe_challenge_refused_example :
    (login config context 2000
      (record {
        address = "0xa";
        signature = "0xa";
        message = build_siwe_message context 1000 (siwe_params context "0xa" on_polygon "n1");
      })
      first
      (generate_challenge config context 1000 true "0xa" on_polygon "n1" nobody).0).1
    ≢ ok pair_of_first
unfolding generate_challenge
siwe_challenge_refused_example =
    siwe_challenge_refused config context 1000 2000 "0xa" "0xa" "0xa" "n1" on_polygon first nobody
      (record {
        message = build_siwe_message context 1000 (siwe_params context "0xa" on_polygon "n1");
        format = siwe;
      })
      pair_of_first refl refl refl refl

login_once_example :
    (login config context 3000 login_text second other_challenge).1 ≢ ok pair_of_first
unfolding login generate_challenge generate_token_pair
login_once_example =
    login_once config context "0xa" 2000 3000 login_text login_text first second challenged
      other_challenge pair_of_first pair_of_first (refl, tt) refl refl refl
      (and_then at_once (challenges 2500 true "0xb" plain "n2" refl))

quarter_hour : parse_ttl_to_seconds "15m" ≡ 900
unfolding parse_ttl_to_seconds
quarter_hour = refl

one_week : parse_ttl_to_seconds "7d" ≡ 604800
unfolding parse_ttl_to_seconds
one_week = refl

-- A number without a unit is a quarter of an hour.
bare_number : parse_ttl_to_seconds "3600" ≡ 900
unfolding parse_ttl_to_seconds
bare_number = refl
