-- ===== src/Auth/Login.antt =====
-- src/auth/auth.service.ts with the messages of src/auth/services/siwe.service.ts: challenges and
-- logins. What stands under `auth:nonce:<address>` is a map of its own, the sessions are those of the
-- token service, and Redis is at hand. The recovery of a signer from a signature, the user of a
-- wallet, ISO dates and the decimals of a number are arguments.
use Prim.Native.String.{◌++◌ as append_text}
use truthbounty_api.Prelude.{
  ℕ, ◌+◌, ◌-◌, ◌==◌, String, Option, none, some, Bool, true, false, not, ◌||◌, List, [], ◌∷◌, ◌++◌,
  Result, ok, err, Exception, string_eq, ◌===◌, if◌then◌else◌, leb,
}
use truthbounty_api.Prelude.Maps.{JsMap, get, put, delete}
use truthbounty_api.Prelude.Redis.{Entry, read, write}
use truthbounty_api.Auth.Tokens.{TokenPair, Sessions, Draw, Config, generate_token_pair}
pub mod Account
pub mod Challenges
pub mod Once

pub record ChallengeRecord : Type 0 where
  pub nonce : String
  pub issued_at : ℕ

pub record Logins : Type 0 where
  pub nonces : JsMap String (Entry ChallengeRecord)
  pub sessions : Sessions

pub data Format : Type 0 where
  siwe legacy : Format

pub record Challenge : Type 0 where
  pub message : String
  pub format : Format

pub record ChallengeOptions : Type 0 where
  pub chain_id : Option ℕ
  pub domain : Option String
  pub uri : Option String

pub record LoginDto : Type 0 where
  pub address : String
  pub signature : String
  pub message : String

pub record LoginUser : Type 0 where
  pub id : Option String
  pub address : String

pub record LoginResult : Type 0 where
  pub pair : TokenPair
  pub user : LoginUser

-- What the service calls and its configuration.
pub record Context : Type 0 where
  pub recover : String → String → Option String
  pub user_of : String → Option String
  pub iso : ℕ → String
  pub decimal : ℕ → String
  pub siwe_domain : String
  pub siwe_origin : String
  pub nonce_ttl_ms : ℕ

pub record SiweParams : Type 0 where
  pub domain : String
  pub address : String
  pub uri : String
  pub chain_id : ℕ
  pub nonce : String
  pub statement : Option String
  pub expiration_time : Option String

-- `lines.join('\n')`
abbrev pub join_lines : List String → String
join_lines [] = ""
join_lines (x ∷ []) = x
join_lines (x ∷ y ∷ ys) = append_text x (append_text "\n" (join_lines (y ∷ ys)))

-- `if (statement)`, with the blank line after it.
abbrev pub statement_lines : Option String → List String
statement_lines none = []
statement_lines (some s) = if s === "" then [] else s ∷ "" ∷ []

-- `params.expirationTime ?? …`, and the line where it is not empty.
abbrev pub expiration_lines : Option String → String → List String
expiration_lines none default_ =
    if default_ === "" then [] else append_text "Expiration Time: " default_ ∷ []
expiration_lines (some e) default_ = if e === "" then [] else append_text "Expiration Time: " e ∷ []

abbrev pub build_legacy_message : String → String → String
build_legacy_message nonce app_name =
    append_text "Sign in to " (append_text app_name (append_text ": " nonce))

-- `x || default`
abbrev pub or_text : Option String → String → String
or_text none default_ = default_
or_text (some s) default_ = if s === "" then default_ else s

abbrev pub or_number : Option ℕ → ℕ → ℕ
or_number none default_ = default_
or_number (some n) default_ = if n == 0 then default_ else n

-- `x || null`
abbrev pub or_null : Option String → Option String
or_null none = none
or_null (some s) = if s === "" then none else some s

abbrev pub is_text : Option String → Bool
is_text none = false
is_text (some s) = not (s === "")

abbrev pub is_number : Option ℕ → Bool
is_number none = false
is_number (some n) = not (n == 0)

abbrev pub asks_for_siwe : ChallengeOptions → Bool
asks_for_siwe o = is_text o.domain || is_text o.uri || is_number o.chain_id

module _ (x : Context) where
  -- The lines from the blank one on.
  abbrev pub siwe_lines : ℕ → SiweParams → List String
  siwe_lines now p =
      ""
      ∷ (statement_lines p.statement
          ++ (append_text "URI: " p.uri
              ∷ "Version: 1"
              ∷ append_text "Chain ID: " (x.decimal p.chain_id)
              ∷ append_text "Nonce: " p.nonce
              ∷ append_text "Issued At: " (x.iso now)
              ∷ expiration_lines p.expiration_time (x.iso (now + x.nonce_ttl_ms))))

  unfoldable pub build_siwe_message : ℕ → SiweParams → String
  build_siwe_message now p = join_lines (
      append_text p.domain " wants you to sign in with your Ethereum account:"
      ∷ p.address
      ∷ siwe_lines now p)

  abbrev pub siwe_params : String → ChallengeOptions → String → SiweParams
  siwe_params address o nonce = record {
    domain = or_text o.domain x.siwe_domain;
    address = address;
    uri = or_text o.uri x.siwe_origin;
    chain_id = or_number o.chain_id 1;
    nonce = nonce;
    statement = some "Sign in to TruthBounty — decentralized news verification";
    expiration_time = none;
  }

  abbrev pub challenge_of : ℕ → String → ChallengeOptions → String → Challenge
  challenge_of now address o nonce =
      if asks_for_siwe o
      then record { message = build_siwe_message now (siwe_params address o nonce); format = siwe }
      else record { message = build_legacy_message nonce "TruthBounty"; format = legacy }

module _ (c : Config) (x : Context) where
  -- The Boolean is the answer of `set`.
  unfoldable pub generate_challenge :
      ℕ → Bool → String → ChallengeOptions → String → Logins → Logins × Result Challenge
  generate_challenge now stored address o nonce s =
      if stored
      then (
        record s {
          nonces =
              write now 300 (c.lower address) (record { nonce = nonce; issued_at = now }) s.nonces;
        },
        ok (challenge_of x now address o nonce),
      )
      else (s, err Exception.error)

  -- `elapsedSeconds >= NONCE_TTL_SECONDS`, in milliseconds.
  abbrev pub is_stale : ℕ → ChallengeRecord → Bool
  is_stale now r = leb 300000 (now - r.issued_at)

  abbrev pub drop_nonce : String → Logins → Logins
  drop_nonce address s = record s { nonces = delete (c.lower address) s.nonces }

  abbrev pub login_result : String → Option String → TokenPair → LoginResult
  login_result address user_id pair = record {
    pair = pair;
    user = record { id = user_id; address = c.lower address };
  }

  -- From the deletion of the nonce on.
  abbrev pub issue_tokens : ℕ → String → Draw → Logins → Logins × Result LoginResult
  issue_tokens now address d s =
      let user_id = or_null (x.user_of (c.lower address)) in
      let r = generate_token_pair c now (c.lower address) user_id d s.sessions in
      (record (drop_nonce address s) { sessions = r.0 }, ok (login_result address user_id r.1))

  abbrev pub check_challenge :
      ℕ → LoginDto → Option ChallengeRecord → Draw → Logins → Logins × Result LoginResult
  check_challenge now dto none d s = (s, err Exception.unauthorized)
  check_challenge now dto (some r) d s =
      if is_stale now r
      then (drop_nonce dto.address s, err Exception.unauthorized)
      else if dto.message === build_legacy_message r.nonce "TruthBounty"
      then issue_tokens now dto.address d s
      else (s, err Exception.unauthorized)

  abbrev pub check_signer :
      ℕ → LoginDto → Option String → Draw → Logins → Logins × Result LoginResult
  check_signer now dto none d s = (s, err Exception.bad_request)
  check_signer now dto (some who) d s =
      if c.lower who === c.lower dto.address
      then check_challenge now dto (read now (c.lower dto.address) s.nonces) d s
      else (s, err Exception.unauthorized)

  unfoldable pub login : ℕ → LoginDto → Draw → Logins → Logins × Result LoginResult
  login now dto d s = check_signer now dto (x.recover dto.message dto.signature) d s
