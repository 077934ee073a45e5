-- ===== src/Auth/Tokens.antt =====
-- src/auth/services/token.service.ts over src/redis/redis.service.ts: access and refresh tokens.
-- The keys of the three kinds of Redis entries differ in their prefixes, so each kind is a map of
-- its own. Redis is at hand. The clock is in milliseconds. Random values, the hash, the signing of a
-- payload and toLowerCase are arguments.
pub mod Ttl
pub mod Spent
pub mod Rotation
pub mod Revoked
pub mod Revocation
pub mod Issue
pub mod Tracking
pub mod Listing
use Prim.Native.String.{◌++◌ as append_text}
use Prim.Native.Char.{Char, code}
use truthbounty_api.Prelude.{
  is_some, ℕ, ◌+◌, ◌-◌, ◌*◌, ◌/◌, ◌==◌, String, Option, none, some, Bool, true, false, not, List,
  [], ◌∷◌, ◌++◌, length, take, drop, Result, ok, err, Exception, string_eq, ◌===◌, if◌then◌else◌,
  ltb, leb,
}
use truthbounty_api.Prelude.Redis.{Entry, expiry, is_live, if_live, read, write}
use truthbounty_api.Prelude.Maps.{JsMap, get, put, delete, delete_all}

pub data TokenType : Type 0 where
  access refresh : TokenType

pub record TokenPayload : Type 0 where
  pub sub : String
  pub address : String
  pub user_id : Option String
  pub jti : String
  pub type : TokenType
  pub exp : Option ℕ

pub record TokenPair : Type 0 where
  pub access_token : String
  pub refresh_token : String
  pub expires_in : ℕ

-- What `auth:refresh:<jti>` holds.
pub record RefreshData : Type 0 where
  pub jti : String
  pub token_hash : String
  pub address : String
  pub user_id : Option String
  pub access_jti : String
  pub created_at : ℕ

pub record Sessions : Type 0 where
  pub refreshes : JsMap String (Entry RefreshData)
  pub lists : JsMap String (Entry (List String))
  pub blacklist : JsMap String (Entry (Unit {0}))

-- The random values of a new pair.
pub record Draw : Type 0 where
  pub access_jti : String
  pub refresh_jti : String
  pub refresh_value : String

-- The service's configuration, and what it calls.
pub record Config : Type 0 where
  pub access_ttl : ℕ
  pub refresh_ttl : ℕ
  pub lower : String → String
  pub hash_token : String → String
  pub sign : TokenPayload → String

-- `value.split('.')`
abbrev pub extend_first : Char → List String → List String
extend_first c [] = String.◌∷◌ c String.[] ∷ []
extend_first c (p ∷ ps) = String.◌∷◌ c p ∷ ps

abbrev pub split_dot : String → List String
split_dot String.[] = "" ∷ []
split_dot (String.◌∷◌ c s) =
    let rest = split_dot s in if code c == 46 then "" ∷ rest else extend_first c rest

abbrev pub or_empty : Option (List String) → List String
or_empty none = []
or_empty (some xs) = xs

abbrev pub subject_of : (String → String) → Option String → String → String
subject_of lower none address = lower address
subject_of lower (some id) address = if id === "" then lower address else id

unfoldable pub blacklist_token : ℕ → String → ℕ → Sessions → Sessions
blacklist_token now jti ttl s = record s { blacklist = write now ttl jti tt s.blacklist }

unfoldable pub is_blacklisted : ℕ → String → Sessions → Bool
is_blacklisted now jti s = is_some (read now jti s.blacklist)

-- The list with the new id, less the oldest past ten, and those that fall out.
abbrev pub surplus : List String → ℕ
surplus xs = length xs - 10

module _ (c : Config) where
  abbrev pub refresh_data : ℕ → String → Option String → Draw → RefreshData
  refresh_data now address user_id d = record {
    jti = d.refresh_jti;
    token_hash = c.hash_token d.refresh_value;
    address = c.lower address;
    user_id = user_id;
    access_jti = d.access_jti;
    created_at = now;
  }

  -- The entries of a new refresh token: its data, and its id in the list of its address.
  unfoldable pub add_refresh : ℕ → String → Option String → Draw → Sessions → Sessions
  add_refresh now address user_id d s =
      let a = c.lower address in
      let ids = or_empty (read now a s.lists) ++ (d.refresh_jti ∷ []) in
      record s {
        refreshes = delete_all (take (surplus ids) ids) (
            write now c.refresh_ttl d.refresh_jti (refresh_data now address user_id d) s.refreshes);
        lists = write now c.refresh_ttl a (drop (surplus ids) ids) s.lists;
      }

  abbrev pub new_payload : String → Option String → Draw → TokenPayload
  new_payload address user_id d = record {
    sub = subject_of c.lower user_id address;
    address = c.lower address;
    user_id = user_id;
    jti = d.access_jti;
    type = access;
    exp = none;
  }

  abbrev pub new_pair : String → Option String → Draw → TokenPair
  new_pair address user_id d = record {
    access_token = c.sign (new_payload address user_id d);
    refresh_token = append_text d.refresh_jti (append_text "." d.refresh_value);
    expires_in = c.access_ttl;
  }

  unfoldable pub generate_token_pair :
      ℕ → String → Option String → Draw → Sessions → Sessions × TokenPair
  generate_token_pair now address user_id d s =
      (add_refresh now address user_id d s, new_pair address user_id d)

  -- The loop over the listed ids.
  abbrev pub revoke_each : ℕ → List String → Sessions → Sessions
  revoke_each now [] s = s
  revoke_each now (jti ∷ jtis) s =
      revoke_each now jtis
        (blacklist_token now jti c.refresh_ttl (record s { refreshes = delete jti s.refreshes }))

  abbrev pub drop_list : String → Sessions → Sessions
  drop_list a s = record s { lists = delete a s.lists }

  unfoldable pub revoke_all_user_tokens : ℕ → String → Sessions → Sessions
  revoke_all_user_tokens now address s =
      drop_list (c.lower address)
        (revoke_each now (or_empty (read now (c.lower address) s.lists)) s)

  -- A token whose data was found: a wrong value revokes the sessions of the address.
  abbrev pub rotate :
      ℕ → String → String → RefreshData → Draw → Sessions → Sessions × Result TokenPair
  rotate now jti value data_ d s =
      if c.hash_token value === data_.token_hash
      then (let s' =
            blacklist_token now jti c.refresh_ttl
              (record s { refreshes = delete jti s.refreshes }) in
          let r = generate_token_pair now data_.address data_.user_id d s' in (r.0, ok r.1))
      else (revoke_all_user_tokens now data_.address s, err Exception.unauthorized)

  abbrev pub rotate_found :
      ℕ → String → String → Option RefreshData → Draw → Sessions → Sessions × Result TokenPair
  rotate_found now jti value none d s = (s, err Exception.unauthorized)
  rotate_found now jti value (some data_) d s = rotate now jti value data_ d s

  abbrev pub refresh_parts : ℕ → List String → Draw → Sessions → Sessions × Result TokenPair
  refresh_parts now (jti ∷ value ∷ []) d s =
      if is_blacklisted now jti s
      then (s, err Exception.unauthorized)
      else rotate_found now jti value (read now jti s.refreshes) d s
  refresh_parts now parts d s = (s, err Exception.unauthorized)

  unfoldable pub refresh_access_token : ℕ → String → Draw → Sessions → Sessions × Result TokenPair
  refresh_access_token now raw d s = refresh_parts now (split_dot raw) d s

  abbrev pub is_access : TokenType → Bool
  is_access access = true
  is_access refresh = false

  unfoldable pub validate_access_token : ℕ → TokenPayload → Sessions → Bool
  validate_access_token now p s = if is_blacklisted now p.jti s then false else is_access p.type

  -- `exp` is in seconds.
  abbrev pub remaining_ttl : ℕ → Option ℕ → ℕ
  remaining_ttl now none = c.access_ttl
  remaining_ttl now (some exp) = if exp == 0 then c.access_ttl else exp - now / 1000

  unfoldable pub logout : ℕ → TokenPayload → Sessions → Sessions
  logout now p s =
      revoke_all_user_tokens now p.address
        (if p.jti === "" then s else blacklist_token now p.jti (remaining_ttl now p.exp) s)
