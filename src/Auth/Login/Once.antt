-- ===== src/Auth/Login/Once.antt =====
-- A challenge is good for one login.
use truthbounty_api.Prelude.{
  ℕ, String, ◌≡◌, ◌≢◌, refl, ap, ◌∙◌, inl, inr, Option, none, some, Bool, true, false, ok, err,
  Exception, string_eq, ◌===◌, Bool-cases,
}
use truthbounty_api.Prelude.Maps.{get, delete, IsMap, get-delete_self, put-IsMap, delete-IsMap}
use truthbounty_api.Prelude.Redis.{Entry, expiry, read}
use truthbounty_api.Auth.Tokens.{Draw, Config}
use truthbounty_api.Prelude.Tables.{delete-none, put-none_ne}
use truthbounty_api.Auth.Login.{
  ChallengeRecord, Logins, ChallengeOptions, LoginDto, LoginResult, Context, build_legacy_message,
  generate_challenge, is_stale, drop_nonce, issue_tokens, check_challenge, check_signer, login,
}

-- No challenge is stored under the key.
pub record Unchallenged (a : String) (s : Logins) : Type 0 where
  pub is_map : IsMap s.nonces
  pub gone : get a s.nonces ≡ none

module _ (c : Config) (x : Context) (a : String) where
  drop_nonce-Unchallenged :
      (address : String) (s : Logins) → Unchallenged a s → Unchallenged a (drop_nonce c x address s)
  drop_nonce-Unchallenged address s h = record {
    is_map = delete-IsMap (c.lower address) s.nonces h.is_map;
    gone = delete-none (c.lower address) a s.nonces h.is_map h.gone;
  }

  issue_tokens-Unchallenged :
      (now : ℕ) (address : String) (d : Draw) (s : Logins)
      → Unchallenged a s
      → Unchallenged a (issue_tokens c x now address d s).0
  issue_tokens-Unchallenged now address d s h =
      let k = drop_nonce-Unchallenged address s h in record { is_map = k.is_map; gone = k.gone }

  check_challenge-Unchallenged :
      (now : ℕ) (dto : LoginDto) (o : Option ChallengeRecord) (d : Draw) (s : Logins)
      → Unchallenged a s
      → Unchallenged a (check_challenge c x now dto o d s).0
  check_challenge-Unchallenged now dto none d s h = h
  check_challenge-Unchallenged now dto (some r) d s h = elim (Bool-cases (is_stale c x now r)) [
    | inl old ↦ rw old (drop_nonce-Unchallenged dto.address s h)
    | inr young ↦ elim (Bool-cases (dto.message === build_legacy_message r.nonce "TruthBounty")) [
      | inl right ↦ rw (young, right) (issue_tokens-Unchallenged now dto.address d s h)
      | inr wrong ↦ rw (young, wrong) h
    ]
  ]

  check_signer-Unchallenged :
      (now : ℕ) (dto : LoginDto) (who : Option String) (d : Draw) (s : Logins)
      → Unchallenged a s
      → Unchallenged a (check_signer c x now dto who d s).0
  check_signer-Unchallenged now dto none d s h = h
  check_signer-Unchallenged now dto (some who) d s h =
      elim (Bool-cases (c.lower who === c.lower dto.address)) [
        | inl mine ↦
            rw mine
              (check_challenge-Unchallenged now dto (read now (c.lower dto.address) s.nonces) d s h)
        | inr other ↦ rw other h
      ]

  -- A login, a challenge for another wallet, or a change of the sessions alone.
  pub data Step (s : Logins) : Logins → Type 0 where
    logs_in : (now : ℕ) (dto : LoginDto) (d : Draw) → Step s (login c x now dto d s).0
    challenges :
        (now : ℕ) (stored : Bool) (address : String) (o : ChallengeOptions) (nonce : String)
        → (c.lower address === a) ≡ false
        → Step s (generate_challenge c x now stored address o nonce s).0
    in_sessions : (t : Logins) → t.nonces ≡ s.nonces → Step s t

  pub data Run (s : Logins) : Logins → Type 0 where
    here : Run s s
    next : {t u : Logins} → Run s t → Step t u → Run s u

  Step-Unchallenged : (s t : Logins) → Step s t → Unchallenged a s → Unchallenged a t
  unfolding login generate_challenge
  Step-Unchallenged s t (logs_in now dto d) h =
      check_signer-Unchallenged now dto (x.recover dto.message dto.signature) d s h
  Step-Unchallenged s t (challenges now true address o nonce other) h =
      let e : Entry ChallengeRecord = record {
        value = record { nonce = nonce; issued_at = now };
        until = expiry now 300;
      } in
      record {
        is_map = put-IsMap (c.lower address) e s.nonces h.is_map;
        gone = put-none_ne (c.lower address) a e s.nonces other h.gone;
      }
  Step-Unchallenged s t (challenges now false address o nonce other) h = h
  Step-Unchallenged s t (in_sessions u same) h = record {
    is_map = rw same h.is_map;
    gone = rw same h.gone;
  }

  Run-Unchallenged : (s t : Logins) → Run s t → Unchallenged a s → Unchallenged a t
  Run-Unchallenged s t here h = h
  Run-Unchallenged s t (next {t = u} r step) h =
      Step-Unchallenged u t step (Run-Unchallenged s u r h)

  -- Without a challenge there is no login.
  no_nonce_refused :
      (now : ℕ) (dto : LoginDto) (who : Option String) (d : Draw) (s : Logins) (r : LoginResult)
      → Unchallenged a s
      → c.lower dto.address ≡ a
      → (check_signer c x now dto who d s).1 ≢ ok r
  no_nonce_refused now dto none d s r h is_a = λ done. cc
  no_nonce_refused now dto (some who) d s r h is_a = λ done.
      let missing : read now (c.lower dto.address) s.nonces ≡ none = rw (is_a, h.gone) refl in
      elim (Bool-cases (c.lower who === c.lower dto.address)) [
        | inl mine ↦
            let never : err Exception.unauthorized ≡ ok r = rw (mine, missing) at done in cc
        | inr other ↦ let never : err Exception.unauthorized ≡ ok r = rw other at done in cc
      ]

  dropped-Unchallenged :
      (address : String) (s : Logins)
      → IsMap s.nonces
      → c.lower address ≡ a
      → Unchallenged a (drop_nonce c x address s)
  dropped-Unchallenged address s is_map is_a = record {
    is_map = delete-IsMap (c.lower address) s.nonces is_map;
    gone = ap (λ k. get a (delete k s.nonces)) is_a ∙ get-delete_self a s.nonces is_map;
  }

  used_challenge-Unchallenged :
      (now : ℕ) (dto : LoginDto) (o : Option ChallengeRecord) (d : Draw) (s : Logins)
      (r : LoginResult)
      → IsMap s.nonces
      → c.lower dto.address ≡ a
      → (check_challenge c x now dto o d s).1 ≡ ok r
      → Unchallenged a (check_challenge c x now dto o d s).0
  used_challenge-Unchallenged now dto none d s r is_map is_a done = cc
  used_challenge-Unchallenged now dto (some k) d s r is_map is_a done =
      elim (Bool-cases (is_stale c x now k)) [
        | inl old ↦ rw old (dropped-Unchallenged dto.address s is_map is_a)
        | inr young ↦
            elim (Bool-cases (dto.message === build_legacy_message k.nonce "TruthBounty")) [
              | inl right ↦
                  let h = dropped-Unchallenged dto.address s is_map is_a in
                  rw (young, right) (record { is_map = h.is_map; gone = h.gone })
              | inr wrong ↦
                  let never : err Exception.unauthorized ≡ ok r = rw (young, wrong) at done in cc
            ]
      ]

  -- A login that returned has deleted the challenge.
  used-Unchallenged :
      (now : ℕ) (dto : LoginDto) (who : Option String) (d : Draw) (s : Logins) (r : LoginResult)
      → IsMap s.nonces
      → c.lower dto.address ≡ a
      → (check_signer c x now dto who d s).1 ≡ ok r
      → Unchallenged a (check_signer c x now dto who d s).0
  used-Unchallenged now dto none d s r is_map is_a done = cc
  used-Unchallenged now dto (some who) d s r is_map is_a done =
      elim (Bool-cases (c.lower who === c.lower dto.address)) [
        | inl mine ↦ rw mine (
            used_challenge-Unchallenged now dto (read now (c.lower dto.address) s.nonces) d s r
              is_map is_a (rw mine at done))
        | inr other ↦ let never : err Exception.unauthorized ≡ ok r = rw other at done in cc
      ]

  -- A challenge is good for one login: once `login` has returned for a wallet, no login for this
  -- wallet returns, with whatever message and signature, after any further logins, changes of the
  -- sessions and challenges for other wallets. The store has each wallet once.
  pub login_once :
      (now later : ℕ) (dto dto' : LoginDto) (d d' : Draw) (s u : Logins) (r r' : LoginResult)
      → IsMap s.nonces
      → c.lower dto.address ≡ a
      → c.lower dto'.address ≡ a
      → (login c x now dto d s).1 ≡ ok r
      → Run (login c x now dto d s).0 u
      → (login c x later dto' d' u).1 ≢ ok r'
  unfolding login
  login_once now later dto dto' d d' s u r r' is_map is_a is_a' done run =
      let used =
        used-Unchallenged now dto (x.recover dto.message dto.signature) d s r is_map is_a done in
      no_nonce_refused later dto' (x.recover dto'.message dto'.signature) d' u r'
        (Run-Unchallenged (login c x now dto d s).0 u run used) is_a'
