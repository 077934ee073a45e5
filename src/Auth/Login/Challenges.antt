-- ===== src/Auth/Login/Challenges.antt =====
-- What a challenge is good for: a legacy one logs in, one in the format of EIP-4361 does not.
use Prim.Native.String.{◌++◌ as append_text}
use truthbounty_api.Prelude.{
  ℕ, ◌+◌, ◌-◌, ◌<◌, String, ◌≡◌, ◌≢◌, refl, sym, ap, ◌∙◌, inl, inr, Option, none, some, true, false,
  List, ◌∷◌, ok, err, ok-injective, Exception, string_eq, ◌===◌, arith, Bool-cases, leb, ltb,
  eq_of_beq, beq_refl,
}
use truthbounty_api.Prelude.Texts.{has_code, has_code-append, has_code-append_right}
use truthbounty_api.Prelude.Maps.{get, get-put_self}
use truthbounty_api.Prelude.Redis.{Entry, is_live}
use truthbounty_api.Auth.Tokens.{Draw, Config, generate_token_pair, new_pair}
use truthbounty_api.Auth.Login.{
  ChallengeRecord, Logins, siwe, legacy, Challenge, ChallengeOptions, LoginDto, LoginResult,
  Context, SiweParams, join_lines, siwe_lines, build_legacy_message, build_siwe_message,
  siwe_params, or_null, asks_for_siwe, challenge_of, generate_challenge, is_stale, login_result,
  check_challenge, check_signer, login,
}

-- Two lines are joined by a line feed.
has_code-join_lines :
    (x y : String) (ys : List String) → has_code 10 (join_lines (x ∷ y ∷ ys)) ≡ true
has_code-join_lines x y ys =
    has_code-append_right 10 x (append_text "\n" (join_lines (y ∷ ys)))
      (rw (has_code-append 10 "\n" (join_lines (y ∷ ys))) refl)

has_code-build_legacy :
    (nonce : String)
    → has_code 10 nonce ≡ false
    → has_code 10 (build_legacy_message nonce "TruthBounty") ≡ false
has_code-build_legacy nonce h =
    has_code-append 10 "Sign in to " (append_text "TruthBounty" (append_text ": " nonce))
    ∙ has_code-append 10 "TruthBounty" (append_text ": " nonce)
    ∙ has_code-append 10 ": " nonce
    ∙ h

module _ (x : Context) where
  has_code-build_siwe : (now : ℕ) (p : SiweParams) → has_code 10 (build_siwe_message x now p) ≡ true
  unfolding build_siwe_message
  has_code-build_siwe now p =
      has_code-join_lines (append_text p.domain " wants you to sign in with your Ethereum account:")
        p.address (siwe_lines x now p)

  siwe_is_not_legacy :
      (now : ℕ) (p : SiweParams) (nonce : String)
      → has_code 10 nonce ≡ false
      → (build_siwe_message x now p === build_legacy_message nonce "TruthBounty") ≡ false
  siwe_is_not_legacy now p nonce h =
      elim (Bool-cases (build_siwe_message x now p === build_legacy_message nonce "TruthBounty")) [
        | inl same ↦
            let lines = ap (has_code 10) (eq_of_beq _ _ same) in
            let long = has_code-build_siwe now p in let flat = has_code-build_legacy nonce h in cc
        | inr other ↦ other
      ]

  format-siwe :
      (now : ℕ) (address : String) (o : ChallengeOptions) (nonce : String)
      → (challenge_of x now address o nonce).format ≡ siwe
      → (challenge_of x now address o nonce).message
        ≡ build_siwe_message x now (siwe_params x address o nonce)
  format-siwe now address o nonce h = elim (Bool-cases (asks_for_siwe o)) [
    | inl asked ↦ rw asked refl
    | inr plain ↦ let never : legacy ≡ siwe = rw plain at h in cc
  ]

  format-legacy :
      (now : ℕ) (address : String) (o : ChallengeOptions) (nonce : String)
      → (challenge_of x now address o nonce).format ≡ legacy
      → (challenge_of x now address o nonce).message ≡ build_legacy_message nonce "TruthBounty"
  format-legacy now address o nonce h = elim (Bool-cases (asks_for_siwe o)) [
    | inl asked ↦ let never : siwe ≡ legacy = rw asked at h in cc
    | inr plain ↦ rw plain refl
  ]

module _ (c : Config) (x : Context) where
  stored-get :
      (now : ℕ) (address : String) (o : ChallengeOptions) (nonce : String) (s : Logins)
      → get (c.lower address) (generate_challenge c x now true address o nonce s).0.nonces
        ≡ some (record {
          value = record { nonce = nonce; issued_at = now };
          until = some (now + 300000);
        })
  unfolding generate_challenge
  stored-get now address o nonce s = get-put_self (c.lower address) _ s.nonces

  challenged :
      (now : ℕ) (address : String) (o : ChallengeOptions) (nonce : String) (s : Logins)
      (ch : Challenge)
      → (generate_challenge c x now true address o nonce s).1 ≡ ok ch
      → challenge_of x now address o nonce ≡ ch
  unfolding generate_challenge
  challenged now address o nonce s ch h = ok-injective h

  -- The message of a legacy challenge logs its wallet in: signed by the wallet and sent back within
  -- five minutes, with nothing in between, it gives a token pair for the wallet, in lower case, and
  -- its user. The challenge was stored, and a wallet is the same in either case of its letters.
  pub legacy_challenge_logs_in :
      (now later : ℕ) (address address' signature who nonce : String) (o : ChallengeOptions)
      (d : Draw) (s : Logins) (ch : Challenge)
      → (generate_challenge c x now true address o nonce s).1 ≡ ok ch
      → ch.format ≡ legacy
      → x.recover ch.message signature ≡ some who
      → c.lower who ≡ c.lower address
      → c.lower address' ≡ c.lower address
      → later < now + 300000
      → (login c x later
          (record { address = address'; signature = signature; message = ch.message })
          d
          (generate_challenge c x now true address o nonce s).0).1
        ≡ ok (
            login_result c x address
              (or_null (x.user_of (c.lower address)))
              (new_pair c (c.lower address) (or_null (x.user_of (c.lower address))) d))
  unfolding login generate_token_pair
  legacy_challenge_logs_in now later address address' signature who nonce o d s ch made format
        signed mine same soon =
      let is_ch = challenged now address o nonce s ch made in
      let text : ch.message ≡ build_legacy_message nonce "TruthBounty" =
        ap (λ (k : Challenge). k.message) (sym is_ch)
        ∙ format-legacy x now address o nonce (ap (λ (k : Challenge). k.format) is_ch ∙ format) in
      let found = stored-get now address o nonce s in
      let live : ltb later (now + 300000) ≡ true = ground arith in
      let young : leb 300000 (later - now) ≡ false = ground arith in
      let is_mine : (c.lower who === c.lower address) ≡ true =
        ap (λ a. a === c.lower address) mine ∙ beq_refl (c.lower address) in
      let is_text = beq_refl (build_legacy_message nonce "TruthBounty") in
      rw (signed, same, is_mine, found, live, young, text, is_text, same) refl

  -- A message other than that of the challenge gives no tokens.
  other_refused :
      (later : ℕ) (dto : LoginDto) (who : Option String) (e : Entry ChallengeRecord) (d : Draw)
      (t : Logins) (r : LoginResult)
      → get (c.lower dto.address) t.nonces ≡ some e
      → (dto.message === build_legacy_message (e.value).nonce "TruthBounty") ≡ false
      → (check_signer c x later dto who d t).1 ≡ ok r
      → ⊥
  other_refused later dto none e d t r found other done = cc
  other_refused later dto (some who) e d t r found other done =
      elim (Bool-cases (c.lower who === c.lower dto.address)) [
        | inr mismatch ↦ let never : err Exception.unauthorized ≡ ok r = rw mismatch at done in cc
        | inl mine ↦ elim (Bool-cases (is_live later e.until)) [
          | inr dead ↦
              let never : err Exception.unauthorized ≡ ok r = rw (mine, found, dead) at done in cc
          | inl live ↦
              let done' : (check_challenge c x later dto (some e.value) d t).1 ≡ ok r =
                rw (mine, found, live) at done in
              elim (Bool-cases (is_stale c x later e.value)) [
                | inl old ↦ let never : err Exception.unauthorized ≡ ok r = rw old at done' in cc
                | inr young ↦
                    let never : err Exception.unauthorized ≡ ok r = rw (young, other) at done' in cc
              ]
        ]
      ]

  -- The message of a challenge in the format of EIP-4361 never logs in: sent back at once or later,
  -- with nothing in between and any signature, for the wallet in either case of its letters, it gives
  -- no token pair. The challenge was stored, and its nonce has no line feed.
  pub siwe_challenge_refused :
      (now later : ℕ) (address address' signature nonce : String) (o : ChallengeOptions) (d : Draw)
      (s : Logins) (ch : Challenge) (r : LoginResult)
      → (generate_challenge c x now true address o nonce s).1 ≡ ok ch
      → ch.format ≡ siwe
      → c.lower address' ≡ c.lower address
      → has_code 10 nonce ≡ false
      → (login c x later
          (record { address = address'; signature = signature; message = ch.message })
          d
          (generate_challenge c x now true address o nonce s).0).1
        ≢ ok r
  unfolding login
  siwe_challenge_refused now later address address' signature nonce o d s ch r made format same
        flat =
      λ done.
        let is_ch = challenged now address o nonce s ch made in
        let text : ch.message ≡ build_siwe_message x now (siwe_params x address o nonce) =
          ap (λ (k : Challenge). k.message) (sym is_ch)
          ∙ format-siwe x now address o nonce (ap (λ (k : Challenge). k.format) is_ch ∙ format) in
        let other =
          ap (λ m. m === build_legacy_message nonce "TruthBounty") text
          ∙ siwe_is_not_legacy x now (siwe_params x address o nonce) nonce flat in
        let found =
          ap (λ a. get a (generate_challenge c x now true address o nonce s).0.nonces) same
          ∙ stored-get now address o nonce s in
        other_refused later
          (record { address = address'; signature = signature; message = ch.message })
          (x.recover ch.message signature)
          (record {
            value = record { nonce = nonce; issued_at = now };
            until = some (now + 300000);
          })
          d (generate_challenge c x now true address o nonce s).0 r found other done
