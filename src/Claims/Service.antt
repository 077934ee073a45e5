-- ===== src/Claims/Service.antt =====
-- src/claims/claims.service.ts with src/cache/claims.cache.ts: the rows of the claims table and the
-- cached copies. A cached claim comes back from `JSON.parse`, so it has the fields of a claim and
-- none of its methods. The database gives a new row its id and time (`id`, `now`). An entry of the
-- cache that is not read any more (expired, or Redis is away) is `forget`.
pub mod Changes
pub mod Coherence
pub mod Writes
use truthbounty_api.Prelude.{
  ℕ, String, Option, none, some, Bool, true, false, List, [], ◌∷◌, ◌||◌, Result, ok, err, Exception,
  string_eq, ◌===◌, ◌||◌, ltb, if◌then◌else◌, ◌>>=◌, ◌>>◌, throw_if,
}
use truthbounty_api.Prelude.Maps.{JsMap, get, put, delete}
use truthbounty_api.Prelude.Texts.{utf16_length}
use truthbounty_api.Claims.Entity.{Claim, ClaimState, ClaimTransitionData, transition_to}

pub record Store (Score : Type 0) : Type 0 where
  pub rows : JsMap String (Claim Score)
  pub claim_cache : JsMap String (Claim Score)
  pub latest_cache : Option (List (Claim Score))
  pub user_cache : JsMap String (List (Claim Score))

pub record CreateClaimDto : Type 0 where
  pub title : String
  pub content : String
  pub source : Option String
  pub metadata : Option String

-- A claim as `findOne` returns it: an entity of the repository, or the parsed text of the cache.
pub data Found (Score : Type 0) : Type 0 where
  entity : Claim Score → Found Score
  parsed : Claim Score → Found Score

abbrev pub has_id : String → List String → Bool
has_id id [] = false
has_id id (j ∷ js) = j === id || has_id id js

-- `[...new Set(ids)]`, in the order of the first occurrences.
abbrev pub distinct_from : List String → List String → List String
distinct_from seen [] = []
distinct_from seen (id ∷ ids) =
    let rest = distinct_from (id ∷ seen) ids in
    let skipped = distinct_from seen ids in if has_id id seen then skipped else id ∷ rest

abbrev pub distinct : List String → List String
distinct ids = distinct_from [] ids

module _ {Score : Type 0} where
  abbrev pub cache_row :
      String → Store Score → Option (Claim Score) → Store Score × Option (Found Score)
  cache_row id s none = (s, none)
  cache_row id s (some c) = (record s { claim_cache = put id c s.claim_cache }, some (entity c))

  abbrev pub from_cache :
      String → Store Score → Option (Claim Score) → Store Score × Option (Found Score)
  from_cache id s (some c) = (s, some (parsed c))
  from_cache id s none = cache_row id s (get id s.rows)

  unfoldable pub find_one : String → Store Score → Store Score × Option (Found Score)
  find_one id s = from_cache id s (get id s.claim_cache)

  -- `latest` is the answer of the query for the newest claims.
  unfoldable pub find_latest : List (Claim Score) → Store Score → Store Score × List (Claim Score)
  find_latest latest s = elim s.latest_cache [
    | some cs ↦ (s, cs)
    | none ↦ (record s { latest_cache = some latest }, latest)
  ]

  -- `findByUser` after the cache: no query, and no entry, without a stake.
  abbrev pub query_user :
      String
      → (List String → List (Claim Score))
      → List String
      → Store Score
      → Store Score × List (Claim Score)
  query_user key query [] s = (s, [])
  query_user key query (id ∷ ids) s =
      (record s { user_cache = put key (query (id ∷ ids)) s.user_cache }, query (id ∷ ids))

  abbrev pub user_or_query :
      String
      → (List String → List (Claim Score))
      → List String
      → Store Score
      → Option (List (Claim Score))
      → Store Score × List (Claim Score)
  user_or_query key query ids s (some cs) = (s, cs)
  user_or_query key query ids s none = query_user key query (distinct ids) s

  -- `ids` are the claims of the wallet's stakes; `query` answers for the claims with given ids.
  unfoldable pub find_by_user :
      (String → String)
      → String
      → (List String → List (Claim Score))
      → List String
      → Store Score
      → Store Score × List (Claim Score)
  find_by_user lower wallet query ids s =
      user_or_query (lower wallet) query ids s (get (lower wallet) s.user_cache)

  unfoldable pub invalidate_claim : String → Store Score → Store Score
  invalidate_claim id s = record s { claim_cache = delete id s.claim_cache; latest_cache = none }

  unfoldable pub forget : String → Store Score → Store Score
  forget id s = record s { claim_cache = delete id s.claim_cache }

  unfoldable pub new_claim : String → CreateClaimDto → ℕ → Claim Score
  new_claim id dto now = record {
    id = id;
    title = dto.title;
    content = dto.content;
    source = dto.source;
    metadata = dto.metadata;
    resolved_verdict = none;
    confidence_score = none;
    finalized = false;
    created_at = now;
    resolved_at = none;
  }

  unfoldable pub create_claim :
      String → CreateClaimDto → ℕ → Store Score → Result (Store Score × Claim Score)
  create_claim id dto now s =
      throw_if (ltb 200 (utf16_length dto.title)) Exception.bad_request
      >> throw_if (ltb 5000 (utf16_length dto.content)) Exception.bad_request
      >> ok (
        record s {
          rows = put id (new_claim id dto now) s.rows;
          claim_cache = put id (new_claim id dto now) s.claim_cache;
          latest_cache = none;
        },
        new_claim id dto now,
      )

  -- The method call on what `findOne` returned: a TypeError on a parsed object.
  abbrev pub call_transition :
      ClaimState
      → Option (ClaimTransitionData Score)
      → ℕ
      → Option (Found Score)
      → Result (Claim Score)
  call_transition target d now none = err Exception.error
  call_transition target d now (some (parsed c)) = err Exception.error
  call_transition target d now (some (entity c)) = transition_to target d now c

  -- `save` and the invalidation, where nothing was thrown before.
  abbrev pub save_moved :
      String → Store Score → Result (Claim Score) → Store Score × Result (Claim Score)
  save_moved id s (err e) = (s, err e)
  save_moved id s (ok c) = (invalidate_claim id (record s { rows = put c.id c s.rows }), ok c)

  abbrev pub change_claim :
      String
      → ClaimState
      → Option (ClaimTransitionData Score)
      → ℕ
      → Store Score
      → Store Score × Result (Claim Score)
  change_claim id target d now s =
      save_moved id (find_one id s).0 (call_transition target d now (find_one id s).1)

  unfoldable pub resolve_claim :
      String → Bool → Score → ℕ → Store Score → Store Score × Result (Claim Score)
  resolve_claim id verdict confidence now s =
      change_claim id ClaimState.resolved
        (some (record { verdict = some verdict; confidence = some confidence })) now s

  unfoldable pub finalize_claim : String → ℕ → Store Score → Store Score × Result (Claim Score)
  finalize_claim id now s = change_claim id ClaimState.finalized none now s
