-- ===== src/Dispute.antt =====
-- src/dispute/dispute.service.ts, with its entity. Confidences are JavaScript numbers, whose
-- comparisons are a record of operations; `trim` is the language's; metadata is a list of entries.
-- `now` is the clock in milliseconds. The status EXPIRED, which `expireDispute` assigns, is not in the
-- entity's enum: the assigned value is undefined, and a save leaves a column alone whose value is
-- undefined.
pub mod Types
pub mod Lifecycle
pub mod Creation
pub mod Safety
mod Tests
use truthbounty_api.Prelude.{
  ℕ, ◌+◌, ◌-◌, ◌*◌, String, Option, none, some, Bool, true, false, not, ◌&&◌, ◌||◌, List, [], ◌∷◌,
  ◌++◌, Result, ok, err, Exception, string_eq, ◌===◌, if◌then◌else◌, ◌>>=◌, ◌>>◌, throw_if,
  or_throw, ltb, Eq,
}
use truthbounty_api.Prelude.Maps.{JsMap, get, put, values}
use truthbounty_api.Dispute.Types.{
  DisputeStatus, opened, reviewing, resolved, rejected, DisputeTrigger, low_confidence,
  minority_opposition, Confidences, DisputeConfig, Metadata, Dispute, Disputes, CreateDisputeDto,
  ResolveDisputeDto, RejectDisputeDto,
}

abbrev pub is_open : DisputeStatus → Bool
is_open opened = true
is_open _ = false

-- RESOLVABLE_STATUSES.
abbrev pub is_resolvable : DisputeStatus → Bool
is_resolvable opened = true
is_resolvable reviewing = true
is_resolvable _ = false

-- `{ ...old, ...new }`.
abbrev pub spread : Metadata → Metadata → Metadata
spread old [] = old
spread old ((k, v) ∷ new) = spread (put k v old) new

abbrev pub or_empty : Option Metadata → Metadata
or_empty none = []
or_empty (some m) = m

abbrev pub hours : ℕ → ℕ
hours h = h * 3600000

-- `createdAt > now - hours`, with the subtraction moved to the other side.
abbrev pub within : ℕ → ℕ → ℕ → Bool
within now h created = ltb now (created + hours h)

abbrev pub beyond : ℕ → ℕ → ℕ → Bool
beyond now h created = ltb (created + hours h) now

-- `!reason?.trim()`.
abbrev pub required : (String → String) → Option String → Result String
required trim none = err Exception.bad_request
required trim (some t) = if trim t === "" then err Exception.bad_request else ok t

abbrev pub rejection : String → Option String → Metadata
rejection reason none = ("rejectionReason", reason) ∷ []
rejection reason (some by_) =
    if by_ === ""
    then ("rejectionReason", reason) ∷ []
    else ("rejectionReason", reason) ∷ ("rejectedBy", by_) ∷ []

abbrev pub merged : Option Metadata → Metadata → Metadata
merged none old = old
merged (some new) old = spread old new

module _ {Num : Type 0} where
  abbrev pub any_open : String → List (Dispute Num) → Bool
  any_open claim [] = false
  any_open claim (d ∷ ds) = (d.claim_id === claim && is_open d.status) || any_open claim ds

  abbrev pub any_recent : String → ℕ → ℕ → List (Dispute Num) → Bool
  any_recent claim now h [] = false
  any_recent claim now h (d ∷ ds) =
      (d.claim_id === claim && within now h d.created_at) || any_recent claim now h ds

  abbrev pub expired_among : ℕ → ℕ → List (Dispute Num) → List (Dispute Num)
  expired_among now h [] = []
  expired_among now h (d ∷ ds) =
      if is_resolvable d.status && beyond now h d.created_at
      then d ∷ expired_among now h ds
      else expired_among now h ds

  -- `validateConfidence`.
  abbrev pub validate_confidence : Confidences Num → Num → Result (Unit {0})
  validate_confidence a x =
      throw_if (not (a.is_finite x) || (a.lt x a.zero_ || a.lt a.one x)) Exception.bad_request

  unfoldable pub should_trigger_dispute :
      Confidences Num → DisputeConfig Num → Num → Num → Result (Option DisputeTrigger)
  should_trigger_dispute a config confidence minority =
      validate_confidence a confidence
      >> validate_confidence a minority
      >> ok (
          if a.lt confidence config.low_confidence_threshold
          then some low_confidence
          else if a.le config.minority_opposition_threshold minority
          then some minority_opposition
          else none)

  abbrev pub new_dispute : String → ℕ → CreateDisputeDto Num → Dispute Num
  new_dispute id now dto = record {
    id = id;
    claim_id = dto.claim_id;
    status = opened;
    trigger = dto.trigger;
    original_confidence = dto.original_confidence;
    final_confidence = none;
    outcome = none;
    initiator_id = dto.initiator_id;
    metadata = or_empty dto.metadata;
    review_started_at = none;
    resolved_at = none;
    created_at = now;
  }

  unfoldable pub create_dispute :
      Confidences Num
      → DisputeConfig Num
      → String
      → ℕ
      → CreateDisputeDto Num
      → Disputes Num
      → Result (Disputes Num × Dispute Num)
  create_dispute a config id now dto ds =
      validate_confidence a dto.original_confidence
      >> throw_if (any_open dto.claim_id (values ds)) Exception.conflict
      >> throw_if (any_recent dto.claim_id now config.dispute_cooldown_hours (values ds))
          Exception.bad_request
      >> ok (put id (new_dispute id now dto) ds, new_dispute id now dto)

  -- `findDisputeOrThrow`, `assertStatus`, and the save of what `f` makes of the dispute.
  abbrev pub change_found :
      (DisputeStatus → Bool)
      → (Dispute Num → Dispute Num)
      → Disputes Num
      → Option (Dispute Num)
      → Result (Disputes Num × Dispute Num)
  change_found allowed f ds none = err Exception.not_found
  change_found allowed f ds (some d) =
      if allowed d.status then ok (put (f d).id (f d) ds, f d) else err Exception.bad_request

  abbrev pub change :
      String
      → (DisputeStatus → Bool)
      → (Dispute Num → Dispute Num)
      → Disputes Num
      → Result (Disputes Num × Dispute Num)
  change id allowed f ds = change_found allowed f ds (get id ds)

  abbrev pub reviewed : ℕ → Dispute Num → Dispute Num
  reviewed now d = record d { status = reviewing; review_started_at = some now }

  unfoldable pub start_review : String → ℕ → Disputes Num → Result (Disputes Num × Dispute Num)
  start_review id now ds = change id is_open (reviewed now) ds

  abbrev pub settled : ResolveDisputeDto Num → ℕ → Dispute Num → Dispute Num
  settled dto now d = record d {
    status = resolved;
    outcome = some dto.outcome;
    final_confidence = some dto.final_confidence;
    resolved_at = some now;
    metadata = merged dto.metadata d.metadata;
  }

  unfoldable pub resolve_dispute :
      Confidences Num
      → ResolveDisputeDto Num
      → ℕ
      → Disputes Num
      → Result (Disputes Num × Dispute Num)
  resolve_dispute a dto now ds =
      validate_confidence a dto.final_confidence
      >> change dto.dispute_id is_resolvable (settled dto now) ds

  abbrev pub turned_down : String → Option String → ℕ → Dispute Num → Dispute Num
  turned_down reason by_ now d = record d {
    status = rejected;
    resolved_at = some now;
    metadata = spread d.metadata (rejection reason by_);
  }

  unfoldable pub reject_dispute :
      (String → String) → RejectDisputeDto → ℕ → Disputes Num → Result (Disputes Num × Dispute Num)
  reject_dispute trim dto now ds = required trim dto.reason >>= λ reason.
      change dto.dispute_id is_open (turned_down reason dto.rejected_by now) ds

  -- The row of an expired dispute: its status is not written. `notice` is the text of
  -- `expiredReason`.
  abbrev pub timed_out : String → ℕ → Dispute Num → Dispute Num
  timed_out notice now d = record d {
    resolved_at = some now;
    metadata = spread d.metadata (("expiredReason", notice) ∷ []);
  }

  -- What is returned is the row; the status of the object that the code returns is undefined.
  unfoldable pub expire_dispute :
      String → String → ℕ → Disputes Num → Result (Disputes Num × Dispute Num)
  expire_dispute id notice now ds = change id is_resolvable (timed_out notice now) ds

  unfoldable pub get_expired_disputes : DisputeConfig Num → ℕ → Disputes Num → List (Dispute Num)
  get_expired_disputes config now ds =
      expired_among now config.max_dispute_duration_hours (values ds)
