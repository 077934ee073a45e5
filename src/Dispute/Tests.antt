-- ===== src/Dispute/Tests.antt =====
-- The theorems on disputes at a concrete table, with natural numbers for the confidences.
use truthbounty_api.Prelude.{
  ℕ, String, ◌≡◌, refl, none, some, [], ◌∷◌, true, string_eq, ok, ltb, leb,
}
use truthbounty_api.Prelude.Maps.{get}
use truthbounty_api.Dispute.Types.{
  Confidences, DisputeConfig, default_config, Dispute, Disputes, manual, CreateDisputeDto,
  RejectDisputeDto,
}
use truthbounty_api.Dispute.{new_dispute, create_dispute, turned_down, reject_dispute}
use truthbounty_api.Dispute.Lifecycle.{creates, rejects}
use truthbounty_api.Dispute.Creation.{IsSound}
use truthbounty_api.Dispute.Safety.{Step-IsSound, Step-keeps_closed}

abbrev percents : Confidences ℕ
percents = record { zero_ = 0; one = 100; lt = ltb; le = leb; is_finite = λ n. true }

abbrev config : DisputeConfig ℕ
config = default_config 60 30

abbrev a_dto : String → CreateDisputeDto ℕ
a_dto claim = record {
  claim_id = claim;
  trigger = manual;
  original_confidence = 50;
  initiator_id = none;
  metadata = none;
}

no_disputes-IsSound : IsSound config []
no_disputes-IsSound = record {
  keyed = λ id d row. cc;
  consistent = λ id d row. cc;
  single = λ i j d e row row' same open_ open'. cc;
  spaced = λ i j d e row row' same. cc;
}

abbrev created : Disputes ℕ × Dispute ℕ
created = (("d", new_dispute "d" 1 (a_dto "c")) ∷ [], new_dispute "d" 1 (a_dto "c"))

creates_dispute : create_dispute percents config "d" 1 (a_dto "c") [] ≡ ok created
unfolding create_dispute
creates_dispute = refl

Step-IsSound_example : IsSound config created.0
Step-IsSound_example =
    Step-IsSound percents config [] created.0
      (creates "d" 1 (a_dto "c") created refl creates_dispute) no_disputes-IsSound

abbrev same : String → String
same t = t

abbrev a_rejection : RejectDisputeDto
a_rejection = record { dispute_id = "d"; reason = some "spam"; rejected_by = none }

abbrev rejected_dispute : Dispute ℕ
rejected_dispute = turned_down "spam" none 2 created.1

abbrev rejected_table : Disputes ℕ × Dispute ℕ
rejected_table = (("d", rejected_dispute) ∷ [], rejected_dispute)

rejects_dispute : reject_dispute same a_rejection 2 created.0 ≡ ok rejected_table
unfolding reject_dispute
rejects_dispute = refl

created-IsSound : IsSound config created.0
created-IsSound =
    Step-IsSound percents config [] created.0
      (creates "d" 1 (a_dto "c") created refl creates_dispute) no_disputes-IsSound

rejected_table-IsSound : IsSound config rejected_table.0
rejected_table-IsSound =
    Step-IsSound percents config created.0 rejected_table.0
      (rejects same a_rejection 2 rejected_table rejects_dispute) created-IsSound

abbrev two_disputes : Disputes ℕ
two_disputes = ("d", rejected_dispute) ∷ ("e", new_dispute "e" 3 (a_dto "b")) ∷ []

creates_another :
    create_dispute percents config "e" 3 (a_dto "b") rejected_table.0
    ≡ ok (two_disputes, new_dispute "e" 3 (a_dto "b"))
unfolding create_dispute
creates_another = refl

Step-keeps_closed_example : get "d" two_disputes ≡ some rejected_dispute
Step-keeps_closed_example =
    Step-keeps_closed percents config rejected_table.0 two_disputes "d" rejected_dispute
      (creates "e" 3 (a_dto "b") (two_disputes, new_dispute "e" 3 (a_dto "b")) refl creates_another)
      rejected_table-IsSound refl refl
