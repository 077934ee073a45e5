-- ===== src/Dispute/Safety.antt =====
-- Every operation on disputes against the soundness of the table and the rows that are closed.
use truthbounty_api.Prelude.{
  String, ◌≡◌, sym, ◌∙◌, subst, inl, inr, none, some, true, false, string_eq, ◌===◌, Bool-cases,
  eq_of_beq,
}
use mathlib.Core.Option.{some-injective}
use truthbounty_api.Prelude.Maps.{get, get-put}
use truthbounty_api.Dispute.Types.{Dispute, Disputes, Confidences, DisputeConfig}
use truthbounty_api.Dispute.{is_resolvable}
use truthbounty_api.Dispute.Lifecycle.{Move, added, advanced, Step, Step-Move}
use truthbounty_api.Dispute.Creation.{IsSound, added-IsSound, advanced-IsSound}

module _ {Num : Type 0} where
  Move-IsSound :
      (config : DisputeConfig Num) (ds es : Disputes Num)
      → Move config ds es
      → IsSound config ds
      → IsSound config es
  Move-IsSound config ds es (added id n now fresh own fine born quiet rested) h =
      added-IsSound config ds h id n now own fine born quiet rested
  Move-IsSound config ds es (advanced id o n row advance) h =
      advanced-IsSound config ds h id o n row advance

  -- Every operation on disputes that returns keeps the table sound: one open dispute for each claim
  -- at most, the cooldown between the creations of two disputes of a claim, the outcome and the final
  -- confidence set exactly on resolved disputes, and `resolvedAt` set on every closed dispute, and on
  -- one that is open or under review only by an expiry, which writes its reason and no status. The id
  -- of a new dispute is new.
  pub Step-IsSound :
      (a : Confidences Num) (config : DisputeConfig Num) (ds es : Disputes Num)
      → Step a config ds es
      → IsSound config ds
      → IsSound config es
  Step-IsSound a config ds es step h = Move-IsSound config ds es (Step-Move a config ds es step) h

  Move-keeps_closed :
      (config : DisputeConfig Num) (ds es : Disputes Num) (id : String) (d : Dispute Num)
      → Move config ds es
      → IsSound config ds
      → get id ds ≡ some d
      → is_resolvable d.status ≡ false
      → get id es ≡ some d
  Move-keeps_closed config ds es id d (added j n now fresh own fine born quiet rested) h row
        closed =
      elim (Bool-cases (j === id)) [
        | inl same_id ↦
            let gone : get id ds ≡ none =
              subst (λ k. get k ds ≡ none) (eq_of_beq j id same_id) fresh in
            cc
        | inr other ↦ get-put j id n ds ∙ rw other row
      ]
  Move-keeps_closed config ds es id d (advanced j o n found advance) h row closed =
      elim (Bool-cases (n.id === id)) [
        | inl same_id ↦
            let at_id : j ≡ id =
              sym (advance.same_id ∙ h.keyed j o found) ∙ eq_of_beq n.id id same_id in
            let same : o ≡ d =
              some-injective _ _ (sym (subst (λ k. get k ds ≡ some o) at_id found) ∙ row) in
            let live : is_resolvable d.status ≡ true =
              subst (λ x. is_resolvable x.status ≡ true) same advance.was_live in
            cc
        | inr other ↦ get-put n.id id n ds ∙ rw other row
      ]

  -- A dispute that is resolved or rejected is the same after every operation that returns, on a sound
  -- table; the id of a new dispute is new.
  pub Step-keeps_closed :
      (a : Confidences Num) (config : DisputeConfig Num) (ds es : Disputes Num) (id : String)
      (d : Dispute Num)
      → Step a config ds es
      → IsSound config ds
      → get id ds ≡ some d
      → is_resolvable d.status ≡ false
      → get id es ≡ some d
  Step-keeps_closed a config ds es id d step h row closed =
      Move-keeps_closed config ds es id d (Step-Move a config ds es step) h row closed
