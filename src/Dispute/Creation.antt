-- ===== src/Dispute/Creation.antt =====
-- What the guards of a creation keep over all runs: one open dispute for each claim, and the cooldown
-- between two disputes of a claim.
use truthbounty_api.Prelude.{
  ℕ, ◌+◌, ◌≤◌, String, ◌≡◌, refl, sym, ap, ◌∙◌, subst, ◌⊎◌, inl, inr, some, true, false, [], ◌∷◌,
  string_eq, arith, beq_refl,
}
use truthbounty_api.Prelude.Maps.{get, put, values}
use truthbounty_api.Prelude.Caches.{put-some}
use truthbounty_api.Dispute.Types.{Dispute, Disputes, DisputeConfig}
use truthbounty_api.Dispute.{is_open, any_open, any_recent, hours, within}
use truthbounty_api.Dispute.Lifecycle.{IsConsistent, IsAdvance}

not_within : (now h c : ℕ) → within now h c ≡ false → c + hours h ≤ now
not_within now h c e = ground arith

module _ {Num : Type 0} where
  any_open-get :
      (claim id : String) (d : Dispute Num) (ds : Disputes Num)
      → any_open claim (values ds) ≡ false
      → get id ds ≡ some d
      → d.claim_id ≡ claim
      → is_open d.status ≡ false
  any_open-get claim id d [] quiet row own = cc
  any_open-get claim id d ((k, e) ∷ ds) quiet row own =
      ground (arith, any_open-get claim id d ds, beq_refl claim)

  any_recent-get :
      (claim id : String) (now h : ℕ) (d : Dispute Num) (ds : Disputes Num)
      → any_recent claim now h (values ds) ≡ false
      → get id ds ≡ some d
      → d.claim_id ≡ claim
      → within now h d.created_at ≡ false
  any_recent-get claim id now h d [] quiet row own = cc
  any_recent-get claim id now h d ((k, e) ∷ ds) quiet row own =
      ground (arith, any_recent-get claim id now h d ds, beq_refl claim)

  -- The disputes stand under their own ids and are consistent; a claim has one open dispute at
  -- most; two disputes of a claim were created at least the cooldown apart.
  pub record IsSound (config : DisputeConfig Num) (ds : Disputes Num) : Type 0 where
    pub keyed : (id : String) (d : Dispute Num) → get id ds ≡ some d → d.id ≡ id
    pub consistent : (id : String) (d : Dispute Num) → get id ds ≡ some d → IsConsistent d
    pub single :
        (i j : String) (d e : Dispute Num)
        → get i ds ≡ some d
        → get j ds ≡ some e
        → d.claim_id ≡ e.claim_id
        → is_open d.status ≡ true
        → is_open e.status ≡ true
        → i ≡ j
    pub spaced :
        (i j : String) (d e : Dispute Num)
        → get i ds ≡ some d
        → get j ds ≡ some e
        → d.claim_id ≡ e.claim_id
        → (i ≡ j)
          ⊎ ((d.created_at + hours config.dispute_cooldown_hours ≤ e.created_at)
              ⊎ (e.created_at + hours config.dispute_cooldown_hours ≤ d.created_at))

  module _ (config : DisputeConfig Num) (ds : Disputes Num) (h : IsSound config ds) where
    pub added-IsSound :
        (id : String) (n : Dispute Num) (now : ℕ)
        → n.id ≡ id
        → IsConsistent n
        → n.created_at ≡ now
        → any_open n.claim_id (values ds) ≡ false
        → any_recent n.claim_id now config.dispute_cooldown_hours (values ds) ≡ false
        → IsSound config (put id n ds)
    added-IsSound id n now own fine born quiet rested = record {
      keyed = λ i d row. elim (put-some id i n d ds row) [
        | inl hit ↦ sym (ap (λ x. x.id) hit.1) ∙ own ∙ hit.0
        | inr old ↦ h.keyed i d old
      ];
      consistent = λ i d row. elim (put-some id i n d ds row) [
        | inl hit ↦ subst IsConsistent hit.1 fine
        | inr old ↦ h.consistent i d old
      ];
      single = λ i j d e row row' same open_ open'. elim (put-some id i n d ds row) [
        | inl hit ↦ elim (put-some id j n e ds row') [
          | inl hit' ↦ sym hit.0 ∙ hit'.0
          | inr old' ↦
              let shut =
                any_open-get n.claim_id j e ds quiet old'
                  (sym same ∙ sym (ap (λ x. x.claim_id) hit.1)) in
              cc
        ]
        | inr old ↦ elim (put-some id j n e ds row') [
          | inl hit' ↦
              let shut =
                any_open-get n.claim_id i d ds quiet old
                  (same ∙ sym (ap (λ x. x.claim_id) hit'.1)) in
              cc
          | inr old' ↦ h.single i j d e old old' same open_ open'
        ]
      ];
      spaced = λ i j d e row row' same. elim (put-some id i n d ds row) [
        | inl hit ↦ elim (put-some id j n e ds row') [
          | inl hit' ↦ inl (sym hit.0 ∙ hit'.0)
          | inr old' ↦
              let clear = not_within now config.dispute_cooldown_hours e.created_at (
                any_recent-get n.claim_id j now config.dispute_cooldown_hours e ds rested old'
                  (sym same ∙ sym (ap (λ x. x.claim_id) hit.1))) in
              inr (
                inr (
                  subst (λ m. e.created_at + hours config.dispute_cooldown_hours ≤ m)
                    (sym born ∙ ap (λ x. x.created_at) hit.1) clear))
        ]
        | inr old ↦ elim (put-some id j n e ds row') [
          | inl hit' ↦
              let clear = not_within now config.dispute_cooldown_hours d.created_at (
                any_recent-get n.claim_id i now config.dispute_cooldown_hours d ds rested old
                  (same ∙ sym (ap (λ x. x.claim_id) hit'.1))) in
              inr (
                inl (
                  subst (λ m. d.created_at + hours config.dispute_cooldown_hours ≤ m)
                    (sym born ∙ ap (λ x. x.created_at) hit'.1) clear))
          | inr old' ↦ h.spaced i j d e old old' same
        ]
      ];
    }

    -- The row that stood where a row is found after an advance.
    record Before (id : String) (n : Dispute Num) (i : String) (d : Dispute Num) : Type 0 where
      pub old : Dispute Num
      pub row : get i ds ≡ some old
      pub claim : old.claim_id ≡ d.claim_id
      pub birth : old.created_at ≡ d.created_at
      pub open_ : is_open d.status ≡ true → is_open old.status ≡ true

    advanced-Before :
        (id i : String) (o n d : Dispute Num)
        → get id ds ≡ some o
        → IsAdvance o n
        → get i (put n.id n ds) ≡ some d
        → Before id n i d
    advanced-Before id i o n d row step found = elim (put-some n.id i n d ds found) [
      | inl hit ↦ record {
        old = o;
        row = subst (λ k. get k ds ≡ some o) (sym (step.same_id ∙ h.keyed id o row) ∙ hit.0) row;
        claim = sym step.same_claim ∙ ap (λ x. x.claim_id) hit.1;
        birth = sym step.same_birth ∙ ap (λ x. x.created_at) hit.1;
        open_ = λ q. step.was_open (ap (λ x. is_open x.status) hit.1 ∙ q);
      }
      | inr old ↦ record { old = d; row = old; claim = refl; birth = refl; open_ = λ q. q }
    ]

    pub advanced-IsSound :
        (id : String) (o n : Dispute Num)
        → get id ds ≡ some o
        → IsAdvance o n
        → IsSound config (put n.id n ds)
    advanced-IsSound id o n row step = record {
      keyed = λ i d found. elim (put-some n.id i n d ds found) [
        | inl hit ↦ sym (ap (λ x. x.id) hit.1) ∙ hit.0
        | inr old ↦ h.keyed i d old
      ];
      consistent = λ i d found. elim (put-some n.id i n d ds found) [
        | inl hit ↦ subst IsConsistent hit.1 (step.keeps (h.consistent id o row))
        | inr old ↦ h.consistent i d old
      ];
      single = λ i j d e found found' same open_ open'.
          let b = advanced-Before id i o n d row step found in
          let c = advanced-Before id j o n e row step found' in
          h.single i j b.old c.old b.row c.row (b.claim ∙ same ∙ sym c.claim) (b.open_ open_)
            (c.open_ open');
      spaced = λ i j d e found found' same.
          let b = advanced-Before id i o n d row step found in
          let c = advanced-Before id j o n e row step found' in
          let gap = hours config.dispute_cooldown_hours in
          subst (λ x. (i ≡ j) ⊎ ((x + gap ≤ e.created_at) ⊎ (e.created_at + gap ≤ x))) b.birth
            (subst
              (λ y. (i ≡ j) ⊎ (((b.old).created_at + gap ≤ y) ⊎ (y + gap ≤ (b.old).created_at)))
              c.birth (h.spaced i j b.old c.old b.row c.row (b.claim ∙ same ∙ sym c.claim)));
    }
