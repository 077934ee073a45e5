-- ===== src/Blockchain/Reconcile/Affected.antt =====
-- src/blockchain/reconciliation.service.ts: what `handleReorg` leaves of events and blocks, by
-- membership of the ids and the order of the numbers.
use mathlib.Core.List.{Mem, mem-cons_of_mem, mem-cons_self, not-mem-nil, mem_of_ne_of_mem}
use truthbounty_api.Prelude.{
  ℕ, zero, suc, ◌+◌, ◌-◌, ◌≤◌, ◌<◌, ◌≡◌, refl, ap, ◌∙◌, inl, inr, Option, none, some, List, [], ◌∷◌,
  arith, Bool-cases, Bool, true, false, nat_eq, string_eq, pair_eq, option_eq, ok, ◌===◌, eq_of_beq,
  beq_refl, if◌then◌else◌,
}
use truthbounty_api.Prelude.Int.{ℤ, pos, ◌≤ℤ◌}
use truthbounty_api.Prelude.Maps.{get}
use truthbounty_api.Blockchain.Types.{
  BlockId, BlockRecord, EventId, PendingEvent, ReorgEvent, orphaned,
}
use truthbounty_api.Blockchain.State.{State, includes}
use truthbounty_api.Blockchain.State.Sweep.{mapped}
use truthbounty_api.Blockchain.Reorg.{block_range, range_from}
use truthbounty_api.Blockchain.Reconcile.{handle_reorg}
use truthbounty_api.Blockchain.Reconcile.Rollback.{has, rolled, unmarked, handle_reorg_parts}

mem_of_has : (js : List EventId) (id : EventId) → has js id ≡ true → Mem id js
mem_of_has [] id h = cc
mem_of_has (j ∷ js) id h = elim (Bool-cases (j === id)) [
  | inl same ↦ rw (eq_of_beq j id same) mem-cons_self
  | inr other ↦ mem-cons_of_mem j (mem_of_has js id (rw other at h))
]

not-mem_of_has : (js : List EventId) (id : EventId) → has js id ≡ false → ¬ Mem id js
not-mem_of_has [] id h m = not-mem-nil m
not-mem_of_has (j ∷ js) id h m = elim (Bool-cases (j === id)) [
  | inl same ↦ let clash : true ≡ false = rw same at h in cc
  | inr other ↦
      not-mem_of_has js id (rw other at h)
        (mem_of_ne_of_mem (λ p. let yes = beq_refl id in cc (yes, other, p)) m)
]

-- The numbers of a range, by their bounds.
includes-range_from :
    (start count n : ℕ)
    → (start ≤ n → n < start + count → includes (range_from start count) n ≡ true)
      × (n < start → includes (range_from start count) n ≡ false)
      × (start + count ≤ n → includes (range_from start count) n ≡ false)
includes-range_from start zero n = (λ h k. absurd (omega arith), λ h. refl, λ h. refl)
includes-range_from start (suc count) n = ground (arith, includes-range_from (suc start) count n)

-- The number of a block lies in the affected range of a reorg.
abbrev pub IsAffected : ReorgEvent → ℕ → Type 0
IsAffected r n = (r.affected_block_start ≤ℤ pos n) × (n ≤ r.affected_block_end)

includes-block_range :
    (start : ℤ) (end n : ℕ)
    → ((start ≤ℤ pos n) × (n ≤ end) → includes (block_range start end) n ≡ true)
      × (¬ ((start ≤ℤ pos n) × (n ≤ end)) → includes (block_range start end) n ≡ false)
includes-block_range (ℤ.pos p) end n = ground (arith, includes-range_from p (suc end - p) n)
includes-block_range (ℤ.negsuc p) end n = ground (arith, includes-range_from 0 (suc end) n)

rolled_stored :
    (ids : List EventId) (now : ℕ) (id : EventId) (e : PendingEvent)
    → (Mem id ids → rolled ids now id (some e) ≡ some (record e { status = orphaned }))
      × (¬ Mem id ids → rolled ids now id (some e) ≡ some e)
rolled_stored ids now id e = elim (Bool-cases (has ids id)) [
  | inl hit ↦ (λ m. rw hit refl, λ out. absurd (out (mem_of_has ids id hit)))
  | inr miss ↦ (λ m. absurd (not-mem_of_has ids id miss m), λ out. rw miss refl)
]

abbrev unmarked_if : BlockRecord → Bool → Option BlockRecord
unmarked_if b c = some (if c then record b { is_canonical = false } else b)

rolled_absent : (ids : List EventId) (now : ℕ) (id : EventId) → rolled ids now id none ≡ none
rolled_absent ids now id = ground arith

-- Handling a reorg never throws. Afterwards each stored event whose id is among the reorg's
-- orphaned events has the status orphaned, with its other fields as before, and each other stored
-- event is the same; each stored block whose number is at least the affected start and at most the
-- affected end is not canonical, with its other fields as before, and each other stored block is
-- the same; no event and no block is added; and the last processed block is the same.
pub handle_reorg_lem :
    (r : ReorgEvent) (now : ℕ) (s : State)
    → (t : State) × (handle_reorg r now s ≡ ok t)
      × ((id : EventId) (e : PendingEvent)
          → get id s.events ≡ some e
          → (Mem id r.orphaned_events → get id t.events ≡ some (record e { status = orphaned }))
            × (¬ Mem id r.orphaned_events → get id t.events ≡ some e))
      × ((id : EventId) → get id s.events ≡ none → get id t.events ≡ none)
      × ((id : BlockId) (b : BlockRecord)
          → get id s.blocks ≡ some b
          → (IsAffected r b.block_number
              → get id t.blocks ≡ some (record b { is_canonical = false }))
            × (¬ IsAffected r b.block_number → get id t.blocks ≡ some b))
      × ((id : BlockId) → get id s.blocks ≡ none → get id t.blocks ≡ none)
      × ((t.chain_state).last_processed_block ≡ (s.chain_state).last_processed_block)
handle_reorg_lem r now s =
    let (t, e, events, blocks, last, w) = handle_reorg_parts r now s in
    let ids = r.orphaned_events in
    let ns = block_range r.affected_block_start r.affected_block_end in
    (
      t,
      e,
      λ id e g.
          let there = events id ∙ ap (rolled ids now id) g in
          let after = rolled_stored ids now id e in
          (λ m. there ∙ after.0 m, λ out. there ∙ after.1 out),
      λ id g. events id ∙ ap (rolled ids now id) g ∙ rolled_absent ids now id,
      λ id b g.
          let there = blocks id ∙ ap (mapped (unmarked ns)) g in
          let inside =
            includes-block_range r.affected_block_start r.affected_block_end b.block_number in
          (
            λ m. there ∙ ap (unmarked_if b) (inside.0 m),
            λ out. there ∙ ap (unmarked_if b) (inside.1 out),
          ),
      λ id g. blocks id ∙ ap (mapped (unmarked ns)) g,
      last,
    )
