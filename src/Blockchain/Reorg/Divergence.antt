-- ===== src/Blockchain/Reorg/Divergence.antt =====
-- How far back the divergence search goes, and what a detected reorg covers.
use truthbounty_api.Prelude.{
  ℕ, zero, suc, ◌+◌, ◌-◌, ◌≤◌, ◌<◌, ◌≡◌, ◌≢◌, refl, sym, ap, ◌∙◌, inl, inr, none, some, [], arith,
  Bool-cases, true, false, nat_eq, string_eq, pair_eq, option_eq, ◌==◌, beq_ne,
}
use truthbounty_api.Prelude.Int.{sub_ℕ, pos_part}
use truthbounty_api.Blockchain.Types.{BlockInfo, BlockRecord, ReorgEvent}
use truthbounty_api.Blockchain.State.{State, get_canonical_block}
use truthbounty_api.Blockchain.Reorg.{
  divergence_from, find_divergence_point, goes_on, detect_reorg, reorg_at, block_range, range_from,
  events_in, event_ids, get_affected_events,
}

divergence_from_bound :
    (s : State) (cur : BlockInfo) (n d : ℕ)
    → (d ≤ divergence_from s cur n d)
      × (divergence_from s cur n d ≤ d + n)
      × (d ≤ 1001 → divergence_from s cur n d ≤ 1001)
unfolding divergence_from
divergence_from_bound s cur zero d = (omega arith, omega arith, λ h. h)
divergence_from_bound s cur (suc n) d = ground (arith, divergence_from_bound s cur n (d + 1))

-- The search ends within the chain and within 1001 blocks.
find_divergence_point_bound :
    (s : State) (cur : BlockInfo)
    → (find_divergence_point s cur ≤ cur.number) × (find_divergence_point s cur ≤ 1001)
unfolding find_divergence_point
find_divergence_point_bound s cur =
    let h = divergence_from_bound s cur cur.number 0 in (omega (arith, h.1), h.2 (omega arith))

divergence_from-stop :
    (s : State) (cur : BlockInfo) (n d : ℕ)
    → goes_on s cur d (get_canonical_block (suc n) s) ≡ false
    → divergence_from s cur (suc n) d ≡ d
unfolding divergence_from
divergence_from-stop s cur n d h = ground arith

divergence_from-go :
    (s : State) (cur : BlockInfo) (n d : ℕ)
    → d ≤ 1000
    → goes_on s cur d (get_canonical_block (suc n) s) ≡ true
    → divergence_from s cur (suc n) d ≡ divergence_from s cur n (d + 1)
unfolding divergence_from
divergence_from-go s cur n d l h = ground arith

zero-add' : (d : ℕ) → 0 + d ≡ d
zero-add' d = omega arith

add-zero' : (d : ℕ) → d + 0 ≡ d
add-zero' d = omega arith

add-shift : (d k : ℕ) → d + suc k ≡ d + 1 + k
add-shift d k = omega arith

sub-zero' : (n : ℕ) → suc n - 0 ≡ suc n
sub-zero' n = omega arith

sub-shift : (n k : ℕ) → suc n - suc k ≡ n - k
sub-shift n k = omega arith

-- Where the search from a height and a depth stops before its limits, the block at that height is
-- missing or fails the test.
divergence_from_stops :
    (s : State) (cur : BlockInfo) (n d k : ℕ)
    → divergence_from s cur n d ≡ d + k
    → k < n
    → d + k ≤ 1000
    → goes_on s cur (d + k) (get_canonical_block (n - k) s) ≡ false
divergence_from_stops s cur zero d k e h l = absurd (omega arith)
divergence_from_stops s cur (suc n) d zero e h l =
    elim (Bool-cases (goes_on s cur d (get_canonical_block (suc n) s))) [
      | inl on ↦ absurd (
          omega (
            arith,
            divergence_from-go s cur n d (omega arith) on,
            (divergence_from_bound s cur n (d + 1)).0,
          ))
      | inr off ↦ rw (add-zero' d, sub-zero' n) off
    ]
divergence_from_stops s cur (suc n) d (suc k) e h l =
    elim (Bool-cases (goes_on s cur d (get_canonical_block (suc n) s))) [
      | inl on ↦
          rw (add-shift d k, sub-shift n k)
            (divergence_from_stops s cur n (d + 1) k
              (omega (arith, divergence_from-go s cur n d (omega arith) on)) (omega arith)
              (omega arith))
      | inr off ↦ absurd (omega (arith, divergence_from-stop s cur n d off))
    ]

-- If the depth that the search returns is below the block's number and at most 1000, the search
-- stopped because at that height no canonical block is stored or its hash fails the loop's test.
find_divergence_point_stops :
    (s : State) (cur : BlockInfo)
    → find_divergence_point s cur < cur.number
    → find_divergence_point s cur ≤ 1000
    → goes_on s cur
        (find_divergence_point s cur)
        (get_canonical_block (cur.number - find_divergence_point s cur) s)
      ≡ false
unfolding find_divergence_point
find_divergence_point_stops s cur h l =
    let d = divergence_from s cur cur.number 0 in
    rw (zero-add' d) at
      (divergence_from_stops s cur cur.number 0 d (sym (zero-add' d)) h (omega arith))

divergence_from-zero : (s : State) (cur : BlockInfo) (d : ℕ) → divergence_from s cur zero d ≡ d
unfolding divergence_from
divergence_from-zero s cur d = refl

find_divergence_point-none :
    (s : State) (cur : BlockInfo)
    → get_canonical_block cur.number s ≡ none
    → find_divergence_point s cur ≡ 0
unfolding find_divergence_point
find_divergence_point-none s cur h = from_height cur.number h
  where
    from_height : (n : ℕ) → get_canonical_block n s ≡ none → divergence_from s cur n 0 ≡ 0
    from_height zero p = divergence_from-zero s cur 0
    from_height (suc n) p = divergence_from-stop s cur n 0 (rw (p, goes_on) refl)

-- A missing parent record, or none processed, hides a reorg; so does a parent that matches.
detect_reorg-found :
    (cur : BlockInfo) (previous now : ℕ) (s : State) (parent : BlockRecord)
    → get_canonical_block previous s ≡ some parent
    → previous ≢ 0
    → parent.block_hash ≢ cur.parent_hash
    → detect_reorg cur previous now s
      ≡ some (reorg_at s cur previous now (find_divergence_point s cur))
unfolding detect_reorg
detect_reorg-found cur previous now s parent found first other =
    rw (found, beq_ne parent.block_hash cur.parent_hash other, not_zero previous first) refl
  where
    not_zero : (n : ℕ) → n ≢ 0 → (n == 0) ≡ false
    not_zero n h = ground arith

empty_range : (n : ℕ) → block_range (sub_ℕ (n + 1) 0) n ≡ []
empty_range n = ap (range_from (pos_part (sub_ℕ (n + 1) 0))) (no_blocks n)
  where
    no_blocks : (m : ℕ) → suc m - pos_part (sub_ℕ (m + 1) 0) ≡ 0
    no_blocks m = ground arith

-- A block whose height has no canonical block yet, as the next block of a growing chain, gives a
-- reorg of depth 0 when its parent differs from the last processed block: the affected range is
-- empty and no event is orphaned.
detect_reorg_at_tip :
    (cur : BlockInfo) (previous now : ℕ) (s : State) (parent : BlockRecord)
    → get_canonical_block previous s ≡ some parent
    → previous ≢ 0
    → parent.block_hash ≢ cur.parent_hash
    → get_canonical_block cur.number s ≡ none
    → (r : ReorgEvent) × (detect_reorg cur previous now s ≡ some r)
      × (r.reorg_depth ≡ 0)
      × (block_range r.affected_block_start r.affected_block_end ≡ [])
      × (r.orphaned_events ≡ [])
unfolding get_affected_events
detect_reorg_at_tip cur previous now s parent found first other fresh = (
  reorg_at s cur previous now 0,
  detect_reorg-found cur previous now s parent found first other
      ∙ ap (λ d. some (reorg_at s cur previous now d)) (find_divergence_point-none s cur fresh),
  refl,
  empty_range previous,
  ap (λ ns. event_ids (events_in s ns)) (empty_range previous),
)
