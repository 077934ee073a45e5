-- ===== src/Blockchain/Reorg.antt =====
-- src/blockchain/reorg-detector.service.ts: `ReorgDetectorService`. It reads the state and keeps
-- one number, the confirmation depth, which is an argument here.
pub mod Divergence
use truthbounty_api.Prelude.{
  ℕ, zero, suc, ◌+◌, ◌-◌, String, ◌===◌, ◌==◌, string_eq, Bool, not, Option, none, some, List, [],
  ◌∷◌, ◌++◌, map, if◌then◌else◌, leb, ltb, Result, ok, err, error,
}
use truthbounty_api.Prelude.Int.{ℤ, pos_part, sub_ℕ}
use truthbounty_api.Blockchain.Types.{BlockInfo, BlockRecord, EventId, PendingEvent, ReorgEvent}
use truthbounty_api.Blockchain.State.{
  State, get_canonical_block, get_canonical_block_by_hash, get_events_by_block,
}

-- The `while` of `getAncestorHashAtDepth`; a missing block gives the empty text.
unfoldable pub get_ancestor_hash_at_depth : State → String → ℕ → String
get_ancestor_hash_at_depth s hash zero = hash
get_ancestor_hash_at_depth s hash (suc k) = elim (get_canonical_block_by_hash hash s) [
  | none ↦ ""
  | some b ↦ get_ancestor_hash_at_depth s b.parent_hash k
]

-- The test of the loop's `else` branch.
abbrev pub expected_hash : State → BlockInfo → ℕ → String
expected_hash s cur d = if d == 0 then cur.hash else get_ancestor_hash_at_depth s cur.hash d

-- Whether the walk goes on to the block below.
unfoldable pub goes_on : State → BlockInfo → ℕ → Option BlockRecord → Bool
goes_on s cur d none = Bool.false
goes_on s cur d (some b) =
    if not (b.block_hash === cur.parent_hash)
    then Bool.true
    else b.block_hash === expected_hash s cur d

-- `while (checkBlockNumber > 0 && divergenceDepth <= 1000)`, by recursion on `checkBlockNumber`.
unfoldable pub divergence_from : State → BlockInfo → ℕ → ℕ → ℕ
unfolding goes_on
divergence_from s cur zero d = d
divergence_from s cur (suc n) d =
    let rest = divergence_from s cur n (d + 1) in
    if leb d 1000 then (if goes_on s cur d (get_canonical_block (suc n) s) then rest else d) else d

unfoldable pub find_divergence_point : State → BlockInfo → ℕ
unfolding divergence_from
find_divergence_point s cur = divergence_from s cur cur.number 0

-- The whole numbers from `start` on, `count` of them.
abbrev pub range_from : ℕ → ℕ → List ℕ
range_from start zero = []
range_from start (suc count) = start ∷ range_from (suc start) count

-- `for (n = start; n <= end; n++)`. No block has a number below zero, so such `n` select nothing
-- and are left out.
abbrev pub block_range : ℤ → ℕ → List ℕ
block_range start end = range_from (pos_part start) (suc end - pos_part start)

abbrev pub events_in : State → List ℕ → List PendingEvent
events_in s [] = []
events_in s (n ∷ ns) = get_events_by_block n s ++ events_in s ns

unfoldable pub get_affected_events : ℤ → ℕ → State → List PendingEvent
get_affected_events start end s = events_in s (block_range start end)

abbrev pub event_ids : List PendingEvent → List EventId
event_ids [] = []
event_ids (e ∷ es) = e.id ∷ event_ids es

abbrev pub reorg_at : State → BlockInfo → ℕ → ℕ → ℕ → ReorgEvent
reorg_at s cur previous now depth = record {
  detected_at = now;
  reorg_depth = depth;
  affected_block_start = sub_ℕ (previous + 1) depth;
  affected_block_end = previous;
  orphaned_events = event_ids (get_affected_events (sub_ℕ (previous + 1) depth) previous s);
  reprocessed_events = [];
}

unfoldable pub detect_reorg : BlockInfo → ℕ → ℕ → State → Option ReorgEvent
unfolding find_divergence_point get_affected_events
detect_reorg cur previous now s =
    if previous == 0 then none else elim (get_canonical_block previous s) [
      | none ↦ none
      | some parent ↦
          if parent.block_hash === cur.parent_hash
          then none
          else some (reorg_at s cur previous now (find_divergence_point s cur))
    ]

-- `Math.max(0, head - block)`
unfoldable pub calculate_confirmations : ℕ → ℕ → ℕ
calculate_confirmations block head = head - block

unfoldable pub is_event_confirmed : ℕ → ℕ → ℕ → Bool
unfolding calculate_confirmations
is_event_confirmed depth block head = leb depth (calculate_confirmations block head)

unfoldable pub set_confirmation_depth : ℕ → Result ℕ
set_confirmation_depth depth = if ltb depth 1 then err error else ok depth
