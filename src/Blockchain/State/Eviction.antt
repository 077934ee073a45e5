-- ===== src/Blockchain/State/Eviction.antt =====
-- What `evictOldBlocks` leaves.
use mathlib.Core.List.{Perm, Mem, mem-append_left, mem-cons, not-mem-nil}
use mathlib.Core.List.Perm
use truthbounty_api.Prelude.{
  ℕ, ◌-◌, ◌≤◌, ◌≡◌, refl, ap, ◌∙◌, sym, inl, inr, List, [], ◌∷◌, ◌++◌, arith, leb, min, length,
  take, drop, take-append-drop, length-drop, Bool-cases, suc, nat_eq, string_eq, pair_eq, option_eq,
  false,
}
use truthbounty_api.Prelude.Maps.{JsMap, keys, length-keys, keys-delete_all}
use truthbounty_api.Prelude.Sorting.{
  length-perm, sort_by, sort_by-perm, sort_by-IsSorted, AllBelow, take-drop-AllBelow,
}
use truthbounty_api.Blockchain.Types.{BlockId, BlockInfo, BlockRecord}
use truthbounty_api.Blockchain.State.{State, id_numbers, firsts, evict_old_blocks, save_block}

pub firsts-append :
    {B C : Type 0} (xs ys : List (B × C)) → firsts (xs ++ ys) ≡ firsts xs ++ firsts ys
firsts-append [] ys = refl
firsts-append ((b, c) ∷ xs) ys = ap (◌∷◌ b) (firsts-append xs ys)

length-firsts : {B C : Type 0} (xs : List (B × C)) → length (firsts xs) ≡ length xs
length-firsts [] = refl
length-firsts ((b, c) ∷ xs) = ap suc (length-firsts xs)

firsts-eq-map :
    {B C : Type 0} (xs : List (B × C)) → firsts xs ≡ mathlib.Core.List.map (λ (p : B × C). p.0) xs
firsts-eq-map [] = refl
firsts-eq-map ((b, c) ∷ xs) = ap (◌∷◌ b) (firsts-eq-map xs)

pub firsts-perm : {B C : Type 0} {xs ys : List (B × C)} → Perm xs ys → Perm (firsts xs) (firsts ys)
firsts-perm {xs} {ys} p = rw (firsts-eq-map xs, firsts-eq-map ys) (Perm.map _ p)

keys-id_numbers : (m : JsMap BlockId BlockRecord) → keys m ≡ firsts (id_numbers m)
keys-id_numbers [] = refl
keys-id_numbers ((id, b) ∷ m) = ap (◌∷◌ id) (keys-id_numbers m)

length-id_numbers : (m : JsMap BlockId BlockRecord) → length (id_numbers m) ≡ length m
length-id_numbers [] = refl
length-id_numbers ((id, b) ∷ m) = ap suc (length-id_numbers m)

abbrev number_of : BlockId × ℕ → ℕ
number_of p = p.1

abbrev by_number : State → List (BlockId × ℕ)
by_number s = sort_by number_of (id_numbers s.blocks)

abbrev excess : State → ℕ
excess s = length s.blocks - s.max_blocks_in_memory

keys-split :
    (s : State) (n : ℕ)
    → Perm (keys s.blocks) (firsts (take n (by_number s)) ++ firsts (drop n (by_number s)))
keys-split s n =
    rw
      (
        keys-id_numbers s.blocks,
        ← firsts-append (take n (by_number s)) (drop n (by_number s)),
        take-append-drop n (by_number s),
      )
      (firsts-perm (sort_by-perm number_of (id_numbers s.blocks)))

keys-evicted :
    (s : State)
    → leb (length s.blocks) s.max_blocks_in_memory ≡ false
    → Perm (keys (evict_old_blocks s).blocks) (firsts (drop (excess s) (by_number s)))
unfolding evict_old_blocks
keys-evicted s h = rw h (keys-delete_all _ _ s.blocks (keys-split s (excess s)))

length-by_number : (s : State) → length (by_number s) ≡ length s.blocks
length-by_number s =
    sym (length-perm (sort_by-perm number_of (id_numbers s.blocks))) ∙ length-id_numbers s.blocks

length-evicted :
    (s : State)
    → leb (length s.blocks) s.max_blocks_in_memory ≡ false
    → length (evict_old_blocks s).blocks ≡ s.max_blocks_in_memory
length-evicted s h = omega (
  arith,
  length-keys (evict_old_blocks s).blocks,
  length-perm (keys-evicted s h),
  length-firsts (drop (excess s) (by_number s)),
  length-drop (excess s) (by_number s),
  length-by_number s,
  over s h,
)
  where
    over :
        (s : State)
        → leb (length s.blocks) s.max_blocks_in_memory ≡ false
        → s.max_blocks_in_memory ≤ length s.blocks
    over s h = ground arith

-- However many blocks there were, after a block is saved the map holds at most
-- `max_blocks_in_memory` of them.
save_block-bound :
    (block : BlockInfo) (now : ℕ) (s : State)
    → length (save_block block now s).blocks ≤ s.max_blocks_in_memory
unfolding save_block evict_old_blocks
save_block-bound block now s = evict-bound _
  where
    evict-bound : (t : State) → length (evict_old_blocks t).blocks ≤ t.max_blocks_in_memory
    evict-bound t = elim (Bool-cases (leb (length t.blocks) t.max_blocks_in_memory)) [
      | inl fits ↦ rw (fits, evict_old_blocks) (ground arith)
      | inr full ↦ omega (arith, length-evicted t full)
    ]

-- What an eviction did to the blocks, listed with their numbers.
pub record Evicted (s t : State) : Type 0 where
  pub gone : List (BlockId × ℕ)
  pub kept : List (BlockId × ℕ)
  pub all : Perm (id_numbers s.blocks) (gone ++ kept)
  pub left : Perm (keys t.blocks) (firsts kept)
  pub size : length kept ≡ min (length s.blocks) s.max_blocks_in_memory
  pub oldest : AllBelow number_of gone kept

-- Eviction splits the stored blocks in two: the ids that stay are those of `kept`, which has the
-- smaller of the map's size and the limit many entries, and no block that went has a higher number
-- than one that stayed.
evict_old_blocks-Evicted : (s : State) → Evicted s (evict_old_blocks s)
unfolding evict_old_blocks
evict_old_blocks-Evicted s = elim (Bool-cases (leb (length s.blocks) s.max_blocks_in_memory)) [
  | inl fits ↦ record {
    gone = [];
    kept = id_numbers s.blocks;
    all = Perm.rfl;
    left = rw (fits, keys-id_numbers s.blocks) Perm.rfl;
    size = rw (length-id_numbers s.blocks) (ground arith);
    oldest = tt;
  }
  | inr full ↦ record {
    gone = take (excess s) (by_number s);
    kept = drop (excess s) (by_number s);
    all =
        rw (take-append-drop (excess s) (by_number s))
          (sort_by-perm number_of (id_numbers s.blocks));
    left = keys-evicted s full;
    size = omega (arith, length-drop (excess s) (by_number s), length-by_number s, over s full);
    oldest =
        take-drop-AllBelow number_of (excess s) (by_number s)
          (sort_by-IsSorted number_of (id_numbers s.blocks));
  }
]
  where
    over :
        (s : State)
        → leb (length s.blocks) s.max_blocks_in_memory ≡ false
        → s.max_blocks_in_memory ≤ length s.blocks
    over s h = ground arith
