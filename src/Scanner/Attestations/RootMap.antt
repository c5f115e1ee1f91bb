-- ===== src/Scanner/Attestations/RootMap.antt =====
-- src/scanner/attestations/dense.rs: the blocks of the scanned slots and the canonical roots that
-- votes are compared with. The requests that run side by side stand in the order of their slots.
pub mod Carry
pub mod Complete
use dabeacon_indexer.Prelude.{
  ℕ, zero, suc, ◌+◌, ◌-◌, ltb, if◌then◌else◌, Bool, true, false, ◌&&◌, not, List, [], ◌∷◌, Option,
  none, some, or_else, HashMap, lookup, insert, contains_key, nat_key,
}
use dabeacon_indexer.Error.{Result, ok, ok_or, ◌>>=◌, inconsistent_beacon_data}
use dabeacon_indexer.Chain.{ChainSpec}
use dabeacon_indexer.Beacon.Types.{BlockRoot, Checkpoint, SignedBeaconBlock}
use dabeacon_indexer.Scanner.Attestations.{VoteContext}
use dabeacon_indexer.Scanner.Attestations.Roots.{search_back}

-- The slots with their blocks, as far as they are there.
abbrev pub Blocks : Type 0
Blocks = List (ℕ × Option SignedBeaconBlock)

unfoldable pub fetch_blocks_for_slots :
    (ℕ → Result (Option SignedBeaconBlock)) → List ℕ → Result Blocks
fetch_blocks_for_slots get_block [] = ok []
fetch_blocks_for_slots get_block (slot ∷ slots) = do
  block ← get_block slot
  blocks ← fetch_blocks_for_slots get_block slots
  ok ((slot, block) ∷ blocks)

-- A slot without a root of its own gets the one carried forward.
abbrev pub fill : ℕ → BlockRoot → HashMap ℕ BlockRoot → HashMap ℕ BlockRoot
fill slot root roots = if contains_key slot roots then roots else insert slot root roots

-- `for slot in slot..slot + count`, with the last known root.
unfoldable pub carry_roots :
    ℕ → ℕ → Option BlockRoot → HashMap ℕ BlockRoot → Result (HashMap ℕ BlockRoot)
carry_roots slot zero last_known_root roots = ok roots
carry_roots slot (suc count) last_known_root roots =
    ok_or inconsistent_beacon_data (or_else (lookup slot roots) last_known_root) >>= λ root.
    carry_roots (slot + 1) count (some root) (fill slot root roots)

module _ (spec : ChainSpec) (get_block_root : ℕ → Result (Option BlockRoot)) where
  -- The roots of the blocks that are there; one without a root is an error.
  unfoldable pub fetch_roots : HashMap ℕ BlockRoot → Blocks → Result (HashMap ℕ BlockRoot)
  fetch_roots roots [] = ok roots
  fetch_roots roots ((slot, none) ∷ blocks) = fetch_roots roots blocks
  fetch_roots roots ((slot, some block) ∷ blocks) = get_block_root slot >>= λ answer.
      ok_or inconsistent_beacon_data answer >>= λ root. fetch_roots (insert slot root roots) blocks

  -- The last root before the epoch, where the epoch's first slot has none.
  unfoldable pub root_before : ℕ → HashMap ℕ BlockRoot → Result (Option BlockRoot)
  root_before start_slot roots =
      if ltb 0 start_slot && not (contains_key start_slot roots)
      then search_back get_block_root (start_slot - (start_slot - spec.slots_per_epoch))
          (start_slot - 1)
      else ok none

  unfoldable pub build_block_root_map : ℕ → Blocks → Result (HashMap ℕ BlockRoot)
  build_block_root_map start_slot blocks = do
    roots ← fetch_roots [] blocks
    last_known_root ← root_before start_slot roots
    carry_roots start_slot spec.slots_per_epoch last_known_root roots

  unfoldable pub build_vote_context : (ℕ → Result Checkpoint) → ℕ → ℕ → Blocks → Result VoteContext
  build_vote_context get_current_justified epoch start_slot blocks = do
    block_roots ← build_block_root_map start_slot blocks
    target_root ← ok_or inconsistent_beacon_data (lookup start_slot block_roots)
    justified ← get_current_justified start_slot
    ok (record {
      block_roots = block_roots;
      target_root = target_root;
      target_epoch = epoch;
      source = some justified;
    })
