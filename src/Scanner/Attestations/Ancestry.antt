-- ===== src/Scanner/Attestations/Ancestry.antt =====
-- The roots that votes are compared with: `build_block_root_map` of the dense scan
-- (src/scanner/attestations/dense.rs) and `live_vote_context` of the live one
-- (src/scanner/attestations/mod.rs).
pub mod Live
use dabeacon_indexer.Prelude.{
  ℕ, zero, suc, ◌+◌, ◌-◌, ◌≤◌, ◌<◌, leb, ltb, if◌then◌else◌, min, Option, none, some, List, [], ◌∷◌,
  HashMap, lookup, insert, nat_key, All, ◌≡◌,
}
use dabeacon_indexer.Error.{Result, ok, err, ok_or, ◌>>=◌, inconsistent_beacon_data}
use dabeacon_indexer.Chain.{ChainSpec, epoch_start_slot, wrap64}
use dabeacon_indexer.Beacon.Types.{BlockRoot}
use dabeacon_indexer.Scanner.Attestations.{VoteContext}

-- `iter().filter(|(slot, _)| slot <= bound).max_by_key(|(slot, _)| slot)`.
keep_later : ℕ → ℕ × BlockRoot → Option (ℕ × BlockRoot) → Option (ℕ × BlockRoot)
keep_later bound (slot, root) none = if leb slot bound then some (slot, root) else none
keep_later bound (slot, root) (some (best, best_root)) =
    if leb slot bound
    then if ltb best slot then some (slot, root) else some (best, best_root)
    else some (best, best_root)

latest : ℕ → HashMap ℕ BlockRoot → Option (ℕ × BlockRoot)
unfolding keep_later
latest bound [] = none
latest bound (entry ∷ roots) = keep_later bound entry (latest bound roots)

-- `if let Some(root) = roots.get(&slot) { previous = root }`.
abbrev pub carried : BlockRoot → Option BlockRoot → BlockRoot
carried previous none = previous
carried previous (some root) = root

-- `for slot in slot..slot + count`.
unfoldable pub carry_forward :
    HashMap ℕ BlockRoot → ℕ → ℕ → BlockRoot → HashMap ℕ BlockRoot → HashMap ℕ BlockRoot
carry_forward roots slot zero previous block_roots = block_roots
carry_forward roots slot (suc count) previous block_roots =
    let here = carried previous (lookup slot roots) in
    carry_forward roots (slot + 1) count here (insert slot here block_roots)

module _ (spec : ChainSpec) where
  unfoldable pub live_vote_context : ℕ → ℕ → HashMap ℕ BlockRoot → Result VoteContext
  unfolding latest
  live_vote_context epoch inclusion_slot roots = do
    let start = epoch_start_slot spec epoch
    (slot, target_root) ← ok_or inconsistent_beacon_data (latest start roots)
    let end = min inclusion_slot (epoch_start_slot spec (wrap64 (epoch + 1)))
    ok (record {
      block_roots = carry_forward roots start (end - start) target_root [];
      target_root = target_root;
      target_epoch = epoch;
      source = none;
    })

-- Where `root_at` gives the root of the block at a slot, if it has one: the root of the last block
-- at or before the slot.
abbrev pub IsLatest : (ℕ → Option BlockRoot) → ℕ → BlockRoot → Type 0
IsLatest root_at slot root =
    (s : ℕ) × (s ≤ slot) × (root_at s ≡ some root) × ((t : ℕ) → s < t → t ≤ slot → root_at t ≡ none)

-- Every entry is the one that its key finds: no key has two entries.
abbrev pub IsMap : HashMap ℕ BlockRoot → Type 0
IsMap roots = All (λ entry. lookup entry.0 roots ≡ some entry.1) roots
