-- ===== src/Scanner/Attestations/Roots.antt =====
-- The search for the block before a skipped slot, of src/scanner/attestations/sparse.rs and
-- src/scanner/attestations/dense.rs. What the beacon node answers is a parameter.
pub mod Nearest
use dabeacon_indexer.Prelude.{ℕ, zero, suc, ◌+◌, ◌-◌, ◌*◌, Option, none, some}
use dabeacon_indexer.Error.{Result, ok, err, ok_or, ◌>>=◌, beacon_data_unavailable}
use dabeacon_indexer.Chain.{ChainSpec}
use dabeacon_indexer.Beacon.Types.{BlockRoot}

abbrev pub answered_back : Result (Option BlockRoot) → Option BlockRoot → Result (Option BlockRoot)
answered_back earlier none = earlier
answered_back earlier (some root) = ok (some root)

-- Down from a slot, the root of the first one that has a block.
unfoldable pub search_back : (ℕ → Result (Option BlockRoot)) → ℕ → ℕ → Result (Option BlockRoot)
search_back get_block_root zero prior = ok none
search_back get_block_root (suc count) prior =
    get_block_root prior >>= answered_back (search_back get_block_root count (prior - 1))

module _ (spec : ChainSpec) (get_block_root : ℕ → Result (Option BlockRoot)) where
  unfoldable pub root_at_or_before : ℕ → Result BlockRoot
  root_at_or_before slot =
      search_back get_block_root (slot - (slot - spec.slots_per_epoch * 2) + 1) slot
      >>= ok_or beacon_data_unavailable
