-- ===== src/Live/Examples.antt =====
-- The live worker's arithmetic and ancestry walk on concrete inputs.
use dabeacon_indexer.Prelude.{
  ℕ, ◌+◌, ◌*◌, ◌≤◌, ◌<◌, List, [], ◌∷◌, none, some, lookup, insert, ◌≡◌, refl, arith,
}
use dabeacon_indexer.Chain.{mainnet, epoch_start_slot, slot_to_epoch}
use dabeacon_indexer.Beacon.Types.{BlockRoot}
use dabeacon_indexer.Live.{collection_start, reorg_replay_start}
use dabeacon_indexer.Live.Window.{collection_start-window, reorg_replay_start-covers}
use dabeacon_indexer.Live.Finalization.{BlockRow, index_by_root, walk, confirmed_ancestry}
use dabeacon_indexer.Live.Finalization.Ancestry.{IsAncestry, confirmed_ancestry-IsAncestry}

collection_start-window_example :
    (collection_start mainnet 100 (some 90) 2 ≤ 95)
    × (90 < collection_start mainnet 100 (some 90) 2)
    × (100 < collection_start mainnet 100 (some 90) 2 + (2 + 1) * 32)
unfolding epoch_start_slot slot_to_epoch
collection_start-window_example =
    collection_start-window mainnet (omega arith) 100 90 2 95 (omega arith) (omega arith)
      (omega arith) (omega arith)

reorg_replay_start-covers_example :
    (reorg_replay_start mainnet 100 ≤ 100)
    × (slot_to_epoch mainnet 100 ≤ slot_to_epoch mainnet 70 + 1
        → reorg_replay_start mainnet 100 ≤ 70)
    × (reorg_replay_start mainnet 100 ≤ 70
        → slot_to_epoch mainnet 100 ≤ slot_to_epoch mainnet 70 + 1)
reorg_replay_start-covers_example =
    reorg_replay_start-covers mainnet (omega arith) 100 70 (omega arith)

-- A chain of two blocks, and a third on another branch.
abbrev collected : List BlockRow
collected = (5, "a", "z") ∷ (7, "b", "a") ∷ (6, "c", "a") ∷ []

confirmed_ancestry-IsAncestry_example :
    (confirmed : List (ℕ × BlockRoot)) × (confirmed_ancestry collected "b" ≡ some confirmed)
    × IsAncestry (index_by_root collected) "b" none confirmed
confirmed_ancestry-IsAncestry_example = confirmed_ancestry-IsAncestry collected "b"

confirmed_ancestry_test : confirmed_ancestry collected "b" ≡ some ((7, "b") ∷ (5, "a") ∷ [])
unfolding confirmed_ancestry walk index_by_root lookup insert
confirmed_ancestry_test = refl
