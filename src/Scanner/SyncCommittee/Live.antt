-- ===== src/Scanner/SyncCommittee/Live.antt =====
-- src/scanner/sync_committee.rs: `upsert_live_sync_in_slot`. The store keeps what is written before
-- an error.
pub mod Safety
use dabeacon_indexer.Prelude.{
  ℕ, leb, if◌then◌else◌, Bool, true, false, String, List, [], ◌∷◌, length, get_elem?, Option, none,
  some, HashMap, ℤ, pos,
}
use dabeacon_indexer.Error.{Result, ok, err, panic, index, ◌>>=◌, ◌>>◌, inconsistent_beacon_data}
use dabeacon_indexer.Chain.{ChainSpec}
use dabeacon_indexer.Beacon.Types.{SignedBeaconBlock, SyncAggregate, sync_aggregate}
use dabeacon_indexer.Scanner.SyncCommittee.{decode_sync_committee_bits}
use dabeacon_indexer.Store.Tables.{SyncColumns, Store}
use dabeacon_indexer.Store.Production.{upsert_sync_duty}

-- `p >= bits.len()` is an error, for each position.
unfoldable pub check_positions : List Bool → List ℕ → Result (Unit {0})
check_positions bits [] = ok tt
check_positions bits (p ∷ positions) =
    let rest = check_positions bits positions in
    if leb (length bits) p then err inconsistent_beacon_data else rest

-- `positions.iter().any(|&p| bits[p])`.
unfoldable pub any_position : List Bool → List ℕ → Result Bool
any_position bits [] = ok false
any_position bits (p ∷ positions) =
    let rest = any_position bits positions in
    index (get_elem? bits p) >>= λ bit. if bit then ok true else rest

unfoldable pub participation : List Bool → List ℕ → Result Bool
participation bits positions = check_positions bits positions >> any_position bits positions

module _ (spec : ChainSpec) (slot : ℕ) where
  -- The loop over the tracked validators of a block with an aggregate.
  unfoldable pub write_present : Store → List Bool → HashMap ℕ (List ℕ) → Store × Result (Unit {0})
  write_present store bits [] = (store, ok tt)
  write_present store bits ((validator, positions) ∷ tracked) =
      elim (participation bits positions) [
        | ok participated ↦
            write_present
              (upsert_sync_duty spec store (validator, slot)
                (record {
                  participated = participated;
                  reward = none;
                  missed_block = false;
                  finalized = false;
                }))
              bits tracked
        | err e ↦ (store, err e)
        | panic ↦ (store, panic)
      ]

  -- The loop over the tracked validators of a missed slot.
  unfoldable pub write_missed : Store → HashMap ℕ (List ℕ) → Store
  write_missed store [] = store
  write_missed store ((validator, positions) ∷ tracked) =
      write_missed
        (upsert_sync_duty spec store (validator, slot)
          (record {
            participated = false;
            reward = some (pos 0);
            missed_block = true;
            finalized = false;
          }))
        tracked

  unfoldable pub write_decoded :
      Store → HashMap ℕ (List ℕ) → Result (List Bool) → Store × Result (Unit {0})
  write_decoded store tracked (ok bits) = write_present store bits tracked
  write_decoded store tracked (err e) = (store, err e)
  write_decoded store tracked panic = (store, panic)

  module _ (hex_decode : String → Option (List ℕ)) where
    -- A block from before Altair has no aggregate.
    unfoldable pub write_aggregate :
        Store → HashMap ℕ (List ℕ) → Option SyncAggregate → Store × Result (Unit {0})
    write_aggregate store tracked none = (store, ok tt)
    write_aggregate store tracked (some aggregate) =
        write_decoded store tracked
          (decode_sync_committee_bits spec hex_decode aggregate.sync_committee_bits)

    -- Without a tracked validator nothing is decoded and nothing written.
    unfoldable pub upsert_live_sync_in_slot :
        Store → Option SignedBeaconBlock → HashMap ℕ (List ℕ) → Store × Result (Unit {0})
    upsert_live_sync_in_slot store block [] = (store, ok tt)
    upsert_live_sync_in_slot store none (t ∷ tracked) = (write_missed store (t ∷ tracked), ok tt)
    upsert_live_sync_in_slot store (some block) (t ∷ tracked) =
        write_aggregate store (t ∷ tracked) (sync_aggregate block)
