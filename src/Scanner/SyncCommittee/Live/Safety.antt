-- ===== src/Scanner/SyncCommittee/Live/Safety.antt =====
-- `upsert_live_sync_in_slot` of src/scanner/sync_committee.rs checks a position before it reads it.
use dabeacon_indexer.Prelude.{
  ℕ, leb, leb-false→lt, if◌then◌else◌, Bool, true, false, String, List, [], ◌∷◌, length,
  get_elem?-in_bounds, Option, none, some, HashMap, ◌==◌, ◌≡◌, ◌≢◌, refl, Bool-cases, inl, inr,
}
use dabeacon_indexer.Error.{
  Result, ok, err, panic, ◌>>◌, Result-cases, ok-ne-panic, >>=-ne-panic, ensure->>-ne-panic,
  inconsistent_beacon_data,
}
use dabeacon_indexer.Chain.{ChainSpec}
use dabeacon_indexer.Beacon.Types.{SignedBeaconBlock, SyncAggregate, sync_aggregate}
use dabeacon_indexer.Scanner.Bits.{decode_bitvector}
use dabeacon_indexer.Scanner.Attestations.Committees.Safety.{decode_bitvector-ne-panic}
use dabeacon_indexer.Scanner.SyncCommittee.{decode_sync_committee_bits}
use dabeacon_indexer.Scanner.SyncCommittee.Live.{
  check_positions, any_position, participation, write_present, write_decoded, write_aggregate,
  upsert_live_sync_in_slot,
}
use dabeacon_indexer.Store.Tables.{Store}

checked-ne-panic :
    (check : Result (Unit {0})) (bit : Bool) (rest : Result Bool)
    → (check >> rest) ≢ panic
    → (check >> (if bit then ok true else rest)) ≢ panic
checked-ne-panic (ok u) true rest h = λ e. cc
checked-ne-panic (ok u) false rest h = h
checked-ne-panic (err cause) bit rest h = λ e. cc
checked-ne-panic panic bit rest h = h

participation-ne-panic :
    (bits : List Bool) (positions : List ℕ) → participation bits positions ≢ panic
unfolding participation check_positions any_position
participation-ne-panic bits [] = λ h. cc
participation-ne-panic bits (p ∷ positions) = elim (Bool-cases (leb (length bits) p)) [
  | inl outside ↦ λ h. let stops : err inconsistent_beacon_data ≡ panic = rw outside at h in cc
  | inr inside ↦
      let found = get_elem?-in_bounds bits p (leb-false→lt _ p inside) in
      rw (inside, found.1)
        (checked-ne-panic (check_positions bits positions) found.0 (any_position bits positions)
          (participation-ne-panic bits positions))
]

module _ (spec : ChainSpec) (slot : ℕ) where
  write_present-ne-panic :
      (bits : List Bool) (tracked : HashMap ℕ (List ℕ)) (store : Store)
      → (write_present spec slot store bits tracked).1 ≢ panic
  unfolding write_present
  write_present-ne-panic bits [] store = λ h. cc
  write_present-ne-panic bits ((validator, positions) ∷ tracked) store =
      elim (Result-cases (participation bits positions)) [
        | inl (participated, fine) ↦
            rw (fine, write_present) (write_present-ne-panic bits tracked _)
        | inr (inl (e, fails)) ↦ rw (fails, write_present) (λ h. cc)
        | inr (inr panics) ↦ absurd (participation-ne-panic bits positions panics)
      ]

  write_decoded-ne-panic :
      (store : Store) (tracked : HashMap ℕ (List ℕ)) (decoded : Result (List Bool))
      → decoded ≢ panic
      → (write_decoded spec slot store tracked decoded).1 ≢ panic
  unfolding write_decoded
  write_decoded-ne-panic store tracked (ok bits) h = write_present-ne-panic bits tracked store
  write_decoded-ne-panic store tracked (err e) h = λ g. cc
  write_decoded-ne-panic store tracked panic h = λ g. h refl

module _ (spec : ChainSpec) (slot : ℕ) (hex_decode : String → Option (List ℕ)) where
  decode_sync_committee_bits-ne-panic :
      (hex_str : String) → decode_sync_committee_bits spec hex_decode hex_str ≢ panic
  unfolding decode_sync_committee_bits
  decode_sync_committee_bits-ne-panic hex_str =
      >>=-ne-panic (decode_bitvector hex_decode hex_str) _
        (decode_bitvector-ne-panic hex_decode hex_str)
        (λ bits _.
          ensure->>-ne-panic inconsistent_beacon_data (length bits == spec.sync_committee_size)
            (ok bits) (ok-ne-panic bits))

  write_aggregate-ne-panic :
      (store : Store) (tracked : HashMap ℕ (List ℕ)) (aggregate : Option SyncAggregate)
      → (write_aggregate spec slot hex_decode store tracked aggregate).1 ≢ panic
  unfolding write_aggregate
  write_aggregate-ne-panic store tracked none = λ h. cc
  write_aggregate-ne-panic store tracked (some aggregate) =
      write_decoded-ne-panic spec slot store tracked _
        (decode_sync_committee_bits-ne-panic aggregate.sync_committee_bits)

  -- Whatever the block, the tracked validators and their positions are, the live scan of a sync
  -- aggregate returns or fails with an error: no index into the bits is out of bounds.
  pub upsert_live_sync_in_slot-ne-panic :
      (store : Store) (block : Option SignedBeaconBlock) (tracked : HashMap ℕ (List ℕ))
      → (upsert_live_sync_in_slot spec slot hex_decode store block tracked).1 ≢ panic
  unfolding upsert_live_sync_in_slot
  upsert_live_sync_in_slot-ne-panic store block [] = λ h. cc
  upsert_live_sync_in_slot-ne-panic store none (t ∷ tracked) = λ h. cc
  upsert_live_sync_in_slot-ne-panic store (some block) (t ∷ tracked) =
      write_aggregate-ne-panic store (t ∷ tracked) (sync_aggregate block)
