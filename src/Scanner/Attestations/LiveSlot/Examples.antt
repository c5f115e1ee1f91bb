-- ===== src/Scanner/Attestations/LiveSlot/Examples.antt =====
-- The live scan of a concrete block, whose committees the node no longer has.
use dabeacon_indexer.Prelude.{ℕ, ◌≢◌, false, List, [], ◌∷◌, All, HashMap, ◌≡◌, refl}
use dabeacon_indexer.Error.{Result, ok, err, panic, beacon_data_unavailable}
use dabeacon_indexer.Chain.{mainnet}
use dabeacon_indexer.Beacon.Types.{
  BlockRoot, Checkpoint, PreElectraAttestation, SignedBeaconBlock, phase0, Committee, AttesterDuty,
  slot,
}
use dabeacon_indexer.Store.Tables.{Store}
use dabeacon_indexer.Scanner.Bits.Examples.{hex_decode}
use dabeacon_indexer.Scanner.Attestations.LiveSlot.{
  Outcome, find_inclusions, candidate_epochs, scan_live_attestation_epoch,
  scan_live_attestations_in_slot,
}
use dabeacon_indexer.Scanner.Attestations.LiveSlot.Errors.{
  results, reported_error, ended_by, scan_live_attestations_in_slot-ended,
}

abbrev checkpoint : Checkpoint
checkpoint = record { epoch = 1; root = "a" }

abbrev vote : PreElectraAttestation
vote = record {
  aggregation_bits = "0x0d";
  vote = record {
    slot = 33;
    index = 0;
    beacon_block_root = "b";
    source = checkpoint;
    target = checkpoint;
  };
}

abbrev block : SignedBeaconBlock
block = phase0 (record {
  slot = 35;
  proposer_index = 1;
  parent_root = "b";
  state_root = "s";
  body = record { attestations = vote ∷ [] };
})

abbrev roots : HashMap ℕ BlockRoot
roots = (31, "a") ∷ (33, "b") ∷ (35, "c") ∷ []

abbrev store : Store
store = record {
  attestation_duties = [];
  block_proposals = [];
  sync_duties = [];
  completed_scans = [];
  live_gaps = [];
}

abbrev pruned : ℕ → Result (List Committee)
pruned epoch = err beacon_data_unavailable

abbrev no_duties : ℕ → List ℕ → Result (List AttesterDuty)
no_duties epoch validators = ok []

abbrev scan : Store → ℕ → Outcome
scan = scan_live_attestation_epoch mainnet hex_decode pruned no_duties (7 ∷ []) block roots false

abbrev epochs : List ℕ
epochs = candidate_epochs mainnet hex_decode pruned no_duties (7 ∷ []) block roots false

unavailable : (e : ℕ) (s : Store) → (scan s e).1 ≡ err beacon_data_unavailable
unfolding scan_live_attestation_epoch find_inclusions
unavailable e s = refl

no_panics : (s : Store) (es : List ℕ) → All (λ r. r ≢ panic) (results scan s es)
unfolding results
no_panics s [] = tt
no_panics s (e ∷ es) =
    ((λ h. let fails = unavailable e s in cc (fails, h)), no_panics (scan s e).0 es)

scan_live_attestations_in_slot-ended_example :
    scan_live_attestations_in_slot mainnet hex_decode pruned no_duties
      (7 ∷ [])
      block
      roots
      false
      store
    ≡ ended_by scan store epochs (reported_error (results scan store epochs))
unfolding slot
scan_live_attestations_in_slot-ended_example =
    scan_live_attestations_in_slot-ended mainnet hex_decode pruned no_duties 7 [] block roots false
      store refl (no_panics store epochs)
