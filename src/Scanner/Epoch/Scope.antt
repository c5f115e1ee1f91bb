-- ===== src/Scanner/Epoch/Scope.antt =====
-- What the stages of `scan_epoch` (src/scanner/mod.rs) write.
use dabeacon_indexer.Prelude.{
  ℕ, ◌+◌, ◌≤◌, ◌<◌, ◌==◌, Bool, true, String, List, [], ◌∷◌, contains, Option, none, some, HashMap,
  lookup, insert, lookup-insert, nat_key, pair_key, All, ◌≡◌, refl, sym, ◌∙◌, subst, some-inj,
  Bool-cases, Option-cases, inl, inr,
}
use dabeacon_indexer.Chain.{ChainSpec, epoch_start_slot}
use dabeacon_indexer.Beacon.Types.{
  AttesterDuty, ValidatorAttestationReward, ProposerDuty, SignedBeaconBlock,
}
use dabeacon_indexer.Beacon.Node.{BeaconNode}
use dabeacon_indexer.Store.Writes.{Write, duty, rewards, repair, complete, proposal, sync}
use dabeacon_indexer.Scanner.Scan.Laws.{All->>=, All-for_all, All-if, All-nonempty, All-range}
use dabeacon_indexer.Scanner.Attestations.Committees.{CommitteeMap}
use dabeacon_indexer.Scanner.Attestations.Decode.{Inclusions}
use dabeacon_indexer.Scanner.Attestations.Dense.{
  write_duty_row, write_duty_rows, process_epoch_attestation_duties,
}
use dabeacon_indexer.Scanner.Attestations.Sparse.Epoch.{
  process_sparse_duty, process_sparse_duties, process_epoch_attestation_duties_sparse,
}
use dabeacon_indexer.Scanner.Proposals.{
  tracked_proposer_slots, process_proposal, process_slot_proposal, process_tracked_slots,
  process_epoch_proposals,
}

pub All-trivial : {A : Type 0} (xs : List A) → All (λ _. Unit {0}) xs
All-trivial [] = tt
All-trivial (x ∷ xs) = (tt, All-trivial xs)

module _ (spec : ChainSpec) (epoch : ℕ) (validators : List ℕ) (finalized : Bool) where
  abbrev pub IsSlotOf : ℕ → Type 0
  IsSlotOf slot =
      (epoch_start_slot spec epoch ≤ slot)
      × (slot < epoch_start_slot spec epoch + spec.slots_per_epoch)

  -- A row of a tracked validator and of the epoch, with the scan's finality.
  abbrev pub IsOf : Write → Type 0
  IsOf (duty (validator, e) columns) =
      (contains validators validator ≡ true) × (e ≡ epoch) × (columns.finalized ≡ finalized)
  IsOf (proposal slot columns) =
      (contains validators columns.proposer_index ≡ true)
      × IsSlotOf slot
      × (columns.finalized ≡ finalized)
  IsOf (sync (validator, slot) columns) =
      (contains validators validator ≡ true) × IsSlotOf slot × (columns.finalized ≡ finalized)
  IsOf (rewards batch) = ⊥
  IsOf (repair key details) = ⊥
  IsOf (complete tracked e) = ⊥

  write_duty_rows-IsOf :
      (given : HashMap ℕ ValidatorAttestationReward) (duties : List AttesterDuty)
      (inclusions : Inclusions) (missed_slots : List ℕ)
      → All IsOf (write_duty_rows epoch validators finalized given duties inclusions missed_slots).0
  unfolding write_duty_rows write_duty_row
  write_duty_rows-IsOf given duties inclusions missed_slots =
      All-for_all IsOf (λ _. Unit {0}) _
        (λ assigned _.
          All-if IsOf (contains validators assigned.validator_index) _
            (λ tracked. ((tracked, refl, refl), tt)))
        duties (All-trivial duties)

  pub dense_IsOf :
      (hex_decode : String → Option (List ℕ)) (node : BeaconNode)
      → All IsOf
          (process_epoch_attestation_duties spec hex_decode node epoch validators finalized).0
  unfolding process_epoch_attestation_duties
  dense_IsOf hex_decode node = All->>= IsOf _ _ tt λ blocks _. All->>= IsOf _ _ tt λ committees _.
      All->>= IsOf _ _ tt λ ctx _. All->>= IsOf _ _ tt λ duties _. All->>= IsOf _ _ tt λ given _.
        All->>= IsOf _ _ tt λ checked _.
          All->>= IsOf _ _ tt λ inclusions _. write_duty_rows-IsOf _ duties inclusions _

  sparse_duty_IsOf :
      (hex_decode : String → Option (List ℕ)) (node : BeaconNode) (committee_map : CommitteeMap)
      (given : HashMap ℕ ValidatorAttestationReward) (assigned : AttesterDuty)
      → All IsOf
          (process_sparse_duty spec hex_decode node epoch validators finalized committee_map given
            assigned).0
  unfolding process_sparse_duty
  sparse_duty_IsOf hex_decode node committee_map given assigned =
      All-if IsOf (contains validators assigned.validator_index) _ λ tracked.
        All->>= IsOf _ _ tt λ found _. All->>= IsOf _ _ tt λ checked _. ((tracked, refl, refl), tt)

  pub sparse_IsOf :
      (hex_decode : String → Option (List ℕ)) (node : BeaconNode)
      → All IsOf
          (process_epoch_attestation_duties_sparse spec hex_decode node epoch validators
            finalized).0
  unfolding process_epoch_attestation_duties_sparse process_sparse_duties
  sparse_IsOf hex_decode node = All-nonempty IsOf validators _ (
      All->>= IsOf _ _ tt λ duties _. All->>= IsOf _ _ tt λ given _.
        All->>= IsOf _ _ tt λ checked _. All->>= IsOf _ _ tt λ committees _.
          All-for_all IsOf (λ _. Unit {0}) _
            (λ assigned _. sparse_duty_IsOf hex_decode node _ _ assigned) duties
            (All-trivial duties))

  -- Every proposer of the map is tracked.
  AreTracked : HashMap ℕ ℕ → Type 0
  AreTracked slots =
      (slot proposer : ℕ) → lookup slot slots ≡ some proposer → contains validators proposer ≡ true

  insert-AreTracked :
      (s v : ℕ) (slots : HashMap ℕ ℕ)
      → contains validators v ≡ true
      → AreTracked slots
      → AreTracked (insert s v slots)
  unfolding AreTracked
  insert-AreTracked s v slots tracked h slot proposer e = elim (Bool-cases (s == slot)) [
    | inl same ↦
        subst (λ p. contains validators p ≡ true)
          (some-inj (sym (lookup-insert s slot v slots ∙ rw same refl) ∙ e)) tracked
    | inr other ↦ h slot proposer (sym (lookup-insert s slot v slots ∙ rw other refl) ∙ e)
  ]

  tracked_proposer_slots-AreTracked :
      (slots : HashMap ℕ ℕ) (duties : List ProposerDuty)
      → AreTracked slots
      → AreTracked (tracked_proposer_slots validators slots duties)
  unfolding tracked_proposer_slots
  tracked_proposer_slots-AreTracked slots [] h = h
  tracked_proposer_slots-AreTracked slots (d ∷ duties) h =
      elim (Bool-cases (contains validators d.validator_index)) [
        | inl tracked ↦
            rw (tracked, tracked_proposer_slots)
              (tracked_proposer_slots-AreTracked (insert d.slot d.validator_index slots) duties
                (insert-AreTracked d.slot d.validator_index slots tracked h))
        | inr other ↦
            rw (other, tracked_proposer_slots) (tracked_proposer_slots-AreTracked slots duties h)
      ]

  proposal_IsOf :
      (node : BeaconNode) (slot proposer : ℕ) (block : Option SignedBeaconBlock)
      → contains validators proposer ≡ true
      → IsSlotOf slot
      → All IsOf (process_proposal node finalized slot proposer block).0
  unfolding process_proposal
  proposal_IsOf node slot proposer none tracked within = ((tracked, within, refl), tt)
  proposal_IsOf node slot proposer (some block) tracked within =
      All->>= IsOf _ _ tt λ given _. ((tracked, within, refl), tt)

  slot_proposal_IsOf :
      (node : BeaconNode) (slots : HashMap ℕ ℕ) (slot : ℕ)
      → AreTracked slots
      → IsSlotOf slot
      → All IsOf (process_slot_proposal node finalized slots slot).0
  unfolding process_slot_proposal AreTracked
  slot_proposal_IsOf node slots slot tracked within = elim (Option-cases (lookup slot slots)) [
    | inl missing ↦ rw (missing, process_slot_proposal) tt
    | inr (proposer, there) ↦
        rw (there, process_slot_proposal)
          (All->>= IsOf _ _ tt
            λ block _. proposal_IsOf node slot proposer block (tracked slot proposer there) within)
  ]

  tracked_slots_IsOf :
      (node : BeaconNode) (slots : HashMap ℕ ℕ)
      → AreTracked slots
      → All IsOf (process_tracked_slots node finalized spec epoch slots).0
  unfolding process_tracked_slots
  tracked_slots_IsOf node [] tracked = tt
  tracked_slots_IsOf node (entry ∷ slots) tracked =
      All-for_all IsOf IsSlotOf _
        (λ slot within. slot_proposal_IsOf node (entry ∷ slots) slot tracked within) _
        (All-range IsSlotOf (epoch_start_slot spec epoch) spec.slots_per_epoch (λ t a b. (a, b)))

  pub proposals_IsOf :
      (node : BeaconNode)
      → All IsOf (process_epoch_proposals node finalized spec epoch validators).0
  unfolding process_epoch_proposals AreTracked lookup
  proposals_IsOf node = All->>= IsOf _ _ tt λ duties _.
      tracked_slots_IsOf node (tracked_proposer_slots validators [] duties)
        (tracked_proposer_slots-AreTracked [] duties (λ slot proposer h. cc))
