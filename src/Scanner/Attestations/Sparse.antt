-- ===== src/Scanner/Attestations/Sparse.antt =====
-- src/scanner/attestations/sparse.rs: each duty is followed through its inclusion window. What the
-- beacon node answers is a parameter; of two failing requests made at once the first one's error is
-- taken. The store keeps what is written before an error.
pub mod First
pub mod Settled
pub mod Delay
pub mod Epoch
pub mod Earned
pub mod Examples
use dabeacon_indexer.Prelude.{
  ℕ, zero, suc, ◌+◌, ◌-◌, ◌*◌, if◌then◌else◌, Bool, true, false, ◌&&◌, ◌||◌, String, List, [], ◌∷◌,
  contains, Option, none, some, map, HashMap, lookup, insert, nat_key, pair_key, ℤ, pos, as_i32,
  is_positive, min,
}
use dabeacon_indexer.Error.{
  Result, ok, err, panic, ok_or, ◌>>=◌, ◌>>◌, beacon_data_unavailable, inconsistent_beacon_data,
}
use dabeacon_indexer.Chain.{ChainSpec, epoch_start_slot, wrap64}
use dabeacon_indexer.Beacon.Types.{
  BlockRoot, Committee, AttesterDuty, ValidatorAttestationReward, SignedBeaconBlock,
}
use dabeacon_indexer.Scanner.Attestations.Roots.{root_at_or_before}
use dabeacon_indexer.Scanner.Attestations.{VoteContext, AttestationInclusion}
use dabeacon_indexer.Scanner.Attestations.Committees.{CommitteeMap, build_committee_map}
use dabeacon_indexer.Scanner.Attestations.Decode.{extract_attestation_inclusions}
use dabeacon_indexer.Store.Tables.{DutyColumns, Store}
use dabeacon_indexer.Store.Duties.{upsert_attestation_duty}

pub record SparseRow : Type 0 where
  pub included : Bool
  pub inclusion_slot : Option ℕ
  pub inclusion_delay : Option ℤ
  pub effective_inclusion_delay : Option ℕ
  pub source_correct : Option Bool
  pub target_correct : Option Bool
  pub head_correct : Option Bool
  pub source_reward : Option ℤ
  pub target_reward : Option ℤ
  pub head_reward : Option ℤ
  pub inactivity_penalty : Option ℤ

module _ {A B : Type 0} where
  abbrev pub map_option : (A → B) → Option A → Option B
  map_option f none = none
  map_option f (some a) = some (f a)

  -- `Option::and_then`.
  abbrev pub and_then : Option A → (A → Option B) → Option B
  and_then none f = none
  and_then (some a) f = f a

abbrev pub is_some {ℓ} : {A : Type ℓ} → Option A → Bool
is_some none = false
is_some (some a) = true

-- `(reward > 0).then_some(true)`.
abbrev pub earned_mark : ℤ → Option Bool
earned_mark reward = if is_positive reward then some true else none

-- The slot, the delay and the effective delay.
abbrev pub sparse_delays : ℕ → Option (ℕ × ℕ) → Option ℤ → Option ℕ × Option ℤ × Option ℕ
sparse_delays duty_slot (some (slot, missed_before)) reported =
    (some slot, some (pos (slot - duty_slot)), some (slot - duty_slot - missed_before))
sparse_delays duty_slot none (some delay) = (none, some (as_i32 delay), none)
sparse_delays duty_slot none none = (none, none, none)

-- A found slot lies behind the duty's, and the missed slots between the two: no delay is negative.
unfoldable pub derive_sparse_row :
    AttesterDuty → Option ValidatorAttestationReward → Option (ℕ × ℕ) → SparseRow
derive_sparse_row duty reward found_inclusion =
    let delays =
      sparse_delays duty.slot found_inclusion (and_then reward (λ r. r.inclusion_delay)) in
    record {
      included = is_some found_inclusion;
      inclusion_slot = delays.0;
      inclusion_delay = delays.1;
      effective_inclusion_delay = delays.2;
      source_correct = and_then reward (λ r. earned_mark r.source);
      target_correct = and_then reward (λ r. earned_mark r.target);
      head_correct = and_then reward (λ r. earned_mark r.head);
      source_reward = map_option (λ r. r.source) reward;
      target_reward = map_option (λ r. r.target) reward;
      head_reward = map_option (λ r. r.head) reward;
      inactivity_penalty = and_then reward (λ r. r.inactivity);
    }

-- The observed marks replace those of the rewards.
abbrev pub with_marks : SparseRow → Option (AttestationInclusion × ℕ) → SparseRow
with_marks row none = row
with_marks row (some (inc, missed)) = record row {
  source_correct = some inc.source_correct;
  target_correct = some inc.target_correct;
  head_correct = some inc.head_correct;
}

abbrev pub sparse_columns : AttesterDuty → SparseRow → Bool → DutyColumns
sparse_columns duty row finalized = record {
  assigned_slot = duty.slot;
  committee_index = duty.committee_index;
  committee_position = duty.validator_committee_index;
  included = row.included;
  inclusion_slot = row.inclusion_slot;
  inclusion_delay = row.inclusion_delay;
  effective_inclusion_delay = row.effective_inclusion_delay;
  source_correct = row.source_correct;
  target_correct = row.target_correct;
  head_correct = row.head_correct;
  source_reward = row.source_reward;
  target_reward = row.target_reward;
  head_reward = row.head_reward;
  inactivity_penalty = row.inactivity_penalty;
  finalized = finalized;
}

-- `is_some_and(|r| r.source > 0 || r.target > 0 || r.head > 0)`.
abbrev pub has_positive : Option ValidatorAttestationReward → Bool
has_positive none = false
has_positive (some r) = is_positive r.source || is_positive r.target || is_positive r.head

module _ (spec : ChainSpec) (hex_decode : String → Option (List ℕ)) (context : VoteContext)
    (committee_map : CommitteeMap) (validator : ℕ) where
  -- What the block of a probed slot says of the validator.
  unfoldable pub probe : ℕ → SignedBeaconBlock → Result (Option AttestationInclusion)
  probe slot block =
      extract_attestation_inclusions spec hex_decode block slot context.target_epoch committee_map
        (validator ∷ []) (some context) []
      >>= λ inclusions. ok (lookup validator inclusions)

-- The loop over the slots of the window, with the slots without a block so far.
module _ (get_block : ℕ → Result (Option SignedBeaconBlock))
    (probe_at : ℕ → SignedBeaconBlock → Result (Option AttestationInclusion)) where
  abbrev pub continue_with :
      Result (Option (AttestationInclusion × ℕ))
      → ℕ
      → Option AttestationInclusion
      → Result (Option (AttestationInclusion × ℕ))
  continue_with later missed_before none = later
  continue_with later missed_before (some inc) = ok (some (inc, missed_before))

  abbrev pub probe_answer :
      ℕ
      → ℕ
      → Result (Option (AttestationInclusion × ℕ))
      → Result (Option (AttestationInclusion × ℕ))
      → Option SignedBeaconBlock
      → Result (Option (AttestationInclusion × ℕ))
  probe_answer slot missed_before skipped later none = skipped
  probe_answer slot missed_before skipped later (some block) =
      probe_at slot block >>= continue_with later missed_before

  unfoldable pub probe_slots : ℕ → ℕ → ℕ → Result (Option (AttestationInclusion × ℕ))
  probe_slots zero slot missed_before = ok none
  probe_slots (suc count) slot missed_before = get_block slot >>= λ answer.
      probe_answer slot missed_before (probe_slots count (slot + 1) (missed_before + 1))
        (probe_slots count (slot + 1) missed_before) answer

-- The last slot of the epoch behind the target, which is not the first epoch.
abbrev pub last_slot : ChainSpec → ℕ → ℕ
last_slot spec target_epoch = epoch_start_slot spec (wrap64 (target_epoch + 2)) - 1

abbrev pub sparse_context : ℕ → ℕ → BlockRoot → BlockRoot → VoteContext
sparse_context target_epoch slot target_root head_root = record {
  block_roots = (slot, head_root) ∷ [];
  target_root = target_root;
  target_epoch = target_epoch;
  source = none;
}

module _ (spec : ChainSpec) (hex_decode : String → Option (List ℕ))
    (get_block : ℕ → Result (Option SignedBeaconBlock))
    (get_block_root : ℕ → Result (Option BlockRoot)) where
  unfoldable pub scan_forward_for_inclusion :
      AttesterDuty → ℕ → CommitteeMap → Result (Option (AttestationInclusion × ℕ))
  scan_forward_for_inclusion duty target_epoch committee_map = do
    target_root ← root_at_or_before spec get_block_root (epoch_start_slot spec target_epoch)
    head_root ← root_at_or_before spec get_block_root duty.slot
    probe_slots get_block
        (probe spec hex_decode (sparse_context target_epoch duty.slot target_root head_root)
          committee_map duty.validator_index)
        (last_slot spec target_epoch - duty.slot) (duty.slot + 1) 0
