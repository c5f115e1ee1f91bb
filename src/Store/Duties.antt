-- ===== src/Store/Duties.antt =====
-- src/db/scanner/attestations.rs: the writes of attestation duties.
pub mod Earliest
use dabeacon_indexer.Prelude.{
  pos, ℕ, ◌/◌, ◌==◌, ltb, leb, if◌then◌else◌, Bool, true, false, ◌&&◌, ◌||◌, not, List, [], ◌∷◌,
  Option, none, some, or_else, contains, any, filter_by, HashMap, lookup, insert, nat_key, pair_key,
  pair_same, ℤ, is_positive,
}
use dabeacon_indexer.Chain.{ChainSpec}
use dabeacon_indexer.Store.Table.{upsert, update}
use dabeacon_indexer.Store.Tables.{
  DutyColumns, AttestationDuty, ProposalColumns, SyncColumns, RewardColumns, InclusionDetails,
  Store, is_completed, set_duties,
}

-- A comparison with NULL is not true.
abbrev sql_lt : Option ℕ → Option ℕ → Bool
sql_lt (some a) (some b) = ltb a b
sql_lt _ _ = false

abbrev sql_eq : Option ℕ → Option ℕ → Bool
sql_eq (some a) (some b) = a == b
sql_eq _ _ = false

abbrev is_null {ℓ} : {A : Type ℓ} → Option A → Bool
is_null none = true
is_null (some a) = false

unfoldable pub duty_replaces : Bool → AttestationDuty → DutyColumns → Bool
duty_replaces completed duty new =
    let old = duty.columns in
    (not old.finalized
      && (new.finalized
          || is_null old.inclusion_slot
          || sql_lt new.inclusion_slot old.inclusion_slot
          || (sql_eq new.inclusion_slot old.inclusion_slot
              && not (is_null new.effective_inclusion_delay))))
    || (new.finalized && not completed)

-- `or_else` is COALESCE.
unfoldable pub duty_merge : AttestationDuty → DutyColumns → AttestationDuty
duty_merge duty new =
    let old = duty.columns in
    record {
      columns = record {
        assigned_slot = new.assigned_slot;
        committee_index = new.committee_index;
        committee_position = new.committee_position;
        included = new.included;
        inclusion_slot = new.inclusion_slot;
        inclusion_delay = new.inclusion_delay;
        effective_inclusion_delay = new.effective_inclusion_delay;
        source_correct = or_else new.source_correct old.source_correct;
        target_correct = or_else new.target_correct old.target_correct;
        head_correct = or_else new.head_correct old.head_correct;
        source_reward = or_else new.source_reward old.source_reward;
        target_reward = or_else new.target_reward old.target_reward;
        head_reward = or_else new.head_reward old.head_reward;
        inactivity_penalty = or_else new.inactivity_penalty old.inactivity_penalty;
        finalized = new.finalized;
      };
      inclusion_known = duty.inclusion_known;
    }

abbrev new_duty : DutyColumns → AttestationDuty
new_duty new = record { columns = new; inclusion_known = false }

unfoldable pub upsert_attestation_duty : Store → ℕ × ℕ → DutyColumns → Store
upsert_attestation_duty store key new = record {
  attestation_duties =
      upsert (duty_replaces (is_completed store.completed_scans key)) duty_merge new_duty key new
        store.attestation_duties;
  block_proposals = store.block_proposals;
  sync_duties = store.sync_duties;
  completed_scans = store.completed_scans;
  live_gaps = store.live_gaps;
}

-- CASE WHEN reward > 0 THEN TRUE END
abbrev earned : Option ℤ → Option Bool
earned none = none
earned (some reward) = if is_positive reward then some true else none

unfoldable pub duty_rewarded : Option RewardColumns → AttestationDuty → AttestationDuty
duty_rewarded none duty = duty
duty_rewarded (some new) duty =
    let old = duty.columns in
    if old.finalized then duty else record {
      columns = record {
        assigned_slot = old.assigned_slot;
        committee_index = old.committee_index;
        committee_position = old.committee_position;
        included = old.included;
        inclusion_slot = old.inclusion_slot;
        inclusion_delay = old.inclusion_delay;
        effective_inclusion_delay = old.effective_inclusion_delay;
        source_correct = or_else old.source_correct (earned new.source_reward);
        target_correct = or_else old.target_correct (earned new.target_reward);
        head_correct = or_else old.head_correct (earned new.head_reward);
        source_reward = new.source_reward;
        target_reward = new.target_reward;
        head_reward = new.head_reward;
        inactivity_penalty = new.inactivity_penalty;
        finalized = old.finalized;
      };
      inclusion_known = duty.inclusion_known;
    }

-- Of several tuples for one row, of which the database uses any, the first is used.
unfoldable pub update_attestation_rewards_batch : Store → HashMap (ℕ × ℕ) RewardColumns → Store
unfolding set_duties
update_attestation_rewards_batch store rewards =
    set_duties store (update (λ key. duty_rewarded (lookup key rewards)) store.attestation_duties)

abbrev sql_ge : Option ℕ → ℕ → Bool
sql_ge none b = false
sql_ge (some a) b = leb b a

unfoldable pub duty_repaired : Bool → InclusionDetails → AttestationDuty → AttestationDuty
duty_repaired completed details duty =
    let old = duty.columns in
    if old.included
      && sql_ge old.inclusion_slot details.slot
      && (not completed
          || (sql_eq old.inclusion_slot (some details.slot)
              && (is_null old.effective_inclusion_delay
                  || is_null old.source_correct
                  || is_null old.target_correct
                  || is_null old.head_correct)))
    then record {
      columns = record {
        assigned_slot = old.assigned_slot;
        committee_index = old.committee_index;
        committee_position = old.committee_position;
        included = old.included;
        inclusion_slot = some details.slot;
        inclusion_delay = some (pos details.delay);
        effective_inclusion_delay = some details.effective_delay;
        source_correct = some details.source_correct;
        target_correct = some details.target_correct;
        head_correct = some details.head_correct;
        source_reward = old.source_reward;
        target_reward = old.target_reward;
        head_reward = old.head_reward;
        inactivity_penalty = old.inactivity_penalty;
        finalized = old.finalized;
      };
      inclusion_known = duty.inclusion_known;
    }
    else duty

unfoldable pub repair_finalized_inclusion : Store → ℕ × ℕ → InclusionDetails → Store
unfolding set_duties
repair_finalized_inclusion store key details = set_duties store (
    update
      (λ row duty.
        if pair_same key row
        then duty_repaired (is_completed store.completed_scans row) details duty
        else duty)
      store.attestation_duties)
