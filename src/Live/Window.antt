-- ===== src/Live/Window.antt =====
-- The slots that the live worker collects and replays (src/live/mod.rs, src/live/reorg.rs).
use native.Mathlib.Nat.{
  div-mul-le_self, lt-div-mul-add, mul-le-mul_right, mod-eq_of_lt, add-mul, le-div_iff_mul-le,
  div-lt_iff_lt-mul,
}
use dabeacon_indexer.Prelude.{
  ℕ, ◌+◌, ◌-◌, ◌*◌, ◌/◌, ◌≤◌, ◌<◌, none, some, ◌≡◌, ap, ◌⊎◌, inl, inr, arith,
}
use dabeacon_indexer.Chain.{ChainSpec, epoch_start_slot, slot_to_epoch, u64_modulus}
use dabeacon_indexer.Live.{
  window_floor, collection_start, latest_reward_epoch, reorg_replay_start, epoch_before_last,
}

module _ (spec : ChainSpec) (positive : 0 < spec.slots_per_epoch) where
  -- An epoch's first slot, for an epoch at or before that of a `u64` slot, does not wrap.
  start_of_earlier :
      (slot epoch : ℕ)
      → slot < u64_modulus
      → epoch ≤ slot_to_epoch spec slot
      → epoch_start_slot spec epoch ≡ epoch * spec.slots_per_epoch
  unfolding epoch_start_slot slot_to_epoch
  start_of_earlier slot epoch fits before = mod-eq_of_lt (
      grind (
        arith,
        div-mul-le_self slot spec.slots_per_epoch,
        mul-le-mul_right spec.slots_per_epoch before,
      ))

  -- Facts about the epoch of a slot and about the epochs before it.
  epoch_bounds :
      (slot back : ℕ)
      → let spe = spec.slots_per_epoch in
        let epoch = slot_to_epoch spec slot in
        ((epoch - back) * spe ≤ slot)
        × (slot < epoch * spe + spe)
        × (epoch * spe ≤ (epoch - back) * spe + back * spe)
  unfolding slot_to_epoch
  epoch_bounds slot back =
      let spe = spec.slots_per_epoch in
      let epoch = slot / spe in
      let down = mul-le-mul_right spe (let e : epoch - back ≤ epoch = omega arith in e) in
      let up = mul-le-mul_right spe (let e : epoch ≤ epoch - back + back = omega arith in e) in
      (
        omega (arith, down, div-mul-le_self slot spe),
        lt-div-mul-add positive,
        omega (arith, up, add-mul (epoch - back) back spe),
      )

  window_floor_bounds :
      (head_slot window : ℕ)
      → head_slot < u64_modulus
      → (window_floor spec head_slot window ≤ head_slot)
        × (head_slot < window_floor spec head_slot window + (window + 1) * spec.slots_per_epoch)
  unfolding window_floor
  window_floor_bounds head_slot window fits = omega (
    arith,
    start_of_earlier head_slot (slot_to_epoch spec head_slot - window) fits (omega arith),
    epoch_bounds head_slot window,
    add-mul window 1 spec.slots_per_epoch,
  )

  -- A collection that goes on from a processed slot leaves out no later slot of the retry window,
  -- and what it starts on, up to the head, is never more than the window's epochs and the head's own.
  pub collection_start-window :
      (head_slot last window slot : ℕ)
      → head_slot < u64_modulus
      → last < slot
      → slot ≤ head_slot
      → epoch_start_slot spec (slot_to_epoch spec head_slot - window) ≤ slot
      → (collection_start spec head_slot (some last) window ≤ slot)
        × (last < collection_start spec head_slot (some last) window)
        × (head_slot
            < collection_start spec head_slot (some last) window
              + (window + 1) * spec.slots_per_epoch)
  unfolding collection_start window_floor
  collection_start-window head_slot last window slot fits after before within =
      omega (arith, window_floor_bounds head_slot window fits)

  -- A replay after a reorg starts at the changed slot or before it, and covers every duty slot of
  -- the changed slot's epoch and of the one before: those whose inclusions the change can touch.
  pub reorg_replay_start-covers :
      (revert_from duty_slot : ℕ)
      → revert_from < u64_modulus
      → (reorg_replay_start spec revert_from ≤ revert_from)
        × (slot_to_epoch spec revert_from ≤ slot_to_epoch spec duty_slot + 1
            → reorg_replay_start spec revert_from ≤ duty_slot)
        × (reorg_replay_start spec revert_from ≤ duty_slot
            → slot_to_epoch spec revert_from ≤ slot_to_epoch spec duty_slot + 1)
  unfolding reorg_replay_start
  reorg_replay_start-covers revert_from duty_slot fits =
      let spe = spec.slots_per_epoch in
      let start =
        start_of_earlier revert_from (slot_to_epoch spec revert_from - 1) fits (omega arith) in
      (
        omega (arith, start, epoch_bounds revert_from 1),
        λ near. omega (
          arith,
          start,
          epoch_bounds duty_slot 0,
          mul-le-mul_right spe (
              let e : slot_to_epoch spec revert_from - 1 ≤ slot_to_epoch spec duty_slot =
                omega arith in
              e),
        ),
        λ covered.
            unfold slot_to_epoch in
            (let within =
                (le-div_iff_mul-le {k = spe} {x = revert_from / spe - 1} {y = duty_slot} positive).1
                  (rw start at covered) in
              omega (arith, within)),
      )

  rewards_some :
      (head_slot settling_slots epoch : ℕ)
      → latest_reward_epoch spec head_slot settling_slots ≡ some epoch
      → (settling_slots ≤ head_slot)
        × ((head_slot - settling_slots) / spec.slots_per_epoch ≡ epoch + 2)
  unfolding latest_reward_epoch epoch_before_last slot_to_epoch
  rewards_some head_slot settling_slots epoch h = ground arith

  rewards_none :
      (head_slot settling_slots : ℕ)
      → latest_reward_epoch spec head_slot settling_slots ≡ none
      → (head_slot < settling_slots) ⊎ ((head_slot - settling_slots) / spec.slots_per_epoch < 2)
  unfolding latest_reward_epoch epoch_before_last slot_to_epoch
  rewards_none head_slot settling_slots h = ground arith

  -- The epoch whose rewards are fetched is the last one whose inclusion window, with the settling
  -- slots behind it, lies before the head; there is none while no such epoch exists.
  pub latest_reward_epoch-window :
      (head_slot settling_slots epoch : ℕ)
      → ((latest_reward_epoch spec head_slot settling_slots ≡ some epoch)
          → ((epoch + 2) * spec.slots_per_epoch + settling_slots ≤ head_slot)
            × (head_slot < (epoch + 3) * spec.slots_per_epoch + settling_slots))
        × (latest_reward_epoch spec head_slot settling_slots ≡ none
            → head_slot < 2 * spec.slots_per_epoch + settling_slots)
  latest_reward_epoch-window head_slot settling_slots epoch =
      let spe = spec.slots_per_epoch in
      let settled = head_slot - settling_slots in
      (
        λ h.
            let found = rewards_some head_slot settling_slots epoch h in
            let scaled = ap (λ (t : ℕ). t * spe) found.1 in
            let after : settled < settled / spe * spe + spe = lt-div-mul-add positive in
            omega (
              arith,
              found.0,
              scaled,
              after,
              div-mul-le_self settled spe,
              add-mul (epoch + 2) 1 spe,
              add-mul epoch 3 spe,
              add-mul epoch 2 spe,
            ),
        λ h. elim (rewards_none head_slot settling_slots h) [
          | inl early ↦ omega arith
          | inr few ↦
              let below : settled < 2 * spe =
                (div-lt_iff_lt-mul {k = spe} {x = settled} {y = 2} positive).0 few in
              omega arith
        ],
      )
