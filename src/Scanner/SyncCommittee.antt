-- ===== src/Scanner/SyncCommittee.antt =====
-- src/scanner/sync_committee.rs: what the bits of a sync aggregate say of each validator, and the
-- reward of one position. An `i64` is an integer, and a product of two wraps.
pub mod Outcomes
pub mod Reward
pub mod Live
pub mod Probe
pub mod Epoch
mod Examples
use dabeacon_indexer.Prelude.{
  ℕ, zero, suc, ◌*◌, ◌/◌, ◌%◌, ◌==◌, if◌then◌else◌, Bool, true, false, ◌&&◌, ◌||◌, not, String,
  List, [], ◌∷◌, length, Option, none, some, HashMap, lookup, insert, nat_key, ℤ, pos, negsuc, abs,
  is_negative, i64_bound, wrap_i64, signed, differ, up_or_down,
}
use dabeacon_indexer.Error.{Result, ok, err, panic, ensure, ◌>>=◌, ◌>>◌, inconsistent_beacon_data}
use dabeacon_indexer.Chain.{ChainSpec}
use dabeacon_indexer.Scanner.Bits.{decode_bitvector}

-- Whether the validator signed at any position, and its set positions less its unset ones.
abbrev pub Outcome : Type 0
Outcome = Bool × ℤ

-- `entry(validator).or_insert((false, 0))`, changed by one bit.
unfoldable pub bump : Bool → Option Outcome → Outcome
bump bit none = (bit, up_or_down bit (pos 0))
bump bit (some (participated, net)) = (participated || bit, up_or_down bit net)

-- The loop over `committee.iter().zip(bits)`.
unfoldable pub outcomes_from : HashMap ℕ Outcome → List ℕ → List Bool → HashMap ℕ Outcome
outcomes_from outcomes [] bits = outcomes
outcomes_from outcomes (validator ∷ committee) [] = outcomes
outcomes_from outcomes (validator ∷ committee) (bit ∷ bits) =
    outcomes_from (insert validator (bump bit (lookup validator outcomes)) outcomes) committee bits

unfoldable pub sync_outcomes : List ℕ → List Bool → HashMap ℕ Outcome
sync_outcomes committee bits = outcomes_from [] committee bits

-- `/` on integers; the quotient is rounded towards zero.
abbrev pub quotient : ℤ → ℤ → ℤ
quotient a b = signed (differ (is_negative a) (is_negative b)) (abs a / abs b)

-- The product wraps at the bounds of an `i64`, as in a release build.
unfoldable pub times : ℤ → ℤ → ℤ
times a b = wrap_i64 (signed (differ (is_negative a) (is_negative b)) (abs a * abs b))

-- `i64::MIN % -1`, which panics.
abbrev pub overflows : ℤ → ℤ → Bool
overflows a b = is_negative a && is_negative b && (abs a == i64_bound) && (abs b == 1)

unfoldable pub per_position_reward : ℤ → ℤ → Result (Option ℤ)
per_position_reward total net_positions =
    if abs net_positions == 0
    then ok none
    else if overflows total net_positions
    then panic
    else if not (abs total % abs net_positions == 0) || is_negative (quotient total net_positions)
    then err inconsistent_beacon_data
    else ok (some (quotient total net_positions))

module _ (spec : ChainSpec) (hex_decode : String → Option (List ℕ)) where
  unfoldable pub decode_sync_committee_bits : String → Result (List Bool)
  decode_sync_committee_bits hex_str = do
    bits ← decode_bitvector hex_decode hex_str
    ensure (length bits == spec.sync_committee_size) inconsistent_beacon_data
    ok bits
