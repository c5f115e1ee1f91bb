-- ===== src/Backfill/Retry.antt =====
-- src/backfill/retry.rs: when a failed history scan is tried again, and how loudly it is logged.
-- An `Instant` is a number of seconds; instants do not overflow.
pub mod Backoff
mod Examples
use dabeacon_indexer.Prelude.{
  ℕ, ◌+◌, ◌-◌, ◌*◌, ◌^◌, leb, ◌==◌, if◌then◌else◌, min, Bool, true, false, Option, none, some,
}
use dabeacon_indexer.Error.{
  Error, http, beacon_api, json, database, migration, invalid_block_id, beacon_data_unavailable,
  backfill_epoch, inconsistent_beacon_data,
}

pub data FailureKind : Type 0 where
  unavailable invalid_data other : FailureKind

unfoldable pub kind_of : Error → FailureKind
kind_of (backfill_epoch epoch source) = kind_of source
kind_of beacon_data_unavailable = unavailable
kind_of (beacon_api status) = if status == 404 then unavailable else other
kind_of inconsistent_beacon_data = invalid_data
kind_of invalid_block_id = invalid_data
kind_of json = invalid_data
kind_of (http is_decode) = if is_decode then invalid_data else other
kind_of database = other
kind_of migration = other

pub record HistoricalRetry : Type 0 where
  pub next_attempt : Option ℕ
  pub failures : ℕ
  pub last_kind : Option FailureKind

abbrev pub default_retry : HistoricalRetry
default_retry = record { next_attempt = none; failures = 0; last_kind = none }

due : Option ℕ → ℕ → Bool
due none now = true
due (some next) now = leb next now

unfoldable pub ready : HistoricalRetry → ℕ → Bool
unfolding due
ready retry now = due retry.next_attempt now

unfoldable pub delay_seconds : ℕ → ℕ
delay_seconds failures = min (60 * 2 ^ min failures 5) 1800

-- The `tracing` macro that reports the failure.
pub data Level : Type 0 where
  debug info warn error : Level

same_kind : FailureKind → FailureKind → Bool
same_kind unavailable unavailable = true
same_kind invalid_data invalid_data = true
same_kind other other = true
same_kind _ _ = false

same_as_last : FailureKind → Option FailureKind → Bool
unfolding same_kind
same_as_last kind none = false
same_as_last kind (some last) = same_kind last kind

level_of : FailureKind → Level
level_of unavailable = info
level_of invalid_data = error
level_of other = warn

-- `saturating_add` on `u32`.
abbrev saturating_suc : ℕ → ℕ
saturating_suc failures = min (failures + 1) (2 ^ 32 - 1)

unfoldable pub failed : HistoricalRetry → Error → ℕ → HistoricalRetry × Level
unfolding delay_seconds same_as_last level_of
failed retry cause now =
    let delay = delay_seconds retry.failures in
    let kind = kind_of cause in
    (
      record {
        next_attempt = some (now + delay);
        failures = saturating_suc retry.failures;
        last_kind = some kind;
      },
      if same_as_last kind retry.last_kind then debug else level_of kind,
    )
