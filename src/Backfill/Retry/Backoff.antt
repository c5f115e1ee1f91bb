-- ===== src/Backfill/Retry/Backoff.antt =====
-- The backoff and the logging of src/backfill/retry.rs.
use native.Mathlib.Nat.{pow-le-pow_right, one-le-pow}
use dabeacon_indexer.Prelude.{
  ℕ, ◌+◌, ◌^◌, ◌≤◌, ◌<◌, leb→le, le→leb, min, true, some, ◌≡◌, ◌↔◌, arith,
}
use dabeacon_indexer.Error.{Error, backfill_epoch, is_unavailable_input}
use dabeacon_indexer.Backfill.Retry.{
  unavailable, kind_of, HistoricalRetry, ready, delay_seconds, debug, same_kind, same_as_last,
  level_of, failed,
}

delay_bounds : (failures : ℕ) → (60 ≤ delay_seconds failures) × (delay_seconds failures ≤ 1800)
unfolding delay_seconds
delay_bounds failures =
    omega (arith, one-le-pow (min failures 5) 2 (let e : 0 < 2 = omega arith in e))

delay_mono : (n m : ℕ) → min n 5 ≤ min m 5 → delay_seconds n ≤ delay_seconds m
unfolding delay_seconds
delay_mono n m h =
    let power : 2 ^ min n 5 ≤ 2 ^ min m 5 = pow-le-pow_right {n = 2} (omega arith) h in omega arith

-- After a failure the next attempt is due from one instant on, a minute later at the least and
-- half an hour at the most, however often it failed before; the wait does not shrink from one
-- failure to the next.
pub failed-backoff :
    (retry : HistoricalRetry) (cause : Error) (now t : ℕ)
    → let after = (failed retry cause now).0 in
      let delay = delay_seconds retry.failures in
      ((ready after t ≡ true) ↔ (now + delay ≤ t))
      × (60 ≤ delay)
      × (delay ≤ 1800)
      × (delay ≤ delay_seconds after.failures)
unfolding failed ready
failed-backoff retry cause now t = (
  (λ h. leb→le _ t h, λ h. le→leb _ t h),
  (delay_bounds retry.failures).0,
  (delay_bounds retry.failures).1,
  delay_mono retry.failures _ (omega arith),
)

-- A failure is logged above `debug` exactly when its kind is not that of the failure before.
pub failed-quiet :
    (retry : HistoricalRetry) (cause : Error) (now : ℕ)
    → ((failed retry cause now).1 ≡ debug) ↔ (retry.last_kind ≡ some (kind_of cause))
unfolding failed same_as_last same_kind level_of
failed-quiet retry cause now = ground arith

-- The innermost error of an epoch's failure.
pub root_cause : Error → Error
root_cause (backfill_epoch epoch source) = root_cause source
root_cause cause = cause

-- A failure counts as unavailable history exactly when the error that caused it is an unavailable
-- input, under however many `BackfillEpoch` wrappers.
pub kind_of-unavailable :
    (cause : Error)
    → (kind_of cause ≡ unavailable) ↔ (is_unavailable_input (root_cause cause) ≡ true)
unfolding kind_of root_cause is_unavailable_input
kind_of-unavailable (backfill_epoch epoch source) = kind_of-unavailable source
kind_of-unavailable cause = ground arith
