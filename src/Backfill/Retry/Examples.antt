-- ===== src/Backfill/Retry/Examples.antt =====
-- src/backfill/retry.rs on concrete failures.
use dabeacon_indexer.Prelude.{◌+◌, ◌≤◌, true, some, ◌≡◌, ◌↔◌}
use dabeacon_indexer.Error.{beacon_data_unavailable}
use dabeacon_indexer.Backfill.Retry.{HistoricalRetry, failed, ready, delay_seconds, unavailable}
use dabeacon_indexer.Backfill.Retry.Backoff.{failed-backoff}

abbrev failing : HistoricalRetry
failing = record { next_attempt = some 100; failures = 3; last_kind = some unavailable }

failed-backoff_example :
    ((ready (failed failing beacon_data_unavailable 100).0 600 ≡ true)
      ↔ (100 + delay_seconds 3 ≤ 600))
    × (60 ≤ delay_seconds 3)
    × (delay_seconds 3 ≤ 1800)
    × (delay_seconds 3 ≤ delay_seconds (failed failing beacon_data_unavailable 100).0.failures)
failed-backoff_example = failed-backoff failing beacon_data_unavailable 100 600
