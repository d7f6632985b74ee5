-- ===== src/Listener/Stats.antt =====
-- `ResourceStats` of server/src/listeners/order_book/mod.rs. The reason of a reload is the divergence
-- that was found, not its text; what a clock measured is an argument of the method that stores it.
use order_book_server.Base.{ℕ, Option, none}
use order_book_server.Market.Consistency.{Divergence}

pub record ResourceStats : Type 0 where
  pub read_bytes : ℕ
  pub read_time_us : ℕ
  pub process_time_us : ℕ
  pub lock_wait_us : ℕ
  pub source_gaps : ℕ
  pub snapshot_failures : ℕ
  pub snapshot_reloads : ℕ
  pub empty_book_refreshes : ℕ
  pub last_snapshot_reload_reason : Option Divergence
  pub pending_file_bytes : ℕ
  pub dirty_files : ℕ
  pub snapshot_clone_ms : ℕ
  pub snapshot_parse_ms : ℕ
  pub snapshot_reconcile_ms : ℕ
  pub snapshot_requests : ℕ
  pub snapshot_request_started_at_ms : ℕ
  pub snapshot_request_completed_at_ms : ℕ
  pub snapshot_request_ms : ℕ
  pub snapshot_request_inflight_started_at_ms : ℕ

-- `ResourceStats::EMPTY`
abbrev pub empty_stats : ResourceStats
empty_stats = record {
  read_bytes = 0;
  read_time_us = 0;
  process_time_us = 0;
  lock_wait_us = 0;
  source_gaps = 0;
  snapshot_failures = 0;
  snapshot_reloads = 0;
  empty_book_refreshes = 0;
  last_snapshot_reload_reason = none;
  pending_file_bytes = 0;
  dirty_files = 0;
  snapshot_clone_ms = 0;
  snapshot_parse_ms = 0;
  snapshot_reconcile_ms = 0;
  snapshot_requests = 0;
  snapshot_request_started_at_ms = 0;
  snapshot_request_completed_at_ms = 0;
  snapshot_request_ms = 0;
  snapshot_request_inflight_started_at_ms = 0;
}
