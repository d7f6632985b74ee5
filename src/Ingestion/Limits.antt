-- ===== src/Ingestion/Limits.antt =====
-- `ResourceLimits` of server/src/listeners/order_book/mod.rs. Durations are in seconds.
pub mod Positive
use order_book_server.Base.{ℕ, ◌*◌, ◌≤◌, ◌<◌, ◌≡◌, ◌&&◌, leb, ◌==◌, not, arith}
use order_book_server.Base.Result.{Result, ok, err, ◌>>=◌, ◌>>◌, guard}

pub record ResourceLimits : Type 0 where
  pub dirty_files : ℕ
  pub turn_bytes : ℕ
  pub record_bytes : ℕ
  pub queue_bytes : ℕ
  pub queue_heights : ℕ
  pub queue_age : ℕ
  pub snapshot_timeout : ℕ
  pub snapshot_interval : ℕ

abbrev pub default : ResourceLimits
default = record {
  dirty_files = 32;
  turn_bytes = 1024 * 1024;
  record_bytes = 64 * 1024 * 1024;
  queue_bytes = 1024 * 1024 * 1024;
  queue_heights = 4096;
  queue_age = 120;
  snapshot_timeout = 120;
  snapshot_interval = 10;
}

-- What the environment says of a variable: nothing, a number, or a text that is none.
pub data EnvVar : Type 0 where
  not_present : EnvVar
  number_value : ℕ → EnvVar
  invalid : EnvVar

pub data Name : Type 0 where
  book_snapshot_interval_seconds book_max_dirty_files book_read_turn_bytes : Name
  book_max_record_bytes book_max_queue_bytes book_max_queue_heights : Name
  book_max_queue_age_seconds book_snapshot_timeout_seconds : Name

pub data EnvError : Type 0 where
  not_a_number not_positive : Name → EnvError
  interval_out_of_range : EnvError

abbrev pub fetch : EnvVar → Name → ℕ → Result EnvError ℕ
fetch not_present name fallback = ok fallback
fetch (number_value n) name fallback = ok n
fetch invalid name fallback = err (not_a_number name)

-- the inner function of `from_env`
unfoldable pub number : (Name → EnvVar) → Name → ℕ → Result EnvError ℕ
number env name fallback = do
  value ← fetch (env name) name fallback
  guard (not (value == 0)) (not_positive name)
  ok value

unfoldable pub from_env : (Name → EnvVar) → Result EnvError ResourceLimits
unfolding number
from_env env = do
  snapshot_interval ← number env book_snapshot_interval_seconds default.snapshot_interval
  guard (leb 10 snapshot_interval && leb snapshot_interval 300) interval_out_of_range
  dirty_files ← number env book_max_dirty_files default.dirty_files
  turn_bytes ← number env book_read_turn_bytes default.turn_bytes
  record_bytes ← number env book_max_record_bytes default.record_bytes
  queue_bytes ← number env book_max_queue_bytes default.queue_bytes
  queue_heights ← number env book_max_queue_heights default.queue_heights
  queue_age ← number env book_max_queue_age_seconds default.queue_age
  snapshot_timeout ← number env book_snapshot_timeout_seconds default.snapshot_timeout
  ok (record {
    dirty_files = dirty_files;
    turn_bytes = turn_bytes;
    record_bytes = record_bytes;
    queue_bytes = queue_bytes;
    queue_heights = queue_heights;
    queue_age = queue_age;
    snapshot_timeout = snapshot_timeout;
    snapshot_interval = snapshot_interval;
  })
