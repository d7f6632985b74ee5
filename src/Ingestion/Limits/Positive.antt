-- ===== src/Ingestion/Limits/Positive.antt =====
-- The limits that the environment gives are in range.
use order_book_server.Base.{ℕ, ◌≤◌, ◌<◌, ◌≡◌, ◌&&◌, leb, arith, subst}
use order_book_server.Base.Result.{Result, ok, ◌>>=◌, OnOk, >>=-OnOk, guard-OnOk}
use order_book_server.Ingestion.Limits.{
  ResourceLimits, default, EnvVar, Name, EnvError, interval_out_of_range, number, from_env,
  book_snapshot_interval_seconds, book_max_dirty_files, book_read_turn_bytes, book_max_record_bytes,
  book_max_queue_bytes, book_max_queue_heights, book_max_queue_age_seconds,
  book_snapshot_timeout_seconds,
}

-- Every limit is positive, and the snapshot interval is between 10 and 300 seconds.
pub record IsPositive (l : ResourceLimits) : Type 0 where
  pub dirty_files : 0 < l.dirty_files
  pub turn_bytes : 0 < l.turn_bytes
  pub record_bytes : 0 < l.record_bytes
  pub queue_bytes : 0 < l.queue_bytes
  pub queue_heights : 0 < l.queue_heights
  pub queue_age : 0 < l.queue_age
  pub snapshot_timeout : 0 < l.snapshot_timeout
  pub interval_low : 10 ≤ l.snapshot_interval
  pub interval_high : l.snapshot_interval ≤ 300

number_pos :
    (env : Name → EnvVar) (name : Name) (fallback : ℕ) {n : ℕ}
    → number env name fallback ≡ ok n
    → 0 < n
unfolding number
number_pos env name fallback h = ground arith

-- A chain goes on with positive numbers only.
number-OnOk :
    {A : Type 0} (P : A → Type 0) (env : Name → EnvVar) (name : Name) (fallback : ℕ)
    (next : ℕ → Result EnvError A)
    → ((n : ℕ) → 0 < n → OnOk P (next n))
    → OnOk P (number env name fallback >>= next)
number-OnOk P env name fallback next holds =
    >>=-OnOk P (number env name fallback) next
      (λ n is_read. holds n (number_pos env name fallback is_read))

from_env-OnOk : (env : Name → EnvVar) → OnOk IsPositive (from_env env)
unfolding from_env
from_env-OnOk env =
    number-OnOk IsPositive env book_snapshot_interval_seconds default.snapshot_interval _
      λ interval interval_pos.
        guard-OnOk IsPositive (leb 10 interval && leb interval 300) interval_out_of_range _
          λ ranged.
            number-OnOk IsPositive env book_max_dirty_files default.dirty_files _ λ dirty dirty_pos.
              number-OnOk IsPositive env book_read_turn_bytes default.turn_bytes _ λ turn turn_pos.
                number-OnOk IsPositive env book_max_record_bytes default.record_bytes _
                  λ bytes bytes_pos.
                    number-OnOk IsPositive env book_max_queue_bytes default.queue_bytes _
                      λ queue queue_pos.
                        number-OnOk IsPositive env book_max_queue_heights default.queue_heights _
                          λ heights heights_pos.
                            number-OnOk IsPositive env book_max_queue_age_seconds default.queue_age
                              _
                              λ age age_pos.
                                number-OnOk IsPositive env book_snapshot_timeout_seconds
                                  default.snapshot_timeout _
                                  λ timeout timeout_pos. record {
                                    dirty_files = dirty_pos;
                                    turn_bytes = turn_pos;
                                    record_bytes = bytes_pos;
                                    queue_bytes = queue_pos;
                                    queue_heights = heights_pos;
                                    queue_age = age_pos;
                                    snapshot_timeout = timeout_pos;
                                    interval_low = ground arith;
                                    interval_high = ground arith;
                                  }

-- Limits that are read from the environment are all positive, and their snapshot interval is between
-- 10 and 300 seconds.
pub from_env-IsPositive :
    (env : Name → EnvVar) (l : ResourceLimits) → from_env env ≡ ok l → IsPositive l
from_env-IsPositive env l ran = subst (OnOk IsPositive) ran (from_env-OnOk env)
