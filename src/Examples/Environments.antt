-- ===== src/Examples/Environments.antt =====
-- Limits out of an environment that sets one of them.
use order_book_server.Base.{◌≡◌, refl}
use order_book_server.Base.Result.{ok}
use order_book_server.Ingestion.Limits.{
  ResourceLimits, default, EnvVar, not_present, number_value, Name, book_max_dirty_files, from_env,
}
use order_book_server.Ingestion.Limits.Positive.{IsPositive, from_env-IsPositive}

abbrev pub more_files : Name → EnvVar
more_files book_max_dirty_files = number_value 64
more_files other = not_present

abbrev pub more_files_limits : ResourceLimits
more_files_limits = record default { dirty_files = 64 }

more_files_read : from_env more_files ≡ ok more_files_limits
unfolding from_env
more_files_read = refl

from_env-IsPositive_example : IsPositive more_files_limits
from_env-IsPositive_example = from_env-IsPositive more_files more_files_limits more_files_read
