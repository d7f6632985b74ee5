-- ===== src/Base/Times.antt =====
-- `NaiveDateTime`, by its milliseconds since 1970, and `try_into::<u64>` of them.
use Prim.Native.Nat.{ℕ}
use mathlib.Core.Option.{Option, none, some}

pub data ℤ : Type 0 where
  pos negsuc : ℕ → ℤ

-- `try_into().unwrap()`, which panics on a time before 1970
abbrev pub millis : ℤ → Option ℕ
millis (pos n) = some n
millis (negsuc n) = none
