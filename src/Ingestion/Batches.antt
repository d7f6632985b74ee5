-- ===== src/Ingestion/Batches.antt =====
-- `Batch` of server/src/types/node_data.rs and `BatchQueue` of listeners/order_book/utils.rs. An
-- instant is a number of seconds; a method that reads the clock takes what it reads.
pub mod Accounting
use order_book_server.Base.{
  ℤ, millis, Returns, ℕ, ◌+◌, ◌-◌, ◌*◌, ◌^◌, ◌≤◌, ◌<◌, ◌≡◌, refl, sym, ap, ◌∙◌, Bool, true, false,
  Option, none, some, List, [], ◌∷◌, ◌++◌, ◌&&◌, ◌||◌, ltb, leb, ◌==◌, if◌then◌else◌, not, arith,
  length, sum_by, sum_by-append, length-append, All, All-append, All-imp,
}
use order_book_server.Base.Result.{Result, ok, err}
use order_book_server.Ingestion.Limits.{ResourceLimits}

pub record Batch (E : Type 0) : Type 0 where
  pub local_time : ℤ
  pub block_time : ℤ
  pub block_number : ℕ
  pub events : List E
  pub wire_bytes : ℕ

abbrev pub with_wire_bytes : {E : Type 0} → Batch E → ℕ → Batch E
with_wire_bytes b bytes = record b { wire_bytes = bytes }

pub record BatchQueue (E : Type 0) : Type 0 where
  pub deque : List (Batch E × ℕ)
  pub last_ts : Option ℕ
  pub bytes : ℕ

pub data PushError : Type 0 where
  byte_counter_overflow queue_limit : PushError

-- `usize` has 64 bits
abbrev pub usize_bound : ℕ
usize_bound = 2 ^ 64

-- `last_ts.is_some_and(|last| last >= number)`
abbrev pub not_newer : Option ℕ → ℕ → Bool
not_newer none number = false
not_newer (some last) number = leb number last

module _ {E : Type 0} where
  unfoldable pub new_queue : BatchQueue E
  new_queue = record { deque = []; last_ts = none; bytes = 0 }

  -- the closure on the oldest entry
  abbrev pub too_old : List (Batch E × ℕ) → ℕ → ResourceLimits → ℕ → Bool
  too_old [] number limits now = false
  too_old ((first, at) ∷ deque) number limits now =
      ltb limits.queue_age (now - at) || ltb limits.queue_heights (number - first.block_number)

  unfoldable pub push :
      BatchQueue E → Batch E → ResourceLimits → ℕ → Result PushError (BatchQueue E × Bool)
  push q block limits now =
      let next_bytes = q.bytes + block.wire_bytes in
      if not_newer q.last_ts block.block_number
      then ok (q, false)
      else if leb usize_bound next_bytes
      then err byte_counter_overflow
      else if ltb limits.queue_bytes next_bytes
          || leb limits.queue_heights (length q.deque)
          || too_old q.deque block.block_number limits now
      then err queue_limit
      else ok (
        record {
          deque = q.deque ++ (block, now) ∷ [];
          last_ts = some block.block_number;
          bytes = next_bytes;
        },
        true,
      )

  unfoldable pub expired : BatchQueue E → ResourceLimits → ℕ → Bool
  expired q limits now = elim q.deque [
    | [] ↦ false
    | (first, at) ∷ rest ↦ ltb limits.queue_age (now - at)
  ]

  abbrev pub pop_from : BatchQueue E → List (Batch E × ℕ) → Option (Batch E × BatchQueue E)
  pop_from q [] = none
  pop_from q ((batch, at) ∷ deque) =
      some (batch, record q { deque = deque; bytes = q.bytes - batch.wire_bytes })

  unfoldable pub pop_front : BatchQueue E → Option (Batch E × BatchQueue E)
  pop_front q = pop_from q q.deque

  unfoldable pub front : BatchQueue E → Option (Batch E)
  front q = elim q.deque [ [] ↦ none | (batch, at) ∷ deque ↦ some batch ]
