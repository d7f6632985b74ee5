-- ===== src/Examples/Inputs.antt =====
-- Bytes read, batches queued and paths notified.
use order_book_server.Base.{
  pos, ℕ, zero, ◌+◌, ◌-◌, ◌≤◌, ◌≡◌, refl, Bool, true, false, Option, none, some, List, [], ◌∷◌,
  ◌++◌, ◌||◌, ◌⊎◌, nat_eq, length, is_some,
}
use order_book_server.Base.Result.{ok}
use order_book_server.Ingestion.Limits.{default}
use order_book_server.Ingestion.Batches.{Batch, BatchQueue, new_queue, PushError}
use order_book_server.Ingestion.Batches
use order_book_server.Ingestion.Batches.Accounting.{
  IsValid, new_queue-IsValid, push-IsValid, pop_front-IsValid,
}
use order_book_server.Ingestion.DirtyFiles.{
  DirtyFiles, IsQueue, push-IsQueue, pop-IsQueue, new-IsQueue,
}
use order_book_server.Ingestion.DirtyFiles
use order_book_server.Ingestion.Cursor.{Metadata, FileCursor, open_cursor, read_turn, newline}
use order_book_server.Ingestion.Cursor.Records
use order_book_server.Ingestion.Cursor.Records.{WholeRecords, read_turn-Turn, open_cursor-IsValid}

abbrev pub cursor : FileCursor
cursor = open_cursor 0 false 100

abbrev pub file : Metadata
file = record { len = 4; dev = 1; ino = 2 }

abbrev pub bytes_read : List ℕ
bytes_read = 65 ∷ 66 ∷ newline ∷ 67 ∷ []

abbrev pub ascii : List ℕ → Bool
ascii bytes = true

abbrev pub cursor_after : FileCursor
cursor_after = record cursor {
  offset = 4;
  partial = 67 ∷ [];
  partial_record_bytes = 1;
  partial_since = some 5;
}

abbrev pub text_read : List ℕ
text_read = 65 ∷ 66 ∷ newline ∷ []

read_ran :
    read_turn ascii cursor (some file) (some file) 1024 bytes_read 5
    ≡ some (cursor_after, ok (text_read, true, 4))
unfolding read_turn open_cursor
read_ran = refl

read_turn-Turn_example :
    Records.IsValid cursor_after
    × (cursor.partial ++ bytes_read ≡ text_read ++ cursor_after.partial)
    × WholeRecords text_read
    × (4 ≡ length bytes_read)
    × (cursor_after.offset ≡ cursor.offset + length bytes_read)
read_turn-Turn_example =
    read_turn-Turn ascii cursor cursor_after (some file) (some file) bytes_read text_read 1024 5 4
      true (open_cursor-IsValid 0 100 false) read_ran

abbrev pub batch : Batch ℕ
batch = record {
  local_time = pos 0;
  block_time = pos 0;
  block_number = 7;
  events = [];
  wire_bytes = 30;
}

abbrev pub queue_of_one : BatchQueue ℕ
queue_of_one = record { deque = (batch, 3) ∷ []; last_ts = some 7; bytes = 0 + 30 }

pushed : Batches.push new_queue batch default 3 ≡ ok (queue_of_one, true)
unfolding Batches.push new_queue
pushed = refl

push-IsValid_example : IsValid default queue_of_one
push-IsValid_example =
    push-IsValid new_queue queue_of_one batch default 3 true (new_queue-IsValid default) pushed

abbrev pub queue_of_none : BatchQueue ℕ
queue_of_none = record { deque = []; last_ts = some 7; bytes = 0 }

popped : Batches.pop_front queue_of_one ≡ some (batch, queue_of_none)
unfolding Batches.pop_front
popped = refl

pop_front-IsValid_example :
    IsValid default queue_of_none
    × (batch.wire_bytes ≤ queue_of_one.bytes)
    × (queue_of_none.bytes ≡ queue_of_one.bytes - batch.wire_bytes)
pop_front-IsValid_example =
    pop_front-IsValid default queue_of_one queue_of_none batch
      (push-IsValid new_queue queue_of_one batch default 3 true (new_queue-IsValid default) pushed)
      popped

abbrev pub dirty_one : DirtyFiles ℕ
dirty_one = DirtyFiles.push (DirtyFiles.new 1) 5 true

push-IsQueue_example :
    IsQueue dirty_one
    × ((is_some (dirty_one.created 5) || dirty_one.overflow) ≡ true)
    × ((dirty_one.created 5 ≡ some true)
        ⊎ ((zero ≡ 1) × (dirty_one ≡ DirtyFiles.mark_overflow (DirtyFiles.new 1))))
unfolding DirtyFiles.push DirtyFiles.new
push-IsQueue_example = push-IsQueue (DirtyFiles.new 1) 5 true (new-IsQueue 1)

abbrev pub get_or : {B : Type 0} → B → Option B → B
get_or b none = b
get_or b (some c) = c

abbrev pub taken : (ℕ × Bool) × DirtyFiles ℕ
taken = get_or ((0, false), dirty_one) (DirtyFiles.pop dirty_one)

taken_ran : DirtyFiles.pop dirty_one ≡ some ((5, true), taken.1)
unfolding DirtyFiles.pop DirtyFiles.push DirtyFiles.new
taken_ran = refl

pop-IsQueue_example :
    IsQueue taken.1
    × (dirty_one.paths ≡ 5 ∷ taken.1.paths)
    × (dirty_one.created 5 ≡ some true)
    × (taken.1.created 5 ≡ none)
pop-IsQueue_example =
    pop-IsQueue dirty_one taken.1 5 true (push-IsQueue (DirtyFiles.new 1) 5 true (new-IsQueue 1)).0
      taken_ran
