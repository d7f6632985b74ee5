-- ===== src/Examples/Files.antt =====
-- Cursors on hourly files, and a line that is read within a scope.
use order_book_server.Base.{
  pos, ℕ, ◌≡◌, refl, ap, true, false, Option, none, some, List, [], ◌∷◌, ◌++◌, subst, DistinctKeys,
  length, map,
}
use order_book_server.OrderBook.Types.{Text}
use order_book_server.Ingestion.Batches.{Batch}
use order_book_server.Ingestion.Cursor.{open_cursor, drained, verify_file, needs_attention}
use order_book_server.Ingestion.Retired.{
  path_eq, FilePath, Files, Cursors, hourly_text, hourly_position, evict_retired_cursor,
}
use order_book_server.Ingestion.Retired.Oldest.{Evicts, evict_retired_cursor-Evicts}
use order_book_server.Ingestion.Scoped.{Decoder, parse_in_scope}
use order_book_server.Ingestion.Scoped.Filter.{
  IsConsistent, all_events, of_scope, parse_in_scope-of_scope,
}
use order_book_server.Subscription.{CoinScope}

abbrev fills_root : FilePath
fills_root = (b'f' ∷ []) ∷ hourly_text ∷ []

abbrev date : Text
date = b'2' ∷ b'0' ∷ b'2' ∷ b'5' ∷ b'0' ∷ b'1' ∷ b'0' ∷ b'2' ∷ []

abbrev file_of : Text → FilePath
file_of hour = fills_root ++ date ∷ hour ∷ []

abbrev disk : Files
disk = record {
  opened = λ path. some (record { len = 7; dev = 1; ino = 2 });
  named = λ path. some (record { len = 7; dev = 1; ino = 2 });
  now = 100;
}

-- The files of 5 and of 3 o'clock are read to their end, the one of 4 o'clock is not.
abbrev cursors : Cursors
unfolding open_cursor
cursors =
    (file_of (b'5' ∷ []), open_cursor 7 true 64)
    ∷ (file_of (b'4' ∷ []), open_cursor 7 false 64)
    ∷ (file_of (b'3' ∷ []), open_cursor 7 true 64)
    ∷ []

third_goes : evict_retired_cursor disk fills_root cursors (file_of (b'6' ∷ [])) ≡ (
  (file_of (b'5' ∷ []), open_cursor 7 true 64) ∷ (file_of (b'4' ∷ []), open_cursor 7 false 64) ∷ [],
  true,
)
unfolding evict_retired_cursor hourly_position cursors open_cursor drained needs_attention
    verify_file
third_goes = refl

at_six : hourly_position (file_of (b'6' ∷ [])) ≡ some (20250102, 6)
unfolding hourly_position
at_six = refl

distinct_files : DistinctKeys cursors
unfolding cursors open_cursor
distinct_files = (refl, (refl, (refl, tt)))

evict_retired_cursor-Evicts_example :
    Evicts disk fills_root
      (20250102, 6)
      cursors
      (evict_retired_cursor disk fills_root cursors (file_of (b'6' ∷ [])))
evict_retired_cursor-Evicts_example =
    evict_retired_cursor-Evicts disk fills_root cursors (file_of (b'6' ∷ [])) (20250102, 6) at_six
      distinct_files

-- A coin is a byte, and a line has an event for each of its bytes.
abbrev coin_of_byte : ℕ → Text
coin_of_byte c = c ∷ []

abbrev byte_event : Text → Option ℕ
byte_event [] = none
byte_event (c ∷ []) = some c
byte_event (c ∷ b ∷ rest) = none

abbrev bytes_batch : Text → Batch ℕ
bytes_batch line = record {
  local_time = pos 3;
  block_time = pos 2;
  block_number = 1;
  events = line;
  wire_bytes = 0;
}

abbrev bytes_decoder : Decoder ℕ
bytes_decoder = record {
  batch = λ line. some (bytes_batch line);
  raw = λ line. some (record {
    local_time = pos 3;
    block_time = pos 2;
    block_number = 1;
    events = map coin_of_byte line;
  });
  coin = λ text. some text;
  event = byte_event;
}

bytes_event-coin :
    (text : Text) (e : ℕ) → byte_event text ≡ some e → some text ≡ some (coin_of_byte e)
bytes_event-coin [] e h = cc
bytes_event-coin (c ∷ []) e h = let same : c ≡ e = cc in ap (λ c. some (c ∷ [])) same
bytes_event-coin (c ∷ b ∷ rest) e h = cc

all_bytes :
    (line : Text) → all_events coin_of_byte bytes_decoder (map coin_of_byte line) ≡ some line
all_bytes [] = refl
all_bytes (c ∷ line) = rw (all_bytes line) refl

bytes_raw_of :
    (line : Text) (b : Batch ℕ)
    → bytes_decoder.batch line ≡ some b
    → (texts : List Text) × (bytes_decoder.raw line
        ≡ some (record {
          local_time = b.local_time;
          block_time = b.block_time;
          block_number = b.block_number;
          events = texts;
        }))
      × (all_events coin_of_byte bytes_decoder texts ≡ some b.events)
bytes_raw_of line b read =
    let same : bytes_batch line ≡ b = cc in
    subst
      (λ (b : Batch ℕ).
        (texts : List Text) × (bytes_decoder.raw line
          ≡ some (record {
            local_time = b.local_time;
            block_time = b.block_time;
            block_number = b.block_number;
            events = texts;
          }))
        × (all_events coin_of_byte bytes_decoder texts ≡ some b.events))
      same (map coin_of_byte line, refl, all_bytes line)

bytes_IsConsistent : IsConsistent coin_of_byte bytes_decoder
bytes_IsConsistent = record { raw_of = bytes_raw_of; coin_of_event = bytes_event-coin }

abbrev few_coins : CoinScope
few_coins = record { all = false; extra = (b'x' ∷ []) ∷ [] }

abbrev bytes_line : Text
bytes_line = b'x' ∷ b':' ∷ b'y' ∷ []

parse_in_scope-of_scope_example :
    parse_in_scope bytes_decoder few_coins bytes_line
    ≡ some (record {
      local_time = pos 3;
      block_time = pos 2;
      block_number = 1;
      events = of_scope coin_of_byte bytes_decoder few_coins bytes_line;
      wire_bytes = length bytes_line;
    })
parse_in_scope-of_scope_example =
    parse_in_scope-of_scope coin_of_byte bytes_decoder bytes_IsConsistent few_coins bytes_line
      (bytes_batch bytes_line) refl
