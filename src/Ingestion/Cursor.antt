-- ===== src/Ingestion/Cursor.antt =====
-- `FileCursor` of server/src/listeners/order_book/ingestion.rs. What the file system answers, and
-- the clock, are arguments; `valid_utf8` stands for `String::from_utf8`.
pub mod Records
use order_book_server.Base.{
  ℕ, ◌^◌, zero, suc, ◌+◌, ◌-◌, ◌≤◌, ◌<◌, ◌≡◌, refl, sym, ap, ◌∙◌, ◌⊎◌, inl, inr, Bool, true, false,
  Option, none, some, List, [], ◌∷◌, ◌++◌, ◌||◌, ◌&&◌, ltb, leb, ◌==◌, if◌then◌else◌, arith, not,
  length, length-append, is_nil, Bool-cases, Option-cases, take, is_some,
}
use order_book_server.Base.Result.{Result, ok, err, ◌>>=◌, ◌>>◌, guard}

-- `len` and the pair of device and inode
pub record Metadata : Type 0 where
  pub len : ℕ
  pub dev : ℕ
  pub ino : ℕ

pub data ReadError : Type 0 where
  io_error replaced truncated age_limit byte_limit not_utf8 : ReadError

pub record FileCursor : Type 0 where
  pub offset : ℕ
  pub partial : List ℕ
  pub max_record_bytes : ℕ
  pub partial_record_bytes : ℕ
  pub partial_since : Option ℕ
  pub max_partial_age : ℕ

-- `seek(SeekFrom::End(0))` gives the length of the file
unfoldable pub open_cursor : ℕ → Bool → ℕ → FileCursor
open_cursor len from_end max_record_bytes = record {
  offset = if from_end then len else 0;
  partial = [];
  max_record_bytes = max_record_bytes;
  partial_record_bytes = 0;
  partial_since = none;
  max_partial_age = 120;
}

unfoldable pub backlog_bytes : FileCursor → Option Metadata → ℕ
backlog_bytes c file = (elim file [ none ↦ 0 | some m ↦ m.len - c.offset ]) + length c.partial

unfoldable pub drained : FileCursor → Option Metadata → Bool
drained c file = is_nil c.partial && (elim file [ none ↦ false | some m ↦ m.len == c.offset ])

unfoldable pub with_max_age : FileCursor → ℕ → FileCursor
with_max_age c age = record c { max_partial_age = age }

abbrev pub partial_expired : FileCursor → ℕ → Bool
partial_expired c now = elim c.partial_since [
  | none ↦ false
  | some at ↦ ltb c.max_partial_age (now - at)
]

abbrev pub metadata_of : Option Metadata → Result ReadError Metadata
metadata_of none = err io_error
metadata_of (some m) = ok m

-- the metadata of the open file, and of what the path names now
unfoldable pub verify_file :
    FileCursor → Option Metadata → Option Metadata → Result ReadError Metadata
verify_file c file path = do
  metadata ← metadata_of file
  current ← metadata_of path
  guard (metadata.dev == current.dev && metadata.ino == current.ino) replaced
  guard (leb c.offset metadata.len) truncated
  ok metadata

unfoldable pub needs_attention : FileCursor → Option Metadata → Option Metadata → ℕ → Bool
unfolding verify_file
needs_attention c file path now =
    partial_expired c now
    || (elim (verify_file c file path) [ err e ↦ true | ok metadata ↦ ltb c.offset metadata.len ])

abbrev pub newline : ℕ
newline = b'\n'

-- the `for` over the bytes read: `partial_record_bytes`, and `complete_end`
unfoldable pub scan : ℕ → ℕ → ℕ → ℕ → Option ℕ → List ℕ → Result ℕ (ℕ × Option ℕ)
scan max prior index count end [] = ok (count, end)
scan max prior index count end (byte ∷ bytes) =
    let rest =
      scan max prior (index + 1) (if byte == newline then 0 else count + 1)
        (if byte == newline then some (prior + index + 1) else end) bytes in
    if ltb max (count + 1) then err (count + 1) else rest

abbrev pub drop : ℕ → List ℕ → List ℕ
drop zero xs = xs
drop (suc n) [] = []
drop (suc n) (x ∷ xs) = drop n xs

-- the update of `partial_since`
abbrev pub since : FileCursor → Bool → ℕ → FileCursor
since c completed now =
    if is_nil c.partial
    then record c { partial_since = none }
    else if completed || not (is_some c.partial_since)
    then record c { partial_since = some now }
    else c

abbrev pub ReadTurn : Type 0
ReadTurn = FileCursor × Result ReadError (List ℕ × Bool × ℕ)

-- The text, whether more may come, and the number of bytes read.
abbrev pub finish_turn : (List ℕ → Bool) → FileCursor → List ℕ → ℕ → Option ℕ → ReadTurn
finish_turn valid_utf8 c bytes now none =
    let c' = record c { partial = c.partial ++ bytes } in
    (since c' false now, ok ([], ltb 0 (length bytes), length bytes))
finish_turn valid_utf8 c bytes now (some end) =
    let all = c.partial ++ bytes in
    let complete = take end all in
    let c' : FileCursor = record c { partial = drop end all } in
    if valid_utf8 complete
    then (since c' true now, ok (complete, ltb 0 (length bytes), length bytes))
    else (c', err not_utf8)

abbrev pub scan_turn :
    (List ℕ → Bool) → FileCursor → List ℕ → ℕ → Result ℕ (ℕ × Option ℕ) → ReadTurn
scan_turn valid_utf8 c bytes now (err count) =
    (record c { partial_record_bytes = count }, err byte_limit)
scan_turn valid_utf8 c bytes now (ok (count, end)) =
    finish_turn valid_utf8 (record c { partial_record_bytes = count }) bytes now end

-- `bytes` is what `file.read` gave, at most the budget. `none` is the panic of `vec![0; budget]` for
-- more than `isize::MAX` bytes.
unfoldable pub read_turn :
    (List ℕ → Bool)
    → FileCursor
    → Option Metadata
    → Option Metadata
    → ℕ
    → List ℕ
    → ℕ
    → Option ReadTurn
unfolding verify_file scan
read_turn valid_utf8 c file path budget bytes now =
    let read =
      scan_turn valid_utf8 (record c { offset = c.offset + length bytes }) bytes now
        (scan c.max_record_bytes (length c.partial) 0 c.partial_record_bytes none bytes) in
    elim (verify_file c file path) [
      | err e ↦ some (c, err e)
      | ok metadata ↦
          if partial_expired c now
          then some (c, err age_limit)
          else if leb (2 ^ 63) budget
          then none
          else some read
    ]
