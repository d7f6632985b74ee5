-- ===== src/Listener/Loop.antt =====
-- The loop of `hl_listen_with_source` in server/src/listeners/order_book/mod.rs, a branch of its
-- `select!` at a time. The file system and the clocks answer through `Surroundings`; the snapshot task
-- is taken through the parts of `fetch_snapshot` between the turns of the loop.
pub mod Turns
pub mod Safety
pub mod Total
use order_book_server.Base.{
  ℕ, ◌+◌, ◌%◌, ◌^◌, Bool, true, false, not, ◌&&◌, ◌||◌, Option, none, some, List, [], ◌∷◌, leb,
  if◌then◌else◌, length, is_nil, lookup, erase_key, has_key, nat_eq, ◌>>=◌,
}
use order_book_server.Base.Result.{Result, ok, err}
use order_book_server.Queue.{QueueApi}
use order_book_server.OrderBook.Types.{Text}
use order_book_server.Orders.{InnerL4Order, l4_order}
use order_book_server.Ingestion.Limits.{ResourceLimits}
use order_book_server.Ingestion.DirtyFiles.{DirtyFiles, new, push, pop, take_overflow}
use order_book_server.Ingestion.Cursor.{
  FileCursor, ReadError, open_cursor, backlog_bytes, drained, with_max_age, needs_attention,
  read_turn,
}
use order_book_server.Ingestion.Scoped.{EventSource}
use order_book_server.Ingestion.Retired.{
  FilePath, path_eq, starts_with, Files, Cursors, evict_retired_cursor,
}
use order_book_server.Listener.{Listener, Received}
use order_book_server.Listener.Recovery.{fence}
use order_book_server.Listener.Lines.{Decoders, process_data}
use order_book_server.Listener.Fetch.{Task}

-- What a turn of the loop meets outside.
pub record Surroundings : Type 0 where
  pub files : Files
  pub exists : FilePath → Bool
  -- the answers of `is_file` before and after the removal of a file's cursor
  pub is_file : FilePath → Bool
  pub still_file : FilePath → Bool
  -- the length of the file that `File::open` gives
  pub open_file : FilePath → Option ℕ
  -- what `file.read` gives of the file that a cursor has open, at most the budget
  pub read : FilePath → List ℕ
  -- the clock at each record
  pub clock : ℕ → ℕ
  pub read_time : ℕ
  pub lock_wait : ℕ
  pub process_time : ℕ

-- A snapshot task may have been spawned and not have run yet.
pub data Job {A : Type 0} (api : QueueApi ℕ (InnerL4Order A)) : Type 0 where
  spawned : Job api
  running : Task api → Job api

-- `push` of each file that needs attention
abbrev pub push_needing : Files → Cursors → DirtyFiles FilePath → DirtyFiles FilePath
push_needing fs [] dirty = dirty
push_needing fs ((path, c) ∷ cursors) dirty = push_needing fs cursors (
    if needs_attention c (fs.opened path) (fs.named path) fs.now
    then push dirty path false
    else dirty)

abbrev pub pending_bytes : Files → Cursors → ℕ
pending_bytes fs [] = 0
pending_bytes fs ((path, c) ∷ cursors) = backlog_bytes c (fs.opened path) + pending_bytes fs cursors

-- `cursors.retain(|path, cursor| path.exists() || !cursor.drained())`
abbrev pub retain : Surroundings → Cursors → Cursors
retain env [] = []
retain env ((path, c) ∷ cursors) =
    let rest = retain env cursors in
    if env.exists path || not (drained c (env.files.opened path)) then (path, c) ∷ rest else rest

-- `cursors.insert`
abbrev pub insert_cursor : FilePath → FileCursor → Cursors → Cursors
insert_cursor path c [] = (path, c) ∷ []
insert_cursor path c ((p, d) ∷ cursors) =
    if path_eq.beq p path then (p, c) ∷ cursors else (p, d) ∷ insert_cursor path c cursors

-- `cursors.keys().any(|known| known.starts_with(root))`
abbrev pub tracks_source : FilePath → Cursors → Bool
tracks_source root [] = false
tracks_source root ((path, c) ∷ cursors) = starts_with path root || tracks_source root cursors

abbrev pub find_root : FilePath → List (FilePath × EventSource) → Option (FilePath × EventSource)
find_root path [] = none
find_root path ((root, source) ∷ roots) =
    if starts_with path root then some (root, source) else find_root path roots

module _ {A : Type 0} (api : QueueApi ℕ (InnerL4Order A)) where
  pub record Loop : Type 0 where
    pub listener : Listener api
    pub dirty : DirtyFiles FilePath
    -- the permit of `wake`
    pub woken : Bool
    pub cursors : Cursors
    pub job : Option (Job api)
    pub recovery_retry_at : ℕ

  -- what comes before the loop, at the time `now`
  unfoldable pub attach : Listener api → ResourceLimits → ℕ → Loop
  attach l limits now = record {
    listener = record l { limits = limits };
    dirty = new limits.dirty_files;
    woken = false;
    cursors = [];
    job = none;
    recovery_retry_at = now + 5;
  }

  -- the listener and the cursors, which a turn for a path changes together
  abbrev pub Held : Type 0
  Held = Listener api × Cursors

  abbrev pub fence_if : Bool → Listener api → Listener api
  fence_if b l = if b then fence api l else l

  abbrev pub is_undrained : Files → FilePath → Option FileCursor → Bool
  is_undrained fs path none = false
  is_undrained fs path (some c) = not (drained c (fs.opened path))

  -- where the path names no file any more
  unfoldable pub remove_missing : Surroundings → FilePath → Held → Held
  remove_missing env path (l, cursors) =
      (fence_if (is_undrained env.files path (lookup path cursors)) l, erase_key path cursors)

  -- `FileCursor::open` and `with_max_age`
  abbrev pub opened_cursor : Listener api → ℕ → Bool → FileCursor
  opened_cursor l len from_end =
      with_max_age (open_cursor len from_end l.limits.record_bytes) l.limits.queue_age

  abbrev pub insert_opened : FilePath → Bool → Held → Option ℕ → Held
  insert_opened path from_end (l, cursors) none = (fence api l, cursors)
  insert_opened path from_end (l, cursors) (some len) =
      (l, insert_cursor path (opened_cursor l len from_end) cursors)

  -- the cursors that are left after those of files that are gone, and a retired one
  abbrev pub make_room : Surroundings → FilePath → FilePath → Listener api → Cursors → Cursors
  make_room env root path l cursors =
      let left = retain env cursors in
      if leb l.limits.dirty_files (length left)
      then (evict_retired_cursor env.files root left path).0
      else left

  -- where the capacity is still exceeded
  abbrev pub clear_full : Listener api → Cursors → Held
  clear_full l cursors =
      if leb l.limits.dirty_files (length cursors) then (fence api l, []) else (l, cursors)

  abbrev pub attach_file : Surroundings → FilePath → Bool → Held → Held
  attach_file env path from_end (l, cursors) =
      insert_opened path from_end (fence_if from_end l, cursors) (env.open_file path)

  -- where there is no cursor on the path
  unfoldable pub open_path : Surroundings → FilePath → FilePath → Bool → Held → Held
  open_path env root path created (l, cursors) =
      attach_file env path (not created && not (tracks_source root cursors))
        (clear_full l (make_room env root path l cursors))

  abbrev pub insert_at_end : FilePath → Held → Option ℕ → Held
  insert_at_end path (l, cursors) none = (l, cursors)
  insert_at_end path (l, cursors) (some len) =
      (l, insert_cursor path (opened_cursor l len true) cursors)

  -- the error branch of a read: the interval is skipped once
  unfoldable pub skip_interval : Surroundings → FilePath → Held → Held
  skip_interval env path (l, cursors) =
      insert_at_end path (fence api l, erase_key path cursors) (env.open_file path)

  abbrev pub with_read_stats : Surroundings → ℕ → Listener api → Listener api
  with_read_stats env read_bytes l = record l {
    stats = record (l.stats) {
      lock_wait_us = (l.stats.lock_wait_us + env.lock_wait) % 2 ^ 64;
      read_bytes = (l.stats.read_bytes + read_bytes) % 2 ^ 64;
      read_time_us = (l.stats.read_time_us + env.read_time) % 2 ^ 64;
    };
  }

  abbrev pub with_process_stats : Surroundings → Listener api → Listener api
  with_process_stats env l = record l {
    stats = record (l.stats) {
      process_time_us = (l.stats.process_time_us + env.process_time) % 2 ^ 64;
    };
  }

  abbrev pub fence_failed : Received api → Listener api
  fence_failed (l, err e) = fence api l
  fence_failed (l, ok _) = l

  -- What the loop goes on with after a path: the listener, the cursors, and whether to read again.
  abbrev pub Turned : Type 0
  Turned = Held × Bool

module _ {A : Type 0} (log10_floor : ℕ → ℕ) (parse : Text → Option ℕ) (decoders : Decoders A)
    (valid_utf8 : List ℕ → Bool) (api : QueueApi ℕ (InnerL4Order A)) where
  -- the text that was read
  unfoldable pub take_data :
      Surroundings → EventSource → Listener api → Text → ℕ → Option (Listener api)
  take_data env source l text read_bytes =
      let l' = with_read_stats api env read_bytes l in
      if is_nil text
      then some (with_process_stats api env l')
      else (process_data api log10_floor parse decoders source env.clock l' text >>= λ r.
          some (with_process_stats api env (fence_failed api r)))

  abbrev pub after_read :
      Surroundings
      → EventSource
      → FilePath
      → Held api
      → FileCursor × Result ReadError (List ℕ × Bool × ℕ)
      → Option (Turned api)
  after_read env source path (l, cursors) (c, err e) =
      some (skip_interval api env path (l, cursors), false)
  after_read env source path (l, cursors) (c, ok (text, more, read_bytes)) =
      take_data env source l text read_bytes >>= λ l'.
      some ((l', insert_cursor path c cursors), more)

  abbrev pub read_cursor :
      Surroundings → EventSource → FilePath → Held api → Option FileCursor → Option (Turned api)
  read_cursor env source path held none = some (held, false)
  read_cursor env source path held (some c) =
      read_turn valid_utf8 c (env.files.opened path) (env.files.named path) held.0.limits.turn_bytes
        (env.read path) env.files.now
      >>= λ read. after_read env source path held read

  abbrev pub open_unknown : Surroundings → FilePath → FilePath → Bool → Held api → Held api
  open_unknown env root path created held =
      if has_key path held.1 then held else open_path api env root path created held

  -- a path of a source
  unfoldable pub handle_path :
      Surroundings → FilePath → EventSource → FilePath → Bool → Held api → Option (Turned api)
  unfolding take_data
  handle_path env root source path created held =
      let there = if env.is_file path then held else remove_missing api env path held in
      let attached = open_unknown env root path created there in
      if env.still_file path
      then read_cursor env source path attached (lookup path attached.1)
      else some (there, false)

  abbrev pub handle_found :
      Surroundings
      → FilePath
      → Bool
      → Held api
      → Option (FilePath × EventSource)
      → Option (Turned api)
  handle_found env path created held none = some (held, false)
  handle_found env path created held (some (root, source)) =
      handle_path env root source path created held

  abbrev pub push_again : DirtyFiles FilePath → FilePath → Bool → DirtyFiles FilePath
  push_again dirty path more = if more then push dirty path false else dirty

  -- the end of a turn of `wake`
  abbrev pub turned : Loop api → DirtyFiles FilePath → FilePath → Turned api → Loop api
  turned s dirty path ((l, cursors), more) =
      let dirty' = push_again dirty path more in
      record s {
        listener = l;
        cursors = cursors;
        dirty = dirty';
        woken = not (is_nil dirty'.paths);
      }

  abbrev pub handle_next :
      Surroundings
      → List (FilePath × EventSource)
      → Loop api
      → Held api
      → DirtyFiles FilePath
      → Option ((FilePath × Bool) × DirtyFiles FilePath)
      → Option (Loop api)
  handle_next env roots s (l, cursors) dirty none = some (record s {
    listener = l;
    cursors = cursors;
    dirty = dirty;
    woken = not (is_nil dirty.paths);
  })
  handle_next env roots s held dirty (some ((path, created), dirty')) =
      handle_found env path created held (find_root path roots) >>= λ t.
      some (turned s dirty' path t)

  abbrev pub overflowed : Bool → Held api → Held api
  overflowed true (l, cursors) = (fence api l, [])
  overflowed false held = held

  -- the branch of `wake.notified()`
  unfoldable pub on_wake :
      Surroundings → List (FilePath × EventSource) → Loop api → Option (Loop api)
  unfolding handle_path
  on_wake env roots s =
      let (dirty, overflow) = take_overflow s.dirty in
      handle_next env roots s (overflowed overflow (s.listener, s.cursors)) dirty (pop dirty)
