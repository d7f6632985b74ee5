-- ===== src/Listener/Loop/Safety/Fenced.antt =====
-- A fence, and the cursors of a turn, keep the stream contiguous.
use order_book_server.Base.{
  ℕ, ◌+◌, inl, inr, arith, Bool, true, false, not, Option, none, some, leb, erase_key, nat_eq,
  Bool-cases, length, ◌&&◌,
}
use order_book_server.Base.Result.{ok, err}
use order_book_server.Queue.{QueueApi}
use order_book_server.Orders.{InnerL4Order, l4_order}
use order_book_server.Ingestion.Retired.{FilePath, path_eq, Cursors}
use order_book_server.Listener.{Listener, Received}
use order_book_server.Listener.Recovery.{fence}
use order_book_server.Listener.Fetch.{Attempt}
use order_book_server.Listener.Stream.{IsSound, IsSound-IsBroken, fence-IsSound, weaken}
use order_book_server.Listener.Stream.Receive.Stored.{Kept}
use order_book_server.Listener.Loop.{
  Surroundings, Held, fence_if, insert_opened, clear_full, make_room, attach_file, open_path,
  tracks_source, insert_at_end, skip_interval, with_read_stats, with_process_stats, fence_failed,
}

module _ {A : Type 0} (api : QueueApi ℕ (InnerL4Order A)) (a : Option (Attempt api)) where
  pub fenced : (n : ℕ) (l : Listener api) → IsSound api n a l → IsSound api (n + 1) a (fence api l)
  fenced n l s = fence-IsSound api n a l (IsSound-IsBroken api n a l s)

  pub fence_if-IsSound :
      (n : ℕ) (b : Bool) (l : Listener api)
      → IsSound api n a l
      → IsSound api (n + 1) a (fence_if api b l)
  fence_if-IsSound n true l s = fenced n l s
  fence_if-IsSound n false l s = weaken api n (n + 1) a l (omega arith) s

  insert_opened-IsSound :
      (n : ℕ) (path : FilePath) (from_end : Bool) (held : Held api) (len : Option ℕ)
      → IsSound api n a held.0
      → IsSound api (n + 1) a (insert_opened api path from_end held len).0
  insert_opened-IsSound n path from_end (l, cursors) none s = fenced n l s
  insert_opened-IsSound n path from_end (l, cursors) (some len) s =
      weaken api n (n + 1) a l (omega arith) s

  clear_full-IsSound :
      (n : ℕ) (l : Listener api) (cursors : Cursors)
      → IsSound api n a l
      → IsSound api (n + 1) a (clear_full api l cursors).0
  clear_full-IsSound n l cursors s = elim (Bool-cases (leb l.limits.dirty_files (length cursors))) [
    | inl full ↦ rw full (fenced n l s)
    | inr room ↦ rw room (weaken api n (n + 1) a l (omega arith) s)
  ]

  attach_file-IsSound :
      (n : ℕ) (env : Surroundings) (path : FilePath) (from_end : Bool) (held : Held api)
      → IsSound api n a held.0
      → IsSound api (n + 1 + 1) a (attach_file api env path from_end held).0
  attach_file-IsSound n env path from_end (l, cursors) s =
      insert_opened-IsSound (n + 1) path from_end (fence_if api from_end l, cursors)
        (env.open_file path) (fence_if-IsSound n from_end l s)

  pub open_path-IsSound :
      (n : ℕ) (env : Surroundings) (root path : FilePath) (created : Bool) (held : Held api)
      → IsSound api n a held.0
      → IsSound api (n + 1 + 1 + 1) a (open_path api env root path created held).0
  unfolding open_path
  open_path-IsSound n env root path created (l, cursors) s =
      let room = make_room api env root path l cursors in
      attach_file-IsSound (n + 1) env path (not created && not (tracks_source root cursors))
        (clear_full api l room) (clear_full-IsSound n l room s)

  insert_at_end-IsSound :
      (n : ℕ) (path : FilePath) (held : Held api) (len : Option ℕ)
      → IsSound api n a held.0
      → IsSound api n a (insert_at_end api path held len).0
  insert_at_end-IsSound n path (l, cursors) none s = s
  insert_at_end-IsSound n path (l, cursors) (some len) s = s

  pub skip_interval-IsSound :
      (n : ℕ) (env : Surroundings) (path : FilePath) (held : Held api)
      → IsSound api n a held.0
      → IsSound api (n + 1) a (skip_interval api env path held).0
  unfolding skip_interval
  skip_interval-IsSound n env path (l, cursors) s =
      insert_at_end-IsSound (n + 1) path (fence api l, erase_key path cursors) (env.open_file path)
        (fenced n l s)

  pub fence_failed-IsSound :
      (n : ℕ) (r : Received api) → Kept api n a r → IsSound api (n + 1) a (fence_failed api r)
  fence_failed-IsSound n (l, err e) broken = fence-IsSound api n a l broken
  fence_failed-IsSound n (l, ok _) s = weaken api n (n + 1) a l (omega arith) s

  pub with_process_stats-IsSound :
      (n : ℕ) (env : Surroundings) (l : Listener api)
      → IsSound api n a l
      → IsSound api n a (with_process_stats api env l)
  with_process_stats-IsSound n env l s = record {
    sends = s.sends;
    contiguous = s.contiguous;
    stands = s.stands;
    bounded = s.bounded;
    dated = s.dated;
    phase = s.phase;
  }

  pub with_read_stats-IsSound :
      (n : ℕ) (env : Surroundings) (read_bytes : ℕ) (l : Listener api)
      → IsSound api n a l
      → IsSound api n a (with_read_stats api env read_bytes l)
  with_read_stats-IsSound n env read_bytes l s = record {
    sends = s.sends;
    contiguous = s.contiguous;
    stands = s.stands;
    bounded = s.bounded;
    dated = s.dated;
    phase = s.phase;
  }
