-- ===== src/Listener/Loop/Total.antt =====
-- No turn of the loop panics, where the logarithm is that of a 64-bit price.
use order_book_server.Base.{
  leb, if◌then◌else◌, ℕ, ◌+◌, ◌*◌, ◌^◌, ◌≤◌, ◌<◌, ◌≡◌, refl, arith, Bool, true, Option, none, some,
  List, [], ◌∷◌, is_nil, lookup, nat_eq, length, Returns, >>=-Returns, if-Returns, Eq,
}
use order_book_server.Base.Result.{Result, ok, err}
use order_book_server.Queue.{QueueApi}
use order_book_server.OrderBook.Types.{Text}
use order_book_server.Orders.{InnerL4Order, l4_order}
use order_book_server.Ingestion.Limits.{ResourceLimits}
use order_book_server.Ingestion.Cursor.{
  Metadata, FileCursor, ReadError, age_limit, ReadTurn, partial_expired, verify_file, read_turn,
}
use order_book_server.Ingestion.DirtyFiles.{DirtyFiles, pop, take_overflow}
use order_book_server.Ingestion.Scoped.{EventSource}
use order_book_server.Ingestion.Retired.{FilePath, path_eq}
use order_book_server.Subscription.{CoinScope}
use order_book_server.Ingestion.Batches.{new_queue}
use order_book_server.Listener.Pairs.Dated.{empty-IsDatedQueue}
use order_book_server.Listener.Lines.Dated.{IsDatedDecoders}
use order_book_server.Listener.{Listener}
use order_book_server.Listener.Recovery.{new_listener}
use order_book_server.Listener.Lines.{Decoders}
use order_book_server.Listener.Fetch.{
  Attempt, requested, answered, ended, Loaded, parse_done, finish,
}
use order_book_server.Listener.Stream.{IsSound}
use order_book_server.Listener.Total.Records.{process_data-Returns}
use order_book_server.Listener.Total.Snapshots.{finish_snapshot-Returns}
use order_book_server.Listener.Loop.{
  Surroundings, Job, spawned, running, Loop, Held, attach, take_data, after_read, read_cursor,
  open_unknown, handle_path, handle_found, find_root, handle_next, overflowed, on_wake,
  with_read_stats, remove_missing,
}
use order_book_server.Listener.Loop.Safety.Fenced.{with_read_stats-IsSound}
use order_book_server.Listener.Loop.Safety.Wake.{attached-IsSound, overflowed-IsSound}
use order_book_server.Listener.Loop.Turns.{
  LoopEvent, notice, wake, maintenance, tick, job_starts, node_answers, job_finishes, joined,
  job_panics, finish_job, turn, turns,
}
use order_book_server.Listener.Loop.Safety.Upkeep.{attempt_of, IsSafe, parse_done-IsSound}
use order_book_server.Listener.Loop.Safety.{turn-IsSafe, Streams, turns-Streams}

module _ {A : Type 0} (log10_floor : ℕ → ℕ) (sane : (px : ℕ) → log10_floor px ≤ 19)
    (parse : Text → Option ℕ) (decoders : Decoders A) ⦃laws : IsDatedDecoders decoders⦄
    (valid_utf8 : List ℕ → Bool) (api : QueueApi ℕ (InnerL4Order A)) where
  take_data-Returns :
      (n : ℕ) (a : Option (Attempt api)) (env : Surroundings) (source : EventSource)
      (l : Listener api) (text : Text) (read_bytes : ℕ)
      → IsSound api n a l
      → Returns (take_data log10_floor parse decoders valid_utf8 api env source l text read_bytes)
  unfolding take_data
  take_data-Returns n a env source l text read_bytes s =
      if-Returns (is_nil text) _ _ (λ h. (_, refl))
        (λ h.
          >>=-Returns _ _
            (process_data-Returns log10_floor sane parse decoders source api n a env.clock
              (with_read_stats api env read_bytes l) text
              (with_read_stats-IsSound api a n env read_bytes l s))
            (λ r _. (_, refl)))

  after_read-Returns :
      (n : ℕ) (a : Option (Attempt api)) (env : Surroundings) (source : EventSource)
      (path : FilePath) (held : Held api) (read : ReadTurn)
      → IsSound api n a held.0
      → Returns (after_read log10_floor parse decoders valid_utf8 api env source path held read)
  after_read-Returns n a env source path held (c, err e) s = (_, refl)
  after_read-Returns n a env source path held (c, ok (text, more, read_bytes)) s =
      >>=-Returns _ _ (take_data-Returns n a env source held.0 text read_bytes s) (λ l _. (_, refl))

  read_turn-Returns :
      (c : FileCursor) (file path : Option Metadata) (budget : ℕ) (bytes : List ℕ) (now : ℕ)
      → budget < 2 ^ 63
      → Returns (read_turn valid_utf8 c file path budget bytes now)
  unfolding read_turn
  read_turn-Returns c file path budget bytes now few = go _ (verify_file c file path)
    where
      go :
          (read : ReadTurn) (found : Result ReadError Metadata)
          → Returns (elim found [
            | err e ↦ some (c, err e)
            | ok metadata ↦
                if partial_expired c now
                then some (c, err age_limit)
                else if leb (2 ^ 63) budget
                then none
                else some read
          ])
      go read (err e) = (_, refl)
      go read (ok metadata) =
          if-Returns (partial_expired c now) _ _ (λ h. (_, refl))
            (λ h.
              if-Returns (leb (2 ^ 63) budget) _ _ (λ many. absurd (ground arith)) (λ h. (_, refl)))

  read_cursor-Returns :
      (n : ℕ) (a : Option (Attempt api)) (env : Surroundings) (source : EventSource)
      (path : FilePath) (held : Held api) (c : Option FileCursor)
      → IsSound api n a held.0
      → Returns (read_cursor log10_floor parse decoders valid_utf8 api env source path held c)
  read_cursor-Returns n a env source path held none s = (_, refl)
  read_cursor-Returns n a env source path held (some c) s =
      >>=-Returns _ _
        (read_turn-Returns c (env.files.opened path) (env.files.named path) held.0.limits.turn_bytes
          (env.read path) env.files.now s.sends.1)
        (λ read _. after_read-Returns n a env source path held read s)

  handle_found-Returns :
      (n : ℕ) (a : Option (Attempt api)) (env : Surroundings) (path : FilePath) (created : Bool)
      (held : Held api) (found : Option (FilePath × EventSource))
      → IsSound api n a held.0
      → Returns (handle_found log10_floor parse decoders valid_utf8 api env path created held found)
  unfolding handle_path
  handle_found-Returns n a env path created held none s = (_, refl)
  handle_found-Returns n a env path created held (some (root, source)) s =
      let attached =
        open_unknown log10_floor parse decoders valid_utf8 api env root path created
          (if env.is_file path then held else remove_missing api env path held) in
      if-Returns (env.still_file path) _ _
        (λ h. read_cursor-Returns (n + 1 + 3) a env source path attached (lookup path attached.1) (
          attached-IsSound log10_floor parse decoders valid_utf8 api a n env root path created held
            s))
        (λ h. (_, refl))

  handle_next-Returns :
      (n : ℕ) (a : Option (Attempt api)) (env : Surroundings)
      (roots : List (FilePath × EventSource)) (s : Loop api) (held : Held api)
      (dirty : DirtyFiles FilePath) (next : Option ((FilePath × Bool) × DirtyFiles FilePath))
      → IsSound api n a held.0
      → Returns (handle_next log10_floor parse decoders valid_utf8 api env roots s held dirty next)
  handle_next-Returns n a env roots s held dirty none sound = (_, refl)
  handle_next-Returns n a env roots s held dirty (some ((path, created), dirty')) sound =
      >>=-Returns _ _ (handle_found-Returns n a env path created held (find_root path roots) sound)
        (λ t _. (_, refl))

  on_wake-Returns :
      (n : ℕ) (a : Option (Attempt api)) (env : Surroundings)
      (roots : List (FilePath × EventSource)) (s : Loop api)
      → IsSound api n a s.listener
      → Returns (on_wake log10_floor parse decoders valid_utf8 api env roots s)
  unfolding on_wake
  on_wake-Returns n a env roots s sound =
      handle_next-Returns (n + 1) a env roots s
        (overflowed log10_floor parse decoders valid_utf8 api (take_overflow s.dirty).1
          (s.listener, s.cursors))
        (take_overflow s.dirty).0 (pop (take_overflow s.dirty).0)
        (overflowed-IsSound log10_floor parse decoders valid_utf8 api a n (take_overflow s.dirty).1
          (s.listener, s.cursors) sound)

module _ {A : Type 0} ⦃e : Eq (InnerL4Order A)⦄ (log10_floor : ℕ → ℕ)
    (sane : (px : ℕ) → log10_floor px ≤ 19) (parse : Text → Option ℕ) (decoders : Decoders A)
    ⦃laws : IsDatedDecoders decoders⦄ (valid_utf8 : List ℕ → Bool)
    (roots : List (FilePath × EventSource)) (api : QueueApi ℕ (InnerL4Order A)) where
  finish-Returns :
      (n : ℕ) (l : Listener api) (a : Attempt api) (loaded : Loaded api) (parse_ms ms : ℕ)
      → n + 1 < 2 ^ 64
      → IsSound api n (some a) l
      → Returns (finish log10_floor parse api l a loaded parse_ms ms)
  unfolding finish
  finish-Returns n l a none parse_ms ms few s = (_, refl)
  finish-Returns n l a (some (height, expected)) parse_ms ms few s =
      >>=-Returns _ _
        (finish_snapshot-Returns log10_floor sane parse api n (parse_done api l parse_ms) a expected
          height ms few (parse_done-IsSound api n (some a) l parse_ms s))
        (λ r _. (_, refl))

  finish_job-Returns :
      (n : ℕ) (s : Loop api) (loaded : Loaded api) (parse_ms ms : ℕ) (job : Option (Job api))
      → n + 1 < 2 ^ 64
      → IsSound api n (attempt_of api job) s.listener
      → Returns
          (finish_job log10_floor parse decoders valid_utf8 roots api s loaded parse_ms ms job)
  finish_job-Returns n s loaded parse_ms ms (some (running (answered a))) few sound =
      >>=-Returns _ _ (finish-Returns n s.listener a loaded parse_ms ms few sound)
        (λ t _. (_, refl))
  finish_job-Returns n s loaded parse_ms ms none few sound = (_, refl)
  finish_job-Returns n s loaded parse_ms ms (some spawned) few sound = (_, refl)
  finish_job-Returns n s loaded parse_ms ms (some (running (requested a))) few sound = (_, refl)
  finish_job-Returns n s loaded parse_ms ms (some (running (ended r))) few sound = (_, refl)

  turn-Returns :
      (n : ℕ) (event : LoopEvent api) (s : Loop api)
      → n + 1 < 2 ^ 64
      → IsSafe api n s
      → Returns (turn log10_floor parse decoders valid_utf8 roots api event s)
  unfolding turn
  turn-Returns n (notice event) s few safe = (_, refl)
  turn-Returns n (wake env) s few safe =
      on_wake-Returns log10_floor sane parse decoders valid_utf8 api n (attempt_of api s.job) env
        roots s safe
  turn-Returns n (maintenance env) s few safe = (_, refl)
  turn-Returns n tick s few safe = (_, refl)
  turn-Returns n (job_starts now clone_ms now_ms) s few safe = (_, refl)
  turn-Returns n (node_answers written ms at) s few safe = (_, refl)
  turn-Returns n (job_finishes loaded parse_ms ms) s few safe =
      finish_job-Returns n s loaded parse_ms ms s.job few safe
  turn-Returns n (joined now) s few safe = (_, refl)
  turn-Returns n (job_panics now) s few safe = (_, refl)

  turns-Returns :
      (n : ℕ) (events : List (LoopEvent api)) (s : Loop api)
      → n + 6 * length events < 2 ^ 64
      → IsSafe api n s
      → Returns (turns log10_floor parse decoders valid_utf8 roots api events s)
  unfolding turns
  turns-Returns n [] s few safe = (_, refl)
  turns-Returns n (event ∷ events) s few safe =
      >>=-Returns _ _ (turn-Returns n event s (omega arith) safe) (λ t ran.
        turns-Returns (n + 6) events t (omega arith) (
          turn-IsSafe log10_floor parse decoders valid_utf8 roots api n event s t (omega arith) safe
            ran))

  -- From its start on the loop of the listener, in a release build, runs without a panic through any
  -- sequence of events, whatever the files, the node and the clocks answer, and the stream of messages
  -- that it has sent has no hole and no block twice. After a gap, which makes the consumers start
  -- again, and at the start, the first block may be any; then each update is of both halves of the
  -- block after the last one, and each view is of the last block; so is the book, where there is one.
  -- This is for fewer than 2^64 / 6 events, after which the epoch of a recovery might come round, for a
  -- floor of the logarithm of at most 19, for statuses and blocks of them with times since 1970, and
  -- for a budget of less than 2^63 bytes.
  pub turns-Returns-Streams :
      (events : List (LoopEvent api)) (ignore_spot : Bool) (scope : CoinScope)
      (limits : ResourceLimits) (now : ℕ)
      → limits.turn_bytes < 2 ^ 63
      → 6 * length events < 2 ^ 64
      → (s : Loop api) × (turns log10_floor parse decoders valid_utf8 roots api events
            (attach api (new_listener api true ignore_spot scope) limits now)
          ≡ some s)
        × Streams log10_floor parse decoders valid_utf8 roots api s.listener
  unfolding attach new_listener new_queue
  turns-Returns-Streams events ignore_spot scope limits now small few =
      let start = attach api (new_listener api true ignore_spot scope) limits now in
      let (s, ran) = turns-Returns 0 events start (omega arith) (record {
        sends = (refl, small);
        contiguous = tt;
        stands = refl;
        bounded = omega arith;
        dated = empty-IsDatedQueue;
        phase = tt;
      }) in
      (
        s,
        ran,
        turns-Streams log10_floor parse decoders valid_utf8 roots api events ignore_spot scope
            limits now s small few ran,
      )
