-- ===== src/Listener/Loop/Turns.antt =====
-- The other branches of the loop of `hl_listen_with_source` in
-- server/src/listeners/order_book/mod.rs, and a turn of the loop for each event.
use order_book_server.Base.{
  ℕ, ◌+◌, ◌-◌, Bool, true, false, not, ◌&&◌, ◌||◌, Option, none, some, List, [], ◌∷◌, ltb, leb,
  if◌then◌else◌, is_nil, Eq, nat_eq, ◌>>=◌,
}
use order_book_server.Base.Result.{Result, ok, err}
use order_book_server.Queue.{QueueApi}
use order_book_server.OrderBook.Types.{Text}
use order_book_server.Orders.{InnerL4Order, l4_order}
use order_book_server.Ingestion.Batches.{expired}
use order_book_server.Ingestion.DirtyFiles.{DirtyFiles, push, mark_overflow}
use order_book_server.Ingestion.Scoped.{EventSource}
use order_book_server.Ingestion.Retired.{FilePath, path_eq}
use order_book_server.Listener.{Listener, take_cache}
use order_book_server.Listener.Recovery.{fence, is_ready, increased}
use order_book_server.Listener.Lines.{Decoders}
use order_book_server.Listener.Fetch.{
  Task, requested, answered, ended, Loaded, start, answer, finish,
}
use order_book_server.Listener.Loop.{
  Surroundings, Job, spawned, running, Loop, push_needing, pending_bytes, retain, fence_if, on_wake,
}

-- The kinds of event of the watcher that count, and those that do not.
pub data Notice : Type 0 where
  created_paths modified_paths : List FilePath → Notice
  other_event watch_error : Notice

abbrev pub push_all : Bool → List FilePath → DirtyFiles FilePath → DirtyFiles FilePath
push_all created [] dirty = dirty
push_all created (path ∷ paths) dirty = push_all created paths (push dirty path created)

module _ {A : Type 0} (api : QueueApi ℕ (InnerL4Order A)) where
  -- the callback of the watcher
  unfoldable pub on_notice : Notice → Loop api → Loop api
  on_notice (created_paths paths) s = record s { dirty = push_all true paths s.dirty; woken = true }
  on_notice (modified_paths paths) s = record s {
    dirty = push_all false paths s.dirty;
    woken = true;
  }
  on_notice other_event s = s
  on_notice watch_error s = record s { dirty = mark_overflow s.dirty; woken = true }

  abbrev pub cache_expired : Listener api → ℕ → Option ℕ → Bool
  cache_expired l now none = false
  cache_expired l now (some at) = ltb l.limits.queue_age (now - at)

  -- a validation cache that has become too old
  unfoldable pub expire_cache : Listener api → ℕ → Listener api
  unfolding take_cache
  expire_cache l now =
      if cache_expired l now l.snapshot_cache_started
      then (take_cache api (record l { recovery_epoch = increased l.recovery_epoch })).0
      else l

  abbrev pub queues_expired : Listener api → ℕ → Bool
  queues_expired l now =
      expired l.order_status_cache l.limits now || expired l.order_diff_cache l.limits now

  abbrev pub measured : Listener api → ℕ → ℕ → Listener api
  measured l pending dirty = record l {
    stats = record (l.stats) { pending_file_bytes = pending; dirty_files = dirty };
  }

  abbrev pub count : List FilePath → ℕ
  count [] = 0
  count (path ∷ paths) = count paths + 1

  abbrev pub spawn_if : Bool → Option (Job api) → Option (Job api)
  spawn_if b none = if b then some spawned else none
  spawn_if b (some job) = some job

  -- the branch of `maintenance.tick()`
  unfoldable pub on_maintenance : Surroundings → Loop api → Loop api
  unfolding expire_cache
  on_maintenance env s =
      let now = env.files.now in
      let cursors = retain env s.cursors in
      let dirty = push_needing env.files cursors s.dirty in
      let l =
        expire_cache (measured s.listener (pending_bytes env.files cursors) (count dirty.paths))
          now in
      let l' = fence_if api (queues_expired l now) l in
      record s {
        listener = l';
        dirty = dirty;
        woken = not (is_nil dirty.paths) || s.woken;
        cursors = cursors;
        job = spawn_if (not (is_ready api l') && leb s.recovery_retry_at now) s.job;
      }

  -- the branch of `ticker.tick()`, where no job is under way
  unfoldable pub on_tick : Loop api → Loop api
  on_tick s = record s { job = spawn_if true s.job }

  -- the branch of `snapshots.join_next()`: what a job returned, or that it panicked
  unfoldable pub on_joined : Result Bool (Unit {0}) → ℕ → Loop api → Loop api
  on_joined (ok _) now s = record s { job = none; recovery_retry_at = now + 10 }
  on_joined (err panicked) now s = record s {
    listener = fence api s.listener;
    job = none;
    recovery_retry_at = now + 10;
  }

pub data LoopEvent {A : Type 0} (api : QueueApi ℕ (InnerL4Order A)) : Type 0 where
  notice : Notice → LoopEvent api
  wake maintenance : Surroundings → LoopEvent api
  tick : LoopEvent api
  -- the parts of the job, with the times that they measure
  job_starts : ℕ → ℕ → ℕ → LoopEvent api
  node_answers : Bool → ℕ → ℕ → LoopEvent api
  job_finishes : Loaded api → ℕ → ℕ → LoopEvent api
  joined job_panics : ℕ → LoopEvent api

module _ {A : Type 0} ⦃e : Eq (InnerL4Order A)⦄ (log10_floor : ℕ → ℕ) (parse : Text → Option ℕ)
    (decoders : Decoders A) (valid_utf8 : List ℕ → Bool) (roots : List (FilePath × EventSource))
    (api : QueueApi ℕ (InnerL4Order A)) where
  abbrev pub with_task : Loop api → Listener api × Task api → Loop api
  with_task s (l, task) = record s { listener = l; job = some (running task) }

  abbrev pub start_job : Loop api → ℕ → ℕ → ℕ → Option (Job api) → Loop api
  start_job s now clone_ms now_ms (some spawned) =
      with_task s (start api s.listener now clone_ms now_ms)
  start_job s now clone_ms now_ms none = s
  start_job s now clone_ms now_ms (some (running task)) = s

  abbrev pub answer_job : Loop api → Bool → ℕ → ℕ → Option (Job api) → Loop api
  answer_job s written ms at (some (running (requested a))) =
      with_task s (answer api s.listener a written ms at)
  answer_job s written ms at none = s
  answer_job s written ms at (some spawned) = s
  answer_job s written ms at (some (running (answered a))) = s
  answer_job s written ms at (some (running (ended r))) = s

  abbrev pub finish_job : Loop api → Loaded api → ℕ → ℕ → Option (Job api) → Option (Loop api)
  finish_job s loaded parse_ms ms (some (running (answered a))) =
      finish log10_floor parse api s.listener a loaded parse_ms ms >>= λ t. some (with_task s t)
  finish_job s loaded parse_ms ms none = some s
  finish_job s loaded parse_ms ms (some spawned) = some s
  finish_job s loaded parse_ms ms (some (running (requested a))) = some s
  finish_job s loaded parse_ms ms (some (running (ended r))) = some s

  abbrev pub join_job : Loop api → ℕ → Option (Job api) → Loop api
  join_job s now (some (running (ended (ok _)))) = on_joined api (ok tt) now s
  join_job s now (some (running (ended (err x)))) = on_joined api (err false) now s
  join_job s now none = s
  join_job s now (some spawned) = s
  join_job s now (some (running (requested a))) = s
  join_job s now (some (running (answered a))) = s

  abbrev pub panic_job : Loop api → ℕ → Option (Job api) → Loop api
  panic_job s now none = s
  panic_job s now (some job) = on_joined api (err true) now s

  -- A turn of the loop, or a part of the job; where an event cannot come, nothing happens. `none` is a
  -- panic of the loop.
  unfoldable pub turn : LoopEvent api → Loop api → Option (Loop api)
  unfolding on_wake on_maintenance on_tick on_notice
  turn (notice n) s = some (on_notice api n s)
  turn (wake env) s = on_wake log10_floor parse decoders valid_utf8 api env roots s
  turn (maintenance env) s = some (on_maintenance api env s)
  turn tick s = some (on_tick api s)
  turn (job_starts now clone_ms now_ms) s = some (start_job s now clone_ms now_ms s.job)
  turn (node_answers written ms at) s = some (answer_job s written ms at s.job)
  turn (job_finishes loaded parse_ms ms) s = finish_job s loaded parse_ms ms s.job
  turn (joined now) s = some (join_job s now s.job)
  turn (job_panics now) s = some (panic_job s now s.job)

  -- Any sequence of events.
  unfoldable pub turns : List (LoopEvent api) → Loop api → Option (Loop api)
  unfolding turn
  turns [] s = some s
  turns (event ∷ events) s = turn event s >>= λ s'. turns events s'
