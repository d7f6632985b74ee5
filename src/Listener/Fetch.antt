-- ===== src/Listener/Fetch.antt =====
-- `fetch_snapshot` of server/src/listeners/order_book/mod.rs, a task beside the loop of the listener:
-- it gives the lock of the listener back while it waits for the node, and where it reads the
-- snapshot and sleeps. Each function is what it does between two of these points. The times that it
-- measures are arguments.
use order_book_server.Base.{
  ℕ, Bool, Option, none, some, List, ◌==◌, if◌then◌else◌, ◌>>=◌, not, Eq, nat_eq,
}
use order_book_server.Base.Result.{Result, ok}
use order_book_server.Queue.{QueueApi}
use order_book_server.OrderBook.Types.{Text}
use order_book_server.OrderBook.{Snapshot}
use order_book_server.Orders.{InnerL4Order, l4_order}
use order_book_server.Market.State.{OrderBookState}
use order_book_server.Listener.{Listener, ListenerError, Received, begin_caching, take_cache}
use order_book_server.Listener.Recovery.{increased}
use order_book_server.Listener.Reconcile.{finish_snapshot}

module _ {A : Type 0} (api : QueueApi ℕ (InnerL4Order A)) where
  -- What the task keeps from its first part.
  pub record Attempt : Type 0 where
    pub epoch : ℕ
    pub state : Option (OrderBookState api)
    pub request_started_at_ms : ℕ

  -- Where the task is: it waits for the node, it reads and sleeps, or it has returned.
  pub data Task : Type 0 where
    requested answered : Attempt → Task
    ended : Result ListenerError (Unit {0}) → Task

  unfoldable pub start : Listener api → ℕ → ℕ → ℕ → Listener api × Task
  unfolding begin_caching
  start l now clone_ms now_ms = (
    record (begin_caching api l now) {
      stats = record (l.stats) {
        snapshot_clone_ms = clone_ms;
        snapshot_requests = increased l.stats.snapshot_requests;
        snapshot_request_inflight_started_at_ms = now_ms;
      };
    },
    requested (record {
      epoch = l.recovery_epoch;
      state = l.order_book_state;
      request_started_at_ms = now_ms;
    }),
  )

  abbrev pub request_done : Listener api → Attempt → ℕ → ℕ → Listener api
  request_done l a request_ms completed_at_ms = record l {
    stats = record (l.stats) {
      snapshot_request_started_at_ms = a.request_started_at_ms;
      snapshot_request_ms = request_ms;
      snapshot_request_completed_at_ms = completed_at_ms;
      snapshot_request_inflight_started_at_ms = 0;
    };
  }

  -- The attempt failed without harm to the live state.
  unfoldable pub give_up : Listener api → Listener api
  unfolding take_cache
  give_up l = record ((take_cache api l).0) {
    stats = record (l.stats) { snapshot_failures = increased l.stats.snapshot_failures };
  }

  -- from the answer of the node, which wrote the file or failed, to the reading of the file
  unfoldable pub answer : Listener api → Attempt → Bool → ℕ → ℕ → Listener api × Task
  unfolding give_up
  answer l a written request_ms completed_at_ms =
      let l' = request_done l a request_ms completed_at_ms in
      if written
      then if not (l'.recovery_epoch == a.epoch) then (l', ended (ok tt)) else (l', answered a)
      else (give_up l', ended (ok tt))

  abbrev pub parse_done : Listener api → ℕ → Listener api
  parse_done l parse_ms = record l { stats = record (l.stats) { snapshot_parse_ms = parse_ms } }

  -- A height and the snapshot of the node, or nothing where the file could not be read.
  abbrev pub Loaded : Type 0
  Loaded = Option (ℕ × List (Text × Snapshot (InnerL4Order A)))

  abbrev pub with_result : Received api → Listener api × Task
  with_result (l, r) = (l, ended r)

module _ {A : Type 0} ⦃e : Eq (InnerL4Order A)⦄ (log10_floor : ℕ → ℕ) (parse : Text → Option ℕ)
    (api : QueueApi ℕ (InnerL4Order A)) where
  -- from the reading of the file to the end
  unfoldable pub finish :
      Listener api → Attempt api → Loaded api → ℕ → ℕ → Option (Listener api × Task api)
  unfolding give_up finish_snapshot
  finish l a none parse_ms reconcile_ms =
      some (give_up api (parse_done api l parse_ms), ended (ok tt))
  finish l a (some (height, expected)) parse_ms reconcile_ms =
      finish_snapshot log10_floor parse api (parse_done api l parse_ms) a.epoch a.state expected
        height reconcile_ms
      >>= λ r. some (with_result api r)
