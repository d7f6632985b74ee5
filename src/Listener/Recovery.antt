-- ===== src/Listener/Recovery.antt =====
-- The recovery of `OrderBookListener` in server/src/listeners/order_book/mod.rs: the fence, the start
-- from a snapshot, and the comparison of the live state with one. The outer `none` is a panic.
use order_book_server.Base.{
  ℕ, zero, suc, ◌+◌, ◌%◌, ◌^◌, Bool, true, false, Option, none, some, List, [], ◌∷◌, ltb,
  if◌then◌else◌, is_some, ◌>>=◌, Map, nat_eq,
}
use order_book_server.Base.Result.{Result, ok, err}
use order_book_server.Queue.{QueueApi}
use order_book_server.OrderBook.Types.{Text}
use order_book_server.OrderBook.{Snapshot}
use order_book_server.Orders.{InnerL4Order, l4_order}
use order_book_server.Ingestion.Batches.{new_queue}
use order_book_server.Market.{Views, keys, to_snapshots}
use order_book_server.Market.State
use order_book_server.Market.State.{OrderBookState, ApplyError, apply_updates, state_from_snapshot}
use order_book_server.Subscription.{CoinScope}
use order_book_server.Ingestion.Limits.{default}
use order_book_server.Listener.Stats.{empty_stats}
use order_book_server.Listener.{Listener, Pair, gap, snapshot, send, next_pair, enough}

abbrev pub increased : ℕ → ℕ
increased n = (n + 1) % 2 ^ 64

module _ {A : Type 0} (api : QueueApi ℕ (InnerL4Order A)) where
  -- `OrderBookListener::new`, with a channel or without one
  unfoldable pub new_listener : Bool → Bool → CoinScope → Listener api
  new_listener has_tx ignore_spot scope = record {
    stats = empty_stats;
    ignore_spot = ignore_spot;
    scope = scope;
    limits = default;
    order_status_cache = new_queue;
    order_diff_cache = new_queue;
    last_fill = none;
    order_book_state = none;
    fetched_snapshot_cache = none;
    snapshot_cache_started = none;
    snapshot_cache_bytes = 0;
    recovery_epoch = 0;
    has_tx = has_tx;
    sent = [];
  }

  unfoldable pub fence : Listener api → Listener api
  fence l =
      send api
        (record l {
          stats = record (l.stats) { source_gaps = increased l.stats.source_gaps };
          recovery_epoch = increased l.recovery_epoch;
          order_book_state = none;
          order_status_cache = new_queue;
          order_diff_cache = new_queue;
          fetched_snapshot_cache = none;
          snapshot_cache_started = none;
          snapshot_cache_bytes = 0;
        })
        gap

  abbrev pub is_ready : Listener api → Bool
  is_ready l = is_some l.order_book_state

  abbrev pub universe : Listener api → List Text
  universe l = elim l.order_book_state [ none ↦ [] | some book ↦ keys book.order_book ]

  -- `TimedSnapshots`: a time, a height and the orders of each book
  abbrev pub TimedSnapshots : Type 0
  TimedSnapshots = ℕ × ℕ × List (Text × Snapshot (InnerL4Order A))

  unfoldable pub compute_snapshot : OrderBookState api → TimedSnapshots
  compute_snapshot s = (s.time, s.height, to_snapshots api s.order_book)

  -- An L2 view, where there is one, and the listener afterwards.
  abbrev pub Viewed : Type 0
  Viewed = Option (ℕ × ℕ × Map Text (Views api)) × Listener api

  unfoldable pub l2_snapshots : (ℕ → ℕ) → Listener api → Bool → Option Viewed
  l2_snapshots log10_floor l prevent_future_snaps = elim l.order_book_state [
    | none ↦ some (none, l)
    | some book ↦ State.l2_snapshots log10_floor api book prevent_future_snaps >>= λ r.
        some (r.0, record l { order_book_state = some r.1 })
  ]

  unfoldable pub compute_l2_snapshot : (ℕ → ℕ) → Listener api → Option Viewed
  compute_l2_snapshot log10_floor l = elim l.order_book_state [
    | none ↦ some (none, l)
    | some book ↦ State.compute_l2_snapshot log10_floor api book >>= λ r.
        some (some r.0, record l { order_book_state = some r.1 })
  ]

  -- `tx.send` of a view that was taken
  abbrev pub publish : Viewed → Listener api
  publish (none, l) = l
  publish (some (time, height, views), l) = send api l (snapshot views time height)

  -- the flag `retry` of `init_from_snapshot`
  abbrev pub Replayed : Type 0
  Replayed = Listener api × OrderBookState api × Bool

  abbrev pub after_replay :
      Listener api
      → OrderBookState api × Result ApplyError (Unit {0})
      → (OrderBookState api → Option Replayed)
      → Option Replayed
  after_replay l (book, err e) next = some (l, book, true)
  after_replay l (book, ok _) next = next book

  abbrev pub replay_pair :
      (Text → Option ℕ)
      → Listener api × Option (Pair api)
      → OrderBookState api
      → (Listener api → OrderBookState api → Option Replayed)
      → Option Replayed
  replay_pair parse (l, none) book next = some (l, book, false)
  replay_pair parse (l, some (statuses, diffs)) book next =
      apply_updates parse api book statuses diffs >>= λ r. after_replay l r (next l)

  -- the `while let` of `init_from_snapshot`, with fuel
  unfoldable pub replay :
      (Text → Option ℕ) → ℕ → Listener api → OrderBookState api → Option Replayed
  replay parse zero l book = none
  replay parse (suc fuel) l book =
      replay_pair parse (next_pair api l) book (λ l' book'. replay parse fuel l' book')

  abbrev pub after_init : Replayed → Listener api
  after_init (l, book, retry) = if retry then l else record l { order_book_state = some book }

  unfoldable pub init_from_snapshot :
      (Text → Option ℕ)
      → Listener api
      → List (Text × Snapshot (InnerL4Order A))
      → ℕ
      → Option (Listener api)
  unfolding replay
  init_from_snapshot parse l expected height =
      replay parse (enough l.order_status_cache l.order_diff_cache) l
        (state_from_snapshot api expected height 0 true l.ignore_spot)
      >>= λ r. some (after_init r)

  -- How the first loop of `reconcile_snapshot` ends.
  pub data CaughtUp : Type 0 where
    reached : OrderBookState api → List (Pair api) → CaughtUp
    snapshot_ahead : CaughtUp
    failed : ApplyError → CaughtUp

  abbrev pub after_catch_up :
      OrderBookState api × Result ApplyError (Unit {0})
      → (OrderBookState api → Option CaughtUp)
      → Option CaughtUp
  after_catch_up (s, err e) next = some (failed e)
  after_catch_up (s, ok _) next = next s

  unfoldable pub catch_up :
      (Text → Option ℕ) → OrderBookState api → ℕ → List (Pair api) → Option CaughtUp
  catch_up parse s height [] = some (if ltb s.height height then snapshot_ahead else reached s [])
  catch_up parse s height ((statuses, diffs) ∷ cache) =
      let rest = apply_updates parse api s statuses diffs >>= λ r.
      after_catch_up r (λ s'. catch_up parse s' height cache) in
      if ltb s.height height then rest else some (reached s ((statuses, diffs) ∷ cache))

  abbrev pub after_catch :
      OrderBookState api × Result ApplyError (Unit {0})
      → (OrderBookState api → Option (OrderBookState api × Result ApplyError (Unit {0})))
      → Option (OrderBookState api × Result ApplyError (Unit {0}))
  after_catch (s, err e) next = some (s, err e)
  after_catch (s, ok _) next = next s

  -- the last loop of `reconcile_snapshot`
  unfoldable pub apply_all :
      (Text → Option ℕ)
      → OrderBookState api
      → List (Pair api)
      → Option (OrderBookState api × Result ApplyError (Unit {0}))
  apply_all parse s [] = some (s, ok tt)
  apply_all parse s ((statuses, diffs) ∷ cache) = apply_updates parse api s statuses diffs >>= λ r.
      after_catch r (λ s'. apply_all parse s' cache)
