-- ===== src/Examples/Recoveries.antt =====
-- A listener to which a snapshot comes back: as it waits for one, and as a block fails on the way.
use order_book_server.Base.{ℕ, ◌≡◌, ◌≢◌, refl, none, some, List, [], ◌∷◌, nat_eq}
use order_book_server.Base.Result.{ok, err}
use order_book_server.OrderBook.Types.{Text}
use order_book_server.OrderBook.{Snapshot, from_snapshot, cancel_order}
use order_book_server.Orders.{InnerL4Order, l4_order}
use order_book_server.Market.{from_snapshots, cancel}
use order_book_server.Market.State.{no_order, state_from_snapshot, apply_updates}
use order_book_server.Listener.{Listener, Received, not_applied, take_cache}
use order_book_server.Listener.Recovery.{catch_up}
use order_book_server.Listener.Reconcile.{reconcile_snapshot, finish_snapshot}
use order_book_server.Listener.Reconcile.Errors.{UntouchedOnError, finish_snapshot-Untouched}
use order_book_server.Listener.Reconcile.Recovers.Queues.{Recovers}
use order_book_server.Examples.Books.{coin_text, three_orders}
use order_book_server.Examples.Views.{
  plain, start_state, one_byte, two_floor, no_statuses, removals,
}
use order_book_server.Examples.Listeners.{ready}
use order_book_server.Examples.Loops.{order_eq}

abbrev of_node : List (Text × Snapshot (InnerL4Order ℕ))
of_node = (coin_text, three_orders) ∷ []

abbrev waiting : Listener plain
waiting = record ready {
  order_book_state = none;
  order_status_cache = record { deque = (no_statuses, 1) ∷ []; last_ts = some 42; bytes = 10 };
}

abbrev behind : Listener plain
behind = record ready { fetched_snapshot_cache = some ((no_statuses, removals) ∷ []) }

abbrev refused_at : Received plain
refused_at = (
  record behind {
    fetched_snapshot_cache = none;
    stats = record (behind.stats) { snapshot_reconcile_ms = 5 };
  },
  err (not_applied no_order),
)

refused_ran :
    finish_snapshot two_floor one_byte plain behind 0 (some start_state) of_node 42 5
    ≡ some refused_at
unfolding finish_snapshot take_cache reconcile_snapshot catch_up apply_updates state_from_snapshot
    from_snapshots from_snapshot cancel cancel_order
refused_ran = refl

finish_snapshot-Untouched_example :
    (behind.recovery_epoch ≢ 0 → refused_at ≡ (behind, ok tt))
    × UntouchedOnError plain behind refused_at
finish_snapshot-Untouched_example =
    finish_snapshot-Untouched two_floor one_byte plain behind 0 (some start_state) of_node 42 5
      refused_at refused_ran
