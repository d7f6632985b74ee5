-- ===== src/Examples/Listeners.antt =====
-- A listener with a batch of each kind, and a validation.
use order_book_server.Base.{ℕ, ◌≡◌, refl, arith, true, false, none, some, List, [], ◌∷◌, nat_eq}
use order_book_server.Base.Result.{ok}
use order_book_server.OrderBook.{Snapshot}
use order_book_server.Orders.{l4_order, NodeDataOrderDiff, NodeDataOrderStatus}
use order_book_server.Ingestion.Limits.{default}
use order_book_server.Ingestion.Batches.{Batch, new_queue}
use order_book_server.Market.Consistency.{equal, validate_snapshot_consistency}
use order_book_server.Market.Consistency.Agreement.{
  orders_at, validate_snapshot_consistency-orders_at,
}
use order_book_server.Listener.{Listener, pop_cache}
use order_book_server.Listener.Stats.{empty_stats}
use order_book_server.Subscription.{default_scope}
use order_book_server.Listener.Pairs.First.{IsFirstPair, pop_cache-IsFirstPair}
use order_book_server.Examples.Views.{plain, start_state, no_statuses, removals}
use order_book_server.Examples.Books.{coin_text}
use order_book_server.OrderBook.Types.{Text}

abbrev pub old_diffs : Batch (NodeDataOrderDiff ℕ)
old_diffs = record removals { block_number = 41 }

pop_cache-IsFirstPair_example :
    IsFirstPair ((no_statuses, 0) ∷ []) ((old_diffs, 0) ∷ (removals, 1) ∷ []) (
      pop_cache {S = NodeDataOrderStatus ℕ} {D = NodeDataOrderDiff ℕ} 4
        (record { deque = (no_statuses, 0) ∷ []; last_ts = some 42; bytes = 10 })
        (record { deque = (old_diffs, 0) ∷ (removals, 1) ∷ []; last_ts = some 42; bytes = 20 }))
pop_cache-IsFirstPair_example =
    pop_cache-IsFirstPair 4 ((no_statuses, 0) ∷ []) ((old_diffs, 0) ∷ (removals, 1) ∷ []) (some 42)
      (some 42) 10 20 (omega arith) (tt, tt) ((omega arith, tt), (tt, tt))

abbrev pub ready : Listener plain
ready = record {
  stats = empty_stats;
  ignore_spot = false;
  scope = default_scope;
  limits = default;
  order_status_cache = new_queue;
  order_diff_cache = record { deque = (removals, 1) ∷ []; last_ts = some 42; bytes = 10 };
  last_fill = none;
  order_book_state = some start_state;
  fetched_snapshot_cache = none;
  snapshot_cache_started = none;
  snapshot_cache_bytes = 0;
  recovery_epoch = 0;
  has_tx = true;
  sent = [];
}

abbrev pub snapshot_of_numbers : List (Text × Snapshot ℕ)
snapshot_of_numbers = (coin_text, record { bids = 1 ∷ 2 ∷ []; asks = 3 ∷ [] }) ∷ []

numbers_valid :
    validate_snapshot_consistency snapshot_of_numbers snapshot_of_numbers true ≡ ok equal
unfolding validate_snapshot_consistency
numbers_valid = refl

validate_snapshot_consistency-orders_at_example :
    orders_at coin_text snapshot_of_numbers ≡ orders_at coin_text snapshot_of_numbers
validate_snapshot_consistency-orders_at_example =
    validate_snapshot_consistency-orders_at snapshot_of_numbers snapshot_of_numbers true equal
      coin_text refl numbers_valid
