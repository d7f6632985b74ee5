-- ===== src/Examples/Views.antt =====
-- Aggregated levels, and a state that applies a block.
use order_book_server.Base.{
  pos, ℕ, ◌≤◌, ◌≡◌, refl, arith, true, false, Option, none, some, List, [], ◌∷◌, nat_eq, length,
  All, Map, lookup,
}
use order_book_server.Base.Result.{Result, ok, err}
use order_book_server.Queue.{QueueApi}
use order_book_server.OrderBook.Types.{ask, Text, text_eq}
use order_book_server.OrderBook.Aggregation.{
  InnerLevel, OnResult, bucket, increment, to_l2_snapshot, resample, l2_levels_to_l2_levels,
}
use order_book_server.OrderBook.Aggregation.Bounds.{l2_levels_to_l2_levels-bound}
use order_book_server.OrderBook.Aggregation.Order.{
  Holds, NoWrap, Sorted, prices, bucket-Holds, l2_levels_to_l2_levels-Sorted,
}
use order_book_server.OrderBook.Aggregation.Totals.{sizes, orders, l2_levels_to_l2_levels-Total}
use order_book_server.Ingestion.Batches.{Batch}
use order_book_server.Orders.{
  InnerL4Order, l4_order, removal, NodeDataOrderDiff, NodeDataOrderStatus,
}
use order_book_server.Market.{cancel, Views, views, from_snapshots}
use order_book_server.Market.State.{
  OrderBookState, ApplyError, no_order, order_map, state_from_snapshot, apply_updates,
  compute_l2_snapshot,
}
use order_book_server.Market.Blocks.{Applied, apply_updates-Applied}
use order_book_server.Market.Frame.Books.{Coherent}
use order_book_server.Market.Cache.{
  CacheIsExact, state_from_snapshot-CacheIsExact, apply_updates-CacheIsExact,
  compute_l2_snapshot-CacheIsExact,
}
use order_book_server.Market.Cache.Coins.{view_of}
use order_book_server.Examples.Books.{coin_text, three_orders}
use order_book_server.Queue.Plain.{plain_queue}
use order_book_server.OrderBook.{from_snapshot, cancel_order}

-- Three digits, as for the prices here.
abbrev pub two_floor : ℕ → ℕ
two_floor px = 2

abbrev pub some_levels : List InnerLevel
some_levels =
    record { px = 101; sz = 3; n = 1 }
    ∷ record { px = 107; sz = 4; n = 2 }
    ∷ record { px = 112; sz = 5; n = 1 }
    ∷ []

l2_levels_to_l2_levels-bound_example :
    OnResult
      (λ out. length out ≤ 1)
      (l2_levels_to_l2_levels two_floor some_levels ask (some 1) (some 2) none)
l2_levels_to_l2_levels-bound_example =
    l2_levels_to_l2_levels-bound two_floor some_levels ask 1 (some 2) none

bucket-Holds_example :
    OnResult
      (Holds ask (increment two_floor 101 2 none) 101)
      (bucket two_floor 101 ask (some 2) none)
bucket-Holds_example = bucket-Holds two_floor 101 ask 2 none (omega arith)

abbrev pub levels_fit : All (NoWrap two_floor (some 2) none) some_levels
levels_fit = (omega arith, (omega arith, (omega arith, tt)))

l2_levels_to_l2_levels-Sorted_example :
    OnResult
      (λ out. Sorted ask (prices out))
      (l2_levels_to_l2_levels two_floor some_levels ask none (some 2) none)
l2_levels_to_l2_levels-Sorted_example =
    l2_levels_to_l2_levels-Sorted two_floor some_levels ask none (some 2) none levels_fit

l2_levels_to_l2_levels-Total_example :
    OnResult
      (λ out. (sizes out ≡ sizes some_levels) × (orders out ≡ orders some_levels))
      (l2_levels_to_l2_levels two_floor some_levels ask none (some 2) none)
l2_levels_to_l2_levels-Total_example =
    l2_levels_to_l2_levels-Total two_floor (some 2) none ask some_levels (omega arith) (omega arith)

-- Texts of one byte are numbers.
abbrev pub one_byte : Text → Option ℕ
one_byte [] = none
one_byte (b ∷ bs) = some b

abbrev pub plain : QueueApi ℕ (InnerL4Order ℕ)
plain = plain_queue

abbrev pub start_state : OrderBookState plain
start_state = state_from_snapshot plain ((coin_text, three_orders) ∷ []) 41 1000 true false

abbrev pub no_statuses : Batch (NodeDataOrderStatus ℕ)
no_statuses = record {
  local_time = pos 0;
  block_time = pos 2000;
  block_number = 42;
  events = [];
  wire_bytes = 10;
}

abbrev pub removals : Batch (NodeDataOrderDiff ℕ)
removals = record {
  local_time = pos 0;
  block_time = pos 2000;
  block_number = 42;
  events =
      record { user = 0; oid = 2; px = []; coin = coin_text; raw_book_diff = removal }
      ∷ record { user = 0; oid = 9; px = []; coin = coin_text; raw_book_diff = removal }
      ∷ [];
  wire_bytes = 10;
}

abbrev pub get_or : {B : Type 0} → B → Option B → B
get_or b none = b
get_or b (some c) = c

-- The second removal fails, after the first.
abbrev pub applied : OrderBookState plain × Result ApplyError (Unit {0})
applied =
    get_or (start_state, ok tt) (apply_updates one_byte plain start_state no_statuses removals)

applied_ran :
    apply_updates one_byte plain start_state no_statuses removals ≡ some (applied.0, applied.1)
unfolding apply_updates state_from_snapshot cancel from_snapshots cancel_order from_snapshot
applied_ran = refl

applied_failed : applied.1 ≡ err no_order
unfolding apply_updates state_from_snapshot from_snapshots from_snapshot cancel cancel_order
applied_failed = refl

apply_updates-Applied_example : Applied one_byte plain start_state no_statuses applied.0 applied.1
apply_updates-Applied_example =
    apply_updates-Applied one_byte plain start_state applied.0 no_statuses removals applied.1
      applied_ran

all-Coherent : All (Coherent (order_map (λ _. none) no_statuses.events)) removals.events
all-Coherent = (λ status found. ground arith, (λ status found. ground arith, tt))

apply_updates-CacheIsExact_example : CacheIsExact two_floor plain applied.0
apply_updates-CacheIsExact_example =
    apply_updates-CacheIsExact one_byte two_floor plain start_state applied.0 no_statuses removals
      applied.1 all-Coherent
      (state_from_snapshot-CacheIsExact two_floor plain ((coin_text, three_orders) ∷ []) 41 1000
        true false)
      applied_ran

abbrev pub shown : (ℕ × ℕ × Map Text (Views plain)) × OrderBookState plain
shown = get_or ((0, 0, λ _. none), start_state) (compute_l2_snapshot two_floor plain start_state)

shown_ran : compute_l2_snapshot two_floor plain start_state ≡ some (shown.0, shown.1)
unfolding compute_l2_snapshot views state_from_snapshot from_snapshots from_snapshot to_l2_snapshot
    resample
shown_ran = refl

compute_l2_snapshot-CacheIsExact_example :
    ((c : Text) → shown.0.2 c ≡ view_of two_floor plain (lookup c shown.1.order_book))
    × (shown.0.0 ≡ start_state.time)
    × (shown.0.1 ≡ start_state.height)
    × CacheIsExact two_floor plain shown.1
    × (shown.1.order_book ≡ start_state.order_book)
compute_l2_snapshot-CacheIsExact_example =
    compute_l2_snapshot-CacheIsExact two_floor plain start_state shown.1 shown.0
      (state_from_snapshot-CacheIsExact two_floor plain ((coin_text, three_orders) ∷ []) 41 1000
        true false)
      shown_ran
