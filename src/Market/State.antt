-- ===== src/Market/State.antt =====
-- `OrderBookState` of server/src/listeners/order_book/state.rs. `parse` stands for the `f64` parsing of
-- prices and sizes, and `none` of an `Option` of a state for a panic.
use order_book_server.Base.{
  ℕ, ◌+◌, ◌%◌, ◌^◌, millis, Bool, true, false, Option, none, some, List, [], ◌∷◌, ◌&&◌, ◌||◌, not,
  ltb, leb, ◌==◌, if◌then◌else◌, nat_eq, Map, map_insert, map_remove, ◌>>=◌,
}
use order_book_server.Base.Result.{Result, ok, err}
use order_book_server.Queue.{QueueApi}
use order_book_server.OrderBook.Types.{Text, text_eq}
use order_book_server.OrderBook.{Snapshot}
use order_book_server.Orders.{
  InnerL4Order, l4_order, NodeDataOrderDiff, NodeDataOrderStatus, InnerOrderDiff, inner_new,
  inner_update, inner_remove, inner_diff, ParseError, parsed, try_from, is_inserted_into_book,
  convert_trigger,
}
use order_book_server.Orders
use order_book_server.Ingestion.Batches.{Batch}
use order_book_server.Market.{
  keys, insert_coin, is_spot, OrderBooks, from_snapshots, add_order, cancel, modify, Views,
  refresh_l2_snapshots,
}

pub data ApplyError : Type 0 where
  gap : ApplyError
  bad_value : ParseError → ApplyError
  no_anchor no_status no_order : ApplyError
  -- the unwinding of a panic on a time before 1970, which `apply_updates` makes a panic
  time_panic : ApplyError

module _ {A : Type 0} (api : QueueApi ℕ (InnerL4Order A)) where
  pub record OrderBookState : Type 0 where
    pub order_book : OrderBooks api
    pub height : ℕ
    pub time : ℕ
    pub snapped : Bool
    pub ignore_spot : Bool
    pub l2_cache : Map Text (Views api)
    pub dirty_coins : List Text

abbrev pub OrderMap : Type 0 → Type 0
OrderMap A = Map ℕ (NodeDataOrderStatus A)

-- `order_map`: of two statuses with an oid the later stays
abbrev pub order_map : {A : Type 0} → OrderMap A → List (NodeDataOrderStatus A) → OrderMap A
order_map m [] = m
order_map m (s ∷ statuses) =
    order_map (if is_inserted_into_book s then map_insert m s.order.oid s else m) statuses

-- the order with the resting price and size, and the time of its status
abbrev pub opened : {A : Type 0} → InnerL4Order A → ℕ → ℕ → ℕ → InnerL4Order A
opened a px sz time = convert_trigger (Orders.modify_sz (record a { limit_px = px }) sz) time

module _ {A : Type 0} (api : QueueApi ℕ (InnerL4Order A)) where
  unfoldable pub state_from_snapshot :
      List (Text × Snapshot (InnerL4Order A)) → ℕ → ℕ → Bool → Bool → OrderBookState api
  state_from_snapshot snapshot height time ignore_triggers ignore_spot =
      let books = from_snapshots api snapshot ignore_triggers in
      record {
        order_book = books;
        height = height;
        time = time;
        snapped = false;
        ignore_spot = ignore_spot;
        l2_cache = λ _. none;
        dirty_coins = keys books;
      }

  abbrev pub cached :
      OrderBookState api
      → Option (Map Text (Views api))
      → Option ((ℕ × ℕ × Map Text (Views api)) × OrderBookState api)
  cached s none = none
  cached s (some cache) =
      some ((s.time, s.height, cache), record s { l2_cache = cache; dirty_coins = [] })

  -- a turn of the `while let`: the state, what is left of `order_map`, and the result
  abbrev pub Turn : Type 0
  Turn = OrderBookState api × OrderMap A × Result ApplyError (Unit {0})

  -- the books after a change that is refused with `e`
  abbrev pub changed : OrderBookState api → OrderMap A → ApplyError → OrderBooks api × Bool → Turn
  changed s m e (books, true) = (record s { order_book = books }, m, ok tt)
  changed s m e (books, false) = (record s { order_book = books }, m, err e)

  abbrev pub refused : OrderBookState api → OrderMap A → ApplyError → Turn
  refused s m e = (s, m, err e)

  -- the order with its price, by the time of its status
  abbrev pub add_dated :
      OrderBookState api → OrderMap A → ℕ → Option ℕ → InnerL4Order A → ℕ → Option ℕ → Turn
  add_dated s m sz insert_before a px none = refused s m time_panic
  add_dated s m sz insert_before a px (some time) =
      changed s m no_anchor (add_order api s.order_book (opened a px sz time) insert_before)

  abbrev pub add_priced :
      OrderBookState api
      → OrderMap A
      → NodeDataOrderStatus A
      → ℕ
      → Option ℕ
      → InnerL4Order A
      → Result ParseError ℕ
      → Turn
  add_priced s m status sz insert_before a (err e) = refused s m (bad_value e)
  add_priced s m status sz insert_before a (ok px) =
      add_dated s m sz insert_before a px (millis status.time)

  -- the early return of a turn that fails, or the rest of the loop
  abbrev pub after_turn :
      Turn
      → (OrderBookState api → OrderMap A → OrderBookState api × Result ApplyError (Unit {0}))
      → OrderBookState api × Result ApplyError (Unit {0})
  after_turn (s, m, err e) next = (s, err e)
  after_turn (s, m, ok _) next = next s m

  abbrev pub finish :
      ℕ
      → OrderBookState api × Result ApplyError (Unit {0})
      → OrderBookState api × Result ApplyError (Unit {0})
  finish time (s, err e) = (s, err e)
  finish time (s, ok _) =
      (record s { height = (s.height + 1) % 2 ^ 64; time = time; snapped = false }, ok tt)

module _ {A : Type 0} (log10_floor : ℕ → ℕ) (api : QueueApi ℕ (InnerL4Order A)) where
  unfoldable pub compute_l2_snapshot :
      OrderBookState api → Option ((ℕ × ℕ × Map Text (Views api)) × OrderBookState api)
  unfolding refresh_l2_snapshots
  compute_l2_snapshot s =
      cached api s (refresh_l2_snapshots api log10_floor s.order_book s.dirty_coins s.l2_cache)

  -- `none` inside the `Option` of a panic where a view was given out before
  unfoldable pub l2_snapshots :
      OrderBookState api
      → Bool
      → Option (Option (ℕ × ℕ × Map Text (Views api)) × OrderBookState api)
  unfolding compute_l2_snapshot
  l2_snapshots s prevent_future_snaps =
      if s.snapped
      then some (none, s)
      else (compute_l2_snapshot (record s { snapped = prevent_future_snaps || s.snapped }) >>= λ r.
          some (some r.0, r.1))

module _ {A : Type 0} (parse : Text → Option ℕ) (api : QueueApi ℕ (InnerL4Order A)) where
  abbrev pub add_parsed :
      OrderBookState api
      → OrderMap A
      → NodeDataOrderDiff A
      → NodeDataOrderStatus A
      → ℕ
      → Option ℕ
      → Result ParseError (InnerL4Order A)
      → Turn api
  add_parsed s m diff status sz insert_before (err e) = refused api s m (bad_value e)
  add_parsed s m diff status sz insert_before (ok a) =
      add_priced api s m status sz insert_before a (parsed parse diff.px)

  abbrev pub add_found :
      OrderBookState api
      → OrderMap A
      → NodeDataOrderDiff A
      → ℕ
      → Option ℕ
      → Option (NodeDataOrderStatus A)
      → Turn api
  add_found s m diff sz insert_before none = refused api s m no_status
  add_found s m diff sz insert_before (some status) =
      add_parsed s (map_remove m diff.oid) diff status sz insert_before
        (try_from parse status.user status.order)

  abbrev pub apply_inner :
      OrderBookState api
      → OrderMap A
      → NodeDataOrderDiff A
      → Result ParseError InnerOrderDiff
      → Turn api
  apply_inner s m diff (err e) = refused api s m (bad_value e)
  apply_inner s m diff (ok (inner_new sz insert_before)) =
      add_found s m diff sz insert_before (m diff.oid)
  apply_inner s m diff (ok (inner_update orig_sz new_sz)) =
      changed api s m no_order (modify api s.order_book diff.oid diff.coin new_sz)
  apply_inner s m diff (ok inner_remove) =
      changed api s m no_order (cancel api s.order_book diff.oid diff.coin)

  unfoldable pub apply_diff : OrderBookState api → OrderMap A → NodeDataOrderDiff A → Turn api
  apply_diff s m diff =
      if is_spot diff.coin && s.ignore_spot
      then (s, m, ok tt)
      else apply_inner (record s { dirty_coins = insert_coin diff.coin s.dirty_coins }) m diff
          (inner_diff parse diff.raw_book_diff)

  -- the `while let` over the diffs
  unfoldable pub apply_diffs :
      OrderBookState api
      → OrderMap A
      → List (NodeDataOrderDiff A)
      → OrderBookState api × Result ApplyError (Unit {0})
  unfolding apply_diff
  apply_diffs s m [] = (s, ok tt)
  apply_diffs s m (diff ∷ diffs) =
      after_turn api (apply_diff s m diff) (λ s' m'. apply_diffs s' m' diffs)

  abbrev pub unwound :
      OrderBookState api × Result ApplyError (Unit {0})
      → Option (OrderBookState api × Result ApplyError (Unit {0}))
  unwound (s, err time_panic) = none
  unwound (s, err gap) = some (s, err gap)
  unwound (s, err (bad_value e)) = some (s, err (bad_value e))
  unwound (s, err no_anchor) = some (s, err no_anchor)
  unwound (s, err no_status) = some (s, err no_status)
  unwound (s, err no_order) = some (s, err no_order)
  unwound (s, ok _) = some (s, ok tt)

  -- what follows the block's time, where `none` is the panic of the `assert_eq!` on the numbers
  abbrev pub apply_at :
      OrderBookState api
      → Batch (NodeDataOrderStatus A)
      → Batch (NodeDataOrderDiff A)
      → ℕ
      → Option (OrderBookState api × Result ApplyError (Unit {0}))
  apply_at s statuses diffs time =
      let height = statuses.block_number in
      let applied =
        unwound
          (finish api time (apply_diffs s (order_map (λ _. none) statuses.events) diffs.events)) in
      if not (height == diffs.block_number)
      then none
      else if ltb ((s.height + 1) % 2 ^ 64) height
      then some (s, err gap)
      else if leb height s.height
      then some (s, ok tt)
      else applied

  -- the sum wraps at 2^64, as in a release build
  unfoldable pub apply_updates :
      OrderBookState api
      → Batch (NodeDataOrderStatus A)
      → Batch (NodeDataOrderDiff A)
      → Option (OrderBookState api × Result ApplyError (Unit {0}))
  unfolding apply_diffs
  apply_updates s statuses diffs =
      millis statuses.block_time >>= λ time. apply_at s statuses diffs time
