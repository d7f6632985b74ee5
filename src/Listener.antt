-- ===== src/Listener.antt =====
-- `OrderBookListener` of server/src/listeners/order_book/mod.rs: it pairs the batches of statuses and
-- diffs of a block and applies them. The channel is the list of the messages sent; the outer `none`
-- is a panic.
pub mod Stats
pub mod Pairs
pub mod Total
pub mod Recovery
pub mod Reconcile
pub mod Lines
pub mod Fetch
pub mod Stream
pub mod Loop
use order_book_server.Base.{
  ℕ, zero, suc, ◌+◌, ◌%◌, ◌^◌, Bool, true, false, ◌&&◌, ◌||◌, not, Option, none, some, List, [],
  ◌∷◌, ◌++◌, ltb, leb, ◌==◌, if◌then◌else◌, length, is_some, ◌>>=◌, nat_eq, Map,
}
use order_book_server.Base.Result.{Result, ok, err}
use order_book_server.Queue.{QueueApi}
use order_book_server.OrderBook.Types.{Text}
use order_book_server.OrderBook.{Snapshot}
use order_book_server.Orders.{InnerL4Order, l4_order, NodeDataOrderDiff, NodeDataOrderStatus, Fill}
use order_book_server.Ingestion.Limits.{ResourceLimits}
use order_book_server.Ingestion.Batches.{
  Batch, BatchQueue, PushError, new_queue, push, pop_front, front, usize_bound,
}
use order_book_server.OrderBook.Aggregation.{InnerLevel}
use order_book_server.Subscription.{CoinScope}
use order_book_server.Ingestion.Scoped.{EventSource}
use order_book_server.Listener.Stats.{ResourceStats}
use order_book_server.Market.State.{OrderBookState, ApplyError, apply_updates, state_from_snapshot}

-- `pop_front` where the result is not used
abbrev pub drop_front : {E : Type 0} → BatchQueue E → BatchQueue E
drop_front q = elim (pop_front q) [ none ↦ q | some (b, q') ↦ q' ]

-- the pair, and the two queues
abbrev pub Popped : Type 0 → Type 0 → Type 0
Popped S D = Option (Batch S × Batch D) × BatchQueue S × BatchQueue D

module _ {S D : Type 0} where
  -- the two `pop_front` where the heights are equal
  abbrev pub pop_second :
      Batch S → BatchQueue S → BatchQueue D → Option (Batch D × BatchQueue D) → Popped S D
  pop_second t statuses diffs none = (none, statuses, diffs)
  pop_second t statuses diffs (some (u, diffs')) = (some (t, u), statuses, diffs')

  abbrev pub pop_both : BatchQueue S → BatchQueue D → Option (Batch S × BatchQueue S) → Popped S D
  pop_both statuses diffs none = (none, statuses, diffs)
  pop_both statuses diffs (some (t, statuses')) = pop_second t statuses' diffs (pop_front diffs)

  -- the `while let` of `pop_cache`, with fuel
  unfoldable pub pop_cache : ℕ → BatchQueue S → BatchQueue D → Popped S D
  pop_cache zero statuses diffs = (none, statuses, diffs)
  pop_cache (suc fuel) statuses diffs =
      let less = pop_cache fuel statuses (drop_front diffs) in
      let greater = pop_cache fuel (drop_front statuses) diffs in
      elim (front diffs) [
        | none ↦ (none, statuses, diffs)
        | some t ↦ elim (front statuses) [
          | none ↦ (none, statuses, diffs)
          | some s ↦
              if ltb t.block_number s.block_number
              then less
              else if t.block_number == s.block_number
              then pop_both statuses diffs (pop_front statuses)
              else greater
        ]
      ]

  abbrev pub enough : BatchQueue S → BatchQueue D → ℕ
  enough statuses diffs = suc (length statuses.deque + length diffs.deque)

-- `InternalMessage`
pub data Message (A : Type 0) : Type 0 where
  gap : Message A
  snapshot : Map Text (List ((Option ℕ × Option ℕ) × Snapshot InnerLevel)) → ℕ → ℕ → Message A
  fills : Batch (A × Fill) → Message A
  l4_book_updates : Batch (NodeDataOrderDiff A) → Batch (NodeDataOrderStatus A) → Message A

pub data EventBatch (A : Type 0) : Type 0 where
  orders : Batch (NodeDataOrderStatus A) → EventBatch A
  book_diffs : Batch (NodeDataOrderDiff A) → EventBatch A
  fill_batch : Batch (A × Fill) → EventBatch A

pub data ListenerError : Type 0 where
  refused : PushError → ListenerError
  not_applied : ApplyError → ListenerError
  pair_counter_overflow incomplete_record : ListenerError
  malformed : EventSource → ListenerError

module _ {A : Type 0} (api : QueueApi ℕ (InnerL4Order A)) where
  abbrev pub Pair : Type 0
  Pair = Batch (NodeDataOrderStatus A) × Batch (NodeDataOrderDiff A)

  pub record Listener : Type 0 where
    pub stats : ResourceStats
    pub ignore_spot : Bool
    pub scope : CoinScope
    pub limits : ResourceLimits
    pub order_status_cache : BatchQueue (NodeDataOrderStatus A)
    pub order_diff_cache : BatchQueue (NodeDataOrderDiff A)
    pub last_fill : Option ℕ
    pub order_book_state : Option (OrderBookState api)
    pub fetched_snapshot_cache : Option (List Pair)
    pub snapshot_cache_started : Option ℕ
    pub snapshot_cache_bytes : ℕ
    pub recovery_epoch : ℕ
    pub has_tx : Bool
    pub sent : List (Message A)

  abbrev pub send : Listener → Message A → Listener
  send l message = if l.has_tx then record l { sent = l.sent ++ message ∷ [] } else l

  abbrev pub Received : Type 0
  Received = Listener × Result ListenerError (Unit {0})

  -- `last_fill.is_none_or(|height| height < number)`
  abbrev pub is_new_fill : Option ℕ → ℕ → Bool
  is_new_fill none number = true
  is_new_fill (some height) number = ltb height number

  abbrev pub stored_statuses :
      Listener → Result PushError (BatchQueue (NodeDataOrderStatus A) × Bool) → Received
  stored_statuses l (err e) = (l, err (refused e))
  stored_statuses l (ok (q, accepted)) = (record l { order_status_cache = q }, ok tt)

  abbrev pub stored_diffs :
      Listener → Result PushError (BatchQueue (NodeDataOrderDiff A) × Bool) → Received
  stored_diffs l (err e) = (l, err (refused e))
  stored_diffs l (ok (q, accepted)) = (record l { order_diff_cache = q }, ok tt)

  -- the `match` of `receive_batch`
  unfoldable pub store : Listener → EventBatch A → ℕ → Received
  store l (orders batch) now = stored_statuses l (push l.order_status_cache batch l.limits now)
  store l (book_diffs batch) now = stored_diffs l (push l.order_diff_cache batch l.limits now)
  store l (fill_batch batch) now =
      if is_new_fill l.last_fill batch.block_number
      then (send (record l { last_fill = some batch.block_number }) (fills batch), ok tt)
      else (l, ok tt)

  -- `checked_add` of the validation cache, which is over its limits
  abbrev pub over_limits : Listener → ℕ → Option (List Pair) → Bool
  over_limits l bytes none = false
  over_limits l bytes (some cache) =
      leb l.limits.queue_heights (length cache)
      || (leb usize_bound bytes || ltb l.limits.queue_bytes bytes)

  abbrev pub discard_cache : Listener → Listener
  discard_cache l = record l {
    recovery_epoch = (l.recovery_epoch + 1) % 2 ^ 64;
    fetched_snapshot_cache = none;
    snapshot_cache_started = none;
    snapshot_cache_bytes = 0;
  }

  abbrev pub cache_pair : Listener → ℕ → Pair → Option (List Pair) → Listener
  cache_pair l bytes pair none = l
  cache_pair l bytes pair (some cache) = record l {
    snapshot_cache_bytes = bytes;
    fetched_snapshot_cache = some (cache ++ pair ∷ []);
  }

  -- what follows a pair that was applied
  abbrev pub record_pair : Listener → Pair → Received
  record_pair l (statuses, diffs) =
      let pair_bytes = statuses.wire_bytes + diffs.wire_bytes in
      let bytes = l.snapshot_cache_bytes + pair_bytes in
      let l' = if over_limits l bytes l.fetched_snapshot_cache then discard_cache l else l in
      let l'' = cache_pair l' bytes (statuses, diffs) l'.fetched_snapshot_cache in
      if leb usize_bound pair_bytes
      then (l, err pair_counter_overflow)
      else (send l'' (l4_book_updates diffs statuses), ok tt)

  abbrev pub after_apply :
      Listener → Pair → OrderBookState api × Result ApplyError (Unit {0}) → Received
  after_apply l pair (book, err e) =
      (record l { order_book_state = some book }, err (not_applied e))
  after_apply l pair (book, ok _) = record_pair (record l { order_book_state = some book }) pair

  abbrev pub apply_pair :
      (Text → Option ℕ) → Listener → OrderBookState api → Option Pair → Option Received
  apply_pair parse l book none = some (l, ok tt)
  apply_pair parse l book (some (statuses, diffs)) =
      if leb statuses.block_number book.height
      then some (l, ok tt)
      else (apply_updates parse api book statuses diffs >>= λ r.
          some (after_apply l (statuses, diffs) r))

  abbrev pub take_pair :
      Listener → Popped (NodeDataOrderStatus A) (NodeDataOrderDiff A) → Listener × Option Pair
  take_pair l (pair, statuses, diffs) =
      (record l { order_status_cache = statuses; order_diff_cache = diffs }, pair)

  abbrev pub next_pair : Listener → Listener × Option Pair
  next_pair l = take_pair l (
      pop_cache (enough l.order_status_cache l.order_diff_cache) l.order_status_cache
        l.order_diff_cache)

  -- where the listener is ready
  abbrev pub on_ready : (Text → Option ℕ) → Listener → Option (OrderBookState api) → Option Received
  on_ready parse l none = some (l, ok tt)
  on_ready parse l (some book) = apply_pair parse (next_pair l).0 book (next_pair l).1

  abbrev pub after_store : (Text → Option ℕ) → Received → Option Received
  after_store parse (l, err e) = some (l, err e)
  after_store parse (l, ok _) = on_ready parse l l.order_book_state

  unfoldable pub receive_batch : (Text → Option ℕ) → Listener → EventBatch A → ℕ → Option Received
  unfolding store
  receive_batch parse l updates now = after_store parse (store l updates now)

  unfoldable pub begin_caching : Listener → ℕ → Listener
  begin_caching l now = record l {
    snapshot_cache_started = some now;
    snapshot_cache_bytes = 0;
    fetched_snapshot_cache = some [];
  }

  abbrev pub or_empty : Option (List Pair) → List Pair
  or_empty none = []
  or_empty (some cache) = cache

  unfoldable pub take_cache : Listener → Listener × List Pair
  take_cache l = (
    record l {
      snapshot_cache_started = none;
      snapshot_cache_bytes = 0;
      fetched_snapshot_cache = none;
    },
    or_empty l.fetched_snapshot_cache,
  )
