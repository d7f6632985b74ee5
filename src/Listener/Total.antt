-- ===== src/Listener/Total.antt =====
-- The listener does not panic on a batch, and what it knows of a block is settled by the pair.
pub mod Records
pub mod Replays
pub mod Snapshots
use order_book_server.Base.{
  ℕ, ◌+◌, ◌≡◌, refl, ap, ◌∙◌, inl, inr, arith, true, not, Option, none, some, ltb, leb, ◌==◌,
  if◌then◌else◌, Bool-cases, Returns, nat_eq, ◌>>=◌,
}
use order_book_server.Base.Result.{ok, err}
use order_book_server.Queue.{QueueApi}
use order_book_server.OrderBook.Types.{Text}
use order_book_server.Orders.{InnerL4Order, l4_order, NodeDataOrderDiff, NodeDataOrderStatus}
use order_book_server.Ingestion.Batches.{Batch, BatchQueue}
use order_book_server.Market.State.{
  OrderBookState, gap, order_map, apply_diffs, finish, apply_updates,
}
use order_book_server.Listener.{
  Listener, Pair, Received, EventBatch, store, after_apply, apply_pair, pop_cache, enough, on_ready,
  after_store, next_pair, receive_batch,
}
use order_book_server.Market.Dated.{apply_updates-Returns}
use order_book_server.Listener.Fetch.{Attempt}
use order_book_server.Listener.Pairs.Dated.{
  IsPairOf, IsDatedQueue, IsDatedEvent, pop_cache-IsPairOf,
}
use order_book_server.Listener.Stream.{IsSound}
use order_book_server.Listener.Stream.Receive.Stored.{Kept, store-Kept}
use order_book_server.Listener.Pairs.{Paired, pop_cache-PairedBy}

module _ {A : Type 0} (parse : Text → Option ℕ) (api : QueueApi ℕ (InnerL4Order A)) where
  apply_pair-Returns :
      (l : Listener api) (book : OrderBookState api) (pair : Option (Pair api))
      → IsPairOf pair
      → Returns (apply_pair api parse l book pair)
  apply_pair-Returns l book none paired = ((l, ok tt), refl)
  apply_pair-Returns l book (some (t, u)) paired =
      let (r, ran) = apply_updates-Returns parse api book t u paired in
      elim (Bool-cases (leb t.block_number book.height)) [
        | inl old ↦ (
          (l, ok tt),
          ap
              (λ b.
                if b
                then some (l, ok tt)
                else (apply_updates parse api book t u >>= λ r. some (after_apply api l (t, u) r)))
              old,
        )
        | inr new ↦ (
          after_apply api l (t, u) r,
          ap
                (λ b.
                  if b
                  then some (l, ok tt)
                  else (apply_updates parse api book t u >>= λ r.
                      some (after_apply api l (t, u) r)))
                new
              ∙ ap (λ r. r >>= λ r. some (after_apply api l (t, u) r)) ran,
        )
      ]

  on_ready-Returns :
      (l : Listener api) (state : Option (OrderBookState api))
      → IsDatedQueue l.order_status_cache.deque
      → Returns (on_ready api parse l state)
  on_ready-Returns l none dated = ((l, ok tt), refl)
  on_ready-Returns l (some book) dated =
      apply_pair-Returns (next_pair api l).0 book (next_pair api l).1
        (pop_cache-IsPairOf l.order_status_cache l.order_diff_cache dated).0

  -- `receive_batch` returns for a listener and a batch with times since 1970: the loop over the queues
  -- ends, and the assertion of `apply_updates` that the two halves are of one block holds for what the
  -- loop pairs.
  pub receive_batch-Returns :
      (n : ℕ) (a : Option (Attempt api)) (l : Listener api) (updates : EventBatch A) (now : ℕ)
      → IsDatedEvent updates
      → IsSound api n a l
      → Returns (receive_batch api parse l updates now)
  unfolding receive_batch
  receive_batch-Returns n a l updates now new s =
      go (store api l updates now) (store-Kept api n a l updates now new s)
    where
      go : (r : Received api) → Kept api n a r → Returns (after_store api parse r)
      go (l, err e) kept = ((l, err e), refl)
      go (l, ok _) kept = on_ready-Returns l l.order_book_state kept.dated
