-- ===== src/Listener/Pairs/Dated.antt =====
-- The queue of statuses holds blocks whose times are since 1970, and so does a pair out of the queues.
use order_book_server.Base.{
  ℕ, ◌≡◌, refl, ap, subst, inl, inr, arith, Option, none, some, List, [], ◌∷◌, ◌++◌, Bool,
}
use order_book_server.Base.Result.{ok}
use order_book_server.Orders.{NodeDataOrderDiff, NodeDataOrderStatus}
use order_book_server.Ingestion.Limits.{ResourceLimits}
use order_book_server.Ingestion.Batches.{Batch, BatchQueue, push}
use order_book_server.Ingestion.Batches.Accounting.{push-inv}
use order_book_server.Market.Dated.{IsDated}
use order_book_server.Listener.{
  Popped, pop_cache, enough, EventBatch, orders, book_diffs, fill_batch,
}
use order_book_server.Listener.Pairs.{Paired, pop_cache-PairedBy}
use order_book_server.Listener.Pairs.Taken.{Queued, PairQueued, pop_cache-IsTakenFrom}

module _ {A : Type 0} where
  abbrev pub IsDatedQueue : List (Batch (NodeDataOrderStatus A) × ℕ) → Type 0
  IsDatedQueue deque = (t : Batch (NodeDataOrderStatus A)) → Queued t deque → IsDated t

  -- Of one block, with times since 1970.
  abbrev pub IsPair : Batch (NodeDataOrderStatus A) → Batch (NodeDataOrderDiff A) → Type 0
  IsPair t u = (t.block_number ≡ u.block_number) × IsDated t

  abbrev pub IsPairOf :
      Option (Batch (NodeDataOrderStatus A) × Batch (NodeDataOrderDiff A)) → Type 0
  IsPairOf none = Unit
  IsPairOf (some (t, u)) = IsPair t u

  -- A batch that is received: the times of the others are not converted.
  abbrev pub IsDatedEvent : EventBatch A → Type 0
  IsDatedEvent (orders batch) = IsDated batch
  IsDatedEvent (book_diffs batch) = Unit
  IsDatedEvent (fill_batch batch) = Unit

  pair_of :
      (ss : List (Batch (NodeDataOrderStatus A) × ℕ)) (ds : List (Batch (NodeDataOrderDiff A) × ℕ))
      (r : Popped (NodeDataOrderStatus A) (NodeDataOrderDiff A))
      → IsDatedQueue ss
      → Paired r.0 r.1 r.2
      → PairQueued ss ds r.0
      → IsPairOf r.0
  pair_of ss ds (none, p, q) dated paired queued = tt
  pair_of ss ds (some (t, u), p, q) dated paired queued = (paired, dated t queued.0)

  -- What `pop_cache` gives is such a pair, and what it leaves is such a queue.
  pub pop_cache-IsPairOf :
      (statuses : BatchQueue (NodeDataOrderStatus A)) (diffs : BatchQueue (NodeDataOrderDiff A))
      → IsDatedQueue statuses.deque
      → IsPairOf (pop_cache (enough statuses diffs) statuses diffs).0
        × IsDatedQueue ((pop_cache (enough statuses diffs) statuses diffs).1).deque
  pop_cache-IsPairOf statuses diffs dated =
      let taken =
        pop_cache-IsTakenFrom (enough statuses diffs) statuses.deque diffs.deque statuses.last_ts
          diffs.last_ts statuses.bytes diffs.bytes in
      (
        pair_of statuses.deque diffs.deque (pop_cache (enough statuses diffs) statuses diffs) dated
            (pop_cache-PairedBy (enough statuses diffs) statuses.deque diffs.deque statuses.last_ts
              diffs.last_ts statuses.bytes diffs.bytes (omega arith))
            taken.pair,
        λ t queued. dated t (taken.statuses t queued),
      )

  pub empty-IsDatedQueue : IsDatedQueue []
  empty-IsDatedQueue t ([], at, behind, split) = cc
  empty-IsDatedQueue t (x ∷ ahead, at, behind, split) = cc

  pub snoc-IsDatedQueue :
      (deque : List (Batch (NodeDataOrderStatus A) × ℕ)) (block : Batch (NodeDataOrderStatus A))
      (now : ℕ)
      → IsDatedQueue deque
      → IsDated block
      → IsDatedQueue (deque ++ (block, now) ∷ [])
  snoc-IsDatedQueue [] block now dated new t ([], at, behind, split) =
      let same : block ≡ t = cc in subst IsDated same new
  snoc-IsDatedQueue [] block now dated new t (x ∷ ahead, at, behind, split) =
      let rest : [] ≡ ahead ++ (t, at) ∷ behind = cc in absurd (empty_split ahead rest)
    where
      empty_split :
          (ahead : List (Batch (NodeDataOrderStatus A) × ℕ)) → [] ≡ ahead ++ (t, at) ∷ behind → ⊥
      empty_split [] h = cc
      empty_split (y ∷ ahead) h = cc
  snoc-IsDatedQueue ((s, i) ∷ deque) block now dated new t ([], at, behind, split) =
      let same : s ≡ t = cc in subst IsDated same (dated s ([], i, deque, refl))
  snoc-IsDatedQueue ((s, i) ∷ deque) block now dated new t (x ∷ ahead, at, behind, split) =
      let rest : deque ++ (block, now) ∷ [] ≡ ahead ++ (t, at) ∷ behind = cc in
      snoc-IsDatedQueue deque block now
        (λ t' (ahead', at', behind', split').
          dated t' ((s, i) ∷ ahead', at', behind', ap (◌∷◌ (s, i)) split'))
        new t (ahead, at, behind, rest)

  pub push-IsDatedQueue :
      (q q' : BatchQueue (NodeDataOrderStatus A)) (block : Batch (NodeDataOrderStatus A))
      (limits : ResourceLimits) (now : ℕ) (accepted : Bool)
      → IsDatedQueue q.deque
      → IsDated block
      → push q block limits now ≡ ok (q', accepted)
      → IsDatedQueue q'.deque
  push-IsDatedQueue q q' block limits now accepted dated new ran =
      elim (push-inv q q' block limits now accepted ran) [
        | inl same ↦ rw same dated
        | inr (newer, fits, room, shape) ↦ rw shape (snoc-IsDatedQueue q.deque block now dated new)
      ]
