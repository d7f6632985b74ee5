-- ===== src/Listener/Total/Replays.antt =====
-- A start from a snapshot ends: every pair that is replayed leaves fewer batches in the queues.
use order_book_server.Base.{
  ℕ, zero, suc, ◌+◌, ◌-◌, ◌≤◌, ◌<◌, refl, inl, inr, arith, Option, none, some, List, [], ◌∷◌, ltb,
  ◌==◌, length, nat_eq, Bool-cases, Returns, >>=-Returns, true,
}
use order_book_server.Base.Result.{Result, ok, err}
use order_book_server.Queue.{QueueApi}
use order_book_server.OrderBook.Types.{Text}
use order_book_server.OrderBook.{Snapshot}
use order_book_server.Orders.{InnerL4Order, l4_order, NodeDataOrderDiff, NodeDataOrderStatus}
use order_book_server.Ingestion.Batches.{Batch, BatchQueue, pop_front, front}
use order_book_server.Market.State.{OrderBookState, ApplyError, state_from_snapshot}
use order_book_server.Listener.{Listener, Popped, pop_cache, enough, take_pair}
use order_book_server.Listener.Recovery.{
  Replayed, after_replay, replay_pair, replay, init_from_snapshot,
}
use order_book_server.Market.Dated.{apply_updates-Returns}
use order_book_server.Listener.Pairs.Dated.{IsPairOf, IsDatedQueue, pop_cache-IsPairOf}

module _ {S D : Type 0} where
  abbrev pub size : BatchQueue S → BatchQueue D → ℕ
  size statuses diffs = length statuses.deque + length diffs.deque

  abbrev pub ShorterIf : ℕ → Option (Batch S × Batch D) → BatchQueue S → BatchQueue D → Type 0
  ShorterIf n none statuses diffs = Unit
  ShorterIf n (some pair) statuses diffs = size statuses diffs < n

  -- A pair that was popped leaves fewer batches than `n`.
  abbrev pub Shorter : ℕ → Popped S D → Type 0
  Shorter n r = ShorterIf n r.0 r.1 r.2

  Shorter-mono : (n m : ℕ) (r : Popped S D) → n ≤ m → Shorter n r → Shorter m r
  Shorter-mono n m (none, statuses, diffs) more s = tt
  Shorter-mono n m (some pair, statuses, diffs) more s = omega (arith, s)

  pop_cache-Shorter :
      (fuel : ℕ) (ss : List (Batch S × ℕ)) (ds : List (Batch D × ℕ)) (sl dl : Option ℕ) (sb db : ℕ)
      → Shorter (length ss + length ds) (
          pop_cache fuel
            (record { deque = ss; last_ts = sl; bytes = sb })
            (record { deque = ds; last_ts = dl; bytes = db }))
  unfolding pop_cache front pop_front
  pop_cache-Shorter zero ss ds sl dl sb db = tt
  pop_cache-Shorter (suc fuel) ss [] sl dl sb db = tt
  pop_cache-Shorter (suc fuel) [] ((u, at) ∷ ds) sl dl sb db = tt
  pop_cache-Shorter (suc fuel) ((t, bt) ∷ ss) ((u, at) ∷ ds) sl dl sb db =
      elim (Bool-cases (ltb u.block_number t.block_number)) [
        | inl less ↦ rw less (
            Shorter-mono (length ((t, bt) ∷ ss) + length ds) _ _ (omega arith)
              (pop_cache-Shorter fuel ((t, bt) ∷ ss) ds sl dl sb (db - u.wire_bytes)))
        | inr up ↦ elim (Bool-cases (u.block_number == t.block_number)) [
          | inl same ↦ rw (up, same) (omega arith)
          | inr greater ↦
              rw (up, greater)
                (Shorter-mono (length ss + length ((u, at) ∷ ds)) _ _ (omega arith)
                  (pop_cache-Shorter fuel ss ((u, at) ∷ ds) sl dl (sb - t.wire_bytes) db))
        ]
      ]

module _ {A : Type 0} (parse : Text → Option ℕ) (api : QueueApi ℕ (InnerL4Order A)) where
  abbrev pub backlog : Listener api → ℕ
  backlog l = size l.order_status_cache l.order_diff_cache

  after_replay-Returns :
      (l : Listener api) (r : OrderBookState api × Result ApplyError (Unit {0}))
      (next : OrderBookState api → Option (Replayed api))
      → ((b : OrderBookState api) → Returns (next b))
      → Returns (after_replay api l r next)
  after_replay-Returns l (b, err e) next on = (_, refl)
  after_replay-Returns l (b, ok _) next on = on b

  replay_pair-Returns :
      (n : ℕ) (l : Listener api) (r : Popped (NodeDataOrderStatus A) (NodeDataOrderDiff A))
      (b : OrderBookState api) (next : Listener api → OrderBookState api → Option (Replayed api))
      → IsPairOf r.0
      → IsDatedQueue (r.1).deque
      → Shorter n r
      → ((l' : Listener api) (b : OrderBookState api)
          → IsDatedQueue l'.order_status_cache.deque
          → backlog l' < n
          → Returns (next l' b))
      → Returns (replay_pair api parse (take_pair api l r) b next)
  replay_pair-Returns n l (none, statuses, diffs) b next paired dated shorter on = (_, refl)
  replay_pair-Returns n l (some (t, u), statuses, diffs) b next paired dated shorter on =
      >>=-Returns _ _ (apply_updates-Returns parse api b t u paired)
        (λ r _. after_replay-Returns _ r _ (λ b'. on _ b' dated shorter))

  pub replay-Returns :
      (fuel : ℕ) (l : Listener api) (b : OrderBookState api)
      → IsDatedQueue l.order_status_cache.deque
      → backlog l < fuel
      → Returns (replay api parse fuel l b)
  unfolding replay
  replay-Returns zero l b dated more = absurd (omega arith)
  replay-Returns (suc fuel) l b dated more =
      let statuses = l.order_status_cache in
      let diffs = l.order_diff_cache in
      let (pair, dated') = pop_cache-IsPairOf statuses diffs dated in
      replay_pair-Returns (backlog l) l (pop_cache (enough statuses diffs) statuses diffs) b
        (λ l' b'. replay api parse fuel l' b') pair dated'
        (pop_cache-Shorter (enough statuses diffs) statuses.deque diffs.deque statuses.last_ts
          diffs.last_ts statuses.bytes diffs.bytes)
        (λ l' b' still fewer. replay-Returns fuel l' b' still (omega arith))

  -- A start from a snapshot returns, whatever the queues hold but times before 1970.
  pub init_from_snapshot-Returns :
      (l : Listener api) (expected : List (Text × Snapshot (InnerL4Order A))) (height : ℕ)
      → IsDatedQueue l.order_status_cache.deque
      → Returns (init_from_snapshot api parse l expected height)
  unfolding init_from_snapshot
  init_from_snapshot-Returns l expected height dated =
      >>=-Returns _ _
        (replay-Returns (enough l.order_status_cache l.order_diff_cache) l
          (state_from_snapshot api expected height 0 true l.ignore_spot) dated (omega arith))
        (λ r _. (_, refl))
