-- ===== src/Listener/Reconcile/Recovers/Queues.antt =====
-- How the replay of the queued blocks on a snapshot ends: at a state that is reached, or as one fails.
use order_book_server.Base.{
  ℕ, zero, suc, ◌≤◌, ◌≡◌, refl, sym, ap, subst, ◌∙◌, ◌⊎◌, inl, inr, arith, true, false, Option,
  none, some, List, ◌>>=◌, Option-cases, nat_eq,
}
use order_book_server.Base.Result.{Result, ok, err}
use order_book_server.Queue.{QueueApi}
use order_book_server.OrderBook.Types.{Text}
use order_book_server.OrderBook.{Snapshot}
use order_book_server.Orders.{InnerL4Order, l4_order, NodeDataOrderDiff, NodeDataOrderStatus}
use order_book_server.Ingestion.Batches.{Batch}
use order_book_server.Market.State.{OrderBookState, ApplyError, apply_updates, state_from_snapshot}
use order_book_server.Market.Blocks.{Applied, apply_updates-Applied}
use order_book_server.Listener.{Listener, Popped, take_pair, pop_cache, enough}
use order_book_server.Listener.Recovery.{
  Replayed, after_replay, replay_pair, replay, after_init, init_from_snapshot,
}
use order_book_server.Listener.Pairs.Taken.{Queued, IsTakenFrom, pop_cache-IsTakenFrom}

module _ {A : Type 0} (parse : Text → Option ℕ) (api : QueueApi ℕ (InnerL4Order A)) where
  -- The states that the first one becomes by blocks of the queues that apply.
  pub data Reached (waiting : Listener api) (start : OrderBookState api)
      : OrderBookState api → Type 0 where
    at_start : Reached waiting start start
    by_block :
        (b b' : OrderBookState api) (t : Batch (NodeDataOrderStatus A))
        (u : Batch (NodeDataOrderDiff A))
        → Reached waiting start b
        → Queued t waiting.order_status_cache.deque
        → Queued u waiting.order_diff_cache.deque
        → apply_updates parse api b t u ≡ some (b', ok tt)
        → Reached waiting start b'

  -- A pair of the queues that fails on such a state.
  pub record BlockFails (waiting : Listener api) (start : OrderBookState api) : Type 0 where
    pub book : OrderBookState api
    pub left : OrderBookState api
    pub statuses : Batch (NodeDataOrderStatus A)
    pub diffs : Batch (NodeDataOrderDiff A)
    pub error : ApplyError
    pub on : Reached waiting start book
    pub status_queued : Queued statuses waiting.order_status_cache.deque
    pub diff_queued : Queued diffs waiting.order_diff_cache.deque
    pub fails : apply_updates parse api book statuses diffs ≡ some (left, err error)

  Applied-mono :
      (s s' : OrderBookState api) (t : Batch (NodeDataOrderStatus A))
      → Applied parse api s t s' (ok tt)
      → s.height ≤ s'.height
  Applied-mono s s' t (inl (_, _, refused)) = cc
  Applied-mono s s' t (inr (inl (_, same, _))) =
      subst (λ (b : OrderBookState api). s.height ≤ b.height) (sym same) (omega arith)
  Applied-mono s s' t (inr (inr (next, inl (_, now, _, _)))) = omega (arith, next, now)
  Applied-mono s s' t (inr (inr (_, inr (e, fails, _)))) = cc

  Reached-mono :
      (waiting : Listener api) (start b : OrderBookState api)
      → Reached waiting start b
      → start.height ≤ b.height
  Reached-mono waiting start _ at_start = omega arith
  Reached-mono waiting start _ (by_block b b' t u before _ _ ran) =
      let up_to = Reached-mono waiting start b before in
      let last = Applied-mono b b' t (apply_updates-Applied parse api b b' t u (ok tt) ran) in
      omega (arith, up_to, last)

  -- What the queues still hold was in those of the listener that waits.
  pub record StillQueued (waiting l : Listener api) : Type 0 where
    pub statuses :
        (t : Batch (NodeDataOrderStatus A))
        → Queued t l.order_status_cache.deque
        → Queued t waiting.order_status_cache.deque
    pub diffs :
        (u : Batch (NodeDataOrderDiff A))
        → Queued u l.order_diff_cache.deque
        → Queued u waiting.order_diff_cache.deque

  -- How a replay ends: without a retry at a state that is reached, with one as a block fails.
  abbrev pub Ends : Listener api → OrderBookState api → Replayed api → Type 0
  Ends waiting start (l, b, false) = Reached waiting start b
  Ends waiting start (l, b, true) = BlockFails waiting start

  after_replay-Ends :
      (waiting l : Listener api) (start b : OrderBookState api) (t : Batch (NodeDataOrderStatus A))
      (u : Batch (NodeDataOrderDiff A)) (r : OrderBookState api × Result ApplyError (Unit {0}))
      (next : OrderBookState api → Option (Replayed api)) (out : Replayed api)
      → Reached waiting start b
      → Queued t waiting.order_status_cache.deque
      → Queued u waiting.order_diff_cache.deque
      → apply_updates parse api b t u ≡ some r
      → ((b' : OrderBookState api)
          → Reached waiting start b'
          → next b' ≡ some out
          → Ends waiting start out)
      → after_replay api l r next ≡ some out
      → Ends waiting start out
  after_replay-Ends waiting l start b t u (b', err e) next out before qt qu gives on ran =
      let same : (l, b', true) ≡ out = cc in
      subst (Ends waiting start) same record {
        book = b;
        left = b';
        statuses = t;
        diffs = u;
        error = e;
        on = before;
        status_queued = qt;
        diff_queued = qu;
        fails = gives;
      }
  after_replay-Ends waiting l start b t u (b', ok _) next out before qt qu gives on ran =
      on b' (by_block b b' t u before qt qu gives) ran

  replay_pair-Ends :
      (waiting l : Listener api) (r : Popped (NodeDataOrderStatus A) (NodeDataOrderDiff A))
      (start b : OrderBookState api)
      (next : Listener api → OrderBookState api → Option (Replayed api)) (out : Replayed api)
      → IsTakenFrom waiting.order_status_cache.deque waiting.order_diff_cache.deque r
      → Reached waiting start b
      → ((l' : Listener api) (b' : OrderBookState api)
          → StillQueued waiting l'
          → Reached waiting start b'
          → next l' b' ≡ some out
          → Ends waiting start out)
      → replay_pair api parse (take_pair api l r) b next ≡ some out
      → Ends waiting start out
  replay_pair-Ends waiting l (none, statuses, diffs) start b next out taken before on ran =
      let same : (record l { order_status_cache = statuses; order_diff_cache = diffs }, b, false)
          ≡ out =
        cc in
      subst (Ends waiting start) same before
  replay_pair-Ends waiting l (some (t, u), statuses, diffs) start b next out taken before on ran =
      let l' : Listener api = record l {
        order_status_cache = statuses;
        order_diff_cache = diffs;
      } in
      elim (Option-cases (apply_updates parse api b t u)) [
        | inl panics ↦ absurd (ground arith)
        | inr (r, gives) ↦
            after_replay-Ends waiting l' start b t u r (next l') out before taken.pair.0
              taken.pair.1 gives
              (λ b' reached.
                on l' b' (record { statuses = taken.statuses; diffs = taken.diffs }) reached)
              (sym (
                  ap
                    (λ (t : Option (OrderBookState api × Result ApplyError (Unit {0}))).
                      t >>= λ r. after_replay api l' r (next l'))
                    gives)
                ∙ ran)
      ]

  -- What is taken from queues that are still in the first ones is taken from the first ones.
  taken_before :
      (waiting l : Listener api) (r : Popped (NodeDataOrderStatus A) (NodeDataOrderDiff A))
      → StillQueued waiting l
      → IsTakenFrom l.order_status_cache.deque l.order_diff_cache.deque r
      → IsTakenFrom waiting.order_status_cache.deque waiting.order_diff_cache.deque r
  taken_before waiting l (none, q, p) still taken = record {
    pair = tt;
    statuses = λ t h. still.statuses t (taken.statuses t h);
    diffs = λ u h. still.diffs u (taken.diffs u h);
  }
  taken_before waiting l (some (t, u), q, p) still taken = record {
    pair = (still.statuses t taken.pair.0, still.diffs u taken.pair.1);
    statuses = λ t h. still.statuses t (taken.statuses t h);
    diffs = λ u h. still.diffs u (taken.diffs u h);
  }

  replay-Ends :
      (fuel : ℕ) (waiting l : Listener api) (start b : OrderBookState api) (out : Replayed api)
      → StillQueued waiting l
      → Reached waiting start b
      → replay api parse fuel l b ≡ some out
      → Ends waiting start out
  unfolding replay
  replay-Ends zero waiting l start b out still before ran = cc
  replay-Ends (suc fuel) waiting l start b out still before ran =
      let statuses = l.order_status_cache in
      let diffs = l.order_diff_cache in
      let popped = pop_cache (enough statuses diffs) statuses diffs in
      replay_pair-Ends waiting l popped start b (λ l' b'. replay api parse fuel l' b') out
        (taken_before waiting l popped still (
          pop_cache-IsTakenFrom (enough statuses diffs) statuses.deque diffs.deque statuses.last_ts
            diffs.last_ts statuses.bytes diffs.bytes))
        before
        (λ l' b' still' reached ran'. replay-Ends fuel waiting l' start b' out still' reached ran')
        ran

  -- The listener is ready with a state that is reached, or it waits on as a block failed.
  abbrev pub Recovers : Listener api → OrderBookState api → Listener api → Type 0
  Recovers waiting start l =
      ((b : OrderBookState api) × (l.order_book_state ≡ some b)
        × Reached waiting start b
        × (start.height ≤ b.height))
      ⊎ BlockFails waiting start

  after_init-Recovers :
      (waiting : Listener api) (start : OrderBookState api) (out : Replayed api)
      → Ends waiting start out
      → Recovers waiting start (after_init api out)
  after_init-Recovers waiting start (l, b, false) reached =
      inl (b, refl, reached, Reached-mono waiting start b reached)
  after_init-Recovers waiting start (l, b, true) fails = inr fails

  pub init_from_snapshot-Recovers :
      (waiting l l' : Listener api) (expected : List (Text × Snapshot (InnerL4Order A)))
      (height : ℕ)
      → StillQueued waiting l
      → init_from_snapshot api parse l expected height ≡ some l'
      → Recovers waiting (state_from_snapshot api expected height 0 true l.ignore_spot) l'
  unfolding init_from_snapshot
  init_from_snapshot-Recovers waiting l l' expected height still ran =
      let start = state_from_snapshot api expected height 0 true l.ignore_spot in
      let fuel = enough l.order_status_cache l.order_diff_cache in
      elim (Option-cases (replay api parse fuel l start)) [
        | inl panics ↦ absurd (ground arith)
        | inr (out, gives) ↦
            let same : after_init api out ≡ l' = ground arith in
            subst (Recovers waiting start) same (
              after_init-Recovers waiting start out
                (replay-Ends fuel waiting l start start out still at_start gives))
      ]
