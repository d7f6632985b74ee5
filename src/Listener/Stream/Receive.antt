-- ===== src/Listener/Stream/Receive.antt =====
-- Receiving a batch keeps the stream contiguous.
pub mod Stored
use order_book_server.Base.{
  ℕ, ◌+◌, ◌^◌, ◌<◌, ◌≡◌, refl, sym, subst, inl, inr, arith, Bool, true, false, Option, none, some,
  List, [], ◌∷◌, ◌++◌, leb, if◌then◌else◌, nat_eq, Bool-cases, Option-cases,
}
use order_book_server.Base.Result.{Result, ok, err}
use order_book_server.Queue.{QueueApi}
use order_book_server.OrderBook.Types.{Text}
use order_book_server.Orders.{InnerL4Order, l4_order, NodeDataOrderDiff, NodeDataOrderStatus}
use order_book_server.Ingestion.Batches.{BatchQueue, PushError, push, usize_bound}
use order_book_server.Market.State.{OrderBookState, ApplyError, apply_updates}
use order_book_server.Market.Blocks.{Applied, apply_updates-Applied}
use order_book_server.Listener.{
  Listener, Pair, fills, l4_book_updates, Received, EventBatch, orders, book_diffs, fill_batch,
  is_new_fill, stored_statuses, stored_diffs, store, over_limits, discard_cache, cache_pair,
  record_pair, after_apply, apply_pair, Popped, take_pair, next_pair, on_ready, after_store,
  receive_batch, enough, pop_cache, send,
}
use order_book_server.Listener.Pairs.{Paired, pop_cache-PairedBy}
use order_book_server.Listener.Recovery.{increased}
use order_book_server.Listener.Fetch.{Attempt}
use order_book_server.Listener.Pairs.Dated.{
  IsPair, IsPairOf, IsDatedQueue, IsDatedEvent, pop_cache-IsPairOf,
}
use order_book_server.Listener.Stream.{
  Contiguous, position, SameAs, NextOf, Chain, Tracks, Chain-snoc, Phase, StandsAt, IsSound,
  IsBroken, IsSound-IsBroken, send-IsSound, Phase-Bumped,
}
use order_book_server.Listener.Stream.Receive.Stored.{
  Kept, store-Kept, IsAhead, discarded, with_cached, uncached,
}

module _ {A : Type 0} (parse : Text → Option ℕ) (api : QueueApi ℕ (InnerL4Order A)) (n : ℕ)
    (a : Option (Attempt api)) where
  pair_sent :
      (l : Listener api) (b b' : OrderBookState api) (pair : Pair api) (bytes : ℕ)
      (cache : Option (List (Pair api)))
      → l.order_book_state ≡ some b'
      → b'.height ≡ pair.0.block_number
      → l.fetched_snapshot_cache ≡ cache
      → IsAhead api n a l b pair
      → IsSound api n a
          (send api (cache_pair api l bytes pair cache) (l4_book_updates pair.1 pair.0))
  pair_sent l b b' pair bytes none state now empty s =
      send-IsSound api n a l (l4_book_updates pair.1 pair.0) s.sends s.contiguous
        (sym s.same.0, fits (position none l.sent) s.at)
        (subst (λ (t : Option (OrderBookState api)). StandsAt api t (some pair.0.block_number))
          (sym state) now)
        s.bounded
        (subst
          (λ (t : Option (OrderBookState api)).
            Phase api n a l.recovery_epoch t l.fetched_snapshot_cache l.snapshot_cache_started)
          (sym state)
          (uncached api n a l.recovery_epoch b b' l.fetched_snapshot_cache l.snapshot_cache_started
            empty s.phase))
        s.dated
    where
      fits : (p : Option ℕ) → SameAs p b.height → NextOf p pair.0.block_number
      fits none at = tt
      fits (some h) at = omega (arith, at, s.next)
  pair_sent l b b' pair bytes (some cache) state now full s =
      send-IsSound api n a (cache_pair api l bytes pair (some cache))
        (l4_book_updates pair.1 pair.0) s.sends s.contiguous
        (sym s.same.0, fits (position none l.sent) s.at)
        (subst (λ (t : Option (OrderBookState api)). StandsAt api t (some pair.0.block_number))
          (sym state) now)
        s.bounded
        (subst
          (λ (t : Option (OrderBookState api)).
            Phase api n a l.recovery_epoch t (some (cache ++ pair ∷ [])) l.snapshot_cache_started)
          (sym state)
          (with_cached api n a l.recovery_epoch b b' cache l.snapshot_cache_started pair s.next
            s.same now
            (subst
              (λ (t : Option (List (Pair api))).
                Phase api n a l.recovery_epoch (some b) t l.snapshot_cache_started)
              full s.phase)))
        s.dated
    where
      fits : (p : Option ℕ) → SameAs p b.height → NextOf p pair.0.block_number
      fits none at = tt
      fits (some h) at = omega (arith, at, s.next)

  limited :
      (l : Listener api) (b b' : OrderBookState api) (pair : Pair api) (bytes : ℕ) (over : Bool)
      → over_limits api l bytes l.fetched_snapshot_cache ≡ over
      → l.order_book_state ≡ some b'
      → b'.height ≡ pair.0.block_number
      → IsAhead api n a l b pair
      → IsSound api n a (
          let l' = if over then discard_cache api l else l in
          send api
            (cache_pair api l' bytes pair l'.fetched_snapshot_cache)
            (l4_book_updates pair.1 pair.0))
  limited l b b' pair bytes false over state now s =
      pair_sent l b b' pair bytes l.fetched_snapshot_cache state now refl s
  limited l b b' pair bytes true over state now s =
      pair_sent (discard_cache api l) b b' pair bytes none state now refl (record {
        sends = s.sends;
        contiguous = s.contiguous;
        at = s.at;
        next = s.next;
        same = s.same;
        bounded = omega arith;
        dated = s.dated;
        phase =
            discarded api n a l.recovery_epoch b l.fetched_snapshot_cache l.snapshot_cache_started
              (λ empty. not_over (
                subst (λ (t : Option (List (Pair api))). over_limits api l bytes t ≡ true) empty
                  over))
              s.phase;
      })
    where
      not_over : over_limits api l bytes none ≡ true → ⊥
      not_over h = cc

  Kept-if :
      (b : Bool) (r r' : Received api)
      → Kept api n a r
      → Kept api n a r'
      → Kept api n a (if b then r else r')
  Kept-if true r r' k k' = k
  Kept-if false r r' k k' = k'

  record_pair-Kept :
      (l : Listener api) (b b' : OrderBookState api) (pair : Pair api)
      → l.order_book_state ≡ some b'
      → b'.height ≡ pair.0.block_number
      → IsAhead api n a l b pair
      → Kept api n a (record_pair api l pair)
  record_pair-Kept l b b' (t, u) state now s =
      let bytes = l.snapshot_cache_bytes + (t.wire_bytes + u.wire_bytes) in
      let over = over_limits api l bytes l.fetched_snapshot_cache in
      Kept-if (leb usize_bound (t.wire_bytes + u.wire_bytes)) _ _
        (record {
          sends = s.sends;
          contiguous = s.contiguous;
          bumped =
              Phase-Bumped api n a l.recovery_epoch (some b) l.fetched_snapshot_cache
                l.snapshot_cache_started s.phase;
        })
        (limited l b b' (t, u) bytes over refl state now s)

  after_apply-Kept :
      (l : Listener api) (b b' : OrderBookState api) (pair : Pair api)
      (r : Result ApplyError (Unit {0}))
      → l.order_book_state ≡ some b
      → b.height < pair.0.block_number
      → IsPair pair.0 pair.1
      → Applied parse api b pair.0 b' r
      → IsSound api n a l
      → Kept api n a (after_apply api l pair (b', r))
  after_apply-Kept l b b' pair (err e) state new same applied s =
      let broken = IsSound-IsBroken api n a l s in
      record { sends = broken.sends; contiguous = broken.contiguous; bumped = broken.bumped }
  after_apply-Kept l b b' pair (ok _) state new same (inl (_, _, refused)) s = cc
  after_apply-Kept l b b' pair (ok _) state new same (inr (inl (old, _, _))) s =
      absurd (omega arith)
  after_apply-Kept l b b' pair (ok _) state new same (inr (inr (next, inr (e, failed, _)))) s = cc
  after_apply-Kept l b b' pair (ok _) state new same (inr (inr (next, inl (_, now, _, _)))) s =
      record_pair-Kept (record l { order_book_state = some b' }) b b' pair refl now
        (record {
          sends = s.sends;
          contiguous = s.contiguous;
          at =
              subst (λ (t : Option (OrderBookState api)). StandsAt api t (position none l.sent))
                state s.stands;
          next = next;
          same = same;
          bounded = s.bounded;
          dated = s.dated;
          phase =
              subst
                (λ (t : Option (OrderBookState api)).
                  Phase api n a l.recovery_epoch t l.fetched_snapshot_cache
                    l.snapshot_cache_started)
                state s.phase;
        })

  apply_pair-Kept :
      (l : Listener api) (book : OrderBookState api) (pair : Option (Pair api)) (r : Received api)
      → IsPairOf pair
      → l.order_book_state ≡ some book
      → IsSound api n a l
      → apply_pair api parse l book pair ≡ some r
      → Kept api n a r
  apply_pair-Kept l book none r paired state s ran =
      let same : (l, ok tt) ≡ r = cc in subst (Kept api n a) same s
  apply_pair-Kept l book (some (t, u)) r paired state s ran =
      elim (Bool-cases (leb t.block_number book.height)) [
        | inl old ↦ let same : (l, ok tt) ≡ r = ground arith in subst (Kept api n a) same s
        | inr new ↦ elim (Option-cases (apply_updates parse api book t u)) [
          | inl panics ↦ absurd (ground arith)
          | inr ((b', done), gives) ↦
              let same : after_apply api l (t, u) (b', done) ≡ r = ground arith in
              subst (Kept api n a) same (
                after_apply-Kept l book b' (t, u) done state (ground arith) paired
                  (apply_updates-Applied parse api book b' t u done gives) s)
        ]
      ]

  pub take_pair-IsSound :
      (l : Listener api) (r : Popped (NodeDataOrderStatus A) (NodeDataOrderDiff A))
      → IsDatedQueue (r.1).deque
      → IsSound api n a l
      → IsSound api n a (take_pair api l r).0
  take_pair-IsSound l (pair, statuses, diffs) dated s = record {
    sends = s.sends;
    contiguous = s.contiguous;
    stands = s.stands;
    bounded = s.bounded;
    dated = dated;
    phase = s.phase;
  }

  on_ready-Kept :
      (l : Listener api) (state : Option (OrderBookState api)) (r : Received api)
      → l.order_book_state ≡ state
      → IsSound api n a l
      → on_ready api parse l state ≡ some r
      → Kept api n a r
  on_ready-Kept l none r is_state s ran =
      let same : (l, ok tt) ≡ r = cc in subst (Kept api n a) same s
  on_ready-Kept l (some book) r is_state s ran =
      let statuses = l.order_status_cache in
      let diffs = l.order_diff_cache in
      let popped = pop_cache (enough statuses diffs) statuses diffs in
      let (pair, dated) = pop_cache-IsPairOf statuses diffs s.dated in
      apply_pair-Kept (next_pair api l).0 book (next_pair api l).1 r pair is_state
        (take_pair-IsSound l popped dated s) ran

  after_store-Kept :
      (stored r : Received api)
      → Kept api n a stored
      → after_store api parse stored ≡ some r
      → Kept api n a r
  after_store-Kept (l, err e) r kept ran =
      let same : (l, err e) ≡ r = cc in subst (Kept api n a) same kept
  after_store-Kept (l, ok _) r kept ran = on_ready-Kept l l.order_book_state r refl kept ran

  pub receive_batch-Kept :
      (l : Listener api) (batch : EventBatch A) (now : ℕ) (r : Received api)
      → IsDatedEvent batch
      → IsSound api n a l
      → receive_batch api parse l batch now ≡ some r
      → Kept api n a r
  unfolding receive_batch
  receive_batch-Kept l batch now r new s ran =
      after_store-Kept (store api l batch now) r (store-Kept api n a l batch now new s) ran
