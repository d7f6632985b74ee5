-- ===== src/Listener/Stream/Receive/Stored.antt =====
-- What is stored and recorded of a batch keeps the stream contiguous.
use order_book_server.Base.{
  ℕ, ◌+◌, ◌^◌, ◌<◌, ◌≡◌, refl, sym, subst, inl, inr, arith, Bool, true, Option, none, some, List,
  [], ◌∷◌, ◌++◌, nat_eq, Bool-cases,
}
use order_book_server.Base.Result.{Result, ok, err}
use order_book_server.Queue.{QueueApi}
use order_book_server.Orders.{InnerL4Order, l4_order, NodeDataOrderDiff, NodeDataOrderStatus}
use order_book_server.Ingestion.Batches.{BatchQueue, PushError, push}
use order_book_server.Market.State.{OrderBookState}
use order_book_server.Listener.{
  Listener, Pair, fills, Received, EventBatch, orders, book_diffs, fill_batch, is_new_fill,
  stored_statuses, stored_diffs, store,
}
use order_book_server.Listener.Recovery.{increased}
use order_book_server.Listener.Fetch.{Attempt}
use order_book_server.Listener.Pairs.Dated.{IsPair, IsDatedQueue, IsDatedEvent, push-IsDatedQueue}
use order_book_server.Listener.Stream.{
  Contiguous, position, SameAs, Chain, Tracks, Chain-snoc, Phase, IsSound, IsBroken,
  IsSound-IsBroken, send-IsSound,
}

module _ {A : Type 0} (api : QueueApi ℕ (InnerL4Order A)) (n : ℕ) (a : Option (Attempt api)) where
  -- A step that succeeds leaves the listener sound, one that fails leaves it to a fence.
  abbrev pub Kept : Received api → Type 0
  Kept (l, ok _) = IsSound api n a l
  Kept (l, err e) = IsBroken api n a l

  stored_statuses-Kept :
      (l : Listener api) (r : Result PushError (BatchQueue (NodeDataOrderStatus A) × Bool))
      → IsSound api n a l
      → ((q : BatchQueue (NodeDataOrderStatus A)) (accepted : Bool)
          → r ≡ ok (q, accepted)
          → IsDatedQueue q.deque)
      → Kept (stored_statuses api l r)
  stored_statuses-Kept l (err e) s dated = IsSound-IsBroken api n a l s
  stored_statuses-Kept l (ok (q, accepted)) s dated = record {
    sends = s.sends;
    contiguous = s.contiguous;
    stands = s.stands;
    bounded = s.bounded;
    dated = dated q accepted refl;
    phase = s.phase;
  }

  stored_diffs-Kept :
      (l : Listener api) (r : Result PushError (BatchQueue (NodeDataOrderDiff A) × Bool))
      → IsSound api n a l
      → Kept (stored_diffs api l r)
  stored_diffs-Kept l (err e) s = IsSound-IsBroken api n a l s
  stored_diffs-Kept l (ok (q, accepted)) s = record {
    sends = s.sends;
    contiguous = s.contiguous;
    stands = s.stands;
    bounded = s.bounded;
    dated = s.dated;
    phase = s.phase;
  }

  pub store-Kept :
      (l : Listener api) (batch : EventBatch A) (now : ℕ)
      → IsDatedEvent batch
      → IsSound api n a l
      → Kept (store api l batch now)
  unfolding store
  store-Kept l (orders batch) now new s =
      stored_statuses-Kept l (push l.order_status_cache batch l.limits now) s (λ q accepted.
        push-IsDatedQueue l.order_status_cache q batch l.limits now accepted s.dated new)
  store-Kept l (book_diffs batch) now new s =
      stored_diffs-Kept l (push l.order_diff_cache batch l.limits now) s
  store-Kept l (fill_batch batch) now new s =
      elim (Bool-cases (is_new_fill api l.last_fill batch.block_number)) [
        | inl first ↦ rw first (
            send-IsSound api n a (record l { last_fill = some batch.block_number }) (fills batch)
              s.sends s.contiguous tt s.stands s.bounded s.phase s.dated)
        | inr old ↦ rw old s
      ]

  -- The next block, applied to the state and not yet sent.
  pub record IsAhead (l : Listener api) (b : OrderBookState api) (pair : Pair api) : Type 0 where
    pub sends : (l.has_tx ≡ true) × (l.limits.turn_bytes < 2 ^ 63)
    pub contiguous : Contiguous none l.sent
    pub at : SameAs (position none l.sent) b.height
    pub next : pair.0.block_number ≡ b.height + 1
    pub same : IsPair pair.0 pair.1
    pub bounded : l.recovery_epoch < 2 ^ 64
    pub dated : IsDatedQueue l.order_status_cache.deque
    pub phase :
        Phase api n a l.recovery_epoch (some b) l.fetched_snapshot_cache l.snapshot_cache_started

pub discarded :
    {A : Type 0} (api : QueueApi ℕ (InnerL4Order A)) (n : ℕ) (a : Option (Attempt api)) (epoch : ℕ)
    (b : OrderBookState api) (cache : Option (List (Pair api))) (started : Option ℕ)
    → (cache ≡ none → ⊥)
    → Phase api n a epoch (some b) cache started
    → Phase api n a (increased epoch) (some b) none none
discarded api n none epoch b cache started full phase = tt
discarded api n (some a) epoch b cache started full (inl (moved, tracks)) =
    inr (1, omega arith, omega arith, (moved.0, omega (arith, moved.1)), refl, refl)
discarded api n (some a) epoch b cache started full (inr (k, pos, low, moved, empty, off)) =
    absurd (full empty)

pub with_cached :
    {A : Type 0} (api : QueueApi ℕ (InnerL4Order A)) (n : ℕ) (a : Option (Attempt api)) (epoch : ℕ)
    (b b' : OrderBookState api) (cache : List (Pair api)) (started : Option ℕ) (pair : Pair api)
    → pair.0.block_number ≡ b.height + 1
    → IsPair pair.0 pair.1
    → b'.height ≡ pair.0.block_number
    → Phase api n a epoch (some b) (some cache) started
    → Phase api n a epoch (some b') (some (cache ++ pair ∷ [])) started
with_cached api n none epoch b b' cache started pair next same now phase = tt
with_cached api n (some a) epoch b b' cache started pair next same now
      (inr (k, pos, low, moved, empty, off)) =
    cc
with_cached api n (some a) epoch b b' cache started pair next same now (inl (moved, tracks)) =
    inl (moved, go a.state tracks)
  where
    go :
        (s : Option (OrderBookState api))
        → Tracks api s (some b) (some cache)
        → Tracks api s (some b') (some (cache ++ pair ∷ []))
    go none tracks = absurd tracks
    go (some s) chain =
        subst (Chain api s.height (cache ++ pair ∷ [])) (sym now)
          (Chain-snoc api s.height cache b.height pair chain next same)

pub uncached :
    {A : Type 0} (api : QueueApi ℕ (InnerL4Order A)) (n : ℕ) (a : Option (Attempt api)) (epoch : ℕ)
    (b b' : OrderBookState api) (cache : Option (List (Pair api))) (started : Option ℕ)
    → cache ≡ none
    → Phase api n a epoch (some b) cache started
    → Phase api n a epoch (some b') cache started
uncached api n none epoch b b' cache started empty phase = tt
uncached api n (some a) epoch b b' cache started empty (inr old) = inr old
uncached api n (some a) epoch b b' cache started empty (inl (moved, tracks)) =
    absurd (tracked_none a.state (subst (Tracks api a.state (some b)) empty tracks))
  where
    tracked_none : (s : Option (OrderBookState api)) → Tracks api s (some b) none → ⊥
    tracked_none none tracks = tracks
    tracked_none (some s) tracks = tracks
