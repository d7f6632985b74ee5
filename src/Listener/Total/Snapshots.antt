-- ===== src/Listener/Total/Snapshots.antt =====
-- A snapshot is compared with the state without a panic: the pairs that are cached for it are of one
-- block each.
use order_book_server.Base.{
  ℕ, ◌+◌, ◌^◌, ◌≤◌, ◌<◌, ◌≡◌, refl, inl, inr, arith, Bool, true, false, not, Option, none, some,
  List, [], ◌∷◌, ltb, ◌==◌, nat_eq, Bool-cases, Returns, >>=-Returns, if-Returns, Eq,
}
use order_book_server.Base.Result.{Result, ok, err}
use order_book_server.Queue.{QueueApi}
use order_book_server.OrderBook.Types.{Text}
use order_book_server.OrderBook.{Snapshot}
use order_book_server.Orders.{InnerL4Order, l4_order}
use order_book_server.Market.{to_snapshots}
use order_book_server.Market.State.{OrderBookState, ApplyError, state_from_snapshot}
use order_book_server.Market.Consistency.{
  SnapshotConsistency, equal, empty_books_added, Divergence, validate_snapshot_consistency,
}
use order_book_server.Listener.{Listener, Pair, take_cache, or_empty}
use order_book_server.Listener.Recovery.{
  CaughtUp, reached, snapshot_ahead, failed, after_catch_up, catch_up, after_catch, apply_all,
}
use order_book_server.Listener.Reconcile.{
  commit, replace, after_validation, compare, reconcile_snapshot, finish_snapshot,
}
use order_book_server.Listener.Fetch.{Attempt}
use order_book_server.Listener.Stream.{Chain, Tracks, IsSound}
use order_book_server.Listener.Stream.Committed.{current}
use order_book_server.Market.Dated.{apply_updates-Returns}
use order_book_server.Listener.Pairs.Dated.{IsPair, IsDatedQueue}
use order_book_server.Listener.Total.Records.{l2_snapshots-Returns}
use order_book_server.Listener.Total.Replays.{init_from_snapshot-Returns}

module _ {A : Type 0} (parse : Text → Option ℕ) (api : QueueApi ℕ (InnerL4Order A)) where
  abbrev pub AllPaired : List (Pair api) → Type 0
  AllPaired [] = Unit
  AllPaired ((t, u) ∷ cache) = IsPair t u × AllPaired cache

  Chain-AllPaired : (h g : ℕ) (cache : List (Pair api)) → Chain api h cache g → AllPaired cache
  Chain-AllPaired h g [] chain = tt
  Chain-AllPaired h g ((t, u) ∷ cache) chain =
      (chain.1, Chain-AllPaired t.block_number g cache chain.2)

  abbrev pub PairedLeft : CaughtUp api → Type 0
  PairedLeft (reached s cache) = AllPaired cache
  PairedLeft snapshot_ahead = Unit
  PairedLeft (failed e) = Unit

  -- A result that leaves only pairs of one block.
  abbrev pub CatchesUp : Option (CaughtUp api) → Type 0
  CatchesUp r = (c : CaughtUp api) × (r ≡ some c) × PairedLeft c

  after_catch_up-CatchesUp :
      (r : OrderBookState api × Result ApplyError (Unit {0}))
      (next : OrderBookState api → Option (CaughtUp api))
      → ((s : OrderBookState api) → CatchesUp (next s))
      → CatchesUp (after_catch_up api r next)
  after_catch_up-CatchesUp (s, err e) next on = (failed e, refl, tt)
  after_catch_up-CatchesUp (s, ok _) next on = on s

  catch_up-CatchesUp :
      (s : OrderBookState api) (height : ℕ) (cache : List (Pair api))
      → AllPaired cache
      → CatchesUp (catch_up api parse s height cache)
  unfolding catch_up
  catch_up-CatchesUp s height [] paired = elim (Bool-cases (ltb s.height height)) [
    | inl below ↦ rw below (snapshot_ahead, refl, tt)
    | inr up ↦ rw up (reached s [], refl, tt)
  ]
  catch_up-CatchesUp s height ((t, u) ∷ cache) paired = elim (Bool-cases (ltb s.height height)) [
    | inr up ↦ rw up (reached s ((t, u) ∷ cache), refl, paired)
    | inl below ↦
        let (r, ran) = apply_updates-Returns parse api s t u paired.0 in
        rw (below, ran)
          (after_catch_up-CatchesUp r (λ s'. catch_up api parse s' height cache)
            (λ s'. catch_up-CatchesUp s' height cache paired.1))
  ]

  after_catch-Returns :
      (r : OrderBookState api × Result ApplyError (Unit {0}))
      (next : OrderBookState api → Option (OrderBookState api × Result ApplyError (Unit {0})))
      → ((s : OrderBookState api) → Returns (next s))
      → Returns (after_catch api r next)
  after_catch-Returns (s, err e) next on = (_, refl)
  after_catch-Returns (s, ok _) next on = on s

  apply_all-Returns :
      (s : OrderBookState api) (cache : List (Pair api))
      → AllPaired cache
      → Returns (apply_all api parse s cache)
  unfolding apply_all
  apply_all-Returns s [] paired = (_, refl)
  apply_all-Returns s ((t, u) ∷ cache) paired =
      >>=-Returns _ _ (apply_updates-Returns parse api s t u paired.0)
        (λ r _. after_catch-Returns r _ (λ s'. apply_all-Returns s' cache paired.1))

module _ {A : Type 0} (log10_floor : ℕ → ℕ) (sane : (px : ℕ) → log10_floor px ≤ 19)
    (parse : Text → Option ℕ) (api : QueueApi ℕ (InnerL4Order A)) where
  commit-Returns :
      (l : Listener api) (empty_additions : Bool)
      (r : OrderBookState api × Result ApplyError (Unit {0}))
      → Returns (commit log10_floor parse api l empty_additions r)
  commit-Returns l empty_additions (s, err e) = (_, refl)
  commit-Returns l false (s, ok _) = (_, refl)
  commit-Returns l true (s, ok _) =
      >>=-Returns _ _ (l2_snapshots-Returns log10_floor sane api _ true) (λ viewed _. (_, refl))

  replace-Returns :
      (l : Listener api) (empty_additions : Bool)
      (expected : List (Text × Snapshot (InnerL4Order A))) (height time : ℕ)
      (cache : List (Pair api))
      → AllPaired parse api cache
      → Returns (replace log10_floor parse api l empty_additions expected height time cache)
  replace-Returns l empty_additions expected height time cache paired =
      >>=-Returns _ _
        (apply_all-Returns parse api
          (state_from_snapshot api expected height time true l.ignore_spot) cache paired)
        (λ r _. commit-Returns l empty_additions r)

  after_validation-Returns :
      (l : Listener api) (state : OrderBookState api)
      (expected : List (Text × Snapshot (InnerL4Order A))) (height : ℕ) (cache : List (Pair api))
      (validated : Result Divergence SnapshotConsistency)
      → AllPaired parse api cache
      → Returns (after_validation log10_floor parse api l state expected height cache validated)
  after_validation-Returns l state expected height cache (ok equal) paired = (_, refl)
  after_validation-Returns l state expected height cache (ok empty_books_added) paired =
      replace-Returns l true expected height state.time cache paired
  after_validation-Returns l state expected height cache (err e) paired =
      replace-Returns
        (record l { stats = record (l.stats) { last_snapshot_reload_reason = some e } }) false
        expected height 0 cache paired

module _ {A : Type 0} ⦃e : Eq (InnerL4Order A)⦄ (log10_floor : ℕ → ℕ)
    (sane : (px : ℕ) → log10_floor px ≤ 19) (parse : Text → Option ℕ)
    (api : QueueApi ℕ (InnerL4Order A)) where
  compare-Returns :
      (l : Listener api) (expected : List (Text × Snapshot (InnerL4Order A))) (height : ℕ)
      (caught : CaughtUp api)
      → PairedLeft parse api caught
      → Returns (compare log10_floor parse api l expected height caught)
  compare-Returns l expected height snapshot_ahead paired = (_, refl)
  compare-Returns l expected height (failed x) paired = (_, refl)
  compare-Returns l expected height (reached state cache) paired =
      if-Returns (ltb height state.height) _ _ (λ h. (_, refl))
        (λ h.
          after_validation-Returns log10_floor sane parse api l state expected height cache
            (validate_snapshot_consistency (to_snapshots api state.order_book) expected
              l.ignore_spot)
            paired)

  reconcile_snapshot-Returns :
      (l : Listener api) (state live : Option (OrderBookState api))
      (expected : List (Text × Snapshot (InnerL4Order A))) (height : ℕ)
      (cache : Option (List (Pair api)))
      → IsDatedQueue l.order_status_cache.deque
      → Tracks api state live cache
      → Returns
          (reconcile_snapshot log10_floor parse api l state expected height (or_empty api cache))
  unfolding reconcile_snapshot
  reconcile_snapshot-Returns l none live expected height cache dated tracks =
      >>=-Returns _ _ (init_from_snapshot-Returns parse api l expected height dated)
        (λ l' _. (_, refl))
  reconcile_snapshot-Returns l (some state) none expected height cache dated tracks = absurd tracks
  reconcile_snapshot-Returns l (some state) (some b) expected height none dated tracks =
      absurd tracks
  reconcile_snapshot-Returns l (some state) (some b) expected height (some cache) dated chain =
      let (c, caught, left) =
        catch_up-CatchesUp parse api state height cache
          (Chain-AllPaired parse api state.height b.height cache chain) in
      rw caught (compare-Returns l expected height c left)

  pub finish_snapshot-Returns :
      (n : ℕ) (l : Listener api) (a : Attempt api)
      (expected : List (Text × Snapshot (InnerL4Order A))) (height ms : ℕ)
      → n + 1 < 2 ^ 64
      → IsSound api n (some a) l
      → Returns (finish_snapshot log10_floor parse api l a.epoch a.state expected height ms)
  unfolding finish_snapshot take_cache
  finish_snapshot-Returns n l a expected height ms few s =
      if-Returns (not (l.recovery_epoch == a.epoch)) _ _ (λ h. (_, refl))
        (λ h.
          >>=-Returns _ _
            (reconcile_snapshot-Returns (take_cache api l).0 a.state l.order_book_state expected
              height l.fetched_snapshot_cache s.dated
              (current log10_floor parse api n a l.recovery_epoch l.order_book_state
                l.fetched_snapshot_cache l.snapshot_cache_started few (ground arith) s.phase))
            (λ r _. (_, refl)))
