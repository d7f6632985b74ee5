-- ===== src/Listener/Reconcile.antt =====
-- `reconcile_snapshot` and `finish_snapshot` of server/src/listeners/order_book/mod.rs: the live state
-- is compared with a snapshot of the node at its height, and replaced where they differ.
pub mod Errors
pub mod Recovers
use order_book_server.Base.{
  ℕ, Bool, true, false, Option, none, some, List, ltb, ◌==◌, if◌then◌else◌, ◌>>=◌, not, Eq, nat_eq,
}
use order_book_server.Base.Result.{Result, ok, err}
use order_book_server.Queue.{QueueApi}
use order_book_server.OrderBook.Types.{Text}
use order_book_server.OrderBook.{Snapshot}
use order_book_server.Orders.{InnerL4Order, l4_order}
use order_book_server.Market.State.{OrderBookState, ApplyError, state_from_snapshot}
use order_book_server.Market.Consistency.{
  SnapshotConsistency, equal, empty_books_added, Divergence, validate_snapshot_consistency,
}
use order_book_server.Market.{to_snapshots}
use order_book_server.Listener.{Listener, Pair, gap, not_applied, Received, send, take_cache}
use order_book_server.Listener.Recovery.{
  increased, publish, l2_snapshots, init_from_snapshot, CaughtUp, reached, snapshot_ahead, failed,
  catch_up, apply_all,
}

module _ {A : Type 0} (log10_floor : ℕ → ℕ) (parse : Text → Option ℕ)
    (api : QueueApi ℕ (InnerL4Order A)) where
  -- A state that replaces the live one after empty books were added to it: the consumers go on.
  abbrev pub refreshed : Listener api → OrderBookState api → Option (Received api)
  refreshed l recovered =
      l2_snapshots api log10_floor
        (record l {
          order_book_state = some recovered;
          stats = record (l.stats) {
            empty_book_refreshes = increased l.stats.empty_book_refreshes;
          };
        })
        true
      >>= λ viewed. some (publish api viewed, ok tt)

  -- A state that replaces the live one after they diverged: the consumers start again.
  abbrev pub reloaded : Listener api → OrderBookState api → Received api
  reloaded l recovered = (
    send api
        (record l {
          order_book_state = some recovered;
          stats = record (l.stats) { snapshot_reloads = increased l.stats.snapshot_reloads };
        })
        gap,
    ok tt,
  )

  abbrev pub commit :
      Listener api
      → Bool
      → OrderBookState api × Result ApplyError (Unit {0})
      → Option (Received api)
  commit l empty_additions (recovered, err e) = some (l, err (not_applied e))
  commit l true (recovered, ok _) = refreshed l recovered
  commit l false (recovered, ok _) = some (reloaded l recovered)

  -- The snapshot, its height and time, and the pairs since.
  abbrev pub replace :
      Listener api
      → Bool
      → List (Text × Snapshot (InnerL4Order A))
      → ℕ
      → ℕ
      → List (Pair api)
      → Option (Received api)
  replace l empty_additions expected height time cache =
      apply_all api parse (state_from_snapshot api expected height time true l.ignore_spot) cache
      >>= λ r. commit l empty_additions r

  -- what follows the validation
  abbrev pub after_validation :
      Listener api
      → OrderBookState api
      → List (Text × Snapshot (InnerL4Order A))
      → ℕ
      → List (Pair api)
      → Result Divergence SnapshotConsistency
      → Option (Received api)
  after_validation l state expected height cache (ok equal) = some (l, ok tt)
  after_validation l state expected height cache (ok empty_books_added) =
      replace l true expected height state.time cache
  after_validation l state expected height cache (err e) =
      replace (record l { stats = record (l.stats) { last_snapshot_reload_reason = some e } }) false
        expected height 0 cache

module _ {A : Type 0} ⦃e : Eq (InnerL4Order A)⦄ (log10_floor : ℕ → ℕ) (parse : Text → Option ℕ)
    (api : QueueApi ℕ (InnerL4Order A)) where
  abbrev pub compare :
      Listener api
      → List (Text × Snapshot (InnerL4Order A))
      → ℕ
      → CaughtUp api
      → Option (Received api)
  compare l expected height snapshot_ahead = some (l, ok tt)
  compare l expected height (failed e) = some (l, err (not_applied e))
  compare l expected height (reached state cache) =
      let validated = after_validation log10_floor parse api l state expected height cache (
        validate_snapshot_consistency (to_snapshots api state.order_book) expected l.ignore_spot) in
      if ltb height state.height then some (l, ok tt) else validated

  unfoldable pub reconcile_snapshot :
      Listener api
      → Option (OrderBookState api)
      → List (Text × Snapshot (InnerL4Order A))
      → ℕ
      → List (Pair api)
      → Option (Received api)
  reconcile_snapshot l none expected height cache =
      init_from_snapshot api parse l expected height >>= λ l'. some (l', ok tt)
  reconcile_snapshot l (some state) expected height cache =
      catch_up api parse state height cache >>= λ caught. compare l expected height caught

  abbrev pub timed : ℕ → Received api → Received api
  timed ms (l, r) = (record l { stats = record (l.stats) { snapshot_reconcile_ms = ms } }, r)

  unfoldable pub finish_snapshot :
      Listener api
      → ℕ
      → Option (OrderBookState api)
      → List (Text × Snapshot (InnerL4Order A))
      → ℕ
      → ℕ
      → Option (Received api)
  unfolding reconcile_snapshot take_cache
  finish_snapshot l epoch state expected height ms =
      let reconciled =
        reconcile_snapshot (take_cache api l).0 state expected height (take_cache api l).1 >>= λ r.
        some (timed ms r) in
      if not (l.recovery_epoch == epoch) then some (l, ok tt) else reconciled
