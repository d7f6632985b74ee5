-- ===== src/Listener/Reconcile/Errors.antt =====
-- What a reconciliation that fails, or that is of an attempt that was given up, leaves of the listener.
use order_book_server.Base.{
  ℕ, ◌≡◌, ◌≢◌, refl, sym, subst, inl, inr, arith, Bool, true, false, Option, none, some, List, ltb,
  ◌==◌, Bool-cases, Option-cases, Eq, nat_eq,
}
use order_book_server.Base.Result.{Result, ok, err}
use order_book_server.Queue.{QueueApi}
use order_book_server.OrderBook.Types.{Text}
use order_book_server.OrderBook.{Snapshot}
use order_book_server.Orders.{InnerL4Order, l4_order}
use order_book_server.Market.{to_snapshots}
use order_book_server.Market.State.{OrderBookState, ApplyError, state_from_snapshot}
use order_book_server.Market.Consistency.{
  SnapshotConsistency, equal, empty_books_added, Divergence, validate_snapshot_consistency,
}
use order_book_server.Listener.{Listener, Pair, not_applied, Received, take_cache}
use order_book_server.Listener.Recovery.{
  l2_snapshots, publish, increased, init_from_snapshot, CaughtUp, reached, snapshot_ahead, failed,
  catch_up, apply_all,
}
use order_book_server.Listener.Reconcile.{
  reloaded, commit, replace, after_validation, compare, reconcile_snapshot, timed, finish_snapshot,
}

module _ {A : Type 0} (api : QueueApi ℕ (InnerL4Order A)) where
  -- The live state, the queues, the epoch and what was sent are the same.
  pub record IsUntouched (before after : Listener api) : Type 0 where
    pub state : after.order_book_state ≡ before.order_book_state
    pub statuses : after.order_status_cache ≡ before.order_status_cache
    pub diffs : after.order_diff_cache ≡ before.order_diff_cache
    pub epoch : after.recovery_epoch ≡ before.recovery_epoch
    pub sent : after.sent ≡ before.sent

  abbrev pub UntouchedOnError : Listener api → Received api → Type 0
  UntouchedOnError l (l', err e) = IsUntouched l l'
  UntouchedOnError l (l', ok _) = Unit

module _ {A : Type 0} ⦃e : Eq (InnerL4Order A)⦄ (log10_floor : ℕ → ℕ) (parse : Text → Option ℕ)
    (api : QueueApi ℕ (InnerL4Order A)) where
  commit-Untouched :
      (before l : Listener api) (adds : Bool)
      (r : OrderBookState api × Result ApplyError (Unit {0})) (out : Received api)
      → IsUntouched api before l
      → commit log10_floor parse api l adds r ≡ some out
      → UntouchedOnError api before out
  commit-Untouched before l adds (s, err e) out same_so_far ran =
      let same : (l, err (not_applied e)) ≡ out = cc in
      subst (UntouchedOnError api before) same same_so_far
  commit-Untouched before l false (s, ok _) out same_so_far ran =
      let same : reloaded log10_floor parse api l s ≡ out = cc in
      subst (UntouchedOnError api before) same tt
  commit-Untouched before l true (s, ok _) out same_so_far ran =
      let l' : Listener api = record l {
        order_book_state = some s;
        stats = record (l.stats) { empty_book_refreshes = increased l.stats.empty_book_refreshes };
      } in
      elim (Option-cases (l2_snapshots api log10_floor l' true)) [
        | inl panics ↦ absurd (ground arith)
        | inr (viewed, gives) ↦
            let same : (publish api viewed, ok tt) ≡ out = ground arith in
            subst (UntouchedOnError api before) same tt
      ]

  replace-Untouched :
      (before l : Listener api) (adds : Bool) (expected : List (Text × Snapshot (InnerL4Order A)))
      (height time : ℕ) (cache : List (Pair api)) (out : Received api)
      → IsUntouched api before l
      → replace log10_floor parse api l adds expected height time cache ≡ some out
      → UntouchedOnError api before out
  replace-Untouched before l adds expected height time cache out same_so_far ran =
      let fresh = state_from_snapshot api expected height time true l.ignore_spot in
      elim (Option-cases (apply_all api parse fresh cache)) [
        | inl panics ↦ absurd (ground arith)
        | inr (r, gives) ↦ commit-Untouched before l adds r out same_so_far (ground arith)
      ]

  after_validation-Untouched :
      (before l : Listener api) (s : OrderBookState api)
      (expected : List (Text × Snapshot (InnerL4Order A))) (height : ℕ) (cache : List (Pair api))
      (v : Result Divergence SnapshotConsistency) (out : Received api)
      → IsUntouched api before l
      → after_validation log10_floor parse api l s expected height cache v ≡ some out
      → UntouchedOnError api before out
  after_validation-Untouched before l s expected height cache (ok equal) out same_so_far ran =
      let same : (l, ok tt) ≡ out = cc in subst (UntouchedOnError api before) same tt
  after_validation-Untouched before l s expected height cache (ok empty_books_added) out same_so_far
        ran =
      replace-Untouched before l true expected height s.time cache out same_so_far ran
  after_validation-Untouched before l s expected height cache (err e) out same_so_far ran =
      replace-Untouched before
        (record l { stats = record (l.stats) { last_snapshot_reload_reason = some e } }) false
        expected height 0 cache out
        (record {
          state = same_so_far.state;
          statuses = same_so_far.statuses;
          diffs = same_so_far.diffs;
          epoch = same_so_far.epoch;
          sent = same_so_far.sent;
        })
        ran

  compare-Untouched :
      (before l : Listener api) (expected : List (Text × Snapshot (InnerL4Order A))) (height : ℕ)
      (caught : CaughtUp api) (out : Received api)
      → IsUntouched api before l
      → compare log10_floor parse api l expected height caught ≡ some out
      → UntouchedOnError api before out
  compare-Untouched before l expected height snapshot_ahead out same_so_far ran =
      let same : (l, ok tt) ≡ out = cc in subst (UntouchedOnError api before) same tt
  compare-Untouched before l expected height (failed e) out same_so_far ran =
      let same : (l, err (not_applied e)) ≡ out = cc in
      subst (UntouchedOnError api before) same same_so_far
  compare-Untouched before l expected height (reached s cache) out same_so_far ran =
      elim (Bool-cases (ltb height s.height)) [
        | inl later ↦
            let same : (l, ok tt) ≡ out = ground arith in
            subst (UntouchedOnError api before) same tt
        | inr level ↦
            after_validation-Untouched before l s expected height cache
              (validate_snapshot_consistency (to_snapshots api s.order_book) expected l.ignore_spot)
              out same_so_far (ground arith)
      ]

  reconcile_snapshot-Untouched :
      (before l : Listener api) (state : Option (OrderBookState api))
      (expected : List (Text × Snapshot (InnerL4Order A))) (height : ℕ) (cache : List (Pair api))
      (out : Received api)
      → IsUntouched api before l
      → reconcile_snapshot log10_floor parse api l state expected height cache ≡ some out
      → UntouchedOnError api before out
  unfolding reconcile_snapshot
  reconcile_snapshot-Untouched before l none expected height cache out same_so_far ran =
      elim (Option-cases (init_from_snapshot api parse l expected height)) [
        | inl panics ↦ absurd (ground arith)
        | inr (l', gives) ↦
            let same : (l', ok tt) ≡ out = ground arith in
            subst (UntouchedOnError api before) same tt
      ]
  reconcile_snapshot-Untouched before l (some s) expected height cache out same_so_far ran =
      elim (Option-cases (catch_up api parse s height cache)) [
        | inl panics ↦ absurd (ground arith)
        | inr (caught, gives) ↦
            compare-Untouched before l expected height caught out same_so_far (ground arith)
      ]

  timed-Untouched :
      (before : Listener api) (ms : ℕ) (r : Received api)
      → UntouchedOnError api before r
      → UntouchedOnError api before (timed log10_floor parse api ms r)
  timed-Untouched before ms (l, err e) u = record {
    state = u.state;
    statuses = u.statuses;
    diffs = u.diffs;
    epoch = u.epoch;
    sent = u.sent;
  }
  timed-Untouched before ms (l, ok _) u = tt

  -- A snapshot that comes back to an attempt that was given up changes nothing and is no error. One of
  -- the attempt under way that fails leaves the live state, the queues, the epoch and what was sent as
  -- they were: the blocks applied to copies are not seen.
  pub finish_snapshot-Untouched :
      (l : Listener api) (epoch : ℕ) (state : Option (OrderBookState api))
      (expected : List (Text × Snapshot (InnerL4Order A))) (height ms : ℕ) (out : Received api)
      → finish_snapshot log10_floor parse api l epoch state expected height ms ≡ some out
      → ((l.recovery_epoch ≢ epoch → out ≡ (l, ok tt)) × UntouchedOnError api l out)
  unfolding finish_snapshot take_cache
  finish_snapshot-Untouched l epoch state expected height ms out ran =
      let l' = (take_cache api l).0 in
      let cache = (take_cache api l).1 in
      elim (Bool-cases (l.recovery_epoch == epoch)) [
        | inr stale ↦
            let same : (l, ok tt) ≡ out = ground arith in
            (λ other. sym same, subst (UntouchedOnError api l) same tt)
        | inl under_way ↦
            elim (Option-cases
              (reconcile_snapshot log10_floor parse api l' state expected height cache)) [
                | inl panics ↦ absurd (ground arith)
                | inr (r, gives) ↦
                    let same : timed log10_floor parse api ms r ≡ out = ground arith in
                    (
                      λ other. absurd (ground arith),
                      subst (UntouchedOnError api l) same (
                          timed-Untouched l ms r (
                            reconcile_snapshot-Untouched l l' state expected height cache r
                              (record {
                                state = refl;
                                statuses = refl;
                                diffs = refl;
                                epoch = refl;
                                sent = refl;
                              })
                              gives)),
                    )
              ]
      ]
