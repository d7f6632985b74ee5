-- ===== src/Listener/Stream/Committed.antt =====
-- A snapshot that is compared with the state keeps the stream contiguous: a state that replaces the
-- live one without a gap stands at the same block.
pub mod Replaced
use order_book_server.Base.{
  ℕ, ◌+◌, ◌^◌, ◌<◌, ◌≡◌, refl, sym, ap, subst, ◌∙◌, inl, inr, arith, Bool, true, false, Option,
  none, some, List, if◌then◌else◌, ltb, ◌==◌, nat_eq, Bool-cases, Option-cases, ◌>>=◌, Eq,
}
use order_book_server.Base.Result.{Result, ok, err}
use order_book_server.Queue.{QueueApi}
use order_book_server.OrderBook.Types.{Text}
use order_book_server.OrderBook.{Snapshot}
use order_book_server.Orders.{InnerL4Order, l4_order}
use order_book_server.Market.{to_snapshots}
use order_book_server.Market.State.{OrderBookState, ApplyError, state_from_snapshot}
use order_book_server.Market.Consistency.{
  SnapshotConsistency, equal, empty_books_added, Divergence, validate_snapshot_consistency,
}
use order_book_server.Listener.{
  Listener, Pair, gap, not_applied, Received, send, enough, take_cache, or_empty,
}
use order_book_server.Listener.Recovery.{
  publish, l2_snapshots, replay, after_init, init_from_snapshot, CaughtUp, reached, snapshot_ahead,
  failed, catch_up, apply_all, increased,
}
use order_book_server.Listener.Reconcile.{
  commit, replace, after_validation, compare, reconcile_snapshot, timed, finish_snapshot,
}
use order_book_server.Listener.Fetch.{Attempt}
use order_book_server.Listener.Stream.{
  position, SameAs, Chain, Tracks, PhaseOf, StandsAt, IsSound, send-IsSound,
}
use order_book_server.Listener.Stream.Views.{publish-IsSound}
use order_book_server.Listener.Stream.Recovered.{
  LeftTo, catch_up-LeftTo, ComesTo, apply_all-ComesTo, IsIdle, replay-IsIdle,
}
use order_book_server.Listener.Stream.Committed.Replaced.{
  Settled, let_go, StoodAt, after_validation-Settled,
}

module _ {A : Type 0} ⦃e : Eq (InnerL4Order A)⦄ (log10_floor : ℕ → ℕ) (parse : Text → Option ℕ)
    (api : QueueApi ℕ (InnerL4Order A)) (n : ℕ) where
  compare-Settled :
      (l : Listener api) (g : ℕ) (expected : List (Text × Snapshot (InnerL4Order A))) (height : ℕ)
      (caught : CaughtUp api) (r : Received api)
      → StoodAt log10_floor parse api n g l
      → LeftTo parse api height g caught
      → compare log10_floor parse api l expected height caught ≡ some r
      → Settled api n r
  compare-Settled l g expected height snapshot_ahead r s left ran =
      let same : (l, ok tt) ≡ r = cc in subst (Settled api n) same s.sound
  compare-Settled l g expected height (failed x) r s left ran =
      let same : (l, err (not_applied x)) ≡ r = cc in subst (Settled api n) same s.sound
  compare-Settled l g expected height (reached state cache) r s left ran =
      let validated =
        validate_snapshot_consistency (to_snapshots api state.order_book) expected l.ignore_spot in
      elim (Bool-cases (ltb height state.height)) [
        | inl lags ↦ let same : (l, ok tt) ≡ r = ground arith in subst (Settled api n) same s.sound
        | inr meets ↦
            let level : state.height ≡ height = ground arith in
            after_validation-Settled log10_floor parse api n l g state expected height cache
              validated r s (subst (λ h. Chain api h cache g) level left.1)
              (sym (
                  ap
                    (λ b.
                      if b
                      then some (l, ok tt)
                      else after_validation log10_floor parse api l state expected height cache
                          validated)
                    meets)
                ∙ ran)
      ]

  after_init-IsSound :
      (out : Listener api × OrderBookState api × Bool)
      → IsIdle parse api n out.0
      → IsSound api n none (after_init api out)
  after_init-IsSound (l, b, true) idle = idle.0
  after_init-IsSound (l, b, false) (sound, off) =
      let at_start : position none l.sent ≡ none =
        subst (λ (t : Option (OrderBookState api)). StandsAt api t (position none l.sent)) off
          sound.stands in
      record {
        sends = sound.sends;
        contiguous = sound.contiguous;
        stands = subst (λ p. SameAs p b.height) (sym at_start) tt;
        bounded = sound.bounded;
        dated = sound.dated;
        phase = tt;
      }

  init_from_snapshot-IsSound :
      (l l' : Listener api) (expected : List (Text × Snapshot (InnerL4Order A))) (height : ℕ)
      → IsIdle parse api n l
      → init_from_snapshot api parse l expected height ≡ some l'
      → IsSound api n none l'
  unfolding init_from_snapshot
  init_from_snapshot-IsSound l l' expected height idle ran =
      let fuel = enough l.order_status_cache l.order_diff_cache in
      let fresh = state_from_snapshot api expected height 0 true l.ignore_spot in
      elim (Option-cases (replay api parse fuel l fresh)) [
        | inl panics ↦ absurd (ground arith)
        | inr (out, gives) ↦
            let same : after_init api out ≡ l' = ground arith in
            subst (IsSound api n none) same
              (after_init-IsSound out (replay-IsIdle parse api n fuel l fresh out idle gives))
      ]

  reconcile_snapshot-Settled :
      (l : Listener api) (state live : Option (OrderBookState api))
      (expected : List (Text × Snapshot (InnerL4Order A))) (height : ℕ)
      (cache : Option (List (Pair api))) (r : Received api)
      → IsSound api n none l
      → l.order_book_state ≡ live
      → Tracks api state live cache
      → reconcile_snapshot log10_floor parse api l state expected height (or_empty api cache)
        ≡ some r
      → Settled api n r
  unfolding reconcile_snapshot
  reconcile_snapshot-Settled l none none expected height cache r s is_live tracks ran =
      elim (Option-cases (init_from_snapshot api parse l expected height)) [
        | inl panics ↦ absurd (ground arith)
        | inr (l', gives) ↦
            let same : (l', ok tt) ≡ r = ground arith in
            subst (Settled api n) same
              (init_from_snapshot-IsSound l l' expected height (s, is_live) gives)
      ]
  reconcile_snapshot-Settled l none (some b) expected height cache r s is_live tracks ran =
      absurd tracks
  reconcile_snapshot-Settled l (some state) none expected height cache r s is_live tracks ran =
      absurd tracks
  reconcile_snapshot-Settled l (some state) (some b) expected height none r s is_live tracks ran =
      absurd tracks
  reconcile_snapshot-Settled l (some state) (some b) expected height (some cache) r s is_live chain
        ran =
      elim (Option-cases (catch_up api parse state height cache)) [
        | inl panics ↦ absurd (ground arith)
        | inr (caught, gives) ↦
            compare-Settled l b.height expected height caught r
              (record {
                sound = s;
                at =
                    subst
                      (λ (t : Option (OrderBookState api)). StandsAt api t (position none l.sent))
                      is_live s.stands;
              })
              (catch_up-LeftTo parse api state height b.height cache caught chain gives)
              (sym (
                  ap
                    (λ (t : Option (CaughtUp api)).
                      t >>= λ c. compare log10_floor parse api l expected height c)
                    gives)
                ∙ ran)
      ]

  timed-Settled :
      (ms : ℕ) (r : Received api)
      → Settled api n r
      → Settled api n (timed log10_floor parse api ms r)
  timed-Settled ms (l, ok _) s = record {
    sends = s.sends;
    contiguous = s.contiguous;
    stands = s.stands;
    bounded = s.bounded;
    dated = s.dated;
    phase = tt;
  }
  timed-Settled ms (l, err x) s = record {
    sends = s.sends;
    contiguous = s.contiguous;
    stands = s.stands;
    bounded = s.bounded;
    dated = s.dated;
    phase = tt;
  }

  -- An attempt that is taken to be of the epoch tracks the state, while epochs have not come round.
  pub current :
      (a : Attempt api) (epoch : ℕ) (state : Option (OrderBookState api))
      (cache : Option (List (Pair api))) (started : Option ℕ)
      → n + 1 < 2 ^ 64
      → (epoch == a.epoch) ≡ true
      → PhaseOf api n a epoch state cache started
      → Tracks api a.state state cache
  current a epoch state cache started few same (inl (moved, tracks)) = tracks
  current a epoch state cache started few same (inr (k, pos, low, moved, _, _)) =
      let is : epoch ≡ a.epoch = ground arith in absurd (omega (arith, is, moved.0, moved.1))

  pub finish_snapshot-Settled :
      (l : Listener api) (a : Attempt api) (expected : List (Text × Snapshot (InnerL4Order A)))
      (height ms : ℕ) (r : Received api)
      → n + 1 < 2 ^ 64
      → IsSound api n (some a) l
      → finish_snapshot log10_floor parse api l a.epoch a.state expected height ms ≡ some r
      → Settled api n r
  unfolding finish_snapshot take_cache
  finish_snapshot-Settled l a expected height ms r few s ran =
      let l' = (take_cache api l).0 in
      let cache = or_empty api l.fetched_snapshot_cache in
      let reconciled = reconcile_snapshot log10_floor parse api l' a.state expected height cache in
      elim (Bool-cases (l.recovery_epoch == a.epoch)) [
        | inr stale ↦
            let same : (l, ok tt) ≡ r = ground arith in
            subst (Settled api n) same (let_go log10_floor parse api n (some a) l s)
        | inl fresh ↦ elim (Option-cases reconciled) [
          | inl panics ↦ absurd (ground arith)
          | inr (done, gives) ↦
              let same : timed log10_floor parse api ms done ≡ r = ground arith in
              subst (Settled api n) same (
                timed-Settled ms done (
                  reconcile_snapshot-Settled l' a.state l.order_book_state expected height
                    l.fetched_snapshot_cache done
                    (record {
                      sends = s.sends;
                      contiguous = s.contiguous;
                      stands = s.stands;
                      bounded = s.bounded;
                      dated = s.dated;
                      phase = tt;
                    })
                    refl
                    (current a l.recovery_epoch l.order_book_state l.fetched_snapshot_cache
                      l.snapshot_cache_started few fresh s.phase)
                    gives))
        ]
      ]
