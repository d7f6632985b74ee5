-- ===== src/Listener/Stream/Views.antt =====
-- A view that the listener publishes is of the block that the state has come to.
use order_book_server.Base.{
  ℕ, ◌≡◌, refl, sym, subst, inl, inr, arith, Bool, Option, none, some, List, [], nat_eq, Bool-cases,
  Option-cases, ◌>>=◌, Map, ◌||◌,
}
use order_book_server.Queue.{QueueApi}
use order_book_server.OrderBook.Types.{Text}
use order_book_server.Orders.{InnerL4Order, l4_order}
use order_book_server.Market.{Views, refresh_l2_snapshots}
use order_book_server.Market.State
use order_book_server.Market.State.{OrderBookState, cached}
use order_book_server.Listener.{Listener, Pair, snapshot}
use order_book_server.Listener.Recovery.{Viewed, publish, l2_snapshots}
use order_book_server.Listener.Fetch.{Attempt}
use order_book_server.Listener.Stream.{
  position, Chain, Tracks, SameAs, Phase, StandsAt, IsSound, send-IsSound,
}

module _ {A : Type 0} (log10_floor : ℕ → ℕ) (api : QueueApi ℕ (InnerL4Order A)) where
  abbrev pub ViewAt : ℕ → Option (ℕ × ℕ × Map Text (Views api)) → Type 0
  ViewAt h none = Unit
  ViewAt h (some (time, height, views)) = height ≡ h

  -- The view is of the height, and so is the state afterwards.
  abbrev pub AtHeight : ℕ → Option (ℕ × ℕ × Map Text (Views api)) × OrderBookState api → Type 0
  AtHeight h (view, s) = ViewAt h view × (s.height ≡ h)

  cached-AtHeight :
      (s : OrderBookState api) (cache : Option (Map Text (Views api)))
      (r : (ℕ × ℕ × Map Text (Views api)) × OrderBookState api)
      → cached api s cache ≡ some r
      → AtHeight s.height (some r.0, r.1)
  cached-AtHeight s none r ran = cc
  cached-AtHeight s (some cache) r ran =
      let same : ((s.time, s.height, cache), record s { l2_cache = cache; dirty_coins = [] }) ≡ r =
        cc in
      subst
        (λ (t : (ℕ × ℕ × Map Text (Views api)) × OrderBookState api).
          AtHeight s.height (some t.0, t.1))
        same (refl, refl)

  l2_snapshots-AtHeight :
      (s : OrderBookState api) (prevent : Bool)
      (r : Option (ℕ × ℕ × Map Text (Views api)) × OrderBookState api)
      → State.l2_snapshots log10_floor api s prevent ≡ some r
      → AtHeight s.height r
  unfolding State.l2_snapshots
  l2_snapshots-AtHeight s prevent r ran =
      let s' : OrderBookState api = record s { snapped = prevent || s.snapped } in
      elim (Bool-cases s.snapped) [
        | inl again ↦
            let same : (none, s) ≡ r = ground arith in subst (AtHeight s.height) same (tt, refl)
        | inr first ↦ elim (Option-cases (State.compute_l2_snapshot log10_floor api s')) [
          | inl panics ↦ absurd (ground arith)
          | inr (v, gives) ↦
              let same : (some v.0, v.1) ≡ r = ground arith in
              subst (AtHeight s.height) same (
                cached-AtHeight s'
                  (refresh_l2_snapshots api log10_floor s'.order_book s'.dirty_coins s'.l2_cache) v
                  gives)
        ]
      ]

module _ {A : Type 0} (log10_floor : ℕ → ℕ) (api : QueueApi ℕ (InnerL4Order A)) (n : ℕ)
    (a : Option (Attempt api)) where
  Phase-height :
      (a : Option (Attempt api)) (epoch : ℕ) (b b' : OrderBookState api)
      (cache : Option (List (Pair api))) (started : Option ℕ)
      → b'.height ≡ b.height
      → Phase api n a epoch (some b) cache started
      → Phase api n a epoch (some b') cache started
  Phase-height none epoch b b' cache started same phase = tt
  Phase-height (some a) epoch b b' cache started same (inr old) = inr old
  Phase-height (some a) epoch b b' cache started same (inl (moved, tracks)) =
      inl (moved, go a.state cache tracks)
    where
      go :
          (s : Option (OrderBookState api)) (cache : Option (List (Pair api)))
          → Tracks api s (some b) cache
          → Tracks api s (some b') cache
      go none cache tracks = tracks
      go (some s) none tracks = tracks
      go (some s) (some cache) chain = subst (Chain api s.height cache) (sym same) chain

  view_published :
      (l : Listener api) (b : OrderBookState api)
      (r : Option (ℕ × ℕ × Map Text (Views api)) × OrderBookState api)
      → l.order_book_state ≡ some b
      → AtHeight log10_floor api b.height r
      → IsSound api n a l
      → IsSound api n a (publish api (r.0, record l { order_book_state = some r.1 }))
  view_published l b (none, b') state (_, same) s = record {
    sends = s.sends;
    contiguous = s.contiguous;
    stands = subst (SameAs (position none l.sent)) (sym same) (
        subst (λ (t : Option (OrderBookState api)). StandsAt api t (position none l.sent)) state
          s.stands);
    bounded = s.bounded;
    dated = s.dated;
    phase =
        Phase-height a l.recovery_epoch b b' l.fetched_snapshot_cache l.snapshot_cache_started same
          (subst
            (λ (t : Option (OrderBookState api)).
              Phase api n a l.recovery_epoch t l.fetched_snapshot_cache l.snapshot_cache_started)
            state s.phase);
  }
  view_published l b (some (time, height, views), b') state (at, same) s =
      send-IsSound api n a (record l { order_book_state = some b' }) (snapshot views time height)
        s.sends s.contiguous
        (subst (SameAs (position none l.sent)) (sym at) (
          subst (λ (t : Option (OrderBookState api)). StandsAt api t (position none l.sent)) state
            s.stands))
        (omega (arith, at, same)) s.bounded
        (Phase-height a l.recovery_epoch b b' l.fetched_snapshot_cache l.snapshot_cache_started same
          (subst
            (λ (t : Option (OrderBookState api)).
              Phase api n a l.recovery_epoch t l.fetched_snapshot_cache l.snapshot_cache_started)
            state s.phase))
        s.dated

  published :
      (l : Listener api) (state : Option (OrderBookState api)) (prevent : Bool)
      (viewed : Viewed api)
      → l.order_book_state ≡ state
      → IsSound api n a l
      → (elim state [
        | none ↦ some (none, l)
        | some book ↦ State.l2_snapshots log10_floor api book prevent >>= λ r.
            some (r.0, record l { order_book_state = some r.1 })
      ])
        ≡ some viewed
      → IsSound api n a (publish api viewed)
  published l none prevent viewed is_state s ran =
      let same : (none, l) ≡ viewed = cc in
      subst (λ (t : Viewed api). IsSound api n a (publish api t)) same s
  published l (some b) prevent viewed is_state s ran =
      elim (Option-cases (State.l2_snapshots log10_floor api b prevent)) [
        | inl panics ↦ absurd (ground arith)
        | inr (r, gives) ↦
            let same : (r.0, record l { order_book_state = some r.1 }) ≡ viewed = ground arith in
            subst (λ (t : Viewed api). IsSound api n a (publish api t)) same
              (view_published l b r is_state
                (l2_snapshots-AtHeight log10_floor api b prevent r gives) s)
      ]

  pub publish-IsSound :
      (l : Listener api) (prevent : Bool) (viewed : Viewed api)
      → IsSound api n a l
      → l2_snapshots api log10_floor l prevent ≡ some viewed
      → IsSound api n a (publish api viewed)
  unfolding l2_snapshots
  publish-IsSound l prevent viewed s ran = published l l.order_book_state prevent viewed refl s ran
