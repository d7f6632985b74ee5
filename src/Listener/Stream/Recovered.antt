-- ===== src/Listener/Stream/Recovered.antt =====
-- The loops of a reconciliation over the cached pairs, and of a start over the queues.
use order_book_server.Base.{
  ℕ, zero, suc, ◌+◌, ◌≤◌, ◌≡◌, sym, ap, subst, ◌∙◌, inl, inr, arith, true, false, Option, none,
  some, List, [], ◌∷◌, ltb, nat_eq, Bool-cases, Option-cases, ◌>>=◌,
}
use order_book_server.Base.Result.{Result, ok, err}
use order_book_server.Queue.{QueueApi}
use order_book_server.OrderBook.Types.{Text}
use order_book_server.Orders.{InnerL4Order, l4_order}
use order_book_server.Market.State.{OrderBookState, ApplyError, apply_updates}
use order_book_server.Market.Blocks.{Applied, apply_updates-Applied}
use order_book_server.Listener.{Listener, Pair, next_pair, enough, pop_cache}
use order_book_server.Listener.Recovery.{
  Replayed, after_replay, replay_pair, replay, CaughtUp, reached, snapshot_ahead, failed, catch_up,
  apply_all,
}
use order_book_server.Listener.Pairs.Dated.{pop_cache-IsPairOf}
use order_book_server.Listener.Stream.{Chain, IsSound}
use order_book_server.Listener.Stream.Receive.{take_pair-IsSound}

module _ {A : Type 0} (parse : Text → Option ℕ) (api : QueueApi ℕ (InnerL4Order A)) where
  -- The next block moves a state to its height.
  next_height :
      (s s' : OrderBookState api) (pair : Pair api)
      → pair.0.block_number ≡ s.height + 1
      → apply_updates parse api s pair.0 pair.1 ≡ some (s', ok tt)
      → s'.height ≡ pair.0.block_number
  next_height s s' (t, u) next ran = go (apply_updates-Applied parse api s s' t u (ok tt) ran)
    where
      go : Applied parse api s t s' (ok tt) → s'.height ≡ t.block_number
      go (inl (_, _, refused)) = cc
      go (inr (inl (old, _, _))) = absurd (omega arith)
      go (inr (inr (_, inr (e, fails, _)))) = cc
      go (inr (inr (_, inl (_, now, _, _)))) = now

  -- What a loop over the cache leaves to do, up to the height `g`.
  abbrev pub LeftTo : ℕ → ℕ → CaughtUp api → Type 0
  LeftTo height g (reached s cache) = (height ≤ s.height) × Chain api s.height cache g
  LeftTo height g snapshot_ahead = Unit
  LeftTo height g (failed e) = Unit

  pub catch_up-LeftTo :
      (s : OrderBookState api) (height g : ℕ) (cache : List (Pair api)) (c : CaughtUp api)
      → Chain api s.height cache g
      → catch_up api parse s height cache ≡ some c
      → LeftTo height g c
  unfolding catch_up
  catch_up-LeftTo s height g [] c chain ran = elim (Bool-cases (ltb s.height height)) [
    | inl below ↦ let same : snapshot_ahead ≡ c = ground arith in subst (LeftTo height g) same tt
    | inr up ↦
        let same : reached s [] ≡ c = ground arith in
        subst (LeftTo height g) same (ground arith, chain)
  ]
  catch_up-LeftTo s height g ((t, u) ∷ cache) c chain ran =
      elim (Bool-cases (ltb s.height height)) [
        | inr up ↦
            let same : reached s ((t, u) ∷ cache) ≡ c = ground arith in
            subst (LeftTo height g) same (ground arith, chain)
        | inl below ↦ elim (Option-cases (apply_updates parse api s t u)) [
          | inl panics ↦ absurd (ground arith)
          | inr ((s', err e), gives) ↦
              let same : failed e ≡ c = ground arith in subst (LeftTo height g) same tt
          | inr ((s', ok _), gives) ↦
              let now = next_height s s' (t, u) chain.0 gives in
              catch_up-LeftTo s' height g cache c
                (subst (λ h. Chain api h cache g) (sym now) chain.2) (ground arith)
        ]
      ]

  -- The state after a loop over the cache has come to the height `g`, if no block failed.
  abbrev pub ComesTo : ℕ → OrderBookState api × Result ApplyError (Unit {0}) → Type 0
  ComesTo g (s, err e) = Unit
  ComesTo g (s, ok _) = g ≡ s.height

  pub apply_all-ComesTo :
      (s : OrderBookState api) (g : ℕ) (cache : List (Pair api))
      (r : OrderBookState api × Result ApplyError (Unit {0}))
      → Chain api s.height cache g
      → apply_all api parse s cache ≡ some r
      → ComesTo g r
  unfolding apply_all
  apply_all-ComesTo s g [] r chain ran =
      let same : (s, ok tt) ≡ r = cc in subst (ComesTo g) same chain
  apply_all-ComesTo s g ((t, u) ∷ cache) r chain ran =
      elim (Option-cases (apply_updates parse api s t u)) [
        | inl panics ↦ absurd (ground arith)
        | inr ((s', err e), gives) ↦
            let same : (s', err e) ≡ r = ground arith in subst (ComesTo g) same tt
        | inr ((s', ok _), gives) ↦
            let now = next_height s s' (t, u) chain.0 gives in
            apply_all-ComesTo s' g cache r (subst (λ h. Chain api h cache g) (sym now) chain.2)
              (ground arith)
      ]

  -- A start from a snapshot sends nothing.
  abbrev pub IsIdle : ℕ → Listener api → Type 0
  IsIdle n l = IsSound api n none l × (l.order_book_state ≡ none)

  after_replay-IsIdle :
      (n : ℕ) (l : Listener api) (r : OrderBookState api × Result ApplyError (Unit {0}))
      (next : OrderBookState api → Option (Replayed api)) (out : Replayed api)
      → IsIdle n l
      → ((b : OrderBookState api) → next b ≡ some out → IsIdle n out.0)
      → after_replay api l r next ≡ some out
      → IsIdle n out.0
  after_replay-IsIdle n l (b, err e) next out idle on ran =
      let same : (l, b, true) ≡ out = cc in subst (λ (t : Replayed api). IsIdle n t.0) same idle
  after_replay-IsIdle n l (b, ok _) next out idle on ran = on b ran

  replay_pair-IsIdle :
      (n : ℕ) (taken : Listener api × Option (Pair api)) (b : OrderBookState api)
      (next : Listener api → OrderBookState api → Option (Replayed api)) (out : Replayed api)
      → IsIdle n taken.0
      → ((l : Listener api) (b : OrderBookState api)
          → IsIdle n l
          → next l b ≡ some out
          → IsIdle n out.0)
      → replay_pair api parse taken b next ≡ some out
      → IsIdle n out.0
  replay_pair-IsIdle n (l, none) b next out idle on ran =
      let same : (l, b, false) ≡ out = cc in subst (λ (t : Replayed api). IsIdle n t.0) same idle
  replay_pair-IsIdle n (l, some (t, u)) b next out idle on ran =
      elim (Option-cases (apply_updates parse api b t u)) [
        | inl panics ↦ absurd (ground arith)
        | inr (r, gives) ↦
            after_replay-IsIdle n l r (next l) out idle (λ b'. on l b' idle)
              (sym (
                  ap
                    (λ (t : Option (OrderBookState api × Result ApplyError (Unit {0}))).
                      t >>= λ r. after_replay api l r (next l))
                    gives)
                ∙ ran)
      ]

  pub replay-IsIdle :
      (n fuel : ℕ) (l : Listener api) (b : OrderBookState api) (out : Replayed api)
      → IsIdle n l
      → replay api parse fuel l b ≡ some out
      → IsIdle n out.0
  unfolding replay
  replay-IsIdle n zero l b out idle ran = cc
  replay-IsIdle n (suc fuel) l b out idle ran =
      let popped =
        pop_cache (enough l.order_status_cache l.order_diff_cache) l.order_status_cache
          l.order_diff_cache in
      replay_pair-IsIdle n (next_pair api l) b (λ l' b'. replay api parse fuel l' b') out
        (
          take_pair-IsSound parse api n none l popped
              (pop_cache-IsPairOf l.order_status_cache l.order_diff_cache idle.0.dated).1 idle.0,
          idle.1,
        )
        (λ l' b' idle' ran'. replay-IsIdle n fuel l' b' out idle' ran') ran
