-- ===== src/Market/Cache.antt =====
-- The cache of L2 views, refreshed for the marked coins only, is the views of the books.
pub mod Coins
use order_book_server.Base.{
  ℕ, ◌%◌, ◌^◌, millis, ◌+◌, ◌≡◌, refl, sym, ap, subst, ◌∙◌, ◌⊎◌, inl, inr, arith, Bool, true, false,
  Option, none, some, List, [], ◌∷◌, ◌&&◌, ltb, leb, is_some, is_nil, none_inv, if◌then◌else◌,
  nat_eq, Map, map_insert, lookup, Bool-cases, Option-cases, All, ◌>>=◌,
}
use order_book_server.Base.Result.{Result, ok, err}
use order_book_server.Queue.{QueueApi}
use order_book_server.OrderBook.Types.{Text, text_eq, text_beq, InnerOrder}
use order_book_server.OrderBook.{OrderBook, Snapshot}
use order_book_server.Orders.{InnerL4Order, l4_order, NodeDataOrderDiff, NodeDataOrderStatus}
use order_book_server.Ingestion.Batches.{Batch}
use order_book_server.Market.{member, keys, OrderBooks, Views, views, refresh_from, from_snapshots}
use order_book_server.Market.State.{
  OrderBookState, ApplyError, order_map, apply_diffs, finish, apply_at, apply_updates, cached,
  compute_l2_snapshot, state_from_snapshot,
}
use order_book_server.Market.Frame.{apply_diffs-Tracks}
use order_book_server.Market.Frame.Books.{Tracks, Coherent}
use order_book_server.Market.Blocks.{unwound_inv}
use order_book_server.Market.Cache.Coins.{view_of, Refreshed, refresh_from-Refreshed}

module _ {A : Type 0} (log10_floor : ℕ → ℕ) (api : QueueApi ℕ (InnerL4Order A)) where
  -- The views of a coin that is not marked are those of its book, and a coin without a book has none.
  pub record CacheIsExact (s : OrderBookState api) : Type 0 where
    pub exact :
        (c : Text)
        → member c s.dirty_coins ≡ false
        → s.l2_cache c ≡ view_of log10_floor api (lookup c s.order_book)
    pub no_book : (c : Text) → is_some (lookup c s.order_book) ≡ false → s.l2_cache c ≡ none

  Tracks-CacheIsExact :
      (s s' : OrderBookState api) → Tracks api s s' → CacheIsExact s → CacheIsExact s'
  Tracks-CacheIsExact s s' t x = record {
    exact = λ c clean.
        ap (λ m. m c) t.same_cache
        ∙ (x.exact c (ground (arith, t.marks c))
            ∙ ap (view_of log10_floor api) (sym (t.unmarked c clean)));
    no_book = λ c gone. ap (λ m. m c) t.same_cache ∙ x.no_book c (ground (arith, t.none_lost c));
  }

  cached-CacheIsExact :
      (s s' : OrderBookState api) (cache : Map Text (Views api))
      (out : ℕ × ℕ × Map Text (Views api))
      → ((c : Text) → cache c ≡ view_of log10_floor api (lookup c s.order_book))
      → cached api s (some cache) ≡ some (out, s')
      → ((c : Text) → out.2 c ≡ view_of log10_floor api (lookup c s'.order_book))
        × (out.0 ≡ s.time)
        × (out.1 ≡ s.height)
        × CacheIsExact s'
        × (s'.order_book ≡ s.order_book)
  cached-CacheIsExact s s' cache out all ran =
      let shape : s' ≡ record s { l2_cache = cache; dirty_coins = [] } = ground arith in
      let given : out ≡ (s.time, s.height, cache) = ground arith in
      rw (shape, given)
        (
          all,
          refl,
          refl,
          record {
            exact = λ c clean. all c;
            no_book = λ c gone.
                all c ∙ ap (view_of log10_floor api) (none_inv (lookup c s.order_book) gone);
          },
          refl,
        )

  Refreshed-exact :
      (s : OrderBookState api) (cache : Map Text (Views api))
      → CacheIsExact s
      → Refreshed log10_floor api s.order_book s.dirty_coins s.l2_cache cache
      → (c : Text) → cache c ≡ view_of log10_floor api (lookup c s.order_book)
  Refreshed-exact s cache x fresh c = elim (Bool-cases (is_some (lookup c s.order_book))) [
    | inl there ↦ elim (Bool-cases (member c s.dirty_coins)) [
      | inl marked ↦ fresh c ∙ (rw (there, marked) refl)
      | inr clean ↦ fresh c ∙ ((rw (there, clean) refl) ∙ x.exact c clean)
    ]
    | inr gone ↦
        fresh c
        ∙ ((rw gone refl)
            ∙ (x.no_book c gone
                ∙ ap (view_of log10_floor api) (sym (none_inv (lookup c s.order_book) gone))))
  ]

  all_clean :
      (s : OrderBookState api)
      → CacheIsExact s
      → is_nil s.dirty_coins ≡ true
      → (c : Text) → s.l2_cache c ≡ view_of log10_floor api (lookup c s.order_book)
  all_clean s x nothing c = x.exact c (no_member s.dirty_coins nothing)
    where
      no_member : (ks : List Text) → is_nil ks ≡ true → member c ks ≡ false
      no_member [] empty = refl
      no_member (k ∷ ks) empty = cc

  -- The views given out are, for every coin, those of its book as it stands, at the state's time and
  -- height, though only marked coins are computed anew; and the cache is exact afterwards.
  pub compute_l2_snapshot-CacheIsExact :
      (s s' : OrderBookState api) (out : ℕ × ℕ × Map Text (Views api))
      → CacheIsExact s
      → compute_l2_snapshot log10_floor api s ≡ some (out, s')
      → ((c : Text) → out.2 c ≡ view_of log10_floor api (lookup c s'.order_book))
        × (out.0 ≡ s.time)
        × (out.1 ≡ s.height)
        × CacheIsExact s'
        × (s'.order_book ≡ s.order_book)
  unfolding compute_l2_snapshot
  compute_l2_snapshot-CacheIsExact s s' out x ran = elim (Bool-cases (is_nil s.dirty_coins)) [
    | inl nothing ↦ cached-CacheIsExact s s' s.l2_cache out (all_clean s x nothing) (
        ap
          (λ b. cached api s (
            if b
            then some s.l2_cache
            else refresh_from api log10_floor s.order_book s.dirty_coins s.l2_cache))
          (sym nothing)
        ∙ ran)
    | inr marked ↦
        let ran' =
          ap
            (λ b. cached api s (
              if b
              then some s.l2_cache
              else refresh_from api log10_floor s.order_book s.dirty_coins s.l2_cache))
            (sym marked)
          ∙ ran in
        elim (Option-cases (refresh_from api log10_floor s.order_book s.dirty_coins s.l2_cache)) [
          | inl panic ↦ ground arith
          | inr (cache, from) ↦
              cached-CacheIsExact s s' cache out
                (Refreshed-exact s cache x (
                  refresh_from-Refreshed log10_floor api s.order_book s.dirty_coins s.l2_cache cache
                    from))
                (ap (cached api s) (sym from) ∙ ran')
        ]
  ]

  member-keys :
      {V : Type 0} (c : Text) (es : List (Text × V)) → member c (keys es) ≡ is_some (lookup c es)
  member-keys c [] = refl
  member-keys c ((k, v) ∷ es) = elim (Bool-cases (text_beq k c)) [
    | inl same ↦ rw same refl
    | inr other ↦ rw other (member-keys c es)
  ]

  -- A state from a snapshot has every coin to compute.
  pub state_from_snapshot-CacheIsExact :
      (snapshot : List (Text × Snapshot (InnerL4Order A))) (height time : ℕ)
      (ignore_triggers ignore_spot : Bool)
      → CacheIsExact (state_from_snapshot api snapshot height time ignore_triggers ignore_spot)
  unfolding state_from_snapshot
  state_from_snapshot-CacheIsExact snapshot height time ignore_triggers ignore_spot =
      let books = from_snapshots api snapshot ignore_triggers in
      record {
        exact = λ c clean. sym (
            ap (view_of log10_floor api)
              (none_inv (lookup c books) (sym (member-keys c books) ∙ clean)));
        no_book = λ c gone. refl;
      }

module _ {A : Type 0} (parse : Text → Option ℕ) (log10_floor : ℕ → ℕ)
    (api : QueueApi ℕ (InnerL4Order A)) where
  finish-CacheIsExact :
      (time : ℕ) (applied : OrderBookState api × Result ApplyError (Unit {0}))
      → CacheIsExact log10_floor api applied.0
      → CacheIsExact log10_floor api (finish api time applied).0
  finish-CacheIsExact time (s, err e) x = x
  finish-CacheIsExact time (s, ok _) x = record { exact = x.exact; no_book = x.no_book }

  apply_at-CacheIsExact :
      (s s' : OrderBookState api) (statuses : Batch (NodeDataOrderStatus A))
      (diffs : Batch (NodeDataOrderDiff A)) (time : ℕ) (r : Result ApplyError (Unit {0}))
      → All (Coherent (order_map (λ _. none) statuses.events)) diffs.events
      → CacheIsExact log10_floor api s
      → apply_at parse api s statuses diffs time ≡ some (s', r)
      → CacheIsExact log10_floor api s'
  apply_at-CacheIsExact s s' statuses diffs time r coherent x ran =
      let height = statuses.block_number in
      let start = order_map (λ _. none) statuses.events in
      let applied = apply_diffs parse api s start diffs.events in
      elim (Bool-cases (ltb ((s.height + 1) % 2 ^ 64) height)) [
        | inl ahead ↦ subst (CacheIsExact log10_floor api) (ground arith) x
        | inr near ↦ elim (Bool-cases (leb height s.height)) [
          | inl old ↦ subst (CacheIsExact log10_floor api) (ground arith) x
          | inr new ↦
              let gives : finish api time applied ≡ (s', r) =
                unwound_inv parse api (finish api time applied) (s', r) (ground arith) in
              subst (CacheIsExact log10_floor api) (ap (λ t. t.0) gives) (
                finish-CacheIsExact time applied (
                  Tracks-CacheIsExact log10_floor api s applied.0
                    (apply_diffs-Tracks parse api s start diffs.events coherent) x))
        ]
      ]

  -- A block keeps the cache exact, whether it is applied, ignored, refused or fails half-way, where
  -- each diff is of the coin of the status with its oid.
  pub apply_updates-CacheIsExact :
      (s s' : OrderBookState api) (statuses : Batch (NodeDataOrderStatus A))
      (diffs : Batch (NodeDataOrderDiff A)) (r : Result ApplyError (Unit {0}))
      → All (Coherent (order_map (λ _. none) statuses.events)) diffs.events
      → CacheIsExact log10_floor api s
      → apply_updates parse api s statuses diffs ≡ some (s', r)
      → CacheIsExact log10_floor api s'
  unfolding apply_updates
  apply_updates-CacheIsExact s s' statuses diffs r coherent x ran =
      elim (Option-cases (millis statuses.block_time)) [
        | inl early ↦ absurd (ground arith)
        | inr (time, at) ↦
            apply_at-CacheIsExact s s' statuses diffs time r coherent x (ground arith)
      ]
