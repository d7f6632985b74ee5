-- ===== src/Listener/Lines/Dated.antt =====
-- What is read from files whose times are since 1970 has such times.
use order_book_server.Base.{
  ℕ, millis, ◌≡◌, subst, inl, inr, arith, Bool, true, false, Option, some, List, [], ◌∷◌, All,
  length, Returns, Bool-cases, Option-cases,
}
use order_book_server.OrderBook.Types.{Text}
use order_book_server.Orders.{NodeDataOrderStatus}
use order_book_server.Ingestion.Batches.{Batch, with_wire_bytes}
use order_book_server.Ingestion.Scoped.{
  EventSource, fills_source, order_statuses_source, order_diffs_source, RawBatch, keep, keep_events,
  scoped, parse_in_scope,
}
use order_book_server.Subscription.{CoinScope, in_scope}
use order_book_server.Market.Dated.{IsDated}
use order_book_server.Listener.{EventBatch, orders, book_diffs, fill_batch}
use order_book_server.Listener.Lines.{Decoders, parse_line}
use order_book_server.Listener.Pairs.Dated.{IsDatedEvent}

-- The blocks of statuses that the texts are read as, and their statuses, have times since 1970.
pub record IsDatedDecoders {A : Type 0} (decoders : Decoders A) : Type 0 where
  pub whole :
      (line : Text) (b : Batch (NodeDataOrderStatus A))
      → decoders.statuses.batch line ≡ some b
      → IsDated b
  pub raw_time :
      (line : Text) (b : RawBatch)
      → decoders.statuses.raw line ≡ some b
      → Returns (millis b.block_time)
  pub event_time :
      (text : Text) (s : NodeDataOrderStatus A)
      → decoders.statuses.event text ≡ some s
      → Returns (millis s.time)

module _ {A : Type 0} (decoders : Decoders A) ⦃laws : IsDatedDecoders decoders⦄ where
  keep-dated :
      (inside : Bool) (text : Text) (rest : Option (List (NodeDataOrderStatus A)))
      (events : List (NodeDataOrderStatus A))
      → ((es : List (NodeDataOrderStatus A))
          → rest ≡ some es
          → All (λ s. Returns (millis s.time)) es)
      → keep decoders.statuses inside text rest ≡ some events
      → All (λ s. Returns (millis s.time)) events
  keep-dated false text rest events all ran = all events ran
  keep-dated true text rest events all ran = elim (Option-cases (decoders.statuses.event text)) [
    | inl unreadable ↦ absurd (ground arith)
    | inr (s, read) ↦ elim (Option-cases rest) [
      | inl unreadable ↦ absurd (ground arith)
      | inr (es, others) ↦
          let same : s ∷ es ≡ events = ground arith in
          subst (λ t. All (λ s. Returns (millis s.time)) t) same
            (laws.event_time text s read, all es others)
    ]
  ]

  keep_events-dated :
      (scope : CoinScope) (texts : List Text) (events : List (NodeDataOrderStatus A))
      → keep_events decoders.statuses scope texts ≡ some events
      → All (λ s. Returns (millis s.time)) events
  keep_events-dated scope [] events ran =
      let same : [] ≡ events = cc in subst (λ t. All (λ s. Returns (millis s.time)) t) same tt
  keep_events-dated scope (text ∷ texts) events ran =
      elim (Option-cases (decoders.statuses.coin text)) [
        | inl unreadable ↦ absurd (ground arith)
        | inr (coin, read) ↦
            keep-dated (in_scope scope coin) text (keep_events decoders.statuses scope texts) events
              (λ es. keep_events-dated scope texts es) (ground arith)
      ]

  scoped-IsDated :
      (scope : CoinScope) (bytes : ℕ) (raw : RawBatch) (b : Batch (NodeDataOrderStatus A))
      → Returns (millis raw.block_time)
      → scoped decoders.statuses scope bytes raw ≡ some b
      → IsDated b
  scoped-IsDated scope bytes raw b at ran =
      elim (Option-cases (keep_events decoders.statuses scope raw.events)) [
        | inl unreadable ↦ absurd (ground arith)
        | inr (events, kept) ↦
            let built : Batch (NodeDataOrderStatus A) = record {
              local_time = raw.local_time;
              block_time = raw.block_time;
              block_number = raw.block_number;
              events = events;
              wire_bytes = bytes;
            } in
            let same : built ≡ b = ground arith in
            subst IsDated same (at, keep_events-dated scope raw.events events kept)
      ]

  parse_in_scope-IsDated :
      (scope : CoinScope) (line : Text) (b : Batch (NodeDataOrderStatus A))
      → parse_in_scope decoders.statuses scope line ≡ some b
      → IsDated b
  unfolding parse_in_scope
  parse_in_scope-IsDated scope line b ran = elim (Bool-cases scope.all) [
    | inl everything ↦ elim (Option-cases (decoders.statuses.batch line)) [
      | inl unreadable ↦ absurd (ground arith)
      | inr (whole, read) ↦
          let same : with_wire_bytes whole (length line) ≡ b = ground arith in
          let dated = laws.whole line whole read in subst IsDated same (dated.0, dated.1)
    ]
    | inr some_coins ↦ elim (Option-cases (decoders.statuses.raw line)) [
      | inl unreadable ↦ absurd (ground arith)
      | inr (raw, read) ↦
          scoped-IsDated scope (length line) raw b (laws.raw_time line raw read) (ground arith)
    ]
  ]

  pub parse_line-IsDatedEvent :
      (source : EventSource) (scope : CoinScope) (line : Text) (batch : EventBatch A)
      → parse_line decoders source scope line ≡ some batch
      → IsDatedEvent batch
  unfolding parse_line
  parse_line-IsDatedEvent fills_source scope line batch ran =
      elim (Option-cases (parse_in_scope decoders.fills scope line)) [
        | inl unreadable ↦ absurd (ground arith)
        | inr (b, read) ↦
            let same : fill_batch b ≡ batch = ground arith in subst IsDatedEvent same tt
      ]
  parse_line-IsDatedEvent order_diffs_source scope line batch ran =
      elim (Option-cases (parse_in_scope decoders.diffs scope line)) [
        | inl unreadable ↦ absurd (ground arith)
        | inr (b, read) ↦
            let same : book_diffs b ≡ batch = ground arith in subst IsDatedEvent same tt
      ]
  parse_line-IsDatedEvent order_statuses_source scope line batch ran =
      elim (Option-cases (parse_in_scope decoders.statuses scope line)) [
        | inl unreadable ↦ absurd (ground arith)
        | inr (b, read) ↦
            let same : orders b ≡ batch = ground arith in
            subst IsDatedEvent same (parse_in_scope-IsDated scope line b read)
      ]
