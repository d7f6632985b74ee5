-- ===== src/Listener/Total/Records.antt =====
-- The records of a file are processed without a panic.
use order_book_server.Base.{
  ℕ, suc, ◌≡◌, ◌≤◌, refl, true, Option, none, some, List, [], ◌∷◌, not, is_nil, nat_eq, Returns,
  >>=-Returns, if-Returns, ◌||◌, Bool, ◌>>=◌,
}
use order_book_server.Base.Result.{ok, err}
use order_book_server.Queue.{QueueApi}
use order_book_server.OrderBook.Types.{Text}
use order_book_server.Orders.{InnerL4Order, l4_order}
use order_book_server.Ingestion.Scoped.{EventSource}
use order_book_server.Market.{Views}
use order_book_server.Base.{Map}
use order_book_server.Market.State
use order_book_server.Market.State.{OrderBookState, cached}
use order_book_server.Market.Total.{refresh_l2_snapshots-Returns}
use order_book_server.Listener.{Listener, EventBatch, Received}
use order_book_server.Listener.Recovery.{Viewed, l2_snapshots}
use order_book_server.Listener.Lines.{
  Decoders, split_inclusive, ends_with_newline, trim_end_matches, parse_line, after_receive,
  receive_parsed, process_records, publish_after, process_data,
}
use order_book_server.Listener.Total.{receive_batch-Returns}
use order_book_server.Listener.Fetch.{Attempt}
use order_book_server.Listener.Lines.Dated.{IsDatedDecoders, parse_line-IsDatedEvent}
use order_book_server.Listener.Pairs.Dated.{IsDatedEvent}
use order_book_server.Listener.Stream.{IsSound}
use order_book_server.Listener.Stream.Receive.{receive_batch-Kept}
use order_book_server.Listener.Stream.Receive.Stored.{Kept}

module _ {A : Type 0} (log10_floor : ℕ → ℕ) (sane : (px : ℕ) → log10_floor px ≤ 19)
    (api : QueueApi ℕ (InnerL4Order A)) where
  cached-Returns :
      (s : OrderBookState api) (cache : Option (Map Text (Views api)))
      → Returns cache
      → Returns (cached api s cache)
  cached-Returns s none (cache, ran) = cc
  cached-Returns s (some cache) ran = (_, refl)

  state_l2_snapshots-Returns :
      (s : OrderBookState api) (prevent : Bool)
      → Returns (State.l2_snapshots log10_floor api s prevent)
  unfolding State.l2_snapshots State.compute_l2_snapshot
  state_l2_snapshots-Returns s prevent =
      if-Returns s.snapped _ _ (λ h. (_, refl))
        (λ h.
          >>=-Returns _ _
            (cached-Returns (record s { snapped = prevent || s.snapped }) _
              (refresh_l2_snapshots-Returns log10_floor sane api s.order_book s.dirty_coins
                s.l2_cache))
            (λ r _. (_, refl)))

  l2_snapshots_of :
      (l : Listener api) (prevent : Bool) (state : Option (OrderBookState api))
      → Returns {B = Viewed api} (elim state [
        | none ↦ some (none, l)
        | some book ↦ State.l2_snapshots log10_floor api book prevent >>= λ r.
            some (r.0, record l { order_book_state = some r.1 })
      ])
  l2_snapshots_of l prevent none = (_, refl)
  l2_snapshots_of l prevent (some book) =
      >>=-Returns _ _ (state_l2_snapshots-Returns book prevent) (λ r _. (_, refl))

  pub l2_snapshots-Returns :
      (l : Listener api) (prevent : Bool) → Returns (l2_snapshots api log10_floor l prevent)
  unfolding l2_snapshots
  l2_snapshots-Returns l prevent = l2_snapshots_of l prevent l.order_book_state

module _ {A : Type 0} (log10_floor : ℕ → ℕ) (sane : (px : ℕ) → log10_floor px ≤ 19)
    (parse : Text → Option ℕ) (decoders : Decoders A) ⦃laws : IsDatedDecoders decoders⦄
    (source : EventSource) (api : QueueApi ℕ (InnerL4Order A)) (n : ℕ)
    (a : Option (Attempt api)) where
  after_receive-Returns :
      (received : Received api) (next : Listener api → Option (Received api))
      → Kept api n a received
      → ((l : Listener api) → IsSound api n a l → Returns (next l))
      → Returns (after_receive api received next)
  after_receive-Returns (l, err e) next kept on = (_, refl)
  after_receive-Returns (l, ok _) next kept on = on l kept

  receive_parsed-Returns :
      (l : Listener api) (batch : Option (EventBatch A)) (now : ℕ)
      (next : Listener api → Option (Received api))
      → ((b : EventBatch A) → batch ≡ some b → IsDatedEvent b)
      → IsSound api n a l
      → ((l : Listener api) → IsSound api n a l → Returns (next l))
      → Returns (receive_parsed api parse source l batch now next)
  receive_parsed-Returns l none now next new s on = (_, refl)
  receive_parsed-Returns l (some batch) now next new s on =
      >>=-Returns _ _ (receive_batch-Returns parse api n a l batch now (new batch refl) s)
        (λ r gives.
          after_receive-Returns r next
            (receive_batch-Kept parse api n a l batch now r (new batch refl) s gives) on)

  process_records-Returns :
      (clock : ℕ → ℕ) (l : Listener api) (lines : List Text)
      → IsSound api n a l
      → Returns (process_records api parse decoders source clock l lines)
  unfolding process_records
  process_records-Returns clock l [] s = (_, refl)
  process_records-Returns clock l (line ∷ lines) s =
      let on = λ (l' : Listener api). process_records-Returns (λ n. clock (suc n)) l' lines in
      let text = trim_end_matches line in
      if-Returns (not (ends_with_newline line)) _ _ (λ h. (_, refl))
        (λ h.
          if-Returns (is_nil text) _ _ (λ h. on l s)
            (λ h.
              receive_parsed-Returns l (parse_line decoders source l.scope text) (clock 0) _
                (λ b. parse_line-IsDatedEvent decoders source l.scope text b) s on))

  publish_after-Returns : (r : Received api) → Returns (publish_after api log10_floor r)
  publish_after-Returns (l, err e) = (_, refl)
  publish_after-Returns (l, ok _) =
      >>=-Returns _ _ (l2_snapshots-Returns log10_floor sane api l true) (λ viewed _. (_, refl))

  -- A text of records is processed without a panic, whatever is in it but times before 1970.
  pub process_data-Returns :
      (clock : ℕ → ℕ) (l : Listener api) (text : Text)
      → IsSound api n a l
      → Returns (process_data api log10_floor parse decoders source clock l text)
  unfolding process_data
  process_data-Returns clock l text s =
      >>=-Returns _ _ (process_records-Returns clock l (split_inclusive [] text) s)
        (λ r _. publish_after-Returns r)
