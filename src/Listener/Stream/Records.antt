-- ===== src/Listener/Stream/Records.antt =====
-- Processing the records of a file keeps the stream contiguous, or leaves it to a fence.
use order_book_server.Base.{
  ℕ, suc, ◌≡◌, refl, sym, ap, subst, ◌∙◌, inl, inr, arith, true, not, Option, none, some, List, [],
  ◌∷◌, if◌then◌else◌, is_nil, nat_eq, Bool-cases, Option-cases, ◌>>=◌,
}
use order_book_server.Base.Result.{ok, err}
use order_book_server.Queue.{QueueApi}
use order_book_server.OrderBook.Types.{Text}
use order_book_server.Orders.{InnerL4Order, l4_order}
use order_book_server.Ingestion.Scoped.{EventSource}
use order_book_server.Listener.{
  Listener, EventBatch, incomplete_record, malformed, Received, receive_batch,
}
use order_book_server.Listener.Recovery.{publish, l2_snapshots}
use order_book_server.Listener.Lines.{
  Decoders, split_inclusive, ends_with_newline, trim_end_matches, parse_line, after_receive,
  receive_parsed, process_records, publish_after, process_data,
}
use order_book_server.Listener.Fetch.{Attempt}
use order_book_server.Listener.Lines.Dated.{IsDatedDecoders, parse_line-IsDatedEvent}
use order_book_server.Listener.Pairs.Dated.{IsDatedEvent}
use order_book_server.Listener.Stream.{IsSound, IsSound-IsBroken}
use order_book_server.Listener.Stream.Receive.{receive_batch-Kept}
use order_book_server.Listener.Stream.Receive.Stored.{Kept}
use order_book_server.Listener.Stream.Views.{publish-IsSound}

module _ {A : Type 0} (log10_floor : ℕ → ℕ) (parse : Text → Option ℕ) (decoders : Decoders A)
    ⦃laws : IsDatedDecoders decoders⦄ (source : EventSource) (api : QueueApi ℕ (InnerL4Order A))
    (n : ℕ) (a : Option (Attempt api)) where
  after_receive-Kept :
      (received : Received api) (next : Listener api → Option (Received api)) (r : Received api)
      → Kept api n a received
      → ((l : Listener api) → IsSound api n a l → next l ≡ some r → Kept api n a r)
      → after_receive api received next ≡ some r
      → Kept api n a r
  after_receive-Kept (l, err e) next r kept on ran =
      let same : (record l { order_book_state = none }, err e) ≡ r = cc in
      subst (Kept api n a) same
        (record { sends = kept.sends; contiguous = kept.contiguous; bumped = kept.bumped })
  after_receive-Kept (l, ok _) next r kept on ran = on l kept ran

  receive_parsed-Kept :
      (l : Listener api) (batch : Option (EventBatch A)) (now : ℕ)
      (next : Listener api → Option (Received api)) (r : Received api)
      → ((b : EventBatch A) → batch ≡ some b → IsDatedEvent b)
      → IsSound api n a l
      → ((l : Listener api) → IsSound api n a l → next l ≡ some r → Kept api n a r)
      → receive_parsed api parse source l batch now next ≡ some r
      → Kept api n a r
  receive_parsed-Kept l none now next r new s on ran =
      let same : (l, err (malformed source)) ≡ r = cc in
      subst (Kept api n a) same (IsSound-IsBroken api n a l s)
  receive_parsed-Kept l (some batch) now next r new s on ran =
      elim (Option-cases (receive_batch api parse l batch now)) [
        | inl panics ↦ absurd (ground arith)
        | inr (received, gives) ↦
            after_receive-Kept received next r
              (receive_batch-Kept parse api n a l batch now received (new batch refl) s gives) on
              (sym (ap (λ (t : Option (Received api)). t >>= λ r. after_receive api r next) gives)
                ∙ ran)
      ]

  process_records-Kept :
      (clock : ℕ → ℕ) (l : Listener api) (lines : List Text) (r : Received api)
      → IsSound api n a l
      → process_records api parse decoders source clock l lines ≡ some r
      → Kept api n a r
  unfolding process_records
  process_records-Kept clock l [] r s ran =
      let same : (l, ok tt) ≡ r = cc in subst (Kept api n a) same s
  process_records-Kept clock l (line ∷ lines) r s ran =
      let text = trim_end_matches line in
      let next : Listener api → Option (Received api) =
        λ l'. process_records api parse decoders source (λ n. clock (suc n)) l' lines in
      let on : (l' : Listener api) → IsSound api n a l' → next l' ≡ some r → Kept api n a r =
        λ l' s' ran'. process_records-Kept (λ n. clock (suc n)) l' lines r s' ran' in
      let parsed =
        receive_parsed api parse source l (parse_line decoders source l.scope text) (clock 0)
          next in
      elim (Bool-cases (ends_with_newline line)) [
        | inr unfinished ↦
            let same : (l, err incomplete_record) ≡ r = ground arith in
            subst (Kept api n a) same (IsSound-IsBroken api n a l s)
        | inl closed ↦ elim (Bool-cases (is_nil text)) [
          | inl blank ↦ on l s (ground arith)
          | inr full ↦
              receive_parsed-Kept l (parse_line decoders source l.scope text) (clock 0) next r
                (λ b. parse_line-IsDatedEvent decoders source l.scope text b) s on
                (sym (
                    ap
                      (λ b.
                        if not b
                        then some (l, err incomplete_record)
                        else if is_nil text
                        then next l
                        else parsed)
                      closed
                    ∙ ap (λ b. if b then next l else parsed) full)
                  ∙ ran)
        ]
      ]

  publish_after-Kept :
      (received r : Received api)
      → Kept api n a received
      → publish_after api log10_floor received ≡ some r
      → Kept api n a r
  publish_after-Kept (l, err e) r kept ran =
      let same : (l, err e) ≡ r = cc in subst (Kept api n a) same kept
  publish_after-Kept (l, ok _) r kept ran =
      elim (Option-cases (l2_snapshots api log10_floor l true)) [
        | inl panics ↦ absurd (ground arith)
        | inr (viewed, gives) ↦
            let same : (publish api viewed, ok tt) ≡ r = ground arith in
            subst (Kept api n a) same (publish-IsSound log10_floor api n a l true viewed kept gives)
      ]

  pub process_data-Kept :
      (clock : ℕ → ℕ) (l : Listener api) (text : Text) (r : Received api)
      → IsSound api n a l
      → process_data api log10_floor parse decoders source clock l text ≡ some r
      → Kept api n a r
  unfolding process_data
  process_data-Kept clock l text r s ran =
      elim (Option-cases
        (process_records api parse decoders source clock l (split_inclusive [] text))) [
          | inl panics ↦ absurd (ground arith)
          | inr (received, gives) ↦
              publish_after-Kept received r
                (process_records-Kept clock l (split_inclusive [] text) received s gives)
                (sym (
                    ap (λ (t : Option (Received api)). t >>= λ r. publish_after api log10_floor r)
                      gives)
                  ∙ ran)
        ]
