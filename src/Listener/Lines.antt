-- ===== src/Listener/Lines.antt =====
-- `process_data` of server/src/listeners/order_book/mod.rs: the records of a text, a line each, are
-- received one by one, and a view is published after the last.
pub mod Dated
use order_book_server.Base.{
  ℕ, suc, Bool, true, false, Option, none, some, List, [], ◌∷◌, ◌++◌, ◌&&◌, ◌||◌, ◌==◌,
  if◌then◌else◌, is_nil, ◌>>=◌, not, nat_eq,
}
use order_book_server.Base.Result.{ok, err}
use order_book_server.Queue.{QueueApi}
use order_book_server.OrderBook.Types.{Text}
use order_book_server.Orders.{InnerL4Order, l4_order, NodeDataOrderDiff, NodeDataOrderStatus, Fill}
use order_book_server.Ingestion.Scoped.{
  EventSource, fills_source, order_statuses_source, order_diffs_source, Decoder, parse_in_scope,
}
use order_book_server.Subscription.{CoinScope}
use order_book_server.Listener.{
  Listener, EventBatch, orders, book_diffs, fill_batch, incomplete_record, malformed, Received,
  receive_batch,
}
use order_book_server.Listener.Recovery.{publish, l2_snapshots}

abbrev pub newline : ℕ
newline = b'\n'

-- `split_inclusive('\n')`, with the part that is open
abbrev pub split_inclusive : Text → Text → List Text
split_inclusive part [] = if is_nil part then [] else part ∷ []
split_inclusive part (b ∷ t) =
    let line = part ++ b ∷ [] in
    let closed = split_inclusive [] t in
    let going = split_inclusive line t in if b == newline then line ∷ closed else going

-- `ends_with('\n')`
abbrev pub ends_with_newline : Text → Bool
ends_with_newline [] = false
ends_with_newline (b ∷ t) = if is_nil t then b == newline else ends_with_newline t

abbrev pub is_line_end : ℕ → Bool
is_line_end b = b == b'\r' || b == newline

-- `trim_end_matches(['\r', '\n'])`
abbrev pub trim_end_matches : Text → Text
trim_end_matches [] = []
trim_end_matches (b ∷ t) =
    let rest = trim_end_matches t in if is_line_end b && is_nil rest then [] else b ∷ rest

-- The decoders of the three kinds of event.
pub record Decoders (A : Type 0) : Type 0 where
  pub fills : Decoder (A × Fill)
  pub statuses : Decoder (NodeDataOrderStatus A)
  pub diffs : Decoder (NodeDataOrderDiff A)

module _ {A : Type 0} (decoders : Decoders A) where
  -- the `match` on the source of the event
  unfoldable pub parse_line : EventSource → CoinScope → Text → Option (EventBatch A)
  unfolding parse_in_scope
  parse_line fills_source scope line =
      parse_in_scope decoders.fills scope line >>= λ b. some (fill_batch b)
  parse_line order_statuses_source scope line =
      parse_in_scope decoders.statuses scope line >>= λ b. some (orders b)
  parse_line order_diffs_source scope line =
      parse_in_scope decoders.diffs scope line >>= λ b. some (book_diffs b)

module _ {A : Type 0} (api : QueueApi ℕ (InnerL4Order A)) where
  abbrev pub after_receive :
      Received api → (Listener api → Option (Received api)) → Option (Received api)
  after_receive (l, err e) next = some (record l { order_book_state = none }, err e)
  after_receive (l, ok _) next = next l

  abbrev pub receive_parsed :
      (Text → Option ℕ)
      → EventSource
      → Listener api
      → Option (EventBatch A)
      → ℕ
      → (Listener api → Option (Received api))
      → Option (Received api)
  receive_parsed parse source l none now next = some (l, err (malformed source))
  receive_parsed parse source l (some batch) now next =
      receive_batch api parse l batch now >>= λ r. after_receive r next

  -- the `for` over the records; `clock` gives the time at each of them
  unfoldable pub process_records :
      (Text → Option ℕ)
      → Decoders A
      → EventSource
      → (ℕ → ℕ)
      → Listener api
      → List Text
      → Option (Received api)
  unfolding parse_line
  process_records parse decoders source clock l [] = some (l, ok tt)
  process_records parse decoders source clock l (line ∷ lines) =
      let next : Listener api → Option (Received api) =
        λ l'. process_records parse decoders source (λ n. clock (suc n)) l' lines in
      let text = trim_end_matches line in
      if not (ends_with_newline line)
      then some (l, err incomplete_record)
      else if is_nil text
      then next l
      else receive_parsed parse source l (parse_line decoders source l.scope text) (clock 0) next

  abbrev pub publish_after : (ℕ → ℕ) → Received api → Option (Received api)
  publish_after log10_floor (l, err e) = some (l, err e)
  publish_after log10_floor (l, ok _) =
      l2_snapshots api log10_floor l true >>= λ viewed. some (publish api viewed, ok tt)

  unfoldable pub process_data :
      (ℕ → ℕ)
      → (Text → Option ℕ)
      → Decoders A
      → EventSource
      → (ℕ → ℕ)
      → Listener api
      → Text
      → Option (Received api)
  unfolding process_records
  process_data log10_floor parse decoders source clock l text =
      process_records parse decoders source clock l (split_inclusive [] text) >>= λ r.
      publish_after log10_floor r
