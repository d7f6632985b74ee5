-- ===== src/Ingestion/Scoped.antt =====
-- The events of server/src/types/node_data.rs as the node writes them, a block to a line, and the
-- reading of those whose coin is in scope. What `serde_json` makes of a text is a parameter.
pub mod Filter
use order_book_server.Base.{
  ℤ, ℕ, Bool, true, false, Option, some, List, [], ◌∷◌, if◌then◌else◌, length, ◌>>=◌, map_option,
}
use order_book_server.OrderBook.Types.{Text}
use order_book_server.Ingestion.Batches.{Batch, with_wire_bytes}
use order_book_server.Subscription.{CoinScope, in_scope}

pub data EventSource : Type 0 where
  fills_source order_statuses_source order_diffs_source : EventSource

-- A block whose events are still texts.
pub record RawBatch : Type 0 where
  pub local_time : ℤ
  pub block_time : ℤ
  pub block_number : ℕ
  pub events : List Text

-- `serde_json::from_str` at the types that are read: a whole batch, a raw one, the coin of an event,
-- and an event.
pub record Decoder (E : Type 0) : Type 0 where
  pub batch : Text → Option (Batch E)
  pub raw : Text → Option RawBatch
  pub coin : Text → Option Text
  pub event : Text → Option E

module _ {E : Type 0} (d : Decoder E) where
  abbrev pub keep : Bool → Text → Option (List E) → Option (List E)
  keep true text rest = d.event text >>= λ e. rest >>= λ es. some (e ∷ es)
  keep false text rest = rest

  -- the `for` over the raw events
  abbrev pub keep_events : CoinScope → List Text → Option (List E)
  keep_events scope [] = some []
  keep_events scope (text ∷ texts) =
      let rest = keep_events scope texts in
      d.coin text >>= λ coin. keep (in_scope scope coin) text rest

  abbrev pub scoped : CoinScope → ℕ → RawBatch → Option (Batch E)
  scoped scope bytes raw = keep_events scope raw.events >>= λ events. some (record {
    local_time = raw.local_time;
    block_time = raw.block_time;
    block_number = raw.block_number;
    events = events;
    wire_bytes = bytes;
  })

  -- `Batch::parse_in_scope`
  unfoldable pub parse_in_scope : CoinScope → Text → Option (Batch E)
  parse_in_scope scope line =
      if scope.all
      then map_option (λ b. with_wire_bytes b (length line)) (d.batch line)
      else (d.raw line >>= λ raw. scoped scope (length line) raw)
