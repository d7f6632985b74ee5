-- ===== src/Feed.antt =====
-- What server/src/servers/websocket_server.rs makes of the listener's messages before it sends them:
-- the L4 updates and the trades by coin, and the test on the age of their source.
pub mod Updates
pub mod WireCache
use order_book_server.Base.{
  ℕ, millis, ◌>>=◌, ◌+◌, ◌-◌, Bool, true, false, not, Option, none, some, List, [], ◌∷◌, ◌++◌, ltb,
  leb, ◌==◌, if◌then◌else◌, reverse, lookup,
}
use order_book_server.OrderBook.Types.{Side, ask, bid, Text, text_eq}
use order_book_server.Orders.{NodeDataOrderDiff, NodeDataOrderStatus, Fill, Trade, from_fills}
use order_book_server.Ingestion.Batches.{Batch}
use order_book_server.Market.{put}

pub record L4BookUpdates (A : Type 0) : Type 0 where
  pub time : ℕ
  pub height : ℕ
  pub order_statuses : List (NodeDataOrderStatus A)
  pub book_diffs : List (NodeDataOrderDiff A)

abbrev pub new_updates : {A : Type 0} → ℕ → ℕ → L4BookUpdates A
new_updates time height = record {
  time = time;
  height = height;
  order_statuses = [];
  book_diffs = [];
}

-- `HashMap<String, L4BookUpdates>`
abbrev pub UpdateMap : Type 0 → Type 0
UpdateMap A = List (Text × L4BookUpdates A)

module _ {A : Type 0} where
  -- `entry(coin).or_insert_with(..)`
  abbrev pub or_new : ℕ → ℕ → Option (L4BookUpdates A) → L4BookUpdates A
  or_new time height none = new_updates time height
  or_new time height (some u) = u

  abbrev pub with_diff : NodeDataOrderDiff A → L4BookUpdates A → L4BookUpdates A
  with_diff diff u = record u { book_diffs = u.book_diffs ++ diff ∷ [] }

  abbrev pub with_status : NodeDataOrderStatus A → L4BookUpdates A → L4BookUpdates A
  with_status status u = record u { order_statuses = u.order_statuses ++ status ∷ [] }

  abbrev pub add_diffs : ℕ → ℕ → UpdateMap A → List (NodeDataOrderDiff A) → UpdateMap A
  add_diffs time height updates [] = updates
  add_diffs time height updates (diff ∷ diffs) =
      add_diffs time height
        (put diff.coin (with_diff diff (or_new time height (lookup diff.coin updates))) updates)
        diffs

  abbrev pub add_statuses : ℕ → ℕ → UpdateMap A → List (NodeDataOrderStatus A) → UpdateMap A
  add_statuses time height updates [] = updates
  add_statuses time height updates (status ∷ statuses) =
      add_statuses time height
        (put status.order.coin
          (with_status status (or_new time height (lookup status.order.coin updates))) updates)
        statuses

  -- `none` is the panic of `block_time`
  unfoldable pub coin_to_book_updates :
      Batch (NodeDataOrderDiff A) → Batch (NodeDataOrderStatus A) → Option (UpdateMap A)
  coin_to_book_updates diff_batch status_batch =
      let height = diff_batch.block_number in
      millis diff_batch.block_time >>= λ time.
      some
        (add_statuses time height (add_diffs time height [] diff_batch.events) status_batch.events)

abbrev pub side_beq : Side → Side → Bool
side_beq ask ask = true
side_beq ask bid = false
side_beq bid ask = false
side_beq bid bid = true

-- `require_recent_source` at the time `now`: the difference is at most 3 seconds.
unfoldable pub require_recent_source : ℕ → ℕ → Bool
require_recent_source now time_ms =
    not (ltb 3000 (if ltb now time_ms then time_ms - now else now - time_ms))

module _ {A : Type 0} where
  -- `fills` of two events, the second one put over the first
  abbrev pub fill_of : Side → A × Fill → A × Fill → Option (A × Fill)
  fill_of side f1 f2 =
      if side_beq f2.1.side side then some f2 else if side_beq f1.1.side side then some f1 else none

  abbrev pub or_no_trades : Option (List (Trade A)) → List (Trade A)
  or_no_trades none = []
  or_no_trades (some ts) = ts

  -- `entry(coin).or_insert_with(Vec::new).push(trade)`
  abbrev pub push_trade :
      Option (Trade A) → List (Text × List (Trade A)) → List (Text × List (Trade A))
  push_trade none trades = trades
  push_trade (some trade) trades =
      put trade.coin (or_no_trades (lookup trade.coin trades) ++ trade ∷ []) trades

  -- the `while`, over the fills from the last one on
  abbrev pub pair_fills :
      List (A × Fill) → List (Text × List (Trade A)) → List (Text × List (Trade A))
  pair_fills [] trades = trades
  pair_fills (f2 ∷ []) trades = trades
  pair_fills (f2 ∷ f1 ∷ fills) trades =
      pair_fills fills (push_trade (from_fills (fill_of ask f1 f2) (fill_of bid f1 f2)) trades)

  abbrev pub reverse_all : List (Text × List (Trade A)) → List (Text × List (Trade A))
  reverse_all [] = []
  reverse_all ((coin, ts) ∷ trades) = (coin, reverse ts) ∷ reverse_all trades

  unfoldable pub coin_to_trades : Batch (A × Fill) → List (Text × List (Trade A))
  coin_to_trades batch = reverse_all (pair_fills (reverse batch.events) [])
