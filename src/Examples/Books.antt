-- ===== src/Examples/Books.antt =====
-- A small book over linked lists, and the operations on it.
use order_book_server.Base.{ℕ, false, none, [], ◌∷◌, nat_eq}
use order_book_server.Queue.{QueueApi}
use order_book_server.LinkedList.Certified.{linked_queue}
use order_book_server.OrderBook.Types.{Side, ask, bid, Text}
use order_book_server.OrderBook.{OrderBook, Snapshot, from_snapshot}
use order_book_server.Orders.{InnerL4Order, l4_order}
use order_book_server.Examples.Slots.{slots}

abbrev pub coin_text : Text
coin_text = b'#' ∷ b'7' ∷ []

-- An order of the user 0.
abbrev pub order_of : ℕ → Side → ℕ → ℕ → InnerL4Order ℕ
order_of oid side limit_px sz = record {
  user = 0;
  coin = coin_text;
  side = side;
  limit_px = limit_px;
  sz = sz;
  oid = oid;
  timestamp = 0;
  trigger_condition = [];
  is_trigger = false;
  trigger_px = [];
  is_position_tpsl = false;
  reduce_only = false;
  order_type = [];
  tif = none;
  cloid = none;
}

abbrev pub linked : QueueApi ℕ (InnerL4Order ℕ)
linked = linked_queue slots

abbrev pub three_orders : Snapshot (InnerL4Order ℕ)
three_orders = record {
  bids = order_of 1 bid 100 5 ∷ order_of 2 bid 99 7 ∷ [];
  asks = order_of 3 ask 102 4 ∷ [];
}

abbrev pub small_book : OrderBook linked
small_book = from_snapshot linked three_orders false
