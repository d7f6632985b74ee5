-- ===== src/Market.antt =====
-- server/src/order_book/multi_book.rs: the books of all coins, and `refresh_l2_snapshots` of
-- listeners/order_book/utils.rs: the L2 views of the books.
pub mod State
pub mod Consistency
pub mod Dated
pub mod Blocks
pub mod Frame
pub mod Cache
pub mod Total
use order_book_server.Base.{
  ℕ, ◌+◌, ◌≤◌, ◌<◌, ◌≡◌, Bool, true, false, Option, none, some, List, [], ◌∷◌, ◌++◌, ◌&&◌, ◌||◌,
  not, ltb, leb, ◌==◌, if◌then◌else◌, Eq, nat_eq, Map, map_insert, map_remove, lookup, is_nil,
  ◌>>=◌, length,
}
use order_book_server.Base.Result.{Result, ok, err}
use order_book_server.Queue.{QueueApi}
use order_book_server.OrderBook.Types.{Side, Text, text_eq, text_beq, InnerOrder}
use order_book_server.OrderBook.{
  OrderBook, Snapshot, new, add_order_before, cancel_order, modify_sz, to_snapshot, from_snapshot,
}
use order_book_server.OrderBook.Aggregation.{InnerLevel, to_l2_snapshot, resample}
use order_book_server.Orders.{
  InnerL4Order, l4_order, NodeDataOrderDiff, NodeDataOrderStatus, InnerOrderDiff, inner_new,
  inner_update, inner_remove, inner_diff, ParseError, parsed, try_from, is_inserted_into_book,
  convert_trigger,
}
use order_book_server.Orders
use order_book_server.Ingestion.Batches.{Batch}

-- `BTreeMap::insert` and `HashMap::insert`, up to the order of the keys
abbrev pub put : {V : Type 0} → Text → V → List (Text × V) → List (Text × V)
put k v [] = (k, v) ∷ []
put k v ((j, w) ∷ es) = if text_beq j k then (j, v) ∷ es else (j, w) ∷ put k v es

abbrev pub keys : {V : Type 0} → List (Text × V) → List Text
keys [] = []
keys ((k, v) ∷ es) = k ∷ keys es

abbrev pub member : Text → List Text → Bool
member k [] = false
member k (j ∷ ks) = text_beq j k || member k ks

-- `HashSet::insert`
abbrev pub insert_coin : Text → List Text → List Text
insert_coin k ks = if member k ks then ks else k ∷ ks

abbrev pub purr_usdc : Text
purr_usdc = b'P' ∷ b'U' ∷ b'R' ∷ b'R' ∷ b'/' ∷ b'U' ∷ b'S' ∷ b'D' ∷ b'C' ∷ []

-- `starts_with('@')`
abbrev pub starts_with_at : Text → Bool
starts_with_at [] = false
starts_with_at (b ∷ bs) = b == b'@'

-- `Coin::is_spot`
abbrev pub is_spot : Text → Bool
is_spot coin = starts_with_at coin || text_beq coin purr_usdc

module _ {O : Type 0} ⦃o : InnerOrder O⦄ (api : QueueApi ℕ O) where
  abbrev pub OrderBooks : Type 0
  OrderBooks = List (Text × OrderBook api)

  unfoldable pub from_snapshots : List (Text × Snapshot O) → Bool → OrderBooks
  from_snapshots [] ignore_triggers = []
  from_snapshots ((coin, book) ∷ snapshots) ignore_triggers =
      (coin, from_snapshot api book ignore_triggers) ∷ from_snapshots snapshots ignore_triggers

  -- a book that changed, with the result of the change
  abbrev pub put_changed : OrderBooks → Text → OrderBook api × Bool → OrderBooks × Bool
  put_changed books coin (book, done) = (put coin book books, done)

  abbrev pub book_or_new : Option (OrderBook api) → OrderBook api
  book_or_new none = new api
  book_or_new (some book) = book

  unfoldable pub add_order : OrderBooks → O → Option ℕ → OrderBooks × Bool
  add_order books order insert_before =
      put_changed books (o.coin order)
        (add_order_before api (book_or_new (lookup (o.coin order) books)) order insert_before)

  -- `get_mut(&coin).is_some_and(..)`
  abbrev pub at_book :
      OrderBooks
      → Text
      → (OrderBook api → OrderBook api × Bool)
      → Option (OrderBook api)
      → OrderBooks × Bool
  at_book books coin f none = (books, false)
  at_book books coin f (some book) = put_changed books coin (f book)

  unfoldable pub cancel : OrderBooks → ℕ → Text → OrderBooks × Bool
  cancel books oid coin = at_book books coin (λ book. cancel_order api book oid) (lookup coin books)

  unfoldable pub modify : OrderBooks → ℕ → Text → ℕ → OrderBooks × Bool
  modify books oid coin sz =
      at_book books coin (λ book. modify_sz api book oid sz) (lookup coin books)

  abbrev pub to_snapshots : OrderBooks → List (Text × Snapshot O)
  to_snapshots [] = []
  to_snapshots ((coin, book) ∷ books) = (coin, to_snapshot api book) ∷ to_snapshots books

  -- `L2SnapshotParams` and the view with them
  abbrev pub Views : Type 0
  Views = List ((Option ℕ × Option ℕ) × Snapshot InnerLevel)

  -- the closure of `refresh_l2_snapshots`: a view of one book per set of parameters
  unfoldable pub views : (ℕ → ℕ) → OrderBook api → Option Views
  views log10_floor book = do
    raw ← to_l2_snapshot api log10_floor book none none none
    five ← resample log10_floor raw none (some 5) none
    five_by_2 ← resample log10_floor five none (some 5) (some 2)
    five_by_5 ← resample log10_floor five none (some 5) (some 5)
    four ← resample log10_floor five_by_5 none (some 4) none
    three ← resample log10_floor four none (some 3) none
    two ← resample log10_floor three none (some 2) none
    some (
        ((none, none), raw)
        ∷ ((some 5, none), five)
        ∷ ((some 5, some 2), five_by_2)
        ∷ ((some 5, some 5), five_by_5)
        ∷ ((some 4, none), four)
        ∷ ((some 3, none), three)
        ∷ ((some 2, none), two)
        ∷ [])

  -- `refresh_l2_snapshots`
  unfoldable pub refresh_from :
      (ℕ → ℕ) → OrderBooks → List Text → Map Text Views → Option (Map Text Views)
  refresh_from log10_floor [] dirty cached = some cached
  refresh_from log10_floor ((coin, book) ∷ books) dirty cached = do
    rest ← refresh_from log10_floor books dirty cached
    if member coin dirty
        then (views log10_floor book >>= λ view. some (map_insert rest coin view))
        else some rest

  unfoldable pub refresh_l2_snapshots :
      (ℕ → ℕ) → OrderBooks → List Text → Map Text Views → Option (Map Text Views)
  unfolding refresh_from
  refresh_l2_snapshots log10_floor books dirty cached =
      if is_nil dirty then some cached else refresh_from log10_floor books dirty cached
