-- ===== src/Examples/Feeds.antt =====
-- The updates of a coin out of a block, and a book that is encoded already.
use order_book_server.Base.{map_option, ℕ, ◌≡◌, refl, arith, Option, none, some, [], ◌∷◌, length}
use order_book_server.Feed.{coin_to_book_updates}
use order_book_server.Feed.Updates.{diffs_of, statuses_of, at_coin, coin_to_book_updates-at_coin}
use order_book_server.OrderBook.{truncate}
use order_book_server.OrderBook.Types.{Text}
use order_book_server.Subscription.{Subscription, l2_book}
use order_book_server.Feed.WireCache.{
  L2Book, L2Snapshots, BookWireCache, wire_levels, encode_view, get,
}
use order_book_server.Feed.WireCache.Exact.{IsExact, AnswersBy, get-AnswersBy}
use order_book_server.Examples.Views.{no_statuses, removals, some_levels}
use order_book_server.Examples.Books.{coin_text}

coin_to_book_updates-at_coin_example :
    map_option
      (at_coin 2000 removals.block_number coin_text)
      (coin_to_book_updates removals no_statuses)
    ≡ some (record {
      time = 2000;
      height = removals.block_number;
      order_statuses = statuses_of coin_text no_statuses.events;
      book_diffs = diffs_of coin_text removals.events;
    })
coin_to_book_updates-at_coin_example =
    coin_to_book_updates-at_coin removals no_statuses coin_text 2000 refl

abbrev one_view : L2Snapshots
one_view = record {
  address = 7;
  by_coin = λ coin. some (((none, none), record { bids = some_levels; asks = [] }) ∷ []);
}

abbrev show : ℕ → Text
show n = n ∷ []

-- The number of bids, as a text.
abbrev count_bids : L2Book → Option Text
count_bids book = some (length book.bids ∷ [])

abbrev whole_book : Subscription
whole_book = l2_book coin_text none none none

abbrev wire_cache : BookWireCache
wire_cache = record {
  position = some (7, 2000, 42);
  source = some one_view;
  entries = (whole_book, length some_levels ∷ []) ∷ [];
  bytes = 1;
}

wire_cache-IsExact : IsExact show count_bids wire_cache
unfolding encode_view wire_levels truncate
wire_cache-IsExact = record {
  exact = (refl, (refl, tt));
  counted = refl;
  bytes_bound = omega arith;
  entries_bound = omega arith;
}

get-AnswersBy_example :
    AnswersBy show count_bids
      (get show count_bids wire_cache whole_book one_view 2000 42)
      (encode_view show count_bids one_view 2000 42 whole_book)
get-AnswersBy_example =
    get-AnswersBy show count_bids wire_cache whole_book one_view 2000 42 wire_cache-IsExact
      (λ source kept same. cc)
