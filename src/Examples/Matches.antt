-- ===== src/Examples/Matches.antt =====
-- A small book that is traded on.
use order_book_server.Base.{ℕ, ◌≡◌, arith, ◌⊎◌, none, some, List, [], ◌∷◌, nat_eq, All}
use order_book_server.Queue.Plain.{plain_queue}
use order_book_server.OrderBook.Types.{ask, bid}
use order_book_server.OrderBook.{OrderBook, new, add_order_before, match_level, match_order}
use order_book_server.OrderBook.View.{view}
use order_book_server.OrderBook.Matching.Level.{Makers, MatchedBy, match_level-MatchedBy}
use order_book_server.OrderBook.Matching.Crossing.{Beyond}
use order_book_server.OrderBook.Matching.Uncrossed.{Ascending, match_order-Uncrossed}
use order_book_server.OrderBook.Matching.Resting.{IsUncrossed}
use order_book_server.OrderBook.Matching.Keeps.{add_order_before-IsUncrossed}
use order_book_server.OrderBook.Matching.Runs.{Op, add, cancel, resize, run, run-IsUncrossed}
use order_book_server.Orders.{InnerL4Order, l4_order}
use order_book_server.Examples.Books.{order_of, linked}

abbrev pub some_ops : List (Op (InnerL4Order ℕ))
some_ops =
    add (order_of 1 bid 100 5) none
    ∷ add (order_of 2 bid 100 6) (some 1)
    ∷ add (order_of 3 ask 99 8) none
    ∷ resize 1 2
    ∷ cancel 2
    ∷ []

run-IsUncrossed_example : IsUncrossed (view linked (run linked (new linked) some_ops))
run-IsUncrossed_example = run-IsUncrossed linked some_ops

abbrev pub two_makers : Makers (InnerL4Order ℕ)
two_makers = (1, order_of 1 bid 100 5) ∷ (2, order_of 2 bid 100 6) ∷ []

match_level-MatchedBy_example :
    MatchedBy two_makers
      (order_of 3 ask 99 8)
      (match_level plain_queue 3 two_makers (order_of 3 ask 99 8))
match_level-MatchedBy_example =
    match_level-MatchedBy 3 two_makers (order_of 3 ask 99 8) (omega arith)

abbrev pub two_levels : List (ℕ × Makers (InnerL4Order ℕ))
two_levels = (98, (4, order_of 4 bid 98 5) ∷ []) ∷ (100, two_makers) ∷ []

two_levels-Ascending : Ascending two_levels
two_levels-Ascending = ((omega arith, tt), (tt, tt))

match_order-Uncrossed_example :
    Ascending (match_order plain_queue two_levels (order_of 3 ask 99 20)).0
    × (((match_order plain_queue two_levels (order_of 3 ask 99 20)).1.sz ≡ 0)
        ⊎ All (Beyond ask 99) (match_order plain_queue two_levels (order_of 3 ask 99 20)).0)
match_order-Uncrossed_example =
    match_order-Uncrossed two_levels (order_of 3 ask 99 20) two_levels-Ascending

abbrev pub crossed_by : OrderBook (plain_queue {K = ℕ} {T = InnerL4Order ℕ})
crossed_by = record { oid_to_side_px = λ _. none; bids = two_levels; asks = [] }

add_order_before-IsUncrossed_example :
    IsUncrossed (add_order_before plain_queue crossed_by (order_of 3 ask 99 20) none).0
add_order_before-IsUncrossed_example =
    add_order_before-IsUncrossed crossed_by (order_of 3 ask 99 20) none
      (record { bids_up = two_levels-Ascending; asks_up = tt; apart = (tt, (tt, tt)) })
