-- ===== src/Examples/Clients.antt =====
-- A client's requests, and a trace of deliveries.
use order_book_server.Base.{◌≤◌, ◌<◌, ◌≡◌, refl, arith, true, ◌||◌, some, List, [], ◌∷◌, length}
use order_book_server.Subscription.{trades, l2_book, contains, is_hip4_coin, validate}
use order_book_server.Subscription.Laws.{
  Served, validate-Served, Request, add, drop, run_requests, run_requests-bound,
}
use order_book_server.DeliveryTrace.{
  open_trace, Event, begun, flushed, completed, run_events, run_events-bound,
}
use order_book_server.Examples.Books.{coin_text}

validated : validate [] (l2_book coin_text (some 5) (some 7) (some 2)) ≡ true
unfolding validate
validated = refl

validate-Served_example :
    ((contains [] coin_text || is_hip4_coin coin_text) ≡ true)
    × (length coin_text ≤ 64)
    × (0 < 7)
    × (7 ≤ 100)
    × Served (some 5) (some 2)
validate-Served_example = validate-Served [] coin_text (some 5) 7 (some 2) validated

abbrev pub requests : List Request
requests = add (trades coin_text) ∷ add (trades coin_text) ∷ drop (trades coin_text) ∷ []

run_requests-bound_example : length (run_requests [] requests) ≤ 2048
run_requests-bound_example = run_requests-bound [] requests (omega arith)

opened_empty : length (open_trace 443 10).batches ≤ 128
unfolding open_trace
opened_empty = omega arith

abbrev pub events : List Event
events = begun 7 70 71 ∷ flushed ∷ completed 72 ∷ begun 8 80 81 ∷ []

run_events-bound_example : length (run_events (open_trace 443 10) events).batches ≤ 128
run_events-bound_example = run_events-bound (open_trace 443 10) events opened_empty
