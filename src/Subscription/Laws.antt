-- ===== src/Subscription/Laws.antt =====
-- What a validated subscription is, and the bound on the subscriptions of a connection.
use order_book_server.Base.{
  ℕ, ◌≤◌, ◌<◌, ◌≡◌, arith, ◌⊎◌, inl, inr, true, ◌||◌, Option, none, some, List, [], ◌∷◌, ◌==◌,
  length, Bool-cases, nat_eq,
}
use order_book_server.OrderBook.Types.{Text}
use order_book_server.Subscription.{
  Subscription, Subscriptions, l2_book, contains, is_hip4_coin, validate, valid_figures, subscribe,
  unsubscribe, subscribed, without, sub_beq,
}

-- The levels that the server computes views for.
abbrev pub Served : Option ℕ → Option ℕ → Type 0
Served none none = Unit
Served none (some m) = ⊥
Served (some f) none = (2 ≤ f) × (f ≤ 5)
Served (some f) (some m) = (f ≡ 5) × ((m ≡ 2) ⊎ (m ≡ 5))

valid_figures-Served : (f m : Option ℕ) → valid_figures f m ≡ true → Served f m
valid_figures-Served none none h = tt
valid_figures-Served none (some m) h = cc
valid_figures-Served (some f) none h = (ground arith, ground arith)
valid_figures-Served (some f) (some m) h = elim (Bool-cases (m == 2)) [
  | inl two ↦ (ground arith, inl (ground arith))
  | inr other ↦ (ground arith, inr (ground arith))
]

-- An L2 subscription that says how many levels it wants and is validated is of a coin of the
-- universe or of an outcome coin, its coin has 64 bytes at most, it asks for 1 to 100 levels, and its
-- figures and mantissa are among those that views are computed for.
pub validate-Served :
    (universe : List Text) (coin : Text) (n_sig_figs : Option ℕ) (n : ℕ) (mantissa : Option ℕ)
    → validate universe (l2_book coin n_sig_figs (some n) mantissa) ≡ true
    → ((contains universe coin || is_hip4_coin coin) ≡ true)
      × (length coin ≤ 64)
      × (0 < n)
      × (n ≤ 100)
      × Served n_sig_figs mantissa
unfolding validate
validate-Served universe coin n_sig_figs n mantissa valid = (
  ground arith,
  ground arith,
  ground arith,
  ground arith,
  valid_figures-Served n_sig_figs mantissa (ground arith),
)

length-without : (s : Subscription) (subs : Subscriptions) → length (without s subs) ≤ length subs
length-without s [] = omega arith
length-without s (t ∷ subs) = elim (Bool-cases (sub_beq t s)) [
  | inl same ↦ rw same (omega (arith, length-without s subs))
  | inr other ↦ rw other (omega (arith, length-without s subs))
]

pub data Request : Type 0 where
  add : Subscription → Request
  drop : Subscription → Request

abbrev pub run_requests : Subscriptions → List Request → Subscriptions
run_requests subs [] = subs
run_requests subs (add s ∷ requests) = run_requests (subscribe subs s).0 requests
run_requests subs (drop s ∷ requests) = run_requests (unsubscribe subs s).0 requests

subscribe-bound :
    (subs : Subscriptions) (s : Subscription)
    → length subs ≤ 2048
    → length (subscribe subs s).0 ≤ 2048
unfolding subscribe
subscribe-bound subs s few = elim (Bool-cases (subscribed s subs)) [
  | inl old ↦ ground arith
  | inr new ↦ ground arith
]

-- Whatever a client asks, a connection within the limit stays within 2048 subscriptions.
pub run_requests-bound :
    (subs : Subscriptions) (requests : List Request)
    → length subs ≤ 2048
    → length (run_requests subs requests) ≤ 2048
unfolding unsubscribe
run_requests-bound subs [] few = few
run_requests-bound subs (add s ∷ requests) few =
    run_requests-bound (subscribe subs s).0 requests (subscribe-bound subs s few)
run_requests-bound subs (drop s ∷ requests) few =
    run_requests-bound (unsubscribe subs s).0 requests (omega (arith, few, length-without s subs))
