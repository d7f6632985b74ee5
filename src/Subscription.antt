-- ===== src/Subscription.antt =====
-- server/src/types/subscription.rs: the coins in scope, the subscriptions that clients ask for, and
-- the bounded set of those of a connection. Logging is left out.
pub mod Laws
pub mod Equal
use order_book_server.Base.{
  ℕ, ◌+◌, Bool, true, false, not, ◌&&◌, ◌||◌, Option, none, some, List, [], ◌∷◌, ◌++◌, ltb, leb,
  ◌==◌, if◌then◌else◌, length, is_nil, is_some, nat_eq,
}
use order_book_server.Base.Result.{Result, ok, err, ◌>>=◌}
use order_book_server.OrderBook.Types.{Text, text_beq}

-- `u8::is_ascii_digit`
abbrev pub is_ascii_digit : ℕ → Bool
is_ascii_digit b = leb b'0' b && leb b b'9'

abbrev pub all_digits : Text → Bool
all_digits [] = true
all_digits (b ∷ id) = is_ascii_digit b && all_digits id

abbrev pub is_hip4_coin : Text → Bool
is_hip4_coin [] = false
is_hip4_coin (b ∷ id) = b == b'#' && not (is_nil id) && all_digits id

abbrev pub contains : List Text → Text → Bool
contains [] coin = false
contains (c ∷ coins) coin = text_beq c coin || contains coins coin

-- `CoinScope`, its set by the membership test
pub record CoinScope : Type 0 where
  pub all : Bool
  pub extra : List Text

abbrev pub default_scope : CoinScope
default_scope = record { all = false; extra = [] }

abbrev pub all_coins : CoinScope
all_coins = record { all = true; extra = [] }

abbrev pub star : Text
star = b'*' ∷ []

-- the `for` of `CoinScope::parse` over the trimmed parts
abbrev pub add_coins : List Text → List Text → Result Text CoinScope
add_coins extra [] = ok (record { all = false; extra = extra })
add_coins extra (coin ∷ coins) =
    let rest = add_coins (if contains extra coin then extra else coin ∷ extra) coins in
    if is_nil coin || ltb 64 (length coin) || text_beq coin star then err coin else rest

-- `str::trim` of ASCII text
abbrev pub is_space : ℕ → Bool
is_space b = b == b' ' || (leb 9 b && leb b 13)

abbrev pub trim_start : Text → Text
trim_start [] = []
trim_start (b ∷ t) = let rest = trim_start t in if is_space b then rest else b ∷ t

abbrev pub trim_end : Text → Text
trim_end [] = []
trim_end (b ∷ t) = let rest = trim_end t in if is_space b && is_nil rest then [] else b ∷ rest

abbrev pub trim : Text → Text
trim t = trim_end (trim_start t)

-- `split(',')`: the part that is open, and those before it are given at once
abbrev pub split_comma : Text → Text → List Text
split_comma part [] = part ∷ []
split_comma part (b ∷ t) =
    let here = split_comma [] t in
    let on = split_comma (part ++ b ∷ []) t in if b == b',' then part ∷ here else on

abbrev pub trim_all : List Text → List Text
trim_all [] = []
trim_all (t ∷ ts) = trim t ∷ trim_all ts

unfoldable pub parse : Text → Result Text CoinScope
parse value =
    let value = trim value in
    if is_nil value
    then ok default_scope
    else if text_beq value star
    then ok all_coins
    else add_coins [] (trim_all (split_comma [] value))

unfoldable pub in_scope : CoinScope → Text → Bool
in_scope scope coin = scope.all || is_hip4_coin coin || contains scope.extra coin

pub data Subscription : Type 0 where
  trades : Text → Subscription
  l2_book : Text → Option ℕ → Option ℕ → Option ℕ → Subscription
  l4_book : Text → Subscription

abbrev pub coin_of : Subscription → Text
coin_of (trades coin) = coin
coin_of (l2_book coin n_sig_figs n_levels mantissa) = coin
coin_of (l4_book coin) = coin

-- the tests on `n_sig_figs` and `mantissa`
abbrev pub valid_mantissa : ℕ → Option ℕ → Bool
valid_mantissa n_sig_figs none = true
valid_mantissa n_sig_figs (some m) = not (ltb n_sig_figs 5 || (not (m == 5) && not (m == 2)))

abbrev pub valid_figures : Option ℕ → Option ℕ → Bool
valid_figures none mantissa = not (is_some mantissa)
valid_figures (some n_sig_figs) mantissa =
    if not (leb 2 n_sig_figs && leb n_sig_figs 5) then false else valid_mantissa n_sig_figs mantissa

-- `n_levels` by its default of 20 levels, which may not be asked for, and the limit of 100
abbrev pub valid_levels : Option ℕ → Bool
valid_levels none = true
valid_levels (some n) = not (n == 20) && not (n == 0 || ltb 100 n)

-- `starts_with('@')`
abbrev pub is_indexed : Text → Bool
is_indexed [] = false
is_indexed (b ∷ t) = b == b'@'

abbrev pub valid_request : List Text → Subscription → Bool
valid_request universe (trades coin) = contains universe coin || is_hip4_coin coin
valid_request universe (l2_book coin n_sig_figs n_levels mantissa) =
    if not (contains universe coin) && not (is_hip4_coin coin)
    then false
    else if not (valid_levels n_levels)
    then false
    else valid_figures n_sig_figs mantissa
valid_request universe (l4_book coin) = not (not (contains universe coin) || is_indexed coin)

unfoldable pub validate : List Text → Subscription → Bool
validate universe sub = if ltb 64 (length (coin_of sub)) then false else valid_request universe sub

abbrev pub option_beq : Option ℕ → Option ℕ → Bool
option_beq none none = true
option_beq none (some b) = false
option_beq (some a) none = false
option_beq (some a) (some b) = a == b

-- the derived `Eq`
abbrev pub sub_beq : Subscription → Subscription → Bool
sub_beq (trades a) (trades b) = text_beq a b
sub_beq (l2_book a f n m) (l2_book b g k l) =
    text_beq a b && option_beq f g && option_beq n k && option_beq m l
sub_beq (l4_book a) (l4_book b) = text_beq a b
sub_beq (trades a) (l2_book b g k l) = false
sub_beq (trades a) (l4_book b) = false
sub_beq (l2_book a f n m) (trades b) = false
sub_beq (l2_book a f n m) (l4_book b) = false
sub_beq (l4_book a) (trades b) = false
sub_beq (l4_book a) (l2_book b g k l) = false

-- `SubscriptionManager`: a set, as a list without repetitions
abbrev pub Subscriptions : Type 0
Subscriptions = List Subscription

abbrev pub subscribed : Subscription → Subscriptions → Bool
subscribed s [] = false
subscribed s (t ∷ subs) = sub_beq t s || subscribed s subs

unfoldable pub subscribe : Subscriptions → Subscription → Subscriptions × Bool
subscribe subs sub =
    if leb 2048 (length subs) && not (subscribed sub subs)
    then (subs, false)
    else if subscribed sub subs
    then (subs, false)
    else (sub ∷ subs, true)

abbrev pub without : Subscription → Subscriptions → Subscriptions
without s [] = []
without s (t ∷ subs) = let rest = without s subs in if sub_beq t s then rest else t ∷ rest

unfoldable pub unsubscribe : Subscriptions → Subscription → Subscriptions × Bool
unsubscribe subs sub = (without sub subs, subscribed sub subs)
