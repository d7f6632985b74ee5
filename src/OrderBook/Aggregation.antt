-- ===== src/OrderBook/Aggregation.antt =====
-- server/src/order_book/levels.rs: the aggregated (L2) view of a book, in buckets of prices.
-- `log10_floor` stands for the `f64` logarithm in `Px::num_digits`; `none` is a panic.
pub mod Bounds
pub mod Order
pub mod Totals
use order_book_server.Base.{
  ℕ, ◌+◌, ◌-◌, ◌*◌, ◌/◌, ◌%◌, ◌^◌, Bool, true, false, Option, none, some, List, [], ◌∷◌, ◌++◌, ltb,
  ◌==◌, if◌then◌else◌, length, reverse, ◌>>=◌, nat_eq,
}
use order_book_server.Queue.{QueueApi}
use order_book_server.OrderBook.Types.{Side, ask, bid, InnerOrder, add_sz}
use order_book_server.OrderBook.{OrderBook, Snapshot, Levels}

pub record InnerLevel : Type 0 where
  pub px : ℕ
  pub sz : ℕ
  pub n : ℕ

-- `num_digits`
abbrev pub num_digits : (ℕ → ℕ) → ℕ → ℕ
num_digits log10_floor px = if px == 0 then 1 else log10_floor px + 1

-- `inc` of `bucket`, in the arithmetic of `u64`
abbrev pub increment : (ℕ → ℕ) → ℕ → ℕ → Option ℕ → ℕ
increment log10_floor px n none = 10 ^ (num_digits log10_floor px - n) % 2 ^ 64
increment log10_floor px n (some m) = m * (10 ^ (num_digits log10_floor px - n) % 2 ^ 64) % 2 ^ 64

-- `u64::div_ceil`
abbrev pub div_ceil : ℕ → ℕ → ℕ
div_ceil a b = if ltb 0 (a % b) then a / b + 1 else a / b

-- Rounding by `inc`: a division by zero panics.
unfoldable pub round_to : Side → ℕ → ℕ → Option ℕ
round_to ask px inc = if inc == 0 then none else some (div_ceil px inc * inc % 2 ^ 64)
round_to bid px inc = if inc == 0 then none else some (px / inc * inc)

unfoldable pub bucket : (ℕ → ℕ) → ℕ → Side → Option ℕ → Option ℕ → Option ℕ
unfolding round_to
bucket log10_floor px side none mantissa = some px
bucket log10_floor px side (some n) mantissa =
    round_to side px (increment log10_floor px n mantissa)

-- `Vec::extend` by an `Option`
abbrev pub extend : List InnerLevel → Option InnerLevel → List InnerLevel
extend levels none = levels
extend levels (some l) = levels ++ l ∷ []

-- `new_bucket`
abbrev pub is_new_bucket : Option InnerLevel → Side → ℕ → Bool
is_new_bucket none side px = true
is_new_bucket (some c) ask px = ltb c.px px
is_new_bucket (some c) bid px = ltb px c.px

-- `n_levels == Some(..)`
abbrev pub is_limit : Option ℕ → ℕ → Bool
is_limit none n = false
is_limit (some limit) n = limit == n

-- `cur_level`, `levels` and the result of `build_l2_level`
abbrev pub Built : Type 0
Built = Option InnerLevel × List InnerLevel × Bool

abbrev pub open_bucket : Option ℕ → InnerLevel → List InnerLevel → Option ℕ → Option Built
open_bucket n_levels level levels none = none
open_bucket n_levels level levels (some px) =
    if is_limit n_levels (length levels)
    then some (none, levels, true)
    else some (some (record { px = px; sz = level.sz; n = level.n }), levels, false)

abbrev pub add_to : Option InnerLevel → InnerLevel → Option InnerLevel
add_to none level = none
add_to (some c) level =
    some (record { px = c.px; sz = add_sz level.sz c.sz; n = add_sz c.n level.n })

unfoldable pub build_l2_level :
    (ℕ → ℕ)
    → Option InnerLevel
    → List InnerLevel
    → Option ℕ
    → Option ℕ
    → Option ℕ
    → Side
    → InnerLevel
    → Option Built
unfolding bucket
build_l2_level log10_floor cur levels n_levels n_sig_figs mantissa side level =
    if is_new_bucket cur side level.px
    then open_bucket n_levels level (extend levels cur)
        (bucket log10_floor level.px side n_sig_figs mantissa)
    else some (add_to cur level, levels, false)

-- the `for`, its `break` and the last `extend`, by what one step built
unfoldable pub build_levels :
    (ℕ → ℕ)
    → Option ℕ
    → Option ℕ
    → Option ℕ
    → Side
    → List InnerLevel
    → Option InnerLevel
    → List InnerLevel
    → Option (List InnerLevel)
unfolding build_l2_level
build_levels log10_floor n_levels n_sig_figs mantissa side [] cur levels = some (extend levels cur)
build_levels log10_floor n_levels n_sig_figs mantissa side (level ∷ rest) cur levels =
    elim (build_l2_level log10_floor cur levels n_levels n_sig_figs mantissa side level) [
      | none ↦ none
      | some (cur', levels', true) ↦ some (extend levels' cur')
      | some (cur', levels', false) ↦
          build_levels log10_floor n_levels n_sig_figs mantissa side rest cur' levels'
    ]

unfoldable pub l2_levels_to_l2_levels :
    (ℕ → ℕ) → List InnerLevel → Side → Option ℕ → Option ℕ → Option ℕ → Option (List InnerLevel)
unfolding build_levels
l2_levels_to_l2_levels log10_floor levels side n_levels n_sig_figs mantissa =
    if is_limit n_levels 0
    then some []
    else build_levels log10_floor n_levels n_sig_figs mantissa side levels none []

-- `Snapshot<InnerLevel>::to_l2_snapshot`
unfoldable pub resample :
    (ℕ → ℕ) → Snapshot InnerLevel → Option ℕ → Option ℕ → Option ℕ → Option (Snapshot InnerLevel)
unfolding l2_levels_to_l2_levels
resample log10_floor s n_levels n_sig_figs mantissa = do
  bids ← l2_levels_to_l2_levels log10_floor s.bids bid n_levels n_sig_figs mantissa
  asks ← l2_levels_to_l2_levels log10_floor s.asks ask n_levels n_sig_figs mantissa
  some (record { bids = bids; asks = asks })

-- `P` of the result, where there is one.
abbrev pub OnResult : {A : Type 0} → (A → Type 0) → Option A → Type 0
OnResult P none = Unit
OnResult P (some x) = P x

module _ {O : Type 0} ⦃o : InnerOrder O⦄ (api : QueueApi ℕ O) where
  abbrev pub total_sz : ℕ → List O → ℕ
  total_sz sz [] = sz
  total_sz sz (a ∷ orders) = total_sz (add_sz sz (o.sz a)) orders

  abbrev pub levels_of : Levels api → List InnerLevel
  levels_of [] = []
  levels_of ((px, orders) ∷ levels) =
      record { px = px; sz = total_sz 0 (api.to_vec orders); n = length (api.to_vec orders) }
      ∷ levels_of levels

  abbrev pub from_best : Side → Levels api → Levels api
  from_best ask orders = orders
  from_best bid orders = reverse orders

  unfoldable pub map_to_l2_levels :
      (ℕ → ℕ) → Levels api → Side → Option ℕ → Option ℕ → Option ℕ → Option (List InnerLevel)
  unfolding build_levels
  map_to_l2_levels log10_floor orders side n_levels n_sig_figs mantissa =
      if is_limit n_levels 0
      then some []
      else build_levels log10_floor n_levels n_sig_figs mantissa side
          (levels_of (from_best side orders)) none []

  unfoldable pub to_l2_snapshot :
      (ℕ → ℕ) → OrderBook api → Option ℕ → Option ℕ → Option ℕ → Option (Snapshot InnerLevel)
  unfolding map_to_l2_levels
  to_l2_snapshot log10_floor b n_levels n_sig_figs mantissa = do
    bids ← map_to_l2_levels log10_floor b.bids bid n_levels n_sig_figs mantissa
    asks ← map_to_l2_levels log10_floor b.asks ask n_levels n_sig_figs mantissa
    some (record { bids = bids; asks = asks })
