-- ===== src/Orders.antt =====
-- server/src/types: the orders of the book and the events of the node, as inner.rs, mod.rs and
-- node_data.rs have them. `A` stands for `alloy`'s `Address`. A time of a status or of a batch is its
-- milliseconds before or after 1970; the times of orders and fills are `u64` in the code.
pub mod Decimals
use order_book_server.Base.{
  ℤ, ℕ, ◌-◌, ◌≡◌, refl, sym, ap, Bool, true, false, Option, none, some, List, [], ◌∷◌, ◌&&◌, ◌||◌,
  not, if◌then◌else◌, min, map_option, nat_eq,
}
use order_book_server.Base.Result.{Result, ok, err, ◌>>=◌}
use order_book_server.OrderBook.Types.{Side, ask, bid, Text, text_beq, InnerOrder, saturating_sub}

pub record InnerL4Order (A : Type 0) : Type 0 where
  pub user : A
  pub coin : Text
  pub side : Side
  pub limit_px : ℕ
  pub sz : ℕ
  pub oid : ℕ
  pub timestamp : ℕ
  pub trigger_condition : Text
  pub is_trigger : Bool
  pub trigger_px : Text
  pub is_position_tpsl : Bool
  pub reduce_only : Bool
  pub order_type : Text
  pub tif : Option Text
  pub cloid : Option Text

pub record L4Order (A : Type 0) : Type 0 where
  pub user : Option A
  pub coin : Text
  pub side : Side
  pub limit_px : Text
  pub sz : Text
  pub oid : ℕ
  pub timestamp : ℕ
  pub trigger_condition : Text
  pub is_trigger : Bool
  pub trigger_px : Text
  pub is_position_tpsl : Bool
  pub reduce_only : Bool
  pub order_type : Text
  pub tif : Option Text
  pub cloid : Option Text

abbrev pub triggered_text : Text
triggered_text = b'T' ∷ b'r' ∷ b'i' ∷ b'g' ∷ b'g' ∷ b'e' ∷ b'r' ∷ b'e' ∷ b'd' ∷ []

abbrev pub gtc_text : Text
gtc_text = b'G' ∷ b't' ∷ b'c' ∷ []

abbrev pub ioc_text : Text
ioc_text = b'I' ∷ b'o' ∷ b'c' ∷ []

abbrev pub open_text : Text
open_text = b'o' ∷ b'p' ∷ b'e' ∷ b'n' ∷ []

abbrev pub zero_text : Text
zero_text = b'0' ∷ b'.' ∷ b'0' ∷ []

abbrev pub status_triggered : Text
status_triggered = b't' ∷ b'r' ∷ b'i' ∷ b'g' ∷ b'g' ∷ b'e' ∷ b'r' ∷ b'e' ∷ b'd' ∷ []

module _ {A : Type 0} where
  abbrev pub decrement_sz : InnerL4Order A → ℕ → InnerL4Order A
  decrement_sz a dec = record a { sz = saturating_sub a.sz dec }

  abbrev pub modify_sz : InnerL4Order A → ℕ → InnerL4Order A
  modify_sz a sz = record a { sz = sz }

  -- the taker, the maker and the size matched
  abbrev pub fill : InnerL4Order A → InnerL4Order A → InnerL4Order A × InnerL4Order A × ℕ
  fill taker maker =
      let match_sz = min taker.sz maker.sz in
      (decrement_sz taker match_sz, decrement_sz maker match_sz, match_sz)

  abbrev pub convert_trigger : InnerL4Order A → ℕ → InnerL4Order A
  convert_trigger a ts =
      if a.is_trigger
      then record a {
        trigger_px = zero_text;
        trigger_condition = triggered_text;
        is_trigger = false;
        timestamp = ts;
        tif = some gtc_text;
      }
      else a

  instance abbrev pub l4_order : InnerOrder (InnerL4Order A)
  l4_order = record {
    coin = λ a. a.coin;
    oid = λ a. a.oid;
    side = λ a. a.side;
    limit_px = λ a. a.limit_px;
    sz = λ a. a.sz;
    decrement_sz = decrement_sz;
    fill = fill;
    modify_sz = modify_sz;
    convert_trigger = convert_trigger;
    fill_taker_sz = λ t m. refl;
    fill_maker_sz = λ t m. refl;
    fill_taker_oid = λ t m. refl;
    fill_taker_side = λ t m. refl;
    fill_taker_px = λ t m. refl;
    fill_maker_oid = λ t m. refl;
    fill_maker_side = λ t m. refl;
    fill_maker_px = λ t m. refl;
    modify_sz_sz = λ a s. refl;
    modify_sz_oid = λ a s. refl;
    modify_sz_side = λ a s. refl;
    modify_sz_px = λ a s. refl;
  }

pub data ParseError : Type 0 where
  bad_float : ParseError

-- The result of `parse_from_str`, which `parse` stands for: `Decimals.parse_from_str` at the
-- operations of `f64`, or any other.
abbrev pub parsed_as : Option ℕ → Result ParseError ℕ
parsed_as none = err bad_float
parsed_as (some n) = ok n

abbrev pub parsed : (Text → Option ℕ) → Text → Result ParseError ℕ
parsed parse t = parsed_as (parse t)

-- `TryFrom<(Address, L4Order)> for InnerL4Order`, at the price and the size that were parsed
abbrev pub with_numbers : {A : Type 0} → A → L4Order A → ℕ → ℕ → InnerL4Order A
with_numbers user value limit_px sz = record {
  user = user;
  coin = value.coin;
  side = value.side;
  limit_px = limit_px;
  sz = sz;
  oid = value.oid;
  timestamp = value.timestamp;
  trigger_condition = value.trigger_condition;
  is_trigger = value.is_trigger;
  trigger_px = value.trigger_px;
  is_position_tpsl = value.is_position_tpsl;
  reduce_only = value.reduce_only;
  order_type = value.order_type;
  tif = value.tif;
  cloid = value.cloid;
}

unfoldable pub try_from :
    {A : Type 0} → (Text → Option ℕ) → A → L4Order A → Result ParseError (InnerL4Order A)
try_from parse user value = do
  limit_px ← parsed parse value.limit_px
  sz ← parsed parse value.sz
  ok (with_numbers user value limit_px sz)

-- `From<InnerL4Order> for L4Order`; `to_str` stands for `Decimals.to_str` at the operations of `f64`.
unfoldable pub from : {A : Type 0} → (ℕ → Text) → InnerL4Order A → L4Order A
from to_str value = record {
  user = some value.user;
  coin = value.coin;
  side = value.side;
  limit_px = to_str value.limit_px;
  sz = to_str value.sz;
  oid = value.oid;
  timestamp = value.timestamp;
  trigger_condition = value.trigger_condition;
  is_trigger = value.is_trigger;
  trigger_px = value.trigger_px;
  is_position_tpsl = value.is_position_tpsl;
  reduce_only = value.reduce_only;
  order_type = value.order_type;
  tif = value.tif;
  cloid = value.cloid;
}

pub data OrderDiff : Type 0 where
  new_order : Text → Option ℕ → OrderDiff
  update : Text → Text → OrderDiff
  removal : OrderDiff

pub data InnerOrderDiff : Type 0 where
  inner_new : ℕ → Option ℕ → InnerOrderDiff
  inner_update : ℕ → ℕ → InnerOrderDiff
  inner_remove : InnerOrderDiff

-- `TryFrom<OrderDiff> for InnerOrderDiff`
abbrev pub inner_diff : (Text → Option ℕ) → OrderDiff → Result ParseError InnerOrderDiff
inner_diff parse (new_order sz insert_before) = do
  sz ← parsed parse sz
  ok (inner_new sz insert_before)
inner_diff parse (update orig_sz new_sz) = do
  orig_sz ← parsed parse orig_sz
  new_sz ← parsed parse new_sz
  ok (inner_update orig_sz new_sz)
inner_diff parse removal = ok inner_remove

pub record NodeDataOrderDiff (A : Type 0) : Type 0 where
  pub user : A
  pub oid : ℕ
  pub px : Text
  pub coin : Text
  pub raw_book_diff : OrderDiff

pub record NodeDataOrderStatus (A : Type 0) : Type 0 where
  pub time : ℤ
  pub user : A
  pub status : Text
  pub order : L4Order A

abbrev pub is_ioc : Option Text → Bool
is_ioc none = false
is_ioc (some tif) = text_beq tif ioc_text

unfoldable pub is_inserted_into_book : {A : Type 0} → NodeDataOrderStatus A → Bool
is_inserted_into_book s =
    (text_beq s.status open_text && not s.order.is_trigger && not (is_ioc s.order.tif))
    || (s.order.is_trigger && text_beq s.status status_triggered)

pub record Liquidation : Type 0 where
  pub liquidated_user : Text
  pub mark_px : Text
  pub method : Text

pub record Fill : Type 0 where
  pub coin : Text
  pub px : Text
  pub sz : Text
  pub side : Side
  pub time : ℕ
  pub start_position : Text
  pub dir : Text
  pub closed_pnl : Text
  pub hash : Text
  pub oid : ℕ
  pub crossed : Bool
  pub fee : Text
  pub tid : ℕ
  pub fee_token : Text
  pub liquidation : Option Liquidation

pub record Trade (A : Type 0) : Type 0 where
  pub coin : Text
  pub side : Side
  pub px : Text
  pub sz : Text
  pub hash : Text
  pub time : ℕ
  pub tid : ℕ
  pub users : A × A

-- `Trade::from_fills` at what `fills.remove` gave for the two sides
unfoldable pub from_fills : {A : Type 0} → Option (A × Fill) → Option (A × Fill) → Option (Trade A)
from_fills none bid_side = none
from_fills (some ask_side) none = none
from_fills (some (seller, ask_fill)) (some (buyer, bid_fill)) =
    if not (text_beq ask_fill.coin bid_fill.coin) || not (nat_eq.beq ask_fill.tid bid_fill.tid)
    then none
    else some (record {
      coin = ask_fill.coin;
      side = if ask_fill.crossed then ask else bid;
      px = ask_fill.px;
      sz = ask_fill.sz;
      hash = ask_fill.hash;
      time = ask_fill.time;
      tid = ask_fill.tid;
      users = (buyer, seller);
    })
