-- ===== src/Feed/WireCache.antt =====
-- `BookWireCache` of server/src/servers/websocket_server.rs: the encoded books of the L2 views that
-- were published last, which all connections share. `print` stands for `to_str` of a price or a size,
-- `encode` for `serde_json::to_string`, and the address of the shared snapshots for their pointer.
pub mod Exact
use order_book_server.Base.{
  ℕ, ◌+◌, ◌*◌, Bool, true, false, not, ◌&&◌, Option, none, some, List, [], ◌∷◌, map, ltb, leb, ◌==◌,
  if◌then◌else◌, length, nat_eq, lookup, erase_key, Eq, Map,
}
use order_book_server.Base.Result.{Result, ok, err}
use order_book_server.OrderBook.Types.{Text}
use order_book_server.OrderBook.{Snapshot, truncate}
use order_book_server.OrderBook.Aggregation.{InnerLevel}
use order_book_server.Subscription.{
  Subscription, trades, l2_book, l4_book, option_beq, is_hip4_coin,
}
use order_book_server.Subscription.Equal.{subscription_eq}

pub record Level : Type 0 where
  pub px : Text
  pub sz : Text
  pub n : ℕ

pub record L2Book : Type 0 where
  pub coin : Text
  pub time : ℕ
  pub height : ℕ
  pub bids : List Level
  pub asks : List Level

-- The views of a coin by the figures and the mantissa, and where the views of all coins are.
pub record L2Snapshots : Type 0 where
  pub address : ℕ
  pub by_coin : Map Text (List ((Option ℕ × Option ℕ) × Snapshot InnerLevel))

abbrev pub view_at :
    Option ℕ
    → Option ℕ
    → List ((Option ℕ × Option ℕ) × Snapshot InnerLevel)
    → Option (Snapshot InnerLevel)
view_at n_sig_figs mantissa [] = none
view_at n_sig_figs mantissa (((f, m), s) ∷ views) =
    let rest = view_at n_sig_figs mantissa views in
    if option_beq f n_sig_figs && option_beq m mantissa then some s else rest

abbrev pub find_view :
    Option ℕ
    → Option ℕ
    → Option (List ((Option ℕ × Option ℕ) × Snapshot InnerLevel))
    → Option (Snapshot InnerLevel)
find_view n_sig_figs mantissa none = none
find_view n_sig_figs mantissa (some views) = view_at n_sig_figs mantissa views

-- `unwrap_or(DEFAULT_LEVELS)`
abbrev pub levels_or_default : Option ℕ → ℕ
levels_or_default none = 20
levels_or_default (some n) = n

-- a pointer, a time and a height
abbrev pub Position : Type 0
Position = ℕ × ℕ × ℕ

pub record BookWireCache : Type 0 where
  pub position : Option Position
  pub source : Option L2Snapshots
  pub entries : List (Subscription × Text)
  pub bytes : ℕ

abbrev pub empty_wire_cache : BookWireCache
empty_wire_cache = record { position = none; source = none; entries = []; bytes = 0 }

pub data WireError : Type 0 where
  not_encoded frame_too_long : WireError

abbrev pub Encoded : Type 0
Encoded = Result WireError (Option Text)

abbrev pub max_wire_bytes : ℕ
max_wire_bytes = 16 * 1024 * 1024

module _ (print : ℕ → Text) (encode : L2Book → Option Text) where
  -- `From<InnerLevel> for Level`
  abbrev pub level_from : InnerLevel → Level
  level_from l = record { px = print l.px; sz = print l.sz; n = l.n }

  abbrev pub book_of : Text → ℕ → ℕ → Snapshot InnerLevel → L2Book
  book_of coin time height s = record {
    coin = coin;
    time = time;
    height = height;
    bids = map level_from s.bids;
    asks = map level_from s.asks;
  }

  -- the levels, for a coin without a view as well
  unfoldable pub wire_levels :
      L2Snapshots → Text → Option ℕ → Option ℕ → Option ℕ → Option (Snapshot InnerLevel)
  unfolding truncate
  wire_levels snapshots coin n_sig_figs n_levels mantissa =
      elim (find_view n_sig_figs mantissa (snapshots.by_coin coin)) [
        | some s ↦ some (truncate s (levels_or_default n_levels))
        | none ↦ if is_hip4_coin coin then some (record { bids = []; asks = [] }) else none
      ]

  abbrev pub bounded_text : Option Text → Encoded
  bounded_text none = err not_encoded
  bounded_text (some text) =
      if ltb max_wire_bytes (length text) then err frame_too_long else ok (some text)

  abbrev pub encode_levels : Text → ℕ → ℕ → Option (Snapshot InnerLevel) → Encoded
  encode_levels coin time height none = ok none
  encode_levels coin time height (some s) = bounded_text (encode (book_of coin time height s))

  -- what `get` computes where the cache has no entry
  unfoldable pub encode_view : L2Snapshots → ℕ → ℕ → Subscription → Encoded
  unfolding wire_levels
  encode_view snapshots time height (trades coin) = ok none
  encode_view snapshots time height (l4_book coin) = ok none
  encode_view snapshots time height (l2_book coin n_sig_figs n_levels mantissa) =
      encode_levels coin time height (wire_levels snapshots coin n_sig_figs n_levels mantissa)

  abbrev pub is_cacheable : Option Position → ℕ → ℕ → Bool
  is_cacheable none time height = true
  is_cacheable (some (address, cached_time, cached_height)) time height =
      leb cached_height height && leb cached_time time

  abbrev pub is_at : Option Position → L2Snapshots → ℕ → ℕ → Bool
  is_at none snapshots time height = false
  is_at (some (address, cached_time, cached_height)) snapshots time height =
      address == snapshots.address && cached_time == time && cached_height == height

  -- The cache on a position that has advanced.
  abbrev pub advance : BookWireCache → L2Snapshots → ℕ → ℕ → BookWireCache
  advance cache snapshots time height =
      if is_cacheable cache.position time height && not (is_at cache.position snapshots time height)
      then record {
        position = some (snapshots.address, time, height);
        source = some snapshots;
        entries = [];
        bytes = 0;
      }
      else cache

  abbrev pub cached_text : BookWireCache → L2Snapshots → ℕ → ℕ → Subscription → Option Text
  cached_text cache snapshots time height subscription =
      if is_at cache.position snapshots time height then lookup subscription cache.entries else none

  -- `entries.insert`, within 2 MiB and 1024 entries
  abbrev pub keep_encoded : Bool → BookWireCache → Subscription → Encoded → BookWireCache
  keep_encoded cacheable cache subscription (err e) = cache
  keep_encoded cacheable cache subscription (ok none) = cache
  keep_encoded cacheable cache subscription (ok (some text)) =
      if cacheable
        && leb (cache.bytes + length text) (2 * 1024 * 1024)
        && ltb (length cache.entries) 1024
      then record cache {
        bytes = cache.bytes + length text;
        entries = (subscription, text) ∷ erase_key subscription cache.entries;
      }
      else cache

  abbrev pub answer_from :
      Bool → BookWireCache → Subscription → Encoded → Option Text → BookWireCache × Encoded
  answer_from cacheable cache subscription computed (some text) = (cache, ok (some text))
  answer_from cacheable cache subscription computed none =
      (keep_encoded cacheable cache subscription computed, computed)

  abbrev pub is_book : Subscription → Bool
  is_book (trades coin) = false
  is_book (l2_book coin n_sig_figs n_levels mantissa) = true
  is_book (l4_book coin) = false

  -- `BookWireCache::get`
  unfoldable pub get : BookWireCache → Subscription → L2Snapshots → ℕ → ℕ → BookWireCache × Encoded
  unfolding encode_view
  get cache subscription snapshots time height =
      let now = advance cache snapshots time height in
      let answered =
        answer_from (is_cacheable cache.position time height) now subscription
          (encode_view snapshots time height subscription)
          (cached_text now snapshots time height subscription) in
      if is_book subscription then answered else (cache, ok none)
