-- ===== src/OrderBook.antt =====
-- server/src/order_book/mod.rs: the limit order book of a coin. Each side maps prices to queues of
-- orders; the queue is an interface, which linked_list.rs implements.
pub mod Types
pub mod BTree
pub mod View
pub mod Refinement
pub mod Aggregation
pub mod Matching
use order_book_server.Base.{
  ℕ, zero, suc, Bool, true, false, Option, none, some, List, [], ◌∷◌, ◌++◌, Map, map_insert,
  map_remove, leb, if◌then◌else◌, length, reverse, take, values, has_key, not, ◌&&◌, nat_eq, ◌==◌,
  ◌||◌,
}
use order_book_server.Queue.{QueueApi}
use order_book_server.OrderBook.Types.{Side, ask, bid, InnerOrder, is_positive, is_zero}
use order_book_server.OrderBook.BTree

-- `Snapshot`, the pair of its array
pub record Snapshot (O : Type 0) : Type 0 where
  pub bids : List O
  pub asks : List O

unfoldable pub truncate : {O : Type 0} → Snapshot O → ℕ → Snapshot O
truncate s n = record { bids = take n s.bids; asks = take n s.asks }

module _ {O : Type 0} (api : QueueApi ℕ O) where
  -- `BTreeMap<Px, LinkedList<Oid, O>>`, by ascending price
  abbrev pub Levels : Type 0
  Levels = List (ℕ × api.Queue)

  pub record OrderBook : Type 0 where
    pub oid_to_side_px : Map ℕ (Side × ℕ)
    pub bids : Levels
    pub asks : Levels

-- the `matches` of `match_order`
abbrev pub matches : Side → ℕ → ℕ → Bool
matches ask limit_px px = leb limit_px px
matches bid limit_px px = leb px limit_px

abbrev pub opposite : Side → Side
opposite ask = bid
opposite bid = ask

abbrev pub remove_oids : List ℕ → Map ℕ (Side × ℕ) → Map ℕ (Side × ℕ)
remove_oids [] m = m
remove_oids (x ∷ oids) m = remove_oids oids (map_remove m x)

-- a `HashSet<Oid>` by its membership test
abbrev pub has_oid : {O : Type 0} ⦃o : InnerOrder O⦄ → ℕ → List O → Bool
has_oid x [] = false
has_oid ⦃o⦄ x (a ∷ orders) = o.oid a == x || has_oid x orders

module _ {O : Type 0} ⦃o : InnerOrder O⦄ where
  -- the `while let` over the last order, here the first of the reversed list
  abbrev pub pop_triggers : (ℕ → Bool) → List O → List O
  pop_triggers both [] = []
  pop_triggers both (a ∷ orders) =
      let rest = pop_triggers both orders in if both (o.oid a) then rest else a ∷ orders

  unfoldable pub remove_triggers : Snapshot O → Snapshot O
  remove_triggers s =
      let both = λ (x : ℕ). has_oid x s.bids && has_oid x s.asks in
      record {
        bids = reverse (pop_triggers both (reverse s.bids));
        asks = reverse (pop_triggers both (reverse s.asks));
      }

  module _ (api : QueueApi ℕ O) where
    unfoldable pub new : OrderBook api
    new = record { oid_to_side_px = λ _. none; bids = []; asks = [] }

    -- `let _unused = list.remove_front()`: of an empty list nothing goes
    abbrev pub drop_front : api.Queue → api.Queue
    drop_front q = elim (api.remove_front q) [ none ↦ q | some q' ↦ q' ]

    -- the test of the maker's size behind a fill
    abbrev pub after_fill : api.Queue → O → api.Queue × List ℕ
    after_fill q maker = if is_zero (o.sz maker) then (drop_front q, o.oid maker ∷ []) else (q, [])

    -- the `while let` of `match_order` at one level, with fuel: the queue, the taker, the filled
    unfoldable pub match_level : ℕ → api.Queue → O → api.Queue × O × List ℕ
    match_level zero q taker = (q, taker, [])
    match_level (suc fuel) q taker = elim (api.head_value_ref_mut_unsafe q) [
      | none ↦ (q, taker, [])
      | some (maker, put) ↦
          let (taker', maker', _) = o.fill taker maker in
          let (q', filled) = after_fill (put maker') maker' in
          let (q'', taker'', filled') = match_level fuel q' taker' in
          if is_zero (o.sz taker') then (q', taker', filled) else (q'', taker'', filled ++ filled')
    ]

    abbrev pub fuel_of : api.Queue → ℕ
    fuel_of q = suc (length (api.to_vec q))

    -- the `for` of `match_order`: the levels, the taker, the filled and `keys_to_remove`
    unfoldable pub match_levels : Side → ℕ → Levels api → O → Levels api × O × List ℕ × List ℕ
    unfolding match_level
    match_levels taker_side limit_px [] taker = ([], taker, [], [])
    match_levels taker_side limit_px ((px, q) ∷ levels) taker =
        let (q', taker', filled) = match_level (fuel_of q) q taker in
        let keys = if api.is_empty q' then px ∷ [] else [] in
        let (levels', taker'', filled', keys') = match_levels taker_side limit_px levels taker' in
        if not (matches taker_side limit_px px)
        then ((px, q) ∷ levels, taker, [], [])
        else if is_zero (o.sz taker')
        then ((px, q') ∷ levels, taker', filled, keys)
        else ((px, q') ∷ levels', taker'', filled ++ filled', keys ++ keys')

    -- `order_iter`; a second time it gives back the ascending order
    abbrev pub order_iter : Side → Levels api → Levels api
    order_iter ask levels = reverse levels
    order_iter bid levels = levels

    unfoldable pub match_order : Levels api → O → Levels api × O × List ℕ
    unfolding match_levels
    match_order maker_orders taker =
        let side = o.side taker in
        let (walked, taker', filled, keys) =
          match_levels side (o.limit_px taker) (order_iter side maker_orders) taker in
        (BTree.remove_all keys (order_iter side walked), taker', filled)

    -- `map.entry(limit_px).or_insert_with(..)`
    abbrev pub entry : ℕ → Levels api → api.Queue
    entry px levels = elim (BTree.get px levels) [ none ↦ api.new | some q ↦ q ]

    abbrev pub insert_at : Levels api → ℕ → api.Queue × Bool → Levels api × Bool
    insert_at levels px (q, inserted) = (
      if api.is_empty q
          then BTree.remove px (BTree.insert px q levels)
          else BTree.insert px q levels,
      inserted,
    )

    unfoldable pub add_order_to_book : Levels api → O → Option ℕ → Levels api × Bool
    add_order_to_book levels order none =
        let px = o.limit_px order in
        (BTree.insert px (api.push_back (entry px levels) (o.oid order) order).0 levels, true)
    add_order_to_book levels order (some before) =
        let px = o.limit_px order in
        insert_at levels px (api.insert_before (entry px levels) before (o.oid order) order)

    abbrev pub side_of : OrderBook api → Side → Levels api
    side_of b ask = b.asks
    side_of b bid = b.bids

    abbrev pub set_side : OrderBook api → Side → Levels api → OrderBook api
    set_side b ask levels = record b { asks = levels }
    set_side b bid levels = record b { bids = levels }

    -- `self.oid_to_side_px.insert` or the early return behind `add_order_to_book`
    abbrev pub settle : OrderBook api → O → Levels api × Bool → OrderBook api × Bool
    settle b order (levels, false) = (set_side b (o.side order) levels, false)
    settle b order (levels, true) =
        let b' = set_side b (o.side order) levels in
        let place : Side × ℕ = (o.side order, o.limit_px order) in
        (record b' { oid_to_side_px = map_insert b'.oid_to_side_px (o.oid order) place }, true)

    -- the second half of `add_order_before`, for the order that is left
    unfoldable pub rest_order : OrderBook api → O → Option ℕ → OrderBook api × Bool
    unfolding add_order_to_book
    rest_order b order insert_before =
        if is_positive (o.sz order)
        then settle b order (add_order_to_book (side_of b (o.side order)) order insert_before)
        else (b, true)

    -- what `add_order_before` does with the result of `match_order` on the makers' side
    unfoldable pub after_match :
        OrderBook api → Side → Option ℕ → Levels api × O × List ℕ → OrderBook api × Bool
    unfolding rest_order
    after_match b maker_side insert_before (makers, order, oids) =
        let b' = set_side b maker_side makers in
        rest_order (record b' { oid_to_side_px = remove_oids oids b'.oid_to_side_px }) order
          insert_before

    unfoldable pub add_order_before : OrderBook api → O → Option ℕ → OrderBook api × Bool
    unfolding match_order after_match
    add_order_before b order insert_before =
        let maker_side = opposite (o.side order) in
        after_match b maker_side insert_before (match_order (side_of b maker_side) order)

    unfoldable pub add_order : OrderBook api → O → OrderBook api
    unfolding add_order_before
    add_order b order = (add_order_before b order none).0

    -- `cancel_order` at the list that `map.get_mut(&px)` gave
    abbrev pub cancel_in : OrderBook api → ℕ → Side → ℕ → Option api.Queue → OrderBook api × Bool
    cancel_in b oid side px none = (b, false)
    cancel_in b oid side px (some list) =
        let (list', success) = api.remove_node list oid in
        let levels = BTree.insert px list' (side_of b side) in
        (set_side b side (if api.is_empty list' then BTree.remove px levels else levels), success)

    -- `cancel_order` at the place that `oid_to_side_px` gave
    abbrev pub cancel_at : OrderBook api → ℕ → Option (Side × ℕ) → OrderBook api × Bool
    cancel_at b oid none = (b, false)
    cancel_at b oid (some (side, px)) = cancel_in b oid side px (BTree.get px (side_of b side))

    unfoldable pub cancel_order : OrderBook api → ℕ → OrderBook api × Bool
    cancel_order b oid =
        cancel_at (record b { oid_to_side_px = map_remove b.oid_to_side_px oid }) oid
          (b.oid_to_side_px oid)

    -- `modify_sz` at the order that `list.node_value_mut(&oid)` gave
    abbrev pub modify_ref :
        OrderBook api → ℕ → Side → ℕ → Option (O × (O → api.Queue)) → OrderBook api × Bool
    modify_ref b sz side px none = (b, false)
    modify_ref b sz side px (some (old_order, put)) =
        let list = put (o.modify_sz old_order sz) in
        (set_side b side (BTree.insert px list (side_of b side)), true)

    abbrev pub modify_in :
        OrderBook api → ℕ → ℕ → Side → ℕ → Option api.Queue → OrderBook api × Bool
    modify_in b oid sz side px none = (b, false)
    modify_in b oid sz side px (some list) = modify_ref b sz side px (api.node_value_mut list oid)

    abbrev pub modify_at : OrderBook api → ℕ → ℕ → Option (Side × ℕ) → OrderBook api × Bool
    modify_at b oid sz none = (b, false)
    modify_at b oid sz (some (side, px)) =
        modify_in b oid sz side px (BTree.get px (side_of b side))

    unfoldable pub modify_sz : OrderBook api → ℕ → ℕ → OrderBook api × Bool
    modify_sz b oid sz = modify_at b oid sz (b.oid_to_side_px oid)

    -- the orders of the levels in turn
    abbrev pub orders_of : Levels api → List O
    orders_of [] = []
    orders_of ((px, q) ∷ levels) = api.to_vec q ++ orders_of levels

    unfoldable pub to_snapshot : OrderBook api → Snapshot O
    to_snapshot b = record { bids = orders_of (reverse b.bids); asks = orders_of b.asks }

    abbrev pub add_orders : OrderBook api → List O → OrderBook api
    add_orders b [] = b
    add_orders b (a ∷ orders) = add_orders (add_order b a) orders

    unfoldable pub from_snapshot : Snapshot O → Bool → OrderBook api
    unfolding remove_triggers new add_order
    from_snapshot snapshot ignore_triggers =
        let s = if ignore_triggers then remove_triggers snapshot else snapshot in
        add_orders (add_orders new s.bids) s.asks
