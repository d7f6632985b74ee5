-- ===== src/OrderBook/Refinement.antt =====
-- The operations of the book over any queue are those of the book over bare lists of entries.
use order_book_server.Base.{
  ℕ, ◌≡◌, refl, sym, ◌∙◌, ap, Bool, true, false, Option, none, some, List, inl, inr, Bool-cases,
  map_insert, map_remove, nat_eq, is_nil, map_option, has_key, set_value,
}
use mathlib.Core.Path.{ap₂}
use order_book_server.Queue.{QueueApi}
use order_book_server.Queue.Plain.{plain_queue, plain_node_absent, refer}
use order_book_server.OrderBook.Types.{Side, ask, bid, InnerOrder, is_positive}
use order_book_server.OrderBook.BTree
use order_book_server.OrderBook.{
  Levels, OrderBook, match_order, side_of, set_side, opposite, settle, rest_order, after_match,
  cancel_in, modify_ref, modify_in, add_order_before, cancel_at, cancel_order, modify_at, modify_sz,
  add_order_to_book, remove_oids,
}
use order_book_server.OrderBook.View.{
  levels_view, view, order_view, match_order-view, side_view, add_order_to_book-view,
}

module _ {O : Type 0} ⦃o : InnerOrder O⦄ (api : QueueApi ℕ O) where
  abbrev pub result_view : OrderBook api × Bool → OrderBook (plain_queue {K = ℕ} {T = O}) × Bool
  result_view (b, done) = (view api b, done)

  side_of-view :
      (b : OrderBook api) (side : Side)
      → levels_view api (side_of api b side) ≡ side_of plain_queue (view api b) side
  side_of-view b ask = refl
  side_of-view b bid = refl

  set_side-view :
      (b : OrderBook api) (side : Side) (levels : Levels api)
      → view api (set_side api b side levels)
        ≡ set_side plain_queue (view api b) side (levels_view api levels)
  set_side-view b ask levels = refl
  set_side-view b bid levels = refl

  settle-view :
      (b : OrderBook api) (order : O) (r : Levels api × Bool)
      → result_view (settle api b order r) ≡ settle plain_queue (view api b) order (side_view api r)
  settle-view b order (levels, false) = λ i. (set_side-view b (o.side order) levels i, false)
  settle-view b order (levels, true) =
      let place : Side × ℕ = (o.side order, o.limit_px order) in
      λ i. (
        (let b' = set_side-view b (o.side order) levels i in
            record b' { oid_to_side_px = map_insert b'.oid_to_side_px (o.oid order) place }),
        true,
      )

  rest_order-view :
      (b : OrderBook api) (order : O) (before : Option ℕ)
      → result_view (rest_order api b order before)
        ≡ rest_order plain_queue (view api b) order before
  unfolding rest_order
  rest_order-view b order before = elim (Bool-cases (is_positive (o.sz order))) [
    | inl left ↦
        let levels = side_of api b (o.side order) in
        rw left (
          settle-view b order (add_order_to_book api levels order before)
          ∙ ap (settle plain_queue (view api b) order) (
              add_order_to_book-view api levels order before
              ∙ ap (λ m. add_order_to_book plain_queue m order before)
                  (side_of-view b (o.side order))))
    | inr spent ↦ rw spent
  ]

  after_match-view :
      (b : OrderBook api) (side : Side) (before : Option ℕ) (r : Levels api × O × List ℕ)
      → result_view (after_match api b side before r)
        ≡ after_match plain_queue (view api b) side before (order_view api r)
  unfolding after_match
  after_match-view b side before (makers, order, oids) =
      let b' = set_side api b side makers in
      rest_order-view (record b' { oid_to_side_px = remove_oids oids b'.oid_to_side_px }) order
        before
      ∙ ap
          (λ c.
            rest_order plain_queue (record c { oid_to_side_px = remove_oids oids c.oid_to_side_px })
              order before)
          (set_side-view b side makers)

  -- `add_order_before` on a book over any implementation of the queue gives the result and the view
  -- of the same operation on a book over bare lists of entries.
  pub add_order_before-view :
      (b : OrderBook api) (order : O) (before : Option ℕ)
      → result_view (add_order_before api b order before)
        ≡ add_order_before plain_queue (view api b) order before
  unfolding add_order_before
  add_order_before-view b order before =
      let side = opposite (o.side order) in
      let r = match_order api (side_of api b side) order in
      let matched =
        match_order-view api (side_of api b side) order
        ∙ ap (λ m. match_order plain_queue m order) (side_of-view b side) in
      after_match-view b side before r
      ∙ ap (after_match plain_queue (view api b) side before) matched

  cancel_in-view :
      (b : OrderBook api) (oid : ℕ) (side : Side) (px : ℕ) (list : Option api.Queue)
      → result_view (cancel_in api b oid side px list)
        ≡ cancel_in plain_queue (view api b) oid side px (map_option api.entries list)
  cancel_in-view b oid side px none = refl
  cancel_in-view b oid side px (some list) =
      let r = api.remove_node list oid in
      let levels = side_of api b side in
      let gone = api.remove_node-entries list oid in
      let put =
        BTree.insert-map_values api.entries px r.0 levels
        ∙ ap (BTree.insert px (api.entries r.0)) (side_of-view b side) in
      let took =
        BTree.remove-map_values api.entries px (BTree.insert px r.0 levels)
        ∙ ap (BTree.remove px) put in
      rw (← gone, api.is_empty-entries r.0)
        (elim (Bool-cases (is_nil (api.entries r.0))) [
          | inl empty ↦ rw empty (λ i. (
            (set_side-view b side (BTree.remove px (BTree.insert px r.0 levels))
                  ∙ ap (set_side plain_queue (view api b) side) took)
                i,
            r.1,
          ))
          | inr left ↦ rw left (λ i. (
            (set_side-view b side (BTree.insert px r.0 levels)
                  ∙ ap (set_side plain_queue (view api b) side) put)
                i,
            r.1,
          ))
        ])

  level-view :
      (b : OrderBook api) (side : Side) (px : ℕ)
      → map_option api.entries (BTree.get px (side_of api b side))
        ≡ BTree.get px (side_of plain_queue (view api b) side)
  level-view b side px =
      sym (BTree.get-map_values api.entries px (side_of api b side))
      ∙ ap (BTree.get px) (side_of-view b side)

  cancel_at-view :
      (b : OrderBook api) (oid : ℕ) (place : Option (Side × ℕ))
      → result_view (cancel_at api b oid place) ≡ cancel_at plain_queue (view api b) oid place
  cancel_at-view b oid none = refl
  cancel_at-view b oid (some (side, px)) =
      cancel_in-view b oid side px (BTree.get px (side_of api b side))
      ∙ ap (cancel_in plain_queue (view api b) oid side px) (level-view b side px)

  -- `cancel_order` on a book over any implementation of the queue gives the result and the view of
  -- the same operation on a book over bare lists of entries.
  pub cancel_order-view :
      (b : OrderBook api) (oid : ℕ)
      → result_view (cancel_order api b oid) ≡ cancel_order plain_queue (view api b) oid
  unfolding cancel_order
  cancel_order-view b oid =
      cancel_at-view (record b { oid_to_side_px = map_remove b.oid_to_side_px oid }) oid
        (b.oid_to_side_px oid)

  modify_in-view :
      (b : OrderBook api) (oid sz : ℕ) (side : Side) (px : ℕ) (list : Option api.Queue)
      → result_view (modify_in api b oid sz side px list)
        ≡ modify_in plain_queue (view api b) oid sz side px (map_option api.entries list)
  modify_in-view b oid sz side px none = refl
  modify_in-view b oid sz side px (some list) = elim (Bool-cases (has_key oid (api.entries list))) [
    | inr absent ↦
        ap (λ r. result_view (modify_ref api b sz side px r)) (api.node_absent list oid absent)
        ∙ sym (
            ap (modify_ref plain_queue (view api b) sz side px)
              (plain_node_absent (api.entries list) oid absent))
    | inl there ↦
        let (v, found, (put, got, shown)) = api.node_there list oid there in
        let q = put (o.modify_sz v sz) in
        let levels = side_of api b side in
        let written =
          BTree.insert-map_values api.entries px q levels
          ∙ ap₂ (BTree.insert px) (shown (o.modify_sz v sz)) (side_of-view b side) in
        ap (λ r. result_view (modify_ref api b sz side px r)) got
        ∙ (λ i. (
          (set_side-view b side (BTree.insert px q levels)
                ∙ ap (set_side plain_queue (view api b) side) written)
              i,
          true,
        ))
        ∙ sym (
            ap
              (λ r.
                modify_ref plain_queue (view api b) sz side px
                  (refer (λ w. set_value oid w (api.entries list)) r))
              found)
  ]

  modify_at-view :
      (b : OrderBook api) (oid sz : ℕ) (place : Option (Side × ℕ))
      → result_view (modify_at api b oid sz place) ≡ modify_at plain_queue (view api b) oid sz place
  modify_at-view b oid sz none = refl
  modify_at-view b oid sz (some (side, px)) =
      modify_in-view b oid sz side px (BTree.get px (side_of api b side))
      ∙ ap (modify_in plain_queue (view api b) oid sz side px) (level-view b side px)

  -- `modify_sz` on a book over any implementation of the queue gives the result and the view of the
  -- same operation on a book over bare lists of entries.
  pub modify_sz-view :
      (b : OrderBook api) (oid sz : ℕ)
      → result_view (modify_sz api b oid sz) ≡ modify_sz plain_queue (view api b) oid sz
  unfolding modify_sz
  modify_sz-view b oid sz = modify_at-view b oid sz (b.oid_to_side_px oid)
