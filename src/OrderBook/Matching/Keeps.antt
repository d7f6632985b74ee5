-- ===== src/OrderBook/Matching/Keeps.antt =====
-- Each operation of the book keeps it uncrossed, and so does any sequence of them.
use order_book_server.Base.{
  ℕ, ◌<◌, ◌≡◌, refl, sym, ap, subst, ◌∙◌, ◌⊎◌, inl, inr, arith, Bool, true, false, Option, none,
  some, List, [], ◌∷◌, nat_eq, Bool-cases, All, All-imp, map_remove, is_nil,
}
use order_book_server.Queue.Plain.{plain_queue}
use order_book_server.OrderBook.BTree
use order_book_server.OrderBook.Types.{Side, ask, bid, InnerOrder, is_positive}
use order_book_server.OrderBook.{
  OrderBook, Levels, match_order, side_of, set_side, opposite, settle, rest_order, after_match,
  add_order_before, add_order_to_book, insert_at, cancel_at, cancel_order, modify_in, modify_at,
  modify_sz, remove_oids, entry,
}
use order_book_server.OrderBook.Matching.Level.{Makers}
use order_book_server.OrderBook.Matching.Crossing.{prices, Beyond}
use order_book_server.OrderBook.Matching.Uncrossed.{
  Ascending, match_order-Uncrossed, prices-remove, Ascending-remove, match_order-Kept,
}
use order_book_server.OrderBook.Matching.Resting.{
  IsUncrossed, cancel_at-IsUncrossed, modify_ref-IsUncrossed, set_side-Fewer, match_order-prices,
  prices-insert, Ascending-insert, side_up, All-prices,
}

module _ {O : Type 0} ⦃o : InnerOrder O⦄ where
  -- `cancel_order` keeps the book uncrossed.
  pub cancel_order-IsUncrossed :
      (b : OrderBook (plain_queue {K = ℕ} {T = O})) (oid : ℕ)
      → IsUncrossed b
      → IsUncrossed (cancel_order plain_queue b oid).0
  unfolding cancel_order
  cancel_order-IsUncrossed b oid v = go (b.oid_to_side_px oid)
    where
      b' : OrderBook (plain_queue {K = ℕ} {T = O})
      b' = record b { oid_to_side_px = map_remove b.oid_to_side_px oid }

      v' : IsUncrossed b'
      v' = record { bids_up = v.bids_up; asks_up = v.asks_up; apart = v.apart }

      go : (place : Option (Side × ℕ)) → IsUncrossed (cancel_at plain_queue b' oid place).0
      go none = v'
      go (some (side, px)) =
          cancel_at-IsUncrossed b' oid side px (BTree.get px (side_of plain_queue b' side)) refl v'

  modify_in-IsUncrossed :
      (b : OrderBook (plain_queue {K = ℕ} {T = O})) (oid sz : ℕ) (side : Side) (px : ℕ)
      (found : Option (Makers O))
      → BTree.get px (side_of plain_queue b side) ≡ found
      → IsUncrossed b
      → IsUncrossed (modify_in plain_queue b oid sz side px found).0
  modify_in-IsUncrossed b oid sz side px none found v = v
  modify_in-IsUncrossed b oid sz side px (some list) found v =
      modify_ref-IsUncrossed b sz side px list (plain_queue.node_value_mut list oid) found v

  -- `modify_sz` keeps the book uncrossed.
  pub modify_sz-IsUncrossed :
      (b : OrderBook (plain_queue {K = ℕ} {T = O})) (oid sz : ℕ)
      → IsUncrossed b
      → IsUncrossed (modify_sz plain_queue b oid sz).0
  unfolding modify_sz
  modify_sz-IsUncrossed b oid sz v = go (b.oid_to_side_px oid)
    where
      go : (place : Option (Side × ℕ)) → IsUncrossed (modify_at plain_queue b oid sz place).0
      go none = v
      go (some (side, px)) =
          modify_in-IsUncrossed b oid sz side px (BTree.get px (side_of plain_queue b side)) refl v

  -- What an order has to be for its side: beyond it no level of the other side.
  abbrev pub Passive : OrderBook (plain_queue {K = ℕ} {T = O}) → O → Type 0
  Passive b order =
      All (Beyond (o.side order) (o.limit_px order))
        (side_of plain_queue b (opposite (o.side order)))

  -- A side with a price that is passive.
  abbrev pub With :
      Levels (plain_queue {K = ℕ} {T = O}) → ℕ → Levels (plain_queue {K = ℕ} {T = O}) → Type 1
  With levels px levels' =
      Ascending levels' × ((P : ℕ → Type 0) → P px → All P (prices levels) → All P (prices levels'))

  add_order_to_book-With :
      (levels : Levels (plain_queue {K = ℕ} {T = O})) (order : O) (before : Option ℕ)
      → Ascending levels
      → With levels (o.limit_px order) (add_order_to_book plain_queue levels order before).0
  unfolding add_order_to_book
  add_order_to_book-With levels order none up = (
    Ascending-insert (o.limit_px order) _ levels up,
    λ P p all. prices-insert P (o.limit_px order) _ levels p all,
  )
  add_order_to_book-With levels order (some anchor) up = go (
      plain_queue.insert_before (entry plain_queue (o.limit_px order) levels) anchor (o.oid order)
        order)
    where
      go :
          (r : Makers O × Bool)
          → With levels (o.limit_px order) (insert_at plain_queue levels (o.limit_px order) r).0
      go (q, done) = elim (Bool-cases (is_nil q)) [
        | inl empty ↦ rw empty (
          Ascending-remove (o.limit_px order) (BTree.insert (o.limit_px order) q levels)
              (Ascending-insert (o.limit_px order) q levels up),
          λ P p all.
              prices-remove P (o.limit_px order) (BTree.insert (o.limit_px order) q levels)
                (prices-insert P (o.limit_px order) q levels p all),
        )
        | inr some_left ↦ rw some_left (
          Ascending-insert (o.limit_px order) q levels up,
          λ P p all. prices-insert P (o.limit_px order) q levels p all,
        )
      ]

  rest_at-IsUncrossed :
      (b : OrderBook (plain_queue {K = ℕ} {T = O})) (side : Side) (px : ℕ)
      (levels : Levels (plain_queue {K = ℕ} {T = O}))
      → IsUncrossed b
      → All (Beyond side px) (side_of plain_queue b (opposite side))
      → With (side_of plain_queue b side) px levels
      → IsUncrossed (set_side plain_queue b side levels)
  rest_at-IsUncrossed b bid px levels v passive (up, kept) = record {
    bids_up = up;
    asks_up = v.asks_up;
    apart =
        kept (λ x. All (λ y. x < y) (prices b.asks))
          (All-prices (λ y. px < y) b.asks (All-imp (λ l out. ground arith) b.asks passive))
          v.apart;
  }
  rest_at-IsUncrossed b ask px levels v passive (up, kept) = record {
    bids_up = v.bids_up;
    asks_up = up;
    apart = both b.bids passive v.apart;
  }
    where
      both :
          (bids : List (ℕ × Makers O))
          → All (Beyond ask px) bids
          → All (λ x. All (λ y. x < y) (prices b.asks)) (prices bids)
          → All (λ x. All (λ y. x < y) (prices levels)) (prices bids)
      both [] out all = tt
      both ((x, q) ∷ bids) out all = (kept (λ y. x < y) (ground arith) all.0, both bids out.1 all.1)

  settle-IsUncrossed :
      (b : OrderBook (plain_queue {K = ℕ} {T = O})) (order : O)
      (r : Levels (plain_queue {K = ℕ} {T = O}) × Bool)
      → IsUncrossed (set_side plain_queue b (o.side order) r.0)
      → IsUncrossed (settle plain_queue b order r).0
  settle-IsUncrossed b order (levels, false) v = v
  settle-IsUncrossed b order (levels, true) v = record {
    bids_up = v.bids_up;
    asks_up = v.asks_up;
    apart = v.apart;
  }

  rest_order-IsUncrossed :
      (b : OrderBook (plain_queue {K = ℕ} {T = O})) (order : O) (before : Option ℕ)
      → IsUncrossed b
      → (o.sz order ≡ 0) ⊎ Passive b order
      → IsUncrossed (rest_order plain_queue b order before).0
  unfolding rest_order
  rest_order-IsUncrossed b order before v left = elim (Bool-cases (is_positive (o.sz order))) [
    | inr spent ↦ rw spent v
    | inl more ↦
        let levels = side_of plain_queue b (o.side order) in
        let r = add_order_to_book plain_queue levels order before in
        let passive : Passive b order = elim left [
          | inl none_left ↦ ground arith
          | inr passive ↦ passive
        ] in
        rw more (
          settle-IsUncrossed b order r (
            rest_at-IsUncrossed b (o.side order) (o.limit_px order) r.0 v passive
              (add_order_to_book-With levels order before (side_up b (o.side order) v))))
  ]

  side_of-set_side :
      (b : OrderBook (plain_queue {K = ℕ} {T = O})) (side : Side)
      (levels : Levels (plain_queue {K = ℕ} {T = O}))
      → side_of plain_queue (set_side plain_queue b side levels) side ≡ levels
  side_of-set_side b ask levels = refl
  side_of-set_side b bid levels = refl

  after_match-IsUncrossed :
      (b : OrderBook (plain_queue {K = ℕ} {T = O})) (side : Side) (before : Option ℕ)
      (makers : Levels (plain_queue {K = ℕ} {T = O})) (order : O) (oids : List ℕ)
      → opposite (o.side order) ≡ side
      → IsUncrossed (set_side plain_queue b side makers)
      → (o.sz order ≡ 0) ⊎ All (Beyond (o.side order) (o.limit_px order)) makers
      → IsUncrossed (after_match plain_queue b side before (makers, order, oids)).0
  unfolding after_match
  after_match-IsUncrossed b side before makers order oids facing v left =
      let b1 = set_side plain_queue b side makers in
      rest_order-IsUncrossed (record b1 { oid_to_side_px = remove_oids oids b1.oid_to_side_px })
        order before (record { bids_up = v.bids_up; asks_up = v.asks_up; apart = v.apart })
        (elim left [ inl spent ↦ inl spent | inr out ↦ inr (here (o.side order) facing out) ])
    where
      b2 : OrderBook (plain_queue {K = ℕ} {T = O})
      b2 = record (set_side plain_queue b side makers) {
        oid_to_side_px = remove_oids oids (set_side plain_queue b side makers).oid_to_side_px;
      }

      same_sides :
          (s : Side)
          → side_of plain_queue b2 s ≡ side_of plain_queue (set_side plain_queue b side makers) s
      same_sides ask = refl
      same_sides bid = refl

      here :
          (own : Side)
          → opposite own ≡ side
          → All (Beyond (o.side order) (o.limit_px order)) makers
          → All (Beyond (o.side order) (o.limit_px order)) (side_of plain_queue b2 (opposite own))
      here own facing out =
          subst (All (Beyond (o.side order) (o.limit_px order)))
            (sym (
              ap (side_of plain_queue b2) facing
              ∙ same_sides side
              ∙ side_of-set_side b side makers))
            out

  -- `add_order_before` keeps a book over bare lists uncrossed, with ascending prices: what is left of
  -- an order rests only where no level of the other side is within its limit.
  pub add_order_before-IsUncrossed :
      (b : OrderBook (plain_queue {K = ℕ} {T = O})) (order : O) (before : Option ℕ)
      → IsUncrossed b
      → IsUncrossed (add_order_before plain_queue b order before).0
  unfolding add_order_before
  add_order_before-IsUncrossed b order before v =
      let side = opposite (o.side order) in
      let makers = side_of plain_queue b side in
      let r = match_order plain_queue makers order in
      let up = side_up b side v in
      let (up', left) = match_order-Uncrossed makers order up in
      let (same_side, same_px) = match_order-Kept makers order up in
      after_match-IsUncrossed b side before r.0 r.1 r.2 (ap opposite same_side)
        (set_side-Fewer b side r.0 v (up', λ P all. match_order-prices P makers order up all))
        (elim left [
          | inl spent ↦ inl spent
          | inr out ↦ inr (
              subst (λ s. All (Beyond s (o.limit_px r.1)) r.0) (sym same_side)
                (subst (λ px. All (Beyond (o.side order) px) r.0) (sym same_px) out))
        ])
