-- ===== src/OrderBook/Matching/Resting.antt =====
-- The book stays uncrossed: every bid below every ask, whatever order comes or goes.
use mathlib.Core.List.{reverse-reverse}
use order_book_server.Base.{
  ℕ, ◌<◌, ◌≡◌, sym, ap, subst, ◌∙◌, inl, inr, arith, Option, none, some, List, [], ◌∷◌, reverse,
  ◌==◌, ltb, nat_eq, Bool-cases, All, All-imp, is_nil,
}
use order_book_server.Queue.Plain.{plain_queue}
use order_book_server.OrderBook.BTree
use order_book_server.OrderBook.Types.{Side, ask, bid, InnerOrder}
use order_book_server.OrderBook.{
  OrderBook, match_levels, match_order, order_iter, side_of, set_side, cancel_in, modify_ref,
}
use order_book_server.OrderBook.Matching.Level.{Makers}
use order_book_server.OrderBook.Matching.Crossing.{prices, match_levels-WalkedBy, prices-reverse}
use order_book_server.OrderBook.Matching.Uncrossed.{
  Ascending, prices-remove, Ascending-remove, order_iter-Sorted,
}

module _ {V : Type 0} where
  pub prices-insert :
      (P : ℕ → Type 0) (px : ℕ) (q : V) (levels : List (ℕ × V))
      → P px
      → All P (prices levels)
      → All P (prices (BTree.insert px q levels))
  prices-insert P px q [] p all = (p, tt)
  prices-insert P px q ((y, w) ∷ levels) p all = elim (Bool-cases (y == px)) [
    | inl hit ↦ rw hit (p, all.1)
    | inr miss ↦ elim (Bool-cases (ltb px y)) [
      | inl before ↦ rw (miss, before) (p, (all.0, all.1))
      | inr behind ↦ rw (miss, behind) (all.0, prices-insert P px q levels p all.1)
    ]
  ]

  pub Ascending-insert :
      (px : ℕ) (q : V) (levels : List (ℕ × V))
      → Ascending levels
      → Ascending (BTree.insert px q levels)
  Ascending-insert px q [] up = (tt, tt)
  Ascending-insert px q ((y, w) ∷ levels) up = elim (Bool-cases (y == px)) [
    | inl hit ↦ rw hit (subst (λ x. All (λ z. x < z) (prices levels)) (ground arith) up.0, up.1)
    | inr miss ↦ elim (Bool-cases (ltb px y)) [
      | inl before ↦
          let below : px < y = ground arith in
          rw (miss, before)
            ((below, All-imp (λ z above. omega (arith, below, above)) (prices levels) up.0), up)
      | inr behind ↦
          rw (miss, behind)
            (
              prices-insert (λ z. y < z) px q levels (ground arith) up.0,
              Ascending-insert px q levels up.1,
            )
    ]
  ]

  prices-remove_all :
      (P : ℕ → Type 0) (keys : List ℕ) (levels : List (ℕ × V))
      → All P (prices levels)
      → All P (prices (BTree.remove_all keys levels))
  prices-remove_all P [] levels all = all
  prices-remove_all P (px ∷ keys) levels all =
      prices-remove_all P keys (BTree.remove px levels) (prices-remove P px levels all)

  pub All-prices :
      (P : ℕ → Type 0) (levels : List (ℕ × V)) → All (λ l. P l.0) levels → All P (prices levels)
  All-prices P [] all = tt
  All-prices P (l ∷ levels) all = (all.0, All-prices P levels all.1)

module _ {O : Type 0} ⦃o : InnerOrder O⦄ where
  -- `match_order` brings no new price.
  pub match_order-prices :
      (P : ℕ → Type 0) (makers : List (ℕ × Makers O)) (taker : O)
      → Ascending makers
      → All P (prices makers)
      → All P (prices (match_order plain_queue makers taker).0)
  unfolding match_order
  match_order-prices P makers taker up all =
      let side = o.side taker in
      let r =
        match_levels plain_queue side (o.limit_px taker) (order_iter plain_queue side makers)
          taker in
      let walk =
        match_levels-WalkedBy side (o.limit_px taker) (order_iter plain_queue side makers) taker
          (order_iter-Sorted side makers up) in
      prices-remove_all P r.3 (order_iter plain_queue side r.0)
        (back side makers r.0 walk.same_prices all)
    where
      back :
          (side : Side) (makers walked : List (ℕ × Makers O))
          → prices walked ≡ prices (order_iter plain_queue side makers)
          → All P (prices makers)
          → All P (prices (order_iter plain_queue side walked))
      back bid makers walked same all = subst (All P) (sym same) all
      back ask makers walked same all =
          subst (All P)
            (sym (
              prices-reverse walked
              ∙ ap reverse (same ∙ prices-reverse makers)
              ∙ reverse-reverse (prices makers)))
            all

  -- The sides of a book that is in order.
  pub record Uncrossed (bids asks : List (ℕ × Makers O)) : Type 0 where
    pub bids_up : Ascending bids
    pub asks_up : Ascending asks
    pub apart : All (λ x. All (λ y. x < y) (prices asks)) (prices bids)

  abbrev pub IsUncrossed : OrderBook (plain_queue {K = ℕ} {T = O}) → Type 0
  IsUncrossed b = Uncrossed b.bids b.asks

  -- A side whose prices are of the old ones.
  abbrev pub Fewer : List (ℕ × Makers O) → List (ℕ × Makers O) → Type 1
  Fewer before after =
      Ascending after × ((P : ℕ → Type 0) → All P (prices before) → All P (prices after))

  pub set_side-Fewer :
      (b : OrderBook plain_queue) (side : Side) (levels : List (ℕ × Makers O))
      → IsUncrossed b
      → Fewer (side_of plain_queue b side) levels
      → IsUncrossed (set_side plain_queue b side levels)
  set_side-Fewer b bid levels v (up, fewer) = record {
    bids_up = up;
    asks_up = v.asks_up;
    apart = fewer (λ x. All (λ y. x < y) (prices b.asks)) v.apart;
  }
  set_side-Fewer b ask levels v (up, fewer) = record {
    bids_up = v.bids_up;
    asks_up = up;
    apart = All-imp (λ x below. fewer (λ y. x < y) below) (prices b.bids) v.apart;
  }

  get-price :
      (P : ℕ → Type 0) (px : ℕ) (q : Makers O) (levels : List (ℕ × Makers O))
      → BTree.get px levels ≡ some q
      → All P (prices levels)
      → P px
  get-price P px q [] found all = cc
  get-price P px q ((y, w) ∷ levels) found all = elim (Bool-cases (y == px)) [
    | inl hit ↦ subst P (ground arith) all.0
    | inr miss ↦ get-price P px q levels (ground arith) all.1
  ]

  -- A level put back in its place.
  insert-Fewer :
      (px : ℕ) (q q' : Makers O) (levels : List (ℕ × Makers O))
      → BTree.get px levels ≡ some q
      → Ascending levels
      → Fewer levels (BTree.insert px q' levels)
  insert-Fewer px q q' levels found up = (
    Ascending-insert px q' levels up,
    λ P all. prices-insert P px q' levels (get-price P px q levels found all) all,
  )

  remove-Fewer :
      (before levels : List (ℕ × Makers O)) (px : ℕ)
      → Fewer before levels
      → Fewer before (BTree.remove px levels)
  remove-Fewer before levels px (up, fewer) =
      (Ascending-remove px levels up, λ P all. prices-remove P px levels (fewer P all))

  pub side_up :
      (b : OrderBook plain_queue) (side : Side)
      → IsUncrossed b
      → Ascending (side_of plain_queue b side)
  side_up b ask v = v.asks_up
  side_up b bid v = v.bids_up

  pub cancel_at-IsUncrossed :
      (b : OrderBook plain_queue) (oid : ℕ) (side : Side) (px : ℕ) (found : Option (Makers O))
      → BTree.get px (side_of plain_queue b side) ≡ found
      → IsUncrossed b
      → IsUncrossed (cancel_in plain_queue b oid side px found).0
  cancel_at-IsUncrossed b oid side px none found v = v
  cancel_at-IsUncrossed b oid side px (some list) found v =
      let left = (plain_queue.remove_node list oid).0 in
      let levels = side_of plain_queue b side in
      let put = insert-Fewer px list left levels found (side_up b side v) in
      elim (Bool-cases (is_nil left)) [
        | inl empty ↦ rw empty (
            set_side-Fewer b side (BTree.remove px (BTree.insert px left levels)) v
              (remove-Fewer levels (BTree.insert px left levels) px put))
        | inr some_left ↦ rw some_left (set_side-Fewer b side (BTree.insert px left levels) v put)
      ]

  pub modify_ref-IsUncrossed :
      (b : OrderBook plain_queue) (sz : ℕ) (side : Side) (px : ℕ) (list : Makers O)
      (at : Option (O × (O → Makers O)))
      → BTree.get px (side_of plain_queue b side) ≡ some list
      → IsUncrossed b
      → IsUncrossed (modify_ref plain_queue b sz side px at).0
  modify_ref-IsUncrossed b sz side px list none found v = v
  modify_ref-IsUncrossed b sz side px list (some (old, put)) found v = set_side-Fewer b side _ v (
      insert-Fewer px list (put (o.modify_sz old sz)) (side_of plain_queue b side) found
        (side_up b side v))
