-- ===== src/OrderBook/Matching/Uncrossed.antt =====
-- `match_order` as a whole: what it leaves of the makers' side does not cross a taker that is left.
use mathlib.Core.List.{reverse-reverse}
use order_book_server.Base.{
  ℕ, ◌<◌, ◌≡◌, sym, ap, subst, ◌∙◌, ◌⊎◌, inl, inr, arith, true, List, [], ◌∷◌, reverse, ◌==◌,
  nat_eq, Bool-cases, All, All-imp,
}
use order_book_server.Queue.Plain.{plain_queue}
use order_book_server.OrderBook.BTree
use order_book_server.OrderBook.Types.{Side, ask, bid, InnerOrder}
use order_book_server.OrderBook.{match_levels, match_order, order_iter}
use order_book_server.OrderBook.Matching.Level.{Makers}
use order_book_server.OrderBook.Matching.Crossing.{
  prices, Sorted, Worse, has_px, Beyond, Left, match_levels-WalkedBy, Sorted-reverse,
  prices-reverse, All-reverse,
}

-- The levels of a side by ascending price, each price once.
abbrev pub Ascending : {V : Type 0} → List (ℕ × V) → Type 0
Ascending levels = Sorted (λ x y. x < y) (prices levels)

module _ {V : Type 0} where
  All-remove :
      (P : ℕ × V → Type 0) (px : ℕ) (levels : List (ℕ × V))
      → All P levels
      → All P (BTree.remove px levels)
  All-remove P px [] all = tt
  All-remove P px ((y, q) ∷ levels) all = elim (Bool-cases (y == px)) [
    | inl hit ↦ rw hit all.1
    | inr miss ↦ rw miss (all.0, All-remove P px levels all.1)
  ]

  pub prices-remove :
      (P : ℕ → Type 0) (px : ℕ) (levels : List (ℕ × V))
      → All P (prices levels)
      → All P (prices (BTree.remove px levels))
  prices-remove P px [] all = tt
  prices-remove P px ((y, q) ∷ levels) all = elim (Bool-cases (y == px)) [
    | inl hit ↦ rw hit all.1
    | inr miss ↦ rw miss (all.0, prices-remove P px levels all.1)
  ]

  pub Ascending-remove :
      (px : ℕ) (levels : List (ℕ × V)) → Ascending levels → Ascending (BTree.remove px levels)
  Ascending-remove px [] up = tt
  Ascending-remove px ((y, q) ∷ levels) up = elim (Bool-cases (y == px)) [
    | inl hit ↦ rw hit up.1
    | inr miss ↦
        rw miss (prices-remove (λ z. y < z) px levels up.0, Ascending-remove px levels up.1)
  ]

  -- Any property of the levels, but for the one that is removed.
  abbrev But : (ℕ × V → Type 0) → ℕ → ℕ × V → Type 0
  But P px l = P l ⊎ (l.0 ≡ px)

  above-All :
      (P : ℕ × V → Type 0) (px : ℕ) (levels : List (ℕ × V))
      → All (λ z. px < z) (prices levels)
      → All (But P px) levels
      → All P levels
  above-All P px [] above all = tt
  above-All P px ((y, q) ∷ levels) above all = (
    (elim all.0 [ inl p ↦ p | inr same ↦ absurd (omega (arith, same, above.0)) ]),
    above-All P px levels above.1 all.1,
  )

  remove-All :
      (P : ℕ × V → Type 0) (px : ℕ) (levels : List (ℕ × V))
      → Ascending levels
      → All (But P px) levels
      → All P (BTree.remove px levels)
  remove-All P px [] up all = tt
  remove-All P px ((y, q) ∷ levels) up all = elim (Bool-cases (y == px)) [
    | inl hit ↦ rw hit (
        above-All P px levels (subst (λ x. All (λ z. x < z) (prices levels)) (ground arith) up.0)
          all.1)
    | inr miss ↦
        rw miss
          ((elim all.0 [ inl p ↦ p | inr same ↦ ground arith ]), remove-All P px levels up.1 all.1)
  ]

  -- The removal of all the keys leaves the levels that are not among them.
  remove_all-All :
      (P : ℕ × V → Type 0) (keys : List ℕ) (levels : List (ℕ × V))
      → Ascending levels
      → All (λ l. P l ⊎ (has_px l.0 keys ≡ true)) levels
      → All P (BTree.remove_all keys levels)
  remove_all-All P [] levels up all =
      All-imp (λ l h. elim h [ inl p ↦ p | inr key ↦ ground arith ]) levels all
  remove_all-All P (px ∷ keys) levels up all =
      remove_all-All P keys (BTree.remove px levels) (Ascending-remove px levels up) (
        remove-All (λ l. P l ⊎ (has_px l.0 keys ≡ true)) px levels up
          (All-imp
            (λ l h. elim h [
              | inl p ↦ inl (inl p)
              | inr key ↦ elim (Bool-cases (px == l.0)) [
                | inl hit ↦ inr (ground arith)
                | inr miss ↦ inl (inr (ground arith))
              ]
            ])
            levels all))

  Ascending-remove_all :
      (keys : List ℕ) (levels : List (ℕ × V))
      → Ascending levels
      → Ascending (BTree.remove_all keys levels)
  Ascending-remove_all [] levels up = up
  Ascending-remove_all (px ∷ keys) levels up =
      Ascending-remove_all keys (BTree.remove px levels) (Ascending-remove px levels up)

module _ {O : Type 0} ⦃o : InnerOrder O⦄ where
  pub order_iter-Sorted :
      (side : Side) (makers : List (ℕ × Makers O))
      → Ascending makers
      → Sorted (Worse side) (prices (order_iter plain_queue side makers))
  order_iter-Sorted bid makers up = up
  order_iter-Sorted ask makers up =
      subst (Sorted (λ x y. y < x)) (sym (prices-reverse makers))
        (Sorted-reverse (λ x y. x < y) (prices makers) up)

  -- The walk, back in the ascending order.
  order_iter-Ascending :
      (side : Side) (makers walked : List (ℕ × Makers O))
      → Ascending makers
      → prices walked ≡ prices (order_iter plain_queue side makers)
      → Ascending (order_iter plain_queue side walked)
  order_iter-Ascending bid makers walked up same = subst (Sorted (λ x y. x < y)) (sym same) up
  order_iter-Ascending ask makers walked up same =
      subst (Sorted (λ x y. x < y))
        (sym (
          prices-reverse walked
          ∙ ap reverse (same ∙ prices-reverse makers)
          ∙ reverse-reverse (prices makers)))
        up

  order_iter-All :
      (P : ℕ × Makers O → Type 0) (side : Side) (levels : List (ℕ × Makers O))
      → All P levels
      → All P (order_iter plain_queue side levels)
  order_iter-All P ask levels all = All-reverse P levels all
  order_iter-All P bid levels all = all

  -- On a side whose prices ascend, `match_order` leaves prices that ascend, and the taker is used up
  -- or every level that is left is beyond its limit: below that of an ask, above that of a bid.
  pub match_order-Uncrossed :
      (makers : List (ℕ × Makers O)) (taker : O)
      → Ascending makers
      → Ascending (match_order plain_queue makers taker).0
        × ((o.sz (match_order plain_queue makers taker).1 ≡ 0)
            ⊎ All
                (Beyond (o.side taker) (o.limit_px taker))
                (match_order plain_queue makers taker).0)
  unfolding match_order
  match_order-Uncrossed makers taker up =
      let side = o.side taker in
      let limit = o.limit_px taker in
      let r = match_levels plain_queue side limit (order_iter plain_queue side makers) taker in
      let walk =
        match_levels-WalkedBy side limit (order_iter plain_queue side makers) taker
          (order_iter-Sorted side makers up) in
      let back = order_iter-Ascending side makers r.0 up walk.same_prices in
      (
        Ascending-remove_all r.3 (order_iter plain_queue side r.0) back,
        (elim walk.used_up [
          | inl spent ↦ inl spent
          | inr all ↦ inr (
              remove_all-All (Beyond side limit) r.3 (order_iter plain_queue side r.0) back (
                All-imp (λ l h. elim h [ inl far ↦ inl far | inr key ↦ inr (key.0) ])
                  (order_iter plain_queue side r.0)
                  (order_iter-All (Left side limit r.3) side r.0 all)))
        ]),
      )

  -- The taker is the same order, but for its size.
  pub match_order-Kept :
      (makers : List (ℕ × Makers O)) (taker : O)
      → Ascending makers
      → (o.side (match_order plain_queue makers taker).1 ≡ o.side taker)
        × (o.limit_px (match_order plain_queue makers taker).1 ≡ o.limit_px taker)
  unfolding match_order
  match_order-Kept makers taker up =
      let side = o.side taker in
      let walk =
        match_levels-WalkedBy side (o.limit_px taker) (order_iter plain_queue side makers) taker
          (order_iter-Sorted side makers up) in
      (walk.same_side, walk.same_px)
