-- ===== src/OrderBook/View.antt =====
-- The book over any queue behaves as the book over bare lists of entries: a view of the one is a
-- run of the other, operation by operation.
use order_book_server.Base.{
  ℕ, zero, suc, ◌≡◌, refl, ◌∙◌, ap, Bool, true, Option, none, some, List, [], ◌∷◌, ◌++◌, inl, inr,
  Bool-cases, Option-cases, if◌then◌else◌, length, nat_eq, is_nil, map,
}
use order_book_server.Queue.{QueueApi, shows, entries_push_back, entries_insert_before}
use order_book_server.Queue.Plain.{plain_queue}
use order_book_server.OrderBook.Types.{Side, ask, bid, InnerOrder, is_zero}
use order_book_server.OrderBook.BTree
use order_book_server.OrderBook.{
  Levels, OrderBook, drop_front, after_fill, match_level, fuel_of, match_levels, matches,
  order_iter, match_order, entry, insert_at, add_order_to_book,
}

module _ {O : Type 0} ⦃o : InnerOrder O⦄ (api : QueueApi ℕ O) where
  -- each queue as its entries
  abbrev pub levels_view : Levels api → Levels (plain_queue {K = ℕ} {T = O})
  levels_view = map (λ l. (l.0, api.entries l.1))

  abbrev pub view : OrderBook api → OrderBook (plain_queue {K = ℕ} {T = O})
  view b = record {
    oid_to_side_px = b.oid_to_side_px;
    bids = levels_view b.bids;
    asks = levels_view b.asks;
  }

  drop_front-view :
      (q : api.Queue) (k : ℕ) (v : O) (es : List (ℕ × O))
      → api.entries q ≡ (k, v) ∷ es
      → api.entries (drop_front api q) ≡ es
  drop_front-view q k v es p =
      let (q', got, shown) = api.remove_front_cons q k v es p in rw (got, drop_front) shown

  after_fill-view :
      (q : api.Queue) (k : ℕ) (m : O) (es : List (ℕ × O))
      → api.entries q ≡ (k, m) ∷ es
      → (api.entries (after_fill api q m).0 ≡ (after_fill plain_queue ((k, m) ∷ es) m).0)
        × ((after_fill api q m).1 ≡ (after_fill plain_queue ((k, m) ∷ es) m).1)
  after_fill-view q k m es p = elim (Bool-cases (is_zero (o.sz m))) [
    | inl empty ↦ rw empty (drop_front-view q k m es p, refl)
    | inr left ↦ rw left (p, refl)
  ]

  abbrev pub level_view : api.Queue × O × List ℕ → List (ℕ × O) × O × List ℕ
  level_view (q, taker, filled) = (api.entries q, taker, filled)

  pub match_level-view :
      (fuel : ℕ) (q : api.Queue) (es : List (ℕ × O)) (taker : O)
      → api.entries q ≡ es
      → level_view (match_level api fuel q taker) ≡ match_level plain_queue fuel es taker
  unfolding match_level
  match_level-view zero q es taker p = ap (λ x. (x, taker, [])) p
  match_level-view (suc fuel) q [] taker p =
      rw (api.head_nil q p, match_level) (ap (λ x. (x, taker, [])) p)
  match_level-view (suc fuel) q ((k, v) ∷ es) taker p =
      let (put, got, shown) = api.head_cons q k v es p in
      let t = (o.fill taker v).0 in
      let m = (o.fill taker v).1 in
      let (same, filled) = after_fill-view (put m) k m es (shown m) in
      let q1 = (after_fill api (put m) m).0 in
      let ih = match_level-view fuel q1 (after_fill plain_queue ((k, m) ∷ es) m).0 t same in
      rw (got, match_level)
        (elim (Bool-cases (is_zero (o.sz t))) [
          | inl done ↦ rw done (λ i. (same i, t, filled i))
          | inr more ↦ rw more (λ i. ((ih i).0, (ih i).1, filled i ++ (ih i).2))
        ])

  fuel-view : (q : api.Queue) → fuel_of api q ≡ fuel_of plain_queue (api.entries q)
  fuel-view q = ap (λ vs. suc (length vs)) (api.to_vec-entries q)

  abbrev pub walk_view :
      Levels api × O × List ℕ × List ℕ → Levels (plain_queue {K = ℕ} {T = O}) × O × List ℕ × List ℕ
  walk_view (levels, taker, filled, keys) = (levels_view levels, taker, filled, keys)

  pub match_levels-view :
      (side : Side) (limit_px : ℕ) (levels : Levels api) (taker : O)
      → walk_view (match_levels api side limit_px levels taker)
        ≡ match_levels plain_queue side limit_px (levels_view levels) taker
  unfolding match_levels
  match_levels-view side limit_px [] taker = refl
  match_levels-view side limit_px ((px, q) ∷ levels) taker =
      let step =
        match_level-view (fuel_of api q) q (api.entries q) taker refl
        ∙ ap (λ n. match_level plain_queue n (api.entries q) taker) (fuel-view q) in
      let q1 = (match_level api (fuel_of api q) q taker).0 in
      let t1 = (match_level api (fuel_of api q) q taker).1 in
      let ih = match_levels-view side limit_px levels t1 in
      let filled = (match_level api (fuel_of api q) q taker).2 in
      let keys = if is_nil (api.entries q1) then px ∷ [] else [] in
      rw (← step, api.is_empty-entries q1)
        (elim (Bool-cases (matches side limit_px px)) [
          | inr miss ↦ rw miss
          | inl hit ↦ rw hit (elim (Bool-cases (is_zero (o.sz t1))) [
            | inl done ↦ rw done
            | inr more ↦ rw more (λ i.
                ((px, api.entries q1) ∷ (ih i).0, (ih i).1, filled ++ (ih i).2, keys ++ (ih i).3))
          ])
        ])

  pub order_iter-view :
      (side : Side) (levels : Levels api)
      → levels_view (order_iter api side levels) ≡ order_iter plain_queue side (levels_view levels)
  order_iter-view ask levels = BTree.reverse-map_values api.entries levels
  order_iter-view bid levels = refl

  abbrev pub order_view :
      Levels api × O × List ℕ → Levels (plain_queue {K = ℕ} {T = O}) × O × List ℕ
  order_view (levels, taker, filled) = (levels_view levels, taker, filled)

  -- `match_order`
  pub match_order-view :
      (makers : Levels api) (taker : O)
      → order_view (match_order api makers taker)
        ≡ match_order plain_queue (levels_view makers) taker
  unfolding match_order
  match_order-view makers taker =
      let side = o.side taker in
      let px = o.limit_px taker in
      let r = match_levels api side px (order_iter api side makers) taker in
      let step =
        match_levels-view side px (order_iter api side makers) taker
        ∙ ap (λ m. match_levels plain_queue side px m taker) (order_iter-view side makers) in
      let back =
        BTree.remove_all-map_values api.entries r.3 (order_iter api side r.0)
        ∙ ap (BTree.remove_all r.3) (order_iter-view side r.0) in
      rw (← step) (λ i. (back i, r.1, r.2))

  entry-view :
      (px : ℕ) (levels : Levels api)
      → api.entries (entry api px levels) ≡ entry plain_queue px (levels_view levels)
  entry-view px levels = elim (Option-cases (BTree.get px levels)) [
    | inl e ↦ rw (e, entry, BTree.get-map_values api.entries px levels, e) api.entries-new
    | inr (q, e) ↦ rw (e, entry, BTree.get-map_values api.entries px levels, e)
  ]

  abbrev pub side_view : Levels api × Bool → Levels (plain_queue {K = ℕ} {T = O}) × Bool
  side_view (levels, done) = (levels_view levels, done)

  insert_at-view :
      (levels : Levels api) (px : ℕ) (r : api.Queue × Bool)
      → side_view (insert_at api levels px r)
        ≡ insert_at plain_queue (levels_view levels) px (shows api.entries r)
  insert_at-view levels px (q, done) =
      let put = BTree.insert-map_values api.entries px q levels in
      let took =
        BTree.remove-map_values api.entries px (BTree.insert px q levels)
        ∙ ap (BTree.remove px) put in
      rw api.is_empty-entries (elim (Bool-cases (is_nil (api.entries q))) [
        | inl empty ↦ rw empty (λ i. (took i, done))
        | inr left ↦ rw left (λ i. (put i, done))
      ])

  pub add_order_to_book-view :
      (levels : Levels api) (order : O) (before : Option ℕ)
      → side_view (add_order_to_book api levels order before)
        ≡ add_order_to_book plain_queue (levels_view levels) order before
  unfolding add_order_to_book
  add_order_to_book-view levels order none =
      let px = o.limit_px order in
      let q = entry api px levels in
      let pushed =
        ap (λ r. r.0) (api.push_back-entries q (o.oid order) order)
        ∙ ap (λ es. (entries_push_back (o.oid order) order es).0) (entry-view px levels) in
      let put =
        BTree.insert-map_values api.entries px (api.push_back q (o.oid order) order).0 levels
        ∙ ap (λ es. BTree.insert px es (levels_view levels)) pushed in
      λ i. (put i, true)
  add_order_to_book-view levels order (some before) =
      let px = o.limit_px order in
      let q = entry api px levels in
      insert_at-view levels px (api.insert_before q before (o.oid order) order)
      ∙ ap (insert_at plain_queue (levels_view levels) px) (
          api.insert_before-entries q before (o.oid order) order
          ∙ ap (entries_insert_before before (o.oid order) order) (entry-view px levels))
