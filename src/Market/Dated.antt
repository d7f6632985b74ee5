-- ===== src/Market/Dated.antt =====
-- A block whose times are since 1970 is applied without a panic.
use order_book_server.Base.{
  ℕ, ◌+◌, ◌%◌, ◌^◌, millis, ◌≡◌, refl, subst, inl, inr, arith, Bool, true, false, not, Option, none,
  some, List, [], ◌∷◌, ◌&&◌, ltb, leb, ◌==◌, nat_eq, map_remove, map_insert, All, Bool-cases,
  Returns, >>=-Returns, if-Returns,
}
use order_book_server.Base.Result.{Result, ok, err}
use order_book_server.Queue.{QueueApi}
use order_book_server.OrderBook.Types.{Text}
use order_book_server.Orders.{
  InnerL4Order, l4_order, NodeDataOrderDiff, NodeDataOrderStatus, InnerOrderDiff, inner_new,
  inner_update, inner_remove, inner_diff, ParseError, parsed, try_from, is_inserted_into_book,
}
use order_book_server.Ingestion.Batches.{Batch}
use order_book_server.Market.{OrderBooks, is_spot, insert_coin, add_order, cancel, modify}
use order_book_server.Market.State.{
  OrderBookState, ApplyError, gap, bad_value, no_anchor, no_status, no_order, time_panic, OrderMap,
  order_map, Turn, changed, opened, after_turn, add_dated, add_priced, add_parsed, add_found,
  apply_inner, apply_diff, apply_diffs, finish, unwound, apply_updates,
}

-- The times that are converted are since 1970: the block's, and those of its statuses.
abbrev pub IsDated : {A : Type 0} → Batch (NodeDataOrderStatus A) → Type 0
IsDated b = Returns (millis b.block_time) × All (λ s. Returns (millis s.time)) b.events

abbrev pub IsDatedMap : {A : Type 0} → OrderMap A → Type 0
IsDatedMap {A = A} m =
    (oid : ℕ) (s : NodeDataOrderStatus A) → m oid ≡ some s → Returns (millis s.time)

map_insert-IsDatedMap :
    {A : Type 0} (m : OrderMap A) (k : ℕ) (s : NodeDataOrderStatus A)
    → IsDatedMap m
    → Returns (millis s.time)
    → IsDatedMap (map_insert m k s)
map_insert-IsDatedMap m k s dated new oid found is = elim (Bool-cases (oid == k)) [
  | inl here ↦
      let same : s ≡ found = ground arith in
      subst (λ (t : NodeDataOrderStatus _). Returns (millis t.time)) same new
  | inr other ↦ dated oid found (ground arith)
]

order_map-IsDatedMap :
    {A : Type 0} (m : OrderMap A) (statuses : List (NodeDataOrderStatus A))
    → IsDatedMap m
    → All (λ s. Returns (millis s.time)) statuses
    → IsDatedMap (order_map m statuses)
order_map-IsDatedMap m [] dated all = dated
order_map-IsDatedMap m (s ∷ statuses) dated all = elim (Bool-cases (is_inserted_into_book s)) [
  | inl yes_in ↦ rw yes_in (
      order_map-IsDatedMap (map_insert m s.order.oid s) statuses
        (map_insert-IsDatedMap m s.order.oid s dated all.0) all.1)
  | inr not_in ↦ rw not_in (order_map-IsDatedMap m statuses dated all.1)
]

-- A result that is not the unwinding of a panic.
abbrev pub IsCalm : Result ApplyError (Unit {0}) → Type 0
IsCalm (ok _) = Unit
IsCalm (err time_panic) = ⊥
IsCalm (err gap) = Unit
IsCalm (err (bad_value e)) = Unit
IsCalm (err no_anchor) = Unit
IsCalm (err no_status) = Unit
IsCalm (err no_order) = Unit

module _ {A : Type 0} (parse : Text → Option ℕ) (api : QueueApi ℕ (InnerL4Order A)) where
  abbrev pub IsCalmTurn : Turn api → Type 0
  IsCalmTurn turn = IsDatedMap turn.1 × IsCalm turn.2

  changed-IsCalm :
      (s : OrderBookState api) (m : OrderMap A) (e : ApplyError) (r : OrderBooks api × Bool)
      → IsDatedMap m
      → IsCalm (err e)
      → IsCalmTurn (changed api s m e r)
  changed-IsCalm s m e (books, true) dated calm = (dated, tt)
  changed-IsCalm s m e (books, false) dated calm = (dated, calm)

  add_dated-IsCalm :
      (s : OrderBookState api) (m : OrderMap A) (sz : ℕ) (insert_before : Option ℕ)
      (a : InnerL4Order A) (px : ℕ) (time : Option ℕ)
      → IsDatedMap m
      → Returns time
      → IsCalmTurn (add_dated api s m sz insert_before a px time)
  add_dated-IsCalm s m sz insert_before a px none dated (n, at) = cc
  add_dated-IsCalm s m sz insert_before a px (some time) dated at =
      changed-IsCalm s m no_anchor (add_order api s.order_book (opened a px sz time) insert_before)
        dated tt

  add_priced-IsCalm :
      (s : OrderBookState api) (m : OrderMap A) (status : NodeDataOrderStatus A) (sz : ℕ)
      (insert_before : Option ℕ) (a : InnerL4Order A) (px : Result ParseError ℕ)
      → IsDatedMap m
      → Returns (millis status.time)
      → IsCalmTurn (add_priced api s m status sz insert_before a px)
  add_priced-IsCalm s m status sz insert_before a (err e) dated at = (dated, tt)
  add_priced-IsCalm s m status sz insert_before a (ok px) dated at =
      add_dated-IsCalm s m sz insert_before a px (millis status.time) dated at

  add_parsed-IsCalm :
      (s : OrderBookState api) (m : OrderMap A) (diff : NodeDataOrderDiff A)
      (status : NodeDataOrderStatus A) (sz : ℕ) (insert_before : Option ℕ)
      (a : Result ParseError (InnerL4Order A))
      → IsDatedMap m
      → Returns (millis status.time)
      → IsCalmTurn (add_parsed parse api s m diff status sz insert_before a)
  add_parsed-IsCalm s m diff status sz insert_before (err e) dated at = (dated, tt)
  add_parsed-IsCalm s m diff status sz insert_before (ok a) dated at =
      add_priced-IsCalm s m status sz insert_before a (parsed parse diff.px) dated at

  map_remove-IsDatedMap : (m : OrderMap A) (k : ℕ) → IsDatedMap m → IsDatedMap (map_remove m k)
  map_remove-IsDatedMap m k dated oid found is = elim (Bool-cases (oid == k)) [
    | inl here ↦ absurd (ground arith)
    | inr other ↦ dated oid found (ground arith)
  ]

  add_found-IsCalm :
      (s : OrderBookState api) (m : OrderMap A) (diff : NodeDataOrderDiff A) (sz : ℕ)
      (insert_before : Option ℕ) (found : Option (NodeDataOrderStatus A))
      → IsDatedMap m
      → m diff.oid ≡ found
      → IsCalmTurn (add_found parse api s m diff sz insert_before found)
  add_found-IsCalm s m diff sz insert_before none dated is = (dated, tt)
  add_found-IsCalm s m diff sz insert_before (some status) dated is =
      add_parsed-IsCalm s (map_remove m diff.oid) diff status sz insert_before
        (try_from parse status.user status.order) (map_remove-IsDatedMap m diff.oid dated)
        (dated diff.oid status is)

  apply_inner-IsCalm :
      (s : OrderBookState api) (m : OrderMap A) (diff : NodeDataOrderDiff A)
      (inner : Result ParseError InnerOrderDiff)
      → IsDatedMap m
      → IsCalmTurn (apply_inner parse api s m diff inner)
  apply_inner-IsCalm s m diff (err e) dated = (dated, tt)
  apply_inner-IsCalm s m diff (ok (inner_new sz insert_before)) dated =
      add_found-IsCalm s m diff sz insert_before (m diff.oid) dated refl
  apply_inner-IsCalm s m diff (ok (inner_update orig_sz new_sz)) dated =
      changed-IsCalm s m no_order (modify api s.order_book diff.oid diff.coin new_sz) dated tt
  apply_inner-IsCalm s m diff (ok inner_remove) dated =
      changed-IsCalm s m no_order (cancel api s.order_book diff.oid diff.coin) dated tt

  apply_diff-IsCalm :
      (s : OrderBookState api) (m : OrderMap A) (diff : NodeDataOrderDiff A)
      → IsDatedMap m
      → IsCalmTurn (apply_diff parse api s m diff)
  unfolding apply_diff
  apply_diff-IsCalm s m diff dated = elim (Bool-cases (is_spot diff.coin && s.ignore_spot)) [
    | inl ignored ↦ rw ignored (dated, tt)
    | inr taken ↦ rw taken (
        apply_inner-IsCalm (record s { dirty_coins = insert_coin diff.coin s.dirty_coins }) m diff
          (inner_diff parse diff.raw_book_diff) dated)
  ]

  after_turn-IsCalm :
      (turn : Turn api)
      (next : OrderBookState api → OrderMap A → OrderBookState api × Result ApplyError (Unit {0}))
      → IsCalmTurn turn
      → ((s : OrderBookState api) (m : OrderMap A) → IsDatedMap m → IsCalm (next s m).1)
      → IsCalm (after_turn api turn next).1
  after_turn-IsCalm (s, m, err e) next calm on = calm.1
  after_turn-IsCalm (s, m, ok _) next calm on = on s m calm.0

  apply_diffs-IsCalm :
      (s : OrderBookState api) (m : OrderMap A) (diffs : List (NodeDataOrderDiff A))
      → IsDatedMap m
      → IsCalm (apply_diffs parse api s m diffs).1
  unfolding apply_diffs
  apply_diffs-IsCalm s m [] dated = tt
  apply_diffs-IsCalm s m (diff ∷ diffs) dated =
      after_turn-IsCalm (apply_diff parse api s m diff) (λ s' m'. apply_diffs parse api s' m' diffs)
        (apply_diff-IsCalm s m diff dated) (λ s' m' d. apply_diffs-IsCalm s' m' diffs d)

  unwound-Returns :
      (time : ℕ) (r : OrderBookState api × Result ApplyError (Unit {0}))
      → IsCalm r.1
      → Returns (unwound parse api (finish api time r))
  unwound-Returns time (s, ok _) calm = (_, refl)
  unwound-Returns time (s, err time_panic) calm = absurd calm
  unwound-Returns time (s, err gap) calm = (_, refl)
  unwound-Returns time (s, err (bad_value e)) calm = (_, refl)
  unwound-Returns time (s, err no_anchor) calm = (_, refl)
  unwound-Returns time (s, err no_status) calm = (_, refl)
  unwound-Returns time (s, err no_order) calm = (_, refl)

  -- A dated block of both halves is applied without a panic.
  pub apply_updates-Returns :
      (s : OrderBookState api) (statuses : Batch (NodeDataOrderStatus A))
      (diffs : Batch (NodeDataOrderDiff A))
      → (statuses.block_number ≡ diffs.block_number) × IsDated statuses
      → Returns (apply_updates parse api s statuses diffs)
  unfolding apply_updates
  apply_updates-Returns s statuses diffs (same, (at, all)) = >>=-Returns _ _ at (λ time _.
      if-Returns (not (statuses.block_number == diffs.block_number)) _ _
        (λ other. absurd (ground arith))
        (λ h.
          if-Returns (ltb ((s.height + 1) % 2 ^ 64) statuses.block_number) _ _ (λ h. (_, refl))
            (λ h.
              if-Returns (leb statuses.block_number s.height) _ _ (λ h. (_, refl))
                (λ h. unwound-Returns time _ (
                  apply_diffs-IsCalm s (order_map (λ _. none) statuses.events) diffs.events
                    (order_map-IsDatedMap (λ _. none) statuses.events (λ oid t is. cc) all))))))
