-- ===== src/Market/Blocks.antt =====
-- `OrderBookState::apply_updates` takes the blocks one by one.
use order_book_server.Base.{
  ℕ, ◌%◌, ◌^◌, millis, Option-cases, ◌+◌, ◌≤◌, ◌<◌, ◌≡◌, refl, ◌∙◌, ◌⊎◌, inl, inr, arith, subst,
  Bool, true, false, Option, none, some, List, [], ◌∷◌, ◌&&◌, ltb, leb, nat_eq, Bool-cases,
}
use order_book_server.Base.Result.{Result, ok, err}
use order_book_server.Queue.{QueueApi}
use order_book_server.OrderBook.Types.{Text}
use order_book_server.Orders.{
  InnerL4Order, l4_order, NodeDataOrderDiff, NodeDataOrderStatus, InnerOrderDiff, inner_new,
  inner_update, inner_remove, inner_diff, ParseError, parsed, try_from,
}
use order_book_server.Ingestion.Batches.{Batch}
use order_book_server.Market.{OrderBooks, is_spot, insert_coin, add_order, cancel, modify}
use order_book_server.Market.State.{
  OrderBookState, ApplyError, gap, no_anchor, no_order, no_status, bad_value, time_panic, add_dated,
  unwound, apply_at, OrderMap, order_map, Turn, changed, opened, after_turn, add_priced, add_parsed,
  add_found, apply_inner, apply_diff, apply_diffs, finish, apply_updates,
}

module _ {A : Type 0} (parse : Text → Option ℕ) (api : QueueApi ℕ (InnerL4Order A)) where
  changed-height :
      (s : OrderBookState api) (m : OrderMap A) (e : ApplyError) (r : OrderBooks api × Bool)
      → (changed api s m e r).0.height ≡ s.height
  changed-height s m e (books, true) = refl
  changed-height s m e (books, false) = refl

  add_dated-height :
      (s : OrderBookState api) (m : OrderMap A) (sz : ℕ) (insert_before : Option ℕ)
      (a : InnerL4Order A) (px : ℕ) (time : Option ℕ)
      → (add_dated api s m sz insert_before a px time).0.height ≡ s.height
  add_dated-height s m sz insert_before a px none = refl
  add_dated-height s m sz insert_before a px (some time) =
      changed-height s m no_anchor (add_order api s.order_book (opened a px sz time) insert_before)

  add_priced-height :
      (s : OrderBookState api) (m : OrderMap A) (status : NodeDataOrderStatus A) (sz : ℕ)
      (insert_before : Option ℕ) (a : InnerL4Order A) (px : Result ParseError ℕ)
      → (add_priced api s m status sz insert_before a px).0.height ≡ s.height
  add_priced-height s m status sz insert_before a (err e) = refl
  add_priced-height s m status sz insert_before a (ok px) =
      add_dated-height s m sz insert_before a px (millis status.time)

  add_parsed-height :
      (s : OrderBookState api) (m : OrderMap A) (diff : NodeDataOrderDiff A)
      (status : NodeDataOrderStatus A) (sz : ℕ) (insert_before : Option ℕ)
      (a : Result ParseError (InnerL4Order A))
      → (add_parsed parse api s m diff status sz insert_before a).0.height ≡ s.height
  add_parsed-height s m diff status sz insert_before (err e) = refl
  add_parsed-height s m diff status sz insert_before (ok a) =
      add_priced-height s m status sz insert_before a (parsed parse diff.px)

  add_found-height :
      (s : OrderBookState api) (m : OrderMap A) (diff : NodeDataOrderDiff A) (sz : ℕ)
      (insert_before : Option ℕ) (found : Option (NodeDataOrderStatus A))
      → (add_found parse api s m diff sz insert_before found).0.height ≡ s.height
  add_found-height s m diff sz insert_before none = refl
  add_found-height s m diff sz insert_before (some status) =
      add_parsed-height s _ diff status sz insert_before (try_from parse status.user status.order)

  apply_inner-height :
      (s : OrderBookState api) (m : OrderMap A) (diff : NodeDataOrderDiff A)
      (inner : Result ParseError InnerOrderDiff)
      → (apply_inner parse api s m diff inner).0.height ≡ s.height
  apply_inner-height s m diff (err e) = refl
  apply_inner-height s m diff (ok (inner_new sz insert_before)) =
      add_found-height s m diff sz insert_before (m diff.oid)
  apply_inner-height s m diff (ok (inner_update orig_sz new_sz)) =
      changed-height s m no_order (modify api s.order_book diff.oid diff.coin new_sz)
  apply_inner-height s m diff (ok inner_remove) =
      changed-height s m no_order (cancel api s.order_book diff.oid diff.coin)

  apply_diff-height :
      (s : OrderBookState api) (m : OrderMap A) (diff : NodeDataOrderDiff A)
      → (apply_diff parse api s m diff).0.height ≡ s.height
  unfolding apply_diff
  apply_diff-height s m diff = elim (Bool-cases (is_spot diff.coin && s.ignore_spot)) [
    | inl skipped ↦ rw skipped refl
    | inr seen ↦ rw seen (
        apply_inner-height (record s { dirty_coins = insert_coin diff.coin s.dirty_coins }) m diff
          (inner_diff parse diff.raw_book_diff))
  ]

  after_turn-height :
      (h : ℕ) (turn : Turn api)
      (next : OrderBookState api → OrderMap A → OrderBookState api × Result ApplyError (Unit {0}))
      → turn.0.height ≡ h
      → (next turn.0 turn.1).0.height ≡ h
      → (after_turn api turn next).0.height ≡ h
  after_turn-height h (s, m, err e) next same rest = same
  after_turn-height h (s, m, ok _) next same rest = rest

  apply_diffs-height :
      (s : OrderBookState api) (m : OrderMap A) (diffs : List (NodeDataOrderDiff A))
      → (apply_diffs parse api s m diffs).0.height ≡ s.height
  unfolding apply_diffs
  apply_diffs-height s m [] = refl
  apply_diffs-height s m (diff ∷ diffs) =
      let turn = apply_diff parse api s m diff in
      after_turn-height s.height turn (λ s' m'. apply_diffs parse api s' m' diffs)
        (apply_diff-height s m diff)
        (apply_diffs-height turn.0 turn.1 diffs ∙ apply_diff-height s m diff)

  -- What became of a block, by its number and the height of the state.
  abbrev pub Applied :
      OrderBookState api
      → Batch (NodeDataOrderStatus A)
      → OrderBookState api
      → Result ApplyError (Unit {0})
      → Type 0
  Applied s block s' r =
      (((s.height + 1) % 2 ^ 64 < block.block_number) × (s' ≡ s) × (r ≡ err gap))
      ⊎ ((block.block_number ≤ s.height) × (s' ≡ s) × (r ≡ ok tt))
      ⊎ ((block.block_number ≡ s.height + 1)
          × (((r ≡ ok tt)
                × (s'.height ≡ block.block_number)
                × (millis block.block_time ≡ some s'.time)
                × (s'.snapped ≡ false))
              ⊎ ((e : ApplyError) × (r ≡ err e) × (s'.height ≡ s.height))))

  finish-Applied :
      (s : OrderBookState api) (block : Batch (NodeDataOrderStatus A)) (time : ℕ)
      (applied : OrderBookState api × Result ApplyError (Unit {0}))
      → millis block.block_time ≡ some time
      → applied.0.height ≡ s.height
      → block.block_number ≡ s.height + 1
      → block.block_number ≤ (s.height + 1) % 2 ^ 64
      → Applied s block (finish api time applied).0 (finish api time applied).1
  finish-Applied s block time (s', err e) at same next fits = inr (inr (next, inr (e, refl, same)))
  finish-Applied s block time (s', ok _) at same next fits =
      inr (inr (next, inl (refl, rw same (omega (arith, next, fits)), at, refl)))

  pub unwound_inv :
      (t t' : OrderBookState api × Result ApplyError (Unit {0}))
      → unwound parse api t ≡ some t'
      → t ≡ t'
  unwound_inv (s, err time_panic) t' h = cc
  unwound_inv (s, err gap) t' h = cc
  unwound_inv (s, err (bad_value e)) t' h = cc
  unwound_inv (s, err no_anchor) t' h = cc
  unwound_inv (s, err no_status) t' h = cc
  unwound_inv (s, err no_order) t' h = cc
  unwound_inv (s, ok _) t' h = cc

  apply_at-Applied :
      (s s' : OrderBookState api) (statuses : Batch (NodeDataOrderStatus A))
      (diffs : Batch (NodeDataOrderDiff A)) (time : ℕ) (r : Result ApplyError (Unit {0}))
      → millis statuses.block_time ≡ some time
      → apply_at parse api s statuses diffs time ≡ some (s', r)
      → Applied s statuses s' r
  apply_at-Applied s s' statuses diffs time r at ran =
      let height = statuses.block_number in
      let looped = apply_diffs parse api s (order_map (λ _. none) statuses.events) diffs.events in
      let applied = finish api time looped in
      elim (Bool-cases (ltb ((s.height + 1) % 2 ^ 64) height)) [
        | inl ahead ↦ inl (ground arith, ground arith, ground arith)
        | inr near ↦ elim (Bool-cases (leb height s.height)) [
          | inl old ↦ inr (inl (ground arith, ground arith, ground arith))
          | inr new ↦
              let gives : applied ≡ (s', r) = unwound_inv applied (s', r) (ground arith) in
              subst (λ t. Applied s statuses t.0 t.1) gives
                (finish-Applied s statuses time looped at
                  (apply_diffs-height s (order_map (λ _. none) statuses.events) diffs.events)
                  (ground arith) (ground arith))
        ]
      ]

  -- Blocks are taken one by one, on every branch of `apply_updates` that returns: a block that leaves
  -- a gap after the height, whose next wraps at 2^64, is refused and an old one ignored, both without
  -- a change, and the next one moves the height by one and allows a view again, or fails and leaves
  -- the height.
  pub apply_updates-Applied :
      (s s' : OrderBookState api) (statuses : Batch (NodeDataOrderStatus A))
      (diffs : Batch (NodeDataOrderDiff A)) (r : Result ApplyError (Unit {0}))
      → apply_updates parse api s statuses diffs ≡ some (s', r)
      → Applied s statuses s' r
  unfolding apply_updates
  apply_updates-Applied s s' statuses diffs r ran =
      elim (Option-cases (millis statuses.block_time)) [
        | inl early ↦ absurd (ground arith)
        | inr (time, at) ↦ apply_at-Applied s s' statuses diffs time r at (ground arith)
      ]
