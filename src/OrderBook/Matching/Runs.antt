-- ===== src/OrderBook/Matching/Runs.antt =====
-- Any sequence of the operations of the book, over any implementation of its queues.
use order_book_server.Base.{ℕ, ◌≡◌, refl, sym, ap, subst, ◌∙◌, Option, List, [], ◌∷◌, nat_eq}
use order_book_server.Queue.{QueueApi}
use order_book_server.Queue.Plain.{plain_queue}
use order_book_server.OrderBook.Types.{InnerOrder}
use order_book_server.OrderBook.{OrderBook, add_order_before, cancel_order, modify_sz, new}
use order_book_server.OrderBook.View.{view}
use order_book_server.OrderBook.Refinement.{
  add_order_before-view, cancel_order-view, modify_sz-view,
}
use order_book_server.OrderBook.Matching.Resting.{IsUncrossed}
use order_book_server.OrderBook.Matching.Keeps.{
  cancel_order-IsUncrossed, modify_sz-IsUncrossed, add_order_before-IsUncrossed,
}

pub data Op (O : Type 0) : Type 0 where
  add : O → Option ℕ → Op O
  cancel : ℕ → Op O
  resize : ℕ → ℕ → Op O

module _ {O : Type 0} ⦃o : InnerOrder O⦄ (api : QueueApi ℕ O) where
  abbrev pub run : OrderBook api → List (Op O) → OrderBook api
  run b [] = b
  run b (add order before ∷ ops) = run (add_order_before api b order before).0 ops
  run b (cancel oid ∷ ops) = run (cancel_order api b oid).0 ops
  run b (resize oid sz ∷ ops) = run (modify_sz api b oid sz).0 ops

module _ {O : Type 0} ⦃o : InnerOrder O⦄ where
  new-IsUncrossed : IsUncrossed (new (plain_queue {K = ℕ} {T = O}))
  unfolding new
  new-IsUncrossed = record { bids_up = tt; asks_up = tt; apart = tt }

  run_from-IsUncrossed :
      (b : OrderBook (plain_queue {K = ℕ} {T = O})) (ops : List (Op O))
      → IsUncrossed b
      → IsUncrossed (run plain_queue b ops)
  run_from-IsUncrossed b [] v = v
  run_from-IsUncrossed b (add order before ∷ ops) v =
      run_from-IsUncrossed (add_order_before plain_queue b order before).0 ops
        (add_order_before-IsUncrossed b order before v)
  run_from-IsUncrossed b (cancel oid ∷ ops) v =
      run_from-IsUncrossed (cancel_order plain_queue b oid).0 ops (cancel_order-IsUncrossed b oid v)
  run_from-IsUncrossed b (resize oid sz ∷ ops) v =
      run_from-IsUncrossed (modify_sz plain_queue b oid sz).0 ops (modify_sz-IsUncrossed b oid sz v)

  module _ (api : QueueApi ℕ O) where
    -- A run over any queue is the run over bare lists.
    run-view :
        (b : OrderBook api) (ops : List (Op O))
        → view api (run api b ops) ≡ run plain_queue (view api b) ops
    run-view b [] = refl
    run-view b (add order before ∷ ops) =
        run-view (add_order_before api b order before).0 ops
        ∙ ap (λ r. run plain_queue r.0 ops) (add_order_before-view api b order before)
    run-view b (cancel oid ∷ ops) =
        run-view (cancel_order api b oid).0 ops
        ∙ ap (λ r. run plain_queue r.0 ops) (cancel_order-view api b oid)
    run-view b (resize oid sz ∷ ops) =
        run-view (modify_sz api b oid sz).0 ops
        ∙ ap (λ r. run plain_queue r.0 ops) (modify_sz-view api b oid sz)

    new-view : view api (new api) ≡ new plain_queue
    unfolding new
    new-view = refl

    -- Whatever orders come, go and change, from the empty book on and over any implementation of
    -- the queue, prices ascend on each side and every bid is below every ask.
    pub run-IsUncrossed : (ops : List (Op O)) → IsUncrossed (view api (run api (new api) ops))
    run-IsUncrossed ops =
        subst IsUncrossed (sym (run-view (new api) ops ∙ ap (λ b. run plain_queue b ops) new-view))
          (run_from-IsUncrossed (new plain_queue) ops new-IsUncrossed)
