-- ===== src/Feed/Updates.antt =====
-- The L4 updates of a coin are the events of that coin, in the order of the block.
use order_book_server.Base.{
  ℕ, millis, map_option, some, ◌≡◌, sym, ap, ◌∙◌, inl, inr, some, List, [], ◌∷◌, ◌++◌,
  if◌then◌else◌, lookup, Bool-cases,
}
use mathlib.Core.List.{append_assoc, append-nil}
use order_book_server.OrderBook.Types.{Text, text_eq, text_beq}
use order_book_server.Orders.{NodeDataOrderDiff, NodeDataOrderStatus}
use order_book_server.Ingestion.Batches.{Batch}
use order_book_server.Market.{put}
use order_book_server.Market.Frame.Books.{lookup-put}
use order_book_server.Feed.{
  L4BookUpdates, UpdateMap, or_new, with_diff, with_status, add_diffs, add_statuses,
  coin_to_book_updates,
}

module _ {A : Type 0} where
  abbrev pub diffs_of : Text → List (NodeDataOrderDiff A) → List (NodeDataOrderDiff A)
  diffs_of c [] = []
  diffs_of c (d ∷ diffs) = if text_beq d.coin c then d ∷ diffs_of c diffs else diffs_of c diffs

  abbrev pub statuses_of : Text → List (NodeDataOrderStatus A) → List (NodeDataOrderStatus A)
  statuses_of c [] = []
  statuses_of c (s ∷ statuses) =
      if text_beq s.order.coin c then s ∷ statuses_of c statuses else statuses_of c statuses

  -- The updates of a coin, empty where there are none.
  abbrev pub at_coin : ℕ → ℕ → Text → UpdateMap A → L4BookUpdates A
  at_coin time height c updates = or_new time height (lookup c updates)

  abbrev pub append_diffs : List (NodeDataOrderDiff A) → L4BookUpdates A → L4BookUpdates A
  append_diffs diffs u = record u { book_diffs = u.book_diffs ++ diffs }

  append_diffs_nil : (u : L4BookUpdates A) → u ≡ append_diffs [] u
  append_diffs_nil u = λ i. record u { book_diffs = sym (append-nil u.book_diffs) i }

  append_diffs_cons :
      (diff : NodeDataOrderDiff A) (diffs : List (NodeDataOrderDiff A)) (u : L4BookUpdates A)
      → append_diffs diffs (with_diff diff u) ≡ append_diffs (diff ∷ diffs) u
  append_diffs_cons diff diffs u =
      λ i. record u { book_diffs = append_assoc u.book_diffs (diff ∷ []) diffs i }

  add_diffs-at_coin :
      (time height : ℕ) (c : Text) (updates : UpdateMap A) (diffs : List (NodeDataOrderDiff A))
      → at_coin time height c (add_diffs time height updates diffs)
        ≡ append_diffs (diffs_of c diffs) (at_coin time height c updates)
  add_diffs-at_coin time height c updates [] = append_diffs_nil (at_coin time height c updates)
  add_diffs-at_coin time height c updates (diff ∷ diffs) =
      let u = at_coin time height c updates in
      let changed = with_diff diff (at_coin time height diff.coin updates) in
      let next = put diff.coin changed updates in
      let found = ap (or_new time height) (lookup-put c diff.coin changed updates) in
      elim (Bool-cases (text_beq diff.coin c)) [
        | inl same ↦
            let now : at_coin time height c next ≡ with_diff diff u =
              found
              ∙ (ap (λ b. or_new time height (if b then some changed else lookup c updates)) same
                  ∙ ap (λ k. with_diff diff (at_coin time height k updates))
                      ((text_eq.beq_iff diff.coin c).0 same)) in
            rw same (
              add_diffs-at_coin time height c next diffs
              ∙ (ap (append_diffs (diffs_of c diffs)) now
                  ∙ append_diffs_cons diff (diffs_of c diffs) u))
        | inr other ↦
            let now : at_coin time height c next ≡ u =
              found
              ∙ ap (λ b. or_new time height (if b then some changed else lookup c updates)) other in
            rw other (
              add_diffs-at_coin time height c next diffs ∙ ap (append_diffs (diffs_of c diffs)) now)
      ]

  abbrev pub append_statuses : List (NodeDataOrderStatus A) → L4BookUpdates A → L4BookUpdates A
  append_statuses statuses u = record u { order_statuses = u.order_statuses ++ statuses }

  append_statuses_nil : (u : L4BookUpdates A) → u ≡ append_statuses [] u
  append_statuses_nil u = λ i. record u { order_statuses = sym (append-nil u.order_statuses) i }

  append_statuses_cons :
      (status : NodeDataOrderStatus A) (statuses : List (NodeDataOrderStatus A))
      (u : L4BookUpdates A)
      → append_statuses statuses (with_status status u) ≡ append_statuses (status ∷ statuses) u
  append_statuses_cons status statuses u =
      λ i. record u { order_statuses = append_assoc u.order_statuses (status ∷ []) statuses i }

  add_statuses-at_coin :
      (time height : ℕ) (c : Text) (updates : UpdateMap A) (statuses : List (NodeDataOrderStatus A))
      → at_coin time height c (add_statuses time height updates statuses)
        ≡ append_statuses (statuses_of c statuses) (at_coin time height c updates)
  add_statuses-at_coin time height c updates [] =
      append_statuses_nil (at_coin time height c updates)
  add_statuses-at_coin time height c updates (status ∷ statuses) =
      let u = at_coin time height c updates in
      let changed = with_status status (at_coin time height status.order.coin updates) in
      let next = put status.order.coin changed updates in
      let found = ap (or_new time height) (lookup-put c status.order.coin changed updates) in
      elim (Bool-cases (text_beq status.order.coin c)) [
        | inl same ↦
            let now : at_coin time height c next ≡ with_status status u =
              found
              ∙ (ap (λ b. or_new time height (if b then some changed else lookup c updates)) same
                  ∙ ap (λ k. with_status status (at_coin time height k updates))
                      ((text_eq.beq_iff status.order.coin c).0 same)) in
            rw same (
              add_statuses-at_coin time height c next statuses
              ∙ (ap (append_statuses (statuses_of c statuses)) now
                  ∙ append_statuses_cons status (statuses_of c statuses) u))
        | inr other ↦
            let now : at_coin time height c next ≡ u =
              found
              ∙ ap (λ b. or_new time height (if b then some changed else lookup c updates)) other in
            rw other (
              add_statuses-at_coin time height c next statuses
              ∙ ap (append_statuses (statuses_of c statuses)) now)
      ]

  -- Where the diffs' batch is of a time since 1970, the updates of a coin are the diffs and the statuses
  -- of that coin, in the order of the block, with the time and the height of the diffs' batch.
  pub coin_to_book_updates-at_coin :
      (diffs : Batch (NodeDataOrderDiff A)) (statuses : Batch (NodeDataOrderStatus A)) (c : Text)
      (time : ℕ)
      → millis diffs.block_time ≡ some time
      → map_option (at_coin time diffs.block_number c) (coin_to_book_updates diffs statuses)
        ≡ some (record {
          time = time;
          height = diffs.block_number;
          order_statuses = statuses_of c statuses.events;
          book_diffs = diffs_of c diffs.events;
        })
  unfolding coin_to_book_updates
  coin_to_book_updates-at_coin diffs statuses c time at = rw at (
      ap some (
        add_statuses-at_coin time diffs.block_number c
          (add_diffs time diffs.block_number [] diffs.events) statuses.events
        ∙ ap (append_statuses (statuses_of c statuses.events))
            (add_diffs-at_coin time diffs.block_number c [] diffs.events)))
