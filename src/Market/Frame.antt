-- ===== src/Market/Frame.antt =====
-- What one diff may change: the book of its own coin, which it marks, and nothing else.
pub mod Books
use order_book_server.Base.{
  ℕ, millis, ◌≡◌, refl, subst, ◌∙◌, ◌⊎◌, inl, inr, arith, Bool, true, false, Option, none, some,
  List, [], ◌∷◌, ◌&&◌, ◌||◌, is_some, if◌then◌else◌, nat_eq, map_remove, lookup, Bool-cases, All,
}
use order_book_server.Base.Result.{Result, ok, err, ◌>>=◌}
use order_book_server.Queue.{QueueApi}
use order_book_server.OrderBook.Types.{Text, text_eq, text_beq, InnerOrder}
use order_book_server.OrderBook.{OrderBook, add_order_before, cancel_order, modify_sz}
use order_book_server.Orders.{
  InnerL4Order, l4_order, NodeDataOrderDiff, NodeDataOrderStatus, InnerOrderDiff, inner_new,
  inner_update, inner_remove, inner_diff, ParseError, bad_float, parsed, parsed_as, try_from,
  with_numbers,
}
use order_book_server.Market.{
  put, member, insert_coin, is_spot, OrderBooks, add_order, cancel, modify, at_book, book_or_new,
}
use order_book_server.Market.State.{
  OrderBookState, ApplyError, after_turn, bad_value, no_anchor, no_status, no_order, OrderMap, Turn,
  changed, refused, opened, time_panic, add_dated, add_priced, add_parsed, add_found, apply_inner,
  apply_diff, apply_diffs,
}
use order_book_server.Market.Frame.Books.{
  OnlyAt, add_order-OnlyAt, cancel-OnlyAt, modify-OnlyAt, Tracks, Tracks-refl, Tracks-trans, marked,
  marked-Tracks, at_coin-Tracks, Coherent, opened-coin,
}

module _ {A : Type 0} (api : QueueApi ℕ (InnerL4Order A)) where
  -- The turn for a diff of the coin `k`: what it leaves, and no status it did not have.
  pub record Turns (s : OrderBookState api) (k : Text) (m : OrderMap A) (turn : Turn api)
      : Type 0 where
    pub tracks : Tracks api s turn.0
    pub no_more :
        (oid : ℕ) (status : NodeDataOrderStatus A) → turn.1 oid ≡ some status → m oid ≡ some status

  changed-Turns :
      (s : OrderBookState api) (k : Text) (m : OrderMap A) (e : ApplyError)
      (r : OrderBooks api × Bool)
      → OnlyAt api k s.order_book r.0
      → Turns s k m (changed api (marked api s k) m e r)
  changed-Turns s k m e (books, true) only = record {
    tracks = at_coin-Tracks api s k books only;
    no_more = λ oid status found. found;
  }
  changed-Turns s k m e (books, false) only = record {
    tracks = at_coin-Tracks api s k books only;
    no_more = λ oid status found. found;
  }

  refused-Turns :
      (s : OrderBookState api) (k : Text) (m : OrderMap A) (e : ApplyError)
      → Turns s k m (refused api (marked api s k) m e)
  refused-Turns s k m e = record {
    tracks = marked-Tracks api s k;
    no_more = λ oid status found. found;
  }

  -- Turns that start from a smaller map.
  Turns-remove :
      (s : OrderBookState api) (k : Text) (m : OrderMap A) (oid : ℕ) (turn : Turn api)
      → Turns s k (map_remove m oid) turn
      → Turns s k m turn
  Turns-remove s k m oid turn t = record {
    tracks = t.tracks;
    no_more = λ j status found. ground (arith, t.no_more j status found);
  }

  add_dated-Turns :
      (s : OrderBookState api) (k : Text) (m : OrderMap A) (sz : ℕ) (insert_before : Option ℕ)
      (a : InnerL4Order A) (px : ℕ) (time : Option ℕ)
      → a.coin ≡ k
      → Turns s k m (add_dated api (marked api s k) m sz insert_before a px time)
  add_dated-Turns s k m sz insert_before a px none same = refused-Turns s k m time_panic
  add_dated-Turns s k m sz insert_before a px (some time) same =
      let b = opened a px sz time in
      changed-Turns s k m no_anchor (add_order api s.order_book b insert_before) (
        subst (λ c. OnlyAt api c s.order_book (add_order api s.order_book b insert_before).0)
          (opened-coin a px sz time ∙ same) (add_order-OnlyAt api s.order_book b insert_before))

  add_priced-Turns :
      (s : OrderBookState api) (k : Text) (m : OrderMap A) (status : NodeDataOrderStatus A) (sz : ℕ)
      (insert_before : Option ℕ) (a : InnerL4Order A) (px : Result ParseError ℕ)
      → a.coin ≡ k
      → Turns s k m (add_priced api (marked api s k) m status sz insert_before a px)
  add_priced-Turns s k m status sz insert_before a (err e) same = refused-Turns s k m (bad_value e)
  add_priced-Turns s k m status sz insert_before a (ok px) same =
      add_dated-Turns s k m sz insert_before a px (millis status.time) same

module _ {A : Type 0} (parse : Text → Option ℕ) (api : QueueApi ℕ (InnerL4Order A)) where
  add_parsed-Turns :
      (s : OrderBookState api) (m : OrderMap A) (diff : NodeDataOrderDiff A)
      (status : NodeDataOrderStatus A) (sz : ℕ) (insert_before : Option ℕ) (px size : Option ℕ)
      → status.order.coin ≡ diff.coin
      → Turns api s diff.coin m (
          add_parsed parse api (marked api s diff.coin) m diff status sz insert_before (
            parsed_as px >>= λ p.
            parsed_as size >>= λ z. ok (with_numbers status.user status.order p z)))
  add_parsed-Turns s m diff status sz insert_before none size same =
      refused-Turns api s diff.coin m (bad_value bad_float)
  add_parsed-Turns s m diff status sz insert_before (some p) none same =
      refused-Turns api s diff.coin m (bad_value bad_float)
  add_parsed-Turns s m diff status sz insert_before (some p) (some z) same =
      add_priced-Turns api s diff.coin m status sz insert_before
        (with_numbers status.user status.order p z) (parsed parse diff.px) same

  add_found-Turns :
      (s : OrderBookState api) (m : OrderMap A) (diff : NodeDataOrderDiff A) (sz : ℕ)
      (insert_before : Option ℕ) (found : Option (NodeDataOrderStatus A))
      → ((status : NodeDataOrderStatus A) → found ≡ some status → status.order.coin ≡ diff.coin)
      → Turns api s diff.coin m
          (add_found parse api (marked api s diff.coin) m diff sz insert_before found)
  unfolding try_from
  add_found-Turns s m diff sz insert_before none coherent =
      refused-Turns api s diff.coin m no_status
  add_found-Turns s m diff sz insert_before (some status) coherent =
      Turns-remove api s diff.coin m diff.oid
        (add_found parse api (marked api s diff.coin) m diff sz insert_before (some status))
        (add_parsed-Turns s (map_remove m diff.oid) diff status sz insert_before
          (parse status.order.limit_px) (parse status.order.sz) (coherent status refl))

  apply_inner-Turns :
      (s : OrderBookState api) (m : OrderMap A) (diff : NodeDataOrderDiff A)
      (inner : Result ParseError InnerOrderDiff)
      → Coherent m diff
      → Turns api s diff.coin m (apply_inner parse api (marked api s diff.coin) m diff inner)
  apply_inner-Turns s m diff (err e) coherent = refused-Turns api s diff.coin m (bad_value e)
  apply_inner-Turns s m diff (ok (inner_new sz insert_before)) coherent =
      add_found-Turns s m diff sz insert_before (m diff.oid) coherent
  apply_inner-Turns s m diff (ok (inner_update orig_sz new_sz)) coherent =
      changed-Turns api s diff.coin m no_order (modify api s.order_book diff.oid diff.coin new_sz)
        (modify-OnlyAt api s.order_book diff.oid diff.coin new_sz)
  apply_inner-Turns s m diff (ok inner_remove) coherent =
      changed-Turns api s diff.coin m no_order (cancel api s.order_book diff.oid diff.coin)
        (cancel-OnlyAt api s.order_book diff.oid diff.coin)

  apply_diff-Turns :
      (s : OrderBookState api) (m : OrderMap A) (diff : NodeDataOrderDiff A)
      → Coherent m diff
      → Turns api s diff.coin m (apply_diff parse api s m diff)
  unfolding apply_diff
  apply_diff-Turns s m diff coherent = elim (Bool-cases (is_spot diff.coin && s.ignore_spot)) [
    | inl skipped ↦
        rw skipped (record { tracks = Tracks-refl api s; no_more = λ oid status found. found })
    | inr seen ↦ rw seen (apply_inner-Turns s m diff (inner_diff parse diff.raw_book_diff) coherent)
  ]

  Coherent-fewer :
      (m m' : OrderMap A) (diffs : List (NodeDataOrderDiff A))
      → ((oid : ℕ) (status : NodeDataOrderStatus A) → m' oid ≡ some status → m oid ≡ some status)
      → All (Coherent m) diffs
      → All (Coherent m') diffs
  Coherent-fewer m m' [] fewer all = tt
  Coherent-fewer m m' (diff ∷ diffs) fewer all = (
    λ status found. all.0 status (fewer diff.oid status found),
    Coherent-fewer m m' diffs fewer all.1,
  )

  after_turn-Tracks :
      (s : OrderBookState api) (k : Text) (m : OrderMap A) (turn : Turn api)
      (next : OrderBookState api → OrderMap A → OrderBookState api × Result ApplyError (Unit {0}))
      → Turns api s k m turn
      → (((oid : ℕ) (status : NodeDataOrderStatus A)
            → turn.1 oid ≡ some status
            → m oid ≡ some status)
          → Tracks api turn.0 (next turn.0 turn.1).0)
      → Tracks api s (after_turn api turn next).0
  after_turn-Tracks s k m (s', m', err e) next t rest = t.tracks
  after_turn-Tracks s k m (s', m', ok _) next t rest =
      Tracks-trans api s s' (next s' m').0 t.tracks (rest t.no_more)

  -- However many of the diffs go through, only the books they mark change.
  pub apply_diffs-Tracks :
      (s : OrderBookState api) (m : OrderMap A) (diffs : List (NodeDataOrderDiff A))
      → All (Coherent m) diffs
      → Tracks api s (apply_diffs parse api s m diffs).0
  unfolding apply_diffs
  apply_diffs-Tracks s m [] all = Tracks-refl api s
  apply_diffs-Tracks s m (diff ∷ diffs) all =
      after_turn-Tracks s diff.coin m (apply_diff parse api s m diff)
        (λ s' m'. apply_diffs parse api s' m' diffs) (apply_diff-Turns s m diff all.0)
        (λ fewer.
          apply_diffs-Tracks (apply_diff parse api s m diff).0 (apply_diff parse api s m diff).1
            diffs (Coherent-fewer m (apply_diff parse api s m diff).1 diffs fewer all.1))
