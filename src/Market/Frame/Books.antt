-- ===== src/Market/Frame/Books.antt =====
-- What the operations on the books may change: the book of one coin.
use order_book_server.Base.{
  ℕ, ◌≡◌, refl, subst, ◌∙◌, ◌⊎◌, inl, inr, arith, Bool, true, false, Option, none, some, List, [],
  ◌∷◌, ◌||◌, is_some, if◌then◌else◌, nat_eq, lookup, Bool-cases,
}
use order_book_server.Queue.{QueueApi}
use order_book_server.OrderBook.Types.{Text, text_eq, text_beq, InnerOrder}
use order_book_server.OrderBook.{OrderBook, add_order_before, cancel_order, modify_sz}
use order_book_server.Orders.{InnerL4Order, l4_order, NodeDataOrderDiff, NodeDataOrderStatus}
use order_book_server.Market.{
  put, member, insert_coin, OrderBooks, add_order, cancel, modify, at_book, book_or_new,
}
use order_book_server.Market.State.{OrderBookState, OrderMap, opened}

pub lookup-put :
    {V : Type 0} (c k : Text) (v : V) (es : List (Text × V))
    → lookup c (put k v es) ≡ (if text_beq k c then some v else lookup c es)
lookup-put c k v [] = refl
lookup-put c k v ((j, w) ∷ es) = elim (Bool-cases (text_beq j k)) [
  | inl same ↦ rw same (ground (arith, text_eq.beq_iff j k))
  | inr other ↦ rw other (
      ground
        (arith, lookup-put c k v es, text_eq.beq_iff j c, text_eq.beq_iff k c, text_eq.beq_iff j k))
]

module _ {O : Type 0} ⦃o : InnerOrder O⦄ (api : QueueApi ℕ O) where
  -- Books that differ at one coin at most, where none is lost.
  pub record OnlyAt (k : Text) (books books' : OrderBooks api) : Type 0 where
    pub others : (c : Text) → text_beq k c ≡ false → lookup c books' ≡ lookup c books
    pub none_lost : (c : Text) → is_some (lookup c books) ≡ true → is_some (lookup c books') ≡ true

  OnlyAt-refl : (k : Text) (books : OrderBooks api) → OnlyAt k books books
  OnlyAt-refl k books = record { others = λ c other. refl; none_lost = λ c there. there }

  put-OnlyAt :
      (k : Text) (book : OrderBook api) (books : OrderBooks api) → OnlyAt k books (put k book books)
  put-OnlyAt k book books = record {
    others = λ c other. ground (arith, lookup-put c k book books);
    none_lost = λ c there. ground (arith, lookup-put c k book books);
  }

  pub add_order-OnlyAt :
      (books : OrderBooks api) (order : O) (insert_before : Option ℕ)
      → OnlyAt (o.coin order) books (add_order api books order insert_before).0
  unfolding add_order
  add_order-OnlyAt books order insert_before =
      put-OnlyAt (o.coin order)
        (add_order_before api (book_or_new api (lookup (o.coin order) books)) order insert_before).0
        books

  at_book-OnlyAt :
      (books : OrderBooks api) (k : Text) (f : OrderBook api → OrderBook api × Bool)
      (found : Option (OrderBook api))
      → OnlyAt k books (at_book api books k f found).0
  at_book-OnlyAt books k f none = OnlyAt-refl k books
  at_book-OnlyAt books k f (some book) = put-OnlyAt k (f book).0 books

  pub cancel-OnlyAt :
      (books : OrderBooks api) (oid : ℕ) (k : Text) → OnlyAt k books (cancel api books oid k).0
  unfolding cancel
  cancel-OnlyAt books oid k =
      at_book-OnlyAt books k (λ book. cancel_order api book oid) (lookup k books)

  pub modify-OnlyAt :
      (books : OrderBooks api) (oid : ℕ) (k : Text) (sz : ℕ)
      → OnlyAt k books (modify api books oid k sz).0
  unfolding modify
  modify-OnlyAt books oid k sz =
      at_book-OnlyAt books k (λ book. modify_sz api book oid sz) (lookup k books)

already :
    (c k : Text) (ks : List Text)
    → (text_beq k c ≡ true) ⊎ (text_beq k c ≡ false)
    → member k ks ≡ true
    → member c ks ≡ (text_beq k c || member c ks)
already c k ks (inl same) old =
    rw same (subst (λ x. member x ks ≡ true) ((text_eq.beq_iff _ _).0 same) old)
already c k ks (inr other) old = rw other refl

member-insert_coin :
    (c k : Text) (ks : List Text) → member c (insert_coin k ks) ≡ (text_beq k c || member c ks)
member-insert_coin c k ks = elim (Bool-cases (member k ks)) [
  | inl old ↦ rw old (already c k ks (Bool-cases (text_beq k c)) old)
  | inr new ↦ rw new refl
]

module _ {A : Type 0} (api : QueueApi ℕ (InnerL4Order A)) where
  -- The state after diffs: a book that is not marked is as it was, no book is lost, no mark and no
  -- cached view either, and the height and the time stand.
  pub record Tracks (s s' : OrderBookState api) : Type 0 where
    pub same_height : s'.height ≡ s.height
    pub same_cache : s'.l2_cache ≡ s.l2_cache
    pub marks : (c : Text) → member c s.dirty_coins ≡ true → member c s'.dirty_coins ≡ true
    pub unmarked :
        (c : Text)
        → member c s'.dirty_coins ≡ false
        → lookup c s'.order_book ≡ lookup c s.order_book
    pub none_lost :
        (c : Text)
        → is_some (lookup c s.order_book) ≡ true
        → is_some (lookup c s'.order_book) ≡ true

  pub Tracks-refl : (s : OrderBookState api) → Tracks s s
  Tracks-refl s = record {
    same_height = refl;
    same_cache = refl;
    marks = λ c m. m;
    unmarked = λ c m. refl;
    none_lost = λ c there. there;
  }

  pub Tracks-trans : (s s1 s2 : OrderBookState api) → Tracks s s1 → Tracks s1 s2 → Tracks s s2
  Tracks-trans s s1 s2 t u = record {
    same_height = u.same_height ∙ t.same_height;
    same_cache = u.same_cache ∙ t.same_cache;
    marks = λ c m. u.marks c (t.marks c m);
    unmarked = λ c m. u.unmarked c m ∙ t.unmarked c (ground (arith, u.marks c));
    none_lost = λ c there. u.none_lost c (t.none_lost c there);
  }

  -- The state where the coin of the diff is marked.
  abbrev pub marked : OrderBookState api → Text → OrderBookState api
  marked s k = record s { dirty_coins = insert_coin k s.dirty_coins }

  pub marked-Tracks : (s : OrderBookState api) (k : Text) → Tracks s (marked s k)
  marked-Tracks s k = record {
    same_height = refl;
    same_cache = refl;
    marks = λ c m. ground (arith, member-insert_coin c k s.dirty_coins);
    unmarked = λ c m. refl;
    none_lost = λ c there. there;
  }

  pub at_coin-Tracks :
      (s : OrderBookState api) (k : Text) (books : OrderBooks api)
      → OnlyAt api k s.order_book books
      → Tracks s (record (marked s k) { order_book = books })
  at_coin-Tracks s k books only = record {
    same_height = refl;
    same_cache = refl;
    marks = λ c m. ground (arith, member-insert_coin c k s.dirty_coins);
    unmarked = λ c m. only.others c (ground (arith, member-insert_coin c k s.dirty_coins));
    none_lost = only.none_lost;
  }

-- A diff and the status of its oid are of one coin.
abbrev pub Coherent : {A : Type 0} → OrderMap A → NodeDataOrderDiff A → Type 0
Coherent {A = A} m diff =
    (status : NodeDataOrderStatus A) → m diff.oid ≡ some status → status.order.coin ≡ diff.coin

pub opened-coin :
    {A : Type 0} (a : InnerL4Order A) (px sz time : ℕ) → (opened a px sz time).coin ≡ a.coin
opened-coin a px sz time = elim (Bool-cases a.is_trigger) [
  | inl trigger ↦ rw trigger refl
  | inr plain ↦ rw plain refl
]
