-- ===== src/Market/Consistency/Agreement.antt =====
-- What a validation that succeeds says of the two snapshots.
use order_book_server.Base.{
  ◌≡◌, refl, sym, ap, ◌∙◌, ◌⊎◌, inl, inr, arith, Bool, true, false, Option, none, some, List, [],
  ◌∷◌, if◌then◌else◌, length, lookup, erase_key, is_nil, Eq, nat_eq, Bool-cases,
}
use order_book_server.Base.Result.{Result, ok}
use order_book_server.OrderBook.Types.{Text, text_eq, text_beq}
use order_book_server.OrderBook.{Snapshot}
use order_book_server.Market.Consistency.{
  SnapshotConsistency, Divergence, ignored, expected_books, is_empty_book, all_empty, zip_equal,
  compare_book, compare_books, validate_snapshot_consistency,
}

module _ {O : Type 0} where
  abbrev pub no_orders : Snapshot O
  no_orders = record { bids = []; asks = [] }

  abbrev pub or_none : Option (Snapshot O) → Snapshot O
  or_none none = no_orders
  or_none (some book) = book

  -- The orders of a coin, none where it has no book.
  abbrev pub orders_at : Text → List (Text × Snapshot O) → Snapshot O
  orders_at coin books = or_none (lookup coin books)

  nil_inv : (xs : List O) → is_nil xs ≡ true → xs ≡ []
  nil_inv [] h = refl
  nil_inv (x ∷ xs) h = cc

  empty_inv : (book : Snapshot O) → is_empty_book book ≡ true → book ≡ no_orders
  empty_inv book h =
      let bids = nil_inv book.bids (ground arith) in
      let asks = nil_inv book.asks (ground arith) in λ i. record { bids = bids i; asks = asks i }

  all_empty-orders_at :
      (c : Text) (books : List (Text × Snapshot O))
      → all_empty books ≡ true
      → orders_at c books ≡ no_orders
  all_empty-orders_at c [] h = refl
  all_empty-orders_at c ((k, book) ∷ books) h = elim (Bool-cases (text_beq k c)) [
    | inl same ↦ rw same (empty_inv book (ground arith))
    | inr other ↦ rw other (all_empty-orders_at c books (ground arith))
  ]

  lookup-erase_key :
      (c k : Text) (books : List (Text × Snapshot O))
      → text_beq k c ≡ false
      → lookup c (erase_key k books) ≡ lookup c books
  lookup-erase_key c k [] other = refl
  lookup-erase_key c k ((j, book) ∷ books) other = elim (Bool-cases (text_beq j k)) [
    | inl hit ↦
        let away : text_beq j c ≡ false = ground (arith, text_eq.beq_iff j k) in rw (hit, away) refl
    | inr miss ↦
        rw miss (ap (λ r. if text_beq j c then some book else r) (lookup-erase_key c k books other))
  ]

  lookup-expected_books :
      (ignore_spot : Bool) (c : Text) (books : List (Text × Snapshot O))
      → ignored ignore_spot c ≡ false
      → lookup c (expected_books ignore_spot books) ≡ lookup c books
  lookup-expected_books ignore_spot c [] seen = refl
  lookup-expected_books ignore_spot c ((k, book) ∷ books) seen =
      elim (Bool-cases (ignored ignore_spot k)) [
        | inl skipped ↦
            let away : text_beq k c ≡ false = elim (Bool-cases (text_beq k c)) [
              | inl same ↦ absurd (
                  apart (
                    sym skipped ∙ (ap (ignored ignore_spot) ((text_eq.beq_iff k c).0 same) ∙ seen)))
              | inr other ↦ other
            ] in
            rw (skipped, away) (lookup-expected_books ignore_spot c books seen)
        | inr kept ↦ rw kept (
            ap (λ r. if text_beq k c then some book else r)
              (lookup-expected_books ignore_spot c books seen))
      ]
    where
      apart : true ≡ false → ⊥
      apart h = cc

module _ {O : Type 0} ⦃e : Eq O⦄ where
  zip_equal→eq : (xs ys : List O) → length xs ≡ length ys → zip_equal xs ys ≡ true → xs ≡ ys
  zip_equal→eq [] [] long same = refl
  zip_equal→eq [] (y ∷ ys) long same = absurd (omega (arith, long))
  zip_equal→eq (x ∷ xs) [] long same = absurd (omega (arith, long))
  zip_equal→eq (x ∷ xs) (y ∷ ys) long same =
      let head : x ≡ y = (e.beq_iff x y).0 (ground arith) in
      let rest = zip_equal→eq xs ys (omega (arith, long)) (ground arith) in λ i. head i ∷ rest i

  -- One book of the loop.
  compare_book-inv :
      (coin : Text) (book1 : Snapshot O) (found : Option (Snapshot O))
      (on rest : Result Divergence SnapshotConsistency) (r : SnapshotConsistency)
      → compare_book coin book1 found on rest ≡ ok r
      → (book1 ≡ or_none found) × ((found ≡ none) × (on ≡ ok r) ⊎ (rest ≡ ok r))
  compare_book-inv coin book1 none on rest r ran =
      (empty_inv book1 (ground arith), inl (refl, ground arith))
  compare_book-inv coin book1 (some book2) on rest r ran =
      let bids = zip_equal→eq book1.bids book2.bids (ground arith) (ground arith) in
      let asks = zip_equal→eq book1.asks book2.asks (ground arith) (ground arith) in
      ((λ i. record { bids = bids i; asks = asks i }), inr (ground arith))

  compare_books-orders_at :
      (ignore_spot : Bool) (snapshot books : List (Text × Snapshot O)) (r : SnapshotConsistency)
      (c : Text)
      → ignored ignore_spot c ≡ false
      → compare_books ignore_spot snapshot books ≡ ok r
      → orders_at c snapshot ≡ orders_at c books
  unfolding compare_books
  compare_books-orders_at ignore_spot [] books r c seen ran =
      sym (all_empty-orders_at c books (ground arith))
  compare_books-orders_at ignore_spot ((k, book1) ∷ snapshot) books r c seen ran =
      elim (Bool-cases (text_beq k c)) [
        | inl same ↦
            let one : k ≡ c = (text_eq.beq_iff k c).0 same in
            let kept : ignored ignore_spot k ≡ false = ap (ignored ignore_spot) one ∙ seen in
            let (agree, after) = compare_book-inv k book1 (lookup k books) on rest r (
              ap (λ b. if b then on else compare_book k book1 (lookup k books) on rest) (sym kept)
              ∙ ran) in
            rw same (agree ∙ ap (λ j. orders_at j books) one)
        | inr other ↦ elim (Bool-cases (ignored ignore_spot k)) [
          | inl skipped ↦ rw other (
              compare_books-orders_at ignore_spot snapshot books r c seen (
                ap (λ b. if b then on else compare_book k book1 (lookup k books) on rest)
                  (sym skipped)
                ∙ ran))
          | inr kept ↦
              let (agree, after) = compare_book-inv k book1 (lookup k books) on rest r (
                ap (λ b. if b then on else compare_book k book1 (lookup k books) on rest) (sym kept)
                ∙ ran) in
              elim after [
                | inl (absent, went) ↦
                    rw other (compare_books-orders_at ignore_spot snapshot books r c seen went)
                | inr went ↦ rw other (
                    compare_books-orders_at ignore_spot snapshot (erase_key k books) r c seen went
                    ∙ ap or_none (lookup-erase_key c k books other))
              ]
        ]
      ]
    where
      on : Result Divergence SnapshotConsistency
      on = compare_books ignore_spot snapshot books

      rest : Result Divergence SnapshotConsistency
      rest = compare_books ignore_spot snapshot (erase_key k books)

  -- A validation that succeeds means that the two snapshots have the same orders, in the same order,
  -- for every coin that is not ignored, with no orders where there is no book.
  pub validate_snapshot_consistency-orders_at :
      (snapshot expected : List (Text × Snapshot O)) (ignore_spot : Bool) (r : SnapshotConsistency)
      (c : Text)
      → ignored ignore_spot c ≡ false
      → validate_snapshot_consistency snapshot expected ignore_spot ≡ ok r
      → orders_at c snapshot ≡ orders_at c expected
  unfolding validate_snapshot_consistency
  validate_snapshot_consistency-orders_at snapshot expected ignore_spot r c seen ran =
      compare_books-orders_at ignore_spot snapshot (expected_books ignore_spot expected) r c seen
        ran
      ∙ ap or_none (lookup-expected_books ignore_spot c expected seen)
