-- ===== src/Market/Consistency.antt =====
-- `validate_snapshot_consistency` of server/src/listeners/order_book/utils.rs. Hash maps are lists of
-- entries; the texts of the errors are left out.
pub mod Agreement
use order_book_server.Base.{
  ℕ, Bool, true, false, ◌&&◌, ◌||◌, not, Option, none, some, List, [], ◌∷◌, if◌then◌else◌, ◌==◌,
  length, lookup, erase_key, is_nil, Eq, nat_eq,
}
use order_book_server.Base.Result.{Result, ok, err}
use order_book_server.OrderBook.Types.{Text, text_eq}
use order_book_server.OrderBook.{Snapshot}
use order_book_server.Market.{is_spot}

pub data SnapshotConsistency : Type 0 where
  equal empty_books_added : SnapshotConsistency

pub data Divergence : Type 0 where
  order_counts orders_differ missing_book : Text → Divergence
  extra_books : Divergence

abbrev pub ignored : Bool → Text → Bool
ignored ignore_spot coin = ignore_spot && is_spot coin

module _ {O : Type 0} where
  -- the `filter` of the expected books
  abbrev pub expected_books : Bool → List (Text × Snapshot O) → List (Text × Snapshot O)
  expected_books ignore_spot [] = []
  expected_books ignore_spot ((coin, book) ∷ books) =
      let rest = expected_books ignore_spot books in
      if ignored ignore_spot coin then rest else (coin, book) ∷ rest

  abbrev pub is_empty_book : Snapshot O → Bool
  is_empty_book book = is_nil book.bids && is_nil book.asks

  abbrev pub all_empty : List (Text × Snapshot O) → Bool
  all_empty [] = true
  all_empty ((coin, book) ∷ books) = is_empty_book book && all_empty books

  -- the end of the function
  abbrev pub left_over : List (Text × Snapshot O) → Result Divergence SnapshotConsistency
  left_over books =
      if not (all_empty books)
      then err extra_books
      else ok (if is_nil books then equal else empty_books_added)

module _ {O : Type 0} ⦃e : Eq O⦄ where
  -- `zip` and the test of each pair
  abbrev pub zip_equal : List O → List O → Bool
  zip_equal [] ys = true
  zip_equal (x ∷ xs) [] = true
  zip_equal (x ∷ xs) (y ∷ ys) = e.beq x y && zip_equal xs ys

  -- A book against the expected one, and the comparison of the rest.
  abbrev pub compare_book :
      Text
      → Snapshot O
      → Option (Snapshot O)
      → Result Divergence SnapshotConsistency
      → Result Divergence SnapshotConsistency
      → Result Divergence SnapshotConsistency
  compare_book coin book1 none without rest =
      if not (is_empty_book book1) then err (missing_book coin) else without
  compare_book coin book1 (some book2) without rest =
      if not (length book1.bids == length book2.bids && length book1.asks == length book2.asks)
      then err (order_counts coin)
      else if not (zip_equal book1.bids book2.bids && zip_equal book1.asks book2.asks)
      then err (orders_differ coin)
      else rest

  -- the `for` over the snapshot, with the expected books that are left
  unfoldable pub compare_books :
      Bool
      → List (Text × Snapshot O)
      → List (Text × Snapshot O)
      → Result Divergence SnapshotConsistency
  compare_books ignore_spot [] books = left_over books
  compare_books ignore_spot ((coin, book1) ∷ snapshot) books =
      let on = compare_books ignore_spot snapshot books in
      let rest = compare_books ignore_spot snapshot (erase_key coin books) in
      if ignored ignore_spot coin then on else compare_book coin book1 (lookup coin books) on rest

  unfoldable pub validate_snapshot_consistency :
      List (Text × Snapshot O)
      → List (Text × Snapshot O)
      → Bool
      → Result Divergence SnapshotConsistency
  unfolding compare_books
  validate_snapshot_consistency snapshot expected ignore_spot =
      compare_books ignore_spot snapshot (expected_books ignore_spot expected)
