-- ===== src/Listener/Pairs.antt =====
-- The pairs that `pop_cache` gives are of one block, so no assertion of the state fails.
pub mod Taken
pub mod First
pub mod Dated
use order_book_server.Base.{
  ℕ, zero, suc, ◌+◌, ◌-◌, ◌<◌, ◌≡◌, refl, ◌⊎◌, inl, inr, arith, Option, none, some, List, [], ◌∷◌,
  ltb, ◌==◌, length, Bool-cases, nat_eq,
}
use order_book_server.Ingestion.Batches.{Batch, BatchQueue, pop_front, front}
use order_book_server.Listener.{Popped, pop_cache}

module _ {S D : Type 0} where
  -- A pair is of one block, and without a pair one of the queues has run out.
  abbrev pub Paired : Option (Batch S × Batch D) → BatchQueue S → BatchQueue D → Type 0
  Paired none statuses diffs = (statuses.deque ≡ []) ⊎ (diffs.deque ≡ [])
  Paired (some (t, u)) statuses diffs = t.block_number ≡ u.block_number

  abbrev pub PairedBy : Popped S D → Type 0
  PairedBy r = Paired r.0 r.1 r.2

  -- With more fuel than there are batches, `pop_cache` gives a pair of one block, or ends with one of
  -- the queues run out.
  pub pop_cache-PairedBy :
      (fuel : ℕ) (ss : List (Batch S × ℕ)) (ds : List (Batch D × ℕ)) (sl dl : Option ℕ) (sb db : ℕ)
      → length ss + length ds < fuel
      → PairedBy (
          pop_cache fuel
            (record { deque = ss; last_ts = sl; bytes = sb })
            (record { deque = ds; last_ts = dl; bytes = db }))
  unfolding pop_cache front pop_front
  pop_cache-PairedBy zero ss ds sl dl sb db more = absurd (omega arith)
  pop_cache-PairedBy (suc fuel) ss [] sl dl sb db more = inr refl
  pop_cache-PairedBy (suc fuel) [] ((u, at) ∷ ds) sl dl sb db more = inl refl
  pop_cache-PairedBy (suc fuel) ((t, bt) ∷ ss) ((u, at) ∷ ds) sl dl sb db more =
      elim (Bool-cases (ltb u.block_number t.block_number)) [
        | inl less ↦
            rw less
              (pop_cache-PairedBy fuel ((t, bt) ∷ ss) ds sl dl sb (db - u.wire_bytes) (omega arith))
        | inr up ↦ elim (Bool-cases (u.block_number == t.block_number)) [
          | inl same ↦ rw (up, same) (ground arith)
          | inr greater ↦
              rw (up, greater)
                (pop_cache-PairedBy fuel ss ((u, at) ∷ ds) sl dl (sb - t.wire_bytes) db
                  (omega arith))
        ]
      ]
