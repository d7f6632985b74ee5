-- ===== src/Listener/Pairs/Taken.antt =====
-- What `pop_cache` gives and what it leaves was in the queues before.
use order_book_server.Base.{
  ℕ, zero, suc, ◌-◌, ◌≡◌, refl, ap, inl, inr, Option, none, some, List, [], ◌∷◌, ◌++◌, ltb, ◌==◌,
  Bool-cases, nat_eq,
}
use order_book_server.Ingestion.Batches.{Batch, pop_front, front}
use order_book_server.Listener.{Popped, pop_cache}

-- The batch is in a queue.
abbrev pub Queued : {E : Type 0} → Batch E → List (Batch E × ℕ) → Type 0
Queued {E = E} t deque =
    (ahead : List (Batch E × ℕ)) × (at : ℕ) × (behind : List (Batch E × ℕ)) × (deque
      ≡ ahead ++ (t, at) ∷ behind)

pub Queued-cons :
    {E : Type 0} (t : Batch E) (deque : List (Batch E × ℕ)) (first : Batch E × ℕ)
    → Queued t deque
    → Queued t (first ∷ deque)
Queued-cons t deque first (ahead, at, behind, split) =
    (first ∷ ahead, at, behind, ap (◌∷◌ first) split)

module _ {S D : Type 0} where
  abbrev pub PairQueued :
      List (Batch S × ℕ) → List (Batch D × ℕ) → Option (Batch S × Batch D) → Type 0
  PairQueued ss ds none = Unit
  PairQueued ss ds (some (t, u)) = Queued t ss × Queued u ds

  -- The pair, and every batch that is left, was in the queues.
  pub record IsTakenFrom (ss : List (Batch S × ℕ)) (ds : List (Batch D × ℕ)) (r : Popped S D)
      : Type 0 where
    pub pair : PairQueued ss ds r.0
    pub statuses : (t : Batch S) → Queued t r.1.deque → Queued t ss
    pub diffs : (u : Batch D) → Queued u r.2.deque → Queued u ds

  less_status :
      (ss : List (Batch S × ℕ)) (ds : List (Batch D × ℕ)) (first : Batch S × ℕ) (r : Popped S D)
      → IsTakenFrom ss ds r
      → IsTakenFrom (first ∷ ss) ds r
  less_status ss ds first (none, q, p) taken = record {
    pair = tt;
    statuses = λ t h. Queued-cons t ss first (taken.statuses t h);
    diffs = taken.diffs;
  }
  less_status ss ds first (some (t, u), q, p) taken = record {
    pair = (Queued-cons t ss first taken.pair.0, taken.pair.1);
    statuses = λ t h. Queued-cons t ss first (taken.statuses t h);
    diffs = taken.diffs;
  }

  less_diff :
      (ss : List (Batch S × ℕ)) (ds : List (Batch D × ℕ)) (first : Batch D × ℕ) (r : Popped S D)
      → IsTakenFrom ss ds r
      → IsTakenFrom ss (first ∷ ds) r
  less_diff ss ds first (none, q, p) taken = record {
    pair = tt;
    statuses = taken.statuses;
    diffs = λ u h. Queued-cons u ds first (taken.diffs u h);
  }
  less_diff ss ds first (some (t, u), q, p) taken = record {
    pair = (taken.pair.0, Queued-cons u ds first taken.pair.1);
    statuses = taken.statuses;
    diffs = λ u h. Queued-cons u ds first (taken.diffs u h);
  }

  pub pop_cache-IsTakenFrom :
      (fuel : ℕ) (ss : List (Batch S × ℕ)) (ds : List (Batch D × ℕ)) (sl dl : Option ℕ) (sb db : ℕ)
      → IsTakenFrom ss ds (
          pop_cache fuel
            (record { deque = ss; last_ts = sl; bytes = sb })
            (record { deque = ds; last_ts = dl; bytes = db }))
  unfolding pop_cache front pop_front
  pop_cache-IsTakenFrom zero ss ds sl dl sb db = record {
    pair = tt;
    statuses = λ t h. h;
    diffs = λ u h. h;
  }
  pop_cache-IsTakenFrom (suc fuel) ss [] sl dl sb db = record {
    pair = tt;
    statuses = λ t h. h;
    diffs = λ u h. h;
  }
  pop_cache-IsTakenFrom (suc fuel) [] ((u, at) ∷ ds) sl dl sb db = record {
    pair = tt;
    statuses = λ t h. h;
    diffs = λ u h. h;
  }
  pop_cache-IsTakenFrom (suc fuel) ((t, bt) ∷ ss) ((u, at) ∷ ds) sl dl sb db =
      elim (Bool-cases (ltb u.block_number t.block_number)) [
        | inl less ↦ rw less (
            less_diff ((t, bt) ∷ ss) ds (u, at) _
              (pop_cache-IsTakenFrom fuel ((t, bt) ∷ ss) ds sl dl sb (db - u.wire_bytes)))
        | inr up ↦ elim (Bool-cases (u.block_number == t.block_number)) [
          | inl same ↦
              rw (up, same)
                record {
                  pair = (([], bt, ss, refl), ([], at, ds, refl));
                  statuses = λ t' h. Queued-cons t' ss (t, bt) h;
                  diffs = λ u' h. Queued-cons u' ds (u, at) h;
                }
          | inr greater ↦
              rw (up, greater)
                (less_status ss ((u, at) ∷ ds) (t, bt) _
                  (pop_cache-IsTakenFrom fuel ss ((u, at) ∷ ds) sl dl (sb - t.wire_bytes) db))
        ]
      ]
