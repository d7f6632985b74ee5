-- ===== src/Ingestion/Batches/Accounting.antt =====
-- The invariant of a batch queue: its byte counter, the order of its heights and its limits.
use order_book_server.Base.{
  ℕ, ◌+◌, ◌-◌, ◌≤◌, ◌<◌, ◌≡◌, refl, ◌⊎◌, Bool, false, Option, none, some, List, [], ◌∷◌, ◌++◌,
  arith, inl, inr, Bool-cases, length, sum_by, sum_by-append, length-append, All, All-append,
}
use order_book_server.Base.Result.{ok}
use order_book_server.Ingestion.Limits.{ResourceLimits}
use order_book_server.Ingestion.Batches.{
  Batch, BatchQueue, new_queue, push, pop_front, pop_from, not_newer, too_old,
}

module _ {E : Type 0} where
  abbrev pub number : Batch E × ℕ → ℕ
  number (batch, at) = batch.block_number

  abbrev pub wire : Batch E × ℕ → ℕ
  wire (batch, at) = batch.wire_bytes

  -- Each height is above the ones before it.
  abbrev pub Ascending : List (Batch E × ℕ) → Type 0
  Ascending [] = Unit
  Ascending (x ∷ xs) = All (λ y. number x < number y) xs × Ascending xs

  -- `last_ts` bounds the heights of the queue.
  abbrev pub AtMost : Option ℕ → Batch E × ℕ → Type 0
  AtMost none x = ⊥
  AtMost (some last) x = number x ≤ last

  pub record IsValid (limits : ResourceLimits) (q : BatchQueue E) : Type 0 where
    pub counted : q.bytes ≡ sum_by wire q.deque
    pub ascending : Ascending q.deque
    pub seen : All (AtMost q.last_ts) q.deque
    pub bytes_bound : q.bytes ≤ limits.queue_bytes
    pub heights_bound : length q.deque ≤ limits.queue_heights

  -- The empty queue is valid.
  pub new_queue-IsValid : (limits : ResourceLimits) → IsValid limits new_queue
  unfolding new_queue
  new_queue-IsValid limits = record {
    counted = refl;
    ascending = tt;
    seen = tt;
    bytes_bound = omega arith;
    heights_bound = omega arith;
  }

  Ascending-snoc :
      (xs : List (Batch E × ℕ)) (x : Batch E × ℕ)
      → Ascending xs
      → All (λ y. number y < number x) xs
      → Ascending (xs ++ x ∷ [])
  Ascending-snoc [] x a below = (tt, tt)
  Ascending-snoc (y ∷ xs) x a below = (
    All-append (λ z. number y < number z) xs (x ∷ []) a.0 (below.0, tt),
    Ascending-snoc xs x a.1 below.1,
  )

  newer_above :
      (last : Option ℕ) (block : Batch E) (now : ℕ) (xs : List (Batch E × ℕ))
      → not_newer last block.block_number ≡ false
      → All (AtMost last) xs
      → All (λ y. number y < block.block_number) xs
        × All (AtMost (some block.block_number)) (xs ++ (block, now) ∷ [])
  newer_above last block now [] newer seen = (tt, (omega arith, tt))
  newer_above none block now (y ∷ xs) newer seen = absurd seen.0
  newer_above (some last) block now (y ∷ xs) newer seen =
      let below : number y < block.block_number = ground arith in
      let (lower, upper) = newer_above (some last) block now xs newer seen.1 in
      ((below, lower), (omega arith, upper))

  -- What `push` returned where it returned a queue.
  pub push-inv :
      (q q' : BatchQueue E) (block : Batch E) (limits : ResourceLimits) (now : ℕ) (accepted : Bool)
      → push q block limits now ≡ ok (q', accepted)
      → (q' ≡ q)
        ⊎ ((not_newer q.last_ts block.block_number ≡ false)
            × (q.bytes + block.wire_bytes ≤ limits.queue_bytes)
            × (length q.deque < limits.queue_heights)
            × (q' ≡ record {
              deque = q.deque ++ (block, now) ∷ [];
              last_ts = some block.block_number;
              bytes = q.bytes + block.wire_bytes;
            }))
  unfolding push
  push-inv q q' block limits now accepted ran =
      elim (Bool-cases (not_newer q.last_ts block.block_number)) [
        | inl old ↦ inl (ground arith)
        | inr newer ↦ elim (Bool-cases (too_old q.deque block.block_number limits now)) [
          | inl stale ↦ ground arith
          | inr fresh ↦ inr (newer, ground arith, ground arith, ground arith)
        ]
      ]

  -- `push` keeps the invariant wherever it returns: no batch is counted twice, none gets in behind
  -- a later height, and the limits hold.
  pub push-IsValid :
      (q q' : BatchQueue E) (block : Batch E) (limits : ResourceLimits) (now : ℕ) (accepted : Bool)
      → IsValid limits q
      → push q block limits now ≡ ok (q', accepted)
      → IsValid limits q'
  push-IsValid q q' block limits now accepted v ran =
      elim (push-inv q q' block limits now accepted ran) [
        | inl same ↦ rw same v
        | inr (newer, fits, room, shape) ↦
            let (below, seen) = newer_above q.last_ts block now q.deque newer v.seen in
            rw shape (record {
              counted = omega (arith, v.counted, sum_by-append wire q.deque ((block, now) ∷ []));
              ascending = Ascending-snoc q.deque (block, now) v.ascending below;
              seen = seen;
              bytes_bound = fits;
              heights_bound = omega (arith, length-append q.deque ((block, now) ∷ []));
            })
      ]

  pop_from-IsValid :
      (limits : ResourceLimits) (last : Option ℕ) (deque : List (Batch E × ℕ)) (bytes : ℕ)
      (b : Batch E) (q' : BatchQueue E)
      → IsValid limits (record { deque = deque; last_ts = last; bytes = bytes })
      → pop_from (record { deque = deque; last_ts = last; bytes = bytes }) deque ≡ some (b, q')
      → IsValid limits q' × (b.wire_bytes ≤ bytes) × (q'.bytes ≡ bytes - b.wire_bytes)
  pop_from-IsValid limits last [] bytes b q' v ran = cc
  pop_from-IsValid limits last ((batch, at) ∷ deque) bytes b q' v ran =
      let same : b ≡ batch = ground arith in
      let shape : q' ≡ record { deque = deque; last_ts = last; bytes = bytes - batch.wire_bytes } =
        ground arith in
      rw (shape, same)
        (
          record {
            counted = omega (arith, v.counted);
            ascending = v.ascending.1;
            seen = v.seen.1;
            bytes_bound = omega (arith, v.bytes_bound);
            heights_bound = omega (arith, v.heights_bound);
          },
          omega (arith, v.counted),
          refl,
        )

  -- `pop_front` keeps the invariant, and its subtraction from the byte counter does not underflow.
  pub pop_front-IsValid :
      (limits : ResourceLimits) (q q' : BatchQueue E) (b : Batch E)
      → IsValid limits q
      → pop_front q ≡ some (b, q')
      → IsValid limits q' × (b.wire_bytes ≤ q.bytes) × (q'.bytes ≡ q.bytes - b.wire_bytes)
  unfolding pop_front
  pop_front-IsValid limits q q' b v ran =
      pop_from-IsValid limits q.last_ts q.deque q.bytes b q' v ran
